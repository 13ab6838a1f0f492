-- ===== src/Update/Order.antt =====
-- The order of the versions, `is_version_bigger` of daemon/updata.cpp.
use yd.Prelude.{
  ℕ, ◌+◌, ◌*◌, ◌%◌, ◌^◌, ◌<◌, bit_or, List, [], ◌∷◌, ltb, ◌==◌, if◌then◌else◌, ◌≡◌, refl, arith,
}
use yd.Prelude.Bits.{bit_or_low}
use yd.Prelude.Int.{ℤ, pos, negsuc}
use yd.Update.{Version, version_high, version_low, is_version_bigger}

-- The order of two rows of numbers by the first place where they differ: -1 where the first row is the
-- larger one, 1 where it is the smaller one.
abbrev pub by_places : List ℕ → List ℕ → ℤ
by_places (a ∷ xs) (b ∷ ys) =
    let rest = by_places xs ys in if ltb b a then negsuc 0 else if ltb a b then pos 1 else rest
by_places [] ys = pos 0
by_places (a ∷ xs) [] = pos 0

abbrev pub places : Version → List ℕ
places v = v.major ∷ v.minor ∷ v.mminor ∷ v.date ∷ v.hour ∷ v.min ∷ v.second ∷ []

-- A version whose numbers keep to their places.
pub record IsOrdinary (v : Version) : Type 0 where
  pub major : v.major < 2 ^ 32
  pub minor : v.minor < 8
  pub mminor : v.mminor < 8
  pub date : v.date < 100000000
  pub hour : v.hour < 1000000
  pub min : v.min < 100
  pub second : v.second < 100

abbrev order : ℕ → ℕ → ℤ → ℤ
order a b rest = if ltb b a then negsuc 0 else if ltb a b then pos 1 else rest

-- A number of two places is ordered by the upper place and then by the lower one.
order-octal :
    (a b x y : ℕ)
    → (rest : ℤ) → x < 8
    → y < 8
    → order (a * 8 + x) (b * 8 + y) rest ≡ order a b (order x y rest)
order-octal a b x y rest h k = ground arith

order-hundred :
    (a b x y : ℕ)
    → (rest : ℤ) → x < 100
    → y < 100
    → order (a * 100 + x) (b * 100 + y) rest ≡ order a b (order x y rest)
order-hundred a b x y rest h k = ground arith

order-million :
    (a b x y : ℕ)
    → (rest : ℤ) → x < 1000000
    → y < 1000000
    → order (a * 1000000 + x) (b * 1000000 + y) rest ≡ order a b (order x y rest)
order-million a b x y rest h k = ground arith

-- The nested tests of the code.
order-tests :
    (a b : ℕ)
    → (rest : ℤ) → (if ltb b a then negsuc 0 else if a == b then rest else pos 1) ≡ order a b rest
order-tests a b rest = ground arith

high_lem : (v : Version) → IsOrdinary v → version_high v ≡ (v.major * 8 + v.minor) * 8 + v.mminor
unfolding version_high
high_lem v k =
    let m : v.major * 8 % 2 ^ 64 ≡ v.major * 8 = omega (arith, k.major) in
    let e : bit_or (v.major * 8) v.minor ≡ v.major * 8 + v.minor =
      bit_or_low 32 3 v.major v.minor k.major k.minor in
    let n : (v.major * 8 + v.minor) * 8 % 2 ^ 64 ≡ (v.major * 8 + v.minor) * 8 =
      omega (arith, k.major, k.minor) in
    rw (m, e, n)
      (bit_or_low 36 3 (v.major * 8 + v.minor) v.mminor (omega (arith, k.major, k.minor)) k.mminor)

low_lem :
    (v : Version)
    → IsOrdinary v
    → version_low v ≡ ((v.date * 1000000 + v.hour) * 100 + v.min) * 100 + v.second
unfolding version_low
low_lem v k = omega (arith, k.date, k.hour, k.min, k.second)

-- The comparison of two versions is the order by the first number where they differ: the three numbers of
-- the version, the date, then hour, minute and second. It asks that the first number is below 2 ^ 32, the
-- second and the third below 8, the date has eight digits at most, the hour six, and minute and second two.
pub is_version_bigger-by_places :
    (v w : Version)
    → IsOrdinary v
    → IsOrdinary w
    → is_version_bigger v w ≡ by_places (places v) (places w)
unfolding is_version_bigger
is_version_bigger-by_places v w k j =
    rw
      (
        high_lem v k,
        high_lem w j,
        low_lem v k,
        low_lem w j,
        order-tests,
        order-tests,
        order-octal _ _ _ _ _ k.mminor j.mminor,
        order-octal _ _ _ _ _ k.minor j.minor,
        order-hundred _ _ _ _ _ k.second j.second,
        order-hundred _ _ _ _ _ k.min j.min,
        order-million _ _ _ _ _ k.hour j.hour,
      )
      refl
