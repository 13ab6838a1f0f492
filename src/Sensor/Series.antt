-- ===== src/Sensor/Series.antt =====
-- The five-minute series of the water levels, `set_DRZ` and `get_DRZ` of app/down/waterlevel.cpp.
use yd.Prelude.{
  ℕ, ◌+◌, ◌*◌, ◌/◌, ◌%◌, ◌^◌, ◌≤◌, ◌<◌, bit_or, List, get_or, get_or-set_self, get_or-set_ne, set,
  length, length-set, Bool, true, false, ◌==◌, ◌&&◌, ◌||◌, ltb, le→ltb_false, if◌then◌else◌,
  Bool-cases, ◌≡◌, ◌≢◌, inl, inr, refl, subst, ap, ap₂, ◌∙◌, arith,
}
use yd.Prelude.Bits.{bit_or_low}
use yd.Prelude.Int.{ℤ}
use yd.Item.{Item, bits}
use yd.Store.{DataClass, at}
use yd.Store.Access.{same_item, is_missing, at-modify, is_missing-modify}
use yd.Sensor.{set_hex}
use yd.Sensor.WaterLevel.{set_drz, get_drz}

-- The cells of an item behind a write of one.
at-set_hex :
    (c : DataClass) (id m i v : ℕ)
    → at (set_hex c id i v) m
      ≡ (if same_item c id m then record (at c m) { hex = set (at c m).hex i v } else at c m)
unfolding set_hex
at-set_hex c id m i v = at-modify c id m (λ x. record x { hex = set x.hex i v }) (λ x. refl)

-- Two identifiers of the table, at most one of them unknown.
pub same_item_lem :
    (c : DataClass) (id m : ℕ)
    → is_missing c id ≡ false
    → id < 2 ^ 16
    → m < 2 ^ 16
    → same_item c id m ≡ (id == m)
same_item_lem c id m there h k =
    let e : id % 2 ^ 16 ≡ id = omega arith in
    let f : m % 2 ^ 16 ≡ m = omega arith in
    ap (λ b. (id % 2 ^ 16 == m % 2 ^ 16) || (b && is_missing c m)) there
    ∙ or_false (id % 2 ^ 16 == m % 2 ^ 16)
    ∙ ap₂ (λ a b. a == b) e f
  where
    or_false : (b : Bool) → (b || false) ≡ b
    or_false true = refl
    or_false false = refl

-- The two bytes of a value, in cells `k` and `k + 1`.
pair_back : (n : ℕ) → bit_or (n / 2 ^ 8 % 2 ^ 8 * 2 ^ 8) (n % 2 ^ 8) ≡ n % 2 ^ 16
pair_back n =
    omega (arith, bit_or_low 8 8 (n / 2 ^ 8 % 2 ^ 8) (n % 2 ^ 8) (omega arith) (omega arith))

abbrev pair_at : List ℕ → ℕ → ℕ
pair_at hex k = bit_or (get_or hex k 0 * 2 ^ 8) (get_or hex (k + 1) 0)

abbrev put_pair : List ℕ → ℕ → ℕ → ℕ → List ℕ
put_pair hex k a b = set (set hex k a) (k + 1) b

pair_at-put_same :
    (hex : List ℕ) (k n : ℕ)
    → k + 1 < length hex
    → pair_at (put_pair hex k (n / 2 ^ 8 % 2 ^ 8) (n % 2 ^ 8)) k ≡ n % 2 ^ 16
pair_at-put_same hex k n fits =
    let a = n / 2 ^ 8 % 2 ^ 8 in
    let b = n % 2 ^ 8 in
    let high : get_or (set (set hex k a) (k + 1) b) k 0 ≡ a =
      get_or-set_ne (set hex k a) (k + 1) k b 0 (λ e. omega arith)
      ∙ get_or-set_self hex k a 0 (omega arith) in
    let low : get_or (set (set hex k a) (k + 1) b) (k + 1) 0 ≡ b =
      get_or-set_self (set hex k a) (k + 1) b 0 (omega (arith, length-set hex k a)) in
    ap₂ (λ x y. bit_or (x * 2 ^ 8) y) high low ∙ pair_back n

pair_at-put_other :
    (hex : List ℕ) (i j a b : ℕ)
    → i ≢ j
    → pair_at (put_pair hex (i * 2) a b) (j * 2) ≡ pair_at hex (j * 2)
pair_at-put_other hex i j a b ne =
    let cell : (k : ℕ)
        → i * 2 ≢ k
        → i * 2 + 1 ≢ k
        → get_or (set (set hex (i * 2) a) (i * 2 + 1) b) k 0 ≡ get_or hex k 0 =
      λ k n1 n2.
        get_or-set_ne (set hex (i * 2) a) (i * 2 + 1) k b 0 n2
        ∙ get_or-set_ne hex (i * 2) k a 0 n1 in
    ap₂ (λ x y. bit_or (x * 2 ^ 8) y) (cell (j * 2) (λ e. ne (omega arith)) (λ e. omega arith))
      (cell (j * 2 + 1) (λ e. omega arith) (λ e. ne (omega arith)))

-- A cell's item behind a write, where the tests on the identifiers are known.
at-set_hex_self :
    (c : DataClass) (id i v : ℕ) → (at (set_hex c id i v) id).hex ≡ set (at c id).hex i v
at-set_hex_self c id i v =
    let e : (id % 2 ^ 16 == id % 2 ^ 16) ≡ true = ground arith in
    let s : same_item c id id ≡ true = ap (λ b. b || (is_missing c id && is_missing c id)) e in
    ap (λ x. x.hex) (at-set_hex c id id i v)
    ∙ ap
        (λ (b : Bool).
          (if b then record (at c id) { hex = set (at c id).hex i v } else at c id).hex)
        s

at-set_hex_other :
    (c : DataClass) (id m i v : ℕ) → same_item c id m ≡ false → at (set_hex c id i v) m ≡ at c m
at-set_hex_other c id m i v e =
    at-set_hex c id m i v
    ∙ ap (λ (b : Bool). if b then record (at c m) { hex = set (at c m).hex i v } else at c m) e

is_missing-set_hex :
    (c : DataClass) (id m i v : ℕ) → is_missing (set_hex c id i v) m ≡ is_missing c m
unfolding set_hex
is_missing-set_hex c id m i v =
    is_missing-modify c id m (λ x. record x { hex = set x.hex i v }) (λ x. refl)

-- The table behind `set_DRZ` of series `i`.
abbrev pub with_drz : DataClass → ℕ → ℤ → ℕ → DataClass
with_drz c i v off =
    set_hex (set_hex c (0xF5 + i) (off * 2) (bits v / 2 ^ 8 % 2 ^ 8)) (0xF5 + i) (off * 2 + 1)
      (bits v % 2 ^ 8)

set_drz_lem :
    (c : DataClass) (i off : ℕ) (v : ℤ)
    → i < 8
    → (set_drz c (0xF5 + i) v off).0 ≡ with_drz c i v off
unfolding set_drz
set_drz_lem c i off v h =
    let low : ltb (0xF5 + i) 0xF5 ≡ false = le→ltb_false (0xF5 + i) 0xF5 (omega arith) in
    let high : ltb 0xFC (0xF5 + i) ≡ false = le→ltb_false 0xFC (0xF5 + i) (omega arith) in
    rw (low, high) refl

get_drz-with_same :
    (c : DataClass) (i off o : ℕ) (v : ℤ)
    → off < 12
    → o < 12
    → 24 ≤ length (at c (0xF5 + i)).hex
    → get_drz (with_drz c i v off) i o ≡ (if off == o then bits v % 2 ^ 16 else get_drz c i o)
unfolding get_drz
get_drz-with_same c i off o v h k fits =
    let id = 0xF5 + i in
    let a = bits v / 2 ^ 8 % 2 ^ 8 in
    let b = bits v % 2 ^ 8 in
    let c1 = set_hex c id (off * 2) a in
    let hex : (at (with_drz c i v off) id).hex ≡ put_pair (at c id).hex (off * 2) a b =
      at-set_hex_self c1 id (off * 2 + 1) b
      ∙ ap (λ t. set t (off * 2 + 1) b) (at-set_hex_self c id (off * 2) a) in
    let small : o % 12 ≡ o = omega arith in
    ap₂ (λ t n. pair_at t (n * 2)) hex small ∙ elim (Bool-cases (off == o)) [
      | inl e ↦
          let same : off ≡ o = ground (arith, e) in
          rw e (
            subst (λ n. pair_at (put_pair (at c id).hex (off * 2) a b) (n * 2) ≡ bits v % 2 ^ 16)
              same (pair_at-put_same (at c id).hex (off * 2) (bits v) (omega arith)))
      | inr e ↦
          rw (e, small)
            (pair_at-put_other (at c id).hex off o a b (λ same. ground (arith, e, same)))
    ]

get_drz-with_other :
    (c : DataClass) (i j off o : ℕ) (v : ℤ)
    → i < 8
    → j < 8
    → (i == j) ≡ false
    → is_missing c (0xF5 + i) ≡ false
    → get_drz (with_drz c i v off) j o ≡ get_drz c j o
unfolding get_drz
get_drz-with_other c i j off o v h k ne there =
    let id = 0xF5 + i in
    let c1 = set_hex c id (off * 2) (bits v / 2 ^ 8 % 2 ^ 8) in
    let apart : (id == 0xF5 + j) ≡ false = ground (arith, ne) in
    let s : same_item c id (0xF5 + j) ≡ false =
      same_item_lem c id (0xF5 + j) there (omega arith) (omega arith) ∙ apart in
    let s1 : same_item c1 id (0xF5 + j) ≡ false =
      same_item_lem c1 id (0xF5 + j) (is_missing-set_hex c id id _ _ ∙ there) (omega arith)
        (omega arith)
      ∙ apart in
    ap (λ (x : Item). pair_at x.hex (o % 12 * 2))
      (at-set_hex_other c1 id (0xF5 + j) _ _ s1 ∙ at-set_hex_other c id (0xF5 + j) _ _ s)

-- The series of the levels are eight arrays of twelve values: reading a value of any series behind
-- `set_DRZ` gives the low 16 bits of what was set, in the series and at the place that was set, and
-- what was there before everywhere else, where the table has the series with its 24 bytes.
pub get_drz-set_drz :
    (c : DataClass) (i j off o : ℕ) (v : ℤ)
    → i < 8
    → j < 8
    → off < 12
    → o < 12
    → is_missing c (0xF5 + i) ≡ false
    → 24 ≤ length (at c (0xF5 + i)).hex
    → get_drz (set_drz c (0xF5 + i) v off).0 j o
      ≡ (if i == j && off == o then bits v % 2 ^ 16 else get_drz c j o)
get_drz-set_drz c i j off o v hi hj ho hp there fits =
    ap (λ t. get_drz t j o) (set_drz_lem c i off v hi) ∙ elim (Bool-cases (i == j)) [
      | inr e ↦ rw e (get_drz-with_other c i j off o v hi hj e there)
      | inl e ↦
          let same : i ≡ j = ground (arith, e) in
          rw e (
            subst
              (λ n.
                get_drz (with_drz c i v off) n o
                ≡ (if off == o then bits v % 2 ^ 16 else get_drz c n o))
              same (get_drz-with_same c i off o v ho hp fits))
    ]
