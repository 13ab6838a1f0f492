-- ===== src/Codec/Bcd/Trip.antt =====
-- Round trips of lib/lib.cpp's BCD conversions, and of the DF_BCD report in data/DataClass.hpp.
use native.Mathlib.Nat.{pow-suc}
use mathlib.Core.List.{reverse-cons}
use yd.Prelude.{
  ℕ, zero, suc, ◌+◌, ◌*◌, ◌/◌, ◌%◌, ◌^◌, ◌<◌, min, List, [], ◌∷◌, ◌++◌, reverse, take, length,
  take_all, passes_below, passes_below_each, ◌==◌, ==_iff, true, ◌≡◌, refl, ap, ◌∙◌, arith,
}
use yd.Codec.Bcd.{
  le_bytes, le_value, bytehex2bcd, hex2bcd, hex2bcd_loop, bcd_step, bcd2hex, bigbcd2hex, report_bcd,
  bcd_of_byte,
}
use yd.Codec.Bcd.Digits.{
  bcd_value, foldl-bcd_step, bcd_value-report_bcd, nibbles, hex2bcd_loop-nibbles,
}

pub length-report_bcd : (n v : ℕ) (out : List ℕ) → length (report_bcd n v out) ≡ n + length out
unfolding report_bcd
length-report_bcd zero v out = omega arith
length-report_bcd (suc n) v out =
    omega (arith, length-report_bcd n (v / 100) (bcd_of_byte (v % 100) ∷ out))

-- A number that fits `n` BCD bytes and 64 bits is read back from the digits of its report.
pub bigbcd2hex-report_bcd :
    (n v : ℕ) → v < 100 ^ n → v < 2 ^ 64 → bigbcd2hex (report_bcd n v []) n ≡ v
unfolding bigbcd2hex
bigbcd2hex-report_bcd n v h k =
    let whole : take n (report_bcd n v []) ≡ report_bcd n v [] =
      take_all n (report_bcd n v []) (omega (arith, length-report_bcd n v [])) in
    rw whole (
      foldl-bcd_step (report_bcd n v []) 0 0 (omega arith)
      ∙ rw (bcd_value-report_bcd n v [] h) (omega arith))

bcd_value-append : (xs ys : List ℕ) (r : ℕ) → bcd_value r (xs ++ ys) ≡ bcd_value (bcd_value r xs) ys
bcd_value-append [] ys r = refl
bcd_value-append (x ∷ xs) ys r = bcd_value-append xs ys (r * 100 + (x / 16 * 10 + x % 16))

abbrev double : ℕ → ℕ
double zero = zero
double (suc n) = suc (suc (double n))

-- The bytes of a number of decimal nibbles, read most significant first, give the number.
bcd_value-nibbles :
    (n d : ℕ) → d < 100 ^ n → bcd_value 0 (reverse (le_bytes n (nibbles (double n) d))) ≡ d
bcd_value-nibbles zero zero h = refl
bcd_value-nibbles zero (suc d) h = absurd (omega arith)
bcd_value-nibbles (suc n) d h =
    let w = nibbles (double (suc n)) d in
    let high : w / 256 ≡ nibbles (double n) (d / 10 / 10) = omega arith in
    let ih = bcd_value-nibbles n (d / 10 / 10) (omega (arith, pow-suc 100 n)) in
    rw (reverse-cons, bcd_value-append (reverse (le_bytes n (w / 256))) (w % 256 ∷ []) 0, high, ih)
      (omega arith)

length-le_bytes : (n v : ℕ) → length (le_bytes n v) ≡ n
length-le_bytes zero v = refl
length-le_bytes (suc n) v = ap suc (length-le_bytes n (v / 256))

-- A register of at most sixteen decimal digits survives `hex2bcd` followed by `bcd2hex`.
pub bcd2hex-hex2bcd :
    (hex : List ℕ) (bytes : ℕ)
    → le_value (take (min bytes 8) hex) < 10 ^ 16
    → bcd2hex (le_bytes 8 (hex2bcd hex bytes)) 8 ≡ le_value (take (min bytes 8) hex)
unfolding bcd2hex hex2bcd
bcd2hex-hex2bcd hex bytes h =
    let d = le_value (take (min bytes 8) hex) in
    let digits : hex2bcd_loop 16 0 d 0 ≡ nibbles (double 8) d =
      hex2bcd_loop-nibbles 16 0 d 0 (omega arith) ∙ omega arith in
    rw digits (
      foldl-bcd_step (reverse (le_bytes 8 (nibbles (double 8) d))) 0 0 (omega arith)
      ∙ rw (bcd_value-nibbles 8 d (omega arith)) (omega arith))

two_digit_table : passes_below (λ x. bytehex2bcd x == x / 10 * 16 + x % 10) 100 ≡ true
unfolding passes_below bytehex2bcd
two_digit_table = refl

-- A calendar field below 100 becomes one byte of its two decimal digits, and `bcd2hex` reads it
-- back.
pub bytehex2bcd-bcd2hex :
    (x : ℕ)
    → x < 100
    → (bytehex2bcd x ≡ x / 10 * 16 + x % 10) × (bcd2hex (bytehex2bcd x ∷ []) 1 ≡ x)
unfolding bcd2hex bcd_step
bytehex2bcd-bcd2hex x h =
    let e =
      (==_iff (bytehex2bcd x) (x / 10 * 16 + x % 10)).0
        (passes_below_each (λ y. bytehex2bcd y == y / 10 * 16 + y % 10) 100 x two_digit_table h) in
    (e, rw e (omega arith))
