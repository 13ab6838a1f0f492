-- ===== src/Codec/Bcd/Digits.antt =====
-- The loops of lib/lib.cpp's BCD conversions against plain recursions on decimal digits.
use native.Mathlib.Nat.{pow-suc}
use yd.Prelude.{
  ℕ, zero, suc, ◌+◌, ◌*◌, ◌/◌, ◌%◌, ◌^◌, ◌<◌, List, [], ◌∷◌, foldl, ◌≡◌, refl, sym, ap, ◌∙◌, arith,
}
use yd.Prelude.Bits.{bit_or_high}
use yd.Codec.Bcd.{bcd_step, bcd_of_byte, report_bcd, hex2bcd_loop}

-- The number that big-endian BCD bytes stand for, with no bound on its width.
abbrev pub bcd_value : ℕ → List ℕ → ℕ
bcd_value r [] = r
bcd_value r (b ∷ bs) = bcd_value (r * 100 + (b / 16 * 10 + b % 16)) bs

-- The 64-bit loop computes it modulo 2 ^ 64.
pub foldl-bcd_step :
    (bs : List ℕ) (r s : ℕ) → s % 2 ^ 64 ≡ r → foldl bcd_step r bs ≡ bcd_value s bs % 2 ^ 64
unfolding bcd_step
foldl-bcd_step [] r s e = sym e
foldl-bcd_step (b ∷ bs) r s e =
    foldl-bcd_step bs ((r * 100 + (b / 2 ^ 4 * 10 + b % 2 ^ 4)) % 2 ^ 64)
      (s * 100 + (b / 16 * 10 + b % 16)) (omega arith)

-- A byte of two decimal digits is read back as its value.
pub bcd_of_byte-eq : (a : ℕ) → a < 100 → bcd_of_byte a ≡ a % 10 + a / 10 * 16
unfolding bcd_of_byte
bcd_of_byte-eq a h = bit_or_high 4 (a / 10) (a % 10) (omega arith)

-- Reading what `_to_report` has written so far in front of `out`.
pub bcd_value-report_bcd :
    (n v : ℕ) (out : List ℕ) → v < 100 ^ n → bcd_value 0 (report_bcd n v out) ≡ bcd_value v out
unfolding report_bcd
bcd_value-report_bcd zero zero out h = refl
bcd_value-report_bcd zero (suc v) out h = absurd (omega arith)
bcd_value-report_bcd (suc n) v out h =
    let b = bcd_of_byte-eq (v % 100) (omega arith) in
    bcd_value-report_bcd n (v / 100) (bcd_of_byte (v % 100) ∷ out) (omega (arith, pow-suc 100 n))
    ∙ ap (λ t. bcd_value t out) (omega (arith, b))

-- The decimal digits of `d`, one to a nibble, by plain recursion.
abbrev pub nibbles : ℕ → ℕ → ℕ
nibbles zero d = 0
nibbles (suc n) d = d % 10 + 16 * nibbles n (d / 10)

four_more : (i : ℕ) → 2 ^ (4 * (i + 1)) ≡ 16 * 2 ^ (4 * i)
four_more i =
    let e : 4 * (i + 1) ≡ suc (suc (suc (suc (4 * i)))) = omega arith in
    rw e (
      omega (
        arith,
        pow-suc 2 (4 * i),
        pow-suc 2 (suc (4 * i)),
        pow-suc 2 (suc (suc (4 * i))),
        pow-suc 2 (suc (suc (suc (4 * i)))),
      ))

digit_fits : (p r d : ℕ) → r < p → d < 10 → r + d * p < 16 * p
digit_fits p r d h k = grind arith

pub hex2bcd_loop-nibbles :
    (n i d r : ℕ) → r < 2 ^ (4 * i) → hex2bcd_loop n i d r ≡ r + 2 ^ (4 * i) * nibbles n d
unfolding hex2bcd_loop
hex2bcd_loop-nibbles zero i d r h = omega arith
hex2bcd_loop-nibbles (suc n) i d r h =
    let joined = bit_or_high (4 * i) (d % 10) r h in
    let room = digit_fits (2 ^ (4 * i)) r (d % 10) h (omega arith) in
    rw joined (
      hex2bcd_loop-nibbles n (i + 1) (d / 10) (r + d % 10 * 2 ^ (4 * i))
        (omega (arith, four_more i, room))
      ∙ rw (four_more i) (omega arith))
