-- ===== src/Prelude/Bits.antt =====
-- Bit operations at variables: one equation for the lowest digit of each, then the laws that the
-- checksums, BCD digits and bit fields of the program need.
use Prim.Native.Nat.{digits, bitwise, differ, bit_or-bitwise, bit_xor-bitwise}
use native.Mathlib.Nat.{pow-suc}
use yd.Prelude.{ℕ, zero, suc, ◌+◌, ◌*◌, ◌/◌, ◌%◌, ◌^◌, ◌≤◌, ◌<◌, max, bit_or, bit_xor}
use yd.Prelude.{◌≡◌, refl, ap, sym, ◌∙◌, arith}

-- Fuel runs out only behind the last digit of the first number.
module _ (other : ℕ → ℕ) (op : ℕ → ℕ → ℕ) where
  digits-none : (fuel y : ℕ) → digits other op fuel 0 y ≡ other y
  digits-none zero y = refl
  digits-none (suc fuel) y = refl

  digits-enough :
      (fuel x y more : ℕ)
      → x ≤ fuel
      → x ≤ more
      → digits other op fuel x y ≡ digits other op more x y
  digits-enough fuel zero y more h k = digits-none fuel y ∙ sym (digits-none more y)
  digits-enough (suc fuel) (suc x) y (suc more) h k =
      let ih = digits-enough fuel (suc x / 2) (y / 2) more (omega arith) (omega arith) in
      ap (λ (high : ℕ). high * 2 + op (suc x % 2) (y % 2)) ih
  digits-enough zero (suc x) y more h k = absurd (omega arith)
  digits-enough (suc fuel) (suc x) y zero h k = absurd (omega arith)

  digits_self :
      (x y : ℕ) → digits other op x (suc x / 2) (y / 2) ≡ bitwise other op (suc x / 2) (y / 2)
  digits_self x y = digits-enough x (suc x / 2) (y / 2) (suc x / 2) (omega arith) (omega arith)

bit_or_step : (a b : ℕ) → bit_or a b ≡ bit_or (a / 2) (b / 2) * 2 + max (a % 2) (b % 2)
bit_or_step (suc a) b =
    simp bit_or-bitwise
      (ap (λ (high : ℕ). high * 2 + max (suc a % 2) (b % 2)) (digits_self (λ n. n) max a b))
bit_or_step zero b = simp bit_or-bitwise (omega arith)

differ_zero : (b : ℕ) → b < 2 → differ 0 b ≡ b
differ_zero zero h = refl
differ_zero (suc zero) h = refl
differ_zero (suc (suc b)) h = absurd (omega arith)

bit_xor_step : (a b : ℕ) → bit_xor a b ≡ bit_xor (a / 2) (b / 2) * 2 + differ (a % 2) (b % 2)
bit_xor_step zero b = simp bit_xor-bitwise (omega (arith, differ_zero (b % 2) (omega arith)))
bit_xor_step (suc a) b =
    simp bit_xor-bitwise
      (ap (λ (high : ℕ). high * 2 + differ (suc a % 2) (b % 2)) (digits_self (λ n. n) differ a b))

-- The lowest digits of an exclusive or.
differ_lt : (a b : ℕ) → a < 2 → b < 2 → differ a b < 2
differ_lt zero b p q = omega (arith, differ_zero b q)
differ_lt (suc zero) zero p q = omega arith
differ_lt (suc zero) (suc zero) p q = omega arith
differ_lt (suc zero) (suc (suc b)) p q = absurd (omega arith)
differ_lt (suc (suc a)) b p q = absurd (omega arith)

differ_cancel : (a b : ℕ) → a < 2 → b < 2 → differ (differ a b) b ≡ a
differ_cancel zero zero p q = refl
differ_cancel zero (suc zero) p q = refl
differ_cancel zero (suc (suc b)) p q = absurd (omega arith)
differ_cancel (suc zero) zero p q = refl
differ_cancel (suc zero) (suc zero) p q = refl
differ_cancel (suc zero) (suc (suc b)) p q = absurd (omega arith)
differ_cancel (suc (suc a)) b p q = absurd (omega arith)

differ_comm : (a b : ℕ) → a < 2 → b < 2 → differ a b ≡ differ b a
differ_comm zero zero p q = refl
differ_comm zero (suc zero) p q = refl
differ_comm zero (suc (suc b)) p q = absurd (omega arith)
differ_comm (suc zero) zero p q = refl
differ_comm (suc zero) (suc zero) p q = refl
differ_comm (suc zero) (suc (suc b)) p q = absurd (omega arith)
differ_comm (suc (suc a)) b p q = absurd (omega arith)

-- An exclusive or of two k-bit numbers has k bits.
pub bit_xor-lt : (k a b : ℕ) → a < 2 ^ k → b < 2 ^ k → bit_xor a b < 2 ^ k
bit_xor-lt zero zero zero p q = omega arith
bit_xor-lt zero zero (suc b) p q = absurd (omega arith)
bit_xor-lt zero (suc a) b p q = absurd (omega arith)
bit_xor-lt (suc k) a b p q = omega (
  arith,
  pow-suc 2 k,
  bit_xor_step a b,
  bit_xor-lt k (a / 2) (b / 2) (omega (arith, pow-suc 2 k)) (omega (arith, pow-suc 2 k)),
  differ_lt (a % 2) (b % 2) (omega arith) (omega arith),
)

pub bit_xor_comm : (k a b : ℕ) → a < 2 ^ k → b < 2 ^ k → bit_xor a b ≡ bit_xor b a
bit_xor_comm zero zero zero p q = refl
bit_xor_comm zero zero (suc b) p q = absurd (omega arith)
bit_xor_comm zero (suc a) b p q = absurd (omega arith)
bit_xor_comm (suc k) a b p q = omega (
  arith,
  bit_xor_step a b,
  bit_xor_step b a,
  bit_xor_comm k (a / 2) (b / 2) (omega (arith, pow-suc 2 k)) (omega (arith, pow-suc 2 k)),
  differ_comm (a % 2) (b % 2) (omega arith) (omega arith),
)

-- The two parts of a number written by its lowest digit.
halves : (q r n : ℕ) → r < 2 → n ≡ q * 2 + r → (n / 2 ≡ q) × (n % 2 ≡ r)
halves q r n h e = omega arith

pub bit_xor_cancel : (k a b : ℕ) → a < 2 ^ k → b < 2 ^ k → bit_xor (bit_xor a b) b ≡ a
bit_xor_cancel zero zero zero p q = refl
bit_xor_cancel zero zero (suc b) p q = absurd (omega arith)
bit_xor_cancel zero (suc a) b p q = absurd (omega arith)
bit_xor_cancel (suc k) a b p q =
    let low : differ (a % 2) (b % 2) < 2 = differ_lt (a % 2) (b % 2) (omega arith) (omega arith) in
    let parts =
      halves (bit_xor (a / 2) (b / 2)) (differ (a % 2) (b % 2)) (bit_xor a b) low
        (bit_xor_step a b) in
    bit_xor_step (bit_xor a b) b
    ∙ rw (parts.0, parts.1)
        (rw
          (
            bit_xor_cancel k (a / 2) (b / 2) (omega (arith, pow-suc 2 k))
                (omega (arith, pow-suc 2 k)),
            differ_cancel (a % 2) (b % 2) (omega arith) (omega arith),
          )
          (omega arith))

-- Equal results on equal masks come from equal numbers.
pub bit_xor_injective :
    (k a b m : ℕ) → a < 2 ^ k → b < 2 ^ k → m < 2 ^ k → bit_xor a m ≡ bit_xor b m → a ≡ b
bit_xor_injective k a b m p q r e =
    sym (bit_xor_cancel k a m p r) ∙ ap (λ t. bit_xor t m) e ∙ bit_xor_cancel k b m q r

bit_or-zero : (k a : ℕ) → a < 2 ^ k → bit_or a 0 ≡ a
bit_or-zero zero zero p = refl
bit_or-zero zero (suc a) p = absurd (omega arith)
bit_or-zero (suc k) a p =
    omega (arith, bit_or_step a 0, bit_or-zero k (a / 2) (omega (arith, pow-suc 2 k)))

times_pow-suc : (q k : ℕ) → q * 2 ^ suc k ≡ 2 * (q * 2 ^ k)
times_pow-suc q k = omega (arith, ap (λ (t : ℕ). q * t) (pow-suc 2 k))

-- `r | (q << k)` is a sum when `r` has k bits.
pub bit_or_high : (k q r : ℕ) → r < 2 ^ k → bit_or r (q * 2 ^ k) ≡ r + q * 2 ^ k
bit_or_high zero q zero p = omega (arith, bit_or_zero_left)
  where
    bit_or_zero_left : bit_or 0 (q * 2 ^ 0) ≡ q * 2 ^ 0
    bit_or_zero_left = simp bit_or-bitwise
bit_or_high zero q (suc r) p = absurd (omega arith)
bit_or_high (suc k) q r p = ground (
  arith,
  bit_or_step r (q * 2 ^ suc k),
  times_pow-suc q k,
  bit_or_high k q (r / 2) (omega (arith, pow-suc 2 k)),
)

-- `(q << k) | r` likewise; `w` bounds the width of `q`.
pub bit_or_low : (w k q r : ℕ) → q < 2 ^ w → r < 2 ^ k → bit_or (q * 2 ^ k) r ≡ q * 2 ^ k + r
bit_or_low w zero q zero p h =
    omega (arith, ap (λ (t : ℕ). bit_or t 0) one_times, bit_or-zero w q p, one_times)
  where
    one_times : q * 2 ^ 0 ≡ q
    one_times = omega arith
bit_or_low w zero q (suc r) p h = absurd (omega arith)
bit_or_low w (suc k) q r p h = ground (
  arith,
  bit_or_step (q * 2 ^ suc k) r,
  times_pow-suc q k,
  bit_or_low w k q (r / 2) p (omega (arith, pow-suc 2 k)),
)

-- A number with a higher top bit keeps it under an exclusive or.
pub bit_xor_top : (k a b : ℕ) → a < 2 ^ k → 2 ^ k ≤ b → b < 2 ^ suc k → 2 ^ k ≤ bit_xor a b
bit_xor_top zero zero b p q r = omega (arith, bit_xor_step 0 b, differ_zero (b % 2) (omega arith))
bit_xor_top zero (suc a) b p q r = absurd (omega arith)
bit_xor_top (suc k) a b p q r = omega (
  arith,
  pow-suc 2 k,
  pow-suc 2 (suc k),
  bit_xor_step a b,
  bit_xor_top k (a / 2) (b / 2) (omega (arith, pow-suc 2 k)) (omega (arith, pow-suc 2 k))
      (omega (arith, pow-suc 2 k, pow-suc 2 (suc k))),
)

-- The lowest bit of an exclusive or with an odd number flips.
pub bit_xor_odd : (a b : ℕ) → a % 2 ≡ 0 → b % 2 ≡ 1 → bit_xor a b % 2 ≡ 1
bit_xor_odd a b p q =
    let d : differ (a % 2) (b % 2) ≡ 1 = rw (p, q) in omega (arith, bit_xor_step a b)
