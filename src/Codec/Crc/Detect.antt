-- ===== src/Codec/Crc/Detect.antt =====
-- The errors that the checksums of lib/lib.cpp detect, `crc_calculate` and `crc8`.
use yd.Prelude.{
  ℕ, zero, suc, ◌+◌, ◌*◌, ◌/◌, ◌%◌, ◌^◌, ◌≤◌, ◌<◌, bit_xor, List, [], ◌∷◌, ◌++◌, foldl, take,
  length, ◌≡◌, ◌≢◌, sym, ap, ◌∙◌, arith, IsBytes, take_all, take-append, take-take_le,
  length-append,
}
use yd.Prelude.Bits.{bit_xor-lt, bit_xor_comm, bit_xor_injective, bit_xor_top, bit_xor_odd}
use yd.Codec.Crc.{rounds, crc_bit, crc_byte, crc_calculate, crc8_bit, crc8_byte, crc8}

-- A loop over a range that each round keeps and maps injectively.
module _ (B : ℕ) (f : ℕ → ℕ) (keep : (c : ℕ) → c < B → f c < B)
    (inj : (c d : ℕ) → c < B → d < B → f c ≡ f d → c ≡ d) where
  rounds-lt : (n c : ℕ) → c < B → rounds n f c < B
  rounds-lt zero c p = p
  rounds-lt (suc n) c p = rounds-lt n (f c) (keep c p)

  rounds_injective : (n c d : ℕ) → c < B → d < B → rounds n f c ≡ rounds n f d → c ≡ d
  rounds_injective zero c d p q e = e
  rounds_injective (suc n) c d p q e =
      inj c d p q (rounds_injective n (f c) (f d) (keep c p) (keep d q) e)

-- A checksum whose step is injective in the sum and in the byte.
module _ (B : ℕ) (g : ℕ → ℕ → ℕ) (keep : (c b : ℕ) → c < B → b < 256 → g c b < B)
    (inj_sum : (c d b : ℕ) → c < B → d < B → b < 256 → g c b ≡ g d b → c ≡ d)
    (inj_byte : (c a b : ℕ) → c < B → a < 256 → b < 256 → g c a ≡ g c b → a ≡ b) where
  foldl-lt : (xs : List ℕ) (c : ℕ) → c < B → IsBytes xs → foldl g c xs < B
  foldl-lt [] c p h = p
  foldl-lt (x ∷ xs) c p h = foldl-lt xs (g c x) (keep c x p h.0) h.1

  foldl_injective :
      (xs : List ℕ) (c d : ℕ) → c < B → d < B → IsBytes xs → foldl g c xs ≡ foldl g d xs → c ≡ d
  foldl_injective [] c d p q h e = e
  foldl_injective (x ∷ xs) c d p q h e =
      inj_sum c d x p q h.0
        (foldl_injective xs (g c x) (g d x) (keep c x p h.0) (keep d x q h.0) h.1 e)

  foldl_detects :
      (pre post : List ℕ) (c a b : ℕ)
      → c < B
      → a < 256
      → b < 256
      → IsBytes pre
      → IsBytes post
      → a ≢ b
      → foldl g c (pre ++ a ∷ post) ≢ foldl g c (pre ++ b ∷ post)
  foldl_detects [] post c a b p ha hb h1 h2 ne e = ne (
      inj_byte c a b p ha hb
        (foldl_injective post (g c a) (g c b) (keep c a p ha) (keep c b p hb) h2 e))
  foldl_detects (x ∷ pre) post c a b p ha hb h1 h2 ne e =
      foldl_detects pre post (g c x) a b (keep c x p h1.0) ha hb h1.1 h2 ne e

crc_bit-lt : (c : ℕ) → c < 2 ^ 16 → crc_bit c < 2 ^ 16
unfolding crc_bit
crc_bit-lt c p = ground (arith, bit_xor-lt 16 (c / 2) 0xA001)

crc_bit_injective : (c d : ℕ) → c < 2 ^ 16 → d < 2 ^ 16 → crc_bit c ≡ crc_bit d → c ≡ d
unfolding crc_bit
crc_bit_injective c d p q e = ground (
  arith,
  bit_xor_top 15 (c / 2) 0xA001,
  bit_xor_top 15 (d / 2) 0xA001,
  bit_xor_injective 16 (c / 2) (d / 2) 0xA001,
)

crc8_bit-lt : (c : ℕ) → c < 2 ^ 8 → crc8_bit c < 2 ^ 8
unfolding crc8_bit
crc8_bit-lt c p = ground (arith, bit_xor-lt 8 (c * 2 % 256) 0x07)

crc8_bit_injective : (c d : ℕ) → c < 2 ^ 8 → d < 2 ^ 8 → crc8_bit c ≡ crc8_bit d → c ≡ d
unfolding crc8_bit
crc8_bit_injective c d p q e = ground (
  arith,
  bit_xor_odd (c * 2 % 256) 0x07,
  bit_xor_odd (d * 2 % 256) 0x07,
  bit_xor_injective 8 (c * 2 % 256) (d * 2 % 256) 0x07,
)

-- Mixing in a byte is injective on both sides.
xor_injective_right :
    (k c a b : ℕ) → c < 2 ^ k → a < 2 ^ k → b < 2 ^ k → bit_xor c a ≡ bit_xor c b → a ≡ b
xor_injective_right k c a b p q r e =
    bit_xor_injective k a b c q r p (bit_xor_comm k a c q p ∙ e ∙ bit_xor_comm k c b p r)

crc_byte-lt : (c b : ℕ) → c < 2 ^ 16 → b < 256 → crc_byte c b < 2 ^ 16
unfolding crc_byte
crc_byte-lt c b p q =
    rounds-lt (2 ^ 16) crc_bit crc_bit-lt crc_bit_injective 8 (bit_xor c b)
      (bit_xor-lt 16 c b p (omega arith))

crc_byte_sum : (c d b : ℕ) → c < 2 ^ 16 → d < 2 ^ 16 → b < 256 → crc_byte c b ≡ crc_byte d b → c ≡ d
unfolding crc_byte
crc_byte_sum c d b p q r e = bit_xor_injective 16 c d b p q (omega arith) (
    rounds_injective (2 ^ 16) crc_bit crc_bit-lt crc_bit_injective 8 (bit_xor c b) (bit_xor d b)
      (bit_xor-lt 16 c b p (omega arith)) (bit_xor-lt 16 d b q (omega arith)) e)

crc_byte_byte : (c a b : ℕ) → c < 2 ^ 16 → a < 256 → b < 256 → crc_byte c a ≡ crc_byte c b → a ≡ b
unfolding crc_byte
crc_byte_byte c a b p q r e = xor_injective_right 16 c a b p (omega arith) (omega arith) (
    rounds_injective (2 ^ 16) crc_bit crc_bit-lt crc_bit_injective 8 (bit_xor c a) (bit_xor c b)
      (bit_xor-lt 16 c a p (omega arith)) (bit_xor-lt 16 c b p (omega arith)) e)

crc8_byte-lt : (c b : ℕ) → c < 2 ^ 8 → b < 256 → crc8_byte c b < 2 ^ 8
unfolding crc8_byte
crc8_byte-lt c b p q =
    rounds-lt (2 ^ 8) crc8_bit crc8_bit-lt crc8_bit_injective 8 (bit_xor c b) (bit_xor-lt 8 c b p q)

crc8_byte_sum :
    (c d b : ℕ) → c < 2 ^ 8 → d < 2 ^ 8 → b < 256 → crc8_byte c b ≡ crc8_byte d b → c ≡ d
unfolding crc8_byte
crc8_byte_sum c d b p q r e = bit_xor_injective 8 c d b p q r (
    rounds_injective (2 ^ 8) crc8_bit crc8_bit-lt crc8_bit_injective 8 (bit_xor c b) (bit_xor d b)
      (bit_xor-lt 8 c b p r) (bit_xor-lt 8 d b q r) e)

crc8_byte_byte : (c a b : ℕ) → c < 2 ^ 8 → a < 256 → b < 256 → crc8_byte c a ≡ crc8_byte c b → a ≡ b
unfolding crc8_byte
crc8_byte_byte c a b p q r e = xor_injective_right 8 c a b p q r (
    rounds_injective (2 ^ 8) crc8_bit crc8_bit-lt crc8_bit_injective 8 (bit_xor c a) (bit_xor c b)
      (bit_xor-lt 8 c a p q) (bit_xor-lt 8 c b p r) e)

take-IsBytes : (n : ℕ) (xs : List ℕ) → IsBytes xs → IsBytes (take n xs)
take-IsBytes zero xs h = tt
take-IsBytes (suc n) [] h = tt
take-IsBytes (suc n) (x ∷ xs) h = (h.0, take-IsBytes n xs h.1)

-- The frame checksum of bytes fits sixteen bits.
pub crc_calculate-lt : (xs : List ℕ) (len : ℕ) → IsBytes xs → crc_calculate xs len < 2 ^ 16
unfolding crc_calculate
crc_calculate-lt xs len h =
    foldl-lt (2 ^ 16) crc_byte crc_byte-lt crc_byte_sum crc_byte_byte (take (len % 256) xs) 0xffff
      (omega arith) (take-IsBytes (len % 256) xs h)

-- The frame checksum over a whole message of at most 255 bytes differs between two messages that
-- differ in exactly one byte.
pub crc_calculate_detects :
    (pre post : List ℕ) (a b len : ℕ)
    → IsBytes pre
    → IsBytes post
    → a < 256
    → b < 256
    → length pre + 1 + length post ≡ len
    → len < 256
    → a ≢ b
    → crc_calculate (pre ++ a ∷ post) len ≢ crc_calculate (pre ++ b ∷ post) len
unfolding crc_calculate
crc_calculate_detects pre post a b len hp hq ha hb e small ne =
    let same : len % 256 ≡ len = omega arith in
    let ta = take_all len (pre ++ a ∷ post) (omega (arith, length-append pre (a ∷ post))) in
    let tb = take_all len (pre ++ b ∷ post) (omega (arith, length-append pre (b ∷ post))) in
    rw (same, ta, tb)
      (foldl_detects (2 ^ 16) crc_byte crc_byte-lt crc_byte_sum crc_byte_byte pre post 0xffff a b
        (omega arith) ha hb hp hq ne)

-- The checksum of the saved rain counter differs between two texts that differ in one byte.
pub crc8_detects :
    (pre post : List ℕ) (a b len : ℕ)
    → IsBytes pre
    → IsBytes post
    → a < 256
    → b < 256
    → length pre + 1 + length post ≡ len
    → a ≢ b
    → crc8 (pre ++ a ∷ post) len ≢ crc8 (pre ++ b ∷ post) len
unfolding crc8
crc8_detects pre post a b len hp hq ha hb e ne =
    let ta = take_all len (pre ++ a ∷ post) (omega (arith, length-append pre (a ∷ post))) in
    let tb = take_all len (pre ++ b ∷ post) (omega (arith, length-append pre (b ∷ post))) in
    rw (ta, tb)
      (foldl_detects (2 ^ 8) crc8_byte crc8_byte-lt crc8_byte_sum crc8_byte_byte pre post 0 a b
        (omega arith) ha hb hp hq ne)

-- Only the first `len % 256` bytes of a message enter its frame checksum: whatever follows them
-- goes unchecked.
crc_calculate_blind :
    (xs ys zs : List ℕ) (len : ℕ)
    → length xs ≡ len % 256
    → crc_calculate (xs ++ ys) len ≡ crc_calculate (xs ++ zs) len
unfolding crc_calculate
crc_calculate_blind xs ys zs len e = rw (← e, take-append xs ys, take-append xs zs)

-- Buffers that begin alike have the same checksum over what they share.
pub crc_calculate-take :
    (n : ℕ) (xs ys : List ℕ) (len : ℕ)
    → take n xs ≡ take n ys
    → len ≤ n
    → crc_calculate xs len ≡ crc_calculate ys len
unfolding crc_calculate
crc_calculate-take n xs ys len e h =
    let shared : take (len % 256) xs ≡ take (len % 256) ys =
      sym (take-take_le (len % 256) n xs (omega arith))
      ∙ ap (take (len % 256)) e
      ∙ take-take_le (len % 256) n ys (omega arith) in
    rw shared
