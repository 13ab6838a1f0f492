-- ===== src/Codec/Bcd.antt =====
-- Binary coded decimal, lib/lib.cpp: two decimal digits to a byte, most or least significant byte
-- first, and the conversions between a number and its digits.
pub mod Digits
pub mod Trip
use yd.Prelude.{
  ℕ, zero, suc, ◌+◌, ◌*◌, ◌/◌, ◌%◌, ◌^◌, min, bit_or, List, [], ◌∷◌, foldl, reverse, take,
}

-- The bytes of an integer in memory, lowest first, and the integer of such bytes: what `memcpy`
-- between a number and a buffer does on the little-endian targets.
abbrev pub le_bytes : ℕ → ℕ → List ℕ
le_bytes zero v = []
le_bytes (suc n) v = (v % 256) ∷ le_bytes n (v / 256)

abbrev pub le_value : List ℕ → ℕ
le_value [] = 0
le_value (b ∷ bs) = b + 256 * le_value bs

-- `r` is a u16: each shift is cut to sixteen bits.
unfoldable pub bytehex2bcd : ℕ → ℕ
bytehex2bcd hex =
    let r0 = hex / 100 in
    let r1 = bit_or (r0 * 2 ^ 4 % 2 ^ 16) (hex % 100 / 10) in
    bit_or (r1 * 2 ^ 4 % 2 ^ 16) (hex % 10)

-- The sixteen rounds of `hex2bcd`: one decimal digit to a nibble.
unfoldable pub hex2bcd_loop : ℕ → ℕ → ℕ → ℕ → ℕ
hex2bcd_loop zero i d r = r
hex2bcd_loop (suc n) i d r = hex2bcd_loop n (i + 1) (d / 10) (bit_or r (d % 10 * 2 ^ (4 * i)))

unfoldable pub hex2bcd : List ℕ → ℕ → ℕ
hex2bcd hex bytes = hex2bcd_loop 16 0 (le_value (take (min bytes 8) hex)) 0

-- One byte of `bcd2hex` and `bigbcd2hex`, in a 64-bit accumulator.
unfoldable pub bcd_step : ℕ → ℕ → ℕ
bcd_step r b = (r * 100 + (b / 2 ^ 4 * 10 + b % 2 ^ 4)) % 2 ^ 64

-- Least significant byte first: the loop reads from the end.
unfoldable pub bcd2hex : List ℕ → ℕ → ℕ
bcd2hex d bytes = foldl bcd_step 0 (reverse (take bytes d))

-- Most significant byte first.
unfoldable pub bigbcd2hex : List ℕ → ℕ → ℕ
bigbcd2hex d bytes = foldl bcd_step 0 (take bytes d)

-- The digits of the first `bytes` bytes of the buffer, written back most significant byte first.
unfoldable pub hex2bigbcd : List ℕ → ℕ → List ℕ
hex2bigbcd d bytes = reverse (le_bytes bytes (hex2bcd d bytes))

-- The DF_BCD case of `_to_report` in data/DataClass.hpp: `vv` in `bytes` bytes, filled from the end.
unfoldable pub bcd_of_byte : ℕ → ℕ
bcd_of_byte a = bit_or (a % 10) (a / 10 * 2 ^ 4)

unfoldable pub report_bcd : ℕ → ℕ → List ℕ → List ℕ
report_bcd zero vv out = out
report_bcd (suc n) vv out = report_bcd n (vv / 100) (bcd_of_byte (vv % 100) ∷ out)
