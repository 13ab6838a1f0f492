-- ===== src/Packet/Encode/LenField.antt =====
-- The length field of a frame, written by app/up/packet/upacket.cpp and swapped by its decoder.
use yd.Prelude.{ℕ, ◌+◌, ◌*◌, ◌/◌, ◌%◌, ◌^◌, ◌≤◌, ◌<◌, bit_or, Bool, true, false, ◌≡◌, arith}
use yd.Prelude.Bits.{bit_or_low, bit_or_high}
use yd.Packet.Encode.{len_field}

-- The length field, read back by the decoder.
abbrev pub down_bit : Bool → ℕ
down_bit true = 0
down_bit false = 1

pub len_field-eq :
    (up : Bool) (len : ℕ)
    → len < 2 ^ 12
    → len_field up len ≡ len % 2 ^ 8 * 2 ^ 8 + down_bit up * 2 ^ 7 + len / 2 ^ 8
unfolding len_field
len_field-eq true len h = rw (bit_or_high 8 (len % 2 ^ 8) 0 (omega arith)) (
    ground
      (arith, bit_or_low 16 7 (len % 2 ^ 8 * 2) (len / 2 ^ 8 % 2 ^ 8) (omega arith) (omega arith)))
len_field-eq false len h = rw (bit_or_high 8 (len % 2 ^ 8) 0x80 (omega arith)) (
    ground (
      arith,
      bit_or_low 16 7 (len % 2 ^ 8 * 2 + 1) (len / 2 ^ 8 % 2 ^ 8) (omega arith) (omega arith),
    ))

pub down_bit_le : (up : Bool) → down_bit up ≤ 1
down_bit_le true = omega arith
down_bit_le false = omega arith

-- The decoder's swap of the length field's bytes, undone.
pub swapped :
    (n d : ℕ)
    → n ≤ 1021
    → d ≤ 1
    → let f = n % 2 ^ 8 * 2 ^ 8 + d * 2 ^ 7 + n / 2 ^ 8 in
      let m = f % 256 + 256 * (f / 256 % 256) in
      bit_or (m / 2 ^ 8 % 2 ^ 8) (m % 2 ^ 8 * 2 ^ 8) ≡ d * 2 ^ 15 + n
swapped n d h k =
    let f = n % 2 ^ 8 * 2 ^ 8 + d * 2 ^ 7 + n / 2 ^ 8 in
    let m = f % 256 + 256 * (f / 256 % 256) in
    let low : m / 2 ^ 8 % 2 ^ 8 ≡ n % 256 = omega arith in
    let high : m % 2 ^ 8 ≡ d * 2 ^ 7 + n / 256 = omega arith in
    rw (low, high) (omega (arith, bit_or_high 8 (d * 2 ^ 7 + n / 256) (n % 256) (omega arith)))
