-- ===== src/Codec/Crc.antt =====
-- The two checksums of lib/lib.cpp: the 16-bit one that closes every frame (`crc_calculate`), and
-- the 8-bit one that guards the saved rain counter (`crc8`).
pub mod Detect
use yd.Prelude.{ℕ, zero, suc, ◌*◌, ◌/◌, ◌%◌, bit_xor, List, foldl, take, ◌==◌, if◌then◌else◌}

-- One round of the inner loop: shift right, and apply the polynomial if a one fell out.
unfoldable pub crc_bit : ℕ → ℕ
crc_bit c = if c % 2 == 1 then bit_xor (c / 2) 0xA001 else c / 2

-- The inner loop runs a fixed number of rounds.
abbrev pub rounds : ℕ → (ℕ → ℕ) → ℕ → ℕ
rounds zero f c = c
rounds (suc n) f c = rounds n f (f c)

-- One byte of input: it is mixed in, and eight rounds follow.
unfoldable pub crc_byte : ℕ → ℕ → ℕ
crc_byte c b = rounds 8 crc_bit (bit_xor c b)

-- `check_len` is a u8, so the length is cut to eight bits.
unfoldable pub crc_calculate : List ℕ → ℕ → ℕ
crc_calculate check_buffer len = foldl crc_byte 0xffff (take (len % 256) check_buffer)

-- One round of `crc8`, which shifts left in a u8.
unfoldable pub crc8_bit : ℕ → ℕ
crc8_bit c = if c / 128 % 2 == 1 then bit_xor (c * 2 % 256) 0x07 else c * 2 % 256

unfoldable pub crc8_byte : ℕ → ℕ → ℕ
crc8_byte c b = rounds 8 crc8_bit (bit_xor c b)

unfoldable pub crc8 : List ℕ → ℕ → ℕ
crc8 bytes size = foldl crc8_byte 0x00 (take size bytes)
