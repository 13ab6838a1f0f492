-- ===== src/Packet/Frame.antt =====
-- The frame layout of app/up/packet/upacket.h: `UDPacket` as the bytes that it occupies (packed),
-- and what makes the first bytes of a buffer a downlink frame.
use yd.Prelude.{ℕ, ◌+◌, ◌-◌, ◌*◌, ◌/◌, ◌%◌, ◌^◌, ◌≤◌, bit_or, List, take, drop, get_or, ◌≡◌}
use yd.Codec.Bcd.{le_value}
use yd.Codec.Crc.{crc_calculate}

abbrev pub pdsize : ℕ
pdsize = 1024

-- The receive buffer's bytes: start 2, local 5, remote 1, passwd 2, cmd 1, len 2, stx 1,
-- data PDSIZE + 20, packetlen 4, etx 1, rlocal 8, rpasswd 2.
abbrev pub ud_size : ℕ
ud_size = 2 + 5 + 1 + 2 + 1 + 2 + 1 + (pdsize + 20) + 4 + 1 + 8 + 2

-- The struct's fields, by their offsets; multi-byte fields are little-endian in memory.
unfoldable pub ud_local : List ℕ → List ℕ
ud_local p = take 5 (drop 2 p)

unfoldable pub ud_passwd : List ℕ → List ℕ
ud_passwd p = take 2 (drop 8 p)

unfoldable pub ud_cmd : List ℕ → ℕ
ud_cmd p = get_or p 10 0

unfoldable pub ud_len : List ℕ → ℕ
ud_len p = get_or p 11 0 + 256 * get_or p 12 0

unfoldable pub ud_data : List ℕ → List ℕ
ud_data p = take (pdsize + 20) (drop 14 p)

unfoldable pub ud_packetlen : List ℕ → ℕ
ud_packetlen p = le_value (take 4 (drop 1058 p))

unfoldable pub ud_etx : List ℕ → ℕ
ud_etx p = get_or p 1062 0

unfoldable pub ud_rlocal : List ℕ → ℕ
ud_rlocal p = le_value (take 8 (drop 1063 p))

unfoldable pub ud_rpasswd : List ℕ → ℕ
ud_rpasswd p = le_value (take 2 (drop 1071 p))

-- `dlen` of `upacket_decode`: the length field with its bytes swapped.
unfoldable pub ud_dlen : List ℕ → ℕ
unfolding ud_len
ud_dlen p = bit_or (ud_len p / 2 ^ 8 % 2 ^ 8) (ud_len p % 2 ^ 8 * 2 ^ 8)

-- The two checksum bytes that end a frame of `n` bytes, as one number.
unfoldable pub ud_crc : List ℕ → ℕ → ℕ
ud_crc p n = bit_or (get_or p (n - 2) 0 * 2 ^ 8) (get_or p (n - 1) 0)

-- The first `n` bytes of `p` are a downlink frame: two start bytes, the direction bit, a length
-- field that agrees with `n`, and a valid checksum.
pub record IsFrame (p : List ℕ) (n : ℕ) : Type 0 where
  pub start0 : get_or p 0 0 ≡ 0x7E
  pub start1 : get_or p 1 0 ≡ 0x7E
  pub down : ud_dlen p / 2 ^ 15 % 2 ≡ 1
  pub size : n ≡ ud_dlen p % 2 ^ 12 + 17
  pub fits : n ≤ ud_size
  pub sum : crc_calculate p (n - 2) ≡ ud_crc p n
