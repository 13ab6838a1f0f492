-- ===== src/Codec/Hex/Trip.antt =====
-- Round trips of the hexadecimal text and of the packed addresses of lib/lib.cpp.
use yd.Prelude.{
  ℕ, ◌+◌, ◌*◌, ◌/◌, ◌%◌, ◌^◌, ◌≤◌, ◌<◌, bit_or, List, [], ◌∷◌, length, IsBytes, passes_below,
  passes_below_each, ◌==◌, ==_iff, ltb, if◌then◌else◌, true, ◌≡◌, refl, ap₂, arith,
}
use yd.Prelude.Bits.{bit_or_low}
use yd.Codec.Hex.{
  hex_char, hexarray2str, hexarray2str_loop, hex_digit, hex_pair, str2hexarray, str2hexarray_loop,
  Endpoint, ipstring2hex, hex2ipstring,
}

byte_table :
    passes_below (λ b. hex_pair (hex_char (b / 2 ^ 4 % 2 ^ 4)) (hex_char (b % 2 ^ 4)) == b) 256
    ≡ true
unfolding passes_below hex_pair hex_digit
byte_table = refl

hex_pair-hex_char :
    (b : ℕ) → b < 256 → hex_pair (hex_char (b / 2 ^ 4 % 2 ^ 4)) (hex_char (b % 2 ^ 4)) ≡ b
hex_pair-hex_char b h =
    (==_iff (hex_pair (hex_char (b / 2 ^ 4 % 2 ^ 4)) (hex_char (b % 2 ^ 4))) b).0 (
      passes_below_each (λ c. hex_pair (hex_char (c / 2 ^ 4 % 2 ^ 4)) (hex_char (c % 2 ^ 4)) == c)
        256 b byte_table h)

loops_trip :
    (bytes : List ℕ)
    → IsBytes bytes
    → (str2hexarray_loop (length bytes) (hexarray2str_loop (length bytes) bytes) ≡ bytes)
      × (length (hexarray2str_loop (length bytes) bytes) ≡ 2 * length bytes)
unfolding str2hexarray_loop hexarray2str_loop
loops_trip [] h = (refl, omega arith)
loops_trip (b ∷ bytes) h =
    let (ih, il) = loops_trip bytes h.1 in (ap₂ ◌∷◌ (hex_pair-hex_char b h.0) ih, omega arith)

-- Bytes written as text into a buffer that holds them come back, and take two characters each.
pub str2hexarray-hexarray2str :
    (bytes : List ℕ) (slen outsize : ℕ)
    → IsBytes bytes
    → 2 * length bytes ≤ slen
    → length bytes ≤ outsize
    → (str2hexarray (hexarray2str bytes (length bytes) slen) (2 * length bytes) outsize ≡ bytes)
      × (length (hexarray2str bytes (length bytes) slen) ≡ 2 * length bytes)
unfolding str2hexarray hexarray2str
str2hexarray-hexarray2str bytes slen outsize h p q =
    let out : (if ltb (slen / 2) (length bytes) then slen / 2 else length bytes) ≡ length bytes =
      ground arith in
    let back : (if ltb (2 * length bytes / 2) outsize then 2 * length bytes / 2 else outsize)
        ≡ length bytes =
      ground arith in
    rw (out, back) (loops_trip bytes h)

-- A high nibble, cut to a byte, joined with a low one.
pub nibble_join : (a b : ℕ) → b < 2 ^ 4 → bit_or (a * 2 ^ 4 % 2 ^ 8) b ≡ a % 2 ^ 4 * 2 ^ 4 + b
nibble_join a b h =
    let cut : a * 2 ^ 4 % 2 ^ 8 ≡ a % 2 ^ 4 * 2 ^ 4 = omega arith in
    rw cut (bit_or_low 4 4 (a % 2 ^ 4) b (omega arith) h)

-- An address of four 12-bit groups and a 24-bit port is restored from its register.
pub hex2ipstring-ipstring2hex :
    (e : Endpoint)
    → e.ip1 < 2 ^ 12
    → e.ip2 < 2 ^ 12
    → e.ip3 < 2 ^ 12
    → e.ip4 < 2 ^ 12
    → e.port < 2 ^ 24
    → hex2ipstring (ipstring2hex e) ≡ e
unfolding hex2ipstring ipstring2hex
hex2ipstring-ipstring2hex e h1 h2 h3 h4 h5 =
    rw
      (
        nibble_join e.ip1 (e.ip2 / 2 ^ 8 % 2 ^ 4) (omega arith),
        nibble_join e.ip3 (e.ip4 / 2 ^ 8 % 2 ^ 4) (omega arith),
      )
      (ground (
        arith,
        bit_or_low 12 4 (e.ip1 / 2 ^ 4 % 2 ^ 8)
            ((e.ip1 % 2 ^ 4 * 2 ^ 4 + e.ip2 / 2 ^ 8 % 2 ^ 4) / 2 ^ 4),
        bit_or_low 12 8 ((e.ip1 % 2 ^ 4 * 2 ^ 4 + e.ip2 / 2 ^ 8 % 2 ^ 4) % 2 ^ 4) (e.ip2 % 2 ^ 8),
        bit_or_low 12 4 (e.ip3 / 2 ^ 4 % 2 ^ 8)
            ((e.ip3 % 2 ^ 4 * 2 ^ 4 + e.ip4 / 2 ^ 8 % 2 ^ 4) / 2 ^ 4),
        bit_or_low 12 8 ((e.ip3 % 2 ^ 4 * 2 ^ 4 + e.ip4 / 2 ^ 8 % 2 ^ 4) % 2 ^ 4) (e.ip4 % 2 ^ 8),
        bit_or_low 12 8 (e.port / 2 ^ 16 % 2 ^ 8) (e.port / 2 ^ 8 % 2 ^ 8),
        bit_or_low 24 8 (e.port / 2 ^ 16 % 2 ^ 8 * 2 ^ 8 + e.port / 2 ^ 8 % 2 ^ 8) (e.port % 2 ^ 8),
      ))
