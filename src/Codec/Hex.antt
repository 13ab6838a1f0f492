-- ===== src/Codec/Hex.antt =====
-- Hexadecimal text of byte arrays (`hexarray2str`, `str2hexarray`), and the packed form of an
-- address and port (`ipstring2hex`, `hex2ipstring`), lib/lib.cpp.
pub mod Trip
use yd.Prelude.{
  ℕ, zero, suc, ◌+◌, ◌-◌, ◌*◌, ◌/◌, ◌%◌, ◌^◌, bit_and, bit_or, List, [], ◌∷◌, get_or, replicate,
  ltb, if◌then◌else◌,
}

-- "0123456789ABCDEF", as character codes.
abbrev hex_table : List ℕ
hex_table =
    0x30 ∷ 0x31 ∷ 0x32 ∷ 0x33 ∷ 0x34 ∷ 0x35 ∷ 0x36 ∷ 0x37 ∷ 0x38 ∷ 0x39 ∷ 0x41 ∷ 0x42 ∷ 0x43 ∷ 0x44
    ∷ 0x45 ∷ 0x46 ∷ []

abbrev pub hex_char : ℕ → ℕ
hex_char n = get_or hex_table n 0

unfoldable pub hexarray2str_loop : ℕ → List ℕ → List ℕ
hexarray2str_loop zero bytes = []
hexarray2str_loop (suc n) [] = []
hexarray2str_loop (suc n) (b ∷ bytes) =
    hex_char (b / 2 ^ 4 % 2 ^ 4) ∷ hex_char (b % 2 ^ 4) ∷ hexarray2str_loop n bytes

-- The characters written; their number is what the function returns.
unfoldable pub hexarray2str : List ℕ → ℕ → ℕ → List ℕ
hexarray2str bytes size slen =
    hexarray2str_loop (if ltb (slen / 2) size then slen / 2 else size) bytes

-- The value of a character; in a u8, and only its low nibble is used.
unfoldable pub hex_digit : ℕ → ℕ
hex_digit c = if ltb c b'A' then (c + 256 - b'0') % 256 else (c + 10 + 256 - b'A') % 256

unfoldable pub hex_pair : ℕ → ℕ → ℕ
hex_pair h l = bit_or (bit_and (hex_digit h * 2 ^ 4) 0xF0) (bit_and (hex_digit l) 0x0F)

unfoldable pub str2hexarray_loop : ℕ → List ℕ → List ℕ
str2hexarray_loop zero str = []
str2hexarray_loop (suc n) [] = []
str2hexarray_loop (suc n) (h ∷ []) = []
str2hexarray_loop (suc n) (h ∷ l ∷ str) = hex_pair h l ∷ str2hexarray_loop n str

unfoldable pub str2hexarray : List ℕ → ℕ → ℕ → List ℕ
str2hexarray str slen outsize =
    str2hexarray_loop (if ltb (slen / 2) outsize then slen / 2 else outsize) str

-- The five numbers that `sscanf` reads with "%x.%x.%x.%x:%x", and `sprintf` prints.
pub record Endpoint : Type 0 where
  pub ip1 : ℕ
  pub ip2 : ℕ
  pub ip3 : ℕ
  pub ip4 : ℕ
  pub port : ℕ

-- The 20 bytes that `ipstring2hex` leaves in the register.
unfoldable pub ipstring2hex : Endpoint → List ℕ
ipstring2hex e =
    2
    ∷ (e.ip1 / 2 ^ 4 % 2 ^ 8)
    ∷ bit_or (e.ip1 * 2 ^ 4 % 2 ^ 8) (e.ip2 / 2 ^ 8 % 2 ^ 4)
    ∷ (e.ip2 % 2 ^ 8)
    ∷ (e.ip3 / 2 ^ 4 % 2 ^ 8)
    ∷ bit_or (e.ip3 * 2 ^ 4 % 2 ^ 8) (e.ip4 / 2 ^ 8 % 2 ^ 4)
    ∷ (e.ip4 % 2 ^ 8)
    ∷ (e.port / 2 ^ 16 % 2 ^ 8)
    ∷ (e.port / 2 ^ 8 % 2 ^ 8)
    ∷ (e.port % 2 ^ 8)
    ∷ replicate 10 0

unfoldable pub hex2ipstring : List ℕ → Endpoint
hex2ipstring hex =
    let tmp = λ (i : ℕ). get_or hex i 0 in
    record {
      ip1 = bit_or (tmp 1 * 2 ^ 4) (tmp 2 / 2 ^ 4);
      ip2 = bit_or (tmp 2 % 2 ^ 4 * 2 ^ 8) (tmp 3);
      ip3 = bit_or (tmp 4 * 2 ^ 4) (tmp 5 / 2 ^ 4);
      ip4 = bit_or (tmp 5 % 2 ^ 4 * 2 ^ 8) (tmp 6);
      port = bit_or (bit_or (tmp 7 * 2 ^ 8) (tmp 8) * 2 ^ 8) (tmp 9);
    }
