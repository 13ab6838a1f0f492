-- ===== src/Codec/Number.antt =====
-- Numbers as text, the parts of the standard library that the settings go through: `std::to_string`,
-- `std::hex` (tostring16 of lib/lib.cpp), `strtoull` with base 16, and the "%x.%x.%x.%x:%x" of
-- `ipstring2hex` and `hex2ipstring`.
pub mod Reading
use yd.Prelude.{
  ℕ, zero, suc, ◌+◌, ◌-◌, ◌*◌, ◌/◌, ◌%◌, ◌^◌, List, [], ◌∷◌, ◌++◌, Option, none, some, Bool, ltb,
  leb, ◌==◌, ◌&&◌, ◌||◌, if◌then◌else◌,
}
use yd.Prelude.Int.{ℤ, pos, negsuc}
use yd.Codec.Hex.{Endpoint}

-- A digit below 16 as a character, in lower case, and the value of a character.
abbrev pub digit_char : ℕ → ℕ
digit_char d = if ltb d 10 then d + 48 else d + 87

abbrev pub digit_value : ℕ → Option ℕ
digit_value c =
    if leb 48 c && leb c 57
    then some (c - 48)
    else if leb 97 c && leb c 102
    then some (c - 87)
    else if leb 65 c && leb c 70
    then some (c - 55)
    else none

-- The digits of a number to a base, in front of a text; `n` bounds their number.
unfoldable pub digits : ℕ → ℕ → ℕ → List ℕ → List ℕ
digits base zero v tail = tail
digits base (suc n) v tail =
    let more = digits base n (v / base) (digit_char (v % base) ∷ tail) in
    if v / base == 0 then digit_char (v % base) ∷ tail else more

-- 20 decimal or 16 hexadecimal digits are those of 64 bits.
unfoldable pub to_string : ℤ → List ℕ
to_string (pos n) = digits 10 20 n []
to_string (negsuc n) = 45 ∷ digits 10 20 (n + 1) []

unfoldable pub tostring16 : ℕ → List ℕ
tostring16 v = digits 16 16 v []

-- The number at the front of a text, behind the digits read so far, and what follows it.
unfoldable pub read_digits : ℕ → List ℕ → ℕ × List ℕ
read_digits acc [] = (acc, [])
read_digits acc (c ∷ cs) = elim (digit_value c) [
  | some d ↦ read_digits (acc * 16 + d) cs
  | none ↦ (acc, c ∷ cs)
]

abbrev is_space : ℕ → Bool
is_space c = c == 32 || (leb 9 c && leb c 13)

unfoldable pub skip_space : List ℕ → List ℕ
skip_space [] = []
skip_space (c ∷ cs) = let rest = skip_space cs in if is_space c then rest else c ∷ cs

-- Without a leading "0x" or "0X".
unfoldable pub skip_0x : List ℕ → List ℕ
skip_0x [] = []
skip_0x (c ∷ []) = c ∷ []
skip_0x (c ∷ d ∷ cs) = if c == 48 && (d == 120 || d == 88) then cs else c ∷ d ∷ cs

-- `strtoull` answers with its largest value where the number does not fit.
unfoldable pub saturated : ℕ → ℕ
saturated n = if ltb n (2 ^ 64) then n else 2 ^ 64 - 1

unfoldable pub strtoull_signed : List ℕ → ℕ
strtoull_signed [] = 0
strtoull_signed (c ∷ cs) =
    let n = (read_digits 0 (skip_0x cs)).0 in
    if c == 45
    then (if ltb n (2 ^ 64) then (2 ^ 64 - n) % 2 ^ 64 else 2 ^ 64 - 1)
    else if c == 43
    then saturated n
    else saturated (read_digits 0 (skip_0x (c ∷ cs))).0

unfoldable pub strtoull16 : List ℕ → ℕ
strtoull16 text = strtoull_signed (skip_space text)

-- `sprintf` with "%x.%x.%x.%x:%x"; each number is an int of at most 8 digits.
unfoldable pub print_address : Endpoint → List ℕ
print_address e = digits 16 8 e.ip1 (
    46
    ∷ digits 16 8 e.ip2
        (46 ∷ digits 16 8 e.ip3 (46 ∷ digits 16 8 e.ip4 (58 ∷ digits 16 8 e.port []))))

-- The text behind a separator.
unfoldable pub behind : ℕ → List ℕ → List ℕ
behind mark [] = []
behind mark (c ∷ cs) = if c == mark then cs else []

-- `sscanf` with the same pattern, on a text that fits it; a number that is missing is read as 0.
unfoldable pub scan_address : List ℕ → Endpoint
scan_address text =
    let (a, r1) = read_digits 0 text in
    let (b, r2) = read_digits 0 (behind 46 r1) in
    let (c, r3) = read_digits 0 (behind 46 r2) in
    let (d, r4) = read_digits 0 (behind 46 r3) in
    let (p, r5) = read_digits 0 (behind 58 r4) in
    record { ip1 = a; ip2 = b; ip3 = c; ip4 = d; port = p }
