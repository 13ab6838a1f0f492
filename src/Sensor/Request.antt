-- ===== src/Sensor/Request.antt =====
-- The requests to the sensors, app/down/_thread_down.cpp: the texts of requests and answers, the value
-- of an answer, when the sensors are read, and where a value goes.
use yd.Prelude.{
  ℕ, zero, suc, ◌+◌, ◌-◌, ◌*◌, ◌%◌, ◌^◌, bit_or, bit_and, List, [], ◌∷◌, take, drop, get_or, map,
  length, Option, Bool, true, false, ltb, leb, ◌==◌, ◌&&◌, ◌||◌, if◌then◌else◌,
}
use yd.Prelude.Int.{ℤ, pos, negsuc, quot, ◌-ℤ◌, ◌+ℤ◌, ltb_ℤ}
use yd.Codec.Bcd.{bcd2hex, le_value}
use yd.Codec.Order.{little2big, inverse}
use yd.Item.{bits, to_l64}
use yd.Store.{DataClass, at}
use yd.Store.Appdata.{same_text}
use yd.Sensor.{Field, times, int_of, set_val}
use yd.Sensor.WaterLevel.{waterlevel_caculation}
use yd.Sensor.Flow.{flow_caculation}

-- A character of a hexadecimal text, in a u8.
unfoldable pub digit_of : ℕ → ℕ
digit_of c = if leb 0x30 c && leb c 0x39 then c - 0x30 else (c + 256 - 55) % 2 ^ 8

unfoldable pub string_to_byte : ℕ → ℕ → ℕ
string_to_byte h l = bit_or (digit_of h * 2 ^ 4 % 2 ^ 8) (bit_and (digit_of l) 0x0F)

-- `n` rounds of `recv_patten`; behind a single character stands the end of the text.
unfoldable pub recv_patten_loop : ℕ → List ℕ → List ℕ
recv_patten_loop zero patten = []
recv_patten_loop (suc n) [] = []
recv_patten_loop (suc n) (h ∷ []) = string_to_byte h 0 ∷ []
recv_patten_loop (suc n) (h ∷ l ∷ patten) = string_to_byte h l ∷ recv_patten_loop n patten

-- At most 58 characters are read. The source writes the bytes to an array of 20: this is its course for
-- texts of at most 40 characters.
unfoldable pub recv_patten : List ℕ → List ℕ
recv_patten patten = recv_patten_loop 29 patten

-- C's quotient of two integers.
unfoldable pub divide : ℤ → ℤ → ℤ
divide a (pos b) = quot a b
divide a (negsuc b) = pos 0 -ℤ quot a (b + 1)

abbrev pub is_zero_int : ℤ → Bool
is_zero_int (pos n) = n == 0
is_zero_int (negsuc n) = false

-- "int", "floa", "double" and "bcd", the texts that the formats are compared with.
abbrev pub int_name : List ℕ
int_name = 0x69 ∷ 0x6E ∷ 0x74 ∷ []

abbrev pub floa_name : List ℕ
floa_name = 0x66 ∷ 0x6C ∷ 0x6F ∷ 0x61 ∷ []

abbrev pub double_name : List ℕ
double_name = 0x64 ∷ 0x6F ∷ 0x75 ∷ 0x62 ∷ 0x6C ∷ 0x65 ∷ []

abbrev pub bcd_name : List ℕ
bcd_name = 0x62 ∷ 0x63 ∷ 0x64 ∷ []

-- `atoi` of the library, and its floating-point numbers: the thousandfold of the number with the given
-- bytes over a divisor, as an integer; in a float or in a double.
pub record Numerics : Type 0 where
  pub atoi : List ℕ → ℤ
  pub float_of : List ℕ → ℤ → ℤ
  pub double_of : List ℕ → ℤ → ℤ

-- The divisor behind the first `n` characters of a format; 1 where there is none.
unfoldable pub divisor : Numerics → List ℕ → ℕ → ℤ
divisor w fomat n =
    let b = w.atoi (drop n fomat) in
    if ltb n (length fomat) then (if is_zero_int b then pos 1 else b) else pos 1

-- The bytes that the letters of `shunxu` choose behind the head; a letter in front of 'A' would read
-- in front of them.
abbrev pub chosen : List ℕ → List ℕ → List ℕ
chosen shunxu d = map (λ c. get_or d (c - 0x41) 0) shunxu

-- The thousandfold in an l64.
unfoldable pub thousandfold : ℤ → ℤ
thousandfold v = to_l64 (bits (times v 1000))

-- The value in thousandths.
unfoldable pub parse_value : Numerics → List ℕ → List ℕ → ℤ
parse_value w bytes fomat =
    let size = length bytes in
    let whole = to_l64 (le_value (little2big bytes size)) in
    let digits = to_l64 (bcd2hex (inverse bytes size) size) in
    if same_text (take 3 fomat) int_name
    then divide (thousandfold whole) (divisor w fomat 4)
    else if same_text (take 4 fomat) floa_name
    then w.float_of (little2big bytes size) (divisor w fomat 6)
    else if same_text (take 6 fomat) double_name
    then w.double_of (little2big bytes size) (divisor w fomat 7)
    else if same_text (take 3 fomat) bcd_name
    then divide (thousandfold digits) (divisor w fomat 4)
    else pos 0

-- `parse_data`: the value, and `ferr`. The source copies the chosen bytes to an array of 10, and the head
-- to one of 20: this is its course for at most 10 letters and a head of at most 40 characters.
unfoldable pub parse_data : Numerics → List ℕ → List ℕ → List ℕ → List ℕ → ℤ × ℕ
parse_data w recv shunxu fomat frame =
    let pre = recv_patten recv in
    if same_text pre (take (length pre) frame)
    then (parse_value w (chosen shunxu (drop (length pre) frame)) fomat, 0)
    else (pos 0, 1)

-- `is_down`: is it time to read the sensors? The state is `last`; the period is register 23H.
unfoldable pub is_down : Field → ℕ → ℤ → Bool → Bool × ℤ
is_down f now last reset =
    let s = int_of (at f.runtime 0x23).val in
    if ltb_ℤ (last +ℤ s) (pos now)
    then (true, if reset then pos now +ℤ s else last)
    else (false, last)

-- What `thread_down_deal` does with a value for item `id`: flows, levels, and everything else. `value`
-- was read where `returned` is positive, and `err_cnt` is that of the copied settings.
unfoldable pub deal : Field → ℕ → ℕ → Option DataClass → ℤ → ℕ → ℤ → ℕ → Field
deal f now minute log value id returned err_cnt =
    let result = ltb_ℤ (pos 0) returned in
    let clears = if result then false else leb 3 (err_cnt + 1) in
    let g = if result then record f { observetime = now } else f in
    if id == 0 || (at f.devdata id).config.id == 0
    then g
    else if leb 0x21 id && leb id 0x31 || leb 0xFFA1 id && leb id 0xFFA8
    then flow_caculation g value id result clears
    else if leb 0x39 id && leb id 0x43
    then waterlevel_caculation g minute log value id result clears
    else record g { devdata = set_val g.devdata id value }
