-- ===== src/Item.antt =====
-- A data item and its report format, `DataClassItem` of data/DataClass.hpp: an identifier, a byte of
-- lengths, and the value in one of eight formats.
pub mod Cleared
pub mod Trip
use yd.Prelude.{
  ℕ, zero, suc, ◌+◌, ◌-◌, ◌*◌, ◌/◌, ◌%◌, ◌^◌, min, bit_or, List, [], ◌∷◌, ◌++◌, take, drop, put,
  set, get_or, replicate, length, Bool, true, false, ltb, ◌==◌, not, ◌&&◌, if◌then◌else◌,
}
use yd.Prelude.Int.{ℤ, pos, negsuc, abs}
use yd.Codec.Bcd.{le_bytes, le_value, hex2bcd, bigbcd2hex, report_bcd}
use yd.Codec.Order.{inverse}
use yd.Codec.Text.{list_merge, split}

pub data DataFormat : Type 0 where
  df_bcd : DataFormat
  df_hex_num : DataFormat
  df_hex : DataFormat
  df_char : DataFormat
  df_string : DataFormat
  df_jpg : DataFormat
  df_string_vector : DataFormat
  df_hhmm : DataFormat

-- The members of `DataClassItemConfig` that the code here reads; the lengths are digits.
pub record ItemConfig : Type 0 where
  pub id : ℕ
  pub len : ℕ
  pub fl : ℕ
  pub format : DataFormat

-- `hex` and `chars` are the arrays, `hh` and `mm` the members of `hhmm`.
pub record Item : Type 0 where
  pub config : ItemConfig
  pub val : ℤ
  pub hex : List ℕ
  pub chars : List ℕ
  pub str : List ℕ
  pub list : List (List ℕ)
  pub hh : ℕ
  pub mm : ℕ

-- `DATA_INVALID_VALUE`.
abbrev pub data_invalid_value : ℕ
data_invalid_value = 0x7FFFFFFFFFFFFFFF

unfoldable pub len : Item → ℕ
len item = (item.config.len + 1) / 2

unfoldable pub reportlen : Item → ℕ
reportlen item = bit_or (len item * 2 ^ 3) item.config.fl % 2 ^ 8

unfoldable pub negreportlen : Item → ℕ
negreportlen item = bit_or ((len item + 1) * 2 ^ 3) item.config.fl % 2 ^ 8

-- The 64 bits of an l64, and the l64 of 64 bits.
abbrev pub bits : ℤ → ℕ
bits (pos n) = n % 2 ^ 64
bits (negsuc n) = 2 ^ 64 - 1 - n % 2 ^ 64

unfoldable pub to_l64 : ℕ → ℤ
to_l64 n = if ltb n (2 ^ 63) then pos n else negsuc (2 ^ 64 - 1 - n)

-- A text in `n` bytes: cut, or filled with zeros.
unfoldable pub padded : ℕ → List ℕ → List ℕ
padded n text = take n text ++ replicate (n - length text) 0

-- `_to_report`: the bytes written and the result.
unfoldable pub to_report_of : DataFormat → Item → List ℕ × ℕ
to_report_of df_bcd item = (report_bcd (len item) (abs item.val) [], len item)
to_report_of df_hex_num item =
    (inverse (take (len item) (le_bytes 8 (bits item.val))) (len item), len item)
to_report_of df_hex item = (take (len item) item.hex, len item)
to_report_of df_char item = (take (len item) item.chars, len item)
to_report_of df_string item = (padded (len item) item.str, min (length item.str) (len item))
to_report_of df_string_vector item =
    let ss = list_merge item.list (32 ∷ []) in (padded (len item) ss, min (length ss) (len item))
to_report_of df_hhmm item =
    (hex2bcd (item.hh ∷ []) 1 % 2 ^ 8 ∷ hex2bcd (item.mm ∷ []) 1 % 2 ^ 8 ∷ [], len item)
to_report_of df_jpg item = ([], 0)

-- Are the first `n` bytes all equal to `b`?
unfoldable pub all_equal : ℕ → List ℕ → ℕ → Bool
all_equal b xs zero = true
all_equal b [] (suc n) = true
all_equal b (x ∷ xs) (suc n) = let rest = all_equal b xs n in if x == b then rest else false

abbrev pub is_invalid : ℤ → Bool
is_invalid (pos n) = n == data_invalid_value
is_invalid (negsuc n) = false

unfoldable pub is_zero_of : DataFormat → Item → Bool
is_zero_of df_hhmm item = item.hh == 0xFF && item.mm == 0xFF
is_zero_of df_hex_num item = is_invalid item.val
is_zero_of df_bcd item = is_invalid item.val
is_zero_of df_hex item = all_equal 0xFF item.hex (len item)
is_zero_of df_string item = length item.str == 0
is_zero_of df_string_vector item = length item.list == 0
is_zero_of df_char item = get_or item.chars 0 0 == 0
is_zero_of df_jpg item = get_or item.chars 0 0 == 0

-- `isZero`: has the item no value?
unfoldable pub is_zero_item : Item → Bool
is_zero_item item = if len item == 0 then true else is_zero_of item.config.format item

abbrev is_value0 : ℤ → Bool
is_value0 (pos n) = n == 0
is_value0 (negsuc n) = false

unfoldable pub is_value0_of : DataFormat → Item → Bool
is_value0_of df_hhmm item = item.hh == 0 && item.mm == 0
is_value0_of df_hex_num item = is_value0 item.val
is_value0_of df_bcd item = is_value0 item.val
is_value0_of df_hex item = all_equal 0 item.hex (len item)
is_value0_of df_string item = get_or item.chars 0 0 == 0
is_value0_of df_string_vector item = get_or item.chars 0 0 == 0
is_value0_of df_char item = get_or item.chars 0 0 == 0
is_value0_of df_jpg item = get_or item.chars 0 0 == 0

unfoldable pub is_value0_item : Item → Bool
is_value0_item item = if len item == 0 then true else is_value0_of item.config.format item

-- `Value`.
unfoldable pub value : Item → ℤ
value item = if is_invalid item.val then pos 0 else item.val

unfoldable pub clear_of : DataFormat → Item → Item
clear_of df_hhmm item = record item { hh = 0xFF; mm = 0xFF }
clear_of df_hex_num item = record item { val = pos data_invalid_value }
clear_of df_bcd item = record item { val = pos data_invalid_value }
clear_of df_hex item = record item { hex = put item.hex 0 (replicate (len item) 0xFF) }
clear_of df_string item = record item { list = [] }
clear_of df_jpg item = record item { list = [] }
clear_of df_string_vector item = record item { list = [] }
clear_of df_char item = record item { chars = put item.chars 0 (replicate (len item) 0) }

unfoldable pub clear : Item → Item
clear item = if len item == 0 then item else clear_of item.config.format item

-- `toreport`: the bytes written from the front of the buffer, and the size returned.
unfoldable pub toreport_value : DataFormat → List ℕ → ℕ → Item → List ℕ × ℕ
toreport_value df_bcd front size item =
    let digits = (to_report_of df_bcd item).0 in
    elim item.val [
      | pos n ↦ (front ++ item.config.id % 2 ^ 8 ∷ reportlen item ∷ digits, size)
      | negsuc n ↦ (front ++ item.config.id % 2 ^ 8 ∷ negreportlen item ∷ 0xFF ∷ digits, size + 1)
    ]
toreport_value df_string front size item =
    let (bytes, s) = to_report_of df_string item in
    (front ++ item.config.id % 2 ^ 8 ∷ reportlen item ∷ bytes, s)
toreport_value df_string_vector front size item =
    let (bytes, s) = to_report_of df_string_vector item in
    (front ++ item.config.id % 2 ^ 8 ∷ reportlen item ∷ bytes, s)
toreport_value format front size item =
    (front ++ item.config.id % 2 ^ 8 ∷ reportlen item ∷ (to_report_of format item).0, size)

unfoldable pub toreport : Item → List ℕ × ℕ
toreport item =
    let custom = ltb 0xFF00 item.config.id in
    let front = if custom then 0xFF ∷ [] else [] in
    let size = (if custom then 1 else 0) + (len item + 2) in
    if item.config.len == 0
    then ([], 0)
    else if is_zero_item item
    then (front ++ item.config.id % 2 ^ 8 ∷ reportlen item ∷ replicate (len item) 0xFF, size)
    else toreport_value item.config.format front size item

-- The characters in front of the first NUL.
unfoldable pub c_str : List ℕ → List ℕ
c_str [] = []
c_str (c ∷ cs) = let rest = c_str cs in if c == 0 then [] else c ∷ rest

-- `fromreport` behind its first lines: `b` begins at the identifier.
unfoldable pub fromreport_of : DataFormat → Item → List ℕ → ℕ → Item
fromreport_of df_bcd item b rsize =
    if ltb (len item) rsize && get_or b 2 0 == 0xFF
    then record item { val = to_l64 (bigbcd2hex (drop 3 b) (rsize - 1)) }
    else record item { val = to_l64 (bigbcd2hex (drop 2 b) (min rsize (len item))) }
fromreport_of df_hex_num item b rsize =
    let n = min rsize (len item) in
    record item {
      val =
          to_l64 (le_value (inverse (take n (drop 2 b)) n ++ drop n (le_bytes 8 (bits item.val))));
    }
fromreport_of df_hex item b rsize = record item {
  hex = put item.hex 0 (take (min rsize (len item)) (drop 2 b));
}
fromreport_of df_char item b rsize =
    let n = min rsize (len item) in
    record item { chars = set (put item.chars 0 (take n (drop 2 b))) n 0 }
fromreport_of df_string item b rsize =
    if len item == 0
    then item
    else record item { str = c_str (take (min rsize (len item)) (drop 2 b)) }
fromreport_of df_hhmm item b rsize = record item { hh = get_or b 2 0; mm = get_or b 3 0 }
fromreport_of df_string_vector item b rsize =
    if len item == 0
    then item
    else record item { list = split (c_str (take (min rsize (len item)) (drop 2 b))) (32 ∷ []) }
fromreport_of df_jpg item b rsize = item

-- The item, and the length of the value by the report.
unfoldable pub fromreport : Item → List ℕ → Item × ℕ
fromreport item bytes =
    let b = if get_or bytes 0 0 == 0xFF then drop 1 bytes else bytes in
    let rsize = get_or b 1 0 / 2 ^ 3 in (fromreport_of item.config.format item b rsize, rsize)
