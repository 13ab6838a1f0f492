-- ===== src/Store.antt =====
-- A table of data items reached by their identifiers, `DataClass` of data/DataClass.hpp.
pub mod Tables
pub mod Access
pub mod Replay
pub mod Appdata
pub mod Reach
pub mod Log
use yd.Prelude.{
  ℕ, zero, suc, ◌+◌, ◌-◌, ◌/◌, ◌%◌, ◌^◌, List, [], ◌∷◌, ◌++◌, take, put, set, replicate, length,
  Option, none, some, Bool, true, false, ltb, ◌==◌, if◌then◌else◌,
}
use yd.Prelude.Int.{ℤ, pos}
use yd.Codec.Hex.{hexarray2str}
use yd.Item.{
  DataFormat, df_bcd, df_hex_num, df_hex, df_char, df_string, df_jpg, df_string_vector, df_hhmm,
  ItemConfig, Item, data_invalid_value, is_zero_item, toreport,
}

-- A line of a configuration table, without its name and its comment.
abbrev pub row : ℕ → ℕ → ℕ → DataFormat → ItemConfig
row id len fl format = record { id = id; len = len; fl = fl; format = format }

-- `items` in the order of the table. `nitem` is what an unknown identifier reaches.
pub record DataClass : Type 0 where
  pub items : List Item
  pub nitem : Item

-- An item before `DataClassInit` looks at its format.
abbrev pub blank : ItemConfig → Item
blank config = record {
  config = config;
  val = pos data_invalid_value;
  hex = [];
  chars = [];
  str = [];
  list = [];
  hh = 0;
  mm = 0;
}

-- The item of a line of the table; `address` is where `new` puts its array.
unfoldable pub init_format : DataFormat → ℕ → ItemConfig → Item
init_format df_char address config =
    let size = (config.fl + config.len + 1) / 2 in
    if size == 0
    then blank config
    else record (blank config) { chars = replicate (size + 2) 0; val = pos address }
init_format df_hex address config =
    let size = (config.fl + config.len + 1) / 2 in
    if size == 0
    then blank config
    else record (blank config) { hex = replicate size 0xFF; val = pos address }
init_format df_hhmm address config = record (blank config) { val = pos 0; hh = 0; mm = 0 }
init_format df_bcd address config = blank config
init_format df_hex_num address config = blank config
init_format df_string address config = blank config
init_format df_string_vector address config = blank config
init_format df_jpg address config = blank config

abbrev pub init_item : ℕ → ItemConfig → Item
init_item address config = init_format config.format address config

-- The items of the lines from number `i` on; `address` says where the arrays lie.
unfoldable pub init_items : (ℕ → ℕ) → ℕ → List ItemConfig → List Item
init_items address i [] = []
init_items address i (c ∷ cs) = init_item (address i) c ∷ init_items address (i + 1) cs

-- `DataClassInit`.
unfoldable pub data_class_init : (ℕ → ℕ) → List ItemConfig → DataClass
data_class_init address configs = record {
  items = init_items address 0 configs;
  nitem = blank (row 0 0 0 df_bcd);
}

-- `int_items`: an entry of the map belongs to the last item with its identifier.
unfoldable pub find_item : List Item → ℕ → Option Item
find_item [] n = none
find_item (x ∷ xs) n = elim (find_item xs n) [
  | some y ↦ some y
  | none ↦ if x.config.id == n then some x else none
]

-- A change of the item that the map reaches; nothing where there is none.
unfoldable pub modify_item : List Item → ℕ → (Item → Item) → Option (List Item)
modify_item [] n f = none
modify_item (x ∷ xs) n f = elim (modify_item xs n f) [
  | some ys ↦ some (x ∷ ys)
  | none ↦ if x.config.id == n then some (f x ∷ xs) else none
]

-- `operator[]` of a number, read: the number is cut to 16 bits, an unknown one reaches `nitem`.
unfoldable pub at : DataClass → ℕ → Item
at c nn = elim (find_item c.items (nn % 2 ^ 16)) [ some x ↦ x | none ↦ c.nitem ]

-- `operator[]` of a number, written through.
unfoldable pub modify : DataClass → ℕ → (Item → Item) → DataClass
modify c nn f = elim (modify_item c.items (nn % 2 ^ 16) f) [
  | some xs ↦ record c { items = xs }
  | none ↦ record c { nitem = f c.nitem }
]

-- The reports of the items behind the `size` bytes already written to a buffer.
unfoldable pub report_items : List Item → List ℕ → ℕ → List ℕ × ℕ
report_items [] out size = (out, size)
report_items (x ∷ xs) out size =
    if is_zero_item x
    then report_items xs out size
    else report_items xs (put out size (toreport x).0) (size + (toreport x).1)

-- `reportall`.
unfoldable pub reportall : DataClass → List ℕ → List ℕ × ℕ
reportall c bytesout = report_items c.items bytesout 0

-- `tolog`: the reports in hexadecimal, each with a comma behind it. `bytes` is the buffer of one
-- report, `room` the characters that are left. The source puts a zero behind the last comma, within its
-- array of 2048 bytes for tables whose log has less than 2048 characters.
unfoldable pub tolog_items : List Item → List ℕ → ℕ → List ℕ
tolog_items [] bytes room = []
tolog_items (x ∷ xs) bytes room =
    let out = put bytes 0 (toreport x).0 in
    let text = hexarray2str out (toreport x).1 room in
    if is_zero_item x
    then tolog_items xs bytes room
    else text ++ 44 ∷ tolog_items xs out (room - (length text + 1))

unfoldable pub tolog : DataClass → List ℕ
tolog c = tolog_items c.items (replicate 1024 0) 2048
