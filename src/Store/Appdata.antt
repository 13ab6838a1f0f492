-- ===== src/Store/Appdata.antt =====
-- The program's own data: `init_appdata` and the flags of the extra reports, `jia_add_flags`, of
-- data/DataClassItemConfig.cpp.
use yd.Prelude.{
  ℕ, List, [], ◌∷◌, ◌++◌, map, put, replicate, Bool, true, false, ◌==◌, ◌&&◌, ◌||◌, if◌then◌else◌,
}
use yd.Prelude.Int.{pos}
use yd.Item.{
  DataFormat, df_bcd, df_hex_num, df_hex, df_char, df_string, df_jpg, df_string_vector, df_hhmm,
  Item, len,
}
use yd.Store.{DataClass, at, modify}

unfoldable pub init_appdata_item : DataFormat → Item → Item
init_appdata_item df_bcd x = record x { val = pos 0 }
init_appdata_item df_hex x = record x { hex = put x.hex 0 (replicate (len x) 0) }
init_appdata_item df_hex_num x = x
init_appdata_item df_char x = x
init_appdata_item df_string x = x
init_appdata_item df_jpg x = x
init_appdata_item df_string_vector x = x
init_appdata_item df_hhmm x = x

unfoldable pub init_appdata : DataClass → DataClass
init_appdata a = record a { items = map (λ x. init_appdata_item x.config.format x) a.items }

-- `==` of two strings, and `find` in a vector of them.
abbrev pub same_text : List ℕ → List ℕ → Bool
same_text [] [] = true
same_text [] (c ∷ cs) = false
same_text (b ∷ bs) [] = false
same_text (b ∷ bs) (c ∷ cs) = b == c && same_text bs cs

unfoldable pub contains : List (List ℕ) → List ℕ → Bool
contains [] name = false
contains (x ∷ xs) name = same_text x name || contains xs name

-- "jia" is 9.
unfoldable pub jia_add_flags : DataClass → List ℕ → DataClass
jia_add_flags a name =
    if contains (at a 9).list name
    then a
    else modify a 9 (λ x. record x { list = x.list ++ name ∷ [] })
