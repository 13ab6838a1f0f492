-- ===== src/Store/Reach.antt =====
-- The configuration tables and the items they make, `DataClassInit` of data/DataClass.hpp.
use yd.Prelude.{
  ℕ, ◌+◌, ◌%◌, ◌^◌, List, [], ◌∷◌, none, some, Bool, true, false, ltb, ◌==◌, ◌&&◌, not, split_and,
  not-true, replicate, ◌/◌, subst, if◌then◌else◌, All, ◌≡◌, refl, ap, ◌∙◌, arith,
}
use yd.Prelude.Int.{pos}
use yd.Item.{
  DataFormat, df_bcd, df_hex_num, df_hex, df_char, df_string, df_jpg, df_string_vector, df_hhmm,
  ItemConfig, Item,
}
use yd.Store.Access.{at_found}
use yd.Store.{DataClass, blank, init_item, init_format, init_items, data_class_init, find_item, at}
use yd.Store.Tables.Devdata.{devdata_config_items}
use yd.Store.Tables.Param.{param_config_items, appdata_config_items}
use yd.Store.Tables.Runtime.{runtime_config_items}
use yd.Store.Tables.Personalset.{personalset_config_items}

-- Has no line the identifier?
unfoldable absent : ℕ → List ItemConfig → Bool
absent n [] = true
absent n (c ∷ cs) = not (c.id == n) && absent n cs

-- Are the identifiers numbers of 16 bits, and all different?
unfoldable distinct : List ItemConfig → Bool
distinct [] = true
distinct (c ∷ cs) = ltb c.id (2 ^ 16) && (absent c.id cs && distinct cs)

-- A condition on the sizes changes the arrays of an item only.
same_config :
    (b : Bool) (x y : Item) (c : ItemConfig)
    → x.config ≡ c
    → y.config ≡ c
    → (if b then x else y).config ≡ c
same_config true x y c h k = h
same_config false x y c h k = k

init_format-config :
    (f : DataFormat) (address : ℕ) (c : ItemConfig) → (init_format f address c).config ≡ c
unfolding init_format
init_format-config df_char address c =
    let size = (c.fl + c.len + 1) / 2 in
    same_config (size == 0) (blank c)
      (record (blank c) { chars = replicate (size + 2) 0; val = pos address }) c refl refl
init_format-config df_hex address c =
    let size = (c.fl + c.len + 1) / 2 in
    same_config (size == 0) (blank c)
      (record (blank c) { hex = replicate size 0xFF; val = pos address }) c refl refl
init_format-config df_hhmm address c = refl
init_format-config df_bcd address c = refl
init_format-config df_hex_num address c = refl
init_format-config df_string address c = refl
init_format-config df_string_vector address c = refl
init_format-config df_jpg address c = refl

find-absent :
    (address : ℕ → ℕ) (i n : ℕ) (cs : List ItemConfig)
    → absent n cs ≡ true
    → find_item (init_items address i cs) n ≡ none
unfolding absent init_items find_item
find-absent address i n [] h = refl
find-absent address i n (c ∷ cs) h =
    let (ne, rest) = split_and (not (c.id == n)) (absent n cs) h in
    let e = find-absent address (i + 1) n cs rest in
    let id : ((init_item (address i) c).config.id == n) ≡ false =
      ap (λ k. k.id == n) (init_format-config c.format (address i) c) ∙ not-true (c.id == n) ne in
    rw (e, id)

-- The configuration of what an identifier finds.
FindsConfig : List Item → ItemConfig → Type 0
FindsConfig items c = (x : Item) × (find_item items c.id ≡ some x) × (x.config ≡ c)

finds_there :
    (x : Item) (xs : List Item) (cs : List ItemConfig)
    → All (FindsConfig xs) cs
    → All (FindsConfig (x ∷ xs)) cs
unfolding find_item FindsConfig
finds_there x xs [] h = tt
finds_there x xs (c ∷ cs) ((y, e, k), rest) = ((y, rw e, k), finds_there x xs cs rest)

distinct-FindsConfig :
    (address : ℕ → ℕ) (i : ℕ) (cs : List ItemConfig)
    → distinct cs ≡ true
    → All (FindsConfig (init_items address i cs)) cs
unfolding distinct init_items find_item FindsConfig
distinct-FindsConfig address i [] h = tt
distinct-FindsConfig address i (c ∷ cs) h =
    let (_, h1) = split_and (ltb c.id (2 ^ 16)) (absent c.id cs && distinct cs) h in
    let (alone, rest) = split_and (absent c.id cs) (distinct cs) h1 in
    let x = init_item (address i) c in
    let e = find-absent address (i + 1) c.id cs alone in
    let config = init_format-config c.format (address i) c in
    let id : (x.config.id == c.id) ≡ true = ap (λ k. k.id == c.id) config ∙ ground arith in
    (
      (x, rw (e, id), config),
      finds_there x (init_items address (i + 1) cs) cs
          (distinct-FindsConfig address (i + 1) cs rest),
    )

-- Every line of the table has an item made of it, and its identifier finds that item.
abbrev pub Reached : (ℕ → ℕ) → List ItemConfig → Type 0
Reached address cs = All (λ c. (at (data_class_init address cs) c.id).config ≡ c) cs

reached_from :
    (c : DataClass) (cs : List ItemConfig)
    → distinct cs ≡ true
    → All (FindsConfig c.items) cs
    → All (λ k. (at c k.id).config ≡ k) cs
unfolding distinct at FindsConfig
reached_from c [] h f = tt
reached_from c (k ∷ cs) h ((x, e, config), rest) =
    let (small, h1) = split_and (ltb k.id (2 ^ 16)) (absent k.id cs && distinct cs) h in
    let (_, h2) = split_and (absent k.id cs) (distinct cs) h1 in
    let id : k.id ≡ k.id % 2 ^ 16 = ground arith in
    let found = subst (λ n. find_item c.items n ≡ some x) id e in
    (ap (λ y. y.config) (at_found c k.id x found) ∙ config, reached_from c cs h2 rest)

-- A table with different identifiers of 16 bits.
distinct-Reached :
    (address : ℕ → ℕ) (cs : List ItemConfig) → distinct cs ≡ true → Reached address cs
unfolding data_class_init
distinct-Reached address cs h =
    reached_from (data_class_init address cs) cs h (distinct-FindsConfig address 0 cs h)

-- In each of the five tables of the program, made into items wherever their arrays lie, every line is
-- reached by its own identifier: no two lines share one, and none is cut.
tables-Reached :
    (address : ℕ → ℕ)
    → Reached address devdata_config_items
      × Reached address param_config_items
      × Reached address runtime_config_items
      × Reached address personalset_config_items
      × Reached address appdata_config_items
unfolding absent distinct
tables-Reached address = (
  distinct-Reached address devdata_config_items refl,
  distinct-Reached address param_config_items refl,
  distinct-Reached address runtime_config_items refl,
  distinct-Reached address personalset_config_items refl,
  distinct-Reached address appdata_config_items refl,
)
