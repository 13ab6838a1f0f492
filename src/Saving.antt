-- ===== src/Saving.antt =====
-- The settings file's data and the registers, app/dataprocess/data_save.cpp: what is saved and what is
-- restored when the station starts.
pub mod Writes
pub mod Fields
pub mod Addresses
pub mod Restored
pub mod Values
use yd.Prelude.{
  ℕ, zero, suc, ◌+◌, ◌-◌, ◌%◌, ◌^◌, List, [], ◌∷◌, ◌++◌, set, put, get_or, take, replicate, length,
  map, Option, none, some, Bool, true, false, not, ltb, ◌==◌, ◌&&◌, ◌||◌, if◌then◌else◌,
}
use yd.Prelude.Int.{ℤ, pos, negsuc}
use yd.Codec.Hex.{ipstring2hex, hex2ipstring}
use yd.Codec.Number.{strtoull16, to_string, tostring16, print_address, scan_address}
use yd.Item.{Item, bits, to_l64, is_zero_item}
use yd.Store.{DataClass, at, modify}
use yd.Store.Appdata.{same_text}
use yd.Sensor.{int_of}

-- The members of `rtu_setting` that this code reads. `center` holds ints by their bits. The map
-- `runtime` goes by the identifiers of the names.
pub record Rtu : Type 0 where
  pub dirty : Bool
  pub terminal_no : List ℕ
  pub terminal_type : ℤ
  pub model : List ℕ
  pub passwd : List ℕ
  pub center : List ℕ
  pub remote : List (List ℕ)
  pub runtime : List (ℕ × ℤ)

-- "normal".
abbrev pub normal : List ℕ
normal = 0x6E ∷ 0x6F ∷ 0x72 ∷ 0x6D ∷ 0x61 ∷ 0x6C ∷ []

abbrev pub with_val : ℤ → Item → Item
with_val v x = record x { val = v }

-- Bytes written to the front of the array of an item. The source copies 20 bytes to an array of ten; those
-- behind its end, and what they overwrite, are not in the model.
abbrev pub set_front : List ℕ → Item → Item
set_front bytes x = record x { hex = put x.hex 0 bytes }

-- The addresses of the stations, from register `n` on, at most `rounds` of them.
unfoldable pub recover_remotes : ℕ → ℕ → List (List ℕ) → DataClass → DataClass
recover_remotes zero n remotes c = c
recover_remotes (suc rounds) n [] c = c
recover_remotes (suc rounds) n (r ∷ rs) c =
    recover_remotes rounds (n + 1) rs (modify c n (set_front (ipstring2hex (scan_address r))))

-- `param_recovery`.
unfoldable pub param_recovery : Rtu → DataClass → DataClass
param_recovery rtu c =
    let c1 = modify c 0x02 (with_val (to_l64 (strtoull16 rtu.terminal_no))) in
    let c2 = modify c1 0x03 (with_val (to_l64 (strtoull16 rtu.passwd))) in
    let c3 = modify c2 0x01 (set_front (map (λ b. b % 2 ^ 8) (take 4 rtu.center))) in
    let c4 = recover_remotes 8 0x04 rtu.remote c3 in
    let c5 = if same_text rtu.model normal then modify c4 0x0C (set_front (0x02 ∷ [])) else c4 in
    modify c5 0xFF01 (with_val rtu.terminal_type)

-- `runtime_recovery`.
unfoldable pub runtime_recovery : List (ℕ × ℤ) → DataClass → DataClass
runtime_recovery [] c = c
runtime_recovery ((id, v) ∷ entries) c = runtime_recovery entries (modify c id (with_val v))

-- The parts of `param_save`, in their order.
unfoldable pub save_terminal_no : DataClass → Rtu → Rtu
save_terminal_no c rtu =
    if not (strtoull16 rtu.terminal_no == bits (at c 0x02).val)
    then record rtu { terminal_no = to_string (at c 0x02).val; dirty = true }
    else rtu

unfoldable pub save_passwd : DataClass → Rtu → Rtu
save_passwd c rtu =
    if not (bits (at c 0x03).val == strtoull16 rtu.passwd)
    then record rtu { passwd = tostring16 (bits (at c 0x03).val); dirty = true }
    else rtu

-- `cc` has four bytes; writes behind it are not in the model.
unfoldable pub save_center : DataClass → Rtu → Rtu
save_center c rtu =
    let cc = put (replicate 4 0xFF) 0 (map (λ b. b % 2 ^ 8) rtu.center) in
    let hex = take 4 (at c 0x01).hex in
    if not (same_text cc hex) then record rtu { dirty = true; center = hex } else rtu

-- An element behind the end of the vector is not in the model.
unfoldable pub save_remotes : ℕ → ℕ → DataClass → Rtu → Rtu
save_remotes zero i c rtu = rtu
save_remotes (suc rounds) i c rtu =
    let hex = (at c (0x04 + i)).hex in
    let text = print_address (hex2ipstring hex) in
    let changed =
      ltb (length rtu.remote) (i + 1) || not (same_text (get_or rtu.remote i []) text) in
    let saved : Rtu =
      if changed then record rtu { dirty = true; remote = set rtu.remote i text } else rtu in
    let rest = save_remotes rounds (i + 1) c saved in if get_or hex 0 0 == 0xFF then rtu else rest

unfoldable pub save_model : DataClass → Rtu → Rtu
save_model c rtu =
    let r : Rtu =
      if get_or (at c 0x0C).hex 0 0 == 0x02 then record rtu { model = normal } else rtu in
    record r { terminal_type = int_of (at c 0xFF01).val }

-- `param_save`, whose callers all pass the address of `rtu`.
unfoldable pub param_save : DataClass → Rtu → Rtu
param_save c rtu =
    save_model c (save_remotes 8 0 c (save_center c (save_passwd c (save_terminal_no c rtu))))

-- The map's entries, each name at most once.
unfoldable pub find_entry : List (ℕ × ℤ) → ℕ → Option ℤ
find_entry [] n = none
find_entry ((k, v) ∷ m) n = elim (find_entry m n) [
  | some w ↦ some w
  | none ↦ if k == n then some v else none
]

-- A new value of a name: for its entry, or behind the others.
unfoldable pub replace_entry : ℕ → ℤ → List (ℕ × ℤ) → List (ℕ × ℤ)
replace_entry n v [] = []
replace_entry n v ((k, w) ∷ m) = (k, if k == n then v else w) ∷ replace_entry n v m

unfoldable pub put_entry : ℕ → ℤ → List (ℕ × ℤ) → List (ℕ × ℤ)
put_entry n v m = elim (find_entry m n) [ some w ↦ replace_entry n v m | none ↦ m ++ (n, v) ∷ [] ]

abbrev pub same_l64 : ℤ → ℤ → Bool
same_l64 (pos a) (pos b) = a == b
same_l64 (negsuc a) (negsuc b) = a == b
same_l64 (pos a) (negsuc b) = false
same_l64 (negsuc a) (pos b) = false

-- `count(name) == 0` or a different value.
unfoldable pub is_changed : Option ℤ → ℤ → Bool
is_changed none v = true
is_changed (some w) v = not (same_l64 w v)

unfoldable pub save_items : List Item → Rtu → Rtu
save_items [] rtu = rtu
save_items (x ∷ xs) rtu =
    let saved : Rtu =
      if is_changed (find_entry rtu.runtime x.config.id) x.val
      then record rtu { runtime = put_entry x.config.id x.val rtu.runtime; dirty = true }
      else rtu in
    save_items xs (if is_zero_item x then rtu else saved)

-- `runtime_save`.
unfoldable pub runtime_save : DataClass → Rtu → Rtu
runtime_save c rtu = save_items c.items rtu

-- `data_save_if_need`: `save` writes the file, and its content is given back.
unfoldable pub data_save_if_need : Rtu → Rtu → Rtu × Rtu
data_save_if_need rtu file = if rtu.dirty then (record rtu { dirty = false }, rtu) else (rtu, file)
