-- ===== src/Store/Log/Values.antt =====
-- A value that was logged comes back, data/DataClass.hpp.
use yd.Prelude.{
  ℕ, ◌+◌, ◌/◌, ◌%◌, ◌^◌, ◌<◌, List, [], ◌∷◌, ◌++◌, get_or, drop, Bool, true, false, ltb,
  le→ltb_false, ◌==◌, ◌&&◌, if◌then◌else◌, if_either, same_either, All, ◌≡◌, refl, ap, ◌∙◌, arith,
}
use yd.Prelude.Int.{pos}
use yd.Codec.Search.{Match}
use yd.Codec.Search.Found.{IsRegexec}
use yd.Item.{
  DataFormat, df_bcd, df_hex_num, df_hex, df_char, df_string, df_jpg, df_string_vector, df_hhmm,
  ItemConfig, Item, len, data_invalid_value, is_zero_of, is_zero_item, toreport, toreport_value,
  fromreport, fromreport_of,
}
use yd.Item.Trip.{bcd_item, IsPlain, fromreport-toreport}
use yd.Store.{DataClass, at, tolog}
use yd.Store.Access.{is_missing}
use yd.Store.Replay.{
  Write, KeepsPlace, apply_writes, apply_writes-append, apply_writes-config, at-perform_known,
}
use yd.Store.Log.{log_id, fromlog}
use yd.Store.Log.Trip.{Logs, logged_size, logged_count, report_write, log_writes, fromlog-tolog}

fromreport_of-config :
    (f : DataFormat) (x : Item) (b : List ℕ) (rsize : ℕ)
    → (fromreport_of f x b rsize).config ≡ x.config
unfolding fromreport_of
fromreport_of-config df_bcd x b rsize =
    same_either (λ (y : Item). y.config) (ltb (len x) rsize && get_or b 2 0 == 0xFF) refl refl
fromreport_of-config df_hex_num x b rsize = refl
fromreport_of-config df_hex x b rsize = refl
fromreport_of-config df_char x b rsize = refl
fromreport_of-config df_string x b rsize =
    same_either (λ (y : Item). y.config) (len x == 0) refl refl
fromreport_of-config df_hhmm x b rsize = refl
fromreport_of-config df_string_vector x b rsize =
    same_either (λ (y : Item). y.config) (len x == 0) refl refl
fromreport_of-config df_jpg x b rsize = refl

report_write-KeepsPlace : (x : Item) → KeepsPlace (report_write x)
unfolding report_write fromreport
report_write-KeepsPlace x y =
    let bytes = (toreport x).0 in
    let b = if get_or bytes 0 0 == 0xFF then drop 1 bytes else bytes in
    fromreport_of-config y.config.format y b (get_or b 1 0 / 2 ^ 3)

log_writes-KeepsPlace : (xs : List Item) → All KeepsPlace (log_writes xs)
log_writes-KeepsPlace [] = tt
log_writes-KeepsPlace (x ∷ xs) =
    if_either (All KeepsPlace) (is_zero_item x) (λ empty. log_writes-KeepsPlace xs)
      (λ full. (report_write-KeepsPlace x, log_writes-KeepsPlace xs))

either_append :
    (b : Bool) (w : Write) (ws vs : List Write)
    → (if b then ws ++ vs else w ∷ (ws ++ vs)) ≡ (if b then ws else w ∷ ws) ++ vs
either_append true w ws vs = refl
either_append false w ws vs = refl

log_writes-append : (xs ys : List Item) → log_writes (xs ++ ys) ≡ log_writes xs ++ log_writes ys
log_writes-append [] ys = refl
log_writes-append (x ∷ xs) ys =
    ap (λ t. if is_zero_item x then t else report_write x ∷ t) (log_writes-append xs ys)
    ∙ either_append (is_zero_item x) (report_write x) (log_writes xs) (log_writes ys)

-- The items whose reports begin with another identifier.
abbrev pub Apart : ℕ → List Item → Type 0
Apart id xs = All (λ x. (log_id (toreport x).0 % 2 ^ 16 == id % 2 ^ 16) ≡ false) xs

apply_writes-Apart :
    (id : ℕ) (xs : List Item) (y : Item) → Apart id xs → apply_writes (log_writes xs) id y ≡ y
unfolding report_write
apply_writes-Apart id [] y h = refl
apply_writes-Apart id (x ∷ xs) y (first, rest) =
    if_either (λ (ws : List Write). apply_writes ws id y ≡ y) (is_zero_item x)
      (λ empty. apply_writes-Apart id xs y rest)
      (λ full.
        ap (λ b. apply_writes (log_writes xs) id (if b then (report_write x).change y else y)) first
        ∙ apply_writes-Apart id xs y rest)

plain_zero :
    (id digits fl v : ℕ) (item : Item)
    → v < data_invalid_value
    → 0 < digits
    → is_zero_item (bcd_item id digits fl (pos v) item) ≡ false
unfolding is_zero_item is_zero_of len
plain_zero id digits fl v item h k =
    let some_len : ((digits + 1) / 2 == 0) ≡ false = ground arith in
    let some_val : (v == data_invalid_value) ≡ false = ground arith in rw (some_len, some_val) refl

plain_id :
    (id digits fl v : ℕ) (item : Item)
    → IsPlain id digits fl
    → id < 0xFF
    → v < data_invalid_value
    → log_id (toreport (bcd_item id digits fl (pos v) item)).0 ≡ id
unfolding log_id toreport toreport_value
plain_id id digits fl v item p small h =
    let own : ltb 0xFF00 id ≡ false = le→ltb_false 0xFF00 id p.own in
    let some_digits : (digits == 0) ≡ false = let d = p.some_digits in ground arith in
    let full = plain_zero id digits fl v item h p.some_digits in
    let plain_byte : (id % 2 ^ 8 == 0xFF) ≡ false = let d = p.not_ff in ground arith in
    rw (some_digits, full, own, plain_byte) (omega arith)

-- The write of an item with a value, in front of those of other identifiers.
written :
    (x : Item) (behind : List Item) (id : ℕ) (y : Item)
    → is_zero_item x ≡ false
    → (log_id (toreport x).0 % 2 ^ 16 == id % 2 ^ 16) ≡ true
    → Apart id behind
    → apply_writes (log_writes (x ∷ behind)) id y ≡ (fromreport y (toreport x).0).0
unfolding report_write
written x behind id y full here apart =
    let z = (fromreport y (toreport x).0).0 in
    ap
      (λ b. apply_writes (if b then log_writes behind else report_write x ∷ log_writes behind) id y)
      full
    ∙ ap (λ b. apply_writes (log_writes behind) id (if b then z else y)) here
    ∙ apply_writes-Apart id behind z apart

-- A decimal value that is not negative comes back from the log: in any table that has an item of its
-- configuration, whatever value that has, reading the log of the table `c` gives the value, where no
-- later item of `c` has the identifier and the conditions of `fromlog-tolog` hold.
pub fromlog-tolog_value :
    (regexec : List ℕ → Match) (c q : DataClass) (before behind : List Item) (item : Item)
    (id digits fl v : ℕ)
    → IsRegexec regexec
    → c.items ≡ before ++ bcd_item id digits fl (pos v) item ∷ behind
    → IsPlain id digits fl
    → id < 0xFF
    → v < 100 ^ ((digits + 1) / 2)
    → v < data_invalid_value
    → Apart id behind
    → All Logs c.items
    → logged_size c.items < 2048
    → logged_count c.items < 16
    → is_missing q id ≡ false
    → (at q id).config ≡ record { id = id; len = digits; fl = fl; format = df_bcd }
    → (at (fromlog regexec (tolog c) q) id).val ≡ pos v
fromlog-tolog_value regexec c q before behind item id digits fl v k e plain small fits valid apart
      logs size few known config =
    let x = bcd_item id digits fl (pos v) item in
    let y0 = at q id in
    let y = apply_writes (log_writes before) id y0 in
    let cfg : ItemConfig = record { id = id; len = digits; fl = fl; format = df_bcd } in
    let same : y.config ≡ cfg =
      apply_writes-config (log_writes before) id y0 (log_writes-KeepsPlace before) ∙ config in
    let shape : y ≡ bcd_item id digits fl y.val y = ap (λ g. record y { config = g }) same in
    let r = (toreport x).0 in
    let read =
      ap (λ t. (fromreport t r).0) shape
      ∙ ap (λ t. t.0) (fromreport-toreport id digits fl v y.val item y plain fits valid) in
    let here : (log_id r % 2 ^ 16 == id % 2 ^ 16) ≡ true =
      ap (λ n. n % 2 ^ 16 == id % 2 ^ 16) (plain_id id digits fl v item plain small valid)
      ∙ ground arith in
    let full = plain_zero id digits fl v item valid plain.some_digits in
    ap (λ t. (at t id).val) (fromlog-tolog regexec c q k logs size few)
    ∙ ap (λ t. t.val)
        (at-perform_known (log_writes c.items) q id (log_writes-KeepsPlace c.items) known
          ∙ ap (λ xs. apply_writes (log_writes xs) id y0) e
          ∙ ap (λ ws. apply_writes ws id y0) (log_writes-append before (x ∷ behind))
          ∙ apply_writes-append (log_writes before) (log_writes (x ∷ behind)) id y0
          ∙ written x behind id y full here apart)
    ∙ ap (λ t. t.val) read
