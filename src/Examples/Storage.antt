-- ===== src/Examples/Storage.antt =====
-- Runs of the saving, the restoring and the log.
use yd.Prelude.{
  replicate, ℕ, ◌+◌, ◌<◌, ◌≤◌, List, [], ◌∷◌, ◌++◌, length, put, get_or, true, false, ◌==◌,
  if◌then◌else◌, ◌≡◌, ◌≢◌, inl, inr, refl, arith, zero, suc, drop, ap, ◌∙◌, All, drop-append,
}
use yd.Prelude.Int.{pos}
use yd.Codec.Bcd.{report_bcd, bcd_of_byte}
use yd.Codec.Number.{strtoull16, strtoull_signed, skip_space, skip_0x, read_digits, saturated}
use yd.Codec.Search.{Match, no_match, matched}
use yd.Codec.Search.Found.{in_class, InClass, OffClass, Stops, IsRegexec}
use yd.Item.{
  Item, is_zero_item, is_zero_of, len, df_bcd, toreport, toreport_value, to_report_of, reportlen,
}
use yd.Item.Trip.{bcd_item}
use yd.Store.{
  DataClass, data_class_init, init_items, init_format, find_item, modify_item, modify, at, tolog,
  row, blank,
}
use yd.Store.Replay.{perform}
use yd.Store.Tables.Param.{param_config_items}
use yd.Store.Log.{fromlog}
use yd.Store.Log.Trip.{
  Logs, logged_size, log_writes, fromlog-tolog, fromlog-tolog_many, logged_count,
}
use yd.Store.Log.Values.{fromlog-tolog_value}
use yd.Saving.{
  Rtu, normal, with_val, set_front, param_save, param_recovery, runtime_save, runtime_recovery,
}
use yd.Saving.Restored.{param_recovery-param_save, param_save-terminal_no}
use yd.Saving.Values.{runtime_recovery-runtime_save}

abbrev fresh_params : DataClass
fresh_params = data_class_init (λ i. i) param_config_items

-- Password 1234, the center's addresses 1 to 4, and an address for the first station.
abbrev params : DataClass
params =
    modify
      (modify
        (modify (modify fresh_params 0x03 (with_val (pos 0x1234))) 0x01
          (set_front (1 ∷ 2 ∷ 3 ∷ 4 ∷ [])))
        0x04 (set_front (2 ∷ 0x12 ∷ 0x02 ∷ 0x38 ∷ 0x06 ∷ 0x40 ∷ 0x59 ∷ 0x03 ∷ 0x30 ∷ 0x48 ∷ [])))
      0x02 (with_val (pos 12345))

-- Password 1111, address 1, one center and room for a station.
abbrev settings : Rtu
settings = record {
  dirty = false;
  terminal_no = 0x31 ∷ [];
  terminal_type = pos 1;
  model = normal;
  passwd = 0x31 ∷ 0x31 ∷ 0x31 ∷ 0x31 ∷ [];
  center = 1 ∷ [];
  remote = (0x30 ∷ []) ∷ [];
  runtime = (0x20, pos 4) ∷ [];
}

param_recovery-param_save_example :
    ((at (param_recovery (param_save params settings) fresh_params) 0x03).val
      ≡ (at params 0x03).val)
    × ((at (param_recovery (param_save params settings) fresh_params) 0x01).hex
        ≡ (at params 0x01).hex)
unfolding data_class_init init_items init_format find_item modify_item modify at put
param_recovery-param_save_example =
    param_recovery-param_save params fresh_params settings 0x1234 refl (omega arith) (omega arith)
      refl (omega arith) refl refl refl

first_used : (m : ℕ) → m ≤ 0 → (get_or (at params (0x04 + m)).hex 0 0 == 0xFF) ≡ false
unfolding data_class_init init_items init_format find_item modify_item modify at put
first_used zero h = refl
first_used (suc m) h = absurd (omega arith)

one-ne : strtoull16 (0x31 ∷ []) ≢ 12345
unfolding strtoull16 strtoull_signed skip_space skip_0x read_digits saturated
one-ne h = absurd (omega (arith, h))

param_save-terminal_no_example : 12345 < strtoull16 (param_save params settings).terminal_no
unfolding data_class_init init_items init_format find_item modify_item modify at put
param_save-terminal_no_example =
    param_save-terminal_no params settings 12345 refl (omega arith) (omega arith) one-ne

-- The interval of the timed report, 20H, is set to 6 hours; the settings have 4.
abbrev runtime : DataClass
runtime = record {
  items = with_val (pos 6) (blank (row 0x20 2 0 df_bcd)) ∷ blank (row 0x21 2 0 df_bcd) ∷ [];
  nitem = blank (row 0 0 0 df_bcd);
}

runtime_recovery-runtime_save_example :
    (at (runtime_recovery (runtime_save runtime settings).runtime runtime) 0x20).val ≡ pos 6
unfolding find_item is_zero_item is_zero_of len
runtime_recovery-runtime_save_example =
    runtime_recovery-runtime_save runtime runtime settings 0x20
      (with_val (pos 6) (blank (row 0x20 2 0 df_bcd))) refl refl (omega arith) (omega arith)
      (omega arith) refl

-- A search for a run of the class's characters.
abbrev other_run : List ℕ → ℕ
other_run [] = 0
other_run (c ∷ cs) = let rest = other_run cs in if in_class c then 0 else suc rest

abbrev class_run : List ℕ → ℕ
class_run [] = 0
class_run (c ∷ cs) = let rest = class_run cs in if in_class c then suc rest else 0

abbrev run_match : ℕ → ℕ → Match
run_match so zero = no_match
run_match so (suc n) = matched so (so + suc n)

abbrev scan_class : List ℕ → Match
scan_class t = let so = other_run t in run_match so (class_run (drop so t))

other_run-all : (t : List ℕ) → OffClass t → other_run t ≡ length t
other_run-all [] h = refl
other_run-all (c ∷ cs) (first, rest) =
    ap (λ b. if b then 0 else suc (other_run cs)) first ∙ ap suc (other_run-all cs rest)

other_run-word :
    (other : List ℕ) (c : ℕ) (cs : List ℕ)
    → OffClass other
    → in_class c ≡ true
    → other_run (other ++ c ∷ cs) ≡ length other
other_run-word [] c cs off h = ap (λ b. if b then 0 else suc (other_run cs)) h
other_run-word (d ∷ other) c cs (first, off) h =
    ap (λ b. if b then 0 else suc (other_run (other ++ c ∷ cs))) first
    ∙ ap suc (other_run-word other c cs off h)

class_run-word :
    (word rest : List ℕ) → InClass word → Stops rest → class_run (word ++ rest) ≡ length word
class_run-word [] [] h stop = refl
class_run-word [] (c ∷ cs) h stop = ap (λ b. if b then suc (class_run cs) else 0) stop
class_run-word (d ∷ word) rest (first, h) stop =
    ap (λ b. if b then suc (class_run (word ++ rest)) else 0) first
    ∙ ap suc (class_run-word word rest h stop)

drop_all : (t : List ℕ) → drop (length t) t ≡ []
drop_all [] = refl
drop_all (c ∷ cs) = drop_all cs

scan_class-IsRegexec : IsRegexec scan_class
scan_class-IsRegexec = record {
  misses = λ t off.
      ap (λ n. run_match n (class_run (drop n t))) (other_run-all t off)
      ∙ ap (λ u. run_match (length t) (class_run u)) (drop_all t);
  finds = scan_finds;
}
  where
    scan_finds :
        (other word rest : List ℕ)
        → OffClass other
        → InClass word
        → 0 < length word
        → Stops rest
        → scan_class (other ++ (word ++ rest)) ≡ matched (length other) (length other + length word)
    scan_finds other [] rest off h long stop = absurd (omega arith)
    scan_finds other (c ∷ cs) rest off h long stop =
        let t = other ++ ((c ∷ cs) ++ rest) in
        ap (λ n. run_match n (class_run (drop n t))) (other_run-word other c (cs ++ rest) off h.0)
        ∙ ap (λ u. run_match (length other) (class_run u)) (drop-append other ((c ∷ cs) ++ rest))
        ∙ ap (run_match (length other)) (class_run-word (c ∷ cs) rest h stop)

-- The rain of the hour, 1AH, is 12.3; the rain of the day has no value.
abbrev rain_items : List Item
rain_items =
    blank (row 0x1F 6 1 df_bcd) ∷ bcd_item 0x1A 6 1 (pos 123) (blank (row 0 0 0 df_bcd)) ∷ []

abbrev measured : DataClass
measured = record { items = rain_items; nitem = blank (row 0 0 0 df_bcd) }

abbrev unmeasured : DataClass
unmeasured = record {
  items = blank (row 0x1F 6 1 df_bcd) ∷ blank (row 0x1A 6 1 df_bcd) ∷ [];
  nitem = blank (row 0 0 0 df_bcd);
}

measured-Logs : All Logs rain_items
unfolding is_zero_item is_zero_of len toreport toreport_value to_report_of reportlen report_bcd
    bcd_of_byte
measured-Logs = (
  inl refl,
  (
    inr (record {
      whole = refl;
      bytes = omega arith;
      some_bytes = omega arith;
      short = omega arith;
    }),
    tt,
  ),
)

-- Sixteen items with a value.
abbrev sixteen_items : List Item
sixteen_items = replicate 16 (bcd_item 0x1A 6 1 (pos 123) (blank (row 0 0 0 df_bcd)))

abbrev sixteen : DataClass
sixteen = record { items = sixteen_items; nitem = blank (row 0 0 0 df_bcd) }

sixteen-Logs : All Logs sixteen_items
unfolding is_zero_item is_zero_of len toreport toreport_value to_report_of reportlen report_bcd
    bcd_of_byte
sixteen-Logs =
    let one : Logs (bcd_item 0x1A 6 1 (pos 123) (blank (row 0 0 0 df_bcd))) = inr (record {
      whole = refl;
      bytes = omega arith;
      some_bytes = omega arith;
      short = omega arith;
    }) in
    (
      one,
      (
        one,
        (
          one,
          (
            one,
            (one, (one, (one, (one, (one, (one, (one, (one, (one, (one, (one, (one, tt)))))))))))),
          ),
        ),
      ),
    )

measured-size : logged_size rain_items < 2048
unfolding is_zero_item is_zero_of len toreport toreport_value to_report_of reportlen report_bcd
    bcd_of_byte
measured-size = omega arith

measured-few : logged_count rain_items < 16
unfolding is_zero_item is_zero_of len
measured-few = omega arith

fromlog-tolog_many_example : fromlog scan_class (tolog sixteen) unmeasured ≡ unmeasured
unfolding is_zero_item is_zero_of len toreport toreport_value to_report_of reportlen report_bcd
    bcd_of_byte
fromlog-tolog_many_example =
    fromlog-tolog_many scan_class sixteen unmeasured scan_class-IsRegexec sixteen-Logs (omega arith)
      (omega arith)

fromlog-tolog_example :
    fromlog scan_class (tolog measured) unmeasured ≡ perform (log_writes rain_items) unmeasured
fromlog-tolog_example =
    fromlog-tolog scan_class measured unmeasured scan_class-IsRegexec measured-Logs measured-size
      measured-few

fromlog-tolog_value_example :
    (at (fromlog scan_class (tolog measured) unmeasured) 0x1A).val ≡ pos 123
unfolding find_item at
fromlog-tolog_value_example =
    fromlog-tolog_value scan_class measured unmeasured (blank (row 0x1F 6 1 df_bcd) ∷ []) []
      (blank (row 0 0 0 df_bcd)) 0x1A 6 1 123 scan_class-IsRegexec refl
      (record {
        own = omega arith;
        not_ff = omega arith;
        some_digits = omega arith;
        short = omega arith;
        fraction = omega arith;
      })
      (omega arith) (omega arith) (omega arith) tt measured-Logs measured-size measured-few refl
      refl
