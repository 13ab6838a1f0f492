-- ===== src/Sensor/Flow.antt =====
-- The flows Q1 to Q8 and their sums QC1 to QC8, app/down/flow.cpp.
use yd.Prelude.{ℕ, zero, suc, ◌+◌, List, [], ◌∷◌, Bool, false, leb, ◌==◌, ◌&&◌, if◌then◌else◌}
use yd.Prelude.Int.{ℤ, pos, ltb_ℤ}
use yd.Item.{value, clear}
use yd.Store.{at, modify}
use yd.Store.Appdata.{jia_add_flags}
use yd.Sensor.{Field, is_diff_hour, set_val}
use yd.Sensor.WaterLevel.{clear_from}

-- "liuliang".
abbrev pub flow_name : List ℕ
flow_name = 0x6C ∷ 0x69 ∷ 0x75 ∷ 0x6C ∷ 0x69 ∷ 0x61 ∷ 0x6E ∷ 0x67 ∷ []

unfoldable pub flow_addbase : Field → ℕ → ℤ → Bool → Field × ℕ
flow_addbase f id val clears =
    if clears
    then (record f { devdata = modify f.devdata id clear }, 0)
    else if leb 0x28 id && leb id 0x2F
    then (record f { devdata = set_val f.devdata id val }, 0)
    else if leb 0xFFA1 id && leb id 0xFFA8
    then (record f { devdata = set_val f.devdata id val }, 0)
    else (f, 1)

-- The loop over the flows from `i` on, `n` of them.
unfoldable pub check_flows : Field → ℤ → ℕ → ℕ → Field
check_flows f limit i zero = f
check_flows f limit i (suc n) =
    let warned = record f { appdata = jia_add_flags f.appdata flow_name } in
    check_flows (if ltb_ℤ limit (value (at f.devdata i)) then warned else f) limit (i + 1) n

unfoldable pub flow_warn_check : Field → Field
flow_warn_check f =
    let limit = value (at f.runtime 0x42) in
    if ltb_ℤ (pos 0) limit then check_flows f limit 0x27 10 else f

-- "Q" is 0x27; `saved` is the time of the saved data.
unfoldable pub init_flow : Field → ℕ → ℕ → Field
init_flow f now saved =
    if is_diff_hour now saved
    then f
    else record f { devdata = clear_from (modify f.devdata 0x27 clear) 0x28 8 }

unfoldable pub flow_caculation : Field → ℤ → ℕ → Bool → Bool → Field
flow_caculation f wl id result clears =
    let (f2, other) = flow_addbase f id wl false in
    let f3 = if other == 1 then record f2 { devdata = set_val f2.devdata id wl } else f2 in
    let f1 =
      if clears
      then (flow_addbase f id wl clears).0
      else if result
      then flow_warn_check f3
      else f in
    record f1 { devdata = set_val f1.devdata 0x27 (at f1.devdata 0x28).val }

unfoldable pub flow_poll : Field → ℕ → ℕ → Field × ℕ
flow_poll f lasttime now =
    let last = if lasttime == 0 then now else lasttime in
    (flow_warn_check f, if is_diff_hour last now then now else last)
