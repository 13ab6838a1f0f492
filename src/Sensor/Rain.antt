-- ===== src/Sensor/Rain.antt =====
-- The rain, app/down/rain.cpp: the counters of an hour, a day and all, the five-minute array DRP, and
-- the alarm.
use yd.Prelude.{
  ℕ, ◌+◌, ◌-◌, ◌*◌, ◌/◌, ◌%◌, ◌^◌, bit_or, List, [], ◌∷◌, get_or, set, put, replicate, Bool, false,
  ◌==◌, not, ◌&&◌, if◌then◌else◌,
}
use yd.Prelude.Int.{ℤ, pos, negsuc, ◌+ℤ◌, ◌-ℤ◌, leb_ℤ}
use yd.Item.{Item, bits, to_l64, len, is_zero_item}
use yd.Store.{DataClass, at, modify}
use yd.Store.Appdata.{jia_add_flags}
use yd.Sensor.{Field, is_diff_hour, times, int_of, set_val}

-- "rain".
abbrev pub rain_name : List ℕ
rain_name = 0x72 ∷ 0x61 ∷ 0x69 ∷ 0x6E ∷ []

-- The start of the rain day, of a time and its hour; "RainDayStartTime" is 0x22.
unfoldable pub get_rain_day_start_time : Field → ℕ → ℕ → ℤ
get_rain_day_start_time f tnow hour =
    let t = pos (tnow - tnow % 3600) in
    let start = int_of (at f.runtime 0x22).val in
    if leb_ℤ start (pos hour)
    then t -ℤ times (pos hour -ℤ start) 3600
    else (t -ℤ pos (24 * 3600)) +ℤ times (start -ℤ pos hour) 3600

-- The sum of the hours' rain, of the records that the database finds; "P1" is 0x1A.
unfoldable pub sum_rain : List DataClass → ℤ → ℤ
sum_rain [] current = current
sum_rain (log ∷ logs) current =
    sum_rain logs (if is_zero_item (at log 0x1A) then current else current +ℤ (at log 0x1A).val)

-- A time without the part of an hour.
unfoldable pub whole_hours : ℤ → ℤ
whole_hours (pos n) = pos (n - n % 3600)
whole_hours (negsuc n) = pos 0 -ℤ pos (n + 1 - (n + 1) % 3600)

-- `P1_rain`: `logs` finds the records of the hours between two times.
unfoldable pub p1_rain : (ℤ → ℤ → List DataClass) → ℤ → ℤ → ℤ
p1_rain logs from to = sum_rain (logs (whole_hours from) (whole_hours to)) (pos 0)

-- "PJ" is 0x20, "PD" 0x1F; `hour_of` is the hour of a time by `localtime`.
module _ (hour_of : ℕ → ℕ) (logs : ℤ → ℤ → List DataClass) where
  unfoldable pub init_current_rain : Field → ℕ → Field
  init_current_rain f now =
      let from = get_rain_day_start_time f now (hour_of (now - now % 3600)) in
      record f { devdata = set_val f.devdata 0x20 (p1_rain logs from (pos (now - now % 3600))) }

  unfoldable pub init_day_rain : Field → ℕ → Field
  init_day_rain f now =
      let day = now - 24 * 3600 in
      let from = get_rain_day_start_time f day (hour_of (day - day % 3600)) in
      let to = get_rain_day_start_time f now (hour_of (now - now % 3600)) in
      record f { devdata = set_val f.devdata 0x1F (p1_rain logs from to) }

-- "DRP" is 0xF4.
unfoldable pub init_5min : Field → Field
init_5min f =
    let d = modify f.devdata 0xF4 (λ x. record x { hex = put x.hex 0 (replicate (len x) 0xFF) }) in
    record f { devdata = set_val d 0x1A (pos 0) }

unfoldable pub increase_item : ℤ → Item → Item
increase_item v x = if is_zero_item x then record x { val = v } else record x { val = x.val +ℤ v }

unfoldable pub increase : DataClass → ℕ → ℤ → DataClass
increase c id v = modify c id (increase_item v)

-- A byte: 0xFF stands for no value.
unfoldable pub increase_byte : ℕ → ℤ → ℕ
increase_byte b v = if b == 0xFF then bits v % 2 ^ 8 else (b + bits v) % 2 ^ 8

unfoldable pub increase_drp : DataClass → ℤ → ℕ → DataClass
increase_drp c v off =
    modify c 0xF4 (λ x. record x { hex = set x.hex off (increase_byte (get_or x.hex off 0) v) })

-- "rainIncFlag" is 7 and "rainAlarmFlags" 6.
unfoldable pub rain_warn_check : Field → ℕ → Field
rain_warn_check f minute =
    let a = set_val f.appdata 7 (pos 0) in
    let f4 = get_or (at f.devdata 0xF4).hex (minute / 5) 0 in
    let yuzhi = int_of (times (at f.runtime 0x27).val 10) in
    let warned = set_val a 6 (to_l64 (bit_or (bits (at a 6).val) 1)) in
    let raised : Bool = elim (at f.appdata 7).val [ pos n ↦ n == 1 | negsuc n ↦ false ] in
    if raised
    then record f {
      appdata =
          if not (f4 == 0xFF) && leb_ℤ yuzhi (pos f4) then jia_add_flags warned rain_name else a;
    }
    else f

-- "rainAcc" is 8; a count of 0 stands for those that are not positive. `inc` is an int, as its factors
-- are.
unfoldable pub rain_caculation : Field → ℕ → ℕ → ℕ → Field
rain_caculation f now minute yuliangzengliang =
    let u = bits (at f.runtime 0x25).val % 2 ^ 16 in
    let inc = int_of (pos (yuliangzengliang * (yuliangzengliang * u))) in
    let a1 = set_val f.appdata 7 (pos 1) in
    let d1 = increase f.devdata 0x1A inc in
    let d2 = increase d1 0x20 inc in
    let d3 = increase_drp d2 inc (minute / 5) in
    let d4 = increase d3 0x26 inc in
    let acc = at a1 8 in
    let a2 = set_val a1 8 (if is_zero_item acc then (at d4 0x26).val else acc.val +ℤ inc) in
    if yuliangzengliang == 0 then f else record f { observetime = now; appdata = a2; devdata = d4 }

module _ (hour_of : ℕ → ℕ) (logs : ℤ → ℤ → List DataClass) where
  unfoldable pub init_rain : Field → ℕ → ℕ → Field
  init_rain f now saved =
      let f1 = init_day_rain hour_of logs (init_current_rain hour_of logs f now) now in
      if is_diff_hour now saved then init_5min f1 else f

  -- `lasttime` is 0 before the first call.
  unfoldable pub rain_poll : Field → ℕ → ℕ → ℕ → Field × ℕ
  rain_poll f lasttime now minute =
      let last = if lasttime == 0 then now else lasttime in
      let f1 = init_current_rain hour_of logs (init_day_rain hour_of logs (init_5min f) now) now in
      if is_diff_hour last now
      then (rain_warn_check f1 minute, now)
      else (rain_warn_check f minute, last)
