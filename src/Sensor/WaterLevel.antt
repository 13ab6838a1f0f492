-- ===== src/Sensor/WaterLevel.antt =====
-- The water levels Z1 to Z8, app/down/waterlevel.cpp: the level with its base, the five-minute arrays
-- DRZ, and the alarms.
use yd.Prelude.{
  ℕ, zero, suc, ◌+◌, ◌-◌, ◌*◌, ◌/◌, ◌%◌, ◌^◌, bit_or, List, [], ◌∷◌, get_or, Option, none, some,
  Bool, false, ltb, leb, ◌==◌, ◌&&◌, ◌||◌, if◌then◌else◌,
}
use yd.Prelude.Int.{ℤ, pos, ◌+ℤ◌, ◌-ℤ◌, quot, ltb_ℤ}
use yd.Item.{bits, value, clear}
use yd.Store.{DataClass, at, modify}
use yd.Store.Appdata.{jia_add_flags}
use yd.Sensor.{Field, is_diff_hour, time_offset_5min, set_val, set_hex}

-- "waterlevel".
abbrev pub waterlevel_name : List ℕ
waterlevel_name = 0x77 ∷ 0x61 ∷ 0x74 ∷ 0x65 ∷ 0x72 ∷ 0x6C ∷ 0x65 ∷ 0x76 ∷ 0x65 ∷ 0x6C ∷ []

-- The table, and the result.
unfoldable pub set_drz : DataClass → ℕ → ℤ → ℕ → DataClass × ℕ
set_drz c id val off =
    let high = bits val / 2 ^ 8 % 2 ^ 8 in
    let low = bits val % 2 ^ 8 in
    if ltb id 0xF5 || ltb 0xFC id
    then (c, 1)
    else (set_hex (set_hex c id (off * 2) high) id (off * 2 + 1) low, 0)

unfoldable pub get_drz : DataClass → ℕ → ℕ → ℕ
get_drz c index off =
    let o = off % 12 in
    let hex = (at c (0xF5 + index)).hex in
    bit_or (get_or hex (o * 2) 0 * 2 ^ 8) (get_or hex (o * 2 + 1) 0)

-- The items from `id` on, `n` of them, without their values.
unfoldable pub clear_from : DataClass → ℕ → ℕ → DataClass
clear_from c id zero = c
clear_from c id (suc n) = clear_from (modify c id clear) (id + 1) n

unfoldable pub reset_drz : DataClass → DataClass
reset_drz c = clear_from c 0xF5 8

-- `minute` is the minute of the clock.
unfoldable pub waterlevel_addbase : Field → ℕ → ℕ → ℤ → Bool → Field × ℕ
waterlevel_addbase f minute id val clears =
    let offset = id - 0x3C in
    let off = time_offset_5min minute in
    let level =
      val +ℤ value (at f.runtime (offset + 0x28)) +ℤ value (at f.runtime (offset + 0x30)) in
    let cleared = (set_drz (modify f.devdata id clear) (offset + 0xF5) (pos 0xFFFF) off).0 in
    let d = set_val f.devdata id level in
    let stored = (set_drz d (offset + 0xF5) (quot (at d id).val 10) off).0 in
    if ltb id 0x3C || ltb 0x43 id
    then (f, 1)
    else (record f { devdata = if clears then cleared else stored }, 0)

-- The alarms of level `i`: the level now and the one before against the thresholds, and the level
-- against its own limit.
unfoldable pub is_alarm : Field → ℕ → ℕ → ℕ → Bool
is_alarm f i now last =
    let up_limit = value (at f.runtime 0x40) in
    let down_limit = value (at f.runtime 0x40) in
    let limit = value (at f.runtime (0x38 + i)) in
    let cha = pos now -ℤ pos last in
    let up = ltb_ℤ (pos 0) cha && ltb_ℤ (pos 0) up_limit && ltb_ℤ up_limit cha in
    let down = ltb_ℤ cha (pos 0) && ltb_ℤ (pos 0) down_limit && ltb_ℤ down_limit (pos 0 -ℤ cha) in
    let changed = if last == 0xFFFF then false else up || down in
    changed || (ltb_ℤ (pos 0) limit && ltb_ℤ limit (pos now))

-- The loop over the levels from `i` on, `n` of them; `log` is the record of the hour before, where the
-- database has one. `last` is the level before, and lives through the rounds. A level raises the flag
-- once, where the source may call `jia_add_flags` again with the same name.
unfoldable pub check_levels : Field → ℕ → Option DataClass → ℕ → ℕ → ℕ → Field
check_levels f minute log last i zero = f
check_levels f minute log last i (suc n) =
    let before =
      if ltb minute 5
      then elim log [ some c ↦ get_drz c i 11 | none ↦ last ]
      else get_drz f.devdata i (minute / 5 - 1) in
    let now = get_drz f.devdata i (minute / 5) in
    let warned =
      if is_alarm f i now before
      then record f { appdata = jia_add_flags f.appdata waterlevel_name }
      else f in
    if now == 0xFFFF
    then check_levels f minute log before (i + 1) n
    else check_levels warned minute log (if before == 0xFFFF then now else before) (i + 1) n

unfoldable pub waterlevel_warn_check : Field → ℕ → Option DataClass → Field
waterlevel_warn_check f minute log = check_levels f minute log 0xFFFF 0 8

-- "Z" is 0x39; `saved` is the time of the saved data.
unfoldable pub init_waterlevel : Field → ℕ → ℕ → Field
init_waterlevel f now saved =
    if is_diff_hour now saved
    then record f { devdata = reset_drz f.devdata }
    else record f { devdata = clear_from (modify f.devdata 0x39 clear) 0x3C 8 }

unfoldable pub waterlevel_caculation : Field → ℕ → Option DataClass → ℤ → ℕ → Bool → Bool → Field
waterlevel_caculation f minute log wl id result clears =
    let level =
      if leb 0x3C id && leb id 0x43
      then (waterlevel_addbase f minute id wl false).0
      else record f { devdata = set_val f.devdata id wl } in
    let f1 =
      if clears
      then (waterlevel_addbase f minute id wl clears).0
      else if result
      then waterlevel_warn_check level minute log
      else f in
    record f1 { devdata = set_val f1.devdata 0x39 (at f1.devdata 0x3C).val }

-- `lasttime` is 0 before the first call.
unfoldable pub waterlevel_poll : Field → ℕ → ℕ → Field × ℕ
waterlevel_poll f lasttime now =
    let last = if lasttime == 0 then now else lasttime in
    if is_diff_hour last now then (record f { devdata = reset_drz f.devdata }, now) else (f, last)
