-- ===== src/Center/Commands.antt =====
-- The commands of app/up/center/center.cpp, and the message body of app/up/packet/ZhengWen.hpp.
-- A command takes the received text, of which the first eight bytes are number and time, and writes its
-- answer to a buffer.
use yd.Prelude.{
  ℕ, zero, suc, ◌+◌, ◌-◌, ◌*◌, ◌/◌, ◌%◌, ◌^◌, bit_or, List, [], ◌∷◌, take, drop, get_or, put,
  length, Bool, true, false, ltb, ◌==◌, ◌&&◌, ◌||◌, not, if◌then◌else◌,
}
use yd.Prelude.Int.{ℤ, pos, negsuc, ◌-ℤ◌, ltb_ℤ}
use yd.Codec.Bcd.{bcd2hex}
use yd.Item.{bits, toreport, fromreport}
use yd.Store.{DataClass, at, modify}
use yd.Center.Header.{
  Calendar, param_save, runtime_save, time_set, Station, new_header, Out, emit, emit_all,
  to_array_front3, to_array,
}

-- What a command leaves: the variables, the buffer, and the result, the length of the answer.
pub record Reply : Type 0 where
  pub station : Station
  pub out : Out
  pub result : ℤ

abbrev pub nothing : Station → Out → Reply
nothing s o = record { station = s; out = o; result = pos 0 }

abbrev pub written : Station → Out → Reply
written s o = record { station = s; out = o; result = pos o.size }

-- Where the reading of a list of reports ended: the registers, the identifiers met, and whether the
-- last report had a value.
pub record Settings : Type 0 where
  pub items : DataClass
  pub ids : List ℕ
  pub ok : Bool

-- The bytes of a report's value, by the report; the registers with the value.
abbrev pub ilen_at : DataClass → List ℕ → ℕ → ℕ
ilen_at c d offset = (fromreport (at c (get_or d offset 0)) (drop offset d)).1

abbrev pub set_at : DataClass → List ℕ → ℕ → DataClass
set_at c d offset = modify c (get_or d offset 0) (λ x. (fromreport x (drop offset d)).0)

-- The loop of `set_param` and `set_runtime`. The source writes the identifiers to an array of 200: this is
-- its course for texts that name no more, as every text of at most 608 bytes. A round moves the offset on by three at least, so that
-- `size` rounds are enough.
unfoldable pub set_items : ℕ → DataClass → List ℕ → ℕ → ℕ → Settings
set_items zero c d offset size = record { items = c; ids = []; ok = true }
set_items (suc fuel) c d offset size =
    let id = get_or d offset 0 in
    let ilen = ilen_at c d offset in
    let c1 = set_at c d offset in
    let rest = set_items fuel c1 d (offset + 2 + ilen) size in
    if not (ltb offset size)
    then record { items = c; ids = []; ok = true }
    else if ltb 0 ilen
    then record { items = rest.items; ids = id ∷ rest.ids; ok = rest.ok }
    else record { items = c1; ids = id ∷ []; ok = false }

-- The registers read again: an identifier without a report is left out.
unfoldable pub report_ids : DataClass → List ℕ → Out → Out
report_ids c [] o = o
report_ids c (id ∷ ids) o =
    let (bytes, ilen) = toreport (at c id) in
    report_ids c ids
      (if ltb 0 ilen then emit o bytes ilen else record o { buf = put o.buf o.size bytes })

-- `count` identifiers behind the first eight bytes, each in front of a length byte.
unfoldable pub ids_from : List ℕ → ℕ → ℕ → List ℕ
ids_from d zero i = []
ids_from d (suc count) i = get_or d (8 + i * 2) 0 ∷ ids_from d count (i + 1)

-- The registers of `get_runtime`: the length of every report so far is added to the position.
unfoldable pub runtime_ids : DataClass → List ℕ → ℕ → Out → Out
runtime_ids c [] ilen o = o
runtime_ids c (id ∷ ids) ilen o =
    let item = at c id in
    let total = ilen + (toreport item).1 in
    if item.config.len == 0
    then runtime_ids c ids ilen o
    else runtime_ids c ids total (emit o (toreport item).0 total)

-- The items of a message body; `cache` is the buffer of one report.
unfoldable pub body_items : DataClass → List ℕ → List ℕ → Out → Out
body_items c [] cache o = o
body_items c (n ∷ names) cache o =
    let (bytes, ilen) = toreport (at c n) in
    let cache1 = put cache 0 bytes in
    body_items c names cache1 (if ltb 0 ilen then emit o (take ilen cache1) ilen else o)

-- Two digits, and the time that the text of a command begins with.
abbrev pub two_digits : List ℕ → ℕ → ℕ
two_digits d i = bcd2hex (drop i d) 1

unfoldable pub time_of : List ℕ → Calendar
time_of datain = record {
  year = two_digits datain 2 + 2000;
  month = two_digits datain 3;
  day = two_digits datain 4;
  hour = two_digits datain 5;
  minute = two_digits datain 6;
  second = two_digits datain 7;
}

-- `localtime` of the library.
module _ (localtime : ℕ → Calendar) where
  abbrev pub front3 : Station → Out → Reply
  front3 s o = let (s1, h) = new_header s in written s1 (to_array_front3 localtime h o)

  -- `ZhengWen::to_array` with the items of `devdata`.
  unfoldable pub zhengwen : Station → List ℕ → List ℕ → Out → Reply
  zhengwen s names cache o =
      let (s1, h) = new_header s in
      written s1 (body_items s1.devdata names cache (to_array localtime h o))

  unfoldable pub get_shishi_all : Station → List ℕ → Out → Reply
  get_shishi_all s cache o = zhengwen s s.shishi cache o

  unfoldable pub get_rengong_report : Station → Out → Reply
  get_rengong_report s o = zhengwen s [] [] o

  unfoldable pub get_zhiding_ids : Station → List ℕ → ℕ → List ℕ → Out → Reply
  get_zhiding_ids s datain len cache o =
      if ltb len 10 then nothing s o else zhengwen s (ids_from datain ((len - 8) / 2) 0) cache o

  unfoldable pub set_param : Station → List ℕ → ℕ → Out → Reply
  set_param s datain size o =
      let r = set_items size s.param datain 8 size in
      let s1 = record s { param = r.items } in
      let a = front3 s1 o in
      let s2 = record a.station { effects = param_save r.items ∷ a.station.effects } in
      if r.ok then written s2 (report_ids r.items r.ids a.out) else nothing s1 o

  unfoldable pub get_param : Station → List ℕ → ℕ → Out → Reply
  get_param s datain size o =
      let a = front3 s o in
      written a.station (report_ids a.station.param (ids_from datain ((size - 8) / 2) 0) a.out)

  unfoldable pub set_runtime : Station → List ℕ → ℕ → Out → Reply
  set_runtime s datain size o =
      let r = set_items size s.runtime datain 8 size in
      let s1 = record s { runtime = r.items } in
      let a = front3 s1 o in
      let s2 = record a.station { effects = runtime_save r.items ∷ a.station.effects } in
      if r.ok then written s2 (report_ids r.items r.ids a.out) else nothing s1 o

  unfoldable pub get_runtime : Station → List ℕ → ℕ → Out → Reply
  get_runtime s datain size o =
      let a = front3 s o in
      written a.station (runtime_ids a.station.runtime (ids_from datain ((size - 8) / 2) 0) 0 a.out)

  -- The version with its length in front.
  unfoldable pub get_version : List ℕ → Station → Out → Reply
  get_version version s o =
      let a = front3 s o in
      written a.station (emit_all (emit a.out (length version % 2 ^ 8 ∷ []) 1) version)

  -- "ZT" is 0x45.
  unfoldable pub get_state_warn_info : Station → Out → Reply
  get_state_warn_info s o =
      let a = front3 s o in
      let (bytes, ilen) = toreport (at a.station.devdata 0x45) in
      written a.station (emit a.out bytes ilen)

  -- What `data_memory_clear` and `data_set_factory` do to the variables is `act`.
  unfoldable pub clear_history : (Station → Station) → Station → Out → Reply
  clear_history act s o = front3 (act s) o

  unfoldable pub reset_to_factory : (Station → Station) → Station → Out → Reply
  reset_to_factory act s o = front3 (act s) o

  unfoldable pub change_password : Station → List ℕ → Out → Reply
  change_password s datain o =
      let pdata = drop 8 datain in
      let pass = bits (at s.param 0x03).val % 2 ^ 16 in
      let opass = bit_or (get_or pdata 2 0 * 2 ^ 8) (get_or pdata 3 0) in
      let npass = bit_or (get_or pdata 6 0 * 2 ^ 8) (get_or pdata 7 0) in
      let (s1, h) = new_header s in
      let param1 = modify s1.param 0x03 (λ x. record x { val = pos npass }) in
      let s2 = record s1 { param = param1; effects = param_save param1 ∷ s1.effects } in
      let back = bits (at param1 0x03).val % 2 ^ 16 in
      let o1 = to_array_front3 localtime h o in
      let o2 = emit o1 (0x03 ∷ 0x10 ∷ back / 2 ^ 8 ∷ back % 2 ^ 8 ∷ []) 4 in
      if get_or pdata 0 0 == 0x03 && opass == pass then written s2 o2 else nothing s o

  -- `mktime` of the library, in the calendar's numbers.
  unfoldable pub set_time : (Calendar → ℤ) → Station → List ℕ → Out → Reply
  set_time mktime s datain o =
      let time = time_of datain in
      let t = mktime time in
      let far = ltb_ℤ (pos (s.now + 300)) t || ltb_ℤ t (pos s.now -ℤ pos 300) in
      let s1 = record s { second_time = false; effects = time_set time ∷ s.effects } in
      if not s.second_time && far
      then record { station = record s { second_time = true }; out = o; result = negsuc 0 }
      else front3 s1 o

  unfoldable pub get_time : Station → Out → Reply
  get_time s o = front3 s o
