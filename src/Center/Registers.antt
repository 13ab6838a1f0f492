-- ===== src/Center/Registers.antt =====
-- What the commands of the center do to the registers, app/up/center/center.cpp.
use yd.Prelude.{
  ◌-◌, ◌*◌, ℕ, zero, suc, ◌+◌, ◌/◌, ◌^◌, ◌≤◌, ◌<◌, List, [], ◌∷◌, drop, get_or, map, All, Bool,
  true, false, ltb, not, ◌==◌, ◌&&◌, if◌then◌else◌, ◌≡◌, refl, ap, ◌∙◌, arith, same_either,
  if_either, ltb→lt, ltb_false→le, not-true, length,
}
use yd.Prelude.Int.{pos}
use yd.Item.{
  DataFormat, df_bcd, df_hex_num, df_hex, df_char, df_string, df_jpg, df_string_vector, df_hhmm,
  Item, len, fromreport_of, fromreport,
}
use yd.Store.{DataClass, at}
use yd.Store.Replay.{Write, KeepsPlace, perform, replay, at-perform}
use yd.Center.Header.{Calendar, Station, Out, new_header, get_observetime_time}
use yd.Center.Commands.{
  Reply, Settings, written, ilen_at, set_items, set_at, set_param, set_runtime, nothing,
}

config_kept :
    (f : DataFormat) (item : Item) (b : List ℕ) (rsize : ℕ)
    → (fromreport_of f item b rsize).config ≡ item.config
unfolding fromreport_of
config_kept df_bcd item b rsize =
    same_either (λ (x : Item). x.config) (ltb (len item) rsize && get_or b 2 0 == 0xFF) refl refl
config_kept df_hex_num item b rsize = refl
config_kept df_hex item b rsize = refl
config_kept df_char item b rsize = refl
config_kept df_string item b rsize = same_either (λ (x : Item). x.config) (len item == 0) refl refl
config_kept df_hhmm item b rsize = refl
config_kept df_string_vector item b rsize =
    same_either (λ (x : Item). x.config) (len item == 0) refl refl
config_kept df_jpg item b rsize = refl

-- The write that the report at an offset of a text stands for.
abbrev pub report_write : List ℕ → ℕ → Write
report_write d offset = record {
  number = get_or d offset 0;
  change = λ x. (fromreport x (drop offset d)).0;
}

report_write-KeepsPlace : (d : List ℕ) (offset : ℕ) → KeepsPlace (report_write d offset)
unfolding fromreport
report_write-KeepsPlace d offset x = config_kept x.config.format x _ _

map-KeepsPlace : (d : List ℕ) (offsets : List ℕ) → All KeepsPlace (map (report_write d) offsets)
map-KeepsPlace d [] = tt
map-KeepsPlace d (o ∷ os) = (report_write-KeepsPlace d o, map-KeepsPlace d os)

-- The length of a report's value, by its length byte.
abbrev pub value_size : List ℕ → ℕ → ℕ
value_size d offset =
    let b = drop offset d in get_or (if get_or b 0 0 == 0xFF then drop 1 b else b) 1 0 / 2 ^ 3

-- How the text of a command, from an offset on, is cut into reports: the offsets at which they begin,
-- and whether the last one has a value.
pub data Reads (d : List ℕ) (size : ℕ) : ℕ → List ℕ → Bool → Type 0 where
  finished : {offset : ℕ} → size ≤ offset → Reads d size offset [] true
  next :
      {offset : ℕ} {offsets : List ℕ} {ok : Bool}
      → offset < size
      → 0 < value_size d offset
      → Reads d size (offset + 2 + value_size d offset) offsets ok
      → Reads d size offset (offset ∷ offsets) ok
  invalid :
      {offset : ℕ}
      → offset < size
      → value_size d offset ≡ 0
      → Reads d size offset (offset ∷ []) false

-- The reading of a text, and what it did: the registers are those that the reports' writes leave.
record IsRead (d : List ℕ) (size offset : ℕ) (c : DataClass) (r : Settings) : Type 0 where
  offsets : List ℕ
  reads : Reads d size offset offsets r.ok
  items : r.items ≡ perform (map (report_write d) offsets) c
  ids : r.ids ≡ map (λ i. get_or d i 0) offsets

set_items-IsRead :
    (fuel : ℕ) (c : DataClass) (d : List ℕ) (offset size : ℕ)
    → size ≤ offset + fuel
    → IsRead d size offset c (set_items fuel c d offset size)
unfolding set_items perform fromreport
set_items-IsRead zero c d offset size enough = record {
  offsets = [];
  reads = finished (omega arith);
  items = refl;
  ids = refl;
}
set_items-IsRead (suc fuel) c d offset size enough =
    let n = value_size d offset in
    let c1 = set_at c d offset in
    let rest = set_items fuel c1 d (offset + 2 + n) size in
    let done : Settings = record { items = c; ids = []; ok = true } in
    let added : Settings = record {
      items = rest.items;
      ids = get_or d offset 0 ∷ rest.ids;
      ok = rest.ok;
    } in
    let stopped : Settings = record { items = c1; ids = get_or d offset 0 ∷ []; ok = false } in
    if_either (IsRead d size offset c) (not (ltb offset size)) {x = done}
      {y = if ltb 0 n then added else stopped}
      (λ over. record {
        offsets = [];
        reads = finished (ltb_false→le offset size (not-true (ltb offset size) over));
        items = refl;
        ids = refl;
      })
      (λ more.
        let before : offset < size = ground arith in
        if_either (IsRead d size offset c) (ltb 0 n) {x = added} {y = stopped}
          (λ some_value.
            let w = set_items-IsRead fuel c1 d (offset + 2 + n) size (omega arith) in
            record {
              offsets = offset ∷ w.offsets;
              reads = next before (ltb→lt 0 n some_value) w.reads;
              items = w.items;
              ids = ap (λ t. get_or d offset 0 ∷ t) w.ids;
            })
          (λ no_value. record {
            offsets = offset ∷ [];
            reads = invalid before (let z = ltb_false→le 0 n no_value in omega arith);
            items = refl;
            ids = refl;
          }))

-- What a command that sets registers did: the text was read as reports, the registers `after` hold what
-- replaying the reports on each number's own value gives, and only a text of which every report has a
-- value is answered and saved.
pub record IsApplied (d : List ℕ) (size : ℕ) (before after : DataClass) (s : Station) (r : Reply)
    : Type 0 where
  pub offsets : List ℕ
  pub ok : Bool
  pub reads : Reads d size 8 offsets ok
  pub values : (m : ℕ) → at after m ≡ replay before (map (report_write d) offsets) m (at before m)
  pub result : r.result ≡ (if ok then pos r.out.size else pos 0)
  pub effects : length r.station.effects ≡ (if ok then 1 else 0) + length s.effects

-- An answer or none.
reply_either :
    (ok : Bool) (n : ℕ) (s2 s1 : Station) (o2 o : Out)
    → length s2.effects ≡ 1 + n
    → length s1.effects ≡ n
    → let r : Reply = if ok then written s2 o2 else nothing s1 o in
      (r.result ≡ (if ok then pos r.out.size else pos 0))
      × (length r.station.effects ≡ (if ok then 1 else 0) + n)
reply_either true n s2 s1 o2 o h k = (refl, h)
reply_either false n s2 s1 o2 o h k = (refl, omega arith)

set_values :
    (d : List ℕ) (size : ℕ) (c after : DataClass)
    (w : IsRead d size 8 c (set_items size c d 8 size))
    → after ≡ (set_items size c d 8 size).items
    → (m : ℕ) → at after m ≡ replay c (map (report_write d) w.offsets) m (at c m)
set_values d size c after w e m =
    ap (λ k. at k m) (e ∙ w.items)
    ∙ at-perform (map (report_write d) w.offsets) c m (map-KeepsPlace d w.offsets)

-- Each register takes three bytes of the text at least.
set_items-ids :
    (fuel : ℕ) (c : DataClass) (d : List ℕ) (offset size : ℕ)
    → 3 * length (set_items fuel c d offset size).ids ≤ size + 2 - offset
unfolding set_items
set_items-ids zero c d offset size = omega arith
set_items-ids (suc fuel) c d offset size =
    let ilen = ilen_at c d offset in
    let ih = set_items-ids fuel (set_at c d offset) d (offset + 2 + ilen) size in
    if_either (λ (r : Settings). 3 * length r.ids ≤ size + 2 - offset) (not (ltb offset size))
      (λ behind. omega arith)
      (λ within.
        let less : offset < size = ground (arith, within) in
        if_either (λ (r : Settings). 3 * length r.ids ≤ size + 2 - offset) (ltb 0 ilen)
          (λ some_value. let some_bytes : 0 < ilen = ltb→lt 0 ilen some_value in omega arith)
          (λ no_value. omega arith))

-- The command that sets running parameters, 42H: for every text of at most 608 bytes, the array of 200
-- identifiers is not overrun, and the registers afterwards are the
-- abstract replay of the text's reports, number by number; the first report without a value ends the
-- reading, the reports in front of it stay applied, and then there is no answer and nothing is saved.
pub set_runtime-IsApplied :
    (localtime : ℕ → Calendar) (s : Station) (d : List ℕ) (size : ℕ) (o : Out)
    → size ≤ 608
    → let r = set_runtime localtime s d size o in
      (length (set_items size s.runtime d 8 size).ids ≤ 200)
      × IsApplied d size s.runtime r.station.runtime s r
unfolding set_runtime new_header get_observetime_time
set_runtime-IsApplied localtime s d size o small =
    let r = set_items size s.runtime d 8 size in
    let w = set_items-IsRead size s.runtime d 8 size (omega arith) in
    let answered = reply_either r.ok (length s.effects) _ _ _ o (omega arith) (omega arith) in
    (
      omega (arith, set_items-ids size s.runtime d 8 size),
      record {
        offsets = w.offsets;
        ok = r.ok;
        reads = w.reads;
        values =
            set_values d size s.runtime (set_runtime localtime s d size o).station.runtime w
              (same_either (λ (k : Reply). k.station.runtime) r.ok refl refl);
        result = answered.0;
        effects = answered.1;
      },
    )

-- The command that sets the basic configuration, 40H, in the same way.
set_param-IsApplied :
    (localtime : ℕ → Calendar) (s : Station) (d : List ℕ) (size : ℕ) (o : Out)
    → let r = set_param localtime s d size o in IsApplied d size s.param r.station.param s r
unfolding set_param new_header get_observetime_time
set_param-IsApplied localtime s d size o =
    let r = set_items size s.param d 8 size in
    let w = set_items-IsRead size s.param d 8 size (omega arith) in
    let answered = reply_either r.ok (length s.effects) _ _ _ o (omega arith) (omega arith) in
    record {
      offsets = w.offsets;
      ok = r.ok;
      reads = w.reads;
      values =
          set_values d size s.param (set_param localtime s d size o).station.param w
            (same_either (λ (k : Reply). k.station.param) r.ok refl refl);
      result = answered.0;
      effects = answered.1;
    }
