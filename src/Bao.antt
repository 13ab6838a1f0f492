-- ===== src/Bao.antt =====
-- When the station records and reports, `BaoBase` and its subclasses in app/dataprocess/Ibao.hpp, and
-- the loop over the reports, `bao_poll` in app/up/report/zhudong_report.cpp.
pub mod Cycle
pub mod Ledger
pub mod Retry
pub mod Turns
use yd.Prelude.{
  Option, none, some, ℕ, zero, suc, ◌+◌, ◌-◌, ◌*◌, ◌/◌, ◌%◌, ◌^◌, List, [], ◌∷◌, Bool, true, false,
  ltb, ◌==◌, not, ◌&&◌, if◌then◌else◌,
}
use yd.Prelude.Int.{ℤ, pos, negsuc, ◌+ℤ◌, ◌-ℤ◌, sub_ℕ, quot, leb_ℤ}
use yd.Codec.Text.{list_merge}

-- A 64-bit value stored in an `int`.
unfoldable pub to_int : ℤ → ℤ
to_int (pos n) = let m = n % 2 ^ 32 in if ltb m (2 ^ 31) then pos m else sub_ℕ m (2 ^ 32)
to_int (negsuc n) = let m = n % 2 ^ 32 in if ltb m (2 ^ 31) then negsuc m else pos (2 ^ 32 - m - 1)

-- The first component is the new value of `*last`. Times are in seconds.
unfoldable pub check_time : ℕ → ℕ → ℕ → ℤ → ℕ × Bool
check_time last now cycle delays =
    let nn = to_int (quot (pos last -ℤ delays) cycle) in
    if cycle == 0
    then (last, false)
    else if leb_ℤ (to_int (nn +ℤ pos 1)) (quot (pos now -ℤ delays) cycle)
    then (now, true)
    else (last, false)

-- The classes that share `poll`: `BaoBase`, `CycleBaoBase`, `JiaBaoBase` and `RawBao`.
pub data BaoKind : Type 0 where
  base : BaoKind
  cycle_bao : BaoKind
  jia : BaoKind
  raw : BaoKind

-- A row of `record_table`: the time that it is recorded for, and the log of the data.
pub record Row : Type 0 where
  pub time : ℕ
  pub log : List ℕ

-- `saved` is the table, the newest row first.
pub record Bao : Type 0 where
  pub kind : BaoKind
  pub last_record_check_time : ℕ
  pub last_report_check_time : ℕ
  pub code : List ℕ
  pub row : Row
  pub obtime : ℕ
  pub record_seconds : ℕ
  pub record_delays : ℤ
  pub report_delays : ℤ
  pub record_enable : Bool
  pub report_enable : Bool
  pub saved : List Row

-- What a poll meets: the clock at its four readings, the flags of the data modules that ask for an
-- extra report, and the log of the data set.
pub record Moment : Type 0 where
  pub at_check : ℕ
  pub at_record : ℕ
  pub at_observe : ℕ
  pub at_report : ℕ
  pub triggers : List (List ℕ)
  pub log : List ℕ

-- `record_check` of BaoBase and of JiaBaoBase, which looks at the flags behind the time.
unfoldable pub kind_check : BaoKind → Moment → Bao → Bao × Bool
kind_check base m b = (b, true)
kind_check cycle_bao m b = (b, true)
kind_check raw m b = (b, true)
kind_check jia m b = elim m.triggers [
  | [] ↦ (b, false)
  | t ∷ ts ↦ (record b { code = list_merge (t ∷ ts) (32 ∷ []) }, true)
]

unfoldable pub record_check : Moment → Bao → Bao × Bool
record_check m b =
    let (last, due) =
      check_time b.last_record_check_time m.at_check b.record_seconds b.record_delays in
    let b1 = record b { last_record_check_time = last } in
    let checked = kind_check b.kind m b1 in
    if ltb b.record_seconds 60
    then (b, false)
    else if b.record_enable
    then (b, false)
    else if due
    then checked
    else (b1, false)

-- `record`: a row for the last full cycle.
unfoldable pub save_row : Moment → Bao → Bao
save_row m b =
    let row : Row = record { time = m.at_record - m.at_record % b.record_seconds; log = m.log } in
    record b { row = row; obtime = m.at_observe; saved = row ∷ b.saved }

unfoldable pub record_row : Moment → Bao → Bao
record_row m b = elim b.kind [
  | raw ↦ b
  | base ↦ save_row m b
  | cycle_bao ↦ save_row m b
  | jia ↦ save_row m b
]

-- The second half of `poll`, behind the recording.
unfoldable pub poll_report : Moment → Bao → Bao
poll_report m b0 =
    let b = if ltb b0.record_seconds 60 then record b0 { report_enable = false } else b0 in
    let (last, due) =
      check_time b.last_report_check_time m.at_report b.record_seconds b.report_delays in
    let b1 = record b { last_report_check_time = last } in
    if b.record_enable
    then (if due then record b1 { record_enable = false; report_enable = true } else b1)
    else b

unfoldable pub poll : Moment → Bao → Bao
poll m b =
    let (b1, go) = record_check m b in
    let b2 = if go then record (record_row m b1) { record_enable = true } else b1 in
    poll_report m b2

-- What became of a reported row: confirmed, put down for a later report, or dropped (`BaoBase` alone
-- has no later report).
pub data Fate : Type 0 where
  confirmed : Fate
  later : Fate
  dropped : Fate

unfoldable pub fail_fate : BaoKind → Fate
fail_fate base = dropped
fail_fate raw = dropped
fail_fate cycle_bao = later
fail_fate jia = later

-- The number of the next message: it wraps around, and 0 is left out.
unfoldable pub next_number : ℕ → ℕ
next_number n = let m = (n + 1) % 2 ^ 16 in if m == 0 then 1 else m

-- One report of the loop: the report, the serial number, and the rows reported with what became of
-- them, the newest first.
pub record Desk : Type 0 where
  pub bao : Bao
  pub seial_number : ℕ
  pub reported : List (Row × Fate)

-- The loop's body behind the choice of the way. `on_serial` says that the serial port is the only way out,
-- `is_lianlu` that the report is the link test, and `ok` that `wait` returns 0.
unfoldable pub bao_poll_on : Bool → Bool → Moment → Bool → Desk → Desk
bao_poll_on on_serial is_lianlu m ok d =
    let b = poll m d.bao in
    let n =
      if on_serial
      then d.seial_number
      else if is_lianlu
      then d.seial_number
      else next_number d.seial_number in
    let fate = if on_serial then fail_fate b.kind else if ok then confirmed else fail_fate b.kind in
    if b.report_enable
    then record {
      bao = record b { report_enable = false };
      seial_number = n;
      reported = (b.row, fate) ∷ d.reported;
    }
    else record d { bao = b }

-- What `zhudong_report_process` hands to `bao_poll`: the connection to the center, the serial port, or, while
-- the connection is being made, NULL.
pub data Way : Type 0 where
  to_center : Way
  to_serial : Way
  no_way : Way

-- The loop's body; none where a report is due and the source reads the members of NULL.
unfoldable pub bao_poll_one : Way → Bool → Moment → Bool → Desk → Option Desk
bao_poll_one to_center is_lianlu m ok d = some (bao_poll_on false is_lianlu m ok d)
bao_poll_one to_serial is_lianlu m ok d = some (bao_poll_on true is_lianlu m ok d)
bao_poll_one no_way is_lianlu m ok d =
    let b = poll m d.bao in if b.report_enable then none else some (record d { bao = b })

-- The turns of the main loop: what each poll meets, the way, and whether the report, if any, was sent.
unfoldable pub bao_polls : Bool → List (Moment × Way × Bool) → Desk → Option Desk
bao_polls is_lianlu [] d = some d
bao_polls is_lianlu ((m, way, ok) ∷ turns) d = elim (bao_poll_one way is_lianlu m ok d) [
  | none ↦ none
  | some e ↦ bao_polls is_lianlu turns e
]
