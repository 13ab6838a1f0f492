-- ===== src/Bao/Ledger.antt =====
-- What is recorded is reported: the rows that `BaoBase::poll` saves and those that `bao_poll` reports,
-- app/dataprocess/Ibao.hpp and app/up/report/zhudong_report.cpp.
use yd.Prelude.{
  ℕ, List, [], ◌∷◌, Bool, true, false, ltb, if_either, if◌then◌else◌, ◌≡◌, ◌≢◌, ◌⊎◌, inl, inr, refl,
  sym, subst, true-ne-false, ap, ◌∙◌,
}
use yd.Codec.Text.{list_merge}
use yd.Bao.{
  Bao, BaoKind, base, cycle_bao, jia, raw, Row, Moment, check_time, kind_check, record_check,
  record_row, save_row, poll_report, poll,
}

-- Two states that differ in the times of the checks, the code and the observation time at most.
record Same (a b : Bao) : Type 0 where
  kind : b.kind ≡ a.kind
  row : b.row ≡ a.row
  record_enable : b.record_enable ≡ a.record_enable
  report_enable : b.report_enable ≡ a.report_enable
  saved : b.saved ≡ a.saved

Checked : Bao → Bao × Bool → Type 0
Checked a r = Same a r.0 × ((r.1 ≡ false) ⊎ (a.record_enable ≡ false))

kind_check-Checked :
    (k : BaoKind) (m : Moment) (a b : Bao)
    → Same a b
    → a.record_enable ≡ false
    → Checked a (kind_check k m b)
unfolding kind_check Checked
kind_check-Checked base m a b s e = (s, inr e)
kind_check-Checked cycle_bao m a b s e = (s, inr e)
kind_check-Checked raw m a b s e = (s, inr e)
kind_check-Checked jia m a b s e = by_triggers m.triggers
  where
    by_triggers :
        (ts : List (List ℕ))
        → Checked a (elim ts [
          | [] ↦ (b, false)
          | t ∷ ts ↦ (record b { code = list_merge (t ∷ ts) (32 ∷ []) }, true)
        ])
    by_triggers [] = (s, inl refl)
    by_triggers (t ∷ ts) = (
      record {
        kind = s.kind;
        row = s.row;
        record_enable = s.record_enable;
        report_enable = s.report_enable;
        saved = s.saved;
      },
      inr e,
    )

record_check-Checked : (m : Moment) (b : Bao) → Checked b (record_check m b)
unfolding record_check Checked
record_check-Checked m b =
    let same : Same b b = record {
      kind = refl;
      row = refl;
      record_enable = refl;
      report_enable = refl;
      saved = refl;
    } in
    let (last, due) =
      check_time b.last_record_check_time m.at_check b.record_seconds b.record_delays in
    let b1 : Bao = record b { last_record_check_time = last } in
    let same1 : Same b b1 = record {
      kind = refl;
      row = refl;
      record_enable = refl;
      report_enable = refl;
      saved = refl;
    } in
    if_either (Checked b) (ltb b.record_seconds 60) (λ short. (same, inl refl))
      (λ long.
        if_either (Checked b) b.record_enable (λ busy. (same, inl refl))
          (λ free.
            if_either (Checked b) due (λ now. kind_check-Checked b.kind m b b1 same1 free)
              (λ not_yet. (same1, inl refl))))

-- What the second half of a poll does to a state in which no report is due.
Reported : Bao → Bao → Type 0
Reported a b =
    Same a b
    ⊎ (a.record_enable ≡ true)
      × (b.record_enable ≡ false)
      × (b.report_enable ≡ true)
      × (b.row ≡ a.row)
      × (b.saved ≡ a.saved)
      × (b.kind ≡ a.kind)

poll_report-Reported :
    (m : Moment) (b : Bao) → b.report_enable ≡ false → Reported b (poll_report m b)
unfolding poll_report Reported
poll_report-Reported m b0 e =
    let b : Bao = if ltb b0.record_seconds 60 then record b0 { report_enable = false } else b0 in
    let s : Same b0 b =
      if_either (Same b0) (ltb b0.record_seconds 60)
        (λ short. record {
          kind = refl;
          row = refl;
          record_enable = refl;
          report_enable = sym e;
          saved = refl;
        })
        (λ long. record {
          kind = refl;
          row = refl;
          record_enable = refl;
          report_enable = refl;
          saved = refl;
        }) in
    let due = check_time b.last_report_check_time m.at_report b.record_seconds b.report_delays in
    if_either (Reported b0) b.record_enable
      (λ waits.
        if_either (Reported b0) due.1
          (λ now. inr (sym s.record_enable ∙ waits, refl, refl, s.row, s.saved, s.kind))
          (λ not_yet. inl (record {
            kind = s.kind;
            row = s.row;
            record_enable = s.record_enable;
            report_enable = s.report_enable;
            saved = s.saved;
          })))
      (λ free. inl s)

-- Every kind but RawBao saves a row.
record_row-save_row : (m : Moment) (b : Bao) → b.kind ≢ raw → record_row m b ≡ save_row m b
unfolding record_row
record_row-save_row m b ne = by_kind b.kind ne
  where
    by_kind :
        (k : BaoKind)
        → k ≢ raw
        → (elim k [ raw ↦ b | base ↦ save_row m b | cycle_bao ↦ save_row m b | jia ↦ save_row m b ])
          ≡ save_row m b
    by_kind raw ne = absurd (ne refl)
    by_kind base ne = refl
    by_kind cycle_bao ne = refl
    by_kind jia ne = refl

-- What holds between two turns of the loop, with the rows reported so far.
pub record IsLedger (b : Bao) (rows : List Row) : Type 0 where
  pub saves : b.kind ≢ raw
  pub nothing_due : b.report_enable ≡ false
  pub balance :
      (b.record_enable ≡ false) × (b.saved ≡ rows)
      ⊎ (b.record_enable ≡ true) × (b.saved ≡ b.row ∷ rows)

Same-IsLedger : (a b : Bao) (rows : List Row) → Same a b → IsLedger a rows → IsLedger b rows
Same-IsLedger a b rows s l = record {
  saves = λ e. l.saves (sym s.kind ∙ e);
  nothing_due = s.report_enable ∙ l.nothing_due;
  balance = elim l.balance [
    | inl (free, e) ↦ inl (s.record_enable ∙ free, s.saved ∙ e)
    | inr (waits, e) ↦ inr (s.record_enable ∙ waits, s.saved ∙ e ∙ ap (λ r. r ∷ rows) (sym s.row))
  ];
}

saved-IsLedger :
    (m : Moment) (a b : Bao) (rows : List Row)
    → Same a b
    → a.record_enable ≡ false
    → IsLedger a rows
    → IsLedger (record (record_row m b) { record_enable = true }) rows
unfolding save_row
saved-IsLedger m a b rows s free l =
    let kept = Same-IsLedger a b rows s l in
    let still : b.record_enable ≡ false = s.record_enable ∙ free in
    let e = record_row-save_row m b kept.saves in
    let saved : IsLedger (record (save_row m b) { record_enable = true }) rows = record {
      saves = kept.saves;
      nothing_due = kept.nothing_due;
      balance = elim kept.balance [
        | inl (_, same) ↦ inr (refl, ap (λ l. (save_row m b).row ∷ l) same)
        | inr (waits, _) ↦ absurd (true-ne-false (sym waits ∙ still))
      ];
    } in
    subst (λ (t : Bao). IsLedger (record t { record_enable = true }) rows) (sym e) saved

-- A poll keeps the balance, or makes the newest row due while all others are reported.
unfoldable pub Polled : List Row → Bao → Type 0
Polled rows b =
    IsLedger b rows
    ⊎ (b.report_enable ≡ true)
      × (b.record_enable ≡ false)
      × (b.saved ≡ b.row ∷ rows)
      × (b.kind ≢ raw)

Reported-Polled : (a b : Bao) (rows : List Row) → IsLedger a rows → Reported a b → Polled rows b
unfolding Reported Polled
Reported-Polled a b rows l (inl s) = inl (Same-IsLedger a b rows s l)
Reported-Polled a b rows l (inr (waits, free, due, row, saved, kind)) = inr (
  due,
  free,
  elim l.balance [
    | inl (not_waiting, _) ↦ absurd (true-ne-false (sym waits ∙ not_waiting))
    | inr (_, e) ↦ saved ∙ e ∙ ap (λ r. r ∷ rows) (sym row)
  ],
  λ x. l.saves (sym kind ∙ x),
)

pub poll-Polled :
    (m : Moment) (b : Bao) (rows : List Row) → IsLedger b rows → Polled rows (poll m b)
unfolding poll Checked
poll-Polled m b rows l =
    let (s, go) = record_check-Checked m b in
    let r = record_check m b in
    let b2 : Bao = if r.1 then record (record_row m r.0) { record_enable = true } else r.0 in
    let kept : IsLedger b2 rows =
      if_either (λ (t : Bao). IsLedger t rows) r.1
        (λ goes. elim go [
          | inl stays ↦ absurd (true-ne-false (sym goes ∙ stays))
          | inr free ↦ saved-IsLedger m b r.0 rows s free l
        ])
        (λ stays. Same-IsLedger b r.0 rows s l) in
    Reported-Polled b2 (poll_report m b2) rows kept (poll_report-Reported m b2 kept.nothing_due)
