-- ===== src/Bao/Turns.antt =====
-- The turns of `bao_poll` (app/up/report/zhudong_report.cpp) for one report, from a fresh start.
use yd.Prelude.{
  ℕ, ◌^◌, ◌<◌, List, [], ◌∷◌, map, Bool, true, false, if_either, true-ne-false, Option, none, some,
  ◌≡◌, ◌⊎◌, inl, inr, refl, sym, ◌∙◌, arith,
}
use yd.Bao.{
  Row, Moment, Desk, Fate, Way, to_center, to_serial, no_way, poll, bao_poll_on, bao_poll_one,
  bao_polls, next_number,
}
use yd.Bao.Ledger.{IsLedger, Polled, poll-Polled}

-- The rows that a desk has reported.
abbrev pub rows : Desk → List Row
rows d = map (λ (r : Row × Fate). r.0) d.reported

pub next_number-IsNumber : (n : ℕ) → (0 < next_number n) × (next_number n < 2 ^ 16)
unfolding next_number
next_number-IsNumber n = ground arith

bao_poll_on-IsLedger :
    (on_serial is_lianlu : Bool) (m : Moment) (ok : Bool) (d : Desk)
    → IsLedger d.bao (rows d)
    → let e = bao_poll_on on_serial is_lianlu m ok d in IsLedger e.bao (rows e)
unfolding bao_poll_on Polled
bao_poll_on-IsLedger on_serial is_lianlu m ok d l = elim (poll-Polled m d.bao (rows d) l) [
  | inl kept ↦
      let idle = kept.nothing_due in
      if_either (λ (e : Desk). IsLedger e.bao (rows e)) (poll m d.bao).report_enable
        (λ due. absurd (true-ne-false (sym due ∙ idle))) (λ none_due. kept)
  | inr (is_due, free, saved, saves) ↦
      if_either (λ (e : Desk). IsLedger e.bao (rows e)) (poll m d.bao).report_enable
        (λ due. record { saves = saves; nothing_due = refl; balance = inl (free, saved) })
        (λ none_due. absurd (true-ne-false (sym is_due ∙ none_due)))
]

-- A turn without a way to send.
abbrev pub HasNoWay : List (Moment × Way × Bool) → Type 0
HasNoWay [] = ⊥
HasNoWay ((m, way, ok) ∷ turns) = (way ≡ no_way) ⊎ HasNoWay turns

-- How turns end: with the rows in order, or at a turn without a way.
abbrev pub Ended : List (Moment × Way × Bool) → Option Desk → Type 0
Ended turns none = HasNoWay turns
Ended turns (some e) = IsLedger e.bao (rows e)

bao_poll_one-Ended :
    (is_lianlu : Bool) (m : Moment) (way : Way) (ok : Bool) (turns : List (Moment × Way × Bool))
    (d : Desk)
    → IsLedger d.bao (rows d)
    → Ended ((m, way, ok) ∷ turns) (bao_poll_one way is_lianlu m ok d)
unfolding bao_poll_one Polled
bao_poll_one-Ended is_lianlu m to_center ok turns d l =
    bao_poll_on-IsLedger false is_lianlu m ok d l
bao_poll_one-Ended is_lianlu m to_serial ok turns d l = bao_poll_on-IsLedger true is_lianlu m ok d l
bao_poll_one-Ended is_lianlu m no_way ok turns d l = elim (poll-Polled m d.bao (rows d) l) [
  | inl kept ↦
      if_either (Ended ((m, no_way, ok) ∷ turns)) (poll m d.bao).report_enable (λ due. inl refl)
        (λ none_due. kept)
  | inr (is_due, free, saved, saves) ↦
      if_either (Ended ((m, no_way, ok) ∷ turns)) (poll m d.bao).report_enable (λ due. inl refl)
        (λ none_due. absurd (true-ne-false (sym is_due ∙ none_due)))
]

later_turns :
    (is_lianlu : Bool) (m : Moment) (way : Way) (ok : Bool) (turns : List (Moment × Way × Bool))
    → ((d : Desk) → IsLedger d.bao (rows d) → Ended turns (bao_polls is_lianlu turns d))
    → (o : Option Desk) → Ended ((m, way, ok) ∷ turns) o
    → Ended ((m, way, ok) ∷ turns) (elim o [ none ↦ none | some e ↦ bao_polls is_lianlu turns e ])
later_turns is_lianlu m way ok turns ih none h = h
later_turns is_lianlu m way ok turns ih (some e) h =
    either-Ended m way ok turns (bao_polls is_lianlu turns e) (ih e h)
  where
    either-Ended :
        (m : Moment) (way : Way) (ok : Bool) (turns : List (Moment × Way × Bool)) (o : Option Desk)
        → Ended turns o
        → Ended ((m, way, ok) ∷ turns) o
    either-Ended m way ok turns none h = inr h
    either-Ended m way ok turns (some e) h = h

-- What is recorded is handed over for transmission, once each and in order: after any number of turns,
-- whatever the clock, the triggers, and the transmissions do, the rows handed over are the rows saved, in
-- the order in which they were saved, but for at most the newest one, which then waits for its turn; what
-- becomes of a row that is handed over, confirmed, put down for later or given up, is left open. That
-- holds of every kind of report that saves rows, from a state in which nothing waits, and the turns come
-- to their end unless one of them has no way to send.
pub bao_polls-IsLedger :
    (is_lianlu : Bool) (turns : List (Moment × Way × Bool)) (d : Desk)
    → IsLedger d.bao (rows d)
    → Ended turns (bao_polls is_lianlu turns d)
unfolding bao_polls
bao_polls-IsLedger is_lianlu [] d l = l
bao_polls-IsLedger is_lianlu ((m, way, ok) ∷ turns) d l =
    later_turns is_lianlu m way ok turns (bao_polls-IsLedger is_lianlu turns)
      (bao_poll_one way is_lianlu m ok d) (bao_poll_one-Ended is_lianlu m way ok turns d l)
