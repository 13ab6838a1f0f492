-- ===== src/Examples/Sending.antt =====
-- Runs of the transmission modes and of the report loop.
use yd.Prelude.{
  ℕ, ◌+◌, ◌-◌, List, [], ◌∷◌, length, length-replicate, take, replicate, Option, none, some, Bool,
  true, false, ◌≡◌, ◌⊎◌, inl, inr, refl, arith,
}
use yd.Prelude.Int.{pos, negsuc, quot, ◌+ℤ◌, ◌-ℤ◌}
use yd.Packet.Frame.{pdsize}
use yd.Packet.Encode.{UuPacket}
use yd.SendMode.{SendMode, Answer, Transfer, m2, etx_eot, init, wait_m2, wait_final}
use yd.SendMode.Slices.{IsCut}
use yd.SendMode.Parts.{IsPacket, IsBytes-zeros, parts, init-parts}
use yd.SendMode.Answers.{Sent, wait_m2-Sent}
use yd.SendMode.Final.{IsEot, Holds, IsTimeout, wait_final-IsTimeout}
use yd.Bao.{
  Bao, base, Moment, Desk, check_time, bao_polls, bao_poll_one, bao_poll_on, Way, to_center, no_way,
  poll, poll_report, record_row, save_row, record_check, kind_check, to_int,
}
use yd.Bao.Cycle.{Due, check_time-Due}
use yd.Bao.Ledger.{IsLedger}
use yd.Bao.Retry.{TbBu, find_valid, bu_turns, bu_turns_settle}
use yd.Bao.Turns.{rows, Ended, bao_polls-IsLedger}

abbrev blank_packet : UuPacket
blank_packet = record {
  start = 0;
  remote = 0;
  local = [];
  passwd = [];
  cmd = 0;
  len = 0;
  stx = 0;
  buf = replicate (pdsize + 20) 0;
  packetlen = 0;
}

abbrev confirmation : Answer
confirmation = record { cmd = 0x32; etx = etx_eot; buf = [] }

abbrev fresh : SendMode
fresh = record {
  type = m2;
  buf = [];
  len = 0;
  psize = 0;
  packet_count = 0;
  cmd = 0;
  remote = 0;
  up = blank_packet;
  packet = confirmation;
  get_packet = false;
  etx = 0;
}

-- Five bytes in parts of two.
abbrev five_bytes : List ℕ
five_bytes = 1 ∷ 2 ∷ 3 ∷ 4 ∷ 5 ∷ []

abbrev cut : SendMode
cut = init fresh m2 1 0x32 five_bytes 5 2

-- The packet that every part overwrites.
abbrev overwritten : ℕ → UuPacket
overwritten k = blank_packet

overwritten-IsPacket : (k : ℕ) → IsPacket (overwritten k)
overwritten-IsPacket k = record {
  array = length-replicate {A = ℕ} (pdsize + 20) 0;
  stale = IsBytes-zeros (pdsize + 20);
}

init-parts_example :
    IsCut cut
    × (parts 1 2 (λ k. none) (λ k. true) 20 overwritten cut cut.packet_count 0
        ≡ take (pdsize - 16) five_bytes)
init-parts_example =
    init-parts 1 2 (λ k. none) (λ k. true) 20 overwritten fresh m2 1 0x32 five_bytes 2 (omega arith)
      (omega arith) (omega arith, (omega arith, (omega arith, (omega arith, (omega arith, tt)))))
      (omega arith) (omega arith) overwritten-IsPacket

abbrev pub ready : Transfer
ready = record { mode = cut; clock = 0; sent = [] }

-- A confirmation comes in every tick.
abbrev always : ℕ → Option Answer
always k = some confirmation

abbrev at_once : ℕ → Bool
at_once k = true

wait_m2-Sent_example :
    Sent 1 2 always at_once 20 cut.packet_count ready (wait_m2 1 2 always at_once 20 ready)
wait_m2-Sent_example = wait_m2-Sent 1 2 always at_once 20 ready

always-IsEot : (k : ℕ) → IsEot 1 2 always at_once 20 k
always-IsEot k = inr (confirmation, refl, refl)

ready-Holds : Holds 1 2 always at_once 20 ready
unfolding init
ready-Holds = inl refl

wait_final-IsTimeout_example :
    IsTimeout 1 2 always at_once 20 (wait_final 1 2 always at_once 20 20 20 ready)
wait_final-IsTimeout_example =
    wait_final-IsTimeout 1 2 always at_once 20 20 20 ready always-IsEot ready-Holds (omega arith)

-- Every five minutes, 21 seconds early: the link test.
check_time-Due_example :
    (check_time 1000 1200 300 (negsuc 20) ≡ (1200, true)) × Due 1000 1200 300 (negsuc 20)
    ⊎ (check_time 1000 1200 300 (negsuc 20) ≡ (1000, false)) × (¬ Due 1000 1200 300 (negsuc 20))
check_time-Due_example =
    check_time-Due 1000 1200 300 (negsuc 20) (omega arith) (omega arith) (omega arith) (omega arith)

abbrev hourly : Bao
hourly = record {
  kind = base;
  last_record_check_time = 1000;
  last_report_check_time = 1000;
  code = [];
  row = record { time = 0; log = [] };
  obtime = 0;
  record_seconds = 3600;
  record_delays = pos 4;
  report_delays = pos 25;
  record_enable = false;
  report_enable = false;
  saved = [];
}

abbrev desk : Desk
desk = record { bao = hourly; seial_number = 1; reported = [] }

abbrev on_the_hour : Moment
on_the_hour = record {
  at_check = 3604;
  at_record = 3604;
  at_observe = 3604;
  at_report = 3630;
  triggers = [];
  log = 7 ∷ [];
}

-- A turn at the hour, and one while the connection is being made and nothing is due.
abbrev one_turn : List (Moment × Way × Bool)
one_turn = (on_the_hour, to_center, true) ∷ (on_the_hour, no_way, true) ∷ []

desk-IsLedger : IsLedger hourly (rows desk)
desk-IsLedger = record { saves = λ e. cc; nothing_due = refl; balance = inl (refl, refl) }

bao_polls-IsLedger_example : Ended one_turn (bao_polls false one_turn desk)
bao_polls-IsLedger_example = bao_polls-IsLedger false one_turn desk desk-IsLedger

abbrev reports : Option Desk → ℕ
reports none = 0
reports (some d) = length d.reported

-- The row of 3600 is saved and reported in the first turn.
reports-bao_polls : reports (bao_polls false one_turn desk) ≡ 1
unfolding bao_polls bao_poll_one bao_poll_on poll poll_report record_row save_row record_check
    kind_check check_time to_int quot ◌+ℤ◌ ◌-ℤ◌
reports-bao_polls = refl

-- A failed report of "rain".
abbrev failed_report : ℕ → List ℕ → TbBu
failed_report valid tdate = record {
  valid = valid;
  name = 0x72 ∷ 0x61 ∷ 0x69 ∷ 0x6E ∷ [];
  date = 0x31 ∷ [];
  tb = 0x68 ∷ [];
  tdate = tdate;
  cmd = 0x35 ∷ 0x30 ∷ [];
  ids = 0x35 ∷ [];
}

-- The second of the four turns fails.
bu_turns_settle_example :
    find_valid (
      bu_turns (true ∷ false ∷ true ∷ false ∷ []) (
        failed_report 1 (0x31 ∷ [])
        ∷ failed_report 0 (0x32 ∷ [])
        ∷ failed_report 1 (0x33 ∷ [])
        ∷ []))
    ≡ none
bu_turns_settle_example =
    bu_turns_settle (true ∷ false ∷ true ∷ false ∷ [])
      (failed_report 1 (0x31 ∷ []) ∷ failed_report 0 (0x32 ∷ []) ∷ failed_report 1 (0x33 ∷ []) ∷ [])
      (omega arith)
