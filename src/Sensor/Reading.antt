-- ===== src/Sensor/Reading.antt =====
-- A reading of a sensor: the request, the waiting for the answer, and its value, read_a_data of
-- app/down/_thread_down.cpp over the machine of app/down/dfsm.cpp.
pub mod Wait
pub mod Value
use yd.Prelude.{
  ℕ, zero, suc, ◌+◌, ◌*◌, ◌/◌, ◌^◌, ◌≤◌, ◌<◌, List, [], ◌∷◌, ◌++◌, append_assoc, take, take_all,
  take-put, take-append-drop, drop, put, replicate, length, length-append, length-put,
  length-replicate, IsBytes, All, Option, none, some, Bool, true, false, ltb, lt→ltb, le→ltb_false,
  leb, ◌==◌, ◌||◌, if◌then◌else◌, if_either, same_either, ◌≡◌, true-ne-false, ◌-◌, refl, sym, subst,
  ap, ◌∙◌, arith,
}
use yd.Prelude.Int.{ℤ, pos, negsuc}
use yd.Codec.Bcd.{report_bcd}
use yd.Codec.Bcd.Trip.{length-report_bcd}
use yd.Codec.Hex.{hexarray2str_loop, hexarray2str}
use yd.Dfsm.{
  Dfsm, DfsmState, Effect, dfsm_idle, dfsm_send, dfsm_wait, dfsm_timeout, dfsm_get, dfsm_size,
  down_packet_process, init, process, process_at, process_wait,
}
use yd.Sensor.Request.{Numerics, recv_patten, bcd_name, parse_data}
use yd.Sensor.Answers.{text_of, letters, parse_data-report_bcd}

-- The texts of a sensor's settings: the request, the head of its answer, the order and the type of the
-- value.
pub record Setting : Type 0 where
  pub request_cmd : List ℕ
  pub result_data_filter : List ℕ
  pub data_formatter : List ℕ
  pub data_type : List ℕ

-- A round of the waiting: the clock, and what the port's thread hands over in front of the machine's
-- run and while the round sleeps.
pub record Round : Type 0 where
  pub clock : ℕ
  pub early : Option (List ℕ)
  pub late : Option (List ℕ)

abbrev pub hand_over : Option (List ℕ) → Dfsm → Dfsm
hand_over none f = f
hand_over (some bytes) f = down_packet_process f bytes

-- The loop, until the time is over, with the rounds that it has.
unfoldable pub wait_loop : List Round → Dfsm → Dfsm
wait_loop [] f = f
wait_loop (r ∷ rs) f =
    let g = hand_over r.late (process r.clock (hand_over r.early f)).0 in
    let rest = wait_loop rs g in if f.getpacket then f else rest

-- The machine, the value, and `*result`, which is 0 before.
pub record Reading : Type 0 where
  pub machine : Dfsm
  pub value : ℤ
  pub result : ℤ

abbrev pub may_start : DfsmState → Bool
may_start dfsm_idle = true
may_start dfsm_wait = true
may_start dfsm_send = false
may_start dfsm_timeout = false
may_start dfsm_get = false

unfoldable pub read_a_data : Numerics → Setting → List Round → Dfsm → Reading
read_a_data w item rounds f =
    let sbuffer = recv_patten item.request_cmd in
    let wann = (length item.result_data_filter + length item.data_formatter) / 2 in
    let asked : Dfsm = record f { wann = wann } in
    let waited = wait_loop rounds (init asked sbuffer 2) in
    let (v, ferr) =
      parse_data w item.result_data_filter item.data_formatter item.data_type waited.rb in
    let reset : Dfsm = record waited { step = dfsm_idle; slen = 0; rlen = 0 } in
    if length sbuffer == 0
    then record { machine = f; value = pos 0; result = negsuc 0 }
    else if may_start f.step
    then (if waited.getpacket
        then (if ferr == 1
            then record { machine = reset; value = pos 0; result = negsuc 0 }
            else record { machine = reset; value = v; result = pos 1 })
        else record { machine = waited; value = pos 0; result = pos 0 })
    else record { machine = asked; value = pos 0; result = pos 0 }
