-- ===== src/Center/Process.antt =====
-- Which command a packet asks for, and how its answer is sent, app/up/center/center_process.cpp; the
-- commands without a body, app/up/center/center.cpp.
use yd.Prelude.{
  ℕ, ◌+◌, ◌%◌, ◌/◌, ◌^◌, List, Option, none, some, Bool, false, leb, ◌==◌, not, ◌&&◌, if◌then◌else◌,
}
use yd.Prelude.Int.{ℤ, pos, negsuc}
use yd.Packet.Frame.{ud_cmd, ud_len, ud_data, ud_rlocal, ud_rpasswd, pdsize}
use yd.Item.{bits}
use yd.Store.{at}
use yd.SendMode.{SendMode, Transfer, Answer, m4, init, wait}
use yd.Center.Header.{Calendar, Station, Out, set_current_liushui}
use yd.Center.Commands.{
  Reply, nothing, get_shishi_all, get_rengong_report, get_zhiding_ids, set_param, get_param,
  set_runtime, get_runtime, get_version, get_state_warn_info, clear_history, reset_to_factory,
  change_password, set_time, get_time,
}

-- What the commands ask of the world: the calendar of a time and the time of a calendar, the version,
-- and what `data_memory_clear` and `data_set_factory` do to the variables.
pub record World : Type 0 where
  pub localtime : ℕ → Calendar
  pub mktime : Calendar → ℤ
  pub version : List ℕ
  pub clear : Station → Station
  pub factory : Station → Station

-- The lengths that are not positive send nothing.
abbrev pub length_of : ℤ → ℕ
length_of (pos n) = n
length_of (negsuc n) = 0

-- The command with number `cmd`; none where the `switch` has no case. `cache` is what lies in the
-- buffer of one report.
unfoldable pub command : World → List ℕ → Station → ℕ → List ℕ → ℕ → Out → Option Reply
command w cache s cmd datain inlen o =
    let t = w.localtime in
    if cmd == 0x37
    then some (get_shishi_all t s cache o)
    else if cmd == 0x38
    then some (nothing s o)
    else if cmd == 0x39
    then some (get_rengong_report t s o)
    else if cmd == 0x3A
    then some (get_zhiding_ids t s datain inlen cache o)
    else if cmd == 0x40
    then some (set_param t s datain inlen o)
    else if cmd == 0x41
    then some (get_param t s datain inlen o)
    else if cmd == 0x42
    then some (set_runtime t s datain inlen o)
    else if cmd == 0x43
    then some (get_runtime t s datain inlen o)
    else if cmd == 0x44
    then some (nothing s o)
    else if cmd == 0x45
    then some (get_version t w.version s o)
    else if cmd == 0x46
    then some (get_state_warn_info t s o)
    else if cmd == 0x47
    then some (clear_history t w.clear s o)
    else if cmd == 0x48
    then some (reset_to_factory t w.factory s o)
    else if cmd == 0x49
    then some (change_password t s datain o)
    else if cmd == 0x4A
    then some (set_time t w.mktime s datain o)
    else if leb 0x4B cmd && leb cmd 0x50
    then some (nothing s o)
    else if cmd == 0x51
    then some (get_time t s o)
    else none

-- The variables, the connection with its serial number, and the answer's buffer `centerdata`.
pub record Center : Type 0 where
  pub station : Station
  pub transfer : Transfer
  pub seial_number : ℕ
  pub centerdata : List ℕ

-- A u16 compared with an l64.
abbrev pub equals_val : ℕ → ℤ → Bool
equals_val n (pos v) = n == v
equals_val n (negsuc v) = false

-- `seial_number++`, without 0.
unfoldable pub next_serial : ℕ → ℕ
next_serial n = let m = (n + 1) % 2 ^ 16 in if m == 0 then 1 else m

unfoldable pub count_up : Center → Center
count_up c =
    let n = next_serial c.seial_number in
    record c { seial_number = n; station = set_current_liushui c.station n }

-- `arrival` and `send_end` are those of the transmission.
module _ (arrival : ℕ → Option Answer) (send_end : ℕ → Bool) where
  -- The answer sent with M4, 4000 ms for each part. M4 needs no fuel.
  unfoldable pub answer : Center → ℕ → Reply → Center
  answer c cmd r =
      let local = bits (at r.station.param 0x02).val in
      let passwd = bits (at r.station.param 0x03).val % 2 ^ 16 in
      let len = length_of r.result in
      let mode : SendMode = init c.transfer.mode m4 r.station.remote cmd r.out.buf len pdsize in
      let t : Transfer = record c.transfer { mode = mode } in
      let sent : Transfer = elim (wait local passwd arrival send_end 4000 0 t) [
        | some (t1, result) ↦ t1
        | none ↦ t
      ] in
      record c { station = r.station; transfer = sent; centerdata = r.out.buf }

  -- `center_process`, for the packet in the receive buffer `p`. The receive buffer is `p2` when the
  -- answer of command 48H is sent.
  module _ (w : World) (cache : List ℕ) where
    -- What follows a command: its answer, and behind 48H, which has no `break`, the case 49H.
    unfoldable pub finish : Center → List ℕ → List ℕ → Option Reply → Center
    finish c p p2 none = c
    finish c p p2 (some r) =
        let c1 = answer c (ud_cmd p) r in
        let out : Out = record { buf = c1.centerdata; size = 0 } in
        let again = change_password w.localtime c1.station (ud_data p2) out in
        if ud_cmd p == 0x48 then answer c1 (ud_cmd p2) again else c1

    unfoldable pub dispatch : Center → List ℕ → List ℕ → Center
    dispatch c p p2 =
        let out : Out = record { buf = c.centerdata; size = 0 } in
        let inlen = ud_len p % 2 ^ 12 in
        finish c p p2 (command w cache c.station (ud_cmd p) (ud_data p) inlen out)

    unfoldable pub center_process : Center → List ℕ → List ℕ → Center × ℤ
    center_process c p p2 =
        let param = c.station.param in
        let counted = not (ud_cmd p == 0x2F) && leb 0x37 (ud_cmd p) in
        if not (ud_rlocal p == bits (at param 0x02).val)
        then (c, negsuc 0)
        else if not (equals_val (ud_rpasswd p) (at param 0x03).val)
        then (c, negsuc 0)
        else if ud_len p / 2 ^ 15 == 1
        then (dispatch (if counted then count_up c else c) p p2, pos 0)
        else (c, pos 0)
