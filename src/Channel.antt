-- ===== src/Channel.antt =====
-- The choice of the connection, app/up/thread_up.cpp, and how long it is kept, get_work_state and
-- communication_state of app/up/report/zhudong_report.cpp.
pub mod Quiet
pub mod First
use yd.Prelude.{
  ℕ, zero, suc, ◌+◌, ◌-◌, ◌/◌, ◌%◌, ◌^◌, List, [], ◌∷◌, get_or, length, Option, none, some, Bool,
  true, false, ltb, leb, ◌==◌, not, ◌&&◌, ◌||◌, if◌then◌else◌,
}
use yd.Prelude.Int.{ℤ, pos, negsuc}
use yd.Item.{bits}
use yd.Store.{at}
use yd.SendMode.{MxType, m1, m2, m3, m4, etx_esc, etx_eot}
use yd.Link.{DeviceState, ds_null, ds_connecting, ds_open, ds_wait}
use yd.Center.Header.{Station, set_current_remote}

-- The mode of work, register 0CH.
unfoldable pub get_work_state : Station → MxType
get_work_state s =
    let byte = bits (at s.param 0x0C).val % 2 ^ 8 in
    if byte == 1 then m1 else if byte == 2 then m2 else if byte == 3 then m3 else m4

-- The calls of the device.
pub data DeviceCall : Type 0 where
  keepalive : Bool → DeviceCall
  close : DeviceCall
  connect : List ℕ → DeviceCall

-- What a connection remembers: the end mark of the last packet, the time in milliseconds until which
-- it is kept, and what was asked of its device, the newest first.
pub record Channel : Type 0 where
  pub etx : ℕ
  pub utimeout : ℕ
  pub calls : List DeviceCall

-- The modes in which a quiet connection is closed.
abbrev pub closes_in : MxType → Bool
closes_in m1 = true
closes_in m2 = true
closes_in m3 = false
closes_in m4 = false

-- `communication_state` at time `now`.
unfoldable pub communication_state : MxType → ℕ → Channel → Channel
communication_state work now c =
    let kept = record c { utimeout = now + 600000; calls = keepalive true ∷ c.calls } in
    let left = record c { utimeout = now + 600000; calls = keepalive false ∷ c.calls } in
    let calls =
      if closes_in work && not (c.utimeout == 0)
      then close ∷ keepalive false ∷ c.calls
      else c.calls in
    let returned = record c { utimeout = now + 600000; calls = calls } in
    if ltb 0 c.etx
    then (if c.etx == etx_esc then kept else if c.etx == etx_eot then left else c)
    else if ltb c.utimeout now
    then returned
    else c

-- `down_packet_process`: the end mark of a received packet.
unfoldable pub receive : ℕ → Channel → Channel
receive etx c = record c { etx = etx }

-- `get_ip_port`: the address and the center of register `id`, of the settings' lists. The tests let
-- an index pass that is equal to the size, and what lies there is not known, and is empty here.
unfoldable pub get_ip_port : List (List ℕ) → List ℕ → ℕ → Option (List ℕ × ℕ)
get_ip_port remote center id =
    let index = id - 0x04 in
    if ltb id 0x04 || ltb 0x0B id
    then none
    else if ltb (length remote) index
    then none
    else if ltb (length center) (index / 2)
    then none
    else some (get_or remote index [], get_or center (index / 2) 0 % 2 ^ 8)

-- The variables and the connection behind `get_sendmode`, and its result.
pub record Chosen : Type 0 where
  pub station : Station
  pub channel : Channel
  pub result : ℤ

-- The loop over the registers from `id` on, `n` of them: the first address there is is dialled.
unfoldable pub dial : List (List ℕ) → List ℕ → Station → Channel → ℕ → ℕ → Chosen
dial remote center s c id zero = record { station = s; channel = c; result = negsuc 0 }
dial remote center s c id (suc n) = elim (get_ip_port remote center id) [
  | none ↦ dial remote center s c (id + 1) n
  | some (ip, number) ↦ record {
    station = set_current_remote s number;
    channel = record c { calls = connect ip ∷ keepalive true ∷ c.calls };
    result = pos 0;
  }
]

-- `get_sendmode`: is the connection open, and if not, what is its state?
unfoldable pub get_sendmode :
    List (List ℕ) → List ℕ → Bool → DeviceState → Station → Channel → Chosen
get_sendmode remote center opened state s c =
    let ready : Chosen = record { station = s; channel = c; result = pos 1 } in
    let waiting : Chosen = record { station = s; channel = c; result = pos 0 } in
    if opened then ready else elim state [
      | ds_null ↦ dial remote center s c 0x04 8
      | ds_connecting ↦ waiting
      | ds_open ↦ ready
      | ds_wait ↦ waiting
    ]
