-- ===== src/Dfsm.antt =====
-- A request to a sensor and its answer, `dfsm` of app/down/dfsm.h and app/down/dfsm.cpp: a state machine
-- that the polling thread runs again and again, while the port's thread hands over what it received.
pub mod Budget
use yd.Prelude.{
  ℕ, zero, suc, ◌+◌, ◌-◌, ◌≤◌, ◌<◌, min, List, [], ◌∷◌, ◌++◌, take, put, replicate, length, Bool,
  true, false, ltb, leb, ◌==◌, if◌then◌else◌, Option, none, some,
}

pub data DfsmState : Type 0 where
  dfsm_idle : DfsmState
  dfsm_send : DfsmState
  dfsm_wait : DfsmState
  dfsm_timeout : DfsmState
  dfsm_get : DfsmState

-- `sizeof(sb)` and `sizeof(rb)`.
abbrev pub dfsm_size : ℕ
dfsm_size = 200

pub record Dfsm : Type 0 where
  pub sb : List ℕ
  pub slen : ℕ
  pub rb : List ℕ
  pub rlen : ℕ
  pub getpacket : Bool
  pub wann : ℕ
  pub step : DfsmState
  pub ms_timeout : ℕ
  pub ms_timeout_max : ℕ
  pub retry : ℕ

-- What the machine does outside of itself: it hands bytes to the port, or calls back with the answer
-- received or with the timeout.
pub data Effect : Type 0 where
  request : List ℕ → Effect
  answer : List ℕ → Effect
  given_up : Effect

-- The receive function of the port.
unfoldable pub down_packet_process : Dfsm → List ℕ → Dfsm
down_packet_process f bytes =
    let n = if ltb dfsm_size (f.rlen + length bytes) then dfsm_size - f.rlen else length bytes in
    if n == 0 then f else record f {
      rb = put f.rb f.rlen (take n bytes);
      rlen = f.rlen + n;
      getpacket = if leb f.wann (f.rlen + n) then true else f.getpacket;
    }

unfoldable pub init : Dfsm → List ℕ → ℕ → Dfsm
init f b retries =
    let l = if ltb dfsm_size (length b) then dfsm_size else length b in
    let loaded =
      if ltb 0 (length b) then record f { sb = put f.sb 0 (take l b); slen = l } else f in
    record loaded {
      rlen = 0;
      rb = replicate dfsm_size 0;
      getpacket = false;
      retry = retries;
      step = dfsm_send;
    }

unfoldable pub process_wait : ℕ → Dfsm → Dfsm × List Effect
process_wait now f =
    if ltb f.ms_timeout now
    then (if ltb 0 f.retry
        then (record f { retry = f.retry - 1; step = dfsm_send }, [])
        else (record f { step = dfsm_timeout }, []))
    else if f.getpacket
    then (record f { getpacket = false; step = dfsm_get }, answer (take f.rlen f.rb) ∷ [])
    else (f, [])

unfoldable pub process_at : DfsmState → ℕ → Dfsm → Dfsm × List Effect
process_at dfsm_idle now f = (f, [])
process_at dfsm_send now f = (
  record f { ms_timeout = f.ms_timeout_max + now; step = dfsm_wait },
  request (take f.slen f.sb) ∷ [],
)
process_at dfsm_wait now f = process_wait now f
process_at dfsm_get now f = (record f { step = dfsm_idle }, [])
process_at dfsm_timeout now f = (record f { step = dfsm_idle }, given_up ∷ [])

unfoldable pub process : ℕ → Dfsm → Dfsm × List Effect
process now f = process_at f.step now f

-- What happens to a machine: its thread runs it at a time, or bytes come in.
pub data Happening : Type 0 where
  runs : ℕ → Happening
  comes : List ℕ → Happening

-- The machine behind the happenings, and its effects, the newest first.
unfoldable pub happen : List Happening → Dfsm × List Effect → Dfsm × List Effect
happen [] r = r
happen (runs now ∷ hs) (f, done) =
    let (g, effects) = process now f in happen hs (g, effects ++ done)
happen (comes bytes ∷ hs) (f, done) = happen hs (down_packet_process f bytes, done)
