-- ===== src/SendMode.antt =====
-- How a message is sent, `SendMode` of app/up/sendmode.h and app/up/sendmode.cpp: it is cut into parts,
-- and the transmission modes M1 to M4 say what is waited for.
pub mod Slices
pub mod Parts
pub mod Answers
pub mod Final
use yd.Prelude.{
  ℕ, zero, suc, ◌+◌, ◌-◌, ◌*◌, ◌/◌, ◌%◌, ◌^◌, List, [], ◌∷◌, ◌++◌, take, drop, get_or, replicate,
  Option, none, some, Bool, true, false, ltb, leb, ◌==◌, not, ◌&&◌, ◌||◌, if◌then◌else◌,
}
use yd.Prelude.Int.{ℤ, pos, negsuc, leb_ℤ}
use yd.Packet.Frame.{pdsize}
use yd.Packet.Encode.{UuPacket, uu_wire, upacket_encodehex, upacket_encodehex_m3}

-- The marks that begin and end a frame's text.
abbrev pub stx_stx : ℕ
stx_stx = 0x02

abbrev pub stx_syn : ℕ
stx_syn = 0x16

abbrev pub etx_etx : ℕ
etx_etx = 0x03

abbrev pub etx_eot : ℕ
etx_eot = 0x04

abbrev pub etx_nak : ℕ
etx_nak = 0x15

abbrev pub etx_etb : ℕ
etx_etb = 0x17

abbrev pub etx_esc : ℕ
etx_esc = 0x1B

-- `EOF` of stdio.h, compared as an int.
abbrev pub eof : ℤ
eof = negsuc 0

pub data MxType : Type 0 where
  m1 : MxType
  m2 : MxType
  m3 : MxType
  m4 : MxType

-- What the waiting code reads of a received packet.
pub record Answer : Type 0 where
  pub cmd : ℕ
  pub etx : ℕ
  pub buf : List ℕ

-- The members that `init` and `wait` use. A length of 0 stands for the lengths that are not positive.
pub record SendMode : Type 0 where
  pub type : MxType
  pub buf : List ℕ
  pub len : ℕ
  pub psize : ℕ
  pub packet_count : ℕ
  pub cmd : ℕ
  pub remote : ℕ
  pub up : UuPacket
  pub packet : Answer
  pub get_packet : Bool
  pub etx : ℕ

unfoldable pub init : SendMode → MxType → ℕ → ℕ → List ℕ → ℕ → ℕ → SendMode
init s type remote cmd buf len size_per_packet =
    let clamped = if ltb pdsize (len + 16) then pdsize - 16 else len in
    let s1 = record s {
      type = type;
      buf = buf;
      psize = size_per_packet;
      cmd = cmd;
      remote = remote;
      len = clamped;
    } in
    let count = clamped / size_per_packet + (if clamped % size_per_packet == 0 then 0 else 1) in
    if clamped == 0 then s1 else record s1 { packet_count = if count == 0 then 1 else count }

-- The size of part `sn`; the parts are numbered from 1.
unfoldable pub get_sn_size : SendMode → ℕ → ℕ
get_sn_size s sn =
    if sn == 0 then 0 else if sn == s.packet_count then s.len - (sn - 1) * s.psize else s.psize

-- `n` bytes of the message from an offset; what lies behind the buffer is not known, and is 0 here.
unfoldable pub slice : List ℕ → ℕ → ℕ → List ℕ
slice buf offset n = take n (drop offset buf ++ replicate n 0)

-- A transmission: the members, the ticks slept so far, and the frames handed to the device, the
-- newest first.
pub record Transfer : Type 0 where
  pub mode : SendMode
  pub clock : ℕ
  pub sent : List (List ℕ)

-- How the attempts at a part end: an answer that ends the transmission, one that asks for the next
-- part, or none.
pub data Attempt : Type 0 where
  ended : Attempt
  acked : Attempt
  timeout : Attempt

-- `local` and `passwd` are the registers param[0x02] and param[0x03]. `arrival` says which packet the
-- receive thread accepts during a tick, and `send_end` what the device's `is_send_end` says behind
-- it.
module _ (local passwd : ℕ) (arrival : ℕ → Option Answer) (send_end : ℕ → Bool) (ms : ℕ) where
  -- One `usleep`: meanwhile `up_packet_process` and `down_packet_process` may take a packet.
  unfoldable pub sleep : Transfer → Transfer
  sleep t = elim (arrival t.clock) [
    | none ↦ record t { clock = t.clock + 1 }
    | some a ↦ record t {
      clock = t.clock + 1;
      mode = record t.mode { packet = a; get_packet = true; etx = a.etx };
    }
  ]

  -- `dev->send` of the encoded packet.
  unfoldable pub send : Transfer → Transfer
  send t = record t { sent = uu_wire t.mode.up ∷ t.sent }

  -- M1: `n` more milliseconds for the device to finish.
  unfoldable pub wait_sent : ℕ → Transfer → Transfer × ℤ
  wait_sent zero t = (t, negsuc 0)
  wait_sent (suc n) t =
      let t1 = sleep t in
      let rest = wait_sent n t1 in if send_end t1.clock then (t1, pos 0) else rest

  unfoldable pub wait_m1 : Transfer → Transfer × ℤ
  wait_m1 t =
      let s = t.mode in
      let up =
        upacket_encodehex local passwd s.up true s.remote s.cmd (slice s.buf 0 s.len) stx_stx
          etx_etx in
      wait_sent ms (send (record t { mode = record s { up = up } }))

  -- M2 and M4: `n` more rounds for an answer.
  unfoldable pub wait_answer : ℕ → Transfer → Transfer
  wait_answer zero t = t
  wait_answer (suc n) t =
      let t1 = sleep t in let rest = wait_answer n t1 in if t1.mode.get_packet then t1 else rest

  unfoldable pub is_answered : SendMode → Bool
  is_answered s = s.get_packet && s.packet.cmd == s.cmd

  unfoldable pub send_part : ℕ → Transfer → Transfer × Attempt
  send_part zero t = (t, timeout)
  send_part (suc retry) t =
      let t1 =
        wait_answer (ms / 10 + 1)
          (send (record t { mode = record t.mode { get_packet = false } })) in
      let rest = send_part retry t1 in
      if is_answered t1.mode
      then (if t1.mode.etx == etx_eot || t1.mode.etx == etx_esc then (t1, ended) else (t1, acked))
      else rest

  -- Part number `c` from 0 on, encoded.
  unfoldable pub encode_part : SendMode → ℕ → SendMode
  encode_part s c =
      let bytes = slice s.buf (c * s.psize) (get_sn_size s (c + 1)) in
      record s {
        get_packet = false;
        up =
            upacket_encodehex local passwd s.up true s.remote s.cmd bytes
              (if s.packet_count == 1 then stx_stx else stx_syn)
              (if c + 1 == s.packet_count then etx_etx else etx_etb);
      }

  -- The parts from number `c` on, `n` of them.
  unfoldable pub send_parts : ℕ → ℕ → Transfer → Transfer × ℤ
  send_parts zero c t = (t, pos 0)
  send_parts (suc n) c t =
      let (t1, how) = send_part 3 (record t { mode = encode_part t.mode c }) in
      let rest = send_parts n (c + 1) t1 in
      elim how [ ended ↦ (t1, pos 0) | acked ↦ rest | timeout ↦ (t1, negsuc 0) ]

  unfoldable pub wait_m2 : Transfer → Transfer × ℤ
  wait_m2 t = send_parts t.mode.packet_count 0 t

  -- M3: `m3_send`; `n` more rounds of 10 ms for the device.
  unfoldable pub wait_device : ℕ → Transfer → Transfer × ℤ
  wait_device zero t = (t, if send_end t.clock then pos 0 else negsuc 0)
  wait_device (suc n) t =
      let t1 = sleep t in
      let rest = wait_device n t1 in if send_end t1.clock then (t1, pos 0) else rest

  unfoldable pub m3_send : ℕ → Transfer → Transfer × ℤ
  m3_send sn t =
      let s = t.mode in
      let bytes = slice s.buf ((sn - 1) * s.psize) (get_sn_size s sn) in
      let s1 = record s {
        get_packet = false;
        up =
            upacket_encodehex_m3 local passwd s.up true s.remote s.cmd s.packet_count sn bytes
              (if s.packet_count == 1 then stx_stx else stx_syn)
              (if sn == s.packet_count then etx_etx else etx_etb);
      } in
      wait_device ((ms + 9) / 10) (sleep (send (record t { mode = s1 })))

  unfoldable pub m3_send_all : ℕ → ℕ → Transfer → Transfer × Bool
  m3_send_all zero c t = (t, true)
  m3_send_all (suc n) c t =
      let (t1, r) = m3_send (c + 1) t in
      let rest = m3_send_all n (c + 1) t1 in elim r [ pos k ↦ rest | negsuc k ↦ (t1, false) ]

  -- The part that a NAK asks for again.
  unfoldable pub nak_sn : Answer → ℕ
  nak_sn a = ((get_or a.buf 0 0 * 2 ^ 8 + get_or a.buf 1 0) * 2 ^ 8 + get_or a.buf 2 0) % 2 ^ 12

  -- `left` more milliseconds for the final answer; each NAK starts the time anew, and `fuel` bounds
  -- the rounds: none where it runs out.
  unfoldable pub wait_final : ℕ → ℕ → Transfer → Option (Transfer × ℤ)
  wait_final fuel zero t = some (t, negsuc 1)
  wait_final zero (suc left) t = none
  wait_final (suc fuel) (suc left) t =
      let t1 = sleep t in
      let a = t1.mode.packet in
      let rest = wait_final fuel left t1 in
      let again = wait_final fuel ms (m3_send (nak_sn a) t1).0 in
      if not t1.mode.get_packet
      then rest
      else if leb_ℤ eof (pos etx_eot) && leb_ℤ (pos etx_eot) eof
      then some (t1, pos 0)
      else if a.etx == etx_esc
      then some (t1, pos 0)
      else if a.etx == etx_nak && a.cmd == t1.mode.cmd
      then again
      else rest

  unfoldable pub wait_m3 : ℕ → Transfer → Option (Transfer × ℤ)
  wait_m3 fuel t =
      let (t1, sent) = m3_send_all t.mode.packet_count 0 t in
      if sent then wait_final fuel ms t1 else some (t1, negsuc 0)

  unfoldable pub wait : ℕ → Transfer → Option (Transfer × ℤ)
  wait fuel t = if t.mode.len == 0 then some (t, pos 0) else elim t.mode.type [
    | m1 ↦ some (wait_m1 t)
    | m2 ↦ some (wait_m2 t)
    | m3 ↦ wait_m3 fuel t
    | m4 ↦ some (wait_m2 t)
  ]
