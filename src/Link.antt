-- ===== src/Link.antt =====
-- The connection to the center, `tcp_client` of dev/tcp_client.h and dev/tcp_client.cpp: a state machine
-- that its thread runs every millisecond.
pub mod Steps
pub mod Thread
pub mod Run
use yd.Prelude.{
  ℕ, zero, suc, ◌+◌, ◌-◌, ◌≤◌, ◌<◌, min, List, [], ◌∷◌, ◌++◌, take, put, set, length, Bool, true,
  false, ltb, leb, ◌==◌, not, ◌&&◌, ◌||◌, if◌then◌else◌, ◌≡◌, Option, none, some,
}
use yd.Prelude.Int.{ℤ, pos, negsuc, ltb_ℤ}

pub data TcpStep : Type 0 where
  step_null : TcpStep
  step_open : TcpStep
  step_connect : TcpStep
  step_open_error : TcpStep
  step_open_ok : TcpStep
  step_send : TcpStep
  step_resend : TcpStep
  step_send_ok : TcpStep
  step_send_error : TcpStep
  step_recv_wait : TcpStep
  step_recv_get_ok : TcpStep
  step_recv_timeout : TcpStep

-- `sizeof(sendbuffer)` and `sizeof(recvbuffer)`.
abbrev pub buffer_size : ℕ
buffer_size = 1024

-- The members, with `deadline` in the names of the ul64 times (the source's `connect_timeout` and so
-- on). The first `sendlen` and `recvlen` bytes of the buffers count.
pub record TcpClient : Type 0 where
  pub step : TcpStep
  pub lstep : TcpStep
  pub socketfd : ℤ
  pub opened : Bool
  pub keep : Bool
  pub ppfd_get : Bool
  pub connect_ms_max : ℕ
  pub send_ms_max : ℕ
  pub recv_ms_max : ℕ
  pub connect_deadline : ℕ
  pub send_deadline : ℕ
  pub recv_deadline : ℕ
  pub sendbuffer : List ℕ
  pub sendlen : ℕ
  pub sendreconnect : ℕ
  pub recvbuffer : List ℕ
  pub recvwannlen : ℕ
  pub recvlen : ℕ
  pub reconnect : ℕ

-- What the system calls of one step return: the descriptor of `socket` (-1 for an error), whether
-- `connect` and `send` succeed, whether the server has closed the connection, the bytes that `recv`
-- copies (none for a result of at most 0), and the clock.
pub record Calls : Type 0 where
  pub socket : ℤ
  pub connected : Bool
  pub disconnected : Bool
  pub was_sent : Bool
  pub received : List ℕ
  pub now : ℕ

unfoldable pub senddata : TcpClient → List ℕ → ℕ → ℕ → ℕ → TcpClient × ℕ
senddata c buffer to_txms to_rxms recv_wann =
    let len = min (length buffer) buffer_size in
    (
      -- `recv_timeout < 0` is never true of a ul64.
      record c {
        sendbuffer = put c.sendbuffer 0 (take len buffer);
        sendlen = len;
        recv_ms_max = to_rxms;
        send_ms_max = if to_txms == 0 then c.send_ms_max else to_txms;
        recvlen = 0;
        recvwannlen = recv_wann;
        step = elim c.step [ step_recv_wait ↦ step_send | _ ↦ c.step ];
      },
      len,
    )

unfoldable pub is_send_end : TcpClient → Bool
is_send_end c = if ltb 0 c.sendlen then false else true

unfoldable pub on_null : Calls → TcpClient → TcpClient
on_null io c = record c {
  opened = false;
  socketfd = if ltb_ℤ (pos 0) c.socketfd then pos 0 else c.socketfd;
}

unfoldable pub on_open : Calls → TcpClient → TcpClient
on_open io c = elim io.socket [
  | negsuc k ↦ record c { opened = false; socketfd = negsuc k; step = step_open_error }
  | pos fd ↦ record c {
    opened = false;
    socketfd = pos fd;
    step = step_connect;
    connect_deadline = io.now + c.connect_ms_max;
  }
]

unfoldable pub on_connect : Calls → TcpClient → TcpClient
on_connect io c =
    if io.connected
    then record c { step = step_open_ok }
    else if ltb c.connect_deadline io.now
    then record c { step = step_open_error }
    else c

unfoldable pub on_open_ok : Calls → TcpClient → TcpClient
on_open_ok io c = record c {
  opened = true;
  send_deadline = io.now + c.send_ms_max;
  step = step_send;
}

unfoldable pub on_open_error : TcpClient → TcpClient
on_open_error c = record c { reconnect = c.reconnect + 1; step = step_open }

unfoldable pub on_send : Calls → TcpClient → TcpClient
on_send io c =
    if io.disconnected
    then record c { step = step_send_error }
    else if c.sendlen == 0
    then record c {
      recv_deadline =
          if c.recv_deadline == 0 && not c.keep then io.now + c.recv_ms_max else c.recv_deadline;
      step = step_recv_wait;
    }
    else if io.was_sent
    then record c {
      recv_deadline = io.now + c.recv_ms_max;
      recvlen = 0;
      step = step_recv_wait;
      sendlen = 0;
      opened = true;
    }
    else if ltb c.send_deadline io.now
    then record c {
      sendreconnect = c.sendreconnect + 1;
      sendlen = if ltb 2 (c.sendreconnect + 1) then 0 else c.sendlen;
      step = step_send_error;
    }
    else c

-- What `recv` may copy at most is asked for, the bytes wanted less those that are there; the source passes
-- this int as a size, and it is its course where there are not more than are wanted. A full buffer takes the null character behind its end.
unfoldable pub on_received : Calls → TcpClient → TcpClient
on_received io c =
    let bytes = take (c.recvwannlen - c.recvlen) io.received in
    let n = length bytes in
    if n == 0
    then (if ltb c.recv_deadline io.now
        then record c {
          step = if c.keep then c.step else step_recv_timeout;
          recvlen = 0;
          recv_deadline = io.now + c.recv_ms_max;
        }
        else c)
    else record c {
      recv_deadline = io.now + c.recv_ms_max;
      recvbuffer =
          let filled = put c.recvbuffer c.recvlen bytes in
          if leb c.recvwannlen (c.recvlen + n) then set filled (c.recvlen + n) 0 else filled;
      recvlen = c.recvlen + n;
      ppfd_get = true;
    }

unfoldable pub on_recv_wait : Calls → TcpClient → TcpClient
on_recv_wait io c =
    if ltb 0 c.sendlen
    then record c { sendreconnect = 0; step = step_send; send_deadline = io.now + c.send_ms_max }
    else if io.disconnected
    then record c { step = step_send_error }
    else on_received io
        (if c.recvwannlen == 0 && c.recvlen == 0 then record c { recvwannlen = buffer_size } else c)

unfoldable pub on_lost : TcpClient → TcpClient
on_lost c = record c {
  socketfd = pos 0;
  opened = false;
  reconnect = if ltb c.reconnect 65535 then c.reconnect + 1 else c.reconnect;
  step = if c.keep || ltb 0 c.sendlen then step_open else step_null;
}

-- `recv_get_ok` does nothing; the steps without a case are the default.
unfoldable pub on_step : TcpStep → Calls → TcpClient → TcpClient
on_step step_null io c = on_null io c
on_step step_open io c = on_open io c
on_step step_connect io c = on_connect io c
on_step step_open_error io c = on_open_error c
on_step step_open_ok io c = on_open_ok io c
on_step step_send io c = on_send io c
on_step step_resend io c = record c { step = step_null }
on_step step_send_ok io c = record c { step = step_null }
on_step step_send_error io c = on_lost c
on_step step_recv_wait io c = on_recv_wait io c
on_step step_recv_get_ok io c = c
on_step step_recv_timeout io c = on_lost c

unfoldable pub tcp_state_function : Calls → TcpClient → TcpClient
tcp_state_function io c = on_step c.step io (record c { lstep = c.step })

-- The packet thread: `packet` says whether the receiver found a packet.
unfoldable pub receive_packet : (List ℕ → Bool) → ℕ → TcpClient → TcpClient
receive_packet packet now c =
    if c.ppfd_get
    then record c {
      ppfd_get = false;
      recv_deadline =
          if packet (take c.recvlen c.recvbuffer) then now + c.recv_ms_max else c.recv_deadline;
      recvlen = 0;
    }
    else c

-- `device_state` of dev/mxdevice.cpp, with the states of dev/mxdevice.h.
pub data DeviceState : Type 0 where
  ds_null : DeviceState
  ds_connecting : DeviceState
  ds_open : DeviceState
  ds_wait : DeviceState

unfoldable pub device_state : TcpStep → DeviceState
device_state step_null = ds_null
device_state step_open = ds_connecting
device_state step_connect = ds_connecting
device_state step_open_ok = ds_open
device_state step_send = ds_open
device_state step_send_ok = ds_open
device_state step_recv_wait = ds_open
device_state step_recv_get_ok = ds_open
device_state step_open_error = ds_wait
device_state step_resend = ds_wait
device_state step_send_error = ds_wait
device_state step_recv_timeout = ds_wait
