-- ===== src/Examples/Devices.antt =====
-- Runs of the data items and of the connection to the center.
use yd.Prelude.{◌+◌, List, [], ◌∷◌, true, false, ◌≡◌, inl, inr, refl, arith}
use yd.Prelude.Int.{pos}
use yd.Item.{df_hhmm, Item, toreport, fromreport}
use yd.Item.Trip.{bcd_item, IsPlain, fromreport-toreport}
use yd.Link.{step_send, TcpClient, Calls, tcp_state_function}
use yd.Link.Steps.{IsLink, Fine}
use yd.Link.Run.{Event, state_run, message, packet_look, happens, happens-IsLink}
use yd.Link.Thread.{tcp_state_function-Fine}
use yd.Dfsm.{Dfsm, dfsm_idle, Happening, runs, init, process, process_at, process_wait, happen}
use yd.Dfsm.Budget.{IsWithin, requests, init-IsWithin}

abbrev empty_item : Item
empty_item = record {
  config = record { id = 0; len = 0; fl = 0; format = df_hhmm };
  val = pos 0;
  hex = [];
  chars = [];
  str = [];
  list = [];
  hh = 0;
  mm = 0;
}

-- The rain of the day, 20H: six digits, one of them behind the point.
rain-IsPlain : IsPlain 0x20 6 1
rain-IsPlain = record {
  own = omega arith;
  not_ff = omega arith;
  some_digits = omega arith;
  short = omega arith;
  fraction = omega arith;
}

fromreport-toreport_example :
    fromreport
      (bcd_item 0x20 6 1 (pos 0) empty_item)
      (toreport (bcd_item 0x20 6 1 (pos 1234) empty_item)).0
    ≡ (bcd_item 0x20 6 1 (pos 1234) empty_item, 3)
fromreport-toreport_example =
    fromreport-toreport 0x20 6 1 1234 (pos 0) empty_item empty_item rain-IsPlain (omega arith)
      (omega arith)

-- A connection with ten bytes to send.
abbrev busy : TcpClient
busy = record {
  step = step_send;
  lstep = step_send;
  socketfd = pos 3;
  opened = true;
  keep = true;
  ppfd_get = false;
  connect_ms_max = 1000;
  send_ms_max = 2000;
  recv_ms_max = 5000;
  connect_deadline = 0;
  send_deadline = 100;
  recv_deadline = 0;
  sendbuffer = [];
  sendlen = 10;
  sendreconnect = 0;
  recvbuffer = [];
  recvwannlen = 0;
  recvlen = 0;
  reconnect = 0;
}

abbrev calls : Calls
calls = record {
  socket = pos 3;
  connected = true;
  disconnected = false;
  was_sent = true;
  received = [];
  now = 50;
}

busy-IsLink : IsLink busy
busy-IsLink = record {
  online = inr (inl refl);
  send_fits = omega arith;
  wanted_fits = omega arith;
  recv_fits = omega arith;
}

tcp_state_function-Fine_example : Fine busy.step (tcp_state_function calls busy)
tcp_state_function-Fine_example = tcp_state_function-Fine calls busy busy-IsLink

-- The message goes out, another one asks for five bytes, and the packet thread looks.
abbrev events : List Event
events = state_run calls ∷ message (1 ∷ 2 ∷ []) 0 1000 5 ∷ packet_look (λ t. true) 60 ∷ []

happens-IsLink_example : IsLink (happens events busy)
happens-IsLink_example = happens-IsLink events busy (tt, (omega arith, (tt, tt))) busy-IsLink

-- A machine at rest, and a request that is sent twice without an answer.
abbrev resting : Dfsm
resting = record {
  sb = [];
  slen = 0;
  rb = [];
  rlen = 0;
  getpacket = false;
  wann = 5;
  step = dfsm_idle;
  ms_timeout = 0;
  ms_timeout_max = 2000;
  retry = 0;
}

abbrev silence : List Happening
silence = runs 0 ∷ runs 3000 ∷ runs 3010 ∷ runs 6000 ∷ runs 6010 ∷ []

init-IsWithin_example : IsWithin (1 + 1) (happen silence (init resting (1 ∷ 3 ∷ []) 1, []))
init-IsWithin_example = init-IsWithin resting (1 ∷ 3 ∷ []) 1 silence

silence-requests : requests (happen silence (init resting (1 ∷ 3 ∷ []) 1, [])).1 ≡ 2
unfolding happen init process process_at process_wait
silence-requests = refl
