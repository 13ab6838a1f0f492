-- ===== src/Link/Run.antt =====
-- What happens to the connection, one whole call behind another: the thread of `tcp_state_function`, `senddata`
-- and the packet thread, dev/tcp_client.cpp. Two calls at the same time are not modelled.
use yd.Prelude.{ℕ, ◌≤◌, List, [], ◌∷◌, Bool, All, if_either, inl, inr, refl, arith}
use yd.Link.{
  step_send, step_recv_wait, buffer_size, TcpClient, Calls, senddata, tcp_state_function,
  receive_packet,
}
use yd.Link.Steps.{IsOnline, IsLink}
use yd.Link.Thread.{tcp_state_function-Fine}

-- A run of the state function with the results of its system calls, a message with its two times and the
-- bytes wanted of the answer, and a look of the packet thread with the clock.
pub data Event : Type 0 where
  state_run : Calls → Event
  message : List ℕ → ℕ → ℕ → ℕ → Event
  packet_look : (List ℕ → Bool) → ℕ → Event

unfoldable pub happens : List Event → TcpClient → TcpClient
happens [] c = c
happens (state_run io ∷ es) c = happens es (tcp_state_function io c)
happens (message buffer to_txms to_rxms recv_wann ∷ es) c =
    happens es (senddata c buffer to_txms to_rxms recv_wann).0
happens (packet_look packet now ∷ es) c = happens es (receive_packet packet now c)

-- No more bytes of an answer are wanted than the buffer has.
abbrev pub IsModest : Event → Type 0
IsModest (state_run io) = Unit
IsModest (message buffer to_txms to_rxms recv_wann) = recv_wann ≤ buffer_size
IsModest (packet_look packet now) = Unit

resent :
    (c : TcpClient)
    → IsOnline c.step
    → IsOnline (elim c.step [ step_recv_wait ↦ step_send | _ ↦ c.step ])
resent c (inl e) = rw e (inl e)
resent c (inr (inl e)) = rw e (inl refl)
resent c (inr (inr (inl e))) = rw e (inr (inr (inl e)))
resent c (inr (inr (inr e))) = rw e (inr (inr (inr e)))

senddata-IsLink :
    (c : TcpClient) (buffer : List ℕ) (to_txms to_rxms recv_wann : ℕ)
    → recv_wann ≤ buffer_size
    → IsLink c
    → IsLink (senddata c buffer to_txms to_rxms recv_wann).0
unfolding senddata
senddata-IsLink c buffer to_txms to_rxms recv_wann h l = record {
  online = elim l.online [ inl closed_before ↦ inl closed_before | inr on ↦ inr (resent c on) ];
  send_fits = omega arith;
  wanted_fits = h;
  recv_fits = omega arith;
}

receive_packet-IsLink :
    (packet : List ℕ → Bool) (now : ℕ) (c : TcpClient)
    → IsLink c
    → IsLink (receive_packet packet now c)
unfolding receive_packet
receive_packet-IsLink packet now c l =
    if_either IsLink c.ppfd_get
      (λ got. record {
        online = l.online;
        send_fits = l.send_fits;
        wanted_fits = l.wanted_fits;
        recv_fits = omega arith;
      })
      (λ none_came. l)

-- A connection that is in order stays so behind any runs of the state function, messages and looks of the packet
-- thread, one whole call behind another: it counts as open only in the steps of an established connection,
-- what is sent and what is asked for fit the buffers, and what has come is never more than what was asked
-- for, where no message asks for more than the buffer has.
pub happens-IsLink :
    (es : List Event) (c : TcpClient) → All IsModest es → IsLink c → IsLink (happens es c)
unfolding happens
happens-IsLink [] c h l = l
happens-IsLink (state_run io ∷ es) c (_, h) l =
    happens-IsLink es (tcp_state_function io c) h (tcp_state_function-Fine io c l).1
happens-IsLink (message buffer to_txms to_rxms recv_wann ∷ es) c (modest, h) l =
    happens-IsLink es (senddata c buffer to_txms to_rxms recv_wann).0 h
      (senddata-IsLink c buffer to_txms to_rxms recv_wann modest l)
happens-IsLink (packet_look packet now ∷ es) c (_, h) l =
    happens-IsLink es (receive_packet packet now c) h (receive_packet-IsLink packet now c l)
