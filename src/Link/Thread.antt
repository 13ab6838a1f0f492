-- ===== src/Link/Thread.antt =====
-- The whole of `tcp_state_function`, dev/tcp_client.cpp, and the runs of its thread.
use yd.Prelude.{
  ◌+◌, Bool, true, false, ltb, true-ne-false, if_either, ◌≡◌, inl, inr, refl, sym, ap, ◌∙◌,
}
use yd.Prelude.Int.{ℤ, pos, negsuc}
use yd.Link.{
  TcpStep, step_null, step_open, step_connect, step_open_error, step_open_ok, step_send,
  step_resend, step_send_ok, step_send_error, step_recv_wait, step_recv_get_ok, step_recv_timeout,
  TcpClient, Calls, on_null, on_open, on_connect, on_open_ok, on_open_error, on_step,
  tcp_state_function,
}
use yd.Link.Steps.{
  at_step, socket_made, socket_failed, connect_done, connect_late, connect_again, ready,
  reopen_send, close_send, reopen_recv, close_recv, default_resend, default_send_ok, IsOnline,
  IsLink, Fine, on_send-Fine, on_recv_wait-Fine, on_lost-Fine,
}

abbrev is_online : TcpStep → Bool
is_online step_send = true
is_online step_recv_wait = true
is_online step_send_error = true
is_online step_recv_timeout = true
is_online step_null = false
is_online step_open = false
is_online step_connect = false
is_online step_open_error = false
is_online step_open_ok = false
is_online step_resend = false
is_online step_send_ok = false
is_online step_recv_get_ok = false

IsOnline-is_online : (s : TcpStep) → IsOnline s → is_online s ≡ true
IsOnline-is_online s (inl e) = ap is_online e
IsOnline-is_online s (inr (inl e)) = ap is_online e
IsOnline-is_online s (inr (inr (inl e))) = ap is_online e
IsOnline-is_online s (inr (inr (inr e))) = ap is_online e

-- Outside of those steps the connection does not count as open.
closed : (c : TcpClient) → is_online c.step ≡ false → IsLink c → c.opened ≡ false
closed c off l = elim l.online [
  | inl shut ↦ shut
  | inr on ↦ absurd (true-ne-false (sym (IsOnline-is_online c.step on) ∙ off))
]

on_open-Fine : (io : Calls) (c : TcpClient) → IsLink c → Fine step_open (on_open io c)
unfolding on_open
on_open-Fine io c l = by_socket io.socket
  where
    by_socket :
        (k : ℤ)
        → Fine step_open (elim k [
          | negsuc k ↦ record c { opened = false; socketfd = negsuc k; step = step_open_error }
          | pos fd ↦ record c {
            opened = false;
            socketfd = pos fd;
            step = step_connect;
            connect_deadline = io.now + c.connect_ms_max;
          }
        ])
    by_socket (pos fd) = (
      socket_made,
      record {
        online = inl refl;
        send_fits = l.send_fits;
        wanted_fits = l.wanted_fits;
        recv_fits = l.recv_fits;
      },
    )
    by_socket (negsuc k) = (
      socket_failed,
      record {
        online = inl refl;
        send_fits = l.send_fits;
        wanted_fits = l.wanted_fits;
        recv_fits = l.recv_fits;
      },
    )

on_connect-Fine :
    (io : Calls) (c : TcpClient)
    → c.step ≡ step_connect
    → IsLink c
    → Fine step_connect (on_connect io c)
unfolding on_connect
on_connect-Fine io c e l =
    let shut = closed c (ap is_online e) l in
    if_either (Fine step_connect) io.connected
      (λ done. (
        connect_done,
        record {
          online = inl shut;
          send_fits = l.send_fits;
          wanted_fits = l.wanted_fits;
          recv_fits = l.recv_fits;
        },
      ))
      (λ not_yet.
        if_either (Fine step_connect) (ltb c.connect_deadline io.now)
          (λ late. (
            connect_late,
            record {
              online = inl shut;
              send_fits = l.send_fits;
              wanted_fits = l.wanted_fits;
              recv_fits = l.recv_fits;
            },
          ))
          (λ early. (at_step (sym e), l)))

on_step-Fine :
    (s : TcpStep) (io : Calls) (c : TcpClient) → c.step ≡ s → IsLink c → Fine s (on_step s io c)
unfolding on_step on_null on_open_ok on_open_error
on_step-Fine step_null io c e l = (
  at_step (sym e),
  record {
    online = inl refl;
    send_fits = l.send_fits;
    wanted_fits = l.wanted_fits;
    recv_fits = l.recv_fits;
  },
)
on_step-Fine step_open io c e l = on_open-Fine io c l
on_step-Fine step_connect io c e l = on_connect-Fine io c e l
on_step-Fine step_open_error io c e l = (
  connect_again,
  record {
    online = inl (closed c (ap is_online e) l);
    send_fits = l.send_fits;
    wanted_fits = l.wanted_fits;
    recv_fits = l.recv_fits;
  },
)
on_step-Fine step_open_ok io c e l = (
  ready,
  record {
    online = inr (inl refl);
    send_fits = l.send_fits;
    wanted_fits = l.wanted_fits;
    recv_fits = l.recv_fits;
  },
)
on_step-Fine step_send io c e l = on_send-Fine io c e l
on_step-Fine step_resend io c e l = (
  default_resend,
  record {
    online = inl (closed c (ap is_online e) l);
    send_fits = l.send_fits;
    wanted_fits = l.wanted_fits;
    recv_fits = l.recv_fits;
  },
)
on_step-Fine step_send_ok io c e l = (
  default_send_ok,
  record {
    online = inl (closed c (ap is_online e) l);
    send_fits = l.send_fits;
    wanted_fits = l.wanted_fits;
    recv_fits = l.recv_fits;
  },
)
on_step-Fine step_send_error io c e l = on_lost-Fine step_send_error c reopen_send close_send l
on_step-Fine step_recv_wait io c e l = on_recv_wait-Fine io c e l
on_step-Fine step_recv_get_ok io c e l = (at_step (sym e), l)
on_step-Fine step_recv_timeout io c e l = on_lost-Fine step_recv_timeout c reopen_recv close_recv l

-- Whatever the system calls return, one run of the state function goes along an edge of the graph of
-- steps, counts the connection as open only in the steps of an established connection, keeps the lengths of
-- what is sent and asked for within the buffers, and never receives more than was asked for, where these
-- hold before: so that the room handed to `recv` is not negative.
pub tcp_state_function-Fine :
    (io : Calls) (c : TcpClient) → IsLink c → Fine c.step (tcp_state_function io c)
unfolding tcp_state_function
tcp_state_function-Fine io c l =
    on_step-Fine c.step io (record c { lstep = c.step }) refl
      (record {
        online = l.online;
        send_fits = l.send_fits;
        wanted_fits = l.wanted_fits;
        recv_fits = l.recv_fits;
      })
