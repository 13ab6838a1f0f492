-- ===== src/Link/Steps.antt =====
-- The steps that the connection to the center can take, dev/tcp_client.cpp.
use yd.Prelude.{
  ◌+◌, ◌-◌, ◌≤◌, take, length, length-take, Bool, true, false, ltb, ◌==◌, ◌&&◌, ◌||◌, if_either,
  if◌then◌else◌, ◌≡◌, ◌⊎◌, inl, inr, refl, sym, arith,
}
use yd.Prelude.Int.{pos}
use yd.Link.{
  TcpStep, step_null, step_open, step_connect, step_open_error, step_open_ok, step_send,
  step_resend, step_send_ok, step_send_error, step_recv_wait, step_recv_timeout, buffer_size,
  TcpClient, Calls, on_send, on_received, on_recv_wait, on_lost,
}

-- The changes of the step, drawn as a graph.
infix 50 ◌⟶◌
pub data ◌⟶◌ : TcpStep → TcpStep → Type 0 where
  at_step : {s t : TcpStep} → s ≡ t → s ⟶ t
  socket_made : step_open ⟶ step_connect
  socket_failed : step_open ⟶ step_open_error
  connect_done : step_connect ⟶ step_open_ok
  connect_late : step_connect ⟶ step_open_error
  connect_again : step_open_error ⟶ step_open
  ready : step_open_ok ⟶ step_send
  sent : step_send ⟶ step_recv_wait
  send_lost : step_send ⟶ step_send_error
  more : step_recv_wait ⟶ step_send
  recv_lost : step_recv_wait ⟶ step_send_error
  recv_late : step_recv_wait ⟶ step_recv_timeout
  reopen_send : step_send_error ⟶ step_open
  close_send : step_send_error ⟶ step_null
  reopen_recv : step_recv_timeout ⟶ step_open
  close_recv : step_recv_timeout ⟶ step_null
  default_resend : step_resend ⟶ step_null
  default_send_ok : step_send_ok ⟶ step_null

-- The steps in which the connection counts as open: `opened` may be set.
abbrev pub IsOnline : TcpStep → Type 0
IsOnline s =
    (s ≡ step_send) ⊎ (s ≡ step_recv_wait) ⊎ (s ≡ step_send_error) ⊎ (s ≡ step_recv_timeout)

-- What holds of the members between two steps.
pub record IsLink (c : TcpClient) : Type 0 where
  pub online : (c.opened ≡ false) ⊎ IsOnline c.step
  pub send_fits : c.sendlen ≤ buffer_size
  pub wanted_fits : c.recvwannlen ≤ buffer_size
  pub recv_fits : c.recvlen ≤ c.recvwannlen

-- A step of the machine: along an edge, and to a state in order.
abbrev pub Fine : TcpStep → TcpClient → Type 0
Fine s c = (s ⟶ c.step) × IsLink c

pub on_send-Fine :
    (io : Calls) (c : TcpClient) → c.step ≡ step_send → IsLink c → Fine step_send (on_send io c)
unfolding on_send
on_send-Fine io c e l =
    let fits = l.send_fits in
    if_either (Fine step_send) io.disconnected
      (λ gone. (
        send_lost,
        record {
          online = inr (inr (inr (inl refl)));
          send_fits = l.send_fits;
          wanted_fits = l.wanted_fits;
          recv_fits = l.recv_fits;
        },
      ))
      (λ there.
        if_either (Fine step_send) (c.sendlen == 0)
          (λ empty. (
            sent,
            record {
              online = inr (inr (inl refl));
              send_fits = l.send_fits;
              wanted_fits = l.wanted_fits;
              recv_fits = l.recv_fits;
            },
          ))
          (λ full.
            if_either (Fine step_send) io.was_sent
              (λ done. (
                sent,
                record {
                  online = inr (inr (inl refl));
                  send_fits = omega arith;
                  wanted_fits = l.wanted_fits;
                  recv_fits = omega arith;
                },
              ))
              (λ not_yet.
                if_either (Fine step_send) (ltb c.send_deadline io.now)
                  (λ late. (
                    send_lost,
                    record {
                      online = inr (inr (inr (inl refl)));
                      send_fits = ground arith;
                      wanted_fits = l.wanted_fits;
                      recv_fits = l.recv_fits;
                    },
                  ))
                  (λ early. (at_step (sym e), l)))))

on_received-Fine :
    (io : Calls) (c : TcpClient)
    → c.step ≡ step_recv_wait
    → IsLink c
    → Fine step_recv_wait (on_received io c)
unfolding on_received
on_received-Fine io c e l =
    let bytes = take (c.recvwannlen - c.recvlen) io.received in
    let n = length bytes in
    let most = length-take (c.recvwannlen - c.recvlen) io.received in
    let wide = l.wanted_fits in
    let filled = l.recv_fits in
    if_either (Fine step_recv_wait) (n == 0)
      (λ nothing.
        if_either (Fine step_recv_wait) (ltb c.recv_deadline io.now)
          (λ late. late_step c.keep (record {
            online = inl refl;
            send_fits = l.send_fits;
            wanted_fits = wide;
            recv_fits = omega arith;
          }))
          (λ early. (at_step (sym e), l)))
      (λ some_bytes. (
        at_step (sym e),
        record {
          online = l.online;
          send_fits = l.send_fits;
          wanted_fits = wide;
          recv_fits = omega arith;
        },
      ))
  where
    late_step :
        (keep : Bool)
        → IsLink (record c { recvlen = 0; opened = false; recv_deadline = io.now + c.recv_ms_max })
        → Fine step_recv_wait (record c {
          step = if keep then c.step else step_recv_timeout;
          recvlen = 0;
          recv_deadline = io.now + c.recv_ms_max;
        })
    late_step true k = (
      at_step (sym e),
      record {
        online = l.online;
        send_fits = l.send_fits;
        wanted_fits = l.wanted_fits;
        recv_fits = k.recv_fits;
      },
    )
    late_step false k = (
      recv_late,
      record {
        online = inr (inr (inr (inr refl)));
        send_fits = l.send_fits;
        wanted_fits = l.wanted_fits;
        recv_fits = k.recv_fits;
      },
    )

pub on_recv_wait-Fine :
    (io : Calls) (c : TcpClient)
    → c.step ≡ step_recv_wait
    → IsLink c
    → Fine step_recv_wait (on_recv_wait io c)
unfolding on_recv_wait
on_recv_wait-Fine io c e l =
    if_either (Fine step_recv_wait) (ltb 0 c.sendlen)
      (λ full. (
        more,
        record {
          online = inr (inl refl);
          send_fits = l.send_fits;
          wanted_fits = l.wanted_fits;
          recv_fits = l.recv_fits;
        },
      ))
      (λ empty.
        if_either (Fine step_recv_wait) io.disconnected
          (λ gone. (
            recv_lost,
            record {
              online = inr (inr (inr (inl refl)));
              send_fits = l.send_fits;
              wanted_fits = l.wanted_fits;
              recv_fits = l.recv_fits;
            },
          ))
          (λ there.
            if_either (λ (d : TcpClient). Fine step_recv_wait (on_received io d))
              (c.recvwannlen == 0 && c.recvlen == 0)
              (λ unset.
                on_received-Fine io (record c { recvwannlen = buffer_size }) e
                  (record {
                    online = l.online;
                    send_fits = l.send_fits;
                    wanted_fits = omega arith;
                    recv_fits = omega (arith, l.recv_fits, l.wanted_fits);
                  }))
              (λ set_before. on_received-Fine io c e l)))

pub on_lost-Fine :
    (s : TcpStep) (c : TcpClient) → s ⟶ step_open → s ⟶ step_null → IsLink c → Fine s (on_lost c)
unfolding on_lost
on_lost-Fine s c reopens closes l = by_target (c.keep || ltb 0 c.sendlen)
  where
    by_target :
        (b : Bool)
        → Fine s (record c {
          socketfd = pos 0;
          opened = false;
          reconnect = if ltb c.reconnect 65535 then c.reconnect + 1 else c.reconnect;
          step = if b then step_open else step_null;
        })
    by_target true = (
      reopens,
      record {
        online = inl refl;
        send_fits = l.send_fits;
        wanted_fits = l.wanted_fits;
        recv_fits = l.recv_fits;
      },
    )
    by_target false = (
      closes,
      record {
        online = inl refl;
        send_fits = l.send_fits;
        wanted_fits = l.wanted_fits;
        recv_fits = l.recv_fits;
      },
    )
