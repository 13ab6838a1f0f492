-- ===== src/SendMode/Answers.antt =====
-- What the confirmed modes M2 and M4 of `SendMode::wait`, app/up/sendmode.cpp, do with the answers.
use yd.Prelude.{
  ℕ, zero, suc, ◌+◌, ◌*◌, ◌/◌, ◌≤◌, length, Option, Bool, true, false, ◌==◌, ◌||◌, if_either,
  Option-cases, ◌≡◌, ◌≢◌, ◌⊎◌, inl, inr, refl, ap, ◌∙◌, arith,
}
use yd.Prelude.Int.{ℤ, pos, negsuc}
use yd.SendMode.{
  Transfer, Answer, Attempt, ended, acked, timeout, etx_eot, etx_esc, sleep, send, wait_answer,
  is_answered, send_part, encode_part, send_parts, wait_m2,
}

module _ (local passwd : ℕ) (arrival : ℕ → Option Answer) (send_end : ℕ → Bool) (ms : ℕ) where
  sleep-sent : (t : Transfer) → (sleep local passwd arrival send_end ms t).sent ≡ t.sent
  unfolding sleep
  sleep-sent t = elim (Option-cases (arrival t.clock)) [
    | inl none_came ↦ rw (none_came, sleep)
    | inr (a, came) ↦ rw (came, sleep)
  ]

  wait_answer-sent :
      (n : ℕ) (t : Transfer) → (wait_answer local passwd arrival send_end ms n t).sent ≡ t.sent
  unfolding wait_answer
  wait_answer-sent zero t = refl
  wait_answer-sent (suc n) t =
      let t1 = sleep local passwd arrival send_end ms t in
      if_either (λ (r : Transfer). r.sent ≡ t.sent) t1.mode.get_packet (λ here. sleep-sent t)
        (λ later. wait_answer-sent n t1 ∙ sleep-sent t)

  -- What the attempts at one part add to the frames sent.
  pub record Tried (retry : ℕ) (t : Transfer) (r : Transfer × Attempt) : Type 0 where
    pub at_most : length r.0.sent ≤ length t.sent + retry
    pub at_least : length t.sent ≤ length r.0.sent
    pub all_tried : r.1 ≡ timeout → length r.0.sent ≡ length t.sent + retry
    pub answered : r.1 ≢ timeout → is_answered local passwd arrival send_end ms r.0.mode ≡ true

  acked_timeout : acked ≢ timeout
  acked_timeout e = cc

  ended_timeout : ended ≢ timeout
  ended_timeout e = cc

  send_part-Tried :
      (retry : ℕ) (t : Transfer)
      → Tried retry t (send_part local passwd arrival send_end ms retry t)
  unfolding send_part send
  send_part-Tried zero t = record {
    at_most = omega arith;
    at_least = omega arith;
    all_tried = λ e. omega arith;
    answered = λ ne. absurd (ne refl);
  }
  send_part-Tried (suc retry) t =
      let t0 =
        send local passwd arrival send_end ms
          (record t { mode = record t.mode { get_packet = false } }) in
      let t1 = wait_answer local passwd arrival send_end ms (ms / 10 + 1) t0 in
      let grown : length t1.sent ≡ suc (length t.sent) =
        ap length (wait_answer-sent (ms / 10 + 1) t0) ∙ refl in
      let rest = send_part-Tried retry t1 in
      if_either (Tried (suc retry) t) (is_answered local passwd arrival send_end ms t1.mode)
        (λ yes.
          if_either (Tried (suc retry) t) (t1.mode.etx == etx_eot || t1.mode.etx == etx_esc)
            (λ ends. record {
              at_most = omega arith;
              at_least = omega arith;
              all_tried = λ e. absurd (ended_timeout e);
              answered = λ ne. yes;
            })
            (λ goes_on. record {
              at_most = omega arith;
              at_least = omega arith;
              all_tried = λ e. absurd (acked_timeout e);
              answered = λ ne. yes;
            }))
        (λ no.
          let most = rest.at_most in
          let least = rest.at_least in
          record {
            at_most = omega arith;
            at_least = omega arith;
            all_tried = λ e. omega (arith, rest.all_tried e);
            answered = rest.answered;
          })

  -- What sending `n` parts adds to the frames sent, and what the result says.
  pub record Sent (n : ℕ) (t : Transfer) (r : Transfer × ℤ) : Type 0 where
    pub at_most : length r.0.sent ≤ length t.sent + 3 * n
    pub result :
        (r.1 ≡ pos 0) × ((n ≡ 0) ⊎ (is_answered local passwd arrival send_end ms r.0.mode ≡ true))
        ⊎ (r.1 ≡ negsuc 0) × (length t.sent + 3 ≤ length r.0.sent)

  -- One part and the parts behind it.
  next_parts :
      (n c : ℕ) (how : Attempt) (t t0 t1 : Transfer)
      → t0.sent ≡ t.sent
      → Tried 3 t0 (t1, how)
      → Sent n t1 (send_parts local passwd arrival send_end ms n c t1)
      → Sent (suc n) t (elim how [
        | ended ↦ (t1, pos 0)
        | acked ↦ send_parts local passwd arrival send_end ms n c t1
        | timeout ↦ (t1, negsuc 0)
      ])
  unfolding send_parts
  next_parts n c ended t t0 t1 e one rest =
      let most = one.at_most in
      let size = ap length e in
      record { at_most = omega arith; result = inl (refl, inr (one.answered ended_timeout)) }
  next_parts n c timeout t t0 t1 e one rest =
      let most = one.at_most in
      let size = ap length e in
      record { at_most = omega arith; result = inr (refl, omega (arith, one.all_tried refl)) }
  next_parts zero c acked t t0 t1 e one rest =
      let most = one.at_most in
      let size = ap length e in
      record { at_most = omega arith; result = inl (refl, inr (one.answered acked_timeout)) }
  next_parts (suc n) c acked t t0 t1 e one rest =
      let most = one.at_most in
      let least = one.at_least in
      let most_rest = rest.at_most in
      let size = ap length e in
      record {
        at_most = omega arith;
        result = elim rest.result [
          | inl (e0, inl empty) ↦ absurd (omega (arith, empty))
          | inl (e0, inr heard) ↦ inl (e0, inr heard)
          | inr (e0, more) ↦ inr (e0, omega arith)
        ];
      }

  send_parts-Sent :
      (n c : ℕ) (t : Transfer) → Sent n t (send_parts local passwd arrival send_end ms n c t)
  unfolding send_parts
  send_parts-Sent zero c t = record { at_most = omega arith; result = inl (refl, inl refl) }
  send_parts-Sent (suc n) c t =
      let t0 : Transfer = record t {
        mode = encode_part local passwd arrival send_end ms t.mode c;
      } in
      let r = send_part local passwd arrival send_end ms 3 t0 in
      next_parts n (c + 1) r.1 t t0 r.0 refl (send_part-Tried 3 t0) (send_parts-Sent n (c + 1) r.0)

  -- The confirmed modes M2 and M4 end with 0 or -1, after at most three times as many sends
  -- as there are parts. They end
  -- with 0 only with an answer to the command that was sent (or without any part), and with -1 only
  -- after at least three sends.
  pub wait_m2-Sent :
      (t : Transfer) → Sent t.mode.packet_count t (wait_m2 local passwd arrival send_end ms t)
  unfolding wait_m2
  wait_m2-Sent t = send_parts-Sent t.mode.packet_count 0 t
