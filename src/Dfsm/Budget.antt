-- ===== src/Dfsm/Budget.antt =====
-- How often a request is sent, and how it ends, app/down/dfsm.cpp.
use yd.Prelude.{
  ℕ, suc, ◌+◌, ◌-◌, ◌≤◌, List, [], ◌∷◌, ◌++◌, length, ltb, ◌==◌, ltb→lt, if_either, if◌then◌else◌,
  ◌≡◌, refl, subst, arith,
}
use yd.Dfsm.{
  DfsmState, dfsm_idle, dfsm_send, dfsm_wait, dfsm_timeout, dfsm_get, dfsm_size, Dfsm, Effect,
  request, answer, given_up, down_packet_process, init, process_wait, process_at, process,
  Happening, runs, comes, happen,
}

-- The requests among the effects, and the callbacks.
abbrev pub requests : List Effect → ℕ
requests [] = 0
requests (request b ∷ es) = suc (requests es)
requests (answer b ∷ es) = requests es
requests (given_up ∷ es) = requests es

abbrev pub endings : List Effect → ℕ
endings [] = 0
endings (request b ∷ es) = endings es
endings (answer b ∷ es) = suc (endings es)
endings (given_up ∷ es) = suc (endings es)

-- What a state may still send, and whether it may still call back.
abbrev pub sends_left : DfsmState → ℕ → ℕ
sends_left dfsm_send retry = suc retry
sends_left dfsm_wait retry = retry
sends_left dfsm_idle retry = 0
sends_left dfsm_timeout retry = 0
sends_left dfsm_get retry = 0

abbrev pub endings_left : DfsmState → ℕ
endings_left dfsm_send = 1
endings_left dfsm_wait = 1
endings_left dfsm_timeout = 1
endings_left dfsm_get = 0
endings_left dfsm_idle = 0

-- A machine within the budget of `n` requests and one callback, with a receive buffer in bounds.
pub record IsWithin (n : ℕ) (r : Dfsm × List Effect) : Type 0 where
  pub budget : requests r.1 + sends_left r.0.step r.0.retry ≤ n
  pub once : endings r.1 + endings_left r.0.step ≤ 1
  pub room : r.0.rlen ≤ dfsm_size

process_wait-IsWithin :
    (n now : ℕ) (f : Dfsm) (done : List Effect)
    → f.step ≡ dfsm_wait
    → IsWithin n (f, done)
    → IsWithin n ((process_wait now f).0, (process_wait now f).1 ++ done)
unfolding process_wait
process_wait-IsWithin n now f done e w =
    let budget : requests done + f.retry ≤ n =
      subst (λ s. requests done + sends_left s f.retry ≤ n) e w.budget in
    let once : endings done + 1 ≤ 1 = subst (λ s. endings done + endings_left s ≤ 1) e w.once in
    let P = λ (r : Dfsm × List Effect). IsWithin n (r.0, r.1 ++ done) in
    if_either P (ltb f.ms_timeout now)
      (λ late.
        if_either P (ltb 0 f.retry)
          (λ again. record {
            budget = omega (arith, budget, ltb→lt 0 f.retry again);
            once = once;
            room = w.room;
          })
          (λ none_left. record { budget = omega arith; once = once; room = w.room }))
      (λ early.
        if_either P f.getpacket
          (λ got. record { budget = omega arith; once = omega arith; room = w.room })
          (λ nothing. w))

process_at-IsWithin :
    (s : DfsmState) (n now : ℕ) (f : Dfsm) (done : List Effect)
    → f.step ≡ s
    → IsWithin n (f, done)
    → IsWithin n ((process_at s now f).0, (process_at s now f).1 ++ done)
unfolding process_at
process_at-IsWithin dfsm_idle n now f done e w = w
process_at-IsWithin dfsm_send n now f done e w =
    let budget : requests done + suc f.retry ≤ n =
      subst (λ s. requests done + sends_left s f.retry ≤ n) e w.budget in
    let once : endings done + 1 ≤ 1 = subst (λ s. endings done + endings_left s ≤ 1) e w.once in
    record { budget = omega arith; once = once; room = w.room }
process_at-IsWithin dfsm_wait n now f done e w = process_wait-IsWithin n now f done e w
process_at-IsWithin dfsm_get n now f done e w =
    let budget = w.budget in
    let once = w.once in record { budget = omega arith; once = omega arith; room = w.room }
process_at-IsWithin dfsm_timeout n now f done e w =
    let budget = w.budget in
    let once : endings done + 1 ≤ 1 = subst (λ s. endings done + endings_left s ≤ 1) e w.once in
    record { budget = omega arith; once = omega arith; room = w.room }

down_packet_process-IsWithin :
    (n : ℕ) (f : Dfsm) (bytes : List ℕ) (done : List Effect)
    → IsWithin n (f, done)
    → IsWithin n (down_packet_process f bytes, done)
unfolding down_packet_process
down_packet_process-IsWithin n f bytes done w =
    let room = w.room in
    let taken =
      if ltb dfsm_size (f.rlen + length bytes) then dfsm_size - f.rlen else length bytes in
    let fits : f.rlen + taken ≤ dfsm_size = ground arith in
    if_either (λ (g : Dfsm). IsWithin n (g, done)) (taken == 0) (λ nothing. w)
      (λ some_bytes. record { budget = w.budget; once = w.once; room = fits })

happen-IsWithin :
    (n : ℕ) (hs : List Happening) (r : Dfsm × List Effect) → IsWithin n r → IsWithin n (happen hs r)
unfolding happen process
happen-IsWithin n [] r w = w
happen-IsWithin n (runs now ∷ hs) (f, done) w =
    let g = process now f in
    happen-IsWithin n hs (g.0, g.1 ++ done) (process_at-IsWithin f.step n now f done refl w)
happen-IsWithin n (comes bytes ∷ hs) (f, done) w =
    happen-IsWithin n hs (down_packet_process f bytes, done)
      (down_packet_process-IsWithin n f bytes done w)

-- From `init` with a number of retries on, whenever the thread runs and whatever comes in: the request
-- is sent at most once more than that number, at most one callback is made, and the receive buffer stays
-- within its 200 bytes.
pub init-IsWithin :
    (f : Dfsm) (b : List ℕ) (retries : ℕ) (hs : List Happening)
    → IsWithin (retries + 1) (happen hs (init f b retries, []))
unfolding init
init-IsWithin f b retries hs =
    happen-IsWithin (retries + 1) hs (init f b retries, [])
      (record { budget = omega arith; once = omega arith; room = omega arith })
