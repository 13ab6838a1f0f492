-- ===== src/Sensor/Reading/Wait.antt =====
-- The waiting for an answer, read_a_data of app/down/_thread_down.cpp.
use yd.Prelude.{
  ℕ, ◌+◌, ◌≤◌, ◌<◌, List, [], ◌∷◌, ◌++◌, take, take_all, put, replicate, length, none, some, Bool,
  true, false, ltb, le→ltb_false, leb, ◌==◌, if◌then◌else◌, if_either, ◌≡◌, true-ne-false, ◌-◌, sym,
  ap, ◌∙◌, arith,
}
use yd.Dfsm.{
  Dfsm, DfsmState, Effect, dfsm_idle, dfsm_send, dfsm_wait, dfsm_timeout, dfsm_get, dfsm_size,
  down_packet_process, process, process_at, process_wait,
}
use yd.Sensor.Reading.{Round, wait_loop}

-- A machine that waits and has received nothing.
pub record IsWaiting (n : ℕ) (f : Dfsm) : Type 0 where
  pub got : f.getpacket ≡ false
  pub none_yet : f.rlen ≡ 0
  pub blank : f.rb ≡ replicate dfsm_size 0
  pub wanted : f.wann ≡ n

kept :
    (n : ℕ) (f : Dfsm) (s : DfsmState) (t r : ℕ)
    → IsWaiting n f
    → IsWaiting n (record f { step = s; ms_timeout = t; retry = r })
kept n f s t r k = record { got = k.got; none_yet = k.none_yet; blank = k.blank; wanted = k.wanted }

process_wait-IsWaiting : (n now : ℕ) (f : Dfsm) → IsWaiting n f → IsWaiting n (process_wait now f).0
unfolding process_wait
process_wait-IsWaiting n now f k =
    let P : Dfsm × List Effect → Type 0 = λ r. IsWaiting n r.0 in
    if_either P (ltb f.ms_timeout now)
      (λ _.
        if_either P (ltb 0 f.retry) (λ _. kept n f dfsm_send f.ms_timeout (f.retry - 1) k)
          (λ _. kept n f dfsm_timeout f.ms_timeout f.retry k))
      (λ _. if_either P f.getpacket (λ got. absurd (true-ne-false (sym got ∙ k.got))) (λ _. k))

process_at-IsWaiting :
    (n now : ℕ) (s : DfsmState) (f : Dfsm) → IsWaiting n f → IsWaiting n (process_at s now f).0
unfolding process_at
process_at-IsWaiting n now dfsm_idle f k = k
process_at-IsWaiting n now dfsm_send f k = kept n f dfsm_wait (f.ms_timeout_max + now) f.retry k
process_at-IsWaiting n now dfsm_wait f k = process_wait-IsWaiting n now f k
process_at-IsWaiting n now dfsm_get f k = kept n f dfsm_idle f.ms_timeout f.retry k
process_at-IsWaiting n now dfsm_timeout f k = kept n f dfsm_idle f.ms_timeout f.retry k

-- Rounds in which nothing comes.
unfoldable pub silence : List ℕ → List Round
silence [] = []
silence (now ∷ clocks) = record { clock = now; early = none; late = none } ∷ silence clocks

-- A machine that has received its answer.
pub record HasAnswer (bytes : List ℕ) (f : Dfsm) : Type 0 where
  pub got : f.getpacket ≡ true
  pub frame : f.rb ≡ put (replicate dfsm_size 0) 0 bytes

le→leb : (a b : ℕ) → a ≤ b → leb a b ≡ true
le→leb a b h = ground arith

receives :
    (n : ℕ) (bytes : List ℕ) (f : Dfsm)
    → IsWaiting n f
    → 0 < length bytes
    → length bytes ≤ dfsm_size
    → n ≤ length bytes
    → HasAnswer bytes (down_packet_process f bytes)
unfolding down_packet_process
receives n bytes f k some_bytes fits whole =
    let empty = k.none_yet in
    let wanted = k.wanted in
    let m = if ltb dfsm_size (f.rlen + length bytes) then dfsm_size - f.rlen else length bytes in
    let within : ltb dfsm_size (f.rlen + length bytes) ≡ false =
      le→ltb_false dfsm_size (f.rlen + length bytes) (omega arith) in
    let all : m ≡ length bytes =
      ap (λ (b : Bool). if b then dfsm_size - f.rlen else length bytes) within in
    let enough : leb f.wann (f.rlen + m) ≡ true = le→leb f.wann (f.rlen + m) (omega arith) in
    if_either (HasAnswer bytes) (m == 0)
      (λ nothing_came. absurd (ground (arith, nothing_came, all)))
      (λ _. record {
        got = ap (λ (b : Bool). if b then true else f.getpacket) enough;
        frame =
            ap (λ t. put f.rb f.rlen t)
              (ap (λ i. take i bytes) all ∙ take_all (length bytes) bytes (omega arith))
            ∙ ap (λ i. put f.rb i bytes) k.none_yet
            ∙ ap (λ x. put x 0 bytes) k.blank;
      })

-- The loop ends with the answer.
wait_loop_done :
    (bytes : List ℕ) (rest : List Round) (g : Dfsm)
    → HasAnswer bytes g
    → HasAnswer bytes (wait_loop rest g)
unfolding wait_loop
wait_loop_done bytes [] g a = a
wait_loop_done bytes (r ∷ rs) g a =
    if_either (HasAnswer bytes) g.getpacket (λ _. a)
      (λ none_came. absurd (true-ne-false (sym a.got ∙ none_came)))

pub wait_loop-HasAnswer :
    (n : ℕ) (clocks : List ℕ) (now : ℕ) (bytes : List ℕ) (rest : List Round) (f : Dfsm)
    → IsWaiting n f
    → 0 < length bytes
    → length bytes ≤ dfsm_size
    → n ≤ length bytes
    → HasAnswer bytes (
        wait_loop
          (silence clocks ++ record { clock = now; early = none; late = some bytes } ∷ rest)
          f)
unfolding wait_loop process silence
wait_loop-HasAnswer n [] now bytes rest f k h1 h2 h3 =
    let g = (process_at f.step now f).0 in
    if_either (HasAnswer bytes) f.getpacket (λ got. absurd (true-ne-false (sym got ∙ k.got)))
      (λ _.
        wait_loop_done bytes rest (down_packet_process g bytes)
          (receives n bytes g (process_at-IsWaiting n now f.step f k) h1 h2 h3))
wait_loop-HasAnswer n (c ∷ clocks) now bytes rest f k h1 h2 h3 =
    if_either (HasAnswer bytes) f.getpacket (λ got. absurd (true-ne-false (sym got ∙ k.got)))
      (λ _.
        wait_loop-HasAnswer n clocks now bytes rest (process_at f.step c f).0
          (process_at-IsWaiting n c f.step f k) h1 h2 h3)
