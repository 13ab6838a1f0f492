-- ===== src/Sensor/Reading/Value.antt =====
-- A reading from the request to the value, read_a_data of app/down/_thread_down.cpp.
use yd.Prelude.{
  ℕ, zero, suc, ◌+◌, ◌*◌, ◌/◌, ◌^◌, ◌≤◌, ◌<◌, List, [], ◌∷◌, ◌++◌, append_assoc, take, take-put,
  take-append-drop, drop, put, replicate, length, length-append, length-replicate, IsBytes, none,
  some, true, false, ltb, le→ltb_false, ◌==◌, if_either, same_either, ◌≡◌, true-ne-false, refl, sym,
  subst, ap, ◌∙◌, arith,
}
use yd.Prelude.Int.{pos}
use yd.Codec.Bcd.{report_bcd}
use yd.Codec.Bcd.Trip.{length-report_bcd}
use yd.Codec.Hex.{hexarray2str_loop, hexarray2str}
use yd.Dfsm.{Dfsm, dfsm_size, init}
use yd.Sensor.Request.{Numerics, recv_patten, bcd_name, parse_data}
use yd.Sensor.Answers.{text_of, letters, parse_data-report_bcd}
use yd.Sensor.Reading.{Setting, Round, wait_loop, Reading, may_start, read_a_data}
use yd.Sensor.Reading.Wait.{IsWaiting, HasAnswer, silence, wait_loop-HasAnswer}

-- The request that a machine begins with.
init-IsWaiting : (n : ℕ) (f : Dfsm) (b : List ℕ) → f.wann ≡ n → IsWaiting n (init f b 2)
unfolding init
init-IsWaiting n f b wanted = record {
  got = refl;
  none_yet = refl;
  blank = refl;
  wanted = same_either (λ (g : Dfsm). g.wann) (ltb 0 (length b)) wanted wanted;
}

-- The settings of a sensor with decimal digits: the head of its answers, and the number of bytes.
abbrev pub decimal : List ℕ → List ℕ → ℕ → Setting
decimal request head n = record {
  request_cmd = request;
  result_data_filter = text_of head;
  data_formatter = letters 0 n;
  data_type = bcd_name;
}

-- A frame of the receive buffer, by its answer.
frame_lem :
    (head digits tail : List ℕ)
    → length (head ++ (digits ++ tail)) ≤ dfsm_size
    → (rest : List ℕ) × (put (replicate dfsm_size 0) 0 (head ++ (digits ++ tail))
        ≡ head ++ (digits ++ rest))
frame_lem head digits tail fits =
    let a = head ++ (digits ++ tail) in
    let buf = put (replicate dfsm_size 0) 0 a in
    let x = drop (length a) buf in
    let z : 0 + length a ≡ length a = omega arith in
    let room = length-replicate {A = ℕ} dfsm_size 0 in
    let front : take (length a) buf ≡ a =
      subst (λ n. take n buf ≡ a) z (take-put a (replicate dfsm_size 0) 0 (omega arith)) in
    (
      tail ++ x,
      sym (take-append-drop (length a) buf)
          ∙ ap (λ t. t ++ x) front
          ∙ append_assoc head (digits ++ tail) x
          ∙ ap (λ t. head ++ t) (append_assoc digits tail x),
    )

length-letters : (n i : ℕ) → length (letters i n) ≡ n
length-letters zero i = refl
length-letters (suc n) i = ap suc (length-letters n (i + 1))

length-hexarray2str_loop :
    (bytes : List ℕ) → length (hexarray2str_loop (length bytes) bytes) ≡ 2 * length bytes
unfolding hexarray2str_loop
length-hexarray2str_loop [] = refl
length-hexarray2str_loop (b ∷ bytes) = omega (arith, length-hexarray2str_loop bytes)

length-text_of : (bytes : List ℕ) → length (text_of bytes) ≡ 2 * length bytes
unfolding hexarray2str
length-text_of bytes =
    let e : ltb (2 * length bytes / 2) (length bytes) ≡ false = le→ltb_false _ _ (omega arith) in
    rw e (length-hexarray2str_loop bytes)

-- The bytes that the machine waits for are not more than the answer has.
wanted_lem :
    (head digits tail : List ℕ) (n : ℕ)
    → length digits ≡ n
    → (length (text_of head) + length (letters 0 n)) / 2 ≤ length (head ++ (digits ++ tail))
wanted_lem head digits tail n size =
    let a = length-text_of head in
    let b = length-letters n 0 in
    let c = length-append head (digits ++ tail) in let d = length-append digits tail in omega arith

-- The answer of a sensor is read: where the machine is idle or waiting, the request has 1 to 20 bytes,
-- nothing comes for any number of rounds, and then an answer comes whole while a round sleeps, with the head
-- of the settings of 1 to 20 bytes, the digits of v in at most 10 bytes and anything behind them, in all no
-- more than the buffer of the machine, the reading gives v thousand thousandths and the result 1, whatever
-- else would have come later, where v thousand is below 2^63.
pub read_a_data-report_bcd :
    (w : Numerics) (f : Dfsm) (asks head tail : List ℕ) (n v : ℕ) (clocks : List ℕ) (now : ℕ)
    (rest : List Round)
    → may_start f.step ≡ true
    → 0 < length (recv_patten asks)
    → length (recv_patten asks) ≤ 20
    → IsBytes head
    → 0 < length head
    → length head ≤ 20
    → n ≤ 10
    → v < 100 ^ n
    → v * 1000 < 2 ^ 63
    → length (head ++ (report_bcd n v [] ++ tail)) ≤ dfsm_size
    → let answer = head ++ (report_bcd n v [] ++ tail) in
      let came : Round = record { clock = now; early = none; late = some answer } in
      let r = read_a_data w (decimal asks head n) (silence clocks ++ came ∷ rest) f in
      (r.value ≡ pos (v * 1000)) × (r.result ≡ pos 1)
unfolding read_a_data
read_a_data-report_bcd w f asks head tail n v clocks now rest start some_request few_asked bytes
      some_head short few h k fits =
    let digits = report_bcd n v [] in
    let size : length digits ≡ n = omega (arith, length-report_bcd n v []) in
    let answer = head ++ (digits ++ tail) in
    let wann = (length (text_of head) + length (letters 0 n)) / 2 in
    let came : Round = record { clock = now; early = none; late = some answer } in
    let began = init-IsWaiting wann (record f { wann = wann }) (recv_patten asks) refl in
    let waited =
      wait_loop (silence clocks ++ came ∷ rest)
        (init (record f { wann = wann }) (recv_patten asks) 2) in
    let has : HasAnswer answer waited =
      wait_loop-HasAnswer wann clocks now answer rest _ began
        (omega (arith, length-append head (digits ++ tail))) fits
        (wanted_lem head digits tail n size) in
    let (behind, frame) = frame_lem head digits tail fits in
    let parsed : parse_data w (text_of head) (letters 0 n) bcd_name waited.rb
        ≡ (pos (v * 1000), 0) =
      ap (λ t. parse_data w (text_of head) (letters 0 n) bcd_name t) (has.frame ∙ frame)
      ∙ parse_data-report_bcd w head behind n v bytes (omega (arith, short)) h k in
    let P : Reading → Type 0 = λ r. (r.value ≡ pos (v * 1000)) × (r.result ≡ pos 1) in
    if_either P (length (recv_patten asks) == 0) (λ no_request. absurd (ground (arith, no_request)))
      (λ _.
        if_either P (may_start f.step)
          (λ _.
            if_either P waited.getpacket
              (λ _.
                if_either P ((parse_data w (text_of head) (letters 0 n) bcd_name waited.rb).1 == 1)
                  (λ wrong. absurd (true-ne-false (sym wrong ∙ ap (λ q. q.1 == 1) parsed)))
                  (λ _. (ap (λ q. q.0) parsed, refl)))
              (λ none_came. absurd (true-ne-false (sym has.got ∙ none_came))))
          (λ no_start. absurd (true-ne-false (sym start ∙ no_start))))
