-- ===== src/Channel/Quiet.antt =====
-- When a quiet connection is closed, communication_state of app/up/report/zhudong_report.cpp.
use yd.Prelude.{
  ℕ, suc, ◌+◌, ◌<◌, List, [], ◌∷◌, Bool, true, false, ltb, not, ◌==◌, ◌&&◌, if◌then◌else◌,
  same_either, ◌≡◌, refl, ap, ◌∙◌, arith, All,
}
use yd.SendMode.{MxType, etx_esc, etx_eot}
use yd.Channel.{
  DeviceCall, close, keepalive, connect, Channel, closes_in, communication_state, receive,
}

-- How often the device was asked to close.
unfoldable pub count_close : List DeviceCall → ℕ
count_close [] = 0
count_close (close ∷ calls) = suc (count_close calls)
count_close (keepalive k ∷ calls) = count_close calls
count_close (connect ip ∷ calls) = count_close calls

-- Is the connection closed by a poll at time `now`?
abbrev pub is_over : MxType → ℕ → Channel → Bool
is_over work now c =
    not (ltb 0 c.etx) && (ltb c.utimeout now && (closes_in work && not (c.utimeout == 0)))

-- The closings of the three ends of a poll, and those of the whole.
count_poll :
    (marked late quiet : Bool) (a r c : Channel) (n : ℕ)
    → count_close a.calls ≡ n
    → count_close r.calls ≡ (if quiet then 1 else 0) + n
    → count_close c.calls ≡ n
    → count_close (if marked then a else if late then r else c).calls
      ≡ (if not marked && (late && quiet) then 1 else 0) + n
count_poll true late quiet a r c n h k l = omega arith
count_poll false true quiet a r c n h k l = k
count_poll false false quiet a r c n h k l = omega arith

count_quiet :
    (quiet : Bool) (calls : List DeviceCall)
    → count_close (if quiet then close ∷ keepalive false ∷ calls else calls)
      ≡ (if quiet then 1 else 0) + count_close calls
unfolding count_close
count_quiet true calls = omega arith
count_quiet false calls = omega arith

-- One poll closes the connection exactly when no packet has left its mark, the time is over, it had been
-- started, and the station works in mode 1 or 2; then it closes once.
pub communication_state-count_close :
    (work : MxType) (now : ℕ) (c : Channel)
    → count_close (communication_state work now c).calls
      ≡ (if is_over work now c then 1 else 0) + count_close c.calls
unfolding communication_state count_close
communication_state-count_close work now c =
    let kept : Channel = record c { utimeout = now + 600000; calls = keepalive true ∷ c.calls } in
    let left : Channel = record c { utimeout = now + 600000; calls = keepalive false ∷ c.calls } in
    let quiet = closes_in work && not (c.utimeout == 0) in
    count_poll (ltb 0 c.etx) (ltb c.utimeout now) quiet
      (if c.etx == etx_esc then kept else if c.etx == etx_eot then left else c) _ c
      (count_close c.calls)
      (same_either (λ (k : Channel). count_close k.calls) (c.etx == etx_esc) {x = kept} refl
        (same_either (λ (k : Channel). count_close k.calls) (c.etx == etx_eot) {x = left} refl
          refl))
      (count_quiet quiet c.calls) refl

-- What happens to the connection: a poll of the station, or a packet.
pub data Occurrence : Type 0 where
  polled : MxType → ℕ → Occurrence
  received : ℕ → Occurrence

unfoldable pub occur : List Occurrence → Channel → Channel
occur [] c = c
occur (polled work now ∷ hs) c = occur hs (communication_state work now c)
occur (received etx ∷ hs) c = occur hs (receive etx c)

-- Every packet has a mark; the protocol has no mark 0.
abbrev pub HasMark : Occurrence → Type 0
HasMark (polled work now) = Unit
HasMark (received etx) = 0 < etx

communication_state-etx :
    (work : MxType) (now : ℕ) (c : Channel) → (communication_state work now c).etx ≡ c.etx
unfolding communication_state
communication_state-etx work now c =
    same_either (λ (k : Channel). k.etx) (ltb 0 c.etx)
      (same_either (λ (k : Channel). k.etx) (c.etx == etx_esc) refl
        (same_either (λ (k : Channel). k.etx) (c.etx == etx_eot) refl refl))
      (same_either (λ (k : Channel). k.etx) (ltb c.utimeout now) refl refl)

-- Once a packet with an end mark other than 0 has come, the connection is never closed for being quiet, as
-- long as every later packet has such a mark: no later polls in any mode, at any times, and none of these
-- packets close it, since the mark of the last packet is never taken away.
pub occur-count_close :
    (hs : List Occurrence) (c : Channel)
    → 0 < c.etx
    → All HasMark hs
    → count_close (occur hs c).calls ≡ count_close c.calls
unfolding occur receive
occur-count_close [] c h marks = refl
occur-count_close (received etx ∷ hs) c h marks =
    occur-count_close hs (record c { etx = etx }) marks.0 marks.1
occur-count_close (polled work now ∷ hs) c h marks =
    let e = communication_state-etx work now c in
    let marked : ltb 0 c.etx ≡ true = ground arith in
    let one : ◌≡◌ {A = ℕ} (if is_over work now c then 1 else 0) 0 =
      ap
        (λ (b : Bool).
          if not b && (ltb c.utimeout now && (closes_in work && not (c.utimeout == 0)))
          then 1
          else 0)
        marked in
    occur-count_close hs (communication_state work now c) (omega arith) marks.1
    ∙ communication_state-count_close work now c
    ∙ ap (λ (n : ℕ). n + count_close c.calls) one
    ∙ omega arith
