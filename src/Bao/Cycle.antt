-- ===== src/Bao/Cycle.antt =====
-- The check of a cycle's time, `Check_Time` in app/dataprocess/Ibao.hpp.
use native.Mathlib.Nat.{mul-le-mul_right, add-mul, mul_comm, mod-lt}
use native.Mathlib.Omega.{div_any}
use yd.Prelude.{
  ℕ, ◌+◌, ◌-◌, ◌*◌, ◌/◌, ◌%◌, ◌^◌, ◌≤◌, ◌<◌, true, false, ltb, ◌==◌, Bool-cases, ltb→lt, lt→ltb,
  ltb_false→le, if◌then◌else◌, ◌≡◌, ◌⊎◌, inl, inr, ◌∙◌, arith,
}
use yd.Prelude.Int.{ℤ, pos, negsuc, ◌+ℤ◌, ◌-ℤ◌, ◌≤ℤ◌, quot, leb_ℤ, pos-add, pos_part, neg_part}
use yd.Bao.{to_int, check_time}

-- The quotient by a cycle is at most a number exactly when the cycle's multiple is reached.
div_below : (a n c : ℕ) → 0 < c → n * c ≤ a → n ≤ a / c
div_below a n c h k = elim (Bool-cases (ltb (a / c) n)) [
  | inl less ↦
      let whole = div_any a c in
      let turn = mul_comm c (a / c) in
      let grow : (a / c + 1) * c ≤ n * c =
        mul-le-mul_right c (omega (arith, ltb→lt (a / c) n less)) in
      let next = add-mul (a / c) 1 c in absurd (omega (arith, mod-lt a h))
  | inr more ↦ ground (arith, more)
]

-- Some multiple of the cycle, moved by the delay, lies behind `last` and not behind `now`:
-- last < n * cycle + delays and n * cycle + delays ≤ now, with a negative delay on the other side.
abbrev pub Due : ℕ → ℕ → ℕ → ℤ → Type 0
Due last now cycle delays =
    (n : ℕ) × (last + neg_part delays < n * cycle + pos_part delays)
    × (n * cycle + pos_part delays ≤ now + neg_part delays)

-- The seconds between the delay and a time.
abbrev since : ℕ → ℤ → ℕ
since x d = x + neg_part d - pos_part d

minus-since : (x : ℕ) (d : ℤ) → d ≤ℤ pos x → pos x -ℤ d ≡ pos (since x d)
unfolding ◌-ℤ◌
minus-since x (pos d) h = ground arith
minus-since x (negsuc d) h = ground arith

to_int_small : (n : ℕ) → n < 2 ^ 31 → to_int (pos n) ≡ pos n
unfolding to_int
to_int_small n h = let same : n % 2 ^ 32 ≡ n = omega arith in rw same (rw (lt→ltb n (2 ^ 31) h))

later : (a c : ℕ) → leb_ℤ (pos a +ℤ pos 1) (pos c) ≡ ltb a c
unfolding ◌+ℤ◌
later a c = ground arith

next_int : (n : ℕ) → n + 1 < 2 ^ 31 → to_int (pos n +ℤ pos 1) ≡ pos n +ℤ pos 1
next_int n h = rw (pos-add n 1) (to_int_small (n + 1) h)

-- What `check_time` computes, where the quotient and the next number fit an int.
check_time-ltb :
    (last now cycle : ℕ) (delays : ℤ)
    → delays ≤ℤ pos last
    → delays ≤ℤ pos now
    → 0 < cycle
    → since last delays / cycle + 1 < 2 ^ 31
    → check_time last now cycle delays ≡ (
        if ltb (since last delays / cycle) (since now delays / cycle)
        then (now, true)
        else (last, false))
unfolding check_time quot
check_time-ltb last now cycle delays h k pos_cycle small =
    let cyclic : (cycle == 0) ≡ false = ground arith in
    rw (minus-since last delays h, minus-since now delays k, cyclic)
      (rw
        (
          to_int_small (since last delays / cycle) (omega arith),
          next_int (since last delays / cycle) small,
        )
        (rw (later (since last delays / cycle) (since now delays / cycle))))

reached :
    (a c cycle : ℕ)
    → 0 < cycle
    → a / cycle < c / cycle
    → (a < c / cycle * cycle) × (c / cycle * cycle ≤ c)
reached a c cycle h less =
    let whole = div_any a cycle in
    let whole_c = div_any c cycle in
    let turn = mul_comm cycle (a / cycle) in
    let turn_c = mul_comm cycle (c / cycle) in
    let grow : (a / cycle + 1) * cycle ≤ c / cycle * cycle = mul-le-mul_right cycle (omega arith) in
    let next = add-mul (a / cycle) 1 cycle in (omega (arith, mod-lt a h), omega arith)

-- The check of a cycle answers yes exactly when a moment of the cycle has come since the last check,
-- however long ago that was, and then, and only then, notes the time of the check: for times behind
-- the delay, a cycle that is not 0, and fewer than 2^31 - 1 cycles up to the last check.
pub check_time-Due :
    (last now cycle : ℕ) (delays : ℤ)
    → delays ≤ℤ pos last
    → delays ≤ℤ pos now
    → 0 < cycle
    → since last delays / cycle + 1 < 2 ^ 31
    → (check_time last now cycle delays ≡ (now, true)) × Due last now cycle delays
      ⊎ (check_time last now cycle delays ≡ (last, false)) × (¬ Due last now cycle delays)
check_time-Due last now cycle delays h k pos_cycle small =
    let a = since last delays in
    let c = since now delays in
    let run = check_time-ltb last now cycle delays h k pos_cycle small in
    elim (Bool-cases (ltb (a / cycle) (c / cycle))) [
      | inl less ↦
          let (behind, upto) = reached a c cycle pos_cycle (ltb→lt (a / cycle) (c / cycle) less) in
          inl (run ∙ rw less, (c / cycle, omega arith, omega arith))
      | inr more ↦ inr (
        run ∙ rw more,
        λ due. not_due due.0 due.1 due.2 (ltb_false→le (a / cycle) (c / cycle) more),
      )
    ]
  where
    not_due :
        (n : ℕ)
        → last + neg_part delays < n * cycle + pos_part delays
        → n * cycle + pos_part delays ≤ now + neg_part delays
        → since now delays / cycle ≤ since last delays / cycle
        → ⊥
    not_due n behind upto more =
        let few = div_below (since now delays) n cycle pos_cycle (omega arith) in
        let whole = div_any (since last delays) cycle in
        let turn = mul_comm cycle (since last delays / cycle) in
        let grow : n * cycle ≤ since last delays / cycle * cycle =
          mul-le-mul_right cycle (omega arith) in
        omega arith
