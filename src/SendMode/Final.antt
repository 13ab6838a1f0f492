-- ===== src/SendMode/Final.antt =====
-- The final answer of mode M3, in `SendMode::wait` of app/up/sendmode.cpp.
use yd.Prelude.{
  ℕ, zero, suc, ◌≤◌, Option, none, some, Bool, false, ◌==◌, ◌&&◌, not, if_either, ==_iff, ◌≡◌, ◌⊎◌,
  inl, inr, refl, arith,
}
use yd.Prelude.Int.{ℤ, negsuc}
use yd.SendMode.{Transfer, Answer, etx_eot, etx_esc, etx_nak, sleep, wait_final}

module _ (local passwd : ℕ) (arrival : ℕ → Option Answer) (send_end : ℕ → Bool) (ms : ℕ) where
  -- Every packet that arrives ends with EOT.
  abbrev pub IsEot : ℕ → Type 0
  IsEot clock =
      (arrival clock ≡ none) ⊎ ((a : Answer) × (arrival clock ≡ some a) × (a.etx ≡ etx_eot))

  -- The packet at hand, where there is one, ends with EOT.
  abbrev pub Holds : Transfer → Type 0
  Holds t = (t.mode.get_packet ≡ false) ⊎ (t.mode.packet.etx ≡ etx_eot)

  sleep-Holds :
      (t : Transfer) → IsEot t.clock → Holds t → Holds (sleep local passwd arrival send_end ms t)
  unfolding sleep
  sleep-Holds t (inl e) h = rw (e, sleep) h
  sleep-Holds t (inr (a, e, eot)) h = rw (e, sleep) (inr eot)

  by_eot : (t : Transfer) → Holds t → not t.mode.get_packet ≡ false → t.mode.packet.etx ≡ etx_eot
  by_eot t (inl e) got = absurd (ground (arith, e, got))
  by_eot t (inr e) got = e

  -- Is the result -2?
  abbrev pub IsTimeout : Option (Transfer × ℤ) → Type 0
  IsTimeout o = (r : Transfer) × (o ≡ some (r, negsuc 1))

  -- Mode M3 takes no EOT for a confirmation: while nothing but EOT packets arrive, the wait for the
  -- final answer ends with -2, and rounds as many as the milliseconds left are enough for it.
  pub wait_final-IsTimeout :
      (fuel left : ℕ) (t : Transfer)
      → ((k : ℕ) → IsEot k)
      → Holds t
      → left ≤ fuel
      → IsTimeout (wait_final local passwd arrival send_end ms fuel left t)
  unfolding wait_final
  wait_final-IsTimeout zero zero t eot h enough = (t, refl)
  wait_final-IsTimeout (suc fuel) zero t eot h enough = (t, refl)
  wait_final-IsTimeout zero (suc left) t eot h enough = absurd (omega arith)
  wait_final-IsTimeout (suc fuel) (suc left) t eot h enough =
      let t1 = sleep local passwd arrival send_end ms t in
      let a = t1.mode.packet in
      let held = sleep-Holds t (eot t.clock) h in
      let rest = wait_final-IsTimeout fuel left t1 eot held (omega arith) in
      if_either IsTimeout (not t1.mode.get_packet) (λ nothing. rest)
        (λ got.
          let is_eot : a.etx ≡ etx_eot = by_eot t1 held got in
          if_either IsTimeout (a.etx == etx_esc)
            (λ e. absurd (omega (arith, (==_iff a.etx etx_esc).0 e)))
            (λ _.
              if_either IsTimeout (a.etx == etx_nak && a.cmd == t1.mode.cmd)
                (λ e. absurd (ground (arith, e))) (λ _. rest)))
