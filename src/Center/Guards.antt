-- ===== src/Center/Guards.antt =====
-- Who may command the station, and the numbering of the commands, app/up/center/center_process.cpp;
-- the change of the password, app/up/center/center.cpp.
use yd.Prelude.{
  ℕ, ◌*◌, ◌/◌, ◌%◌, ◌^◌, ◌<◌, bit_or, List, drop, get_or, Option, none, some, Bool, true, false,
  leb, not, ◌==◌, ◌&&◌, if◌then◌else◌, if_either, same_either, subst, sym, true-ne-false, ◌≡◌, ◌⊎◌,
  inl, inr, refl, ap, ap₂, ◌∙◌, arith,
}
use yd.Prelude.Int.{ℤ, pos}
use yd.Packet.Frame.{ud_cmd, ud_len, ud_rlocal, ud_rpasswd}
use yd.Item.{Item, bits}
use yd.Store.{at}
use yd.Store.Access.{same_item, is_missing, at-modify}
use yd.SendMode.{Answer}
use yd.Center.Header.{Calendar, Station, Out, new_header, get_observetime_time}
use yd.Center.Commands.{Reply, nothing, change_password}
use yd.Center.Process.{
  World, Center, equals_val, next_serial, count_up, answer, finish, dispatch, center_process,
}

-- The bytes of a command that changes the password: the register, the old and the new password.
abbrev pub old_password : List ℕ → ℕ
old_password d = let b = drop 8 d in bit_or (get_or b 2 0 * 2 ^ 8) (get_or b 3 0)

abbrev pub new_password : List ℕ → ℕ
new_password d = let b = drop 8 d in bit_or (get_or b 6 0 * 2 ^ 8) (get_or b 7 0)

abbrev pub may_change : Station → List ℕ → Bool
may_change s d =
    get_or (drop 8 d) 0 0 == 0x03 && old_password d == bits (at s.param 0x03).val % 2 ^ 16

-- The password register after a command, and every other register.
abbrev pub HasPassword : Station → ℕ → Reply → Type 0
HasPassword s n r =
    (m : ℕ)
    → at r.station.param m
      ≡ (if same_item s.param 0x03 m then record (at s.param m) { val = pos n } else at s.param m)

-- The command that changes the password, 49H: it does nothing at all unless it names the password
-- register and the old password; otherwise the register holds the new one, and every other register of
-- the basic configuration is as before.
pub change_password-cases :
    (localtime : ℕ → Calendar) (s : Station) (d : List ℕ) (o : Out)
    → (may_change s d ≡ false) × (change_password localtime s d o ≡ nothing s o)
      ⊎ (may_change s d ≡ true) × HasPassword s (new_password d) (change_password localtime s d o)
unfolding change_password new_header get_observetime_time
change_password-cases localtime s d o =
    let n = new_password d in
    let change : Item → Item = λ x. record x { val = pos n } in
    if_either
      (λ (r : Reply).
        (may_change s d ≡ false) × (r ≡ nothing s o) ⊎ (may_change s d ≡ true) × HasPassword s n r)
      (may_change s d) (λ may. inr (may, λ m. at-modify s.param 0x03 m change (λ x. refl)))
      (λ may_not. inl (may_not, refl))

-- Are the address and the password of a packet those of the station?
abbrev pub is_known : Station → List ℕ → Bool
is_known s p =
    ud_rlocal p == bits (at s.param 0x02).val && equals_val (ud_rpasswd p) (at s.param 0x03).val

-- Behind a command that changed the password, exactly the packets with the station's address and the
-- new password are known, where the table has a password register.
pub change_password-is_known :
    (localtime : ℕ → Calendar) (s : Station) (d q : List ℕ) (o : Out)
    → may_change s d ≡ true
    → is_missing s.param 0x03 ≡ false
    → is_known (change_password localtime s d o).station q
      ≡ ((ud_rlocal q == bits (at s.param 0x02).val) && (ud_rpasswd q == new_password d))
change_password-is_known localtime s d q o may there =
    elim (change_password-cases localtime s d o) [
      | inl (may_not, _) ↦ absurd (true-ne-false (sym may ∙ may_not))
      | inr (_, has) ↦
          let other : same_item s.param 0x03 0x02 ≡ false =
            ap (λ b. b && is_missing s.param 0x02) there in
          let pick : Bool → ℕ → Item = λ b m.
            if b then record (at s.param m) { val = pos (new_password d) } else at s.param m in
          let two = has 0x02 ∙ ap (λ b. pick b 0x02) other in
          ap₂ (λ (x y : Item). (ud_rlocal q == bits x.val) && equals_val (ud_rpasswd q) y.val) two
            (has 0x03)
    ]

-- A serial number that is not 0 and fits its two bytes.
abbrev pub IsNumbered : Center → Type 0
IsNumbered c = (0 < c.seial_number) × (c.seial_number < 2 ^ 16)

next_serial-lt : (n : ℕ) → (0 < next_serial n) × (next_serial n < 2 ^ 16)
unfolding next_serial
next_serial-lt n = (ground arith, ground arith)

both_fail {ℓ} :
    {A : Type ℓ} (a b : Bool) (x y : A)
    → (a && b) ≡ false
    → (if not a then x else if not b then x else y) ≡ x
both_fail true true x y h = absurd (true-ne-false h)
both_fail true false x y h = refl
both_fail false b x y h = refl

module _ (arrival : ℕ → Option Answer) (send_end : ℕ → Bool) (w : World) (cache : List ℕ) where
  finish-seial_number :
      (c : Center) (p p2 : List ℕ) (r : Option Reply)
      → (finish arrival send_end w cache c p p2 r).seial_number ≡ c.seial_number
  unfolding finish answer
  finish-seial_number c p p2 none = refl
  finish-seial_number c p p2 (some r) =
      same_either (λ (k : Center). k.seial_number) (ud_cmd p == 0x48) refl refl

  -- Whatever the packet, the serial number stays in its two bytes and is never 0.
  pub center_process-IsNumbered :
      (c : Center) (p p2 : List ℕ)
      → IsNumbered c
      → IsNumbered (center_process arrival send_end w cache c p p2).0
  unfolding center_process dispatch count_up
  center_process-IsNumbered c p p2 h =
      let P : Center × ℤ → Type 0 = λ k. IsNumbered k.0 in
      let counted = not (ud_cmd p == 0x2F) && leb 0x37 (ud_cmd p) in
      let c1 : Center = if counted then count_up c else c in
      let start : IsNumbered c1 =
        if_either IsNumbered counted (λ _. next_serial-lt c.seial_number) (λ _. h) in
      if_either P (not (ud_rlocal p == bits (at c.station.param 0x02).val)) (λ _. h)
        (λ _.
          if_either P (not (equals_val (ud_rpasswd p) (at c.station.param 0x03).val)) (λ _. h)
            (λ _.
              if_either P (ud_len p / 2 ^ 15 == 1)
                (λ _.
                  subst (λ n. (0 < n) × (n < 2 ^ 16)) (sym (finish-seial_number c1 p p2 _)) start)
                (λ _. h)))
