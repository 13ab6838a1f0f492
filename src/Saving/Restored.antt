-- ===== src/Saving/Restored.antt =====
-- What is saved is what is restored, `param_save` and `param_recovery` of app/dataprocess/data_save.cpp.
use yd.Prelude.{
  ℕ, ◌+◌, ◌^◌, ◌≤◌, ◌<◌, List, [], ◌∷◌, ◌++◌, put, set, Bool, true, false, not, ◌==◌, get_or,
  length, replicate, IsBytes, same_either, ◌≡◌, ◌≢◌, inl, refl, sym, subst, ap, ◌∙◌, arith,
  take_all, length-put, take-put_ge,
}
use yd.Prelude.Int.{pos}
use yd.Codec.Number.{strtoull16, tostring16, to_string}
use yd.Item.{to_l64, bits}
use yd.Item.Trip.{to_l64_small}
use yd.Store.{DataClass, at}
use yd.Store.Access.{is_missing}
use yd.Saving.{
  Rtu, set_front, param_recovery, param_save, save_remotes, save_center, save_passwd,
  save_terminal_no,
}
use yd.Saving.Fields.{
  param_save-passwd, terminal_no_saved, center_bytes, center_saved, put_all, save_model_leaves,
  save_remotes_leaves, save_center_leaves,
}
use yd.Saving.Addresses.{address_text, address_saved, IsAddress, save_remotes-length}
use yd.Store.Replay.{apply_writes}
use yd.Saving.Writes.{val_write, apply_writes-remote_other, at-param_recovery}

put_beyond : (xs vs : List ℕ) (i : ℕ) → length xs ≤ i → put xs i vs ≡ xs
put_beyond xs vs i h =
    sym (take_all (length xs) (put xs i vs) (omega (arith, length-put vs xs i)))
    ∙ take-put_ge vs (length xs) i xs h
    ∙ take_all (length xs) xs (omega arith)

put-append :
    (xs vs ws : List ℕ) (i : ℕ) → put xs i (vs ++ ws) ≡ put (put xs i vs) (i + length vs) ws
unfolding put
put-append xs [] ws i = ap (λ n. put xs n ws) (omega arith)
put-append xs (v ∷ vs) ws i =
    put-append (set xs i v) vs ws (i + 1)
    ∙ ap (λ n. put (put (set xs i v) (i + 1) vs) n ws) (omega arith)

-- A copy that is longer than the array.
put_front : (xs vs ws : List ℕ) → length vs ≡ length xs → put xs 0 (vs ++ ws) ≡ vs
put_front xs vs ws h =
    put-append xs vs ws 0
    ∙ put_beyond (put xs 0 vs) ws (0 + length vs) (omega (arith, length-put vs xs 0))
    ∙ put_all xs vs h

-- A member of the settings that only the saving of the center changes, and one that only the saving of
-- the addresses does.
front_saves : DataClass → Rtu → Rtu
front_saves c r = save_passwd c (save_terminal_no c r)

front_saves_leaves {ℓ} :
    {B : Type ℓ} (f : Rtu → B) (c : DataClass) (r : Rtu)
    → ((s : Rtu) (t u : List ℕ) (d : Bool)
        → f (record s { dirty = d; passwd = t; terminal_no = u }) ≡ f s)
    → f (front_saves c r) ≡ f r
unfolding front_saves save_passwd save_terminal_no
front_saves_leaves f c r h =
    let r1 = save_terminal_no c r in
    let no = to_string (at c 0x02).val in
    same_either f (not (bits (at c 0x03).val == strtoull16 r1.passwd))
      (h r1 (tostring16 (bits (at c 0x03).val)) r1.terminal_no true) refl
    ∙ same_either f (not (strtoull16 r.terminal_no == bits (at c 0x02).val)) (h r r.passwd no true)
        refl

param_save-center :
    (c : DataClass) (r : Rtu)
    → length r.center ≤ 4
    → length (at c 0x01).hex ≡ 4
    → IsBytes (at c 0x01).hex
    → put (replicate 4 0xFF) 0 (center_bytes (param_save c r)) ≡ (at c 0x01).hex
unfolding param_save front_saves
param_save-center c r few four bytes =
    let r2 = front_saves c r in
    let r3 = save_center c r2 in
    let kept : length r2.center ≡ length r.center =
      front_saves_leaves (λ x. length x.center) c r (λ s t u d. refl) in
    ap (put (replicate 4 0xFF) 0) (
      save_model_leaves center_bytes c (save_remotes 8 0 c r3) (λ s m t. refl)
      ∙ save_remotes_leaves center_bytes 8 0 c r3 (λ s t. refl))
    ∙ center_saved c r2 (omega arith) four bytes

param_save-remote :
    (c : DataClass) (r : Rtu) (j : ℕ)
    → j < 8
    → j < length r.remote
    → ((m : ℕ) → m ≤ j → (get_or (at c (0x04 + m)).hex 0 0 == 0xFF) ≡ false)
    → (get_or (param_save c r).remote j [] ≡ address_text c j)
      × (j < length (param_save c r).remote)
unfolding param_save front_saves
param_save-remote c r j h room used =
    let r3 = save_center c (front_saves c r) in
    let kept : r3.remote ≡ r.remote =
      save_center_leaves (λ x. x.remote) c (front_saves c r) (λ s t. refl)
      ∙ front_saves_leaves (λ x. x.remote) c r (λ s t u d. refl) in
    let room3 : j < length r3.remote = subst (λ t. j < length t) (sym kept) room in
    let model = save_model_leaves (λ x. x.remote) c (save_remotes 8 0 c r3) (λ s m t. refl) in
    (
      ap (λ t. get_or t j []) model
          ∙ address_saved 8 0 c r3 j (omega arith) (omega arith) room3 used,
      subst (λ t. j < length t) (sym model) (omega (arith, save_remotes-length 8 0 c r3)),
    )

length_ten : (hex : List ℕ) → IsAddress hex → length hex ≡ 10
length_ten hex good = ap length good.whole ∙ omega (arith, good.nine)

passwd_leaves : (c : DataClass) (r : Rtu) → (save_passwd c r).terminal_no ≡ r.terminal_no
unfolding save_passwd
passwd_leaves c r =
    same_either (λ (x : Rtu). x.terminal_no) (not (bits (at c 0x03).val == strtoull16 r.passwd))
      refl refl

-- A station that starts again knows its password and its center: what is restored from the settings
-- into the registers is what was saved, where the password is a number of 63 bits that is not negative
-- and the registers of the addresses, of which the settings have at most four, are bytes.
pub param_recovery-param_save :
    (c q : DataClass) (r : Rtu) (v : ℕ)
    → (at c 0x03).val ≡ pos v
    → v < 2 ^ 63
    → length r.center ≤ 4
    → length (at c 0x01).hex ≡ 4
    → IsBytes (at c 0x01).hex
    → (at q 0x01).hex ≡ replicate 4 0xFF
    → is_missing q 0x01 ≡ false
    → is_missing q 0x03 ≡ false
    → ((at (param_recovery (param_save c r) q) 0x03).val ≡ (at c 0x03).val)
      × ((at (param_recovery (param_save c r) q) 0x01).hex ≡ (at c 0x01).hex)
param_recovery-param_save c q r v e h few four bytes fresh known1 known3 =
    let s = param_save c r in
    let at3 =
      apply_writes
        (val_write 0x02 (to_l64 (strtoull16 s.terminal_no))
          ∷ val_write 0x03 (to_l64 (strtoull16 s.passwd))
          ∷ [])
        0x03 (at q 0x03) in
    let at1 = set_front (center_bytes s) (at q 0x01) in
    let low : bits (at c 0x03).val ≡ v = ap bits e ∙ omega arith in
    (
      ap (λ x. x.val)
            (at-param_recovery s q 0x03 (omega arith) known3
              ∙ apply_writes-remote_other 8 0x04 0x03 s.remote at3 (omega arith) (omega arith)
                  (inl (omega arith)))
          ∙ ap to_l64 (param_save-passwd c r (omega arith) ∙ low)
          ∙ to_l64_small v h
          ∙ sym e,
      ap (λ x. x.hex)
            (at-param_recovery s q 0x01 (omega arith) known1
              ∙ apply_writes-remote_other 8 0x04 0x01 s.remote at1 (omega arith) (omega arith)
                  (inl (omega arith)))
          ∙ ap (λ t. put t 0 (center_bytes s)) fresh
          ∙ param_save-center c r few four bytes,
    )

-- The address of the station does not come back: once it is saved as a new one, a number of two decimal
-- digits or more, it is read back as a larger number.
pub param_save-terminal_no :
    (c : DataClass) (r : Rtu) (v : ℕ)
    → (at c 0x02).val ≡ pos v
    → 10 ≤ v
    → v < 10 ^ 16
    → strtoull16 r.terminal_no ≢ v
    → v < strtoull16 (param_save c r).terminal_no
unfolding param_save
param_save-terminal_no c r v e h k new =
    let r3 = save_center c (save_passwd c (save_terminal_no c r)) in
    let r1 = save_terminal_no c r in
    subst (λ t. v < strtoull16 t)
      (sym (
        save_model_leaves (λ x. x.terminal_no) c (save_remotes 8 0 c r3) (λ s m t. refl)
        ∙ save_remotes_leaves (λ x. x.terminal_no) 8 0 c r3 (λ s t. refl)
        ∙ save_center_leaves (λ x. x.terminal_no) c (save_passwd c r1) (λ s t. refl)
        ∙ passwd_leaves c r1))
      (terminal_no_saved c r v e h k new)
