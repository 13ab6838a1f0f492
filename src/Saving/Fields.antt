-- ===== src/Saving/Fields.antt =====
-- The members of the settings behind `param_save` of app/dataprocess/data_save.cpp.
use yd.Prelude.{
  ℕ, zero, suc, ◌+◌, ◌%◌, ◌^◌, ◌≤◌, ◌<◌, List, [], ◌∷◌, take, put, set, map, Bool, true, false, not,
  ltb, ◌==◌, ◌||◌, get_or, length, replicate, IsBytes, if◌then◌else◌, if_either, same_either,
  ==_iff, ◌≡◌, ◌≢◌, refl, sym, subst, ap, ◌∙◌, arith, split_and, take_all, length-put, take-put,
  true-ne-false,
}
use yd.Prelude.Int.{ℤ, pos}
use yd.Codec.Hex.{hex2ipstring}
use yd.Codec.Number.{strtoull16, print_address, to_string}
use yd.Codec.Number.Reading.{strtoull16-tostring16, lt-strtoull16}
use yd.Sensor.{int_of}
use yd.Item.{bits}
use yd.Store.{DataClass, at}
use yd.Store.Appdata.{same_text}
use yd.Saving.{
  Rtu, normal, param_save, save_model, save_remotes, save_center, save_passwd, save_terminal_no,
}

pub same_text-eq : (s t : List ℕ) → same_text s t ≡ true → s ≡ t
same_text-eq [] [] h = refl
same_text-eq [] (c ∷ cs) h = absurd (true-ne-false (sym h))
same_text-eq (b ∷ bs) [] h = absurd (true-ne-false (sym h))
same_text-eq (b ∷ bs) (c ∷ cs) h =
    let (one, more) = split_and (b == c) (same_text bs cs) h in
    let rest = same_text-eq bs cs more in let first : b ≡ c = (==_iff b c).0 one in cc

pub save_center_leaves {ℓ} :
    {B : Type ℓ} (f : Rtu → B) (c : DataClass) (r : Rtu)
    → ((s : Rtu) (t : List ℕ) → f (record s { dirty = true; center = t }) ≡ f s)
    → f (save_center c r) ≡ f r
unfolding save_center
save_center_leaves f c r h =
    let cc = put (replicate 4 0xFF) 0 (map (λ b. b % 2 ^ 8) r.center) in
    let hex = take 4 (at c 0x01).hex in same_either f (not (same_text cc hex)) (h r hex) refl

-- A member that the saving of the addresses does not touch.
pub save_remotes_leaves {ℓ} :
    {B : Type ℓ} (f : Rtu → B) (k i : ℕ) (c : DataClass) (r : Rtu)
    → ((s : Rtu) (t : List (List ℕ)) → f (record s { dirty = true; remote = t }) ≡ f s)
    → f (save_remotes k i c r) ≡ f r
unfolding save_remotes
save_remotes_leaves f zero i c r h = refl
save_remotes_leaves f (suc k) i c r h =
    let hex = (at c (0x04 + i)).hex in
    let text = print_address (hex2ipstring hex) in
    let changed = ltb (length r.remote) (i + 1) || not (same_text (get_or r.remote i []) text) in
    let t = set r.remote i text in
    let saved : Rtu = if changed then record r { dirty = true; remote = t } else r in
    same_either f (get_or hex 0 0 == 0xFF) refl
      (save_remotes_leaves f k (i + 1) c saved h ∙ same_either f changed (h r t) refl)

pub save_model_leaves {ℓ} :
    {B : Type ℓ} (f : Rtu → B) (c : DataClass) (r : Rtu)
    → ((s : Rtu) (m : List ℕ) (t : ℤ) → f (record s { model = m; terminal_type = t }) ≡ f s)
    → f (save_model c r) ≡ f r
unfolding save_model
save_model_leaves f c r h =
    let t = int_of (at c 0xFF01).val in
    if_either (λ (x : Rtu). f (record x { terminal_type = t }) ≡ f r)
      (get_or (at c 0x0C).hex 0 0 == 0x02) (λ yes_normal. h r normal t) (λ other. h r r.model t)

-- The password is saved as a text that is read back.
passwd_saved :
    (c : DataClass) (r : Rtu)
    → bits (at c 0x03).val < 2 ^ 64
    → strtoull16 (save_passwd c r).passwd ≡ bits (at c 0x03).val
unfolding save_passwd
passwd_saved c r h =
    if_either (λ (x : Rtu). strtoull16 x.passwd ≡ bits (at c 0x03).val)
      (not (bits (at c 0x03).val == strtoull16 r.passwd))
      (λ new. strtoull16-tostring16 (bits (at c 0x03).val) h) (λ old. ground (arith, old))

pub param_save-passwd :
    (c : DataClass) (r : Rtu)
    → bits (at c 0x03).val < 2 ^ 64
    → strtoull16 (param_save c r).passwd ≡ bits (at c 0x03).val
unfolding param_save
param_save-passwd c r h =
    let r1 = save_terminal_no c r in
    let r3 = save_center c (save_passwd c r1) in
    let kept : (save_center c (save_passwd c r1)).passwd ≡ (save_passwd c r1).passwd =
      save_center_leaves (λ x. x.passwd) c (save_passwd c r1) (λ s t. refl) in
    ap strtoull16 (
      save_model_leaves (λ x. x.passwd) c (save_remotes 8 0 c r3) (λ s m t. refl)
      ∙ save_remotes_leaves (λ x. x.passwd) 8 0 c r3 (λ s t. refl)
      ∙ kept)
    ∙ passwd_saved c r1 h

-- The address of the station is saved in decimal digits, which are read as hexadecimal ones.
pub terminal_no_saved :
    (c : DataClass) (r : Rtu) (v : ℕ)
    → (at c 0x02).val ≡ pos v
    → 10 ≤ v
    → v < 10 ^ 16
    → strtoull16 r.terminal_no ≢ v
    → v < strtoull16 (save_terminal_no c r).terminal_no
unfolding save_terminal_no
terminal_no_saved c r v e h k new =
    if_either (λ (x : Rtu). v < strtoull16 x.terminal_no)
      (not (strtoull16 r.terminal_no == bits (at c 0x02).val))
      (λ changed. subst (λ z. v < strtoull16 (to_string z)) (sym e) (lt-strtoull16 v h k))
      (λ same.
        let eq : bits (at c 0x02).val ≡ v = ap bits e ∙ omega arith in
        absurd (new (ground (arith, same, eq))))

map-IsBytes : (bs : List ℕ) → IsBytes bs → map (λ b. b % 2 ^ 8) bs ≡ bs
map-IsBytes [] h = refl
map-IsBytes (b ∷ bs) (h, hs) =
    let first : b % 2 ^ 8 ≡ b = omega arith in let rest = map-IsBytes bs hs in cc

-- A copy over a whole array.
pub put_all : (xs vs : List ℕ) → length vs ≡ length xs → put xs 0 vs ≡ vs
put_all xs vs h =
    sym (take_all (0 + length vs) (put xs 0 vs) (omega (arith, length-put vs xs 0)))
    ∙ take-put vs xs 0 (omega arith)

pub not-false : {b : Bool} → not b ≡ false → b ≡ true
not-false {b = true} h = refl
not-false {b = false} h = absurd (true-ne-false h)

-- The bytes that the settings give back to the array of the center's addresses.
abbrev pub center_bytes : Rtu → List ℕ
center_bytes r = map (λ b. b % 2 ^ 8) (take 4 r.center)

pub center_saved :
    (c : DataClass) (r : Rtu)
    → length r.center ≤ 4
    → length (at c 0x01).hex ≡ 4
    → IsBytes (at c 0x01).hex
    → put (replicate 4 0xFF) 0 (center_bytes (save_center c r)) ≡ (at c 0x01).hex
unfolding save_center
center_saved c r few four bytes =
    let hex = (at c 0x01).hex in
    let fill : List ℕ = replicate 4 0xFF in
    let cut = map (λ (b : ℕ). b % 2 ^ 8) in
    let whole : take 4 hex ≡ hex = take_all 4 hex (omega arith) in
    if_either (λ (x : Rtu). put fill 0 (cut (take 4 x.center)) ≡ hex)
      (not (same_text (put fill 0 (cut r.center)) (take 4 hex)))
      (λ new.
        ap (λ t. put fill 0 (cut (take 4 t))) whole
        ∙ ap (λ t. put fill 0 (cut t)) whole
        ∙ ap (put fill 0) (map-IsBytes hex bytes)
        ∙ put_all fill hex (omega arith))
      (λ old.
        ap (λ t. put fill 0 (cut t)) (take_all 4 r.center few)
        ∙ same_text-eq (put fill 0 (cut r.center)) (take 4 hex) (not-false old)
        ∙ whole)
