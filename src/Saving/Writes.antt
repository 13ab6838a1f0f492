-- ===== src/Saving/Writes.antt =====
-- The restoring of the registers as a sequence of writes, `param_recovery` and `runtime_recovery` of
-- app/dataprocess/data_save.cpp.
use yd.Prelude.{
  ℕ, zero, suc, ◌+◌, ◌%◌, ◌^◌, ◌≤◌, ◌<◌, List, [], ◌∷◌, ◌++◌, take, map, Bool, true, false, ◌==◌,
  get_or, length, if◌then◌else◌, All, All-append, ◌≡◌, ◌⊎◌, inl, inr, refl, sym, ap, ◌∙◌, arith,
}
use yd.Prelude.Int.{ℤ}
use yd.Codec.Hex.{ipstring2hex}
use yd.Codec.Number.{strtoull16, scan_address}
use yd.Item.{Item, to_l64}
use yd.Store.{DataClass, at, modify}
use yd.Store.Appdata.{same_text}
use yd.Store.Access.{is_missing}
use yd.Store.Replay.{
  Write, KeepsPlace, perform, apply_writes, apply_writes-append, at-perform_known,
}
use yd.Saving.{Rtu, normal, with_val, set_front, recover_remotes, param_recovery}

pub perform-append :
    (ws vs : List Write) (c : DataClass) → perform (ws ++ vs) c ≡ perform vs (perform ws c)
unfolding perform
perform-append [] vs c = refl
perform-append (w ∷ ws) vs c = perform-append ws vs (modify c w.number w.change)

abbrev pub val_write : ℕ → ℤ → Write
val_write n v = record { number = n; change = with_val v }

abbrev pub front_write : ℕ → List ℕ → Write
front_write n bytes = record { number = n; change = set_front bytes }

abbrev pub remote_writes : ℕ → ℕ → List (List ℕ) → List Write
remote_writes zero n rs = []
remote_writes (suc k) n [] = []
remote_writes (suc k) n (r ∷ rs) =
    front_write n (ipstring2hex (scan_address r)) ∷ remote_writes k (n + 1) rs

recover_remotes-perform :
    (k n : ℕ) (rs : List (List ℕ)) (c : DataClass)
    → recover_remotes k n rs c ≡ perform (remote_writes k n rs) c
unfolding recover_remotes perform
recover_remotes-perform zero n rs c = refl
recover_remotes-perform (suc k) n [] c = refl
recover_remotes-perform (suc k) n (r ∷ rs) c =
    recover_remotes-perform k (n + 1) rs (modify c n (set_front (ipstring2hex (scan_address r))))

remote_writes-KeepsPlace : (k n : ℕ) (rs : List (List ℕ)) → All KeepsPlace (remote_writes k n rs)
remote_writes-KeepsPlace zero n rs = tt
remote_writes-KeepsPlace (suc k) n [] = tt
remote_writes-KeepsPlace (suc k) n (r ∷ rs) = (λ x. refl, remote_writes-KeepsPlace k (n + 1) rs)

number_ne :
    (n m : ℕ) → n < 2 ^ 16 → m < 2 ^ 16 → (n < m) ⊎ (m < n) → (n % 2 ^ 16 == m % 2 ^ 16) ≡ false
number_ne n m h k o = ground arith

number_eq : (n m : ℕ) → n ≡ m → (n % 2 ^ 16 == m % 2 ^ 16) ≡ true
number_eq n m e = rw e (ground arith)

-- The addresses of the stations do not touch another register.
pub apply_writes-remote_other :
    (k n m : ℕ) (rs : List (List ℕ)) (x : Item)
    → n + k ≤ 2 ^ 16
    → m < 2 ^ 16
    → (m < n) ⊎ (n + k ≤ m)
    → apply_writes (remote_writes k n rs) m x ≡ x
apply_writes-remote_other zero n m rs x h s o = refl
apply_writes-remote_other (suc k) n m [] x h s o = refl
apply_writes-remote_other (suc k) n m (r ∷ rs) x h s o =
    let y = set_front (ipstring2hex (scan_address r)) x in
    ap (λ b. apply_writes (remote_writes k (n + 1) rs) m (if b then y else x))
      (number_ne n m (omega arith) s (ground arith))
    ∙ apply_writes-remote_other k (n + 1) m rs x (omega arith) s (ground arith)

-- Register `n + i` has the address number `i` behind them.
pub apply_writes-remote :
    (k n i : ℕ) (rs : List (List ℕ)) (x : Item)
    → n + k ≤ 2 ^ 16
    → i < k
    → i < length rs
    → apply_writes (remote_writes k n rs) (n + i) x
      ≡ set_front (ipstring2hex (scan_address (get_or rs i []))) x
apply_writes-remote zero n i rs x h s o = absurd (omega arith)
apply_writes-remote (suc k) n i [] x h s o = absurd (omega arith)
apply_writes-remote (suc k) n zero (r ∷ rs) x h s o =
    let y = set_front (ipstring2hex (scan_address r)) x in
    ap (λ b. apply_writes (remote_writes k (n + 1) rs) (n + 0) (if b then y else x))
      (number_eq n (n + 0) (omega arith))
    ∙ apply_writes-remote_other k (n + 1) (n + 0) rs y (omega arith) (omega arith) (ground arith)
apply_writes-remote (suc k) n (suc i) (r ∷ rs) x h s o =
    let y = set_front (ipstring2hex (scan_address r)) x in
    let next : n + suc i ≡ n + 1 + i = omega arith in
    ap (λ b. apply_writes (remote_writes k (n + 1) rs) (n + suc i) (if b then y else x))
      (number_ne n (n + suc i) (omega arith) (omega arith) (ground arith))
    ∙ ap (λ m. apply_writes (remote_writes k (n + 1) rs) m x) next
    ∙ apply_writes-remote k (n + 1) i rs x (omega arith) (omega arith) (omega arith)

-- All the writes of `param_recovery`.
abbrev pub param_writes : Rtu → List Write
param_writes rtu =
    val_write 0x02 (to_l64 (strtoull16 rtu.terminal_no))
    ∷ val_write 0x03 (to_l64 (strtoull16 rtu.passwd))
    ∷ front_write 0x01 (map (λ b. b % 2 ^ 8) (take 4 rtu.center))
    ∷ (remote_writes 8 0x04 rtu.remote
        ++ ((if same_text rtu.model normal then front_write 0x0C (0x02 ∷ []) ∷ [] else [])
            ++ val_write 0xFF01 rtu.terminal_type ∷ []))

model_perform :
    (b : Bool) (c : DataClass)
    → (if b then modify c 0x0C (set_front (0x02 ∷ [])) else c)
      ≡ perform (if b then front_write 0x0C (0x02 ∷ []) ∷ [] else []) c
unfolding perform
model_perform true c = refl
model_perform false c = refl

model-KeepsPlace : (b : Bool) → All KeepsPlace (if b then front_write 0x0C (0x02 ∷ []) ∷ [] else [])
model-KeepsPlace true = (λ x. refl, tt)
model-KeepsPlace false = tt

pub param_recovery-perform :
    (rtu : Rtu) (c : DataClass) → param_recovery rtu c ≡ perform (param_writes rtu) c
unfolding param_recovery perform
param_recovery-perform rtu c =
    let c1 = modify c 0x02 (with_val (to_l64 (strtoull16 rtu.terminal_no))) in
    let c2 = modify c1 0x03 (with_val (to_l64 (strtoull16 rtu.passwd))) in
    let c3 = modify c2 0x01 (set_front (map (λ b. b % 2 ^ 8) (take 4 rtu.center))) in
    let c4 = recover_remotes 8 0x04 rtu.remote c3 in
    let last = val_write 0xFF01 rtu.terminal_type ∷ [] in
    let b = same_text rtu.model normal in
    let model : List Write = if b then front_write 0x0C (0x02 ∷ []) ∷ [] else [] in
    ap (λ k. modify k 0xFF01 (with_val rtu.terminal_type)) (model_perform b c4)
    ∙ sym (perform-append model last c4)
    ∙ ap (perform (model ++ last)) (recover_remotes-perform 8 0x04 rtu.remote c3)
    ∙ sym (perform-append (remote_writes 8 0x04 rtu.remote) (model ++ last) c3)

pub param_writes-KeepsPlace : (rtu : Rtu) → All KeepsPlace (param_writes rtu)
param_writes-KeepsPlace rtu =
    let last = val_write 0xFF01 rtu.terminal_type ∷ [] in
    let b = same_text rtu.model normal in
    let model : List Write = if b then front_write 0x0C (0x02 ∷ []) ∷ [] else [] in
    let remotes = remote_writes 8 0x04 rtu.remote in
    (
      λ x. refl,
      (
        λ x. refl,
        (
          λ x. refl,
          All-append KeepsPlace remotes (model ++ last) (remote_writes-KeepsPlace 8 0x04 rtu.remote)
              (All-append KeepsPlace model last (model-KeepsPlace b) (λ x. refl, tt)),
        ),
      ),
    )

-- The write of the working mode touches its register only.
model_leaves :
    (b : Bool) (m : ℕ) (x : Item)
    → m < 2 ^ 16
    → (0x0C < m) ⊎ (m < 0x0C)
    → apply_writes (if b then front_write 0x0C (0x02 ∷ []) ∷ [] else []) m x ≡ x
model_leaves true m x h o =
    ap (λ b. if b then set_front (0x02 ∷ []) x else x) (number_ne 0x0C m (omega arith) h o)
model_leaves false m x h o = refl

-- The last writes leave the registers up to the addresses alone.
tail_leaves :
    (rtu : Rtu) (m : ℕ) (x : Item)
    → m < 0x0C
    → apply_writes
        ((if same_text rtu.model normal then front_write 0x0C (0x02 ∷ []) ∷ [] else [])
          ++ val_write 0xFF01 rtu.terminal_type ∷ [])
        m
        x
      ≡ x
tail_leaves rtu m x h =
    let last = val_write 0xFF01 rtu.terminal_type ∷ [] in
    let b = same_text rtu.model normal in
    let model : List Write = if b then front_write 0x0C (0x02 ∷ []) ∷ [] else [] in
    apply_writes-append model last m x
    ∙ ap
        (λ c.
          if c then with_val rtu.terminal_type (apply_writes model m x) else apply_writes model m x)
        (number_ne 0xFF01 m (omega arith) (omega arith) (inr (omega arith)))
    ∙ model_leaves b m x (omega arith) (inr h)

-- The registers of the center and of the password, restored.
pub at-param_recovery :
    (rtu : Rtu) (c : DataClass) (m : ℕ)
    → m < 0x0C
    → is_missing c m ≡ false
    → at (param_recovery rtu c) m
      ≡ apply_writes (remote_writes 8 0x04 rtu.remote) m (
          apply_writes
            (val_write 0x02 (to_l64 (strtoull16 rtu.terminal_no))
              ∷ val_write 0x03 (to_l64 (strtoull16 rtu.passwd))
              ∷ front_write 0x01 (map (λ b. b % 2 ^ 8) (take 4 rtu.center))
              ∷ [])
            m
            (at c m))
at-param_recovery rtu c m h known =
    let last = val_write 0xFF01 rtu.terminal_type ∷ [] in
    let model : List Write =
      if same_text rtu.model normal then front_write 0x0C (0x02 ∷ []) ∷ [] else [] in
    let first : List Write =
      val_write 0x02 (to_l64 (strtoull16 rtu.terminal_no))
      ∷ val_write 0x03 (to_l64 (strtoull16 rtu.passwd))
      ∷ front_write 0x01 (map (λ b. b % 2 ^ 8) (take 4 rtu.center))
      ∷ [] in
    let x = apply_writes first m (at c m) in
    ap (λ k. at k m) (param_recovery-perform rtu c)
    ∙ at-perform_known (param_writes rtu) c m (param_writes-KeepsPlace rtu) known
    ∙ apply_writes-append (remote_writes 8 0x04 rtu.remote) (model ++ last) m x
    ∙ tail_leaves rtu m (apply_writes (remote_writes 8 0x04 rtu.remote) m x) h

-- The writes of the other registers leave the addresses alone.
pub first-leaves :
    (a b : ℤ) (bytes : List ℕ) (m : ℕ) (x : Item)
    → 4 ≤ m
    → m < 2 ^ 16
    → apply_writes (val_write 0x02 a ∷ val_write 0x03 b ∷ front_write 0x01 bytes ∷ []) m x ≡ x
first-leaves a b bytes m x h k =
    ap
      (λ t.
        apply_writes (val_write 0x03 b ∷ front_write 0x01 bytes ∷ []) m
          (if t then with_val a x else x))
      (number_ne 0x02 m (omega arith) k (inl (omega arith)))
    ∙ ap (λ t. apply_writes (front_write 0x01 bytes ∷ []) m (if t then with_val b x else x))
        (number_ne 0x03 m (omega arith) k (inl (omega arith)))
    ∙ ap (λ t. if t then set_front bytes x else x)
        (number_ne 0x01 m (omega arith) k (inl (omega arith)))
