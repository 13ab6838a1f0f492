-- ===== src/Saving/Values.antt =====
-- The running parameters in the settings, `runtime_save` and `runtime_recovery` of
-- app/dataprocess/data_save.cpp.
use yd.Prelude.{
  ℕ, ◌%◌, ◌^◌, ◌<◌, List, [], ◌∷◌, ◌++◌, Option, none, some, Option-cases, Bool, true, false,
  Bool-cases, ◌==◌, if◌then◌else◌, if_either, same_either, All, All-append, ◌≡◌, ◌≢◌, inl, inr,
  refl, sym, subst, ap, ap₂, ◌∙◌, arith, true-ne-false,
}
use yd.Prelude.Int.{ℤ, pos, negsuc}
use yd.Item.{Item, is_zero_item}
use yd.Store.{DataClass, at, modify, find_item}
use yd.Store.Access.{is_missing}
use yd.Store.Replay.{Write, KeepsPlace, perform, apply_writes, at-perform_known}
use yd.Saving.{
  Rtu, with_val, runtime_recovery, runtime_save, save_items, find_entry, replace_entry, put_entry,
  same_l64, is_changed,
}
use yd.Saving.Fields.{not-false}
use yd.Saving.Writes.{val_write}

is_none {ℓ} : {A : Type ℓ} → Option A → Bool
is_none none = true
is_none (some a) = false

none-ne-some {ℓ} : {A : Type ℓ} {a : A} → none ≢ some a
unfolding is_none
none-ne-some p = true-ne-false (ap is_none p)

find_entry-replace :
    (n j : ℕ) (v : ℤ) (m : List (ℕ × ℤ))
    → find_entry (replace_entry n v m) j
      ≡ elim (find_entry m j) [ some w ↦ some (if n == j then v else w) | none ↦ none ]
unfolding find_entry replace_entry
find_entry-replace n j v [] = refl
find_entry-replace n j v ((k, w) ∷ m) = ground (arith, find_entry-replace n j v m)

find_entry-append :
    (n j : ℕ) (v : ℤ) (m : List (ℕ × ℤ))
    → find_entry (m ++ (n, v) ∷ []) j ≡ (if n == j then some v else find_entry m j)
unfolding find_entry
find_entry-append n j v [] = ground arith
find_entry-append n j v ((k, w) ∷ m) = ground (arith, find_entry-append n j v m)

replaced_other :
    (v : ℤ) (b : Bool) (o : Option ℤ)
    → b ≡ false
    → elim o as (λ o. Option ℤ) [ some u ↦ some (if b then v else u) | none ↦ none ] ≡ o
replaced_other v b none h = refl
replaced_other v b (some u) h = ap (λ t. some (if t then v else u)) h

replaced :
    (n j : ℕ) (v w : ℤ) (find : ℕ → Option ℤ)
    → find n ≡ some w
    → elim (find j) as (λ o. Option ℤ) [ some u ↦ some (if n == j then v else u) | none ↦ none ]
      ≡ (if n == j then some v else find j)
replaced n j v w find there = elim (Bool-cases (n == j)) [
  | inl e ↦
      let same : n ≡ j = ground (arith, e) in
      let found : find j ≡ some w = subst (λ k. find k ≡ some w) same there in
      rw found
        (ap (λ b. some (if b then v else w)) e ∙ sym (ap (λ b. if b then some v else some w) e))
  | inr ne ↦ replaced_other v (n == j) (find j) ne ∙ sym (ap (λ b. if b then some v else find j) ne)
]

find_entry-put :
    (n j : ℕ) (v : ℤ) (m : List (ℕ × ℤ))
    → find_entry (put_entry n v m) j ≡ (if n == j then some v else find_entry m j)
unfolding put_entry
find_entry-put n j v m = elim (Option-cases (find_entry m n)) [
  | inl absent ↦ rw (absent, put_entry) (find_entry-append n j v m)
  | inr (w, there) ↦
      rw (there, put_entry) (find_entry-replace n j v m ∙ replaced n j v w (find_entry m) there)
]

-- The value that the items put down for a name, where `o` is what is there before.
abbrev put_down : List Item → ℕ → Option ℤ → Option ℤ
put_down [] n o = o
put_down (x ∷ xs) n o =
    put_down xs n (if is_zero_item x then o else if x.config.id == n then some x.val else o)

same_l64-eq : (a b : ℤ) → same_l64 a b ≡ true → a ≡ b
same_l64-eq (pos a) (pos b) h = ground (arith, h)
same_l64-eq (negsuc a) (negsuc b) h = ground (arith, h)
same_l64-eq (pos a) (negsuc b) h = absurd (true-ne-false (sym h))
same_l64-eq (negsuc a) (pos b) h = absurd (true-ne-false (sym h))

unchanged-eq : (o : Option ℤ) (v : ℤ) → is_changed o v ≡ false → o ≡ some v
unfolding is_changed
unchanged-eq none v h = absurd (true-ne-false h)
unchanged-eq (some w) v h = ap some (same_l64-eq w v (not-false h))

saved_entry :
    (x : Item) (r : Rtu) (n : ℕ)
    → find_entry
        (if is_changed (find_entry r.runtime x.config.id) x.val
          then record r { runtime = put_entry x.config.id x.val r.runtime; dirty = true }
          else r).runtime
        n
      ≡ (if x.config.id == n then some x.val else find_entry r.runtime n)
saved_entry x r n =
    let id = x.config.id in
    if_either
      (λ (s : Rtu).
        find_entry s.runtime n ≡ (if id == n then some x.val else find_entry r.runtime n))
      (is_changed (find_entry r.runtime id) x.val) (λ new. find_entry-put id n x.val r.runtime)
      (λ old.
        let there = unchanged-eq (find_entry r.runtime id) x.val old in
        elim (Bool-cases (id == n)) [
          | inl e ↦
              let same : id ≡ n = ground (arith, e) in
              rw e (subst (λ k. find_entry r.runtime k ≡ some x.val) same there)
          | inr ne ↦ rw ne refl
        ])

find_entry-save_items :
    (xs : List Item) (r : Rtu) (n : ℕ)
    → find_entry (save_items xs r).runtime n ≡ put_down xs n (find_entry r.runtime n)
unfolding save_items
find_entry-save_items [] r n = refl
find_entry-save_items (x ∷ xs) r n =
    let id = x.config.id in
    let saved : Rtu =
      if is_changed (find_entry r.runtime id) x.val
      then record r { runtime = put_entry id x.val r.runtime; dirty = true }
      else r in
    find_entry-save_items xs (if is_zero_item x then r else saved) n
    ∙ ap (put_down xs n) (
        if_either
          (λ (s : Rtu). find_entry s.runtime n ≡ (
            if is_zero_item x
            then find_entry r.runtime n
            else if id == n
            then some x.val
            else find_entry r.runtime n))
          (is_zero_item x)
          (λ zero.
            ap
              (λ b.
                if b
                then find_entry r.runtime n
                else if id == n
                then some x.val
                else find_entry r.runtime n)
              (sym zero))
          (λ full.
            saved_entry x r n
            ∙ ap
                (λ b.
                  if b
                  then find_entry r.runtime n
                  else if id == n
                  then some x.val
                  else find_entry r.runtime n)
                (sym full)))

put_down_absent :
    (xs : List Item) (n : ℕ) (o : Option ℤ) → find_item xs n ≡ none → put_down xs n o ≡ o
unfolding find_item
put_down_absent [] n o h = refl
put_down_absent (x ∷ xs) n o h = elim (Option-cases (find_item xs n)) [
  | inr (z, there) ↦ absurd (none-ne-some {a = z} (sym h ∙ rw there refl))
  | inl absent ↦
      let other : (x.config.id == n) ≡ false = ground (arith, h, absent) in
      ap (λ b. put_down xs n (if is_zero_item x then o else if b then some x.val else o)) other
      ∙ ap (put_down xs n) (same_either (λ (t : Option ℤ). t) (is_zero_item x) refl refl)
      ∙ put_down_absent xs n o absent
]

put_down_found :
    (xs : List Item) (n : ℕ) (o : Option ℤ) (x : Item)
    → find_item xs n ≡ some x
    → is_zero_item x ≡ false
    → put_down xs n o ≡ some x.val
unfolding find_item
put_down_found [] n o x h k = absurd (none-ne-some h)
put_down_found (y ∷ ys) n o x h k = elim (Option-cases (find_item ys n)) [
  | inr (z, there) ↦
      put_down_found ys n (if is_zero_item y then o else if y.config.id == n then some y.val else o)
        x (ground (arith, h, there)) k
  | inl absent ↦
      let here : (y.config.id == n) ≡ true = ground (arith, h, absent) in
      let same : y ≡ x = ground (arith, h, absent) in
      let full : is_zero_item y ≡ false = subst (λ t. is_zero_item t ≡ false) (sym same) k in
      let val : y.val ≡ x.val = ap (λ (t : Item). t.val) same in
      ap₂ (λ a b. put_down ys n (if a then o else if b then some y.val else o)) full here
      ∙ put_down_absent ys n (some y.val) absent
      ∙ ap some val
]

-- The writes that restore the running parameters.
abbrev entry_writes : List (ℕ × ℤ) → List Write
entry_writes [] = []
entry_writes ((k, v) ∷ m) = val_write k v ∷ entry_writes m

runtime_recovery-perform :
    (m : List (ℕ × ℤ)) (q : DataClass) → runtime_recovery m q ≡ perform (entry_writes m) q
unfolding runtime_recovery perform
runtime_recovery-perform [] q = refl
runtime_recovery-perform ((k, v) ∷ m) q = runtime_recovery-perform m (modify q k (with_val v))

entry_writes-KeepsPlace : (m : List (ℕ × ℤ)) → All KeepsPlace (entry_writes m)
entry_writes-KeepsPlace [] = tt
entry_writes-KeepsPlace ((k, v) ∷ m) = (λ x. refl, entry_writes-KeepsPlace m)

-- Identifiers of 16 bits.
abbrev pub ShortKeys : List (ℕ × ℤ) → Type 0
ShortKeys m = All (λ e. e.0 < 2 ^ 16) m

abbrev pub ShortIds : List Item → Type 0
ShortIds xs = All (λ x. x.config.id < 2 ^ 16) xs

last_entry :
    (o : Option ℤ) (b : Bool) (v : ℤ) (x : Item)
    → elim o as (λ t. ℤ) [ some u ↦ u | none ↦ (if b then with_val v x else x).val ]
      ≡ elim (elim o as (λ t. Option ℤ) [ some w ↦ some w | none ↦ if b then some v else none ])
          as (λ t. ℤ) [ some u ↦ u | none ↦ x.val ]
last_entry (some u) b v x = refl
last_entry none true v x = refl
last_entry none false v x = refl

-- The last entry of a name decides.
entry_restored :
    (m : List (ℕ × ℤ)) (n : ℕ) (x : Item)
    → n < 2 ^ 16
    → ShortKeys m
    → (apply_writes (entry_writes m) n x).val ≡ elim (find_entry m n) [ some v ↦ v | none ↦ x.val ]
unfolding find_entry
entry_restored [] n x h short = refl
entry_restored ((k, v) ∷ m) n x h (first, short) =
    let y = if k == n then with_val v x else x in
    let small_k : k % 2 ^ 16 ≡ k = omega arith in
    let small_n : n % 2 ^ 16 ≡ n = omega arith in
    ap (λ b. (apply_writes (entry_writes m) n (if b then with_val v x else x)).val)
      (ap₂ (λ a b. a == b) small_k small_n)
    ∙ entry_restored m n y h short
    ∙ last_entry (find_entry m n) (k == n) v x

replace_entry-ShortKeys :
    (n : ℕ) (v : ℤ) (m : List (ℕ × ℤ)) → ShortKeys m → ShortKeys (replace_entry n v m)
unfolding replace_entry
replace_entry-ShortKeys n v [] h = tt
replace_entry-ShortKeys n v ((k, w) ∷ m) (first, short) =
    (first, replace_entry-ShortKeys n v m short)

put_entry-ShortKeys :
    (n : ℕ) (v : ℤ) (m : List (ℕ × ℤ)) → n < 2 ^ 16 → ShortKeys m → ShortKeys (put_entry n v m)
unfolding put_entry
put_entry-ShortKeys n v m h short =
    elim (find_entry m n)
      as (λ o. ShortKeys (elim o [ some w ↦ replace_entry n v m | none ↦ m ++ (n, v) ∷ [] ])) [
        | some w ↦ replace_entry-ShortKeys n v m short
        | none ↦ All-append (λ e. e.0 < 2 ^ 16) m ((n, v) ∷ []) short (h, tt)
      ]

save_items-ShortKeys :
    (xs : List Item) (r : Rtu)
    → ShortIds xs
    → ShortKeys r.runtime
    → ShortKeys (save_items xs r).runtime
unfolding save_items
save_items-ShortKeys [] r ids short = short
save_items-ShortKeys (x ∷ xs) r (first, ids) short =
    let id = x.config.id in
    let saved : Rtu =
      if is_changed (find_entry r.runtime id) x.val
      then record r { runtime = put_entry id x.val r.runtime; dirty = true }
      else r in
    save_items-ShortKeys xs (if is_zero_item x then r else saved) ids (
      if_either (λ (s : Rtu). ShortKeys s.runtime) (is_zero_item x) (λ zero. short)
        (λ full.
          if_either (λ (s : Rtu). ShortKeys s.runtime) (is_changed (find_entry r.runtime id) x.val)
            (λ new. put_entry-ShortKeys id x.val r.runtime first short) (λ old. short)))

-- The running parameters come back: a parameter that has a value when the settings are saved has the
-- same value behind the restoring, into any table that has it, whatever the settings held before.
pub runtime_recovery-runtime_save :
    (c q : DataClass) (r : Rtu) (n : ℕ) (x : Item)
    → find_item c.items n ≡ some x
    → is_zero_item x ≡ false
    → n < 2 ^ 16
    → ShortIds c.items
    → ShortKeys r.runtime
    → is_missing q n ≡ false
    → (at (runtime_recovery (runtime_save c r).runtime q) n).val ≡ x.val
unfolding runtime_save
runtime_recovery-runtime_save c q r n x found full h ids short known =
    let m = (save_items c.items r).runtime in
    let there : find_entry m n ≡ some x.val =
      find_entry-save_items c.items r n
      ∙ put_down_found c.items n (find_entry r.runtime n) x found full in
    ap (λ k. (at k n).val) (runtime_recovery-perform m q)
    ∙ ap (λ y. y.val) (at-perform_known (entry_writes m) q n (entry_writes-KeepsPlace m) known)
    ∙ entry_restored m n (at q n) h (save_items-ShortKeys c.items r ids short)
    ∙ ap (λ o. elim o [ some v ↦ v | none ↦ (at q n).val ]) there
