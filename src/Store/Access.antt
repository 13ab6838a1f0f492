-- ===== src/Store/Access.antt =====
-- Reading and writing items by their identifiers, `operator[]` of data/DataClass.hpp.
use yd.Prelude.{
  ℕ, ◌%◌, ◌^◌, List, [], ◌∷◌, none, some, Option-cases, Bool, true, false, Bool-cases, ◌==◌, ◌&&◌,
  ◌||◌, if◌then◌else◌, ◌≡◌, ◌⊎◌, inl, inr, refl, sym, subst, ap, ap₂, ◌∙◌, arith,
}
use yd.Item.{Item}
use yd.Store.{DataClass, find_item, modify_item, at, modify}

-- Is the identifier in none of the table's lines?
abbrev pub is_missing : DataClass → ℕ → Bool
is_missing c nn = elim (find_item c.items (nn % 2 ^ 16)) [ some x ↦ false | none ↦ true ]

-- Do two numbers reach the same item?
abbrev pub same_item : DataClass → ℕ → ℕ → Bool
same_item c n m = (n % 2 ^ 16 == m % 2 ^ 16) || (is_missing c n && is_missing c m)

-- A change that leaves an item its place in the table.
abbrev pub Keeps : (Item → Item) → Type 0
Keeps f = (x : Item) → (f x).config ≡ x.config

-- A write that reaches an item: the table behind it, the item it reached, and what is found then.
record Written (xs : List Item) (n : ℕ) (f : Item → Item) : Type 0 where
  after : List Item
  target : Item
  modified : modify_item xs n f ≡ some after
  found : find_item xs n ≡ some target
  same : find_item after n ≡ some (f target)
  other : (m : ℕ) → (n == m) ≡ false → find_item after m ≡ find_item xs m

write_here :
    (x : Item) (xs : List Item) (n : ℕ) (f : Item → Item)
    → Keeps f
    → modify_item xs n f ≡ none
    → find_item xs n ≡ none
    → (x.config.id == n) ≡ true
    → Written (x ∷ xs) n f
unfolding find_item modify_item
write_here x xs n f keep m e h =
    let k : ((f x).config.id == n) ≡ true = ap (λ c. c.id == n) (keep x) ∙ h in
    record {
      after = f x ∷ xs;
      target = x;
      modified = rw (m, h);
      found = rw (e, h);
      same = rw (e, k);
      other = λ j ne.
          let id : x.config.id ≡ n = ground (arith, h) in
          let k2 : (x.config.id == j) ≡ false = rw id ne in
          let k1 : ((f x).config.id == j) ≡ false = ap (λ c. c.id == j) (keep x) ∙ k2 in
          elim (Option-cases (find_item xs j)) [ inl e0 ↦ rw (e0, k1, k2) | inr (z, e0) ↦ rw e0 ];
    }

write_there :
    (x : Item) (xs : List Item) (n : ℕ) (f : Item → Item) → Written xs n f → Written (x ∷ xs) n f
unfolding find_item modify_item
write_there x xs n f w = record {
  after = x ∷ w.after;
  target = w.target;
  modified = rw (w.modified);
  found = rw (w.found);
  same = rw (w.same);
  other = λ j ne. rw (w.other j ne);
}

-- A write changes the item that a read finds, and fails where a read finds none.
write_cases :
    (xs : List Item) (n : ℕ) (f : Item → Item)
    → Keeps f
    → ((modify_item xs n f ≡ none) × (find_item xs n ≡ none)) ⊎ Written xs n f
unfolding find_item modify_item
write_cases [] n f keep = inl (refl, refl)
write_cases (x ∷ xs) n f keep = elim (write_cases xs n f keep) [
  | inr w ↦ inr (write_there x xs n f w)
  | inl (m, e) ↦ elim (Bool-cases (x.config.id == n)) [
    | inl h ↦ inr (write_here x xs n f keep m e h)
    | inr h ↦ inl (rw (m, h), rw (e, h))
  ]
]

pub at_found :
    (c : DataClass) (m : ℕ) (x : Item) → find_item c.items (m % 2 ^ 16) ≡ some x → at c m ≡ x
unfolding at
at_found c m x e = ap (λ o. elim o [ some y ↦ y | none ↦ c.nitem ]) e

at_missing : (c : DataClass) (m : ℕ) → find_item c.items (m % 2 ^ 16) ≡ none → at c m ≡ c.nitem
unfolding at
at_missing c m e = ap (λ o. elim o [ some y ↦ y | none ↦ c.nitem ]) e

is_missing_found :
    (c : DataClass) (n : ℕ) (x : Item)
    → find_item c.items (n % 2 ^ 16) ≡ some x
    → is_missing c n ≡ false
is_missing_found c n x e = ap (λ o. elim o [ some y ↦ false | none ↦ true ]) e

is_missing_unknown :
    (c : DataClass) (n : ℕ) → find_item c.items (n % 2 ^ 16) ≡ none → is_missing c n ≡ true
is_missing_unknown c n e = ap (λ o. elim o [ some y ↦ false | none ↦ true ]) e

modify_found :
    (c : DataClass) (n : ℕ) (f : Item → Item) (w : Written c.items (n % 2 ^ 16) f)
    → modify c n f ≡ record c { items = w.after }
unfolding modify
modify_found c n f w =
    ap (λ o. elim o [ some xs ↦ record c { items = xs } | none ↦ record c { nitem = f c.nitem } ])
      w.modified

modify_missing :
    (c : DataClass) (n : ℕ) (f : Item → Item)
    → modify_item c.items (n % 2 ^ 16) f ≡ none
    → modify c n f ≡ record c { nitem = f c.nitem }
unfolding modify
modify_missing c n f e =
    ap (λ o. elim o [ some xs ↦ record c { items = xs } | none ↦ record c { nitem = f c.nitem } ]) e

at-modify_found :
    (c : DataClass) (n m : ℕ) (f : Item → Item)
    → (w : Written c.items (n % 2 ^ 16) f)
    → at (record c { items = w.after }) m ≡ (if same_item c n m then f (at c m) else at c m)
unfolding at
at-modify_found c n m f w = elim (Bool-cases (n % 2 ^ 16 == m % 2 ^ 16)) [
  | inl e ↦
      let id : n % 2 ^ 16 ≡ m % 2 ^ 16 = ground (arith, e) in
      let s : same_item c n m ≡ true = ap (λ b. b || (is_missing c n && is_missing c m)) e in
      let before : at c m ≡ w.target =
        at_found c m w.target (subst (λ k. find_item c.items k ≡ some w.target) id w.found) in
      let after =
        at_found (record c { items = w.after }) m (f w.target)
          (subst (λ k. find_item w.after k ≡ some (f w.target)) id w.same) in
      rw (s, before) after
  | inr e ↦
      let here = is_missing_found c n w.target w.found in
      let s : same_item c n m ≡ false = ap₂ (λ a b. a || (b && is_missing c m)) e here in
      rw s (ap (λ o. elim o [ some x ↦ x | none ↦ c.nitem ]) (w.other (m % 2 ^ 16) e))
]

or_true : (b : Bool) → (b || true) ≡ true
or_true true = refl
or_true false = refl

at-modify_missing :
    (c : DataClass) (n m : ℕ) (f : Item → Item)
    → find_item c.items (n % 2 ^ 16) ≡ none
    → at (record c { nitem = f c.nitem }) m ≡ (if same_item c n m then f (at c m) else at c m)
at-modify_missing c n m f none_n =
    let here = is_missing_unknown c n none_n in
    elim (Option-cases (find_item c.items (m % 2 ^ 16))) [
      | inl none_m ↦
          let there = is_missing_unknown c m none_m in
          let s : same_item c n m ≡ true =
            ap₂ (λ a b. (n % 2 ^ 16 == m % 2 ^ 16) || (a && b)) here there
            ∙ or_true (n % 2 ^ 16 == m % 2 ^ 16) in
          rw (s, at_missing c m none_m) (at_missing (record c { nitem = f c.nitem }) m none_m)
      | inr (x, found_m) ↦
          let there = is_missing_found c m x found_m in
          elim (Bool-cases (n % 2 ^ 16 == m % 2 ^ 16)) [
            | inl e ↦
                let id : n % 2 ^ 16 ≡ m % 2 ^ 16 = ground (arith, e) in
                let both = subst (λ k. find_item c.items k ≡ none) id none_n in absurd (cc)
            | inr e ↦
                let s : same_item c n m ≡ false =
                  ap₂ (λ a b. a || (is_missing c n && b)) e there ∙ ap (λ a. a && false) here in
                rw (s, at_found c m x found_m)
                  (at_found (record c { nitem = f c.nitem }) m x found_m)
          ]
    ]

-- Reading any number behind a write of an item: the item the write reached is the changed one, all
-- others are as before. The numbers count modulo 2^16, and all unknown numbers share one item.
pub at-modify :
    (c : DataClass) (n m : ℕ) (f : Item → Item)
    → Keeps f
    → at (modify c n f) m ≡ (if same_item c n m then f (at c m) else at c m)
at-modify c n m f keep = elim (write_cases c.items (n % 2 ^ 16) f keep) [
  | inr w ↦ rw (modify_found c n f w) (at-modify_found c n m f w)
  | inl (e, none_n) ↦ rw (modify_missing c n f e) (at-modify_missing c n m f none_n)
]

-- A write that keeps the configurations makes no number known or unknown.
pub is_missing-modify :
    (c : DataClass) (n m : ℕ) (f : Item → Item)
    → Keeps f
    → is_missing (modify c n f) m ≡ is_missing c m
is_missing-modify c n m f keep = elim (write_cases c.items (n % 2 ^ 16) f keep) [
  | inl (e, none_n) ↦ ap (λ k. is_missing k m) (modify_missing c n f e)
  | inr w ↦
      ap (λ k. is_missing k m) (modify_found c n f w)
      ∙ elim (Bool-cases (n % 2 ^ 16 == m % 2 ^ 16)) [
        | inr e ↦ ap (λ o. elim o [ some x ↦ false | none ↦ true ]) (w.other (m % 2 ^ 16) e)
        | inl e ↦
            let id : n % 2 ^ 16 ≡ m % 2 ^ 16 = ground (arith, e) in
            is_missing_found (record c { items = w.after }) m (f w.target)
              (subst (λ k. find_item w.after k ≡ some (f w.target)) id w.same)
            ∙ sym (
                is_missing_found c m w.target
                  (subst (λ k. find_item c.items k ≡ some w.target) id w.found))
      ]
]
