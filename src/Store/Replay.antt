-- ===== src/Store/Replay.antt =====
-- Sequences of writes to a table of items, against the values that an abstract replay computes for
-- each number by itself; data/DataClass.hpp.
use yd.Prelude.{
  ℕ, ◌%◌, ◌^◌, List, [], ◌∷◌, ◌==◌, ◌&&◌, ◌||◌, Bool, true, false, ◌++◌, if◌then◌else◌, same_either,
  All, ◌≡◌, refl, ap, ap₂, ◌∙◌,
}
use yd.Item.{Item}
use yd.Store.{DataClass, at, modify}
use yd.Store.Access.{same_item, is_missing, Keeps, at-modify, is_missing-modify}

-- A write: the number it names, and the change.
pub record Write : Type 0 where
  pub number : ℕ
  pub change : Item → Item

abbrev pub KeepsPlace : Write → Type 0
KeepsPlace w = Keeps w.change

unfoldable pub perform : List Write → DataClass → DataClass
perform [] c = c
perform (w ∷ ws) c = perform ws (modify c w.number w.change)

-- What the writes make of the value `x` of number `m`, in a table whose numbers are those of `c`.
unfoldable pub replay : DataClass → List Write → ℕ → Item → Item
replay c [] m x = x
replay c (w ∷ ws) m x = replay c ws m (if same_item c w.number m then w.change x else x)

same_item-modify :
    (c : DataClass) (n : ℕ) (f : Item → Item) (i j : ℕ)
    → Keeps f
    → same_item (modify c n f) i j ≡ same_item c i j
same_item-modify c n f i j keep =
    ap₂ (λ a b. (i % 2 ^ 16 == j % 2 ^ 16) || (a && b)) (is_missing-modify c n i f keep)
      (is_missing-modify c n j f keep)

replay-modify :
    (ws : List Write) (c : DataClass) (n : ℕ) (f : Item → Item) (m : ℕ) (x : Item)
    → Keeps f
    → replay (modify c n f) ws m x ≡ replay c ws m x
unfolding replay
replay-modify [] c n f m x keep = refl
replay-modify (w ∷ ws) c n f m x keep =
    replay-modify ws c n f m (if same_item (modify c n f) w.number m then w.change x else x) keep
    ∙ ap (λ b. replay c ws m (if b then w.change x else x)) (same_item-modify c n f w.number m keep)

-- The table implements its abstract view, a value for every number: reading number m behind any
-- writes that keep the configurations gives what replaying the writes on the value of m alone gives.
pub at-perform :
    (ws : List Write) (c : DataClass) (m : ℕ)
    → All KeepsPlace ws
    → at (perform ws c) m ≡ replay c ws m (at c m)
unfolding perform replay
at-perform [] c m keep = refl
at-perform (w ∷ ws) c m keep =
    at-perform ws (modify c w.number w.change) m keep.1
    ∙ replay-modify ws c w.number w.change m (at (modify c w.number w.change) m) keep.0
    ∙ ap (λ x. replay c ws m x) (at-modify c w.number m w.change keep.0)

-- What the writes make of register `m`, which the table has.
abbrev pub apply_writes : List Write → ℕ → Item → Item
apply_writes [] m x = x
apply_writes (w ∷ ws) m x =
    apply_writes ws m (if w.number % 2 ^ 16 == m % 2 ^ 16 then w.change x else x)

pub apply_writes-append :
    (ws vs : List Write) (m : ℕ) (x : Item)
    → apply_writes (ws ++ vs) m x ≡ apply_writes vs m (apply_writes ws m x)
apply_writes-append [] vs m x = refl
apply_writes-append (w ∷ ws) vs m x =
    apply_writes-append ws vs m (if w.number % 2 ^ 16 == m % 2 ^ 16 then w.change x else x)

or_and_false : (a b : Bool) → (a || (b && false)) ≡ a
or_and_false true b = refl
or_and_false false true = refl
or_and_false false false = refl

replay-known :
    (c : DataClass) (ws : List Write) (m : ℕ) (x : Item)
    → is_missing c m ≡ false
    → replay c ws m x ≡ apply_writes ws m x
unfolding replay
replay-known c [] m x h = refl
replay-known c (w ∷ ws) m x h =
    let one : same_item c w.number m ≡ (w.number % 2 ^ 16 == m % 2 ^ 16) =
      ap (λ b. (w.number % 2 ^ 16 == m % 2 ^ 16) || (is_missing c w.number && b)) h
      ∙ or_and_false (w.number % 2 ^ 16 == m % 2 ^ 16) (is_missing c w.number) in
    ap (λ b. replay c ws m (if b then w.change x else x)) one
    ∙ replay-known c ws m (if w.number % 2 ^ 16 == m % 2 ^ 16 then w.change x else x) h

-- Reading a register that the table has, behind writes.
pub at-perform_known :
    (ws : List Write) (c : DataClass) (m : ℕ)
    → All KeepsPlace ws
    → is_missing c m ≡ false
    → at (perform ws c) m ≡ apply_writes ws m (at c m)
at-perform_known ws c m keep h = at-perform ws c m keep ∙ replay-known c ws m (at c m) h

pub apply_writes-config :
    (ws : List Write) (m : ℕ) (x : Item)
    → All KeepsPlace ws
    → (apply_writes ws m x).config ≡ x.config
apply_writes-config [] m x keep = refl
apply_writes-config (w ∷ ws) m x keep =
    let here = w.number % 2 ^ 16 == m % 2 ^ 16 in
    apply_writes-config ws m (if here then w.change x else x) keep.1
    ∙ same_either (λ (y : Item). y.config) here (keep.0 x) refl
