-- ===== src/Prelude/Slices.antt =====
-- Lists cut in consecutive pieces.
use yd.Prelude.{
  ℕ, zero, suc, min, ◌+◌, ◌≤◌, List, [], ◌∷◌, ◌++◌, take, drop, length, ◌≡◌, refl, sym, ap, ◌∙◌,
  arith,
}

module _ {ℓ} {A : Type ℓ} where
  take_nil : (n : ℕ) → take {A = A} n [] ≡ []
  take_nil zero = refl
  take_nil (suc n) = refl

  drop_nil : (n : ℕ) → drop {A = A} n [] ≡ []
  drop_nil zero = refl
  drop_nil (suc n) = refl

  pub take_add : (n m : ℕ) (xs : List A) → take (n + m) xs ≡ take n xs ++ take m (drop n xs)
  take_add zero m xs = ap (λ k. take k xs) (omega arith)
  take_add (suc n) m [] = let e : suc n + m ≡ suc (n + m) = omega arith in rw e (sym (take_nil m))
  take_add (suc n) m (x ∷ xs) =
      let e : suc n + m ≡ suc (n + m) = omega arith in rw e (ap (λ t. x ∷ t) (take_add n m xs))

  pub drop_add : (n m : ℕ) (xs : List A) → drop (n + m) xs ≡ drop m (drop n xs)
  drop_add zero m xs = ap (λ k. drop k xs) (omega arith)
  drop_add (suc n) m [] = let e : suc n + m ≡ suc (n + m) = omega arith in rw e (sym (drop_nil m))
  drop_add (suc n) m (x ∷ xs) =
      let e : suc n + m ≡ suc (n + m) = omega arith in rw e (drop_add n m xs)

  pub take-append_within : (n : ℕ) (xs ys : List A) → n ≤ length xs → take n (xs ++ ys) ≡ take n xs
  take-append_within zero xs ys h = refl
  take-append_within (suc n) [] ys h = absurd (omega arith)
  take-append_within (suc n) (x ∷ xs) ys h =
      ap (λ t. x ∷ t) (take-append_within n xs ys (omega arith))

  pub take-min : (n : ℕ) (xs : List A) → take (min (length xs) n) xs ≡ take n xs
  take-min n [] = take_nil (min 0 n) ∙ sym (take_nil n)
  take-min zero (x ∷ xs) = let e : min (length (x ∷ xs)) 0 ≡ 0 = omega arith in rw e
  take-min (suc n) (x ∷ xs) =
      let e : min (length (x ∷ xs)) (suc n) ≡ suc (min (length xs) n) = omega arith in
      rw e (ap (λ t. x ∷ t) (take-min n xs))
