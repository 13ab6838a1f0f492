-- ===== src/Codec/Order/Reverse.antt =====
-- The copies and the in-place loop of lib/lib.cpp all reverse their buffer.
use mathlib.Core.List.{reverse-cons}
use yd.Prelude.{
  ℕ, zero, suc, ◌+◌, ◌-◌, ◌/◌, ◌≤◌, ◌<◌, List, [], ◌∷◌, ◌++◌, reverse, get_or, set, length,
  length-set, get_or-set_self, get_or-set_ne, get_or_ext, ◌≡◌, ◌≢◌, ◌⊎◌, inl, inr, refl, sym, ap,
  ◌∙◌, arith, Bool-cases, ==_iff, ==_ne, ◌==◌,
}
use yd.Codec.Order.{little2big, inverseto, inverseto_loop, swap_ends, inverse, inverse_loop}

little2big-cons :
    (x : ℕ) (xs : List ℕ) (n : ℕ) → little2big (x ∷ xs) (suc n) ≡ little2big xs n ++ x ∷ []
unfolding little2big
little2big-cons x xs zero = refl
little2big-cons x xs (suc n) = ap (λ t. get_or xs n 0 ∷ t) (little2big-cons x xs n)

-- `little2big` of a whole buffer is its reverse.
pub little2big-reverse : (xs : List ℕ) → little2big xs (length xs) ≡ reverse xs
unfolding little2big
little2big-reverse [] = refl
little2big-reverse (x ∷ xs) =
    little2big-cons x xs (length xs) ∙ rw (little2big-reverse xs, reverse-cons)

inverseto_loop-little2big :
    (xs : List ℕ) (len n i : ℕ) → i + n ≡ len → inverseto_loop xs len n i ≡ little2big xs n
unfolding inverseto_loop little2big
inverseto_loop-little2big xs len zero i e = refl
inverseto_loop-little2big xs len (suc n) i e =
    let at : len - 1 - i ≡ n = omega arith in
    rw at (ap (λ t. get_or xs n 0 ∷ t) (inverseto_loop-little2big xs len n (i + 1) (omega arith)))

pub inverseto-little2big : (xs : List ℕ) (len : ℕ) → inverseto xs len ≡ little2big xs len
unfolding inverseto
inverseto-little2big xs len = inverseto_loop-little2big xs len len 0 (omega arith)

length-swap_ends : (xs : List ℕ) (len i : ℕ) → length (swap_ends xs len i) ≡ length xs
unfolding swap_ends
length-swap_ends xs len i =
    length-set (set xs i (get_or xs (len - 1 - i) 0)) (len - 1 - i) (get_or xs i 0)
    ∙ length-set xs i (get_or xs (len - 1 - i) 0)

-- The three kinds of cell after a swap.
swap_ends_high :
    (xs : List ℕ) (len i : ℕ)
    → length xs ≡ len
    → i < len / 2
    → get_or (swap_ends xs len i) (len - 1 - i) 0 ≡ get_or xs i 0
unfolding swap_ends
swap_ends_high xs len i e h =
    get_or-set_self (set xs i (get_or xs (len - 1 - i) 0)) (len - 1 - i) (get_or xs i 0) 0
      (omega (arith, length-set xs i (get_or xs (len - 1 - i) 0)))

swap_ends_low :
    (xs : List ℕ) (len i : ℕ)
    → length xs ≡ len
    → i < len / 2
    → get_or (swap_ends xs len i) i 0 ≡ get_or xs (len - 1 - i) 0
unfolding swap_ends
swap_ends_low xs len i e h =
    get_or-set_ne (set xs i (get_or xs (len - 1 - i) 0)) (len - 1 - i) i (get_or xs i 0) 0
      (omega arith)
    ∙ get_or-set_self xs i (get_or xs (len - 1 - i) 0) 0 (omega arith)

swap_ends_other :
    (xs : List ℕ) (len i j : ℕ)
    → j ≢ i
    → j ≢ len - 1 - i
    → get_or (swap_ends xs len i) j 0 ≡ get_or xs j 0
unfolding swap_ends
swap_ends_other xs len i j h k =
    get_or-set_ne (set xs i (get_or xs (len - 1 - i) 0)) (len - 1 - i) j (get_or xs i 0) 0
      (λ e. k (sym e))
    ∙ get_or-set_ne xs i j (get_or xs (len - 1 - i) 0) 0 (λ e. h (sym e))

length-inverse_loop : (n i len : ℕ) (xs : List ℕ) → length (inverse_loop n i len xs) ≡ length xs
unfolding inverse_loop
length-inverse_loop zero i len xs = refl
length-inverse_loop (suc n) i len xs =
    length-inverse_loop n (i + 1) len (swap_ends xs len i) ∙ length-swap_ends xs len i

-- The rounds left do not touch what lies outside `i .. len - 1 - i`.
inverse_loop_outside :
    (n i len j : ℕ) (xs : List ℕ)
    → i + n ≡ len / 2
    → (j < i) ⊎ (len < j + 1 + i)
    → get_or (inverse_loop n i len xs) j 0 ≡ get_or xs j 0
unfolding inverse_loop
inverse_loop_outside zero i len j xs e h = refl
inverse_loop_outside (suc n) i len j xs e h =
    inverse_loop_outside n (i + 1) len j (swap_ends xs len i) (omega arith) (omega arith)
    ∙ swap_ends_other xs len i j (omega arith) (omega arith)

-- They mirror what lies inside.
inverse_loop_inside :
    (n i len j : ℕ) (xs : List ℕ)
    → i + n ≡ len / 2
    → length xs ≡ len
    → i ≤ j
    → j + i < len
    → get_or (inverse_loop n i len xs) j 0 ≡ get_or xs (len - 1 - j) 0
unfolding inverse_loop
inverse_loop_inside zero i len j xs e el h k = ap (λ t. get_or xs t 0) (omega arith)
inverse_loop_inside (suc n) i len j xs e el h k = elim (Bool-cases (j == i)) [
  | inl low ↦
      let at : j ≡ i = (==_iff j i).0 low in
      inverse_loop_outside n (i + 1) len j (swap_ends xs len i) (omega arith) (omega arith)
      ∙ rw at (swap_ends_low xs len i el (omega arith))
  | inr notlow ↦ elim (Bool-cases (j == len - 1 - i)) [
    | inl high ↦
        let at : j ≡ len - 1 - i = (==_iff j (len - 1 - i)).0 high in
        let back : len - 1 - (len - 1 - i) ≡ i = omega arith in
        inverse_loop_outside n (i + 1) len j (swap_ends xs len i) (omega arith) (omega arith)
        ∙ rw at (rw back (swap_ends_high xs len i el (omega arith)))
    | inr nothigh ↦
        let a = ==_ne j i notlow in
        let b = ==_ne j (len - 1 - i) nothigh in
        inverse_loop_inside n (i + 1) len j (swap_ends xs len i) (omega arith)
          (length-swap_ends xs len i ∙ el) (omega arith) (omega arith)
        ∙ swap_ends_other xs len i (len - 1 - j) (omega arith) (omega arith)
  ]
]

get_or-little2big :
    (xs : List ℕ) (n j : ℕ) → j < n → get_or (little2big xs n) j 0 ≡ get_or xs (n - 1 - j) 0
unfolding little2big
get_or-little2big xs zero j h = absurd (omega arith)
get_or-little2big xs (suc n) zero h = ap (λ t. get_or xs t 0) (omega arith)
get_or-little2big xs (suc n) (suc j) h =
    get_or-little2big xs n j (omega arith) ∙ ap (λ t. get_or xs t 0) (omega arith)

pub length-little2big : (xs : List ℕ) (n : ℕ) → length (little2big xs n) ≡ n
unfolding little2big
length-little2big xs zero = refl
length-little2big xs (suc n) = ap suc (length-little2big xs n)

-- The loop of swaps in place and the two copying loops agree, and all reverse the buffer.
pub inverse-reverse :
    (xs : List ℕ)
    → (inverse xs (length xs) ≡ reverse xs)
      × (inverseto xs (length xs) ≡ reverse xs)
      × (little2big xs (length xs) ≡ reverse xs)
unfolding inverse
inverse-reverse xs =
    let whole = length xs in
    let swapped : inverse_loop (whole / 2) 0 whole xs ≡ little2big xs whole =
      get_or_ext 0 (inverse_loop (whole / 2) 0 whole xs) (little2big xs whole)
        (length-inverse_loop (whole / 2) 0 whole xs ∙ sym (length-little2big xs whole))
        (λ j lt.
          let inside : j < whole = omega (arith, length-inverse_loop (whole / 2) 0 whole xs) in
          inverse_loop_inside (whole / 2) 0 whole j xs (omega arith) refl (omega arith)
            (omega arith)
          ∙ sym (get_or-little2big xs whole j inside)) in
    (
      swapped ∙ little2big-reverse xs,
      inverseto-little2big xs whole ∙ little2big-reverse xs,
      little2big-reverse xs,
    )
