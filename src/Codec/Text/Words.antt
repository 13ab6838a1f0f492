-- ===== src/Codec/Text/Words.antt =====
-- Words merged with a separator and split again, lib/lib.cpp.
use mathlib.Core.List.{append_assoc}
use yd.Prelude.{
  ℕ, zero, suc, ◌+◌, ◌≤◌, ◌<◌, List, [], ◌∷◌, ◌++◌, drop, length, length-append, take-append, some,
  All, ◌≡◌, ◌≢◌, refl, ap, ◌∙◌, arith,
}
use yd.Codec.Text.{list_merge, begins, find, split_loop, split}

-- A word of the lists that the program keeps: some characters, none of them the separator.
record IsWord (sep : ℕ) (w : List ℕ) : Type 0 where
  pub nonempty : 0 < length w
  pub clean : All (λ c. c ≢ sep) w

find_sep :
    (sep : ℕ) (w rest : List ℕ)
    → All (λ c. c ≢ sep) w
    → find (sep ∷ []) (w ++ sep ∷ rest) ≡ some (length w)
unfolding find begins
find_sep sep [] rest h = ground arith
find_sep sep (c ∷ w) rest h = let ne = h.0 in rw (find_sep sep w rest h.1) (ground arith)

drop_past {ℓ} :
    {A : Type ℓ} (xs : List A) (x : A) (rest : List A)
    → drop (suc (length xs)) (xs ++ x ∷ rest) ≡ rest
drop_past [] x rest = refl
drop_past (y ∷ xs) x rest = drop_past xs x rest

split_word :
    (fuel sep : ℕ) (w rest : List ℕ)
    → IsWord sep w
    → split_loop (suc fuel) (w ++ sep ∷ rest) (sep ∷ []) ≡ w ∷ split_loop fuel rest (sep ∷ [])
unfolding split_loop
split_word fuel sep [] rest h = absurd (omega (arith, h.nonempty))
split_word fuel sep (c ∷ w) rest h =
    let at = find_sep sep (c ∷ w) rest h.clean in
    let past : length (c ∷ w) + 1 ≡ suc (length (c ∷ w)) = omega arith in
    rw (at, split_loop)
      (rw (take-append w (sep ∷ rest)) (
        ap (λ t. (c ∷ w) ∷ split_loop fuel t (sep ∷ []))
          (ap (λ n. drop n ((c ∷ w) ++ sep ∷ rest)) past ∙ drop_past (c ∷ w) sep rest)))

end_of_words : (fuel sep : ℕ) → split_loop fuel (sep ∷ []) (sep ∷ []) ≡ []
unfolding split_loop find begins
end_of_words zero sep = refl
end_of_words (suc zero) sep = ground arith
end_of_words (suc (suc fuel)) sep = ground arith

merged_next :
    (sep : ℕ) (w : List ℕ) (words : List (List ℕ))
    → list_merge (w ∷ words) (sep ∷ []) ++ sep ∷ []
      ≡ w ++ sep ∷ (list_merge words (sep ∷ []) ++ sep ∷ [])
unfolding list_merge
merged_next sep w words = append_assoc w (sep ∷ list_merge words (sep ∷ [])) (sep ∷ [])

split_merged :
    (fuel sep : ℕ) (words : List (List ℕ))
    → All (IsWord sep) words
    → length (list_merge words (sep ∷ []) ++ sep ∷ []) ≤ fuel
    → split_loop fuel (list_merge words (sep ∷ []) ++ sep ∷ []) (sep ∷ []) ≡ words
unfolding list_merge
split_merged fuel sep [] h enough = end_of_words fuel sep
split_merged zero sep (w ∷ words) h enough =
    absurd (omega (arith, enough, length-append (list_merge (w ∷ words) (sep ∷ [])) (sep ∷ [])))
split_merged (suc fuel) sep (w ∷ words) h enough =
    let shape = merged_next sep w words in
    let size =
      ap length shape ∙ length-append w (sep ∷ (list_merge words (sep ∷ []) ++ sep ∷ [])) in
    rw shape (
      split_word fuel sep w (list_merge words (sep ∷ []) ++ sep ∷ []) h.0
      ∙ ap (λ l. w ∷ l) (split_merged fuel sep words h.1 (omega arith)))

-- Words that are not empty and do not hold the separator come back from the text that they were
-- merged into, in their order, and the fuel of `split` is enough for that.
split-list_merge :
    (sep : ℕ) (words : List (List ℕ))
    → All (IsWord sep) words
    → split (list_merge words (sep ∷ [])) (sep ∷ []) ≡ words
unfolding split
split-list_merge sep words h =
    split_merged (length (list_merge words (sep ∷ []) ++ sep ∷ [])) sep words h (omega arith)
