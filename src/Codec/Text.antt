-- ===== src/Codec/Text.antt =====
-- Lists of words as text, lib/lib.cpp: `list_merge` writes a separator behind each word, and `split`
-- takes a text apart at the separators and drops empty words.
pub mod Words
use yd.Prelude.{
  ℕ, zero, suc, ◌+◌, List, [], ◌∷◌, ◌++◌, take, drop, length, Option, none, some, Bool, true, false,
  ◌==◌, if◌then◌else◌,
}
use mathlib.Core.Option

unfoldable pub list_merge : List (List ℕ) → List ℕ → List ℕ
list_merge [] parttern = []
list_merge (w ∷ list) parttern = w ++ (parttern ++ list_merge list parttern)

-- Does a text begin with the pattern?
unfoldable pub begins : List ℕ → List ℕ → Bool
begins [] str = true
begins (p ∷ pattern) [] = false
begins (p ∷ pattern) (c ∷ str) = let rest = begins pattern str in if p == c then rest else false

-- `std::string::find`, from the front of the text.
unfoldable pub find : List ℕ → List ℕ → Option ℕ
find pattern [] = none
find pattern (c ∷ str) =
    let later = Option.map (λ (n : ℕ). n + 1) (find pattern str) in
    if begins pattern (c ∷ str) then some 0 else later

abbrev push_nonempty : List ℕ → List (List ℕ) → List (List ℕ)
push_nonempty [] result = result
push_nonempty (c ∷ s) result = (c ∷ s) ∷ result

-- `rest` is the text from position `i` on; each round takes at least one character.
unfoldable pub split_loop : ℕ → List ℕ → List ℕ → List (List ℕ)
split_loop zero rest pattern = []
split_loop (suc fuel) [] pattern = []
split_loop (suc fuel) (c ∷ rest) pattern = elim (find pattern (c ∷ rest)) [
  | none ↦ split_loop fuel rest pattern
  | some pos ↦
      push_nonempty (take pos (c ∷ rest))
        (split_loop fuel (drop (pos + length pattern) (c ∷ rest)) pattern)
]

unfoldable pub split : List ℕ → List ℕ → List (List ℕ)
split str pattern = split_loop (length (str ++ pattern)) (str ++ pattern) pattern
