-- ===== src/Codec/Search/Found.antt =====
-- What `rx_serach` of lib/lib.cpp finds with the pattern "[-0-9a-fA-F]+" in words with commas.
use mathlib.Core.List.{append-nil}
use yd.Prelude.{
  ℕ, zero, suc, ◌+◌, ◌-◌, ◌≤◌, ◌<◌, List, [], ◌∷◌, ◌++◌, map, take, drop, length, length-append,
  append_assoc, take-append, drop-append, Bool, true, false, leb, ◌==◌, ◌||◌, ◌&&◌, All, ◌≡◌, refl,
  sym, ap, ap₂, ◌∙◌, arith,
}
use yd.Codec.Search.{
  Match, no_match, matched, Search, found, search_error, with_match, capacity, rx_round, rx_loop,
  rx_serach, match_text,
}
use yd.Prelude.Slices.{drop_add}

-- The characters of the pattern's class.
abbrev pub in_class : ℕ → Bool
in_class c = c == 45 || (leb 48 c && leb c 57) || (leb 97 c && leb c 102) || (leb 65 c && leb c 70)

abbrev pub InClass : List ℕ → Type 0
InClass t = All (λ c. in_class c ≡ true) t

abbrev pub OffClass : List ℕ → Type 0
OffClass t = All (λ c. in_class c ≡ false) t

abbrev pub Stops : List ℕ → Type 0
Stops [] = Unit {0}
Stops (c ∷ cs) = in_class c ≡ false

-- What POSIX says of `regexec` with this pattern: the match is the leftmost one, and the longest there.
pub record IsRegexec (regexec : List ℕ → Match) : Type 0 where
  pub misses : (t : List ℕ) → OffClass t → regexec t ≡ no_match
  pub finds :
      (other word rest : List ℕ)
      → OffClass other
      → InClass word
      → 0 < length word
      → Stops rest
      → regexec (other ++ (word ++ rest)) ≡ matched (length other) (length other + length word)

-- Words with a comma behind each.
abbrev pub with_commas : List (List ℕ) → List ℕ
with_commas [] = []
with_commas (w ∷ ws) = w ++ 44 ∷ with_commas ws

abbrev pub IsWord : List ℕ → Type 0
IsWord w = InClass w × (0 < length w)

-- The matches, and their texts.
abbrev pub FindsWords : List ℕ → Search → List (List ℕ) → Type 0
FindsWords input s ws = (ms : List (ℕ × ℕ)) × (s ≡ found ms) × (map (match_text input) ms ≡ ws)

loop-FindsWords :
    (regexec : List ℕ → Match) (k : IsRegexec regexec) (free : ℕ) (ws : List (List ℕ))
    (input pre sep : List ℕ)
    → length ws < free
    → All IsWord ws
    → OffClass sep
    → input ≡ pre ++ (sep ++ with_commas ws)
    → FindsWords input (rx_loop free regexec input (length pre)) ws
unfolding rx_loop
loop-FindsWords regexec k zero ws input pre sep h words off e = absurd (omega arith)
loop-FindsWords regexec k (suc free) [] input pre sep h words off e =
    let tail : drop (length pre) input ≡ sep ++ [] =
      ap (drop (length pre)) e ∙ drop-append pre (sep ++ []) in
    (
      [],
      ap (λ t. rx_round (regexec t) (length pre) (rx_loop free regexec input)) tail
          ∙ ap (λ m. rx_round m (length pre) (rx_loop free regexec input))
              (ap regexec (append-nil sep) ∙ k.misses sep off),
      refl,
    )
loop-FindsWords regexec k (suc free) (w ∷ ws) input pre sep h ((in_w, long), words) off e =
    let rest = 44 ∷ with_commas ws in
    let o = length pre in
    let eo = length sep + length w in
    let pre2 = pre ++ (sep ++ w) in
    let body : sep ++ with_commas (w ∷ ws) ≡ sep ++ (w ++ rest) = refl in
    let tail : drop o input ≡ sep ++ (w ++ rest) =
      ap (drop o) e ∙ drop-append pre (sep ++ (w ++ rest)) in
    let hit = k.finds sep w rest off in_w long refl in
    let next : input ≡ pre2 ++ (44 ∷ [] ++ with_commas ws) =
      e
      ∙ ap (λ t. pre ++ t) (sym (append_assoc sep w rest))
      ∙ sym (append_assoc pre (sep ++ w) rest) in
    let at2 : length pre2 ≡ o + eo =
      length-append pre (sep ++ w) ∙ ap (λ n. o + n) (length-append sep w) in
    let (ms, got, texts) =
      loop-FindsWords regexec k free ws input pre2 (44 ∷ []) (omega arith) words (refl, tt) next in
    let got2 = ap (rx_loop free regexec input) (sym at2) ∙ got in
    let round =
      ap (λ t. rx_round (regexec t) o (rx_loop free regexec input)) tail
      ∙ ap (λ m. rx_round m o (rx_loop free regexec input)) hit
      ∙ ap (with_match (o + length sep, o + eo)) got2 in
    let text : match_text input (o + length sep, o + eo) ≡ w =
      ap (λ t. take (o + eo - (o + length sep)) t)
        (drop_add o (length sep) input ∙ ap (drop (length sep)) tail ∙ drop-append sep (w ++ rest))
      ∙ ap (λ n. take n (w ++ rest)) (omega arith)
      ∙ take-append w rest in
    ((o + length sep, o + eo) ∷ ms, round, ap₂ ◌∷◌ text texts)

-- `rx_serach` finds fewer than 16 words of a text of words with commas, in their order.
pub rx_serach-FindsWords :
    (regexec : List ℕ → Match)
    → IsRegexec regexec
    → (ws : List (List ℕ)) → length ws < capacity
    → All IsWord ws
    → FindsWords (with_commas ws) (rx_serach regexec (with_commas ws)) ws
unfolding rx_serach
rx_serach-FindsWords regexec k ws few words =
    loop-FindsWords regexec k capacity ws (with_commas ws) [] [] few words tt refl

-- 16 words or more end the search with -1.
loop-search_error :
    (regexec : List ℕ → Match) (k : IsRegexec regexec) (free : ℕ) (ws : List (List ℕ))
    (input pre sep : List ℕ)
    → free ≤ length ws
    → All IsWord ws
    → OffClass sep
    → input ≡ pre ++ (sep ++ with_commas ws)
    → rx_loop free regexec input (length pre) ≡ search_error
unfolding rx_loop
loop-search_error regexec k zero ws input pre sep h words off e = refl
loop-search_error regexec k (suc free) [] input pre sep h words off e = absurd (omega arith)
loop-search_error regexec k (suc free) (w ∷ ws) input pre sep h ((in_w, long), words) off e =
    let rest = 44 ∷ with_commas ws in
    let o = length pre in
    let eo = length sep + length w in
    let pre2 = pre ++ (sep ++ w) in
    let tail : drop o input ≡ sep ++ (w ++ rest) =
      ap (drop o) e ∙ drop-append pre (sep ++ (w ++ rest)) in
    let hit = k.finds sep w rest off in_w long refl in
    let next : input ≡ pre2 ++ (44 ∷ [] ++ with_commas ws) =
      e
      ∙ ap (λ t. pre ++ t) (sym (append_assoc sep w rest))
      ∙ sym (append_assoc pre (sep ++ w) rest) in
    let at2 : length pre2 ≡ o + eo =
      length-append pre (sep ++ w) ∙ ap (λ n. o + n) (length-append sep w) in
    let ih =
      loop-search_error regexec k free ws input pre2 (44 ∷ []) (omega arith) words (refl, tt)
        next in
    ap (λ t. rx_round (regexec t) o (rx_loop free regexec input)) tail
    ∙ ap (λ m. rx_round m o (rx_loop free regexec input)) hit
    ∙ ap (with_match (o + length sep, o + eo)) (ap (rx_loop free regexec input) (sym at2) ∙ ih)

pub rx_serach-search_error :
    (regexec : List ℕ → Match)
    → IsRegexec regexec
    → (ws : List (List ℕ)) → capacity ≤ length ws
    → All IsWord ws
    → rx_serach regexec (with_commas ws) ≡ search_error
unfolding rx_serach
rx_serach-search_error regexec k ws many words =
    loop-search_error regexec k capacity ws (with_commas ws) [] [] many words tt refl
