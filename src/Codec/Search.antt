-- ===== src/Codec/Search.antt =====
-- All the matches of a pattern in a text, `rx_serach` of lib/lib.cpp. `regexec` with the compiled pattern
-- is a parameter, and the pattern has no groups.
pub mod Found
use yd.Prelude.{ℕ, zero, suc, ◌+◌, ◌-◌, List, [], ◌∷◌, take, drop, length}

-- What `regexec` answers: REG_NOMATCH, the limits of the first match, or an error.
pub data Match : Type 0 where
  no_match : Match
  matched : ℕ → ℕ → Match
  failed : Match

-- The matches by their limits, or the result -1.
pub data Search : Type 0 where
  found : List (ℕ × ℕ) → Search
  search_error : Search

abbrev pub with_match : ℕ × ℕ → Search → Search
with_match m (found ms) = found (m ∷ ms)
with_match m search_error = search_error

-- A round of the loop behind `rx_search_match_ensure`, with the answer of `regexec` and the rounds behind it.
abbrev pub rx_round : Match → ℕ → (ℕ → Search) → Search
rx_round no_match offset next = found []
rx_round (matched so eo) offset next = with_match (offset + so, offset + eo) (next (offset + eo))
rx_round failed offset next = search_error

-- The loop, by `capacity - matchcnt`: `rx_search_match_ensure` finds place for a match, or refuses where
-- that difference is 0, which ends the search with -1; the lines that would enlarge the memory are not
-- reached.
unfoldable pub rx_loop : ℕ → (List ℕ → Match) → List ℕ → ℕ → Search
rx_loop zero regexec input offset = search_error
rx_loop (suc free) regexec input offset =
    rx_round (regexec (drop offset input)) offset (rx_loop free regexec input)

-- The capacity that `rx_search_match_init` sets.
abbrev pub capacity : ℕ
capacity = 16

unfoldable pub rx_serach : (List ℕ → Match) → List ℕ → Search
rx_serach regexec input = rx_loop capacity regexec input 0

-- The text of a match.
abbrev pub match_text : List ℕ → ℕ × ℕ → List ℕ
match_text input (so, eo) = take (eo - so) (drop so input)
