-- ===== src/Codec/Order.antt =====
-- Byte order, lib/lib.cpp: copies of a buffer in reverse (`little2big`, `inverseto`), the reversal
-- in place (`inverse`), and the test for a blank buffer (`is_zero`).
pub mod Reverse
use yd.Prelude.{
  ℕ, zero, suc, ◌+◌, ◌-◌, ◌/◌, List, [], ◌∷◌, get_or, set, Bool, true, false, ◌==◌, if◌then◌else◌,
}

-- `*big++ = little[size - 1]` while `size` counts down; the result is what is written to `big`.
unfoldable pub little2big : List ℕ → ℕ → List ℕ
little2big little zero = []
little2big little (suc size) = get_or little size 0 ∷ little2big little size

-- `dataout[i] = data[len - 1 - i]`, with `n` rounds left; the result is what is written.
unfoldable pub inverseto_loop : List ℕ → ℕ → ℕ → ℕ → List ℕ
inverseto_loop buf len zero i = []
inverseto_loop buf len (suc n) i = get_or buf (len - 1 - i) 0 ∷ inverseto_loop buf len n (i + 1)

unfoldable pub inverseto : List ℕ → ℕ → List ℕ
inverseto buf len = inverseto_loop buf len len 0

-- One swap of `inverse`.
unfoldable pub swap_ends : List ℕ → ℕ → ℕ → List ℕ
swap_ends buf len i =
    let tmp = get_or buf i 0 in set (set buf i (get_or buf (len - 1 - i) 0)) (len - 1 - i) tmp

unfoldable pub inverse_loop : ℕ → ℕ → ℕ → List ℕ → List ℕ
inverse_loop zero i len buf = buf
inverse_loop (suc n) i len buf = inverse_loop n (i + 1) len (swap_ends buf len i)

unfoldable pub inverse : List ℕ → ℕ → List ℕ
inverse buf len = inverse_loop (len / 2) 0 len buf

-- The name is the source's: it tests that every byte is 0xFF.
unfoldable pub is_zero : List ℕ → ℕ → Bool
is_zero d zero = true
is_zero [] (suc len) = true
is_zero (b ∷ d) (suc len) = let rest = is_zero d len in if b == 0xFF then rest else false
