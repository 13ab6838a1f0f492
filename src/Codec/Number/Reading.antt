-- ===== src/Codec/Number/Reading.antt =====
-- Reading back what the settings write as text.
use native.Mathlib.Nat.{pow-suc}
use yd.Prelude.{
  ℕ, zero, suc, ◌+◌, ◌-◌, ◌*◌, ◌/◌, ◌%◌, ◌^◌, ◌≤◌, ◌<◌, List, [], ◌∷◌, none, some, false, ltb, ◌==◌,
  All, if_either, ◌≡◌, refl, sym, subst, ap, ◌∙◌, arith, lt→ltb,
}
use yd.Codec.Hex.{Endpoint}
use yd.Codec.Bcd.Digits.{nibbles}
use yd.Prelude.Int.{pos}
use yd.Codec.Number.{
  digit_char, digit_value, digits, read_digits, tostring16, skip_space, skip_0x, strtoull16,
  strtoull_signed, saturated, to_string, print_address, scan_address, behind,
}

digit_value-digit_char : (d : ℕ) → d < 16 → digit_value (digit_char d) ≡ some d
digit_value-digit_char d h = ground arith

read_digit :
    (acc d : ℕ) (tail : List ℕ)
    → d < 16
    → read_digits acc (digit_char d ∷ tail) ≡ read_digits (acc * 16 + d) tail
unfolding read_digits
read_digit acc d tail h = rw (digit_value-digit_char d h, read_digits)

-- Hexadecimal digits are read as their number, in front of any text.
pub read_digits-digits :
    (n v : ℕ) (tail : List ℕ)
    → v < 16 ^ suc n
    → read_digits 0 (digits 16 (suc n) v tail) ≡ read_digits v tail
unfolding digits
read_digits-digits zero v tail h =
    if_either (λ (t : List ℕ). read_digits 0 t ≡ read_digits v tail) (v / 16 == 0)
      (λ last.
        read_digit 0 (v % 16) tail (omega arith) ∙ ap (λ k. read_digits k tail) (omega arith))
      (λ more. absurd (ground arith))
read_digits-digits (suc n) v tail h =
    if_either (λ (t : List ℕ). read_digits 0 t ≡ read_digits v tail) (v / 16 == 0)
      (λ last.
        read_digit 0 (v % 16) tail (omega arith)
        ∙ ap (λ k. read_digits k tail) (ground (arith, last)))
      (λ more.
        read_digits-digits n (v / 16) (digit_char (v % 16) ∷ tail)
          (omega (arith, pow-suc 16 (suc n)))
        ∙ read_digit (v / 16) (v % 16) tail (omega arith)
        ∙ ap (λ k. read_digits k tail) (omega arith))

-- A text of hexadecimal digits only, as far as its first two characters go.
abbrev IsDigits : List ℕ → Type 0
IsDigits t = All (λ c. (d : ℕ) × (d < 16) × (c ≡ digit_char d)) t

digits-IsDigits :
    (base n v : ℕ) (tail : List ℕ)
    → 0 < base
    → base ≤ 16
    → IsDigits tail
    → IsDigits (digits base n v tail)
unfolding digits
digits-IsDigits base zero v tail pos_base le h = h
digits-IsDigits base (suc n) v tail pos_base le h =
    let here : (d : ℕ) × (d < 16) × (digit_char (v % base) ≡ digit_char d) =
      (v % base, grind arith, refl) in
    if_either IsDigits (v / base == 0) (λ last. (here, h))
      (λ more.
        digits-IsDigits base n (v / base) (digit_char (v % base) ∷ tail) pos_base le (here, h))

skip_space-digit :
    (c : ℕ) (cs : List ℕ) (d : ℕ) → d < 16 → c ≡ digit_char d → skip_space (c ∷ cs) ≡ c ∷ cs
unfolding skip_space
skip_space-digit c cs d h e = rw e (ground arith)

skip_0x-digits : (t : List ℕ) → IsDigits t → skip_0x t ≡ t
unfolding skip_0x
skip_0x-digits [] h = refl
skip_0x-digits (c ∷ []) h = refl
skip_0x-digits (c ∷ e ∷ cs) (_, ((d, small, same), _)) = rw same (ground arith)

strtoull_signed-digit :
    (c : ℕ) (cs : List ℕ) (d : ℕ)
    → d < 16
    → c ≡ digit_char d
    → strtoull_signed (c ∷ cs) ≡ saturated (read_digits 0 (skip_0x (c ∷ cs))).0
unfolding strtoull_signed
strtoull_signed-digit c cs d h e =
    let n1 : (c == 45) ≡ false = ground arith in
    let n2 : (c == 43) ≡ false = ground arith in rw (n1, n2)

strtoull16-nil : strtoull16 [] ≡ saturated (read_digits 0 []).0
unfolding strtoull16 skip_space strtoull_signed saturated read_digits
strtoull16-nil = refl

-- A text of digits is read as its number, and cut to the largest value.
strtoull16-IsDigits : (t : List ℕ) → IsDigits t → strtoull16 t ≡ saturated (read_digits 0 t).0
unfolding strtoull16
strtoull16-IsDigits [] h = strtoull16-nil
strtoull16-IsDigits (c ∷ cs) ((d, small, same), rest) =
    ap strtoull_signed (skip_space-digit c cs d small same)
    ∙ strtoull_signed-digit c cs d small same
    ∙ ap (λ t. saturated (read_digits 0 t).0) (skip_0x-digits (c ∷ cs) ((d, small, same), rest))

saturated_small : (v : ℕ) → v < 2 ^ 64 → saturated (read_digits v []).0 ≡ v
unfolding saturated read_digits
saturated_small v h = rw (lt→ltb v (2 ^ 64) h)

-- A password goes through the settings: its hexadecimal text is read back.
pub strtoull16-tostring16 : (v : ℕ) → v < 2 ^ 64 → strtoull16 (tostring16 v) ≡ v
unfolding tostring16
strtoull16-tostring16 v h =
    strtoull16-IsDigits (digits 16 16 v [])
      (digits-IsDigits 16 16 v [] (omega arith) (omega arith) tt)
    ∙ ap (λ p. saturated p.0) (read_digits-digits 15 v [] (omega arith))
    ∙ saturated_small v h

nibbles_zero : (n : ℕ) → nibbles n 0 ≡ 0
nibbles_zero zero = refl
nibbles_zero (suc n) = omega (arith, nibbles_zero n)

-- Decimal digits read as hexadecimal ones: a nibble to a digit.
read_digits-decimal :
    (n v : ℕ) (tail : List ℕ)
    → v < 10 ^ suc n
    → read_digits 0 (digits 10 (suc n) v tail) ≡ read_digits (nibbles (suc n) v) tail
unfolding digits
read_digits-decimal zero v tail h =
    if_either (λ (t : List ℕ). read_digits 0 t ≡ read_digits (nibbles 1 v) tail) (v / 10 == 0)
      (λ last.
        read_digit 0 (v % 10) tail (omega arith) ∙ ap (λ k. read_digits k tail) (omega arith))
      (λ more. absurd (ground arith))
read_digits-decimal (suc n) v tail h =
    if_either (λ (t : List ℕ). read_digits 0 t ≡ read_digits (nibbles (suc (suc n)) v) tail)
      (v / 10 == 0)
      (λ last.
        read_digit 0 (v % 10) tail (omega arith)
        ∙ let none_left : v / 10 ≡ 0 = ground (arith, last) in
          let zero_more : nibbles (suc n) (v / 10) ≡ 0 =
            ap (nibbles (suc n)) none_left ∙ nibbles_zero (suc n) in
          ap (λ k. read_digits k tail) (omega (arith, zero_more)))
      (λ more.
        read_digits-decimal n (v / 10) (digit_char (v % 10) ∷ tail)
          (omega (arith, pow-suc 10 (suc n)))
        ∙ read_digit (nibbles (suc n) (v / 10)) (v % 10) tail (omega arith)
        ∙ ap (λ k. read_digits k tail) (omega arith))

saturated_nil : (n : ℕ) → saturated (read_digits n []).0 ≡ saturated n
unfolding read_digits
saturated_nil n = refl

saturated-gt : (v n : ℕ) → v < n → v < 2 ^ 64 - 1 → v < saturated n
unfolding saturated
saturated-gt v n h k = if_either (λ m. v < m) (ltb n (2 ^ 64)) (λ fits. h) (λ large. k)

nibbles-ge : (n v : ℕ) → v < 10 ^ n → v ≤ nibbles n v
nibbles-ge zero v h = omega arith
nibbles-ge (suc n) v h = omega (arith, nibbles-ge n (v / 10) (omega (arith, pow-suc 10 n)))

-- A number of at least two decimal digits is read as a larger one.
pub lt-strtoull16 : (v : ℕ) → 10 ≤ v → v < 10 ^ 16 → v < strtoull16 (to_string (pos v))
unfolding to_string
lt-strtoull16 v h k =
    let n = nibbles 20 v in
    let grown : v < n = omega (arith, nibbles-ge 19 (v / 10) (omega arith)) in
    let read : strtoull16 (digits 10 20 v []) ≡ saturated n =
      strtoull16-IsDigits (digits 10 20 v [])
        (digits-IsDigits 10 20 v [] (omega arith) (omega arith) tt)
      ∙ ap (λ p. saturated p.0) (read_digits-decimal 19 v [] (omega arith))
      ∙ saturated_nil n in
    subst (λ m. v < m) (sym read) (saturated-gt v n grown (omega arith))

read_digits_stop :
    (v c : ℕ) (cs : List ℕ) → digit_value c ≡ none → read_digits v (c ∷ cs) ≡ (v, c ∷ cs)
unfolding read_digits
read_digits_stop v c cs h = rw (h, read_digits)

-- A number in front of a separator.
number_part :
    (v c : ℕ) (cs : List ℕ)
    → v < 16 ^ 8
    → digit_value c ≡ none
    → read_digits 0 (digits 16 8 v (c ∷ cs)) ≡ (v, c ∷ cs)
number_part v c cs h k = read_digits-digits 7 v (c ∷ cs) h ∙ read_digits_stop v c cs k

behind_mark : (c : ℕ) (cs : List ℕ) → behind c (c ∷ cs) ≡ cs
unfolding behind
behind_mark c cs = ground arith

read_nothing : (v : ℕ) → (read_digits v []).0 ≡ v
unfolding read_digits
read_nothing v = refl

-- An address printed by the program is read back by it.
pub scan_address-print_address :
    (e : Endpoint)
    → e.ip1 < 2 ^ 32
    → e.ip2 < 2 ^ 32
    → e.ip3 < 2 ^ 32
    → e.ip4 < 2 ^ 32
    → e.port < 2 ^ 32
    → scan_address (print_address e) ≡ e
unfolding scan_address print_address
scan_address-print_address e h1 h2 h3 h4 h5 =
    let t5 = digits 16 8 e.port [] in
    let t4 = digits 16 8 e.ip4 (58 ∷ t5) in
    let t3 = digits 16 8 e.ip3 (46 ∷ t4) in
    let t2 = digits 16 8 e.ip2 (46 ∷ t3) in
    let p1 = number_part e.ip1 46 t2 (omega arith) refl in
    let p2 = number_part e.ip2 46 t3 (omega arith) refl in
    let p3 = number_part e.ip3 46 t4 (omega arith) refl in
    let p4 = number_part e.ip4 58 t5 (omega arith) refl in
    let p5 = read_digits-digits 7 e.port [] (omega arith) in
    rw
      (
        p1,
        behind_mark 46 t2,
        p2,
        behind_mark 46 t3,
        p3,
        behind_mark 46 t4,
        p4,
        behind_mark 58 t5,
        p5,
      )
      (ap (λ n. record e { port = n }) (read_nothing e.port))
