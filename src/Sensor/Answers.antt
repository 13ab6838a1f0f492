-- ===== src/Sensor/Answers.antt =====
-- Answers of sensors in decimal digits, `recv_patten` and `parse_data` of app/down/_thread_down.cpp.
use yd.Prelude.{
  ℕ, zero, suc, ◌+◌, ◌-◌, ◌*◌, ◌/◌, ◌%◌, ◌^◌, ◌≤◌, ◌<◌, List, [], ◌∷◌, ◌++◌, take, take_all,
  take-append, drop, drop-append, get_or, foldl, reverse, length, IsBytes, Bool, true, false, ltb,
  le→ltb_false, ◌==◌, ==_iff, ◌&&◌, passes_below, passes_below_each, ◌≡◌, refl, sym, subst, ap, ap₂,
  ◌∙◌, arith,
}
use mathlib.Core.List.{reverse-reverse}
use yd.Prelude.Slices.{drop_add}
use yd.Prelude.Int.{pos, quot}
use yd.Codec.Bcd.{bcd_step, bcd2hex, bigbcd2hex, report_bcd}
use yd.Codec.Bcd.Trip.{bigbcd2hex-report_bcd, length-report_bcd}
use yd.Codec.Order.{inverse}
use yd.Codec.Order.Reverse.{inverse-reverse, little2big-reverse, length-little2big}
use yd.Codec.Hex.{hex_char, hexarray2str_loop, hexarray2str}
use yd.Item.{to_l64}
use yd.Item.Trip.{to_l64_small}
use yd.Store.Appdata.{same_text}
use yd.Sensor.{times}
use yd.Sensor.Request.{
  digit_of, string_to_byte, recv_patten_loop, recv_patten, Numerics, divisor, divide, chosen,
  parse_value, thousandfold, parse_data, bcd_name,
}

-- Two digits of a byte, for all bytes.
abbrev two_digits_back : ℕ → Bool
two_digits_back b = string_to_byte (hex_char (b / 2 ^ 4 % 2 ^ 4)) (hex_char (b % 2 ^ 4)) == b

digits_table : passes_below two_digits_back 256 ≡ true
unfolding passes_below string_to_byte digit_of
digits_table = refl

recv_patten_loop-hexarray2str :
    (n : ℕ) (bytes : List ℕ)
    → IsBytes bytes
    → length bytes ≤ n
    → recv_patten_loop n (hexarray2str_loop (length bytes) bytes) ≡ bytes
unfolding recv_patten_loop hexarray2str_loop
recv_patten_loop-hexarray2str zero [] h fits = refl
recv_patten_loop-hexarray2str (suc n) [] h fits = refl
recv_patten_loop-hexarray2str zero (b ∷ bytes) h fits = absurd (omega arith)
recv_patten_loop-hexarray2str (suc n) (b ∷ bytes) h fits =
    ap₂ ◌∷◌ ((==_iff _ b).0 (passes_below_each two_digits_back 256 b digits_table h.0))
      (recv_patten_loop-hexarray2str n bytes h.1 (omega arith))

-- The hexadecimal text of some bytes.
abbrev pub text_of : List ℕ → List ℕ
text_of bytes = hexarray2str bytes (length bytes) (2 * length bytes)

recv_patten-text_of :
    (bytes : List ℕ) → IsBytes bytes → length bytes ≤ 29 → recv_patten (text_of bytes) ≡ bytes
unfolding recv_patten hexarray2str
recv_patten-text_of bytes h fits =
    let n : 2 * length bytes / 2 ≡ length bytes = omega arith in
    let e : ltb (2 * length bytes / 2) (length bytes) ≡ false = le→ltb_false _ _ (omega arith) in
    rw e (recv_patten_loop-hexarray2str 29 bytes h fits)

-- The letters from number `i` on, `n` of them, by which a format takes the bytes in their order.
abbrev pub letters : ℕ → ℕ → List ℕ
letters i zero = []
letters i (suc n) = (0x41 + i) ∷ letters (i + 1) n

same_text_refl : (xs : List ℕ) → same_text xs xs ≡ true
same_text_refl [] = refl
same_text_refl (x ∷ xs) =
    let e : (x == x) ≡ true = ground arith in ap₂ (λ a b. a && b) e (same_text_refl xs)

get_or-drop : (i : ℕ) (d : List ℕ) → get_or d i 0 ≡ get_or (drop i d) 0 0
get_or-drop zero d = refl
get_or-drop (suc i) [] = refl
get_or-drop (suc i) (x ∷ d) = get_or-drop i d

chosen-letters :
    (i : ℕ) (d xs tail : List ℕ) → drop i d ≡ xs ++ tail → chosen (letters i (length xs)) d ≡ xs
chosen-letters i d [] tail e = refl
chosen-letters i d (x ∷ xs) tail e =
    let at_i : 0x41 + i - 0x41 ≡ i = omega arith in
    let next : drop (i + 1) d ≡ xs ++ tail = drop_add i 1 d ∙ ap (λ t. drop 1 t) e in
    ap₂ ◌∷◌ (ap (λ k. get_or d k 0) at_i ∙ get_or-drop i d ∙ ap (λ t. get_or t 0 0) e)
      (chosen-letters (i + 1) d xs tail next)

-- Digits that a sensor sends with the highest first, turned about and read.
bcd2hex-inverse : (r : List ℕ) → bcd2hex (inverse r (length r)) (length r) ≡ bigbcd2hex r (length r)
unfolding bcd2hex bigbcd2hex
bcd2hex-inverse r =
    let turned : inverse r (length r) ≡ reverse r = (inverse-reverse r).0 in
    let size : length (reverse r) ≡ length r =
      ap length (sym (little2big-reverse r)) ∙ length-little2big r (length r) in
    let whole : take (length r) (reverse r) ≡ reverse r =
      take_all (length r) (reverse r) (omega arith) in
    let whole2 : take (length r) r ≡ r = take_all (length r) r (omega arith) in
    rw (turned, whole, whole2) (ap (λ t. foldl bcd_step 0 t) (reverse-reverse r))

bcd2hex-report_bcd :
    (n v : ℕ)
    → v < 100 ^ n
    → v < 2 ^ 63
    → to_l64 (bcd2hex (inverse (report_bcd n v []) n) n) ≡ pos v
bcd2hex-report_bcd n v h k =
    let r = report_bcd n v [] in
    let size : length r ≡ n = omega (arith, length-report_bcd n v []) in
    let read : bcd2hex (inverse r n) n ≡ v =
      subst (λ m. bcd2hex (inverse r m) m ≡ bigbcd2hex r m) size (bcd2hex-inverse r)
      ∙ bigbcd2hex-report_bcd n v h (omega arith) in
    ap to_l64 read ∙ to_l64_small v k

parse_value-bcd :
    (w : Numerics) (n v : ℕ)
    → v < 100 ^ n
    → v * 1000 < 2 ^ 63
    → parse_value w (report_bcd n v []) bcd_name ≡ pos (v * 1000)
unfolding parse_value thousandfold divisor divide times quot
parse_value-bcd w n v h k =
    let r = report_bcd n v [] in
    let size : length r ≡ n = omega (arith, length-report_bcd n v []) in
    let one : v * 1000 / 1 ≡ v * 1000 = omega arith in
    let whole : v * 1000 % 2 ^ 64 ≡ v * 1000 = omega (arith, k) in
    ap (λ m. divide (thousandfold (to_l64 (bcd2hex (inverse r m) m))) (pos 1)) size
    ∙ ap (λ t. divide (thousandfold t) (pos 1)) (bcd2hex-report_bcd n v h (omega (arith, k)))
    ∙ ap (λ m. divide (to_l64 m) (pos 1)) whole
    ∙ ap (λ t. divide t (pos 1)) (to_l64_small (v * 1000) k)
    ∙ ap pos one

-- A decimal answer is read back: where the text of the expected head is the hexadecimal text of the
-- head's bytes, and the letters take the bytes behind it in their order, the answer with digits of v is
-- read as v thousand thousandths, without an error, whatever follows the digits.
pub parse_data-report_bcd :
    (w : Numerics) (head tail : List ℕ) (n v : ℕ)
    → IsBytes head
    → length head ≤ 29
    → v < 100 ^ n
    → v * 1000 < 2 ^ 63
    → parse_data w (text_of head) (letters 0 n) bcd_name (head ++ (report_bcd n v [] ++ tail))
      ≡ (pos (v * 1000), 0)
unfolding parse_data
parse_data-report_bcd w head tail n v bytes short h k =
    let r = report_bcd n v [] in
    let size : length r ≡ n = omega (arith, length-report_bcd n v []) in
    let pre = recv_patten-text_of head bytes short in
    let front : take (length head) (head ++ (r ++ tail)) ≡ head = take-append head (r ++ tail) in
    let rest : drop (length head) (head ++ (r ++ tail)) ≡ r ++ tail =
      drop-append head (r ++ tail) in
    let picked : chosen (letters 0 n) (r ++ tail) ≡ r =
      subst (λ m. chosen (letters 0 m) (r ++ tail) ≡ r) size
        (chosen-letters 0 (r ++ tail) r tail refl) in
    rw (pre, front, same_text_refl head, rest, picked, parse_value-bcd w n v h k) refl
