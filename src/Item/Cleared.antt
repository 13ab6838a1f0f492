-- ===== src/Item/Cleared.antt =====
-- Cleared items, `clear` and `isZero` of data/DataClass.hpp.
use yd.Prelude.{
  ℕ, zero, suc, ◌+◌, ◌≤◌, ◌<◌, List, [], ◌∷◌, take, put, get_or, get_or-take, take-put, replicate,
  length, length-replicate, Bool, true, false, ◌==◌, if_either, if◌then◌else◌, ◌≡◌, ◌≢◌, refl, sym,
  ap, ◌∙◌, arith,
}
use yd.Item.{
  DataFormat, df_bcd, df_hex_num, df_hex, df_char, df_string, df_jpg, df_string_vector, df_hhmm,
  Item, len, all_equal, is_zero_of, is_zero_item, clear_of, clear,
}

all_equal-take : (b n : ℕ) (xs : List ℕ) → all_equal b xs n ≡ all_equal b (take n xs) n
unfolding all_equal
all_equal-take b zero xs = refl
all_equal-take b (suc n) [] = refl
all_equal-take b (suc n) (x ∷ xs) = ap (λ r. if x == b then r else false) (all_equal-take b n xs)

all_equal-replicate : (b n : ℕ) → all_equal b (replicate n b) n ≡ true
unfolding all_equal
all_equal-replicate b zero = refl
all_equal-replicate b (suc n) = ground (arith, all_equal-replicate b n)

-- The front of an array, filled with a byte.
filled : (b n : ℕ) (xs : List ℕ) → n ≤ length xs → take n (put xs 0 (replicate n b)) ≡ replicate n b
filled b n xs h =
    let size : length (replicate n b) ≡ n = length-replicate n b in
    let at : n ≡ 0 + length (replicate n b) = omega arith in
    ap (λ k. take k (put xs 0 (replicate n b))) at ∙ take-put (replicate n b) xs 0 (omega arith)

first_of : (b n : ℕ) → 0 < n → get_or (replicate n b) 0 b ≡ b
first_of b zero h = absurd (omega arith)
first_of b (suc n) h = refl

clear_of-is_zero :
    (f : DataFormat) (item : Item)
    → f ≢ df_string
    → f ≢ df_jpg
    → 0 < len item
    → len item ≤ length item.hex
    → len item ≤ length item.chars
    → is_zero_of f (clear_of f item) ≡ true
unfolding is_zero_of clear_of len
clear_of-is_zero df_bcd item s j some h c = refl
clear_of-is_zero df_hex_num item s j some h c = refl
clear_of-is_zero df_hhmm item s j some h c = refl
clear_of-is_zero df_string_vector item s j some h c = refl
clear_of-is_zero df_string item s j some h c = absurd (s refl)
clear_of-is_zero df_jpg item s j some h c = absurd (j refl)
clear_of-is_zero df_hex item s j some h c =
    all_equal-take 0xFF (len item) (put item.hex 0 (replicate (len item) 0xFF))
    ∙ ap (λ t. all_equal 0xFF t (len item)) (filled 0xFF (len item) item.hex h)
    ∙ all_equal-replicate 0xFF (len item)
clear_of-is_zero df_char item s j some h c =
    let cells = put item.chars 0 (replicate (len item) 0) in
    let first : get_or cells 0 0 ≡ 0 =
      sym (get_or-take (len item) 0 cells 0 some)
      ∙ ap (λ t. get_or t 0 0) (filled 0 (len item) item.chars c)
      ∙ first_of 0 (len item) some in
    rw first

config_kept : (f : DataFormat) (item : Item) → (clear_of f item).config ≡ item.config
unfolding clear_of
config_kept df_bcd item = refl
config_kept df_hex_num item = refl
config_kept df_hhmm item = refl
config_kept df_string_vector item = refl
config_kept df_string item = refl
config_kept df_jpg item = refl
config_kept df_hex item = refl
config_kept df_char item = refl

-- A cleared item counts as one without a value, in every format but strings and pictures, whose values
-- `clear` leaves alone, and where the arrays have the length that the configuration says.
clear-is_zero :
    (item : Item)
    → item.config.format ≢ df_string
    → item.config.format ≢ df_jpg
    → len item ≤ length item.hex
    → len item ≤ length item.chars
    → is_zero_item (clear item) ≡ true
unfolding is_zero_item clear len
clear-is_zero item s j h c =
    if_either (λ (t : Item). is_zero_item t ≡ true) (len item == 0) (λ empty. rw empty)
      (λ some_len.
        let g = clear_of item.config.format item in
        let format : g.config.format ≡ item.config.format =
          ap (λ k. k.format) (config_kept item.config.format item) in
        if_either (λ (t : Bool). t ≡ true) (len g == 0) (λ _. refl)
          (λ _.
            ap (λ k. is_zero_of k g) format
            ∙ clear_of-is_zero item.config.format item s j (nonzero (len item) some_len) h c))
  where
    nonzero : (n : ℕ) → (n == 0) ≡ false → 0 < n
    nonzero n e = ground arith
