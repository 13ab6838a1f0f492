-- ===== src/Store/Log/Trip.antt =====
-- A log of a table, read back: `tolog` and `fromlog` of data/DataClass.hpp.
use yd.Prelude.{
  ℕ, zero, suc, ◌+◌, ◌-◌, ◌*◌, ◌/◌, ◌%◌, ◌^◌, ◌≤◌, ◌<◌, List, [], ◌∷◌, ◌++◌, map, take, drop, put,
  length, replicate, length-put, length-replicate, take-put, take-append-drop, IsBytes, All, true,
  false, Bool-cases, passes_below, passes_below_each, if◌then◌else◌, if_either, ◌≡◌, ◌⊎◌, inl, inr,
  refl, sym, subst, ap, ap₂, ◌∙◌, arith, true-ne-false,
}
use yd.Codec.Hex.{hexarray2str, hexarray2str_loop, hex_char, str2hexarray}
use yd.Codec.Hex.Trip.{str2hexarray-hexarray2str}
use yd.Codec.Search.{Match, found, Search, search_error, rx_serach, match_text}
use yd.Codec.Search.Found.{
  in_class, InClass, IsWord, IsRegexec, with_commas, rx_serach-FindsWords, rx_serach-search_error,
}
use yd.Item.{Item, is_zero_item, toreport, fromreport}
use yd.Store.{DataClass, modify, tolog, tolog_items}
use yd.Store.Replay.{Write, perform}
use yd.Store.Log.{log_id, fromlog, fromlog_matches}

-- A report that a log can hold: `toreport` returns its size, and it fits the buffer of the reading.
pub record IsLoggable (x : Item) : Type 0 where
  pub whole : (toreport x).1 ≡ length (toreport x).0
  pub bytes : IsBytes (toreport x).0
  pub some_bytes : 0 < length (toreport x).0
  pub short : length (toreport x).0 < 500

abbrev pub Logs : Item → Type 0
Logs x = (is_zero_item x ≡ true) ⊎ IsLoggable x

-- The characters that the items take, commas included.
abbrev pub logged_size : List Item → ℕ
logged_size [] = 0
logged_size (x ∷ xs) =
    (if is_zero_item x then 0 else 2 * length (toreport x).0 + 1) + logged_size xs

-- The writes that a log stands for: for each item with a value, what its report makes of the item read.
unfoldable pub report_write : Item → Write
report_write x = record {
  number = log_id (toreport x).0;
  change = λ y. (fromreport y (toreport x).0).0;
}

abbrev pub log_writes : List Item → List Write
log_writes [] = []
log_writes (x ∷ xs) = if is_zero_item x then log_writes xs else report_write x ∷ log_writes xs

-- A report as text.
word_of : List ℕ → List ℕ
word_of r = hexarray2str r (length r) (2 * length r)

abbrev log_words : List Item → List (List ℕ)
log_words [] = []
log_words (x ∷ xs) = if is_zero_item x then log_words xs else word_of (toreport x).0 ∷ log_words xs

hexarray2str_loop-append :
    (r t : List ℕ) → hexarray2str_loop (length r) (r ++ t) ≡ hexarray2str_loop (length r) r
unfolding hexarray2str_loop
hexarray2str_loop-append [] t = refl
hexarray2str_loop-append (b ∷ r) t =
    ap (λ u. hex_char (b / 2 ^ 4 % 2 ^ 4) ∷ hex_char (b % 2 ^ 4) ∷ u) (hexarray2str_loop-append r t)

hexarray2str_room :
    (r t : List ℕ) (room : ℕ)
    → 2 * length r ≤ room
    → hexarray2str (r ++ t) (length r) room ≡ hexarray2str_loop (length r) r
unfolding hexarray2str
hexarray2str_room r t room h =
    ap (λ n. hexarray2str_loop n (r ++ t)) (ground arith) ∙ hexarray2str_loop-append r t

word_of-loop : (r : List ℕ) → word_of r ≡ hexarray2str_loop (length r) r
unfolding word_of hexarray2str
word_of-loop r = ap (λ n. hexarray2str_loop n r) (ground arith)

put_splits : (xs r : List ℕ) → length r ≤ length xs → put xs 0 r ≡ r ++ drop (length r) (put xs 0 r)
put_splits xs r h =
    sym (take-append-drop (length r) (put xs 0 r))
    ∙ ap (λ n. take n (put xs 0 r) ++ drop (length r) (put xs 0 r)) (omega arith)
    ∙ ap (λ t. t ++ drop (length r) (put xs 0 r)) (take-put r xs 0 (omega arith))

logged_word :
    (buffer r : List ℕ) (room : ℕ)
    → length r ≤ length buffer
    → 2 * length r ≤ room
    → hexarray2str (put buffer 0 r) (length r) room ≡ word_of r
logged_word buffer r room h k =
    ap (λ t. hexarray2str t (length r) room) (put_splits buffer r h)
    ∙ hexarray2str_room r (drop (length r) (put buffer 0 r)) room k
    ∙ sym (word_of-loop r)

class_table : passes_below (λ k. in_class (hex_char k)) 16 ≡ true
unfolding passes_below
class_table = refl

hex_char-in_class : (n : ℕ) → n < 16 → in_class (hex_char n) ≡ true
hex_char-in_class n h = passes_below_each (λ k. in_class (hex_char k)) 16 n class_table h

loop-InClass : (n : ℕ) (r : List ℕ) → InClass (hexarray2str_loop n r)
unfolding hexarray2str_loop
loop-InClass zero r = tt
loop-InClass (suc n) [] = tt
loop-InClass (suc n) (b ∷ r) = (
  hex_char-in_class (b / 2 ^ 4 % 2 ^ 4) (omega arith),
  (hex_char-in_class (b % 2 ^ 4) (omega arith), loop-InClass n r),
)

word_of-length : (r : List ℕ) → IsBytes r → length (word_of r) ≡ 2 * length r
unfolding word_of
word_of-length r h =
    (str2hexarray-hexarray2str r (2 * length r) (length r) h (omega arith) (omega arith)).1

word_of-back :
    (r : List ℕ)
    → IsBytes r
    → length r ≤ 500
    → str2hexarray (word_of r) (length (word_of r)) 500 ≡ r
unfolding word_of
word_of-back r h k =
    ap (λ n. str2hexarray (word_of r) n 500) (word_of-length r h)
    ∙ (str2hexarray-hexarray2str r (2 * length r) 500 h (omega arith) k).0

word_of-IsWord : (r : List ℕ) → IsBytes r → 0 < length r → IsWord (word_of r)
word_of-IsWord r h k = (
  subst InClass (sym (word_of-loop r)) (loop-InClass (length r) r),
  omega (arith, word_of-length r h),
)

pub loggable : (x : Item) → Logs x → is_zero_item x ≡ false → IsLoggable x
loggable x (inl empty) h = absurd (true-ne-false (sym empty ∙ h))
loggable x (inr good) h = good

size_zero :
    (x : Item) (xs : List Item) (room : ℕ)
    → is_zero_item x ≡ true
    → logged_size (x ∷ xs) ≤ room
    → logged_size xs ≤ room
size_zero x xs room empty h =
    let e : (if is_zero_item x then 0 else 2 * length (toreport x).0 + 1) ≡ 0 =
      ap (λ b. if b then 0 else 2 * length (toreport x).0 + 1) empty in
    omega arith

size_full :
    (x : Item) (xs : List Item) (room : ℕ)
    → is_zero_item x ≡ false
    → logged_size (x ∷ xs) ≤ room
    → (2 * length (toreport x).0 ≤ room) × (logged_size xs ≤ room - (2 * length (toreport x).0 + 1))
size_full x xs room full h =
    let e : (if is_zero_item x then 0 else 2 * length (toreport x).0 + 1)
        ≡ 2 * length (toreport x).0 + 1 =
      ap (λ b. if b then 0 else 2 * length (toreport x).0 + 1) full in
    (omega arith, omega arith)

-- The log is the words of the reports, a comma behind each.
tolog_items-with_commas :
    (xs : List Item) (buffer : List ℕ) (room : ℕ)
    → length buffer ≡ 1024
    → logged_size xs ≤ room
    → All Logs xs
    → tolog_items xs buffer room ≡ with_commas (log_words xs)
unfolding tolog_items
tolog_items-with_commas [] buffer room h k logs = refl
tolog_items-with_commas (x ∷ xs) buffer room h k (log, logs) = elim (Bool-cases (is_zero_item x)) [
  | inl empty ↦
      let ih = tolog_items-with_commas xs buffer room h (size_zero x xs room empty k) logs in
      rw (empty, tolog_items) ih
  | inr full ↦
      let r = (toreport x).0 in
      let good = loggable x log full in
      let out = put buffer 0 r in
      let (fits, more) = size_full x xs room full k in
      let text : hexarray2str out (toreport x).1 room ≡ word_of r =
        ap (λ n. hexarray2str out n room) good.whole
        ∙ logged_word buffer r room (omega (arith, good.short)) fits in
      let left : room - (length (hexarray2str out (toreport x).1 room) + 1)
          ≡ room - (2 * length r + 1) =
        ap (λ n. room - (n + 1)) (ap length text ∙ word_of-length r good.bytes) in
      let ih =
        tolog_items-with_commas xs out (room - (2 * length r + 1)) (length-put r buffer 0 ∙ h) more
          logs in
      ap
        (λ b.
          if b
          then tolog_items xs buffer room
          else hexarray2str out (toreport x).1 room
            ++ 44 ∷ tolog_items xs out (room - (length (hexarray2str out (toreport x).1 room) + 1)))
        full
      ∙ ap₂ (λ t n. t ++ 44 ∷ tolog_items xs out n) text left
      ∙ ap (λ t. word_of r ++ 44 ∷ t) ih
      ∙ sym (ap (λ b. with_commas (if b then log_words xs else word_of r ∷ log_words xs)) full)
]

log_words-IsWord : (xs : List Item) → All Logs xs → All IsWord (log_words xs)
log_words-IsWord [] logs = tt
log_words-IsWord (x ∷ xs) (log, logs) =
    if_either (All IsWord) (is_zero_item x) (λ empty. log_words-IsWord xs logs)
      (λ full.
        let good = loggable x log full in
        (word_of-IsWord (toreport x).0 good.bytes good.some_bytes, log_words-IsWord xs logs))

-- The words of a log, each written to the item that it names.
read_words : List (List ℕ) → DataClass → DataClass
read_words [] c = c
read_words (w ∷ ws) c =
    let bytes = str2hexarray w (length w) 500 in
    read_words ws (modify c (log_id bytes) (λ x. (fromreport x bytes).0))

fromlog_matches-texts :
    (log : List ℕ) (ms : List (ℕ × ℕ)) (c : DataClass)
    → fromlog_matches log ms c ≡ read_words (map (match_text log) ms) c
unfolding fromlog_matches read_words
fromlog_matches-texts log [] c = refl
fromlog_matches-texts log (m ∷ ms) c =
    let w = match_text log m in
    let bytes = str2hexarray w (length w) 500 in
    fromlog_matches-texts log ms (modify c (log_id bytes) (λ x. (fromreport x bytes).0))

read_words-perform :
    (xs : List Item) (c : DataClass)
    → All Logs xs
    → read_words (log_words xs) c ≡ perform (log_writes xs) c
unfolding read_words perform report_write
read_words-perform [] c logs = refl
read_words-perform (x ∷ xs) c (log, logs) = elim (Bool-cases (is_zero_item x)) [
  | inl empty ↦ rw empty (read_words-perform xs c logs)
  | inr full ↦
      let r = (toreport x).0 in
      let good = loggable x log full in
      let back = word_of-back r good.bytes (omega (arith, good.short)) in
      let w = report_write x in
      ap (λ b. read_words (if b then log_words xs else word_of r ∷ log_words xs) c) full
      ∙ ap (λ t. read_words (log_words xs) (modify c (log_id t) (λ y. (fromreport y t).0))) back
      ∙ read_words-perform xs (modify c w.number w.change) logs
      ∙ sym (ap (λ b. perform (if b then log_writes xs else report_write x ∷ log_writes xs) c) full)
]

-- Matches whose texts are the words of the items perform the items' writes.
fromlog_matches-perform :
    (xs : List Item) (log : List ℕ) (ms : List (ℕ × ℕ)) (q : DataClass)
    → All Logs xs
    → map (match_text log) ms ≡ log_words xs
    → fromlog_matches log ms q ≡ perform (log_writes xs) q
fromlog_matches-perform xs log ms q logs texts =
    fromlog_matches-texts log ms q ∙ ap (λ ws. read_words ws q) texts ∙ read_words-perform xs q logs

-- How many items have a value.
abbrev pub logged_count : List Item → ℕ
logged_count [] = 0
logged_count (x ∷ xs) = let rest = logged_count xs in if is_zero_item x then rest else suc rest

length-log_words : (xs : List Item) → length (log_words xs) ≡ logged_count xs
length-log_words [] = refl
length-log_words (x ∷ xs) = ground (arith, length-log_words xs)

tolog-with_commas :
    (c : DataClass)
    → All Logs c.items
    → logged_size c.items < 2048
    → tolog c ≡ with_commas (log_words c.items)
unfolding tolog
tolog-with_commas c logs size =
    tolog_items-with_commas c.items (replicate 1024 0) 2048 (length-replicate {A = ℕ} 1024 0)
      (omega arith) logs

-- What `fromlog` makes of a search.
after_search :
    (regexec : List ℕ → Match) (log : List ℕ) (q : DataClass) (s : Search)
    → rx_serach regexec log ≡ s
    → fromlog regexec log q ≡ (elim s [ found l ↦ fromlog_matches log l q | search_error ↦ q ])
unfolding fromlog
after_search regexec log q s e =
    ap (λ t. elim t [ found l ↦ fromlog_matches log l q | search_error ↦ q ]) e

-- Reading a log back performs the writes of the reports that were logged, one after another: where fewer
-- than 16 items have a value, each of these has a report of 1 to 499 bytes whose size `toreport` returns, and
-- the reports take less than the 2048 characters of the log.
pub fromlog-tolog :
    (regexec : List ℕ → Match) (c q : DataClass)
    → IsRegexec regexec
    → All Logs c.items
    → logged_size c.items < 2048
    → logged_count c.items < 16
    → fromlog regexec (tolog c) q ≡ perform (log_writes c.items) q
fromlog-tolog regexec c q k logs size few =
    let ws = log_words c.items in
    let (ms, got, texts) =
      rx_serach-FindsWords regexec k ws (omega (arith, length-log_words c.items))
        (log_words-IsWord c.items logs) in
    ap (λ t. fromlog regexec t q) (tolog-with_commas c logs size)
    ∙ after_search regexec (with_commas ws) q (found ms) got
    ∙ fromlog_matches-perform c.items (with_commas ws) ms q logs texts

-- The log of a table where 16 items or more have a value is not read back at all: the table that reads it
-- stays as it was, under the other conditions of `fromlog-tolog`.
pub fromlog-tolog_many :
    (regexec : List ℕ → Match) (c q : DataClass)
    → IsRegexec regexec
    → All Logs c.items
    → logged_size c.items < 2048
    → 16 ≤ logged_count c.items
    → fromlog regexec (tolog c) q ≡ q
fromlog-tolog_many regexec c q k logs size many =
    let ws = log_words c.items in
    ap (λ t. fromlog regexec t q) (tolog-with_commas c logs size)
    ∙ after_search regexec (with_commas ws) q search_error (
        rx_serach-search_error regexec k ws (omega (arith, length-log_words c.items))
          (log_words-IsWord c.items logs))
