-- ===== src/Store/Log.antt =====
-- Reading a logged table back, `fromlog` of data/DataClass.hpp.
pub mod Trip
pub mod Values
use yd.Prelude.{ℕ, ◌+◌, bit_or, List, [], ◌∷◌, get_or, length, ◌==◌, if◌then◌else◌}
use yd.Codec.Hex.{str2hexarray}
use yd.Codec.Search.{Match, Search, found, search_error, rx_serach, match_text}
use yd.Item.{fromreport}
use yd.Store.{DataClass, modify}

-- `sid`: the identifier that a report begins with.
unfoldable pub log_id : List ℕ → ℕ
log_id bytes =
    if get_or bytes 0 0 == 0xFF then bit_or 0xFF00 (get_or bytes 1 0) else get_or bytes 0 0

-- The matches, each written to the item that it names. The source copies a match into an array of 1000
-- bytes with a zero behind it, and reads what it converted from an array of 500 bytes that it did not
-- clear: this is its course for matches of less than 1000 characters that hold the bytes that `fromreport`
-- reads; a byte that is not there is taken as 0.
unfoldable pub fromlog_matches : List ℕ → List (ℕ × ℕ) → DataClass → DataClass
fromlog_matches log [] c = c
fromlog_matches log (m ∷ ms) c =
    let substring = match_text log m in
    let bytes = str2hexarray substring (length substring) 500 in
    fromlog_matches log ms (modify c (log_id bytes) (λ x. (fromreport x bytes).0))

-- `fromlog`; without a match, and behind an error of the search, where it has 16 matches or more, nothing is
-- written.
unfoldable pub fromlog : (List ℕ → Match) → List ℕ → DataClass → DataClass
fromlog regexec log c = elim (rx_serach regexec log) [
  | found ms ↦ fromlog_matches log ms c
  | search_error ↦ c
]
