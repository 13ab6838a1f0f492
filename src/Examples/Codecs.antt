-- ===== src/Examples/Codecs.antt =====
-- Runs of the conversions of lib/lib.cpp.
use yd.Prelude.{ℕ, List, [], ◌∷◌, ◌++◌, IsBytes, ◌≢◌, refl, arith}
use yd.Codec.Crc.{crc_calculate}
use yd.Codec.Crc.Detect.{crc_calculate_detects}

abbrev two_bytes : List ℕ
two_bytes = 0x7E ∷ 0x12 ∷ []

two_bytes-IsBytes : IsBytes two_bytes
two_bytes-IsBytes = (omega arith, (omega arith, tt))

crc_calculate_detects_example :
    crc_calculate (two_bytes ++ 3 ∷ two_bytes) 5 ≢ crc_calculate (two_bytes ++ 4 ∷ two_bytes) 5
crc_calculate_detects_example =
    crc_calculate_detects two_bytes two_bytes 3 4 5 two_bytes-IsBytes two_bytes-IsBytes
      (omega arith) (omega arith) refl (omega arith) (λ e. omega (arith, e))
