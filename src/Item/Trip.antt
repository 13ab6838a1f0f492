-- ===== src/Item/Trip.antt =====
-- Reports of numbers, written by `toreport` and read by `fromreport` of data/DataClass.hpp.
use yd.Prelude.{
  ℕ, suc, ◌+◌, ◌-◌, ◌*◌, ◌/◌, ◌%◌, ◌^◌, ◌≤◌, ◌<◌, min, bit_or, true, false, ltb, lt→ltb,
  le→ltb_false, ◌==◌, ◌≡◌, arith,
}
use yd.Prelude.Bits.{bit_or_low}
use yd.Prelude.Int.{ℤ, pos, negsuc}
use yd.Codec.Bcd.Trip.{bigbcd2hex-report_bcd}
use yd.Item.{
  df_bcd, Item, data_invalid_value, len, reportlen, negreportlen, to_l64, to_report_of, is_zero_of,
  is_zero_item, toreport_value, toreport, fromreport_of, fromreport,
}

-- An item of `digits` decimal digits.
abbrev pub bcd_item : ℕ → ℕ → ℕ → ℤ → Item → Item
bcd_item id digits fl v item = record item {
  config = record { id = id; len = digits; fl = fl; format = df_bcd };
  val = v;
}

-- The configurations whose reports can be told apart: an identifier of one byte that is not 0xFF, and
-- lengths that fit the length byte.
pub record IsPlain (id digits fl : ℕ) : Type 0 where
  pub own : id ≤ 0xFF00
  pub not_ff : id % 2 ^ 8 < 0xFF
  pub some_digits : 0 < digits
  pub short : (digits + 1) / 2 < 31
  pub fraction : fl < 8

rsize_lem : (l fl : ℕ) → l < 32 → fl < 8 → bit_or (l * 2 ^ 3) fl % 2 ^ 8 / 2 ^ 3 ≡ l
rsize_lem l fl h k = omega (arith, bit_or_low 5 3 l fl (omega arith) (omega arith))

pub to_l64_small : (n : ℕ) → n < 2 ^ 63 → to_l64 n ≡ pos n
unfolding to_l64
to_l64_small n h = rw (lt→ltb n (2 ^ 63) h)

-- A decimal number that is not negative and fits its digits is read back from its report, into any item of
-- the same configuration, and the result is the number of value bytes: for the format of decimal numbers, an
-- identifier of at most FF00H whose low byte is not FFH, 1 to 60 digits, a fraction below 8, and a number
-- that is not the mark of a missing value.
pub fromreport-toreport :
    (id digits fl v : ℕ) (old : ℤ) (item item2 : Item)
    → IsPlain id digits fl
    → v < 100 ^ ((digits + 1) / 2)
    → v < data_invalid_value
    → fromreport (bcd_item id digits fl old item2) (toreport (bcd_item id digits fl (pos v) item)).0
      ≡ (bcd_item id digits fl (pos v) item2, (digits + 1) / 2)
unfolding fromreport fromreport_of toreport toreport_value to_report_of is_zero_item is_zero_of len
    reportlen
fromreport-toreport id digits fl v old item item2 p h k =
    let own = p.own in
    let l = (digits + 1) / 2 in
    let n1 : ltb 0xFF00 id ≡ false = le→ltb_false 0xFF00 id p.own in
    let n2 : (digits == 0) ≡ false = let d = p.some_digits in ground arith in
    let n3 : (l == 0) ≡ false = let d = p.some_digits in ground arith in
    let n4 : (v == data_invalid_value) ≡ false = ground arith in
    let n5 : (id % 2 ^ 8 == 0xFF) ≡ false = let d = p.not_ff in ground arith in
    let n6 : bit_or (l * 2 ^ 3) fl % 2 ^ 8 / 2 ^ 3 ≡ l =
      rsize_lem l fl (let s = p.short in omega arith) p.fraction in
    let n7 : ltb l l ≡ false = le→ltb_false l l (omega arith) in
    let n8 : min l l ≡ l = omega arith in
    let trip = bigbcd2hex-report_bcd l v h (omega arith) in
    rw (n1, n2, n3, n4, n5, n6, n7, n8, trip, to_l64_small v (omega arith))

-- A negative number is reported with a byte 0xFF in front of its digits, and is read back without its
-- sign.
fromreport-toreport_unsigned :
    (id digits fl m : ℕ) (old : ℤ) (item item2 : Item)
    → IsPlain id digits fl
    → suc m < 100 ^ ((digits + 1) / 2)
    → suc m < data_invalid_value
    → fromreport
        (bcd_item id digits fl old item2)
        (toreport (bcd_item id digits fl (negsuc m) item)).0
      ≡ (bcd_item id digits fl (pos (suc m)) item2, (digits + 1) / 2 + 1)
unfolding fromreport fromreport_of toreport toreport_value to_report_of is_zero_item is_zero_of len
    negreportlen
fromreport-toreport_unsigned id digits fl m old item item2 p h k =
    let l = (digits + 1) / 2 in
    let n1 : ltb 0xFF00 id ≡ false = le→ltb_false 0xFF00 id p.own in
    let n2 : (digits == 0) ≡ false = let d = p.some_digits in ground arith in
    let n3 : (l == 0) ≡ false = let d = p.some_digits in ground arith in
    let n5 : (id % 2 ^ 8 == 0xFF) ≡ false = let d = p.not_ff in ground arith in
    let n6 : bit_or ((l + 1) * 2 ^ 3) fl % 2 ^ 8 / 2 ^ 3 ≡ l + 1 =
      rsize_lem (l + 1) fl (let s = p.short in omega arith) p.fraction in
    let n7 : ltb l (l + 1) ≡ true = lt→ltb l (l + 1) (omega arith) in
    let n8 : l + 1 - 1 ≡ l = omega arith in
    let trip = bigbcd2hex-report_bcd l (suc m) h (omega arith) in
    rw (n1, n2, n3, n5, n6, n7, n8, trip, to_l64_small (suc m) (omega arith))
