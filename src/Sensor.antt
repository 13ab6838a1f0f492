-- ===== src/Sensor.antt =====
-- What is computed from the sensors' readings, app/down/rain.cpp, app/down/waterlevel.cpp and
-- app/down/flow.cpp: the tables they share, and helpers of lib/lib.cpp about the time.
pub mod WaterLevel
pub mod Rain
pub mod Series
pub mod Counters
pub mod Rainfalls
pub mod Gauge
pub mod Flow
pub mod Request
pub mod Answers
pub mod Reading
use yd.Prelude.{
  ℕ, zero, suc, ◌+◌, ◌-◌, ◌*◌, ◌/◌, ◌%◌, ◌^◌, List, [], ◌∷◌, set, Bool, true, false, ltb, ◌==◌, not,
  if◌then◌else◌,
}
use yd.Prelude.Int.{ℤ, pos, negsuc}
use yd.Item.{Item, bits}
use yd.Store.{DataClass, modify}

-- The tables `devdata`, `runtime` and `A`, and the time of the observation.
pub record Field : Type 0 where
  pub devdata : DataClass
  pub runtime : DataClass
  pub appdata : DataClass
  pub observetime : ℕ

-- `is_diff_hour`.
unfoldable pub is_diff_hour : ℕ → ℕ → Bool
is_diff_hour t1 t2 = not (t1 - t1 % 3600 == t2 - t2 % 3600)

-- `TimeOffset5Min`, of the minutes that `localtime` gives.
unfoldable pub time_offset_5min : ℕ → ℕ
time_offset_5min minute = minute / 5

-- `Cycle_Check`, of the seconds of the day; `delays` is not more than them, or the rest of their
-- difference counts as much.
unfoldable pub cycle_check : ℕ → ℕ → ℕ → Bool
cycle_check seconds_of_day cycle_seconds delays =
    if cycle_seconds == 0
    then false
    else if ltb seconds_of_day delays
    then (delays - seconds_of_day) % cycle_seconds == 0
    else (seconds_of_day - delays) % cycle_seconds == 0

-- The multiple of an integer, and an l64 cut to an int.
unfoldable pub times : ℤ → ℕ → ℤ
times (pos a) n = pos (a * n)
times (negsuc a) zero = pos 0
times (negsuc a) (suc n) = negsuc ((a + 1) * suc n - 1)

unfoldable pub int_of : ℤ → ℤ
int_of v = let n = bits v % 2 ^ 32 in if ltb n (2 ^ 31) then pos n else negsuc (2 ^ 32 - 1 - n)

-- An assignment to `val`, and to a cell of `hex`.
unfoldable pub set_val : DataClass → ℕ → ℤ → DataClass
set_val c id v = modify c id (λ x. record x { val = v })

unfoldable pub set_hex : DataClass → ℕ → ℕ → ℕ → DataClass
set_hex c id i v = modify c id (λ x. record x { hex = set x.hex i v })
