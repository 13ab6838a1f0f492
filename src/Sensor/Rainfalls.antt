-- ===== src/Sensor/Rainfalls.antt =====
-- Sequences of rain counts, `rain_caculation` of app/down/rain.cpp.
use yd.Prelude.{
  ℕ, ◌+◌, ◌*◌, ◌/◌, ◌%◌, ◌^◌, ◌<◌, List, [], ◌∷◌, ◌==◌, if_either, same_either, lt→ltb, All, ◌≡◌,
  refl, sym, subst, ap, ◌∙◌, arith,
}
use yd.Item.{bits, data_invalid_value}
use yd.Store.{DataClass, at}
use yd.Prelude.Int.{ℤ, pos}
use yd.Sensor.{Field, int_of}
use yd.Sensor.Counters.{HasCounts, counted, counted-HasCounts}
use yd.Sensor.Rain.{rain_caculation}

-- A call of `rain_caculation`: the clock, its minute, and the counts of the gauge.
pub record Rainfall : Type 0 where
  pub now : ℕ
  pub minute : ℕ
  pub number : ℕ

unfoldable pub rainfalls : List Rainfall → Field → Field
rainfalls [] f = f
rainfalls (r ∷ rs) f = rainfalls rs (rain_caculation f r.now r.minute r.number)

-- The unit of the gauge, and what the calls add by the program's formula.
abbrev pub unit_of : Field → ℕ
unit_of f = bits (at f.runtime 0x25).val % 2 ^ 16

abbrev pub rain_sum : ℕ → List Rainfall → ℕ
rain_sum u [] = 0
rain_sum u (r ∷ rs) = r.number * (r.number * u) + rain_sum u rs

-- Counts to which nothing is added.
same-HasCounts :
    (d : DataClass) (v hour current all : ℕ)
    → v ≡ 0
    → HasCounts d hour current all
    → HasCounts d (hour + v) (current + v) (all + v)
same-HasCounts d v hour current all zero_v k =
    let e1 : hour + v ≡ hour = omega arith in
    let e2 : current + v ≡ current = omega arith in
    let e3 : all + v ≡ all = omega arith in rw (e1, e2, e3) k

-- The sums of the calls fit an int.
abbrev pub FitsInt : ℕ → List Rainfall → Type 0
FitsInt u rs = All (λ (r : Rainfall). r.number * (r.number * u) < 2 ^ 31) rs

int_of_small : (n : ℕ) → n < 2 ^ 31 → int_of (pos n) ≡ pos n
unfolding int_of
int_of_small n h =
    let same : n % 2 ^ 64 % 2 ^ 32 ≡ n = omega arith in rw same (rw (lt→ltb n (2 ^ 31) h) refl)

rain_caculation-HasCounts :
    (f : Field) (r : Rainfall) (hour current all : ℕ)
    → let v = r.number * (r.number * unit_of f) in
      v < 2 ^ 31
      → HasCounts f.devdata hour current all
      → hour + v < data_invalid_value
      → current + v < data_invalid_value
      → all + v < data_invalid_value
      → HasCounts
          (rain_caculation f r.now r.minute r.number).devdata
          (hour + v)
          (current + v)
          (all + v)
unfolding rain_caculation
rain_caculation-HasCounts f r hour current all small k hh hc ha =
    let v = r.number * (r.number * unit_of f) in
    if_either (λ (g : Field). HasCounts g.devdata (hour + v) (current + v) (all + v))
      (r.number == 0)
      (λ none_fell.
        let none : r.number ≡ 0 = ground (arith, none_fell) in
        same-HasCounts f.devdata v hour current all
          (ap (λ n. n * (n * unit_of f)) none ∙ omega arith) k)
      (λ fell.
        subst
          (λ (z : ℤ).
            HasCounts (counted f.devdata z (r.minute / 5)) (hour + v) (current + v) (all + v))
          (sym (int_of_small v small))
          (counted-HasCounts f.devdata v (r.minute / 5) hour current all k hh hc ha))

rain_caculation-runtime :
    (f : Field) (r : Rainfall) → (rain_caculation f r.now r.minute r.number).runtime ≡ f.runtime
unfolding rain_caculation
rain_caculation-runtime f r = same_either (λ (g : Field). g.runtime) (r.number == 0) refl refl

-- Behind any calls, the rain of the hour, the current rain and the rain of all time have all grown by the
-- same sum, whatever the five-minute intervals: a call adds the square of its count times the unit of the
-- gauge. That holds where the table has the registers, what a call adds is below 2^31, and no sum reaches
-- the mark of a missing value.
pub rainfalls-HasCounts :
    (rs : List Rainfall) (f : Field) (hour current all : ℕ)
    → FitsInt (unit_of f) rs
    → HasCounts f.devdata hour current all
    → hour + rain_sum (unit_of f) rs < data_invalid_value
    → current + rain_sum (unit_of f) rs < data_invalid_value
    → all + rain_sum (unit_of f) rs < data_invalid_value
    → HasCounts
        (rainfalls rs f).devdata
        (hour + rain_sum (unit_of f) rs)
        (current + rain_sum (unit_of f) rs)
        (all + rain_sum (unit_of f) rs)
unfolding rainfalls
rainfalls-HasCounts [] f hour current all small k hh hc ha =
    same-HasCounts f.devdata 0 hour current all refl k
rainfalls-HasCounts (r ∷ rs) f hour current all (small, smalls) k hh hc ha =
    let u = unit_of f in
    let v = r.number * (r.number * u) in
    let rest = rain_sum u rs in
    let g = rain_caculation f r.now r.minute r.number in
    let same : unit_of g ≡ u =
      ap (λ c. bits (at c 0x25).val % 2 ^ 16) (rain_caculation-runtime f r) in
    let k1 =
      rain_caculation-HasCounts f r hour current all small k (omega arith) (omega arith)
        (omega arith) in
    let sum_same : rain_sum (unit_of g) rs ≡ rest = ap (λ n. rain_sum n rs) same in
    let ih =
      rainfalls-HasCounts rs g (hour + v) (current + v) (all + v)
        (subst (λ n. FitsInt n rs) (sym same) smalls) k1 (omega arith) (omega arith)
        (omega arith) in
    let a1 : hour + v + rain_sum (unit_of g) rs ≡ hour + (v + rest) = omega arith in
    let a2 : current + v + rain_sum (unit_of g) rs ≡ current + (v + rest) = omega arith in
    let a3 : all + v + rain_sum (unit_of g) rs ≡ all + (v + rest) = omega arith in
    subst (λ n. HasCounts (rainfalls rs g).devdata n (current + (v + rest)) (all + (v + rest))) a1
      (subst
        (λ n.
          HasCounts (rainfalls rs g).devdata (hour + v + rain_sum (unit_of g) rs) n
            (all + (v + rest)))
        a2
        (subst
          (λ n.
            HasCounts (rainfalls rs g).devdata (hour + v + rain_sum (unit_of g) rs)
              (current + v + rain_sum (unit_of g) rs) n)
          a3 ih))
