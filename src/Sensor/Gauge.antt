-- ===== src/Sensor/Gauge.antt =====
-- The rain gauge, di_get of app/down/_sensor_yuliang.cpp: its input is sampled, and a change to 0 is a
-- count of the rain.
use yd.Prelude.{
  ℕ, ◌+◌, ◌*◌, ◌^◌, ◌<◌, List, [], ◌∷◌, All, length, Bool, true, false, ◌==◌, not, ◌&&◌,
  if◌then◌else◌, if_either, Bool-cases, ◌≡◌, inl, inr, refl, sym, subst, ap, ◌∙◌, arith,
}
use yd.Item.{data_invalid_value}
use yd.Sensor.{Field}
use yd.Sensor.Rain.{rain_caculation}
use yd.Sensor.Counters.{HasCounts}
use yd.Sensor.Rainfalls.{Rainfall, rainfalls, rain_sum, unit_of, FitsInt, rainfalls-HasCounts}

-- What the driver gives: the time and the value of the input, `di_read_cfg_s`.
pub record Sample : Type 0 where
  pub time : ℕ
  pub value : ℕ

-- A call of `di_get`: the sample, and the clock and its minute where the rain is counted.
pub record Look : Type 0 where
  pub sample : Sample
  pub now : ℕ
  pub minute : ℕ

-- The tables and the static `last`.
pub record Gauge : Type 0 where
  pub field : Field
  pub last : Sample

unfoldable pub di_get : Gauge → Look → Gauge
di_get g k =
    let c = k.sample in
    let last = if g.last.time == g.last.value && g.last.time == 0 then c else g.last in
    let f = if c.value == 0 then rain_caculation g.field k.now k.minute 1 else g.field in
    if not (last.value == c.value)
    then record { field = f; last = c }
    else record { field = g.field; last = last }

unfoldable pub looks : List Look → Gauge → Gauge
looks [] g = g
looks (k ∷ ks) g = looks ks (di_get g k)

-- The calls that see the input fall to 0, from a value on.
abbrev pub falls : ℕ → List Look → List Rainfall
falls v [] = []
falls v (k ∷ ks) =
    let rest = falls k.sample.value ks in
    if not (v == k.sample.value) && k.sample.value == 0
    then record { now = k.now; minute = k.minute; number = 1 } ∷ rest
    else rest

abbrev pub IsTimed : Look → Type 0
IsTimed k = 0 < k.sample.time

-- A call once a first sample was taken.
abbrev sampled : Gauge → Look → Gauge
sampled g k =
    let f = if k.sample.value == 0 then rain_caculation g.field k.now k.minute 1 else g.field in
    if not (g.last.value == k.sample.value) then record { field = f; last = k.sample } else g

di_get-sampled : (g : Gauge) (k : Look) → 0 < g.last.time → di_get g k ≡ sampled g k
unfolding di_get
di_get-sampled g k h =
    let f = if k.sample.value == 0 then rain_caculation g.field k.now k.minute 1 else g.field in
    let next : Field → Sample → Gauge = λ x y. record { field = x; last = y } in
    let started : (g.last.time == g.last.value && g.last.time == 0) ≡ false = ground (arith, h) in
    ap
      (λ b.
        let last : Sample = if b then k.sample else g.last in
        if not (last.value == k.sample.value) then next f k.sample else next g.field last)
      started

-- The tables behind any calls are those behind the counts of the falls.
looks-rainfalls :
    (ks : List Look) (g : Gauge)
    → 0 < g.last.time
    → All IsTimed ks
    → (looks ks g).field ≡ rainfalls (falls g.last.value ks) g.field
unfolding looks rainfalls
looks-rainfalls [] g h timed = refl
looks-rainfalls (k ∷ ks) g h (t, timed) =
    let s = k.sample in
    let rest = falls s.value ks in
    let r : Rainfall = record { now = k.now; minute = k.minute; number = 1 } in
    let next : Bool → Gauge = λ z. record {
      field = if z then rain_caculation g.field k.now k.minute 1 else g.field;
      last = s;
    } in
    let counts : Bool → Bool → List Rainfall = λ e z. if not e && z then r ∷ rest else rest in
    let behind : (e z : Bool) → Type 0 =
      λ e z. (looks ks (if not e then next z else g)).field ≡ rainfalls (counts e z) g.field in
    ap (λ x. (looks ks x).field) (di_get-sampled g k h)
    ∙ elim (Bool-cases (g.last.value == s.value)) [
      | inl same ↦
          let value : g.last.value ≡ s.value = ground (arith, same) in
          subst (λ e. behind e (s.value == 0)) (sym same)
            (looks-rainfalls ks g h timed ∙ ap (λ v. rainfalls (falls v ks) g.field) value)
      | inr moved ↦
          subst (λ e. behind e (s.value == 0)) (sym moved)
            (elim (Bool-cases (s.value == 0)) [
              | inl low ↦ subst (behind false) (sym low) (looks-rainfalls ks (next true) t timed)
              | inr high ↦ subst (behind false) (sym high) (looks-rainfalls ks (next false) t timed)
            ])
    ]

falls-rain_sum : (u v : ℕ) (ks : List Look) → rain_sum u (falls v ks) ≡ length (falls v ks) * u
falls-rain_sum u v [] = omega arith
falls-rain_sum u v (k ∷ ks) =
    let rest = falls k.sample.value ks in
    let ih = falls-rain_sum u k.sample.value ks in
    if_either (λ (rs : List Rainfall). rain_sum u rs ≡ length rs * u)
      (not (v == k.sample.value) && k.sample.value == 0)
      (λ fell. ap (λ n. 1 * (1 * u) + n) ih ∙ grind arith) (λ kept. ih)

falls-FitsInt : (u v : ℕ) (ks : List Look) → u < 2 ^ 16 → FitsInt u (falls v ks)
falls-FitsInt u v [] h = tt
falls-FitsInt u v (k ∷ ks) h =
    if_either (FitsInt u) (not (v == k.sample.value) && k.sample.value == 0)
      (λ fell. (omega arith, falls-FitsInt u k.sample.value ks h))
      (λ kept. falls-FitsInt u k.sample.value ks h)

-- Each change of the gauge's input to 0 is counted once: behind any calls of the driver, the rain of
-- the hour, the current rain and the rain of all time have all grown by the unit of the gauge for
-- each call whose sample is 0 behind a sample that is not, where a sample was taken before, the times
-- are not 0, the table has the registers and no count reaches the mark of a missing value.
pub looks-HasCounts :
    (ks : List Look) (g : Gauge) (hour current all : ℕ)
    → let rain = length (falls g.last.value ks) * unit_of g.field in
      0 < g.last.time
      → All IsTimed ks
      → HasCounts g.field.devdata hour current all
      → hour + rain < data_invalid_value
      → current + rain < data_invalid_value
      → all + rain < data_invalid_value
      → HasCounts (looks ks g).field.devdata (hour + rain) (current + rain) (all + rain)
looks-HasCounts ks g hour current all h timed k hh hc ha =
    let rs = falls g.last.value ks in
    let sum = falls-rain_sum (unit_of g.field) g.last.value ks in
    subst
      (λ rain.
        hour + rain < data_invalid_value
        → current + rain < data_invalid_value
        → all + rain < data_invalid_value
        → HasCounts (looks ks g).field.devdata (hour + rain) (current + rain) (all + rain))
      sum
      (λ hh hc ha.
        subst
          (λ (f : Field).
            HasCounts f.devdata (hour + rain_sum (unit_of g.field) rs)
              (current + rain_sum (unit_of g.field) rs) (all + rain_sum (unit_of g.field) rs))
          (sym (looks-rainfalls ks g h timed))
          (rainfalls-HasCounts rs g.field hour current all
            (falls-FitsInt (unit_of g.field) g.last.value ks (omega arith)) k hh hc ha))
      hh hc ha
