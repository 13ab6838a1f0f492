-- ===== src/Sensor/Counters.antt =====
-- The counters of the rain, `increase` and `rain_caculation` of app/down/rain.cpp.
use yd.Prelude.{
  ℕ, get_or, set, ◌+◌, ◌%◌, ◌^◌, ◌<◌, Bool, true, false, ◌==◌, ◌&&◌, ◌||◌, if◌then◌else◌, if_either,
  same_either, ◌≡◌, refl, sym, ap, ◌∙◌, arith,
}
use yd.Prelude.Int.{ℤ, pos, ◌+ℤ◌, pos-add}
use yd.Item.{Item, df_bcd, data_invalid_value, is_invalid, len, is_zero_item, is_zero_of}
use yd.Store.{DataClass, at, modify}
use yd.Store.Access.{Keeps, is_missing, at-modify, is_missing-modify}
use yd.Sensor.Series.{same_item_lem}
use yd.Sensor.Rain.{increase_item, increase, increase_byte, increase_drp}

-- A decimal item of the table; its l64 is `raw`.
pub record IsCounter (x : Item) (raw : ℕ) : Type 0 where
  pub format : x.config.format ≡ df_bcd
  pub digits : (len x == 0) ≡ false
  pub val : x.val ≡ pos raw

-- The count of a register, where no value counts as 0.
abbrev pub count_of : ℕ → ℕ
count_of raw = if raw == data_invalid_value then 0 else raw

increase_item-Keeps : (v : ℤ) → Keeps (increase_item v)
unfolding increase_item
increase_item-Keeps v x = same_either (λ (y : Item). y.config) (is_zero_item x) refl refl

is_zero_item_lem :
    (x : Item) (raw : ℕ) → IsCounter x raw → is_zero_item x ≡ (raw == data_invalid_value)
unfolding is_zero_item is_zero_of
is_zero_item_lem x raw k =
    ap (λ (b : Bool). if b then true else is_zero_of x.config.format x) k.digits
    ∙ ap (λ f. is_zero_of f x) k.format
    ∙ ap is_invalid k.val

-- A counter that is increased counts on.
increase_item-IsCounter :
    (x : Item) (raw v : ℕ)
    → IsCounter x raw
    → IsCounter (increase_item (pos v) x) (count_of raw + v)
unfolding increase_item len
increase_item-IsCounter x raw v k =
    if_either (λ (y : Item). IsCounter y (count_of raw + v)) (is_zero_item x)
      (λ empty.
        let e : (raw == data_invalid_value) ≡ true = sym (is_zero_item_lem x raw k) ∙ empty in
        record { format = k.format; digits = k.digits; val = ap pos (ground (arith, e)) })
      (λ full.
        let e : (raw == data_invalid_value) ≡ false = sym (is_zero_item_lem x raw k) ∙ full in
        record {
          format = k.format;
          digits = k.digits;
          val = ap (λ t. t +ℤ pos v) k.val ∙ pos-add raw v ∙ ap pos (ground (arith, e));
        })

-- Reading past a write of another item, and the item of a write.
past :
    (c : DataClass) (n m : ℕ) (f : Item → Item)
    → Keeps f
    → is_missing c n ≡ false
    → n < 2 ^ 16
    → m < 2 ^ 16
    → (n == m) ≡ false
    → at (modify c n f) m ≡ at c m
past c n m f keep there h k ne =
    at-modify c n m f keep
    ∙ ap (λ (b : Bool). if b then f (at c m) else at c m) (same_item_lem c n m there h k ∙ ne)

onto : (c : DataClass) (n : ℕ) (f : Item → Item) → Keeps f → at (modify c n f) n ≡ f (at c n)
onto c n f keep =
    let e : (n % 2 ^ 16 == n % 2 ^ 16) ≡ true = ground arith in
    at-modify c n n f keep
    ∙ ap (λ (b : Bool). if b || (is_missing c n && is_missing c n) then f (at c n) else at c n) e

-- The table has the registers of the rain.
pub record HasRain (c : DataClass) : Type 0 where
  pub p1 : is_missing c 0x1A ≡ false
  pub pj : is_missing c 0x20 ≡ false
  pub pt : is_missing c 0x26 ≡ false
  pub drp : is_missing c 0xF4 ≡ false

modify-HasRain :
    (c : DataClass) (n : ℕ) (f : Item → Item) → Keeps f → HasRain c → HasRain (modify c n f)
modify-HasRain c n f keep h = record {
  p1 = is_missing-modify c n 0x1A f keep ∙ h.p1;
  pj = is_missing-modify c n 0x20 f keep ∙ h.pj;
  pt = is_missing-modify c n 0x26 f keep ∙ h.pt;
  drp = is_missing-modify c n 0xF4 f keep ∙ h.drp;
}

-- A register that counts `n`.
pub record Counts (x : Item) (n : ℕ) : Type 0 where
  pub raw : ℕ
  pub counter : IsCounter x raw
  pub count : count_of raw ≡ n

increase_item-Counts :
    (x : Item) (n v : ℕ)
    → Counts x n
    → n + v < data_invalid_value
    → Counts (increase_item (pos v) x) (n + v)
increase_item-Counts x n v k fits =
    let e = k.count in
    let valid : (count_of k.raw + v == data_invalid_value) ≡ false = ground arith in
    record {
      raw = count_of k.raw + v;
      counter = increase_item-IsCounter x k.raw v k.counter;
      count = ap (λ (b : Bool). if b then 0 else count_of k.raw + v) valid ∙ ap (λ t. t + v) e;
    }

-- The registers that one count of the rain writes, by name: the hour, the current rain, and all rain.
pub record HasCounts (c : DataClass) (hour current all : ℕ) : Type 0 where
  pub known : HasRain c
  pub hours : Counts (at c 0x1A) hour
  pub currents : Counts (at c 0x20) current
  pub alls : Counts (at c 0x26) all

-- The table behind one count.
abbrev pub counted : DataClass → ℤ → ℕ → DataClass
counted c v off = increase (increase_drp (increase (increase c 0x1A v) 0x20 v) v off) 0x26 v

pub counted-HasCounts :
    (c : DataClass) (v off hour current all : ℕ)
    → HasCounts c hour current all
    → hour + v < data_invalid_value
    → current + v < data_invalid_value
    → all + v < data_invalid_value
    → HasCounts (counted c (pos v) off) (hour + v) (current + v) (all + v)
unfolding increase increase_drp
counted-HasCounts c v off hour current all k hh hc ha =
    let up = increase_item (pos v) in
    let keep = increase_item-Keeps (pos v) in
    let cell : Item → Item =
      λ x. record x { hex = set x.hex off (increase_byte (get_or x.hex off 0) (pos v)) } in
    let c1 = modify c 0x1A up in
    let c2 = modify c1 0x20 up in
    let c3 = modify c2 0xF4 cell in
    let k1 = modify-HasRain c 0x1A up keep k.known in
    let k2 = modify-HasRain c1 0x20 up keep k1 in
    let k3 = modify-HasRain c2 0xF4 cell (λ x. refl) k2 in
    let hour_is : at (modify c3 0x26 up) 0x1A ≡ up (at c 0x1A) =
      past c3 0x26 0x1A up keep k3.pt (omega arith) (omega arith) refl
      ∙ past c2 0xF4 0x1A cell (λ x. refl) k2.drp (omega arith) (omega arith) refl
      ∙ past c1 0x20 0x1A up keep k1.pj (omega arith) (omega arith) refl
      ∙ onto c 0x1A up keep in
    let current_is : at (modify c3 0x26 up) 0x20 ≡ up (at c 0x20) =
      past c3 0x26 0x20 up keep k3.pt (omega arith) (omega arith) refl
      ∙ past c2 0xF4 0x20 cell (λ x. refl) k2.drp (omega arith) (omega arith) refl
      ∙ onto c1 0x20 up keep
      ∙ ap up (past c 0x1A 0x20 up keep k.known.p1 (omega arith) (omega arith) refl) in
    let all_is : at (modify c3 0x26 up) 0x26 ≡ up (at c 0x26) =
      onto c3 0x26 up keep
      ∙ ap up (
          past c2 0xF4 0x26 cell (λ x. refl) k2.drp (omega arith) (omega arith) refl
          ∙ past c1 0x20 0x26 up keep k1.pj (omega arith) (omega arith) refl
          ∙ past c 0x1A 0x26 up keep k.known.p1 (omega arith) (omega arith) refl) in
    record {
      known = modify-HasRain c3 0x26 up keep k3;
      hours = rw hour_is (increase_item-Counts (at c 0x1A) hour v k.hours hh);
      currents = rw current_is (increase_item-Counts (at c 0x20) current v k.currents hc);
      alls = rw all_is (increase_item-Counts (at c 0x26) all v k.alls ha);
    }
