-- ===== src/Center/Header.antt =====
-- The head of a message, app/up/packet/header.cpp, and the program's state that the messages and the
-- commands share.
use yd.Prelude.{
  ℕ, ◌+◌, ◌-◌, ◌*◌, ◌%◌, ◌^◌, bit_or, List, [], ◌∷◌, ◌++◌, take, drop, put, length, length-put,
  take-put, Bool, ◌≡◌, ◌≤◌,
}
use yd.Codec.Bcd.{le_bytes, bytehex2bcd}
use yd.Codec.Order.{little2big, inverseto}
use yd.Item.{bits}
use yd.Store.{DataClass, at}

-- The members of `struct tm`, with `tm_year + 1900` as the year and `tm_mon + 1` as the month, as
-- `get_time_bcd` and `set_time` take them.
pub record Calendar : Type 0 where
  pub year : ℕ
  pub month : ℕ
  pub day : ℕ
  pub hour : ℕ
  pub minute : ℕ
  pub second : ℕ

-- What a command does besides its answer and the registers.
pub data StationEffect : Type 0 where
  param_save : DataClass → StationEffect
  runtime_save : DataClass → StationEffect
  time_set : Calendar → StationEffect

-- The variables behind the commands. `now` is the clock, `effects` the newest first.
pub record Station : Type 0 where
  pub liushui : ℕ
  pub remote : ℕ
  pub observetime : ℕ
  pub now : ℕ
  pub param : DataClass
  pub runtime : DataClass
  pub devdata : DataClass
  pub shishi : List ℕ
  pub second_time : Bool
  pub effects : List StationEffect

pub record Header : Type 0 where
  pub liushui : ℕ
  pub sendtime : ℕ
  pub local : ℕ
  pub type : ℕ
  pub observetime : ℕ

-- An output buffer and how much of it is written.
pub record Out : Type 0 where
  pub buf : List ℕ
  pub size : ℕ

-- The bytes, of which the position moves on by `n`.
unfoldable pub emit : Out → List ℕ → ℕ → Out
emit o bytes n = record { buf = put o.buf o.size bytes; size = o.size + n }

abbrev pub emit_all : Out → List ℕ → Out
emit_all o bytes = emit o bytes (length bytes)

abbrev pub text : Out → List ℕ
text o = take o.size o.buf

-- A number of the calendar, in a u8 and as two digits.
unfoldable pub time_byte : ℕ → ℕ
time_byte n = bytehex2bcd (n % 2 ^ 8) % 2 ^ 8

-- `result <<= 8` and `result |= b`.
unfoldable pub push_byte : ℕ → ℕ → ℕ
push_byte result b = bit_or (result * 2 ^ 8 % 2 ^ 64) b

-- `get_time_bcd`, of the calendar's `tm_year + 1900` and `tm_mon + 1`.
unfoldable pub get_time_bcd : Calendar → ℕ
get_time_bcd t =
    let y = bit_or 0 (time_byte (t.year % 100)) in
    let m = push_byte y (time_byte t.month) in
    let d = push_byte m (time_byte t.day) in
    let h = push_byte d (time_byte t.hour) in
    push_byte (push_byte h (time_byte t.minute)) (time_byte t.second)

-- `get_observetime_time`: the variable itself loses its seconds.
unfoldable pub get_observetime_time : Station → Station × ℕ
get_observetime_time s =
    let t = s.observetime - s.observetime % 60 in (record s { observetime = t }, t)

-- `Header::Header`; "terminalType" is 0xFF01.
unfoldable pub new_header : Station → Station × Header
new_header s =
    let (s1, observetime) = get_observetime_time s in
    (
      s1,
      record {
        liushui = s.liushui % 2 ^ 16;
        local = bits (at s.param 0x02).val;
        observetime = observetime;
        sendtime = s.now;
        type = bits (at s.param 0xFF01).val % 2 ^ 8;
      },
    )

module _ (localtime : ℕ → Calendar) where
  -- `to_array_front3`: number, time, and address behind its guide.
  unfoldable pub to_array_front3 : Header → Out → Out
  to_array_front3 h o =
      let o1 = emit o (little2big (le_bytes 2 h.liushui) 2) 2 in
      let o2 = emit o1 (little2big (le_bytes 8 (get_time_bcd (localtime h.sendtime))) 6) 6 in
      let o3 = emit o2 (0xF1 ∷ 0xF1 ∷ []) 2 in emit o3 (inverseto (le_bytes 8 h.local) 5) 5

  -- `to_array`: the same, then the station's type and the time of the observation without seconds.
  unfoldable pub to_array : Header → Out → Out
  to_array h o =
      let o1 = emit o (little2big (le_bytes 2 h.liushui) 2) 2 in
      let o2 = emit o1 (little2big (le_bytes 8 (get_time_bcd (localtime h.sendtime))) 6) 6 in
      let o3 = emit o2 (0xF1 ∷ 0xF1 ∷ []) 2 in
      let o4 = emit o3 (inverseto (le_bytes 8 h.local) 5) 5 in
      let o5 = emit o4 (h.type ∷ []) 1 in
      let o6 = emit o5 (0xF0 ∷ 0xF0 ∷ []) 2 in
      emit o6 (little2big (drop 1 (le_bytes 8 (get_time_bcd (localtime h.observetime)))) 5) 5

-- Emitting bytes that fit puts them behind the text.
pub text-emit :
    (o : Out) (bytes : List ℕ)
    → o.size + length bytes ≤ length o.buf
    → text (emit_all o bytes) ≡ text o ++ bytes
unfolding emit
text-emit o bytes h = take-put bytes o.buf o.size h

pub length-emit : (o : Out) (bytes : List ℕ) (n : ℕ) → length (emit o bytes n).buf ≡ length o.buf
unfolding emit
length-emit o bytes n = length-put bytes o.buf o.size

-- The setters of the shared variables.
unfoldable pub set_current_remote : Station → ℕ → Station
set_current_remote s r = record s { remote = r % 2 ^ 8 }

unfoldable pub set_current_liushui : Station → ℕ → Station
set_current_liushui s liu = record s { liushui = liu }

unfoldable pub set_observetime_time : Station → ℕ → Station
set_observetime_time s t = record s { observetime = t }
