-- ===== src/Examples/Commands.antt =====
-- Runs of the item tables and of the center's commands.
use yd.Prelude.{
  length, ◌≤◌, ℕ, ◌+◌, List, [], ◌∷◌, ◌++◌, replicate, Option, none, true, false, ◌≡◌, ◌⊎◌, refl,
  arith, ◌==◌, ◌&&◌, ◌-◌,
}
use yd.Prelude.Int.{pos}
use yd.Packet.Frame.{ud_size, ud_rlocal, ud_rpasswd}
use yd.SendMode.{Answer}
use yd.Examples.Sending.{ready}
use yd.Item.{bits}
use yd.Store.{
  DataClass, data_class_init, init_items, init_format, find_item, modify_item, at, modify,
}
use yd.Store.Tables.Devdata.{devdata_config_items}
use yd.Store.Tables.Param.{param_config_items}
use yd.Store.Tables.Runtime.{runtime_config_items}
use yd.Center.Header.{Calendar, Station, Out, Header, text, to_array_front3}
use yd.Center.Commands.{set_items, set_runtime, set_time, change_password, nothing, time_of}
use yd.Center.Process.{World, Center, center_process}
use yd.Center.Times.{time_of-to_array_front3, IsObeyed, IsRefused, set_time_twice}
use yd.Center.Registers.{IsApplied, set_runtime-IsApplied}
use yd.Center.Guards.{
  may_change, new_password, HasPassword, is_known, IsNumbered, change_password-cases,
  change_password-is_known, center_process-IsNumbered,
}

abbrev addresses : ℕ → ℕ
addresses i = 4096 + i

abbrev runtime : DataClass
runtime = data_class_init addresses runtime_config_items

-- A clock that stands at 17:03:34 on the second of August 2022.
abbrev august : ℕ → Calendar
august t = record { year = 2022; month = 8; day = 2; hour = 17; minute = 3; second = 34 }

abbrev head : Header
head = record {
  liushui = 7;
  sendtime = 1659459814;
  local = 0x1234408016;
  type = 0x48;
  observetime = 1659459780;
}

abbrev empty_out : Out
empty_out = record { buf = replicate 64 0; size = 0 }

time_of-to_array_front3_example :
    time_of (text (to_array_front3 august head (record { buf = replicate 64 0; size = 0 })))
    ≡ august 1659459814
time_of-to_array_front3_example =
    time_of-to_array_front3 august head (replicate 64 0) (omega arith) (record {
      year = (omega arith, omega arith);
      month = omega arith;
      day = omega arith;
      hour = omega arith;
      minute = omega arith;
      second = omega arith;
    })

abbrev pub station : Station
station = record {
  liushui = 1;
  remote = 1;
  observetime = 1659459790;
  now = 1659459814;
  param = data_class_init addresses param_config_items;
  runtime = runtime;
  devdata = data_class_init addresses devdata_config_items;
  shishi = 0x20 ∷ 0x39 ∷ [];
  second_time = false;
  effects = [];
}

-- Number and time in front of a text, and a time of another year.
abbrev front : List ℕ
front = 0 ∷ 1 ∷ 0x22 ∷ 0x08 ∷ 0x02 ∷ 0x17 ∷ 0x03 ∷ 0x34 ∷ []

abbrev later : List ℕ
later = 0 ∷ 2 ∷ 0x23 ∷ 0x01 ∷ 0x01 ∷ 0x00 ∷ 0x00 ∷ 0x00 ∷ []

set_time_twice_example :
    IsObeyed (time_of later) station (set_time august (λ t. pos 1672502400) station later empty_out)
    ⊎ IsRefused station (set_time august (λ t. pos 1672502400) station later empty_out)
      × IsObeyed (time_of front) station (
          set_time august
            (λ t. pos 1672502400)
            (set_time august (λ t. pos 1672502400) station later empty_out).station
            front
            empty_out)
set_time_twice_example =
    set_time_twice august (λ t. pos 1672502400) station later front empty_out empty_out

-- 22H, one byte: 8; then 24H, one byte: 5.
abbrev two_reports : List ℕ
two_reports = front ++ 0x22 ∷ 0x08 ∷ 0x08 ∷ 0x24 ∷ 0x08 ∷ 0x05 ∷ []

set_runtime-IsApplied_example :
    let r = set_runtime august station two_reports 14 empty_out in
    (length (set_items 14 station.runtime two_reports 8 14).ids ≤ 200)
    × IsApplied two_reports 14 station.runtime r.station.runtime station r
set_runtime-IsApplied_example =
    set_runtime-IsApplied august station two_reports 14 empty_out (omega arith)

-- The station with password 1234H, and the command that sets 5678H.
abbrev guarded : Station
guarded = record station { param = modify station.param 0x03 (λ x. record x { val = pos 0x1234 }) }

abbrev password_text : List ℕ
password_text = front ++ 0x03 ∷ 0x10 ∷ 0x12 ∷ 0x34 ∷ 0x03 ∷ 0x10 ∷ 0x56 ∷ 0x78 ∷ []

change_password-cases_example :
    (may_change guarded password_text ≡ false)
      × (change_password august guarded password_text empty_out ≡ nothing guarded empty_out)
    ⊎ (may_change guarded password_text ≡ true)
      × HasPassword guarded
          (new_password password_text)
          (change_password august guarded password_text empty_out)
change_password-cases_example = change_password-cases august guarded password_text empty_out

-- A packet from nowhere: address 0 and password 0.
abbrev stranger : List ℕ
stranger = replicate ud_size 0

change_password-is_known_example :
    is_known (change_password august guarded password_text empty_out).station stranger ≡ (
      (ud_rlocal stranger == bits (at guarded.param 0x02).val)
      && (ud_rpasswd stranger == new_password password_text))
unfolding data_class_init init_items init_format find_item modify_item at modify
change_password-is_known_example =
    change_password-is_known august guarded password_text stranger empty_out refl refl

abbrev center : Center
center = record {
  station = guarded;
  transfer = ready;
  seial_number = 65535;
  centerdata = replicate 4096 0;
}

abbrev world : World
world = record {
  localtime = august;
  mktime = λ t. pos 1672502400;
  version = 0x56 ∷ 0x31 ∷ [];
  clear = λ s. s;
  factory = λ s. s;
}

abbrev nobody : ℕ → Option Answer
nobody t = none

-- The test of the clock, 51H, sent to address 0 with password 0.
abbrev clock_question : List ℕ
clock_question =
    0x7E ∷ 0x7E ∷ 0 ∷ 0 ∷ 0 ∷ 0 ∷ 0 ∷ 1 ∷ 0 ∷ 0 ∷ 0x51 ∷ 0x08 ∷ 0x80 ∷ replicate (ud_size - 13) 0

abbrev open_center : Center
open_center = record center {
  station = record station {
    param =
        modify (modify station.param 0x02 (λ x. record x { val = pos 0 })) 0x03
          (λ x. record x { val = pos 0 });
  };
}

center_process-IsNumbered_example :
    IsNumbered
      (center_process nobody (λ t. true) world [] open_center clock_question clock_question).0
center_process-IsNumbered_example =
    center_process-IsNumbered nobody (λ t. true) world [] open_center clock_question clock_question
      (omega arith, omega arith)
