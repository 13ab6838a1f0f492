-- ===== src/Examples/Sensors.antt =====
-- Runs of the sensors' computations.
use yd.Prelude.{
  if◌then◌else◌, ◌==◌, ◌&&◌, ◌%◌, ◌^◌, ℕ, ◌++◌, ◌*◌, ◌+◌, List, [], ◌∷◌, ◌≡◌, refl, arith,
  replicate, length, none, some, false,
}
use yd.Prelude.Int.{pos}
use yd.Item.{bits, len, data_invalid_value}
use yd.Store.{
  DataClass, data_class_init, init_items, init_format, find_item, modify_item, modify, at,
}
use yd.Store.Tables.Devdata.{devdata_config_items}
use yd.Store.Tables.Param.{appdata_config_items}
use yd.Store.Tables.Runtime.{runtime_config_items}
use yd.Sensor.{Field, set_val}
use yd.Sensor.WaterLevel.{set_drz, get_drz}
use yd.Sensor.Series.{get_drz-set_drz}
use yd.Sensor.Request.{Numerics, recv_patten, recv_patten_loop}
use yd.Sensor.Answers.{text_of}
use yd.Codec.Bcd.{report_bcd}
use yd.Dfsm.{Dfsm, dfsm_idle}
use yd.Sensor.Reading.{Round, read_a_data}
use yd.Sensor.Reading.Wait.{silence}
use yd.Sensor.Reading.Value.{decimal, read_a_data-report_bcd}
use yd.Codec.Hex.{hexarray2str, hexarray2str_loop}
use yd.Sensor.Counters.{IsCounter, Counts, HasCounts}
use yd.Sensor.Gauge.{Look, Gauge, looks, falls, looks-HasCounts}
use yd.Sensor.Rainfalls.{Rainfall, rainfalls, rain_sum, unit_of, rainfalls-HasCounts}

abbrev devdata : DataClass
devdata = data_class_init (λ i. i) devdata_config_items

-- Level 2 of the eight, at 35 minutes: 3.21 m; level 2 at 40 minutes is as before.
get_drz-set_drz_example :
    get_drz (set_drz devdata (0xF5 + 1) (pos 321) 7).0 1 7
    ≡ (if 1 == 1 && 7 == 7 then bits (pos 321) % 2 ^ 16 else get_drz devdata 1 7)
unfolding data_class_init init_items init_format find_item at
get_drz-set_drz_example =
    get_drz-set_drz devdata 1 1 7 7 (pos 321) (omega arith) (omega arith) (omega arith)
      (omega arith) refl (omega arith)

-- A gauge of 0.5 mm.
abbrev field : Field
field = record {
  devdata = devdata;
  runtime = set_val (data_class_init (λ i. i) runtime_config_items) 0x25 (pos 5);
  appdata = data_class_init (λ i. i) appdata_config_items;
  observetime = 0;
}

-- One count at 17:03, nothing at 17:08, one at 17:12.
abbrev afternoon : List Rainfall
afternoon =
    record { now = 61380; minute = 3; number = 1 }
    ∷ record { now = 61680; minute = 8; number = 0 }
    ∷ record { now = 61920; minute = 12; number = 1 }
    ∷ []

-- A register of the fresh table, which has no value yet.
fresh : (id : ℕ) → IsCounter (at devdata id) data_invalid_value → Counts (at devdata id) 0
fresh id k = record { raw = data_invalid_value; counter = k; count = refl }

field-HasCounts : HasCounts field.devdata 0 0 0
unfolding data_class_init init_items init_format find_item at len
field-HasCounts = record {
  known = record { p1 = refl; pj = refl; pt = refl; drp = refl };
  hours = fresh 0x1A (record { format = refl; digits = refl; val = refl });
  currents = fresh 0x20 (record { format = refl; digits = refl; val = refl });
  alls = fresh 0x26 (record { format = refl; digits = refl; val = refl });
}

rainfalls-HasCounts_example :
    HasCounts
      (rainfalls afternoon field).devdata
      (0 + rain_sum (unit_of field) afternoon)
      (0 + rain_sum (unit_of field) afternoon)
      (0 + rain_sum (unit_of field) afternoon)
unfolding data_class_init init_items init_format find_item modify_item modify at set_val
rainfalls-HasCounts_example =
    rainfalls-HasCounts afternoon field 0 0 0 (omega arith, (omega arith, (omega arith, tt)))
      field-HasCounts (omega arith) (omega arith) (omega arith)

-- The gauge's input: two falls to 0 in five calls.
abbrev pulses : List Look
pulses =
    record { sample = record { time = 101; value = 1 }; now = 61380; minute = 3 }
    ∷ record { sample = record { time = 102; value = 0 }; now = 61381; minute = 3 }
    ∷ record { sample = record { time = 103; value = 0 }; now = 61382; minute = 3 }
    ∷ record { sample = record { time = 104; value = 1 }; now = 61383; minute = 3 }
    ∷ record { sample = record { time = 105; value = 0 }; now = 61500; minute = 5 }
    ∷ []

abbrev gauge : Gauge
gauge = record { field = field; last = record { time = 100; value = 1 } }

looks-HasCounts_example :
    let rain = length (falls 1 pulses) * unit_of field in
    HasCounts (looks pulses gauge).field.devdata (0 + rain) (0 + rain) (0 + rain)
unfolding data_class_init init_items init_format find_item modify_item modify at set_val
looks-HasCounts_example =
    looks-HasCounts pulses gauge 0 0 0 (omega arith)
      (omega arith, (omega arith, (omega arith, (omega arith, (omega arith, tt))))) field-HasCounts
      (omega arith) (omega arith) (omega arith)

-- The head 01 03 04 of an answer, and the digits 651387 behind it.
abbrev numerics : Numerics
numerics = record {
  atoi = λ text. pos 0;
  float_of = λ bytes b. pos 0;
  double_of = λ bytes b. pos 0;
}

abbrev answer_head : List ℕ
answer_head = 0x01 ∷ 0x03 ∷ 0x04 ∷ []

-- A request of eight bytes.
abbrev asking : List ℕ
asking = text_of (0x01 ∷ 0x03 ∷ 0x00 ∷ 0x08 ∷ 0x00 ∷ 0x02 ∷ 0x45 ∷ 0xC9 ∷ [])

abbrev machine : Dfsm
machine = record {
  sb = replicate 200 0;
  slen = 0;
  rb = replicate 200 0;
  rlen = 0;
  getpacket = false;
  wann = 0;
  step = dfsm_idle;
  ms_timeout = 0;
  ms_timeout_max = 1000;
  retry = 0;
}

-- The answer comes in the third round.
abbrev answered : List Round
answered =
    silence (10 ∷ 20 ∷ [])
    ++ (record {
      clock = 30;
      early = none;
      late = some (answer_head ++ (report_bcd 3 651387 [] ++ 0x3B ∷ 0x32 ∷ []));
    }
        ∷ [])

read_a_data-report_bcd_example :
    let r = read_a_data numerics (decimal asking answer_head 3) answered machine in
    (r.value ≡ pos (651387 * 1000)) × (r.result ≡ pos 1)
unfolding recv_patten recv_patten_loop hexarray2str hexarray2str_loop report_bcd
read_a_data-report_bcd_example =
    read_a_data-report_bcd numerics machine asking answer_head (0x3B ∷ 0x32 ∷ []) 3 651387
      (10 ∷ 20 ∷ []) 30 [] refl (omega arith) (omega arith)
      (omega arith, (omega arith, (omega arith, tt))) (omega arith) (omega arith) (omega arith)
      (omega arith) (omega arith) (omega arith)
