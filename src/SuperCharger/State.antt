-- ===== src/SuperCharger/State.antt =====
-- The globals of libraries/DIGINOW_SUPERCHARGER/SC.h, and the constants that it takes from the
-- voltage table that a sketch includes.
use scv2_sketches.Prelude.{ℕ, List, Frame}
use scv2_sketches.SuperCharger.Tables.{Row, zero_volts_max, zero_volts_table}

-- What the sketch fixes before it includes SC.h. `past_end` holds what lies in memory behind the
-- two temperature arrays: the rows that the loop reads past their 28 elements.
pub record Setup : Type 0 where
  pub volts_max : ℕ
  pub volts_table : List Row
  pub past_end : List Row

-- An `unsigned long`, a `long` or an `int` is a 32-bit pattern, a `short` a 16-bit pattern (the
-- sketch v3 runs on a board with 32-bit `int`s). Watts are in hundredths, volts and amps in tenths.
pub record Charger : Type 0 where
  pub delay_itteration : ℕ
  pub output_volts_end : ℕ
  pub c_plus : ℕ
  pub low_temp : ℕ
  pub high_temp : ℕ
  pub ramp_rate : ℕ
  pub max_station_watts : ℕ
  pub charging_amps : ℕ
  pub charger_count : ℕ
  pub watts : ℕ
  pub volts : ℕ
  pub c_rate : ℕ
  pub heartbeat : Frame

abbrev pub output_volts_min : ℕ
output_volts_min = 500

abbrev pub station_watts_default : ℕ
station_watts_default = 660000

abbrev pub max_12v_watts : ℕ
max_12v_watts = 600

abbrev pub delay_start : ℕ
delay_start = 85000

abbrev pub heartbeat_default : Frame
heartbeat_default = record {
  b0 = 0x04;
  b1 = 0x8c;
  b2 = 0x01;
  b3 = 0x40;
  b4 = 0;
  b5 = 0;
  b6 = 0;
  b7 = 0;
}

-- The values that the globals start with; `C_RATE` is set by VOLTAGE_TABLE_ZERO.h.
abbrev pub initial : Setup → Charger
initial k = record {
  delay_itteration = delay_start;
  output_volts_end = k.volts_max;
  c_plus = 0;
  low_temp = 0;
  high_temp = 0;
  ramp_rate = 5000;
  max_station_watts = station_watts_default;
  charging_amps = 0;
  charger_count = 0;
  watts = 0;
  volts = 0;
  c_rate = 960;
  heartbeat = heartbeat_default;
}

-- The sketch v3 includes VOLTAGE_TABLE_ZERO.h.
abbrev pub zero_setup : List Row → Setup
zero_setup past_end = record {
  volts_max = zero_volts_max;
  volts_table = zero_volts_table;
  past_end = past_end;
}
