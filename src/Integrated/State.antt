-- ===== src/Integrated/State.antt =====
-- The constants and the globals of v2.6/v2.6.ino.
use scv2_sketches.Prelude.{ℕ, Frame}

abbrev pub output_volts_max : ℕ
output_volts_max = 1164

abbrev pub output_volts_min : ℕ
output_volts_min = 500

-- The six settings, as the EEPROM keeps them. `eeprom` is what the sketch reads and writes, `flash`
-- what a restart finds: in v2.6 that is what has been committed. The older versions write to the
-- EEPROM itself, have no commit, and leave `flash` alone.
pub record Stored : Type 0 where
  pub target_volts : ℕ
  pub target_max_amps : ℕ
  pub target_charger_count : ℕ
  pub target_watts : ℕ
  pub target_c_plus : ℕ
  pub target_ramp_rate : ℕ

-- A `long`, an `unsigned long` or an `int` is a 32-bit pattern, a `short` a 16-bit pattern. The two
-- contactor flags are never used.
pub record Controller : Type 0 where
  pub output_volts_end : ℕ
  pub c_plus : ℕ
  pub ramp_rate : ℕ
  pub c_rate : ℕ
  pub max_station_watts : ℕ
  pub charging_amps : ℕ
  pub charger_count : ℕ
  pub watts : ℕ
  pub delay_itteration : ℕ
  pub bike_throttle : ℕ
  pub volts : ℕ
  pub bike_volts : ℕ
  pub bike_amps : ℕ
  pub monolith_volts : ℕ
  pub power_tank_volts : ℕ
  pub monolith_amps : ℕ
  pub power_tank_amps : ℕ
  pub monolith_ah : ℕ
  pub power_tank_ah : ℕ
  pub monolith_min_temp : ℕ
  pub power_tank_min_temp : ℕ
  pub monolith_max_temp : ℕ
  pub power_tank_max_temp : ℕ
  pub heartbeat : Frame
  pub eeprom : Stored
  pub flash : Stored

-- The globals at power-up, over what the EEPROM holds.
abbrev pub power_up : Stored → Controller
power_up eeprom = record {
  output_volts_end = output_volts_max;
  c_plus = 0;
  ramp_rate = 5000;
  c_rate = 960;
  max_station_watts = 0;
  charging_amps = 0;
  charger_count = 0;
  watts = 0;
  delay_itteration = 55000;
  bike_throttle = 0;
  volts = 0;
  bike_volts = 0;
  bike_amps = 0;
  monolith_volts = 0;
  power_tank_volts = 0;
  monolith_amps = 0;
  power_tank_amps = 0;
  monolith_ah = 0;
  power_tank_ah = 0;
  monolith_min_temp = 0;
  power_tank_min_temp = 0;
  monolith_max_temp = 0;
  power_tank_max_temp = 0;
  heartbeat = record { b0 = 0x04; b1 = 0x8c; b2 = 0x01; b3 = 0x40; b4 = 0; b5 = 0; b6 = 0; b7 = 0 };
  eeprom = eeprom;
  flash = eeprom;
}
