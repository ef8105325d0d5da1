-- ===== src/Monitor/State.antt =====
-- The constants and the globals of Zero_charge_monitoring/Zero_charge_monitoring.ino.
use scv2_sketches.Prelude.{ℕ, List, [], ◌∷◌, Frame}

-- In thousandths of a volt, tenths of an amp and watts.
abbrev pub min_volts : ℕ
min_volts = 70000

abbrev pub default_volts : ℕ
default_volts = 116400

abbrev pub default_amps : ℕ
default_amps = 130

abbrev pub default_watts : ℕ
default_watts = 1500

abbrev pub message_threshold : ℕ
message_threshold = 20000

abbrev pub sc_stale_threshold : ℕ
sc_stale_threshold = 30000

abbrev pub bike_stale_threshold : ℕ
bike_stale_threshold = 1000

abbrev pub count_scv2_threshold : ℕ
count_scv2_threshold = 22000

-- The two values in the EEPROM.
pub record Stored : Type 0 where
  pub target_watts : ℕ
  pub end_volts : ℕ

-- A `long` is a 32-bit pattern, a `short` or an `int` a 16-bit pattern. Globals that are never read
-- are left out.
pub record Monitor : Type 0 where
  pub message_count : ℕ
  pub sc_stale_count : ℕ
  pub bike_stale_count : ℕ
  pub charger_wait_count : ℕ
  pub connected_chargers : ℕ
  pub end_volts : ℕ
  pub throttle : ℕ
  pub bike_voltage : ℕ
  pub bike_amps : ℕ
  pub charger_voltage : ℕ
  pub charger_voltage_holder : ℕ
  pub charger_amps : ℕ
  pub charger_amps_list : List ℕ
  pub voltage_diff : ℕ
  pub desired_output_amps : ℕ
  pub desired_output_volts : ℕ
  pub target_amps : ℕ
  pub target_watts : ℕ
  pub charger_message : Frame
  pub eeprom : Stored

-- Globals without a value in the source start at zero.
abbrev pub power_up : Stored → Monitor
power_up eeprom = record {
  message_count = 0;
  sc_stale_count = 0;
  bike_stale_count = 0;
  charger_wait_count = 0;
  connected_chargers = 0;
  end_volts = default_volts;
  throttle = 0;
  bike_voltage = 0;
  bike_amps = 0;
  charger_voltage = 0;
  charger_voltage_holder = 0;
  charger_amps = 0;
  charger_amps_list = 0 ∷ 0 ∷ 0 ∷ 0 ∷ 0 ∷ 0 ∷ 0 ∷ 0 ∷ 0 ∷ 0 ∷ 0 ∷ 0 ∷ 0 ∷ 0 ∷ 0 ∷ 0 ∷ [];
  voltage_diff = 0;
  desired_output_amps = 0;
  desired_output_volts = 0;
  target_amps = default_amps;
  target_watts = default_watts;
  charger_message = record { b0 = 0; b1 = 0; b2 = 0; b3 = 0; b4 = 0; b5 = 0; b6 = 0; b7 = 0 };
  eeprom = eeprom;
}
