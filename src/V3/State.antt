-- ===== src/V3/State.antt =====
-- The globals of the sketch v3: those of SC.h, of v3/ZERO_BIKE.h, and the values of the BLE
-- characteristics of v3/ZERO_V3_BLE.h. The two contactor flags of ZERO_BIKE.h are never used.
use scv2_sketches.Prelude.{ℕ}
use scv2_sketches.SuperCharger.State.{Setup, Charger, initial}

-- The values that a phone sees. A characteristic keeps its value until it is set or written.
pub record Ble : Type 0 where
  pub battery1_volts : ℕ
  pub battery2_volts : ℕ
  pub battery1_amps : ℕ
  pub battery2_amps : ℕ
  pub battery1_temp1 : ℕ
  pub battery1_temp2 : ℕ
  pub battery2_temp1 : ℕ
  pub battery2_temp2 : ℕ
  pub battery1_ah : ℕ
  pub battery2_ah : ℕ
  pub battery_max_volts : ℕ
  pub charger_target_volts : ℕ
  pub charger_target_watts : ℕ
  pub charger_max_watts : ℕ
  pub charger_count_ble : ℕ
  pub ble_units : ℕ

-- A `long` is a 32-bit pattern, a `short` a 16-bit pattern. Voltages of the battery are in
-- thousandths, amps in whole amps.
pub record Bike : Type 0 where
  pub charger : Charger
  pub ble : Ble
  pub bike_throttle : ℕ
  pub bike_volts : ℕ
  pub bike_amps : ℕ
  pub monolith_volts : ℕ
  pub power_tank_volts : ℕ
  pub monolith_amps : ℕ
  pub power_tank_amps : ℕ
  pub monolith_ah : ℕ
  pub power_tank_ah : ℕ
  pub monolith_min_temp : ℕ
  pub power_tank_min_temp : ℕ
  pub monolith_max_temp : ℕ
  pub power_tank_max_temp : ℕ

abbrev pub no_values : Ble
no_values = record {
  battery1_volts = 0;
  battery2_volts = 0;
  battery1_amps = 0;
  battery2_amps = 0;
  battery1_temp1 = 0;
  battery1_temp2 = 0;
  battery2_temp1 = 0;
  battery2_temp2 = 0;
  battery1_ah = 0;
  battery2_ah = 0;
  battery_max_volts = 0;
  charger_target_volts = 0;
  charger_target_watts = 0;
  charger_max_watts = 0;
  charger_count_ble = 0;
  ble_units = 0;
}

-- Globals without a value in the source start at zero.
abbrev pub power_up : Setup → Bike
power_up k = record {
  charger = initial k;
  ble = no_values;
  bike_throttle = 0;
  bike_volts = 0;
  bike_amps = 0;
  monolith_volts = 0;
  power_tank_volts = 0;
  monolith_amps = 0;
  power_tank_amps = 0;
  monolith_ah = 0;
  power_tank_ah = 0;
  monolith_min_temp = 0;
  power_tank_min_temp = 0;
  monolith_max_temp = 0;
  power_tank_max_temp = 0;
}
