-- ===== src/V3/FirstRun.antt =====
-- A run of the sketch v3 (v3/v3.ino) from power up to its first heartbeat.
use scv2_sketches.Prelude.{
  ℕ, zero, suc, ◌+◌, ◌-◌, ◌*◌, ◌≤◌, ◌<◌, none, some, [], ◌∷◌, ◌≡◌, refl, inl, inr, subst, Frame,
  arith,
}
use scv2_sketches.Scv2
use scv2_sketches.Zero.Predicates.{
  has_monolith_voltage, has_monolith_amps, has_power_tank_voltage, has_power_tank_amps,
  has_monolith_pack_config, has_power_tank_pack_config, has_monolith_pack_active_data,
  has_power_tank_pack_active_data, has_throttle,
}
use scv2_sketches.Zero.Decode
use scv2_sketches.SuperCharger.State.{Setup, zero_setup}
use scv2_sketches.SuperCharger.Charging.{
  ramp, max_amps, max_watts, cut, volts_cutback, cold_cutback, hot_cutback, slow_at_end,
  stop_out_of_range, station_limit, temp_rows, cutbacks, charge_watts, total_amps, limit_to_c_rate,
  share, set_charging_amps,
}
use scv2_sketches.SuperCharger.Heartbeat.{receive, super_charger_loop, super_charge}
use scv2_sketches.SuperCharger.Exact.{IsSetup}
use scv2_sketches.V3.State.{Bike, power_up}
use scv2_sketches.V3.BikeLoop.{
  Received, Floats, set_volts, on_monolith_voltage, on_monolith_amps, on_power_tank_voltage,
  on_power_tank_amps, on_monolith_config, on_power_tank_config, on_monolith_temps,
  on_power_tank_temps, on_throttle, on_frame, answer, bike_loop,
}
use scv2_sketches.V3.Phone
use scv2_sketches.V3.Phone.{
  target_volts, count, units, user_update, written, poll, ble_loop, ble_setup,
}
use scv2_sketches.V3.Main.{Input, Output, tick, charging_status, debug_sc_log, control, setup, loop}
use scv2_sketches.V3.InStep
use scv2_sketches.V3.InStep.{InStep, Visited-InStep}
use scv2_sketches.V3.Sane.{IsInput}
use scv2_sketches.V3.Reach.{Reached, started, passed, every_heartbeat_within_station}

abbrev floats : Floats
floats = record { display_volts = λ v. v; display_watts = λ w. w }

abbrev zero_tables : Setup
zero_tables = zero_setup []

tables-IsSetup : IsSetup zero_tables
unfolding temp_rows
tables-IsSetup = record {
  row = (900, 30);
  rows =
      (980, 28)
      ∷ (1000, 25)
      ∷ (1010, 23)
      ∷ (1020, 20)
      ∷ (1060, 18)
      ∷ (1100, 13)
      ∷ (1140, 7)
      ∷ (1150, 4)
      ∷ (1160, 2)
      ∷ [];
  volts_table = refl;
  volts_rates = omega arith;
  temp_rates = omega arith;
  volts_max_lt = omega arith;
}

abbrev blank : Frame
blank = record { b0 = 0; b1 = 0; b2 = 0; b3 = 0; b4 = 0; b5 = 0; b6 = 0; b7 = 0 }

-- 108.000 V from the monolith.
abbrev volts_frame : Received
volts_frame = record {
  can_id = 904;
  len = 8;
  buf = record blank { b3 = 0xe0; b4 = 0xa5; b5 = 1 };
  stale_max = 0;
  stale_min = 0;
}

abbrev quiet : Input
quiet = record { central = []; bike_frames = []; charger_frames = []; polled = []; junk = blank }

-- A phone sets 116.4 V, 6600.00 W and three chargers; the last write makes them count.
abbrev settings : Input
settings = record quiet {
  central = target_volts 1164 ∷ Phone.max_watts 660000 ∷ count 3 ∷ units 0 ∷ [];
  bike_frames = volts_frame ∷ [];
}

quiet-IsInput : IsInput 100 quiet
quiet-IsInput = record { central = tt; polled = tt; chargers = tt; bike = tt }

settings-IsInput : IsInput 100 settings
unfolding Decode.voltage has_power_tank_voltage has_monolith_pack_config has_power_tank_pack_config
settings-IsInput = record {
  central = omega arith;
  polled = tt;
  chargers = tt;
  bike = (
    record {
      monolith = inr (omega arith);
      tank = inl refl;
      monolith_ah = inl refl;
      tank_ah = inl refl;
    },
    tt,
  );
}

abbrev silent : Output
silent = record { bike_bus = []; heartbeat = none; line = [] }

abbrev left : ℕ → Bike → Bike
left d s = record s { charger = record (s.charger) { delay_itteration = d } }

quiet_pass :
    (s : Bike)
    → 1 < s.charger.delay_itteration
    → s.charger.delay_itteration < 0x8000_0000
    → loop zero_tables floats quiet s ≡ some (left (s.charger.delay_itteration - 1) s, silent)
unfolding loop tick bike_loop poll
quiet_pass s h l = ground arith

-- Quiet passes until one is left.
waits :
    (n : ℕ) (s : Bike)
    → s.charger.delay_itteration ≡ n + 1
    → n < 0x7000_0000
    → Reached 100 zero_tables floats s
    → Reached 100 zero_tables floats (left 1 s)
waits zero s e l r = subst (λ d. Reached 100 zero_tables floats (left d s)) e r
waits (suc n) s e l r =
    waits n (left (s.charger.delay_itteration - 1) s) (omega (arith, e)) (omega arith)
      (passed quiet s silent r quiet-IsInput (quiet_pass s (omega (arith, e)) (omega (arith, e))))

abbrev set_up : Bike
set_up = record (setup zero_tables (power_up zero_tables)) {
  monolith_volts = 108000;
  bike_volts = 108000;
  ble = record ((setup zero_tables (power_up zero_tables)).ble) {
    charger_target_volts = 1164;
    charger_max_watts = 660000;
    charger_count_ble = 3;
  };
  charger = record ((setup zero_tables (power_up zero_tables)).charger) {
    output_volts_end = 1164;
    charger_count = 3;
    volts = 1080;
    delay_itteration = 84999;
  };
}

settings_run :
    loop zero_tables floats settings (setup zero_tables (power_up zero_tables))
    ≡ some (set_up, silent)
unfolding loop tick bike_loop poll written user_update setup ble_setup ble_loop on_frame set_volts
    on_monolith_voltage on_monolith_amps on_power_tank_voltage on_power_tank_amps on_monolith_config
    on_power_tank_config on_monolith_temps on_power_tank_temps on_throttle answer
    has_monolith_voltage has_monolith_amps has_power_tank_voltage has_power_tank_amps
    has_monolith_pack_config has_power_tank_pack_config has_monolith_pack_active_data
    has_power_tank_pack_active_data has_throttle Decode.voltage
settings_run = refl

ready : Reached 100 zero_tables floats (left 1 set_up)
ready = waits 84998 set_up refl (omega arith) (
    passed settings (setup zero_tables (power_up zero_tables)) silent started settings-IsInput
      settings_run)

-- The first 50.00 W, shared by three.
abbrev first : Bike
first = record set_up {
  charger = record (set_up.charger) {
    watts = 5000;
    charging_amps = 1;
    delay_itteration = 42500;
    heartbeat = record { b0 = 0x8c; b1 = 4; b2 = 0; b3 = 1; b4 = 0; b5 = 0; b6 = 0; b7 = 0 };
  };
}

abbrev said : Output
said = record {
  bike_bus = charging_status blank;
  heartbeat = some first.charger.heartbeat;
  line = debug_sc_log first;
}

first_runs : loop zero_tables floats quiet (left 1 set_up) ≡ some (first, said)
unfolding loop control tick bike_loop poll receive setup ble_setup ble_loop super_charger_loop
    super_charge charging_status debug_sc_log ramp max_amps max_watts cut volts_cutback cold_cutback
    hot_cutback slow_at_end stop_out_of_range station_limit temp_rows cutbacks charge_watts
    total_amps limit_to_c_rate share set_charging_amps
first_runs = refl

every_heartbeat_within_station_example : Scv2.amps first.charger.heartbeat * 3 * 1080 ≤ 660000
unfolding setup ble_setup
every_heartbeat_within_station_example =
    every_heartbeat_within_station 100 zero_tables floats quiet (left 1 set_up) {t = first}
      {o = said} first.charger.heartbeat (omega arith) (omega arith) tables-IsSetup ready
      quiet-IsInput refl first_runs refl

Visited-InStep_example : InStep set_up
Visited-InStep_example = Visited-InStep {k = zero_tables} {fl = floats} {s = set_up} (
    InStep.passed settings (setup zero_tables (power_up zero_tables)) silent InStep.started
      settings_run)
