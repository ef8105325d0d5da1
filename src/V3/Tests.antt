-- ===== src/V3/Tests.antt =====
-- The sketch v3 at concrete inputs.
use scv2_sketches.Prelude.{
  ℕ, zero, suc, ◌*◌, ◌/◌, true, Option, none, some, List, [], ◌∷◌, length, All, ◌≡◌, ◌↔◌, ◌⊎◌, refl,
  Frame, slt32, arith,
}
use scv2_sketches.Zero.Predicates.{
  has_monolith_voltage, has_monolith_amps, has_power_tank_voltage, has_power_tank_amps,
  has_monolith_pack_config, has_power_tank_pack_config, has_monolith_pack_active_data,
  has_power_tank_pack_active_data, has_throttle,
}
use scv2_sketches.SuperCharger.Charging
use scv2_sketches.SuperCharger.Charging.{
  ramp, max_amps, cut, volts_cutback, cold_cutback, hot_cutback, slow_at_end, stop_out_of_range,
  station_limit, temp_rows, cutbacks, charge_watts, total_amps, limit_to_c_rate, share,
  set_charging_amps,
}
use scv2_sketches.SuperCharger.State.{Setup, zero_setup}
use scv2_sketches.Zero.Decode
use scv2_sketches.SuperCharger.Heartbeat.{receive, super_charger_loop, super_charge}
use scv2_sketches.V3.State.{Bike, power_up}
use scv2_sketches.V3.BikeLoop.{
  Received, Floats, set_volts, on_monolith_voltage, over_current, on_monolith_amps,
  on_power_tank_voltage, on_power_tank_amps, on_monolith_config, on_power_tank_config,
  on_monolith_temps, on_power_tank_temps, on_throttle, on_frame, answer, bike_loop,
}
use scv2_sketches.V3.Phone.{poll}
use scv2_sketches.V3.Main.{Input, Output, tick, control, loop}
use scv2_sketches.V3.Rhythm.{counted, loop_undefined_iff}
use scv2_sketches.V3.Rounds.{Returns, IsQuiet, passes, heard, control_comes_round}

-- The conversions of the dash, with the factors rounded to a percent.
abbrev floats : Floats
floats = record { display_volts = λ v. v * 62 / 10; display_watts = λ w. w * 161 }

abbrev zero_setup_v3 : Setup
zero_setup_v3 = zero_setup []

abbrev blank : Frame
blank = record { b0 = 0; b1 = 0; b2 = 0; b3 = 0; b4 = 0; b5 = 0; b6 = 0; b7 = 0 }

-- 108.000 V from the monolith.
abbrev volts_frame : Received
volts_frame = record {
  can_id = 904;
  len = 8;
  buf = record blank { b3 = 0xe0; b4 = 0xa5; b5 = 1 };
  stale_max = 0;
  stale_min = 0;
}

-- 40 A from the monolith.
abbrev amps_frame : Received
amps_frame = record {
  can_id = 1032;
  len = 8;
  buf = record blank { b3 = 40 };
  stale_max = 0;
  stale_min = 0;
}

-- 30 Ah known, three chargers.
abbrev riding : Bike
riding = record (power_up zero_setup_v3) {
  monolith_ah = 30;
  charger = record ((power_up zero_setup_v3).charger) { charger_count = 3; c_rate = 300 };
}

abbrev trip_frame : Received
trip_frame = record { can_id = 1344; len = 8; buf = blank; stale_max = 0; stale_min = 0 }

abbrev silent : Input
silent = record {
  central = [];
  bike_frames = volts_frame ∷ amps_frame ∷ [];
  charger_frames = record blank { b0 = 4; b1 = 0x38 } ∷ [];
  polled = [];
  junk = blank;
}

loop_undefined_iff_example : (loop zero_setup_v3 floats silent riding ≡ none) ↔ (
    (slt32 (counted floats silent riding).charger.delay_itteration 1 ≡ true)
    × (((receive silent.charger_frames (counted floats silent riding).charger).volts ≡ 0)
        ⊎ ((counted floats silent riding).charger.charger_count ≡ 0)))
loop_undefined_iff_example = loop_undefined_iff zero_setup_v3 floats silent riding

silent-IsQuiet : IsQuiet silent
unfolding receive
silent-IsQuiet = record { central_eq = refl; polled_eq = refl; reported = λ s. omega arith }

unfoldable repeat : ℕ → Input → List Input
repeat zero i = []
repeat (suc n) i = i ∷ repeat n i

length-repeat : (n : ℕ) (i : Input) → length (repeat n i) ≡ n
unfolding repeat
length-repeat zero i = refl
length-repeat (suc n) i = omega (arith, length-repeat n i)

All-repeat : (P : Input → Type 0) (n : ℕ) (i : Input) → P i → All P (repeat n i)
unfolding repeat
All-repeat P zero i p = tt
All-repeat P (suc n) i p = (p, All-repeat P n i p)

abbrev near : Bike
near = record riding { charger = record (riding.charger) { delay_itteration = 2 } }

control_comes_round_example :
    Returns (λ r. heard r.1 ≡ true) (passes zero_setup_v3 floats (silent ∷ silent ∷ []) near)
control_comes_round_example =
    control_comes_round zero_setup_v3 floats (silent ∷ silent ∷ []) near
      (silent-IsQuiet, (silent-IsQuiet, tt)) (omega arith) (omega arith) (omega arith) (omega arith)

-- A pass that runs the control cycle.
abbrev due : Bike
due = record riding { charger = record (riding.charger) { delay_itteration = 1 } }

abbrev outcome : Option (Bike × Output) → Bike × Output
outcome none = (due, record { bike_bus = []; heartbeat = none; line = [] })
outcome (some r) = r

abbrev passed : Bike × Output
passed = outcome (loop zero_setup_v3 floats silent due)

-- 50.00 W at 108.0 V, for three chargers: 0.1 A each. The voltage's bytes are swapped.
abbrev beat : Frame
beat = record { b0 = 0x8c; b1 = 4; b2 = 0; b3 = 1; b4 = 0; b5 = 0; b6 = 0; b7 = 0 }

pass_runs : (loop zero_setup_v3 floats silent due ≡ some passed) × (passed.1.heartbeat ≡ some beat)
unfolding loop tick control poll bike_loop on_frame on_monolith_voltage set_volts over_current
    on_monolith_amps on_power_tank_voltage on_power_tank_amps on_monolith_config
    on_power_tank_config on_monolith_temps on_power_tank_temps on_throttle answer
    has_monolith_voltage has_monolith_amps has_power_tank_voltage has_power_tank_amps
    has_monolith_pack_config has_power_tank_pack_config has_monolith_pack_active_data
    has_power_tank_pack_active_data has_throttle Decode.voltage Decode.amps Decode.highest_temp
    Decode.lowest_temp receive super_charger_loop super_charge ramp max_amps Charging.max_watts cut
    volts_cutback cold_cutback hot_cutback slow_at_end stop_out_of_range station_limit temp_rows
    cutbacks charge_watts total_amps limit_to_c_rate share set_charging_amps
pass_runs = (refl, refl)
