-- ===== src/Older/Tests.antt =====
-- v2.5, DEBUG_2.5 and 13kw_force at concrete inputs.
use scv2_sketches.Prelude.{false, ◌*◌, inl, some, [], ◌∷◌, ◌≡◌, refl, arith}
use scv2_sketches.Integrated.State.{Stored, Controller, power_up}
use scv2_sketches.Integrated.Settings.{Command}
use scv2_sketches.Integrated.Charging.{
  raise_volts, pack_c_rate, ramp, max_amps, max_watts, is_cold, is_hot, cutback, temp_rows,
  over_current, limit_amps, prepare,
}
use scv2_sketches.Older.Variants.{v2_5, debug_2_5, force_13kw}
use scv2_sketches.Older.Charging.{
  is_full, cutbacks, ends, slow_at_end, stop_out_of_range, station_limit, charge_watts, grant,
  set_charging_amps,
}
use scv2_sketches.Older.Main
use scv2_sketches.Integrated.Settings
use scv2_sketches.Older.Main.{read_commands}
use scv2_sketches.V3.BikeLoop.{Floats}
use scv2_sketches.Integrated.Main.{Input}
use scv2_sketches.Older.Grants.{stops_in_debug}

abbrev stored : Stored
stored = record {
  target_volts = 1164;
  target_max_amps = 960;
  target_charger_count = 3;
  target_watts = 660000;
  target_c_plus = 0;
  target_ramp_rate = 5000;
}

-- A monolith of 96 Ah at 110.0 V and 20 degrees, three chargers.
abbrev charging : Controller
charging = record (power_up stored) {
  max_station_watts = 660000;
  charger_count = 3;
  volts = 1100;
  monolith_volts = 110000;
  monolith_ah = 96;
  monolith_min_temp = 20;
  monolith_max_temp = 22;
  watts = 300000;
}

abbrev charged : Controller
charged = record charging { c_rate = 960; watts = 305000; bike_amps = 277; charging_amps = 92 }

runs : set_charging_amps v2_5 [] charging ≡ some charged
unfolding raise_volts pack_c_rate ramp max_amps max_watts is_full is_cold is_hot cutback temp_rows
    cutbacks ends slow_at_end stop_out_of_range station_limit charge_watts over_current limit_amps
    prepare grant set_charging_amps
runs = refl

-- 117.0 V.
abbrev high : Controller
high = record charging { volts = 1170; monolith_volts = 117000 }

abbrev high_charged : Controller
high_charged = record high { c_rate = 960; watts = 0; bike_amps = 0; charging_amps = 0 }

high_runs : set_charging_amps debug_2_5 [] high ≡ some high_charged
unfolding raise_volts pack_c_rate ramp max_amps max_watts is_full is_cold is_hot cutback temp_rows
    cutbacks ends slow_at_end stop_out_of_range station_limit charge_watts over_current limit_amps
    prepare grant set_charging_amps
high_runs = refl

stops_in_debug_example : (high_charged.watts ≡ 0) × (0 * 3 ≡ 0)
unfolding prepare raise_volts pack_c_rate ramp
stops_in_debug_example =
    stops_in_debug debug_2_5 [] high {t = high_charged} refl (omega arith) (omega arith)
      (inl (omega arith)) (omega arith) refl refl refl high_runs

abbrev too_high : Command
too_high = record {
  volts = 1300;
  max_amps = 96;
  chargers = 3;
  wattage = 6600;
  one_c_plus = 0;
  ramp = 50;
}

-- 13kw_force takes the same voltage.
lifted : (read_commands force_13kw (too_high ∷ []) charging).output_volts_end ≡ 1300
unfolding read_commands Main.command Main.command_volts Main.command_chargers
    Settings.command_max_amps Settings.command_wattage Settings.command_c_plus Settings.command_ramp
lifted = refl

abbrev floats : Floats
floats = record { display_volts = λ v. v; display_watts = λ w. w }

abbrev quiet : Input
quiet = record { commands = []; from_chargers = []; from_bike = []; serial = false }

-- The delay runs out.
abbrev due : Controller
due = record charging { delay_itteration = 1 }
