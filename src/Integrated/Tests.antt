-- ===== src/Integrated/Tests.antt =====
-- The controller v2.6 at concrete inputs.
use scv2_sketches.Prelude.{
  length, ◌<◌, Option, none, true, false, slt32, ◌↔◌, ◌⊎◌, ◌-◌, ◌*◌, ◌/◌, some, [], ◌∷◌, ◌++◌, ◌≡◌,
  refl, Frame, arith,
}
use scv2_sketches.Integrated.State.{Stored, Controller, power_up}
use scv2_sketches.Integrated.Charging.{
  raise_volts, pack_c_rate, ramp, max_amps, max_watts, is_full, is_cold, is_hot, cutback, temp_rows,
  cutbacks, slow_at_end, stop_below, station_limit, charge_watts, over_current, limit_amps, prepare,
  share, grant, set_charging_amps,
}
use scv2_sketches.Integrated.Settings.{Command, read_commands, setup}
use scv2_sketches.Integrated.Buses.{
  charger_frames, bike_frames, hurry, on_volts, on_amps, on_tank_volts, on_tank_amps, on_config,
  on_tank_config, on_temps, on_tank_temps, on_throttle, on_frame, answer,
}
use scv2_sketches.Integrated.Waiting.{pass, done, sent}
use scv2_sketches.Integrated.Reaction.{over_current_reacts}
use scv2_sketches.Integrated.Rounds.{heartbeats_come_round}
use scv2_sketches.Integrated.Main.{Input, Output, tick, announce, control, loop}
use scv2_sketches.Integrated.Branches.{ticked, seen}
use scv2_sketches.Integrated.Rhythm.{pass_undefined_iff}
use scv2_sketches.Zero.Predicates.{
  has_throttle, has_power_tank_pack_active_data, has_monolith_pack_active_data,
  has_power_tank_pack_config, has_monolith_pack_config, has_power_tank_amps, has_power_tank_voltage,
  has_monolith_amps, has_monolith_voltage,
}
use scv2_sketches.Zero.Decode.{amps, lowest_temp, highest_temp}
use scv2_sketches.V3.BikeLoop.{Floats, Received}
use scv2_sketches.Integrated.Restart.{Holds, settings_survive_restart}
use scv2_sketches.Integrated.Grants.{over_current_beats_stop}

abbrev empty : Stored
empty = record {
  target_volts = 0;
  target_max_amps = 0;
  target_charger_count = 0;
  target_watts = 0;
  target_c_plus = 0;
  target_ramp_rate = 0;
}

abbrev three_chargers : Command
three_chargers = record {
  volts = 1164;
  max_amps = 96;
  chargers = 3;
  wattage = 6600;
  one_c_plus = 0;
  ramp = 50;
}

abbrev plugged : Controller
plugged = power_up empty

settings_survive_restart_example :
    Holds three_chargers (read_commands (([]) ++ three_chargers ∷ []) plugged)
    × Holds three_chargers
        (setup (power_up (read_commands (([]) ++ three_chargers ∷ []) plugged).flash))
settings_survive_restart_example = settings_survive_restart [] three_chargers plugged

-- 110.0 V.
abbrev report : Frame
report = record { b0 = 4; b1 = 0x4c; b2 = 0; b3 = 0; b4 = 0; b5 = 0; b6 = 0; b7 = 0 }

-- A monolith of 96 Ah at 110.0 V and 20 degrees, three chargers.
abbrev charging : Controller
charging = record plugged {
  max_station_watts = 660000;
  charger_count = 3;
  volts = 1100;
  monolith_volts = 110000;
  monolith_ah = 96;
  monolith_min_temp = 20;
  monolith_max_temp = 22;
  watts = 300000;
}

-- 3050.00 W at 110.0 V are 27.7 A, 9.2 A for each of three chargers.
abbrev charged : Controller
charged = record charging { c_rate = 960; watts = 305000; bike_amps = 277; charging_amps = 92 }

runs : set_charging_amps [] charging ≡ some charged
unfolding raise_volts pack_c_rate ramp max_amps max_watts is_full is_cold is_hot cutback temp_rows
    cutbacks slow_at_end stop_below station_limit charge_watts over_current limit_amps prepare share
    grant set_charging_amps
runs = refl

-- 40.0 V, and 40 A out of a power tank of 30 Ah.
abbrev low : Controller
low = record plugged { charger_count = 2; volts = 400; power_tank_ah = 30; power_tank_amps = 40 }

abbrev low_charged : Controller
low_charged = record low { c_rate = 300; watts = 0; bike_amps = 280; charging_amps = 140 }

low_runs : set_charging_amps [] low ≡ some low_charged
unfolding raise_volts pack_c_rate ramp max_amps max_watts is_full is_cold is_hot cutback temp_rows
    cutbacks slow_at_end stop_below station_limit charge_watts over_current limit_amps prepare share
    grant set_charging_amps
low_runs = refl

over_current_beats_stop_example : (low_charged.watts ≡ 0) × (140 ≡ (30 - 2) * 10 / 2)
unfolding prepare raise_volts pack_c_rate ramp
over_current_beats_stop_example =
    over_current_beats_stop [] low {t = low_charged} (omega arith) (omega arith) refl (omega arith)
      (omega arith) (omega arith) (omega arith) low_runs

abbrev floats : Floats
floats = record { display_volts = λ v. v; display_watts = λ w. w }

abbrev quiet : Input
quiet = record { commands = []; from_chargers = []; from_bike = []; serial = false }

-- The delay runs out.
abbrev due : Controller
due = record charging { delay_itteration = 1 }

-- 9.2 A in the heartbeat.
abbrev asked : Frame
asked = record (due.heartbeat) { b2 = 0; b3 = 92 }

abbrev outcome : Option (Controller × Output)
outcome = some (
  record charged { delay_itteration = 22000; heartbeat = asked },
  record { bike_bus = []; heartbeat = some asked; line = [] },
)

pass_runs : loop [] floats quiet due ≡ outcome
unfolding loop control tick announce bike_frames charger_frames read_commands raise_volts
    pack_c_rate ramp max_amps max_watts is_full is_cold is_hot cutback temp_rows cutbacks
    slow_at_end stop_below station_limit charge_watts over_current limit_amps prepare share grant
    set_charging_amps
pass_runs = refl

pass_undefined_iff_example : (loop [] floats quiet due ≡ none) ↔ (
    (slt32 (ticked floats quiet due).delay_itteration 1 ≡ true)
    × (((prepare (seen floats quiet due)).volts ≡ 0) ⊎ ((seen floats quiet due).charger_count ≡ 0)))
pass_undefined_iff_example = pass_undefined_iff [] floats quiet due

-- 120 A out of a monolith of 96 Ah.
abbrev loud : Received
loud = record {
  can_id = 1032;
  len = 8;
  buf = record report { b0 = 0; b1 = 0; b3 = 120 };
  stale_max = 0;
  stale_min = 0;
}

abbrev riding : Controller
riding = record charging { delay_itteration = 22000 }

abbrev drawn : Controller
drawn = record charging {
  delay_itteration = 9;
  monolith_amps = 120;
  bike_amps = 120;
  monolith_min_temp = 0;
  monolith_max_temp = 0;
}

abbrev nothing : Output
nothing = record { bike_bus = []; heartbeat = none; line = [] }

loud_runs : loop [] floats (record quiet { from_bike = loud ∷ [] }) riding ≡ some (drawn, nothing)
unfolding loop tick bike_frames charger_frames read_commands on_frame on_volts on_amps hurry
    on_tank_volts on_tank_amps on_config on_tank_config on_temps on_tank_temps on_throttle answer
    has_throttle has_power_tank_pack_active_data has_monolith_pack_active_data
    has_power_tank_pack_config has_monolith_pack_config has_power_tank_amps has_power_tank_voltage
    has_monolith_amps has_monolith_voltage amps lowest_temp highest_temp
loud_runs = refl

quiet_runs : loop [] floats quiet drawn ≡ some (record drawn { delay_itteration = 8 }, nothing)
unfolding loop tick bike_frames charger_frames read_commands
quiet_runs = refl

over_current_reacts_example : length (quiet ∷ []) < 9
unfolding has_monolith_amps amps bike_frames charger_frames
over_current_reacts_example =
    over_current_reacts [] floats (record quiet { from_bike = loud ∷ [] }) riding [] loud []
      (quiet ∷ []) {u = record drawn { delay_itteration = 8 }} refl refl (omega arith) refl refl
      refl (pass loud_runs refl (pass quiet_runs refl done))

abbrev begun : Controller
begun = record charged { delay_itteration = 22000; heartbeat = asked }

next_runs : loop [] floats quiet begun ≡ some (record begun { delay_itteration = 21999 }, nothing)
unfolding loop tick bike_frames charger_frames read_commands
next_runs = refl

heartbeats_come_round_example : length (quiet ∷ []) < 22000
heartbeats_come_round_example =
    heartbeats_come_round [] floats 22000 (quiet ∷ [])
      {u = record begun { delay_itteration = 21999 }}
      (sent quiet due (record { bike_bus = []; heartbeat = some asked; line = [] }) asked pass_runs
        refl)
      (pass next_runs refl done)
