-- ===== src/Integrated/FirstRun.antt =====
-- A run of v2.6/v2.6.ino from power up to its first heartbeat.
use scv2_sketches.Prelude.{
  ℕ, zero, suc, ◌+◌, ◌-◌, ◌<◌, none, some, false, [], ◌∷◌, ◌≡◌, refl, subst, Frame, arith,
}
use scv2_sketches.V3.BikeLoop.{Floats}
use scv2_sketches.Integrated.State.{Stored, Controller, power_up}
use scv2_sketches.Integrated.Charging.{
  raise_volts, pack_c_rate, ramp, max_amps, max_watts, is_full, is_cold, is_hot, cutback, temp_rows,
  cutbacks, slow_at_end, stop_below, station_limit, charge_watts, over_current, limit_amps, prepare,
  share, grant, set_charging_amps,
}
use scv2_sketches.Integrated.Settings.{read_commands, update_heartbeat_voltage, setup}
use scv2_sketches.Integrated.Buses.{charger_frame, charger_frames, bike_frames}
use scv2_sketches.Integrated.Main.{Input, Output, tick, announce, control, loop}
use scv2_sketches.Integrated.Station.{Fits}
use scv2_sketches.Integrated.Sane.{IsInput}
use scv2_sketches.Integrated.Reach.{Reached, started, passed, every_heartbeat-Fits}
use scv2_sketches.Integrated.Exact.Runs.{every_cycle_exact}

abbrev floats : Floats
floats = record { display_volts = λ v. v; display_watts = λ w. w }

abbrev quiet : Input
quiet = record { commands = []; from_chargers = []; from_bike = []; serial = false }

abbrev nothing : Output
nothing = record { bike_bus = []; heartbeat = none; line = [] }

-- 110.0 V.
abbrev report : Frame
report = record { b0 = 4; b1 = 0x4c; b2 = 0; b3 = 0; b4 = 0; b5 = 0; b6 = 0; b7 = 0 }

-- Settings for three chargers.
abbrev stored : Stored
stored = record {
  target_volts = 1164;
  target_max_amps = 960;
  target_charger_count = 3;
  target_watts = 660000;
  target_c_plus = 0;
  target_ramp_rate = 5000;
}

-- One charger has reported 110.0 V.
abbrev started_up : Controller
started_up = record (setup (power_up stored)) { volts = 1100; delay_itteration = 54999 }

quiet_pass :
    (s : Controller)
    → 1 < s.delay_itteration
    → s.delay_itteration < 0x8000_0000
    → loop [] floats quiet s
      ≡ some (record s { delay_itteration = s.delay_itteration - 1 }, nothing)
unfolding loop tick bike_frames charger_frames read_commands
quiet_pass s h l = ground arith

quiet-IsInput : IsInput 200 quiet
quiet-IsInput = record { commands = tt; chargers = tt; bike = tt }

-- Quiet passes until one is left.
waits :
    (n : ℕ) (s : Controller)
    → s.delay_itteration ≡ n + 1
    → n < 0x7000_0000
    → Reached 200 [] floats s
    → Reached 200 [] floats (record s { delay_itteration = 1 })
waits zero s e l r = subst (λ d. Reached 200 [] floats (record s { delay_itteration = d })) e r
waits (suc n) s e l r =
    waits n (record s { delay_itteration = s.delay_itteration - 1 }) (omega (arith, e))
      (omega arith)
      (passed quiet s nothing r quiet-IsInput (quiet_pass s (omega (arith, e)) (omega (arith, e))))

reported :
    loop [] floats (record quiet { from_chargers = report ∷ [] }) (setup (power_up stored))
    ≡ some (started_up, nothing)
unfolding loop tick bike_frames charger_frames charger_frame read_commands setup
    update_heartbeat_voltage
reported = refl

ready : Reached 200 [] floats (record started_up { delay_itteration = 1 })
ready = waits 54998 started_up refl (omega arith) (
    passed (record quiet { from_chargers = report ∷ [] }) (setup (power_up stored)) nothing
      (started stored (omega arith))
      (record { commands = tt; chargers = (omega arith, tt); bike = tt }) reported)

-- The first 50.00 W, shared by three.
abbrev first : Controller
first = record started_up {
  watts = 5000;
  bike_amps = 4;
  charging_amps = 1;
  delay_itteration = 22000;
  heartbeat = record (started_up.heartbeat) { b2 = 0; b3 = 1 };
}

first_runs :
    loop [] floats quiet (record started_up { delay_itteration = 1 })
    ≡ some (first, record { bike_bus = []; heartbeat = some first.heartbeat; line = [] })
unfolding loop control tick announce bike_frames charger_frames read_commands raise_volts
    pack_c_rate ramp max_amps max_watts is_full is_cold is_hot cutback temp_rows cutbacks
    slow_at_end stop_below station_limit charge_watts over_current limit_amps prepare share grant
    set_charging_amps setup update_heartbeat_voltage
first_runs = refl

every_heartbeat-Fits_example : Fits first first.heartbeat
unfolding tick bike_frames charger_frames read_commands setup update_heartbeat_voltage
every_heartbeat-Fits_example =
    every_heartbeat-Fits 200 [] floats quiet (record started_up { delay_itteration = 1 })
      {o = record { bike_bus = []; heartbeat = some first.heartbeat; line = [] }} first.heartbeat
      (omega arith) ready quiet-IsInput refl refl first_runs refl

every_cycle_exact_example :
    loop [] floats quiet (record started_up { delay_itteration = 1 })
    ≡ some (first, record { bike_bus = []; heartbeat = some first.heartbeat; line = [] })
unfolding tick bike_frames charger_frames read_commands setup update_heartbeat_voltage announce
    is_cold is_hot temp_rows
every_cycle_exact_example =
    every_cycle_exact 200 [] floats quiet (record started_up { delay_itteration = 1 }) (omega arith)
      (omega arith) ready quiet-IsInput refl (omega arith) (omega arith) (omega arith) refl refl
