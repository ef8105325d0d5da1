-- ===== src/Older/FirstRun.antt =====
-- Runs of v2.5/v2.5.ino: from power up to its first heartbeat, and behind it.
use scv2_sketches.Prelude.{
  ℕ, zero, suc, ◌+◌, ◌-◌, ◌<◌, none, some, false, [], ◌∷◌, length, ◌≡◌, refl, subst, Frame, arith,
}
use scv2_sketches.V3.BikeLoop.{Floats}
use scv2_sketches.Integrated.State.{Stored, Controller, power_up}
use scv2_sketches.Integrated.Charging.{
  raise_volts, pack_c_rate, ramp, max_amps, max_watts, is_cold, is_hot, cutback, temp_rows,
  over_current, limit_amps, prepare,
}
use scv2_sketches.Integrated.Buses.{bike_frames}
use scv2_sketches.Integrated.Main.{Input, Output, tick, announce}
use scv2_sketches.Integrated.Station.{Fits}
use scv2_sketches.Integrated.Waiting.{pass, done, sent}
use scv2_sketches.Older.Variants.{v2_5}
use scv2_sketches.Older.Charging.{
  is_full, cutbacks, ends, slow_at_end, stop_out_of_range, station_limit, charge_watts, grant,
  set_charging_amps,
}
use scv2_sketches.Older.Main
use scv2_sketches.Older.Sane.{IsInput}
use scv2_sketches.Older.Reach.{Reached, started, passed, variant_heartbeat-Fits}
use scv2_sketches.Older.Exact.Runs.{every_variant_cycle_exact}
use scv2_sketches.Older.Rounds.{variant_heartbeats_come_round}

abbrev floats : Floats
floats = record { display_volts = λ v. v; display_watts = λ w. w }

abbrev quiet : Input
quiet = record { commands = []; from_chargers = []; from_bike = []; serial = false }

abbrev nothing : Output
nothing = record { bike_bus = []; heartbeat = none; line = [] }

-- 110.0 V.
abbrev report : Frame
report = record { b0 = 4; b1 = 0x4c; b2 = 0; b3 = 0; b4 = 0; b5 = 0; b6 = 0; b7 = 0 }

-- Settings for three chargers.
abbrev stored : Stored
stored = record {
  target_volts = 1164;
  target_max_amps = 960;
  target_charger_count = 3;
  target_watts = 660000;
  target_c_plus = 0;
  target_ramp_rate = 5000;
}

-- One charger has reported 110.0 V.
abbrev started_up : Controller
started_up = record (Main.setup (power_up stored)) { volts = 1100; delay_itteration = 54999 }

quiet_pass :
    (s : Controller)
    → 1 < s.delay_itteration
    → s.delay_itteration < 0x8000_0000
    → Main.loop v2_5 [] floats quiet s
      ≡ some (record s { delay_itteration = s.delay_itteration - 1 }, nothing)
unfolding Main.loop tick bike_frames Main.charger_frames Main.read_commands
quiet_pass s h l = ground arith

quiet-IsInput : IsInput 200 quiet
quiet-IsInput = record { commands = tt; chargers = tt; bike = tt }

-- Quiet passes until one is left.
waits :
    (n : ℕ) (s : Controller)
    → s.delay_itteration ≡ n + 1
    → n < 0x7000_0000
    → Reached v2_5 200 [] floats s
    → Reached v2_5 200 [] floats (record s { delay_itteration = 1 })
waits zero s e l r = subst (λ d. Reached v2_5 200 [] floats (record s { delay_itteration = d })) e r
waits (suc n) s e l r =
    waits n (record s { delay_itteration = s.delay_itteration - 1 }) (omega (arith, e))
      (omega arith)
      (passed quiet s nothing r quiet-IsInput (quiet_pass s (omega (arith, e)) (omega (arith, e))))

reported :
    Main.loop v2_5 [] floats
      (record quiet { from_chargers = report ∷ [] })
      (Main.setup (power_up stored))
    ≡ some (started_up, nothing)
unfolding Main.loop tick bike_frames Main.charger_frames Main.read_commands Main.setup
reported = refl

ready : Reached v2_5 200 [] floats (record started_up { delay_itteration = 1 })
ready = waits 54998 started_up refl (omega arith) (
    passed (record quiet { from_chargers = report ∷ [] }) (Main.setup (power_up stored)) nothing
      (started stored (omega arith))
      (record { commands = tt; chargers = (omega arith, tt); bike = tt }) reported)

-- The first 50.00 W, shared by three.
abbrev first : Controller
first = record started_up {
  watts = 5000;
  bike_amps = 4;
  charging_amps = 1;
  delay_itteration = 22000;
  heartbeat = record (started_up.heartbeat) { b2 = 0; b3 = 1 };
}

first_runs :
    Main.loop v2_5 [] floats quiet (record started_up { delay_itteration = 1 })
    ≡ some (first, record { bike_bus = []; heartbeat = some first.heartbeat; line = [] })
unfolding Main.loop Main.control tick announce bike_frames Main.charger_frames Main.read_commands
    raise_volts pack_c_rate ramp max_amps max_watts is_full is_cold is_hot cutback temp_rows
    cutbacks ends slow_at_end stop_out_of_range station_limit charge_watts over_current limit_amps
    prepare grant set_charging_amps Main.setup
first_runs = refl

variant_heartbeat-Fits_example : Fits first first.heartbeat
unfolding tick bike_frames Main.charger_frames Main.read_commands Main.setup
variant_heartbeat-Fits_example =
    variant_heartbeat-Fits v2_5 200 [] floats quiet (record started_up { delay_itteration = 1 })
      {o = record { bike_bus = []; heartbeat = some first.heartbeat; line = [] }} first.heartbeat
      (omega arith) ready quiet-IsInput refl refl first_runs refl

behind_runs :
    Main.loop v2_5 [] floats quiet first ≡ some (record first { delay_itteration = 21999 }, nothing)
unfolding Main.loop tick bike_frames Main.charger_frames Main.read_commands
behind_runs = refl

variant_heartbeats_come_round_example : length (quiet ∷ []) < 22000
variant_heartbeats_come_round_example =
    variant_heartbeats_come_round v2_5 [] floats 22000 (quiet ∷ [])
      {u = record first { delay_itteration = 21999 }}
      (sent quiet (record started_up { delay_itteration = 1 })
        (record { bike_bus = []; heartbeat = some first.heartbeat; line = [] }) first.heartbeat
        first_runs refl)
      (pass behind_runs refl done)

every_variant_cycle_exact_example :
    Main.loop v2_5 [] floats quiet (record started_up { delay_itteration = 1 })
    ≡ some (first, record { bike_bus = []; heartbeat = some first.heartbeat; line = [] })
unfolding tick bike_frames Main.charger_frames Main.read_commands Main.setup announce is_cold is_hot
    temp_rows
every_variant_cycle_exact_example =
    every_variant_cycle_exact v2_5 200 [] floats quiet (record started_up { delay_itteration = 1 })
      (omega arith) (omega arith) (omega arith) ready quiet-IsInput refl (omega arith) (omega arith)
      refl refl
