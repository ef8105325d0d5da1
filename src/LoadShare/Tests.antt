-- ===== src/LoadShare/Tests.antt =====
-- Runs of the load share sketches, and instances of the theorems.
use scv2_sketches.Prelude.{
  ℕ, min, ◌-◌, ◌+◌, ◌*◌, ◌≤◌, true, false, ltb, if◌then◌else◌, some, List, [], ◌∷◌, ◌++◌, ◌≡◌, refl,
  Frame, arith,
}
use mathlib.Core.List.Perm
use scv2_sketches.Scv2
use scv2_sketches.LoadShare.State.{max_12v_watts}
use scv2_sketches.LoadShare.Bounds.{IsSafe}
use scv2_sketches.LoadShare.Station.{draw_on_target}
use scv2_sketches.LoadShare.Order.{loop_any_order}
use scv2_sketches.LoadShare.Climb.{IsCalm, rounds, most, ramp_reaches_target}
use scv2_sketches.LoadShare.State.{uno, State, initial, wattage_max_unset, station_watts_default}
use scv2_sketches.LoadShare.Cycle.{
  product, set_charging_amps, start, receive, average, measured, measure, regulate, stop_above,
  cut_row, cutback, stop_below, decide, grant, announce, cycle,
}
use scv2_sketches.LoadShare.Loop.{Input, mcp2515_isr, read_commands, setup, control, loop}
use scv2_sketches.LoadShare.Sketches.{
  load_share, load_share_13kw, load_share_v3, load_share_5kw, load_share_baja, heartbeat_default,
}
use scv2_sketches.LoadShare.Division.{granted, cycle_defined}
use scv2_sketches.LoadShare.Bounds.{IsSketch}
use scv2_sketches.LoadShare.Reach.{Reach, here, next, interrupt, Reach-on_target}
use scv2_sketches.LoadShare.Serial.{serial_loop}
use scv2_sketches.LoadShare.SerialLoop.{down, serial_loop_refines}
use scv2_sketches.LoadShare.Commands.{last_command_stored}

-- Every sketch has sensible constants.
sketches-IsSketch :
    IsSketch load_share
    × IsSketch load_share_v3
    × IsSketch load_share_13kw
    × IsSketch load_share_5kw
    × IsSketch load_share_baja
sketches-IsSketch = omega arith

-- 110.0 V and 2.0 A.
abbrev frame : Frame
frame = record { b0 = 4; b1 = 0x4c; b2 = 0; b3 = 20; b4 = 0; b5 = 0; b6 = 0; b7 = 0 }

abbrev frames : List Frame
frames = frame ∷ frame ∷ []

-- After power up with a stored target of 6600.00 W, and an interrupt.
abbrev waiting : State
waiting = record (initial heartbeat_default 660000) { max_station_watts = 660000; flag_recv = true }

abbrev after_one : State
after_one = record waiting {
  charging_amps = 22;
  charger_count = 2;
  volts = 1100;
  amps = 40;
  watts = 49000;
  station_watts = 51600;
  heartbeat = record heartbeat_default { b2 = 0; b3 = 22 };
  flag_recv = false;
}

runs : cycle load_share uno frames waiting ≡ some after_one
unfolding product set_charging_amps start receive average measured measure regulate stop_above
    cut_row cutback stop_below decide grant announce cycle
runs = refl

cycle_defined_example :
    cycle load_share uno [] waiting ≡ some (announce (granted (decide load_share uno [] waiting)))
cycle_defined_example = cycle_defined load_share uno [] waiting (omega arith)

abbrev input : Input
input = record { commands = []; frames = frames; serial = false }

waiting-Reach : Reach load_share (setup (initial heartbeat_default 660000)) waiting
unfolding setup mcp2515_isr
waiting-Reach = next here (interrupt (setup (initial heartbeat_default 660000)))

loops :
    loop load_share uno input waiting
    ≡ some (after_one, record { line = []; sent = after_one.heartbeat })
unfolding product set_charging_amps start receive average measured measure regulate stop_above
    cut_row cutback stop_below decide grant announce cycle loop control read_commands
loops = refl

Reach-on_target_example : 49000 ≤ 660000 + 5000
Reach-on_target_example =
    Reach-on_target heartbeat_default 660000 sketches-IsSketch.0 (omega arith) waiting-Reach input
      after_one (record { line = []; sent = after_one.heartbeat }) tt refl loops

-- Two chargers at 116.5 V.
abbrev high_frames : List Frame
high_frames = record frame { b1 = 0x8d } ∷ record frame { b1 = 0x8d } ∷ []

abbrev stopped : State
stopped = record after_one { volts = 1165; last_watts = 49000; watts = 0; station_watts = 56600 }

stops : cycle load_share uno high_frames (record after_one { flag_recv = true }) ≡ some stopped
unfolding product set_charging_amps start receive average measured measure regulate stop_above
    cut_row cutback stop_below decide grant announce cycle
stops = refl

last_command_stored_example :
    ((read_commands ((500000 ∷ []) ++ 1500000 ∷ []) waiting).max_station_watts ≡ 1500000)
    × ((setup (read_commands ((500000 ∷ []) ++ 1500000 ∷ []) waiting)).max_station_watts
        ≡ (if ltb wattage_max_unset 1500000 then station_watts_default else 1500000))
    × ((setup stopped).max_station_watts ≤ wattage_max_unset)
last_command_stored_example = last_command_stored (500000 ∷ []) 1500000 waiting stopped

serial_loop_refines_example :
    (t : State) × (dump : List ℕ) × (serial_loop [] (some frame) false waiting ≡ some (t, dump, []))
    × (loop load_share_5kw uno
          (record { commands = []; frames = frame ∷ []; serial = false })
          waiting
        ≡ some (down t, record { line = []; sent = t.heartbeat }))
serial_loop_refines_example = serial_loop_refines [] (some frame) waiting refl

-- 108.0 V and 3.0 A.
abbrev other : Frame
other = record { b0 = 4; b1 = 0x38; b2 = 0; b3 = 30; b4 = 0; b5 = 0; b6 = 0; b7 = 0 }

loop_any_order_example :
    loop load_share uno
      (record { commands = []; frames = frame ∷ other ∷ []; serial = true })
      waiting
    ≡ loop load_share uno
        (record { commands = []; frames = other ∷ frame ∷ []; serial = true })
        waiting
loop_any_order_example =
    loop_any_order load_share uno [] {xs = frame ∷ other ∷ []} {ys = other ∷ frame ∷ []} true
      waiting (Perm.swap _ _ [])

input-IsCalm : IsCalm load_share input
input-IsCalm = record {
  no_commands = refl;
  calm = record { above_least = omega arith; below_most = omega arith; below_rows = omega arith };
}

waiting-IsSafe : IsSafe waiting
waiting-IsSafe = omega arith

ramp_reaches_target_example :
    (t : State) × (rounds load_share (input ∷ input ∷ []) waiting ≡ some t)
    × (t.max_station_watts ≡ 660000)
    × (min (0 + 2 * load_share.ramp_rate) (660000 - max_12v_watts) ≤ t.watts)
    × (t.watts ≤ most (input ∷ input ∷ []) 0 + 2 * load_share.ramp_rate)
ramp_reaches_target_example =
    ramp_reaches_target (input ∷ input ∷ []) waiting sketches-IsSketch.0 waiting-IsSafe
      (input-IsCalm, (input-IsCalm, tt))

draw_on_target_example : Scv2.amps after_one.heartbeat * 2 * 1100 ≤ 660000 + 5000
draw_on_target_example =
    draw_on_target heartbeat_default 660000 input {t = after_one}
      {o = record { line = []; sent = after_one.heartbeat }} sketches-IsSketch.0 (omega arith)
      waiting-Reach tt refl loops (omega arith)
