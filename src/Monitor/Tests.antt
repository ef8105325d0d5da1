-- ===== src/Monitor/Tests.antt =====
-- The monitor (Zero_charge_monitoring/Zero_charge_monitoring.ino) at concrete inputs.
use scv2_sketches.Prelude.{
  ℕ, zero, suc, List, length, All, subst, IsFrame, false, ◌≤◌, ◌≡◌, ◌↔◌, ◌⊎◌, refl, Option, none,
  some, [], ◌∷◌, Frame, arith,
}
use scv2_sketches.Monitor.State.{Stored, Monitor, power_up}
use scv2_sketches.Monitor.Command.{
  is_ready_to_charge, should_charge, output_amps, send_charge_command, set_output_volts,
}
use scv2_sketches.Monitor.Pass.{
  DashFloats, Settings, Input, Output, setup, window, log_details, from_charger, from_bike,
  after_window, age, count, forget_chargers, forget_bike, restart_count, loop,
}
use scv2_sketches.Monitor.Handlers.{Fresh}
use scv2_sketches.Monitor.Fresh.{IsInput, begin, pass, Reach-Fresh}
use scv2_sketches.Monitor.Asked.{Asks}
use scv2_sketches.Monitor.Sends.{command_within_watts}
use scv2_sketches.Monitor.Undefined.{DividesByZero, Overruns, monitor_undefined_iff}
use scv2_sketches.Monitor.Counts.{Counts, reports}
use scv2_sketches.Monitor.Windows.{passes, total_reports, whole_window_defined}
use scv2_sketches.Monitor.Settle.{gap, settle, Ready, smoothing_settles}

abbrev stored : Stored
stored = record { target_watts = 1500; end_volts = 116400 }

-- Two chargers at 99.0 V, a motorcycle at 100.0 V, and a window that ends with the next pass.
abbrev due : Monitor
due = record (power_up stored) {
  charger_wait_count = 22000;
  connected_chargers = 2;
  bike_voltage = 100000;
  charger_voltage_holder = 99000;
  charger_voltage = 98000;
  desired_output_volts = 1164;
}

abbrev silent : Input
silent = record {
  serial = false;
  commands = [];
  from_charger = none;
  from_bike = none;
  charger_junk = due.charger_message;
  bike_junk = due.charger_message;
}

abbrev floats : DashFloats
floats = record { dash_volts = λ v. v; dash_amps = λ a. a }

-- 116.4 V, and 7.5 A for each of the two chargers.
abbrev asked : Frame
asked = record { b0 = 0x04; b1 = 0x8c; b2 = 0; b3 = 75; b4 = 0; b5 = 0; b6 = 0; b7 = 0 }

abbrev outcome : Option (Monitor × Output)
outcome = some (
  record due {
    message_count = 1;
    sc_stale_count = 1;
    bike_stale_count = 1;
    charger_wait_count = 0;
    connected_chargers = 0;
    desired_output_amps = 75;
    charger_message = asked;
  },
  record { to_chargers = asked ∷ []; bike_bus = []; line = [] },
)

sends : loop floats silent due ≡ outcome
unfolding loop window log_details is_ready_to_charge send_charge_command should_charge output_amps
    after_window from_charger from_bike age count forget_chargers forget_bike restart_count
sends = refl

due-Fresh : Fresh due
due-Fresh = ground arith

-- The state after a first pass in which nothing comes in.
abbrev after_one : Monitor
after_one = record (power_up stored) {
  message_count = 1;
  sc_stale_count = 1;
  bike_stale_count = 1;
  charger_wait_count = 1;
  desired_output_volts = 1164;
}

first_pass :
    loop floats silent (setup (power_up stored))
    ≡ some (after_one, record { to_chargers = []; bike_bus = []; line = [] })
unfolding loop window after_window from_charger from_bike age count forget_chargers forget_bike
    restart_count setup set_output_volts
first_pass = refl

silent-IsInput : IsInput silent
silent-IsInput = record {
  watts_lt = tt;
  charger_bytes = λ f e. absurd (cc e);
  bike_bytes = λ r e. absurd (cc e);
}

Reach-Fresh_example : Fresh after_one
Reach-Fresh_example =
    Reach-Fresh after_one (omega arith) (omega arith)
      (pass floats silent begin silent-IsInput first_pass)

command_within_watts_example : Asks due asked × (due.charger_wait_count ≡ 22000)
command_within_watts_example =
    command_within_watts floats silent due asked [] due-Fresh (omega arith) sends refl

monitor_undefined_iff_example :
    (loop floats silent due ≡ none) ↔ (DividesByZero due ⊎ Overruns silent due)
monitor_undefined_iff_example = monitor_undefined_iff floats silent due due-Fresh

due-Ready : Ready due
unfolding is_ready_to_charge
due-Ready = record { ready = refl; holder_le = omega arith; charger_le = omega arith }

smoothing_settles_example :
    (gap (settle asked 23 due) ≤ 1) × ((settle asked 23 due).charger_voltage_holder ≡ 99000)
smoothing_settles_example = smoothing_settles asked 23 due (omega arith) due-Ready

-- 60.0 V is below the least voltage.
low : Settings
low = record { volts = 600; watts = 2000 }

-- No charger is left at the end of the window.
stuck : loop floats silent (record due { connected_chargers = 0 }) ≡ none
unfolding loop window is_ready_to_charge send_charge_command should_charge output_amps
stuck = refl

-- Passes in which nothing comes in.
unfoldable quiet : ℕ → List Input
quiet zero = []
quiet (suc n) = silent ∷ quiet n

quiet-facts :
    (n : ℕ) → (length (quiet n) ≡ n) × (total_reports (quiet n) ≡ 0) × All IsInput (quiet n)
unfolding quiet
quiet-facts zero = (refl, refl, tt)
quiet-facts (suc n) =
    let h = quiet-facts n in (omega (arith, h.0), omega (arith, h.1), (silent-IsInput, h.2))

-- 99.0 V from a charger.
abbrev reporting : Input
reporting = record silent { from_charger = some (record asked { b0 = 3; b1 = 0xde }) }

reporting-IsInput : IsInput reporting
reporting-IsInput = record {
  watts_lt = tt;
  charger_bytes = λ f e. subst IsFrame (cc e) report-IsFrame;
  bike_bytes = λ r e. absurd (cc e);
}
  where
    report-IsFrame : IsFrame (record asked { b0 = 3; b1 = 0xde })
    report-IsFrame = omega arith

-- One report in the first pass of a window, and none after it.
whole_window_defined_example :
    (t : Monitor) × (x : Monitor × Output) × (passes floats
        (reporting ∷ quiet 21999)
        (power_up stored)
      ≡ some t)
    × (loop floats silent t ≡ some x)
    × Counts 0 (reports silent) x.0
    × Fresh x.0
whole_window_defined_example =
    let h = quiet-facts 21999 in
    whole_window_defined floats (reporting ∷ quiet 21999) silent 0 (power_up stored)
      (omega (arith, h.0)) (omega (arith, h.1)) (omega (arith, h.1)) (reporting-IsInput, h.2)
      silent-IsInput (omega arith) (omega arith)
