-- ===== src/Integrated/Exact/Runs.antt =====
-- From power up, every control cycle of v2.6/v2.6.ino is the exact one.
use scv2_sketches.Prelude.{
  ℕ, ◌≤◌, ◌<◌, true, false, if◌then◌else◌, some, List, [], All, ◌≡◌, refl, slt32, arith,
}
use native.Mathlib.Nat.{le_trans}
use scv2_sketches.V3.BikeLoop.{Floats}
use scv2_sketches.Integrated.Tables.{Row}
use scv2_sketches.Integrated.State.{Controller}
use scv2_sketches.Integrated.Charging.{temp_rows, set_charging_amps}
use scv2_sketches.Integrated.Settings.{read_commands}
use scv2_sketches.Integrated.Buses.{charger_frames, bike_frames}
use scv2_sketches.Integrated.Main.{Input, Output, report, announce, control, loop}
use scv2_sketches.Integrated.Grants.{over}
use scv2_sketches.Integrated.Branches.{ticked, seen}
use scv2_sketches.Integrated.Sane.{IsInput}
use scv2_sketches.Integrated.Reach.{Reached, seen-IsSane, Reached-IsSane}
use scv2_sketches.Integrated.Exact.{known_volts, exact_cycle, HasRate}
use scv2_sketches.Integrated.Exact.Cycle.{cycle_exact}

-- What a pass that computed `t` sends.
abbrev pub sending : Floats → Input → Controller → Controller → Output
sending fl i s t = record {
  bike_bus =
      (bike_frames fl i.from_bike (charger_frames i.from_chargers (read_commands i.commands s))).1;
  heartbeat = some t.heartbeat;
  line = if i.serial then report t else [];
}

due_pass :
    (past_end : List Row) (fl : Floats) (i : Input) (s : Controller) {t : Controller}
    → slt32 (ticked fl i s).delay_itteration 1 ≡ true
    → set_charging_amps past_end (seen fl i s) ≡ some t
    → loop past_end fl i s ≡ some (announce t, sending fl i s (announce t))
unfolding loop control
due_pass past_end fl i s q e = simp (q, e) refl

-- From power up, after any defined passes, without 1C+ and with settings and frames that hold no value
-- near the end of its type (a pack has fewer than 800 Ah, the station less than 327.68 kW), and with
-- no rate above 3 C behind the table for a cold battery: a pass whose delay runs out, when a voltage
-- is known, chargers are counted and no pack draws more than 1 C, is defined, leaves the state that
-- the specification in exact arithmetic leaves, and sends its heartbeat.
pub every_cycle_exact :
    (cap : ℕ) (past_end : List Row) (fl : Floats) (i : Input) (s : Controller)
    → cap ≤ 800
    → All HasRate (temp_rows past_end)
    → Reached cap past_end fl s
    → IsInput cap i
    → slt32 (ticked fl i s).delay_itteration 1 ≡ true
    → 0 < known_volts (seen fl i s)
    → 0 < (seen fl i s).charger_count
    → (seen fl i s).max_station_watts < 32768000
    → over (seen fl i s).monolith_ah (seen fl i s).monolith_amps ≡ false
    → over (seen fl i s).power_tank_ah (seen fl i s).power_tank_amps ≡ false
    → loop past_end fl i s
      ≡ some (
        announce (exact_cycle past_end (seen fl i s)),
        sending fl i s (announce (exact_cycle past_end (seen fl i s))),
      )
every_cycle_exact cap past_end fl i s le t r a q v c l m b =
    let wide = le_trans le (omega arith) in
    due_pass past_end fl i s q (
      cycle_exact le past_end (seen fl i s) (seen-IsSane wide fl i s a (Reached-IsSane wide r)) t v
        c l m b)
