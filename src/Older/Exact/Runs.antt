-- ===== src/Older/Exact/Runs.antt =====
-- From power up, every control cycle of v2.5/v2.5.ino and its variants is the exact one.
use scv2_sketches.Prelude.{
  ℕ, ◌*◌, ◌≤◌, ◌<◌, true, false, if◌then◌else◌, some, List, [], All, ◌≡◌, refl, slt32, arith,
}
use native.Mathlib.Nat.{le_trans}
use scv2_sketches.V3.BikeLoop.{Floats}
use scv2_sketches.Integrated.Tables.{Row}
use scv2_sketches.Integrated.State.{Controller}
use scv2_sketches.Integrated.Charging.{temp_rows}
use scv2_sketches.Integrated.Buses.{bike_frames}
use scv2_sketches.Integrated.Main.{Input, Output, announce}
use scv2_sketches.Integrated.Grants.{over}
use scv2_sketches.Integrated.Exact.{known_volts, HasRate}
use scv2_sketches.Older.Variants.{Variant}
use scv2_sketches.Older.Charging.{set_charging_amps}
use scv2_sketches.Older.Main.{read_commands, charger_frames, report, control, loop}
use scv2_sketches.Older.Branches.{counted, heard}
use scv2_sketches.Older.Sane.{IsInput}
use scv2_sketches.Older.Reach.{Reached, heard-Holds, Reached-Holds}
use scv2_sketches.Older.Exact.{exact_cycle}
use scv2_sketches.Older.Exact.Cycle.{variant_cycle_exact}

-- What a pass that computed `t` sends.
abbrev pub sending : Variant → Floats → Input → Controller → Controller → Output
sending k fl i s t = record {
  bike_bus =
      (bike_frames fl i.from_bike
        (charger_frames i.from_chargers (read_commands k i.commands s))).1;
  heartbeat = some t.heartbeat;
  line = if i.serial then report t else [];
}

due_pass :
    (k : Variant) (past_end : List Row) (fl : Floats) (i : Input) (s : Controller) {t : Controller}
    → slt32 (counted k fl i s).delay_itteration 1 ≡ true
    → set_charging_amps k past_end (heard k fl i s) ≡ some t
    → loop k past_end fl i s ≡ some (announce t, sending k fl i s (announce t))
unfolding loop control
due_pass k past_end fl i s q e = simp (q, e) refl

-- From power up, in any variant whose least voltage is not negative, after any defined passes, with
-- fewer than 54 chargers whose 12 V supplies the station can feed, without 1C+ and with settings and
-- frames that hold no value near the end of its type (a pack has fewer than 800 Ah), and with no rate
-- above 3 C behind the table for a cold battery: a pass whose delay runs out, when chargers are
-- counted, the station's watts over the known voltage fit in a short and no pack draws more than 1 C,
-- is defined, leaves the state that the specification in exact arithmetic leaves, and sends its
-- heartbeat.
pub every_variant_cycle_exact :
    (k : Variant) (cap : ℕ) (past_end : List Row) (fl : Floats) (i : Input) (s : Controller)
    → k.output_volts_min < 0x8000
    → cap ≤ 800
    → All HasRate (temp_rows past_end)
    → Reached k cap past_end fl s
    → IsInput cap i
    → slt32 (counted k fl i s).delay_itteration 1 ≡ true
    → (heard k fl i s).max_station_watts < known_volts (heard k fl i s) * 65535
    → 0 < (heard k fl i s).charger_count
    → over (heard k fl i s).monolith_ah (heard k fl i s).monolith_amps ≡ false
    → over (heard k fl i s).power_tank_ah (heard k fl i s).power_tank_amps ≡ false
    → loop k past_end fl i s
      ≡ some (
        announce (exact_cycle k past_end (heard k fl i s)),
        sending k fl i s (announce (exact_cycle k past_end (heard k fl i s))),
      )
every_variant_cycle_exact k cap past_end fl i s n le t r a q v c m b =
    let wide = le_trans le (omega arith) in
    let (g, p) = heard-Holds wide k fl i s a (Reached-Holds wide k r) in
    due_pass k past_end fl i s q
      (variant_cycle_exact le k past_end (heard k fl i s) g n p t v c m b)
