-- ===== src/SuperCharger/Exact/Runs.antt =====
-- Rounds of `superChargerLoop` (libraries/DIGINOW_SUPERCHARGER/SC.h) run as the exact specification.
use scv2_sketches.Prelude.{
  ◌<◌, ◌>>=◌, Option, some, List, [], ◌∷◌, All, Frame, word, ◌≡◌, refl, arith,
}
use scv2_sketches.SuperCharger.State.{Setup, Charger}
use scv2_sketches.SuperCharger.Heartbeat.{receive, super_charger_loop}
use scv2_sketches.SuperCharger.Exact.{exact_cycle, IsSetup, IsCalm}
use scv2_sketches.SuperCharger.Exact.Cycle.{exact_watts-le, cycle_exact}

-- The frames of a round report a voltage.
abbrev pub IsReport : Frame → Type 0
IsReport f = (0 < word f.b0 f.b1) × (word f.b0 f.b1 < 0x8000)

-- Rounds of the code, each with its frames, and of the specification.
abbrev pub rounds : Setup → List (List Frame) → Charger → Option Charger
rounds k [] s = some s
rounds k (frames ∷ later) s = super_charger_loop k frames s >>= rounds k later

abbrev pub exact_rounds : Setup → List (List Frame) → Charger → Charger
exact_rounds k [] s = s
exact_rounds k (frames ∷ later) s = exact_rounds k later (exact_cycle k (receive frames s))

receive-IsCalm :
    (frames : List Frame) (s : Charger) → All IsReport frames → IsCalm s → IsCalm (receive frames s)
unfolding receive
receive-IsCalm [] s a h = h
receive-IsCalm (f ∷ frames) s a h =
    receive-IsCalm frames (record s { volts = word f.b0 f.b1 }) (a.1)
      (record {
        volts_gt = a.0.0;
        volts_lt = a.0.1;
        c_rate_lt = h.c_rate_lt;
        chargers = h.chargers;
        chargers_lt = h.chargers_lt;
        station_lt = h.station_lt;
        ramp_lt = h.ramp_lt;
        watts_lt = h.watts_lt;
      })

pub exact_cycle-IsCalm : (k : Setup) (s : Charger) → IsCalm s → IsCalm (exact_cycle k s)
exact_cycle-IsCalm k s h =
    let w = (exact_watts-le k s).1 in
    record {
      volts_gt = h.volts_gt;
      volts_lt = h.volts_lt;
      c_rate_lt = h.c_rate_lt;
      chargers = h.chargers;
      chargers_lt = h.chargers_lt;
      station_lt = h.station_lt;
      ramp_lt = h.ramp_lt;
      watts_lt = omega (arith, w, h.station_lt);
    }

-- Any rounds in a row, whatever voltages the chargers report in them, if positive, are defined and
-- leave the state that the specification in exact arithmetic leaves. The setup has a voltage row and
-- no rate above 3 C, also behind the temperature table; the C rate is below 1638.4 A, the number of
-- chargers is positive, the watts and the station's are below 21474836.48 W and the ramp step below
-- a quarter of that.
pub rounds_exact :
    (k : Setup) (inputs : List (List Frame)) (s : Charger)
    → IsSetup k
    → IsCalm s
    → All (All IsReport) inputs
    → rounds k inputs s ≡ some (exact_rounds k inputs s)
unfolding super_charger_loop
rounds_exact k [] s c h a = refl
rounds_exact k (frames ∷ later) s c h a =
    let u = receive-IsCalm frames s (a.0) h in
    rw (cycle_exact k (receive frames s) c u) (
      rounds_exact k later (exact_cycle k (receive frames s)) c
        (exact_cycle-IsCalm k (receive frames s) u) (a.1))
