-- ===== src/Integrated/Tolerance.antt =====
-- How far the voltage of v2.6/v2.6.ino may be from what the chargers report.
use scv2_sketches.Prelude.{◌+◌, ◌≤◌, ◌<◌, List, [], ◌∷◌, ◌++◌, All, Frame, word, arith}
use scv2_sketches.Integrated.State.{Controller}
use scv2_sketches.Integrated.Buses.{charger_frame, charger_frames}

-- A voltage that leaves room for the tolerance in a `short`.
abbrev pub Plausible : Frame → Type 0
Plausible f = word f.b0 f.b1 < 0x7ff0

-- After frames from the chargers, the voltage is within 1.1 V of the one in the last frame, if no
-- voltage is near the end of the range of a `short`.
pub within_tolerance :
    (frames : List Frame) (f : Frame) (s : Controller)
    → s.volts < 0x7ff0
    → All Plausible frames
    → Plausible f
    → ((charger_frames (frames ++ f ∷ []) s).volts ≤ word f.b0 f.b1 + 11)
      × (word f.b0 f.b1 ≤ (charger_frames (frames ++ f ∷ []) s).volts + 11)
unfolding charger_frames charger_frame
within_tolerance [] f s v a p = ground arith
within_tolerance (g ∷ frames) f s v a p =
    within_tolerance frames f (charger_frame g s) (ground arith) a.1 p
