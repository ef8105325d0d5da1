-- ===== src/Integrated/Station.antt =====
-- What the chargers draw after a pass of v2.6/v2.6.ino, end to end: from the settings, the frames of
-- both buses and the commands to the heartbeat that the chargers read.
use scv2_sketches.Prelude.{◌*◌, ◌≤◌, ◌<◌, false, none, some, List, ◌≡◌, subst, Frame, arith}
use native.Mathlib.Nat.{le_trans, mul-le-mul_right}
use scv2_sketches.Scv2
use scv2_sketches.V3.BikeLoop.{Floats}
use scv2_sketches.Integrated.Tables.{Row}
use scv2_sketches.Integrated.State.{Controller}
use scv2_sketches.Integrated.Charging.{prepare}
use scv2_sketches.Integrated.Main.{Input, Output, announce, loop}
use scv2_sketches.Integrated.Branches.{ticked, seen, IfDefined, loop-IfDefined}
use scv2_sketches.Integrated.Grants.{over, Drawn, granted_within_station}

-- What a charger reads in a heartbeat, for each of the chargers.
pub record Fits (t : Controller) (f : Frame) : Type 0 where
  pub watts : Scv2.amps f * t.charger_count * t.volts ≤ t.max_station_watts
  pub rate : Scv2.amps f * t.charger_count ≤ t.c_rate

announced-amps : (t : Controller) → Scv2.amps (announce t).heartbeat ≤ t.charging_amps
unfolding announce Scv2.amps
announced-amps t = omega arith

announced-Fits : (t : Controller) → Drawn t → Fits (announce t) (announce t).heartbeat
unfolding announce
announced-Fits t d =
    let n = mul-le-mul_right t.charger_count (announced-amps t) in
    record {
      watts = le_trans (mul-le-mul_right t.volts n) (le_trans d.1 d.0);
      rate = le_trans n d.2;
    }

-- A heartbeat, if one is sent, fits.
abbrev pub FitsIfSent : Controller → Output → Type 0
FitsIfSent t o = (f : Frame) → o.heartbeat ≡ some f → Fits t f

pub sent-FitsIfSent :
    (t : Controller) (o : Output)
    → o.heartbeat ≡ some (announce t).heartbeat
    → Drawn t
    → FitsIfSent (announce t) o
sent-FitsIfSent t o e d f b = subst (Fits (announce t)) (cc (e, b)) (announced-Fits t d)

pub silent-FitsIfSent : (t : Controller) (o : Output) → o.heartbeat ≡ none → FitsIfSent t o
silent-FitsIfSent t o e f b = absurd (cc (e, b))

-- A pass of v2.6 that sends a heartbeat, whatever its settings, commands and frames are, when 1C+ is
-- off and no pack draws more than 1 C: the amps that a charger reads in it, for each of the chargers
-- counted, are at most the C rate, and at the pass's voltage at most the station's watts. The count,
-- the voltage and the C rate at the time of the computation are not negative.
pub heartbeat_stays_within :
    (past_end : List Row) (fl : Floats) (i : Input) (s : Controller) {t : Controller} {o : Output}
    (f : Frame)
    → (seen fl i s).charger_count < 0x8000_0000
    → (prepare (seen fl i s)).volts < 0x8000
    → (prepare (seen fl i s)).c_rate < 0x8000_0000
    → (seen fl i s).c_plus ≡ 0
    → over (seen fl i s).monolith_ah (seen fl i s).monolith_amps ≡ false
    → over (seen fl i s).power_tank_ah (seen fl i s).power_tank_amps ≡ false
    → loop past_end fl i s ≡ some (t, o)
    → o.heartbeat ≡ some f
    → Fits t f
heartbeat_stays_within past_end fl i s f c v r p m b e h =
    let x = seen fl i s in
    subst (IfDefined FitsIfSent) e
      (loop-IfDefined FitsIfSent past_end fl i s
        (λ u o' q e'. sent-FitsIfSent u o' e' (granted_within_station past_end x c v r p m b q))
        (λ o' q e'. silent-FitsIfSent (ticked fl i s) o' e'))
      f h
