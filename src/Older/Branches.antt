-- ===== src/Older/Branches.antt =====
-- The two ways through a pass of v2.5/v2.5.ino and its variants.
use scv2_sketches.Prelude.{none, some, List, ◌≡◌, refl, false, slt32}
use scv2_sketches.V3.BikeLoop.{Floats}
use scv2_sketches.Integrated.Tables.{Row}
use scv2_sketches.Integrated.State.{Controller}
use scv2_sketches.Integrated.Buses.{bike_frames}
use scv2_sketches.Integrated.Main.{Input, Output, tick, announce}
use scv2_sketches.Integrated.Branches.{IfDefined, run-IfDefined, branch-IfDefined}
use scv2_sketches.Older.Variants.{Variant}
use scv2_sketches.Older.Charging.{set_charging_amps}
use scv2_sketches.Older.Main.{read_commands, charger_frames, control, loop}

-- The state of a pass when it tests the delay, and when it computes the amps.
abbrev pub counted : Variant → Floats → Input → Controller → Controller
counted k fl i s =
    tick
      (bike_frames fl i.from_bike (charger_frames i.from_chargers (read_commands k i.commands s))).0

abbrev pub heard : Variant → Floats → Input → Controller → Controller
heard k fl i s = record (counted k fl i s) { delay_itteration = 22000 }

pub variant-IfDefined :
    (P : Controller → Output → Type 0) (k : Variant) (past_end : List Row) (fl : Floats) (i : Input)
    (s : Controller)
    → ((t : Controller) (o : Output)
        → set_charging_amps k past_end (heard k fl i s) ≡ some t
        → o.heartbeat ≡ some (announce t).heartbeat
        → P (announce t) o)
    → ((o : Output)
        → slt32 (counted k fl i s).delay_itteration 1 ≡ false
        → o.heartbeat ≡ none
        → P (counted k fl i s) o)
    → IfDefined P (loop k past_end fl i s)
unfolding loop control
variant-IfDefined P k past_end fl i s h g =
    branch-IfDefined P _ _ _ _
      (λ q.
        run-IfDefined P (set_charging_amps k past_end (heard k fl i s)) _ _ (λ t e. h t _ e refl))
      (λ q. g _ q refl)
