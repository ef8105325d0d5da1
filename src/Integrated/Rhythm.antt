-- ===== src/Integrated/Rhythm.antt =====
-- The passes of v2.6/v2.6.ino that are undefined.
use scv2_sketches.Prelude.{ℕ, true, none, List, ◌≡◌, ◌↔◌, ◌⊎◌, slt32, arith}
use scv2_sketches.V3.BikeLoop.{Floats}
use scv2_sketches.Integrated.Tables.{Row}
use scv2_sketches.Integrated.State.{Controller}
use scv2_sketches.Integrated.Charging.{prepare, charge_watts, share, grant, set_charging_amps}
use scv2_sketches.Integrated.Main.{Input, control, loop}
use scv2_sketches.Integrated.Grants.{prepare-Prepared}
use scv2_sketches.Integrated.Branches.{ticked, seen}

grant-none_iff :
    (w : ℕ) (s : Controller) → (grant w s ≡ none) ↔ ((s.volts ≡ 0) ⊎ (s.charger_count ≡ 0))
unfolding grant share
grant-none_iff w s = ((λ e. ground arith), (λ e. ground arith))

set_charging_amps-none_iff :
    (past_end : List Row) (s : Controller)
    → (set_charging_amps past_end s ≡ none) ↔ (((prepare s).volts ≡ 0) ⊎ (s.charger_count ≡ 0))
unfolding set_charging_amps
set_charging_amps-none_iff past_end s =
    let n = (prepare-Prepared s).count in
    let iff = grant-none_iff (charge_watts past_end (prepare s)) (prepare s) in
    ((λ e. ground (arith, iff.0 e)), (λ e. iff.1 (ground arith)))

-- A pass of v2.6 is undefined exactly when the delay has run out and the number of chargers is zero or
-- no voltage is known, from the chargers or from the batteries.
pub pass_undefined_iff :
    (past_end : List Row) (fl : Floats) (i : Input) (s : Controller)
    → (loop past_end fl i s ≡ none) ↔ (
        (slt32 (ticked fl i s).delay_itteration 1 ≡ true)
        × (((prepare (seen fl i s)).volts ≡ 0) ⊎ ((seen fl i s).charger_count ≡ 0)))
unfolding loop control
pass_undefined_iff past_end fl i s =
    let iff = set_charging_amps-none_iff past_end (seen fl i s) in
    ((λ e. ground arith), (λ e. ground arith))
