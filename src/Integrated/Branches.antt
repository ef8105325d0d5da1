-- ===== src/Integrated/Branches.antt =====
-- The two ways through a pass of v2.6/v2.6.ino: with a control cycle and its heartbeat, or without.
-- The older versions have the same two.
use scv2_sketches.Prelude.{
  ℕ, Bool, true, false, if◌then◌else◌, ◌>>=◌, Option, none, some, List, [], ◌≡◌, refl, slt32,
}
use scv2_sketches.V3.BikeLoop.{Floats, Sent}
use scv2_sketches.Integrated.Tables.{Row}
use scv2_sketches.Integrated.State.{Controller}
use scv2_sketches.Integrated.Charging.{set_charging_amps}
use scv2_sketches.Integrated.Settings.{read_commands}
use scv2_sketches.Integrated.Buses.{charger_frames, bike_frames}
use scv2_sketches.Integrated.Main.{Input, Output, tick, announce, control, loop}

-- The state of a pass when it tests the delay, and when it computes the amps.
abbrev pub ticked : Floats → Input → Controller → Controller
ticked fl i s =
    tick
      (bike_frames fl i.from_bike (charger_frames i.from_chargers (read_commands i.commands s))).0

abbrev pub seen : Floats → Input → Controller → Controller
seen fl i s = record (ticked fl i s) { delay_itteration = 22000 }

-- What a pass leaves and sends has a property, if the pass is defined.
abbrev pub IfDefined : (Controller → Output → Type 0) → Option (Controller × Output) → Type 0
IfDefined P none = Unit {0}
IfDefined P (some r) = P r.0 r.1

module _ (P : Controller → Output → Type 0) where
  pub run-IfDefined :
      (r : Option Controller) (sent : List Sent) (line : Controller → List ℕ)
      → ((t : Controller)
          → r ≡ some t
          → P (announce t) (record {
            bike_bus = sent;
            heartbeat = some (announce t).heartbeat;
            line = line (announce t);
          }))
      → IfDefined P (do
        c ← (do t ← r; some (announce t))
        some (c, record { bike_bus = sent; heartbeat = some c.heartbeat; line = line c }))
  run-IfDefined none sent line h = tt
  run-IfDefined (some t) sent line h = h t refl

  pub branch-IfDefined :
      (due : Bool) (run : Option (Controller × Output)) (t : Controller) (sent : List Sent)
      → (due ≡ true → IfDefined P run)
      → (due ≡ false → P t (record { bike_bus = sent; heartbeat = none; line = [] }))
      → IfDefined P
          (if due then run else some (t, record { bike_bus = sent; heartbeat = none; line = [] }))
  branch-IfDefined true run t sent h k = h refl
  branch-IfDefined false run t sent h k = k refl

  -- A pass of v2.6.
  pub loop-IfDefined :
      (past_end : List Row) (fl : Floats) (i : Input) (s : Controller)
      → ((t : Controller) (o : Output)
          → set_charging_amps past_end (seen fl i s) ≡ some t
          → o.heartbeat ≡ some (announce t).heartbeat
          → P (announce t) o)
      → ((o : Output)
          → slt32 (ticked fl i s).delay_itteration 1 ≡ false
          → o.heartbeat ≡ none
          → P (ticked fl i s) o)
      → IfDefined P (loop past_end fl i s)
  unfolding loop control
  loop-IfDefined past_end fl i s h k =
      branch-IfDefined _ _ _ _
        (λ q. run-IfDefined (set_charging_amps past_end (seen fl i s)) _ _ (λ t e. h t _ e refl))
        (λ q. k _ q refl)
