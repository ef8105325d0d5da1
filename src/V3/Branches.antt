-- ===== src/V3/Branches.antt =====
-- The two ways through a pass of the sketch v3 (v3/v3.ino): with a control cycle and its heartbeat,
-- or without.
use scv2_sketches.Prelude.{
  ◌>>=◌, Option, none, some, [], ◌++◌, ◌≡◌, refl, Bool-cases, inl, inr, true, false, subst, sym,
  slt32,
}
use scv2_sketches.SuperCharger.State.{Setup, Charger}
use scv2_sketches.SuperCharger.Charging.{set_charging_amps}
use scv2_sketches.SuperCharger.Heartbeat.{receive, super_charger_loop, super_charge}
use scv2_sketches.V3.State.{Bike}
use scv2_sketches.V3.BikeLoop.{Floats, bike_loop}
use scv2_sketches.V3.Phone.{poll}
use scv2_sketches.V3.Main.{Input, Output, charging_status, debug_sc_log, control, loop}
use scv2_sketches.V3.Rhythm.{receive-delay, counted}

-- The charger's state when a pass computes the amps.
abbrev pub seen : Floats → Input → Bike → Charger
seen fl i s = record (receive i.charger_frames (counted fl i s).charger) {
  delay_itteration = 42500;
}

-- What the pass leaves that computed the charger's state `c`, and what it sends.
abbrev pub heartbeat_after : Floats → Input → Bike → Charger → Bike
heartbeat_after fl i s c =
    let t = poll i.polled (record (counted fl i s) { charger = c }) in
    record t { charger = super_charge t.charger }

abbrev pub sent_after : Floats → Input → Bike → Charger → Output
sent_after fl i s c = record {
  bike_bus = (bike_loop fl i.bike_frames (poll i.central s)).1 ++ charging_status i.junk;
  heartbeat = some (heartbeat_after fl i s c).charger.heartbeat;
  line = debug_sc_log (heartbeat_after fl i s c);
}

bind_twice :
    (r : Option Charger) (f : Charger → Bike × Output) (g : Output → Output)
    → ◌>>=◌ {B = Bike × Output} (r >>= λ c. some (f c)) (λ x. some (x.0, g x.1))
      ≡ ◌>>=◌ {B = Bike × Output} r (λ c. some ((f c).0, g (f c).1))
bind_twice none f g = refl
bind_twice (some c) f g = refl

-- A pass whose delay has run out.
pub due_pass :
    (k : Setup) (fl : Floats) (i : Input) (s : Bike)
    → slt32 (counted fl i s).charger.delay_itteration 1 ≡ true
    → loop k fl i s ≡ (do
      c ← set_charging_amps k (seen fl i s)
      some (heartbeat_after fl i s c, sent_after fl i s c))
unfolding loop control super_charger_loop
due_pass k fl i s q =
    let r = receive-delay i.charger_frames (counted fl i s).charger 42500 in
    simp (q, r)
      (bind_twice (set_charging_amps k (seen fl i s))
        (λ c. (
          heartbeat_after fl i s c,
          record (sent_after fl i s c) { bike_bus = charging_status i.junk },
        ))
        (λ o. record o {
          bike_bus = (bike_loop fl i.bike_frames (poll i.central s)).1 ++ o.bike_bus;
        }))

-- Another pass.
abbrev pub sent_early : Floats → Input → Bike → Output
sent_early fl i s = record {
  bike_bus = (bike_loop fl i.bike_frames (poll i.central s)).1;
  heartbeat = none;
  line = [];
}

pub early_pass :
    (k : Setup) (fl : Floats) (i : Input) (s : Bike)
    → slt32 (counted fl i s).charger.delay_itteration 1 ≡ false
    → loop k fl i s ≡ some (counted fl i s, sent_early fl i s)
unfolding loop
early_pass k fl i s q = simp q refl

-- What a pass leaves and sends has a property, if the pass is defined.
abbrev pub IfDefined : (Bike → Output → Type 0) → Option (Bike × Output) → Type 0
IfDefined P none = Unit {0}
IfDefined P (some r) = P r.0 r.1

bind-IfDefined :
    (P : Bike → Output → Type 0) (fl : Floats) (i : Input) (s : Bike) (r : Option Charger)
    → ((c : Charger) → r ≡ some c → P (heartbeat_after fl i s c) (sent_after fl i s c))
    → IfDefined P (do c ← r; some (heartbeat_after fl i s c, sent_after fl i s c))
bind-IfDefined P fl i s none h = tt
bind-IfDefined P fl i s (some c) h = h c refl

pub loop-IfDefined :
    (P : Bike → Output → Type 0) (k : Setup) (fl : Floats) (i : Input) (s : Bike)
    → ((c : Charger)
        → set_charging_amps k (seen fl i s) ≡ some c
        → P (heartbeat_after fl i s c) (sent_after fl i s c))
    → P (counted fl i s) (sent_early fl i s)
    → IfDefined P (loop k fl i s)
loop-IfDefined P k fl i s h g =
    elim (Bool-cases (slt32 (counted fl i s).charger.delay_itteration 1)) [
      | inl q ↦ subst (IfDefined P) (sym (due_pass k fl i s q)) (bind-IfDefined P fl i s _ h)
      | inr q ↦ subst (IfDefined P) (sym (early_pass k fl i s q)) g
    ]
