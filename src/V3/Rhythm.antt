-- ===== src/V3/Rhythm.antt =====
-- When the sketch v3 runs a control cycle (`loop` of v3/v3.ino): the count of passes, and the
-- control cycles that divide by zero.
use scv2_sketches.Prelude.{
  ℕ, true, none, List, [], ◌∷◌, ◌≡◌, ◌↔◌, ◌⊎◌, refl, Frame, word, slt32, arith,
}
use scv2_sketches.SuperCharger.State.{Setup, Charger}
use scv2_sketches.SuperCharger.Heartbeat.{receive, super_charger_loop}
use scv2_sketches.SuperCharger.Sharing.{set_charging_amps-none_iff}
use scv2_sketches.V3.State.{Bike}
use scv2_sketches.V3.BikeLoop.{Floats, bike_loop}
use scv2_sketches.V3.Phone.{poll}
use scv2_sketches.V3.Main.{Input, tick, control, loop}

pub receive-delay :
    (frames : List Frame) (s : Charger) (d : ℕ)
    → receive frames (record s { delay_itteration = d })
      ≡ record (receive frames s) { delay_itteration = d }
unfolding receive
receive-delay [] s d = refl
receive-delay (f ∷ frames) s d = receive-delay frames (record s { volts = word f.b0 f.b1 }) d

pub receive-charger_count :
    (frames : List Frame) (s : Charger) → (receive frames s).charger_count ≡ s.charger_count
unfolding receive
receive-charger_count [] s = refl
receive-charger_count (f ∷ frames) s =
    receive-charger_count frames (record s { volts = word f.b0 f.b1 })

-- The state of a pass when it tests the delay.
abbrev pub counted : Floats → Input → Bike → Bike
counted fl i s = tick (bike_loop fl i.bike_frames (poll i.central s)).0

control_undefined_iff :
    (k : Setup) (i : Input) (s : Bike)
    → (control k i s ≡ none)
      ↔ (((receive i.charger_frames s.charger).volts ≡ 0) ⊎ (s.charger.charger_count ≡ 0))
unfolding control super_charger_loop
control_undefined_iff k i s =
    let e = receive-delay i.charger_frames s.charger 42500 in
    let n = receive-charger_count i.charger_frames s.charger in
    let h =
      set_charging_amps-none_iff k
        (record (receive i.charger_frames s.charger) { delay_itteration = 42500 }) in
    simp (e, n) ((λ q. ground arith), (λ q. ground arith))

-- A pass of `loop` is undefined exactly when the delay has run out and, at that moment, no charger
-- is counted or the voltage (that of the last charger that reported, or else of the motorcycle) is
-- zero.
pub loop_undefined_iff :
    (k : Setup) (fl : Floats) (i : Input) (s : Bike)
    → (loop k fl i s ≡ none) ↔ (
        (slt32 (counted fl i s).charger.delay_itteration 1 ≡ true)
        × (((receive i.charger_frames (counted fl i s).charger).volts ≡ 0)
            ⊎ ((counted fl i s).charger.charger_count ≡ 0)))
unfolding loop
loop_undefined_iff k fl i s =
    let h = control_undefined_iff k i (counted fl i s) in ((λ q. ground arith), (λ q. ground arith))
