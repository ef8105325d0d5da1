-- ===== src/V3/Startup.antt =====
-- The start of the sketch v3 (`setup` and `loop` of v3/v3.ino) while no phone has written the
-- number of chargers.
use scv2_sketches.Prelude.{
  ℕ, ◌-◌, ◌≤◌, ◌<◌, Bool-cases, inl, inr, none, some, List, [], ◌∷◌, length, All, ◌≡◌, ◌⊎◌, refl,
  slt32, arith,
}
use scv2_sketches.SuperCharger.State.{Setup}
use scv2_sketches.V3.State.{Bike, power_up}
use scv2_sketches.V3.BikeLoop.{Floats, bike_loop}
use scv2_sketches.V3.Phone.{poll, ble_loop, ble_setup}
use scv2_sketches.V3.Main.{Input, Output, setup, tick, loop}
use scv2_sketches.V3.Within.{Within, bike_loop-Within}
use scv2_sketches.V3.Rhythm.{loop_undefined_iff}
use scv2_sketches.V3.Rounds.{tick-Within, passes}

-- While no charger is counted, a pass without a phone is undefined or uses up a pass of the delay.
module _ (k : Setup) (fl : Floats) (i : Input) (s : Bike) {d : ℕ} (c : i.central ≡ [])
    (d_lt : d < 0x8000_0000) (w : Within 0 d s) where
  abbrev after : Bike
  after = tick (bike_loop fl i.bike_frames s).0

  after-Within : Within 0 (d - 1) after
  after-Within =
      tick-Within (bike_loop fl i.bike_frames s).0 d_lt (bike_loop-Within fl i.bike_frames s d_lt w)

  loop-uncounted :
      (loop k fl i s ≡ none)
      ⊎ ((o : Output) × (loop k fl i s ≡ some (after, o)) × (1 ≤ after.charger.delay_itteration))
  unfolding loop poll
  loop-uncounted =
      let h = loop_undefined_iff k fl i s in
      elim (Bool-cases (slt32 after.charger.delay_itteration 1)) [
        | inl e ↦ inl (h.1 (simp (c) (e, inr after-Within.count_eq)))
        | inr e ↦ inr (simp (c, e) (_, refl, ground arith))
      ]

passes-uncounted :
    (k : Setup) (fl : Floats) (inputs : List Input) (d : ℕ) (s : Bike)
    → All (λ (i : Input). i.central ≡ []) inputs
    → d < 0x8000_0000
    → Within 0 d s
    → d ≤ length inputs
    → 0 < length inputs
    → passes k fl inputs s ≡ none
passes-uncounted k fl [] d s c d_lt w enough one = absurd (omega arith)
passes-uncounted k fl (i ∷ inputs) d s c d_lt w enough one =
    elim (loop-uncounted k fl i s c.0 d_lt w) [
      | inl e ↦ simp e refl
      | inr (o, e, left) ↦
          let t = after k fl i s c.0 d_lt w in
          let wt = after-Within k fl i s c.0 d_lt w in
          let rest =
            passes-uncounted k fl inputs (d - 1) t c.1 (omega arith) wt (omega arith)
              (omega (arith, left, wt.delay_le)) in
          simp (e, rest) refl
    ]

-- From power-up, with no phone connected, the sketch reaches a division by zero: whatever frames
-- come in, some pass among the first 85000 is undefined.
pub startup_divides_by_zero :
    (k : Setup) (fl : Floats) (inputs : List Input)
    → All (λ (i : Input). i.central ≡ []) inputs
    → 85000 ≤ length inputs
    → passes k fl inputs (setup k (power_up k)) ≡ none
unfolding setup ble_setup ble_loop
startup_divides_by_zero k fl inputs c enough =
    passes-uncounted k fl inputs 85000 (setup k (power_up k)) c (omega arith)
      (record { count_eq = refl; delay_le = omega arith }) enough (omega arith)
