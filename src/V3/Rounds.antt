-- ===== src/V3/Rounds.antt =====
-- Control cycles of the sketch v3 (v3/v3.ino) come round: passes of `loop` in a row.
use scv2_sketches.Prelude.{
  ℕ, ◌≤◌, ◌<◌, ◌-◌, ◌/◌, ltb, if◌then◌else◌, ◌>>=◌, Bool, true, false, ◌||◌, Bool-cases, inl, inr,
  Option, none, some, List, [], ◌∷◌, length, All, ◌≡◌, ◌⊎◌, refl, ◌∙◌, u16, sub32, slt32, sext,
  arith,
}
use scv2_sketches.SuperCharger.State.{Setup, Charger}
use scv2_sketches.SuperCharger.Charging.{
  charge_watts, total_amps, limit_to_c_rate, share, set_charging_amps,
}
use scv2_sketches.SuperCharger.Heartbeat.{receive, super_charger_loop, super_charge}
use scv2_sketches.V3.State.{Bike}
use scv2_sketches.V3.BikeLoop.{Floats, bike_loop}
use scv2_sketches.V3.Phone.{poll}
use scv2_sketches.V3.Main.{Input, Output, tick, control, loop}
use scv2_sketches.V3.Within.{Within, bike_loop-Within}
use scv2_sketches.V3.Rhythm.{receive-delay, receive-charger_count}

-- No phone writes, and a charger reports a voltage that is not zero.
pub record IsQuiet (i : Input) : Type 0 where
  pub central_eq : i.central ≡ []
  pub polled_eq : i.polled ≡ []
  pub reported : (s : Charger) → 0 < (receive i.charger_frames s).volts

-- The amps of one charger when the division is defined.
abbrev divided : Setup → Charger → ℕ
divided k s =
    let amps = limit_to_c_rate s (u16 (charge_watts k s / sext s.volts)) in
    if ltb s.charger_count 0x8000_0000
    then amps / s.charger_count
    else u16 (sub32 0 (amps / (0x1_0000_0000 - s.charger_count)))

set_charging_amps-some :
    (k : Setup) (s : Charger)
    → 0 < s.volts
    → 0 < s.charger_count
    → set_charging_amps k s
      ≡ some (record s { watts = charge_watts k s; charging_amps = divided k s })
unfolding set_charging_amps total_amps share
set_charging_amps-some k s v c = ground arith

-- A fallible step is defined, and its result satisfies `P`.
abbrev pub Returns : {A : Type 0} → (A → Type 0) → Option A → Type 0
Returns P none = ⊥
Returns P (some a) = P a

abbrev beats : Output → Bool
beats o = elim o.heartbeat [ none ↦ false | some f ↦ true ]

-- A control cycle in a quiet pass is defined, sends a heartbeat and starts the count again.
control-Returns :
    {n d : ℕ} (k : Setup) (i : Input) (s : Bike)
    → IsQuiet i
    → 0 < n
    → Within n d s
    → Returns (λ r. Within n 42500 r.0 × (beats r.1 ≡ true)) (control k i s)
unfolding control super_charger_loop super_charge poll
control-Returns {n} k i s q n_gt w =
    let e = receive-delay i.charger_frames s.charger 42500 in
    let c = receive-charger_count i.charger_frames s.charger in
    let charger = record (receive i.charger_frames s.charger) { delay_itteration = 42500 } in
    let defined =
      set_charging_amps-some k charger (q.reported s.charger) (omega (arith, w.count_eq)) in
    simp (e, defined, q.polled_eq)
      (record { count_eq = c ∙ w.count_eq; delay_le = omega arith }, refl)

-- What a quiet pass does, from a state with `n` chargers and `d` passes left.
abbrev Passed : ℕ → ℕ → Bike × Output → Type 0
Passed n d r =
    (Within n 42500 r.0 × (beats r.1 ≡ true))
    ⊎ (Within n (d - 1) r.0 × (1 ≤ r.0.charger.delay_itteration))

pub tick-Within : {n d : ℕ} (s : Bike) → d < 0x8000_0000 → Within n d s → Within n (d - 1) (tick s)
unfolding tick
tick-Within s d_lt w = ground arith

-- The frames that the pass has sent already do not matter.
bind-Passed :
    (n d : ℕ) (f : Output → Output) (r : Option (Bike × Output))
    → ((o : Output) → beats (f o) ≡ beats o)
    → Returns (λ r. Within n 42500 r.0 × (beats r.1 ≡ true)) r
    → Returns (Passed n d) (r >>= λ x. some (x.0, f x.1))
bind-Passed n d f none e h = absurd h
bind-Passed n d f (some (t, o)) e h = inl (h.0, e o ∙ h.1)

loop-Passed :
    {n d : ℕ} (k : Setup) (fl : Floats) (i : Input) (s : Bike)
    → IsQuiet i
    → 0 < n
    → d < 0x8000_0000
    → Within n d s
    → Returns (Passed n d) (loop k fl i s)
unfolding loop poll
loop-Passed {n} {d} k fl i s q n_gt d_lt w =
    let b = (bike_loop fl i.bike_frames s).0 in
    let t = tick b in
    let wt = tick-Within b d_lt (bike_loop-Within fl i.bike_frames s d_lt w) in
    elim (Bool-cases (slt32 t.charger.delay_itteration 1)) [
      | inl e ↦
          simp (q.central_eq, e)
            (bind-Passed n d _ (control k i t) (λ o. refl) (control-Returns k i t q n_gt wt))
      | inr e ↦ simp (q.central_eq, e) (inr (wt, ground arith))
    ]

-- Passes in a row, with what each sends.
abbrev pub passes : Setup → Floats → List Input → Bike → Option (Bike × List Output)
passes k fl [] s = some (s, [])
passes k fl (i ∷ inputs) s = do
  (t, o) ← loop k fl i s
  (u, outputs) ← passes k fl inputs t
  some (u, o ∷ outputs)

abbrev pub heard : List Output → Bool
heard [] = false
heard (o ∷ outputs) = beats o || heard outputs

-- A heartbeat was sent, or there were too few passes.
abbrev Heard : ℕ → List Input → Bike × List Output → Type 0
Heard d inputs r = (heard r.1 ≡ true) ⊎ (length inputs < d) ⊎ (length inputs ≡ 0)

then-Heard :
    (d e : ℕ) (i : Input) (inputs : List Input) (o : Output) (r : Option (Bike × List Output))
    → Returns (Heard e inputs) r
    → (beats o ≡ true) ⊎ ((1 ≤ e) × (e ≤ d - 1))
    → Returns (Heard d (i ∷ inputs)) (r >>= λ x. some (x.0, o ∷ x.1))
then-Heard d e i inputs o none h c = absurd h
then-Heard d e i inputs o (some (t, outputs)) h c = ground arith

-- The passes after the first, by induction over them.
after-Heard :
    {n : ℕ} (d : ℕ) (k : Setup) (fl : Floats) (i : Input) (inputs : List Input)
    (r : Option (Bike × Output))
    → d < 0x8000_0000
    → ((e : ℕ) (t : Bike)
        → e < 0x8000_0000
        → Within n e t
        → Returns (Heard e inputs) (passes k fl inputs t))
    → Returns (Passed n d) r
    → Returns
        (Heard d (i ∷ inputs))
        (r >>= λ x. passes k fl inputs x.0 >>= λ y. some (y.0, x.1 ∷ y.1))
after-Heard d k fl i inputs none d_lt rec h = absurd h
after-Heard d k fl i inputs (some (t, o)) d_lt rec (inl (wt, b)) =
    then-Heard d 42500 i inputs o (passes k fl inputs t) (rec 42500 t (omega arith) wt) (inl b)
after-Heard d k fl i inputs (some (t, o)) d_lt rec (inr (wt, late)) =
    then-Heard d (d - 1) i inputs o (passes k fl inputs t) (rec (d - 1) t (omega arith) wt)
      (inr (omega (arith, wt.delay_le), omega arith))

passes-Heard :
    {n : ℕ} (k : Setup) (fl : Floats) (inputs : List Input)
    → All IsQuiet inputs
    → 0 < n
    → (d : ℕ) (s : Bike) → d < 0x8000_0000
    → Within n d s
    → Returns (Heard d inputs) (passes k fl inputs s)
passes-Heard k fl [] q n_gt d s d_lt w = inr (inr refl)
passes-Heard {n} k fl (i ∷ inputs) q n_gt d s d_lt w =
    after-Heard d k fl i inputs (loop k fl i s) d_lt (passes-Heard k fl inputs q.1 n_gt)
      (loop-Passed k fl i s q.0 n_gt d_lt w)

Returns-map :
    {A : Type 0} (P Q : A → Type 0) (r : Option A)
    → ((a : A) → P a → Q a)
    → Returns P r
    → Returns Q r
Returns-map P Q none f h = h
Returns-map P Q (some a) f h = f a h

-- With at least one charger counted, a charger that reports a voltage in every pass and no phone
-- that writes, any passes in a row are defined, whatever comes from the motorcycle; and as many
-- passes as the delay counts (at least one) send a heartbeat to the chargers.
pub control_comes_round :
    (k : Setup) (fl : Floats) (inputs : List Input) (s : Bike)
    → All IsQuiet inputs
    → 0 < s.charger.charger_count
    → s.charger.delay_itteration < 0x8000_0000
    → s.charger.delay_itteration ≤ length inputs
    → 0 < length inputs
    → Returns (λ r. heard r.1 ≡ true) (passes k fl inputs s)
control_comes_round k fl inputs s q n_gt d_lt enough one =
    Returns-map (Heard s.charger.delay_itteration inputs) (λ r. heard r.1 ≡ true)
      (passes k fl inputs s) (λ r h. ground arith)
      (passes-Heard k fl inputs q n_gt s.charger.delay_itteration s d_lt
        (record { count_eq = refl; delay_le = omega arith }))
