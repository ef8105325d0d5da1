-- ===== src/LoadShare/Climb.antt =====
-- The slow ramp of a load share sketch: while the chargers report a voltage that calls for no
-- cutback, the watts climb to the station's target.
use scv2_sketches.Prelude.{
  ◌≢◌, ℕ, suc, min, ◌+◌, ◌-◌, ◌*◌, ◌≤◌, ◌<◌, ◌>>=◌, Option, none, some, List, [], ◌∷◌, All, length,
  ◌≡◌, refl, sym, ap, ◌∙◌, subst, Frame, arith,
}
use scv2_sketches.LoadShare.State.{uno, Sketch, max_12v_watts, State}
use scv2_sketches.LoadShare.Cycle.{start, receive, average, measure, regulate, decide}
use scv2_sketches.LoadShare.Cycle.{announce}
use scv2_sketches.LoadShare.Loop.{Input, Output, mcp2515_isr, read_commands, loop}
use scv2_sketches.LoadShare.Division.{granted, heard, charger_count-heard, decide-SameChargers}
use scv2_sketches.LoadShare.Reach.{
  mcp2515_isr-IsSafe, controlled-IsSafe, loop-state, loop-none_iff, controlled,
}
use scv2_sketches.LoadShare.Bounds.{IsSketch, IsSafe, receive-SameTarget, average-SameTarget}
use scv2_sketches.LoadShare.Calm.{
  reported, drawn, larger, Calm, decide-Calm, regulate-climbs, heard-below,
}

-- A decision at a calm voltage is a ramp step nearer to the target, if it is not there, and at most
-- one step above what there was and what the frames report.
decide-climbs :
    {k : Sketch} (frames : List Frame) (s : State)
    → IsSketch k
    → IsSafe s
    → Calm k frames
    → (min (s.watts + k.ramp_rate) (s.max_station_watts - max_12v_watts)
        ≤ (decide k uno frames s).watts)
      × ((decide k uno frames s).max_station_watts ≡ s.max_station_watts)
      × ((decide k uno frames s).watts ≤ larger s.watts (drawn frames) + k.ramp_rate)
unfolding start
decide-climbs {k} frames s i h c =
    let r = receive-SameTarget frames (start s) in
    let a = average-SameTarget (receive frames (start s)) in
    let climb =
      regulate-climbs k (heard frames s) i.ramp_le (omega (arith, r.target, a.target, h.floor))
        (omega (arith, r.target, a.target, h.ceiling))
        (omega (arith, r.last, a.last, h.watts_le)) in
    let below =
      heard-below k frames s (omega (arith, r.target, a.target, h.floor))
        (omega (arith, r.target, a.target, h.ceiling))
        (omega (arith, r.last, a.last, h.watts_le)) in
    rw (decide-Calm k uno frames s c) (
      omega (arith, climb.0, r.last, a.last, r.target, a.target),
      omega (arith, climb.1, r.target, a.target),
      subst
          (λ x.
            (regulate k (measure uno (heard frames s))).watts
            ≤ larger x (drawn frames) + k.ramp_rate)
          (a.last ∙ r.last) below,
    )

-- One round: the interrupt of a frame, and the pass that reads the frames.
abbrev pub round : Sketch → Input → State → Option (State × Output)
round k i s = loop k uno i (mcp2515_isr s)

abbrev pub rounds : Sketch → List Input → State → Option State
rounds k [] s = some s
rounds k (i ∷ is) s = round k i s >>= λ r. rounds k is r.0

-- No command comes in, and the voltage is calm.
pub record IsCalm (k : Sketch) (i : Input) : Type 0 where
  pub no_commands : i.commands ≡ []
  pub calm : Calm k i.frames

granted-watts :
    (s : State)
    → ((announce (granted s)).watts ≡ s.watts)
      × ((announce (granted s)).max_station_watts ≡ s.max_station_watts)
      × ((announce (granted s)).charger_count ≡ s.charger_count)
unfolding announce
granted-watts s = ground arith

-- A sum that is not zero needs a frame.
reported-length : (frames : List Frame) → 0 < reported frames → 0 < length frames
reported-length [] h = absurd (omega (arith, h))
reported-length (f ∷ frames) h = omega arith

a_result {ℓ} : {A : Type ℓ} (r : Option A) → r ≢ none → (x : A) × (r ≡ some x)
a_result none h = absurd (h refl)
a_result (some x) h = (x, refl)

counted :
    (k : Sketch) (frames : List Frame) (s : State)
    → 0 < k.output_volts_min
    → Calm k frames
    → 0 < (announce (granted (decide k uno frames s))).charger_count
unfolding average start
counted k frames s p c =
    let n = reported-length frames (omega (arith, c.above_least, p)) in
    omega (
      arith,
      n,
      (granted-watts (decide k uno frames s)).2,
      (decide-SameChargers k uno frames s).count,
      charger_count-heard frames s,
    )

-- A round at a calm voltage is defined, and decides.
round_defined :
    {k : Sketch} (i : Input) (s : State)
    → IsSketch k
    → IsCalm k i
    → (o : Output) × (round k i s
        ≡ some (announce (granted (decide k uno i.frames (mcp2515_isr s))), o))
unfolding mcp2515_isr announce read_commands
round_defined {k} i s c q =
    let u = mcp2515_isr s in
    let told = ap (λ cs. read_commands cs u) q.no_commands in
    let after : controlled k uno i.frames (read_commands i.commands u)
        ≡ announce (granted (decide k uno i.frames u)) =
      ap (controlled k uno i.frames) told in
    let defined : round k i s ≢ none = λ e. absurd (
      omega (
        arith,
        counted k i.frames u c.least_volts q.calm,
        ap (λ (x : State). x.charger_count) after,
        ((loop-none_iff k uno i u c.least_volts).0 e).2,
      )) in
    let ((t, o), e) = a_result (round k i s) defined in
    (
      o,
      e ∙ ap (λ (x : State). some (x, o)) (sym (loop-state k uno i u t o c.least_volts e) ∙ after),
    )

-- One round climbs, and leaves a safe state.
round-climbs :
    {k : Sketch} (frames : List Frame) (s : State)
    → IsSketch k
    → IsSafe s
    → Calm k frames
    → (min (s.watts + k.ramp_rate) (s.max_station_watts - max_12v_watts)
        ≤ (announce (granted (decide k uno frames (mcp2515_isr s)))).watts)
      × ((announce (granted (decide k uno frames (mcp2515_isr s)))).watts
          ≤ larger s.watts (drawn frames) + k.ramp_rate)
      × ((announce (granted (decide k uno frames (mcp2515_isr s)))).max_station_watts
          ≡ s.max_station_watts)
      × IsSafe (announce (granted (decide k uno frames (mcp2515_isr s))))
unfolding mcp2515_isr
round-climbs {k} frames s i h c =
    let u = mcp2515_isr s in
    let safe = mcp2515_isr-IsSafe s h in
    let d = decide-climbs frames u i safe c in
    let g = granted-watts (decide k uno frames u) in
    (omega (arith, d.0, g.0), omega (arith, d.2, g.0), g.1 ∙ d.1, controlled-IsSafe frames u i safe)

climb_below : (n r p q t : ℕ) → q ≤ p + r → t ≤ q + n * r → t ≤ p + suc n * r
climb_below n r p q t h k = grind arith

climb_on : (n r w v m t : ℕ) → min (w + r) m ≤ v → min (v + n * r) m ≤ t → min (w + suc n * r) m ≤ t
climb_on n r w v m t h k = grind arith

-- The most of some watts and of those that the frames of some passes report.
abbrev pub most : List Input → ℕ → ℕ
most [] w = w
most (i ∷ inputs) w = most inputs (larger w (drawn i.frames))

larger-step : (a b r d : ℕ) → a ≤ b + r → larger a d ≤ larger b d + r
larger-step a b r d h = ground arith

most-step : (inputs : List Input) (a b r : ℕ) → a ≤ b + r → most inputs a ≤ most inputs b + r
most-step [] a b r h = h
most-step (i ∷ inputs) a b r h =
    most-step inputs (larger a (drawn i.frames)) (larger b (drawn i.frames)) r
      (larger-step a b r (drawn i.frames) h)

-- On a Uno, with sensible constants and a safe state: rounds with no command, whose frames report a
-- voltage at which no limit of the sketch applies, are defined, and the target stays. After `n` of
-- them the watts are at least `n` ramp steps above the first, or those of the target less the 12 V
-- supplies; and they are at most `n` ramp steps above the first, or above the most that the frames
-- of a pass report, if that is more.
pub ramp_reaches_target :
    {k : Sketch} (inputs : List Input) (s : State)
    → IsSketch k
    → IsSafe s
    → All (IsCalm k) inputs
    → (t : State) × (rounds k inputs s ≡ some t)
      × (t.max_station_watts ≡ s.max_station_watts)
      × (min (s.watts + length inputs * k.ramp_rate) (s.max_station_watts - max_12v_watts)
          ≤ t.watts)
      × (t.watts ≤ most inputs s.watts + length inputs * k.ramp_rate)
ramp_reaches_target {k} [] s c h q = (s, refl, refl, omega arith, omega arith)
ramp_reaches_target {k} (i ∷ inputs) s c h q =
    let next = announce (granted (decide k uno i.frames (mcp2515_isr s))) in
    let climb = round-climbs i.frames s c h q.0.calm in
    let (o, e) = round_defined i s c q.0 in
    let (t, f, target, low, high) = ramp_reaches_target inputs next c climb.3 q.1 in
    (
      t,
      simp e f,
      target ∙ climb.2,
      climb_on (length inputs) k.ramp_rate s.watts next.watts (s.max_station_watts - max_12v_watts)
          t.watts climb.0
          (subst (λ m. min (next.watts + length inputs * k.ramp_rate) (m - max_12v_watts) ≤ t.watts)
            climb.2 low),
      climb_below (length inputs) k.ramp_rate (most inputs (larger s.watts (drawn i.frames)))
          (most inputs next.watts) t.watts
          (most-step inputs next.watts (larger s.watts (drawn i.frames)) k.ramp_rate climb.1) high,
    )
