-- ===== src/LoadShare/Calm.antt =====
-- What a load share sketch decides at a voltage to which no limit of it applies.
use scv2_sketches.Prelude.{
  ℕ, min, ◌+◌, ◌-◌, ◌*◌, ◌/◌, ◌≤◌, ltb, if◌then◌else◌, List, [], ◌∷◌, All, length, ◌≡◌, refl, sym,
  ◌∙◌, subst, Frame, word, u16, arith,
}
use scv2_sketches.LoadShare.State.{Row, Board, uno, Sketch, max_12v_watts, State}
use scv2_sketches.LoadShare.Cycle.{
  start, receive, average, product, measured, measure, regulate, stop_above, cutback, stop_below,
  decide,
}
use scv2_sketches.LoadShare.Division.{heard, capped, capped-SameChargers, charger_count-receive}

-- The sum of the voltages of some frames, as a `short`.
abbrev pub total : List Frame → ℕ → ℕ
total [] sum = sum
total (f ∷ frames) sum = total frames (u16 (sum + word f.b0 f.b1))

-- The voltage that the chargers report together: the mean.
abbrev pub reported : List Frame → ℕ
reported frames = if ltb 1 (length frames) then total frames 0 / length frames else total frames 0

volts-receive : (frames : List Frame) (s : State) → (receive frames s).volts ≡ total frames s.volts
unfolding receive
volts-receive [] s = refl
volts-receive (f ∷ frames) s = volts-receive frames (record s {
  charger_count = s.charger_count + 1;
  volts = u16 (s.volts + word f.b0 f.b1);
  amps = u16 (s.amps + word f.b2 f.b3);
})

volts-heard : (frames : List Frame) (s : State) → (heard frames s).volts ≡ reported frames
unfolding average start
volts-heard frames s =
    let v = volts-receive frames (start s) in
    let c = charger_count-receive frames (start s) in ground arith

-- The sum of their currents, and the watts that they report together, as the Uno computes them.
abbrev pub total_amps : List Frame → ℕ → ℕ
total_amps [] sum = sum
total_amps (f ∷ frames) sum = total_amps frames (u16 (sum + word f.b2 f.b3))

abbrev pub drawn : List Frame → ℕ
drawn frames = u16 (total_amps frames 0 * reported frames)

amps-receive :
    (frames : List Frame) (s : State) → (receive frames s).amps ≡ total_amps frames s.amps
unfolding receive
amps-receive [] s = refl
amps-receive (f ∷ frames) s = amps-receive frames (record s {
  charger_count = s.charger_count + 1;
  volts = u16 (s.volts + word f.b0 f.b1);
  amps = u16 (s.amps + word f.b2 f.b3);
})

amps-heard : (frames : List Frame) (s : State) → (heard frames s).amps ≡ total_amps frames 0
unfolding average start
amps-heard frames s = let a = amps-receive frames (start s) in ground arith

-- The larger of the watts of the last cycle and of those that the frames report.
abbrev pub larger : ℕ → ℕ → ℕ
larger a b = if ltb b a then a else b

measured-heard :
    (frames : List Frame) (s : State)
    → measured uno (heard frames s) ≡ larger (heard frames s).last_watts (drawn frames)
unfolding measured product
measured-heard frames s = rw (amps-heard frames s, volts-heard frames s) refl

-- No limit of the sketch applies at the voltage that the frames report.
pub record Calm (k : Sketch) (frames : List Frame) : Type 0 where
  pub above_least : k.output_volts_min ≤ reported frames
  pub below_most : reported frames ≤ k.output_volts_max
  pub below_rows : All (λ (r : Row). reported frames ≤ r.0) k.cutback

cutback-calm :
    (k : Sketch) (rows : List Row) (s : State)
    → All (λ (r : Row). s.volts ≤ r.0) rows
    → cutback k rows s ≡ s
unfolding cutback
cutback-calm k [] s h = refl
cutback-calm k ((volts, limit) ∷ rows) s h = let rest = cutback-calm k rows s h.1 in ground arith

stop_above-calm : (k : Sketch) (s : State) → s.volts ≤ k.output_volts_max → stop_above k s ≡ s
unfolding stop_above
stop_above-calm k s h = ground arith

stop_below-calm : (k : Sketch) (s : State) → k.output_volts_min ≤ s.volts → stop_below k s ≡ s
unfolding stop_below
stop_below-calm k s h = ground arith

pub decide-Calm :
    (k : Sketch) (board : Board) (frames : List Frame) (s : State)
    → Calm k frames
    → decide k board frames s ≡ capped k board frames s
unfolding decide
decide-Calm k board frames s h =
    let c = capped k board frames s in
    let v : c.volts ≡ reported frames =
      (capped-SameChargers k board frames s).volts ∙ volts-heard frames s in
    let below = subst (λ x. All (λ (r : Row). x ≤ r.0) k.cutback) (sym v) h.below_rows in
    rw (stop_above-calm k c (omega (arith, v, h.below_most)), cutback-calm k k.cutback c below)
      (stop_below-calm k c (omega (arith, v, h.above_least)))

pub regulate-climbs :
    (k : Sketch) (s : State)
    → k.ramp_rate ≤ 0x10_0000
    → max_12v_watts ≤ s.max_station_watts
    → s.max_station_watts ≤ 0x4000_0000
    → s.last_watts ≤ 0x8000_0000
    → (min (s.last_watts + k.ramp_rate) (s.max_station_watts - max_12v_watts)
        ≤ (regulate k (measure uno s)).watts)
      × ((regulate k (measure uno s)).max_station_watts ≡ s.max_station_watts)
unfolding regulate measure measured product
regulate-climbs k s r f c l = ground arith

regulate-below :
    (k : Sketch) (s : State)
    → max_12v_watts ≤ s.max_station_watts
    → s.max_station_watts ≤ 0x4000_0000
    → s.last_watts ≤ 0x8000_0000
    → (regulate k (measure uno s)).watts ≤ measured uno s + k.ramp_rate
unfolding regulate measure measured product
regulate-below k s f c l = ground arith

-- A decision is at most one ramp step above the larger of the two.
pub heard-below :
    (k : Sketch) (frames : List Frame) (s : State)
    → max_12v_watts ≤ (heard frames s).max_station_watts
    → (heard frames s).max_station_watts ≤ 0x4000_0000
    → (heard frames s).last_watts ≤ 0x8000_0000
    → (regulate k (measure uno (heard frames s))).watts
      ≤ larger (heard frames s).last_watts (drawn frames) + k.ramp_rate
heard-below k frames s f c l =
    rw (sym (measured-heard frames s)) (regulate-below k (heard frames s) f c l)
