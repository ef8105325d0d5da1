-- ===== src/LoadShare/Bounds.antt =====
-- The watts of a load share sketch on an Arduino Uno stay bounded by the station's target.
use scv2_sketches.Prelude.{
  ℕ, ◌+◌, ◌≤◌, ◌<◌, ltb, if◌then◌else◌, ◌&&◌, List, [], ◌∷◌, All, ◌≡◌, refl, Frame, word, u16,
  arith,
}
use scv2_sketches.LoadShare.State.{Row, uno, Sketch, max_12v_watts, State}
use scv2_sketches.LoadShare.Cycle.{
  product, start, receive, average, measured, measure, regulate, stop_above, cut_row, cutback,
  stop_below, decide,
}

-- The constants of a sketch are sensible: its ramp step and its rows are small, and no row is
-- below the ramp step or the watts of the 12 V supplies.
pub record IsSketch (k : Sketch) : Type 0 where
  pub least_volts : 0 < k.output_volts_min
  pub ramp_le : k.ramp_rate ≤ 0x10_0000
  pub rows :
      All (λ (r : Row). (max_12v_watts ≤ r.1) × (k.ramp_rate ≤ r.1) × (r.1 ≤ 0x4000_0000)) k.cutback

-- A target that leaves room for the 12 V supplies, and watts that are far from wrapping.
pub record IsSafe (s : State) : Type 0 where
  pub floor : max_12v_watts ≤ s.max_station_watts
  pub ceiling : s.max_station_watts ≤ 0x4000_0000
  pub watts_le : s.watts ≤ 0x8000_0000

-- Moreover the watts are at most one ramp step above the target.
pub record OnTarget (k : Sketch) (s : State) : Type 0 where
  pub floor : max_12v_watts ≤ s.max_station_watts
  pub ceiling : s.max_station_watts ≤ 0x4000_0000
  pub watts_le : s.watts ≤ s.max_station_watts + k.ramp_rate

-- Receiving changes neither the target nor the watts of the last cycle.
pub record SameTarget (s t : State) : Type 0 where
  pub target : t.max_station_watts ≡ s.max_station_watts
  pub last : t.last_watts ≡ s.last_watts

pub receive-SameTarget : (frames : List Frame) (s : State) → SameTarget s (receive frames s)
unfolding receive
receive-SameTarget [] s = record { target = refl; last = refl }
receive-SameTarget (f ∷ frames) s =
    let h = receive-SameTarget frames (record s {
      charger_count = s.charger_count + 1;
      volts = u16 (s.volts + word f.b0 f.b1);
      amps = u16 (s.amps + word f.b2 f.b3);
    }) in
    record { target = h.target; last = h.last }

pub average-SameTarget : (s : State) → SameTarget s (average s)
unfolding average
average-SameTarget s = ground arith

regulate-OnTarget :
    (k : Sketch) (s : State)
    → k.ramp_rate ≤ 0x10_0000
    → max_12v_watts ≤ s.max_station_watts
    → s.max_station_watts ≤ 0x4000_0000
    → s.last_watts ≤ 0x8000_0000
    → OnTarget k (regulate k (measure uno s))
unfolding regulate measure measured product
regulate-OnTarget k s r f c l = ground arith

stop_above-OnTarget : (k : Sketch) (s : State) → OnTarget k s → OnTarget k (stop_above k s)
unfolding stop_above
stop_above-OnTarget k s h = ground arith

stop_below-OnTarget : (k : Sketch) (s : State) → OnTarget k s → OnTarget k (stop_below k s)
unfolding stop_below
stop_below-OnTarget k s h = ground arith

cut_row-OnTarget :
    (k : Sketch) (limit : ℕ) (s : State)
    → (max_12v_watts ≤ limit) × (k.ramp_rate ≤ limit) × (limit ≤ 0x4000_0000)
    → k.ramp_rate ≤ 0x10_0000
    → limit < s.watts
    → OnTarget k s
    → OnTarget k (cut_row k limit s)
unfolding cut_row
cut_row-OnTarget k limit s r p w h = ground arith

cutback-OnTarget :
    (k : Sketch) (rows : List Row) (s : State)
    → All (λ (r : Row). (max_12v_watts ≤ r.1) × (k.ramp_rate ≤ r.1) × (r.1 ≤ 0x4000_0000)) rows
    → k.ramp_rate ≤ 0x10_0000
    → OnTarget k s
    → OnTarget k (cutback k rows s)
unfolding cutback
cutback-OnTarget k [] s a p h = h
cutback-OnTarget k ((volts, limit) ∷ rows) s a p h =
    cutback-OnTarget k rows
      (if ltb volts s.volts && ltb limit s.watts then cut_row k limit s else s) a.1 p
      (ground (arith, cut_row-OnTarget k limit s a.0 p))

-- From any safe state, and whatever the frames, a cycle decides on watts that are at most one ramp
-- step above the target that it leaves, without a wrap on the way.
pub decide-OnTarget :
    {k : Sketch} (frames : List Frame) {s : State}
    → IsSketch k
    → IsSafe s
    → OnTarget k (decide k uno frames s)
unfolding decide start
decide-OnTarget {k} frames {s} i h =
    let r = receive-SameTarget frames (start s) in
    let a = average-SameTarget (receive frames (start s)) in
    stop_below-OnTarget k _ (
      cutback-OnTarget k k.cutback _ i.rows i.ramp_le (
        stop_above-OnTarget k _ (
          regulate-OnTarget k (average (receive frames (start s))) i.ramp_le
            (omega (arith, r.target, a.target)) (omega (arith, r.target, a.target))
            (omega (arith, r.last, a.last)))))
