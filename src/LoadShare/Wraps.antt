-- ===== src/LoadShare/Wraps.antt =====
-- Where the arithmetic of a load share sketch wraps, and where it does not.
use scv2_sketches.Prelude.{
  ℕ, suc, ◌+◌, ◌-◌, ◌*◌, ◌≤◌, ◌<◌, ltb, if◌then◌else◌, ◌&&◌, List, [], ◌∷◌, All, length, ◌≡◌, ◌↔◌,
  refl, ◌∙◌, ap, Frame, word, arith,
}
use native.Mathlib.Nat.{mul-div_cancel_left}
use scv2_sketches.LoadShare.State.{Row, Board, uno, mkr, Sketch, max_12v_watts, State}
use scv2_sketches.LoadShare.Cycle.{
  product, start, receive, average, measured, measure, regulate, stop_above, cut_row, cutback,
  stop_below, decide,
}
use scv2_sketches.LoadShare.Division.{heard, capped, charger_count-receive}
use scv2_sketches.LoadShare.Bounds.{receive-SameTarget, average-SameTarget}

-- The watts that the chargers report, computed from their amps and volts: exact on a board with
-- 32-bit `int`s, but on a Uno only below 655.36 W, since the product is made in 16 bits.
pub product_exact :
    (amps volts : ℕ)
    → amps < 0x1_0000
    → volts < 0x1_0000
    → (product mkr amps volts ≡ amps * volts)
      × ((product uno amps volts ≡ amps * volts) ↔ (amps * volts < 0x1_0000))
unfolding product
product_exact amps volts a v = (grind arith, ((λ e. omega arith), (λ h. omega arith)))

row_skips :
    (s t : State) (volts limit : ℕ)
    → s.volts ≤ volts
    → (if ltb volts s.volts && ltb limit s.watts then t else s) ≡ s
row_skips s t volts limit h = ground arith

-- No row of the table applies at a voltage that is at or below every threshold.
cutback_idle :
    (k : Sketch) (rows : List Row) (s : State)
    → All (λ (r : Row). s.volts ≤ r.0) rows
    → cutback k rows s ≡ s
unfolding cutback
cutback_idle k [] s a = refl
cutback_idle k ((volts, limit) ∷ rows) s a =
    ap (cutback k rows) (row_skips s (cut_row k limit s) volts limit a.0)
    ∙ cutback_idle k rows s a.1

stop_above_idle : (k : Sketch) (s : State) → s.volts ≤ k.output_volts_max → stop_above k s ≡ s
unfolding stop_above
stop_above_idle k s h = ground arith

stop_below_idle : (k : Sketch) (s : State) → k.output_volts_min ≤ s.volts → stop_below k s ≡ s
unfolding stop_below
stop_below_idle k s h = ground arith

-- In the normal range of voltages, and below every cutback threshold, the cap has the last word.
decide-capped :
    (k : Sketch) (board : Board) (frames : List Frame) (s : State)
    → k.output_volts_min ≤ (heard frames s).volts
    → (heard frames s).volts ≤ k.output_volts_max
    → All (λ (r : Row). (heard frames s).volts ≤ r.0) k.cutback
    → decide k board frames s ≡ capped k board frames s
unfolding decide regulate measure
decide-capped k board frames s lo hi a =
    let x = capped k board frames s in
    ap (λ u. stop_below k (cutback k k.cutback u)) (stop_above_idle k x hi)
    ∙ ap (stop_below k) (cutback_idle k k.cutback x a)
    ∙ stop_below_idle k x lo

heard-max_station_watts :
    (frames : List Frame) (s : State) → (heard frames s).max_station_watts ≡ s.max_station_watts
unfolding start
heard-max_station_watts frames s =
    (average-SameTarget (receive frames (start s))).target
    ∙ (receive-SameTarget frames (start s)).target

regulate_wraps :
    (k : Sketch) (board : Board) (x : State)
    → x.max_station_watts < max_12v_watts
    → measured board x + max_12v_watts < 0x1_0000_0000
    → (regulate k (measure board x)).watts ≡ x.max_station_watts + (0x1_0000_0000 - max_12v_watts)
unfolding regulate measure
regulate_wraps k board x m w = ground arith

-- With a target below the 76.00 W of the 12 V supplies (0 included, the command to stop), and the
-- watts of the cycle not within 76.00 W of wrapping, the cap subtracts below zero: at a voltage in
-- the sketch's range that is under every cutback threshold the watts become 2 ^ 32 - 7600 plus the
-- target, more than 42 MW.
pub low_target_wraps :
    (k : Sketch) (board : Board) (frames : List Frame) (s : State)
    → s.max_station_watts < max_12v_watts
    → measured board (heard frames s) + max_12v_watts < 0x1_0000_0000
    → k.output_volts_min ≤ (heard frames s).volts
    → (heard frames s).volts ≤ k.output_volts_max
    → All (λ (r : Row). (heard frames s).volts ≤ r.0) k.cutback
    → (decide k board frames s).watts ≡ s.max_station_watts + (0x1_0000_0000 - max_12v_watts)
low_target_wraps k board frames s m w lo hi a =
    let e = heard-max_station_watts frames s in
    omega (
      arith,
      ap (λ (u : State). u.watts) (decide-capped k board frames s lo hi a),
      regulate_wraps k board (heard frames s) (omega arith) w,
      e,
    )

suc-pos : (n : ℕ) → 0 < suc n
suc-pos n = omega arith

-- Frames that all report one voltage.
abbrev pub Report : ℕ → Frame → Type 0
Report volts f = word f.b0 f.b1 ≡ volts

volts-receive :
    (volts : ℕ) (frames : List Frame) (s : State)
    → All (Report volts) frames
    → s.volts + length frames * volts < 0x1_0000
    → (receive frames s).volts ≡ s.volts + length frames * volts
unfolding receive
volts-receive volts [] s a h = omega arith
volts-receive volts (f ∷ frames) s a h =
    volts-receive volts frames _ a.1 (omega (arith, a.0)) ∙ omega (arith, a.0)

-- When every frame of a cycle, one at least, reports the same voltage, the average is that voltage,
-- as long as the sum of the reports stays below 2 ^ 16 tenths of a volt (56 chargers at 116.4 V).
pub average_of_same :
    (volts : ℕ) (f : Frame) (frames : List Frame) (s : State)
    → All (Report volts) (f ∷ frames)
    → suc (length frames) * volts < 0x1_0000
    → (heard (f ∷ frames) s).volts ≡ volts
unfolding average start
average_of_same volts f frames s a h = ground (
  arith,
  volts-receive volts (f ∷ frames) (start s) a (omega arith),
  charger_count-receive (f ∷ frames) (start s),
  mul-div_cancel_left volts (suc-pos (length frames)),
)
