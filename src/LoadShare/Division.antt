-- ===== src/LoadShare/Division.antt =====
-- No control cycle of a load share sketch divides by zero.
use scv2_sketches.Prelude.{
  ℕ, ◌+◌, ◌/◌, ◌≤◌, ◌<◌, ltb, if◌then◌else◌, true, false, Bool, ◌&&◌, sub32, some, List, [], ◌∷◌,
  length, ◌≡◌, refl, ◌∙◌, Frame, word, u16, arith,
}
use scv2_sketches.LoadShare.State.{Row, Board, CutbackRule, step_down, lower_target, Sketch, State}
use scv2_sketches.LoadShare.Cycle.{
  set_charging_amps, start, receive, average, measure, regulate, stop_above, cut_row, cutback,
  stop_below, decide, grant, announce, cycle,
}

pub charger_count-receive :
    (frames : List Frame) (s : State)
    → (receive frames s).charger_count ≡ s.charger_count + length frames
unfolding receive
charger_count-receive [] s = omega arith
charger_count-receive (f ∷ frames) s = omega (
  arith,
  charger_count-receive frames (record s {
    charger_count = s.charger_count + 1;
    volts = u16 (s.volts + word f.b0 f.b1);
    amps = u16 (s.amps + word f.b2 f.b3);
  }),
)

-- What a state says of the chargers: a cycle's later steps leave it alone.
pub record SameChargers (s t : State) : Type 0 where
  pub count : t.charger_count ≡ s.charger_count
  pub volts : t.volts ≡ s.volts
  pub amps : t.amps ≡ s.amps
  pub granted : t.charging_amps ≡ s.charging_amps
  pub heartbeat : t.heartbeat ≡ s.heartbeat

SameChargers-trans : {s t u : State} → SameChargers s t → SameChargers t u → SameChargers s u
SameChargers-trans p q = record {
  count = q.count ∙ p.count;
  volts = q.volts ∙ p.volts;
  amps = q.amps ∙ p.amps;
  granted = q.granted ∙ p.granted;
  heartbeat = q.heartbeat ∙ p.heartbeat;
}

SameChargers-refl : (s : State) → SameChargers s s
SameChargers-refl s = record {
  count = refl;
  volts = refl;
  amps = refl;
  granted = refl;
  heartbeat = refl;
}

SameChargers-if :
    (b : Bool) {s t u : State}
    → SameChargers s t
    → SameChargers s u
    → SameChargers s (if b then t else u)
SameChargers-if true p q = p
SameChargers-if false p q = q

-- A step that writes only the watts and the target.
only_watts :
    (s : State) (watts target : ℕ)
    → SameChargers s (record s { watts = watts; max_station_watts = target })
only_watts s watts target = record {
  count = refl;
  volts = refl;
  amps = refl;
  granted = refl;
  heartbeat = refl;
}

cut_row_same :
    (rule : CutbackRule) (s : State) (watts limit : ℕ)
    → SameChargers s (elim rule [
      | step_down ↦ record s { watts = watts }
      | lower_target ↦ record s { max_station_watts = limit; watts = limit }
    ])
cut_row_same step_down s watts limit = only_watts s watts s.max_station_watts
cut_row_same lower_target s watts limit = only_watts s limit limit

cut_row-SameChargers : (k : Sketch) (limit : ℕ) (s : State) → SameChargers s (cut_row k limit s)
unfolding cut_row
cut_row-SameChargers k limit s = cut_row_same k.rule s (sub32 s.watts k.ramp_rate) limit

cutback-SameChargers :
    (k : Sketch) (rows : List Row) (s : State) → SameChargers s (cutback k rows s)
unfolding cutback
cutback-SameChargers k [] s = SameChargers-refl s
cutback-SameChargers k (r ∷ rows) s =
    SameChargers-trans
      (SameChargers-if (ltb r.0 s.volts && ltb r.1 s.watts) (cut_row-SameChargers k r.1 s)
        (SameChargers-refl s))
      (cutback-SameChargers k rows _)

measure-SameChargers : (board : Board) (s : State) → SameChargers s (measure board s)
unfolding measure
measure-SameChargers board s = record {
  count = refl;
  volts = refl;
  amps = refl;
  granted = refl;
  heartbeat = refl;
}

regulate-SameChargers : (k : Sketch) (s : State) → SameChargers s (regulate k s)
unfolding regulate
regulate-SameChargers k s = only_watts s _ s.max_station_watts

stop_above-SameChargers : (k : Sketch) (s : State) → SameChargers s (stop_above k s)
unfolding stop_above
stop_above-SameChargers k s =
    SameChargers-if _ (only_watts s 0 s.max_station_watts) (SameChargers-refl s)

stop_below-SameChargers : (k : Sketch) (s : State) → SameChargers s (stop_below k s)
unfolding stop_below
stop_below-SameChargers k s =
    SameChargers-if _ (only_watts s 0 s.max_station_watts) (SameChargers-refl s)

-- The state after averaging: count, volts and amps are those of the frames.
abbrev pub heard : List Frame → State → State
heard frames s = average (receive frames (start s))

-- The state when the cap has been applied, and the state behind the cutback table.
abbrev pub capped : Sketch → Board → List Frame → State → State
capped k board frames s = regulate k (measure board (heard frames s))

abbrev pub cut_back : Sketch → Board → List Frame → State → State
cut_back k board frames s = cutback k k.cutback (stop_above k (capped k board frames s))

module _ (k : Sketch) (board : Board) (frames : List Frame) (s : State) where
  pub capped-SameChargers : SameChargers (heard frames s) (capped k board frames s)
  capped-SameChargers =
      SameChargers-trans (measure-SameChargers board (heard frames s)) (regulate-SameChargers k _)

  pub cut_back-SameChargers : SameChargers (heard frames s) (cut_back k board frames s)
  cut_back-SameChargers =
      SameChargers-trans capped-SameChargers
        (SameChargers-trans (stop_above-SameChargers k _) (cutback-SameChargers k k.cutback _))

  pub decide-SameChargers : SameChargers (heard frames s) (decide k board frames s)
  unfolding decide
  decide-SameChargers = SameChargers-trans cut_back-SameChargers (stop_below-SameChargers k _)

pub charger_count-heard :
    (frames : List Frame) (s : State) → (heard frames s).charger_count ≡ length frames
unfolding average start
charger_count-heard frames s = ground (arith, charger_count-receive frames (start s))

volts-heard-nil : (s : State) → (heard [] s).volts ≡ 0
unfolding average start receive
volts-heard-nil s = refl

-- With watts left, the voltage is at least the sketch's least.
pub watts_need_volts :
    (k : Sketch) (board : Board) (frames : List Frame) (s : State)
    → 0 < (decide k board frames s).watts
    → k.output_volts_min ≤ (decide k board frames s).volts
unfolding decide stop_below
watts_need_volts k board frames s h = ground arith

-- What `grant` computes where it divides by no zero.
abbrev pub granted : State → State
granted s =
    if ltb 0 s.watts
    then record s { charging_amps = u16 (s.watts / s.volts / s.charger_count) }
    else s

count_of_volts :
    (k : Sketch) (board : Board) (frames : List Frame) (s : State)
    → 0 < (decide k board frames s).volts
    → 0 < (decide k board frames s).charger_count
count_of_volts k board [] s h =
    absurd (omega (arith, h, (decide-SameChargers k board [] s).volts, volts-heard-nil s))
count_of_volts k board (f ∷ frames) s h =
    omega (
      arith,
      (decide-SameChargers k board (f ∷ frames) s).count,
      charger_count-heard (f ∷ frames) s,
    )

grant_defined :
    (s : State) → (0 < s.watts → (0 < s.volts) × (0 < s.charger_count)) → grant s ≡ some (granted s)
unfolding grant set_charging_amps
grant_defined s h = ground arith

-- Every control cycle of a sketch whose least voltage is positive is defined: it divides by no
-- zero, whatever the frames, also with none, and whatever the state. Its result is the decided
-- watts, the amps granted from them if there are any, and these amps in the heartbeat.
pub cycle_defined :
    (k : Sketch) (board : Board) (frames : List Frame) (s : State)
    → 0 < k.output_volts_min
    → cycle k board frames s ≡ some (announce (granted (decide k board frames s)))
unfolding cycle
cycle_defined k board frames s h = rw (grant_defined (decide k board frames s) enough)
  where
    enough :
        0 < (decide k board frames s).watts
        → (0 < (decide k board frames s).volts) × (0 < (decide k board frames s).charger_count)
    enough w =
        let v : 0 < (decide k board frames s).volts =
          omega (arith, watts_need_volts k board frames s w) in
        (v, count_of_volts k board frames s v)
