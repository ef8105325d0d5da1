-- ===== src/LoadShare/Reach.antt =====
-- A load share sketch as a transition system: passes of `loop` with any input, and interrupts
-- between them.
use scv2_sketches.Prelude.{
  ℕ, ◌+◌, ◌≤◌, ◌<◌, if◌then◌else◌, true, Bool-cases, inl, inr, none, some, List, [], ◌∷◌, All, ◌≡◌,
  ◌↔◌, refl, ◌∙◌, subst, Frame, arith,
}
use scv2_sketches.LoadShare.State.{full, Board, uno, Sketch, max_12v_watts, State, initial}
use scv2_sketches.LoadShare.Cycle.{decide, announce}
use scv2_sketches.LoadShare.Loop.{
  Input, Output, mcp2515_isr, command, read_commands, setup, report, control, loop,
}
use scv2_sketches.LoadShare.Division.{granted, cycle_defined}
use scv2_sketches.LoadShare.Bounds.{IsSketch, IsSafe, OnTarget, decide-OnTarget}

-- Commands that leave room for the 12 V supplies.
abbrev pub InRange : ℕ → Type 0
InRange target = (max_12v_watts ≤ target) × (target ≤ 0x4000_0000)

-- One event, on a Uno.
pub data Step (k : Sketch) : State → State → Type 0 where
  interrupt : (s : State) → Step k s (mcp2515_isr s)
  pass :
      (i : Input) (s t : State) (o : Output)
      → All InRange i.commands
      → loop k uno i s ≡ some (t, o)
      → Step k s t

pub data Reach (k : Sketch) (s : State) : State → Type 0 where
  here : Reach k s s
  next : {t u : State} → Reach k s t → Step k t u → Reach k s u

command-IsSafe : {s : State} (target : ℕ) → InRange target → IsSafe s → IsSafe (command target s)
unfolding command
command-IsSafe target r h = ground arith

read_commands-IsSafe :
    (targets : List ℕ) (s : State)
    → All InRange targets
    → IsSafe s
    → IsSafe (read_commands targets s)
unfolding read_commands
read_commands-IsSafe [] s a h = h
read_commands-IsSafe (target ∷ targets) s a h =
    read_commands-IsSafe targets (command target s) a.1 (command-IsSafe target a.0 h)

granted-OnTarget : {k : Sketch} (s : State) → OnTarget k s → OnTarget k (announce (granted s))
unfolding announce
granted-OnTarget s h = ground arith

-- What `control` computes.
abbrev pub controlled : Sketch → Board → List Frame → State → State
controlled k board frames s =
    if s.flag_recv then announce (granted (decide k board frames s)) else s

pub control_defined :
    (k : Sketch) (board : Board) (frames : List Frame) (s : State)
    → 0 < k.output_volts_min
    → control k board frames s ≡ some (controlled k board frames s)
unfolding control
control_defined k board frames s h = ground (arith, cycle_defined k board frames s h)

controlled-OnTarget :
    {k : Sketch} (frames : List Frame) (s : State)
    → IsSketch k
    → IsSafe s
    → s.flag_recv ≡ true
    → OnTarget k (controlled k uno frames s)
controlled-OnTarget {k} frames s i h f =
    simp f (granted-OnTarget (decide k uno frames s) (decide-OnTarget frames i h))

OnTarget-IsSafe : {k : Sketch} {s : State} → IsSketch k → OnTarget k s → IsSafe s
OnTarget-IsSafe i o = omega arith

pub controlled-IsSafe :
    {k : Sketch} (frames : List Frame) (s : State)
    → IsSketch k
    → IsSafe s
    → IsSafe (controlled k uno frames s)
controlled-IsSafe {k} frames s i h = elim (Bool-cases s.flag_recv) [
  | inl f ↦ OnTarget-IsSafe i (controlled-OnTarget frames s i h f)
  | inr f ↦ simp f h
]

pub loop-state :
    (k : Sketch) (board : Board) (i : Input) (s t : State) (o : Output)
    → 0 < k.output_volts_min
    → loop k board i s ≡ some (t, o)
    → controlled k board i.frames (read_commands i.commands s) ≡ t
unfolding loop
loop-state k board i s t o h e =
    ground (arith, control_defined k board i.frames (read_commands i.commands s) h)

pub mcp2515_isr-IsSafe : (s : State) → IsSafe s → IsSafe (mcp2515_isr s)
unfolding mcp2515_isr
mcp2515_isr-IsSafe s h = ground arith

Step-IsSafe : {k : Sketch} {s t : State} → IsSketch k → Step k s t → IsSafe s → IsSafe t
Step-IsSafe i (interrupt s) h = mcp2515_isr-IsSafe s h
Step-IsSafe {k} c (pass i s t o a e) h = subst IsSafe (loop-state k uno i s t o c.least_volts e) (
    controlled-IsSafe i.frames (read_commands i.commands s) c
      (read_commands-IsSafe i.commands s a h))

Reach-IsSafe : {k : Sketch} {s t : State} → IsSketch k → IsSafe s → Reach k s t → IsSafe t
Reach-IsSafe i h here = h
Reach-IsSafe i h (next r st) = Step-IsSafe i st (Reach-IsSafe i h r)

setup-IsSafe :
    (heartbeat : Frame) (eeprom : ℕ)
    → max_12v_watts ≤ eeprom
    → IsSafe (setup (initial heartbeat eeprom))
unfolding setup
setup-IsSafe heartbeat eeprom h = ground arith

pub flag-read_commands :
    (targets : List ℕ) (s : State) → (read_commands targets s).flag_recv ≡ s.flag_recv
unfolding read_commands command
flag-read_commands [] s = refl
flag-read_commands (target ∷ targets) s =
    ground (arith, flag-read_commands targets (command target s))

-- On a Uno, with sensible constants, a stored target that leaves room for the 12 V supplies and
-- commands that do too: from power up, after any passes and interrupts, a pass that found a frame
-- leaves watts of at most one ramp step above the station's target.
pub Reach-on_target :
    {k : Sketch} (heartbeat : Frame) (eeprom : ℕ) {s : State}
    → IsSketch k
    → max_12v_watts ≤ eeprom
    → Reach k (setup (initial heartbeat eeprom)) s
    → (i : Input) (t : State) (o : Output) → All InRange i.commands
    → s.flag_recv ≡ true
    → loop k uno i s ≡ some (t, o)
    → t.watts ≤ t.max_station_watts + k.ramp_rate
Reach-on_target {k} heartbeat eeprom {s} c m r i t o a f e =
    let safe =
      read_commands-IsSafe i.commands s a (Reach-IsSafe c (setup-IsSafe heartbeat eeprom m) r) in
    subst (λ (u : State). u.watts ≤ u.max_station_watts + k.ramp_rate)
      (loop-state k uno i s t o c.least_volts e)
      (controlled-OnTarget i.frames (read_commands i.commands s) c safe
        (flag-read_commands i.commands s ∙ f)).watts_le

-- A pass of `loop`, with a positive least voltage, is undefined exactly when the port is open, the
-- sketch prints the amps of one charger, and no charger was counted: that print divides by zero.
pub loop-none_iff :
    (k : Sketch) (board : Board) (i : Input) (s : State)
    → 0 < k.output_volts_min
    → (loop k board i s ≡ none) ↔ (
        (i.serial ≡ true)
        × (k.telemetry ≡ full)
        × ((controlled k board i.frames (read_commands i.commands s)).charger_count ≡ 0))
unfolding loop report
loop-none_iff k board i s h =
    let c = control_defined k board i.frames (read_commands i.commands s) h in
    rw c ((λ e. ground arith), (λ e. ground arith))
