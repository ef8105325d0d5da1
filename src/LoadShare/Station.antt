-- ===== src/LoadShare/Station.antt =====
-- What the chargers draw after a pass of a load share sketch, end to end: from power up over any
-- passes and interrupts to the heartbeat that the chargers read.
use scv2_sketches.Prelude.{ℕ, ◌+◌, ◌*◌, ◌≤◌, ◌<◌, true, some, All, ◌≡◌, ◌∙◌, ap, Frame, arith}
use native.Mathlib.Nat.{le_trans}
use scv2_sketches.Scv2
use scv2_sketches.LoadShare.State.{Board, uno, Sketch, max_12v_watts, State, initial}
use scv2_sketches.LoadShare.Cycle.{cycle}
use scv2_sketches.LoadShare.Loop.{Input, Output, read_commands, setup, control, loop}
use scv2_sketches.LoadShare.Bounds.{IsSketch}
use scv2_sketches.LoadShare.Reach.{InRange, Reach, Reach-on_target, flag-read_commands}
use scv2_sketches.LoadShare.Grants.{grants_within_watts}

-- A pass that found the flag has made a cycle, and sends the heartbeat of its result.
pass_cycles :
    (k : Sketch) (board : Board) (i : Input) (s : State) {t : State} {o : Output}
    → (read_commands i.commands s).flag_recv ≡ true
    → loop k board i s ≡ some (t, o)
    → (cycle k board i.frames (read_commands i.commands s) ≡ some t) × (o.sent ≡ t.heartbeat)
unfolding loop control
pass_cycles k board i s f e = ground arith

-- On a Uno, with sensible constants, a stored target that leaves room for the 12 V supplies and
-- commands that do too: from power up, after any passes and interrupts, a pass that found a frame
-- and left watts sends a heartbeat in which each charger reads amps such that all that reported
-- draw, at the voltage that they reported, at most one ramp step more than the station's target.
pub draw_on_target :
    {k : Sketch} (heartbeat : Frame) (eeprom : ℕ) {s : State} (i : Input) {t : State} {o : Output}
    → IsSketch k
    → max_12v_watts ≤ eeprom
    → Reach k (setup (initial heartbeat eeprom)) s
    → All InRange i.commands
    → s.flag_recv ≡ true
    → loop k uno i s ≡ some (t, o)
    → 0 < t.watts
    → Scv2.amps o.sent * t.charger_count * t.volts ≤ t.max_station_watts + k.ramp_rate
draw_on_target {k} heartbeat eeprom {s} i {t} {o} c m r a f e w =
    let (ran, sent) = pass_cycles k uno i s (flag-read_commands i.commands s ∙ f) e in
    let grants =
      grants_within_watts k uno i.frames (read_commands i.commands s) c.least_volts ran w in
    rw (ap Scv2.amps sent ∙ grants.1)
      (le_trans grants.0 (Reach-on_target heartbeat eeprom c m r i t o a f e))
