-- ===== src/Integrated/Waiting.antt =====
-- Passes without a heartbeat, for the `loop` of v2.6/v2.6.ino and for that of its older versions.
use scv2_sketches.Prelude.{
  ℕ, ◌+◌, ◌-◌, ◌≤◌, ◌<◌, false, Option, none, some, List, [], ◌∷◌, length, ◌≡◌, subst, Frame, slt32,
  arith,
}
use scv2_sketches.Integrated.State.{Stored, Controller, power_up}
use scv2_sketches.Integrated.Main.{Input, Output}
use scv2_sketches.Integrated.Branches.{IfDefined}
use scv2_sketches.Integrated.Delay.{Soon}

abbrev pub Pass : Type 0
Pass = Input → Controller → Option (Controller × Output)

abbrev pub Silent : Output → Type 0
Silent o = o.heartbeat ≡ none

-- Passes in a row, for the given inputs, of which none sends a heartbeat.
pub data Waits (loop : Pass) : List Input → Controller → Controller → Type 0 where
  done : {s : Controller} → Waits loop [] s s
  pass :
      {i : Input} {inputs : List Input} {s t u : Controller} {o : Output}
      → loop i s ≡ some (t, o)
      → Silent o
      → Waits loop inputs t u
      → Waits loop (i ∷ inputs) s u

-- The states from which a sketch waits for its next heartbeat, with the passes it counts: after power
-- up, and after each pass that sent one.
pub data Begins (loop : Pass) (start : Controller → Controller) : ℕ → Controller → Type 0 where
  powered : (eeprom : Stored) → Begins loop start 55000 (start (power_up eeprom))
  sent :
      (i : Input) (s : Controller) {t : Controller} (o : Output) (f : Frame)
      → loop i s ≡ some (t, o)
      → o.heartbeat ≡ some f
      → Begins loop start 22000 t

-- What a pass leaves to wait: 22000 passes behind a heartbeat, and behind a silent pass one less than
-- the `d` before it.
abbrev pub AfterBeat : Controller → Output → Type 0
AfterBeat t o = (f : Frame) → o.heartbeat ≡ some f → t.delay_itteration ≡ 22000

abbrev pub AfterSilence : ℕ → Controller → Output → Type 0
AfterSilence d t o = Silent o → (1 ≤ d - 1) × Soon (d - 1) t

pub waits_one : (n : ℕ) → slt32 n 1 ≡ false → 1 ≤ n
waits_one n e = ground arith

-- A `loop` all of whose passes are paced.
pub record IsPaced (loop : Pass) (start : Controller → Controller) : Type 0 where
  pub beats : (i : Input) (s : Controller) → IfDefined AfterBeat (loop i s)
  pub silences :
      {d : ℕ} (i : Input) (s : Controller)
      → d < 0x8000_0000
      → Soon d s
      → IfDefined (AfterSilence d) (loop i s)
  pub start_delay : (eeprom : Stored) → (start (power_up eeprom)).delay_itteration ≡ 55000

module _ (loop : Pass) (start : Controller → Controller) (h : IsPaced loop start) where
  -- How many passes can be silent.
  pub Waits-length :
      {inputs : List Input} {s u : Controller}
      → Waits loop inputs s u
      → (d : ℕ) → d < 0x8000_0000
      → 1 ≤ d
      → Soon d s
      → length inputs + 1 ≤ d
  Waits-length done d l p n = p
  Waits-length (pass {i = i} {s = s} e q w) d l p n =
      let (one, later) = subst (IfDefined (AfterSilence d)) e (h.silences i s l n) q in
      let k = Waits-length w (d - 1) (omega arith) one later in omega arith

  Begins-Soon :
      {d : ℕ} {s : Controller} → Begins loop start d s → (1 ≤ d) × (d < 0x8000_0000) × Soon d s
  Begins-Soon (powered eeprom) = omega (arith, h.start_delay eeprom)
  Begins-Soon (sent i s o f e b) = omega (arith, subst (IfDefined AfterBeat) e (h.beats i s) f b)

  pub come_round :
      {d : ℕ} {inputs : List Input} {s u : Controller}
      → Begins loop start d s
      → Waits loop inputs s u
      → length inputs < d
  come_round {d} b w =
      let (one, l, n) = Begins-Soon b in let k = Waits-length w d l one n in omega arith
