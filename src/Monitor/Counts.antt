-- ===== src/Monitor/Counts.antt =====
-- The passes and the chargers that the monitor (Zero_charge_monitoring/Zero_charge_monitoring.ino)
-- counts in a window.
use scv2_sketches.Prelude.{
  Bool, true, false, ◌%◌, ◌==◌, ◌||◌, ltb, if◌then◌else◌, ℕ, ◌+◌, ◌<◌, ◌≡◌, refl, ◌∙◌, u16, Option,
  none, some, List, [], ◌∷◌, Frame, arith,
}
use scv2_sketches.V3.BikeLoop.{Received, Sent}
use scv2_sketches.Zero.Decode
use scv2_sketches.Monitor.State.{Monitor}
use scv2_sketches.Monitor.Command
use scv2_sketches.Monitor.Pass.{
  DashFloats, Settings, Input, Output, window, command, commands, charger_frame, on_voltage,
  on_amps, on_throttle, bike_frame, count, forget_chargers, forget_bike, restart_count, age,
  from_charger, from_bike, after_window, loop,
}
use scv2_sketches.Monitor.Undefined.{from_charger-some}

-- A state in which `n` passes of a window are over and `c` reports are counted.
pub record Counts (n c : ℕ) (s : Monitor) : Type 0 where
  pub passes_eq : s.charger_wait_count ≡ n
  pub connected_eq : s.connected_chargers ≡ c

module _ {n c : ℕ} where
  age-Counts : (s : Monitor) → Counts n c s → Counts n c (age s)
  unfolding age count forget_chargers forget_bike restart_count Command.reset_charging
  age-Counts s h = ground arith

  set_voltage_diff-Counts :
      (junk : Frame) (s : Monitor) → Counts n c s → Counts n c (Command.set_voltage_diff junk s).0
  unfolding Command.set_voltage_diff Command.set_output_volts
  set_voltage_diff-Counts junk s h = ground arith

  command-Counts : (k : Settings) (s : Monitor) → Counts n c s → Counts n c (command k s)
  unfolding command
  command-Counts k s h = ground arith

  commands-Counts : (ks : List Settings) (s : Monitor) → Counts n c s → Counts n c (commands ks s)
  unfolding commands
  commands-Counts [] s h = h
  commands-Counts (k ∷ ks) s h = commands-Counts ks (command k s) (command-Counts k s h)

  told-Counts :
      (b : Bool) (ks : List Settings) (s : Monitor)
      → Counts n c s
      → Counts n c (if b then commands ks s else s)
  told-Counts true ks s h = commands-Counts ks s h
  told-Counts false ks s h = h

  on_voltage-Counts :
      (junk : Frame) (r : Received) (s : Monitor)
      → Counts n c s
      → Counts n c (on_voltage junk r s).0
  unfolding on_voltage
  on_voltage-Counts junk r s h = ground (
    arith,
    set_voltage_diff-Counts junk (record s { bike_voltage = Decode.voltage r.buf }) (ground arith),
  )

  on_amps-Counts : (r : Received) (s : Monitor) → Counts n c s → Counts n c (on_amps r s)
  unfolding on_amps
  on_amps-Counts r s h = ground arith

  on_throttle-Counts : (r : Received) (s : Monitor) → Counts n c s → Counts n c (on_throttle r s)
  unfolding on_throttle
  on_throttle-Counts r s h = ground arith

  bike_frame-Counts :
      (fl : DashFloats) (junk : Frame) (r : Received) (s : Monitor)
      → Counts n c s
      → Counts n c (bike_frame fl junk r s).0
  unfolding bike_frame
  bike_frame-Counts fl junk r s h =
      let z = record s { bike_stale_count = 0 } in
      let heard = on_voltage-Counts junk r z (ground arith) in
      on_throttle-Counts r _ (on_amps-Counts r _ heard)

  from_bike-Counts :
      (fl : DashFloats) (i : Input) (s : Monitor) (r : Option Received)
      → i.from_bike ≡ r
      → Counts n c s
      → Counts n c (from_bike fl i s).0
  unfolding from_bike
  from_bike-Counts fl i s none e h = ground arith
  from_bike-Counts fl i s (some r) e h = ground (arith, bike_frame-Counts fl i.bike_junk r s h)

-- A report that is not the seventeenth is counted.
charger_frame-Counts :
    {n c : ℕ} (junk f : Frame) (s : Monitor)
    → c < 16
    → Counts n c s
    → (r : Monitor × List Sent) × (charger_frame junk f s ≡ some r) × Counts n (c + 1) r.0
unfolding charger_frame
charger_frame-Counts {n} {c} junk f s l h =
    let connected = (s.connected_chargers + 1) % 256 in
    let e : (connected == 0 || ltb 16 connected) ≡ false = ground arith in
    simp e (_, refl, set_voltage_diff-Counts {n = n} {c = c + 1} junk _ (ground arith))

-- How many reports a pass finds.
abbrev pub reports : Input → ℕ
reports i = elim i.from_charger [ none ↦ 0 | some f ↦ 1 ]

from_charger-Counts :
    {n c : ℕ} (i : Input) (s : Monitor) (r : Option Frame)
    → i.from_charger ≡ r
    → c + reports i < 17
    → Counts n c s
    → (x : Monitor × List Sent) × (from_charger i s ≡ some x) × Counts n (c + reports i) x.0
unfolding from_charger
from_charger-Counts i s none e l h = ((s, []), ground arith, ground arith)
from_charger-Counts {n} {c} i s (some f) e l h =
    let (x, p, q) = charger_frame-Counts i.charger_junk f s (ground arith) h in
    (x, from_charger-some i s e ∙ p, ground arith)

-- The rest of a pass is defined, and counts its report.
pub after_window-Counts :
    {n c : ℕ} (fl : DashFloats) (i : Input) (s : Monitor) (sent : List Frame) (line : List ℕ)
    → c + reports i < 17
    → Counts n c s
    → (x : Monitor × Output) × (after_window fl i s sent line ≡ some x)
      × Counts n (c + reports i) x.0
unfolding after_window
after_window-Counts fl i s sent line l h =
    let (x, p, q) =
      from_charger-Counts i (if i.serial then commands i.commands s else s) i.from_charger refl l
        (told-Counts i.serial i.commands s h) in
    simp p (_, refl, age-Counts _ (from_bike-Counts fl i x.0 i.from_bike refl q))

going_on :
    (serial : Bool) (s : Monitor)
    → s.charger_wait_count < 22000
    → window serial s
      ≡ some (record s { charger_wait_count = u16 (s.charger_wait_count + 1) }, [], [])
unfolding window
going_on serial s h = ground arith

-- A pass within a window is defined and is counted with its report.
pub pass-Counts :
    {n c : ℕ} (fl : DashFloats) (i : Input) (s : Monitor)
    → n < 22000
    → c + reports i < 17
    → Counts n c s
    → (x : Monitor × Output) × (loop fl i s ≡ some x) × Counts (n + 1) (c + reports i) x.0
unfolding loop
pass-Counts {n} {c} fl i s m l h =
    let t = record s { charger_wait_count = u16 (s.charger_wait_count + 1) } in
    let e : window i.serial s ≡ some (t, [], []) =
      going_on i.serial s (omega (arith, h.passes_eq)) in
    simp e (after_window-Counts {n = n + 1} {c = c} fl i t [] [] l (ground arith))
