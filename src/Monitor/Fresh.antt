-- ===== src/Monitor/Fresh.antt =====
-- What the monitor (Zero_charge_monitoring/Zero_charge_monitoring.ino) keeps true of its globals.
use scv2_sketches.Prelude.{
  Bool, true, false, if◌then◌else◌, ◌>>=◌, ℕ, ◌<◌, ◌≡◌, refl, subst, Option, none, some, List, All,
  Frame, IsFrame, arith,
}
use scv2_sketches.Monitor.State.{Stored, Monitor, power_up}
use scv2_sketches.V3.BikeLoop.{Received, Sent}
use scv2_sketches.Monitor.Pass.{
  bike_frame, window, commands, from_bike, from_charger, after_window, loop, DashFloats, Output,
  Settings, Input, setup,
}
use scv2_sketches.Monitor.Handlers.{
  Fresh, age-Fresh, commands-Fresh, setup-Fresh, FreshIf, window-Fresh, charger_frame-Fresh,
  on_voltage-Fresh, on_amps-Fresh, on_throttle-Fresh,
}

bike_frame-Fresh :
    (fl : DashFloats) (junk : Frame) (r : Received) (s : Monitor)
    → IsFrame r.buf
    → Fresh s
    → Fresh (bike_frame fl junk r s).0
unfolding bike_frame
bike_frame-Fresh fl junk r s i h =
    let z = record s { bike_stale_count = 0 } in
    let heard = on_voltage-Fresh junk r z i refl (ground arith) in
    on_throttle-Fresh r _ (on_amps-Fresh r _ heard)

-- What comes in is made of bytes and `long`s.
pub record IsInput (i : Input) : Type 0 where
  pub watts_lt : All (λ (c : Settings). c.watts < 0x1_0000_0000) i.commands
  pub charger_bytes : (f : Frame) → i.from_charger ≡ some f → IsFrame f
  pub bike_bytes : (r : Received) → i.from_bike ≡ some r → IsFrame r.buf

from_charger-Fresh :
    (i : Input) (s : Monitor) (r : Option Frame)
    → i.from_charger ≡ r
    → IsInput i
    → Fresh s
    → FreshIf {A = List Sent} (from_charger i s)
unfolding from_charger
from_charger-Fresh i s none e p h = ground arith
from_charger-Fresh i s (some f) e p h =
    ground (arith, charger_frame-Fresh i.charger_junk f s (p.charger_bytes f e) h)

from_bike-Fresh :
    (fl : DashFloats) (i : Input) (s : Monitor) (r : Option Received)
    → i.from_bike ≡ r
    → IsInput i
    → Fresh s
    → Fresh (from_bike fl i s).0
unfolding from_bike
from_bike-Fresh fl i s none e p h = ground arith
from_bike-Fresh fl i s (some r) e p h =
    ground (arith, bike_frame-Fresh fl i.bike_junk r s (p.bike_bytes r e) h)

if-Fresh : (b : Bool) {s t : Monitor} → Fresh s → Fresh t → Fresh (if b then s else t)
if-Fresh true p q = p
if-Fresh false p q = q

bind-Fresh {ℓ κ} :
    {A : Type ℓ} {B : Type κ} (r : Option (Monitor × A)) (f : Monitor × A → Option (Monitor × B))
    → FreshIf r
    → ((x : Monitor × A) → Fresh x.0 → FreshIf (f x))
    → FreshIf (r >>= f)
bind-Fresh none f h g = tt
bind-Fresh (some x) f h g = g x h

-- The pass after its window.
heard_pass-Fresh :
    (fl : DashFloats) (i : Input) (s : Monitor) (sent : List Frame) (line : List ℕ)
    → IsInput i
    → Fresh s
    → FreshIf {A = Output} (after_window fl i s sent line)
unfolding after_window
heard_pass-Fresh fl i s sent line p h =
    let told = if-Fresh i.serial (commands-Fresh i.commands s p.watts_lt h) h in
    bind-Fresh (from_charger i (if i.serial then commands i.commands s else s)) _
      (from_charger-Fresh i _ i.from_charger refl p told)
      (λ x q. age-Fresh _ (from_bike-Fresh fl i x.0 i.from_bike refl p q))

pub loop-Fresh :
    (fl : DashFloats) (i : Input) (s : Monitor) (r : Option (Monitor × List Frame × List ℕ))
    → window i.serial s ≡ r
    → IsInput i
    → Fresh s
    → FreshIf {A = Output} (loop fl i s)
unfolding loop
loop-Fresh fl i s none e p h = simp e tt
loop-Fresh fl i s (some (t, sent, line)) e p h =
    simp e (heard_pass-Fresh fl i t sent line p (window-Fresh i.serial s e h))

-- The states that the monitor reaches, from a start with what the EEPROM holds.
pub data Reach (eeprom : Stored) : Monitor → Type 0 where
  begin : Reach eeprom (setup (power_up eeprom))
  pass :
      {s t : Monitor} {o : Output} (fl : DashFloats) (i : Input)
      → Reach eeprom s
      → IsInput i
      → loop fl i s ≡ some (t, o)
      → Reach eeprom t

power_up-Fresh : (eeprom : Stored) → Fresh (power_up eeprom)
power_up-Fresh eeprom = ground arith

-- In every state that the monitor reaches: the voltage of the motorcycle is forgotten, or the count of
-- passes that every frame of the motorcycle clears is at most 1000; and the voltage of the chargers,
-- as reported and as smoothed, is forgotten, or the count that every frame of a charger clears is at
-- most 30000. A window has at most 22000 passes, at most 16 reports of chargers are counted in it,
-- and the two counts, the voltages, the end voltage, the target watts and the volts and amps that are
-- asked for stay within their widths. What comes in is made of bytes and `long`s, and so is what the
-- EEPROM holds.
pub Reach-Fresh :
    {eeprom : Stored} (s : Monitor)
    → eeprom.target_watts < 0x1_0000_0000
    → eeprom.end_volts < 0x1_0000_0000
    → Reach eeprom s
    → Fresh s
Reach-Fresh {eeprom} s w v begin = setup-Fresh (power_up eeprom) w v (power_up-Fresh eeprom)
Reach-Fresh t w v (pass {s} fl i r p e) =
    subst FreshIf e (loop-Fresh fl i s (window i.serial s) refl p (Reach-Fresh s w v r))
