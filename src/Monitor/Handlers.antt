-- ===== src/Monitor/Handlers.antt =====
-- The invariant of the monitor (Zero_charge_monitoring/Zero_charge_monitoring.ino) over each part of
-- a pass.
use scv2_sketches.Prelude.{
  Bool, Bool-cases, ◌==◌, ◌||◌, ltb, ◌%◌, ◌*◌, ℕ, ◌+◌, ◌≤◌, ◌<◌, ◌≡◌, ◌⊎◌, inl, inr, Option, none,
  some, List, [], ◌∷◌, All, Frame, IsFrame, arith,
}
use scv2_sketches.Monitor.State.{Monitor}
use scv2_sketches.Monitor.Command
use scv2_sketches.Scv2
use scv2_sketches.V3.BikeLoop.{Received, Sent}
use scv2_sketches.Zero.Decode
use scv2_sketches.Zero.Decode.{long_of_bytes, short_of_bytes}
use scv2_sketches.Monitor.Pass.{
  on_voltage, on_amps, on_throttle, charger_frame, window, command, commands, Settings, setup,
  count, forget_chargers, forget_bike, restart_count, age,
}

-- A voltage is kept only while its side is heard: the motorcycle's for 1000 passes behind the last
-- frame of it, whatever is in the frame, the chargers' for 30000. The passes of a window and the
-- chargers in it are counted, and the other globals that decide are within their widths.
pub record Fresh (s : Monitor) : Type 0 where
  pub bike_heard : (s.bike_voltage ≡ 0) ⊎ (s.bike_stale_count ≤ 1000)
  pub holder_heard : (s.charger_voltage_holder ≡ 0) ⊎ (s.sc_stale_count ≤ 30000)
  pub charger_heard : (s.charger_voltage ≡ 0) ⊎ (s.sc_stale_count ≤ 30000)
  pub bike_stale_lt : s.bike_stale_count < 0x1_0000_0000
  pub sc_stale_lt : s.sc_stale_count < 0x1_0000_0000
  pub wait_le : s.charger_wait_count ≤ 22000
  pub connected_le : s.connected_chargers ≤ 16
  pub message_le : s.message_count ≤ 20000
  pub bike_lt : s.bike_voltage < 0x1_0000_0000
  pub holder_le : s.charger_voltage_holder ≤ 6553500
  pub charger_le : s.charger_voltage ≤ 6553500
  pub end_lt : s.end_volts < 0x1_0000_0000
  pub watts_lt : s.target_watts < 0x1_0000_0000
  pub volts_lt : s.desired_output_volts < 0x1_0000
  pub amps_lt : s.desired_output_amps < 0x1_0000

pub age-Fresh : (s : Monitor) → Fresh s → Fresh (age s)
unfolding age count forget_chargers forget_bike restart_count Command.reset_charging
age-Fresh s h = ground arith

set_voltage_diff-Fresh :
    (junk : Frame) (s : Monitor) → Fresh s → Fresh (Command.set_voltage_diff junk s).0
unfolding Command.set_voltage_diff Command.set_output_volts Command.is_ready_to_charge
set_voltage_diff-Fresh junk s h = ground arith

command-Fresh :
    (c : Settings) (s : Monitor) → c.watts < 0x1_0000_0000 → Fresh s → Fresh (command c s)
unfolding command
command-Fresh c s w h = ground arith

pub commands-Fresh :
    (cs : List Settings) (s : Monitor)
    → All (λ (c : Settings). c.watts < 0x1_0000_0000) cs
    → Fresh s
    → Fresh (commands cs s)
unfolding commands
commands-Fresh [] s w h = h
commands-Fresh (c ∷ cs) s w h = commands-Fresh cs (command c s) w.1 (command-Fresh c s w.0 h)

pub setup-Fresh :
    (s : Monitor)
    → s.eeprom.target_watts < 0x1_0000_0000
    → s.eeprom.end_volts < 0x1_0000_0000
    → Fresh s
    → Fresh (setup s)
unfolding setup Command.set_output_volts
setup-Fresh s w v h = ground arith

-- A result, if there is one, is fresh.
abbrev pub FreshIf {ℓ} : {A : Type ℓ} → Option (Monitor × A) → Type 0
FreshIf none = Unit {0}
FreshIf (some r) = Fresh r.0

send_charge_command-Fresh :
    (s : Monitor) → Fresh s → FreshIf {A = List Frame} (Command.send_charge_command s)
unfolding Command.send_charge_command Command.output_amps
send_charge_command-Fresh s h = ground arith

pub window-Fresh :
    (serial : Bool) (s : Monitor) {t : Monitor} {sent : List Frame} {line : List ℕ}
    → window serial s ≡ some (t, sent, line)
    → Fresh s
    → Fresh t
unfolding window Command.send_charge_command Command.output_amps
window-Fresh serial s e h = ground arith

heard-Fresh :
    (volts connected total : ℕ) (list : List ℕ) (s : Monitor)
    → volts ≤ 65535
    → connected ≤ 16
    → Fresh s
    → Fresh (record s {
      sc_stale_count = 0;
      connected_chargers = connected;
      charger_voltage_holder = volts * 100;
      charger_amps_list = list;
      charger_amps = total;
    })
heard-Fresh volts connected total list s v c h = ground arith

pub charger_frame-Fresh :
    (junk f : Frame) (s : Monitor)
    → IsFrame f
    → Fresh s
    → FreshIf {A = List Sent} (charger_frame junk f s)
unfolding charger_frame Scv2.voltage
charger_frame-Fresh junk f s i h =
    let connected = (s.connected_chargers + 1) % 256 in
    elim (Bool-cases (connected == 0 || ltb 16 connected)) [
      | inl e ↦ simp e tt
      | inr e ↦ simp e (
          set_voltage_diff-Fresh junk _ (
            heard-Fresh (short_of_bytes f.b1 f.b0) connected _ _ s (omega (arith, i.b0_lt, i.b1_lt))
              (ground arith) h))
    ]

pub on_voltage-Fresh :
    (junk : Frame) (r : Received) (s : Monitor)
    → IsFrame r.buf
    → s.bike_stale_count ≡ 0
    → Fresh s
    → Fresh (on_voltage junk r s).0
unfolding on_voltage Decode.voltage
on_voltage-Fresh junk r s i z h = ground (
  arith,
  set_voltage_diff-Fresh junk
      (record s { bike_voltage = long_of_bytes r.buf.b3 r.buf.b4 r.buf.b5 r.buf.b6 }),
)

pub on_amps-Fresh : (r : Received) (s : Monitor) → Fresh s → Fresh (on_amps r s)
unfolding on_amps
on_amps-Fresh r s h = ground arith

pub on_throttle-Fresh : (r : Received) (s : Monitor) → Fresh s → Fresh (on_throttle r s)
unfolding on_throttle
on_throttle-Fresh r s h = ground arith
