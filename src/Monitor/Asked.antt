-- ===== src/Monitor/Asked.antt =====
-- What a command of the monitor (Zero_charge_monitoring/Zero_charge_monitoring.ino) to the chargers
-- asks for.
use scv2_sketches.Prelude.{
  true, Bool-cases, inl, inr, ℕ, ◌*◌, ◌/◌, ◌≤◌, ◌<◌, ◌≡◌, subst, Option, none, some, List, ◌∷◌,
  Frame, high_byte, low_byte, arith,
}
use native.Mathlib.Nat.{le_trans, mul-le-mul_right, div-mul-le_self}
use scv2_sketches.Scv2
use scv2_sketches.Monitor.State.{Monitor}
use scv2_sketches.Monitor.Command.{
  is_ready_to_charge, should_charge, output_amps, send_charge_command,
}
use scv2_sketches.Monitor.Handlers.{Fresh}

-- A quotient by two numbers, times both, is at most what was divided.
quotients : (w v c : ℕ) → w / v / c * c * v ≤ w
quotients w v c = le_trans (mul-le-mul_right v (div-mul-le_self (w / v) c)) (div-mul-le_self w v)

-- The amps fit in the watts asked for.
output_amps-fit :
    (s : Monitor) {a : ℕ}
    → output_amps s ≡ some a
    → s.target_watts * 100 < 0x8000_0000
    → s.bike_voltage < 0x8000_0000
    → (a ≤ s.target_watts * 100 / (s.bike_voltage / 100) / s.connected_chargers)
      × (0 < s.connected_chargers)
unfolding output_amps
output_amps-fit s e w v = ground arith

-- The passes of a window do not matter to a command.
abbrev pub rested : Monitor → Monitor
rested s = record s { charger_wait_count = 0 }

-- What a command says of the state that it is computed from.
pub record Asks (s : Monitor) (f : Frame) : Type 0 where
  pub bike_fresh : s.bike_stale_count ≤ 1000
  pub chargers_fresh : s.sc_stale_count ≤ 30000
  pub above : 70000 < s.bike_voltage
  pub below : s.bike_voltage < s.end_volts
  pub connected : 0 < s.connected_chargers
  pub volts_eq : Scv2.voltage f ≡ s.desired_output_volts
  pub amps_fit : Scv2.amps f * s.connected_chargers * (s.bike_voltage / 100) ≤ s.target_watts * 100

ready-facts :
    (s : Monitor)
    → Fresh (rested s)
    → is_ready_to_charge s ≡ true
    → should_charge s ≡ true
    → (s.bike_stale_count ≤ 1000)
      × (s.sc_stale_count ≤ 30000)
      × (70000 < s.bike_voltage)
      × (s.bike_voltage < s.end_volts)
      × (s.bike_voltage < 0x8000_0000)
unfolding is_ready_to_charge should_charge
ready-facts s h r c = ground arith

-- The frame of a command.
abbrev message : ℕ → ℕ → Frame → Frame
message v a f = record f { b0 = high_byte v; b1 = low_byte v; b2 = high_byte a; b3 = low_byte a }

voltage-message : (v a : ℕ) (f : Frame) → v < 0x1_0000 → Scv2.voltage (message v a f) ≡ v
unfolding Scv2.voltage
voltage-message v a f h = omega arith

amps-message : (v a : ℕ) (f : Frame) → Scv2.amps (message v a f) ≤ a
unfolding Scv2.amps
amps-message v a f = omega arith

-- The frames of a result ask for what its state allows.
abbrev pub AsksIf : Monitor → Option (Monitor × List Frame) → Type 0
AsksIf s none = Unit {0}
AsksIf s (some r) = (f : Frame) (rest : List Frame) → r.1 ≡ f ∷ rest → Asks s f

message-Asks :
    (s : Monitor) (a : ℕ)
    → Fresh (rested s)
    → is_ready_to_charge s ≡ true
    → should_charge s ≡ true
    → s.target_watts * 100 < 0x8000_0000
    → output_amps s ≡ some a
    → Asks s (message s.desired_output_volts a s.charger_message)
message-Asks s a h r c w e =
    let facts = ready-facts s h r c in
    let fit = output_amps-fit s e w facts.4 in
    record {
      bike_fresh = facts.0;
      chargers_fresh = facts.1;
      above = facts.2;
      below = facts.3;
      connected = fit.1;
      volts_eq = voltage-message s.desired_output_volts a s.charger_message h.volts_lt;
      amps_fit =
          le_trans
            (mul-le-mul_right (s.bike_voltage / 100) (
              mul-le-mul_right s.connected_chargers
                (le_trans (amps-message s.desired_output_volts a s.charger_message) fit.0)))
            (quotients (s.target_watts * 100) (s.bike_voltage / 100) s.connected_chargers);
    }

pub send-Asks :
    (s : Monitor) (a : Option ℕ)
    → Fresh (rested s)
    → is_ready_to_charge s ≡ true
    → s.target_watts * 100 < 0x8000_0000
    → output_amps s ≡ a
    → AsksIf s (send_charge_command s)
unfolding send_charge_command
send-Asks s none h r w e = elim (Bool-cases (should_charge s)) [
  | inl c ↦ simp (c, e) tt
  | inr c ↦ simp c (λ f rest q. absurd (cc q))
]
send-Asks s (some a) h r w e = elim (Bool-cases (should_charge s)) [
  | inl c ↦ simp (c, e) (λ f rest q. subst (Asks s) (cc q) (message-Asks s a h r c w e))
  | inr c ↦ simp c (λ f rest q. absurd (cc q))
]
