-- ===== src/Monitor/Undefined.antt =====
-- The passes of the monitor (Zero_charge_monitoring/Zero_charge_monitoring.ino) that are undefined.
use scv2_sketches.Prelude.{
  Bool, if◌then◌else◌, ◌≢◌, true, false, inl, inr, ℕ, ◌<◌, ◌≤◌, ◌≡◌, ◌↔◌, ◌⊎◌, refl, sym, ◌∙◌,
  Option, none, some, List, [], ◌∷◌, Frame, arith,
}
use scv2_sketches.Monitor.State.{Monitor}
use scv2_sketches.Monitor.Command.{
  is_ready_to_charge, should_charge, output_amps, send_charge_command,
}
use scv2_sketches.Monitor.Pass.{
  DashFloats, Settings, Input, command, commands, charger_frame, window, from_charger, after_window,
  loop,
}
use scv2_sketches.Monitor.Handlers.{Fresh}

-- Over the number of chargers in the window: a command that divides by zero.
pub record DividesByZero (s : Monitor) : Type 0 where
  pub due : s.charger_wait_count ≡ 22000
  pub ready : is_ready_to_charge s ≡ true
  pub should : should_charge s ≡ true
  pub nobody : s.connected_chargers ≡ 0

send-none_iff :
    (s : Monitor)
    → Fresh s
    → is_ready_to_charge s ≡ true
    → (send_charge_command s ≡ none) ↔ ((should_charge s ≡ true) × (s.connected_chargers ≡ 0))
unfolding send_charge_command output_amps is_ready_to_charge should_charge
send-none_iff s h r = ((λ e. ground arith), (λ e. ground arith))

pub window-none_iff :
    (serial : Bool) (s : Monitor) → Fresh s → (window serial s ≡ none) ↔ DividesByZero s
unfolding window send_charge_command output_amps is_ready_to_charge should_charge
window-none_iff serial s h = ((λ e. ground arith), (λ e. ground arith))

window-connected :
    (serial : Bool) (s : Monitor) {t : Monitor} {sent : List Frame} {line : List ℕ}
    → Fresh s
    → window serial s ≡ some (t, sent, line)
    → ((s.charger_wait_count ≡ 22000) × (t.connected_chargers ≡ 0))
      ⊎ ((s.charger_wait_count < 22000) × (t.connected_chargers ≡ s.connected_chargers))
unfolding window send_charge_command output_amps
window-connected serial s h e = ground arith

charger_frame-none_iff :
    (junk f : Frame) (s : Monitor)
    → s.connected_chargers ≤ 16
    → (charger_frame junk f s ≡ none) ↔ (s.connected_chargers ≡ 16)
unfolding charger_frame
charger_frame-none_iff junk f s h = ((λ e. ground arith), (λ e. ground arith))

connected-commands :
    (cs : List Settings) (s : Monitor) → (commands cs s).connected_chargers ≡ s.connected_chargers
unfolding commands command
connected-commands [] s = refl
connected-commands (c ∷ cs) s = connected-commands cs (command c s)

pub from_charger-some :
    (i : Input) (s : Monitor) {f : Frame}
    → i.from_charger ≡ some f
    → from_charger i s ≡ charger_frame i.charger_junk f s
unfolding from_charger
from_charger-some i s e = ground arith

from_charger-none_iff :
    (i : Input) (s : Monitor) (r : Option Frame)
    → i.from_charger ≡ r
    → s.connected_chargers ≤ 16
    → (from_charger i s ≡ none) ↔ ((s.connected_chargers ≡ 16) × (i.from_charger ≢ none))
unfolding from_charger
from_charger-none_iff i s none e h = ((λ q. ground arith), (λ q. absurd (q.1 e)))
from_charger-none_iff i s (some f) e h =
    let iff = charger_frame-none_iff i.charger_junk f s h in
    let eq = from_charger-some i s e in
    ((λ q. (iff.0 (sym eq ∙ q), λ n. absurd (cc (n, e)))), (λ q. eq ∙ iff.1 q.0))

after_window-none_iff :
    (fl : DashFloats) (i : Input) (s : Monitor) (sent : List Frame) (line : List ℕ)
    → (after_window fl i s sent line ≡ none)
      ↔ (from_charger i (if i.serial then commands i.commands s else s) ≡ none)
unfolding after_window
after_window-none_iff fl i s sent line = ((λ e. ground arith), (λ e. ground arith))

connected-told :
    (b : Bool) (cs : List Settings) (s : Monitor)
    → (if b then commands cs s else s).connected_chargers ≡ s.connected_chargers
connected-told true cs s = connected-commands cs s
connected-told false cs s = refl

-- A charger's frame behind the sixteenth of a window: its amps are written past the end of the list.
pub record Overruns (i : Input) (s : Monitor) : Type 0 where
  pub going_on : s.charger_wait_count < 22000
  pub full : s.connected_chargers ≡ 16
  pub heard : i.from_charger ≢ none

loop-none :
    (fl : DashFloats) (i : Input) (s : Monitor) (r : Option (Monitor × List Frame × List ℕ))
    → window i.serial s ≡ r
    → Fresh s
    → (loop fl i s ≡ none) ↔ (DividesByZero s ⊎ Overruns i s)
unfolding loop
loop-none fl i s none e h = simp e ((λ q. inl ((window-none_iff i.serial s h).0 e)), λ q. refl)
loop-none fl i s (some (t, sent, line)) e h =
    let told = if i.serial then commands i.commands t else t in
    let n = connected-told i.serial i.commands t in
    let c = window-connected i.serial s h e in
    let u = window-none_iff i.serial s h in
    let a = after_window-none_iff fl i t sent line in
    let iff =
      from_charger-none_iff i told i.from_charger refl (omega (arith, n, c, h.connected_le)) in
    simp e (
      (λ q.
          let got = iff.0 (a.0 q) in
          inr (record {
            going_on = omega (arith, c, n, got.0);
            full = omega (arith, c, n, got.0);
            heard = got.1;
          })),
      (λ q. a.1 (elim q [
        | inl d ↦ absurd (cc (u.1 d, e))
        | inr o ↦ iff.1 (omega (arith, c, n, o.going_on, o.full), o.heard)
      ])),
    )

-- A pass of the monitor is undefined in two cases only. Either a window ends, the monitor is ready to
-- charge and should, but no charger was counted in the window: the watts are divided by zero. Or a
-- charger's frame is behind the sixteenth of a window: its amps are written outside of the list.
pub monitor_undefined_iff :
    (fl : DashFloats) (i : Input) (s : Monitor)
    → Fresh s
    → (loop fl i s ≡ none) ↔ (DividesByZero s ⊎ Overruns i s)
monitor_undefined_iff fl i s h = loop-none fl i s (window i.serial s) refl h
