-- ===== src/Monitor/Sends.antt =====
-- The command that the monitor (Zero_charge_monitoring/Zero_charge_monitoring.ino) sends to the
-- chargers.
use scv2_sketches.Prelude.{
  Bool, if◌then◌else◌, ◌+◌, true, false, Bool-cases, inl, inr, ◌>>=◌, ℕ, ◌*◌, ◌<◌, ◌≡◌, refl, sym,
  ap, ◌∙◌, subst, Option, none, some, List, [], ◌∷◌, Frame, slt16, u16, arith,
}
use scv2_sketches.Monitor.State.{Monitor}
use scv2_sketches.Monitor.Command.{is_ready_to_charge, output_amps, send_charge_command}
use scv2_sketches.Monitor.Pass.{log_details, DashFloats, Input, Output, window, after_window, loop}
use scv2_sketches.Monitor.Handlers.{Fresh}
use scv2_sketches.Monitor.Asked.{rested, Asks, AsksIf, send-Asks}

-- The passes of a window, with the one that begins.
abbrev ticked : Monitor → Monitor
ticked s = record s { charger_wait_count = u16 (s.charger_wait_count + 1) }

taken {ℓ} : {A : Type ℓ} (b : Bool) (x y : A) {z : A} → (if b then x else y) ≡ z → b ≡ true → x ≡ z
taken true x y e h = e
taken false x y e h = absurd (cc h)

passed {ℓ} :
    {A : Type ℓ} (b : Bool) (x y : A) {z : A} → (if b then x else y) ≡ z → b ≡ false → y ≡ z
passed true x y e h = absurd (cc h)
passed false x y e h = e

same : {s : Monitor} {f : Frame} → Asks (ticked s) f → Asks s f
same a = record {
  bike_fresh = a.bike_fresh;
  chargers_fresh = a.chargers_fresh;
  above = a.above;
  below = a.below;
  connected = a.connected;
  volts_eq = a.volts_eq;
  amps_fit = a.amps_fit;
}

rested-Fresh : (s : Monitor) → Fresh s → Fresh (rested s)
rested-Fresh s h = ground arith

ready_send-Asks :
    (s : Monitor) {u : Monitor} {f : Frame} {rest : List Frame}
    → Fresh (rested s)
    → s.target_watts * 100 < 0x8000_0000
    → (if is_ready_to_charge s then send_charge_command s else some (s, [])) ≡ some (u, f ∷ rest)
    → Asks s f
ready_send-Asks s {u} {f} {rest} h w e = elim (Bool-cases (is_ready_to_charge s)) [
  | inl r ↦
      subst (AsksIf s) (taken (is_ready_to_charge s) _ _ e r)
        (send-Asks s (output_amps s) h r w refl) f rest refl
  | inr r ↦ absurd (cc (passed (is_ready_to_charge s) _ _ e r))
]

sent_from :
    (r : Option (Monitor × List Frame)) (g : Monitor → Monitor) {t : Monitor} {sent : List Frame}
    (line : List ℕ) {l : List ℕ}
    → ◌>>=◌ {B = Monitor × List Frame × List ℕ} r (λ x. some (g x.0, x.1, line)) ≡ some (t, sent, l)
    → (u : Monitor) × (r ≡ some (u, sent))
sent_from none g line e = absurd (cc e)
sent_from (some (u, sent)) g line e = (u, cc e)

window-Asks :
    (serial : Bool) (s : Monitor) {t : Monitor} {f : Frame} {rest : List Frame} {line : List ℕ}
    → Fresh s
    → s.target_watts * 100 < 0x8000_0000
    → window serial s ≡ some (t, f ∷ rest, line)
    → Asks s f × (s.charger_wait_count ≡ 22000)
unfolding window
window-Asks serial s {t} {f} {rest} h w e =
    let due = slt16 22000 (ticked s).charger_wait_count in
    elim (Bool-cases due) [
      | inl d ↦
          let got =
            sent_from
              (if is_ready_to_charge (ticked s)
                then send_charge_command (ticked s)
                else some (ticked s, []))
              (λ u. record u { connected_chargers = 0; charger_wait_count = 0 })
              (log_details serial (ticked s)) (taken due _ _ e d) in
          (same (ready_send-Asks (ticked s) (rested-Fresh s h) w got.1), ground arith)
      | inr d ↦ absurd (cc (passed due _ _ e d))
    ]

-- A pass sends the chargers what its window sends.
after_window-sent :
    (fl : DashFloats) (i : Input) (s : Monitor) (sent : List Frame) (line : List ℕ) {t : Monitor}
    {o : Output}
    → after_window fl i s sent line ≡ some (t, o)
    → o.to_chargers ≡ sent
unfolding after_window
after_window-sent fl i s sent line e = ground arith

-- A pass that sends the chargers a command, if it is defined, has sent what it may.
abbrev CommandIf : Monitor → Option (Monitor × Output) → Type 0
CommandIf s none = Unit {0}
CommandIf s (some r) =
    (f : Frame) (rest : List Frame)
    → r.1.to_chargers ≡ f ∷ rest
    → Asks s f × (s.charger_wait_count ≡ 22000)

after_window-CommandIf :
    (fl : DashFloats) (i : Input) (s u : Monitor) (sent : List Frame) (line : List ℕ)
    (r : Option (Monitor × Output))
    → window i.serial s ≡ some (u, sent, line)
    → after_window fl i u sent line ≡ r
    → Fresh s
    → s.target_watts * 100 < 0x8000_0000
    → CommandIf s r
after_window-CommandIf fl i s u sent line none e p h w = tt
after_window-CommandIf fl i s u sent line (some (t, o)) e p h w = λ f rest q.
    window-Asks i.serial s h w (
      e
      ∙ ap (λ (x : List Frame). some (u, x, line)) (sym (after_window-sent fl i u sent line p) ∙ q))

loop-CommandIf :
    (fl : DashFloats) (i : Input) (s : Monitor) (r : Option (Monitor × List Frame × List ℕ))
    → window i.serial s ≡ r
    → Fresh s
    → s.target_watts * 100 < 0x8000_0000
    → CommandIf s (loop fl i s)
unfolding loop
loop-CommandIf fl i s none e h w = simp e tt
loop-CommandIf fl i s (some (u, sent, line)) e h w =
    simp e (after_window-CommandIf fl i s u sent line (after_window fl i u sent line) e refl h w)

-- A pass of the monitor sends the chargers a command only at the end of a window of 22000 passes,
-- when the motorcycle was heard within 1000 passes, its voltage lies between 70.000 V and the end
-- voltage, and some charger was counted. The command asks for the volts that were computed, and for
-- amps that, for each of the chargers and at the volts of the motorcycle, stay within the watts
-- asked for. These are below 21474837 W, where a hundredfold of them does not wrap.
pub command_within_watts :
    (fl : DashFloats) (i : Input) (s : Monitor) {t : Monitor} {o : Output} (f : Frame)
    (rest : List Frame)
    → Fresh s
    → s.target_watts * 100 < 0x8000_0000
    → loop fl i s ≡ some (t, o)
    → o.to_chargers ≡ f ∷ rest
    → Asks s f × (s.charger_wait_count ≡ 22000)
command_within_watts fl i s f rest h w e q =
    subst (CommandIf s) e (loop-CommandIf fl i s (window i.serial s) refl h w) f rest q
