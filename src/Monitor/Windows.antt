-- ===== src/Monitor/Windows.antt =====
-- A whole window of the monitor (Zero_charge_monitoring/Zero_charge_monitoring.ino).
use scv2_sketches.Prelude.{
  Bool, ℕ, ◌+◌, ◌≤◌, ◌<◌, ◌>>=◌, ◌≡◌, ◌≢◌, refl, subst, Option, none, some, List, [], ◌∷◌, All,
  length, Frame, arith,
}
use scv2_sketches.Monitor.State.{Monitor}
use scv2_sketches.Monitor.Command.{send_charge_command}
use scv2_sketches.Monitor.Pass.{DashFloats, Input, Output, window, loop}
use scv2_sketches.Monitor.Handlers.{Fresh, FreshIf}
use scv2_sketches.Monitor.Fresh.{IsInput, loop-Fresh}
use scv2_sketches.Monitor.Undefined.{window-none_iff}
use scv2_sketches.Monitor.Counts.{Counts, reports, after_window-Counts, pass-Counts}

-- Passes in a row.
abbrev pub passes : DashFloats → List Input → Monitor → Option Monitor
passes fl [] s = some s
passes fl (i ∷ inputs) s = loop fl i s >>= λ x. passes fl inputs x.0

abbrev pub total_reports : List Input → ℕ
total_reports [] = 0
total_reports (i ∷ inputs) = reports i + total_reports inputs

pass-Fresh :
    (fl : DashFloats) (i : Input) (s : Monitor) {x : Monitor × Output}
    → IsInput i
    → Fresh s
    → loop fl i s ≡ some x
    → Fresh x.0
pass-Fresh fl i s {x} p h e = subst FreshIf e (loop-Fresh fl i s (window i.serial s) refl p h)

passes-Counts :
    (fl : DashFloats) (inputs : List Input) (n c : ℕ) (s : Monitor)
    → n + length inputs ≤ 22000
    → c + total_reports inputs < 17
    → All IsInput inputs
    → Fresh s
    → Counts n c s
    → (t : Monitor) × (passes fl inputs s ≡ some t)
      × Counts (n + length inputs) (c + total_reports inputs) t
      × Fresh t
passes-Counts fl [] n c s m l p f h = (s, refl, ground arith, f)
passes-Counts fl (i ∷ inputs) n c s m l p f h =
    let (x, e, q) = pass-Counts fl i s (omega arith) (omega arith) h in
    let (t, d, k, g) =
      passes-Counts fl inputs (n + 1) (c + reports i) x.0 (omega arith) (omega arith) p.1
        (pass-Fresh fl i s p.0 f e) q in
    (t, simp e d, ground arith, g)

-- The window of a pass that closes it.
closes :
    (serial : Bool) (s : Monitor) {c : ℕ} {t : Monitor} {sent : List Frame} {line : List ℕ}
    → Counts 22000 c s
    → window serial s ≡ some (t, sent, line)
    → Counts 0 0 t
unfolding window send_charge_command
closes serial s h e = ground arith

reports-le : (i : Input) → reports i ≤ 1
reports-le i = ground arith

closing_pass :
    (fl : DashFloats) (i : Input) (s : Monitor) {c : ℕ} (r : Option (Monitor × List Frame × List ℕ))
    → window i.serial s ≡ r
    → r ≢ none
    → Counts 22000 c s
    → (x : Monitor × Output) × (loop fl i s ≡ some x) × Counts 0 (0 + reports i) x.0
unfolding loop
closing_pass fl i s none e d h = absurd (d refl)
closing_pass fl i s (some (t, sent, line)) e d h =
    simp e
      (after_window-Counts fl i t sent line (omega (arith, reports-le i)) (closes i.serial s h e))

-- A whole window, from a state at its begin that counts `c` reports, over 22000 passes in which
-- between 1 and 16 reports of chargers are counted in all, is defined, and so is the pass that closes
-- it. That one leaves a state at the begin of the next window, which counts its own report. So the
-- monitor neither divides by zero nor leaves its list while the chargers report so often.
pub whole_window_defined :
    (fl : DashFloats) (inputs : List Input) (last : Input) (c : ℕ) (s : Monitor)
    → length inputs ≡ 22000
    → 0 < c + total_reports inputs
    → c + total_reports inputs ≤ 16
    → All IsInput inputs
    → IsInput last
    → Fresh s
    → Counts 0 c s
    → (t : Monitor) × (x : Monitor × Output) × (passes fl inputs s ≡ some t)
      × (loop fl last t ≡ some x)
      × Counts 0 (reports last) x.0
      × Fresh x.0
whole_window_defined fl inputs last c s n lo hi p q f h =
    let (t, e, k, g) = passes-Counts fl inputs 0 c s (omega (arith, n)) (omega (arith, hi)) p f h in
    let closed : Counts 22000 (c + total_reports inputs) t = ground arith in
    let goes : window last.serial t ≢ none = λ z.
      absurd
        (omega (arith, lo, closed.connected_eq, ((window-none_iff last.serial t g).0 z).nobody)) in
    let (x, d, r) = closing_pass fl last t (window last.serial t) refl goes closed in
    (t, x, e, d, ground arith, pass-Fresh fl last t q g d)
