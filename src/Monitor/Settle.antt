-- ===== src/Monitor/Settle.antt =====
-- The smoothing of the chargers' voltage (`setVoltageDiff` of
-- Zero_charge_monitoring/Zero_charge_monitoring.ino).
use scv2_sketches.Prelude.{
  true, ℕ, zero, suc, ◌+◌, ◌-◌, ◌*◌, ◌^◌, ◌≤◌, ◌<◌, ◌≡◌, ◌∙◌, refl, ap, leb, Bool-cases, inl, inr,
  Frame, arith,
}
use scv2_sketches.Monitor.State.{Monitor}
use scv2_sketches.Monitor.Command.{is_ready_to_charge, set_voltage_diff, set_output_volts}

-- How far the smoothed voltage is from the one that the chargers report.
abbrev pub gap : Monitor → ℕ
gap s =
    (s.charger_voltage_holder - s.charger_voltage) + (s.charger_voltage - s.charger_voltage_holder)

-- `setVoltageDiff` a number of times.
abbrev pub settle : Frame → ℕ → Monitor → Monitor
settle junk zero s = s
settle junk (suc n) s = settle junk n (set_voltage_diff junk s).0

-- Ready to charge, with voltages whose sum does not wrap.
pub record Ready (s : Monitor) : Type 0 where
  pub ready : is_ready_to_charge s ≡ true
  pub holder_le : s.charger_voltage_holder ≤ 6553500
  pub charger_le : s.charger_voltage ≤ 6553500

step-Ready : (junk : Frame) (s : Monitor) → Ready s → Ready (set_voltage_diff junk s).0
unfolding set_voltage_diff set_output_volts is_ready_to_charge
step-Ready junk s h = ground arith

step-gap : (junk : Frame) (s : Monitor) → Ready s → gap (set_voltage_diff junk s).0 * 2 ≤ gap s + 1
unfolding set_voltage_diff set_output_volts is_ready_to_charge
step-gap junk s h = ground (arith, h.ready)

doubled : (p a b c : ℕ) → p * a < b + p → b * 2 ≤ c + 1 → 2 * p * a < c + 2 * p
doubled p a b c h k = grind arith

power_suc : (n : ℕ) → 2 ^ suc n ≡ 2 * 2 ^ n
power_suc n = grind arith

settle-gap :
    (junk : Frame) (n : ℕ) (s : Monitor) → Ready s → 2 ^ n * gap (settle junk n s) < gap s + 2 ^ n
settle-gap junk zero s h = omega arith
settle-gap junk (suc n) s h =
    let next = (set_voltage_diff junk s).0 in
    rw (power_suc n) (
      doubled (2 ^ n) (gap (settle junk n next)) (gap next) (gap s)
        (settle-gap junk n next (step-Ready junk s h)) (step-gap junk s h))

step-holder :
    (junk : Frame) (s : Monitor)
    → (set_voltage_diff junk s).0.charger_voltage_holder ≡ s.charger_voltage_holder
unfolding set_voltage_diff set_output_volts
step-holder junk s = ground arith

settle-holder :
    (junk : Frame) (n : ℕ) (s : Monitor)
    → (settle junk n s).charger_voltage_holder ≡ s.charger_voltage_holder
settle-holder junk zero s = refl
settle-holder junk (suc n) s = settle-holder junk n (set_voltage_diff junk s).0 ∙ step-holder junk s

-- At the twenty-third time the bound is below two thousandths.
at_23 : (m g d : ℕ) → m ≡ 23 → 2 ^ m * g < d + 2 ^ m → d ≤ 6553500 → g ≤ 1
at_23 m g d e h l = let p = ap (λ k. 2 ^ k) e in grind arith

settled : (junk : Frame) (n : ℕ) (s : Monitor) → 23 ≤ n → Ready s → gap (settle junk n s) ≤ 1
settled junk zero s l h = absurd (omega arith)
settled junk (suc n) s l h = elim (Bool-cases (leb 23 n)) [
  | inl e ↦ settled junk n (set_voltage_diff junk s).0 (ground arith) (step-Ready junk s h)
  | inr e ↦
      at_23 (suc n) (gap (settle junk (suc n) s)) (gap s) (ground arith)
        (settle-gap junk (suc n) s h) (omega (arith, h.holder_le, h.charger_le))
]

-- While the monitor is ready to charge, `setVoltageDiff` halves how far the smoothed voltage of the
-- chargers is from the reported one, up to rounding: after 23 times or more they differ by at most
-- 0.001 V, and what was reported has not changed.
pub smoothing_settles :
    (junk : Frame) (n : ℕ) (s : Monitor)
    → 23 ≤ n
    → Ready s
    → (gap (settle junk n s) ≤ 1)
      × ((settle junk n s).charger_voltage_holder ≡ s.charger_voltage_holder)
smoothing_settles junk n s l h = (settled junk n s l h, settle-holder junk n s)
