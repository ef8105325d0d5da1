-- ===== src/SuperCharger/Exact/Climb.antt =====
-- The watts of SC.h (libraries/DIGINOW_SUPERCHARGER) climb to what the tables allow and stay there.
use scv2_sketches.Prelude.{
  ℕ, zero, suc, ◌+◌, ◌*◌, ◌≤◌, ◌<◌, ltb, if◌then◌else◌, min, some, ◌≡◌, refl, ◌∙◌, ap, arith,
}
use scv2_sketches.SuperCharger.State.{Setup, Charger}
use scv2_sketches.SuperCharger.Taper.{cycles}
use scv2_sketches.SuperCharger.Cutback.Least.{least}
use scv2_sketches.SuperCharger.Exact.{
  rates, top_rate, wanted, held, exact_limit, exact_watts, exact_cycle, IsSetup, IsCalm,
}
use scv2_sketches.SuperCharger.Exact.Cycle.{cycle_exact}
use scv2_sketches.SuperCharger.Exact.Runs.{exact_cycle-IsCalm}

-- What the lowest of the rates allows.
abbrev pub allowance : Setup → Charger → ℕ
allowance k s = exact_limit s (least top_rate (rates k s))

-- Below the end voltage, and inside the range.
pub record IsCharging (k : Setup) (s : Charger) : Type 0 where
  pub below_end : s.volts < s.output_volts_end
  pub below_max : s.volts ≤ k.volts_max
  pub above_min : 500 ≤ s.volts
  pub watts_le : s.watts ≤ allowance k s

held-id : (k : Setup) (s : Charger) (watts : ℕ) → IsCharging k s → held k s watts ≡ watts
held-id k s watts h = ground (arith, h.below_end, h.below_max, h.above_min)

wanted-min :
    (watts step station limit : ℕ)
    → watts ≤ limit
    → limit ≤ station
    → min (if ltb watts station then watts + step else watts) limit ≡ min (watts + step) limit
wanted-min watts step station limit w l = ground arith

allowance-le : (k : Setup) (s : Charger) → allowance k s ≤ s.max_station_watts
allowance-le k s = omega arith

step_up :
    (k : Setup) (s : Charger)
    → IsCharging k s
    → exact_watts k s ≡ min (s.watts + s.ramp_rate) (allowance k s)
step_up k s h =
    held-id k s (min (wanted s) (allowance k s)) h
    ∙ wanted-min s.watts s.ramp_rate s.max_station_watts (allowance k s) h.watts_le
        (allowance-le k s)

min_twice :
    (watts step n limit : ℕ)
    → min (min (watts + step) limit + n * step) limit ≡ min (watts + suc n * step) limit
min_twice watts step n limit = omega arith

-- With a voltage row, a maximum voltage that is not negative, and no rate above 3 C in the tables and
-- in the memory behind them: from a state in which a voltage is known, chargers are counted, the C
-- rate is below 1638.4 A, no other value is near the end of its type, and the watts are at most what
-- the lowest rate of the tables allows, while the battery is below its end voltage and inside the
-- range, `n` calls are defined, and the watts are then `n` ramp steps up, or exactly what that rate
-- allows.
pub climbs_to_allowance :
    (k : Setup) (n : ℕ) (s : Charger)
    → IsSetup k
    → IsCalm s
    → IsCharging k s
    → (t : Charger) × (cycles k n s ≡ some t)
      × (t.watts ≡ min (s.watts + n * s.ramp_rate) (allowance k s))
climbs_to_allowance k zero s c h g = (s, refl, omega (arith, g.watts_le))
climbs_to_allowance k (suc n) s c h g =
    let (t, e, w) = climbs_to_allowance k n (exact_cycle k s) c (exact_cycle-IsCalm k s h) record {
      below_end = g.below_end;
      below_max = g.below_max;
      above_min = g.above_min;
      watts_le = omega (arith, step_up k s g);
    } in
    (
      t,
      rw (cycle_exact k s c h) e,
      w
          ∙ ap (λ x. min (x + n * s.ramp_rate) (allowance k s)) (step_up k s g)
          ∙ min_twice s.watts s.ramp_rate n (allowance k s),
    )
