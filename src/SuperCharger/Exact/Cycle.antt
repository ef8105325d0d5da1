-- ===== src/SuperCharger/Exact/Cycle.antt =====
-- A call of `setChargingAmps` (libraries/DIGINOW_SUPERCHARGER/SC.h) computes what the exact
-- specification says.
use scv2_sketches.Prelude.{
  ℕ, ◌*◌, ◌/◌, ◌≤◌, ◌<◌, if◌then◌else◌, ltb, min, some, ◌≡◌, refl, ◌∙◌, ap, u16, sext, arith,
}
use native.Mathlib.Nat.{mul_comm, div-le_of_le-mul, lt_of_le_of_lt, lt_of_lt_of_le}
use scv2_sketches.SuperCharger.State.{Setup, Charger}
use scv2_sketches.SuperCharger.Charging.{
  ramp, slow_at_end, stop_out_of_range, cutbacks, charge_watts, limit_to_c_rate, set_charging_amps,
}
use scv2_sketches.SuperCharger.Cutback.Least.{least, least-le, cutbacks-eq-least}
use scv2_sketches.SuperCharger.Sharing.{sext_id, granted, set_charging_amps-at, station_limit_idle}
use scv2_sketches.SuperCharger.Exact.{
  rates, top_rate, wanted, held, exact_limit, exact_amps, exact_watts, exact_share, exact_cycle,
  IsSetup, IsCalm,
}
use scv2_sketches.SuperCharger.Exact.Rates.{least-exact, exact_amps-lt}

-- The cutbacks of the ramped watts.
cutbacks-exact :
    (k : Setup) (s : Charger) (w : ℕ)
    → IsSetup k
    → IsCalm s
    → cutbacks k s w ≡ min w (exact_limit s (least top_rate (rates k s)))
cutbacks-exact k s w c h = cutbacks-eq-least k s w ∙ least-exact k s w c h

ramp-exact : (s : Charger) → IsCalm s → ramp s ≡ wanted s
unfolding ramp
ramp-exact s h = let r = h.ramp_lt in let w = h.watts_lt in ground arith

ends-exact :
    (k : Setup) (s : Charger) (watts : ℕ)
    → IsSetup k
    → IsCalm s
    → stop_out_of_range k s (slow_at_end s watts) ≡ held k s watts
unfolding stop_out_of_range slow_at_end
ends-exact k s watts c h =
    let m = c.volts_max_lt in
    let r = h.ramp_lt in let v = h.volts_lt in rw (sext_id s.volts v) (ground arith)

charge_watts-exact :
    (k : Setup) (s : Charger) → IsSetup k → IsCalm s → charge_watts k s ≡ exact_watts k s
charge_watts-exact k s c h =
    (station_limit_idle k s 0 (c.row.0) (c.row.1) (rw (c.volts_table) refl)).0
    ∙ ends-exact k s (cutbacks k s (ramp s)) c h
    ∙ ap (held k s) (ap (cutbacks k s) (ramp-exact s h) ∙ cutbacks-exact k s (wanted s) c h)

lowest_rate-le : (k : Setup) (s : Charger) → least top_rate (rates k s) ≤ top_rate
lowest_rate-le k s = least-le top_rate (rates k s)

held-le : (k : Setup) (s : Charger) (watts : ℕ) → held k s watts ≤ watts
held-le k s watts = ground arith

-- The watts are those of amps that fit in a short, and at most the station's.
pub exact_watts-le :
    (k : Setup) (s : Charger)
    → (exact_watts k s ≤ s.volts * exact_amps s (least top_rate (rates k s)))
      × (exact_watts k s ≤ s.max_station_watts)
exact_watts-le k s =
    let rate = least top_rate (rates k s) in
    let n = held-le k s (min (wanted s) (exact_limit s rate)) in
    let e = mul_comm s.volts (exact_amps s rate) in (omega (arith, n, e), omega (arith, n))

share-exact :
    (s : Charger) (amps : ℕ)
    → s.c_rate < 0x4000
    → amps < 0x1_0000
    → limit_to_c_rate s (u16 amps) ≡ (if ltb s.c_plus 1 then min amps s.c_rate else amps)
unfolding limit_to_c_rate
share-exact s amps c a = ground arith

granted-exact :
    (k : Setup) (s : Charger)
    → IsSetup k
    → IsCalm s
    → granted k s / s.charger_count ≡ exact_share k s
granted-exact k s c h =
    let a = exact_amps-lt s (least top_rate (rates k s)) h (lowest_rate-le k s) in
    let d = div-le_of_le-mul s.volts ((exact_watts-le k s).0) in
    let e = ap (λ w. limit_to_c_rate s (u16 (w / sext s.volts))) (charge_watts-exact k s c h) in
    let v =
      ap (λ v. limit_to_c_rate s (u16 (exact_watts k s / v))) (sext_id s.volts (h.volts_lt)) in
    let m =
      share-exact s (exact_watts k s / s.volts) (h.c_rate_lt)
        (lt_of_le_of_lt d (lt_of_lt_of_le a (omega arith))) in
    ap (λ g. g / s.charger_count) (e ∙ v ∙ m)

-- A call of `setChargingAmps` with a voltage that is known and chargers that answer is defined and
-- computes the exact cycle: no machine word wraps, no signed value turns negative, and no loop and no
-- branch does anything else.
pub cycle_exact :
    (k : Setup) (s : Charger)
    → IsSetup k
    → IsCalm s
    → set_charging_amps k s ≡ some (exact_cycle k s)
cycle_exact k s c h =
    set_charging_amps-at k s (λ (e : s.volts ≡ 0). absurd (omega (arith, h.volts_gt))) h.chargers
      h.chargers_lt
    ∙ ap (λ a. some (record s { watts = charge_watts k s; charging_amps = a }))
        (granted-exact k s c h)
    ∙ ap (λ w. some (record s { watts = w; charging_amps = exact_share k s }))
        (charge_watts-exact k s c h)
