-- ===== src/SuperCharger/Taper.antt =====
-- The end of a charge by `setChargingAmps` (libraries/DIGINOW_SUPERCHARGER/SC.h), call after call.
use scv2_sketches.Prelude.{
  ℕ, zero, suc, ◌+◌, ◌-◌, ◌*◌, ◌/◌, ◌≤◌, ◌<◌, some, Option, List, get_elem?, ◌≡◌, refl, ap, ◌>>=◌,
  arith,
}
use native.Mathlib.Nat.{mul_comm, le_trans, le-div_iff_mul-le, div-mul-le_self, div-le_of_le-mul}
use scv2_sketches.SuperCharger.Tables.{Row}
use scv2_sketches.SuperCharger.State.{Setup, Charger, zero_setup}
use scv2_sketches.SuperCharger.Charging.{
  ramp, max_amps, max_watts, slow_at_end, cutbacks, charge_watts, set_charging_amps,
}
use scv2_sketches.SuperCharger.Cutback.Bounds.{cutbacks-le, max_amps-le, max_watts-le}
use scv2_sketches.SuperCharger.Sharing.{
  station_limit_idle, stop_out_of_range-le, granted, granted-le, sext_id, set_charging_amps-some,
  set_charging_amps-at,
}

ramp-le : (s : Charger) → ramp s ≤ s.watts + s.ramp_rate
unfolding ramp
ramp-le s = ground arith

-- At the end voltage three ramp steps are taken off, or all watts.
slow_at_end-eq :
    (s : Charger) (watts : ℕ)
    → s.output_volts_end ≤ s.volts
    → s.volts < 0x8000
    → s.ramp_rate * 3 < 0x1_0000_0000
    → slow_at_end s watts ≡ watts - s.ramp_rate * 3
unfolding slow_at_end
slow_at_end-eq s watts e v r = ground arith

-- The conditions of a cycle at the end of a charge.
pub record AtEnd (s : Charger) : Type 0 where
  pub ended : s.output_volts_end ≤ s.volts
  pub positive : 0 < s.volts
  pub volts_lt : s.volts < 0x8000
  pub ramp_lt : s.ramp_rate * 3 < 0x1_0000_0000
  pub chargers : 0 < s.charger_count
  pub chargers_lt : s.charger_count < 0x8000_0000

module _ (k : Setup) (i volts rate : ℕ) (row : get_elem? k.volts_table i ≡ some (volts, rate)) where
  taper_step : (s : Charger) → AtEnd s → charge_watts k s ≤ s.watts - s.ramp_rate * 2
  taper_step s a = omega (
    arith,
    (station_limit_idle k s i volts rate row).0,
    stop_out_of_range-le k s (slow_at_end s (cutbacks k s (ramp s))),
    slow_at_end-eq s (cutbacks k s (ramp s)) a.ended a.volts_lt a.ramp_lt,
    cutbacks-le k s (ramp s),
    ramp-le s,
  )

-- `n` calls, with no frame from the chargers between them.
abbrev pub cycles : Setup → ℕ → Charger → Option Charger
cycles k zero s = some s
cycles k (suc n) s = set_charging_amps k s >>= cycles k n

-- At or above the end voltage, with chargers that answer and a voltage table that has a row at `i`,
-- `n` calls are all defined, and bring the watts to zero if those are at most `n` times twice the
-- ramp rate.
pub taper_reaches_zero :
    (k : Setup) (i volts rate : ℕ)
    → get_elem? k.volts_table i ≡ some (volts, rate)
    → (n : ℕ) (s : Charger) → AtEnd s
    → s.watts ≤ n * (s.ramp_rate * 2)
    → (t : Charger) × (cycles k n s ≡ some t) × (t.watts ≡ 0)
taper_reaches_zero k i volts rate row zero s a h = (s, refl, omega arith)
taper_reaches_zero k i volts rate row (suc n) s a h =
    let step =
      set_charging_amps-at k s (λ (e : s.volts ≡ 0). absurd (omega (arith, a.positive))) a.chargers
        a.chargers_lt in
    let (t, e, z) =
      taper_reaches_zero k i volts rate row n
        (record s { watts = charge_watts k s; charging_amps = granted k s / s.charger_count })
        (record {
          ended = a.ended;
          positive = a.positive;
          volts_lt = a.volts_lt;
          ramp_lt = a.ramp_lt;
          chargers = a.chargers;
          chargers_lt = a.chargers_lt;
        })
        (omega (arith, taper_step k i volts rate row s a)) in
    (t, rw step e, z)

div-le-div : (x y v : ℕ) → x ≤ y → x / v ≤ y / v
div-le-div x y zero h = omega arith
div-le-div x y (suc v) h =
    (le-div_iff_mul-le (omega arith)).1 (le_trans (div-mul-le_self x (suc v)) h)

max_watts-div-le :
    (s : Charger) (rate : ℕ)
    → 0 < s.volts
    → s.volts < 0x8000
    → max_watts s rate / s.volts ≤ max_amps s rate
max_watts-div-le s rate p v =
    div-le_of_le-mul s.volts
      (rw (mul_comm s.volts (max_amps s rate)) (rw (sext_id s.volts v) at (max_watts-le s rate)))

-- With the tables of the Zero motorcycle, which allow 0.2 C above 116.0 V only, a defined call
-- grants all the chargers together at most 0.2 C (a fifth of `C_RATE`) at every positive voltage.
pub fifth_of_c_rate :
    (past_end : List Row) (s : Charger) {t : Charger}
    → 0 < s.volts
    → s.volts < 0x8000
    → s.c_rate < 0x8000_0000
    → s.charger_count < 0x8000_0000
    → set_charging_amps (zero_setup past_end) s ≡ some t
    → t.charging_amps * s.charger_count ≤ s.c_rate / 5
fifth_of_c_rate past_end s p v r c e =
    let k = zero_setup past_end in
    omega (
      arith,
      ap (λ (u : Charger). u.charging_amps * s.charger_count) (set_charging_amps-some k s c e),
      div-mul-le_self (granted k s) s.charger_count,
      granted-le k s v r,
      div-le-div (charge_watts k s) (max_watts s 2) s.volts
          (station_limit_idle k s 9 1160 2 refl).2,
      max_watts-div-le s 2 p v,
      max_amps-le s 2 r (omega arith),
    )
