-- ===== src/SuperCharger/Sharing.antt =====
-- Properties of a whole call of `setChargingAmps` (libraries/DIGINOW_SUPERCHARGER/SC.h): when it is
-- defined, what it grants to each charger, and when it stops the charge.
use scv2_sketches.Prelude.{
  ℕ, ◌*◌, ◌/◌, ◌≤◌, ◌<◌, none, some, get_elem?, ◌≡◌, ◌≢◌, ◌↔◌, ◌⊎◌, u16, sext, arith,
}
use native.Mathlib.Nat.{le_trans, mul-le-mul_right, div-mul-le_self}
use scv2_sketches.SuperCharger.State.{Setup, Charger}
use scv2_sketches.SuperCharger.Charging.{
  ramp, max_watts, slow_at_end, stop_out_of_range, station_limit, cutbacks, charge_watts,
  total_amps, limit_to_c_rate, share, set_charging_amps,
}
use scv2_sketches.SuperCharger.Cutback.Bounds.{cutbacks-le-row, max_watts-le-station}

slow_at_end-le : (s : Charger) (watts : ℕ) → slow_at_end s watts ≤ watts
unfolding slow_at_end
slow_at_end-le s watts = ground arith

pub stop_out_of_range-le :
    (k : Setup) (s : Charger) (watts : ℕ) → stop_out_of_range k s watts ≤ watts
unfolding stop_out_of_range
stop_out_of_range-le k s watts = ground arith

station_limit-id :
    (s : Charger) (watts : ℕ) → watts ≤ s.max_station_watts → station_limit s watts ≡ watts
unfolding station_limit
station_limit-id s watts h = ground arith

-- The watts of a cycle before the last limit.
abbrev unlimited : Setup → Charger → ℕ
unlimited k s = stop_out_of_range k s (slow_at_end s (cutbacks k s (ramp s)))

unlimited-le : (k : Setup) (s : Charger) → unlimited k s ≤ cutbacks k s (ramp s)
unlimited-le k s = omega (
  arith,
  stop_out_of_range-le k s (slow_at_end s (cutbacks k s (ramp s))),
  slow_at_end-le s (cutbacks k s (ramp s)),
)

module _ (k : Setup) (s : Charger) (i volts rate : ℕ)
    (row : get_elem? k.volts_table i ≡ some (volts, rate)) where
  unlimited-le-row : unlimited k s ≤ max_watts s rate
  unlimited-le-row = omega (arith, unlimited-le k s, cutbacks-le-row k s (ramp s) i volts rate row)

  charge_watts-unlimited : charge_watts k s ≡ unlimited k s
  unfolding charge_watts
  charge_watts-unlimited =
      station_limit-id s (unlimited k s)
        (omega (arith, unlimited-le-row, max_watts-le-station s rate))

  -- With a voltage table that is not empty (it has a row at `i`), the watts of a cycle are at most
  -- the station's, so the last limit of the code, which leaves room for the 12 V supplies, never
  -- acts; and they are at most what that row allows, at any voltage, also one below the row's
  -- threshold.
  pub station_limit_idle :
      (charge_watts k s ≡ stop_out_of_range k s (slow_at_end s (cutbacks k s (ramp s))))
      × (charge_watts k s ≤ s.max_station_watts)
      × (charge_watts k s ≤ max_watts s rate)
  station_limit_idle = (
    charge_watts-unlimited,
    omega (arith, charge_watts-unlimited, unlimited-le-row, max_watts-le-station s rate),
    omega (arith, charge_watts-unlimited, unlimited-le-row),
  )

-- `setChargingAmps` is undefined, for it divides by zero, exactly while the battery's voltage or
-- the number of chargers is zero; both are zero in the state that the globals start in.
pub set_charging_amps-none_iff :
    (k : Setup) (s : Charger)
    → (set_charging_amps k s ≡ none) ↔ ((s.volts ≡ 0) ⊎ (s.charger_count ≡ 0))
unfolding set_charging_amps total_amps share
set_charging_amps-none_iff k s = ((λ e. ground arith), (λ e. ground arith))

limit_to_c_rate-le :
    (s : Charger) (amps : ℕ)
    → s.c_rate < 0x8000_0000
    → amps < 0x1_0000
    → limit_to_c_rate s amps ≤ amps
unfolding limit_to_c_rate
limit_to_c_rate-le s amps c a = ground arith

limit_to_c_rate-le-c_rate :
    (s : Charger) (amps : ℕ)
    → s.c_plus ≡ 0
    → s.c_rate < 0x8000_0000
    → amps < 0x1_0000
    → limit_to_c_rate s amps ≤ s.c_rate
unfolding limit_to_c_rate
limit_to_c_rate-le-c_rate s amps p c a = ground arith

-- What a defined call has computed.
abbrev pub granted : Setup → Charger → ℕ
granted k s = limit_to_c_rate s (u16 (charge_watts k s / sext s.volts))

pub set_charging_amps-some :
    (k : Setup) (s : Charger) {t : Charger}
    → s.charger_count < 0x8000_0000
    → set_charging_amps k s ≡ some t
    → t ≡ record s { watts = charge_watts k s; charging_amps = granted k s / s.charger_count }
unfolding set_charging_amps total_amps share
set_charging_amps-some k s c e = ground arith

-- A call that divides by no zero, with a positive number of chargers.
pub set_charging_amps-at :
    (k : Setup) (s : Charger)
    → s.volts ≢ 0
    → 0 < s.charger_count
    → s.charger_count < 0x8000_0000
    → set_charging_amps k s
      ≡ some (record s { watts = charge_watts k s; charging_amps = granted k s / s.charger_count })
unfolding set_charging_amps total_amps share
set_charging_amps-at k s v c c' = ground arith

pub mul_chain : (x g v w : ℕ) → x ≤ g → g ≤ w / v → x * v ≤ w
mul_chain x g v w h k = le_trans (mul-le-mul_right v (le_trans h k)) (div-mul-le_self w v)

pub sext_id : (v : ℕ) → v < 0x8000 → sext v ≡ v
sext_id v h = ground arith

pub granted-le :
    (k : Setup) (s : Charger)
    → s.volts < 0x8000
    → s.c_rate < 0x8000_0000
    → granted k s ≤ charge_watts k s / s.volts
granted-le k s v r =
    rw (sext_id s.volts v)
      (omega (arith, limit_to_c_rate-le s (u16 (charge_watts k s / s.volts)) r (omega arith)))

-- From a defined call with a positive number of chargers and a voltage and a C rate that are not
-- negative: what the chargers together draw at the battery's voltage is at most the watts of the
-- cycle, and without `CPlus` they are granted at most 1 C together.
pub shared_within_limits :
    (k : Setup) (s : Charger) {t : Charger}
    → s.charger_count < 0x8000_0000
    → s.volts < 0x8000
    → s.c_rate < 0x8000_0000
    → s.c_plus ≡ 0
    → set_charging_amps k s ≡ some t
    → (t.charging_amps * s.charger_count * s.volts ≤ t.watts)
      × (t.charging_amps * s.charger_count ≤ s.c_rate)
shared_within_limits k s {t} c v r p e = rw (set_charging_amps-some k s c e) (
  mul_chain (granted k s / s.charger_count * s.charger_count) (granted k s) s.volts
      (charge_watts k s) (div-mul-le_self _ _) (granted-le k s v r),
  omega (
    arith,
    div-mul-le_self (granted k s) s.charger_count,
    limit_to_c_rate-le-c_rate s (u16 (charge_watts k s / sext s.volts)) p r (omega arith),
  ),
)

module _ (k : Setup) (s : Charger) (v' : s.volts < 0x8000) (m : k.volts_max < 0x8000)
    (out : (s.volts < 500) ⊎ (k.volts_max < s.volts)) where
  charge_watts-stopped : charge_watts k s ≡ 0
  unfolding charge_watts stop_out_of_range station_limit
  charge_watts-stopped = ground arith

  granted-stopped : s.c_rate < 0x8000_0000 → granted k s ≡ 0
  unfolding limit_to_c_rate
  granted-stopped r = rw charge_watts-stopped (ground arith)

-- Outside the voltage range, with a voltage that is positive and chargers that answer, the call is
-- defined and grants no watts and no amps.
pub stops_out_of_range :
    (k : Setup) (s : Charger)
    → 0 < s.volts
    → s.volts < 0x8000
    → 0 < s.charger_count
    → s.charger_count < 0x8000_0000
    → s.c_rate < 0x8000_0000
    → k.volts_max < 0x8000
    → (s.volts < 500) ⊎ (k.volts_max < s.volts)
    → set_charging_amps k s ≡ some (record s { watts = 0; charging_amps = 0 })
stops_out_of_range k s v v' c c' r m out = ground (
  arith,
  set_charging_amps-at k s,
  charge_watts-stopped k s v' m out,
  granted-stopped k s v' m out r,
)
