-- ===== src/Integrated/Grants.antt =====
-- What a call of `setChargingAmps` of v2.6/v2.6.ino grants to the chargers.
use scv2_sketches.Prelude.{
  ℕ, ◌-◌, ◌*◌, ◌/◌, ◌≤◌, ◌<◌, Bool, false, ◌&&◌, some, List, ◌≡◌, refl, sym, ◌∙◌, subst, slt32, u16,
  sext, arith,
}
use native.Mathlib.Nat.{div-mul-le_self}
use scv2_sketches.SuperCharger.Sharing.{mul_chain, sext_id}
use scv2_sketches.Integrated.Tables.{Row}
use scv2_sketches.Integrated.State.{Controller}
use scv2_sketches.Integrated.Charging.{
  raise_volts, pack_c_rate, ramp, stop_below, station_limit, charge_watts, over_current, limit_amps,
  prepare, set_charging_amps,
}
use scv2_sketches.Integrated.Limits.{amps_of, grant-some}

-- A pack draws more than its capacity in one hour.
abbrev pub over : ℕ → ℕ → Bool
over ah amps = slt32 0 ah && slt32 ah amps

-- What the preparation of a call keeps.
pub record Prepared (s t : Controller) : Type 0 where
  pub station : t.max_station_watts ≡ s.max_station_watts
  pub plus : t.c_plus ≡ s.c_plus
  pub count : t.charger_count ≡ s.charger_count
  pub monolith_ah : t.monolith_ah ≡ s.monolith_ah
  pub monolith_amps : t.monolith_amps ≡ s.monolith_amps
  pub power_tank_ah : t.power_tank_ah ≡ s.power_tank_ah
  pub power_tank_amps : t.power_tank_amps ≡ s.power_tank_amps
  pub delay : t.delay_itteration ≡ s.delay_itteration

module _ {s : Controller} where
  raise_volts-Prepared :
      (pack : ℕ) (t : Controller) → Prepared s t → Prepared s (raise_volts pack t)
  unfolding raise_volts
  raise_volts-Prepared pack t h = ground arith

  pack_c_rate-Prepared : (t : Controller) → Prepared s t → Prepared s (pack_c_rate t)
  unfolding pack_c_rate
  pack_c_rate-Prepared t h = ground arith

  ramp-Prepared : (t : Controller) → Prepared s t → Prepared s (ramp t)
  unfolding ramp
  ramp-Prepared t h = ground arith

same : (s : Controller) → Prepared s s
same s = record {
  station = refl;
  plus = refl;
  count = refl;
  monolith_ah = refl;
  monolith_amps = refl;
  power_tank_ah = refl;
  power_tank_amps = refl;
  delay = refl;
}

pub prepare-Prepared : (s : Controller) → Prepared s (prepare s)
unfolding prepare
prepare-Prepared s = ramp-Prepared _ (
    pack_c_rate-Prepared _ (
      raise_volts-Prepared s.power_tank_volts _ (raise_volts-Prepared s.monolith_volts s (same s))))

pub charge_watts-le :
    (past_end : List Row) (s : Controller) → charge_watts past_end s ≤ s.max_station_watts
unfolding charge_watts station_limit
charge_watts-le past_end s = ground arith

pub limit_amps-le :
    (s : Controller) (amps : ℕ)
    → s.c_plus ≡ 0
    → s.c_rate < 0x8000_0000
    → amps < 0x1_0000
    → over s.monolith_ah s.monolith_amps ≡ false
    → over s.power_tank_ah s.power_tank_amps ≡ false
    → (limit_amps s amps ≤ amps) × (limit_amps s amps ≤ s.c_rate)
unfolding limit_amps over_current
limit_amps-le s amps p c a m t = ground arith

pub set_charging_amps-result :
    (past_end : List Row) (s : Controller) {t : Controller}
    → s.charger_count < 0x8000_0000
    → set_charging_amps past_end s ≡ some t
    → t ≡ record (prepare s) {
      watts = charge_watts past_end (prepare s);
      bike_amps = amps_of (prepare s) (charge_watts past_end (prepare s));
      charging_amps =
          amps_of (prepare s) (charge_watts past_end (prepare s)) / (prepare s).charger_count;
    }
unfolding set_charging_amps
set_charging_amps-result past_end s c e =
    grant-some (charge_watts past_end (prepare s)) (prepare s)
      (omega (arith, (prepare-Prepared s).count)) e

pub amps_of-le :
    (s : Controller) (w : ℕ)
    → s.volts < 0x8000
    → amps_of s w ≤ u16 (w / sext s.volts)
    → amps_of s w ≤ w / s.volts
amps_of-le s w v h = omega (arith, subst (λ x. amps_of s w ≤ u16 (w / x)) (sext_id s.volts v) h)

-- The watts of a state are at most the station's, and what its chargers draw is at most these watts
-- and at most the C rate.
abbrev pub Drawn : Controller → Type 0
Drawn t =
    (t.watts ≤ t.max_station_watts)
    × (t.charging_amps * t.charger_count * t.volts ≤ t.watts)
    × (t.charging_amps * t.charger_count ≤ t.c_rate)

-- A defined call, without 1C+ and with no pack that draws more than 1 C, sets watts that are at most
-- the station's; the chargers together draw at most these watts, and at most the C rate.
pub granted_within_station :
    (past_end : List Row) (s : Controller) {t : Controller}
    → s.charger_count < 0x8000_0000
    → (prepare s).volts < 0x8000
    → (prepare s).c_rate < 0x8000_0000
    → s.c_plus ≡ 0
    → over s.monolith_ah s.monolith_amps ≡ false
    → over s.power_tank_ah s.power_tank_amps ≡ false
    → set_charging_amps past_end s ≡ some t
    → Drawn t
granted_within_station past_end s {t} c v r p m b e =
    let q = prepare s in
    let w = charge_watts past_end q in
    let k = prepare-Prepared s in
    let l =
      limit_amps-le q (u16 (w / sext q.volts)) (k.plus ∙ p) r (omega arith)
        (rw (k.monolith_ah, k.monolith_amps) m) (rw (k.power_tank_ah, k.power_tank_amps) b) in
    subst Drawn (sym (set_charging_amps-result past_end s c e)) (
      charge_watts-le past_end q,
      mul_chain (amps_of q w / q.charger_count * q.charger_count) (amps_of q w) q.volts w
          (div-mul-le_self (amps_of q w) q.charger_count) (amps_of-le q w v l.0),
      omega (arith, div-mul-le_self (amps_of q w) q.charger_count, l.1),
    )

stopped : (past_end : List Row) (s : Controller) → s.volts ≤ 500 → charge_watts past_end s ≡ 0
unfolding charge_watts station_limit stop_below
stopped past_end s h = ground arith

overridden :
    (s : Controller) (amps : ℕ)
    → s.c_plus ≡ 0
    → 2 ≤ s.power_tank_ah
    → s.power_tank_ah < 6000
    → s.power_tank_ah < s.power_tank_amps
    → s.power_tank_amps ≤ 0x8000
    → limit_amps s amps ≡ (s.power_tank_ah - 2) * 10
unfolding limit_amps over_current
overridden s amps p l h o m = ground arith

-- At 50.0 V or less a defined call stops the charge by its watts, but when the power tank draws
-- more than its capacity in one hour, without 1C+, the chargers are granted ten times that capacity
-- less two, shared among them, all the same.
pub over_current_beats_stop :
    (past_end : List Row) (s : Controller) {t : Controller}
    → s.charger_count < 0x8000_0000
    → (prepare s).volts ≤ 500
    → s.c_plus ≡ 0
    → 2 ≤ s.power_tank_ah
    → s.power_tank_ah < 6000
    → s.power_tank_ah < s.power_tank_amps
    → s.power_tank_amps ≤ 0x8000
    → set_charging_amps past_end s ≡ some t
    → (t.watts ≡ 0) × (t.charging_amps ≡ (s.power_tank_ah - 2) * 10 / s.charger_count)
over_current_beats_stop past_end s {t} c v p l h o m e =
    let q = prepare s in
    let k = prepare-Prepared s in
    let w = charge_watts past_end q in
    let x =
      overridden q (u16 (w / sext q.volts)) (k.plus ∙ p) (omega (arith, k.power_tank_ah))
        (omega (arith, k.power_tank_ah)) (omega (arith, k.power_tank_ah, k.power_tank_amps))
        (omega (arith, k.power_tank_amps)) in
    subst
      (λ (u : Controller).
        (u.watts ≡ 0) × (u.charging_amps ≡ (s.power_tank_ah - 2) * 10 / s.charger_count))
      (sym (set_charging_amps-result past_end s c e))
      (stopped past_end q v, rw (x, k.power_tank_ah, k.count) refl)
