-- ===== src/V3/Station.antt =====
-- What the chargers draw after a pass of the sketch v3 (v3/v3.ino), end to end: from the frames of
-- both buses to the heartbeat that the chargers read.
use scv2_sketches.Prelude.{ℕ, ◌*◌, ◌≤◌, ◌<◌, get_elem?, some, [], ◌≡◌, sym, subst, Frame, arith}
use native.Mathlib.Nat.{le_trans, mul-le-mul_right}
use scv2_sketches.Scv2
use scv2_sketches.SuperCharger.State.{Setup, Charger}
use scv2_sketches.SuperCharger.Charging.{set_charging_amps}
use scv2_sketches.SuperCharger.Heartbeat.{super_charge}
use scv2_sketches.SuperCharger.Sharing.{
  station_limit_idle, set_charging_amps-some, shared_within_limits,
}
use scv2_sketches.V3.State.{Bike}
use scv2_sketches.V3.BikeLoop.{Floats}
use scv2_sketches.V3.Phone.{poll}
use scv2_sketches.V3.Main.{Input, Output, loop}
use scv2_sketches.V3.Branches.{seen, heartbeat_after, sent_after, IfDefined, loop-IfDefined}

-- The amps that a charger reads in a heartbeat, for each of the chargers, at the voltage.
abbrev pub Fits : Charger → Frame → Type 0
Fits c f = Scv2.amps f * c.charger_count * c.volts ≤ c.max_station_watts

-- The amps of the heartbeat are those of the charger, or less where they do not fit in two bytes.
super_charge-Fits :
    (c : Charger)
    → c.charging_amps * c.charger_count * c.volts ≤ c.max_station_watts
    → Fits (super_charge c) (super_charge c).heartbeat
unfolding super_charge Scv2.amps
super_charge-Fits c h =
    le_trans (mul-le-mul_right c.volts (mul-le-mul_right c.charger_count (omega arith))) h

-- A call of `setChargingAmps` grants what fits in the station's watts.
set_charging_amps-Fits :
    (k : Setup) (j volts rate : ℕ) (s : Charger) {t : Charger}
    → get_elem? k.volts_table j ≡ some (volts, rate)
    → s.charger_count < 0x8000_0000
    → s.volts < 0x8000
    → s.c_rate < 0x8000_0000
    → s.c_plus ≡ 0
    → set_charging_amps k s ≡ some t
    → t.charging_amps * t.charger_count * t.volts ≤ t.max_station_watts
set_charging_amps-Fits k j volts rate s {t} row c v r p e =
    let eq = set_charging_amps-some k s c e in
    let limits = shared_within_limits k s {t = t} c v r p e in
    let idle = station_limit_idle k s j volts rate row in
    subst (λ (u : Charger). u.charging_amps * u.charger_count * u.volts ≤ u.max_station_watts)
      (sym eq)
      (le_trans
        (subst (λ (u : Charger). u.charging_amps * s.charger_count * s.volts ≤ u.watts) eq limits.0)
        idle.1)

-- A heartbeat, if one is sent, fits.
abbrev FitsIfSent : Bike → Output → Type 0
FitsIfSent t o = (f : Frame) → o.heartbeat ≡ some f → Fits t.charger f

sent-FitsIfSent :
    (fl : Floats) (i : Input) (s : Bike) (c : Charger)
    → i.polled ≡ []
    → c.charging_amps * c.charger_count * c.volts ≤ c.max_station_watts
    → FitsIfSent (heartbeat_after fl i s c) (sent_after fl i s c)
unfolding poll
sent-FitsIfSent fl i s c p h =
    simp p (λ f b. subst (Fits (super_charge c)) (cc b) (super_charge-Fits c h))

-- A pass of the sketch v3 that sends a heartbeat, without 1C+ and with no phone that writes between
-- the computation and the heartbeat: the amps that a charger reads in it, for each of the chargers
-- counted, are at the pass's voltage at most the station's watts. The voltage table has a row, and
-- the count, the voltage and the C rate at the time of the computation are not negative.
pub heartbeat_within_station :
    (k : Setup) (j volts rate : ℕ) (fl : Floats) (i : Input) (s : Bike) {t : Bike} {o : Output}
    (f : Frame)
    → get_elem? k.volts_table j ≡ some (volts, rate)
    → i.polled ≡ []
    → (seen fl i s).charger_count < 0x8000_0000
    → (seen fl i s).volts < 0x8000
    → (seen fl i s).c_rate < 0x8000_0000
    → (seen fl i s).c_plus ≡ 0
    → loop k fl i s ≡ some (t, o)
    → o.heartbeat ≡ some f
    → Scv2.amps f * t.charger.charger_count * t.charger.volts ≤ t.charger.max_station_watts
heartbeat_within_station k j volts rate fl i s f row p c v r plus e b =
    subst (IfDefined FitsIfSent) e
      (loop-IfDefined FitsIfSent k fl i s
        (λ d q.
          sent-FitsIfSent fl i s d p
            (set_charging_amps-Fits k j volts rate (seen fl i s) row c v r plus q))
        (λ g q. absurd (cc q)))
      f b
