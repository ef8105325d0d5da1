-- ===== src/V3/Reach.antt =====
-- The sketch v3 (v3/v3.ino) from power up: every heartbeat fits, and every control cycle is the exact
-- one.
use scv2_sketches.Prelude.{ℕ, ◌*◌, ◌≤◌, ◌<◌, some, [], ◌≡◌, refl, sym, subst, Frame, arith}
use native.Mathlib.Nat.{lt_of_le_of_lt, lt_of_lt_of_le}
use scv2_sketches.Scv2
use scv2_sketches.SuperCharger.State.{Setup, Charger}
use scv2_sketches.SuperCharger.Charging.{set_charging_amps}
use scv2_sketches.SuperCharger.Heartbeat.{super_charge}
use scv2_sketches.SuperCharger.Sharing.{station_limit_idle, set_charging_amps-some}
use scv2_sketches.SuperCharger.Exact.{IsSetup}
use scv2_sketches.V3.State.{Bike, power_up}
use scv2_sketches.V3.BikeLoop.{Floats}
use scv2_sketches.V3.Phone.{poll}
use scv2_sketches.V3.Main.{Input, Output, setup, loop}
use scv2_sketches.V3.Rhythm.{counted}
use scv2_sketches.V3.Branches.{seen, heartbeat_after, IfDefined, loop-IfDefined}
use scv2_sketches.V3.Station.{heartbeat_within_station}
use scv2_sketches.V3.Sane.{
  IsSafe, IsSane, IsInput, setup-IsSane, poll-IsSane, counted-IsSane, receive-IsSafe,
}

-- The states before a pass, from power up, where no pack has `cap` amp hours or more.
pub data Reached (cap : ℕ) (k : Setup) (fl : Floats) : Bike → Type 0 where
  started : Reached cap k fl (setup k (power_up k))
  passed :
      (i : Input) (s : Bike) {t : Bike} (o : Output)
      → Reached cap k fl s
      → IsInput cap i
      → loop k fl i s ≡ some (t, o)
      → Reached cap k fl t

module _ {cap : ℕ} (le : cap ≤ 0x8000) (k : Setup) (c : IsSetup k) where
  seen-IsSafe :
      (fl : Floats) (i : Input) (s : Bike) → IsInput cap i → IsSane cap s → IsSafe cap (seen fl i s)
  seen-IsSafe fl i s a h =
      let g =
        receive-IsSafe le i.charger_frames _ a.chargers ((counted-IsSane le fl i s a h).charger) in
      ground arith

  computed-IsSafe :
      (s : Charger) {t : Charger} → IsSafe cap s → set_charging_amps k s ≡ some t → IsSafe cap t
  computed-IsSafe s h e =
      subst (IsSafe cap) (sym (set_charging_amps-some k s h.count_lt e)) record {
        count_lt = h.count_lt;
        plus = h.plus;
        rate_lt = h.rate_lt;
        volts_lt = h.volts_lt;
        station_lt = h.station_lt;
        ramp_eq = h.ramp_eq;
        watts_lt =
            lt_of_le_of_lt (station_limit_idle k s 0 c.row.0 c.row.1 (rw (c.volts_table) refl)).1
              h.station_lt;
      }

  super_charge-IsSane :
      (s : Bike) → IsSane cap s → IsSane cap (record s { charger = super_charge s.charger })
  unfolding super_charge
  super_charge-IsSane s h = ground arith

  heartbeat_after-IsSane :
      (fl : Floats) (i : Input) (s : Bike) (t : Charger)
      → IsInput cap i
      → IsSane cap s
      → IsSafe cap t
      → IsSane cap (heartbeat_after fl i s t)
  heartbeat_after-IsSane fl i s t a h g =
      let u = counted-IsSane le fl i s a h in
      super_charge-IsSane (poll i.polled (record (counted fl i s) { charger = t })) (
        poll-IsSane le i.polled (record (counted fl i s) { charger = t }) a.polled
          (record {
            charger = g;
            ble_count_lt = u.ble_count_lt;
            ble_watts_lt = u.ble_watts_lt;
            monolith_ah_lt = u.monolith_ah_lt;
            tank_ah_lt = u.tank_ah_lt;
          }))

  loop-IsSane :
      (fl : Floats) (i : Input) (s : Bike)
      → IsInput cap i
      → IsSane cap s
      → IfDefined (λ t o. IsSane cap t) (loop k fl i s)
  loop-IsSane fl i s a h =
      loop-IfDefined (λ t o. IsSane cap t) k fl i s
        (λ t e.
          heartbeat_after-IsSane fl i s t a h
            (computed-IsSafe (seen fl i s) (seen-IsSafe fl i s a h) e))
        (counted-IsSane le fl i s a h)

  Reached-IsSane : {fl : Floats} {s : Bike} → 48 < cap → Reached cap k fl s → IsSane cap s
  Reached-IsSane gt started = setup-IsSane le k gt
  Reached-IsSane {fl = fl} gt (passed i s o r a e) =
      subst (IfDefined (λ t o. IsSane cap t)) e (loop-IsSane fl i s a (Reached-IsSane gt r))

-- From power up, after any defined passes, with a phone that writes and frames of both buses that
-- hold no value near the end of its type, and with a voltage row, a maximum voltage that is not
-- negative, and no rate above 3 C in the tables and in the memory behind them: a pass that sends a heartbeat, with no write of the phone between
-- the computation and the heartbeat, sends one in which each of the chargers counted reads
-- amps that are together, at the pass's voltage, at most the station's watts.
pub every_heartbeat_within_station :
    (cap : ℕ) (k : Setup) (fl : Floats) (i : Input) (s : Bike) {t : Bike} {o : Output} (f : Frame)
    → 48 < cap
    → cap ≤ 0x8000
    → IsSetup k
    → Reached cap k fl s
    → IsInput cap i
    → i.polled ≡ []
    → loop k fl i s ≡ some (t, o)
    → o.heartbeat ≡ some f
    → Scv2.amps f * t.charger.charger_count * t.charger.volts ≤ t.charger.max_station_watts
every_heartbeat_within_station cap k fl i s f gt le c r a p e b =
    let safe = seen-IsSafe le k c fl i s a (Reached-IsSane le k c gt r) in
    heartbeat_within_station k 0 c.row.0 c.row.1 fl i s f (rw (c.volts_table) refl) p safe.count_lt
      safe.volts_lt (lt_of_lt_of_le safe.rate_lt (omega arith)) safe.plus e b
