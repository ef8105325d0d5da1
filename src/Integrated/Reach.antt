-- ===== src/Integrated/Reach.antt =====
-- Every heartbeat of v2.6/v2.6.ino, from power up.
use scv2_sketches.Prelude.{ℕ, ◌≤◌, false, some, List, ◌≡◌, sym, subst, Frame, arith}
use native.Mathlib.Nat.{lt_of_le_of_lt, lt_of_lt_of_le}
use scv2_sketches.V3.BikeLoop.{Floats}
use scv2_sketches.Integrated.Tables.{Row}
use scv2_sketches.Integrated.State.{Stored, Controller, power_up}
use scv2_sketches.Integrated.Settings.{setup}
use scv2_sketches.Integrated.Charging.{prepare, set_charging_amps}
use scv2_sketches.Integrated.Main.{Input, Output, announce, loop}
use scv2_sketches.Integrated.Grants.{over, charge_watts-le, set_charging_amps-result}
use scv2_sketches.Integrated.Branches.{seen, IfDefined, loop-IfDefined}
use scv2_sketches.Integrated.Station.{Fits, heartbeat_stays_within}
use scv2_sketches.Integrated.Sane.{
  IsSane, IsStored, IsInput, setup-IsSane, ticked-IsSane, prepare-IsSane,
}

-- The states before a pass, from power up, where no pack has `cap` amp hours or more.
pub data Reached (cap : ℕ) (past_end : List Row) (fl : Floats) : Controller → Type 0 where
  started : (e : Stored) → IsStored cap e → Reached cap past_end fl (setup (power_up e))
  passed :
      (i : Input) (s : Controller) {t : Controller} (o : Output)
      → Reached cap past_end fl s
      → IsInput cap i
      → loop past_end fl i s ≡ some (t, o)
      → Reached cap past_end fl t

module _ {cap : ℕ} (le : cap ≤ 0x8000) where
  announce-IsSane : (s : Controller) → IsSane cap s → IsSane cap (announce s)
  unfolding announce
  announce-IsSane s h = ground arith

  computed-IsSane :
      (past_end : List Row) (s : Controller) {t : Controller}
      → IsSane cap s
      → set_charging_amps past_end s ≡ some t
      → IsSane cap t
  computed-IsSane past_end s h e =
      let g = prepare-IsSane le s h in
      subst (IsSane cap) (sym (set_charging_amps-result past_end s (h.count_lt) e)) record {
        count_lt = g.count_lt;
        plus = g.plus;
        rate_lt = g.rate_lt;
        volts_lt = g.volts_lt;
        monolith_lt = g.monolith_lt;
        tank_lt = g.tank_lt;
        monolith_ah_lt = g.monolith_ah_lt;
        tank_ah_lt = g.tank_ah_lt;
        station_lt = g.station_lt;
        ramp_lt = g.ramp_lt;
        watts_lt = lt_of_le_of_lt (charge_watts-le past_end (prepare s)) g.station_lt;
      }

  pub seen-IsSane :
      (fl : Floats) (i : Input) (s : Controller)
      → IsInput cap i
      → IsSane cap s
      → IsSane cap (seen fl i s)
  seen-IsSane fl i s a h = let g = ticked-IsSane le fl i s a h in ground arith

  loop-IsSane :
      (past_end : List Row) (fl : Floats) (i : Input) (s : Controller)
      → IsInput cap i
      → IsSane cap s
      → IfDefined (λ t o. IsSane cap t) (loop past_end fl i s)
  loop-IsSane past_end fl i s a h =
      loop-IfDefined (λ t o. IsSane cap t) past_end fl i s
        (λ t o e b.
          announce-IsSane t (computed-IsSane past_end (seen fl i s) (seen-IsSane fl i s a h) e))
        (λ o q b. ticked-IsSane le fl i s a h)

  pub Reached-IsSane :
      {past_end : List Row} {fl : Floats} {s : Controller}
      → Reached cap past_end fl s
      → IsSane cap s
  Reached-IsSane (started e h) = setup-IsSane le e h
  Reached-IsSane {past_end = past_end} {fl = fl} (passed i s o r a e) =
      subst (IfDefined (λ t o. IsSane cap t)) e (loop-IsSane past_end fl i s a (Reached-IsSane r))

-- From power up, after any defined passes, without 1C+ and with settings, frames of the chargers and
-- frames of the batteries that hold no value near the end of its type: a pass that sends a heartbeat, and that
-- computed it while no pack drew more than 1 C, sends one in which each of the chargers counted
-- reads amps that are together at most the C rate, and at the pass's voltage at most the station's
-- watts.
pub every_heartbeat-Fits :
    (cap : ℕ) (past_end : List Row) (fl : Floats) (i : Input) (s : Controller) {t : Controller}
    {o : Output} (f : Frame)
    → cap ≤ 0x8000
    → Reached cap past_end fl s
    → IsInput cap i
    → over (seen fl i s).monolith_ah (seen fl i s).monolith_amps ≡ false
    → over (seen fl i s).power_tank_ah (seen fl i s).power_tank_amps ≡ false
    → loop past_end fl i s ≡ some (t, o)
    → o.heartbeat ≡ some f
    → Fits t f
every_heartbeat-Fits cap past_end fl i s f le r a m b e h =
    let g = seen-IsSane le fl i s a (Reached-IsSane le r) in
    let p = prepare-IsSane le (seen fl i s) g in
    heartbeat_stays_within past_end fl i s f (g.count_lt) (p.volts_lt)
      (lt_of_lt_of_le (p.rate_lt) (omega arith)) (g.plus) m b e h
