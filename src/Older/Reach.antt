-- ===== src/Older/Reach.antt =====
-- Every heartbeat of v2.5/v2.5.ino and its variants, from power up.
use scv2_sketches.Prelude.{ℕ, ◌≤◌, false, some, List, ◌≡◌, sym, subst, Frame, arith}
use native.Mathlib.Nat.{lt_of_le_of_lt, lt_of_lt_of_le}
use scv2_sketches.V3.BikeLoop.{Floats}
use scv2_sketches.Integrated.Tables.{Row}
use scv2_sketches.Integrated.State.{Stored, Controller, power_up}
use scv2_sketches.Integrated.Charging.{prepare}
use scv2_sketches.Integrated.Main.{Output, Input, announce}
use scv2_sketches.Integrated.Grants.{over, prepare-Prepared}
use scv2_sketches.Integrated.Branches.{IfDefined}
use scv2_sketches.Integrated.Station.{Fits}
use scv2_sketches.Integrated.Sane.{IsSane, prepare-IsSane}
use scv2_sketches.Older.Variants.{Variant}
use scv2_sketches.Older.Charging.{set_charging_amps}
use scv2_sketches.Older.Main.{setup, loop}
use scv2_sketches.Older.Branches.{heard, variant-IfDefined}
use scv2_sketches.Older.Grants.{charge_watts-le, set_charging_amps-result}
use scv2_sketches.Older.Station.{variant_within_station}
use scv2_sketches.Older.Sane.{
  IsPowered, IsStored, IsInput, setup-IsSane, setup-IsPowered, counted-IsSane,
}

-- The states before a pass, from power up, where no pack has `cap` amp hours or more.
pub data Reached (k : Variant) (cap : ℕ) (past_end : List Row) (fl : Floats)
    : Controller → Type 0 where
  started : (e : Stored) → IsStored cap e → Reached k cap past_end fl (setup (power_up e))
  passed :
      (i : Input) (s : Controller) {t : Controller} (o : Output)
      → Reached k cap past_end fl s
      → IsInput cap i
      → loop k past_end fl i s ≡ some (t, o)
      → Reached k cap past_end fl t

abbrev pub Holds : ℕ → Controller → Type 0
Holds cap s = IsSane cap s × IsPowered s

module _ {cap : ℕ} (le : cap ≤ 0x8000) (k : Variant) where
  announce-Holds : (s : Controller) → Holds cap s → Holds cap (announce s)
  unfolding announce
  announce-Holds s h = ground arith

  computed-Holds :
      (past_end : List Row) (s : Controller) {t : Controller}
      → Holds cap s
      → set_charging_amps k past_end s ≡ some t
      → Holds cap t
  computed-Holds past_end s h e =
      let g = prepare-IsSane le s h.0 in
      let p = prepare-Prepared s in
      let w =
        charge_watts-le k past_end (prepare s) (omega (arith, p.count, h.1.count_lt))
          (omega (arith, p.count, p.station, h.1.supplies)) (omega (arith, g.station_lt)) in
      subst (Holds cap) (sym (set_charging_amps-result k past_end s e)) (
        record {
          count_lt = g.count_lt;
          plus = g.plus;
          rate_lt = g.rate_lt;
          volts_lt = g.volts_lt;
          monolith_lt = g.monolith_lt;
          tank_lt = g.tank_lt;
          monolith_ah_lt = g.monolith_ah_lt;
          tank_ah_lt = g.tank_ah_lt;
          station_lt = g.station_lt;
          ramp_lt = g.ramp_lt;
          watts_lt = lt_of_le_of_lt w g.station_lt;
        },
        record {
          count_lt = omega (arith, p.count, h.1.count_lt);
          supplies = omega (arith, p.count, p.station, h.1.supplies);
        },
      )

  pub heard-Holds :
      (fl : Floats) (i : Input) (s : Controller)
      → IsInput cap i
      → Holds cap s
      → Holds cap (heard k fl i s)
  heard-Holds fl i s a h = let g = counted-IsSane le k fl i s a h.0 h.1 in ground arith

  loop-Holds :
      (past_end : List Row) (fl : Floats) (i : Input) (s : Controller)
      → IsInput cap i
      → Holds cap s
      → IfDefined (λ t o. Holds cap t) (loop k past_end fl i s)
  loop-Holds past_end fl i s a h =
      variant-IfDefined (λ t o. Holds cap t) k past_end fl i s
        (λ t o e b.
          announce-Holds t (computed-Holds past_end (heard k fl i s) (heard-Holds fl i s a h) e))
        (λ o q b. counted-IsSane le k fl i s a h.0 h.1)

  pub Reached-Holds :
      {past_end : List Row} {fl : Floats} {s : Controller}
      → Reached k cap past_end fl s
      → Holds cap s
  Reached-Holds (started e h) = (setup-IsSane le k e h, setup-IsPowered le k e h)
  Reached-Holds {past_end = past_end} {fl = fl} (passed i s o r a e) =
      subst (IfDefined (λ t o. Holds cap t)) e (loop-Holds past_end fl i s a (Reached-Holds r))

-- From power up, in any variant, after any defined passes, with fewer than 54 chargers whose 12 V
-- supplies the station can feed, without 1C+ and with settings and frames that hold no value near
-- the end of its type: a pass that sends a heartbeat, and that computed it while no pack drew more
-- than 1 C, sends one in which each of the chargers counted reads amps that are together at most the
-- C rate, and at the pass's voltage at most the station's watts.
pub variant_heartbeat-Fits :
    (k : Variant) (cap : ℕ) (past_end : List Row) (fl : Floats) (i : Input) (s : Controller)
    {t : Controller} {o : Output} (f : Frame)
    → cap ≤ 0x8000
    → Reached k cap past_end fl s
    → IsInput cap i
    → over (heard k fl i s).monolith_ah (heard k fl i s).monolith_amps ≡ false
    → over (heard k fl i s).power_tank_ah (heard k fl i s).power_tank_amps ≡ false
    → loop k past_end fl i s ≡ some (t, o)
    → o.heartbeat ≡ some f
    → Fits t f
variant_heartbeat-Fits k cap past_end fl i s f le r a m b e h =
    let (g, q) = heard-Holds le k fl i s a (Reached-Holds le k r) in
    let p = prepare-IsSane le (heard k fl i s) g in
    variant_within_station k past_end fl i s f q.count_lt q.supplies
      (lt_of_lt_of_le g.station_lt (omega arith)) p.volts_lt
      (lt_of_lt_of_le p.rate_lt (omega arith)) g.plus m b e h
