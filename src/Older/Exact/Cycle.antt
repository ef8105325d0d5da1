-- ===== src/Older/Exact/Cycle.antt =====
-- A control cycle of v2.5/v2.5.ino and its variants is the exact one.
use scv2_sketches.Prelude.{
  ℕ, ◌-◌, ◌*◌, ◌/◌, ◌≤◌, ◌<◌, ltb, if◌then◌else◌, false, some, List, All, ◌≡◌, refl, ap, ◌∙◌, arith,
}
use scv2_sketches.SuperCharger.Sharing.{sext_id}
use scv2_sketches.SuperCharger.Cutback.Least.{least}
use scv2_sketches.Integrated.Tables.{Row}
use scv2_sketches.Integrated.State.{Controller}
use scv2_sketches.Integrated.Charging.{temp_rows}
use scv2_sketches.Integrated.Limits.{three_loops-least, amps_of}
use scv2_sketches.Integrated.Grants.{over}
use scv2_sketches.Integrated.Sane.{IsSane}
use scv2_sketches.Integrated.Exact.{known_volts, wanted, all_limits, HasRate}
use scv2_sketches.Integrated.Exact.Words.{prepared, prepare-exact, known_volts-lt}
use scv2_sketches.Integrated.Exact.Cycle.{shared, all_limits-exact, amps-exact}
use scv2_sketches.Older.Variants.{Variant, max_12v_watts}
use scv2_sketches.Older.Charging.{
  is_full, cutbacks, ends, slow_at_end, stop_out_of_range, station_limit, charge_watts, grant,
  set_charging_amps,
}
use scv2_sketches.Older.Sane.{IsPowered}
use scv2_sketches.Older.Exact.{is_above, is_out, held, exact_watts, exact_cycle}

slow_at_end-exact :
    (k : Variant) (q : Controller) (w : ℕ)
    → q.volts < 0x8000
    → q.ramp_rate < 0x2000_0000
    → slow_at_end k q w ≡ (if is_above k q q.volts then w - q.ramp_rate * 3 else w)
unfolding slow_at_end ends
slow_at_end-exact k q w v r = rw (sext_id q.volts v) (ground arith)

stop-exact :
    (k : Variant) (q : Controller) (w : ℕ)
    → q.volts < 0x8000
    → k.output_volts_min < 0x8000
    → stop_out_of_range k q w ≡ (if is_out k q.volts then 0 else w)
unfolding stop_out_of_range
stop-exact k q w v m = ground arith

station_limit-exact :
    (q : Controller) (w : ℕ)
    → q.charger_count < 54
    → max_12v_watts * q.charger_count ≤ q.max_station_watts
    → q.max_station_watts < 0x1_0000_0000
    → station_limit q w ≡ (
        if ltb q.max_station_watts w
        then q.max_station_watts - max_12v_watts * q.charger_count
        else w)
unfolding station_limit
station_limit-exact q w c p m = ground arith

held-le : (k : Variant) (s : Controller) (v w : ℕ) → held k s v w ≤ s.max_station_watts
held-le k s v w = ground arith

grant-at :
    (w : ℕ) (q : Controller)
    → 0 < q.volts
    → 0 < q.charger_count
    → grant w q
      ≡ some (record q {
        watts = w;
        bike_amps = amps_of q w;
        charging_amps = amps_of q w / q.charger_count;
      })
unfolding grant
grant-at w q v c = ground arith

module _ {cap : ℕ} (cap_le : cap ≤ 800) (k : Variant) (past_end : List Row) (s : Controller)
    (h : IsSane cap s) where
  cutbacks-exact :
      All HasRate (temp_rows past_end)
      → cutbacks past_end (prepared s) (wanted s) ≡ least (wanted s) (all_limits past_end s)
  unfolding cutbacks is_full
  cutbacks-exact t =
      three_loops-least (is_full (prepared s)) past_end (prepared s) (wanted s)
      ∙ ap (least (wanted s))
          (all_limits-exact cap_le past_end s h (is_full (prepared s)) (λ v l. refl) t)

  watts-exact :
      k.output_volts_min < 0x8000
      → IsPowered s
      → All HasRate (temp_rows past_end)
      → charge_watts k past_end (prepared s) ≡ exact_watts k past_end s
  unfolding charge_watts
  watts-exact m p t =
      let v = known_volts-lt cap_le s h in
      let q = prepared s in
      station_limit-exact q _ p.count_lt p.supplies (omega (arith, h.station_lt))
      ∙ rw
          (
            cutbacks-exact t,
            slow_at_end-exact k q (least (wanted s) (all_limits past_end s)) v h.ramp_lt,
            stop-exact k q _ v m,
          )
          refl

  -- A control cycle of any variant, from a state without 1C+, in which no value is near the end of its
  -- type, the station can feed the 12 V supplies, and no pack draws more than 1 C, is defined if
  -- chargers are counted and the station's watts over the known voltage fit in a short; and then it
  -- computes what the specification in exact arithmetic says.
  pub variant_cycle_exact :
      k.output_volts_min < 0x8000
      → IsPowered s
      → All HasRate (temp_rows past_end)
      → s.max_station_watts < known_volts s * 65535
      → 0 < s.charger_count
      → over s.monolith_ah s.monolith_amps ≡ false
      → over s.power_tank_ah s.power_tank_amps ≡ false
      → set_charging_amps k past_end s ≡ some (exact_cycle k past_end s)
  unfolding set_charging_amps
  variant_cycle_exact m p t v c a b =
      let w = exact_watts k past_end s in
      let l = held-le k s (known_volts s) (least (wanted s) (all_limits past_end s)) in
      ap (λ q. grant (charge_watts k past_end q) q) (prepare-exact cap_le s h)
      ∙ ap (λ x. grant x (prepared s)) (watts-exact m p t)
      ∙ grant-at w (prepared s) (ground arith) c
      ∙ ap (λ x. some (shared w x s)) (amps-exact cap_le past_end s h w (omega arith) a b)
