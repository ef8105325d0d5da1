-- ===== src/Integrated/Exact/Cycle.antt =====
-- A control cycle of v2.6/v2.6.ino is the exact one, and so is every one from power up.
use scv2_sketches.Prelude.{
  ℕ, ◌*◌, ◌/◌, ◌≤◌, ◌<◌, min, ltb, Bool, false, Bool-cases, inl, inr, some, List, [], ◌∷◌, ◌++◌,
  All, ◌≡◌, refl, ap, ◌∙◌, u16, arith,
}
use native.Mathlib.Nat.{div-le_of_le-mul}
use scv2_sketches.SuperCharger.Sharing.{sext_id}
use scv2_sketches.SuperCharger.Cutback.Least.{least}
use scv2_sketches.Integrated.Tables.{Row, volts_table, over_temp_table}
use scv2_sketches.Integrated.State.{Controller}
use scv2_sketches.Integrated.Charging.{
  is_full, is_cold, is_hot, temp_rows, cutbacks, slow_at_end, stop_below, station_limit,
  charge_watts, over_current, limit_amps, share, grant, set_charging_amps,
}
use scv2_sketches.Integrated.Limits.{limits, cutbacks-least, amps_of}
use scv2_sketches.Integrated.Grants.{over}
use scv2_sketches.Integrated.Sane.{IsSane}
use scv2_sketches.Integrated.Exact.{
  known_volts, known_rate, wanted, row_limits, all_limits, held, exact_watts, exact_amps,
  exact_cycle, HasRate,
}
use scv2_sketches.Integrated.Exact.Words.{
  prepared, prepare-exact, known_volts-lt, known_rate-lt, max_watts-exact,
}

full_test :
    (s : Controller) (v : ℕ)
    → known_volts s < 0x8000
    → v < 0x8000
    → is_full (prepared s) v ≡ ltb v (known_volts s)
unfolding is_full
full_test s v h l = rw (sext_id (known_volts s) h) (ground arith)

cold_test : (s : Controller) (t : ℕ) → is_cold (prepared s) t ≡ is_cold s t
unfolding is_cold
cold_test s t = refl

hot_test : (s : Controller) (t : ℕ) → is_hot (prepared s) t ≡ is_hot s t
unfolding is_hot
hot_test s t = refl

-- Rows on which two tests agree.
abbrev Agree : (ℕ → Bool) → (ℕ → Bool) → Row → Type 0
Agree f g r = f r.0 ≡ g r.0

All-Agree : (f g : ℕ → Bool) (rows : List Row) → ((x : ℕ) → f x ≡ g x) → All (Agree f g) rows
All-Agree f g [] h = tt
All-Agree f g (r ∷ rows) h = (h r.0, All-Agree f g rows h)

-- A test on the voltage rows that is one on the known voltage.
abbrev pub TestsVolts : Controller → (ℕ → Bool) → Type 0
TestsVolts s full = (v : ℕ) → v < 0x8000 → full v ≡ ltb v (known_volts s)

full_rows :
    (s : Controller) (full : ℕ → Bool) (rows : List Row)
    → TestsVolts s full
    → All (λ (r : Row). r.0 < 0x8000) rows
    → All (Agree full (λ x. ltb x (known_volts s))) rows
full_rows s full [] e a = tt
full_rows s full (r ∷ rows) e a = (e r.0 a.0, full_rows s full rows e a.1)

-- The end of the computation of the watts, and the limit on the amps.
ends-exact :
    (q : Controller) (w : ℕ)
    → q.volts < 0x8000
    → q.ramp_rate < 0x2000_0000
    → station_limit q (stop_below q (slow_at_end q w)) ≡ held q q.volts w
unfolding slow_at_end stop_below station_limit
ends-exact q w v r = rw (sext_id q.volts v) (ground arith)

limit_amps-exact :
    (q : Controller) (amps : ℕ)
    → q.c_plus ≡ 0
    → q.c_rate < 0x4000
    → amps < 0x1_0000
    → over q.monolith_ah q.monolith_amps ≡ false
    → over q.power_tank_ah q.power_tank_amps ≡ false
    → limit_amps q amps ≡ min amps q.c_rate
unfolding limit_amps over_current
limit_amps-exact q amps p c a m t = ground arith

held-le : (s : Controller) (v w : ℕ) → s.max_station_watts < 32768000 → held s v w ≤ v * 65535
held-le s v w l = ground arith

-- What a call that sets `w` watts leaves, with `amps` to share.
abbrev pub shared : ℕ → ℕ → Controller → Controller
shared w amps s = record s {
  volts = known_volts s;
  c_rate = known_rate s;
  watts = w;
  bike_amps = amps;
  charging_amps = amps / s.charger_count;
}

div-short : (w v : ℕ) → w ≤ v * 65535 → w / v < 0x1_0000
div-short w v l = let d = div-le_of_le-mul v l in omega arith

u16_id : (n : ℕ) → n < 0x1_0000 → u16 n ≡ n
u16_id n l = omega arith

grant-at :
    (w : ℕ) (q : Controller)
    → 0 < q.volts
    → 0 < q.charger_count
    → q.charger_count < 0x8000_0000
    → grant w q
      ≡ some (record q {
        watts = w;
        bike_amps = amps_of q w;
        charging_amps = amps_of q w / q.charger_count;
      })
unfolding grant share
grant-at w q v c l = ground arith

module _ {cap : ℕ} (cap_le : cap ≤ 800) (past_end : List Row) (s : Controller)
    (h : IsSane cap s) where
  limits-exact :
      (f g : ℕ → Bool) (rows : List Row)
      → All HasRate rows
      → All (Agree f g) rows
      → limits f (prepared s) rows ≡ row_limits s g rows
  limits-exact f g [] a b = refl
  limits-exact f g ((threshold, rate) ∷ rows) a b =
      let m = max_watts-exact cap_le s rate h a.0 in
      let later = limits-exact f g rows a.1 b.1 in
      elim (Bool-cases (g threshold)) [
        | inl e ↦ rw (b.0, e, m, later) refl
        | inr e ↦ rw (b.0, e, later) refl
      ]

  pub all_limits-exact :
      (full : ℕ → Bool)
      → TestsVolts s full
      → All HasRate (temp_rows past_end)
      → limits full (prepared s) volts_table
          ++ (limits (is_cold (prepared s)) (prepared s) (temp_rows past_end)
              ++ limits (is_hot (prepared s)) (prepared s) over_temp_table)
        ≡ all_limits past_end s
  all_limits-exact full f t =
      let e =
        limits-exact full (λ x. ltb x (known_volts s)) volts_table (omega arith)
          (full_rows s full volts_table f (omega arith)) in
      let c =
        limits-exact (is_cold (prepared s)) (is_cold s) (temp_rows past_end) t
          (All-Agree _ _ (temp_rows past_end) (cold_test s)) in
      let o =
        limits-exact (is_hot (prepared s)) (is_hot s) over_temp_table (omega arith)
          (All-Agree _ _ over_temp_table (hot_test s)) in
      rw (e, c, o) refl

  watts-exact :
      All HasRate (temp_rows past_end) → charge_watts past_end (prepared s) ≡ exact_watts past_end s
  unfolding charge_watts
  watts-exact t =
      let v = known_volts-lt cap_le s h in
      ends-exact (prepared s) (cutbacks past_end (prepared s) (wanted s)) v h.ramp_lt
      ∙ ap (held s (known_volts s)) (
          cutbacks-least past_end (prepared s) (wanted s)
          ∙ ap (least (wanted s))
              (all_limits-exact (is_full (prepared s)) (λ x l. full_test s x v l) t))

  -- Without an over-current.
  pub amps-exact :
      (w : ℕ)
      → w ≤ known_volts s * 65535
      → over s.monolith_ah s.monolith_amps ≡ false
      → over s.power_tank_ah s.power_tank_amps ≡ false
      → amps_of (prepared s) w ≡ exact_amps w s
  amps-exact w l a b =
      let d = div-short w (known_volts s) l in
      ap (λ v. limit_amps (prepared s) (u16 (w / v)))
        (sext_id (known_volts s) (known_volts-lt cap_le s h))
      ∙ ap (limit_amps (prepared s)) (u16_id (w / known_volts s) d)
      ∙ limit_amps-exact (prepared s) (w / known_volts s) h.plus (known_rate-lt cap_le s h) d a b

  -- A control cycle from a state without 1C+, in which no value is near the end of its type and no pack
  -- draws more than 1 C, is defined if a voltage is known and chargers are counted; and then it
  -- computes what the specification in exact arithmetic says: no machine word wraps, and nothing
  -- signed turns negative.
  pub cycle_exact :
      All HasRate (temp_rows past_end)
      → 0 < known_volts s
      → 0 < s.charger_count
      → s.max_station_watts < 32768000
      → over s.monolith_ah s.monolith_amps ≡ false
      → over s.power_tank_ah s.power_tank_amps ≡ false
      → set_charging_amps past_end s ≡ some (exact_cycle past_end s)
  unfolding set_charging_amps
  cycle_exact t v c l a b =
      ap (λ q. grant (charge_watts past_end q) q) (prepare-exact cap_le s h)
      ∙ ap (λ w. grant w (prepared s)) (watts-exact t)
      ∙ grant-at (exact_watts past_end s) (prepared s) v c h.count_lt
      ∙ ap (λ x. some (shared (exact_watts past_end s) x s))
          (amps-exact (exact_watts past_end s)
            (held-le s (known_volts s) (least (wanted s) (all_limits past_end s)) l) a b)
