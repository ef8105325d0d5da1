-- ===== src/Integrated/Exact/Words.antt =====
-- No machine word wraps in a control cycle of v2.6/v2.6.ino.
use scv2_sketches.Prelude.{
  ℕ, ◌*◌, ◌/◌, ◌≤◌, ◌<◌, min, ltb, if◌then◌else◌, ◌≡◌, ap, ◌∙◌, u32, ◌&&◌, slt32, arith,
}
use native.Mathlib.Nat.{mul-le-mul, le_refl, le_of_lt}
use scv2_sketches.Integrated.State.{Controller}
use scv2_sketches.Integrated.Charging.{raise_volts, pack_c_rate, ramp, max_amps, max_watts, prepare}
use scv2_sketches.Integrated.Sane.{IsSane}
use scv2_sketches.SuperCharger.Sharing.{sext_id}
use scv2_sketches.Integrated.Exact.{larger, known_volts, known_rate, wanted, row_limit}

-- The preparation.
abbrev pub prepared : Controller → Controller
prepared s = record s { volts = known_volts s; c_rate = known_rate s; watts = wanted s }

raise_volts-exact :
    (pack : ℕ) (s : Controller)
    → s.volts < 0x8000
    → pack < 3276800
    → raise_volts pack s ≡ record s { volts = larger s.volts (pack / 100) }
unfolding raise_volts
raise_volts-exact pack s v p = ground arith

larger-lt : (a pack : ℕ) → a < 0x8000 → pack < 3276800 → larger a (pack / 100) < 0x8000
larger-lt a pack h p = ground arith

-- The products of a row.
row_amps :
    (rate c plus : ℕ)
    → plus ≡ 0
    → c < 0x4000
    → rate * c ≤ 30 * c
    → (if ltb plus 1 && slt32 c (u32 (rate * c) / 10) then c else u32 (rate * c) / 10)
      ≡ min (rate * c / 10) c
row_amps rate c plus p h n = ground arith

amps_le : (a c : ℕ) → c < 0x4000 → min a c ≤ 0x4000
amps_le a c h = omega arith

row_watts :
    (w station : ℕ)
    → w ≤ 0x4000 * 0x8000
    → (if ltb station (u32 w) then station else u32 w) ≡ min w station
row_watts w station h = ground arith

module _ {cap : ℕ} (cap_le : cap ≤ 800) where
  pack_c_rate-exact :
      (s : Controller)
      → s.monolith_ah < cap
      → s.power_tank_ah < cap
      → pack_c_rate s ≡ record s { c_rate = known_rate s }
  unfolding pack_c_rate
  pack_c_rate-exact s m t = ground arith

  ramp-exact :
      (s : Controller)
      → s.watts < 0x8000_0000
      → s.ramp_rate < 0x2000_0000
      → ramp s ≡ record s { watts = wanted s }
  unfolding ramp
  ramp-exact s w r = ground arith

  pub prepare-exact : (s : Controller) → IsSane cap s → prepare s ≡ prepared s
  unfolding prepare
  prepare-exact s h =
      let u = record s { volts = larger s.volts (s.monolith_volts / 100) } in
      let v = record s { volts = known_volts s } in
      let w = record v { c_rate = known_rate s } in
      ap (λ x. ramp (pack_c_rate (raise_volts s.power_tank_volts x)))
        (raise_volts-exact s.monolith_volts s h.volts_lt h.monolith_lt)
      ∙ ap (λ x. ramp (pack_c_rate x))
          (raise_volts-exact s.power_tank_volts u (larger-lt _ _ h.volts_lt h.monolith_lt)
            h.tank_lt)
      ∙ ap ramp (pack_c_rate-exact v h.monolith_ah_lt h.tank_ah_lt)
      ∙ ramp-exact w h.watts_lt h.ramp_lt

  pub known_rate-lt : (s : Controller) → IsSane cap s → known_rate s < 0x4000
  known_rate-lt s h = ground (arith, h.rate_lt, h.monolith_ah_lt, h.tank_ah_lt)

  pub known_volts-lt : (s : Controller) → IsSane cap s → known_volts s < 0x8000
  known_volts-lt s h =
      larger-lt _ s.power_tank_volts (larger-lt s.volts s.monolith_volts h.volts_lt h.monolith_lt)
        h.tank_lt

  max_amps-exact :
      (s : Controller) (rate : ℕ)
      → IsSane cap s
      → rate ≤ 30
      → max_amps (prepared s) rate ≡ min (rate * known_rate s / 10) (known_rate s)
  unfolding max_amps
  max_amps-exact s rate h r =
      let c = known_rate-lt s h in
      let n = mul-le-mul r (le_refl (known_rate s)) in
      row_amps rate (known_rate s) s.c_plus h.plus c n

  pub max_watts-exact :
      (s : Controller) (rate : ℕ)
      → IsSane cap s
      → rate ≤ 30
      → max_watts (prepared s) rate ≡ row_limit s rate
  unfolding max_watts
  max_watts-exact s rate h r =
      let c = known_rate-lt s h in
      let v = known_volts-lt s h in
      let n = mul-le-mul (amps_le (rate * known_rate s / 10) (known_rate s) c) (le_of_lt v) in
      rw (max_amps-exact s rate h r, sext_id (known_volts s) v)
        (row_watts (min (rate * known_rate s / 10) (known_rate s) * known_volts s)
          s.max_station_watts n)
