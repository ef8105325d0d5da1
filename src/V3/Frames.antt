-- ===== src/V3/Frames.antt =====
-- What one frame of the motorcycle's bus does to the charge, and what the sketch answers on that
-- bus (`bikeLoop`, v3/ZERO_BIKE.h).
use scv2_sketches.Prelude.{
  ℕ, ◌+◌, ◌-◌, ◌*◌, ◌≤◌, ◌<◌, true, All, ◌≡◌, ◌⊎◌, ◌↔◌, refl, length, u16, slt16, abs_short, arith,
}
use scv2_sketches.Zero.Network.{bms_pack_active_data, dash_status2, dash_status3}
use scv2_sketches.Zero.Predicates.{
  has_monolith_voltage, has_monolith_amps, has_power_tank_voltage, has_power_tank_amps,
  has_monolith_pack_config, has_power_tank_pack_config, has_monolith_pack_active_data,
  has_power_tank_pack_active_data, has_throttle,
}
use scv2_sketches.Zero.Decode.{amps}
use scv2_sketches.V3.State.{Bike}
use scv2_sketches.V3.BikeLoop.{
  Received, Sent, Floats, on_monolith_voltage, over_current, on_monolith_amps,
  on_power_tank_voltage, on_power_tank_amps, on_monolith_config, on_power_tank_config,
  on_monolith_temps, on_power_tank_temps, on_throttle, on_frame, answer,
}

over_current-eq :
    (ah a : ℕ) (s : Bike)
    → 2 ≤ ah
    → ah < 6000
    → ah < a
    → a ≤ 0x8000
    → s.charger.c_plus ≡ 0
    → 10 < s.charger.delay_itteration
    → s.charger.delay_itteration < 0x8000_0000
    → over_current ah a s ≡ record s {
      charger = record (s.charger) { charging_amps = (ah - 2) * 10; delay_itteration = 10 };
    }
unfolding over_current
over_current-eq ah a s ah_ge ah_lt over a_le plus delay delay_lt = ground arith

-- A frame of the monolith that shows more amps than its capacity in Ah, without 1C+ and with more
-- than ten passes left, sets the amps of every charger to ten times the capacity less two, and
-- leaves ten passes until the next control cycle. The amps asked for do not depend on the number
-- of chargers.
pub over_current_cuts :
    (r : Received) (s : Bike)
    → r.can_id ≡ bms_pack_active_data.id
    → 2 ≤ s.monolith_ah
    → s.monolith_ah < 6000
    → s.monolith_ah < abs_short (amps r.buf)
    → abs_short (amps r.buf) ≤ 0x8000
    → s.charger.c_plus ≡ 0
    → 10 < s.charger.delay_itteration
    → s.charger.delay_itteration < 0x8000_0000
    → ((on_frame r s).charger.charging_amps ≡ (s.monolith_ah - 2) * 10)
      × ((on_frame r s).charger.delay_itteration ≡ 10)
unfolding on_frame on_monolith_voltage on_monolith_amps on_power_tank_voltage on_power_tank_amps
    on_monolith_config on_power_tank_config on_monolith_temps on_power_tank_temps on_throttle
    has_monolith_voltage has_monolith_amps has_power_tank_voltage has_power_tank_amps
    has_monolith_pack_config has_power_tank_pack_config has_monolith_pack_active_data
    has_power_tank_pack_active_data has_throttle
over_current_cuts r s id ah_ge ah_lt over amps_le plus delay delay_lt =
    let a = abs_short (amps r.buf) in
    let s' = record s { monolith_amps = a; bike_amps = u16 (a + s.power_tank_amps) } in
    let e = over_current-eq s.monolith_ah a s' ah_ge ah_lt over amps_le plus delay delay_lt in
    simp (id, e) (refl, refl)

-- What the sketch may send on the motorcycle's bus in answer to a frame: the same frame, with the
-- two bytes of a trip field replaced.
pub record IsAnswer (r : Received) (t : Sent) : Type 0 where
  pub id_eq : t.id ≡ r.can_id
  pub len_eq : t.len ≡ r.len
  pub bytes_eq :
      ((t.id ≡ dash_status3.id) × (t.buf ≡ record (r.buf) { b2 = t.buf.b2; b3 = t.buf.b3 }))
      ⊎ ((t.id ≡ dash_status2.id) × (t.buf ≡ record (r.buf) { b4 = t.buf.b4; b5 = t.buf.b5 }))

-- The sketch answers a frame at most once, only with the throttle below 300 and only the two dash
-- frames that show the trip; it leaves the frame's id, its length and all other bytes as they are.
-- With the throttle below 300 it does answer both dash frames.
pub answer-IsAnswer :
    (fl : Floats) (r : Received) (s : Bike)
    → All (IsAnswer r) (answer fl r s)
      × (length (answer fl r s) ≤ 1)
      × ((length (answer fl r s) ≡ 1) ↔ (
          (slt16 s.bike_throttle 300 ≡ true)
          × ((r.can_id ≡ dash_status2.id) ⊎ (r.can_id ≡ dash_status3.id))))
unfolding answer
answer-IsAnswer fl r s = ground arith
