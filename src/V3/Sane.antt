-- ===== src/V3/Sane.antt =====
-- States of the sketch v3 (v3/v3.ino) in which no value is negative or near the end of its type, and
-- 1C+ is off: every function of the sketch keeps them so.
use scv2_sketches.Prelude.{ℕ, ◌*◌, ◌≤◌, ◌<◌, List, [], ◌∷◌, All, ◌≡◌, Frame, word, arith}
use scv2_sketches.SuperCharger.State.{Setup, Charger}
use scv2_sketches.SuperCharger.Heartbeat.{receive}
use scv2_sketches.V3.State.{Bike, power_up}
use scv2_sketches.V3.Traffic.{IsVoltage, IsBattery}
use scv2_sketches.V3.BikeLoop.{
  Received, Floats, set_volts, on_monolith_voltage, over_current, on_monolith_amps,
  on_power_tank_voltage, on_power_tank_amps, on_monolith_config, on_power_tank_config,
  on_monolith_temps, on_power_tank_temps, on_throttle, on_frame, bike_loop,
}
use scv2_sketches.V3.Phone.{
  Write, target_volts, max_watts, count, units, battery_max, user_update, written, poll, ble_loop,
  ble_setup,
}
use scv2_sketches.V3.Main.{Input, tick, setup}
use scv2_sketches.V3.Rhythm.{counted}

-- The charger's part. No pack has `cap` amp hours or more.
pub record IsSafe (cap : ℕ) (c : Charger) : Type 0 where
  pub count_lt : c.charger_count < 0x8000_0000
  pub plus : c.c_plus ≡ 0
  pub rate_lt : c.c_rate < 20 * cap
  pub volts_lt : c.volts < 0x8000
  pub station_lt : c.max_station_watts < 0x8000_0000
  pub ramp_eq : c.ramp_rate ≡ 5000
  pub watts_lt : c.watts < 0x8000_0000

pub record IsSane (cap : ℕ) (s : Bike) : Type 0 where
  pub charger : IsSafe cap s.charger
  pub ble_count_lt : s.ble.charger_count_ble < 0x8000_0000
  pub ble_watts_lt : s.ble.charger_max_watts < 0x8000_0000
  pub monolith_ah_lt : s.monolith_ah < cap
  pub tank_ah_lt : s.power_tank_ah < cap

-- What a phone may write, and what the buses may carry.
abbrev pub IsWrite : Write → Type 0
IsWrite (target_volts n) = Unit
IsWrite (max_watts n) = n < 0x8000_0000
IsWrite (count n) = n < 0x8000_0000
IsWrite (units n) = Unit
IsWrite (battery_max n) = Unit

pub record IsInput (cap : ℕ) (i : Input) : Type 0 where
  pub central : All IsWrite i.central
  pub polled : All IsWrite i.polled
  pub chargers : All IsVoltage i.charger_frames
  pub bike : All (IsBattery cap) i.bike_frames

module _ {cap : ℕ} (cap_le : cap ≤ 0x8000) where
  pub setup-IsSane : (k : Setup) → 48 < cap → IsSane cap (setup k (power_up k))
  unfolding setup ble_setup ble_loop
  setup-IsSane k c = record {
    charger = omega arith;
    ble_count_lt = omega arith;
    ble_watts_lt = omega arith;
    monolith_ah_lt = omega arith;
    tank_ah_lt = omega arith;
  }

  written-IsSane : (w : Write) (s : Bike) → IsWrite w → IsSane cap s → IsSane cap (written w s)
  unfolding written user_update
  written-IsSane (target_volts n) s a h = ground arith
  written-IsSane (max_watts n) s a h = ground arith
  written-IsSane (count n) s a h = ground arith
  written-IsSane (units n) s a h = ground arith
  written-IsSane (battery_max n) s a h = ground arith

  pub poll-IsSane :
      (ws : List Write) (s : Bike) → All IsWrite ws → IsSane cap s → IsSane cap (poll ws s)
  unfolding poll
  poll-IsSane [] s a h = h
  poll-IsSane (w ∷ ws) s a h = poll-IsSane ws (written w s) a.1 (written-IsSane w s a.0 h)

  module _ (r : Received) (b : IsBattery cap r) where
    on_monolith_voltage-IsSane : (s : Bike) → IsSane cap s → IsSane cap (on_monolith_voltage r s)
    unfolding on_monolith_voltage set_volts
    on_monolith_voltage-IsSane s h = ground arith

    on_monolith_amps-IsSane : (s : Bike) → IsSane cap s → IsSane cap (on_monolith_amps r s)
    unfolding on_monolith_amps over_current
    on_monolith_amps-IsSane s h = ground arith

    on_power_tank_voltage-IsSane :
        (s : Bike) → IsSane cap s → IsSane cap (on_power_tank_voltage r s)
    unfolding on_power_tank_voltage set_volts
    on_power_tank_voltage-IsSane s h = ground arith

    on_power_tank_amps-IsSane : (s : Bike) → IsSane cap s → IsSane cap (on_power_tank_amps r s)
    unfolding on_power_tank_amps over_current
    on_power_tank_amps-IsSane s h = ground arith

    on_monolith_config-IsSane : (s : Bike) → IsSane cap s → IsSane cap (on_monolith_config r s)
    unfolding on_monolith_config
    on_monolith_config-IsSane s h = ground arith

    on_power_tank_config-IsSane : (s : Bike) → IsSane cap s → IsSane cap (on_power_tank_config r s)
    unfolding on_power_tank_config
    on_power_tank_config-IsSane s h = ground arith

    on_rest-IsSane :
        (s : Bike)
        → IsSane cap s
        → IsSane cap (on_throttle r (on_power_tank_temps r (on_monolith_temps r s)))
    unfolding on_monolith_temps on_power_tank_temps on_throttle
    on_rest-IsSane s h = ground arith

    on_frame-IsSane : (s : Bike) → IsSane cap s → IsSane cap (on_frame r s)
    unfolding on_frame
    on_frame-IsSane s h = on_rest-IsSane _ (
        on_power_tank_config-IsSane _ (
          on_monolith_config-IsSane _ (
            on_power_tank_amps-IsSane _ (
              on_power_tank_voltage-IsSane _
                (on_monolith_amps-IsSane _ (on_monolith_voltage-IsSane s h))))))

  bike_loop-IsSane :
      (fl : Floats) (rs : List Received) (s : Bike)
      → All (IsBattery cap) rs
      → IsSane cap s
      → IsSane cap (bike_loop fl rs s).0
  unfolding bike_loop
  bike_loop-IsSane fl [] s a h = h
  bike_loop-IsSane fl (r ∷ rs) s a h =
      bike_loop-IsSane fl rs (on_frame r s) a.1 (on_frame-IsSane r a.0 s h)

  tick-IsSane : (s : Bike) → IsSane cap s → IsSane cap (tick s)
  unfolding tick
  tick-IsSane s h = ground arith

  pub counted-IsSane :
      (fl : Floats) (i : Input) (s : Bike)
      → IsInput cap i
      → IsSane cap s
      → IsSane cap (counted fl i s)
  counted-IsSane fl i s a h = tick-IsSane (bike_loop fl i.bike_frames (poll i.central s)).0 (
      bike_loop-IsSane fl i.bike_frames (poll i.central s) a.bike
        (poll-IsSane i.central s a.central h))

  pub receive-IsSafe :
      (frames : List Frame) (c : Charger)
      → All IsVoltage frames
      → IsSafe cap c
      → IsSafe cap (receive frames c)
  unfolding receive
  receive-IsSafe [] c a h = h
  receive-IsSafe (f ∷ frames) c a h =
      receive-IsSafe frames (record c { volts = word f.b0 f.b1 }) a.1
        (record {
          count_lt = h.count_lt;
          plus = h.plus;
          rate_lt = h.rate_lt;
          volts_lt = a.0;
          station_lt = h.station_lt;
          ramp_eq = h.ramp_eq;
          watts_lt = h.watts_lt;
        })
