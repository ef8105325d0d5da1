-- ===== src/V3/Within.antt =====
-- A frame of the motorcycle's bus keeps the number of chargers, and never lengthens the delay
-- (`bikeLoop`, v3/ZERO_BIKE.h).
use scv2_sketches.Prelude.{ℕ, ◌≤◌, ◌<◌, List, [], ◌∷◌, ◌≡◌, arith}
use scv2_sketches.V3.State.{Bike}
use scv2_sketches.V3.BikeLoop.{
  Received, Floats, set_volts, on_monolith_voltage, over_current, on_monolith_amps,
  on_power_tank_voltage, on_power_tank_amps, on_monolith_config, on_power_tank_config,
  on_monolith_temps, on_power_tank_temps, on_throttle, on_frame, bike_loop,
}

-- There are `n` chargers, and at most `d` passes are left.
pub record Within (n d : ℕ) (s : Bike) : Type 0 where
  pub count_eq : s.charger.charger_count ≡ n
  pub delay_le : s.charger.delay_itteration ≤ d

module _ {n d : ℕ} (d_lt : d < 0x8000_0000) (r : Received) where
  on_monolith_voltage-Within : (s : Bike) → Within n d s → Within n d (on_monolith_voltage r s)
  unfolding on_monolith_voltage set_volts
  on_monolith_voltage-Within s h = ground arith

  on_monolith_amps-Within : (s : Bike) → Within n d s → Within n d (on_monolith_amps r s)
  unfolding on_monolith_amps over_current
  on_monolith_amps-Within s h = ground arith

  on_power_tank_voltage-Within : (s : Bike) → Within n d s → Within n d (on_power_tank_voltage r s)
  unfolding on_power_tank_voltage set_volts
  on_power_tank_voltage-Within s h = ground arith

  on_power_tank_amps-Within : (s : Bike) → Within n d s → Within n d (on_power_tank_amps r s)
  unfolding on_power_tank_amps over_current
  on_power_tank_amps-Within s h = ground arith

  on_monolith_config-Within : (s : Bike) → Within n d s → Within n d (on_monolith_config r s)
  unfolding on_monolith_config
  on_monolith_config-Within s h = ground arith

  on_power_tank_config-Within : (s : Bike) → Within n d s → Within n d (on_power_tank_config r s)
  unfolding on_power_tank_config
  on_power_tank_config-Within s h = ground arith

  on_monolith_temps-Within : (s : Bike) → Within n d s → Within n d (on_monolith_temps r s)
  unfolding on_monolith_temps
  on_monolith_temps-Within s h = ground arith

  on_power_tank_temps-Within : (s : Bike) → Within n d s → Within n d (on_power_tank_temps r s)
  unfolding on_power_tank_temps
  on_power_tank_temps-Within s h = ground arith

  on_throttle-Within : (s : Bike) → Within n d s → Within n d (on_throttle r s)
  unfolding on_throttle
  on_throttle-Within s h = ground arith

  on_frame-Within : (s : Bike) → Within n d s → Within n d (on_frame r s)
  unfolding on_frame
  on_frame-Within s0 h0 =
      let s1 = on_monolith_voltage r s0 in
      let h1 = on_monolith_voltage-Within s0 h0 in
      let s2 = on_monolith_amps r s1 in
      let h2 = on_monolith_amps-Within s1 h1 in
      let s3 = on_power_tank_voltage r s2 in
      let h3 = on_power_tank_voltage-Within s2 h2 in
      let s4 = on_power_tank_amps r s3 in
      let h4 = on_power_tank_amps-Within s3 h3 in
      let s5 = on_monolith_config r s4 in
      let h5 = on_monolith_config-Within s4 h4 in
      let s6 = on_power_tank_config r s5 in
      let h6 = on_power_tank_config-Within s5 h5 in
      let s7 = on_monolith_temps r s6 in
      let h7 = on_monolith_temps-Within s6 h6 in
      let s8 = on_power_tank_temps r s7 in
      let h8 = on_power_tank_temps-Within s7 h7 in on_throttle-Within s8 h8

pub bike_loop-Within :
    {n d : ℕ} (fl : Floats) (frames : List Received) (s : Bike)
    → d < 0x8000_0000
    → Within n d s
    → Within n d (bike_loop fl frames s).0
unfolding bike_loop
bike_loop-Within fl [] s d_lt h = h
bike_loop-Within fl (r ∷ rs) s d_lt h =
    bike_loop-Within fl rs (on_frame r s) d_lt (on_frame-Within d_lt r s h)
