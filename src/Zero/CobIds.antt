-- ===== src/Zero/CobIds.antt =====
-- The tests of libraries/ZERO_MOTORCYCLE/ZERO.cpp against the structure of a CANopen id: seven bits
-- of node number below a function code.
use scv2_sketches.Prelude.{ℕ, ◌/◌, ◌%◌, ◌==◌, Bool, ◌&&◌, ◌||◌, ◌≡◌, refl, arith}
use scv2_sketches.Zero.Predicates.{
  has_voltage, has_monolith_voltage, has_power_tank_voltage, has_amps, has_monolith_amps,
  has_power_tank_amps, has_max_c_rate, has_monolith_max_c_rate, has_power_tank_max_c_rate,
  has_pack_time, has_monolith_pack_time, has_power_tank_pack_time, has_pack_config,
  has_monolith_pack_config, has_power_tank_pack_config, has_pack_active_data,
  has_monolith_pack_active_data, has_power_tank_pack_active_data, has_throttle,
}

-- The monolith's management system is node 8, the power tank's is node 9.
abbrev pub from : ℕ → ℕ → ℕ → Bool
from node code i = i % 128 == node && i / 128 == code

abbrev pub from_battery : ℕ → ℕ → Bool
from_battery code i = i / 128 == code && (i % 128 == 8 || i % 128 == 9)

-- Each test for one battery holds exactly of the id with that battery's node number (monolith 8,
-- power tank 9) and the quantity's function code: 7 voltage, 8 amps and temperatures, 10 time and
-- C rate, 5 configuration. The tests for either battery hold exactly of the ids with that code and
-- one of the two nodes, and the one for a voltage also of code 4 from node 6, the charge control.
-- Throttle is code 5 from node 1.
pub cob_ids :
    (i : ℕ)
    → (has_monolith_voltage i ≡ from 8 7 i)
      × (has_power_tank_voltage i ≡ from 9 7 i)
      × (has_voltage i ≡ (from_battery 7 i || from 6 4 i))
      × (has_monolith_amps i ≡ from 8 8 i)
      × (has_power_tank_amps i ≡ from 9 8 i)
      × (has_amps i ≡ from_battery 8 i)
      × (has_monolith_pack_active_data i ≡ has_monolith_amps i)
      × (has_power_tank_pack_active_data i ≡ has_power_tank_amps i)
      × (has_pack_active_data i ≡ has_amps i)
      × (has_monolith_max_c_rate i ≡ from 8 10 i)
      × (has_power_tank_max_c_rate i ≡ from 9 10 i)
      × (has_max_c_rate i ≡ from_battery 10 i)
      × (has_monolith_pack_time i ≡ has_monolith_max_c_rate i)
      × (has_power_tank_pack_time i ≡ has_power_tank_max_c_rate i)
      × (has_pack_time i ≡ has_max_c_rate i)
      × (has_monolith_pack_config i ≡ from 8 5 i)
      × (has_power_tank_pack_config i ≡ from 9 5 i)
      × (has_pack_config i ≡ from_battery 5 i)
      × (has_throttle i ≡ from 1 5 i)
unfolding has_voltage has_monolith_voltage has_power_tank_voltage has_amps has_monolith_amps
    has_power_tank_amps has_max_c_rate has_monolith_max_c_rate has_power_tank_max_c_rate
    has_pack_time has_monolith_pack_time has_power_tank_pack_time has_pack_config
    has_monolith_pack_config has_power_tank_pack_config has_pack_active_data
    has_monolith_pack_active_data has_power_tank_pack_active_data has_throttle
cob_ids i = (
  ground arith,
  ground arith,
  ground arith,
  ground arith,
  ground arith,
  ground arith,
  refl,
  refl,
  refl,
  ground arith,
  ground arith,
  ground arith,
  refl,
  refl,
  refl,
  ground arith,
  ground arith,
  ground arith,
  ground arith,
)
