-- ===== src/Zero/Predicates.antt =====
-- Which frames carry which quantity: the `has…` methods of libraries/ZERO_MOTORCYCLE/ZERO.cpp.
-- The C++ methods return a byte that is only tested for truth, here a `Bool`.
use scv2_sketches.Prelude.{ℕ, ◌==◌, Bool, ◌||◌}
use scv2_sketches.Zero.Network.{
  bms_cell_voltage, bms1_cell_voltage, calex_charge_control, bms_pack_active_data,
  bms1_pack_active_data, bms_pack_time, bms1_pack_time, bms_pack_config, bms1_pack_config,
  controller_rpm_throttle_mot_temp,
}

unfoldable pub has_voltage : ℕ → Bool
has_voltage can_id =
    can_id == calex_charge_control.id
    || can_id == bms_cell_voltage.id
    || can_id == bms1_cell_voltage.id

unfoldable pub has_monolith_voltage : ℕ → Bool
has_monolith_voltage can_id = can_id == bms_cell_voltage.id

unfoldable pub has_power_tank_voltage : ℕ → Bool
has_power_tank_voltage can_id = can_id == bms1_cell_voltage.id

unfoldable pub has_amps : ℕ → Bool
has_amps can_id = can_id == bms_pack_active_data.id || can_id == bms1_pack_active_data.id

unfoldable pub has_monolith_amps : ℕ → Bool
has_monolith_amps can_id = can_id == bms_pack_active_data.id

unfoldable pub has_power_tank_amps : ℕ → Bool
has_power_tank_amps can_id = can_id == bms1_pack_active_data.id

unfoldable pub has_max_c_rate : ℕ → Bool
has_max_c_rate can_id = can_id == bms_pack_time.id || can_id == bms1_pack_time.id

unfoldable pub has_monolith_max_c_rate : ℕ → Bool
has_monolith_max_c_rate can_id = can_id == bms_pack_time.id

unfoldable pub has_power_tank_max_c_rate : ℕ → Bool
has_power_tank_max_c_rate can_id = can_id == bms1_pack_time.id

unfoldable pub has_pack_time : ℕ → Bool
has_pack_time can_id = can_id == bms_pack_time.id || can_id == bms1_pack_time.id

unfoldable pub has_monolith_pack_time : ℕ → Bool
has_monolith_pack_time can_id = can_id == bms_pack_time.id

unfoldable pub has_power_tank_pack_time : ℕ → Bool
has_power_tank_pack_time can_id = can_id == bms1_pack_time.id

unfoldable pub has_pack_config : ℕ → Bool
has_pack_config can_id = can_id == bms_pack_config.id || can_id == bms1_pack_config.id

unfoldable pub has_monolith_pack_config : ℕ → Bool
has_monolith_pack_config can_id = can_id == bms_pack_config.id

unfoldable pub has_power_tank_pack_config : ℕ → Bool
has_power_tank_pack_config can_id = can_id == bms1_pack_config.id

unfoldable pub has_pack_active_data : ℕ → Bool
has_pack_active_data can_id =
    can_id == bms_pack_active_data.id || can_id == bms1_pack_active_data.id

unfoldable pub has_monolith_pack_active_data : ℕ → Bool
has_monolith_pack_active_data can_id = can_id == bms_pack_active_data.id

unfoldable pub has_power_tank_pack_active_data : ℕ → Bool
has_power_tank_pack_active_data can_id = can_id == bms1_pack_active_data.id

unfoldable pub has_throttle : ℕ → Bool
has_throttle can_id = can_id == controller_rpm_throttle_mot_temp.id
