-- ===== src/Zero/Old.antt =====
-- BKUP-ZERO_MOTORCYCLE: the older copy of libraries/ZERO_MOTORCYCLE. Its messages have the names and
-- ids of the current ones; the `return void;` of its `logRaw` is read as `return;`.
use scv2_sketches.Prelude.{ℕ, Bool, true, false, List, [], ◌∷◌, ◌++◌}
use scv2_sketches.Zero.Network.{
  Message, controller_speed_torque, controller_rpm_throttle_mot_temp, controller_temp_digital_in_18,
  controller_volt_mod_inductance_temp_est, controller_target_vel_max_iq_cont_volt,
  controller_drive_control, dash_status, dash_odo_from_dash, dash_status2, dash_status3,
  dash_odo_to_dash, bms_pack_status, bms_pack_config, bms_pack_stats, bms_cell_voltage,
  bms_pack_active_data, bms_pack_temp_data, bms_pack_time, bms_control, bms1_pack_status,
  bms1_pack_config, bms1_pack_stats, bms1_cell_voltage, bms1_pack_active_data, bms1_pack_temp_data,
  bms1_pack_time, calex_charge_status, t_calex_max_charge_voltage_current, calex_charge_control,
  r_calex_max_charge_voltage_current, calex_taper_cutoff_current, find_message,
}
use scv2_sketches.Zero.Logger.{Output, text, hex, newline, header, dump}

abbrev pub old_messages : List Message
old_messages =
    controller_speed_torque ∷ controller_rpm_throttle_mot_temp ∷ controller_temp_digital_in_18
    ∷ controller_volt_mod_inductance_temp_est ∷ controller_target_vel_max_iq_cont_volt
    ∷ controller_drive_control ∷ dash_status ∷ dash_odo_from_dash ∷ dash_status2 ∷ dash_status3
    ∷ dash_odo_to_dash ∷ bms_pack_status ∷ bms_pack_config ∷ bms_pack_stats ∷ bms_cell_voltage
    ∷ bms_pack_active_data ∷ bms_pack_temp_data ∷ bms_pack_time ∷ bms_control ∷ bms1_pack_status
    ∷ bms1_pack_config ∷ bms1_pack_stats ∷ bms1_cell_voltage ∷ bms1_pack_active_data
    ∷ bms1_pack_temp_data ∷ bms1_pack_time ∷ calex_charge_status
    ∷ t_calex_max_charge_voltage_current ∷ calex_charge_control ∷ r_calex_max_charge_voltage_current
    ∷ calex_taper_cutoff_current ∷ []

unfoldable pub old_log_raw : Bool → ℕ → List ℕ → ℕ → List Output
old_log_raw false len buf can_id = []
old_log_raw true len buf can_id =
    header (find_message can_id old_messages)
    ++ (text " ID: " ∷ hex can_id ∷ newline ∷ text "-----------------------------" ∷ newline ∷ [])
    ++ (dump len buf ++ newline ∷ [])
