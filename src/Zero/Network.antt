-- ===== src/Zero/Network.antt =====
-- The messages of the motorcycle's CAN bus: libraries/ZERO_MOTORCYCLE/Network.h. An id is a
-- `short`; all of them are below 2 ^ 11, the range of a standard CAN id.
use Prim.Native.String.{String}
use scv2_sketches.Prelude.{ℕ, ◌==◌, if◌then◌else◌, Option, none, some, List, [], ◌∷◌}

-- `Message`
pub record Message : Type 0 where
  pub name : String
  pub id : ℕ

abbrev pub controller_speed_torque : Message
controller_speed_torque = record { name = "CONTROLLER_SPEED_TORQUE"; id = 0x181 }

abbrev pub controller_rpm_throttle_mot_temp : Message
controller_rpm_throttle_mot_temp = record { name = "CONTROLLER_RPM_THROTTLE_MOT_TEMP"; id = 0x281 }

abbrev pub controller_temp_digital_in_18 : Message
controller_temp_digital_in_18 = record { name = "CONTROLLER_TEMP_DIGITAL_IN_18"; id = 0x381 }

abbrev pub controller_volt_mod_inductance_temp_est : Message
controller_volt_mod_inductance_temp_est = record {
  name = "CONTROLLER_VOLT_MOD_INDUCTANCE_TEMP_EST";
  id = 0x481;
}

abbrev pub controller_target_vel_max_iq_cont_volt : Message
controller_target_vel_max_iq_cont_volt = record {
  name = "CONTROLLER_TARGET_VEL_MAX_IQ_CONT_VOLT";
  id = 0x501;
}

abbrev pub controller_drive_control : Message
controller_drive_control = record { name = "CONTROLLER_DRIVE_CONTROL"; id = 0x205 }

abbrev pub dash_status : Message
dash_status = record { name = "DASH_STATUS"; id = 0x1c0 }

abbrev pub dash_odo_from_dash : Message
dash_odo_from_dash = record { name = "ODO_FROM_DASH"; id = 0x2c0 }

abbrev pub dash_status2 : Message
dash_status2 = record { name = "DASH_STATUS2"; id = 0x440 }

abbrev pub dash_status3 : Message
dash_status3 = record { name = "DASH_STATUS3"; id = 0x540 }

abbrev pub dash_odo_to_dash : Message
dash_odo_to_dash = record { name = "DASH_ODO_TO_DASH"; id = 0x3c0 }

abbrev pub bms_pack_status : Message
bms_pack_status = record { name = "BMS_PACK_STATUS"; id = 0x188 }

abbrev pub bms_pack_config : Message
bms_pack_config = record { name = "BMS_PACK_CONFIG"; id = 0x288 }

abbrev pub bms_pack_stats : Message
bms_pack_stats = record { name = "BMS_PACK_STATS"; id = 0x308 }

abbrev pub bms_cell_voltage : Message
bms_cell_voltage = record { name = "BMS_CELL_VOLTAGE"; id = 0x388 }

abbrev pub bms_pack_active_data : Message
bms_pack_active_data = record { name = "BMS_PACK_ACTIVE_DATA"; id = 0x408 }

abbrev pub bms_pack_temp_data : Message
bms_pack_temp_data = record { name = "BMS_PACK_TEMP_DATA"; id = 0x488 }

abbrev pub bms_pack_time : Message
bms_pack_time = record { name = "BMS_PACK_TIME"; id = 0x508 }

abbrev pub bms_control : Message
bms_control = record { name = "BMS_CONTROL"; id = 0x506 }

abbrev pub bms1_pack_status : Message
bms1_pack_status = record { name = "BMS1_PACK_STATUS"; id = 0x189 }

abbrev pub bms1_pack_config : Message
bms1_pack_config = record { name = "BMS1_PACK_CONFIG"; id = 0x289 }

abbrev pub bms1_pack_stats : Message
bms1_pack_stats = record { name = "BMS1_PACK_STATS"; id = 0x309 }

abbrev pub bms1_cell_voltage : Message
bms1_cell_voltage = record { name = "BMS1_CELL_VOLTAGE"; id = 0x389 }

abbrev pub bms1_pack_active_data : Message
bms1_pack_active_data = record { name = "BMS1_PACK_ACTIVE_DATA"; id = 0x409 }

abbrev pub bms1_pack_temp_data : Message
bms1_pack_temp_data = record { name = "BMS1_PACK_TEMP_DATA"; id = 0x489 }

abbrev pub bms1_pack_time : Message
bms1_pack_time = record { name = "BMS1_PACK_TIME"; id = 0x509 }

abbrev pub calex_charge_status : Message
calex_charge_status = record { name = "CALEX_CHARGE_STATUS"; id = 0x192 }

abbrev pub t_calex_max_charge_voltage_current : Message
t_calex_max_charge_voltage_current = record {
  name = "T_CALEX_MAX_CHARGE_VOLTAGE_CURRENT";
  id = 0x292;
}

abbrev pub calexmx_charge_status : Message
calexmx_charge_status = record { name = "CALEXMX_CHARGE_STATUS"; id = 0x193 }

abbrev pub t_calexmx_max_charge_voltage_current : Message
t_calexmx_max_charge_voltage_current = record {
  name = "T_CALEXMX_MAX_CHARGE_VOLTAGE_CURRENT";
  id = 0x293;
}

abbrev pub ccu_charge_status : Message
ccu_charge_status = record { name = "CCU_CHARGE_STATUS"; id = 0x190 }

abbrev pub t_ccu_max_charge_voltage_current : Message
t_ccu_max_charge_voltage_current = record { name = "T_CCU_MAX_CHARGE_VOLTAGE_CURRENT"; id = 0x290 }

abbrev pub calex_charge_control : Message
calex_charge_control = record { name = "CALEX_CHARGE_CONTROL"; id = 0x206 }

abbrev pub r_calex_max_charge_voltage_current : Message
r_calex_max_charge_voltage_current = record {
  name = "R_CALEX_MAX_CHARGE_VOLTAGE_CURRENT";
  id = 0x306;
}

abbrev pub calex_taper_cutoff_current : Message
calex_taper_cutoff_current = record { name = "CALEX_TAPER_CUTOFF_CURRENT"; id = 0x406 }

abbrev pub zero_messages : List Message
zero_messages =
    controller_speed_torque ∷ controller_rpm_throttle_mot_temp ∷ controller_temp_digital_in_18
    ∷ controller_volt_mod_inductance_temp_est ∷ controller_target_vel_max_iq_cont_volt
    ∷ controller_drive_control ∷ dash_status ∷ dash_odo_from_dash ∷ dash_status2 ∷ dash_status3
    ∷ dash_odo_to_dash ∷ bms_pack_status ∷ bms_pack_config ∷ bms_pack_stats ∷ bms_cell_voltage
    ∷ bms_pack_active_data ∷ bms_pack_temp_data ∷ bms_pack_time ∷ bms_control ∷ bms1_pack_status
    ∷ bms1_pack_config ∷ bms1_pack_stats ∷ bms1_cell_voltage ∷ bms1_pack_active_data
    ∷ bms1_pack_temp_data ∷ bms1_pack_time ∷ calex_charge_status
    ∷ t_calex_max_charge_voltage_current ∷ calex_charge_control ∷ r_calex_max_charge_voltage_current
    ∷ calex_taper_cutoff_current ∷ calexmx_charge_status ∷ t_calexmx_max_charge_voltage_current
    ∷ ccu_charge_status ∷ t_ccu_max_charge_voltage_current ∷ []

abbrev pub zero_dash_message : List Message
zero_dash_message =
    dash_status ∷ dash_odo_from_dash ∷ dash_status2 ∷ dash_status3 ∷ dash_odo_to_dash ∷ []

abbrev pub zero_controller_message : List Message
zero_controller_message =
    controller_speed_torque ∷ controller_rpm_throttle_mot_temp ∷ controller_temp_digital_in_18
    ∷ controller_volt_mod_inductance_temp_est ∷ controller_target_vel_max_iq_cont_volt
    ∷ controller_drive_control ∷ []

abbrev pub zero_calex_message : List Message
zero_calex_message =
    calex_charge_status ∷ t_calex_max_charge_voltage_current ∷ calex_charge_control
    ∷ r_calex_max_charge_voltage_current ∷ calex_taper_cutoff_current ∷ calexmx_charge_status
    ∷ t_calexmx_max_charge_voltage_current ∷ ccu_charge_status ∷ t_ccu_max_charge_voltage_current
    ∷ []

abbrev pub zero_bms_message : List Message
zero_bms_message =
    bms_pack_status ∷ bms_pack_config ∷ bms_pack_stats ∷ bms_cell_voltage ∷ bms_pack_active_data
    ∷ bms_pack_temp_data ∷ bms_pack_time ∷ bms_control ∷ []

abbrev pub zero_bms1_message : List Message
zero_bms1_message =
    bms1_pack_status ∷ bms1_pack_config ∷ bms1_pack_stats ∷ bms1_cell_voltage
    ∷ bms1_pack_active_data ∷ bms1_pack_temp_data ∷ bms1_pack_time ∷ bms_control ∷ []

-- The first message of a list with a given id.
unfoldable pub find_message : ℕ → List Message → Option Message
find_message can_id [] = none
find_message can_id (m ∷ ms) = if can_id == m.id then some m else find_message can_id ms
