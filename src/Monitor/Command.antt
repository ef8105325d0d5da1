-- ===== src/Monitor/Command.antt =====
-- The decisions and commands of Zero_charge_monitoring/Zero_charge_monitoring.ino.
use scv2_sketches.Prelude.{
  ℕ, ◌*◌, ◌==◌, if◌then◌else◌, ◌>>=◌, Bool, ◌&&◌, Option, none, some, List, [], ◌∷◌, ◌+◌, Frame,
  high_byte, low_byte, u16, u32, sub32, slt32, sdiv32,
}
use scv2_sketches.Zero.Network.{calex_charge_status}
use scv2_sketches.V3.BikeLoop.{Sent}
use scv2_sketches.Monitor.State.{min_volts, Monitor}

unfoldable pub is_ready_to_charge : Monitor → Bool
is_ready_to_charge s =
    slt32 min_volts s.bike_voltage
    && slt32 min_volts s.charger_voltage_holder
    && slt32 s.charger_voltage_holder s.end_volts

unfoldable pub should_charge : Monitor → Bool
should_charge s =
    slt32 min_volts s.bike_voltage
    && slt32 s.bike_voltage s.end_volts
    && slt32 s.charger_voltage s.end_volts

-- The two low bytes of the `long` are copied into a `short`.
unfoldable pub set_output_volts : ℕ → Monitor → Monitor
set_output_volts volts s = record s { desired_output_volts = u16 (sdiv32 volts 100) }

-- Sent to the motorcycle. Only the first byte of the buffer is set.
unfoldable pub send_charging_command : Frame → Monitor → List Sent
send_charging_command junk s =
    if should_charge s
    then record { id = calex_charge_status.id; len = 8; buf = record junk { b0 = 1 } } ∷ []
    else []

-- The chargers' voltage is smoothed, and the voltage that they are asked for is moved by how far
-- they were from the motorcycle's.
unfoldable pub set_voltage_diff : Frame → Monitor → Monitor × List Sent
set_voltage_diff junk s =
    let diff = sub32 s.bike_voltage s.charger_voltage in
    let smooth = sdiv32 (u32 (s.charger_voltage_holder + s.charger_voltage)) 2 in
    let t =
      set_output_volts (sub32 s.end_volts diff)
        (record s { voltage_diff = diff; charger_voltage = smooth }) in
    if is_ready_to_charge s then (t, send_charging_command junk t) else (s, [])

-- The amps of one charger. A division by zero is undefined.
unfoldable pub output_amps : Monitor → Option ℕ
output_amps s =
    let volts = sdiv32 s.bike_voltage 100 in
    if volts == 0
    then none
    else (if s.connected_chargers == 0
        then none
        else some (u16 (sdiv32 (sdiv32 (u32 (s.target_watts * 100)) volts) s.connected_chargers)))

-- Sent to the chargers, with both values high byte first.
unfoldable pub send_charge_command : Monitor → Option (Monitor × List Frame)
send_charge_command s =
    let run = do
      amps ← output_amps s
      let message = record (s.charger_message) {
        b0 = high_byte s.desired_output_volts;
        b1 = low_byte s.desired_output_volts;
        b2 = high_byte amps;
        b3 = low_byte amps;
      }
      some (record s { desired_output_amps = amps; charger_message = message }, message ∷ [])
    in if should_charge s then run else some (s, [])

unfoldable pub reset_charging : Monitor → Monitor
reset_charging s = record s { desired_output_volts = 0; desired_output_amps = 0; voltage_diff = 0 }
