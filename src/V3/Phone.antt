-- ===== src/V3/Phone.antt =====
-- The BLE side of the sketch v3: v3/ZERO_V3_BLE.h. A write by a phone is an event; `BLE.begin` is
-- taken to succeed. `blePeripheralConnectHandler` and its sibling are empty and never installed.
use scv2_sketches.Prelude.{ℕ, List, [], ◌∷◌, u16}
use scv2_sketches.SuperCharger.State.{Setup}
use scv2_sketches.V3.State.{Bike}

-- The characteristics that a phone may write.
pub data Write : Type 0 where
  target_volts : ℕ → Write
  max_watts : ℕ → Write
  count : ℕ → Write
  units : ℕ → Write
  battery_max : ℕ → Write

unfoldable pub user_update : Bike → Bike
user_update s = record s {
  charger = record (s.charger) {
    output_volts_end = s.ble.charger_target_volts;
    max_station_watts = s.ble.charger_max_watts;
    charger_count = s.ble.charger_count_ble;
  };
}

-- The handler `userUpdate` is installed on three of the characteristics.
unfoldable pub written : Write → Bike → Bike
unfolding user_update
written (target_volts n) s =
    user_update (record s { ble = record (s.ble) { charger_target_volts = n } })
written (max_watts n) s = user_update (record s { ble = record (s.ble) { charger_max_watts = n } })
written (count n) s = record s { ble = record (s.ble) { charger_count_ble = n } }
written (units n) s = user_update (record s { ble = record (s.ble) { ble_units = n } })
written (battery_max n) s = record s { ble = record (s.ble) { battery_max_volts = n } }

-- The writes that a call of `BLE.central` or `BLE.poll` delivers.
unfoldable pub poll : List Write → Bike → Bike
poll [] s = s
poll (w ∷ ws) s = poll ws (written w s)

-- `bleLoop`: every characteristic but the units is set from the globals. No code calls it.
unfoldable pub ble_loop : Setup → Bike → Bike
ble_loop k s = record s {
  ble = record (s.ble) {
    battery1_volts = s.monolith_volts;
    battery2_volts = s.power_tank_volts;
    battery1_amps = u16 s.monolith_amps;
    battery2_amps = u16 s.power_tank_amps;
    battery1_temp1 = u16 s.monolith_min_temp;
    battery1_temp2 = u16 s.monolith_max_temp;
    battery2_temp1 = u16 s.power_tank_min_temp;
    battery2_temp2 = u16 s.power_tank_max_temp;
    battery1_ah = u16 s.monolith_ah;
    battery2_ah = u16 s.power_tank_ah;
    battery_max_volts = k.volts_max;
    charger_target_volts = s.charger.output_volts_end;
    charger_target_watts = u16 s.charger.watts;
    charger_max_watts = s.charger.max_station_watts;
    charger_count_ble = s.charger.charger_count;
  };
}

-- The values that `bleSetup` sets: those of `bleLoop`, and the units.
unfoldable pub ble_setup : Setup → Bike → Bike
unfolding ble_loop
ble_setup k s = let s' = ble_loop k s in record s' { ble = record (s'.ble) { ble_units = 0 } }
