-- ===== src/SuperCharger/Heartbeat.antt =====
-- `superChargerLoop` and `superCharge` of libraries/DIGINOW_SUPERCHARGER/SC.h: frames come in from
-- the chargers, and the heartbeat goes out to them. `superChargerSetup` only starts the CAN chip.
use scv2_sketches.Prelude.{Option, List, [], ◌∷◌, Frame, word, high_byte, low_byte, u16}
use scv2_sketches.Zero.Decode.{byte0, byte1}
use scv2_sketches.SuperCharger.State.{Setup, Charger}
use scv2_sketches.SuperCharger.Charging.{set_charging_amps}

-- The loop over the frames that are waiting: each overwrites the voltage.
unfoldable pub receive : List Frame → Charger → Charger
receive [] s = s
receive (f ∷ frames) s = receive frames (record s { volts = word f.b0 f.b1 })

unfoldable pub super_charger_loop : Setup → List Frame → Charger → Option Charger
super_charger_loop k frames s = set_charging_amps k (receive frames s)

-- The frame that is sent. The voltage is copied byte by byte out of a little-endian union.
unfoldable pub super_charge : Charger → Charger
super_charge s = record s {
  heartbeat = record (s.heartbeat) {
    b0 = byte0 (u16 s.output_volts_end);
    b1 = byte1 (u16 s.output_volts_end);
    b2 = high_byte s.charging_amps;
    b3 = low_byte s.charging_amps;
  };
}
