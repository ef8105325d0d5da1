-- ===== src/LoadShare/Serial.antt =====
-- `setChargingAmps` and `loop` of 5.7kw_load_share-SERIAL/5.7kw_load_share-SERIAL.ino, statement by
-- statement, on an Arduino Uno. The globals, `readCommands` and `setup` are those of the other load
-- share sketches, less the flag of the interrupt, which it leaves alone.
use scv2_sketches.Prelude.{
  ℕ, ◌+◌, ◌*◌, ◌/◌, ◌==◌, ltb, if◌then◌else◌, ◌>>=◌, Bool, ◌&&◌, Option, none, some, List, [], ◌∷◌,
  Frame, word, u16, u32, sub32, high_byte, low_byte,
}
use scv2_sketches.LoadShare.State.{Row, State}
use scv2_sketches.LoadShare.Loop.{read_commands}

-- The two arrays, side by side.
abbrev pub cutback_rows : List Row
cutback_rows =
    (900, 990000)
    ∷ (1040, 750000)
    ∷ (1110, 660000)
    ∷ (1130, 550000)
    ∷ (1140, 450000)
    ∷ (1150, 330000)
    ∷ (1155, 280000)
    ∷ (1160, 220000)
    ∷ []

-- `setChargingAmps`: a division by zero is undefined.
unfoldable pub serial_charging_amps : State → Option State
serial_charging_amps s =
    if s.volts == 0
    then none
    else (if s.charger_count == 0
        then none
        else some (record s { charging_amps = u16 (s.watts / s.volts / s.charger_count) }))

unfoldable pub serial_amps : State → Option State
serial_amps s = if ltb 0 s.watts then serial_charging_amps s else some s

unfoldable pub clear : State → State
clear s = record s { charger_count = 0; volts = 0; amps = 0; last_watts = s.watts; watts = 0 }

-- The frame is added up, and the voltage is a mean.
unfoldable pub hear : Frame → State → State
hear f s = record s {
  charger_count = s.charger_count + 1;
  volts = u16 (s.volts + word f.b0 f.b1);
  amps = u16 (s.amps + word f.b2 f.b3);
}

unfoldable pub mean : State → State
mean s = if ltb 1 s.charger_count then record s { volts = s.volts / s.charger_count } else s

-- `amps * volts` is made in 16 bits; the watts are at least those of the last cycle.
unfoldable pub draw : State → State
draw s =
    let drawn = u16 (s.amps * s.volts) in
    record s { watts = if ltb drawn s.last_watts then s.last_watts else drawn }

-- The ramp and the station's limit.
unfoldable pub steer : State → State
steer s =
    let station = u32 (s.watts + 7600) in
    let ramped = if ltb station s.max_station_watts then u32 (s.watts + 50000) else s.watts in
    record s {
      station_watts = station;
      watts = if ltb s.max_station_watts station then sub32 s.max_station_watts 7600 else ramped;
    }

unfoldable pub halt_above : State → State
halt_above s = if ltb 1164 s.volts then record s { watts = 0 } else s

unfoldable pub lower : List Row → State → State
lower [] s = s
lower ((volts, limit) ∷ rows) s = lower rows (
    if ltb volts s.volts && ltb limit s.watts
    then record s { max_station_watts = limit; watts = limit }
    else s)

unfoldable pub halt_below : State → State
halt_below s = if ltb s.volts 700 then record s { watts = 0 } else s

-- Everything up to the division.
unfoldable pub serial_watts : Frame → State → State
serial_watts f s =
    halt_below (lower cutback_rows (halt_above (steer (draw (mean (hear f (clear s)))))))

unfoldable pub serial_beat : State → State
serial_beat s = record s {
  heartbeat = record (s.heartbeat) {
    b2 = high_byte s.charging_amps;
    b3 = low_byte s.charging_amps;
  };
}

unfoldable pub serial_line : State → List ℕ
serial_line s = s.volts ∷ s.amps ∷ s.charger_count ∷ (s.watts / 100) ∷ 2 ∷ []

-- A pass takes one frame at most, from a CAN module on a serial line, and prints its bytes. It sends
-- no heartbeat: the call is commented out.
unfoldable pub serial_loop : List ℕ → Option Frame → Bool → State → Option (State × List ℕ × List ℕ)
serial_loop targets none serial s =
    let t = read_commands targets s in some (t, [], if serial then serial_line t else [])
serial_loop targets (some f) serial s = do
  t ← serial_amps (serial_watts f (read_commands targets s))
  let u = serial_beat t
  some (
    u,
    f.b0 ∷ f.b1 ∷ f.b2 ∷ f.b3 ∷ f.b4 ∷ f.b5 ∷ f.b6 ∷ f.b7 ∷ [],
    if serial then serial_line u else [],
  )
