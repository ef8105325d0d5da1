-- ===== src/LoadShare/Cycle.antt =====
-- One control cycle of a load share sketch: the body of `if (flagRecv)` in `loop`, statement by
-- statement, and `setChargingAmps`.
use scv2_sketches.Prelude.{
  ℕ, ◌+◌, ◌*◌, ◌/◌, ◌==◌, ltb, if◌then◌else◌, ◌>>=◌, false, ◌&&◌, Option, none, some, List, [], ◌∷◌,
  Frame, word, u16, u32, sub32, high_byte, low_byte,
}
use scv2_sketches.LoadShare.State.{
  Row, Board, uno, mkr, step_down, lower_target, Sketch, max_12v_watts, State,
}

-- A product of two `unsigned short`s, converted to `unsigned long`: it is made in the board's `int`
-- or `unsigned int`.
unfoldable pub product : Board → ℕ → ℕ → ℕ
product uno a b = u16 (a * b)
product mkr a b = u32 (a * b)

-- A division by zero is undefined.
unfoldable pub set_charging_amps : State → Option State
set_charging_amps s =
    if s.volts == 0
    then none
    else (if s.charger_count == 0
        then none
        else some (record s { charging_amps = u16 (s.watts / s.volts / s.charger_count) }))

unfoldable pub start : State → State
start s = record s {
  flag_recv = false;
  charger_count = 0;
  volts = 0;
  amps = 0;
  last_watts = s.watts;
  watts = 0;
}

-- The loop over the frames that are waiting.
unfoldable pub receive : List Frame → State → State
receive [] s = s
receive (f ∷ frames) s = receive frames (record s {
  charger_count = s.charger_count + 1;
  volts = u16 (s.volts + word f.b0 f.b1);
  amps = u16 (s.amps + word f.b2 f.b3);
})

unfoldable pub average : State → State
average s = if ltb 1 s.charger_count then record s { volts = s.volts / s.charger_count } else s

-- The watts that the chargers report, at least those of the last cycle.
unfoldable pub measured : Board → State → ℕ
measured board s =
    let watts = product board s.amps s.volts in
    if ltb watts s.last_watts then s.last_watts else watts

unfoldable pub measure : Board → State → State
measure board s = record s {
  watts = measured board s;
  station_watts = u32 (measured board s + max_12v_watts);
}

-- The slow ramp below the target, and the cap above it. Both read the same `stationWatts`.
unfoldable pub regulate : Sketch → State → State
regulate k s =
    let up =
      if ltb s.station_watts s.max_station_watts then u32 (s.watts + k.ramp_rate) else s.watts in
    record s {
      watts =
          if ltb s.max_station_watts s.station_watts
          then sub32 s.max_station_watts max_12v_watts
          else up;
    }

unfoldable pub stop_above : Sketch → State → State
stop_above k s = if ltb k.output_volts_max s.volts then record s { watts = 0 } else s

-- What a cutback row does where it applies.
unfoldable pub cut_row : Sketch → ℕ → State → State
cut_row k limit s = elim k.rule [
  | step_down ↦ record s { watts = sub32 s.watts k.ramp_rate }
  | lower_target ↦ record s { max_station_watts = limit; watts = limit }
]

-- The loop over the cutback table.
unfoldable pub cutback : Sketch → List Row → State → State
cutback k [] s = s
cutback k ((volts, limit) ∷ rows) s =
    cutback k rows (if ltb volts s.volts && ltb limit s.watts then cut_row k limit s else s)

unfoldable pub stop_below : Sketch → State → State
stop_below k s = if ltb s.volts k.output_volts_min then record s { watts = 0 } else s

-- Everything up to the division: the new watts and the new target.
unfoldable pub decide : Sketch → Board → List Frame → State → State
decide k board frames s = stop_below k (
    cutback k k.cutback
      (stop_above k (regulate k (measure board (average (receive frames (start s)))))))

-- `if (watts > 0) setChargingAmps();`
unfoldable pub grant : State → Option State
grant s = if ltb 0 s.watts then set_charging_amps s else some s

-- The amps go into the heartbeat, high byte first.
unfoldable pub announce : State → State
announce s = record s {
  heartbeat = record (s.heartbeat) {
    b2 = high_byte s.charging_amps;
    b3 = low_byte s.charging_amps;
  };
}

unfoldable pub cycle : Sketch → Board → List Frame → State → Option State
cycle k board frames s = do t ← grant (decide k board frames s); some (announce t)
