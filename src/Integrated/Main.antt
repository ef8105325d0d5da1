-- ===== src/Integrated/Main.antt =====
-- `loop` of v2.6/v2.6.ino.
use scv2_sketches.Prelude.{
  ℕ, ◌-◌, ◌*◌, ◌/◌, if◌then◌else◌, ◌>>=◌, Bool, Option, none, some, List, [], ◌∷◌, Frame, high_byte,
  low_byte, u32, slt32, sdiv32,
}
use scv2_sketches.V3.BikeLoop.{Received, Sent, Floats}
use scv2_sketches.Integrated.Tables.{Row}
use scv2_sketches.Integrated.State.{Controller}
use scv2_sketches.Integrated.Charging.{set_charging_amps}
use scv2_sketches.Integrated.Settings.{Command, read_commands}
use scv2_sketches.Integrated.Buses.{charger_frames, bike_frames}

abbrev pub version : ℕ
version = 3

-- The values of the line that is printed.
unfoldable pub report : Controller → List ℕ
report s =
    s.volts
    ∷ sdiv32 s.monolith_volts 100
    ∷ sdiv32 s.power_tank_volts 100
    ∷ u32 (s.charging_amps * s.charger_count)
    ∷ s.monolith_amps
    ∷ s.power_tank_amps
    ∷ s.monolith_ah
    ∷ s.power_tank_ah
    ∷ sdiv32 s.c_rate 10
    ∷ s.monolith_min_temp
    ∷ s.monolith_max_temp
    ∷ s.power_tank_min_temp
    ∷ s.power_tank_max_temp
    ∷ s.charger_count
    ∷ (s.watts / 100)
    ∷ (s.max_station_watts / 100)
    ∷ s.c_plus
    ∷ (s.ramp_rate / 100)
    ∷ version
    ∷ []

-- What a pass finds; `serial` is the test of the Bluetooth port.
pub record Input : Type 0 where
  pub commands : List Command
  pub from_chargers : List Frame
  pub from_bike : List Received
  pub serial : Bool

-- What it sends: on the bike's bus, to the chargers, and on the serial port.
pub record Output : Type 0 where
  pub bike_bus : List Sent
  pub heartbeat : Option Frame
  pub line : List ℕ

unfoldable pub tick : Controller → Controller
tick s =
    if slt32 0 s.delay_itteration then record s { delay_itteration = s.delay_itteration - 1 } else s

unfoldable pub announce : Controller → Controller
announce s = record s {
  heartbeat = record (s.heartbeat) {
    b2 = high_byte s.charging_amps;
    b3 = low_byte s.charging_amps;
  };
}

-- The body of `if (delayItteration < 1)`, but for the line and the sending.
unfoldable pub control : List Row → Controller → Option Controller
control past_end s = do
  t ← set_charging_amps past_end (record s { delay_itteration = 22000 })
  some (announce t)

unfoldable pub loop : List Row → Floats → Input → Controller → Option (Controller × Output)
loop past_end fl i s =
    let heard = charger_frames i.from_chargers (read_commands i.commands s) in
    let (u, sent) = bike_frames fl i.from_bike heard in
    let t = tick u in
    let run = do
      c ← control past_end t
      some (
        c,
        record {
          bike_bus = sent;
          heartbeat = some c.heartbeat;
          line = if i.serial then report c else [];
        },
      )
    in if slt32 t.delay_itteration 1
      then run
      else some (t, record { bike_bus = sent; heartbeat = none; line = [] })
