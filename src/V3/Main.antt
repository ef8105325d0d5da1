-- ===== src/V3/Main.antt =====
-- `setup` and `loop` of v3/v3.ino, and the line that v3/debug.h prints.
use scv2_sketches.Prelude.{
  ℕ, ◌-◌, ◌*◌, ◌/◌, if◌then◌else◌, ◌>>=◌, Option, none, some, List, [], ◌∷◌, ◌++◌, Frame, u32,
  slt32, sdiv32,
}
use scv2_sketches.Zero.Network.{ccu_charge_status, calexmx_charge_status, calex_charge_status}
use scv2_sketches.SuperCharger.State.{Setup, delay_start}
use scv2_sketches.SuperCharger.Heartbeat.{super_charger_loop, super_charge}
use scv2_sketches.V3.State.{Bike}
use scv2_sketches.V3.BikeLoop.{Received, Sent, Floats, bike_loop}
use scv2_sketches.V3.Phone.{Write, poll, ble_setup}

abbrev pub version : ℕ
version = 4

-- The values of `debugSCLog`. `debugSCFlag` is 0, so it prints whether or not the port is open.
unfoldable pub debug_sc_log : Bike → List ℕ
debug_sc_log s =
    s.charger.volts
    ∷ sdiv32 s.monolith_volts 100
    ∷ sdiv32 s.power_tank_volts 100
    ∷ u32 (s.charger.charging_amps * s.charger.charger_count)
    ∷ s.monolith_amps
    ∷ s.power_tank_amps
    ∷ s.monolith_ah
    ∷ s.power_tank_ah
    ∷ sdiv32 s.charger.c_rate 10
    ∷ s.monolith_min_temp
    ∷ s.monolith_max_temp
    ∷ s.power_tank_min_temp
    ∷ s.power_tank_max_temp
    ∷ s.charger.charger_count
    ∷ (s.charger.watts / 100)
    ∷ (s.charger.max_station_watts / 100)
    ∷ s.charger.c_plus
    ∷ (s.charger.ramp_rate / 100)
    ∷ version
    ∷ []

unfoldable pub setup : Setup → Bike → Bike
setup k s = ble_setup k (record s { charger = record (s.charger) { output_volts_end = 1320 } })

-- What a pass of `loop` finds. `junk` holds the seven bytes of `chargingBuf` that are not written.
pub record Input : Type 0 where
  pub central : List Write
  pub bike_frames : List Received
  pub charger_frames : List Frame
  pub polled : List Write
  pub junk : Frame

-- What it sends: on the bike's bus, to the chargers, and on the serial port.
pub record Output : Type 0 where
  pub bike_bus : List Sent
  pub heartbeat : Option Frame
  pub line : List ℕ

unfoldable pub tick : Bike → Bike
tick s =
    let d = s.charger.delay_itteration in
    if slt32 0 d then record s { charger = record (s.charger) { delay_itteration = d - 1 } } else s

-- The three frames that tell the motorcycle that it is being charged.
unfoldable pub charging_status : Frame → List Sent
charging_status junk =
    let buf = record junk { b0 = 1 } in
    record { id = ccu_charge_status.id; len = 8; buf = buf }
    ∷ record { id = calexmx_charge_status.id; len = 8; buf = buf }
    ∷ record { id = calex_charge_status.id; len = 8; buf = buf }
    ∷ []

-- The body of `if (delayItteration < 1)`.
unfoldable pub control : Setup → Input → Bike → Option (Bike × Output)
control k i s = do
  c ←
      super_charger_loop k i.charger_frames
        (record (s.charger) { delay_itteration = delay_start / 2 })
  let polled = poll i.polled (record s { charger = c })
  let t = record polled { charger = super_charge polled.charger }
  some (
    t,
    record {
      bike_bus = charging_status i.junk;
      heartbeat = some t.charger.heartbeat;
      line = debug_sc_log t;
    },
  )

unfoldable pub loop : Setup → Floats → Input → Bike → Option (Bike × Output)
loop k fl i s =
    let (s', sent) = bike_loop fl i.bike_frames (poll i.central s) in
    let t = tick s' in
    let run = do (u, o) ← control k i t; some (u, record o { bike_bus = sent ++ o.bike_bus })
    in if slt32 t.charger.delay_itteration 1
      then run
      else some (t, record { bike_bus = sent; heartbeat = none; line = [] })
