-- ===== src/Monitor/Pass.antt =====
-- `setup` and `loop` of Zero_charge_monitoring/Zero_charge_monitoring.ino. The calls of the decoders
-- of libraries/ZERO_MOTORCYCLE have an argument more than the methods, which do not read it.
use scv2_sketches.Prelude.{
  ℕ, ◌+◌, ◌-◌, ◌*◌, ◌%◌, ◌==◌, ltb, if◌then◌else◌, ◌>>=◌, Bool, ◌||◌, Option, none, some, List, [],
  ◌∷◌, ◌++◌, set, take, Frame, u16, u32, slt16, slt32, sdiv32, abs_short,
}
use scv2_sketches.Scv2
use scv2_sketches.Zero.Network.{dash_status2, dash_status3}
use scv2_sketches.Zero.Predicates.{has_monolith_voltage, has_monolith_amps, has_throttle}
use scv2_sketches.Zero.Decode
use scv2_sketches.Zero.Decode.{byte0, byte1}
use scv2_sketches.V3.BikeLoop.{Received, Sent}
use scv2_sketches.Monitor.State.{
  min_volts, default_amps, default_watts, message_threshold, sc_stale_threshold,
  bike_stale_threshold, count_scv2_threshold, Monitor,
}
use scv2_sketches.Monitor.Command.{
  is_ready_to_charge, set_output_volts, set_voltage_diff, send_charge_command, reset_charging,
}

abbrev pub version : ℕ
version = 3

-- The conversions for the dash, made in floating point and cut to a `short`.
pub record DashFloats : Type 0 where
  pub dash_volts : ℕ → ℕ
  pub dash_amps : ℕ → ℕ

-- A line of two numbers from the phone, as `toInt` gives them.
pub record Settings : Type 0 where
  pub volts : ℕ
  pub watts : ℕ

-- What a pass finds: a frame at most on each bus. The two `junk` frames are what the buffers of
-- `sendChargingCommand` hold before their first byte is set.
pub record Input : Type 0 where
  pub serial : Bool
  pub commands : List Settings
  pub from_charger : Option Frame
  pub from_bike : Option Received
  pub charger_junk : Frame
  pub bike_junk : Frame

pub record Output : Type 0 where
  pub to_chargers : List Frame
  pub bike_bus : List Sent
  pub line : List ℕ

unfoldable pub setup : Monitor → Monitor
setup s =
    let t = set_output_volts s.eeprom.end_volts (record s {
      target_watts = s.eeprom.target_watts;
      end_volts = s.eeprom.end_volts;
      target_amps = default_amps;
    }) in
    record t { bike_voltage = 0; bike_amps = 0 }

unfoldable pub log_details : Bool → Monitor → List ℕ
log_details serial s =
    if serial
    then sdiv32 s.bike_voltage 100
      ∷ sdiv32 s.end_volts 100
      ∷ s.charger_amps
      ∷ s.target_watts
      ∷ s.connected_chargers
      ∷ version
      ∷ []
    else []

-- Each 22001 passes a command goes out, and the chargers are counted anew.
unfoldable pub window : Bool → Monitor → Option (Monitor × List Frame × List ℕ)
window serial s =
    let t = record s { charger_wait_count = u16 (s.charger_wait_count + 1) } in
    let due = do
      (u, sent) ← if is_ready_to_charge t then send_charge_command t else some (t, [])
      some (record u { connected_chargers = 0; charger_wait_count = 0 }, sent, log_details serial t)
    in if slt16 count_scv2_threshold t.charger_wait_count then due else some (t, [], [])

unfoldable pub command : Settings → Monitor → Monitor
command c s =
    let volts = if slt32 (u32 (c.volts * 100)) min_volts then min_volts else u32 (c.volts * 100) in
    let watts = if slt32 c.watts 0 then default_watts else c.watts in
    record s {
      end_volts = volts;
      target_watts = watts;
      eeprom = record { target_watts = watts; end_volts = volts };
    }

unfoldable pub commands : List Settings → Monitor → Monitor
commands [] s = s
commands (c ∷ cs) s = commands cs (command c s)

-- The sum of shorts, as a short.
abbrev pub sum : List ℕ → ℕ
sum [] = 0
sum (x ∷ xs) = u16 (x + sum xs)

-- A frame from a charger. The list has 16 places: a write outside of it is undefined.
unfoldable pub charger_frame : Frame → Frame → Monitor → Option (Monitor × List Sent)
charger_frame junk f s =
    let connected = (s.connected_chargers + 1) % 256 in
    let list = set s.charger_amps_list (connected - 1) (Scv2.amps f) in
    if connected == 0 || ltb 16 connected
    then none
    else some (
        set_voltage_diff junk (record s {
          sc_stale_count = 0;
          connected_chargers = connected;
          charger_voltage_holder = Scv2.voltage f * 100;
          charger_amps_list = list;
          charger_amps = sum (take connected list);
        }))

unfoldable pub on_voltage : Frame → Received → Monitor → Monitor × List Sent
on_voltage junk r s =
    if has_monolith_voltage r.can_id
    then set_voltage_diff junk (record s { bike_voltage = Decode.voltage r.buf })
    else (s, [])

unfoldable pub on_amps : Received → Monitor → Monitor
on_amps r s = if has_monolith_amps r.can_id then record s { bike_amps = Decode.amps r.buf } else s

unfoldable pub on_throttle : Received → Monitor → Monitor
on_throttle r s = if has_throttle r.can_id then record s { throttle = Decode.throttle r.buf } else s

-- The frames of the dash.
unfoldable pub answer : DashFloats → Received → Monitor → List Sent
answer fl r s =
    let volts = fl.dash_volts s.bike_voltage in
    let amps = fl.dash_amps (abs_short s.bike_amps) in
    if slt16 s.throttle 300
    then (if r.can_id == dash_status3.id
        then record {
          id = dash_status3.id;
          len = r.len;
          buf = record (r.buf) { b2 = byte0 volts; b3 = byte1 volts };
        }
          ∷ []
        else [])
      ++ (if r.can_id == dash_status2.id
          then record {
            id = dash_status2.id;
            len = r.len;
            buf = record (r.buf) { b4 = byte0 amps; b5 = byte1 amps };
          }
            ∷ []
          else [])
    else []

-- A frame from the motorcycle.
unfoldable pub bike_frame : DashFloats → Frame → Received → Monitor → Monitor × List Sent
bike_frame fl junk r s =
    let (t, sent) = on_voltage junk r (record s { bike_stale_count = 0 }) in
    let u = on_throttle r (on_amps r t) in (u, sent ++ answer fl r u)

unfoldable pub count : Monitor → Monitor
count s = record s {
  bike_stale_count = u32 (s.bike_stale_count + 1);
  sc_stale_count = u32 (s.sc_stale_count + 1);
  message_count = u32 (s.message_count + 1);
}

unfoldable pub forget_chargers : Monitor → Monitor
forget_chargers s =
    if slt32 sc_stale_threshold s.sc_stale_count
    then reset_charging
        (record s { charger_voltage = 0; charger_amps = 0; charger_voltage_holder = 0 })
    else s

unfoldable pub forget_bike : Monitor → Monitor
forget_bike s =
    if slt32 bike_stale_threshold s.bike_stale_count
    then reset_charging (record s { bike_voltage = 0; bike_amps = 0 })
    else s

unfoldable pub restart_count : Monitor → Monitor
restart_count s =
    if slt32 message_threshold s.message_count then record s { message_count = 0 } else s

-- The end of a pass: what is stale is forgotten.
unfoldable pub age : Monitor → Monitor
age s = restart_count (forget_bike (forget_chargers (count s)))

unfoldable pub from_charger : Input → Monitor → Option (Monitor × List Sent)
from_charger i s = elim i.from_charger [
  | none ↦ some (s, [])
  | some f ↦ charger_frame i.charger_junk f s
]

unfoldable pub from_bike : DashFloats → Input → Monitor → Monitor × List Sent
from_bike fl i s = elim i.from_bike [ none ↦ (s, []) | some r ↦ bike_frame fl i.bike_junk r s ]

-- The part of `loop` behind the window.
unfoldable pub after_window :
    DashFloats → Input → Monitor → List Frame → List ℕ → Option (Monitor × Output)
after_window fl i s sent line = do
  (u, on_charger) ← from_charger i (if i.serial then commands i.commands s else s)
  let v = from_bike fl i u
  some (age v.0, record { to_chargers = sent; bike_bus = on_charger ++ v.1; line = line })

unfoldable pub loop : DashFloats → Input → Monitor → Option (Monitor × Output)
loop fl i s = do (t, sent, line) ← window i.serial s; after_window fl i t sent line
