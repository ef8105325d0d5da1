-- ===== src/V3/BikeLoop.antt =====
-- `bikeLoop` of v3/ZERO_BIKE.h: one handler for each `if`, in the order of the source.
-- `bikeSetup` only starts the CAN chip.
use scv2_sketches.Prelude.{
  ℕ, ◌+◌, ◌*◌, ◌==◌, ltb, if◌then◌else◌, ◌&&◌, List, [], ◌∷◌, ◌++◌, Frame, u16, u32, sub32, sext,
  slt32, slt16, sdiv32, abs_short,
}
use scv2_sketches.Zero.Network.{dash_status2, dash_status3}
use scv2_sketches.Zero.Predicates.{
  has_monolith_voltage, has_monolith_amps, has_power_tank_voltage, has_power_tank_amps,
  has_monolith_pack_config, has_power_tank_pack_config, has_monolith_pack_active_data,
  has_power_tank_pack_active_data, has_throttle,
}
use scv2_sketches.Zero.Decode.{
  byte0, byte1, voltage, amps, amp_hours, highest_temp, lowest_temp, throttle,
}
use scv2_sketches.V3.State.{Bike}

-- A frame as `readMsgBuf` and `getCanId` give it. `stale_max` and `stale_min` are the bytes that
-- the decoders of the temperatures leave unwritten.
pub record Received : Type 0 where
  pub can_id : ℕ
  pub len : ℕ
  pub buf : Frame
  pub stale_max : ℕ
  pub stale_min : ℕ

-- A frame given to `sendMsgBuf`, all with standard ids on this bus.
pub record Sent : Type 0 where
  pub id : ℕ
  pub len : ℕ
  pub buf : Frame

-- The conversions `volts*10*KM_TO_MI` and `watts*MI_TO_KM*100`, made by the board's library of
-- floating point numbers and cut to a `long`.
pub record Floats : Type 0 where
  pub display_volts : ℕ → ℕ
  pub display_watts : ℕ → ℕ

unfoldable pub set_volts : ℕ → Bike → Bike
set_volts volts s = record s {
  bike_volts = volts;
  charger = record (s.charger) { volts = u16 (sdiv32 volts 100) };
}

unfoldable pub on_monolith_voltage : Received → Bike → Bike
unfolding set_volts
on_monolith_voltage r s =
    if has_monolith_voltage r.can_id
    then set_volts (voltage r.buf) (record s { monolith_volts = voltage r.buf })
    else s

-- `(AH - 2) * 10`, and a control cycle ten passes from now: a pack draws more than 1 C.
unfoldable pub over_current : ℕ → ℕ → Bike → Bike
over_current ah amps s =
    if slt32 0 ah && slt32 ah amps && ltb s.charger.c_plus 1 && slt32 10 s.charger.delay_itteration
    then record s {
      charger = record (s.charger) { charging_amps = u16 (sub32 ah 2 * 10); delay_itteration = 10 };
    }
    else s

unfoldable pub on_monolith_amps : Received → Bike → Bike
unfolding over_current
on_monolith_amps r s =
    let a = abs_short (amps r.buf) in
    if has_monolith_amps r.can_id
    then over_current s.monolith_ah a
        (record s { monolith_amps = a; bike_amps = u16 (a + s.power_tank_amps) })
    else s

unfoldable pub on_power_tank_voltage : Received → Bike → Bike
unfolding set_volts
on_power_tank_voltage r s =
    let v = voltage r.buf in
    let s' = record s { power_tank_volts = v } in
    if has_power_tank_voltage r.can_id
    then if slt32 s.bike_volts v then set_volts v s' else s'
    else s

unfoldable pub on_power_tank_amps : Received → Bike → Bike
unfolding over_current
on_power_tank_amps r s =
    let a = abs_short (amps r.buf) in
    if has_power_tank_amps r.can_id
    then over_current s.power_tank_ah a
        (record s { power_tank_amps = a; bike_amps = u16 (s.monolith_amps + a) })
    else s

-- `C_RATE` from the capacity of both packs.
abbrev pub pack_c_rate : ℕ → ℕ → ℕ
pack_c_rate monolith power_tank = u32 (u32 (monolith + power_tank) * 10)

unfoldable pub on_monolith_config : Received → Bike → Bike
on_monolith_config r s =
    let ah = sext (amp_hours r.buf) in
    if has_monolith_pack_config r.can_id
    then record s {
      monolith_ah = ah;
      charger = record (s.charger) { c_rate = pack_c_rate ah s.power_tank_ah };
    }
    else s

unfoldable pub on_power_tank_config : Received → Bike → Bike
on_power_tank_config r s =
    let ah = sext (amp_hours r.buf) in
    if has_power_tank_pack_config r.can_id
    then record s {
      power_tank_ah = ah;
      charger = record (s.charger) { c_rate = pack_c_rate s.monolith_ah ah };
    }
    else s

unfoldable pub on_monolith_temps : Received → Bike → Bike
on_monolith_temps r s =
    let high = highest_temp r.stale_max r.buf in
    let low = lowest_temp r.stale_min r.buf in
    if has_monolith_pack_active_data r.can_id
    then record s {
      monolith_max_temp = sext high;
      monolith_min_temp = sext low;
      charger = record (s.charger) { low_temp = u16 (sext low); high_temp = u16 (sext high) };
    }
    else s

unfoldable pub on_power_tank_temps : Received → Bike → Bike
on_power_tank_temps r s =
    let high = highest_temp r.stale_max r.buf in
    let low = lowest_temp r.stale_min r.buf in
    if has_power_tank_pack_active_data r.can_id
    then record s {
      power_tank_max_temp = sext high;
      power_tank_min_temp = sext low;
      charger = record (s.charger) { low_temp = u16 (sext low); high_temp = u16 (sext high) };
    }
    else s

unfoldable pub on_throttle : Received → Bike → Bike
on_throttle r s = if has_throttle r.can_id then record s { bike_throttle = throttle r.buf } else s

-- All handlers that change the state.
unfoldable pub on_frame : Received → Bike → Bike
on_frame r s = on_throttle r (
    on_power_tank_temps r (
      on_monolith_temps r (
        on_power_tank_config r (
          on_monolith_config r (
            on_power_tank_amps r
              (on_power_tank_voltage r (on_monolith_amps r (on_monolith_voltage r s))))))))

-- With the throttle closed, the dash's trip fields are replaced by the volts and the watts.
unfoldable pub answer : Floats → Received → Bike → List Sent
answer fl r s =
    let volts = fl.display_volts s.charger.volts in
    let watts = fl.display_watts s.charger.watts in
    if slt16 s.bike_throttle 300
    then (if r.can_id == dash_status3.id
        then record {
          id = dash_status3.id;
          len = r.len;
          buf = record (r.buf) { b2 = byte0 volts; b3 = byte1 volts };
        }
          ∷ []
        else [])
      ++ (if r.can_id == dash_status2.id
          then record {
            id = dash_status2.id;
            len = r.len;
            buf = record (r.buf) { b4 = byte0 watts; b5 = byte1 watts };
          }
            ∷ []
          else [])
    else []

-- The loop over the frames that are waiting.
unfoldable pub bike_loop : Floats → List Received → Bike → Bike × List Sent
bike_loop fl [] s = (s, [])
bike_loop fl (r ∷ rs) s =
    let s' = on_frame r s in let (t, sent) = bike_loop fl rs s' in (t, answer fl r s' ++ sent)
