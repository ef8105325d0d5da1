-- ===== src/Integrated/Buses.antt =====
-- The two loops over frames in `loop` of v2.6/v2.6.ino. The calls of the decoders have an argument
-- more than the methods of libraries/ZERO_MOTORCYCLE, which do not read it.
use scv2_sketches.Prelude.{
  ℕ, ◌+◌, ◌==◌, ltb, if◌then◌else◌, ◌&&◌, ◌||◌, List, [], ◌∷◌, ◌++◌, Frame, word, u16, u32, sub32,
  sext, slt32, slt16, abs_short,
}
use scv2_sketches.Zero.Network.{dash_status2, dash_status3}
use scv2_sketches.Zero.Predicates.{
  has_monolith_voltage, has_monolith_amps, has_power_tank_voltage, has_power_tank_amps,
  has_monolith_pack_config, has_power_tank_pack_config, has_monolith_pack_active_data,
  has_power_tank_pack_active_data, has_throttle,
}
use scv2_sketches.Zero.Decode.{
  byte0, byte1, voltage, amps, amp_hours, highest_temp, lowest_temp, throttle,
}
use scv2_sketches.V3.BikeLoop.{Received, Sent, Floats}
use scv2_sketches.Integrated.State.{Controller}

-- A charger's voltage counts when it is more than 1.1 V away from the one known.
unfoldable pub charger_frame : Frame → Controller → Controller
charger_frame f s =
    let v = word f.b0 f.b1 in
    if slt32 (u32 (sext s.volts + 11)) (sext v) || slt32 (sext v) (sub32 (sext s.volts) 11)
    then record s { volts = v }
    else s

unfoldable pub charger_frames : List Frame → Controller → Controller
charger_frames [] s = s
charger_frames (f ∷ frames) s = charger_frames frames (charger_frame f s)

-- A pack that draws more than 1 C brings the next control cycle forward.
unfoldable pub hurry : ℕ → ℕ → Controller → Controller
hurry ah amps s =
    if slt32 0 ah && slt32 ah amps && ltb s.c_plus 1 && slt32 10 s.delay_itteration
    then record s { delay_itteration = 10 }
    else s

unfoldable pub on_volts : Received → Controller → Controller
on_volts r s =
    let v = voltage r.buf in
    if has_monolith_voltage r.can_id then record s { monolith_volts = v; bike_volts = v } else s

unfoldable pub on_amps : Received → Controller → Controller
on_amps r s =
    let a = abs_short (amps r.buf) in
    if has_monolith_amps r.can_id
    then hurry s.monolith_ah a
        (record s { monolith_amps = a; bike_amps = u16 (a + s.power_tank_amps) })
    else s

unfoldable pub on_tank_volts : Received → Controller → Controller
on_tank_volts r s =
    if has_power_tank_voltage r.can_id then record s { power_tank_volts = voltage r.buf } else s

unfoldable pub on_tank_amps : Received → Controller → Controller
on_tank_amps r s =
    let a = abs_short (amps r.buf) in
    if has_power_tank_amps r.can_id
    then hurry s.power_tank_ah a
        (record s { power_tank_amps = a; bike_amps = u16 (s.monolith_amps + a) })
    else s

unfoldable pub on_config : Received → Controller → Controller
on_config r s =
    if has_monolith_pack_config r.can_id
    then record s { monolith_ah = sext (amp_hours r.buf) }
    else s

unfoldable pub on_tank_config : Received → Controller → Controller
on_tank_config r s =
    if has_power_tank_pack_config r.can_id
    then record s { power_tank_ah = sext (amp_hours r.buf) }
    else s

unfoldable pub on_temps : Received → Controller → Controller
on_temps r s =
    if has_monolith_pack_active_data r.can_id
    then record s {
      monolith_max_temp = sext (highest_temp r.stale_max r.buf);
      monolith_min_temp = sext (lowest_temp r.stale_min r.buf);
    }
    else s

unfoldable pub on_tank_temps : Received → Controller → Controller
on_tank_temps r s =
    if has_power_tank_pack_active_data r.can_id
    then record s {
      power_tank_max_temp = sext (highest_temp r.stale_max r.buf);
      power_tank_min_temp = sext (lowest_temp r.stale_min r.buf);
    }
    else s

unfoldable pub on_throttle : Received → Controller → Controller
on_throttle r s = if has_throttle r.can_id then record s { bike_throttle = throttle r.buf } else s

unfoldable pub on_frame : Received → Controller → Controller
on_frame r s = on_throttle r (
    on_tank_temps r (
      on_temps r (
        on_tank_config r
          (on_config r (on_tank_amps r (on_tank_volts r (on_amps r (on_volts r s))))))))

-- The frames of the dash, with the volts and the watts in them.
unfoldable pub answer : Floats → Received → Controller → List Sent
answer fl r s =
    let volts = fl.display_volts s.volts in
    let watts = fl.display_watts s.watts in
    if slt16 s.bike_throttle 300
    then (if r.can_id == dash_status3.id
        then record {
          id = dash_status3.id;
          len = r.len;
          buf = record (r.buf) { b2 = byte0 volts; b3 = byte1 volts };
        }
          ∷ []
        else [])
      ++ (if r.can_id == dash_status2.id
          then record {
            id = dash_status2.id;
            len = r.len;
            buf = record (r.buf) { b4 = byte0 watts; b5 = byte1 watts };
          }
            ∷ []
          else [])
    else []

unfoldable pub bike_frames : Floats → List Received → Controller → Controller × List Sent
bike_frames fl [] s = (s, [])
bike_frames fl (r ∷ rs) s =
    let s' = on_frame r s in let (t, sent) = bike_frames fl rs s' in (t, answer fl r s' ++ sent)
