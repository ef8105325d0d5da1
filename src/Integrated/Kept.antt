-- ===== src/Integrated/Kept.antt =====
-- The frames of the motorcycle and the count of v2.6/v2.6.ino keep the number of chargers, the
-- station's watts and 1C+.
use scv2_sketches.Prelude.{List, [], ◌∷◌, ◌≡◌, arith}
use scv2_sketches.V3.BikeLoop.{Received, Floats}
use scv2_sketches.Integrated.State.{Controller}
use scv2_sketches.Integrated.Buses.{
  hurry, on_volts, on_amps, on_tank_volts, on_tank_amps, on_config, on_tank_config, on_temps,
  on_tank_temps, on_throttle, on_frame, bike_frames,
}
use scv2_sketches.Integrated.Main.{tick}

pub record Kept (s t : Controller) : Type 0 where
  pub count : t.charger_count ≡ s.charger_count
  pub station : t.max_station_watts ≡ s.max_station_watts
  pub plus : t.c_plus ≡ s.c_plus

module _ {s : Controller} (r : Received) where
  on_volts-Kept : (t : Controller) → Kept s t → Kept s (on_volts r t)
  unfolding on_volts
  on_volts-Kept t h = ground arith

  on_amps-Kept : (t : Controller) → Kept s t → Kept s (on_amps r t)
  unfolding on_amps hurry
  on_amps-Kept t h = ground arith

  on_tank_volts-Kept : (t : Controller) → Kept s t → Kept s (on_tank_volts r t)
  unfolding on_tank_volts
  on_tank_volts-Kept t h = ground arith

  on_tank_amps-Kept : (t : Controller) → Kept s t → Kept s (on_tank_amps r t)
  unfolding on_tank_amps hurry
  on_tank_amps-Kept t h = ground arith

  on_rest-Kept :
      (t : Controller)
      → Kept s t
      → Kept s (on_throttle r (on_tank_temps r (on_temps r (on_tank_config r (on_config r t)))))
  unfolding on_config on_tank_config on_temps on_tank_temps on_throttle
  on_rest-Kept t h = ground arith

  on_frame-Kept : (t : Controller) → Kept s t → Kept s (on_frame r t)
  unfolding on_frame
  on_frame-Kept t h =
      on_rest-Kept _
        (on_tank_amps-Kept _ (on_tank_volts-Kept _ (on_amps-Kept _ (on_volts-Kept t h))))

pub bike_frames-Kept :
    {s : Controller} (fl : Floats) (rs : List Received) (t : Controller)
    → Kept s t
    → Kept s (bike_frames fl rs t).0
unfolding bike_frames
bike_frames-Kept fl [] t h = h
bike_frames-Kept fl (r ∷ rs) t h = bike_frames-Kept fl rs (on_frame r t) (on_frame-Kept r t h)

pub tick-Kept : {s : Controller} (t : Controller) → Kept s t → Kept s (tick t)
unfolding tick
tick-Kept t h = ground arith
