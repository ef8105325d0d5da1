-- ===== src/Integrated/Delay.antt =====
-- The count of passes until the next control cycle of v2.6/v2.6.ino: nothing but a control cycle
-- lengthens it.
use scv2_sketches.Prelude.{ℕ, ◌-◌, ◌≤◌, ◌<◌, List, [], ◌∷◌, ◌≡◌, Frame, arith}
use scv2_sketches.V3.BikeLoop.{Received, Floats}
use scv2_sketches.Integrated.State.{Controller}
use scv2_sketches.Integrated.Settings.{
  Command, commit, update_heartbeat_voltage, command_volts, command_max_amps, command_chargers,
  command_wattage, command_c_plus, command_ramp, command, read_commands,
}
use scv2_sketches.Integrated.Buses.{
  charger_frame, charger_frames, hurry, on_volts, on_amps, on_tank_volts, on_tank_amps, on_config,
  on_tank_config, on_temps, on_tank_temps, on_throttle, on_frame, bike_frames,
}
use scv2_sketches.Integrated.Main.{Input, tick}
use scv2_sketches.Integrated.Branches.{ticked}

-- At most `d` passes are left.
abbrev pub Soon : ℕ → Controller → Type 0
Soon d s = s.delay_itteration ≤ d

command-delay : (c : Command) (s : Controller) → (command c s).delay_itteration ≡ s.delay_itteration
unfolding command commit command_volts command_max_amps command_chargers command_wattage
    command_c_plus command_ramp update_heartbeat_voltage
command-delay c s = ground arith

read_commands-Soon :
    {d : ℕ} (cs : List Command) (s : Controller) → Soon d s → Soon d (read_commands cs s)
unfolding read_commands
read_commands-Soon [] s h = h
read_commands-Soon (c ∷ cs) s h =
    read_commands-Soon cs (command c s) (omega (arith, command-delay c s))

pub charger_frames-Soon :
    {d : ℕ} (fs : List Frame) (s : Controller) → Soon d s → Soon d (charger_frames fs s)
unfolding charger_frames charger_frame
charger_frames-Soon [] s h = h
charger_frames-Soon (f ∷ fs) s h = charger_frames-Soon fs (charger_frame f s) (ground arith)

module _ {d : ℕ} (d_lt : d < 0x8000_0000) (r : Received) where
  on_volts-Soon : (s : Controller) → Soon d s → Soon d (on_volts r s)
  unfolding on_volts
  on_volts-Soon s h = ground arith

  on_amps-Soon : (s : Controller) → Soon d s → Soon d (on_amps r s)
  unfolding on_amps hurry
  on_amps-Soon s h = ground arith

  on_tank_volts-Soon : (s : Controller) → Soon d s → Soon d (on_tank_volts r s)
  unfolding on_tank_volts
  on_tank_volts-Soon s h = ground arith

  on_tank_amps-Soon : (s : Controller) → Soon d s → Soon d (on_tank_amps r s)
  unfolding on_tank_amps hurry
  on_tank_amps-Soon s h = ground arith

  on_rest-Soon :
      (s : Controller)
      → Soon d s
      → Soon d (on_throttle r (on_tank_temps r (on_temps r (on_tank_config r (on_config r s)))))
  unfolding on_config on_tank_config on_temps on_tank_temps on_throttle
  on_rest-Soon s h = ground arith

  -- What follows the handler of the amps in a frame.
  pub after_amps-Soon :
      (s : Controller)
      → Soon d s
      → Soon d (
          on_throttle r (
            on_tank_temps r
              (on_temps r (on_tank_config r (on_config r (on_tank_amps r (on_tank_volts r s)))))))
  after_amps-Soon s h = on_rest-Soon _ (on_tank_amps-Soon _ (on_tank_volts-Soon s h))

  on_frame-Soon : (s : Controller) → Soon d s → Soon d (on_frame r s)
  unfolding on_frame
  on_frame-Soon s h = after_amps-Soon _ (on_amps-Soon _ (on_volts-Soon s h))

pub bike_frames-Soon :
    {d : ℕ} (fl : Floats) (rs : List Received) (s : Controller)
    → d < 0x8000_0000
    → Soon d s
    → Soon d (bike_frames fl rs s).0
unfolding bike_frames
bike_frames-Soon fl [] s l h = h
bike_frames-Soon fl (r ∷ rs) s l h = bike_frames-Soon fl rs (on_frame r s) l (on_frame-Soon l r s h)

pub tick-Soon : {d : ℕ} (s : Controller) → d < 0x8000_0000 → Soon d s → Soon (d - 1) (tick s)
unfolding tick
tick-Soon s l h = ground arith

-- A pass counts down, before it tests the delay.
pub ticked-Soon :
    {d : ℕ} (fl : Floats) (i : Input) (s : Controller)
    → d < 0x8000_0000
    → Soon d s
    → Soon (d - 1) (ticked fl i s)
ticked-Soon fl i s l h = tick-Soon _ l (
    bike_frames-Soon fl i.from_bike _ l
      (charger_frames-Soon i.from_chargers _ (read_commands-Soon i.commands s h)))
