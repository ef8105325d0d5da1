-- ===== src/Older/Rounds.antt =====
-- How long v2.5/v2.5.ino and its variants go without a heartbeat.
use scv2_sketches.Prelude.{
  ℕ, ◌-◌, ◌<◌, some, List, [], ◌∷◌, length, ◌≡◌, ◌∙◌, ap, refl, Frame, arith,
}
use scv2_sketches.V3.BikeLoop.{Floats}
use scv2_sketches.Integrated.Tables.{Row}
use scv2_sketches.Integrated.State.{Controller}
use scv2_sketches.Integrated.Settings.{
  Command, command_max_amps, command_wattage, command_c_plus, command_ramp,
}
use scv2_sketches.Integrated.Main.{Input, announce}
use scv2_sketches.Integrated.Grants.{prepare-Prepared}
use scv2_sketches.Integrated.Branches.{IfDefined}
use scv2_sketches.Integrated.Delay.{Soon, bike_frames-Soon, tick-Soon}
use scv2_sketches.Integrated.Waiting.{
  Waits, Begins, AfterBeat, AfterSilence, waits_one, IsPaced, come_round,
}
use scv2_sketches.Older.Variants.{Variant}
use scv2_sketches.Older.Charging.{set_charging_amps}
use scv2_sketches.Older.Main.{
  command_volts, command_chargers, command, read_commands, setup, charger_frames, loop,
}
use scv2_sketches.Older.Branches.{counted, heard, variant-IfDefined}
use scv2_sketches.Older.Grants.{set_charging_amps-result}

command-delay :
    (k : Variant) (c : Command) (s : Controller)
    → (command k c s).delay_itteration ≡ s.delay_itteration
unfolding command command_volts command_max_amps command_chargers command_wattage command_c_plus
    command_ramp
command-delay k c s = ground arith

read_commands-Soon :
    {d : ℕ} (k : Variant) (cs : List Command) (s : Controller)
    → Soon d s
    → Soon d (read_commands k cs s)
unfolding read_commands
read_commands-Soon k [] s h = h
read_commands-Soon k (c ∷ cs) s h =
    read_commands-Soon k cs (command k c s) (omega (arith, command-delay k c s))

charger_frames-Soon :
    {d : ℕ} (fs : List Frame) (s : Controller) → Soon d s → Soon d (charger_frames fs s)
unfolding charger_frames
charger_frames-Soon [] s h = h
charger_frames-Soon (f ∷ fs) s h = charger_frames-Soon fs _ h

counted-Soon :
    {d : ℕ} (k : Variant) (fl : Floats) (i : Input) (s : Controller)
    → d < 0x8000_0000
    → Soon d s
    → Soon (d - 1) (counted k fl i s)
counted-Soon k fl i s l h = tick-Soon _ l (
    bike_frames-Soon fl i.from_bike _ l
      (charger_frames-Soon i.from_chargers _ (read_commands-Soon k i.commands s h)))

computed-delay :
    (k : Variant) (past_end : List Row) (s : Controller) {t : Controller}
    → set_charging_amps k past_end (record s { delay_itteration = 22000 }) ≡ some t
    → (announce t).delay_itteration ≡ 22000
unfolding announce
computed-delay k past_end s e =
    let q = record s { delay_itteration = 22000 } in
    ap (λ (u : Controller). u.delay_itteration) (set_charging_amps-result k past_end q e)
    ∙ (prepare-Prepared q).delay

loop-AfterBeat :
    (k : Variant) (past_end : List Row) (fl : Floats) (i : Input) (s : Controller)
    → IfDefined AfterBeat (loop k past_end fl i s)
loop-AfterBeat k past_end fl i s =
    variant-IfDefined AfterBeat k past_end fl i s
      (λ t o e b f b'. computed-delay k past_end (heard k fl i s) e)
      (λ o q b f b'. absurd (cc (b, b')))

loop-AfterSilence :
    {d : ℕ} (k : Variant) (past_end : List Row) (fl : Floats) (i : Input) (s : Controller)
    → d < 0x8000_0000
    → Soon d s
    → IfDefined (AfterSilence d) (loop k past_end fl i s)
loop-AfterSilence {d} k past_end fl i s l h =
    variant-IfDefined (AfterSilence d) k past_end fl i s (λ t o e b b'. absurd (cc (b, b')))
      (λ o q b b'.
        let later = counted-Soon k fl i s l h in let one = waits_one _ q in (omega arith, later))

loop-IsPaced :
    (k : Variant) (past_end : List Row) (fl : Floats) → IsPaced (loop k past_end fl) setup
unfolding setup
loop-IsPaced k past_end fl = record {
  beats = loop-AfterBeat k past_end fl;
  silences = loop-AfterSilence k past_end fl;
  start_delay = λ eeprom. refl;
}

-- Each variant makes fewer than 55000 defined passes in a row without a heartbeat after power up, and
-- fewer than 22000 after each heartbeat, whatever the settings, the commands and the frames of both
-- buses are.
pub variant_heartbeats_come_round :
    (k : Variant) (past_end : List Row) (fl : Floats) (d : ℕ) (inputs : List Input)
    {s u : Controller}
    → Begins (loop k past_end fl) setup d s
    → Waits (loop k past_end fl) inputs s u
    → length inputs < d
variant_heartbeats_come_round k past_end fl d inputs b w =
    come_round (loop k past_end fl) setup (loop-IsPaced k past_end fl) b w
