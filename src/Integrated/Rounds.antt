-- ===== src/Integrated/Rounds.antt =====
-- How long v2.6/v2.6.ino goes without a heartbeat.
use scv2_sketches.Prelude.{ℕ, ◌<◌, ◌∙◌, refl, some, List, length, ◌≡◌, arith}
use scv2_sketches.V3.BikeLoop.{Floats}
use scv2_sketches.Integrated.Tables.{Row}
use scv2_sketches.Integrated.State.{Controller}
use scv2_sketches.Integrated.Settings.{update_heartbeat_voltage, setup}
use scv2_sketches.Integrated.Charging.{grant, share, set_charging_amps}
use scv2_sketches.Integrated.Main.{Input, Output, announce, control, loop}
use scv2_sketches.Integrated.Grants.{prepare-Prepared}
use scv2_sketches.Integrated.Branches.{ticked, IfDefined, loop-IfDefined}
use scv2_sketches.Integrated.Delay.{Soon, ticked-Soon}
use scv2_sketches.Integrated.Waiting.{
  Silent, Waits, Begins, AfterBeat, AfterSilence, waits_one, IsPaced, come_round,
}

grant-delay :
    (watts : ℕ) (s : Controller) {t : Controller}
    → grant watts s ≡ some t
    → t.delay_itteration ≡ s.delay_itteration
unfolding grant share
grant-delay watts s e = ground arith

computed-delay :
    (past_end : List Row) (s : Controller) {t : Controller}
    → set_charging_amps past_end (record s { delay_itteration = 22000 }) ≡ some t
    → (announce t).delay_itteration ≡ 22000
unfolding set_charging_amps announce
computed-delay past_end s e =
    grant-delay _ _ e ∙ (prepare-Prepared (record s { delay_itteration = 22000 })).delay

loop-AfterBeat :
    (past_end : List Row) (fl : Floats) (i : Input) (s : Controller)
    → IfDefined AfterBeat (loop past_end fl i s)
loop-AfterBeat past_end fl i s =
    loop-IfDefined AfterBeat past_end fl i s
      (λ t o e b f b'. computed-delay past_end (ticked fl i s) e)
      (λ o q b f b'. absurd (cc (b, b')))

loop-AfterSilence :
    {d : ℕ} (past_end : List Row) (fl : Floats) (i : Input) (s : Controller)
    → d < 0x8000_0000
    → Soon d s
    → IfDefined (AfterSilence d) (loop past_end fl i s)
loop-AfterSilence {d} past_end fl i s l n =
    loop-IfDefined (AfterSilence d) past_end fl i s (λ t o e b b'. absurd (cc (b, b')))
      (λ o q b b'.
        let later = ticked-Soon fl i s l n in let one = waits_one _ q in (omega arith, later))

-- A pass without a heartbeat has only counted.
pub pass_counted :
    (past_end : List Row) (fl : Floats) (i : Input) (s : Controller) {t : Controller} {o : Output}
    → loop past_end fl i s ≡ some (t, o)
    → Silent o
    → t ≡ ticked fl i s
unfolding loop control
pass_counted past_end fl i s e q = ground arith

pub loop-IsPaced : (past_end : List Row) (fl : Floats) → IsPaced (loop past_end fl) setup
unfolding setup update_heartbeat_voltage
loop-IsPaced past_end fl = record {
  beats = loop-AfterBeat past_end fl;
  silences = loop-AfterSilence past_end fl;
  start_delay = λ eeprom. refl;
}

-- The sketch makes fewer than 55000 defined passes in a row without a heartbeat after power up, and
-- fewer than 22000 after each heartbeat, whatever the settings, the commands and the frames of both
-- buses are.
pub heartbeats_come_round :
    (past_end : List Row) (fl : Floats) (d : ℕ) (inputs : List Input) {s u : Controller}
    → Begins (loop past_end fl) setup d s
    → Waits (loop past_end fl) inputs s u
    → length inputs < d
heartbeats_come_round past_end fl d inputs b w =
    come_round (loop past_end fl) setup (loop-IsPaced past_end fl) b w
