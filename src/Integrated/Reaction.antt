-- ===== src/Integrated/Reaction.antt =====
-- How soon v2.6/v2.6.ino computes the amps again.
use scv2_sketches.Prelude.{
  ℕ, ◌+◌, ◌<◌, true, List, [], ◌∷◌, length, ◌++◌, ◌≡◌, refl, ◌∙◌, subst, sym, Frame, u16, abs_short,
  arith,
}
use scv2_sketches.Zero.Predicates.{has_monolith_amps}
use scv2_sketches.Zero.Decode.{amps}
use scv2_sketches.V3.BikeLoop.{Received, Floats}
use scv2_sketches.Integrated.Tables.{Row}
use scv2_sketches.Integrated.State.{Controller}
use scv2_sketches.Integrated.Settings.{read_commands, setup}
use scv2_sketches.Integrated.Buses.{
  charger_frame, charger_frames, hurry, on_volts, on_amps, on_frame, bike_frames,
}
use scv2_sketches.Integrated.Main.{Input, loop}
use scv2_sketches.Integrated.Grants.{over}
use scv2_sketches.Integrated.Branches.{ticked}
use scv2_sketches.Integrated.Waiting.{Waits, pass, Waits-length}
use scv2_sketches.Integrated.Rounds.{pass_counted, loop-IsPaced}
use scv2_sketches.Integrated.Delay.{
  Soon, after_amps-Soon, charger_frames-Soon, bike_frames-Soon, tick-Soon,
}
use scv2_sketches.Integrated.Kept.{bike_frames-Kept}

c_plus-charger_frames : (fs : List Frame) (s : Controller) → (charger_frames fs s).c_plus ≡ s.c_plus
unfolding charger_frames charger_frame
c_plus-charger_frames [] s = refl
c_plus-charger_frames (f ∷ fs) s = c_plus-charger_frames fs (charger_frame f s) ∙ ground arith

-- What the handler of the amps reads.
record Same (s t : Controller) : Type 0 where
  pub ah : t.monolith_ah ≡ s.monolith_ah
  pub plus : t.c_plus ≡ s.c_plus
  pub delay : t.delay_itteration ≡ s.delay_itteration

-- A frame with too many amps leaves ten passes at most.
hurry-Soon :
    (ah a : ℕ) (s : Controller)
    → s.delay_itteration < 0x8000_0000
    → s.c_plus ≡ 0
    → over ah a ≡ true
    → Soon 10 (hurry ah a s)
unfolding hurry
hurry-Soon ah a s l p o = ground arith

on_amps-Soon_ten :
    (r : Received) (s : Controller)
    → s.delay_itteration < 0x8000_0000
    → s.c_plus ≡ 0
    → has_monolith_amps r.can_id ≡ true
    → over s.monolith_ah (abs_short (amps r.buf)) ≡ true
    → Soon 10 (on_amps r s)
unfolding on_amps
on_amps-Soon_ten r s l p m o = simp m (
    hurry-Soon s.monolith_ah (abs_short (amps r.buf))
      (record s {
        monolith_amps = abs_short (amps r.buf);
        bike_amps = u16 (abs_short (amps r.buf) + s.power_tank_amps);
      })
      l p o)

on_volts-Same : (r : Received) (s : Controller) → Same s (on_volts r s)
unfolding on_volts
on_volts-Same r s = ground arith

on_frame-Soon_ten :
    (r : Received) (s : Controller)
    → s.delay_itteration < 0x8000_0000
    → s.c_plus ≡ 0
    → has_monolith_amps r.can_id ≡ true
    → over s.monolith_ah (abs_short (amps r.buf)) ≡ true
    → Soon 10 (on_frame r s)
unfolding on_frame
on_frame-Soon_ten r s l p m o =
    let k = on_volts-Same r s in
    after_amps-Soon (omega arith) r (on_amps r (on_volts r s))
      (on_amps-Soon_ten r (on_volts r s) (rw (k.delay) l) (k.plus ∙ p) m (rw (k.ah) o))

bike_frames-append :
    (fl : Floats) (before rs : List Received) (s : Controller)
    → (bike_frames fl (before ++ rs) s).0 ≡ (bike_frames fl rs (bike_frames fl before s).0).0
unfolding bike_frames
bike_frames-append fl [] rs s = refl
bike_frames-append fl (r ∷ before) rs s = bike_frames-append fl before rs (on_frame r s)

-- The state of a pass without commands when it has read the chargers and some frames of the
-- motorcycle.
abbrev pub reading : Floats → Input → List Received → Controller → Controller
reading fl i before s = (bike_frames fl before (charger_frames i.from_chargers s)).0

-- That state has no later delay, and 1C+ is as before.
reading-Soon :
    {d : ℕ} (fl : Floats) (i : Input) (before : List Received) (s : Controller)
    → d < 0x8000_0000
    → Soon d s
    → Soon d (reading fl i before s)
reading-Soon fl i before s l h =
    bike_frames-Soon fl before (charger_frames i.from_chargers s) l
      (charger_frames-Soon i.from_chargers s h)

c_plus-reading :
    (fl : Floats) (i : Input) (before : List Received) (s : Controller)
    → (reading fl i before s).c_plus ≡ s.c_plus
c_plus-reading fl i before s =
    let u = charger_frames i.from_chargers s in
    let k =
      bike_frames-Kept {s = u} fl before u (record { count = refl; station = refl; plus = refl }) in
    k.plus ∙ c_plus-charger_frames i.from_chargers s

-- The rest of the pass.
heard-Soon :
    (fl : Floats) (i : Input) (s : Controller) (before : List Received) (r : Received)
    (rs : List Received)
    → i.commands ≡ []
    → i.from_bike ≡ before ++ r ∷ rs
    → s.delay_itteration < 0x8000_0000
    → s.c_plus ≡ 0
    → has_monolith_amps r.can_id ≡ true
    → over (reading fl i before s).monolith_ah (abs_short (amps r.buf)) ≡ true
    → Soon 9 (ticked fl i s)
unfolding bike_frames read_commands
heard-Soon fl i s before r rs n f l p m o =
    let u = reading fl i before s in
    let d = reading-Soon {d = 0x7fff_ffff} fl i before s (omega arith) (omega arith) in
    let ten = on_frame-Soon_ten r u (omega arith) (c_plus-reading fl i before s ∙ p) m o in
    rw (n, f)
      (tick-Soon (bike_frames fl (before ++ r ∷ rs) (charger_frames i.from_chargers s)).0
        (omega arith)
        (subst (Soon 10)
          (sym (bike_frames-append fl before (r ∷ rs) (charger_frames i.from_chargers s)))
          (bike_frames-Soon fl rs (on_frame r u) (omega arith) ten)))

-- A pass of v2.6 reads a frame, at any place among those of the motorcycle, in which the monolith's
-- amps are above its capacity for one hour, as it is known then; no command comes in, 1C+ is off and
-- the delay is not negative. If neither that pass nor the passes after it send a heartbeat, these are
-- fewer than nine: the tenth pass at the latest computes the amps again.
pub over_current_reacts :
    (past_end : List Row) (fl : Floats) (i : Input) (s : Controller) (before : List Received)
    (r : Received) (rs : List Received) (inputs : List Input) {u : Controller}
    → i.commands ≡ []
    → i.from_bike ≡ before ++ r ∷ rs
    → s.delay_itteration < 0x8000_0000
    → s.c_plus ≡ 0
    → has_monolith_amps r.can_id ≡ true
    → over (reading fl i before s).monolith_ah (abs_short (amps r.buf)) ≡ true
    → Waits (loop past_end fl) (i ∷ inputs) s u
    → length inputs < 9
over_current_reacts past_end fl i s before r rs inputs n f l p m o (pass e q w) =
    let now = pass_counted past_end fl i s e q in
    let soon = subst (Soon 9) (sym now) (heard-Soon fl i s before r rs n f l p m o) in
    let k =
      Waits-length (loop past_end fl) setup (loop-IsPaced past_end fl) w 9 (omega arith)
        (omega arith) soon in
    omega arith
