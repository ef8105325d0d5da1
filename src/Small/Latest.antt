-- ===== src/Small/Latest.antt =====
-- What the dash shows (ZeroDashVoltage/ZeroDashVoltage.ino): the latest of each quantity.
use scv2_sketches.Prelude.{
  ℕ, Bool, true, if◌then◌else◌, List, [], ◌∷◌, ◌++◌, ◌≡◌, refl, sym, ap, ◌∙◌, Frame, slt16,
  abs_short, arith,
}
use mathlib.Core.List.{append_assoc}
use scv2_sketches.Zero.Network.{dash_status3}
use scv2_sketches.Zero.Predicates.{has_voltage, has_amps, has_throttle}
use scv2_sketches.Zero.Decode.{byte0, byte1}
use scv2_sketches.Zero.Decode
use scv2_sketches.V3.BikeLoop.{Received}
use scv2_sketches.Small.Dash.{
  Dash, Conversions, on_voltage, on_amps, on_throttle, on_frame, answer, loop,
}

-- The value in the latest of some frames that has one, or the one from before.
abbrev pub latest : (ℕ → Bool) → (Frame → ℕ) → List Received → ℕ → ℕ
latest has value [] before = before
latest has value (r ∷ rs) before =
    latest has value rs (if has r.can_id then value r.buf else before)

on_frame-fields :
    (c : Conversions) (r : Received) (s : Dash)
    → ((on_frame c r s).volts
        ≡ (if has_voltage r.can_id then c.to_volts (Decode.voltage r.buf) else s.volts))
      × ((on_frame c r s).amps
          ≡ (if has_amps r.can_id then c.to_amps (abs_short (Decode.amps r.buf)) else s.amps))
      × ((on_frame c r s).throttle
          ≡ (if has_throttle r.can_id then Decode.throttle r.buf else s.throttle))
unfolding on_frame on_voltage on_amps on_throttle
on_frame-fields c r s = ground arith

loop-latest :
    (c : Conversions) (rs : List Received) (s : Dash)
    → ((loop c rs s).0.volts ≡ latest has_voltage (λ f. c.to_volts (Decode.voltage f)) rs s.volts)
      × ((loop c rs s).0.amps
          ≡ latest has_amps (λ f. c.to_amps (abs_short (Decode.amps f))) rs s.amps)
      × ((loop c rs s).0.throttle ≡ latest has_throttle Decode.throttle rs s.throttle)
unfolding loop
loop-latest c [] s = (refl, refl, refl)
loop-latest c (r ∷ rs) s =
    let here = on_frame-fields c r s in
    let rest = loop-latest c rs (on_frame c r s) in
    (
      rest.0 ∙ ap (latest has_voltage (λ f. c.to_volts (Decode.voltage f)) rs) here.0,
      rest.1 ∙ ap (latest has_amps (λ f. c.to_amps (abs_short (Decode.amps f))) rs) here.1,
      rest.2 ∙ ap (latest has_throttle Decode.throttle rs) here.2,
    )

-- The frames sent are those of the passes before, and then the answer to the last frame.
loop-last :
    (c : Conversions) (rs : List Received) (r : Received) (s : Dash)
    → (loop c (rs ++ r ∷ []) s).1
      ≡ (loop c rs s).1 ++ (answer r (on_frame c r (loop c rs s).0) ++ [])
unfolding loop
loop-last c [] r s = refl
loop-last c (q ∷ rs) r s =
    ap (λ ws. answer q (on_frame c q s) ++ ws) (loop-last c rs r (on_frame c q s))
    ∙ sym (append_assoc (answer q (on_frame c q s)) (loop c rs (on_frame c q s)).1 _)

-- A frame of the dash's energy screen changes nothing and is answered with the voltage.
answer-status3 :
    (c : Conversions) (r : Received) (s : Dash)
    → r.can_id ≡ dash_status3.id
    → slt16 s.throttle 300 ≡ true
    → answer r (on_frame c r s)
      ≡ record {
        id = dash_status3.id;
        len = r.len;
        buf = record (r.buf) { b2 = byte0 s.volts; b3 = byte1 s.volts };
      }
        ∷ []
unfolding answer on_frame on_voltage on_amps on_throttle has_voltage has_amps has_throttle
answer-status3 c r s e h = simp (e, h) refl

-- While the latest throttle is below 300, a frame of DASH_STATUS3 is answered, behind whatever the
-- frames before it were answered with, by a frame of the same id that differs from it in two bytes:
-- they are the low bytes of the latest voltage that a frame before it had, converted.
pub dash_shows_latest :
    (c : Conversions) (rs : List Received) (r : Received) (s : Dash)
    → r.can_id ≡ dash_status3.id
    → slt16 (latest has_throttle Decode.throttle rs s.throttle) 300 ≡ true
    → (loop c (rs ++ r ∷ []) s).1
      ≡ (loop c rs s).1
        ++ (record {
          id = dash_status3.id;
          len = r.len;
          buf = record (r.buf) {
            b2 = byte0 (latest has_voltage (λ f. c.to_volts (Decode.voltage f)) rs s.volts);
            b3 = byte1 (latest has_voltage (λ f. c.to_volts (Decode.voltage f)) rs s.volts);
          };
        }
            ∷ [])
dash_shows_latest c rs r s e h =
    let eq = loop-latest c rs s in
    loop-last c rs r s
    ∙ ap (λ ws. (loop c rs s).1 ++ (ws ++ []))
        (answer-status3 c r (loop c rs s).0 e (ap (λ t. slt16 t 300) eq.2 ∙ h))
    ∙ ap
        (λ v.
          (loop c rs s).1
          ++ (record {
            id = dash_status3.id;
            len = r.len;
            buf = record (r.buf) { b2 = byte0 v; b3 = byte1 v };
          }
              ∷ []))
        eq.0
