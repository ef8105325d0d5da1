-- ===== src/ForceCharge/Tests.antt =====
-- The force charge sketches at concrete inputs.
use scv2_sketches.Prelude.{true, false, arith, some, [], ◌∷◌, ◌≡◌, refl, Frame}
use scv2_sketches.ForceCharge.Pass.{
  Force, basic, terry, start, loop, basic_loop, terry_loop, frames, frame, jamps, limit_current,
  limit_station, station, announce,
}
use scv2_sketches.ForceCharge.Limits.{reading, Asked, force_within_limits}

-- 110.0 V and 50.0 A.
abbrev report : Frame
report = record { b0 = 4; b1 = 0x4c; b2 = 1; b3 = 0xf4; b4 = 0; b5 = 0; b6 = 0; b7 = 0 }

-- Two chargers at 50 A are above 94 A: each is asked for 26 * 208 / 110 / 2 A, 24 A.
shares :
    basic_loop true (report ∷ report ∷ []) (record (start basic) { flag_recv = true })
    ≡ some (record (start basic) {
      max_jamps = 26;
      heartbeat = record ((start basic).heartbeat) { b2 = 0; b3 = 240 };
      flag_recv = false;
    })
unfolding loop frames frame jamps limit_current limit_station station announce
shares = refl

-- Three of them are above 129 A: each is asked for 30 * 208 / 110 / 2 A, 28 A, less than a third.
three :
    terry_loop false (report ∷ report ∷ report ∷ []) (record (start terry) { flag_recv = true })
    ≡ some (record (start terry) {
      max_jamps = 30;
      heartbeat = record ((start terry).heartbeat) { b2 = 1; b3 = 0x18 };
      flag_recv = false;
    })
unfolding loop frames frame jamps limit_current limit_station station announce
three = refl

force_within_limits_example :
    (t : Force) × (loop terry true
        (report ∷ report ∷ [])
        (record (start terry) { flag_recv = true })
      ≡ some t)
    × (t.flag_recv ≡ false)
    × Asked terry (reading (report ∷ report ∷ [])) (start terry).heartbeat t.heartbeat
force_within_limits_example =
    force_within_limits terry true (report ∷ report ∷ [])
      (record (start terry) { flag_recv = true }) (omega arith) refl
