-- ===== src/Small/Pitch.antt =====
-- The tones of sound/sound.ino.
use scv2_sketches.Prelude.{ℕ, ◌+◌, ◌/◌, ◌≤◌, ◌<◌, ◌≡◌, ◌≢◌, List, [], ◌∷◌, arith}
use scv2_sketches.Small.Sound.{Speaker, power_up, catch_up, sweep, loop, passes}

catch_up-near :
    (base sound : ℕ)
    → 40 ≤ base
    → base < 2048
    → sound < 0x1_0000
    → (base ≤ catch_up base sound + 25) × (catch_up base sound ≤ base + 25)
unfolding catch_up
catch_up-near base sound l h s = ground arith

sweep-near :
    (base sound : ℕ)
    → 40 ≤ base
    → base < 2048
    → base ≤ sound + 25
    → sound ≤ base + 25
    → (base ≤ sweep base sound + 28) × (sweep base sound ≤ base + 26) × (sweep base sound ≢ sound)
unfolding sweep
sweep-near base sound l h s t = ground arith

sound-lt : (reading : ℕ) (s : Speaker) → s.sound < 0x1_0000 → (loop reading s).sound < 0x1_0000
unfolding loop catch_up sweep
sound-lt reading s h = ground arith

passes-lt : (rs : List ℕ) (s : Speaker) → s.sound < 0x1_0000 → (passes rs s).sound < 0x1_0000
unfolding passes
passes-lt [] s h = h
passes-lt (r ∷ rs) s h = passes-lt rs (loop r s) (sound-lt r s h)

last_pass :
    (reading : ℕ) (s : Speaker)
    → reading < 1024
    → s.sound < 0x1_0000
    → ((loop reading s).current_base ≡ 40 + reading / 10)
      × (40 + reading / 10 ≤ (loop reading s).sound + 28)
      × ((loop reading s).sound ≤ 40 + reading / 10 + 26)
unfolding loop
last_pass reading s r h =
    let base = 40 + reading / 10 in
    let near = catch_up-near base s.sound (omega arith) (omega arith) h in
    ground
      (arith, sweep-near base (catch_up base s.sound) (omega arith) (omega arith) near.0 near.1)

-- After any passes, whatever their readings, and one more with a reading of the analogue input, below
-- 1024, the tone is at most 28 below and 26 above 40 and a tenth of that reading: the unsigned
-- subtractions do not wrap, and the pitch catches up with the throttle at once.
pub tone_follows_throttle :
    (readings : List ℕ) (reading : ℕ)
    → reading < 1024
    → ((loop reading (passes readings power_up)).current_base ≡ 40 + reading / 10)
      × (40 + reading / 10 ≤ (loop reading (passes readings power_up)).sound + 28)
      × ((loop reading (passes readings power_up)).sound ≤ 40 + reading / 10 + 26)
tone_follows_throttle readings reading r =
    last_pass reading (passes readings power_up) r (passes-lt readings power_up (omega arith))
