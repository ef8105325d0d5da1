-- ===== src/Small/Sound.antt =====
-- sound/sound.ino, on a board whose `unsigned int` has 16 bits: a tone that follows the throttle.
use scv2_sketches.Prelude.{ℕ, ◌+◌, ◌/◌, ltb, if◌then◌else◌, List, [], ◌∷◌, u16, sub16}

abbrev pub sound_base : ℕ
sound_base = 40

-- The globals that `loop` uses.
pub record Speaker : Type 0 where
  pub sound : ℕ
  pub current_base : ℕ

abbrev pub power_up : Speaker
power_up = record { sound = 0; current_base = 0 }

-- The jumps to the base from more than 25 away.
unfoldable pub catch_up : ℕ → ℕ → ℕ
catch_up base sound =
    let lowered = if ltb (u16 (base + 25)) sound then sub16 base 1 else sound in
    if ltb lowered (sub16 base 25) then u16 (base + 1) else lowered

-- One up above the base, three down otherwise.
unfoldable pub sweep : ℕ → ℕ → ℕ
sweep base sound = if ltb base sound then u16 (sound + 1) else sub16 sound 3

-- A pass with a reading of the throttle. The tone is that of `sound`.
unfoldable pub loop : ℕ → Speaker → Speaker
loop reading s =
    let base = u16 (sound_base + reading / 10) in
    if ltb base 2048
    then record { sound = sweep base (catch_up base s.sound); current_base = base }
    else record { sound = 0; current_base = 0 }

unfoldable pub passes : List ℕ → Speaker → Speaker
passes [] s = s
passes (r ∷ rs) s = passes rs (loop r s)
