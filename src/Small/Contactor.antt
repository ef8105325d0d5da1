-- ===== src/Small/Contactor.antt =====
-- ZeroContactor/ZeroContactor.ino: the motorcycle's contactor is told to open, once.
use scv2_sketches.Prelude.{
  ℕ, zero, suc, ◌≡◌, refl, ◌+◌, ◌%◌, ◌==◌, if◌then◌else◌, List, [], ◌∷◌, ◌++◌, Frame,
}
use scv2_sketches.V3.BikeLoop.{Sent}

abbrev pub open_contactor : Frame
open_contactor = record { b0 = 0; b1 = 0x31; b2 = 4; b3 = 0xc3; b4 = 0x4d; b5 = 0; b6 = 0; b7 = 0 }

-- A pass: the byte `sent`, and the frame that is sent.
unfoldable pub loop : ℕ → ℕ × List Sent
loop sent =
    if sent == 0
    then ((sent + 1) % 256, record { id = 0x81; len = 8; buf = open_contactor } ∷ [])
    else (sent, [])

-- The frames of a number of passes.
unfoldable pub passes : ℕ → ℕ → List Sent
passes zero sent = []
passes (suc n) sent = (loop sent).1 ++ passes n (loop sent).0

quiet : (n : ℕ) → passes n 1 ≡ []
unfolding passes loop
quiet zero = refl
quiet (suc n) = quiet n

-- However many passes there are, at least one, the motorcycle gets exactly one frame.
pub opens_once :
    (n : ℕ) → passes (suc n) 0 ≡ record { id = 0x81; len = 8; buf = open_contactor } ∷ []
unfolding passes loop
opens_once n = rw (quiet n)
