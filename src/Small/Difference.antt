-- ===== src/Small/Difference.antt =====
-- test/test.ino: a difference of two `long`s in an `unsigned long`.
use scv2_sketches.Prelude.{ℕ, sub32, List, [], ◌∷◌}

-- The numbers that the sketch prints: it exits in its first pass.
unfoldable pub loop : List ℕ
loop = sub32 100 300 ∷ []
