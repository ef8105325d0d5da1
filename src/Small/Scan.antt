-- ===== src/Small/Scan.antt =====
-- The rates that the setup of a serial CAN module tries (serialCanSetup, sketch_may03a).
use scv2_sketches.Prelude.{
  ℕ, zero, suc, ◌+◌, ◌%◌, ◌<◌, ◌≡◌, ◌∙◌, refl, sym, ap, some, List, [], ◌∷◌, length, get_elem?,
  arith,
}
use scv2_sketches.Small.Baud.{Setup, Answers, bauds, dialogue, commands, advance, loop, passes}

-- The rate of an index, one for each of the five.
abbrev rate_at : ℕ → ℕ
rate_at zero = 9600
rate_at (suc zero) = 19200
rate_at (suc (suc zero)) = 38400
rate_at (suc (suc (suc zero))) = 57600
rate_at (suc (suc (suc (suc i)))) = 115200

get_elem?-bauds : (i : ℕ) → i < 5 → get_elem? bauds i ≡ some (rate_at i)
get_elem?-bauds zero h = refl
get_elem?-bauds (suc zero) h = refl
get_elem?-bauds (suc (suc zero)) h = refl
get_elem?-bauds (suc (suc (suc zero))) h = refl
get_elem?-bauds (suc (suc (suc (suc zero)))) h = refl
get_elem?-bauds (suc (suc (suc (suc (suc i))))) h = absurd (omega arith)

advance-lt : (i : ℕ) → i < 5 → (advance i < 5) × (advance i ≡ (i + 1) % 5)
unfolding advance
advance-lt i h = ground arith

-- The rates of a number of passes behind an index.
abbrev turn : ℕ → ℕ → List ℕ
turn i zero = []
turn i (suc n) = rate_at (advance i) ∷ turn (advance i) n

-- A pass is defined and opens the port at the next rate.
step :
    (k : Setup) (a : Answers) (i : ℕ)
    → i < 5
    → loop k a i ≡ some (advance i, rate_at (advance i), dialogue k a (rate_at i))
unfolding loop commands
step k a i h = simp (get_elem?-bauds i h, get_elem?-bauds (advance i) (advance-lt i h).0) refl

index_after : (i n : ℕ) → i < 5 → (advance i + n) % 5 ≡ (i + suc n) % 5
index_after i n h = omega (arith, advance-lt i h)

run :
    (k : Setup) (answers : List Answers) (i : ℕ)
    → i < 5
    → passes k answers i ≡ some ((i + length answers) % 5, turn i (length answers))
unfolding passes
run k [] i h = ap (λ j. some (j, [])) (omega (arith, h))
run k (a ∷ rest) i h =
    let e = index_after i (length rest) h in
    simp (step k a i h, run k rest (advance i) (advance-lt i h).0, e) refl

get_elem?-turn :
    (i n m : ℕ) → i < 5 → m < n → get_elem? (turn i n) m ≡ some (rate_at ((i + 1 + m) % 5))
get_elem?-turn i zero m h l = absurd (omega arith)
get_elem?-turn i (suc n) zero h l = ap (λ j. some (rate_at j)) (omega (arith, advance-lt i h))
get_elem?-turn i (suc n) (suc m) h l =
    get_elem?-turn (advance i) n m (advance-lt i h).0 (omega arith)
    ∙ ap (λ j. some (rate_at j)) (omega (arith, advance-lt i h))

-- From a valid index, any passes are defined, whatever the module answers, and leave a valid index:
-- the array of rates is never read outside. The m-th of them opens the port at the rate that is m
-- places further in the circle of five, so five passes in a row try each rate once.
pub rates_in_turn :
    (k : Setup) (answers : List Answers) (i m : ℕ)
    → i < 5
    → m < length answers
    → (rates : List ℕ) × (passes k answers i ≡ some ((i + length answers) % 5, rates))
      × (get_elem? rates m ≡ get_elem? bauds ((i + 1 + m) % 5))
rates_in_turn k answers i m h l = (
  turn i (length answers),
  run k answers i h,
  get_elem?-turn i (length answers) m h l ∙ sym (get_elem?-bauds ((i + 1 + m) % 5) (omega arith)),
)
