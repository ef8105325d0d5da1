-- ===== src/Small/Baud.antt =====
-- serialCanSetup/serialCanSetup.ino and sketch_may03a/sketch_may03a.ino: a serial CAN module whose
-- rate is not known is told, at one rate after the other, which one to use.
use scv2_sketches.Prelude.{
  ℕ, ◌+◌, ◌==◌, if◌then◌else◌, ◌>>=◌, Bool, true, false, Option, some, List, [], ◌∷◌, ◌++◌,
  get_elem?,
}

abbrev pub bauds : List ℕ
bauds = 9600 ∷ 19200 ∷ 38400 ∷ 57600 ∷ 115200 ∷ []

abbrev pub max_baud : ℕ
max_baud = 5

-- The lines for the module: enter and leave its configuration, set its serial rate and its CAN rate.
pub data Command : Type 0 where
  enter leave : Command
  serial_rate can_rate : ℕ → Command

-- What happens in a pass: the rate is printed, a line is sent, or bytes of the module are copied.
pub data Event : Type 0 where
  printed : ℕ → Event
  sent : Command → Event
  copied : List ℕ → Event

-- A sketch: whether it drops what the module has said before, and its lines for the configuration,
-- with what the module answers to each.
pub record Setup : Type 0 where
  pub clears : Bool
  pub settings : List Command

abbrev pub serial_can_setup : Setup
serial_can_setup = record { clears = true; settings = serial_rate 0 ∷ can_rate 15 ∷ [] }

abbrev pub sketch_may03a : Setup
sketch_may03a = record { clears = false; settings = serial_rate 1 ∷ [] }

-- What the module answers to each line, or has said before the first one.
pub record Answers : Type 0 where
  pub before : List ℕ
  pub to_line : Command → List ℕ

-- Each line, and then the answer.
unfoldable pub talk : Answers → List Command → List Event
talk a [] = []
talk a (c ∷ cs) = sent c ∷ copied (a.to_line c) ∷ talk a cs

-- What happens at a rate.
abbrev pub dialogue : Setup → Answers → ℕ → List Event
dialogue k a rate =
    printed rate ∷ (if k.clears then [] else copied a.before ∷ [])
    ++ talk a (enter ∷ k.settings ++ leave ∷ [])

-- `bauds[currentBaud]` outside of the array is undefined.
unfoldable pub commands : Setup → Answers → ℕ → Option (List Event)
commands k a current = do rate ← get_elem? bauds current; some (dialogue k a rate)

-- The next rate.
unfoldable pub advance : ℕ → ℕ
advance current = if current + 1 == max_baud then 0 else current + 1

-- A pass starts the port again at the next rate.
unfoldable pub loop : Setup → Answers → ℕ → Option (ℕ × ℕ × List Event)
loop k a current = do
  events ← commands k a current
  rate ← get_elem? bauds (advance current)
  some (advance current, rate, events)

-- Passes in a row, each with what the module answers: the index and the rates of the port.
unfoldable pub passes : Setup → List Answers → ℕ → Option (ℕ × List ℕ)
passes k [] current = some (current, [])
passes k (a ∷ rest) current = do
  (next, rate, events) ← loop k a current
  (final, rates) ← passes k rest next
  some (final, rate ∷ rates)
