-- ===== src/Zero/Logger.antt =====
-- `Zero::logRaw` of libraries/ZERO_MOTORCYCLE/ZERO.cpp. What goes to the serial port is a list.
use Prim.Native.String.{String}
use scv2_sketches.Prelude.{ℕ, zero, suc, Bool, true, false, Option, none, some, List, [], ◌∷◌, ◌++◌}
use scv2_sketches.Zero.Network.{Message, zero_messages, find_message}

-- A print of a text, of a number in hexadecimal, and the end of a line.
pub data Output : Type 0 where
  text : String → Output
  hex : ℕ → Output
  newline : Output

-- The rule and the name above the dump of a known message.
abbrev pub header : Option Message → List Output
header none = []
header (some m) = text "-----------------------------" ∷ newline ∷ text m.name ∷ newline ∷ []

-- The first `len` bytes, each with a tab behind it.
pub dump : ℕ → List ℕ → List Output
dump zero buf = []
dump (suc len) [] = []
dump (suc len) (b ∷ buf) = hex b ∷ text "\t" ∷ dump len buf

-- `serial` is the test of `Serial`, false while no port is open.
unfoldable pub log_raw : Bool → ℕ → List ℕ → ℕ → List Output
unfolding dump
log_raw false len buf can_id = []
log_raw true len buf can_id =
    header (find_message can_id zero_messages)
    ++ (text " ID: " ∷ hex can_id ∷ newline ∷ text "-----------------------------" ∷ newline ∷ [])
    ++ (dump len buf ++ newline ∷ [])
