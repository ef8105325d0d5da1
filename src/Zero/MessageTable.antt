-- ===== src/Zero/MessageTable.antt =====
-- The table `Zero_Messages` of libraries/ZERO_MOTORCYCLE/Network.h: its ids, and what the search
-- of `Zero::logRaw` finds in it.
use scv2_sketches.Prelude.{
  ℕ, zero, suc, ◌==◌, Bool, true, false, not, ◌&&◌, none, some, List, [], ◌∷◌, ◌++◌, ◌≡◌, ◌≢◌, refl,
  All, get_elem?, arith,
}
use scv2_sketches.Zero.Network.{Message, zero_messages, find_message}
use scv2_sketches.Zero.Logger.{Output, text, hex, newline, dump, log_raw}

-- No message of the list has the id.
abbrev fresh_id : ℕ → List Message → Bool
fresh_id i [] = true
fresh_id i (m ∷ ms) = not (i == m.id) && fresh_id i ms

abbrev distinct_ids : List Message → Bool
distinct_ids [] = true
distinct_ids (m ∷ ms) = fresh_id m.id ms && distinct_ids ms

get_elem?-fresh :
    (i : ℕ) (ms : List Message) (k : ℕ) {m : Message}
    → fresh_id i ms ≡ true
    → get_elem? ms k ≡ some m
    → (i == m.id) ≡ false
get_elem?-fresh i [] k f e = cc
get_elem?-fresh i (x ∷ ms) zero f e = ground arith
get_elem?-fresh i (x ∷ ms) (suc k) {m} f e = ground (arith, get_elem?-fresh i ms k {m = m})

find_message-get_elem? :
    (ms : List Message) (k : ℕ) {m : Message}
    → distinct_ids ms ≡ true
    → get_elem? ms k ≡ some m
    → find_message m.id ms ≡ some m
unfolding find_message
find_message-get_elem? [] k d e = cc
find_message-get_elem? (x ∷ ms) zero d e = ground arith
find_message-get_elem? (x ∷ ms) (suc k) {m} d e =
    ground (arith, find_message-get_elem? ms k {m = m}, get_elem?-fresh x.id ms k {m = m})

zero_messages-distinct : distinct_ids zero_messages ≡ true
zero_messages-distinct = refl

find_message-none : (i : ℕ) (ms : List Message) → All (λ m. m.id ≢ i) ms → find_message i ms ≡ none
unfolding find_message
find_message-none i [] h = refl
find_message-none i (m ∷ ms) h = ground (arith, find_message-none i ms h.1)

-- The dump of a frame, with the id above it.
abbrev pub body : ℕ → List ℕ → ℕ → List Output
body len buf can_id =
    (text " ID: " ∷ hex can_id ∷ newline ∷ text "-----------------------------" ∷ newline ∷ [])
    ++ (dump len buf ++ newline ∷ [])

-- With the port open, the log of a frame whose id is that of the message at any place of the table
-- begins with the name of that very message (so no two messages of the table share an id), and
-- the log of a frame whose id is in no message has no name; the id and the bytes follow.
pub log_raw_names :
    (k len : ℕ) (buf : List ℕ) (i : ℕ) {m : Message}
    → get_elem? zero_messages k ≡ some m
    → All (λ x. x.id ≢ i) zero_messages
    → (log_raw true len buf m.id
        ≡ (text "-----------------------------" ∷ newline ∷ text m.name ∷ newline ∷ [])
          ++ body len buf m.id)
      × (log_raw true len buf i ≡ body len buf i)
unfolding log_raw
log_raw_names k len buf i e f = (
  rw (find_message-get_elem? zero_messages k zero_messages-distinct e),
  rw (find_message-none i zero_messages f),
)
