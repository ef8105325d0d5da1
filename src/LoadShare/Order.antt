-- ===== src/LoadShare/Order.antt =====
-- The chargers may report in any order: a pass of a load share sketch does not tell.
use scv2_sketches.Prelude.{ℕ, ◌+◌, List, ◌≡◌, refl, ◌∙◌, ap, Bool, Frame, word, u16, arith}
use mathlib.Core.List.{Perm, Permᴰ}
use mathlib.Core.Logic.{∥∥₁_elim}
use native.Mathlib.Nat.{ℕ_set}
use scv2_sketches.LoadShare.State.{Board, Sketch, State}
use scv2_sketches.LoadShare.Cycle.{start, receive, decide, cycle}
use scv2_sketches.LoadShare.Loop.{read_commands, control, loop}

-- One frame of the loop.
abbrev heard_one : Frame → State → State
heard_one f s = record s {
  charger_count = s.charger_count + 1;
  volts = u16 (s.volts + word f.b0 f.b1);
  amps = u16 (s.amps + word f.b2 f.b3);
}

sums_swap : (v x y : ℕ) → u16 (u16 (v + x) + y) ≡ u16 (u16 (v + y) + x)
sums_swap v x y = omega arith

frames_swap : (f g : Frame) (s : State) → heard_one g (heard_one f s) ≡ heard_one f (heard_one g s)
frames_swap f g s =
    let v = sums_swap s.volts (word f.b0 f.b1) (word g.b0 g.b1) in
    let a = sums_swap s.amps (word f.b2 f.b3) (word g.b2 g.b3) in rw (v, a) refl

receive-permᴰ : {xs ys : List Frame} → Permᴰ xs ys → (s : State) → receive xs s ≡ receive ys s
unfolding receive
receive-permᴰ Permᴰ.nil s = refl
receive-permᴰ (Permᴰ.cons {a = x} {b = y} {l₂ = ys} e p) s =
    receive-permᴰ p (heard_one x s) ∙ ap (λ r. receive ys (heard_one r s)) e
receive-permᴰ (Permᴰ.swap {a = x} {b = y} {l = l} e e') s =
    ap (receive l) (frames_swap x y s) ∙ rw (e, e')
receive-permᴰ (Permᴰ.trans p q) s = receive-permᴰ p s ∙ receive-permᴰ q s

State_set : IsSet State
State_set = hlevel ℕ_set

receive-perm : {xs ys : List Frame} → Perm xs ys → (s : State) → receive xs s ≡ receive ys s
receive-perm p s = ∥∥₁_elim p (State_set _ _) (λ d. receive-permᴰ d s)

decide-perm :
    (k : Sketch) (board : Board) {xs ys : List Frame}
    → Perm xs ys
    → (s : State) → decide k board xs s ≡ decide k board ys s
unfolding decide
decide-perm k board p s = rw (receive-perm p (start s))

control-perm :
    (k : Sketch) (board : Board) {xs ys : List Frame}
    → Perm xs ys
    → (s : State) → control k board xs s ≡ control k board ys s
unfolding control cycle
control-perm k board p s = rw (decide-perm k board p s)

-- On either board, a pass of a load share sketch has the same result for the frames of the chargers
-- in any order: the state, the line that is printed and the heartbeat, or that it is undefined.
pub loop_any_order :
    (k : Sketch) (board : Board) (commands : List ℕ) {xs ys : List Frame} (serial : Bool)
    (s : State)
    → Perm xs ys
    → loop k board (record { commands = commands; frames = xs; serial = serial }) s
      ≡ loop k board (record { commands = commands; frames = ys; serial = serial }) s
unfolding loop
loop_any_order k board commands serial s p = rw (control-perm k board p (read_commands commands s))
