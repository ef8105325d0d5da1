-- ===== src/SuperCharger/Cutback/Order.antt =====
-- The order of a cutback table does not matter.
use scv2_sketches.Prelude.{
  slt16, Bool, true, false, not, ℕ, min, List, [], ◌∷◌, ◌≡◌, refl, ◌∙◌, ap, arith,
}
use mathlib.Core.List.{Perm, Permᴰ}
use mathlib.Core.Logic.{∥∥₁_elim}
use native.Mathlib.Nat.{ℕ_set}
use scv2_sketches.SuperCharger.Tables.{Row}
use scv2_sketches.SuperCharger.State.{Charger}
use scv2_sketches.SuperCharger.Charging.{volts_cutback, cold_cutback, hot_cutback, cut, max_watts}
use scv2_sketches.SuperCharger.Cutback.Least.{cut_twice}

-- A loop over rows, each of which changes the watts.
loop : (Row → ℕ → ℕ) → List Row → ℕ → ℕ
loop f [] watts = watts
loop f (r ∷ rows) watts = loop f rows (f r watts)

module _ (f : Row → ℕ → ℕ) (swaps : (p q : Row) (w : ℕ) → f q (f p w) ≡ f p (f q w)) where
  loop-permᴰ : {xs ys : List Row} → Permᴰ xs ys → (w : ℕ) → loop f xs w ≡ loop f ys w
  unfolding loop
  loop-permᴰ Permᴰ.nil w = refl
  loop-permᴰ (Permᴰ.cons {a = x} {b = y} {l₂ = ys} e p) w =
      loop-permᴰ p (f x w) ∙ ap (λ r. loop f ys (f r w)) e
  loop-permᴰ (Permᴰ.swap {a = x} {b = y} {l = l} e e') w = ap (loop f l) (swaps x y w) ∙ rw (e, e')
  loop-permᴰ (Permᴰ.trans p q) w = loop-permᴰ p w ∙ loop-permᴰ q w

  loop-perm : {xs ys : List Row} → Perm xs ys → (w : ℕ) → loop f xs w ≡ loop f ys w
  loop-perm p w = ∥∥₁_elim p (ℕ_set _ _) (λ d. loop-permᴰ d w)

volts_cutback-eq-loop :
    (s : Charger) (rows : List Row) (w : ℕ)
    → volts_cutback s rows w ≡ loop (λ r w. min w (max_watts s r.1)) rows w
unfolding volts_cutback loop
volts_cutback-eq-loop s [] w = refl
volts_cutback-eq-loop s ((volts, rate) ∷ rows) w =
    volts_cutback-eq-loop s rows _
    ∙ ap (loop (λ r w. min w (max_watts s r.1)) rows) (cut_twice _ (max_watts s rate) w)

cold_cutback-eq-loop :
    (s : Charger) (rows : List Row) (w : ℕ)
    → cold_cutback s rows w
      ≡ loop (λ r w. cut (not (slt16 r.0 s.low_temp)) (max_watts s r.1) w) rows w
unfolding cold_cutback loop
cold_cutback-eq-loop s [] w = refl
cold_cutback-eq-loop s ((temp, rate) ∷ rows) w = cold_cutback-eq-loop s rows _

hot_cutback-eq-loop :
    (s : Charger) (rows : List Row) (w : ℕ)
    → hot_cutback s rows w
      ≡ loop (λ r w. cut (not (slt16 s.high_temp r.0)) (max_watts s r.1) w) rows w
unfolding hot_cutback loop
hot_cutback-eq-loop s [] w = refl
hot_cutback-eq-loop s ((temp, rate) ∷ rows) w = hot_cutback-eq-loop s rows _

min_swap : (x y w : ℕ) → min (min w x) y ≡ min (min w y) x
min_swap x y w = omega arith

cut_swap : (a b : Bool) (x y w : ℕ) → cut b y (cut a x w) ≡ cut a x (cut b y w)
unfolding cut
cut_swap true true x y w = ground arith
cut_swap true false x y w = refl
cut_swap false b x y w = refl

-- Rows in another order give the same watts, in each of the three loops.
pub cutbacks_any_order :
    (s : Charger) (w : ℕ) {xs ys : List Row}
    → Perm xs ys
    → (volts_cutback s xs w ≡ volts_cutback s ys w)
      × (cold_cutback s xs w ≡ cold_cutback s ys w)
      × (hot_cutback s xs w ≡ hot_cutback s ys w)
cutbacks_any_order s w {xs} {ys} p = (
  rw (volts_cutback-eq-loop s xs w, volts_cutback-eq-loop s ys w)
      (loop-perm _ (λ a b w. min_swap _ _ w) p w),
  rw (cold_cutback-eq-loop s xs w, cold_cutback-eq-loop s ys w)
      (loop-perm _ (λ a b w. cut_swap _ _ _ _ w) p w),
  rw (hot_cutback-eq-loop s xs w, hot_cutback-eq-loop s ys w)
      (loop-perm _ (λ a b w. cut_swap _ _ _ _ w) p w),
)
