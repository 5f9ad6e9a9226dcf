-- ===== src/Touchpad/Averages/Undecay.antt =====
-- `UndecayAverage` behind `DecayingAverage`, with the weights 1, 1 and 2 of the touchpads.
use voodoo_ps2_alps.Base.{ℕ, ◌≤◌, ◌≡◌, arith, List, [], ◌∷◌, Option, none, some}
use voodoo_ps2_alps.Base.Int.{ℤ, pos, abs, ◌+ℤ◌, ◌-ℤ◌, ◌*ℤ◌, div_ℤ, int_laws}
use voodoo_ps2_alps.Touchpad.Averages.{decay, undecay}

-- A stream of values through the one filter and then through the other
unfoldable pub through : Option ℤ → Option ℤ → List ℤ → List ℤ
through a u [] = []
through a u (v ∷ vs) =
    let (mean, a') = decay 1 1 2 a v in let (w, u') = undecay 1 1 2 u mean in w ∷ through a' u' vs

-- Two lists of the same length, place by place at most `k` apart
unfoldable pub Near : ℕ → List ℤ → List ℤ → Type 0
Near k [] [] = Unit {0}
Near k [] (y ∷ ys) = ⊥
Near k (x ∷ xs) [] = ⊥
Near k (x ∷ xs) (y ∷ ys) = (abs (x -ℤ y) ≤ k) × Near k xs ys

-- Twice a halved value is at most one away from it.
halved : (v : ℤ) → abs (div_ℤ v 2 *ℤ pos 2 -ℤ v) ≤ 1
unfolding div_ℤ ◌*ℤ◌ ◌-ℤ◌
halved v = ground arith

double : (x : ℤ) → x *ℤ pos 2 ≡ x +ℤ x
unfolding ◌*ℤ◌ ◌+ℤ◌
double x = ground arith

by_one : (x : ℤ) → div_ℤ x 1 ≡ x
unfolding div_ℤ
by_one x = ground arith

once : (x : ℤ) → x *ℤ pos 1 ≡ x
unfolding ◌*ℤ◌
once x = ground arith

triangle : (x y : ℤ) → abs x ≤ 1 → abs y ≤ 1 → abs (x +ℤ y) ≤ 2
unfolding ◌+ℤ◌
triangle x y p q = ground arith

exchange : (a b r v : ℤ) → (a +ℤ b) *ℤ pos 2 -ℤ r -ℤ v ≡ (a *ℤ pos 2 -ℤ v) +ℤ (b *ℤ pos 2 -ℤ r)
exchange a b r v = rw (double (a +ℤ b), double a, double b) (grind int_laws)

step_near :
    (r v : ℤ)
    → abs (
        div_ℤ ((div_ℤ (v *ℤ pos 1) 2 +ℤ div_ℤ (r *ℤ pos 1) 2) *ℤ pos 2) 1
        -ℤ div_ℤ (r *ℤ pos 1) 1
        -ℤ v)
      ≤ 2
step_near r v =
    let a = div_ℤ v 2 in
    let b = div_ℤ r 2 in
    rw (once v, once r, by_one ((a +ℤ b) *ℤ pos 2), by_one r, exchange a b r v)
      (triangle (a *ℤ pos 2 -ℤ v) (b *ℤ pos 2 -ℤ r) (halved v) (halved r))

first_near : (v : ℤ) → abs (v -ℤ v) ≤ 2
unfolding ◌-ℤ◌
first_near v = ground arith

-- From the same last value in both filters
later : (r : ℤ) (vs : List ℤ) → Near 2 (through (some r) (some r) vs) vs
unfolding through Near decay undecay
later r [] = tt
later r (v ∷ vs) = (step_near r v, later (div_ℤ (v *ℤ pos 1) 2 +ℤ div_ℤ (r *ℤ pos 1) 2) vs)

-- A list of values that goes through the decaying average and then through its inverse comes back with
-- as many values, each at most two away from the one that went in.
pub through_lem : (vs : List ℤ) → Near 2 (through none none vs) vs
unfolding through Near decay undecay
through_lem [] = tt
through_lem (v ∷ vs) = (first_near v, later v vs)
