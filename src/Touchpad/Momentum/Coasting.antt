-- ===== src/Touchpad/Momentum/Coasting.antt =====
-- Momentum scrolling comes to an end.
use voodoo_ps2_alps.Base.{
  ℕ, zero, suc, ◌+◌, ◌*◌, ◌/◌, ◌%◌, ◌≤◌, ◌<◌, ◌≡◌, ◌⊎◌, inl, inr, refl, ap, ◌∙◌, arith, [], ltb,
  Bool-cases,
}
use voodoo_ps2_alps.Base.Int.{ℤ, pos, negsuc, pos_part, neg_part, abs, div_ℤ, ◌+ℤ◌, ◌*ℤ◌}
use native.Mathlib.Nat.{zero-div, zero-mod, div-add-mod, mul-lt-mul_of_pos_left}
use voodoo_ps2_alps.Touchpad.Momentum.{Momentum, rem_ℤ, slowed, on_scroll_timer, coast}

-- Both numbers are at least 0, or both at most 0.
abbrev pub SameSign : ℤ → ℤ → Type 0
SameSign a b = ((neg_part a ≡ 0) × (neg_part b ≡ 0)) ⊎ ((pos_part a ≡ 0) × (pos_part b ≡ 0))

-- The momentum and what was left over point the same way, and each step takes a part of it.
pub record IsMomentum (m : Momentum) : Type 0 where
  pub slows : m.multiplier < m.divisor
  pub same_sign : SameSign m.current m.rest1

-- A step by size: nothing of the sum is lost
abs-sum : (c r : ℤ) (k : ℕ) → SameSign c r → abs (c *ℤ pos k +ℤ r) ≡ abs c * k + abs r
unfolding ◌+ℤ◌ ◌*ℤ◌
abs-sum c r k s = ground (arith, s)

parts_of_sum : (a : ℤ) (d : ℕ) → (abs (div_ℤ a d) ≡ abs a / d) × (abs (rem_ℤ a d) ≡ abs a % d)
unfolding div_ℤ rem_ℤ
parts_of_sum (pos n) d = ground (arith, zero-div d, zero-mod d)
parts_of_sum (negsuc n) d = ground (arith, zero-div d, zero-mod d)

signs_of_sum : (a : ℤ) (d : ℕ) → SameSign (div_ℤ a d) (rem_ℤ a d)
unfolding div_ℤ rem_ℤ
signs_of_sum (pos n) d = ground (arith, zero-div d, zero-mod d)
signs_of_sum (negsuc n) d = ground (arith, zero-div d, zero-mod d)

-- What is left: it falls by the part that a step takes away.
abbrev left : Momentum → ℕ
left m = m.divisor * abs m.current + abs m.rest1

module _ (m : Momentum) (v : IsMomentum m) where
  step-IsMomentum : IsMomentum (on_scroll_timer m).0
  unfolding on_scroll_timer
  step-IsMomentum = record {
    slows = ground (arith, v.slows);
    same_sign = ground (arith, v.same_sign, signs_of_sum (slowed m) m.divisor);
  }

  slowed_left :
      0 < abs m.current
      → m.divisor * abs (div_ℤ (slowed m) m.divisor) + abs (rem_ℤ (slowed m) m.divisor) < left m
  slowed_left p =
      let (quotient, rest) = parts_of_sum (slowed m) m.divisor in
      rw
        (
          quotient,
          rest,
          div-add-mod (abs (slowed m)) m.divisor,
          abs-sum m.current m.rest1 m.multiplier v.same_sign,
        )
        (omega (arith, mul-lt-mul_of_pos_left v.slows p))

  step_left : 0 < abs m.current → left (on_scroll_timer m).0 < left m
  unfolding on_scroll_timer
  step_left p = ground (arith, slowed_left p, mul-lt-mul_of_pos_left v.slows p)

  at_rest : abs m.current ≡ 0 → (on_scroll_timer m).0 ≡ m
  unfolding on_scroll_timer
  at_rest e = ground (arith, e)

stays : (times : ℕ) (m : Momentum) → IsMomentum m → abs m.current ≡ 0 → coast times m ≡ m
unfolding coast
stays zero m v e = refl
stays (suc times) m v e = ap (coast times) (at_rest m v e) ∙ stays times m v e

stops : (times : ℕ) (m : Momentum) → IsMomentum m → left m ≤ times → abs (coast times m).current ≡ 0
unfolding coast
stops zero m v h = elim (Bool-cases (ltb 0 (abs m.current))) [
  | inl e ↦ absurd (omega (arith, h, step_left m v (ground (arith, e))))
  | inr e ↦ ground (arith, e)
]
stops (suc times) m v h = elim (Bool-cases (ltb 0 (abs m.current))) [
  | inl e ↦
      stops times (on_scroll_timer m).0 (step-IsMomentum m v)
        (omega (arith, h, step_left m v (ground (arith, e))))
  | inr e ↦
      let still : abs m.current ≡ 0 = ground (arith, e) in
      ap (λ (n : Momentum). abs n.current) (stays (suc times) m v still) ∙ still
]

silent : (m : Momentum) → abs m.current ≡ 0 → (on_scroll_timer m).1 ≡ []
unfolding on_scroll_timer
silent m e = ground (arith, e)

zero_of_abs : (a : ℤ) → abs a ≡ 0 → a ≡ pos 0
zero_of_abs a e = ground (arith, e)

-- With a multiplier below the divisor, and a momentum and a remainder of it that point the same way: when
-- the timer has fired as many times as the divisor times the size of the momentum plus the size of
-- the remainder, the momentum is zero, and a further call sends nothing and starts no timer.
pub coast_lem :
    (m : Momentum) (times : ℕ)
    → IsMomentum m
    → m.divisor * abs m.current + abs m.rest1 ≤ times
    → ((coast times m).current ≡ pos 0) × ((on_scroll_timer (coast times m)).1 ≡ [])
coast_lem m times v h =
    let still = stops times m v h in (zero_of_abs _ still, silent (coast times m) still)
