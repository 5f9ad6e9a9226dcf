-- ===== src/Touchpad/Momentum.antt =====
-- VoodooPS2Trackpad/VoodooPS2TouchPadBase.cpp, `onScrollTimer`: the scrolling that goes on after the
-- fingers have left. The products are taken without overflow, which C++ leaves undefined; the cast of
-- the step to `int` wraps. A scroll event keeps the value that is passed as `short`.
pub mod Coasting
use voodoo_ps2_alps.Base.{
  ℕ, zero, suc, ◌+◌, ◌-◌, ◌*◌, ◌/◌, ◌%◌, ◌^◌, Bool, true, false, List, [], ◌∷◌, ltb, ◌==◌,
  if◌then◌else◌, nz,
}
use voodoo_ps2_alps.Base.Int.{ℤ, pos, pos_part, neg_part, sub_ℕ, abs, int32, div_ℤ, ◌+ℤ◌, ◌*ℤ◌}

-- The fields of the driver that momentum scrolling uses
pub record Momentum : Type 0 where
  pub interval : ℕ
  pub timer : ℕ
  pub threshy : ℕ
  pub multiplier : ℕ
  pub divisor : ℕ
  pub wv_divisor : ℕ
  pub current : ℤ
  pub rest1 : ℤ
  pub rest2 : ℤ

-- C's `%` by a positive number: it has the sign of the dividend.
unfoldable pub rem_ℤ : ℤ → ℕ → ℤ
rem_ℤ a k = sub_ℕ (pos_part a % k) (neg_part a % k)

-- `(int)` of a signed number of 64 bits
abbrev pub to_int : ℤ → ℤ
to_int a = int32 (pos_part a + (2 ^ 32 - neg_part a % 2 ^ 32))

pub data ScrollEvent : Type 0 where
  scroll_wheel : ℤ → ScrollEvent
  set_scroll_timer : ℕ → ScrollEvent

-- `momentumscrollcurrent * momentumscrollmultiplier + momentumscrollrest1`
abbrev pub slowed : Momentum → ℤ
slowed m = m.current *ℤ pos m.multiplier +ℤ m.rest1

unfoldable pub on_scroll_timer : Momentum → Momentum × List ScrollEvent
unfolding rem_ℤ
on_scroll_timer m =
    let dy = to_int (div_ℤ m.current m.interval +ℤ m.rest2) in
    if abs m.current == 0
    then (m, [])
    else if ltb m.threshy (abs dy)
    then (
      record m {
        rest2 = if nz m.wv_divisor then rem_ℤ dy m.wv_divisor else pos 0;
        current = div_ℤ (slowed m) m.divisor;
        rest1 = rem_ℤ (slowed m) m.divisor;
      },
      scroll_wheel (if nz m.wv_divisor then div_ℤ dy m.wv_divisor else pos 0)
          ∷ set_scroll_timer m.timer
          ∷ [],
    )
    else (record m { current = pos 0 }, [])

-- The state after the timer has fired some times
unfoldable pub coast : ℕ → Momentum → Momentum
coast zero m = m
coast (suc times) m = let (m', events) = on_scroll_timer m in coast times m'
