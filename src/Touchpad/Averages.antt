-- ===== src/Touchpad/Averages.antt =====
-- VoodooPS2Trackpad/Decay.h: the filters. `m_sum` is a 32-bit word that wraps around, and is read
-- as an `int` where it is divided. `int_of` is the number that a value adds to it: a time of 64 bits
-- is added as it is and the result narrowed to `int`, an `int` is added as a word. The products of
-- `DecayingAverage` and `UndecayAverage` are taken without overflow, which C++ leaves undefined.
pub mod Window
pub mod Undecay
use voodoo_ps2_alps.Base.{
  ℕ, ◌+◌, ◌-◌, List, Bool, true, false, Option, none, some, if◌then◌else◌, ltb, leb, ◌==◌, get_or,
  set, u32, sub32,
}
use voodoo_ps2_alps.Base.Int.{ℤ, pos, ◌+ℤ◌, ◌-ℤ◌, ◌*ℤ◌, div_ℤ, int32}

-- `SimpleAverage<T, N>`; `sum` is the word of `m_sum`.
pub record SimpleAverage {ℓ} (A : Type ℓ) : Type ℓ where
  pub buffer : List A
  pub count : ℕ
  pub sum : ℕ
  pub index : ℕ

module _ {ℓ} {A : Type ℓ} where
  unfoldable pub reset_average : SimpleAverage A → SimpleAverage A
  reset_average h = record h { count = 0; sum = 0; index = 0 }

  module _ (n : ℕ) (int_of : A → ℕ) (zero_value : A) where
    -- `m_sum`, once the new entry is in and the old one out
    unfoldable pub filtered_sum : SimpleAverage A → A → ℕ
    filtered_sum h value =
        let more = u32 (h.sum + int_of value) in
        if h.count == n then sub32 more (int_of (get_or h.buffer h.index zero_value)) else more

    -- The state after `filter`
    unfoldable pub filter : SimpleAverage A → A → SimpleAverage A
    unfolding filtered_sum
    filter h value = record {
      buffer = set h.buffer h.index value;
      count = if ltb h.count n then h.count + 1 else h.count;
      sum = filtered_sum h value;
      index = if leb n (h.index + 1) then 0 else h.index + 1;
    }

    unfoldable pub oldest : SimpleAverage A → A
    oldest h =
        if h.count == 0
        then zero_value
        else if ltb h.count n
        then get_or h.buffer 0 zero_value
        else get_or h.buffer h.index zero_value

    unfoldable pub newest : SimpleAverage A → A
    newest h =
        if h.count == 0
        then zero_value
        else get_or h.buffer (if h.index == 0 then h.count - 1 else h.index - 1) zero_value

  -- `average`, and what `filter` returns after the change
  unfoldable pub average : SimpleAverage A → ℤ
  average h = if h.count == 0 then pos 0 else div_ℤ (int32 h.sum) h.count

-- `DecayingAverage` and `UndecayAverage`: `none` is `m_lastvalid == false`. The results are the value
-- that `filter` returns and the new state.
module _ (n1 n2 d : ℕ) where
  unfoldable pub decay : Option ℤ → ℤ → ℤ × Option ℤ
  decay none value = (value, some value)
  decay (some last) value =
      let result = div_ℤ (value *ℤ pos n1) d +ℤ div_ℤ (last *ℤ pos n2) d in (result, some result)

  unfoldable pub undecay : Option ℤ → ℤ → ℤ × Option ℤ
  undecay none value = (value, some value)
  undecay (some last) value = (div_ℤ (value *ℤ pos d) n1 -ℤ div_ℤ (last *ℤ pos n2) n1, some value)
