-- ===== src/Alps/Bitmap/Corners.antt =====
-- The corners of the box that `alps_process_bitmap` builds, and the one that it takes.
use voodoo_ps2_alps.Base.{
  ℕ, zero, suc, ◌+◌, ◌-◌, ◌*◌, ◌/◌, ◌^◌, ◌<◌, ◌≤◌, ◌≡◌, refl, arith, false, List, [], ◌∷◌, Option,
  none, some, get_or, ◌==◌, ◌||◌,
}
use native.Mathlib.Nat.{div-le_of_le-mul, mul_comm, mul-le-mul_right}
use voodoo_ps2_alps.Base.Int.{pos, int32, div_ℤ}
use voodoo_ps2_alps.Alps.Types.{AlpsData, AlpsFields, MtPos, origin}
use voodoo_ps2_alps.Alps.Bitmap.{
  BitmapPoint, corner_at, flip_x, flip_y, corners, closest_corner, opposite, choose_corner,
  alps_process_bitmap,
}
use voodoo_ps2_alps.Alps.Bitmap.Runs.{IsRun, points_inside}

-- The product of a coordinate, where it fits an `int`
fits_int : (p k : ℕ) → p < 2 ^ 31 → div_ℤ (int32 p) k ≡ pos (p / k)
unfolding int32 div_ℤ
fits_int p k h = ground (arith, zero_div k)
  where
    zero_div : (k : ℕ) → 0 / k ≡ 0
    zero_div k = ground arith

corner_bound :
    (size bits : ℕ) (p : BitmapPoint)
    → 2 ≤ bits
    → size * (2 * (bits - 1)) < 2 ^ 31
    → IsRun bits p
    → corner_at size bits p ≤ size
unfolding corner_at
corner_bound size bits p two fits (some_bit, below) =
    let m = 2 * p.start_bit + p.num_bits - 1 in
    let product : size * m ≤ size * (2 * (bits - 1)) = omega (
      arith,
      mul_comm size m,
      mul_comm size (2 * (bits - 1)),
      mul-le-mul_right {m = m} {n = 2 * (bits - 1)} size (omega arith),
    ) in
    let bound : size * m / (2 * (bits - 1)) ≤ size =
      div-le_of_le-mul (2 * (bits - 1)) (omega (arith, product, mul_comm size (2 * (bits - 1)))) in
    rw (fits_int (size * m) (2 * (bits - 1)) (omega (arith, product, fits))) (omega (arith, bound))

-- A position on the pad
abbrev pub IsOnPad : AlpsData → MtPos → Type 0
IsOnPad priv c = (c.x ≤ priv.x_max) × (c.y ≤ priv.y_max)

flip-IsOnPad :
    (priv : AlpsData) (c : MtPos)
    → priv.x_max < 2 ^ 32
    → priv.y_max < 2 ^ 32
    → IsOnPad priv c
    → IsOnPad priv (flip_y priv (flip_x priv c))
unfolding flip_y flip_x
flip-IsOnPad priv c hx hy h = ground arith

-- The shape of the pad: the products of the maxima fit an `int`.
pub record IsPad (priv : AlpsData) : Type 0 where
  pub x_wide : (2 ≤ priv.x_bits) × (priv.x_bits ≤ 32)
  pub y_wide : (2 ≤ priv.y_bits) × (priv.y_bits ≤ 32)
  pub x_int : priv.x_max * (2 * (priv.x_bits - 1)) < 2 ^ 31
  pub y_int : priv.y_max * (2 * (priv.y_bits - 1)) < 2 ^ 31

word_max : (size bits : ℕ) → 2 ≤ bits → size * (2 * (bits - 1)) < 2 ^ 31 → size < 2 ^ 32
word_max size bits two fits = omega (
  arith,
  mul_comm size (2 * (bits - 1)),
  mul-le-mul_right {m = 2} {n = 2 * (bits - 1)} size (omega arith),
)

module _ {priv : AlpsData} {x_map y_map : ℕ} (pad : IsPad priv) (x_some : 0 < x_map)
    (y_some : 0 < y_map) (x_fits : x_map < 2 ^ priv.x_bits) (y_fits : y_map < 2 ^ priv.y_bits) where
  corners-IsOnPad : (k : ℕ) → k < 4 → IsOnPad priv (get_or (corners priv x_map y_map) k origin)
  unfolding corners
  corners-IsOnPad k small =
      let (xl, xh) = points_inside priv.x_bits x_map pad.x_wide.1 x_some x_fits in
      let (yl, yh) = points_inside priv.y_bits y_map pad.y_wide.1 y_some y_fits in
      let x_low = corner_bound priv.x_max priv.x_bits _ pad.x_wide.0 pad.x_int xl in
      let x_high = corner_bound priv.x_max priv.x_bits _ pad.x_wide.0 pad.x_int xh in
      let y_low = corner_bound priv.y_max priv.y_bits _ pad.y_wide.0 pad.y_int yl in
      let y_high = corner_bound priv.y_max priv.y_bits _ pad.y_wide.0 pad.y_int yh in
      let xw = word_max priv.x_max priv.x_bits pad.x_wide.0 pad.x_int in
      let yw = word_max priv.y_max priv.y_bits pad.y_wide.0 pad.y_int in
      at_corner k small (flip-IsOnPad priv _ xw yw (x_low, y_low))
        (flip-IsOnPad priv _ xw yw (x_high, y_low)) (flip-IsOnPad priv _ xw yw (x_high, y_high))
        (flip-IsOnPad priv _ xw yw (x_low, y_high))
    where
      at_corner :
          {a b c d : MtPos} (k : ℕ)
          → k < 4
          → IsOnPad priv a
          → IsOnPad priv b
          → IsOnPad priv c
          → IsOnPad priv d
          → IsOnPad priv (get_or (a ∷ b ∷ c ∷ d ∷ []) k origin)
      at_corner zero h a b c d = a
      at_corner (suc zero) h a b c d = b
      at_corner (suc (suc zero)) h a b c d = c
      at_corner (suc (suc (suc zero))) h a b c d = d
      at_corner (suc (suc (suc (suc k)))) h a b c d = absurd (omega arith)

-- The corner that is kept is one of the four.
abbrev pub IsCorner : Option ℕ → Type 0
IsCorner second = (k : ℕ) → second ≡ some k → k < 4

opposite_four : (best : Option ℕ) → opposite best < 4
unfolding opposite
opposite_four none = omega arith
opposite_four (some i) = omega arith

choose_corner-four :
    (second : Option ℕ) (st : MtPos) (cs : List MtPos)
    → IsCorner second
    → choose_corner second st cs < 4
unfolding choose_corner
choose_corner-four (some k) st cs h = h k refl
choose_corner-four none st cs h = opposite_four (closest_corner st cs 0 none (pos 0x7fffffff))

some_maps : (a b : ℕ) → 0 < a → 0 < b → (a == 0 || b == 0) ≡ false
some_maps a b p q = ground arith

-- On a pad of 2 to 32 bits by axis whose maxima times twice the bits less one fit an `int`, and on
-- maps with set bits, none of them outside of the pad, a position report gets the position as
-- its first touch, and as its second touch a position on the pad; the corner taken is kept.
pub process_bitmap-IsOnPad :
    {priv : AlpsData} (f : AlpsFields)
    → IsPad priv
    → IsCorner priv.second_touch
    → 0 < f.x_map
    → 0 < f.y_map
    → f.x_map < 2 ^ priv.x_bits
    → f.y_map < 2 ^ priv.y_bits
    → (k : ℕ) × (k < 4)
      × ((alps_process_bitmap priv f).1.second_touch ≡ some k)
      × ((alps_process_bitmap priv f).2.mt0 ≡ f.st)
      × IsOnPad priv (alps_process_bitmap priv f).2.mt1
unfolding alps_process_bitmap
process_bitmap-IsOnPad {priv} f pad kept x_some y_some x_fits y_fits =
    let cs = corners priv f.x_map f.y_map in
    let k = choose_corner priv.second_touch f.st cs in
    let small = choose_corner-four priv.second_touch f.st cs kept in
    rw (some_maps f.x_map f.y_map x_some y_some)
      (k, small, refl, refl, corners-IsOnPad pad x_some y_some x_fits y_fits k small)
