-- ===== src/Alps/Bitmap.antt =====
-- The bitmaps of the semi-multitouch protocols: `alps_get_bitmap_points` and `alps_process_bitmap`.
pub mod Runs
pub mod Corners
pub mod Nearest
use voodoo_ps2_alps.Base.{
  ℕ, zero, suc, ◌+◌, ◌-◌, ◌*◌, ◌/◌, ◌%◌, max, ◌&◌, ◌≫◌, if◌then◌else◌, ltb, List, [], ◌∷◌, Option,
  none, some, Bool, true, false, ◌||◌, ◌==◌, nz, get_or, map, sub32,
}
use voodoo_ps2_alps.Base.Int.{ℤ, pos, pos_part, neg_part, int32, abs, ltb_ℤ, div_ℤ}
use voodoo_ps2_alps.Alps.Types.{
  AlpsData, AlpsFields, MtPos, origin, alps_proto_v3, alps_proto_v4, alps_proto_v5,
}

-- `struct alps_bitmap_point`
pub record BitmapPoint : Type 0 where
  pub start_bit : ℕ
  pub num_bits : ℕ

abbrev pub zero_point : BitmapPoint
zero_point = record { start_bit = 0; num_bits = 0 }

-- The variables of the loop: `at_high` says whether `point` is `high`.
pub record Scan : Type 0 where
  pub low : BitmapPoint
  pub high : BitmapPoint
  pub at_high : Bool
  pub prev_bit : ℕ
  pub fingers : ℕ

-- `*point = p`
unfoldable pub put_point : Scan → BitmapPoint → Scan
put_point s p = if s.at_high then record s { high = p } else record s { low = p }

-- The body of the loop, for bit number `i`
unfoldable pub scan_bit : ℕ → ℕ → Scan → Scan
unfolding put_point
scan_bit i bit s0 =
    let s = record s0 { prev_bit = bit } in
    let point = if s.at_high then s.high else s.low in
    if nz bit
    then if nz s0.prev_bit
      then put_point s (record point { num_bits = point.num_bits + 1 })
      else put_point (record s { fingers = s.fingers + 1 }) (record { start_bit = i; num_bits = 1 })
    else if nz s0.prev_bit
    then record s { at_high = true }
    else s

-- `for (i = 0; map != 0; i++, map >>= 1)`, with the rounds that are left
unfoldable pub scan_bits : ℕ → ℕ → ℕ → Scan → Scan
scan_bits zero map i s = s
scan_bits (suc rounds) map i s = elim (map == 0) [
  | true ↦ s
  | false ↦ scan_bits rounds (map ≫ 1) (i + 1) (scan_bit i (map % 2) s)
]

-- A map has 32 bits, so 32 rounds are enough. The results are `low`, `high` and the fingers.
unfoldable pub alps_get_bitmap_points : ℕ → BitmapPoint → BitmapPoint → ℕ → Scan
unfolding scan_bits scan_bit
alps_get_bitmap_points map low high fingers =
    scan_bits 32 map 0
      (record { low = low; high = high; at_high = false; prev_bit = 0; fingers = fingers })

-- "Divide the single contact between the two points": the points of one axis
unfoldable pub split_contact : Scan → BitmapPoint × BitmapPoint
split_contact s =
    let i = s.low.num_bits / 2 in
    if s.fingers == 1
    then (
      record { start_bit = s.low.start_bit; num_bits = s.low.num_bits - i },
      record { start_bit = s.low.start_bit + i; num_bits = max i 1 },
    )
    else (s.low, s.high)

-- One coordinate of a corner; the number of bits is positive. The product is an `int`, 32 bits that
-- wrap around; the quotient is stored as UInt32.
unfoldable pub corner_at : ℕ → ℕ → BitmapPoint → ℕ
corner_at size bits p =
    let product = int32 (size * (2 * p.start_bit + p.num_bits - 1)) in
    let quotient = div_ℤ product (2 * (bits - 1)) in sub32 (pos_part quotient) (neg_part quotient)

-- The reversal of an axis, on UInt32
unfoldable pub flip_x : AlpsData → MtPos → MtPos
flip_x priv c =
    if priv.proto_version == alps_proto_v5 then record c { x = sub32 priv.x_max c.x } else c

unfoldable pub flip_y : AlpsData → MtPos → MtPos
flip_y priv c =
    if priv.proto_version == alps_proto_v3 || priv.proto_version == alps_proto_v4
    then record c { y = sub32 priv.y_max c.y }
    else c

-- The corners of the box: top left, top right, bottom right, bottom left, reversed as needed
unfoldable pub corners : AlpsData → ℕ → ℕ → List MtPos
unfolding alps_get_bitmap_points split_contact corner_at flip_x flip_y
corners priv x_map y_map =
    let (x_low, x_high) = split_contact (alps_get_bitmap_points x_map zero_point zero_point 0) in
    let (y_low, y_high) = split_contact (alps_get_bitmap_points y_map zero_point zero_point 0) in
    let x = corner_at priv.x_max priv.x_bits in
    let y = corner_at priv.y_max priv.y_bits in
    let flip = λ (c : MtPos). flip_y priv (flip_x priv c) in
    flip (record { x = x x_low; y = y y_low })
    ∷ flip (record { x = x x_high; y = y y_low })
    ∷ flip (record { x = x x_high; y = y y_high })
    ∷ flip (record { x = x x_low; y = y y_high })
    ∷ []

-- `dx * dx + dy * dy`, where the differences are taken on UInt32 and read as `int`; the result is an
-- `int` too, 32 bits that wrap around.
unfoldable pub distance : MtPos → MtPos → ℤ
distance a c =
    let dx = abs (int32 (sub32 a.x c.x)) in
    let dy = abs (int32 (sub32 a.y c.y)) in int32 (dx * dx + dy * dy)

-- The loop over the corners: the closest so far and its distance
unfoldable pub closest_corner : MtPos → List MtPos → ℕ → Option ℕ → ℤ → Option ℕ
closest_corner st [] i best closest = best
closest_corner st (c ∷ cs) i best closest =
    let d = distance st c in
    closest_corner st cs (i + 1) (if ltb_ℤ d closest then some i else best)
      (if ltb_ℤ d closest then d else closest)

-- `(second_touch + 2) % 4`, where -1 stands if no corner was near enough
unfoldable pub opposite : Option ℕ → ℕ
opposite none = 1
opposite (some i) = (i + 2) % 4

-- The corner for the second touch: chosen once, and kept until a single touch clears it
unfoldable pub choose_corner : Option ℕ → MtPos → List MtPos → ℕ
unfolding closest_corner opposite
choose_corner (some k) st cs = k
choose_corner none st cs = opposite (closest_corner st cs 0 none (pos 0x7fffffff))

-- The count returned, with the changes to `priv` and to the fields
unfoldable pub alps_process_bitmap : AlpsData → AlpsFields → ℕ × AlpsData × AlpsFields
alps_process_bitmap priv fields =
    let fingers_x = (alps_get_bitmap_points fields.x_map zero_point zero_point 0).fingers in
    let fingers_y = (alps_get_bitmap_points fields.y_map zero_point zero_point 0).fingers in
    let cs = corners priv fields.x_map fields.y_map in
    let k = choose_corner priv.second_touch fields.st cs in
    if fields.x_map == 0 || fields.y_map == 0 then (0, priv, fields) else (
      max fingers_x fingers_y,
      record priv { second_touch = some k },
      record fields { mt0 = fields.st; mt1 = get_or cs k origin },
    )
