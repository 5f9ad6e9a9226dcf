-- ===== src/Alps/Dispatch.antt =====
-- The first lines of `dispatchEventsWithInfo` (VoodooPS2Trackpad/alps.cpp), which bring the position of
-- a finger to a common scale. What it does with the scaled position is not modelled here.
use voodoo_ps2_alps.Base.{ℕ, ◌+◌, ◌/◌, ltb, if◌then◌else◌}
use voodoo_ps2_alps.Base.Int.{ℤ, pos, ◌*ℤ◌, div_ℤ}
use voodoo_ps2_alps.Alps.Types.{AlpsData}

-- `6000 / ((priv.x_max + priv.y_max)/2)`
unfoldable pub axis_factor : AlpsData → ℕ
axis_factor priv = 6000 / ((priv.x_max + priv.y_max) / 2)

-- "scale x & y to the axis which has the most resolution", and "all touchpads' axes to 6000"
unfoldable pub scaled : AlpsData → ℕ → ℕ → ℤ → ℤ → ℤ × ℤ
unfolding axis_factor
scaled priv xupmm yupmm xraw yraw =
    let x = if ltb xupmm yupmm then div_ℤ (xraw *ℤ pos yupmm) xupmm else xraw in
    let y = if ltb yupmm xupmm then div_ℤ (yraw *ℤ pos xupmm) yupmm else yraw in
    (x *ℤ pos (axis_factor priv), y *ℤ pos (axis_factor priv))
