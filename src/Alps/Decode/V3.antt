-- ===== src/Alps/Decode/V3.antt =====
-- The V3 decoders: `alps_decode_buttons_v3`, `alps_decode_pinnacle` and `alps_decode_rushmore`.
pub mod Position
use voodoo_ps2_alps.Base.{ℕ, ◌+◌, ◌&◌, ◌¦◌, ◌≪◌, ◌≫◌, max, nz, of_bool, if◌then◌else◌, List, at}
use voodoo_ps2_alps.Alps.Types.{AlpsFields, MtPos}

unfoldable pub alps_decode_buttons_v3 : AlpsFields → List ℕ → AlpsFields
alps_decode_buttons_v3 f p = record f {
  left = of_bool (nz (at p 3 & 0x01));
  right = of_bool (nz (at p 3 & 0x02));
  middle = of_bool (nz (at p 3 & 0x04));
  ts_left = of_bool (nz (at p 3 & 0x10));
  ts_right = of_bool (nz (at p 3 & 0x20));
  ts_middle = of_bool (nz (at p 3 & 0x40));
}

-- The position and pressure, which both decoders read in the same way
unfoldable pub position_x : List ℕ → ℕ
position_x p = (at p 1 & 0x7f) ≪ 4 ¦ (at p 4 & 0x30) ≫ 2 ¦ (at p 0 & 0x30) ≫ 4

unfoldable pub position_y : List ℕ → ℕ
position_y p = (at p 2 & 0x7f) ≪ 4 ¦ at p 4 & 0x0f

unfoldable pub alps_decode_pinnacle : AlpsFields → List ℕ → AlpsFields
unfolding alps_decode_buttons_v3 position_x position_y
alps_decode_pinnacle f0 p =
    let f = record f0 {
      first_mp = of_bool (nz (at p 4 & 0x40));
      is_mp = of_bool (nz (at p 0 & 0x40));
    } in
    if nz f.is_mp
    then record f {
      fingers = (at p 5 & 0x3) + 1;
      x_map = (at p 4 & 0x7e) ≪ 8 ¦ (at p 1 & 0x7f) ≪ 2 ¦ (at p 0 & 0x30) ≫ 4;
      y_map = (at p 3 & 0x70) ≪ 4 ¦ (at p 2 & 0x7f) ≪ 1 ¦ at p 4 & 0x01;
    }
    else alps_decode_buttons_v3
        (record f { st = record { x = position_x p; y = position_y p }; pressure = at p 5 & 0x7f })
        p

unfoldable pub alps_decode_rushmore : AlpsFields → List ℕ → AlpsFields
unfolding alps_decode_buttons_v3 position_x position_y
alps_decode_rushmore f0 p =
    let f = record f0 {
      first_mp = of_bool (nz (at p 4 & 0x40));
      is_mp = of_bool (nz (at p 5 & 0x40));
    } in
    if nz f.is_mp
    then record f {
      fingers = max (at p 5 & 0x3) (at p 5 ≫ 2 & 0x3) + 1;
      x_map =
          (at p 5 & 0x10) ≪ 11 ¦ (at p 4 & 0x7e) ≪ 8 ¦ (at p 1 & 0x7f) ≪ 2 ¦ (at p 0 & 0x30) ≫ 4;
      y_map = (at p 5 & 0x20) ≪ 6 ¦ (at p 3 & 0x70) ≪ 4 ¦ (at p 2 & 0x7f) ≪ 1 ¦ at p 4 & 0x01;
    }
    else alps_decode_buttons_v3
        (record f { st = record { x = position_x p; y = position_y p }; pressure = at p 5 & 0x7f })
        p
