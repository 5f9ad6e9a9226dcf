-- ===== src/Alps/Decode/Dolphin.antt =====
-- The V5 decoder, `alps_decode_dolphin`.
use voodoo_ps2_alps.Base.{
  ℕ, ◌-◌, ◌^◌, ◌&◌, ◌¦◌, ◌≪◌, ◌≫◌, nz, of_bool, if◌then◌else◌, List, at, u32,
}
use voodoo_ps2_alps.Alps.Types.{AlpsData, AlpsFields}
use voodoo_ps2_alps.Alps.Decode.V3.{alps_decode_buttons_v3}

-- The 35 bits of the bitmap packet; none of the shifts loses a bit in 64.
unfoldable pub palm_data : List ℕ → ℕ
palm_data p =
    at p 1 & 0x7f
    ¦ (at p 2 & 0x7f) ≪ 7
    ¦ (at p 4 & 0x7f) ≪ 14
    ¦ (at p 5 & 0x7f) ≪ 21
    ¦ (at p 3 & 0x07) ≪ 28
    ¦ (at p 3 & 0x70) ≪ 27
    ¦ (at p 0 & 0x01) ≪ 34

unfoldable pub alps_decode_dolphin : AlpsData → AlpsFields → List ℕ → AlpsFields
unfolding alps_decode_buttons_v3 palm_data
alps_decode_dolphin priv f0 p =
    let f = record f0 {
      first_mp = of_bool (nz (at p 0 & 0x02));
      is_mp = of_bool (nz (at p 0 & 0x20));
    } in
    if nz f.is_mp
    then record f {
      fingers = (at p 0 & 0x6) ≫ 1 ¦ (at p 0 & 0x10) ≫ 2;
      y_map = u32 (palm_data p & (2 ^ priv.y_bits - 1));
      x_map = u32 (palm_data p ≫ priv.y_bits & (2 ^ priv.x_bits - 1));
    }
    else alps_decode_buttons_v3
        (record f {
          st = record {
            x = at p 1 & 0x7f ¦ (at p 4 & 0x0f) ≪ 7;
            y = at p 2 & 0x7f ¦ (at p 4 & 0xf0) ≪ 3;
          };
          pressure = if nz (at p 0 & 4) then 0 else at p 5 & 0x7f;
        })
        p
