-- ===== src/Alps/Decode/Ss4.antt =====
-- The V8 (SS4) decoder: the `SS4_*` macros of alps.h, `alps_get_pkt_id_ss4_v2` and
-- `alps_decode_ss4_v2`.
use voodoo_ps2_alps.Base.{
  ℕ, ◌+◌, ◌*◌, ◌&◌, ◌¦◌, ◌≪◌, ◌≫◌, nz, of_bool, if◌then◌else◌, ltb, List, at, Bool, ◌&&◌, ◌==◌,
}
use voodoo_ps2_alps.Alps.Types.{AlpsData, AlpsFields, MtPos, zero_fields, origin, alps_buttonpad}

-- `enum SS4_PACKET_ID`
pub data Ss4PacketId : Type 0 where
  idle one two multi stick : Ss4PacketId

ss4_1f_x_v2 : List ℕ → ℕ
ss4_1f_x_v2 b = at b 0 & 0x0007 ¦ at b 1 ≪ 3 & 0x0078 ¦ at b 1 ≪ 2 & 0x0380 ¦ at b 2 ≪ 5 & 0x1c00

ss4_1f_y_v2 : List ℕ → ℕ
ss4_1f_y_v2 b = at b 2 & 0x000f ¦ at b 3 ≫ 2 & 0x0030 ¦ at b 4 ≪ 6 & 0x03c0 ¦ at b 4 ≪ 5 & 0x0c00

ss4_1f_z_v2 : List ℕ → ℕ
ss4_1f_z_v2 b = at b 5 & 0x0f ¦ at b 5 ≫ 1 & 0x70 ¦ at b 4 & 0x80

unfoldable pub ss4_btn_v2 : List ℕ → ℕ
ss4_btn_v2 b = at b 0 ≫ 5 & 0x07

ss4_std_mf_x_v2 : List ℕ → ℕ → ℕ
ss4_std_mf_x_v2 b i = at b (0 + i * 3) ≪ 5 & 0x00e0 ¦ at b (1 + i * 3) ≪ 5 & 0x1f00

ss4_std_mf_y_v2 : List ℕ → ℕ → ℕ
ss4_std_mf_y_v2 b i =
    at b (1 + i * 3) ≪ 3 & 0x0010 ¦ at b (2 + i * 3) ≪ 5 & 0x01e0 ¦ at b (2 + i * 3) ≪ 4 & 0x0e00

ss4_btl_mf_x_v2 : List ℕ → ℕ → ℕ
unfolding ss4_std_mf_x_v2
ss4_btl_mf_x_v2 b i = ss4_std_mf_x_v2 b i ¦ at b (0 + i * 3) ≫ 3 & 0x0010

ss4_btl_mf_y_v2 : List ℕ → ℕ → ℕ
unfolding ss4_std_mf_y_v2
ss4_btl_mf_y_v2 b i = ss4_std_mf_y_v2 b i ¦ at b (0 + i * 3) ≫ 3 & 0x0008

ss4_mf_z_v2 : List ℕ → ℕ → ℕ
ss4_mf_z_v2 b i = at b (1 + i * 3) & 0x0001 ¦ at b (1 + i * 3) ≫ 1 & 0x0002

-- `SS4_IS_MF_CONTINUE` and `SS4_IS_5F_DETECTED` are the same test.
ss4_is_mf_continue : List ℕ → Bool
ss4_is_mf_continue b = (at b 2 & 0x10) == 0x10

-- The `switch` on bits 4 and 5 of byte 3 has all four cases.
unfoldable pub alps_get_pkt_id_ss4_v2 : List ℕ → Ss4PacketId
alps_get_pkt_id_ss4_v2 byte =
    let kind = at byte 3 & 0x30 in
    if kind == 0x00
    then if at byte 0 == 0x18
        && at byte 1 == 0x10
        && at byte 2 == 0x00
        && (at byte 3 & 0x88) == 0x08
        && at byte 4 == 0x10
        && at byte 5 == 0x00
      then idle
      else one
    else if kind == 0x10
    then two
    else if kind == 0x20
    then stick
    else if kind == 0x30
    then multi
    else idle

-- Finger `i` of a packet with two fingers
finger_ss4_v2 : AlpsData → List ℕ → ℕ → MtPos
unfolding ss4_btl_mf_x_v2 ss4_btl_mf_y_v2 ss4_std_mf_x_v2 ss4_std_mf_y_v2
finger_ss4_v2 priv p i =
    if nz (priv.flags & alps_buttonpad)
    then record { x = ss4_btl_mf_x_v2 p i; y = ss4_btl_mf_y_v2 p i }
    else record { x = ss4_std_mf_x_v2 p i; y = ss4_std_mf_y_v2 p i }

-- The coordinates that stand for no fourth finger
no_data_ss4_v2 : AlpsData → MtPos
no_data_ss4_v2 priv =
    if nz (priv.flags & alps_buttonpad)
    then record { x = 8176; y = 4088 }
    else record { x = 8160; y = 4080 }

-- The first `switch`
decode_touch_ss4_v2 : Ss4PacketId → AlpsData → AlpsFields → List ℕ → AlpsFields
unfolding ss4_1f_x_v2 ss4_1f_y_v2 ss4_1f_z_v2 ss4_mf_z_v2 ss4_is_mf_continue finger_ss4_v2
    no_data_ss4_v2
decode_touch_ss4_v2 one priv f p =
    let pressure' = ss4_1f_z_v2 p * 2 & 0x7f in
    record f {
      mt0 = record { x = ss4_1f_x_v2 p; y = ss4_1f_y_v2 p };
      pressure = pressure';
      fingers = if ltb 0 pressure' then 1 else 0;
      first_mp = 0;
      is_mp = 0;
    }
decode_touch_ss4_v2 two priv f p = record f {
  mt0 = finger_ss4_v2 priv p 0;
  mt1 = finger_ss4_v2 priv p 1;
  pressure = if nz (ss4_mf_z_v2 p 0) then 0x30 else 0;
  fingers = if ss4_is_mf_continue p then f.fingers else 2;
  first_mp = of_bool (ss4_is_mf_continue p);
  is_mp = 0;
}
decode_touch_ss4_v2 multi priv f p =
    let m3 = finger_ss4_v2 priv p 1 in
    let no_data = no_data_ss4_v2 priv in
    let three = m3.x == no_data.x && m3.y == no_data.y in
    record f {
      mt2 = finger_ss4_v2 priv p 0;
      mt3 = if ss4_is_mf_continue p then m3 else if three then origin else m3;
      first_mp = 0;
      is_mp = 1;
      fingers = if ss4_is_mf_continue p then 5 else if three then 3 else 4;
    }
decode_touch_ss4_v2 stick priv f p = record f { first_mp = 0; is_mp = 0 }
decode_touch_ss4_v2 idle priv f p = zero_fields

-- "handle buttons"
decode_buttons_ss4_v2 : Ss4PacketId → AlpsData → AlpsFields → List ℕ → AlpsFields
unfolding ss4_btn_v2
decode_buttons_ss4_v2 stick priv f p =
    let pad = nz (priv.flags & alps_buttonpad) in
    record f {
      ts_left = of_bool (nz (ss4_btn_v2 p & 0x01));
      ts_right = if pad then f.ts_right else of_bool (nz (ss4_btn_v2 p & 0x02));
      ts_middle = if pad then f.ts_middle else of_bool (nz (ss4_btn_v2 p & 0x04));
    }
decode_buttons_ss4_v2 _ priv f p =
    let pad = nz (priv.flags & alps_buttonpad) in
    record f {
      left = of_bool (nz (ss4_btn_v2 p & 0x01));
      right = if pad then f.right else of_bool (nz (ss4_btn_v2 p & 0x02));
      middle = if pad then f.middle else of_bool (nz (ss4_btn_v2 p & 0x04));
    }

unfoldable pub alps_decode_ss4_v2 : AlpsData → AlpsFields → List ℕ → AlpsFields
unfolding decode_touch_ss4_v2 decode_buttons_ss4_v2 alps_get_pkt_id_ss4_v2
alps_decode_ss4_v2 priv f p =
    let pkt_id = alps_get_pkt_id_ss4_v2 p in
    decode_buttons_ss4_v2 pkt_id priv (decode_touch_ss4_v2 pkt_id priv f p) p
