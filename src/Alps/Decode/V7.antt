-- ===== src/Alps/Decode/V7.antt =====
-- The V7 decoder: `alps_get_packet_id_v7`, `alps_get_finger_coordinate_v7`, `alps_get_mt_count` and
-- `alps_decode_packet_v7`.
pub mod Finger
use voodoo_ps2_alps.Base.{
  ℕ, ◌+◌, ◌&◌, ◌¦◌, ◌≪◌, ◌≫◌, nz, of_bool, if◌then◌else◌, List, at, sub32, bit1, Bool, true, false,
  not, ◌&&◌, ◌||◌, ◌==◌, ◌!=◌,
}
use voodoo_ps2_alps.Alps.Types.{AlpsData, AlpsFields, MtPos, origin, alps_buttonpad}

-- `enum V7_PACKET_ID`
pub data V7PacketId : Type 0 where
  idle two multi new unknown : V7PacketId

unfoldable pub alps_get_packet_id_v7 : List ℕ → V7PacketId
alps_get_packet_id_v7 byte =
    if nz (at byte 4 & 0x40)
    then two
    else if nz (at byte 4 & 0x01)
    then multi
    else if nz (at byte 0 & 0x10) && not (nz (at byte 4 & 0x43))
    then new
    else if at byte 1 == 0x00 && at byte 4 == 0x00
    then idle
    else unknown

-- The coordinates as the first part of the function reads them: `mt[0]`, then `mt[1]`
unfoldable pub raw_coordinate0_v7 : List ℕ → MtPos
raw_coordinate0_v7 pkt = record {
  x = (at pkt 2 & 0x80) ≪ 4 ¦ (at pkt 2 & 0x3f) ≪ 5 ¦ (at pkt 3 & 0x30) ≫ 1 ¦ at pkt 3 & 0x07;
  y = at pkt 1 ≪ 3 ¦ at pkt 0 & 0x07;
}

raw_coordinate1_v7 : List ℕ → MtPos
raw_coordinate1_v7 pkt = record {
  x = (at pkt 3 & 0x80) ≪ 4 ¦ (at pkt 4 & 0x80) ≪ 3 ¦ (at pkt 4 & 0x3f) ≪ 4;
  y = (at pkt 5 & 0x80) ≪ 3 ¦ (at pkt 5 & 0x3f) ≪ 4;
}

-- The `switch` on the packet id. `& ~m` on a 32-bit word is `& (0xffffffff - m)`.
adjust_coordinate1_v7 : V7PacketId → List ℕ → MtPos → MtPos
adjust_coordinate1_v7 two pkt m =
    let x' = m.x & 0xfffffff0 in
    let y' = m.y ¦ 0x000f in record { x = if y' == 0x7ff && x' == 0xff0 then 0 else x'; y = y' }
adjust_coordinate1_v7 multi pkt m = record {
  x = m.x & 0xffffffc0;
  y = m.y & 0xffffffdf ¦ (at pkt 4 & 0x02) ≪ 4 ¦ 0x001f;
}
adjust_coordinate1_v7 new pkt m = record {
  x = m.x & 0xffffffc0 ¦ at pkt 0 & 0x20;
  y = m.y ¦ 0x000f;
}
adjust_coordinate1_v7 _ pkt m = m

-- `mt[0]` and `mt[1]` of the result
unfoldable pub alps_get_finger_coordinate_v7 : List ℕ → V7PacketId → MtPos × MtPos
unfolding raw_coordinate0_v7 raw_coordinate1_v7 adjust_coordinate1_v7
alps_get_finger_coordinate_v7 pkt pkt_id =
    let m0 = raw_coordinate0_v7 pkt in
    let m1 = adjust_coordinate1_v7 pkt_id pkt (raw_coordinate1_v7 pkt) in
    (record m0 { y = sub32 0x7ff m0.y }, record m1 { y = sub32 0x7ff m1.y })

counts : MtPos → ℕ
counts m = of_bool (m.x != 0 || m.y != 0)

unfoldable pub alps_get_mt_count : AlpsFields → ℕ
unfolding counts
alps_get_mt_count f = counts f.mt0 + counts f.mt1 + counts f.mt2 + counts f.mt3

-- `fingers`, once the coordinates are there
fingers_v7 : V7PacketId → AlpsFields → List ℕ → ℕ
unfolding alps_get_mt_count
fingers_v7 two f p = alps_get_mt_count f
fingers_v7 _ f p = 3 + (at p 5 & 0x03)

-- The buttons: on a clickpad two of the bits count fingers.
buttons_v7 : AlpsData → AlpsFields → List ℕ → AlpsFields
buttons_v7 priv f p =
    if nz (priv.flags & alps_buttonpad)
    then record f {
      left = bit1 ((at p 0 & 0x80) ≫ 7);
      fingers = f.fingers + of_bool (nz (at p 0 & 0x20)) + of_bool (nz (at p 0 & 0x10));
    }
    else record f {
      left = bit1 ((at p 0 & 0x80) ≫ 7);
      right = bit1 ((at p 0 & 0x20) ≫ 5);
      middle = bit1 ((at p 0 & 0x10) ≫ 4);
    }

-- A single touch that is reported in `mt[1]` moves to `mt[0]`.
single_touch_v7 : AlpsFields → AlpsFields
single_touch_v7 f =
    if f.fingers == 1 && f.mt0.x == 0 && f.mt0.y == 0
    then record f { mt0 = f.mt1; mt1 = origin }
    else f

-- The rest of the function, for a packet with coordinates
touches_v7 : AlpsData → V7PacketId → AlpsFields → List ℕ → AlpsFields
unfolding alps_get_finger_coordinate_v7 fingers_v7 buttons_v7 single_touch_v7
touches_v7 priv pkt_id f p =
    let (m0, m1) = alps_get_finger_coordinate_v7 p pkt_id in
    let g = record f { mt0 = m0; mt1 = m1 } in
    single_touch_v7 (buttons_v7 priv (record g { fingers = fingers_v7 pkt_id g p }) p)

unfoldable pub alps_decode_by_id_v7 :
    V7PacketId → AlpsData → AlpsFields → List ℕ → Bool × AlpsFields
unfolding touches_v7
alps_decode_by_id_v7 idle priv f p = (true, f)
alps_decode_by_id_v7 unknown priv f p = (false, f)
alps_decode_by_id_v7 new priv f p = (true, f)
alps_decode_by_id_v7 two priv f p = (true, touches_v7 priv two f p)
alps_decode_by_id_v7 multi priv f p = (true, touches_v7 priv multi f p)

unfoldable pub alps_decode_packet_v7 : AlpsData → AlpsFields → List ℕ → Bool × AlpsFields
unfolding alps_get_packet_id_v7 alps_decode_by_id_v7
alps_decode_packet_v7 priv f p = alps_decode_by_id_v7 (alps_get_packet_id_v7 p) priv f p
