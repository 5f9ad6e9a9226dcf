-- ===== src/Alps/Process/V1V2.antt =====
-- `alps_process_packet_v1_v2`.
use voodoo_ps2_alps.Base.{
  ℕ, ◌&◌, ◌¦◌, ◌≪◌, ◌≫◌, nz, if◌then◌else◌, ltb, List, [], ◌∷◌, at, Bool, false, not, ◌&&◌, ◌==◌,
  ◌!=◌,
}
use voodoo_ps2_alps.Base.Int.{pos, sub_ℕ, neg}
use voodoo_ps2_alps.Alps.Types.{
  Driver, AlpsData, Action, relative, scroll, touch, Handled, drag, alps_proto_v1, alps_dualpoint,
  alps_wheel, alps_fw_bk_2, MtPos,
}

-- The position, by protocol
position_v1_v2 : AlpsData → List ℕ → MtPos
position_v1_v2 priv packet =
    if priv.proto_version == alps_proto_v1
    then record {
      x = at packet 1 ¦ (at packet 0 & 0x07) ≪ 7;
      y = at packet 4 ¦ (at packet 3 & 0x07) ≪ 7;
    }
    else record {
      x = at packet 1 ¦ (at packet 2 & 0x78) ≪ 4;
      y = at packet 4 ¦ (at packet 3 & 0x70) ≪ 3;
    }

-- `left`, `right` and `middle` as tests. Front and back buttons on a device with ALPS_FW_BK_2 are
-- the middle button if both are down; alone they are not passed on.
left_v1_v2 : AlpsData → List ℕ → Bool
left_v1_v2 priv packet =
    if priv.proto_version == alps_proto_v1 then nz (at packet 2 & 0x10) else nz (at packet 3 & 1)

right_v1_v2 : AlpsData → List ℕ → Bool
right_v1_v2 priv packet =
    if priv.proto_version == alps_proto_v1 then nz (at packet 2 & 0x08) else nz (at packet 3 & 2)

middle_v1_v2 : AlpsData → List ℕ → Bool
middle_v1_v2 priv packet =
    if nz (priv.flags & alps_fw_bk_2)
    then nz (at packet 2 & 4) && nz (at packet 3 & 4)
    else if priv.proto_version == alps_proto_v1
    then false
    else nz (at packet 3 & 4)

-- "To make button reporting compatible with rest of driver"
unfoldable pub buttons_of : Bool → Bool → Bool → ℕ
buttons_of left right middle =
    (if left then 0x01 else 0) ¦ (if right then 0x02 else 0) ¦ (if middle then 0x04 else 0)

unfoldable pub buttons_v1_v2 : AlpsData → List ℕ → ℕ
unfolding left_v1_v2 right_v1_v2 middle_v1_v2 buttons_of
buttons_v1_v2 priv packet =
    buttons_of (left_v1_v2 priv packet) (right_v1_v2 priv packet) (middle_v1_v2 priv packet)

-- The stick of a DualPoint device
stick_v1_v2 : MtPos → ℕ → Action
stick_v1_v2 p buttons =
    relative (if ltb 383 p.x then sub_ℕ p.x 768 else pos p.x)
      (neg (if ltb 255 p.y then sub_ℕ p.y 512 else pos p.y)) buttons

-- "Convert hardware tap to a reasonable Z value"
z_v1_v2 : List ℕ → ℕ
z_v1_v2 packet = if nz (at packet 2 & 1) && not (nz (at packet 2 & 2)) then 40 else at packet 5

-- A wheel, behind the touch
wheel_v1_v2 : AlpsData → List ℕ → List Action
wheel_v1_v2 priv packet =
    let up = at packet 2 ≪ 1 & 0x08 in
    let down = at packet 0 ≫ 4 & 0x07 in
    if nz (priv.flags & alps_wheel) && up != down
    then scroll (sub_ℕ up down) (pos 0) (pos 0) ∷ []
    else []

-- The bits that ALPS_STICK_BITS adds to the buttons are stored after their last use, so they are
-- left out here.
unfoldable pub alps_process_packet_v1_v2 : Driver → List ℕ → Handled
unfolding position_v1_v2 buttons_v1_v2 stick_v1_v2 z_v1_v2 wheel_v1_v2
alps_process_packet_v1_v2 d packet =
    let p = position_v1_v2 d.priv packet in
    let buttons = buttons_v1_v2 d.priv packet in
    let ges = at packet 2 & 1 in
    let fin = at packet 2 & 2 in
    let z = z_v1_v2 packet in
    let dragged = nz ges && nz fin && not (nz d.priv.prev_fin) in
    if nz (d.priv.flags & alps_dualpoint) && at packet 5 == 127
    then (d, stick_v1_v2 p buttons ∷ [])
    else (
      record d {
        touchmode = if dragged then drag else d.touchmode;
        priv = record (d.priv) { prev_fin = fin };
      },
      touch (pos p.x) (pos p.y) z (if ltb 30 z then 1 else 0) buttons ∷ wheel_v1_v2 d.priv packet,
    )
