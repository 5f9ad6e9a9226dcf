-- ===== src/Alps/Process/V7.antt =====
-- The V7 handlers: `alps_process_trackstick_packet_v7`, `alps_process_touchpad_packet_v7` and
-- `alps_process_packet_v7`.
use voodoo_ps2_alps.Base.{
  ℕ, ◌&◌, ◌¦◌, ◌≪◌, ◌≫◌, nz, if◌then◌else◌, ltb, List, [], ◌∷◌, at, not, ◌&&◌, ◌==◌, sub32,
}
use voodoo_ps2_alps.Base.Int.{ℤ, neg, int8, int32}
use voodoo_ps2_alps.Alps.Types.{Driver, AlpsFields, zero_fields, touch, Handled, alps_dualpoint}
use voodoo_ps2_alps.Alps.Decode.{decode}
use voodoo_ps2_alps.Alps.Process.V1V2.{buttons_of}
use voodoo_ps2_alps.Alps.Process.V3.{stick_action}

stick_x_v7 : List ℕ → ℤ
stick_x_v7 packet = int8 (at packet 2 & 0xbf ¦ (at packet 3 & 0x10) ≪ 2)

stick_y_v7 : List ℕ → ℤ
stick_y_v7 packet = int8 (at packet 3 & 0x07 ¦ at packet 4 & 0xb8 ¦ (at packet 3 & 0x20) ≪ 1)

unfoldable pub alps_process_trackstick_packet_v7 : Driver → List ℕ → Handled
unfolding stick_x_v7 stick_y_v7 buttons_of stick_action
alps_process_trackstick_packet_v7 d packet =
    let buttons =
      buttons_of (nz (at packet 1 & 0x01)) (nz ((at packet 1 & 0x02) ≫ 1))
        (nz ((at packet 1 & 0x04) ≫ 2)) in
    if not (nz (d.priv.flags & alps_dualpoint)) then (d, []) else (
      record d { last_track_stick_buttons = buttons },
      stick_action (stick_x_v7 packet) (neg (stick_y_v7 packet)) (buttons ¦ d.last_touchpad_buttons)
          ∷ [],
    )

-- What follows the decoding of a touchpad packet
unfoldable pub report_v7 : Driver → AlpsFields → Handled
unfolding buttons_of
report_v7 d f =
    let buttons = buttons_of (nz f.left) (nz f.right) (nz f.middle) in
    (
      record d { last_touchpad_buttons = buttons },
      touch (int32 f.mt0.x) (int32 (sub32 d.priv.y_max f.mt0.y)) (if ltb 0 f.fingers then 40 else 0)
            f.fingers (buttons ¦ d.last_track_stick_buttons)
          ∷ [],
    )

unfoldable pub alps_process_touchpad_packet_v7 : Driver → List ℕ → Handled
unfolding report_v7
alps_process_touchpad_packet_v7 d packet =
    let (decoded, f) = decode d.decode_fields d.priv zero_fields packet in
    if not decoded then (d, []) else report_v7 d f

unfoldable pub alps_process_packet_v7 : Driver → List ℕ → Handled
unfolding alps_process_trackstick_packet_v7 alps_process_touchpad_packet_v7
alps_process_packet_v7 d packet =
    if at packet 0 == 0x48 && (at packet 4 & 0x47) == 0x06
    then alps_process_trackstick_packet_v7 d packet
    else alps_process_touchpad_packet_v7 d packet
