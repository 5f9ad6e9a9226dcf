-- ===== src/Alps/Process/V3.antt =====
-- The V3 and V5 handlers: `alps_process_trackstick_packet_v3`, `alps_process_touchpad_packet_v3_v5`
-- and `alps_process_packet_v3`.
use voodoo_ps2_alps.Base.{
  ℕ, ◌&◌, ◌¦◌, ◌≪◌, nz, if◌then◌else◌, ltb, leb, List, [], ◌∷◌, at, Bool, not, ◌&&◌, ◌||◌, ◌==◌,
  none, sub32, tabulate, of_bool,
}
use voodoo_ps2_alps.Base.Int.{ℤ, pos, neg, div_ℤ, int8, int32, abs}
use voodoo_ps2_alps.Alps.Types.{
  Driver, AlpsData, AlpsFields, zero_fields, Action, relative, scroll, touch, Handled,
  alps_dualpoint, alps_quirk_trackstick_buttons,
}
use voodoo_ps2_alps.Alps.Decode.{decode}
use voodoo_ps2_alps.Alps.Bitmap.{alps_process_bitmap}
use voodoo_ps2_alps.Alps.Process.V1V2.{buttons_of}

-- "Prevent pointer jump on finger lift", then the scaling: x and y as they are sent
unfoldable pub stick_motion_v3 : List ℕ → ℤ × ℤ
stick_motion_v3 packet =
    let x = int8 ((at packet 0 & 0x20) ≪ 2 ¦ at packet 1 & 0x7f) in
    let y = int8 ((at packet 0 & 0x10) ≪ 3 ¦ at packet 2 & 0x7f) in
    if leb 0x7f (abs x) && leb 0x7f (abs y) then (pos 0, pos 0) else (div_ℤ x 3, neg (div_ℤ y 3))

-- The end of a stream of trackstick data
is_stick_end_v3 : List ℕ → Bool
is_stick_end_v3 packet = at packet 1 == 0x7f && at packet 2 == 0x7f && at packet 3 == 0x7f

-- The last part of both trackstick handlers: with the middle button the stick scrolls.
unfoldable pub stick_action : ℤ → ℤ → ℕ → Action
stick_action x y buttons =
    if (buttons & 0x04) == 0 then relative x y buttons else scroll (neg y) (neg x) (pos 0)

-- The quirk is switched on by the first button seen in a trackstick packet.
stick_quirks_v3 : ℕ → List ℕ → ℕ
stick_quirks_v3 quirks packet =
    if not (nz (quirks & alps_quirk_trackstick_buttons))
      && (nz (at packet 3 & 0x01) || nz (at packet 3 & 0x04) || nz (at packet 3 & 0x02))
    then quirks ¦ alps_quirk_trackstick_buttons
    else quirks

-- `raw_buttons`
stick_buttons_v3 : ℕ → List ℕ → ℕ
unfolding buttons_of
stick_buttons_v3 quirks packet =
    if nz (quirks & alps_quirk_trackstick_buttons)
    then buttons_of (nz (at packet 3 & 0x01)) (nz (at packet 3 & 0x02)) (nz (at packet 3 & 0x04))
    else 0

-- A trackstick packet that is not filtered out
unfoldable pub stick_report_v3 : Driver → List ℕ → Handled
unfolding stick_motion_v3 stick_action stick_quirks_v3 stick_buttons_v3
stick_report_v3 d packet =
    let (x, y) = stick_motion_v3 packet in
    let quirks' = stick_quirks_v3 d.priv.quirks packet in
    let raw_buttons = stick_buttons_v3 quirks' packet in
    let buttons = if raw_buttons == 0 then d.lastbuttons else raw_buttons in
    (
      record d { priv = record (d.priv) { quirks = quirks' }; lastbuttons = buttons },
      stick_action x y buttons ∷ [],
    )

unfoldable pub alps_process_trackstick_packet_v3 : Driver → List ℕ → Handled
unfolding is_stick_end_v3 stick_report_v3
alps_process_trackstick_packet_v3 d packet =
    if not (nz (d.priv.flags & alps_dualpoint))
    then (d, [])
    else if not (nz (at packet 0 & 0x40))
    then (d, [])
    else if is_stick_end_v3 packet
    then (d, [])
    else stick_report_v3 d packet

-- `memcpy(priv.multi_data, packet, sizeof(priv.multi_data))`, which takes 6 bytes
abbrev pub saved : List ℕ → List ℕ
saved packet = tabulate 6 (at packet)

-- The fields of the packet; if they complete a saved position packet, those of the two together.
-- The results are `priv`, the fields and `fingers`.
unfoldable pub merge_v3_v5 : Driver → List ℕ → AlpsData × AlpsFields × ℕ
merge_v3_v5 d packet =
    let f = (decode d.decode_fields d.priv zero_fields packet).1 in
    let position = (decode d.decode_fields d.priv f d.priv.multi_data).1 in
    let (count, priv, both) = alps_process_bitmap d.priv position in
    if not (nz d.priv.multi_packet)
    then (d.priv, f, 0)
    else if nz f.is_mp
    then (priv, both, if count == 0 then 0 else f.fingers)
    else (record (d.priv) { multi_packet = 0 }, f, 0)

-- The buttons of the touchpad, with those of the stick if the quirk is off
unfoldable pub buttons_v3_v5 : AlpsData → AlpsFields → ℕ
unfolding buttons_of
buttons_v3_v5 priv f =
    buttons_of (nz f.left) (nz f.right) (nz f.middle)
    ¦ (if nz (priv.flags & alps_dualpoint) && not (nz (priv.quirks & alps_quirk_trackstick_buttons))
        then buttons_of (nz f.ts_left) (nz f.ts_right) (nz f.ts_middle)
        else 0)

-- The last part of the handler: the position is reported, with the y axis reversed.
unfoldable pub report_v3_v5 : Driver → AlpsData → AlpsFields → ℕ → Handled
unfolding buttons_v3_v5
report_v3_v5 d priv0 f fingers =
    let priv = record priv0 { multi_packet = 0 } in
    let single = ltb fingers 2 in
    let m = if single then f.st else f.mt0 in
    let fingers' = if single then of_bool (ltb 0 f.pressure) else fingers in
    let priv' = record priv { second_touch = if single then none else priv.second_touch } in
    (
      record d { priv = priv' },
      touch (int32 m.x) (int32 (sub32 priv.y_max m.y)) f.pressure fingers' (buttons_v3_v5 priv f)
          ∷ [],
    )

-- The handler, behind the merge: a bitmap alone is dropped, and a first packet is saved.
unfoldable pub act_v3_v5 : Driver → List ℕ → AlpsData × AlpsFields × ℕ → Handled
unfolding report_v3_v5
act_v3_v5 d packet (priv, f, fingers) =
    if nz f.is_mp
    then (record d { priv = priv }, [])
    else if not (nz priv.multi_packet) && nz f.first_mp
    then (record d { priv = record priv { multi_packet = 1; multi_data = saved packet } }, [])
    else report_v3_v5 d priv f fingers

unfoldable pub alps_process_touchpad_packet_v3_v5 : Driver → List ℕ → Handled
unfolding merge_v3_v5 act_v3_v5
alps_process_touchpad_packet_v3_v5 d packet = act_v3_v5 d packet (merge_v3_v5 d packet)

unfoldable pub alps_process_packet_v3 : Driver → List ℕ → Handled
unfolding alps_process_trackstick_packet_v3 alps_process_touchpad_packet_v3_v5
alps_process_packet_v3 d packet =
    if at packet 5 == 0x3f
    then alps_process_trackstick_packet_v3 d packet
    else alps_process_touchpad_packet_v3_v5 d packet
