-- ===== src/Alps/Process/V6.antt =====
-- `alps_process_packet_v6`. No protocol installs this handler: `set_protocol` has it commented out.
use voodoo_ps2_alps.Base.{
  ℕ, ◌/◌, ◌&◌, ◌¦◌, ◌≪◌, nz, of_bool, if◌then◌else◌, ltb, List, [], ◌∷◌, at, not, false, ◌&&◌, ◌==◌,
}
use voodoo_ps2_alps.Base.Int.{pos}
use voodoo_ps2_alps.Alps.Types.{Driver, relative, touch, Handled, alps_dualpoint}
use voodoo_ps2_alps.Alps.Process.V1V2.{buttons_of}

unfoldable pub alps_process_packet_v6 : Driver → List ℕ → Handled
unfolding buttons_of
alps_process_packet_v6 d packet =
    let left = nz (at packet 3 & 0x01) in
    let right = nz (at packet 3 & 0x02) in
    let middle = nz (at packet 3 & 0x04) in
    let stick_x = at packet 1 ¦ (at packet 3 & 0x20) ≪ 2 in
    let stick_y = at packet 2 ¦ (at packet 3 & 0x40) ≪ 1 in
    let lifted = stick_x == 0x7f && stick_y == 0x7f && at packet 4 == 0x7f in
    if at packet 5 == 0x7f
    then if not (nz (d.priv.flags & alps_dualpoint)) then (d, []) else (
      d,
      relative (pos (if lifted then 0 else stick_x / 4)) (pos (if lifted then 0 else stick_y / 4))
            (buttons_of left right middle)
          ∷ [],
    )
    else (
      d,
      touch (pos (at packet 1 ¦ (at packet 3 & 0x78) ≪ 4))
            (pos (at packet 2 ¦ (at packet 4 & 0x78) ≪ 4)) (at packet 5)
            (of_bool (ltb 0 (at packet 5))) (buttons_of left right false)
          ∷ [],
    )
