-- ===== src/Alps/Process/V4.antt =====
-- `alps_process_packet_v4`.
use voodoo_ps2_alps.Base.{
  ℕ, ◌+◌, ◌*◌, ◌&◌, ◌¦◌, ◌≪◌, ◌≫◌, nz, bit1, if◌then◌else◌, ltb, List, [], ◌∷◌, at, set, false,
}
use voodoo_ps2_alps.Base.Int.{int32}
use voodoo_ps2_alps.Alps.Types.{Driver, AlpsData, AlpsFields, zero_fields, touch, Handled}
use voodoo_ps2_alps.Alps.Bitmap.{alps_process_bitmap}
use voodoo_ps2_alps.Alps.Process.V1V2.{buttons_of}

-- The bitmaps, from the six bytes that three packets brought
x_map_v4 : List ℕ → ℕ
x_map_v4 m = (at m 2 & 0x1f) ≪ 10 ¦ (at m 3 & 0x60) ≪ 3 ¦ (at m 0 & 0x3f) ≪ 2 ¦ (at m 1 & 0x60) ≫ 5

y_map_v4 : List ℕ → ℕ
y_map_v4 m = (at m 5 & 0x01) ≪ 10 ¦ (at m 3 & 0x1f) ≪ 5 ¦ at m 1 & 0x1f

-- The fields of one packet. `left` and `right` are one-bit fields. The source leaves the other
-- fields unset, and reads none of them before they are written.
unfoldable pub fields_v4 : List ℕ → AlpsFields
fields_v4 packet = record zero_fields {
  left = bit1 (at packet 4 & 0x01);
  right = bit1 (at packet 4 & 0x02);
  st = record {
    x = (at packet 1 & 0x7f) ≪ 4 ¦ (at packet 3 & 0x30) ≫ 2 ¦ (at packet 0 & 0x30) ≫ 4;
    y = (at packet 2 & 0x7f) ≪ 4 ¦ at packet 3 & 0x0f;
  };
  pressure = at packet 5 & 0x7f;
}

-- The part of a report that this packet brings is stored at its place.
unfoldable pub store_v4 : AlpsData → ℕ → List ℕ → AlpsData
store_v4 priv part packet =
    let offset = 2 * part in
    record priv {
      multi_data = set (set priv.multi_data offset (at packet 6)) (offset + 1) (at packet 7);
      multi_packet = if ltb 2 (part + 1) then 0 else part + 1;
    }

-- The fields with the bitmaps of the whole report
unfoldable pub whole_v4 : AlpsData → AlpsFields → AlpsFields
unfolding x_map_v4 y_map_v4
whole_v4 priv f = record f { x_map = x_map_v4 priv.multi_data; y_map = y_map_v4 priv.multi_data }

-- The third part completes a bitmap. The results are the finger count and `priv`.
unfoldable pub bitmap_v4 : AlpsData → ℕ → AlpsFields → ℕ × AlpsData
bitmap_v4 priv part f =
    let (fingers, priv', f') = alps_process_bitmap priv (whole_v4 priv f) in
    if ltb 2 (part + 1) then (fingers, priv') else (0, priv)

-- The handler, once the part that the packet brings is known
unfoldable pub process_part_v4 : Driver → List ℕ → ℕ → Handled
unfolding buttons_of
process_part_v4 d packet part =
    let f = fields_v4 packet in
    let (fingers, priv) = bitmap_v4 (store_v4 d.priv part packet) part f in
    if ltb 2 part then (record d { priv = record (d.priv) { multi_packet = part } }, []) else (
      record d { priv = priv },
      touch (int32 f.st.x) (int32 f.st.y) f.pressure fingers
            (buttons_of (nz f.left) (nz f.right) false)
          ∷ [],
    )

unfoldable pub alps_process_packet_v4 : Driver → List ℕ → Handled
unfolding process_part_v4 fields_v4 store_v4 bitmap_v4 whole_v4
alps_process_packet_v4 d packet =
    process_part_v4 d packet (if nz (at packet 6 & 0x40) then 0 else d.priv.multi_packet)
