-- ===== src/Alps/Process/Ss4.antt =====
-- `alps_process_packet_ss4_v2`.
use voodoo_ps2_alps.Base.{ℕ, nz, if◌then◌else◌, List, [], ◌∷◌, not, Bool, true, false, ◌&&◌, sub32}
use voodoo_ps2_alps.Base.Int.{int32}
use voodoo_ps2_alps.Alps.Types.{Driver, AlpsData, AlpsFields, zero_fields, touch, Handled}
use voodoo_ps2_alps.Alps.Decode.{decode}
use voodoo_ps2_alps.Alps.Decode.Ss4.{Ss4PacketId, stick, alps_get_pkt_id_ss4_v2}
use voodoo_ps2_alps.Alps.Process.V1V2.{buttons_of}
use voodoo_ps2_alps.Alps.Process.V3.{saved}

-- The fields of the packet, with those of a saved first packet if this is the second one
unfoldable pub merge_ss4_v2 : Driver → List ℕ → AlpsData × AlpsFields
merge_ss4_v2 d packet =
    let f = (decode d.decode_fields d.priv zero_fields packet).1 in
    let both = (decode d.decode_fields d.priv f d.priv.multi_data).1 in
    if not (nz d.priv.multi_packet)
    then (d.priv, f)
    else if nz f.is_mp
    then (d.priv, both)
    else (record (d.priv) { multi_packet = 0 }, f)

unfoldable pub is_stick : Ss4PacketId → Bool
is_stick stick = true
is_stick _ = false

-- A stick packet changes nothing else: the call that would send its motion is commented out.
unfoldable pub report_ss4_v2 : Driver → AlpsData → AlpsFields → List ℕ → Handled
unfolding is_stick buttons_of
report_ss4_v2 d priv0 f packet =
    let priv = record priv0 { multi_packet = 0 } in
    if is_stick (alps_get_pkt_id_ss4_v2 packet) then (record d { priv = priv }, []) else (
      record d { priv = priv },
      touch (int32 f.mt0.x) (int32 (sub32 priv.y_max f.mt0.y)) f.pressure f.fingers
            (buttons_of (nz f.left) (nz f.right) (nz f.middle))
          ∷ [],
    )

unfoldable pub alps_process_packet_ss4_v2 : Driver → List ℕ → Handled
unfolding merge_ss4_v2 report_ss4_v2
alps_process_packet_ss4_v2 d packet =
    let (priv, f) = merge_ss4_v2 d packet in
    if nz f.is_mp
    then (record d { priv = priv }, [])
    else if not (nz priv.multi_packet) && nz f.first_mp
    then (record d { priv = record priv { multi_packet = 1; multi_data = saved packet } }, [])
    else report_ss4_v2 d priv f packet
