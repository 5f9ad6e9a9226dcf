-- ===== src/Alps/Framing/Frame.antt =====
-- What the packet handlers leave alone: the framing of the bytes and the configuration.
use voodoo_ps2_alps.Base.{ℕ, List, ◌≡◌, arith, some, nz, ◌&◌, at, if◌then◌else◌}
use voodoo_ps2_alps.Alps.Types.{
  Driver, AlpsData, AlpsFields, zero_fields, Action, ProcessPacket, process_null, process_v1_v2,
  process_v3, process_touchpad_v3_v5, process_v4, process_v7, process_ss4_v2,
}
use voodoo_ps2_alps.Alps.Bitmap.{alps_process_bitmap}
use voodoo_ps2_alps.Alps.Decode.{decode}
use voodoo_ps2_alps.Alps.Process.{process, process_by}
use voodoo_ps2_alps.Alps.Process.V1V2.{alps_process_packet_v1_v2}
use voodoo_ps2_alps.Alps.Process.V3.{
  alps_process_packet_v3, alps_process_touchpad_packet_v3_v5, alps_process_trackstick_packet_v3,
  merge_v3_v5,
}
use voodoo_ps2_alps.Alps.Process.V4.{
  alps_process_packet_v4, bitmap_v4, store_v4, whole_v4, process_part_v4, fields_v4,
}
use voodoo_ps2_alps.Alps.Process.V7.{alps_process_packet_v7}
use voodoo_ps2_alps.Alps.Process.Ss4.{alps_process_packet_ss4_v2}

-- The same configuration of the packets
pub record SameFormat (a b : AlpsData) : Type 0 where
  pub same_pktsize : b.pktsize ≡ a.pktsize
  pub same_proto : b.proto_version ≡ a.proto_version
  pub same_byte0 : b.byte0 ≡ a.byte0
  pub same_mask0 : b.mask0 ≡ a.mask0
  pub same_flags : b.flags ≡ a.flags

-- The same framing state and configuration
pub record SameFrame (c d : Driver) : Type 0 where
  pub same_ring : d.ring ≡ c.ring
  pub same_count : d.packet_byte_count ≡ c.packet_byte_count
  pub same_process : d.process_packet ≡ c.process_packet
  pub same_format : SameFormat c.priv d.priv

process_bitmap-SameFormat :
    (priv : AlpsData) (f : AlpsFields) → SameFormat priv (alps_process_bitmap priv f).1
unfolding alps_process_bitmap
process_bitmap-SameFormat priv f = ground arith

v1_v2-SameFrame : (d : Driver) (p : List ℕ) → SameFrame d (alps_process_packet_v1_v2 d p).0
unfolding alps_process_packet_v1_v2
v1_v2-SameFrame d p = ground arith

stick_v3-SameFrame :
    (d : Driver) (p : List ℕ) → SameFrame d (alps_process_trackstick_packet_v3 d p).0
unfolding alps_process_trackstick_packet_v3
stick_v3-SameFrame d p = ground arith

merge_v3-SameFormat : (d : Driver) (p : List ℕ) → SameFormat d.priv (merge_v3_v5 d p).0
unfolding merge_v3_v5
merge_v3-SameFormat d p =
    let f = (decode d.decode_fields d.priv zero_fields p).1 in
    let position = (decode d.decode_fields d.priv f d.priv.multi_data).1 in
    ground (arith, process_bitmap-SameFormat d.priv position)

touchpad_v3_v5-SameFrame :
    (d : Driver) (p : List ℕ) → SameFrame d (alps_process_touchpad_packet_v3_v5 d p).0
unfolding alps_process_touchpad_packet_v3_v5
touchpad_v3_v5-SameFrame d p = ground (arith, merge_v3-SameFormat d p)

v3-SameFrame : (d : Driver) (p : List ℕ) → SameFrame d (alps_process_packet_v3 d p).0
unfolding alps_process_packet_v3
v3-SameFrame d p = ground (arith, stick_v3-SameFrame d p, touchpad_v3_v5-SameFrame d p)

bitmap_v4-SameFormat :
    (priv : AlpsData) (part : ℕ) (f : AlpsFields) → SameFormat priv (bitmap_v4 priv part f).1
unfolding bitmap_v4
bitmap_v4-SameFormat priv part f = ground (arith, process_bitmap-SameFormat priv (whole_v4 priv f))

store_v4-SameFormat :
    (priv : AlpsData) (part : ℕ) (p : List ℕ) → SameFormat priv (store_v4 priv part p)
unfolding store_v4
store_v4-SameFormat priv part p = ground arith

part_v4-SameFrame : (d : Driver) (p : List ℕ) (part : ℕ) → SameFrame d (process_part_v4 d p part).0
unfolding process_part_v4
part_v4-SameFrame d p part = ground (
  arith,
  store_v4-SameFormat d.priv part p,
  bitmap_v4-SameFormat (store_v4 d.priv part p) part (fields_v4 p),
)

v4-SameFrame : (d : Driver) (p : List ℕ) → SameFrame d (alps_process_packet_v4 d p).0
v4-SameFrame d p =
    unfold alps_process_packet_v4 in
    part_v4-SameFrame d p (if nz (at p 6 & 0x40) then 0 else d.priv.multi_packet)

v7-SameFrame : (d : Driver) (p : List ℕ) → SameFrame d (alps_process_packet_v7 d p).0
unfolding alps_process_packet_v7
v7-SameFrame d p = ground arith

ss4-SameFrame : (d : Driver) (p : List ℕ) → SameFrame d (alps_process_packet_ss4_v2 d p).0
unfolding alps_process_packet_ss4_v2
ss4-SameFrame d p = ground arith

by-SameFrame :
    (h : ProcessPacket) (d : Driver) (p : List ℕ) {d' : Driver} {actions : List Action}
    → process_by h d p ≡ some (d', actions)
    → SameFrame d d'
unfolding process_by
by-SameFrame process_null d p e = cc
by-SameFrame process_v1_v2 d p e = ground (arith, v1_v2-SameFrame d p)
by-SameFrame process_v3 d p e = ground (arith, v3-SameFrame d p)
by-SameFrame process_touchpad_v3_v5 d p e = ground (arith, touchpad_v3_v5-SameFrame d p)
by-SameFrame process_v4 d p e = ground (arith, v4-SameFrame d p)
by-SameFrame process_v7 d p e = ground (arith, v7-SameFrame d p)
by-SameFrame process_ss4_v2 d p e = ground (arith, ss4-SameFrame d p)

-- No packet handler touches the ring, the byte count, the handler pointer or the packet format.
pub process-SameFrame :
    (d : Driver) (p : List ℕ) {d' : Driver} {actions : List Action}
    → process d p ≡ some (d', actions)
    → SameFrame d d'
unfolding process
process-SameFrame d p e = by-SameFrame d.process_packet d p e
