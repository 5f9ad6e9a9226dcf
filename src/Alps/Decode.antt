-- ===== src/Alps/Decode.antt =====
-- The packet decoders of VoodooPS2Trackpad/alps.cpp, from bytes to `alps_fields`, and the call
-- through the pointer `decode_fields`.
pub mod V3
pub mod Dolphin
pub mod V7
pub mod Ss4
use voodoo_ps2_alps.Base.{ℕ, List, Bool, true, false}
use voodoo_ps2_alps.Alps.Types.{
  AlpsData, AlpsFields, DecodeFields, decode_null, pinnacle, rushmore, dolphin, packet_v7, ss4_v2,
}
use V3.{alps_decode_pinnacle, alps_decode_rushmore}
use Dolphin.{alps_decode_dolphin}
use V7.{alps_decode_packet_v7}
use Ss4.{alps_decode_ss4_v2}

-- `(this->*decode_fields)(&f, packet)`: the value returned, and the fields. A null pointer decodes
-- nothing here; `set_protocol` installs a decoder for each protocol that calls one.
unfoldable pub decode : DecodeFields → AlpsData → AlpsFields → List ℕ → Bool × AlpsFields
decode decode_null priv f p = (false, f)
decode pinnacle priv f p = (true, alps_decode_pinnacle f p)
decode rushmore priv f p = (true, alps_decode_rushmore f p)
decode dolphin priv f p = (true, alps_decode_dolphin priv f p)
decode packet_v7 priv f p = alps_decode_packet_v7 priv f p
decode ss4_v2 priv f p = (true, alps_decode_ss4_v2 priv f p)
