-- ===== src/Alps/Setup/Configured.antt =====
-- What an identification leaves behind: pointers that are set, and that fit each other and the size of
-- the packets.
use voodoo_ps2_alps.Base.{
  ℕ, ◌≡◌, ◌≢◌, ◌⊎◌, refl, arith, List, [], ◌∷◌, Bool, true, Option, none, some, ◌==◌, ◌||◌, ◌&&◌,
}
use voodoo_ps2_alps.Controller.Request.{Ps2Controller}
use voodoo_ps2_alps.Alps.Types.{
  Driver, pinnacle, rushmore, dolphin, packet_v7, ss4_v2, process_null, process_v3,
  process_touchpad_v3_v5, process_v4, process_v7, process_ss4_v2, init_null, alps_proto_v1,
  alps_proto_v2, alps_proto_v3, alps_proto_v3_rushmore, alps_proto_v4, alps_proto_v5, alps_proto_v7,
  alps_proto_v8,
}
use voodoo_ps2_alps.Alps.Command.{AlpsStatus, alps_rpt_cmd, reset_mouse}
use voodoo_ps2_alps.Alps.Identify.{
  AlpsModelInfo, Identity, alps_model_data, match_row, identity_from, protocol_of, identity_of,
  identify,
}
use voodoo_ps2_alps.Alps.HwInit.{IoReturn}
use voodoo_ps2_alps.Alps.Setup.Protocol.{
  set_protocol, default_data, set_v1_v2, set_v3, set_rushmore, set_v4, set_v5, set_v6, set_v7,
  set_v8, after_probe, alps_dolphin_get_device_area, with_device_area,
}
use voodoo_ps2_alps.Alps.Setup.{use_row, use_protocol, install_identity, identify_device, probe}

-- The protocols that `set_protocol` installs methods for
abbrev pub is_supported : ℕ → Bool
is_supported p =
    p == alps_proto_v1
    || p == alps_proto_v2
    || p == alps_proto_v3
    || p == alps_proto_v3_rushmore
    || p == alps_proto_v4
    || p == alps_proto_v5
    || p == alps_proto_v7
    || p == alps_proto_v8

-- The pointers are set, the handler has a decoder that it can use, and the handler that reads eight
-- bytes is the one of the protocol with packets of eight bytes.
pub record IsConfigured (d : Driver) : Type 0 where
  pub handled : d.process_packet ≢ process_null
  pub starts : d.hw_init ≢ init_null
  pub v3_decoder :
      d.process_packet ≡ process_v3 → (d.decode_fields ≡ pinnacle) ⊎ (d.decode_fields ≡ rushmore)
  pub v5_decoder : d.process_packet ≡ process_touchpad_v3_v5 → d.decode_fields ≡ dolphin
  pub v7_decoder : d.process_packet ≡ process_v7 → d.decode_fields ≡ packet_v7
  pub ss4_decoder : d.process_packet ≡ process_ss4_v2 → d.decode_fields ≡ ss4_v2
  pub eight_bytes : d.process_packet ≡ process_v4 → d.priv.proto_version ≡ alps_proto_v4
  pub v4_handler : d.priv.proto_version ≡ alps_proto_v4 → d.process_packet ≡ process_v4

set_protocol-IsConfigured :
    (d : Driver) (c : Ps2Controller)
    → is_supported d.priv.proto_version ≡ true
    → IsConfigured (set_protocol d c).1
unfolding set_protocol default_data set_v1_v2 set_v3 set_rushmore set_v4 set_v5 set_v6 set_v7 set_v8
    after_probe alps_dolphin_get_device_area with_device_area
set_protocol-IsConfigured d c h = ground arith

supported : List AlpsModelInfo → Bool
supported [] = true
supported (row ∷ rows) = is_supported row.proto_version && supported rows

match_row-supported :
    (e7 ec : AlpsStatus) (rows : List AlpsModelInfo) (row : AlpsModelInfo)
    → supported rows ≡ true
    → match_row e7 ec rows ≡ some row
    → is_supported row.proto_version ≡ true
unfolding match_row supported
match_row-supported e7 ec [] row h e = ground arith
match_row-supported e7 ec (r ∷ rows) row h e = ground (arith, match_row-supported e7 ec rows row)

protocol_of-supported :
    (e7 ec : AlpsStatus) (p : ℕ) → protocol_of e7 ec ≡ some p → is_supported p ≡ true
unfolding protocol_of
protocol_of-supported e7 ec p e = ground arith

use_row-IsConfigured :
    (d : Driver) (c : Ps2Controller) (row : AlpsModelInfo)
    → is_supported row.proto_version ≡ true
    → IsConfigured (use_row d c row).1
unfolding use_row
use_row-IsConfigured d c row h =
    let v =
      set_protocol-IsConfigured
        (record d { priv = record (d.priv) { proto_version = row.proto_version } }) c h in
    record {
      handled = v.handled;
      starts = v.starts;
      v3_decoder = v.v3_decoder;
      v5_decoder = v.v5_decoder;
      v7_decoder = v.v7_decoder;
      ss4_decoder = v.ss4_decoder;
      eight_bytes = v.eight_bytes;
      v4_handler = v.v4_handler;
    }

use_protocol-IsConfigured :
    (d : Driver) (c : Ps2Controller) (proto : ℕ) (ec : AlpsStatus)
    → is_supported proto ≡ true
    → IsConfigured (use_protocol d c proto ec).1
unfolding use_protocol
use_protocol-IsConfigured d c proto ec h =
    set_protocol-IsConfigured
      (record d {
        priv = record (d.priv) {
          proto_version = proto;
          fw_ver = ec.byte0 ∷ ec.byte1 ∷ ec.byte2 ∷ [];
        };
      })
      c h

-- An identity that was found is one of a protocol that is supported.
abbrev is_known : Identity → Bool
is_known Identity.io_error = true
is_known Identity.invalid = true
is_known (Identity.known_model row) = is_supported row.proto_version
is_known (Identity.known_protocol p ec) = is_supported p

from-is_known :
    (r : Option AlpsModelInfo) (q : Option ℕ) (ec : AlpsStatus)
    → ((row : AlpsModelInfo) → r ≡ some row → is_supported row.proto_version ≡ true)
    → ((p : ℕ) → q ≡ some p → is_supported p ≡ true)
    → is_known (identity_from r q ec) ≡ true
unfolding identity_from
from-is_known (some row) q ec h k = h row refl
from-is_known none (some p) ec h k = k p refl
from-is_known none none ec h k = refl

table_supported : supported alps_model_data ≡ true
unfolding supported alps_model_data
table_supported = refl

identity_of-is_known : (e7 ec : AlpsStatus) → is_known (identity_of e7 ec) ≡ true
unfolding identity_of
identity_of-is_known e7 ec =
    from-is_known (match_row e7 ec alps_model_data) (protocol_of e7 ec) ec
      (λ row e. match_row-supported e7 ec alps_model_data row table_supported e)
      (λ p e. protocol_of-supported e7 ec p e)

identify-is_known : (c : Ps2Controller) → is_known (identify c).1 ≡ true
unfolding identify
identify-is_known c = ground (
  arith,
  identity_of-is_known (alps_rpt_cmd (alps_rpt_cmd c 0xe8 0 0xe6).0 0xe8 0 0xe7).2
      (alps_rpt_cmd (alps_rpt_cmd (alps_rpt_cmd c 0xe8 0 0xe6).0 0xe8 0 0xe7).0 0xe8 0 0xec).2,
)

install-IsConfigured :
    (d : Driver) (c : Ps2Controller) (id : Identity)
    → is_known id ≡ true
    → (install_identity d c id).2 ≡ IoReturn.success
    → IsConfigured (install_identity d c id).1
unfolding install_identity
install-IsConfigured d c Identity.io_error k e = ground arith
install-IsConfigured d c Identity.invalid k e = ground arith
install-IsConfigured d c (Identity.known_model row) k e = use_row-IsConfigured d c row k
install-IsConfigured d c (Identity.known_protocol p ec) k e = use_protocol-IsConfigured d c p ec k

-- After a probe that succeeds
pub probe-IsConfigured :
    (d : Driver) (c : Ps2Controller) → (probe d c).2 ≡ true → IsConfigured (probe d c).1
unfolding probe identify_device
probe-IsConfigured d c e =
    let c1 = (reset_mouse c).0 in
    let (c2, id) = identify c1 in
    install-IsConfigured d c2 id (identify-is_known c1) (ground (arith, e))
