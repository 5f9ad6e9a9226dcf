-- ===== src/Alps/Identify.antt =====
-- The identification of the device in VoodooPS2Trackpad/alps.cpp: the table `alps_model_data`, the
-- search of `matchTable`, and the decision and the reports of `identify`. Alps/Setup installs
-- what is found.
pub mod Protocols
use voodoo_ps2_alps.Base.{
  ℕ, ◌+◌, ◌&◌, List, [], ◌∷◌, Bool, true, false, Option, none, some, if◌then◌else◌, ltb, leb, ◌==◌,
  not, ◌&&◌, ◌||◌,
}
use voodoo_ps2_alps.Controller.Request.{Ps2Controller}
use voodoo_ps2_alps.Alps.Command.{AlpsStatus, alps_rpt_cmd, alps_exit_command_mode}
use voodoo_ps2_alps.Alps.Types.{
  alps_proto_v5, alps_proto_v7, alps_proto_v3, alps_proto_v8, alps_dualpoint, alps_four_buttons,
  alps_fw_bk_1, alps_fw_bk_2, alps_pass, alps_proto_v1, alps_proto_v2, alps_proto_v3_rushmore,
  alps_proto_v4, alps_ps2_interleaved, alps_wheel,
}

-- `struct alps_model_info`
pub record AlpsModelInfo : Type 0 where
  pub signature : AlpsStatus
  pub command_mode_resp : ℕ
  pub proto_version : ℕ
  pub byte0 : ℕ
  pub mask0 : ℕ
  pub flags : ℕ

model : ℕ → ℕ → ℕ → ℕ → ℕ → ℕ → ℕ → ℕ → AlpsModelInfo
model a b c resp proto byte0 mask0 flags = record {
  signature = record { byte0 = a; byte1 = b; byte2 = c };
  command_mode_resp = resp;
  proto_version = proto;
  byte0 = byte0;
  mask0 = mask0;
  flags = flags;
}

-- The flags of a row are different bits, so their sum is their union.
unfoldable pub alps_model_data : List AlpsModelInfo
unfolding model
alps_model_data =
    model 0x32 0x02 0x14 0x00 alps_proto_v2 0xf8 0xf8 (alps_pass + alps_dualpoint)
    ∷ model 0x33 0x02 0x0a 0x00 alps_proto_v1 0x88 0xf8 0
    ∷ model 0x53 0x02 0x0a 0x00 alps_proto_v2 0xf8 0xf8 0
    ∷ model 0x53 0x02 0x14 0x00 alps_proto_v2 0xf8 0xf8 0
    ∷ model 0x60 0x03 0xc8 0x00 alps_proto_v2 0xf8 0xf8 0
    ∷ model 0x63 0x02 0x0a 0x00 alps_proto_v2 0xf8 0xf8 0
    ∷ model 0x63 0x02 0x14 0x00 alps_proto_v2 0xf8 0xf8 0
    ∷ model 0x63 0x02 0x28 0x00 alps_proto_v2 0xf8 0xf8 alps_fw_bk_2
    ∷ model 0x63 0x02 0x3c 0x00 alps_proto_v2 0x8f 0x8f alps_wheel
    ∷ model 0x63 0x02 0x50 0x00 alps_proto_v2 0xef 0xef alps_fw_bk_1
    ∷ model 0x63 0x02 0x64 0x00 alps_proto_v2 0xf8 0xf8 0
    ∷ model 0x63 0x03 0xc8 0x00 alps_proto_v2 0xf8 0xf8 (alps_pass + alps_dualpoint)
    ∷ model 0x73 0x00 0x0a 0x00 alps_proto_v2 0xf8 0xf8 alps_dualpoint
    ∷ model 0x73 0x02 0x0a 0x00 alps_proto_v2 0xf8 0xf8 0
    ∷ model 0x73 0x02 0x14 0x00 alps_proto_v2 0xf8 0xf8 alps_fw_bk_2
    ∷ model 0x20 0x02 0x0e 0x00 alps_proto_v2 0xf8 0xf8 (alps_pass + alps_dualpoint)
    ∷ model 0x22 0x02 0x0a 0x00 alps_proto_v2 0xf8 0xf8 (alps_pass + alps_dualpoint)
    ∷ model 0x22 0x02 0x14 0x00 alps_proto_v2 0xff 0xff (alps_pass + alps_dualpoint)
    ∷ model 0x62 0x02 0x14 0x00 alps_proto_v2 0xcf 0xcf
        (alps_pass + alps_dualpoint + alps_ps2_interleaved)
    ∷ model 0x73 0x02 0x50 0x00 alps_proto_v2 0xcf 0xcf alps_four_buttons
    ∷ model 0x52 0x01 0x14 0x00 alps_proto_v2 0xff 0xff
        (alps_pass + alps_dualpoint + alps_ps2_interleaved)
    ∷ model 0x73 0x02 0x64 0x8a alps_proto_v4 0x8f 0x8f 0
    ∷ model 0x73 0x03 0x0a 0x1d alps_proto_v3_rushmore 0x00 0x00 0
    ∷ []

abbrev pub same_status : AlpsStatus → AlpsStatus → Bool
same_status a b = a.byte0 == b.byte0 && a.byte1 == b.byte1 && a.byte2 == b.byte2

-- The condition of the loop: a response of 0 in the table stands for any.
unfoldable pub matches : AlpsStatus → AlpsStatus → AlpsModelInfo → Bool
matches e7 ec row =
    same_status e7 row.signature
    && (row.command_mode_resp == 0 || row.command_mode_resp == ec.byte2)

-- The row that the loop finds: the first that matches
unfoldable pub match_row : AlpsStatus → AlpsStatus → List AlpsModelInfo → Option AlpsModelInfo
unfolding matches
match_row e7 ec [] = none
match_row e7 ec (row ∷ rows) = if matches e7 ec row then some row else match_row e7 ec rows

-- The conditions of `identify`, in their order
unfoldable pub is_v5 : AlpsStatus → AlpsStatus → Bool
is_v5 e7 ec =
    e7.byte0 == 0x73
    && e7.byte1 == 0x03
    && e7.byte2 == 0x50
    && ec.byte0 == 0x73
    && (ec.byte1 == 0x01 || ec.byte1 == 0x02)

unfoldable pub is_v7 : AlpsStatus → Bool
is_v7 ec = ec.byte0 == 0x88 && ((ec.byte1 & 0xf0) == 0xb0 || (ec.byte1 & 0xf0) == 0xc0)

unfoldable pub is_v3_rushmore : AlpsStatus → Bool
is_v3_rushmore ec = ec.byte0 == 0x88 && ec.byte1 == 0x08

unfoldable pub is_v3 : AlpsStatus → Bool
is_v3 ec = ec.byte0 == 0x88 && ec.byte1 == 0x07 && leb 0x90 ec.byte2 && leb ec.byte2 0x9d

unfoldable pub is_v8 : AlpsStatus → AlpsStatus → Bool
is_v8 e7 ec = e7.byte0 == 0x73 && e7.byte1 == 0x03 && e7.byte2 == 0x14 && ec.byte1 == 0x02

unfoldable pub is_v8_flare : AlpsStatus → AlpsStatus → Bool
is_v8_flare e7 ec = e7.byte0 == 0x73 && e7.byte1 == 0x03 && e7.byte2 == 0x28 && ec.byte1 == 0x01

-- The protocol by these conditions; `none` is kIOReturnInvalid.
unfoldable pub protocol_of : AlpsStatus → AlpsStatus → Option ℕ
unfolding is_v5 is_v7 is_v3_rushmore is_v3 is_v8 is_v8_flare
protocol_of e7 ec =
    if is_v5 e7 ec
    then some alps_proto_v5
    else if is_v7 ec
    then some alps_proto_v7
    else if is_v3_rushmore ec
    then some alps_proto_v3_rushmore
    else if is_v3 ec
    then some alps_proto_v3
    else if is_v8 e7 ec
    then some alps_proto_v8
    else if is_v8_flare e7 ec
    then some alps_proto_v8
    else none

-- What `identify` finds: a row of the table, or a protocol with the firmware version
pub data Identity : Type 0 where
  io_error invalid : Identity
  known_model : AlpsModelInfo → Identity
  known_protocol : ℕ → AlpsStatus → Identity

unfoldable pub identity_from : Option AlpsModelInfo → Option ℕ → AlpsStatus → Identity
identity_from (some row) proto ec = known_model row
identity_from none (some proto) ec = known_protocol proto ec
identity_from none none ec = invalid

unfoldable pub identity_of : AlpsStatus → AlpsStatus → Identity
unfolding identity_from
identity_of e7 ec = identity_from (match_row e7 ec alps_model_data) (protocol_of e7 ec) ec

-- The reports that `identify` asks for, up to the one that fails. The E6 report decides nothing.
unfoldable pub identify : Ps2Controller → Ps2Controller × Identity
unfolding alps_rpt_cmd alps_exit_command_mode identity_of
identify c =
    let (c1, good6, e6) = alps_rpt_cmd c 0xe8 0 0xe6 in
    let (c2, good7, e7) = alps_rpt_cmd c1 0xe8 0 0xe7 in
    let (c3, good_c, ec) = alps_rpt_cmd c2 0xe8 0 0xec in
    let (c4, left) = alps_exit_command_mode c3 in
    if not good7
    then (c2, io_error)
    else if not good_c
    then (c3, io_error)
    else if left
    then (c4, identity_of e7 ec)
    else (c4, io_error)
