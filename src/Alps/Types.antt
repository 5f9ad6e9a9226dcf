-- ===== src/Alps/Types.antt =====
-- VoodooPS2Trackpad/alps.h: the constants, the records of the driver and what it sends out.
use voodoo_ps2_alps.Base.{ℕ, List, Option, Bool}
use voodoo_ps2_alps.Base.Int.{ℤ}
use voodoo_ps2_alps.RingBuffer.{RingBuffer}

-- `ALPS_PROTO_*`
abbrev pub alps_proto_v1 : ℕ
alps_proto_v1 = 0x100

abbrev pub alps_proto_v2 : ℕ
alps_proto_v2 = 0x200

abbrev pub alps_proto_v3 : ℕ
alps_proto_v3 = 0x300

abbrev pub alps_proto_v3_rushmore : ℕ
alps_proto_v3_rushmore = 0x310

abbrev pub alps_proto_v4 : ℕ
alps_proto_v4 = 0x400

abbrev pub alps_proto_v5 : ℕ
alps_proto_v5 = 0x500

abbrev pub alps_proto_v6 : ℕ
alps_proto_v6 = 0x600

abbrev pub alps_proto_v7 : ℕ
alps_proto_v7 = 0x700

abbrev pub alps_proto_v8 : ℕ
alps_proto_v8 = 0x800

-- Bits of `alps_data.flags`
abbrev pub alps_dualpoint : ℕ
alps_dualpoint = 0x02

abbrev pub alps_pass : ℕ
alps_pass = 0x04

abbrev pub alps_wheel : ℕ
alps_wheel = 0x08

abbrev pub alps_fw_bk_1 : ℕ
alps_fw_bk_1 = 0x10

abbrev pub alps_fw_bk_2 : ℕ
alps_fw_bk_2 = 0x20

abbrev pub alps_four_buttons : ℕ
alps_four_buttons = 0x40

abbrev pub alps_ps2_interleaved : ℕ
alps_ps2_interleaved = 0x80

abbrev pub alps_stick_bits : ℕ
alps_stick_bits = 0x100

abbrev pub alps_buttonpad : ℕ
alps_buttonpad = 0x200

abbrev pub alps_dualpoint_with_pressure : ℕ
alps_dualpoint_with_pressure = 0x400

-- The bit of `alps_data.quirks`
abbrev pub alps_quirk_trackstick_buttons : ℕ
alps_quirk_trackstick_buttons = 1

-- `struct input_mt_pos`, two UInt32
pub record MtPos : Type 0 where
  pub x : ℕ
  pub y : ℕ

abbrev pub origin : MtPos
origin = record { x = 0; y = 0 }

-- `struct alps_fields`. The array `mt` of MAX_TOUCHES = 4 positions is `mt0` to `mt3`; the flags
-- from `first_mp` on are one-bit fields, which keep the low bit of what is stored.
pub record AlpsFields : Type 0 where
  pub x_map : ℕ
  pub y_map : ℕ
  pub fingers : ℕ
  pub pressure : ℕ
  pub st : MtPos
  pub mt0 : MtPos
  pub mt1 : MtPos
  pub mt2 : MtPos
  pub mt3 : MtPos
  pub first_mp : ℕ
  pub is_mp : ℕ
  pub left : ℕ
  pub right : ℕ
  pub middle : ℕ
  pub ts_left : ℕ
  pub ts_right : ℕ
  pub ts_middle : ℕ

-- The record after `memset(&f, 0, sizeof(f))`
abbrev pub zero_fields : AlpsFields
zero_fields = record {
  x_map = 0;
  y_map = 0;
  fingers = 0;
  pressure = 0;
  st = origin;
  mt0 = origin;
  mt1 = origin;
  mt2 = origin;
  mt3 = origin;
  first_mp = 0;
  is_mp = 0;
  left = 0;
  right = 0;
  middle = 0;
  ts_left = 0;
  ts_right = 0;
  ts_middle = 0;
}

-- `struct alps_nibble_commands`
pub record NibbleCommand : Type 0 where
  pub command : ℕ
  pub argument : ℕ

-- `struct alps_data`, less the unused copy of the fields. `second_touch` is -1
-- (`none`) or the index of a corner.
pub record AlpsData : Type 0 where
  pub nibble_commands : List NibbleCommand
  pub addr_command : ℕ
  pub proto_version : ℕ
  pub byte0 : ℕ
  pub mask0 : ℕ
  pub fw_ver : List ℕ
  pub flags : ℕ
  pub x_max : ℕ
  pub y_max : ℕ
  pub x_bits : ℕ
  pub y_bits : ℕ
  pub x_res : ℕ
  pub y_res : ℕ
  pub prev_fin : ℕ
  pub multi_packet : ℕ
  pub second_touch : Option ℕ
  pub multi_data : List ℕ
  pub quirks : ℕ
  pub bad_data : Bool
  pub pktsize : ℕ

-- The values of the method pointers `decode_fields`, `process_packet` and `hw_init`
pub data DecodeFields : Type 0 where
  decode_null pinnacle rushmore dolphin packet_v7 ss4_v2 : DecodeFields

pub data ProcessPacket : Type 0 where
  process_null process_v1_v2 process_v3 process_touchpad_v3_v5 process_v4 : ProcessPacket
  process_v7 process_ss4_v2 : ProcessPacket

pub data HwInit : Type 0 where
  init_null init_v1_v2 init_v3 init_rushmore_v3 init_v4 init_dolphin_v1 init_v7 : HwInit
  init_ss4_v2 : HwInit

-- The values of `touchmode` (VoodooPS2TouchPadBase.h)
pub data TouchMode : Type 0 where
  no_touch pre_drag drag_no_touch move vscroll hscroll cscroll mtouch drag drag_lock : TouchMode
  wait1_release wait2_tap wait2_release : TouchMode

-- The state of the driver object that packets pass through, of the class and of its base class.
pub record Driver : Type 0 where
  pub priv : AlpsData
  pub decode_fields : DecodeFields
  pub process_packet : ProcessPacket
  pub hw_init : HwInit
  pub ring : RingBuffer
  pub packet_byte_count : ℕ
  pub lastbuttons : ℕ
  pub last_track_stick_buttons : ℕ
  pub last_touchpad_buttons : ℕ
  pub touchmode : TouchMode

-- The calls by which a packet handler passes its result on, in the order that it makes them:
-- `dispatchRelativePointerEventX`, `dispatchScrollWheelEventX` and `dispatchEventsWithInfo`.
pub data Action : Type 0 where
  relative : ℤ → ℤ → ℕ → Action
  scroll : ℤ → ℤ → ℤ → Action
  touch : ℤ → ℤ → ℕ → ℕ → ℕ → Action

-- What a handler returns
abbrev pub Handled : Type 0
Handled = Driver × List Action
