-- ===== src/Alps/Setup/Protocol.antt =====
-- `set_protocol` of VoodooPS2Trackpad/alps.cpp: what a protocol installs, and what it asks the device
-- for meanwhile.
use voodoo_ps2_alps.Base.{ℕ, ◌+◌, ◌-◌, ◌*◌, ◌&◌, ◌¦◌, ◌≫◌, List, if◌then◌else◌, ◌==◌, ◌!=◌, get_or}
use voodoo_ps2_alps.Controller.Request.{Ps2Controller}
use voodoo_ps2_alps.Alps.Types.{
  Driver, AlpsData, NibbleCommand, DecodeFields, pinnacle, rushmore, dolphin, packet_v7, ss4_v2,
  ProcessPacket, process_v1_v2, process_v3, process_touchpad_v3_v5, process_v4, process_v7,
  process_ss4_v2, HwInit, init_v1_v2, init_v3, init_rushmore_v3, init_v4, init_dolphin_v1, init_v7,
  init_ss4_v2, alps_proto_v1, alps_proto_v2, alps_proto_v3, alps_proto_v3_rushmore, alps_proto_v4,
  alps_proto_v5, alps_proto_v6, alps_proto_v7, alps_proto_v8, alps_dualpoint, alps_buttonpad,
  alps_dualpoint_with_pressure,
}
use voodoo_ps2_alps.Alps.Command.{
  status_items, submit, answer, alps_enter_command_mode, alps_exit_command_mode, ps2_command,
  ps2_command_short, alps_v3_nibble_commands, alps_v4_nibble_commands, alps_v6_nibble_commands,
}
use voodoo_ps2_alps.Alps.HwInit.{
  is_failure, alps_probe_trackstick_v3_v7, alps_reg_base_pinnacle, alps_reg_base_rushmore,
  alps_reg_base_v7,
}

unfoldable pub alps_get_otp_values_ss4_v2 : Ps2Controller → ℕ → Ps2Controller
alps_get_otp_values_ss4_v2 c index =
    let ask = λ (byte : ℕ).
      (submit (ps2_command_short (ps2_command_short c byte) byte) status_items).controller in
    if index == 0 then ask 0xea else if index == 1 then ask 0xf0 else c

unfoldable pub alps_set_defaults_ss4_v2 : Ps2Controller → Ps2Controller
unfolding alps_get_otp_values_ss4_v2
alps_set_defaults_ss4_v2 c = alps_get_otp_values_ss4_v2 (alps_get_otp_values_ss4_v2 c 0) 1

-- The third byte of the status gives the electrodes, 64 counts each.
unfoldable pub with_device_area : AlpsData → ℕ → AlpsData
with_device_area priv byte2 =
    let num_x_electrode = 8 + (byte2 & 0x0f) in
    let num_y_electrode = 1 + (byte2 ≫ 4 & 0x0f) in
    record priv {
      x_bits = num_x_electrode;
      y_bits = num_y_electrode;
      x_max = (num_x_electrode - 1) * 64;
      y_max = (num_y_electrode - 1) * 64;
    }

unfoldable pub alps_dolphin_get_device_area : AlpsData → Ps2Controller → Ps2Controller × AlpsData
unfolding with_device_area
alps_dolphin_get_device_area priv c =
    let (c1, entered) = alps_enter_command_mode c in
    let c2 = ps2_command_short (ps2_command_short (ps2_command_short c1 0xec) 0xf0) 0xf0 in
    let c3 = ps2_command (ps2_command c2 0x0a 0xf3) 0x0a 0xf3 in
    let r = submit c3 status_items in
    ((alps_exit_command_mode r.controller).0, with_device_area priv (answer r 3))

-- What `set_protocol` sets first
unfoldable pub default_data : AlpsData → AlpsData
default_data priv = record priv {
  byte0 = 0x8f;
  mask0 = 0x8f;
  flags = alps_dualpoint;
  x_max = 2000;
  y_max = 1400;
  x_bits = 15;
  y_bits = 11;
}

-- The pointers and the tables of a protocol
abbrev pub install :
    Driver → HwInit → ProcessPacket → DecodeFields → List NibbleCommand → ℕ → Driver
install d init handler decoder nibbles addr = record d {
  hw_init = init;
  process_packet = handler;
  decode_fields = decoder;
  priv = record (d.priv) { nibble_commands = nibbles; addr_command = addr };
}

-- `priv.flags &= ~ALPS_DUALPOINT` if the probe of the trackstick says anything but 0
unfoldable pub after_probe : Driver → ℕ → Ps2Controller → Ps2Controller × Driver
after_probe d base c =
    let (c', found) = alps_probe_trackstick_v3_v7 d.priv base c in
    (
      c',
      if is_failure found
          then record d { priv = record (d.priv) { flags = d.priv.flags & 0xfffffffd } }
          else d,
    )

-- The cases of the switch, one by one
unfoldable pub set_v1_v2 : Driver → Driver
set_v1_v2 d = record d {
  hw_init = init_v1_v2;
  process_packet = process_v1_v2;
  priv = record (d.priv) { x_max = 1023; y_max = 767 };
}

unfoldable pub set_v3 : Driver → Ps2Controller → Ps2Controller × Driver
unfolding after_probe
set_v3 d c =
    after_probe (install d init_v3 process_v3 pinnacle alps_v3_nibble_commands 0xec)
      alps_reg_base_pinnacle c

unfoldable pub set_rushmore : Driver → Ps2Controller → Ps2Controller × Driver
unfolding after_probe
set_rushmore d c =
    let d' = install d init_rushmore_v3 process_v3 rushmore alps_v3_nibble_commands 0xec in
    after_probe (record d' { priv = record (d'.priv) { x_bits = 16; y_bits = 12 } })
      alps_reg_base_rushmore c

unfoldable pub set_v4 : Driver → Driver
set_v4 d = install d init_v4 process_v4 d.decode_fields alps_v4_nibble_commands 0xf5

unfoldable pub v5_data : AlpsData → AlpsData
v5_data priv = record priv { byte0 = 0xc8; mask0 = 0xc8; flags = 0; x_bits = 23; y_bits = 12 }

unfoldable pub set_v5 : Driver → Ps2Controller → Ps2Controller × Driver
unfolding alps_dolphin_get_device_area v5_data
set_v5 d c =
    let d' =
      install d init_dolphin_v1 process_touchpad_v3_v5 dolphin alps_v3_nibble_commands 0xec in
    let (c', priv) = alps_dolphin_get_device_area (v5_data d'.priv) c in
    (c', record d' { priv = priv })

-- No method is installed for V6.
unfoldable pub set_v6 : Driver → Driver
set_v6 d = record d {
  priv = record (d.priv) {
    nibble_commands = alps_v6_nibble_commands;
    addr_command = 0xec;
    byte0 = 0xc8;
    mask0 = 0xc8;
    flags = 0;
    x_max = 2047;
    y_max = 1535;
  };
}

unfoldable pub set_v7 : Driver → Ps2Controller → Ps2Controller × Driver
unfolding after_probe
set_v7 d c =
    let d' = install d init_v7 process_v7 packet_v7 alps_v3_nibble_commands 0xec in
    after_probe
      (record d' {
        priv = record (d'.priv) {
          byte0 = 0x48;
          mask0 = 0x48;
          x_max = 0xfff;
          y_max = 0x7ff;
          flags =
              if get_or d.priv.fw_ver 1 0 != 0xba
              then d.priv.flags ¦ alps_buttonpad
              else d.priv.flags;
        };
      })
      alps_reg_base_v7 c

unfoldable pub set_v8 : Driver → Ps2Controller → Ps2Controller × Driver
unfolding alps_set_defaults_ss4_v2
set_v8 d c =
    let d' = install d init_ss4_v2 process_ss4_v2 ss4_v2 alps_v3_nibble_commands 0xec in
    let stick = get_or d.priv.fw_ver 1 0 == 0x1 in
    (
      alps_set_defaults_ss4_v2 c,
      record d' {
        priv = record (d'.priv) {
          byte0 = 0x18;
          mask0 = 0x18;
          x_max = if stick then 8160 else 8176;
          y_max = if stick then 4080 else 4088;
          flags = if stick then alps_dualpoint ¦ alps_dualpoint_with_pressure else alps_buttonpad;
        };
      },
    )

abbrev pub no_talk : Ps2Controller → Driver → Ps2Controller × Driver
no_talk c d = (c, d)

unfoldable pub set_protocol : Driver → Ps2Controller → Ps2Controller × Driver
unfolding default_data set_v1_v2 set_v3 set_rushmore set_v4 set_v5 set_v6 set_v7 set_v8
set_protocol d0 c =
    let d = record d0 { priv = default_data d0.priv } in
    let proto = d0.priv.proto_version in
    if proto == alps_proto_v1
    then no_talk c (set_v1_v2 d)
    else if proto == alps_proto_v2
    then no_talk c (set_v1_v2 d)
    else if proto == alps_proto_v3
    then set_v3 d c
    else if proto == alps_proto_v3_rushmore
    then set_rushmore d c
    else if proto == alps_proto_v4
    then no_talk c (set_v4 d)
    else if proto == alps_proto_v5
    then set_v5 d c
    else if proto == alps_proto_v6
    then no_talk c (set_v6 d)
    else if proto == alps_proto_v7
    then set_v7 d c
    else if proto == alps_proto_v8
    then set_v8 d c
    else (c, d)
