-- ===== src/Examples/Streams.antt =====
-- Examples for the ring buffer, the controller and the command mode.
use voodoo_ps2_alps.Base.{
  ◌/◌, ◌%◌, suc, ◌+◌, List, [], ◌∷◌, ◌++◌, map, replicate, take, true, false, none, some, ◌≡◌, refl,
  arith, if◌then◌else◌, ltb,
}
use voodoo_ps2_alps.RingBuffer.{RingBuffer, count, push, fetch}
use voodoo_ps2_alps.RingBuffer.Bounds.{IsValid}
use voodoo_ps2_alps.RingBuffer.Fifo.{contents, push-contents, fetch_lem}
use voodoo_ps2_alps.Controller.Ports.{keyboard, mouse, not_ready, ready, Poll, read_expected}
use voodoo_ps2_alps.Controller.Ports.Streams.{
  bytes_of, dispatched_to, second_chance, read_expected-second_chance, read_expected-other,
}
use voodoo_ps2_alps.Controller.Request.{Ps2Controller, process_request}
use voodoo_ps2_alps.Controller.Request.Outcome.{send_mouse, sent, process_request-sent}
use voodoo_ps2_alps.Alps.Types.{AlpsData}
use voodoo_ps2_alps.Alps.Command.{
  AlpsStatus, alps_v3_nibble_commands, alps_v4_nibble_commands, alps_command_mode_set_addr,
  alps_command_mode_write_reg, alps_command_mode_send_nibble,
}
use voodoo_ps2_alps.Alps.Identify.{protocol_of}
use voodoo_ps2_alps.Alps.Command.Nibbles.{IsRow, table_row, nibble_roundtrip}
use voodoo_ps2_alps.Alps.Command.Address.{all_bytes, set_addr-done}

-- A ring of four places that holds two bytes, over the end of its array
abbrev ring : RingBuffer
ring = record { buffer = 20 ∷ 0 ∷ 0 ∷ 10 ∷ []; head = 1; tail = 3 }

ring-IsValid : IsValid 4 ring
ring-IsValid = record {
  size = refl;
  small = omega arith;
  head_in = omega arith;
  tail_in = omega arith;
}

two_bytes : count 4 ring ≡ 2
unfolding count
two_bytes = refl

push-contents_example :
    contents 4 (push 4 ring 30)
    ≡ (if ltb (count 4 ring + 1) 4 then contents 4 ring ++ (30 ∷ []) else contents 4 ring)
push-contents_example = push-contents 30 ring-IsValid

fetch_lem_example : contents 4 ring ≡ (fetch 4 ring).0 ∷ contents 4 (fetch 4 ring).1
fetch_lem_example = fetch_lem ring-IsValid (omega (arith, two_bytes))

-- A byte of the mouse that comes before the acknowledgement, and a key in between
abbrev stray : List Poll
stray = not_ready ∷ ready mouse 0x08 ∷ ready keyboard 0x1e ∷ ready mouse 0xfa ∷ []

stray_run : (read_expected false mouse 0xfa none 10 stray).result ≡ 0xfa
unfolding read_expected
stray_run = refl

read_expected-second_chance_example :
    (read_expected false mouse 0xfa none 10 stray).result
    ≡ second_chance 0xfa none (bytes_of mouse stray)
read_expected-second_chance_example =
    read_expected-second_chance false mouse 0xfa none 10 stray (omega arith)

read_expected-other_example :
    bytes_of keyboard stray
    ≡ dispatched_to keyboard (read_expected false mouse 0xfa none 10 stray).dispatched
      ++ bytes_of keyboard (read_expected false mouse 0xfa none 10 stray).rest
read_expected-other_example = read_expected-other mouse 0xfa none 10 stray

-- A controller whose device acknowledges everything, at most nine times
abbrev pub controller : Ps2Controller
controller = record {
  hardware_offline = false;
  suppress_timeout = false;
  ignore_out_of_order = false;
  ignore_interrupts = 0;
  polls = replicate 9 (ready mouse 0xfa);
  done = [];
  dispatched = [];
}

process_request-sent_example :
    (process_request controller (map send_mouse (0xe8 ∷ 0x03 ∷ []))).controller.done
    ≡ []
      ++ sent (
          take
            (suc (process_request controller (map send_mouse (0xe8 ∷ 0x03 ∷ []))).commands_count)
            (0xe8 ∷ 0x03 ∷ []))
process_request-sent_example = process_request-sent controller (0xe8 ∷ 0x03 ∷ []) refl

nibble_roundtrip_example :
    IsRow alps_v3_nibble_commands 10 (table_row alps_v3_nibble_commands 10)
    × IsRow alps_v4_nibble_commands 10 (table_row alps_v4_nibble_commands 10)
nibble_roundtrip_example = nibble_roundtrip 10 (omega arith)

-- A device of the V3 protocol
abbrev pub priv : AlpsData
priv = record {
  nibble_commands = alps_v3_nibble_commands;
  addr_command = 0xec;
  proto_version = 0x300;
  byte0 = 0x8f;
  mask0 = 0x8f;
  fw_ver = [];
  flags = 0;
  x_max = 2000;
  y_max = 1400;
  x_bits = 15;
  y_bits = 11;
  x_res = 0;
  y_res = 0;
  prev_fin = 0;
  multi_packet = 0;
  second_touch = none;
  multi_data = replicate 6 0;
  quirks = 0;
  bad_data = false;
  pktsize = 6;
}

set_addr_run : (alps_command_mode_set_addr priv controller 0x0004).1 ≡ true
unfolding alps_command_mode_set_addr alps_command_mode_send_nibble alps_v3_nibble_commands
    process_request read_expected
set_addr_run = refl

set_addr-done_example :
    (alps_command_mode_set_addr priv controller 0x0004).0.done
    ≡ []
      ++ sent (
          0xec
          ∷ all_bytes priv
              (0x0004 / 4096 % 16 ∷ 0x0004 / 256 % 16 ∷ 0x0004 / 16 % 16 ∷ 0x0004 % 16 ∷ []))
set_addr-done_example = set_addr-done priv controller 0x0004 set_addr_run

write_reg_run : (alps_command_mode_write_reg priv controller 0x0000 0x12).1 ≡ true
unfolding alps_command_mode_write_reg alps_command_mode_send_nibble alps_v3_nibble_commands
    process_request read_expected
write_reg_run = refl

-- The reports of a V7 device
abbrev e7_report : AlpsStatus
e7_report = record { byte0 = 0x73; byte1 = 0x03; byte2 = 0x0a }

abbrev ec_report : AlpsStatus
ec_report = record { byte0 = 0x88; byte1 = 0xb3; byte2 = 0x22 }

v7_found : protocol_of e7_report ec_report ≡ some 0x700
unfolding protocol_of
v7_found = refl
