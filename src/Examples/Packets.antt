-- ===== src/Examples/Packets.antt =====
-- Examples for the framing, the decoders, the bitmaps and the packet handlers.
use voodoo_ps2_alps.Base.{
  ◌≤◌, get_or, ◌%◌, ℕ, zero, suc, ◌+◌, ◌<◌, ◌%◌, List, [], ◌∷◌, replicate, false, none, some, ◌≡◌,
  inl, refl, arith, at, ◌==◌, if◌then◌else◌,
}
use voodoo_ps2_alps.RingBuffer.{read_head}
use voodoo_ps2_alps.Alps.Types.{
  origin, Driver, AlpsFields, MtPos, zero_fields, packet_v7, Handled, pinnacle, process_v3, init_v3,
  no_touch,
}
use voodoo_ps2_alps.Alps.Decode.V3.{alps_decode_pinnacle, position_x, position_y}
use voodoo_ps2_alps.Alps.Decode.V3.Position.{encode_v3, position_fields, pinnacle_roundtrip}
use voodoo_ps2_alps.Alps.Bitmap.{
  zero_point, alps_get_bitmap_points, choose_corner, alps_process_bitmap,
}
use voodoo_ps2_alps.Alps.Bitmap.Runs.{runs, points-runs}
use voodoo_ps2_alps.Alps.Bitmap.Corners.{IsOnPad, IsPad, process_bitmap-IsOnPad}
use voodoo_ps2_alps.Alps.Bitmap.Nearest.{AllSmall, squared, choose_corner-IsNearest}
use voodoo_ps2_alps.Alps.Process.{process}
use voodoo_ps2_alps.Alps.Process.V3.{
  buttons_v3_v5, alps_process_packet_v3, alps_process_touchpad_packet_v3_v5,
}
use voodoo_ps2_alps.Alps.Process.Pair.{IsOneTouch, pinnacle_pair}
use voodoo_ps2_alps.Alps.Framing.{
  packet_ready, is_bare, is_invalid, begin, give_up, interrupt_occurred, receive_all,
}
use voodoo_ps2_alps.Alps.Framing.Sync.{IsSynced}
use voodoo_ps2_alps.Alps.Framing.Receive.{receive_all_total}
use voodoo_ps2_alps.Alps.Framing.Stored.{IsFrame}
use voodoo_ps2_alps.Alps.Framing.Packet.{Delivered, packet-Delivered}
use voodoo_ps2_alps.Alps.Framing.Checks.{interrupt_blind, bare_swallows_four}

-- A driver of the V3 protocol that waits for its first packet
abbrev pub driver : Driver
driver = record {
  priv = record {
    nibble_commands = [];
    addr_command = 0xec;
    proto_version = 0x300;
    byte0 = 0x8f;
    mask0 = 0x8f;
    fw_ver = [];
    flags = 0;
    x_max = 2000;
    y_max = 1400;
    x_bits = 15;
    y_bits = 11;
    x_res = 0;
    y_res = 0;
    prev_fin = 0;
    multi_packet = 0;
    second_touch = none;
    multi_data = replicate 6 0;
    quirks = 0;
    bad_data = false;
    pktsize = 6;
  };
  decode_fields = pinnacle;
  process_packet = process_v3;
  hw_init = init_v3;
  ring = record { buffer = replicate 192 0; head = 0; tail = 0 };
  packet_byte_count = 0;
  lastbuttons = 0;
  last_track_stick_buttons = 0;
  last_touchpad_buttons = 0;
  touchmode = no_touch;
}

pub driver-IsSynced : IsSynced driver
unfolding is_bare
driver-IsSynced = record {
  valid = record { size = refl; small = omega arith; head_in = omega arith; tail_in = omega arith };
  empty = refl;
  size = inl refl;
  aligned = refl;
  partial = omega arith;
  bare_short = λ h. omega arith;
  handled = λ h. cc;
}

-- A position, a pressure of 40 and the left button
abbrev position : MtPos
position = record { x = 1000; y = 700 }

abbrev packet : List ℕ
packet = encode_v3 position 40 1

packet_run : alps_decode_pinnacle zero_fields packet ≡ position_fields position 40 1
unfolding alps_decode_pinnacle
packet_run = refl

pinnacle_roundtrip_example : alps_decode_pinnacle zero_fields packet ≡ position_fields position 40 1
pinnacle_roundtrip_example =
    pinnacle_roundtrip position 40 1 (omega arith) (omega arith) (omega arith)

packet_passes : (n : ℕ) → n < 6 → is_invalid driver.priv (at packet) n ≡ false
unfolding is_invalid
packet_passes zero h = refl
packet_passes (suc zero) h = refl
packet_passes (suc (suc zero)) h = refl
packet_passes (suc (suc (suc zero))) h = refl
packet_passes (suc (suc (suc (suc zero)))) h = refl
packet_passes (suc (suc (suc (suc (suc zero))))) h = refl
packet_passes (suc (suc (suc (suc (suc (suc n)))))) h = absurd (omega arith)

packet-IsFrame : IsFrame driver.priv packet
unfolding is_bare
packet-IsFrame = record { long = refl; not_bare = refl; passes = packet_passes }

packet-Delivered_example : Delivered driver packet (receive_all driver packet)
packet-Delivered_example = packet-Delivered driver packet driver-IsSynced packet-IsFrame refl

receive_all_total_example :
    (r : Handled) × (receive_all driver (0xff ∷ 0x00 ∷ packet) ≡ some r) × IsSynced r.0
receive_all_total_example = receive_all_total (0xff ∷ 0x00 ∷ packet) driver driver-IsSynced

process_run :
    process driver packet
    ≡ some (
      (alps_process_touchpad_packet_v3_v5 driver packet).0,
      (alps_process_touchpad_packet_v3_v5 driver packet).1,
    )
unfolding process alps_process_packet_v3
process_run = refl

-- In the middle of a packet, and behind a complete one
abbrev middle : Driver
middle = record driver { packet_byte_count = 3 }

abbrev complete : Driver
complete = record driver { packet_byte_count = 6 }

interrupt_blind_example :
    ((interrupt_occurred middle 0).1 ≡ (interrupt_occurred middle 0xff).1)
    × ((interrupt_occurred middle 0).0.priv.bad_data
        ≡ (interrupt_occurred middle 0xff).0.priv.bad_data)
interrupt_blind_example = interrupt_blind middle 0 0xff (omega arith)

late_run : (interrupt_occurred complete 0x8f).1 ≡ packet_ready
unfolding interrupt_occurred is_bare begin read_head is_invalid give_up
late_run = refl

bare_swallows_four_example :
    (d' : Driver) × (receive_all driver (0x08 ∷ 1 ∷ 2 ∷ 0x8f ∷ []) ≡ some (d', []))
    × IsSynced d'
    × (d'.packet_byte_count ≡ 0)
bare_swallows_four_example =
    bare_swallows_four driver 0x08 1 2 0x8f driver-IsSynced refl (unfold is_bare in refl)

-- A map with two runs
points-runs_example :
    (alps_get_bitmap_points 0x0036 zero_point zero_point 0).fingers ≡ 0 + runs 32 0x0036
points-runs_example = points-runs 0x0036 zero_point zero_point 0 (omega arith)

two_runs : runs 32 0x0036 ≡ 2
unfolding runs
two_runs = refl

abbrev box : List MtPos
box =
    record { x = 0; y = 0 }
    ∷ record { x = 100; y = 0 }
    ∷ record { x = 100; y = 80 }
    ∷ record { x = 0; y = 80 }
    ∷ []

box_small : AllSmall box
box_small k p = ground arith

choose_corner-IsNearest_example :
    (j : ℕ) × (choose_corner none position box ≡ (j + 2) % 4)
    × (j < 4)
    × ((k : ℕ)
        → k < 4
        → squared position (get_or box j origin) ≤ squared position (get_or box k origin))
choose_corner-IsNearest_example =
    choose_corner-IsNearest position box (omega arith, omega arith) box_small (omega arith)

driver-IsPad : IsPad driver.priv
driver-IsPad = record {
  x_wide = (omega arith, omega arith);
  y_wide = (omega arith, omega arith);
  x_int = omega arith;
  y_int = omega arith;
}

abbrev maps : AlpsFields
maps = record zero_fields { x_map = 0x0036; y_map = 0x0018; st = position }

process_bitmap-IsOnPad_example :
    (k : ℕ) × (k < 4)
    × ((alps_process_bitmap driver.priv maps).1.second_touch ≡ some k)
    × ((alps_process_bitmap driver.priv maps).2.mt0 ≡ position)
    × IsOnPad driver.priv (alps_process_bitmap driver.priv maps).2.mt1
process_bitmap-IsOnPad_example =
    process_bitmap-IsOnPad maps driver-IsPad (λ k e. cc) (omega arith) (omega arith) (omega arith)
      (omega arith)

-- A position packet that says that a bitmap follows, and the bitmap
abbrev first_packet : List ℕ
first_packet = 0x8f ∷ 62 ∷ 43 ∷ 0 ∷ 0x48 ∷ 40 ∷ []

abbrev second_packet : List ℕ
second_packet = 0xcf ∷ 0x36 ∷ 0x18 ∷ 0 ∷ 0x00 ∷ 0x01 ∷ []

pinnacle_pair_example :
    let (d1, calls1) = alps_process_touchpad_packet_v3_v5 driver first_packet in
    let bitmap = alps_decode_pinnacle zero_fields second_packet in
    let position : MtPos = record { x = position_x first_packet; y = position_y first_packet } in
    let both = alps_decode_pinnacle bitmap first_packet in
    let (points, priv, f) = alps_process_bitmap d1.priv both in
    (calls1 ≡ [])
    × IsOneTouch driver position 40
        (if points == 0 then 0 else 2)
        (buttons_v3_v5 driver.priv (alps_decode_pinnacle zero_fields first_packet))
        priv.second_touch
        (alps_process_touchpad_packet_v3_v5 d1 second_packet)
pinnacle_pair_example = pinnacle_pair driver first_packet second_packet refl refl refl refl refl

-- Packets of a V7 device: two fingers, and a new one
abbrev two_fingers : List ℕ
two_fingers = 0x4d ∷ 0x21 ∷ 0xc3 ∷ 0x95 ∷ 0x62 ∷ 0x11 ∷ []

abbrev new_finger : List ℕ
new_finger = 0x58 ∷ 0x21 ∷ 0x43 ∷ 0x48 ∷ 0x00 ∷ 0x00 ∷ []

abbrev driver_v7 : Driver
driver_v7 = record driver { decode_fields = packet_v7 }
