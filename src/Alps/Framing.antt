-- ===== src/Alps/Framing.antt =====
-- The bytes of the device become packets: `ALPS::interruptOccurred` and `ALPS::packetReady` of
-- VoodooPS2Trackpad/alps.cpp, over `_ringBuffer` and `_packetByteCount` of VoodooPS2TouchPadBase.
pub mod Frame
pub mod Sync
pub mod Receive
pub mod Stored
pub mod Packet
pub mod Checks
use voodoo_ps2_alps.Base.{
  ℕ, zero, suc, ◌+◌, ◌-◌, ◌&◌, if◌then◌else◌, ltb, leb, List, [], ◌∷◌, ◌++◌, Bool, true, false, not,
  ◌&&◌, ◌||◌, ◌==◌, ◌!=◌, nz, Option, none, some, tabulate,
}
use voodoo_ps2_alps.RingBuffer.{
  RingBuffer, count, advance_head, advance_tail, write_head, read_head, read_tail,
}
use voodoo_ps2_alps.Alps.Types.{
  Driver, AlpsData, Action, Handled, alps_proto_v5, alps_proto_v7, alps_proto_v8,
  alps_ps2_interleaved,
}
use voodoo_ps2_alps.Alps.Process.{process}

-- `RingBuffer<UInt8, kPacketLength*32>`, where kPacketLength is 6
abbrev pub ring_size : ℕ
ring_size = 192

-- `enum PS2InterruptResult`
pub data Ps2InterruptResult : Type 0 where
  packet_ready packet_buffering : Ps2InterruptResult

-- A bare PS/2 packet: "Can not distinguish V8's first byte from PS/2 packet's"
unfoldable pub is_bare : AlpsData → (ℕ → ℕ) → Bool
is_bare priv packet = priv.proto_version != alps_proto_v8 && (packet 0 & 0xc8) == 0x08

-- The checks in their order, when `n` bytes have been stored: a PS/2 packet stuffed into the
-- packet, the first byte, the highest bit of the last byte stored, and the constant bits of V7, V8.
unfoldable pub is_invalid : AlpsData → (ℕ → ℕ) → ℕ → Bool
is_invalid priv packet n =
    nz (priv.flags & alps_ps2_interleaved) && leb 4 n && (packet 3 & 0x0f) == 0x0f
    || (packet 0 & priv.mask0) != priv.byte0
    || ltb priv.proto_version alps_proto_v5
      && leb 2 n
      && leb n priv.pktsize
      && nz (packet (n - 1) & 0x80)
    || priv.proto_version == alps_proto_v7
      && (n == 3 && (packet 2 & 0x40) != 0x40
          || n == 4 && (packet 3 & 0x48) != 0x48
          || n == 6 && (packet 5 & 0x40) != 0x00)
    || priv.proto_version == alps_proto_v8
      && (n == 4 && (packet 3 & 0x08) != 0x08 || n == 6 && (packet 5 & 0x10) != 0x00)

-- `_ringBuffer.advanceHead(priv.pktsize)`
advance : Driver → Driver
advance d = record d { ring = advance_head ring_size d.ring d.priv.pktsize }

-- `PSMOUSE_BAD_DATA`
unfoldable pub set_bad_data : Driver → Bool → Driver
set_bad_data d b = record d { priv = record (d.priv) { bad_data = b } }

-- `packet[_packetByteCount++] = data`
unfoldable pub append : Driver → ℕ → Driver
append d byte = record d {
  ring = write_head d.ring d.packet_byte_count byte;
  packet_byte_count = d.packet_byte_count + 1;
}

-- What is done first: the first byte of a packet is stored, and the flag is reset.
unfoldable pub begin : Driver → ℕ → Driver
unfolding set_bad_data
begin d byte =
    set_bad_data
      (record d { ring = if d.packet_byte_count == 0 then write_head d.ring 0 byte else d.ring })
      false

-- A packet that is given up is passed on all the same, with the flag set.
unfoldable pub give_up : Driver → Driver × Ps2InterruptResult
unfolding set_bad_data advance
give_up d = (advance (set_bad_data d true), packet_ready)

-- A byte that is accepted
unfoldable pub accept : Driver → ℕ → Driver × Ps2InterruptResult
unfolding append advance
accept d byte =
    let d' = append d byte in
    if d'.packet_byte_count == d'.priv.pktsize
    then (advance d', packet_ready)
    else (d', packet_buffering)

unfoldable pub interrupt_occurred : Driver → ℕ → Driver × Ps2InterruptResult
interrupt_occurred d0 byte =
    let d = begin d0 byte in
    let packet = read_head d.ring in
    if is_bare d.priv packet
    then if d.packet_byte_count == 3 then give_up d else (append d byte, packet_buffering)
    else if is_invalid d.priv packet d.packet_byte_count
    then give_up d
    else accept d byte

-- The packet at the tail of the ring
unfoldable pub tail_packet : Driver → List ℕ
tail_packet d = tabulate d.priv.pktsize (read_tail d.ring)

-- The end of a round: `_packetByteCount = 0; _ringBuffer.advanceTail(priv.pktsize);`
unfoldable pub finish : Driver → Driver
finish d = record d { packet_byte_count = 0; ring = advance_tail ring_size d.ring d.priv.pktsize }

-- One round of the loop; `none` is a call through a null pointer.
unfoldable pub handle_packet : Driver → Option Handled
handle_packet d =
    if d.priv.bad_data then some (finish d, []) else elim (process d (tail_packet d)) [
      | none ↦ none
      | some (d', actions) ↦ some (finish d', actions)
    ]

-- `while (_ringBuffer.count() >= priv.pktsize)`, with the rounds that are left
unfoldable pub packet_loop : ℕ → Driver → Option Handled
packet_loop zero d = some (d, [])
packet_loop (suc rounds) d = elim (leb d.priv.pktsize (count ring_size d.ring)) [
  | false ↦ some (d, [])
  | true ↦ elim (handle_packet d) [
    | none ↦ none
    | some (d', actions) ↦ elim (packet_loop rounds d') [
      | none ↦ none
      | some (d'', more) ↦ some (d'', actions ++ more)
    ]
  ]
]

-- Each round takes a packet of at least one byte, so as many rounds as bytes are enough.
unfoldable pub packet_ready_all : Driver → Option Handled
packet_ready_all d = packet_loop (count ring_size d.ring) d

-- A byte as the controller delivers it: the interrupt routine, and the packet routine if it asks
-- for it. Here the packet routine runs before the next byte.
unfoldable pub after_interrupt : Driver × Ps2InterruptResult → Option Handled
after_interrupt (d, packet_buffering) = some (d, [])
after_interrupt (d, packet_ready) = packet_ready_all d

unfoldable pub receive : Driver → ℕ → Option Handled
unfolding after_interrupt
receive d byte = after_interrupt (interrupt_occurred d byte)

-- A stream of bytes, where `packetReady` runs behind each byte that asks for it and before the next
-- byte. (The controller may deliver all pending bytes first; that schedule is not modelled.)
unfoldable pub receive_all : Driver → List ℕ → Option Handled
receive_all d [] = some (d, [])
receive_all d (byte ∷ bytes) = elim (receive d byte) [
  | none ↦ none
  | some (d', actions) ↦ elim (receive_all d' bytes) [
    | none ↦ none
    | some (d'', more) ↦ some (d'', actions ++ more)
  ]
]
