-- ===== src/Keyboard/Interrupt.antt =====
-- `ApplePS2Keyboard::interruptOccurred` of VoodooPS2Keyboard/VoodooPS2Keyboard.cpp: a byte of the
-- device becomes a packet in the ring, unless it is a prefix, an error or a repeat.
pub mod Valid
pub mod Repeats
pub mod Stored
use voodoo_ps2_alps.Base.{
  ℕ, ◌+◌, ◌-◌, ◌*◌, ◌&◌, ◌≫◌, List, [], ◌∷◌, Bool, true, false, not, ◌&&◌, ◌||◌, if◌then◌else◌,
  ◌==◌, nz, get_or, u8, set_block,
}
use voodoo_ps2_alps.RingBuffer.{RingBuffer, advance_head, write_head}
use voodoo_ps2_alps.Alps.Framing.{Ps2InterruptResult, packet_ready, packet_buffering}
use voodoo_ps2_alps.Keyboard.Types.{
  Config, Keyboard, clock_get_uptime, kbv_is_keydown, kbv_keydown, kbv_keyup, ring_size,
  breakless_key,
}
use voodoo_ps2_alps.Keyboard.Packets.{le_bytes, packet_length, packet_time_offset}

-- `kSC_Acknowledge`, `kSC_Extend`, `kSC_Pause`, `kSC_Resend`, `kSC_Reset`, `kSC_UpBit`
abbrev pub sc_acknowledge : ℕ
sc_acknowledge = 0xfa

abbrev pub sc_extend : ℕ
sc_extend = 0xe0

abbrev pub sc_pause : ℕ
sc_pause = 0xe1

abbrev pub sc_resend : ℕ
sc_resend = 0xfe

abbrev pub sc_reset : ℕ
sc_reset = 0xaa

abbrev pub sc_up_bit : ℕ
sc_up_bit = 0x80

-- The packet at the head of the ring gets its key data and its timestamp, and is passed on.
unfoldable pub put_packet : Config → ℕ → ℕ → Keyboard → Keyboard
unfolding clock_get_uptime
put_packet c b0 b1 k =
    let asked = clock_get_uptime c k in
    let keyed = write_head (write_head k.ring 0 b0) 1 b1 in
    let timed = record keyed {
      buffer = set_block keyed.buffer (keyed.head + packet_time_offset) (le_bytes 8 asked.0);
    } in
    record asked.1 { ring = advance_head ring_size timed packet_length }

-- `(extended << 8) | (data & ~kSC_UpBit)`: the two parts have no bit in common.
unfoldable pub raw_key_code : ℕ → ℕ → ℕ
raw_key_code extended byte = extended * 256 + (byte & 0x7f)

-- `_PS2flags[keyCodeRaw] & kBreaklessKey`
unfoldable pub is_breakless : Config → ℕ → Bool
is_breakless c raw = nz (get_or c.ps2_flags raw 0 & breakless_key)

unfoldable pub goes_up : ℕ → Bool
goes_up byte = nz (byte & sc_up_bit)

-- "Update our key bit vector, which maintains the up/down status of all keys." A make of a key that
-- is down is a repeat.
unfoldable pub is_repeat : Config → Keyboard → ℕ → ℕ → Bool
unfolding is_breakless goes_up
is_repeat c k extended byte =
    let raw = raw_key_code extended byte in
    not (is_breakless c raw) && not (goes_up byte) && kbv_is_keydown k raw

unfoldable pub update_bits : Config → ℕ → ℕ → Keyboard → Keyboard
unfolding is_breakless goes_up
update_bits c extended byte k =
    let raw = raw_key_code extended byte in
    if is_breakless c raw then k else if goes_up byte then kbv_keyup k raw else kbv_keydown k raw

-- A scan code, "packetize it"
unfoldable pub scan_code : Config → ℕ → ℕ → Keyboard → Keyboard × Ps2InterruptResult
unfolding update_bits is_repeat
scan_code c extended byte k =
    if is_repeat c k extended byte
    then (k, packet_buffering)
    else (put_packet c (u8 (extended + 1)) byte (update_bits c extended byte k), packet_ready)

-- `if (!_extendCount || 0 == --_extendCount)`
unfoldable pub count_down : Config → ℕ → Keyboard → Keyboard × Ps2InterruptResult
unfolding scan_code
count_down c byte k =
    if k.extend_count == 0
    then scan_code c 0 byte k
    else if k.extend_count - 1 == 0
    then scan_code c k.extend_count byte (record k { extend_count = 0 })
    else (record k { extend_count = k.extend_count - 1 }, packet_buffering)

unfoldable pub interrupt_occurred : Config → Keyboard → ℕ → Keyboard × Ps2InterruptResult
unfolding count_down
interrupt_occurred c k0 byte =
    if k0.last_data == sc_reset && byte == 0
    then (record (put_packet c 0x00 sc_reset k0) { extend_count = 0 }, packet_ready)
    else let k = record k0 { last_data = byte } in
      if byte == sc_acknowledge || byte == sc_resend
      then (k, packet_buffering)
      else if byte == sc_extend
      then (record k { extend_count = 1 }, packet_buffering)
      else if byte == sc_pause
      then (record k { extend_count = 2 }, packet_buffering)
      else count_down c byte k
