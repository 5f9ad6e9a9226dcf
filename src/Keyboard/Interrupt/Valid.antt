-- ===== src/Keyboard/Interrupt/Valid.antt =====
-- What `interruptOccurred` keeps: the ring holds whole packets and stays inside its array.
use voodoo_ps2_alps.Base.{
  ℕ, ◌+◌, ◌%◌, ◌≤◌, ◌<◌, ◌≡◌, arith, true, false, length, length-set, length-set_block, u8,
}
use voodoo_ps2_alps.Base.Bits.{bit_and-ones}
use voodoo_ps2_alps.RingBuffer.{advance_head, write_head, count}
use voodoo_ps2_alps.RingBuffer.Bounds
use voodoo_ps2_alps.Keyboard.Packets.{packet_length, le_bytes}
use voodoo_ps2_alps.Keyboard.Types.{
  Config, Keyboard, ring_size, kbv_keydown, kbv_keyup, clock_get_uptime,
}
use voodoo_ps2_alps.Keyboard.Interrupt.{
  interrupt_occurred, count_down, scan_code, update_bits, put_packet, raw_key_code,
}

pub record IsValid (k : Keyboard) : Type 0 where
  pub ring_valid : Bounds.IsValid ring_size k.ring
  pub head_aligned : k.ring.head % packet_length ≡ 0
  pub tail_aligned : k.ring.tail % packet_length ≡ 0
  pub prefix : k.extend_count ≤ 2
  pub bits : length k.key_bits ≡ 512

put_packet-IsValid :
    (c : Config) (b0 b1 : ℕ) (k : Keyboard) → IsValid k → IsValid (put_packet c b0 b1 k)
unfolding put_packet write_head advance_head count clock_get_uptime
put_packet-IsValid c b0 b1 k v =
    let t = le_bytes 8 (c.kernel.uptime k.asked) in
    let b = k.ring.buffer in
    ground (
      arith,
      length-set b (k.ring.head + 0) b0,
      length-set (write_head k.ring 0 b0).buffer (k.ring.head + 1) b1,
      length-set_block t (write_head (write_head k.ring 0 b0) 1 b1).buffer (k.ring.head + 8),
    )

pub update_bits-IsValid :
    (c : Config) (extended byte : ℕ) (k : Keyboard)
    → IsValid k
    → IsValid (update_bits c extended byte k)
unfolding update_bits kbv_keydown kbv_keyup
update_bits-IsValid c extended byte k v =
    let raw = raw_key_code extended byte in
    ground (arith, length-set k.key_bits raw true, length-set k.key_bits raw false)

scan_code-IsValid :
    (c : Config) (extended byte : ℕ) (k : Keyboard)
    → IsValid k
    → IsValid (scan_code c extended byte k).0
unfolding scan_code
scan_code-IsValid c extended byte k v =
    let bits = update_bits c extended byte k in
    ground (
      arith,
      put_packet-IsValid c (u8 (extended + 1)) byte bits (update_bits-IsValid c extended byte k v),
    )

count_down-IsValid :
    (c : Config) (byte : ℕ) (k : Keyboard) → IsValid k → IsValid (count_down c byte k).0
unfolding count_down
count_down-IsValid c byte k v =
    let k' = record k { extend_count = 0 } in
    ground (
      arith,
      scan_code-IsValid c 0 byte k v,
      scan_code-IsValid c k.extend_count byte k' (omega arith),
    )

-- Whatever byte comes in a valid state, the ring's indices stay inside its array and at the start
-- of a packet, the prefix counter is at most 2, and the key bit vector keeps its 512 bits.
pub interrupt_occurred-IsValid :
    (c : Config) (k : Keyboard) (byte : ℕ) → IsValid k → IsValid (interrupt_occurred c k byte).0
unfolding interrupt_occurred
interrupt_occurred-IsValid c k byte v = ground (
  arith,
  put_packet-IsValid c 0 0xaa k v,
  count_down-IsValid c byte (record k { last_data = byte }) (omega arith),
)

-- The key code that indexes the key bit vector and the flags is in their bounds. The byte that ends
-- a prefix of two bytes counts as extended: the prefix counter is then 1.
pub raw_key_code-bounded : (extended byte : ℕ) → extended ≤ 1 → raw_key_code extended byte < 512
unfolding raw_key_code
raw_key_code-bounded extended byte h = omega (arith, bit_and-ones 7 byte)
