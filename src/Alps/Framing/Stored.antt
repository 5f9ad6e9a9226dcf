-- ===== src/Alps/Framing/Stored.antt =====
-- The driver in the middle of a well-formed packet, of which some bytes are stored.
use voodoo_ps2_alps.Base.{
  ℕ, ◌+◌, ◌-◌, ◌<◌, List, ◌≡◌, refl, ◌∙◌, arith, Bool, false, if◌then◌else◌, ◌==◌, at, length,
  get_or-set_self, get_or-set_ne, length-set, tabulate_ext, tabulate-get_or,
}
use voodoo_ps2_alps.RingBuffer.{RingBuffer, write_head, read_head, read_tail, advance_head}
use voodoo_ps2_alps.RingBuffer.Bounds.{IsValid}
use voodoo_ps2_alps.Alps.Types.{Driver, AlpsData}
use voodoo_ps2_alps.Alps.Framing.{
  ring_size, packet_ready, packet_buffering, is_bare, is_invalid, begin, append, accept,
  interrupt_occurred, tail_packet,
}
use voodoo_ps2_alps.Alps.Framing.Sync.{IsSynced, is_bare-ext}

-- A packet that passes every check on the way: it has the right length, its first byte is not that
-- of a bare PS/2 packet, and no check fails after any number of its bytes.
pub record IsFrame (priv : AlpsData) (packet : List ℕ) : Type 0 where
  pub long : length packet ≡ priv.pktsize
  pub not_bare : is_bare priv (at packet) ≡ false
  pub passes : (n : ℕ) → n < priv.pktsize → is_invalid priv (at packet) n ≡ false

-- The checks after n bytes look at the first byte and at the n bytes only.
is_invalid-ext :
    (priv : AlpsData) (p q : ℕ → ℕ) (n : ℕ)
    → p 0 ≡ q 0
    → ((i : ℕ) → i < n → p i ≡ q i)
    → is_invalid priv p n ≡ is_invalid priv q n
unfolding is_invalid
is_invalid-ext priv p q n e h = ground (arith, h (n - 1), h 2, h 3, h 5)

-- Only the ring, the byte count and the flag differ from `d`.
abbrev pub holding : Driver → RingBuffer → ℕ → Bool → Driver
holding d ring k b = record d {
  ring = ring;
  packet_byte_count = k;
  priv = record (d.priv) { bad_data = b };
}

flag_bare :
    (priv : AlpsData) (b : Bool) (p : ℕ → ℕ)
    → is_bare (record priv { bad_data = b }) p ≡ is_bare priv p
unfolding is_bare
flag_bare priv b p = refl

flag_invalid :
    (priv : AlpsData) (b : Bool) (p : ℕ → ℕ) (n : ℕ)
    → is_invalid (record priv { bad_data = b }) p n ≡ is_invalid priv p n
unfolding is_invalid
flag_invalid priv b p n = refl

module _ (d : Driver) (packet : List ℕ) where
  -- The ring when k bytes of the packet are stored
  pub record Stored (k : ℕ) (ring : RingBuffer) : Type 0 where
    pub ring_valid : IsValid ring_size ring
    pub same_head : ring.head ≡ d.ring.head
    pub same_tail : ring.tail ≡ d.ring.tail
    pub bytes : (i : ℕ) → i < k → read_head ring i ≡ at packet i

  -- The ring when the checks for byte k are made, and when the byte is stored
  abbrev checked : RingBuffer → ℕ → RingBuffer
  checked ring k = if k == 0 then write_head ring 0 (at packet k) else ring

  abbrev pub next : RingBuffer → ℕ → RingBuffer
  next ring k = write_head (checked ring k) k (at packet k)

module _ {d : Driver} {packet : List ℕ} (v : IsSynced d) (frame : IsFrame d.priv packet) where
  module _ {k : ℕ} {ring : RingBuffer} (h : Stored d packet k ring)
      (more : k < d.priv.pktsize) where
    room : ring.head + k < length ring.buffer
    room = ground (arith, h.ring_valid, v.aligned, v.size, v.valid)

    checked_first : read_head (checked d packet ring k) 0 ≡ at packet 0
    unfolding read_head write_head
    checked_first =
        ground (arith, h.bytes 0, get_or-set_self ring.buffer (ring.head + 0) (at packet k) 0, room)

    checked_bytes : (i : ℕ) → i < k → read_head (checked d packet ring k) i ≡ at packet i
    unfolding read_head write_head
    checked_bytes i p = ground (arith, h.bytes i)

    frame_bare :
        is_bare (record (d.priv) { bad_data = false }) (read_head (checked d packet ring k)) ≡ false
    frame_bare =
        flag_bare d.priv false (read_head (checked d packet ring k))
        ∙ is_bare-ext d.priv (read_head (checked d packet ring k)) (at packet) checked_first
        ∙ frame.not_bare

    frame_valid :
        is_invalid (record (d.priv) { bad_data = false }) (read_head (checked d packet ring k)) k
        ≡ false
    frame_valid =
        flag_invalid d.priv false (read_head (checked d packet ring k)) k
        ∙ is_invalid-ext d.priv (read_head (checked d packet ring k)) (at packet) k checked_first
            checked_bytes
        ∙ frame.passes k more

    pub next-Stored : Stored d packet (k + 1) (next d packet ring k)
    unfolding write_head read_head
    next-Stored = record {
      ring_valid = ground (
        arith,
        h.ring_valid,
        length-set ring.buffer (ring.head + 0) (at packet k),
        length-set (checked d packet ring k).buffer (ring.head + k) (at packet k),
      );
      same_head = ground (arith, h.same_head);
      same_tail = ground (arith, h.same_tail);
      bytes = λ i p. ground (
        arith,
        room,
        checked_bytes i,
        length-set ring.buffer (ring.head + 0) (at packet k),
        get_or-set_self (checked d packet ring k).buffer (ring.head + k) (at packet k) 0,
        get_or-set_ne (checked d packet ring k).buffer (ring.head + k) (ring.head + i) (at packet k)
            0,
      );
    }

    interrupt_frame :
        (b : Bool)
        → interrupt_occurred (holding d ring k b) (at packet k)
          ≡ accept (holding d (checked d packet ring k) k false) (at packet k)
    unfolding interrupt_occurred begin
    interrupt_frame b = ground (arith, frame_bare, frame_valid)

    pub interrupt_more :
        (b : Bool)
        → k + 1 < d.priv.pktsize
        → interrupt_occurred (holding d ring k b) (at packet k)
          ≡ (holding d (next d packet ring k) (k + 1) false, packet_buffering)
    unfolding accept append
    interrupt_more b less = rw (interrupt_frame b) (ground arith)

    pub holding-IsSynced : (b : Bool) → IsSynced (holding d ring k b)
    holding-IsSynced b = ground (
      arith,
      v.valid,
      v.size,
      h.ring_valid,
      frame.not_bare,
      h.bytes 0,
      flag_bare d.priv b (read_head ring),
      is_bare-ext d.priv (read_head ring) (at packet),
    )

    -- the ring that is passed on
    abbrev pub passed : RingBuffer
    passed = advance_head ring_size (next d packet ring k) d.priv.pktsize

    pub interrupt_last :
        (b : Bool)
        → k + 1 ≡ d.priv.pktsize
        → interrupt_occurred (holding d ring k b) (at packet k)
          ≡ (holding d passed (k + 1) false, packet_ready)
    unfolding accept append
    interrupt_last b last = rw (interrupt_frame b) (ground arith)

    passed_byte : (i : ℕ) → i < k + 1 → read_tail passed i ≡ at packet i
    unfolding advance_head read_tail read_head
    passed_byte i p =
        ground (arith, next-Stored.bytes i, next-Stored.same_head, next-Stored.same_tail, v.empty)

    pub passed-packet :
        k + 1 ≡ d.priv.pktsize → tail_packet (holding d passed (k + 1) false) ≡ packet
    unfolding tail_packet
    passed-packet last =
        tabulate_ext d.priv.pktsize (read_tail passed) (at packet)
          (λ i p. passed_byte i (omega arith))
        ∙ rw (← frame.long) (tabulate-get_or packet 0)
