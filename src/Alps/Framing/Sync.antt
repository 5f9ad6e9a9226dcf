-- ===== src/Alps/Framing/Sync.antt =====
-- The framing stays synchronised: between two bytes the ring is empty and aligned to packets.
use voodoo_ps2_alps.Base.{
  ℕ, ◌+◌, ◌%◌, ◌≤◌, ◌<◌, ◌≡◌, ◌≢◌, ◌⊎◌, inl, inr, arith, true, false, Bool-cases, length-set,
  get_or-set_self, get_or-set_ne, ◌==◌, if◌then◌else◌,
}
use voodoo_ps2_alps.RingBuffer.{count, write_head, read_head, advance_head, advance_tail}
use voodoo_ps2_alps.RingBuffer.Bounds.{IsValid}
use voodoo_ps2_alps.Alps.Types.{Driver, AlpsData, process_null}
use voodoo_ps2_alps.Alps.Framing.{
  ring_size, packet_ready, packet_buffering, is_bare, begin, append, accept, give_up,
  interrupt_occurred, finish,
}
use voodoo_ps2_alps.Alps.Framing.Frame.{SameFrame}

-- Between two bytes: nothing waits in the ring, the head is where a packet starts, and the packet
-- that is being stored is not complete.
pub record IsSynced (d : Driver) : Type 0 where
  pub valid : IsValid ring_size d.ring
  pub empty : d.ring.head ≡ d.ring.tail
  pub size : (d.priv.pktsize ≡ 6) ⊎ (d.priv.pktsize ≡ 8)
  pub aligned : d.ring.head % d.priv.pktsize ≡ 0
  pub partial : d.packet_byte_count < d.priv.pktsize
  pub bare_short : is_bare d.priv (read_head d.ring) ≡ true → d.packet_byte_count ≤ 3
  pub handled : d.process_packet ≢ process_null

-- After a packet was passed on: the ring holds just that packet.
pub record IsFull (d : Driver) : Type 0 where
  pub valid : IsValid ring_size d.ring
  pub size : (d.priv.pktsize ≡ 6) ⊎ (d.priv.pktsize ≡ 8)
  pub aligned : d.ring.tail % d.priv.pktsize ≡ 0
  pub one_packet :
      d.ring.head
      ≡ (if d.ring.tail + d.priv.pktsize == 192 then 0 else d.ring.tail + d.priv.pktsize)
  pub handled : d.process_packet ≢ process_null

pub finish-IsSynced : (d : Driver) → IsFull d → IsSynced (finish d)
unfolding finish advance_tail
finish-IsSynced d v = ground arith

pub full_count : (d : Driver) → IsFull d → count ring_size d.ring ≡ d.priv.pktsize
unfolding count
full_count d v = ground arith

pub frame-IsFull : {c d : Driver} → SameFrame c d → IsFull c → IsFull d
frame-IsFull s v = ground arith

pub is_bare-ext : (priv : AlpsData) (p q : ℕ → ℕ) → p 0 ≡ q 0 → is_bare priv p ≡ is_bare priv q
unfolding is_bare
is_bare-ext priv p q e = rw e

module _ {d : Driver} (byte : ℕ) (v : IsSynced d) where
  -- the state in which the checks are made
  abbrev pub begun : Driver
  begun = begin d byte

  begun_ring :
      IsValid ring_size begun.ring
      × (begun.ring.head ≡ d.ring.head)
      × (begun.ring.tail ≡ d.ring.tail)
  unfolding begin write_head
  begun_ring = ground (arith, length-set d.ring.buffer (d.ring.head + 0) byte)

  begun_rest :
      (begun.packet_byte_count ≡ d.packet_byte_count)
      × (begun.process_packet ≡ d.process_packet)
      × (begun.priv.pktsize ≡ d.priv.pktsize)
  unfolding begin
  begun_rest = ground arith

  give_up-IsFull : IsFull (give_up begun).0
  unfolding give_up advance_head
  give_up-IsFull = ground (arith, begun_ring, begun_rest)

  accept_ready-IsFull : (accept begun byte).1 ≡ packet_ready → IsFull (accept begun byte).0
  unfolding accept advance_head write_head
  accept_ready-IsFull h = ground (
    arith,
    begun_ring,
    begun_rest,
    length-set begun.ring.buffer (begun.ring.head + begun.packet_byte_count) byte,
  )

  -- The byte count is positive, or the first byte is written a second time.
  pub begun_first : begun.packet_byte_count ≡ 0 → read_head begun.ring 0 ≡ byte
  unfolding begin write_head read_head
  begun_first h = ground (arith, get_or-set_self d.ring.buffer (d.ring.head + 0) byte 0)

  pub read_first : read_head (append begun byte).ring 0 ≡ read_head begun.ring 0
  unfolding append write_head read_head
  read_first = ground (
    arith,
    begun_ring,
    begun_first,
    get_or-set_self begun.ring.buffer (begun.ring.head + begun.packet_byte_count) byte 0,
    get_or-set_ne begun.ring.buffer (begun.ring.head + begun.packet_byte_count)
        (begun.ring.head + 0) byte 0,
  )

  append-IsSynced :
      (is_bare begun.priv (read_head begun.ring) ≡ true → begun.packet_byte_count ≤ 2)
      → begun.packet_byte_count + 1 < begun.priv.pktsize
      → IsSynced (append begun byte)
  unfolding append write_head
  append-IsSynced short more = ground (
    arith,
    begun_ring,
    begun_rest,
    length-set begun.ring.buffer (begun.ring.head + begun.packet_byte_count) byte,
    is_bare-ext begun.priv (read_head (append begun byte).ring) (read_head begun.ring) read_first,
  )

  begun_short : is_bare begun.priv (read_head begun.ring) ≡ true → begun.packet_byte_count ≤ 3
  unfolding begin is_bare read_head
  begun_short h = ground (arith, v.bare_short)

  accept_buffering :
      is_bare begun.priv (read_head begun.ring) ≡ false
      → (accept begun byte).1 ≡ packet_buffering
      → IsSynced (accept begun byte).0
  unfolding accept
  accept_buffering b h =
      let more : begun.packet_byte_count + 1 < begun.priv.pktsize =
        unfold append in ground (arith, begun_rest) in
      ground (arith, append-IsSynced (λ e. cc) more)

  pub interrupt_buffering :
      (interrupt_occurred d byte).1 ≡ packet_buffering → IsSynced (interrupt_occurred d byte).0
  unfolding interrupt_occurred give_up
  interrupt_buffering h = elim (Bool-cases (is_bare begun.priv (read_head begun.ring))) [
    | inl bare ↦ ground (arith, begun_short bare, begun_rest, append-IsSynced)
    | inr other ↦ ground (arith, accept_buffering other)
  ]

  pub interrupt_ready :
      (interrupt_occurred d byte).1 ≡ packet_ready → IsFull (interrupt_occurred d byte).0
  unfolding interrupt_occurred
  interrupt_ready h = ground (arith, give_up-IsFull, accept_ready-IsFull)
