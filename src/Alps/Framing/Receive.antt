-- ===== src/Alps/Framing/Receive.antt =====
-- What a byte does to a synchronised driver: the packet loop ends, and synchronisation is kept.
use voodoo_ps2_alps.Base.{
  ℕ, suc, List, [], ◌∷◌, ◌++◌, ◌≡◌, ◌≢◌, ◌⊎◌, inl, inr, refl, ap, ◌∙◌, arith, some, true, false,
  Bool-cases, append-nil,
}
use voodoo_ps2_alps.RingBuffer.{count}
use voodoo_ps2_alps.Alps.Types.{
  Driver, Handled, ProcessPacket, process_null, process_v1_v2, process_v3, process_touchpad_v3_v5,
  process_v4, process_v7, process_ss4_v2,
}
use voodoo_ps2_alps.Alps.Process.{process, process_by}
use voodoo_ps2_alps.Alps.Framing.{
  ring_size, Ps2InterruptResult, packet_ready, packet_buffering, interrupt_occurred, tail_packet,
  finish, handle_packet, packet_loop, packet_ready_all, after_interrupt, receive, receive_all,
}
use voodoo_ps2_alps.Alps.Framing.Frame.{process-SameFrame}
use voodoo_ps2_alps.Alps.Framing.Sync.{
  IsSynced, IsFull, finish-IsSynced, full_count, frame-IsFull, interrupt_buffering, interrupt_ready,
}

by_total :
    (h : ProcessPacket) (d : Driver) (p : List ℕ)
    → h ≢ process_null
    → (r : Handled) × (process_by h d p ≡ some r)
unfolding process_by
by_total process_null d p e = absurd (e refl)
by_total process_v1_v2 d p e = (_, refl)
by_total process_v3 d p e = (_, refl)
by_total process_touchpad_v3_v5 d p e = (_, refl)
by_total process_v4 d p e = (_, refl)
by_total process_v7 d p e = (_, refl)
by_total process_ss4_v2 d p e = (_, refl)

process_total :
    (d : Driver) (p : List ℕ)
    → d.process_packet ≢ process_null
    → (r : Handled) × (process d p ≡ some r)
unfolding process
process_total d p e = by_total d.process_packet d p e

-- One round of the loop, on a ring that holds one packet: the packet is dropped if it is bad, and
-- else handed to the handler, whose state and calls are kept. The result is synchronised.
pub record Round (d : Driver) (r : Handled) : Type 0 where
  pub returned : handle_packet d ≡ some r
  pub synced : IsSynced r.0
  pub dropped : d.priv.bad_data ≡ true → r ≡ (finish d, [])
  pub passed_on :
      d.priv.bad_data ≡ false
      → (d' : Driver) × (process d (tail_packet d) ≡ some (d', r.1)) × (r.0 ≡ finish d')

pub round : (d : Driver) → IsFull d → (r : Handled) × Round d r
unfolding handle_packet
round d v = elim (Bool-cases d.priv.bad_data) [
  | inl bad ↦ (
    (finish d, []),
    record {
      returned = rw bad;
      synced = finish-IsSynced d v;
      dropped = λ b. refl;
      passed_on = λ g. cc;
    },
  )
  | inr good ↦ handed good (process_total d (tail_packet d) v.handled)
]
  where
    handed :
        d.priv.bad_data ≡ false
        → (r : Handled) × (process d (tail_packet d) ≡ some r)
        → (r : Handled) × Round d r
    handed good ((d', actions), e) = (
      (finish d', actions),
      record {
        returned = ground arith;
        synced = finish-IsSynced d' (frame-IsFull (process-SameFrame d (tail_packet d) e) v);
        dropped = λ b. cc;
        passed_on = λ g. (d', e, refl);
      },
    )

synced_count : (d : Driver) → IsSynced d → count ring_size d.ring ≡ 0
unfolding count
synced_count d v = ground arith

-- With a packet in the ring and two rounds or more, the loop makes one round and ends by its test.
loop_one :
    (rounds : ℕ) (d : Driver) {r : Handled}
    → IsFull d
    → Round d r
    → packet_loop (suc (suc rounds)) d ≡ some r
unfolding packet_loop
loop_one rounds d {r} v one =
    let size' = one.synced.size in
    ground (arith, one.returned, full_count d v, synced_count r.0 one.synced, size', append-nil r.1)

loop_size :
    (n : ℕ) (d : Driver) {r : Handled}
    → (n ≡ 6) ⊎ (n ≡ 8)
    → IsFull d
    → Round d r
    → packet_loop n d ≡ some r
loop_size n d s v one = elim s [
  | inl e ↦ rw e (loop_one 4 d v one)
  | inr e ↦ rw e (loop_one 6 d v one)
]

-- A ring with one packet: `packetReady` makes one round, and stops because the ring is empty.
pub ready_one : (d : Driver) {r : Handled} → IsFull d → Round d r → packet_ready_all d ≡ some r
unfolding packet_ready_all
ready_one d v one = loop_size (count ring_size d.ring) d (rw (full_count d v) v.size) v one

-- What follows from what the interrupt routine returns
pub receive_buffering :
    (d : Driver) (byte : ℕ) {c : Driver}
    → interrupt_occurred d byte ≡ (c, packet_buffering)
    → receive d byte ≡ some (c, [])
unfolding receive
receive_buffering d byte e = ap after_interrupt e

pub receive_ready :
    (d : Driver) (byte : ℕ) {c : Driver} {r : Handled}
    → interrupt_occurred d byte ≡ (c, packet_ready)
    → IsFull c
    → Round c r
    → receive d byte ≡ some r
unfolding receive
receive_ready d byte {c} e full one = ap after_interrupt e ∙ ready_one c full one

receive_total :
    (d : Driver) (byte : ℕ) → IsSynced d → (r : Handled) × (receive d byte ≡ some r) × IsSynced r.0
receive_total d byte v = by_result (interrupt_occurred d byte).1 refl
  where
    by_result :
        (result : Ps2InterruptResult)
        → (interrupt_occurred d byte).1 ≡ result
        → (r : Handled) × (receive d byte ≡ some r) × IsSynced r.0
    by_result packet_buffering e =
        let c = (interrupt_occurred d byte).0 in
        ((c, []), receive_buffering d byte (λ i. (c, e i)), interrupt_buffering byte v e)
    by_result packet_ready e =
        let c = (interrupt_occurred d byte).0 in
        let full = interrupt_ready byte v e in
        let (r, one) = round c full in
        (r, receive_ready d byte (λ i. (c, e i)) full one, one.synced)

pub receive_all-cons :
    (d : Driver) (byte : ℕ) (bytes : List ℕ) {r r' : Handled}
    → receive d byte ≡ some r
    → receive_all r.0 bytes ≡ some r'
    → receive_all d (byte ∷ bytes) ≡ some (r'.0, r.1 ++ r'.1)
unfolding receive_all
receive_all-cons d byte bytes e e' = rw (e, receive_all) (rw (e', receive_all))

-- If `packetReady` runs behind each byte that asks for it and before the next byte comes, then a
-- driver that is synchronised at first handles whatever bytes the device sends, without a call
-- through a null pointer: the packet loop ends each time by its own test, and the driver is
-- synchronised again.
pub receive_all_total :
    (bytes : List ℕ) (d : Driver)
    → IsSynced d
    → (r : Handled) × (receive_all d bytes ≡ some r) × IsSynced r.0
unfolding receive_all
receive_all_total [] d v = ((d, []), refl, v)
receive_all_total (byte ∷ bytes) d v =
    let (r, e, w) = receive_total d byte v in
    let (r', e', w') = receive_all_total bytes r.0 w in
    ((r'.0, r.1 ++ r'.1), receive_all-cons d byte bytes e e', w')
