-- ===== src/Alps/Framing/Packet.antt =====
-- A well-formed packet that the device sends arrives at the packet handler, byte for byte.
use voodoo_ps2_alps.Base.{
  ℕ, suc, ◌+◌, ◌<◌, List, [], ◌∷◌, ◌≡◌, refl, subst, sym, ◌∙◌, ap, ap₂, arith, Option, some, Bool,
  false, at, append-nil, length,
}
use voodoo_ps2_alps.RingBuffer.{RingBuffer}
use voodoo_ps2_alps.Alps.Types.{Driver, Handled, Action}
use voodoo_ps2_alps.Alps.Process.{process}
use voodoo_ps2_alps.Alps.Framing.{
  Ps2InterruptResult, packet_ready, interrupt_occurred, tail_packet, finish, receive, receive_all,
}
use voodoo_ps2_alps.Alps.Framing.Sync.{IsSynced, IsFull, interrupt_ready}
use voodoo_ps2_alps.Alps.Framing.Receive.{
  Round, round, receive_buffering, receive_ready, receive_all-cons,
}
use voodoo_ps2_alps.Alps.Framing.Stored.{
  IsFrame, holding, Stored, next, next-Stored, interrupt_more, interrupt_last, holding-IsSynced,
  passed, passed-packet,
}

-- The packet was handed to its handler, whose calls are what is sent out; the handler saw the
-- driver as it was, but for the ring, the byte count and the flag; and the round was finished.
pub record Delivered (d : Driver) (packet : List ℕ) (out : Option Handled) : Type 0 where
  pub ring : RingBuffer
  pub handled : Handled
  pub process_lem : process (holding d ring d.priv.pktsize false) packet ≡ some handled
  pub out_lem : out ≡ some (finish handled.0, handled.1)

module _ {d : Driver} {packet : List ℕ} (v : IsSynced d) (frame : IsFrame d.priv packet) where
  receive_last :
      (k : ℕ) (ring : RingBuffer) (b : Bool)
      → Stored d packet k ring
      → k + 1 ≡ d.priv.pktsize
      → Delivered d packet (receive (holding d ring k b) (at packet k))
  receive_last k ring b h last =
      let more : k < d.priv.pktsize = omega arith in
      let c = holding d (passed v frame h more) (k + 1) false in
      let e = interrupt_last v frame h more b last in
      let full : IsFull c =
        subst (λ (t : Driver × Ps2InterruptResult). t.1 ≡ packet_ready → IsFull t.0) e
          (interrupt_ready (at packet k) (holding-IsSynced v frame h more b)) refl in
      delivered c full (rw last refl) (passed-packet v frame h more last) (round c full) e
    where
      delivered :
          (c : Driver) (full : IsFull c)
          → c ≡ holding d c.ring d.priv.pktsize false
          → tail_packet c ≡ packet
          → (r : Handled) × Round c r
          → interrupt_occurred (holding d ring k b) (at packet k) ≡ (c, packet_ready)
          → Delivered d packet (receive (holding d ring k b) (at packet k))
      delivered c full same bytes (r, one) e =
          let (d', run, final) = one.passed_on (ap (λ (t : Driver). t.priv.bad_data) same) in
          record {
            ring = c.ring;
            handled = (d', r.1);
            process_lem = sym (ap₂ process same bytes) ∙ run;
            out_lem =
                receive_ready (holding d ring k b) (at packet k) e full one
                ∙ ap some (λ i. (final i, r.1));
          }

  collect :
      (xs : List ℕ) (k : ℕ) (ring : RingBuffer) (b : Bool)
      → Stored d packet k ring
      → ((i : ℕ) → i < length xs → at xs i ≡ at packet (k + i))
      → k + length xs ≡ d.priv.pktsize
      → 0 < length xs
      → Delivered d packet (receive_all (holding d ring k b) xs)
  unfolding receive_all
  collect [] k ring b h same sum some_left = absurd (omega arith)
  collect (x ∷ []) k ring b h same sum some_left =
      let first : x ≡ at packet k = same 0 (omega arith) ∙ ap (at packet) (omega arith) in
      let out = receive_last k ring b h (omega arith) in
      record {
        ring = out.ring;
        handled = out.handled;
        process_lem = out.process_lem;
        out_lem =
            receive_all-cons (holding d ring k b) x [] (rw first out.out_lem) refl
            ∙ ap (λ (l : List Action). some (finish out.handled.0, l)) (append-nil out.handled.1);
      }
  collect (x ∷ y ∷ xs) k ring b h same sum some_left =
      let first : x ≡ at packet k = same 0 (omega arith) ∙ ap (at packet) (omega arith) in
      let less : k + 1 < d.priv.pktsize = omega arith in
      let more : k < d.priv.pktsize = omega arith in
      let out =
        collect (y ∷ xs) (k + 1) (next d packet ring k) false (next-Stored v frame h more)
          (λ i p. same (suc i) (omega arith) ∙ ap (at packet) (omega arith)) (omega arith)
          (omega arith) in
      record {
        ring = out.ring;
        handled = out.handled;
        process_lem = out.process_lem;
        out_lem =
            receive_all-cons (holding d ring k b) x (y ∷ xs)
              {r = (holding d (next d packet ring k) (k + 1) false, [])}
              (rw first (
                receive_buffering (holding d ring k b) (at packet k)
                  (interrupt_more v frame h more b less)))
              out.out_lem;
      }

-- A packet that passes every check, sent byte by byte to a synchronised driver that waits for a
-- packet, is handed to the handler as it was sent, and its calls are what comes out.
pub packet-Delivered :
    (d : Driver) (packet : List ℕ)
    → IsSynced d
    → IsFrame d.priv packet
    → d.packet_byte_count ≡ 0
    → Delivered d packet (receive_all d packet)
packet-Delivered d packet v frame start =
    subst (λ (t : Driver). Delivered d packet (receive_all t packet))
      (λ i. record d { packet_byte_count = sym start i })
      (collect v frame packet 0 d.ring d.priv.bad_data
        (record {
          ring_valid = v.valid;
          same_head = refl;
          same_tail = refl;
          bytes = λ i p. elim p [ ];
        })
        (λ i p. ap (at packet) (omega arith)) (omega (arith, frame.long))
        (omega (arith, frame.long, v.size)))
