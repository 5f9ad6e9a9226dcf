-- ===== src/Keyboard/Delivery/Loop.antt =====
-- `packetReady` takes every packet out of the ring, and ends.
use voodoo_ps2_alps.Base.{
  ℕ, zero, suc, ◌-◌, ◌≤◌, ◌<◌, ◌≡◌, refl, ◌∙◌, ap, sym, subst, arith, List, [], ◌∷◌, Bool, true,
  false, Option, none, some, leb,
}
use voodoo_ps2_alps.RingBuffer.{RingBuffer, count, advance_tail}
use voodoo_ps2_alps.Alps.Framing.{Ps2InterruptResult, packet_ready, packet_buffering}
use voodoo_ps2_alps.Keyboard.Packets.{packet_length}
use voodoo_ps2_alps.Keyboard.Types.{Config, Keyboard, ring_size, emit}
use voodoo_ps2_alps.Keyboard.Macros.Observe.{invert_same}
use voodoo_ps2_alps.Keyboard.Interrupt.{interrupt_occurred, count_down, scan_code}
use voodoo_ps2_alps.Keyboard.Interrupt.Valid.{IsValid, interrupt_occurred-IsValid}
use voodoo_ps2_alps.Keyboard.Dispatch.{dispatch, track_modifier}
use voodoo_ps2_alps.Keyboard.Dispatch.Frame.{dispatch-Frame}
use voodoo_ps2_alps.Keyboard.Delivery.{
  host, is_inverted, handle_packet, tail_packet, next_packet, packet_loop, packet_ready_all,
  after_interrupt, receive, receive_all,
}

-- The part of the state that the packets do not change
abbrev Input : Type 0
Input = RingBuffer × ℕ × ℕ × List Bool

abbrev input : Keyboard → Input
input k = (k.ring, k.extend_count, k.last_data, k.key_bits)

dispatch-input :
    (c : Config) (packet : List ℕ) (k : Keyboard) → input (dispatch c packet k) ≡ input k
unfolding track_modifier
dispatch-input c packet k = ground (arith, dispatch-Frame c packet k)

inverted-input :
    (c : Config) (packet : List ℕ) (k : Keyboard) → input (is_inverted c packet k).0 ≡ input k
unfolding is_inverted host
inverted-input c packet k = by_table c.macro_inversion refl
  where
    by_table :
        (o : Option (List (List ℕ)))
        → c.macro_inversion ≡ o
        → input (is_inverted c packet k).0 ≡ input k
    by_table none e = ground (arith, e)
    by_table (some macros) e = ground (
      arith,
      e,
      invert_same (host c) input (dispatch-input c) (λ time k. unfold emit in refl)
          (λ k. unfold emit in refl) macros c.macro_max_time packet k.macros k,
    )

handle-input :
    (c : Config) (packet : List ℕ) (k : Keyboard) → input (handle_packet c packet k) ≡ input k
unfolding handle_packet
handle-input c packet k =
    let r = is_inverted c packet k in
    ground (arith, inverted-input c packet k, dispatch-input c packet r.0)

next_packet-ring :
    (c : Config) (k : Keyboard)
    → (next_packet c k).ring ≡ advance_tail ring_size k.ring packet_length
unfolding next_packet
next_packet-ring c k = ground (arith, handle-input c (tail_packet k) k)

next_packet-input :
    (c : Config) (k : Keyboard)
    → input (next_packet c k)
      ≡ (advance_tail ring_size k.ring packet_length, k.extend_count, k.last_data, k.key_bits)
unfolding next_packet
next_packet-input c k = ground (arith, handle-input c (tail_packet k) k)

next_packet-IsValid : (c : Config) (k : Keyboard) → IsValid k → IsValid (next_packet c k)
unfolding advance_tail
next_packet-IsValid c k v = ground (arith, next_packet-input c k)

-- A valid driver whose ring is empty
pub record IsIdle (k : Keyboard) : Type 0 where
  pub valid : IsValid k
  pub empty : k.ring.tail ≡ k.ring.head

-- A round takes a packet out.
next_packet-count :
    (c : Config) (k : Keyboard)
    → IsValid k
    → packet_length ≤ count ring_size k.ring
    → count ring_size (next_packet c k).ring ≡ count ring_size k.ring - packet_length
unfolding count advance_tail
next_packet-count c k v h = ground (arith, next_packet-ring c k)

few-IsIdle : (k : Keyboard) → IsValid k → count ring_size k.ring < packet_length → IsIdle k
unfolding count
few-IsIdle k v h = record { valid = v; empty = ground arith }

loop-IsIdle :
    (c : Config) (rounds : ℕ) (k : Keyboard)
    → IsValid k
    → count ring_size k.ring ≤ rounds
    → IsIdle (packet_loop c rounds k)
unfolding packet_loop
loop-IsIdle c zero k v h = few-IsIdle k v (omega arith)
loop-IsIdle c (suc rounds) k v h =
    by_test (λ p q. loop-IsIdle c rounds (next_packet c k) p q)
      (leb packet_length (count ring_size k.ring)) refl
  where
    by_test :
        (IsValid (next_packet c k)
          → count ring_size (next_packet c k).ring ≤ rounds
          → IsIdle (packet_loop c rounds (next_packet c k)))
        → (b : Bool) → leb packet_length (count ring_size k.ring) ≡ b
        → IsIdle (elim b [ false ↦ k | true ↦ packet_loop c rounds (next_packet c k) ])
    by_test later false e = few-IsIdle k v (ground arith)
    by_test later true e =
        let enough : packet_length ≤ count ring_size k.ring = ground arith in
        later (next_packet-IsValid c k v) (omega (arith, next_packet-count c k v enough))

-- From any valid state, `packetReady` ends (after as many rounds as there are packets) with an empty
-- ring and a valid state.
pub packet_ready_all-IsIdle :
    (c : Config) (k : Keyboard) → IsValid k → IsIdle (packet_ready_all c k)
unfolding packet_ready_all
packet_ready_all-IsIdle c k v = loop-IsIdle c (count ring_size k.ring) k v (omega arith)

buffering-ring :
    (c : Config) (k : Keyboard) (byte : ℕ)
    → (interrupt_occurred c k byte).1 ≡ packet_buffering
    → (interrupt_occurred c k byte).0.ring ≡ k.ring
unfolding interrupt_occurred count_down scan_code
buffering-ring c k byte e = ground arith

-- When packetReady runs after each byte that asks for it, the ring of a driver that starts with an
-- empty one is empty again before the next byte, whatever the bytes are: so every packet has room
-- in it.
pub receive_all-IsIdle :
    (c : Config) (k : Keyboard) (bytes : List ℕ) → IsIdle k → IsIdle (receive_all c k bytes)
unfolding receive_all receive
receive_all-IsIdle c k [] i = i
receive_all-IsIdle c k (byte ∷ bytes) i =
    receive_all-IsIdle c (receive c k byte) bytes (by_result (interrupt_occurred c k byte) refl)
  where
    by_result :
        (r : Keyboard × Ps2InterruptResult)
        → interrupt_occurred c k byte ≡ r
        → IsIdle (after_interrupt c r)
    by_result (k', packet_ready) e =
        packet_ready_all-IsIdle c k'
          (subst (λ t. IsValid t.0) e (interrupt_occurred-IsValid c k byte i.valid))
    by_result (k', packet_buffering) e =
        let same : k'.ring ≡ k.ring =
          ap (λ (t : Keyboard × Ps2InterruptResult). t.0.ring) (sym e)
          ∙ buffering-ring c k byte (ap (λ (t : Keyboard × Ps2InterruptResult). t.1) e) in
        record {
          valid = subst (λ t. IsValid t.0) e (interrupt_occurred-IsValid c k byte i.valid);
          empty = cc (same, i.empty);
        }
