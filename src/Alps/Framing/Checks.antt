-- ===== src/Alps/Framing/Checks.antt =====
-- What the checks of `interruptOccurred` do and do not see.
use voodoo_ps2_alps.Base.{
  ℕ, ◌+◌, ◌≤◌, ◌<◌, [], ◌∷◌, ◌≡◌, ◌≢◌, ◌∙◌, ap, refl, subst, arith, some, true,
}
use voodoo_ps2_alps.RingBuffer.{read_head}
use voodoo_ps2_alps.Alps.Types.{Driver, Handled}
use voodoo_ps2_alps.Alps.Framing.{
  Ps2InterruptResult, packet_ready, packet_buffering, is_bare, begin, append, accept, give_up,
  interrupt_occurred, finish, receive, receive_all,
}
use voodoo_ps2_alps.Alps.Framing.Sync.{
  IsSynced, IsFull, is_bare-ext, begun_first, read_first, interrupt_buffering, interrupt_ready,
}
use voodoo_ps2_alps.Alps.Framing.Receive.{round, receive_buffering, receive_ready, receive_all-cons}

-- Behind the first byte of a packet, what the interrupt routine returns, and whether it marks the
-- packet as bad, does not depend on the byte that it is given: each byte is checked only when the
-- next one comes, so the last byte of a packet never is.
pub interrupt_blind :
    (d : Driver) (a b : ℕ)
    → 0 < d.packet_byte_count
    → ((interrupt_occurred d a).1 ≡ (interrupt_occurred d b).1)
      × ((interrupt_occurred d a).0.priv.bad_data ≡ (interrupt_occurred d b).0.priv.bad_data)
unfolding interrupt_occurred begin accept append give_up
interrupt_blind d a b h = ground arith

-- If bytes come while a complete packet still waits for the packet routine, none of them completes
-- a packet: all that the interrupt routine then passes on is marked as bad.
pub late_bytes_bad :
    (d : Driver) (byte : ℕ)
    → d.priv.pktsize ≤ d.packet_byte_count
    → 0 < d.packet_byte_count
    → (interrupt_occurred d byte).1 ≡ packet_ready
    → (interrupt_occurred d byte).0.priv.bad_data ≡ true
unfolding interrupt_occurred begin accept append give_up
late_bytes_bad d byte h p e = ground arith

module _ (d : Driver) (byte : ℕ) where
  -- a byte that starts a bare packet, or goes on with one
  bare_more :
      is_bare d.priv (read_head (begin d byte).ring) ≡ true
      → d.packet_byte_count ≢ 3
      → interrupt_occurred d byte ≡ (append (begin d byte) byte, packet_buffering)
  unfolding interrupt_occurred begin is_bare
  bare_more h n = ground arith

  bare_last :
      is_bare d.priv (read_head (begin d byte).ring) ≡ true
      → d.packet_byte_count ≡ 3
      → interrupt_occurred d byte ≡ give_up (begin d byte)
  unfolding interrupt_occurred begin is_bare
  bare_last h n = ground arith

-- A driver in the middle of a bare packet of which k bytes are stored
record InBare (k : ℕ) (c : Driver) : Type 0 where
  in_synced : IsSynced c
  in_count : c.packet_byte_count ≡ k
  in_bare : is_bare c.priv (read_head c.ring) ≡ true

module _ {c : Driver} (byte : ℕ) (v : IsSynced c) where
  module _ (bare : is_bare (begin c byte).priv (read_head (begin c byte).ring) ≡ true) where
    bare_again :
        is_bare (append (begin c byte) byte).priv (read_head (append (begin c byte) byte).ring)
        ≡ true
    bare_again =
        is_bare-ext (append (begin c byte) byte).priv (read_head (append (begin c byte) byte).ring)
          (read_head (begin c byte).ring) (read_first byte v)
        ∙ (unfold append in bare)

    bare_count : (append (begin c byte) byte).packet_byte_count ≡ c.packet_byte_count + 1
    unfolding append begin
    bare_count = refl

    bare_step :
        c.packet_byte_count < 3
        → (c' : Driver) × (receive c byte ≡ some (c', [])) × InBare (c.packet_byte_count + 1) c'
    unfolding begin is_bare
    bare_step short =
        let c' = append (begin c byte) byte in
        let e : interrupt_occurred c byte ≡ (c', packet_buffering) =
          bare_more c byte bare (omega arith) in
        (
          c',
          receive_buffering c byte e,
          record {
            in_synced =
                subst (λ (t : Driver × Ps2InterruptResult). t.1 ≡ packet_buffering → IsSynced t.0) e
                  (interrupt_buffering byte v) refl;
            in_count = bare_count;
            in_bare = bare_again;
          },
        )

    bare_end :
        c.packet_byte_count ≡ 3
        → (c' : Driver) × (receive c byte ≡ some (c', []))
          × IsSynced c'
          × (c'.packet_byte_count ≡ 0)
    unfolding begin is_bare give_up finish
    bare_end full =
        let e : interrupt_occurred c byte ≡ give_up (begin c byte) = bare_last c byte bare full in
        let c' = (give_up (begin c byte)).0 in
        let ready : IsFull c' =
          subst (λ (t : Driver × Ps2InterruptResult). t.1 ≡ packet_ready → IsFull t.0) e
            (interrupt_ready byte v) refl in
        let (r, one) = round c' ready in
        let gone : r ≡ (finish c', []) = one.dropped refl in
        (
          finish c',
          receive_ready c byte e ready one ∙ ap some gone,
          subst (λ (t : Handled). IsSynced t.0) gone one.synced,
          refl,
        )

begin_bare :
    (c : Driver) (byte : ℕ)
    → 0 < c.packet_byte_count
    → is_bare c.priv (read_head c.ring) ≡ true
    → is_bare (begin c byte).priv (read_head (begin c byte).ring) ≡ true
unfolding begin is_bare
begin_bare c byte h b = ground arith

-- A byte that follows, in the middle of a bare packet
bare_next :
    {k : ℕ} {c : Driver} (byte : ℕ)
    → 0 < k
    → InBare k c
    → is_bare (begin c byte).priv (read_head (begin c byte).ring) ≡ true
bare_next byte h i = begin_bare _ byte (omega (arith, i.in_count)) i.in_bare

bare_more_step :
    {k : ℕ} {c : Driver} (byte : ℕ)
    → 0 < k
    → k < 3
    → InBare k c
    → (c' : Driver) × (receive c byte ≡ some (c', [])) × InBare (k + 1) c'
bare_more_step byte h p i =
    let (c', e, j) = bare_step byte i.in_synced (bare_next byte h i) (omega (arith, i.in_count)) in
    (c', e, subst (λ (n : ℕ). InBare n c') (ap (λ (n : ℕ). n + 1) i.in_count) j)

-- A driver that waits for a packet, and gets a byte that starts a bare PS/2 packet, sends nothing
-- out for that byte and the three behind it, whatever they are, and waits for a packet again. A
-- bare packet has three bytes, so the fourth, the first byte of the next packet, is lost.
pub bare_swallows_four :
    (d : Driver) (a b c e : ℕ)
    → IsSynced d
    → d.packet_byte_count ≡ 0
    → is_bare d.priv (λ i. a) ≡ true
    → (d' : Driver) × (receive_all d (a ∷ b ∷ c ∷ e ∷ []) ≡ some (d', []))
      × IsSynced d'
      × (d'.packet_byte_count ≡ 0)
unfolding receive_all
bare_swallows_four d a b c e v start bare =
    let first =
      is_bare-ext d.priv (read_head (begin d a).ring) (λ i. a)
        (begun_first a v (unfold begin in start))
      ∙ bare in
    let (d1, e1, s1) = bare_step a v (unfold begin is_bare in first) (omega (arith, start)) in
    let i1 = subst (λ (n : ℕ). InBare n d1) (ap (λ (n : ℕ). n + 1) start) s1 in
    let (d2, e2, i2) = bare_more_step b (omega arith) (omega arith) i1 in
    let (d3, e3, i3) = bare_more_step c (omega arith) (omega arith) i2 in
    let (d4, e4, v4, done) = bare_end e i3.in_synced (bare_next e (omega arith) i3) i3.in_count in
    (
      d4,
      receive_all-cons d a (b ∷ c ∷ e ∷ []) e1 (
          receive_all-cons d1 b (c ∷ e ∷ []) e2
            (receive_all-cons d2 c (e ∷ []) e3 (receive_all-cons d3 e [] e4 refl))),
      v4,
      done,
    )
