-- ===== src/Keyboard/Interrupt/Stored.antt =====
-- The packet that `interruptOccurred` puts into the ring.
use voodoo_ps2_alps.Base.{
  ℕ, zero, suc, ◌+◌, ◌<◌, ◌≡◌, ◌^◌, refl, ◌∙◌, subst, ap, sym, arith, List, [], ◌∷◌, ◌++◌, length,
  set, set_block, set_block-append, get_or, at, tabulate, tabulate_ext,
}
use native.Mathlib.Nat.{suc-add, add-suc, add-zero}
use voodoo_ps2_alps.RingBuffer.{RingBuffer, advance_head, write_head, count}
use voodoo_ps2_alps.RingBuffer.Fifo.{contents, block_lem}
use voodoo_ps2_alps.Keyboard.Packets.{packet_time, le_bytes, length-le_bytes, from_le-le_bytes}
use voodoo_ps2_alps.Keyboard.Types.{Config, Keyboard, ring_size, clock_get_uptime}
use voodoo_ps2_alps.Keyboard.Interrupt.{put_packet}
use voodoo_ps2_alps.Keyboard.Interrupt.Valid.{IsValid}

set_same : (xs : List ℕ) (i : ℕ) → set xs i (get_or xs i 0) ≡ xs
set_same [] i = refl
set_same (x ∷ xs) zero = refl
set_same (x ∷ xs) (suc i) = ap (λ l. x ∷ l) (set_same xs i)

-- Bytes that are not written hold what they held.
set_block_same :
    (n : ℕ) (xs : List ℕ) (i : ℕ) → set_block xs i (tabulate n (λ j. get_or xs (i + j) 0)) ≡ xs
set_block_same zero xs i = refl
set_block_same (suc n) xs i =
    rw (add-zero, set_same xs i)
      (ap (set_block xs (suc i)) (
          tabulate_ext n (λ j. get_or xs (i + suc j) 0) (λ j. get_or xs (suc i + j) 0)
            (λ j p. ap (λ t. get_or xs t 0) (add-suc i j ∙ sym (suc-add i j))))
        ∙ set_block_same n xs (suc i))

pair_block :
    (buffer : List ℕ) (h b0 b1 : ℕ) (rest : List ℕ)
    → set_block buffer h (b0 ∷ b1 ∷ rest)
      ≡ set_block (set (set buffer (h + 0) b0) (h + 1) b1) (h + 2) rest
pair_block buffer h b0 b1 rest =
    let one : h + 1 ≡ suc h = omega arith in
    let two : h + 2 ≡ suc (suc h) = omega arith in rw (add-zero, one, two) refl

module _ (c : Config) (b0 b1 : ℕ) (k : Keyboard) where
  abbrev keyed : RingBuffer
  keyed = write_head (write_head k.ring 0 b0) 1 b1

  -- The packet: the key data, what the ring held at the bytes that are not used, the time
  pub stored_packet : List ℕ
  stored_packet =
      b0
      ∷ b1
      ∷ (tabulate 6 (λ j. get_or keyed.buffer (k.ring.head + 2 + j) 0)
          ++ le_bytes 8 (c.kernel.uptime k.asked))

  stored_bytes :
      set_block keyed.buffer (k.ring.head + 8) (le_bytes 8 (c.kernel.uptime k.asked))
      ≡ set_block k.ring.buffer k.ring.head stored_packet
  unfolding stored_packet write_head
  stored_bytes =
      let h = k.ring.head in
      let t = le_bytes 8 (c.kernel.uptime k.asked) in
      let unused = tabulate 6 (λ j. get_or keyed.buffer (h + 2 + j) 0) in
      sym (
        pair_block k.ring.buffer h b0 b1 (unused ++ t)
        ∙ set_block-append unused t keyed.buffer (h + 2)
        ∙ ap (λ (b : List ℕ). set_block b (h + 2 + length unused) t)
            (set_block_same 6 keyed.buffer (h + 2))
        ∙ ap (λ (i : ℕ). set_block keyed.buffer i t) (omega arith))

  stored_block :
      (put_packet c b0 b1 k).ring
      ≡ advance_head ring_size
          (record (k.ring) { buffer = set_block k.ring.buffer k.ring.head stored_packet })
          16
  unfolding put_packet clock_get_uptime write_head
  stored_block =
      ap (λ (b : List ℕ). advance_head ring_size (record (k.ring) { buffer = b }) 16) stored_bytes

  length-stored_packet : length stored_packet ≡ 16
  unfolding stored_packet
  length-stored_packet = omega (arith, length-le_bytes 8 (c.kernel.uptime k.asked))

  time-stored_packet :
      c.kernel.uptime k.asked < 2 ^ 64 → packet_time stored_packet ≡ c.kernel.uptime k.asked
  unfolding stored_packet packet_time le_bytes
  time-stored_packet h = from_le-le_bytes 8 (c.kernel.uptime k.asked) h

-- In a valid state whose ring has room for a packet (one place stays free), the packet is added
-- behind those that are there: it begins with the two bytes of key data, and its timestamp reads as
-- the time, a number of 64 bits, at which it was put in.
pub put_packet_lem :
    (c : Config) (b0 b1 : ℕ) (k : Keyboard)
    → IsValid k
    → count ring_size k.ring + 16 < ring_size
    → c.kernel.uptime k.asked < 2 ^ 64
    → (packet : List ℕ) × (contents ring_size (put_packet c b0 b1 k).ring
        ≡ contents ring_size k.ring ++ packet)
      × (length packet ≡ 16)
      × (at packet 0 ≡ b0)
      × (at packet 1 ≡ b1)
      × (packet_time packet ≡ c.kernel.uptime k.asked)
unfolding stored_packet
put_packet_lem c b0 b1 k v room word =
    let p = stored_packet c b0 b1 k in
    let size = length-stored_packet c b0 b1 k in
    (
      p,
      ap (contents ring_size) (stored_block c b0 b1 k)
          ∙ subst
              (λ (n : ℕ).
                contents ring_size (
                  advance_head ring_size
                    (record (k.ring) { buffer = set_block k.ring.buffer k.ring.head p }) n)
                ≡ contents ring_size k.ring ++ p)
              size
              (block_lem p v.ring_valid (omega (arith, size)) (omega (arith, size))
                (omega (arith, size))),
      size,
      refl,
      refl,
      time-stored_packet c b0 b1 k word,
    )
