-- ===== src/RingBuffer/Advance.antt =====
-- `advanceHead` and `advanceTail` move whole blocks; `advanceHead` refuses a block with no room.
use voodoo_ps2_alps.Base.{ℕ, ◌+◌, ◌-◌, ◌≤◌, ◌<◌, ◌≡◌, arith, if◌then◌else◌, ltb}
use voodoo_ps2_alps.RingBuffer.{RingBuffer, count, advance_head, advance_tail}
use voodoo_ps2_alps.RingBuffer.Bounds.{IsValid}

-- A block of fewer than N bytes is taken exactly when there is room for it (one place stays free):
-- then the count grows by its size. Otherwise nothing changes.
pub advance_head_lem :
    {n : ℕ} {r : RingBuffer} (move : ℕ)
    → IsValid n r
    → 0 < move
    → move < n
    → (count n r + move < n → count n (advance_head n r move) ≡ count n r + move)
      × (n ≤ count n r + move → advance_head n r move ≡ r)
unfolding count advance_head
advance_head_lem move v p q = (λ h. ground arith, λ h. ground arith)

-- A block that is there is dropped: the count falls by its size.
pub advance_tail_lem :
    {n : ℕ} {r : RingBuffer} (move : ℕ)
    → IsValid n r
    → move ≤ count n r
    → count n (advance_tail n r move) ≡ count n r - move
unfolding count advance_tail
advance_tail_lem move v p = ground arith

-- A block of fewer than N bytes, and of at least one, makes the count grow by its size if there is
-- room for it, which leaves one place free; otherwise the count stays what it was.
pub advance_head-count :
    {n : ℕ} {r : RingBuffer} (move : ℕ)
    → IsValid n r
    → 0 < move
    → move < n
    → count n (advance_head n r move)
      ≡ (if ltb (count n r + move) n then count n r + move else count n r)
unfolding count advance_head
advance_head-count move v p q = ground arith
