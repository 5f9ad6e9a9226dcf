-- ===== src/RingBuffer/Bounds.antt =====
-- The indices of `RingBuffer` stay inside its array, and no unsigned sum wraps.
use voodoo_ps2_alps.Base.{ℕ, ◌+◌, ◌-◌, ◌<◌, ◌^◌, ◌≡◌, arith, length, leb, if◌then◌else◌}
use voodoo_ps2_alps.RingBuffer.{RingBuffer, count}

pub record IsValid (n : ℕ) (r : RingBuffer) : Type 0 where
  pub size : length r.buffer ≡ n
  pub small : n < 2 ^ 31
  pub head_in : r.head < n
  pub tail_in : r.tail < n

-- What `count` returns is the number of steps from tail to head round the ring: below the size.
pub count_lem :
    {n : ℕ} {r : RingBuffer}
    → IsValid n r
    → (count n r < n)
      × (count n r ≡ (if leb r.tail r.head then r.head - r.tail else n - r.tail + r.head))
unfolding count
count_lem v = ground arith
