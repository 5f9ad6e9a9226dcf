-- ===== src/RingBuffer.antt =====
-- VoodooPS2Controller/ApplePS2Device.h, `RingBuffer<UInt8, N>`: the byte ring between a device's
-- interrupt routine and its packet routine. `n` is N; a method that changes the object returns it.
pub mod Bounds
pub mod Advance
pub mod Fifo
use voodoo_ps2_alps.Base.{ℕ, ◌+◌, ◌-◌, List, get_or, set, leb, ◌!=◌, if◌then◌else◌, u32, sub32}

pub record RingBuffer : Type 0 where
  pub buffer : List ℕ
  pub head : ℕ
  pub tail : ℕ

module _ (n : ℕ) where
  unfoldable pub reset : RingBuffer → RingBuffer
  reset r = record r { head = 0; tail = 0 }

  -- `count(head, tail)`, on unsigned numbers
  unfoldable pub distance : ℕ → ℕ → ℕ
  distance head tail = if leb tail head then head - tail else u32 (sub32 n tail + head)

  unfoldable pub count : RingBuffer → ℕ
  unfolding distance
  count r = distance r.head r.tail

  unfoldable pub push : RingBuffer → ℕ → RingBuffer
  push r x =
      let next = u32 (r.head + 1) in
      let new_head = if leb n next then 0 else next in
      if new_head != r.tail then record r { buffer = set r.buffer r.head x; head = new_head } else r

  unfoldable pub fetch : RingBuffer → ℕ × RingBuffer
  fetch r =
      let next = u32 (r.tail + 1) in
      (get_or r.buffer r.tail 0, record r { tail = if leb n next then 0 else next })

  -- The head moves only if the count does not fall, which is the overflow check.
  unfoldable pub advance_head : RingBuffer → ℕ → RingBuffer
  unfolding distance count
  advance_head r move =
      let sum = u32 (r.head + move) in
      let new_head = if leb n sum then sub32 sum n else sum in
      if leb (count r) (distance new_head r.tail) then record r { head = new_head } else r

  unfoldable pub advance_tail : RingBuffer → ℕ → RingBuffer
  advance_tail r move =
      let sum = u32 (r.tail + move) in record r { tail = if leb n sum then sub32 sum n else sum }

-- `head()[i] = x` and `tail()[i]`: the pointers give access with no wrap-around.
unfoldable pub write_head : RingBuffer → ℕ → ℕ → RingBuffer
write_head r i x = record r { buffer = set r.buffer (r.head + i) x }

unfoldable pub read_head : RingBuffer → ℕ → ℕ
read_head r i = get_or r.buffer (r.head + i) 0

unfoldable pub read_tail : RingBuffer → ℕ → ℕ
read_tail r i = get_or r.buffer (r.tail + i) 0
