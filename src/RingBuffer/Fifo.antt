-- ===== src/RingBuffer/Fifo.antt =====
-- `RingBuffer` is a queue: the bytes from tail to head, oldest first.
use voodoo_ps2_alps.Base.{
  ℕ, zero, suc, ◌+◌, ◌-◌, ◌≤◌, ◌<◌, ◌≡◌, refl, ◌∙◌, ap, arith, List, [], ◌∷◌, ◌++◌, length, get_or,
  drop, tabulate, tabulate_ext, tabulate-add, tabulate-get_or, ap₂, sym, get_or-set_block,
  get_or-set_block_before, get_or-set_block_after, length-set_block, drop-tabulate, set_block,
  get_or-set_self, get_or-set_ne, leb, if◌then◌else◌, ltb, ltb→lt, Bool-cases, inl, inr, false,
}
use voodoo_ps2_alps.RingBuffer.{RingBuffer, count, push, fetch, advance_head, advance_tail}
use voodoo_ps2_alps.RingBuffer.Bounds.{IsValid}
use voodoo_ps2_alps.RingBuffer.Advance.{advance_head_lem, advance_tail_lem}

module _ (n : ℕ) where
  -- the index of the i-th byte of the queue
  abbrev pub slot : RingBuffer → ℕ → ℕ
  slot r i = if leb n (r.tail + i) then r.tail + i - n else r.tail + i

  pub peek : RingBuffer → ℕ → ℕ
  peek r i = get_or r.buffer (slot r i) 0

  -- The queue that a ring stands for.
  pub contents : RingBuffer → List ℕ
  contents r = tabulate (count n r) (peek r)

-- A ring with the same tail whose further bytes are `xs` holds the queue with `xs` behind it.
contents-append :
    (n : ℕ) (r r' : RingBuffer) (xs : List ℕ)
    → count n r' ≡ count n r + length xs
    → ((i : ℕ) → i < count n r → peek n r' i ≡ peek n r i)
    → ((i : ℕ) → i < length xs → peek n r' (count n r + i) ≡ get_or xs i 0)
    → contents n r' ≡ contents n r ++ xs
unfolding contents
contents-append n r r' xs c old new =
    rw (c, tabulate-add (count n r) (length xs) (peek n r'))
      (ap₂ ◌++◌ (tabulate_ext (count n r) (peek n r') (peek n r) old) (
        tabulate_ext (length xs) (λ i. peek n r' (count n r + i)) (λ i. get_or xs i 0) new
        ∙ tabulate-get_or xs 0))

contents-drop :
    (n : ℕ) (r r' : RingBuffer) (k : ℕ)
    → count n r ≡ k + count n r'
    → ((i : ℕ) → i < count n r' → peek n r' i ≡ peek n r (k + i))
    → contents n r' ≡ drop k (contents n r)
unfolding contents
contents-drop n r r' k c same =
    rw (c, drop-tabulate k (count n r') (peek n r))
      (tabulate_ext (count n r') (peek n r') (λ i. peek n r (k + i)) same)

module _ {n : ℕ} {r : RingBuffer} (v : IsValid n r) where
  push-room : (x : ℕ) → count n r + 1 < n → contents n (push n r x) ≡ contents n r ++ (x ∷ [])
  unfolding push count peek
  push-room x h =
      contents-append n r (push n r x) (x ∷ []) (ground arith)
        (λ i p. ground (arith, get_or-set_ne r.buffer r.head (slot n r i) x 0)) last
    where
      last : (i : ℕ) → i < 1 → peek n (push n r x) (count n r + i) ≡ get_or (x ∷ []) i 0
      last zero p = ground (arith, get_or-set_self r.buffer r.head x 0)
      last (suc i) p = absurd (omega arith)

-- `push` adds the byte at the end if there is room, and else drops it and changes nothing.
pub push_lem :
    {n : ℕ} {r : RingBuffer} (x : ℕ)
    → IsValid n r
    → (count n r + 1 < n → contents n (push n r x) ≡ contents n r ++ (x ∷ []))
      × (n ≤ count n r + 1 → push n r x ≡ r)
unfolding push count
push_lem {n} {r} x v = (push-room v x, λ h. ground arith)

-- What `push` does to the queue: the byte is added at the end if there is room for it, which leaves
-- one place free; otherwise the queue stays what it was.
pub push-contents :
    {n : ℕ} {r : RingBuffer} (x : ℕ)
    → IsValid n r
    → contents n (push n r x)
      ≡ (if ltb (count n r + 1) n then contents n r ++ (x ∷ []) else contents n r)
push-contents {n} {r} x v = elim (Bool-cases (ltb (count n r + 1) n)) [
  | inl e ↦ rw e ((push_lem x v).0 (ltb→lt (count n r + 1) n e))
  | inr e ↦ rw e (ap (contents n) ((push_lem x v).1 (not_below (count n r + 1) n e)))
]
  where
    not_below : (a b : ℕ) → ltb a b ≡ false → b ≤ a
    not_below a b h = ground arith

tabulate-uncons : (n : ℕ) (f : ℕ → ℕ) → 0 < n → tabulate n f ≡ f 0 ∷ drop 1 (tabulate n f)
tabulate-uncons zero f h = elim h [ ]
tabulate-uncons (suc n) f h = refl

-- `fetch` returns the oldest byte of a ring that is not empty, and drops it.
pub fetch_lem :
    {n : ℕ} {r : RingBuffer}
    → IsValid n r
    → 0 < count n r
    → contents n r ≡ (fetch n r).0 ∷ contents n (fetch n r).1
unfolding contents peek fetch count
fetch_lem {n} {r} v h =
    tabulate-uncons (count n r) (peek n r) h
    ∙ ap₂ ◌∷◌ (ground arith)
        (sym (contents-drop n r (fetch n r).1 1 (ground arith) (λ i p. ground arith)))

module _ {n : ℕ} {r : RingBuffer} (xs : List ℕ) (v : IsValid n r) where
  abbrev stored : RingBuffer
  stored = record r { buffer = set_block r.buffer r.head xs }

  stored-IsValid : IsValid n stored
  stored-IsValid = omega (arith, length-set_block xs r.buffer r.head)

  module _ (q : count n r + length xs < n) (w : r.head + length xs ≤ n) (some : 0 < length xs) where
    block_count : count n (advance_head n stored (length xs)) ≡ count n r + length xs
    unfolding count
    block_count = (advance_head_lem (length xs) stored-IsValid some (omega arith)).0 q

    block_advanced : advance_head n stored (length xs) ≡ record stored {
      head = if leb n (r.head + length xs) then r.head + length xs - n else r.head + length xs;
    }
    unfolding count advance_head
    block_advanced = ground arith

    block_old : (i : ℕ) → i < count n r → peek n (advance_head n stored (length xs)) i ≡ peek n r i
    unfolding peek count
    block_old i p = rw block_advanced (
        ground (
          arith,
          get_or-set_block_before xs r.buffer r.head (slot n r i) 0,
          get_or-set_block_after xs r.buffer r.head (slot n r i) 0,
        ))

    block_new :
        (i : ℕ)
        → i < length xs
        → peek n (advance_head n stored (length xs)) (count n r + i) ≡ get_or xs i 0
    unfolding peek count
    block_new i p =
        let here : slot n r (count n r + i) ≡ r.head + i = ground arith in
        rw (block_advanced, here) (get_or-set_block xs r.buffer r.head i 0 p (omega arith))

-- The driver's way to add a block: the bytes are written behind the head, one after the other, and
-- the head is advanced once. With room for the block, and the block inside the array, the queue
-- grows by exactly that block.
pub block_lem :
    {n : ℕ} {r : RingBuffer} (xs : List ℕ)
    → IsValid n r
    → 0 < length xs
    → count n r + length xs < n
    → r.head + length xs ≤ n
    → let r' = record r { buffer = set_block r.buffer r.head xs } in
      contents n (advance_head n r' (length xs)) ≡ contents n r ++ xs
block_lem {n} {r} xs v p q w =
    contents-append n r (advance_head n (stored xs v) (length xs)) xs (block_count xs v q w p)
      (block_old xs v q w p) (block_new xs v q w p)

-- `advanceTail` drops as many bytes as it is told, if they are there.
pub drop_lem :
    {n : ℕ} {r : RingBuffer} (k : ℕ)
    → IsValid n r
    → k ≤ count n r
    → contents n (advance_tail n r k) ≡ drop k (contents n r)
unfolding peek count
drop_lem {n} {r} k v p =
    contents-drop n r (advance_tail n r k) k (omega (arith, advance_tail_lem k v p))
      (λ i q. unfold advance_tail in ground arith)
