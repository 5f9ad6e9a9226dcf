-- ===== src/Touchpad/Averages/Window.antt =====
-- `SimpleAverage` against the list of the last N values.
use voodoo_ps2_alps.Base.{
  ℕ, zero, suc, ◌+◌, ◌-◌, ◌≤◌, ◌<◌, ◌≡◌, ◌≢◌, refl, sym, ◌∙◌, ap, ap₂, arith, List, [], ◌∷◌, ◌++◌,
  length, get_or, set, drop, tabulate, tabulate_ext, tabulate-suc, drop-tabulate, length-set,
  get_or-set_self, get_or-set_ne, length-tabulate, leb, ltb, if◌then◌else◌, Bool-cases, inl, inr,
  true, false, u32, sub32,
}
use voodoo_ps2_alps.Touchpad.Averages.{SimpleAverage, filtered_sum, filter}

module _ {A : Type 0} (n : ℕ) (int_of : A → ℕ) (z : A) where
  -- where the values begin, and where value `i` stands
  abbrev first_slot : SimpleAverage A → ℕ
  first_slot h = if ltb h.count n then 0 else h.index

  abbrev slot : SimpleAverage A → ℕ → ℕ
  slot h i = if leb n (first_slot h + i) then first_slot h + i - n else first_slot h + i

  unfoldable pub peek : SimpleAverage A → ℕ → A
  peek h i = get_or h.buffer (slot h i) z

  -- The values in the buffer, oldest first
  unfoldable pub window : SimpleAverage A → List A
  window h = tabulate h.count (peek h)

  -- The sum of a list
  unfoldable pub total : List A → ℕ
  total [] = 0
  total (x ∷ xs) = int_of x + total xs

  -- The last `n` of the values and one more
  abbrev pub slide : List A → A → List A
  slide xs x = if ltb (length xs) n then xs ++ (x ∷ []) else drop 1 xs ++ (x ∷ [])

  -- The indices fit, and the sum is the 32-bit word of that of the values.
  pub record IsAverage (h : SimpleAverage A) : Type 0 where
    pub room : length h.buffer ≡ n
    pub some_room : 0 < n
    pub in_buffer : h.index < n
    pub within : h.count ≤ n
    pub not_full : h.count < n → h.index ≡ h.count
    pub sum_lem : h.sum ≡ u32 (total (window h))

  module _ {h : SimpleAverage A} (v : IsAverage h) (x : A) where
    slot_kept :
        (i : ℕ)
        → i + 1 < (filter n int_of z h x).count
        → (slot (filter n int_of z h x) i ≡ slot h (if ltb h.count n then i else i + 1))
          × (h.index ≢ slot h (if ltb h.count n then i else i + 1))
    unfolding filter
    slot_kept i p = ground (arith, v.not_full)

    peek_kept :
        (i : ℕ)
        → i + 1 < (filter n int_of z h x).count
        → peek (filter n int_of z h x) i ≡ peek h (if ltb h.count n then i else i + 1)
    unfolding filter peek
    peek_kept i p =
        let (same, other) = slot_kept i p in
        ap (λ (j : ℕ). get_or (set h.buffer h.index x) j z) same
        ∙ get_or-set_ne h.buffer h.index (slot h (if ltb h.count n then i else i + 1)) x z other

    peek_new : (i : ℕ) → i + 1 ≡ (filter n int_of z h x).count → peek (filter n int_of z h x) i ≡ x
    unfolding filter peek
    peek_new i p = ground (arith, v.not_full, v.room, get_or-set_self h.buffer h.index x z)

    -- With m values kept, from a list `f` of them
    window_kept :
        (m : ℕ) (f : ℕ → A)
        → (filter n int_of z h x).count ≡ suc m
        → ((i : ℕ) → i < m → peek h (if ltb h.count n then i else i + 1) ≡ f i)
        → window (filter n int_of z h x) ≡ tabulate m f ++ (x ∷ [])
    unfolding window
    window_kept m f c old =
        let h' = filter n int_of z h x in
        ap (λ (k : ℕ). tabulate k (peek h')) c
        ∙ tabulate-suc m (peek h')
        ∙ ap₂ (λ (xs : List A) (y : A). xs ++ (y ∷ []))
            (tabulate_ext m (peek h') f (λ i p. peek_kept i (omega (arith, c)) ∙ old i p))
            (peek_new m (omega (arith, c)))

    growing : ltb h.count n ≡ true → (filter n int_of z h x).count ≡ suc h.count
    unfolding filter
    growing e = ground arith

    full :
        ltb h.count n ≡ false
        → ((filter n int_of z h x).count ≡ suc (h.count - 1)) × (h.count ≡ 1 + (h.count - 1))
    unfolding filter
    full e = ground (arith, v.within, v.some_room)

    -- one value more, and the first one gone if the buffer was full
    window-filter : window (filter n int_of z h x) ≡ slide (window h) x
    unfolding window
    window-filter = elim (Bool-cases (ltb h.count n)) [
      | inl e ↦
          window_kept h.count (peek h) (growing e) (λ i p. rw e refl)
          ∙ rw (length-tabulate h.count (peek h), e) refl
      | inr e ↦
          let (c, c') = full e in
          window_kept (h.count - 1) (λ i. peek h (1 + i)) c
            (λ i p. rw e (ap (peek h) (omega arith)))
          ∙ rw (length-tabulate h.count (peek h), e)
              (ap (λ l. l ++ (x ∷ []))
                (sym (
                  ap (λ (k : ℕ). drop 1 (tabulate k (peek h))) c'
                  ∙ drop-tabulate 1 (h.count - 1) (peek h))))
    ]

  total-append : (xs : List A) (x : A) → total (xs ++ (x ∷ [])) ≡ total xs + int_of x
  unfolding total
  total-append [] x = omega arith
  total-append (y ∷ xs) x = omega (arith, total-append xs x)

  total-drop : (xs : List A) → 0 < length xs → total (drop 1 xs) + int_of (get_or xs 0 z) ≡ total xs
  unfolding total
  total-drop [] h = absurd (omega arith)
  total-drop (x ∷ xs) h = omega arith

  window-get : (h : SimpleAverage A) → 0 < h.count → get_or (window h) 0 z ≡ peek h 0
  unfolding window
  window-get h p = get_tabulate h.count (peek h) p
    where
      get_tabulate : (m : ℕ) (f : ℕ → A) → 0 < m → get_or (tabulate m f) 0 z ≡ f 0
      get_tabulate zero f p = absurd (omega arith)
      get_tabulate (suc m) f p = refl

  length-window : (h : SimpleAverage A) → length (window h) ≡ h.count
  unfolding window
  length-window h = length-tabulate h.count (peek h)

  module _ {h : SimpleAverage A} (v : IsAverage h) (x : A) where
    -- the value that is thrown out is the first of the window
    thrown_out : ltb h.count n ≡ false → get_or h.buffer h.index z ≡ get_or (window h) 0 z
    thrown_out e =
        let some_value : 0 < h.count = ground (arith, v.within, v.some_room) in
        let here : get_or h.buffer h.index z ≡ peek h 0 =
          unfold peek in ground (arith, v.within, v.in_buffer) in
        here ∙ sym (window-get h some_value)

    sum_growing : ltb h.count n ≡ true → filtered_sum n int_of z h x ≡ u32 (h.sum + int_of x)
    unfolding filtered_sum
    sum_growing e = ground arith

    sum_full :
        ltb h.count n ≡ false
        → filtered_sum n int_of z h x
          ≡ sub32 (u32 (h.sum + int_of x)) (int_of (get_or h.buffer h.index z))
    unfolding filtered_sum
    sum_full e = ground (arith, v.within)

    total-slide : filtered_sum n int_of z h x ≡ u32 (total (slide (window h) x))
    total-slide = elim (Bool-cases (ltb h.count n)) [
      | inl e ↦
          sum_growing e
          ∙ rw (length-window h, e) (omega (arith, v.sum_lem, total-append (window h) x))
      | inr e ↦
          let some_value : 0 < length (window h) = omega (arith, length-window h, (full v x e).1) in
          sum_full e
          ∙ rw (length-window h, e, thrown_out e)
              (omega (
                arith,
                v.sum_lem,
                total-append (drop 1 (window h)) x,
                total-drop (window h) some_value,
              ))
    ]

    pub filter-IsAverage : IsAverage (filter n int_of z h x)
    filter-IsAverage =
        let kept_room : length (filter n int_of z h x).buffer ≡ length h.buffer =
          unfold filter in length-set h.buffer h.index x in
        let new_sum : (filter n int_of z h x).sum ≡ filtered_sum n int_of z h x =
          unfold filter in refl in
        record {
          room = kept_room ∙ v.room;
          some_room = v.some_room;
          in_buffer = unfold filter in ground (arith, v.in_buffer, v.some_room);
          within = unfold filter in ground (arith, v.within);
          not_full = unfold filter in ground (arith, v.not_full, v.within, v.some_room);
          sum_lem = new_sum ∙ total-slide ∙ ap (λ l. u32 (total l)) (sym (window-filter v x));
        }

  module _ {h : SimpleAverage A} (v : IsAverage h) (x : A) where
    some_value : 0 < (filter n int_of z h x).count
    unfolding filter
    some_value = ground (arith, v.some_room)
