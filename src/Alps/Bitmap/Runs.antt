-- ===== src/Alps/Bitmap/Runs.antt =====
-- What `alps_get_bitmap_points` finds in a map: the number of its runs of bits, and two of them.
use voodoo_ps2_alps.Base.{
  ℕ, zero, suc, ◌+◌, ◌/◌, ◌%◌, ◌^◌, ◌<◌, ◌≤◌, ◌≡◌, ◌⊎◌, inl, inr, refl, ap, ap₂, ◌∙◌, arith, true,
  false, nz, of_bool, ◌==◌, if◌then◌else◌, Bool-cases,
}
use native.Mathlib.Nat.{pow-suc, div-div-eq-div-mul, pow-le-pow_right}
use voodoo_ps2_alps.Alps.Bitmap.{
  BitmapPoint, zero_point, Scan, put_point, scan_bit, scan_bits, alps_get_bitmap_points,
  split_contact,
}

-- A run of set bits below bit `n`
abbrev pub IsRun : ℕ → BitmapPoint → Type 0
IsRun n p = (0 < p.num_bits) × (p.start_bit + p.num_bits ≤ n)

-- What holds when bit `i` is next
record IsScan (i : ℕ) (s : Scan) : Type 0 where
  at_low : s.at_high ≡ false → s.fingers ≡ of_bool (nz s.prev_bit)
  in_high : s.at_high ≡ true → of_bool (nz s.prev_bit) < s.fingers
  low_run : 0 < s.fingers → IsRun i s.low
  high_run : 1 < s.fingers → IsRun i s.high
  low_end : s.at_high ≡ false → 0 < s.prev_bit → s.low.start_bit + s.low.num_bits ≡ i
  high_end : s.at_high ≡ true → 0 < s.prev_bit → s.high.start_bit + s.high.num_bits ≡ i

scan_bit-IsScan : (i bit : ℕ) {s : Scan} → IsScan i s → IsScan (i + 1) (scan_bit i bit s)
unfolding scan_bit put_point
scan_bit-IsScan i bit {s} v = ground arith

scan_more : (m map : ℕ) → map < 2 ^ suc m → map / 2 < 2 ^ m
scan_more m map h = omega (arith, pow-suc 2 m)

-- The loop keeps it, and takes no more steps than the map has bits.
scan_bits-IsScan :
    (rounds map i m : ℕ) {s : Scan}
    → map < 2 ^ m
    → IsScan i s
    → (j : ℕ) × (j ≤ i + m) × IsScan j (scan_bits rounds map i s)
unfolding scan_bits
scan_bits-IsScan zero map i m h v = (i, omega arith, v)
scan_bits-IsScan (suc rounds) map i zero {s} h v =
    let z : map ≡ 0 = omega arith in rw z (i, omega arith, v)
scan_bits-IsScan (suc rounds) map i (suc m) {s} h v = elim (Bool-cases (map == 0)) [
  | inl e ↦ rw (e, scan_bits) (i, omega arith, v)
  | inr e ↦
      let (j, p, w) =
        scan_bits-IsScan rounds (map / 2) (i + 1) m (scan_more m map h)
          (scan_bit-IsScan i (map % 2) v) in
      rw (e, scan_bits) (j, omega arith, w)
]

-- Bit `i` of a map, and whether a run starts at it
abbrev pub bit : ℕ → ℕ → ℕ
bit map i = map / 2 ^ i % 2

abbrev pub starts : ℕ → ℕ → ℕ
starts map zero = bit map 0
starts map (suc i) = if bit map i == 0 then bit map (suc i) else 0

-- The sum of the first n values of a function
abbrev pub sum : ℕ → (ℕ → ℕ) → ℕ
sum zero f = 0
sum (suc n) f = f 0 + sum n (λ i. f (suc i))

-- The number of runs of set bits, among the low n bits
unfoldable pub runs : ℕ → ℕ → ℕ
runs n map = sum n (starts map)

-- The same behind a bit that was read before
starts_after : ℕ → ℕ → ℕ → ℕ
starts_after prev map zero = if prev == 0 then bit map 0 else 0
starts_after prev map (suc i) = starts map (suc i)

sum_ext : (n : ℕ) (f g : ℕ → ℕ) → ((i : ℕ) → f i ≡ g i) → sum n f ≡ sum n g
sum_ext zero f g h = refl
sum_ext (suc n) f g h = ap₂ ◌+◌ (h 0) (sum_ext n (λ i. f (suc i)) (λ i. g (suc i)) (λ i. h (suc i)))

bit_half : (map i : ℕ) → bit map (suc i) ≡ bit (map / 2) i
bit_half map i =
    ap (λ (t : ℕ). t % 2)
      (rw div-div-eq-div-mul (ap (λ (t : ℕ). map / t) (omega (arith, pow-suc 2 i))))

starts_half : (prev map i : ℕ) → starts_after prev map (suc i) ≡ starts_after (map % 2) (map / 2) i
unfolding starts_after
starts_half prev map zero = ground (arith, bit_half map 0)
starts_half prev map (suc i) = rw (bit_half map i, bit_half map (suc i)) refl

sum_zero : (n : ℕ) (f : ℕ → ℕ) → ((i : ℕ) → f i ≡ 0) → sum n f ≡ 0
sum_zero zero f h = refl
sum_zero (suc n) f h = rw (h 0, sum_zero n (λ i. f (suc i)) (λ i. h (suc i))) refl

bit_zero : (i : ℕ) → bit 0 i ≡ 0
bit_zero i = omega arith

starts_after_zero : (prev i : ℕ) → starts_after prev 0 i ≡ 0
unfolding starts_after
starts_after_zero prev zero = ground (arith, bit_zero 0)
starts_after_zero prev (suc i) = ground (arith, bit_zero (suc i), bit_zero i)

starts_zero : (n prev : ℕ) → sum n (starts_after prev 0) ≡ 0
starts_zero n prev = sum_zero n (starts_after prev 0) (starts_after_zero prev)

scan_bit_count :
    (i map : ℕ) (s : Scan)
    → ((scan_bit i (map % 2) s).fingers ≡ s.fingers + starts_after s.prev_bit map 0)
      × ((scan_bit i (map % 2) s).prev_bit ≡ map % 2)
unfolding scan_bit put_point starts_after
scan_bit_count i map s = ground arith

scan_bits_count :
    (rounds map i : ℕ) (s : Scan)
    → map < 2 ^ rounds
    → (scan_bits rounds map i s).fingers ≡ s.fingers + sum rounds (starts_after s.prev_bit map)
unfolding scan_bits
scan_bits_count zero map i s h = omega arith
scan_bits_count (suc rounds) map i s h = elim (Bool-cases (map == 0)) [
  | inl e ↦
      let z : map ≡ 0 = ground arith in
      rw (e, scan_bits) (rw z (omega (arith, starts_zero (suc rounds) s.prev_bit)))
  | inr e ↦
      let (more, prev) = scan_bit_count i map s in
      let rest =
        scan_bits_count rounds (map / 2) (i + 1) (scan_bit i (map % 2) s)
          (scan_more rounds map h) in
      let same =
        sum_ext rounds (λ j. starts_after s.prev_bit map (suc j)) (starts_after (map % 2) (map / 2))
          (starts_half s.prev_bit map) in
      rw (e, scan_bits)
        (omega
          (arith, rest, more, same, ap (λ (b : ℕ). sum rounds (starts_after b (map / 2))) prev))
]

starts_first : (map i : ℕ) → starts_after 0 map i ≡ starts map i
unfolding starts_after
starts_first map zero = refl
starts_first map (suc i) = refl

some_run : (n map : ℕ) → 0 < map → map < 2 ^ n → 0 < sum n (starts_after 0 map)
unfolding starts_after
some_run zero map p h = absurd (omega arith)
some_run (suc n) map p h =
    let rest : 0 < map / 2 → 0 < sum n (starts_after 0 (map / 2)) =
      λ q. some_run n (map / 2) q (scan_more n map h) in
    let same =
      sum_ext n (λ j. starts_after 0 map (suc j)) (starts_after (map % 2) (map / 2))
        (starts_half 0 map) in
    elim (even_or_odd (map % 2) (omega arith)) [
      | inl e ↦
          omega
            (arith, rest (omega arith), same, ap (λ (b : ℕ). sum n (starts_after b (map / 2))) e)
      | inr e ↦ omega arith
    ]
  where
    even_or_odd : (b : ℕ) → b < 2 → (b ≡ 0) ⊎ (b ≡ 1)
    even_or_odd b h = ground arith

abbrev scan_start : BitmapPoint → BitmapPoint → ℕ → Scan
scan_start low high fingers = record {
  low = low;
  high = high;
  at_high = false;
  prev_bit = 0;
  fingers = fingers;
}

scan_start-IsScan : IsScan 0 (scan_start zero_point zero_point 0)
scan_start-IsScan = ground arith

-- For a map of 32 bits, the number that is added to the finger count is the number of runs of set
-- bits in the map.
pub points-runs :
    (map : ℕ) (low high : BitmapPoint) (fingers : ℕ)
    → map < 2 ^ 32
    → (alps_get_bitmap_points map low high fingers).fingers ≡ fingers + runs 32 map
unfolding alps_get_bitmap_points runs
points-runs map low high fingers h =
    scan_bits_count 32 map 0 (scan_start low high fingers) h
    ∙ ap (λ (t : ℕ). fingers + t) (sum_ext 32 (starts_after 0 map) (starts map) (starts_first map))

split_inside :
    (s : Scan) (n j : ℕ)
    → j ≤ n
    → IsScan j s
    → 0 < s.fingers
    → IsRun n (split_contact s).0 × IsRun n (split_contact s).1
unfolding split_contact
split_inside s n j q w found = ground arith

-- In a map with a set bit, all of them below bit `n`, the two points of the contacts, one contact
-- being divided, are runs of at least one bit below bit `n`.
pub points_inside :
    (n map : ℕ)
    → n ≤ 32
    → 0 < map
    → map < 2 ^ n
    → IsRun n (split_contact (alps_get_bitmap_points map zero_point zero_point 0)).0
      × IsRun n (split_contact (alps_get_bitmap_points map zero_point zero_point 0)).1
unfolding split_contact alps_get_bitmap_points
points_inside n map small p h =
    let s = alps_get_bitmap_points map zero_point zero_point 0 in
    let (j, q, w) = scan_bits-IsScan 32 map 0 n h scan_start-IsScan in
    let wide : map < 2 ^ 32 = omega (arith, pow-le-pow_right {n = 2} (omega arith) small) in
    let found : 0 < s.fingers = omega (
      arith,
      scan_bits_count 32 map 0 (scan_start zero_point zero_point 0) wide,
      some_run 32 map p wide,
    ) in
    split_inside s n j (omega (arith, q)) w found
