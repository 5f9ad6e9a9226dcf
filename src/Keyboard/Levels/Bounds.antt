-- ===== src/Keyboard/Levels/Bounds.antt =====
-- The index into a table of levels.
use voodoo_ps2_alps.Base.{
  ℕ, zero, suc, ◌+◌, ◌-◌, ◌≤◌, ◌<◌, ◌≡◌, refl, arith, List, [], ◌∷◌, Bool, true, false, length,
  drop, length-drop, get_or, if◌then◌else◌, min, max,
}
use native.Mathlib.Nat.{zero-add, suc-add}
use voodoo_ps2_alps.Keyboard.Levels.{next_index, step_index, find_level, leb_int}

-- The loop stops inside the table or at its end.
pub find_level-bounds :
    (xs : List ℕ) (i current : ℕ)
    → (i ≤ find_level xs i current) × (find_level xs i current ≤ i + length xs)
unfolding find_level
find_level-bounds [] i current = omega arith
find_level-bounds (x ∷ xs) i current = ground (arith, find_level-bounds xs (i + 1) current)

-- Where the table has an entry from `least` on, the index of the level that is set is the index of
-- such an entry, whatever the current level is.
pub next_index-bounds :
    (least : ℕ) (levels : List ℕ) (current : ℕ) (up : Bool)
    → least < length levels
    → (least ≤ next_index least levels current up)
      × (next_index least levels current up < length levels)
unfolding next_index step_index
next_index-bounds least levels current up h =
    ground (arith, length-drop least levels, find_level-bounds (drop least levels) least current)

-- The levels grow, as words that stand for an `int`.
abbrev pub Increasing : List ℕ → Type 0
Increasing xs = (a b : ℕ) → a < b → b < length xs → leb_int (get_or xs b 0) (get_or xs a 0) ≡ false

leb_int_refl : (a : ℕ) → leb_int a a ≡ true
unfolding leb_int
leb_int_refl a = ground arith

find_level-entry :
    (xs : List ℕ) (i j : ℕ)
    → j < length xs
    → Increasing xs
    → find_level xs i (get_or xs j 0) ≡ i + j
unfolding find_level
find_level-entry [] i j h inc = absurd (omega arith)
find_level-entry (x ∷ xs) i zero h inc = ground (arith, leb_int_refl x)
find_level-entry (x ∷ xs) i (suc j) h inc = ground (
  arith,
  inc 0 (suc j) (omega arith) h,
  find_level-entry xs (i + 1) j (omega arith)
      (λ a b p q. inc (suc a) (suc b) (omega arith) (omega arith)),
)

get_or-drop : (n : ℕ) (xs : List ℕ) (i : ℕ) → get_or (drop n xs) i 0 ≡ get_or xs (n + i) 0
get_or-drop zero xs i = cc (zero-add i)
get_or-drop (suc n) [] i = refl
get_or-drop (suc n) (x ∷ xs) i = rw (suc-add n i) (get_or-drop n xs i)

-- Where the levels grow and the current level is an entry of the table, the next or the previous
-- entry is taken, and at the ends of the table the same one.
pub next_index_lem :
    (least : ℕ) (levels : List ℕ) (j : ℕ) (up : Bool)
    → least + j < length levels
    → Increasing (drop least levels)
    → next_index least levels (get_or levels (least + j) 0) up
      ≡ (if up then min (least + j + 1) (length levels - 1) else max least (least + j - 1))
unfolding next_index step_index
next_index_lem least levels j up h inc =
    let in_rest : j < length (drop least levels) = omega (arith, length-drop least levels) in
    ground
      (arith, find_level-entry (drop least levels) least j in_rest inc, get_or-drop least levels j)
