-- ===== src/Alps/Bitmap/Nearest.antt =====
-- The corner that `alps_process_bitmap` takes for a second touch.
use voodoo_ps2_alps.Base.{
  ℕ, zero, suc, ◌+◌, ◌-◌, ◌*◌, ◌%◌, ◌^◌, sub32, ◌<◌, ◌≤◌, ◌≡◌, ◌⊎◌, inl, inr, refl, ap, ◌∙◌, arith,
  List, [], ◌∷◌, Option, none, some, length, get_or, ltb, Bool-cases, ltb→lt,
}
use native.Mathlib.Nat.{mul-le-mul_right}
use voodoo_ps2_alps.Base.Int.{pos, abs, int32}
use voodoo_ps2_alps.Alps.Types.{MtPos, origin}
use voodoo_ps2_alps.Alps.Bitmap.{distance, closest_corner, opposite, choose_corner}

-- The squared distance of two positions, and how far two coordinates are apart
abbrev pub apart : ℕ → ℕ → ℕ
apart a b = a - b + (b - a)

abbrev pub squared : MtPos → MtPos → ℕ
squared a c = apart a.x c.x * apart a.x c.x + apart a.y c.y * apart a.y c.y

-- Coordinates of at most 15 bits
abbrev pub IsSmall : MtPos → Type 0
IsSmall c = (c.x < 2 ^ 15) × (c.y < 2 ^ 15)

square_small : (a b : ℕ) → a < 2 ^ 15 → b < 2 ^ 15 → apart a b * apart a b ≤ 32767 * 32767
square_small a b p q =
    let one : apart a b * apart a b ≤ 32767 * apart a b =
      mul-le-mul_right {m = apart a b} {n = 32767} (apart a b) (omega arith) in
    let two : apart a b * 32767 ≤ 32767 * 32767 =
      mul-le-mul_right {m = apart a b} {n = 32767} 32767 (omega arith) in
    omega (arith, one, two)

difference : (a b : ℕ) → a < 2 ^ 15 → b < 2 ^ 15 → abs (int32 (sub32 a b)) ≡ apart a b
unfolding int32
difference a b p q = ground arith

squared_small : (a c : MtPos) → IsSmall a → IsSmall c → squared a c < 0x7fffffff
squared_small a c p q = omega (arith, square_small a.x c.x p.0 q.0, square_small a.y c.y p.1 q.1)

int_of_small : (w : ℕ) → w < 2 ^ 31 → int32 w ≡ pos w
unfolding int32
int_of_small w h = ground arith

-- For such coordinates nothing wraps around.
distance_lem : (a c : MtPos) → IsSmall a → IsSmall c → distance a c ≡ pos (squared a c)
unfolding distance
distance_lem a c p q =
    rw (difference a.x c.x p.0 q.0, difference a.y c.y p.1 q.1)
      (int_of_small (squared a c) (omega (arith, squared_small a c p q)))

-- Corner `j` is nearer than a limit, and no other one is nearer.
pub record IsNearest (st : MtPos) (cs : List MtPos) (limit j : ℕ) : Type 0 where
  pub inside : j < length cs
  pub near : squared st (get_or cs j origin) < limit
  pub least :
      (k : ℕ) → k < length cs → squared st (get_or cs j origin) ≤ squared st (get_or cs k origin)

abbrev AllFar : MtPos → List MtPos → ℕ → Type 0
AllFar st cs limit = (k : ℕ) → k < length cs → limit ≤ squared st (get_or cs k origin)

abbrev pub AllSmall : List MtPos → Type 0
AllSmall cs = (k : ℕ) → k < length cs → IsSmall (get_or cs k origin)

far-cons :
    (st c : MtPos) (cs : List MtPos) {limit : ℕ}
    → limit ≤ squared st c
    → AllFar st cs limit
    → AllFar st (c ∷ cs) limit
far-cons st c cs d h zero p = d
far-cons st c cs d h (suc k) p = h k (omega arith)

IsNearest-first :
    {st c : MtPos} {cs : List MtPos} {limit : ℕ}
    → squared st c < limit
    → AllFar st cs (squared st c)
    → IsNearest st (c ∷ cs) limit 0
IsNearest-first {st} {c} {cs} d h = record {
  inside = omega arith;
  near = d;
  least = far-cons st c cs (omega arith) h;
}

IsNearest-next :
    {st c : MtPos} {cs : List MtPos} {limit limit' j : ℕ}
    → IsNearest st cs limit' j
    → limit' ≤ limit
    → limit' ≤ squared st c
    → IsNearest st (c ∷ cs) limit (suc j)
IsNearest-next {st} {c} {cs} {j = j} n h d = record {
  inside = omega (arith, n.inside);
  near = omega (arith, n.near);
  least = far-cons st c cs (omega (arith, n.near)) n.least;
}

-- The search changes nothing if all corners are far, and else finds a nearest one.
search_lem :
    (st : MtPos) (cs : List MtPos) (i : ℕ) (best : Option ℕ) (closest : ℕ)
    → IsSmall st
    → AllSmall cs
    → ((closest_corner st cs i best (pos closest) ≡ best) × AllFar st cs closest)
      ⊎ ((j : ℕ) × (closest_corner st cs i best (pos closest) ≡ some (i + j))
          × IsNearest st cs closest j)
unfolding closest_corner
search_lem st [] i best closest small all = inl (refl, λ k p. elim p [ ])
search_lem st (c ∷ cs) i best closest small all =
    let same = distance_lem st c small (all 0 (omega arith)) in
    let rest = λ (k : ℕ) (p : k < length cs). all (suc k) (omega arith) in
    elim (Bool-cases (ltb (squared st c + 0) (closest + 0))) [
      | inl e ↦
          let d : squared st c < closest =
            omega (arith, ltb→lt (squared st c + 0) (closest + 0) e) in
          rw (same, e)
            (elim (search_lem st cs (i + 1) (some i) (squared st c) small rest) [
              | inl (r, far) ↦ inr (0, r ∙ ap some (omega arith), IsNearest-first d far)
              | inr (j, r, n) ↦
                  inr
                    (suc j, r ∙ ap some (omega arith), IsNearest-next n (omega arith) (omega arith))
            ])
      | inr e ↦
          let d : closest ≤ squared st c = ground arith in
          rw (same, e)
            (elim (search_lem st cs (i + 1) best closest small rest) [
              | inl (r, far) ↦ inl (r, far-cons st c cs d far)
              | inr (j, r, n) ↦
                  inr (suc j, r ∙ ap some (omega arith), IsNearest-next n (omega arith) d)
            ])
    ]

-- If the position and the corners have coordinates of at most 15 bits, and there is a corner, then a
-- second touch with no corner yet gets the corner opposite to one that is nearest to the position.
pub choose_corner-IsNearest :
    (st : MtPos) (cs : List MtPos)
    → IsSmall st
    → AllSmall cs
    → 0 < length cs
    → (j : ℕ) × (choose_corner none st cs ≡ (j + 2) % 4)
      × (j < length cs)
      × ((k : ℕ)
          → k < length cs
          → squared st (get_or cs j origin) ≤ squared st (get_or cs k origin))
unfolding choose_corner opposite
choose_corner-IsNearest st cs small all some_corner =
    elim (search_lem st cs 0 none 0x7fffffff small all) [
      | inl (e, far) ↦ absurd (
          omega (
            arith,
            far 0 some_corner,
            squared_small st (get_or cs 0 origin) small (all 0 some_corner),
          ))
      | inr (j, e, n) ↦ (j, rw (e, opposite) (omega arith), n.inside, n.least)
    ]
