-- ===== src/Base/Lists.antt =====
-- Lists measured and indexed by native numbers, under the library's names.
use Prim.Native.Nat.{ℕ, zero, suc, ◌+◌, ◌-◌, ◌<◌, ◌≤◌}
use mathlib.Core.Path.{◌≡◌, refl, ap, ap₂, ◌∙◌}
use mathlib.Core.Logic.{◌≢◌}
use mathlib.Core.List.{List, [], ◌∷◌, ◌++◌}
use native.Mathlib.Nat.{zero-add, suc-add, add-zero, add-suc}
use native.Mathlib.Omega.{arith}

module _ {ℓ} {A : Type ℓ} where
  abbrev pub length : List A → ℕ
  length [] = 0
  length (x ∷ xs) = suc (length xs)

  abbrev pub get_or : List A → ℕ → A → A
  get_or [] i d = d
  get_or (x ∷ xs) zero d = x
  get_or (x ∷ xs) (suc i) d = get_or xs i d

  -- A write out of bounds changes nothing.
  abbrev pub set : List A → ℕ → A → List A
  set [] i v = []
  set (x ∷ xs) zero v = v ∷ xs
  set (x ∷ xs) (suc i) v = x ∷ set xs i v

  abbrev pub take : ℕ → List A → List A
  take zero xs = []
  take (suc n) [] = []
  take (suc n) (x ∷ xs) = x ∷ take n xs

  abbrev pub drop : ℕ → List A → List A
  drop zero xs = xs
  drop (suc n) [] = []
  drop (suc n) (x ∷ xs) = drop n xs

  abbrev pub replicate : ℕ → A → List A
  replicate zero a = []
  replicate (suc n) a = a ∷ replicate n a

module _ {ℓ} {A : Type ℓ} where
  pub length-append : (xs ys : List A) → length (xs ++ ys) ≡ length xs + length ys
  length-append [] ys = omega arith
  length-append (x ∷ xs) ys = omega (arith, length-append xs ys)

  pub length-set : (xs : List A) (i : ℕ) (v : A) → length (set xs i v) ≡ length xs
  length-set [] i v = refl
  length-set (x ∷ xs) zero v = refl
  length-set (x ∷ xs) (suc i) v = ap suc (length-set xs i v)

  pub get_or-set_self :
      (xs : List A) (i : ℕ) (v d : A) → i < length xs → get_or (set xs i v) i d ≡ v
  get_or-set_self [] i v d h = elim h [ ]
  get_or-set_self (x ∷ xs) zero v d h = refl
  get_or-set_self (x ∷ xs) (suc i) v d h = get_or-set_self xs i v d (omega arith)

  pub get_or-set_ne :
      (xs : List A) (i j : ℕ) (v d : A) → i ≢ j → get_or (set xs i v) j d ≡ get_or xs j d
  get_or-set_ne [] i j v d h = refl
  get_or-set_ne (x ∷ xs) zero zero v d h = absurd (h refl)
  get_or-set_ne (x ∷ xs) zero (suc j) v d h = refl
  get_or-set_ne (x ∷ xs) (suc i) zero v d h = refl
  get_or-set_ne (x ∷ xs) (suc i) (suc j) v d h = get_or-set_ne xs i j v d (λ e. h (ap suc e))

  pub length-replicate : (n : ℕ) (a : A) → length (replicate n a) ≡ n
  length-replicate zero a = refl
  length-replicate (suc n) a = ap suc (length-replicate n a)

-- The list of the first n values of a function.
module _ {ℓ} {A : Type ℓ} where
  abbrev pub tabulate : ℕ → (ℕ → A) → List A
  tabulate zero f = []
  tabulate (suc n) f = f 0 ∷ tabulate n (λ i. f (suc i))

module _ {ℓ} {A : Type ℓ} where
  pub length-tabulate : (n : ℕ) (f : ℕ → A) → length (tabulate n f) ≡ n
  length-tabulate zero f = refl
  length-tabulate (suc n) f = ap suc (length-tabulate n (λ i. f (suc i)))

  pub tabulate_ext :
      (n : ℕ) (f g : ℕ → A) → ((i : ℕ) → i < n → f i ≡ g i) → tabulate n f ≡ tabulate n g
  tabulate_ext zero f g h = refl
  tabulate_ext (suc n) f g h =
      ap₂ ◌∷◌ (h 0 (omega arith))
        (tabulate_ext n (λ i. f (suc i)) (λ i. g (suc i)) (λ i p. h (suc i) (omega arith)))

  pub tabulate-suc : (n : ℕ) (f : ℕ → A) → tabulate (suc n) f ≡ tabulate n f ++ (f n ∷ [])
  tabulate-suc zero f = refl
  tabulate-suc (suc n) f = ap (λ l. f 0 ∷ l) (tabulate-suc n (λ i. f (suc i)))

  pub tabulate-add :
      (m n : ℕ) (f : ℕ → A) → tabulate (m + n) f ≡ tabulate m f ++ tabulate n (λ i. f (m + i))
  tabulate-add zero n f = simp zero-add
  tabulate-add (suc m) n f = simp suc-add (ap (λ l. f 0 ∷ l) (tabulate-add m n (λ i. f (suc i))))

  pub drop-tabulate :
      (k n : ℕ) (f : ℕ → A) → drop k (tabulate (k + n) f) ≡ tabulate n (λ i. f (k + i))
  drop-tabulate zero n f = simp zero-add
  drop-tabulate (suc k) n f = simp suc-add (drop-tabulate k n (λ i. f (suc i)))

  pub tabulate-get_or : (xs : List A) (d : A) → tabulate (length xs) (λ i. get_or xs i d) ≡ xs
  tabulate-get_or [] d = refl
  tabulate-get_or (x ∷ xs) d = ap (λ l. x ∷ l) (tabulate-get_or xs d)

-- Writing a block of elements, one after the other.
module _ {ℓ} {A : Type ℓ} where
  abbrev pub set_block : List A → ℕ → List A → List A
  set_block xs i [] = xs
  set_block xs i (v ∷ vs) = set_block (set xs i v) (suc i) vs

module _ {ℓ} {A : Type ℓ} where
  pub length-set_block : (vs xs : List A) (i : ℕ) → length (set_block xs i vs) ≡ length xs
  length-set_block [] xs i = refl
  length-set_block (v ∷ vs) xs i = rw (length-set_block vs (set xs i v) (suc i)) (length-set xs i v)

  pub get_or-set_block_before :
      (vs xs : List A) (i j : ℕ) (d : A) → j < i → get_or (set_block xs i vs) j d ≡ get_or xs j d
  get_or-set_block_before [] xs i j d h = refl
  get_or-set_block_before (v ∷ vs) xs i j d h =
      rw (get_or-set_block_before vs (set xs i v) (suc i) j d (omega arith))
        (get_or-set_ne xs i j v d (omega arith))

  pub get_or-set_block_after :
      (vs xs : List A) (i j : ℕ) (d : A)
      → i + length vs ≤ j
      → get_or (set_block xs i vs) j d ≡ get_or xs j d
  get_or-set_block_after [] xs i j d h = refl
  get_or-set_block_after (v ∷ vs) xs i j d h =
      rw (get_or-set_block_after vs (set xs i v) (suc i) j d (omega arith))
        (get_or-set_ne xs i j v d (omega arith))

  pub get_or-set_block :
      (vs xs : List A) (i k : ℕ) (d : A)
      → k < length vs
      → i + length vs ≤ length xs
      → get_or (set_block xs i vs) (i + k) d ≡ get_or vs k d
  get_or-set_block [] xs i k d h w = elim h [ ]
  get_or-set_block (v ∷ vs) xs i zero d h w =
      rw (add-zero, get_or-set_block_before vs (set xs i v) (suc i) i d (omega arith))
        (get_or-set_self xs i v d (omega arith))
  get_or-set_block (v ∷ vs) xs i (suc k) d h w =
      rw (add-suc, ← suc-add)
        (get_or-set_block vs (set xs i v) (suc i) k d (omega arith)
          (omega (arith, length-set xs i v)))

  pub set_block-cons :
      (x : A) (xs vs : List A) (i : ℕ) → set_block (x ∷ xs) (suc i) vs ≡ x ∷ set_block xs i vs
  set_block-cons x xs [] i = refl
  set_block-cons x xs (v ∷ vs) i = set_block-cons x (set xs i v) vs (suc i)

  pub length-drop : (n : ℕ) (xs : List A) → length (drop n xs) ≡ length xs - n
  length-drop zero xs = omega arith
  length-drop (suc n) [] = omega arith
  length-drop (suc n) (x ∷ xs) = omega (arith, length-drop n xs)

  -- A block at the start of a list long enough replaces its first elements.
  pub set_block_start :
      (vs xs : List A) → length vs ≤ length xs → set_block xs 0 vs ≡ vs ++ drop (length vs) xs
  set_block_start [] xs h = refl
  set_block_start (v ∷ vs) [] h = absurd (omega arith)
  set_block_start (v ∷ vs) (x ∷ xs) h =
      rw (set_block-cons v xs vs 0) (ap (λ l. v ∷ l) (set_block_start vs xs (omega arith)))

  pub set_block-append :
      (a b xs : List A) (i : ℕ)
      → set_block xs i (a ++ b) ≡ set_block (set_block xs i a) (i + length a) b
  set_block-append [] b xs i = ap (λ j. set_block xs j b) (omega arith)
  set_block-append (v ∷ a) b xs i =
      set_block-append a b (set xs i v) (suc i)
      ∙ ap (λ j. set_block (set_block (set xs i v) (suc i) a) j b) (omega arith)
