-- ===== src/Base/Bits.antt =====
-- Laws of `&` and `|` at variables: a contiguous mask picks a field, and disjoint fields add up.
use Prim.Native.Nat.{
  ℕ, zero, suc, ◌+◌, ◌*◌, ◌/◌, ◌%◌, ◌^◌, ◌≤◌, ◌<◌, min, max, bit_and, bit_or, digits,
  bit_and-bitwise, bit_or-bitwise,
}
use mathlib.Core.Path.{◌≡◌, refl, ap, sym, ◌∙◌}
use native.Mathlib.Nat.{pow-suc, one-le-pow, div-div-eq-div-mul, div-add-mod, mul-one, div-one}
use native.Mathlib.Omega.{arith}

-- The native operations stand for a recursion on binary digits with fuel. Each step lemma drops it.
module _ (z : ℕ → ℕ) (f : ℕ → ℕ → ℕ) where
  enough_fuel : (n m a b : ℕ) → a ≤ n → a ≤ m → digits z f n a b ≡ digits z f m a b
  enough_fuel zero zero a b p q = refl
  enough_fuel zero (suc m) zero b p q = refl
  enough_fuel zero (suc m) (suc a) b p q = absurd (omega arith)
  enough_fuel (suc n) zero zero b p q = refl
  enough_fuel (suc n) zero (suc a) b p q = absurd (omega arith)
  enough_fuel (suc n) (suc m) zero b p q = refl
  enough_fuel (suc n) (suc m) (suc a) b p q =
      ap (λ (t : ℕ). t * 2 + f (suc a % 2) (b % 2))
        (enough_fuel n m (suc a / 2) (b / 2) (omega arith) (omega arith))

pub bit_and_step : (a b : ℕ) → bit_and a b ≡ bit_and (a / 2) (b / 2) * 2 + min (a % 2) (b % 2)
bit_and_step zero b = omega (arith, bit_and-bitwise 0 b, bit_and-bitwise 0 (b / 2))
bit_and_step (suc a) b = omega (
  arith,
  bit_and-bitwise (suc a) b,
  bit_and-bitwise (suc a / 2) (b / 2),
  enough_fuel (λ t. 0) min a (suc a / 2) (suc a / 2) (b / 2) (omega arith) (omega arith),
)

pub bit_or_step : (a b : ℕ) → bit_or a b ≡ bit_or (a / 2) (b / 2) * 2 + max (a % 2) (b % 2)
bit_or_step zero b = omega (arith, bit_or-bitwise 0 b, bit_or-bitwise 0 (b / 2))
bit_or_step (suc a) b = omega (
  arith,
  bit_or-bitwise (suc a) b,
  bit_or-bitwise (suc a / 2) (b / 2),
  enough_fuel (λ t. t) max a (suc a / 2) (suc a / 2) (b / 2) (omega arith) (omega arith),
)

and-zero_below : (n a : ℕ) → a ≤ n → bit_and a 0 ≡ 0
and-zero_below n zero h = refl
and-zero_below zero (suc a) h = absurd (omega arith)
and-zero_below (suc n) (suc a) h =
    omega (arith, bit_and_step (suc a) 0, and-zero_below n (suc a / 2) (omega arith))

or-zero_below : (n a : ℕ) → a ≤ n → bit_or a 0 ≡ a
or-zero_below n zero h = refl
or-zero_below zero (suc a) h = absurd (omega arith)
or-zero_below (suc n) (suc a) h =
    omega (arith, bit_or_step (suc a) 0, or-zero_below n (suc a / 2) (omega arith))

pub bit_and-zero : (a : ℕ) → bit_and a 0 ≡ 0
bit_and-zero a = and-zero_below a a (omega arith)

pub bit_or-zero : (a : ℕ) → bit_or a 0 ≡ a
bit_or-zero a = or-zero_below a a (omega arith)

pub zero-bit_or : (b : ℕ) → bit_or 0 b ≡ b
zero-bit_or b = below b b (omega arith)
  where
    below : (n b : ℕ) → b ≤ n → bit_or 0 b ≡ b
    below n zero h = refl
    below zero (suc b) h = absurd (omega arith)
    below (suc n) (suc b) h =
        omega (arith, bit_or_step 0 (suc b), below n (suc b / 2) (omega arith))

pub zero-bit_and : (b : ℕ) → bit_and 0 b ≡ 0
zero-bit_and b = bit_and-bitwise 0 b

-- `(1 << n) - 1`
abbrev pub ones : ℕ → ℕ
ones zero = 0
ones (suc n) = ones n * 2 + 1

mod-double : (x m : ℕ) → 0 < m → x % (m * 2) ≡ x / 2 % m * 2 + x % 2
mod-double x m h = grind (arith, div-add-mod (x / 2) m)

ones-half : (n : ℕ) → ones (suc n) / 2 ≡ ones n
ones-half n = omega arith

ones-odd : (n : ℕ) → ones (suc n) % 2 ≡ 1
ones-odd n = omega arith

-- A mask of low ones is a remainder.
pub bit_and-ones : (n x : ℕ) → bit_and x (ones n) ≡ x % 2 ^ n
bit_and-ones zero x = omega (arith, bit_and-zero x)
bit_and-ones (suc n) x =
    bit_and_step x (ones (suc n))
    ∙ rw
        (
          ones-half n,
          ones-odd n,
          bit_and-ones n (x / 2),
          pow-suc,
          mod-double x (2 ^ n) (one-le-pow n 2 (omega arith)),
        )
        (omega arith)

-- A mask that is shifted masks the shifted number.
pub bit_and-shifted : (k m x : ℕ) → bit_and x (m * 2 ^ k) ≡ bit_and (x / 2 ^ k) m * 2 ^ k
bit_and-shifted zero m x = rw (mul-one, mul-one, div-one)
bit_and-shifted (suc k) m x =
    let half : m * 2 ^ suc k / 2 ≡ m * 2 ^ k = omega (arith, ap (λ (t : ℕ). m * t) (pow-suc 2 k)) in
    let even : m * 2 ^ suc k % 2 ≡ 0 = omega (arith, ap (λ (t : ℕ). m * t) (pow-suc 2 k)) in
    let split : x / 2 ^ suc k ≡ x / 2 / 2 ^ k =
      rw div-div-eq-div-mul (ap (λ (t : ℕ). x / t) (omega (arith, pow-suc 2 k))) in
    bit_and_step x (m * 2 ^ suc k)
    ∙ rw (half, even, split, bit_and-shifted k m (x / 2))
        (omega (arith, ap (λ (t : ℕ). bit_and (x / 2 / 2 ^ k) m * t) (pow-suc 2 k)))

-- A contiguous mask picks a field: `n` bits, from bit `k` on.
pub field : (n k x : ℕ) → bit_and x (ones n * 2 ^ k) ≡ x / 2 ^ k % 2 ^ n * 2 ^ k
field n k x = bit_and-shifted k (ones n) x ∙ ap (λ (t : ℕ). t * 2 ^ k) (bit_and-ones n (x / 2 ^ k))

-- Fields that do not overlap add up.
pub or_disjoint : (k a b : ℕ) → b < 2 ^ k → bit_or (a * 2 ^ k) b ≡ a * 2 ^ k + b
or_disjoint zero a b h =
    let none : b ≡ 0 = omega arith in rw (none, mul-one) (omega (arith, bit_or-zero a))
or_disjoint (suc k) a b h =
    let twice : a * 2 ^ suc k ≡ a * 2 ^ k * 2 =
      omega (arith, ap (λ (t : ℕ). a * t) (pow-suc 2 k)) in
    let half : a * 2 ^ k * 2 / 2 ≡ a * 2 ^ k = omega arith in
    let even : a * 2 ^ k * 2 % 2 ≡ 0 = omega arith in
    rw twice (
      bit_or_step (a * 2 ^ k * 2) b
      ∙ rw (half, even, or_disjoint k a (b / 2) (omega (arith, pow-suc 2 k))) (omega arith))

-- The same for a number whose low `k` bits are clear
pub or_add : (k a b : ℕ) → a % 2 ^ k ≡ 0 → b < 2 ^ k → bit_or a b ≡ a + b
or_add k a b clear h =
    let split : a ≡ a / 2 ^ k * 2 ^ k = grind (arith, div-add-mod a (2 ^ k)) in
    ap (λ (t : ℕ). bit_or t b) split
    ∙ or_disjoint k (a / 2 ^ k) b h
    ∙ ap (λ (t : ℕ). t + b) (sym split)

field_example : (x : ℕ) → bit_and x 0x78 ≡ x / 8 % 16 * 8
field_example x = field 4 3 x

or_comm_below : (n a b : ℕ) → a ≤ n → b ≤ n → bit_or a b ≡ bit_or b a
or_comm_below zero zero zero p q = refl
or_comm_below zero (suc a) b p q = absurd (omega arith)
or_comm_below zero zero (suc b) p q = absurd (omega arith)
or_comm_below (suc n) a b p q = omega (
  arith,
  bit_or_step a b,
  bit_or_step b a,
  or_comm_below n (a / 2) (b / 2) (omega arith) (omega arith),
)

pub bit_or_comm : (a b : ℕ) → bit_or a b ≡ bit_or b a
bit_or_comm a b = or_comm_below (a + b) a b (omega arith) (omega arith)
