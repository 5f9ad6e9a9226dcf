-- ===== src/Alps/HwInit/Resolution.antt =====
-- `alps_get_v3_v7_resolution` never divides by zero, and what it stores.
use voodoo_ps2_alps.Base.{
  ℕ, ◌+◌, ◌-◌, ◌*◌, ◌/◌, ◌%◌, ◌≤◌, ◌<◌, ◌≡◌, ap, ap₂, ◌∙◌, arith, if◌then◌else◌, ltb,
}
use native.Mathlib.Nat.{mul-le-mul}
use voodoo_ps2_alps.Base.Int.{ℤ, pos, pos_part, ◌+ℤ◌, ◌-ℤ◌, ◌*ℤ◌}
use voodoo_ps2_alps.Alps.Types.{AlpsData}
use voodoo_ps2_alps.Alps.HwInit.Inits.{signed4, x_phys, y_phys, with_resolution}

-- The two factors of a size, each from four bits
pitch_lem :
    (base n : ℕ)
    → 16 < base
    → n < 16
    → (k : ℕ) × (pos base +ℤ pos 2 *ℤ signed4 n ≡ pos k) × (base - 16 ≤ k) × (k ≤ base + 14)
unfolding ◌+ℤ◌ ◌*ℤ◌
pitch_lem base n b h = (
  (if ltb n 8 then base + 2 * n else base + 2 * n - 32),
  ground arith,
  ground arith,
  ground arith,
)

electrode_lem :
    (base n : ℕ)
    → 9 < base
    → n < 16
    → (k : ℕ) × (pos base +ℤ signed4 n -ℤ pos 1 ≡ pos k) × (base - 9 ≤ k) × (k ≤ base + 6)
unfolding ◌+ℤ◌ ◌-ℤ◌
electrode_lem base n b h =
    ((if ltb n 8 then base + n - 1 else base + n - 17), ground arith, ground arith, ground arith)

product : (k m : ℕ) → pos k *ℤ pos m ≡ pos (k * m)
unfolding ◌*ℤ◌
product k m = ground arith

-- The sizes in 0.1 mm
sizes :
    (pitch electrode : ℕ)
    → (w : ℕ) × (h : ℕ) × (x_phys pitch electrode ≡ pos w)
      × (y_phys pitch electrode ≡ pos h)
      × (272 ≤ w)
      × (w ≤ 1472)
      × (80 ≤ h)
      × (h ≤ 950)
unfolding x_phys y_phys
sizes pitch electrode =
    let (k, e, p, p') = pitch_lem 50 (pitch % 16) (omega arith) (omega arith) in
    let (m, f, q, q') = electrode_lem 17 (electrode % 16) (omega arith) (omega arith) in
    let (k', e', r, r') = pitch_lem 36 (pitch / 16 % 16) (omega arith) (omega arith) in
    let (m', f', t, t') = electrode_lem 13 (electrode / 16 % 16) (omega arith) (omega arith) in
    (
      k * m,
      k' * m',
      ap₂ (λ (a b : ℤ). a *ℤ b) e f ∙ product k m,
      ap₂ (λ (a b : ℤ). a *ℤ b) e' f' ∙ product k' m',
      mul-le-mul p q,
      mul-le-mul p' q',
      mul-le-mul r t,
      mul-le-mul r' t',
    )

-- Whatever the two registers hold, the sizes are positive numbers, of 272 to 1472 and of 80 to 950, and
-- the resolutions are ten times the largest positions divided by them.
pub with_resolution_lem :
    (priv : AlpsData) (pitch electrode : ℕ)
    → (w : ℕ) × (h : ℕ) × (x_phys pitch electrode ≡ pos w)
      × (y_phys pitch electrode ≡ pos h)
      × (272 ≤ w)
      × (w ≤ 1472)
      × (80 ≤ h)
      × (h ≤ 950)
      × ((with_resolution priv pitch electrode).x_res ≡ priv.x_max * 10 / w)
      × ((with_resolution priv pitch electrode).y_res ≡ priv.y_max * 10 / h)
unfolding with_resolution
with_resolution_lem priv pitch electrode =
    let (w, h, e, f, p, p', q, q') = sizes pitch electrode in
    (
      w,
      h,
      e,
      f,
      p,
      p',
      q,
      q',
      ap (λ (t : ℤ). priv.x_max * 10 / pos_part t) e,
      ap (λ (t : ℤ). priv.y_max * 10 / pos_part t) f,
    )
