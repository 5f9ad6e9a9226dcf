-- ===== src/Base/Words.antt =====
-- C's operators on unsigned words. The operands that the driver shifts are bytes or short fields,
-- so no shift loses bits in 32; where one could, the model writes the wrap out.
use Prim.Native.Nat.{ℕ, ◌+◌, ◌-◌, ◌*◌, ◌/◌, ◌%◌, ◌^◌, bit_and, bit_or}
use mathlib.Core.List.{List}
use voodoo_ps2_alps.Base.Lists.{get_or}

infixl 62 ◌≪◌ ◌≫◌
infixl 60 ◌&◌
infixl 58 ◌¦◌
-- `a << k`
abbrev pub ◌≪◌ : ℕ → ℕ → ℕ
a ≪ k = a * 2 ^ k

-- `a >> k`
abbrev pub ◌≫◌ : ℕ → ℕ → ℕ
a ≫ k = a / 2 ^ k

-- `a & b`
abbrev pub ◌&◌ : ℕ → ℕ → ℕ
a & b = bit_and a b

-- `a | b`
abbrev pub ◌¦◌ : ℕ → ℕ → ℕ
a ¦ b = bit_or a b

-- Casts to UInt8, UInt32 and to a one-bit field.
abbrev pub u8 : ℕ → ℕ
u8 n = n % 256

abbrev pub u32 : ℕ → ℕ
u32 n = n % 2 ^ 32

abbrev pub bit1 : ℕ → ℕ
bit1 n = n % 2

-- UInt32 `a - b`
abbrev pub sub32 : ℕ → ℕ → ℕ
sub32 a b = (a + 2 ^ 32 - b % 2 ^ 32) % 2 ^ 32

-- `p[i]` of a packet. The driver reads inside the packet.
abbrev pub at : List ℕ → ℕ → ℕ
at p i = get_or p i 0
