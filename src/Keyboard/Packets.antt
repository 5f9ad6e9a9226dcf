-- ===== src/Keyboard/Packets.antt =====
-- The packets of VoodooPS2Keyboard/VoodooPS2Keyboard.h: 16 bytes, of which the first two are the
-- key data and the last eight a timestamp, a UInt64 with its low byte first.
use voodoo_ps2_alps.Base.{
  ℕ, zero, suc, ◌+◌, ◌*◌, ◌/◌, ◌%◌, ◌^◌, ◌<◌, ◌≡◌, refl, arith, List, [], ◌∷◌, get_or, length,
  tabulate,
}
use native.Mathlib.Nat.{pow-suc}

-- `kPacketLength`, `kPacketTimeOffset`, `kPacketKeyDataLength`
abbrev pub packet_length : ℕ
packet_length = 16

abbrev pub packet_time_offset : ℕ
packet_time_offset = 8

abbrev pub packet_key_data_length : ℕ
packet_key_data_length = 2

unfoldable pub le_bytes : ℕ → ℕ → List ℕ
le_bytes zero t = []
le_bytes (suc n) t = (t % 256) ∷ le_bytes n (t / 256)

unfoldable pub from_le : List ℕ → ℕ
from_le [] = 0
from_le (b ∷ bs) = b + 256 * from_le bs

-- `*(uint64_t*)(&packet[kPacketTimeOffset])`
unfoldable pub packet_time : List ℕ → ℕ
unfolding from_le
packet_time packet = from_le (tabulate 8 (λ i. get_or packet (packet_time_offset + i) 0))

pub length-le_bytes : (n t : ℕ) → length (le_bytes n t) ≡ n
unfolding le_bytes
length-le_bytes zero t = refl
length-le_bytes (suc n) t = omega (arith, length-le_bytes n (t / 256))

pub from_le-le_bytes : (n t : ℕ) → t < 256 ^ n → from_le (le_bytes n t) ≡ t
unfolding le_bytes from_le
from_le-le_bytes zero t h = omega arith
from_le-le_bytes (suc n) t h =
    let e : 256 ^ suc n ≡ 256 ^ n * 256 = pow-suc 256 n in
    let low : t / 256 < 256 ^ n = omega (arith, e) in
    omega (arith, from_le-le_bytes n (t / 256) low)
