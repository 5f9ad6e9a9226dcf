-- ===== src/Alps/Decode/V7/Finger.antt =====
-- The coordinates of the first finger of a V7 packet, as numbers.
use voodoo_ps2_alps.Base.{ℕ, ◌+◌, ◌*◌, ◌/◌, ◌%◌, ◌<◌, List, at, sub32, ◌≡◌, ◌∙◌, arith}
use voodoo_ps2_alps.Base.Bits.{field, or_add, bit_and-ones}
use voodoo_ps2_alps.Alps.Decode.V7.{V7PacketId, raw_coordinate0_v7, alps_get_finger_coordinate_v7}

raw_x :
    (p : List ℕ)
    → (raw_coordinate0_v7 p).x
      ≡ at p 2 / 128 % 2 * 2048 + at p 2 % 64 * 32 + at p 3 / 16 % 4 * 8 + at p 3 % 8
unfolding raw_coordinate0_v7
raw_x p =
    let high = at p 2 / 128 % 2 * 128 * 16 in
    let middle = at p 2 % 64 * 32 in
    let low = at p 3 / 16 % 4 * 16 / 2 in
    rw (field 1 7 (at p 2), bit_and-ones 6 (at p 2), field 2 4 (at p 3), bit_and-ones 3 (at p 3))
      (rw (or_add 11 high middle (omega arith) (omega arith)) (
        rw (or_add 5 (high + middle) low (omega arith) (omega arith))
          (or_add 3 (high + middle + low) (at p 3 % 8) (omega arith) (omega arith) ∙ omega arith)))

raw_y : (p : List ℕ) → (raw_coordinate0_v7 p).y ≡ at p 1 * 8 + at p 0 % 8
unfolding raw_coordinate0_v7
raw_y p =
    rw (bit_and-ones 3 (at p 0)) (or_add 3 (at p 1 * 8) (at p 0 % 8) (omega arith) (omega arith))

-- The first finger of a V7 packet of bytes, whatever the kind of the packet: x has 12 bits, and
-- is put together from the bytes 2 and 3; y has 11 bits, and is reversed against 0x7ff, so that
-- reversing it against the same number once more, as the report does, gives the bits of the packet.
pub finger_coordinate_lem :
    (p : List ℕ) (id : V7PacketId)
    → at p 1 < 256
    → ((alps_get_finger_coordinate_v7 p id).0.x
        ≡ at p 2 / 128 % 2 * 2048 + at p 2 % 64 * 32 + at p 3 / 16 % 4 * 8 + at p 3 % 8)
      × ((alps_get_finger_coordinate_v7 p id).0.x < 4096)
      × ((alps_get_finger_coordinate_v7 p id).0.y < 2048)
      × (sub32 0x7ff (alps_get_finger_coordinate_v7 p id).0.y ≡ at p 1 * 8 + at p 0 % 8)
unfolding alps_get_finger_coordinate_v7
finger_coordinate_lem p id h =
    (raw_x p, omega (arith, raw_x p), omega (arith, raw_y p), omega (arith, raw_y p))
