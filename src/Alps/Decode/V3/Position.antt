-- ===== src/Alps/Decode/V3/Position.antt =====
-- The position and the pressure that the V3 decoders read, against an encoder.
use native.Mathlib.Nat.{one-le-pow, zero-mul}
use Prim.Native.Nat.{bit_and}
use voodoo_ps2_alps.Base.{
  ◌⊎◌, inl, inr, ℕ, ◌+◌, ◌*◌, ◌/◌, ◌%◌, ◌^◌, ◌<◌, ◌&◌, List, [], ◌∷◌, at, ◌≡◌, refl, ◌∙◌, arith, nz,
  of_bool,
}
use voodoo_ps2_alps.Base.Bits.{field, or_add, bit_and-ones}
use voodoo_ps2_alps.Alps.Types.{AlpsFields, MtPos, zero_fields}
use voodoo_ps2_alps.Alps.Decode.V3.{
  alps_decode_buttons_v3, position_x, position_y, alps_decode_pinnacle, alps_decode_rushmore,
}

pub position_x_lem :
    (p : List ℕ) → position_x p ≡ at p 1 % 128 * 16 + at p 4 / 16 % 4 * 4 + at p 0 / 16 % 4
unfolding position_x
position_x_lem p =
    rw (bit_and-ones 7 (at p 1), field 2 4 (at p 4), field 2 4 (at p 0))
      (rw (or_add 4 (at p 1 % 128 * 16) (at p 4 / 16 % 4 * 16 / 4) (omega arith) (omega arith)) (
        or_add 2 (at p 1 % 128 * 16 + at p 4 / 16 % 4 * 16 / 4) (at p 0 / 16 % 4 * 16 / 16)
          (omega arith) (omega arith)
        ∙ omega arith))

pub position_y_lem : (p : List ℕ) → position_y p ≡ at p 2 % 128 * 16 + at p 4 % 16
unfolding position_y
position_y_lem p =
    rw (bit_and-ones 7 (at p 2), bit_and-ones 4 (at p 4))
      (or_add 4 (at p 2 % 128 * 16) (at p 4 % 16) (omega arith) (omega arith))

-- The bits for the position, the pressure and the buttons, in a packet of the pinnacle and rushmore devices
abbrev pub encode_v3 : MtPos → ℕ → ℕ → List ℕ
encode_v3 st z buttons =
    (0x8f + st.x % 4 * 16)
    ∷ (st.x / 16)
    ∷ (st.y / 16)
    ∷ buttons
    ∷ (st.x / 4 % 4 * 16 + st.y % 16)
    ∷ z
    ∷ []

module _ (st : MtPos) (z : ℕ) (x_small : st.x < 2048) (y_small : st.y < 2048) where
  encode_x : (b : ℕ) → position_x (encode_v3 st z b) ≡ st.x
  encode_x b = position_x_lem (encode_v3 st z b) ∙ omega arith

  encode_y : (b : ℕ) → position_y (encode_v3 st z b) ≡ st.y
  encode_y b = position_y_lem (encode_v3 st z b) ∙ omega arith

  no_bitmap : ((0x8f + st.x % 4 * 16) & 0x40) ≡ 0
  no_bitmap = field 1 6 (0x8f + st.x % 4 * 16) ∙ omega arith

  no_first : ((st.x / 4 % 4 * 16 + st.y % 16) & 0x40) ≡ 0
  no_first = field 1 6 (st.x / 4 % 4 * 16 + st.y % 16) ∙ omega arith

-- What a decoder should return
abbrev pub position_fields : MtPos → ℕ → ℕ → AlpsFields
position_fields st z buttons = record zero_fields {
  st = st;
  pressure = z;
  left = buttons % 2;
  right = buttons / 2 % 2;
  middle = buttons / 4 % 2;
  ts_left = buttons / 16 % 2;
  ts_right = buttons / 32 % 2;
  ts_middle = buttons / 64 % 2;
}

nz_scaled : (m x : ℕ) → 0 < m → of_bool (nz (x % 2 * m)) ≡ x % 2
nz_scaled m x h = elim (two_cases (x % 2) (omega arith)) [
  | inl e ↦ rw (e, zero-mul) refl
  | inr e ↦ rw e (ground arith)
]
  where
    two_cases : (b : ℕ) → b < 2 → (b ≡ 0) ⊎ (b ≡ 1)
    two_cases b h = ground arith

-- A one-bit field that is set if bit `k` of a byte is
flag_lem : (k x : ℕ) → of_bool (nz (bit_and x (1 * 2 ^ k))) ≡ x / 2 ^ k % 2
flag_lem k x = rw (field 1 k x) (nz_scaled (2 ^ k) (x / 2 ^ k) (one-le-pow k 2 (omega arith)))

-- The button byte of a packet is read bit by bit.
pub buttons_lem :
    (f : AlpsFields) (p : List ℕ)
    → alps_decode_buttons_v3 f p ≡ record f {
      left = at p 3 % 2;
      right = at p 3 / 2 % 2;
      middle = at p 3 / 4 % 2;
      ts_left = at p 3 / 16 % 2;
      ts_right = at p 3 / 32 % 2;
      ts_middle = at p 3 / 64 % 2;
    }
unfolding alps_decode_buttons_v3
buttons_lem f p =
    let low : of_bool (nz (at p 3 & 0x01)) ≡ at p 3 % 2 = flag_lem 0 (at p 3) ∙ omega arith in
    rw
      (
        low,
        flag_lem 1 (at p 3),
        flag_lem 2 (at p 3),
        flag_lem 4 (at p 3),
        flag_lem 5 (at p 3),
        flag_lem 6 (at p 3),
      )
      refl

module _ (st : MtPos) (z buttons : ℕ) (x_small : st.x < 2048) (y_small : st.y < 2048)
    (z_small : z < 128) where
  low_pressure : z & 0x7f ≡ z
  low_pressure = bit_and-ones 7 z ∙ omega arith

  no_rushmore_bitmap : z & 0x40 ≡ z / 64 * 64
  no_rushmore_bitmap = field 1 6 z ∙ omega arith

  -- A position packet with a position, a pressure and buttons is decoded to these, and to nothing
  -- else, by the decoder of the Pinnacle devices.
  pub pinnacle_roundtrip :
      alps_decode_pinnacle zero_fields (encode_v3 st z buttons) ≡ position_fields st z buttons
  unfolding alps_decode_pinnacle
  pinnacle_roundtrip =
      rw (no_bitmap st z x_small y_small, no_first st z x_small y_small)
        (rw
          (
            encode_x st z x_small y_small buttons,
            encode_y st z x_small y_small buttons,
            low_pressure,
          )
          (buttons_lem (record zero_fields { st = st; pressure = z }) (encode_v3 st z buttons)))

  -- For the Rushmore devices this holds of a pressure under 64: bit 6 of the same byte marks a bitmap.
  pub rushmore_roundtrip :
      z < 64
      → alps_decode_rushmore zero_fields (encode_v3 st z buttons) ≡ position_fields st z buttons
  unfolding alps_decode_rushmore
  rushmore_roundtrip h =
      let no : z & 0x40 ≡ 0 = no_rushmore_bitmap ∙ omega arith in
      rw (no, no_first st z x_small y_small)
        (rw
          (
            encode_x st z x_small y_small buttons,
            encode_y st z x_small y_small buttons,
            low_pressure,
          )
          (buttons_lem (record zero_fields { st = st; pressure = z }) (encode_v3 st z buttons)))
