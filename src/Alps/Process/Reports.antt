-- ===== src/Alps/Process/Reports.antt =====
-- What the handlers report: the buttons that reports carry, and the touches of a new finger.
use voodoo_ps2_alps.Base.{
  ◌≢◌, ℕ, ◌≤◌, ◌&◌, List, [], ◌∷◌, at, ◌≡◌, inl, inr, refl, ap, ◌∙◌, arith, true, false, Bool, nz,
  bit1, Bool-cases, ltb, ◌==◌, if◌then◌else◌,
}
use voodoo_ps2_alps.Base.Bits.{field}
use voodoo_ps2_alps.Base.Int.{ℤ}
use voodoo_ps2_alps.Alps.Types.{Driver, AlpsFields, zero_fields, packet_v7, Action, touch}
use voodoo_ps2_alps.Alps.Decode.{decode}
use voodoo_ps2_alps.Alps.Process.V1V2.{buttons_of}
use voodoo_ps2_alps.Alps.Decode.V7.{
  new, alps_get_packet_id_v7, alps_decode_packet_v7, alps_decode_by_id_v7,
}
use voodoo_ps2_alps.Alps.Process.V7.{
  alps_process_packet_v7, alps_process_touchpad_packet_v7, report_v7,
}
use voodoo_ps2_alps.Alps.Process.V4.{fields_v4, process_part_v4, alps_process_packet_v4}

-- A list of calls that is empty or one touch, whose buttons are at most the left one
pub data OnlyLeft : List Action → Type 0 where
  no_call : OnlyLeft []
  one_touch :
      (x y : ℤ) (z fingers buttons : ℕ) → buttons ≤ 1 → OnlyLeft (touch x y z fingers buttons ∷ [])

right_v4 : (packet : List ℕ) → (fields_v4 packet).right ≡ 0
unfolding fields_v4
right_v4 packet = ap bit1 (field 1 1 (at packet 4)) ∙ omega arith

left_only : (b : Bool) → buttons_of b false false ≤ 1
unfolding buttons_of
left_only true = omega arith
left_only false = omega arith

no_right : (f : AlpsFields) → f.right ≡ 0 → buttons_of (nz f.left) (nz f.right) false ≤ 1
no_right f e = rw e (left_only (nz f.left))

part-OnlyLeft :
    (d : Driver) (packet : List ℕ) (part : ℕ) → OnlyLeft (process_part_v4 d packet part).1
unfolding process_part_v4
part-OnlyLeft d packet part = elim (Bool-cases (ltb 2 part)) [
  | inl e ↦ rw (e, process_part_v4) no_call
  | inr e ↦
      rw (e, process_part_v4) (one_touch _ _ _ _ _ (no_right (fields_v4 packet) (right_v4 packet)))
]

-- Whatever the packet, the V4 handler makes at most one report, and reports no button but the left
-- one: the bit of the right button is lost when it is stored in a field of one bit.
pub v4-OnlyLeft : (d : Driver) (packet : List ℕ) → OnlyLeft (alps_process_packet_v4 d packet).1
unfolding alps_process_packet_v4
v4-OnlyLeft d packet =
    part-OnlyLeft d packet (if nz (at packet 6 & 0x40) then 0 else d.priv.multi_packet)

not_equal : (a b : ℕ) → a ≢ b → (a == b) ≡ false
not_equal a b h = ground arith

-- A packet of the kind NEW is not ignored: if its first byte is not that of a stick packet, the V7
-- handler reports a touch with no finger, no pressure and none of the touchpad's buttons.
pub v7_new-report_v7 :
    (d : Driver) (packet : List ℕ)
    → d.decode_fields ≡ packet_v7
    → alps_get_packet_id_v7 packet ≡ new
    → at packet 0 ≢ 0x48
    → alps_process_packet_v7 d packet ≡ report_v7 d zero_fields
unfolding alps_process_packet_v7 alps_process_touchpad_packet_v7 decode alps_decode_packet_v7
    alps_decode_by_id_v7
v7_new-report_v7 d packet decoder id other =
    let a : (at packet 0 == 0x48) ≡ false = not_equal (at packet 0) 0x48 other in
    rw (alps_process_packet_v7, a) (rw (decoder, decode, alps_decode_packet_v7, id) refl)
