-- ===== src/Alps/Process/Pair.antt =====
-- The pairs of packets of the V3 and V5 handlers: a position, and the bitmap that completes it.
use voodoo_ps2_alps.Base.{
  Option, sym, ℕ, ◌+◌, ◌≤◌, ◌&◌, sub32, of_bool, none, List, [], ◌∷◌, at, ◌≡◌, inl, inr, refl, ap,
  ◌∙◌, arith, true, false, nz, Bool-cases, ltb, ◌==◌, ◌||◌, if◌then◌else◌,
}
use voodoo_ps2_alps.Base.Int.{int32}
use voodoo_ps2_alps.Alps.Types.{
  Driver, AlpsData, AlpsFields, zero_fields, pinnacle, touch, MtPos, Handled,
}
use voodoo_ps2_alps.Alps.Decode.{decode}
use voodoo_ps2_alps.Alps.Decode.V3.{
  alps_decode_pinnacle, alps_decode_buttons_v3, position_x, position_y,
}
use voodoo_ps2_alps.Alps.Bitmap.{alps_process_bitmap}
use voodoo_ps2_alps.Alps.Process.V3.{
  saved, buttons_v3_v5, merge_v3_v5, report_v3_v5, act_v3_v5, alps_process_touchpad_packet_v3_v5,
}

-- The driver that holds a first packet, and waits for the bitmap
abbrev pub waiting : Driver → List ℕ → Driver
waiting d first = record d { priv = record (d.priv) { multi_packet = 1; multi_data = saved first } }

first_merged :
    (d : Driver) (p : List ℕ)
    → d.priv.multi_packet ≡ 0
    → merge_v3_v5 d p ≡ (d.priv, (decode d.decode_fields d.priv zero_fields p).1, 0)
unfolding merge_v3_v5
first_merged d p idle =
    let a : nz d.priv.multi_packet ≡ false = ap nz idle in rw (merge_v3_v5, a) refl

saves :
    (d : Driver) (packet : List ℕ) (priv : AlpsData) (f : AlpsFields) (n : ℕ)
    → priv.multi_packet ≡ 0
    → f.is_mp ≡ 0
    → f.first_mp ≡ 1
    → act_v3_v5 d packet (priv, f, n)
      ≡ (record d { priv = record priv { multi_packet = 1; multi_data = saved packet } }, [])
unfolding act_v3_v5
saves d packet priv f n idle position more =
    let a : nz priv.multi_packet ≡ false = ap nz idle in
    let b : nz f.is_mp ≡ false = ap nz position in
    let c : nz f.first_mp ≡ true = ap nz more in rw (act_v3_v5, b, a, c) refl

reports :
    (d : Driver) (packet : List ℕ) (priv : AlpsData) (f : AlpsFields) (n : ℕ)
    → priv.multi_packet ≡ 1
    → f.is_mp ≡ 0
    → act_v3_v5 d packet (priv, f, n) ≡ report_v3_v5 d priv f n
unfolding act_v3_v5
reports d packet priv f n waits position =
    let a : nz priv.multi_packet ≡ true = ap nz waits in
    let b : nz f.is_mp ≡ false = ap nz position in rw (act_v3_v5, b, a) refl

bitmap_waits :
    (priv : AlpsData) (f : AlpsFields)
    → (alps_process_bitmap priv f).1.multi_packet ≡ priv.multi_packet
unfolding alps_process_bitmap
bitmap_waits priv f = elim (Bool-cases (f.x_map == 0 || f.y_map == 0)) [
  | inl e ↦ rw (e, alps_process_bitmap) refl
  | inr e ↦ rw (e, alps_process_bitmap) refl
]

bitmap_same : (priv : AlpsData) (f : AlpsFields) → (alps_process_bitmap priv f).2.is_mp ≡ f.is_mp
unfolding alps_process_bitmap
bitmap_same priv f = elim (Bool-cases (f.x_map == 0 || f.y_map == 0)) [
  | inl e ↦ rw (e, alps_process_bitmap) refl
  | inr e ↦ rw (e, alps_process_bitmap) refl
]

module _ (d : Driver) (second : List ℕ) where
  -- the fields of the second packet, and those of both
  abbrev pub bitmap_fields : AlpsFields
  bitmap_fields = (decode d.decode_fields d.priv zero_fields second).1

  abbrev pub both_fields : AlpsFields
  both_fields = (decode d.decode_fields d.priv bitmap_fields d.priv.multi_data).1

  second_merged :
      d.priv.multi_packet ≡ 1
      → bitmap_fields.is_mp ≡ 1
      → merge_v3_v5 d second ≡ (
          let (count, priv, f) = alps_process_bitmap d.priv both_fields in
          (priv, f, if count == 0 then 0 else bitmap_fields.fingers))
  unfolding merge_v3_v5
  second_merged waits bitmap =
      let a : nz d.priv.multi_packet ≡ true = ap nz waits in
      let b : nz bitmap_fields.is_mp ≡ true = ap nz bitmap in rw (merge_v3_v5, a, b) refl

-- The calls of the handler for the two packets
v3_v5_pair :
    (d : Driver) (first second : List ℕ)
    → d.priv.multi_packet ≡ 0
    → (decode d.decode_fields d.priv zero_fields first).1.is_mp ≡ 0
    → (decode d.decode_fields d.priv zero_fields first).1.first_mp ≡ 1
    → (bitmap_fields (waiting d first) second).is_mp ≡ 1
    → (both_fields (waiting d first) second).is_mp ≡ 0
    → (alps_process_touchpad_packet_v3_v5 d first ≡ (waiting d first, []))
      × (alps_process_touchpad_packet_v3_v5 (waiting d first) second ≡ (
          let (count, priv, f) =
            alps_process_bitmap (waiting d first).priv (both_fields (waiting d first) second) in
          report_v3_v5
            (waiting d first)
            priv
            f
            (if count == 0 then 0 else (bitmap_fields (waiting d first) second).fingers)))
unfolding alps_process_touchpad_packet_v3_v5
v3_v5_pair d first second idle position more bitmap both =
    let e = waiting d first in
    let out = alps_process_bitmap e.priv (both_fields e second) in
    (
      ap (act_v3_v5 d first) (first_merged d first idle)
          ∙ saves d first d.priv (decode d.decode_fields d.priv zero_fields first).1 0 idle position
              more,
      ap (act_v3_v5 e second) (second_merged e second refl bitmap)
          ∙ reports e second out.1 out.2
              (if out.0 == 0 then 0 else (bitmap_fields e second).fingers)
              (bitmap_waits e.priv (both_fields e second))
              (bitmap_same e.priv (both_fields e second) ∙ both),
    )

-- One report, of a position on the touchpad: a single finger counts by its pressure, and gives up the
-- corner of the second touch; the handler waits for no packet then.
abbrev pub IsOneTouch : Driver → MtPos → ℕ → ℕ → ℕ → Option ℕ → Handled → Type 0
IsOneTouch d st pressure fingers buttons corner (d', calls) =
    (calls
      ≡ touch (int32 st.x) (int32 (sub32 d.priv.y_max st.y)) pressure
          (if ltb fingers 2 then of_bool (ltb 0 pressure) else fingers) buttons
        ∷ [])
    × (d'.priv.multi_packet ≡ 0)
    × (d'.priv.second_touch ≡ (if ltb fingers 2 then none else corner))

-- The position is reported as it is, be it read from `st` or from `mt[0]`.
report-IsOneTouch :
    (d : Driver) (priv : AlpsData) (f : AlpsFields) (fingers : ℕ)
    → priv.y_max ≡ d.priv.y_max
    → (2 ≤ fingers → f.mt0 ≡ f.st)
    → IsOneTouch d f.st f.pressure fingers
        (buttons_v3_v5 priv f)
        priv.second_touch
        (report_v3_v5 d priv f fingers)
unfolding report_v3_v5
report-IsOneTouch d priv f fingers e same = elim (Bool-cases (ltb fingers 2)) [
  | inl s ↦ rw (s, e) (refl, refl, refl)
  | inr s ↦ let many : 2 ≤ fingers = ground arith in rw (s, e, same many) (refl, refl, refl)
]

outcome :
    (d : Driver) (both : AlpsFields) (m : ℕ)
    → let (count, priv, f) = alps_process_bitmap d.priv both in
      let fingers = if count == 0 then 0 else m in
      IsOneTouch d both.st both.pressure fingers
        (buttons_v3_v5 d.priv both)
        priv.second_touch
        (report_v3_v5 d priv f fingers)
unfolding alps_process_bitmap buttons_v3_v5
outcome d both m = elim (Bool-cases (both.x_map == 0 || both.y_map == 0)) [
  | inl e ↦
      rw (e, alps_process_bitmap)
        (report-IsOneTouch d d.priv both 0 refl (λ h. absurd (omega arith)))
  | inr e ↦ rw (e, alps_process_bitmap) (report-IsOneTouch d _ _ _ refl (λ h. refl))
]

-- `alps_decode_pinnacle` by the kind of the packet
pinnacle_bitmap :
    (f : AlpsFields) (p : List ℕ)
    → nz (at p 0 & 0x40) ≡ true
    → ((alps_decode_pinnacle f p).is_mp ≡ 1)
      × ((alps_decode_pinnacle f p).fingers ≡ (at p 5 & 3) + 1)
unfolding alps_decode_pinnacle
pinnacle_bitmap f p e = rw (alps_decode_pinnacle, e) (refl, refl)

pinnacle_position :
    (f : AlpsFields) (p : List ℕ)
    → nz (at p 0 & 0x40) ≡ false
    → ((alps_decode_pinnacle f p).is_mp ≡ 0)
      × ((alps_decode_pinnacle f p).st ≡ record { x = position_x p; y = position_y p })
      × ((alps_decode_pinnacle f p).pressure ≡ at p 5 & 0x7f)
      × ((alps_decode_pinnacle f p).first_mp ≡ of_bool (nz (at p 4 & 0x40)))
      × ((priv : AlpsData)
          → buttons_v3_v5 priv (alps_decode_pinnacle f p)
            ≡ buttons_v3_v5 priv (alps_decode_pinnacle zero_fields p))
unfolding alps_decode_pinnacle
pinnacle_position f p e =
    rw (alps_decode_pinnacle, e)
      (refl, refl, refl, refl, unfold buttons_v3_v5 alps_decode_buttons_v3 in λ priv. refl)

pinnacle_saved :
    (f : AlpsFields) (p : List ℕ) → alps_decode_pinnacle f (saved p) ≡ alps_decode_pinnacle f p
unfolding alps_decode_pinnacle position_x position_y alps_decode_buttons_v3
pinnacle_saved f p = refl

decode_pinnacle :
    (d : Driver) (priv : AlpsData) (f : AlpsFields) (p : List ℕ)
    → d.decode_fields ≡ pinnacle
    → (decode d.decode_fields priv f p).1 ≡ alps_decode_pinnacle f p
unfolding decode
decode_pinnacle d priv f p e = rw e refl

IsOneTouch-same :
    (d : Driver) {st st' : MtPos} {pressure pressure' buttons buttons' : ℕ} (fingers : ℕ)
    (corner : Option ℕ) (h : Handled)
    → st ≡ st'
    → pressure ≡ pressure'
    → buttons ≡ buttons'
    → IsOneTouch d st pressure fingers buttons corner h
    → IsOneTouch d st' pressure' fingers buttons' corner h
IsOneTouch-same d fingers corner h a b c r = rw (sym a, sym b, sym c) r

-- Two packets of a Pinnacle device make one report. If a driver with that decoder that waits for no
-- packet gets a position packet whose flag says that a bitmap follows, it calls nothing; with the
-- bitmap packet that comes next it makes one report, of the position, its y reversed, the pressure
-- and the buttons of the first packet. The
-- fingers are those that the bitmap packet counts if the bitmap has points; fewer than two are one
-- or none, by the pressure, and then the corner of the second touch is given up. After that the driver
-- waits for no packet.
pub pinnacle_pair :
    (d : Driver) (first second : List ℕ)
    → d.decode_fields ≡ pinnacle
    → d.priv.multi_packet ≡ 0
    → nz (at first 0 & 0x40) ≡ false
    → nz (at first 4 & 0x40) ≡ true
    → nz (at second 0 & 0x40) ≡ true
    → let (d1, calls1) = alps_process_touchpad_packet_v3_v5 d first in
      let bitmap = alps_decode_pinnacle zero_fields second in
      let position : MtPos = record { x = position_x first; y = position_y first } in
      let both = alps_decode_pinnacle bitmap first in
      let (points, priv, f) = alps_process_bitmap d1.priv both in
      (calls1 ≡ [])
      × IsOneTouch d position
          (at first 5 & 0x7f)
          (if points == 0 then 0 else (at second 5 & 3) + 1)
          (buttons_v3_v5 d.priv (alps_decode_pinnacle zero_fields first))
          priv.second_touch
          (alps_process_touchpad_packet_v3_v5 d1 second)
pinnacle_pair d first second v3 idle position more bitmap =
    let w = waiting d first in
    let one = decode_pinnacle d d.priv zero_fields first v3 in
    let two = decode_pinnacle d w.priv zero_fields second v3 in
    let p = pinnacle_position zero_fields first position in
    let b = pinnacle_bitmap zero_fields second bitmap in
    let f = alps_decode_pinnacle zero_fields second in
    let q = pinnacle_position f first position in
    let both : both_fields w second ≡ alps_decode_pinnacle f first =
      ap (λ g. (decode d.decode_fields w.priv g (saved first)).1) two
      ∙ decode_pinnacle d w.priv f (saved first) v3
      ∙ pinnacle_saved f first in
    let kept : buttons_v3_v5 w.priv (alps_decode_pinnacle zero_fields first)
        ≡ buttons_v3_v5 d.priv (alps_decode_pinnacle zero_fields first) =
      unfold buttons_v3_v5 in refl in
    let pair =
      v3_v5_pair d first second idle (ap (λ g. g.is_mp) one ∙ p.0)
        (ap (λ g. g.first_mp) one ∙ p.3 ∙ ap of_bool more) (ap (λ g. g.is_mp) two ∙ b.0)
        (ap (λ g. g.is_mp) both ∙ q.0) in
    let out = alps_process_bitmap w.priv (alps_decode_pinnacle f first) in
    let n = if out.0 == 0 then 0 else (at second 5 & 3) + 1 in
    let last : alps_process_touchpad_packet_v3_v5 w second ≡ report_v3_v5 w out.1 out.2 n =
      pair.1
      ∙ ap (reported (bitmap_fields w second).fingers) both
      ∙ ap (λ m. reported m (alps_decode_pinnacle f first)) (ap (λ g. g.fingers) two ∙ b.1) in
    rw (pair.0, last)
      (
        refl,
        IsOneTouch-same d n out.1.second_touch (report_v3_v5 w out.1 out.2 n) q.1 q.2
            (q.4 w.priv ∙ kept) (outcome w (alps_decode_pinnacle f first) ((at second 5 & 3) + 1)),
      )
  where
    reported : ℕ → AlpsFields → Handled
    reported m g =
        let o = alps_process_bitmap (waiting d first).priv g in
        report_v3_v5 (waiting d first) o.1 o.2 (if o.0 == 0 then 0 else m)
