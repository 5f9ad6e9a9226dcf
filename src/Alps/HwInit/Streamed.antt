-- ===== src/Alps/HwInit/Streamed.antt =====
-- The set-up of V1 and V2, which ends with stream mode.
use voodoo_ps2_alps.Base.{
  ℕ, ◌≡◌, refl, arith, [], ◌∷◌, Bool, true, false, Option, none, some, if◌then◌else◌, nz, ◌&◌,
}
use voodoo_ps2_alps.Controller.Request.{Ps2Controller}
use voodoo_ps2_alps.Alps.Types.{AlpsData, alps_pass}
use voodoo_ps2_alps.Alps.Command.{
  say, hear, submit, completed, alps_passthrough_mode_v2, ps2_command_short,
  alps_absolute_mode_v1_v2,
}
use voodoo_ps2_alps.Alps.HwInit.{
  Attempt, ◌>>=◌, ◌>>◌, always, succeeded, alps_get_status, alps_tap_mode,
}
use voodoo_ps2_alps.Alps.HwInit.Inits.{alps_hw_init_v1_v2}
use voodoo_ps2_alps.Alps.HwInit.Online.{
  Kept, submit-Kept, same-Kept, then-Kept, Keeps, next-Keeps, checked-Keeps, rpt_cmd-Kept,
}
use voodoo_ps2_alps.Alps.HwInit.Endings.{
  online, Last, Ends, short_ends, short-Kept, if-Keeps, skip-Keeps,
}
use voodoo_ps2_alps.Alps.HwInit.Enabled.{if_pair-Kept}

-- An attempt that keeps the line, and that ends with the byte `b` where it succeeds
record Finishes (b : ℕ) {A : Type 0} (m : Attempt A) : Type 0 where
  line : Keeps m
  last :
      (c : Ps2Controller) (a : A) → c.hardware_offline ≡ false → (m c).1 ≡ some a → Last b (m c).0

next-Finishes :
    {A B : Type 0} {b : ℕ} {m : Attempt A} {k : Attempt B}
    → Keeps m
    → Finishes b k
    → Finishes b (m >> k)
unfolding ◌>>◌ ◌>>=◌
next-Finishes {A = A} {B = B} {b = b} {m = m} {k = k} p q = record {
  line = next-Keeps p q.line;
  last = λ c a on h. by_result c (m c) (p.keeps c) a on h;
}
  where
    by_result :
        (c : Ps2Controller) (r : Ps2Controller × Option A)
        → Kept c r.0
        → (a : B) → c.hardware_offline ≡ false
        → (elim (r.1) as (λ x. Ps2Controller × Option B) [ none ↦ (r.0, none) | some x ↦ k r.0 ]).1
          ≡ some a
        → Last b
            (elim (r.1) as (λ x. Ps2Controller × Option B) [
              | none ↦ (r.0, none)
              | some x ↦ k r.0
            ]).0
    by_result c (c', none) e a on h = ground arith
    by_result c (c', some x) e a on h = q.last c' a (online e on) h

succeeded-Ends : {A : Type 0} {b : ℕ} {m : Attempt A} → Finishes b m → Ends b (succeeded m)
succeeded-Ends {A = A} {b = b} {m = m} p = record {
  line = record { keeps = λ c. p.line.keeps c };
  last = λ c on h. by_result c ((m c).1) refl on h;
}
  where
    by_result :
        (c : Ps2Controller) (r : Option A)
        → (m c).1 ≡ r
        → c.hardware_offline ≡ false
        → elim r as (λ x. Bool) [ none ↦ false | some a ↦ true ] ≡ true
        → Last b (m c).0
    by_result c none e on h = ground arith
    by_result c (some a) e on h = p.last c a on e

stream-Finishes : Finishes 0xea (always (λ c. ps2_command_short c 0xea))
unfolding always
stream-Finishes = record {
  line = record { keeps = λ c. short-Kept c 0xea };
  last = λ c a on h. short_ends c 0xea (same-Kept c) on;
}

passthrough_v2-Keeps : (enable : Bool) → Keeps (λ c. alps_passthrough_mode_v2 c enable)
unfolding alps_passthrough_mode_v2
passthrough_v2-Keeps enable = record {
  keeps = λ c.
      let cmd = if enable then 0xe7 else 0xe6 in
      submit-Kept c (say cmd ∷ say cmd ∷ say cmd ∷ say 0xf5 ∷ []);
}

absolute_v1_v2-Keeps : Keeps alps_absolute_mode_v1_v2
unfolding alps_absolute_mode_v1_v2
absolute_v1_v2-Keeps = record {
  keeps = λ c. then-Kept (short-Kept c 0xf5) (
      then-Kept (short-Kept _ 0xf5) (
        then-Kept (short-Kept _ 0xf5)
          (then-Kept (short-Kept _ 0xf5) (then-Kept (short-Kept _ 0xf4) (short-Kept _ 0xf0)))));
}

tap_mode-Keeps : Keeps (λ c. alps_tap_mode c true)
unfolding alps_tap_mode alps_get_status
tap_mode-Keeps = record {
  keeps = λ c.
      let items = say 0xe9 ∷ hear ∷ hear ∷ hear ∷ say 0xf5 ∷ say 0xf5 ∷ say 0xf3 ∷ say 0x0a ∷ [] in
      let first = submit-Kept c items in
      if_pair-Kept (completed items (submit c items)) _ _
        (then-Kept first (rpt_cmd-Kept _ 0 0 0xf5)) first;
}

pub hw_init_v1_v2-Ends : (priv : AlpsData) → Ends 0xea (alps_hw_init_v1_v2 priv)
unfolding alps_hw_init_v1_v2
hw_init_v1_v2-Ends priv =
    let passes = nz (priv.flags & alps_pass) in
    succeeded-Ends (
      next-Finishes (if-Keeps passes (checked-Keeps (passthrough_v2-Keeps true)) skip-Keeps) (
        next-Finishes (checked-Keeps tap_mode-Keeps) (
          next-Finishes (checked-Keeps absolute_v1_v2-Keeps) (
            next-Finishes (if-Keeps passes (checked-Keeps (passthrough_v2-Keeps false)) skip-Keeps)
              stream-Finishes))))
