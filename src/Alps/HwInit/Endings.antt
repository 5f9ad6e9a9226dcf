-- ===== src/Alps/HwInit/Endings.antt =====
-- How the methods that set a device up end: with the device enabled, or with the command mode left.
use voodoo_ps2_alps.Base.{
  ℕ, zero, suc, map, append_assoc, ◌≡◌, refl, ap, ◌∙◌, arith, List, [], ◌∷◌, ◌++◌, take, Bool, true,
  false, Option, none, some, if◌then◌else◌,
}
use voodoo_ps2_alps.Controller.Request.{
  Ps2Controller, Output, do_command, do_commands, process_request_if, process_request,
}
use voodoo_ps2_alps.Controller.Request.Outcome.{sent, process_request-sent}
use voodoo_ps2_alps.Alps.Types.{AlpsData}
use voodoo_ps2_alps.Alps.Command.{
  command_of, say, submit, ps2_command, ps2_command_short, reset_mouse,
}
use voodoo_ps2_alps.Alps.HwInit.{
  Attempt, skip, succeeded, ending, alps_absolute_mode_v3, alps_absolute_mode_v4,
}
use voodoo_ps2_alps.Alps.HwInit.Online.{
  Kept, kept, submit-Kept, same-Kept, then-Kept, Keeps, bind-Keeps, checked-Keeps,
  write_value-Keeps, read_reg-Keeps, exit-Keeps,
}

pub succeeded-Keeps : {A : Type 0} {m : Attempt A} → Keeps m → Keeps (succeeded m)
succeeded-Keeps p = record { keeps = λ c. p.keeps c }

pub skip-Keeps : Keeps skip
unfolding skip
skip-Keeps = record { keeps = same-Kept }

pub if-Keeps :
    {A : Type 0} (b : Bool) {m k : Attempt A} → Keeps m → Keeps k → Keeps (if b then m else k)
if-Keeps true p q = p
if-Keeps false p q = q

pub ending-Kept :
    {A : Type 0} {c : Ps2Controller} (after : Ps2Controller → Ps2Controller)
    (r : Ps2Controller × Option A)
    → Kept c r.0
    → ((c' : Ps2Controller) → Kept c' (after c'))
    → Kept c (ending after r).0
ending-Kept after (c', none) k f = then-Kept k (exit-Keeps.keeps c')
ending-Kept after (c', some a) k f = then-Kept k (then-Kept (exit-Keeps.keeps c') (f _))

pub short-Kept : (c : Ps2Controller) (command : ℕ) → Kept c (ps2_command_short c command)
unfolding ps2_command_short
short-Kept c command = submit-Kept c (say command ∷ [])

pub command-Kept : (c : Ps2Controller) (value command : ℕ) → Kept c (ps2_command c value command)
unfolding ps2_command
command-Kept c value command = submit-Kept c (say command ∷ say value ∷ [])

pub absolute_v3-Keeps : (priv : AlpsData) → Keeps (alps_absolute_mode_v3 priv)
unfolding alps_absolute_mode_v3
absolute_v3-Keeps priv =
    succeeded-Keeps
      (bind-Keeps (read_reg-Keeps priv 0x0004) (λ r. checked-Keeps (write_value-Keeps priv _)))

pub absolute_v4-Keeps : (priv : AlpsData) → Keeps (alps_absolute_mode_v4 priv)
unfolding alps_absolute_mode_v4
absolute_v4-Keeps priv =
    succeeded-Keeps
      (bind-Keeps (read_reg-Keeps priv 0x0004) (λ r. checked-Keeps (write_value-Keeps priv _)))

-- The last byte that was put out to the mouse
unfoldable pub Last : ℕ → Ps2Controller → Type 0
Last b c = (before : List Output) × (c.done ≡ before ++ sent (b ∷ []))

take-nil : (k : ℕ) → take {A = ℕ} k [] ≡ []
take-nil zero = refl
take-nil (suc k) = refl

say-Last :
    (c : Ps2Controller) (b : ℕ)
    → c.hardware_offline ≡ false
    → Last b (submit c (say b ∷ [])).controller
unfolding Last submit
say-Last c b on = (
  c.done,
  process_request-sent c (b ∷ []) on
      ∙ ap (λ (l : List ℕ). c.done ++ sent (b ∷ l))
          (take-nil (process_request c (map command_of (say b ∷ []))).commands_count),
)

pub reset-Last : (c : Ps2Controller) → c.hardware_offline ≡ false → Last 0xff (reset_mouse c).0
unfolding Last reset_mouse submit process_request process_request_if do_commands do_command
reset-Last c on = (c.done, rw (on, append_assoc) (ground arith))

-- A method that keeps the line, and that ends with the byte `b` where it succeeds
pub record Ends (b : ℕ) (method : Ps2Controller → Ps2Controller × Bool) : Type 0 where
  pub line : Keeps method
  pub last :
      (c : Ps2Controller) → c.hardware_offline ≡ false → (method c).1 ≡ true → Last b (method c).0

pub short_ends :
    (c : Ps2Controller) {c' : Ps2Controller} (b : ℕ)
    → Kept c c'
    → c.hardware_offline ≡ false
    → Last b (ps2_command_short c' b)
unfolding ps2_command_short
short_ends c {c'} b (kept e) on = say-Last c' b (e ∙ on)

pub ending-Ends :
    {A : Type 0} (body : Attempt A) (before : Ps2Controller → Ps2Controller)
    → Keeps body
    → ((c : Ps2Controller) → Kept c (before c))
    → Ends 0xf4 (λ c. ending (λ c'. ps2_command_short (before c') 0xf4) (body c))
ending-Ends {A = A} body before p f = record {
  line = record {
    keeps = λ c.
        ending-Kept (λ c'. ps2_command_short (before c') 0xf4) (body c) (p.keeps c)
          (λ c'. then-Kept (f c') (short-Kept (before c') 0xf4));
  };
  last = λ c on h. by_result c (body c) (p.keeps c) on h;
}
  where
    by_result :
        (c : Ps2Controller) (r : Ps2Controller × Option A)
        → Kept c r.0
        → c.hardware_offline ≡ false
        → (ending (λ c'. ps2_command_short (before c') 0xf4) r).1 ≡ true
        → Last 0xf4 (ending (λ c'. ps2_command_short (before c') 0xf4) r).0
    by_result c (c', none) k on h = ground arith
    by_result c (c', some a) k on h =
        short_ends c 0xf4 (then-Kept k (then-Kept (exit-Keeps.keeps c') (f _))) on

pub online :
    {c c' : Ps2Controller} → Kept c c' → c.hardware_offline ≡ false → c'.hardware_offline ≡ false
online (kept e) on = e ∙ on
