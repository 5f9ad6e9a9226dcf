-- ===== src/Alps/HwInit/Prepared.antt =====
-- What `hw_init` and `deviceSpecificInit` leave the device with.
use voodoo_ps2_alps.Base.{
  ℕ, ◌+◌, ◌≡◌, subst, Bool, true, false, Option, none, some, if◌then◌else◌, ◌¦◌,
}
use voodoo_ps2_alps.Controller.Request.{Ps2Controller}
use voodoo_ps2_alps.Alps.Types.{
  AlpsData, HwInit, init_null, init_v1_v2, init_v3, init_rushmore_v3, init_v4, init_dolphin_v1,
  init_v7, init_ss4_v2,
}
use voodoo_ps2_alps.Alps.Command.{
  alps_enter_command_mode, alps_exit_command_mode, ps2_command, ps2_command_short,
}
use voodoo_ps2_alps.Alps.HwInit.{
  read_reg, write_reg, write_last, Attempt, Done, ◌>>=◌, ◌>>◌, checked, ending,
}
use voodoo_ps2_alps.Alps.HwInit.Inits.{
  call_hw_init, keep, alps_hw_init_v7, alps_get_v3_v7_resolution, with_resolution,
}
use voodoo_ps2_alps.Alps.HwInit.Online.{
  Kept, then-Kept, Keeps, bind-Keeps, next-Keeps, checked-Keeps, read_reg-Keeps, enter-Keeps,
  exit-Keeps,
}
use voodoo_ps2_alps.Alps.HwInit.Endings.{online, Last, Ends, ending-Ends, command-Kept}
use voodoo_ps2_alps.Alps.HwInit.Streamed.{hw_init_v1_v2-Ends}
use voodoo_ps2_alps.Alps.HwInit.Enabled.{
  write-Keeps, value-Keeps, hw_init_v4-Ends, hw_init_v3-Ends, hw_init_rushmore-Ends,
  hw_init_ss4-Ends, hw_init_dolphin-Ends,
}

-- What `hw_init` returns: the line is as before, and the last byte of a success is `b`.
abbrev pub Result : Type 0
Result = Ps2Controller × AlpsData × Bool

pub record Prepared (b : ℕ) (c : Ps2Controller) (r : Result) : Type 0 where
  pub line : Kept c r.0
  pub last : r.2 ≡ true → Last b r.0

failed-Prepared :
    {b : ℕ} {c c' : Ps2Controller} (priv : AlpsData) → Kept c c' → Prepared b c (c', priv, false)
failed-Prepared priv k = record { line = k; last = λ h. absurd (contradiction h) }
  where
    contradiction : false ≡ true → ⊥
    contradiction h = cc

option-Kept :
    {A : Type 0} {c : Ps2Controller} (r : Option A) (x : Result) (y : A → Result)
    → Kept c x.0
    → ((a : A) → Kept c (y a).0)
    → Kept c (elim r as (λ o. Result) [ none ↦ x | some a ↦ y a ]).0
option-Kept none x y p q = p
option-Kept (some a) x y p q = q a

option-Prepared :
    {A : Type 0} {b : ℕ} {c : Ps2Controller} (r : Option A) (x : Result) (y : A → Result)
    → Prepared b c x
    → ((a : A) → Prepared b c (y a))
    → Prepared b c (elim r as (λ o. Result) [ none ↦ x | some a ↦ y a ])
option-Prepared none x y p q = p
option-Prepared (some a) x y p q = q a

if-Prepared :
    {b : ℕ} {c : Ps2Controller} (test : Bool) (x y : Result)
    → Prepared b c x
    → Prepared b c y
    → Prepared b c (if test then x else y)
if-Prepared true x y p q = p
if-Prepared false x y p q = q

resolution-Kept :
    (priv : AlpsData) (reg : ℕ) (c : Ps2Controller)
    → Kept c (alps_get_v3_v7_resolution priv reg c).0
unfolding alps_get_v3_v7_resolution
resolution-Kept priv reg c =
    let (c1, pitch) = read_reg priv reg c in
    let (c2, electrode) = read_reg priv (reg + 1) c1 in
    let first = (read_reg-Keeps priv reg).keeps c in
    let second = then-Kept first ((read_reg-Keeps priv (reg + 1)).keeps c1) in
    option-Kept pitch (c1, priv, true)
      (λ p. elim electrode as (λ o. Result) [
        | none ↦ (c2, priv, true)
        | some e ↦ (c2, with_resolution priv p e, true)
      ])
      first
      (λ p.
        option-Kept electrode (c2, priv, true) (λ e. (c2, with_resolution priv p e, true)) second
          (λ e. second))

hw_init_v7-Prepared :
    (priv : AlpsData) (c : Ps2Controller)
    → c.hardware_offline ≡ false
    → Prepared 0xf4 c (alps_hw_init_v7 priv c)
unfolding alps_hw_init_v7
hw_init_v7-Prepared priv c on =
    let start : Attempt ℕ = checked alps_enter_command_mode >> read_reg priv 0xc2d9 in
    let body : Attempt Done =
      write_reg priv 0xc2c9 0x64
      >> (read_reg priv 0xc2c4 >>= (λ reg_val. write_last priv (reg_val ¦ 0x02))) in
    let started : Keeps start =
      next-Keeps (checked-Keeps enter-Keeps) (read_reg-Keeps priv 0xc2d9) in
    let rest =
      ending-Ends body (λ c'. ps2_command c' 0x28 0xf3)
        (next-Keeps (write-Keeps priv 0xc2c9 0x64)
          (bind-Keeps (read_reg-Keeps priv 0xc2c4) (λ r. value-Keeps priv (r ¦ 0x02))))
        (λ c'. command-Kept c' 0x28 0xf3) in
    let (c1, found) = start c in
    let (c2, priv', good) = alps_get_v3_v7_resolution priv 0xc397 c1 in
    let (c4, ended) = ending (λ c'. ps2_command_short (ps2_command c' 0x28 0xf3) 0xf4) (body c2) in
    let k1 = started.keeps c in
    let k2 = then-Kept k1 (resolution-Kept priv 0xc397 c1) in
    let failed : Result = ((alps_exit_command_mode c2).0, priv', false) in
    option-Prepared found ((alps_exit_command_mode c1).0, priv, false)
      (λ reg. if good then (c4, priv', ended) else failed)
      (failed-Prepared priv (then-Kept k1 (exit-Keeps.keeps c1)))
      (λ reg.
        if-Prepared good (c4, priv', ended) failed
          (record {
            line = then-Kept k2 (rest.line.keeps c2);
            last = λ h. rest.last c2 (online k2 on) h;
          })
          (failed-Prepared priv' (then-Kept k2 (exit-Keeps.keeps c2))))

-- The byte that a set-up ends with: V1 and V2 end with stream mode, and the others with the enabling.
abbrev pub last_byte : HwInit → ℕ
last_byte init_null = 0xf4
last_byte init_v1_v2 = 0xea
last_byte init_v3 = 0xf4
last_byte init_rushmore_v3 = 0xf4
last_byte init_v4 = 0xf4
last_byte init_dolphin_v1 = 0xf4
last_byte init_v7 = 0xf4
last_byte init_ss4_v2 = 0xf4

some_injective : {x y : Result} → some x ≡ some y → x ≡ y
some_injective e = cc

prepared :
    {b : ℕ} {method : Ps2Controller → Ps2Controller × Bool} (priv : AlpsData) (c : Ps2Controller)
    → c.hardware_offline ≡ false
    → Ends b method
    → Prepared b c (keep priv (method c))
prepared priv c on p = record { line = p.line.keeps c; last = λ h. p.last c on h }

pub hw_init-Prepared :
    (init : HwInit) (priv : AlpsData) (c : Ps2Controller) (r : Result)
    → c.hardware_offline ≡ false
    → call_hw_init init priv c ≡ some r
    → Prepared (last_byte init) c r
unfolding call_hw_init
hw_init-Prepared init_null priv c r on e = absurd (no_call e)
  where
    no_call : ◌≡◌ {A = Option Result} none (some r) → ⊥
    no_call h = cc
hw_init-Prepared init_v1_v2 priv c r on e =
    subst (Prepared 0xea c) (some_injective e) (prepared priv c on (hw_init_v1_v2-Ends priv))
hw_init-Prepared init_v3 priv c r on e =
    subst (Prepared 0xf4 c) (some_injective e) (prepared priv c on (hw_init_v3-Ends priv))
hw_init-Prepared init_rushmore_v3 priv c r on e =
    subst (Prepared 0xf4 c) (some_injective e) (prepared priv c on (hw_init_rushmore-Ends priv))
hw_init-Prepared init_v4 priv c r on e =
    subst (Prepared 0xf4 c) (some_injective e) (prepared priv c on (hw_init_v4-Ends priv))
hw_init-Prepared init_dolphin_v1 priv c r on e =
    subst (Prepared 0xf4 c) (some_injective e) (prepared priv c on hw_init_dolphin-Ends)
hw_init-Prepared init_v7 priv c r on e =
    subst (Prepared 0xf4 c) (some_injective e) (hw_init_v7-Prepared priv c on)
hw_init-Prepared init_ss4_v2 priv c r on e =
    subst (Prepared 0xf4 c) (some_injective e) (prepared priv c on (hw_init_ss4-Ends priv))
