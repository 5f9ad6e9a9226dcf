-- ===== src/Alps/HwInit/Enabled.antt =====
-- The methods that set a device up by its registers, each of which enables the device at its end.
use voodoo_ps2_alps.Base.{
  ℕ, ◌+◌, [], ◌∷◌, Bool, true, false, Option, none, some, if◌then◌else◌, nz, ◌&◌,
}
use voodoo_ps2_alps.Controller.Request.{Ps2Controller}
use voodoo_ps2_alps.Alps.Types.{AlpsData, alps_dualpoint}
use voodoo_ps2_alps.Alps.Command.{
  say, submit, completed, alps_command_mode_send_nibble, alps_rpt_cmd, alps_enter_command_mode,
  alps_exit_command_mode, ps2_command, ps2_command_short,
}
use voodoo_ps2_alps.Alps.HwInit.{
  write_reg, write_last, ◌>>◌, checked, alps_passthrough_mode_v3, magic_sequence,
  alps_setup_trackstick_v3, alps_reg_base_pinnacle, alps_reg_base_rushmore,
}
use voodoo_ps2_alps.Alps.HwInit.Inits.{
  alps_hw_init_v3, alps_hw_init_rushmore_v3, alps_hw_init_v4, alps_hw_init_ss4_v2,
  alps_hw_init_dolphin_v1, trackstick,
}
use voodoo_ps2_alps.Alps.HwInit.Online.{
  Kept, submit-Kept, same-Kept, then-Kept, Keeps, bind-Keeps, next-Keeps, checked-Keeps,
  write_value-Keeps, write_reg-Keeps, read_reg-Keeps, rpt_cmd-Kept, enter-Keeps, exit-Keeps,
  send_nibble-Keeps,
}
use voodoo_ps2_alps.Alps.HwInit.Endings.{
  short-Kept, command-Kept, absolute_v3-Keeps, absolute_v4-Keeps, Ends, short_ends, ending-Kept,
  ending-Ends,
}

pub write-Keeps : (priv : AlpsData) (addr value : ℕ) → Keeps (write_reg priv addr value)
write-Keeps priv addr value = checked-Keeps (write_reg-Keeps priv addr value)

pub value-Keeps : (priv : AlpsData) (value : ℕ) → Keeps (write_last priv value)
value-Keeps priv value = checked-Keeps (write_value-Keeps priv value)

pub hw_init_v4-Ends : (priv : AlpsData) → Ends 0xf4 (alps_hw_init_v4 priv)
unfolding alps_hw_init_v4
hw_init_v4-Ends priv =
    ending-Ends _
      (λ c.
        ps2_command
          (ps2_command_short
            (ps2_command (ps2_command (ps2_command c 0xc8 0xf3) 0x64 0xf3) 0x50 0xf3) 0xf2)
          0x64 0xf3)
      (next-Keeps (checked-Keeps enter-Keeps) (
        next-Keeps (checked-Keeps (absolute_v4-Keeps priv)) (
          next-Keeps (write-Keeps priv 0x0007 0x8c) (
            next-Keeps (write-Keeps priv 0x0149 0x03) (
              next-Keeps (write-Keeps priv 0x0160 0x03) (
                next-Keeps (write-Keeps priv 0x017f 0x15) (
                  next-Keeps (write-Keeps priv 0x0151 0x01) (
                    next-Keeps (write-Keeps priv 0x0168 0x03) (
                      next-Keeps (write-Keeps priv 0x014a 0x03)
                        (write-Keeps priv 0x0161 0x03))))))))))
      (λ c. then-Kept (command-Kept c 0xc8 0xf3) (
        then-Kept (command-Kept _ 0x64 0xf3) (
          then-Kept (command-Kept _ 0x50 0xf3)
            (then-Kept (short-Kept _ 0xf2) (command-Kept _ 0x64 0xf3)))))

pub if_pair-Kept :
    {B : Type 0} {c : Ps2Controller} (b : Bool) (x y : Ps2Controller × B)
    → Kept c x.0
    → Kept c y.0
    → Kept c (if b then x else y).0
if_pair-Kept true x y p q = p
if_pair-Kept false x y p q = q

passthrough_v3-Kept :
    (priv : AlpsData) (base : ℕ) (enable : Bool) (c : Ps2Controller)
    → Kept c (alps_passthrough_mode_v3 priv base enable c).0
unfolding alps_passthrough_mode_v3
passthrough_v3-Kept priv base enable c =
    let entered = enter-Keeps.keeps c in
    if_pair-Kept (alps_enter_command_mode c).1 _ _
      (then-Kept entered (
        ending-Kept (λ c'. c') _
          ((bind-Keeps (read_reg-Keeps priv (base + 0x0008)) (λ r. value-Keeps priv _)).keeps
            (alps_enter_command_mode c).0)
          same-Kept))
      entered

pub option_pair-Kept :
    {A B : Type 0} {c : Ps2Controller} (r : Option A) (x : Ps2Controller × B)
    (y : A → Ps2Controller × B)
    → Kept c x.0
    → ((a : A) → Kept c (y a).0)
    → Kept c (elim r as (λ o. Ps2Controller × B) [ none ↦ x | some a ↦ y a ]).0
option_pair-Kept none x y p q = p
option_pair-Kept (some a) x y p q = q a

magic-Kept :
    (priv : AlpsData) (base : ℕ) (c : Ps2Controller) → Kept c (magic_sequence priv base c).0
unfolding magic_sequence
magic-Kept priv base c =
    let (c1, reported, report) = alps_rpt_cmd c 0 0 0xe7 in
    let first = rpt_cmd-Kept c 0 0 0xe7 in
    let items = say 0xe6 ∷ say 0xe6 ∷ say 0xe6 ∷ [] in
    let sent_all = then-Kept first (submit-Kept c1 items) in
    let nibbles : Keeps (
        checked (λ c'. alps_command_mode_send_nibble priv c' 0x9)
        >> checked (λ c'. alps_command_mode_send_nibble priv c' 0x4)) =
      next-Keeps (checked-Keeps (send_nibble-Keeps priv 0x9))
        (checked-Keeps (send_nibble-Keeps priv 0x4)) in
    let register : Keeps (
        checked alps_enter_command_mode
        >> (write_reg priv (base + 0x0008) 0x82 >> checked alps_exit_command_mode)) =
      next-Keeps (checked-Keeps enter-Keeps)
        (next-Keeps (write-Keeps priv (base + 0x0008) 0x82) (checked-Keeps exit-Keeps)) in
    let tapped = then-Kept sent_all (nibbles.keeps _) in
    if_pair-Kept reported _ _
      (if_pair-Kept (completed items (submit c1 items)) _ _
        (option_pair-Kept _ _ _ tapped (λ d. then-Kept tapped (register.keeps _))) sent_all)
      first

setup_trackstick-Kept :
    (priv : AlpsData) (base : ℕ) (c : Ps2Controller)
    → Kept c (alps_setup_trackstick_v3 priv base c).0
unfolding alps_setup_trackstick_v3
setup_trackstick-Kept priv base c =
    let first = passthrough_v3-Kept priv base true c in
    if_pair-Kept (alps_passthrough_mode_v3 priv base true c).1 _ _
      (then-Kept first (then-Kept (magic-Kept priv base _) (passthrough_v3-Kept priv base false _)))
      first

trackstick-Keeps : (priv : AlpsData) (base : ℕ) → Keeps (trackstick priv base)
trackstick-Keeps priv base = record {
  keeps = λ c.
      if_pair-Kept (nz (priv.flags & alps_dualpoint)) _ _ (setup_trackstick-Kept priv base c)
        (same-Kept c);
}

pub hw_init_v3-Ends : (priv : AlpsData) → Ends 0xf4 (alps_hw_init_v3 priv)
unfolding alps_hw_init_v3
hw_init_v3-Ends priv =
    ending-Ends _ (λ c. ps2_command c 0x28 0xf3)
      (next-Keeps (trackstick-Keeps priv alps_reg_base_pinnacle) (
        next-Keeps (checked-Keeps enter-Keeps) (
          next-Keeps (checked-Keeps (absolute_v3-Keeps priv)) (
            bind-Keeps (read_reg-Keeps priv 0x0006) (λ r. next-Keeps (value-Keeps priv _) (
              bind-Keeps (read_reg-Keeps priv 0x0007) (λ r. next-Keeps (value-Keeps priv _) (
                bind-Keeps (read_reg-Keeps priv 0x0144) (λ r. next-Keeps (value-Keeps priv 0x04) (
                  bind-Keeps (read_reg-Keeps priv 0x0159) (λ r. next-Keeps (value-Keeps priv 0x03) (
                    bind-Keeps (read_reg-Keeps priv 0x0163) (λ r.
                      next-Keeps (write-Keeps priv 0x0163 0x03) (
                        bind-Keeps (read_reg-Keeps priv 0x0162)
                          (λ r. write-Keeps priv 0x0162 0x04)))))))))))))))
      (λ c. command-Kept c 0x28 0xf3)

pub hw_init_rushmore-Ends : (priv : AlpsData) → Ends 0xf4 (alps_hw_init_rushmore_v3 priv)
unfolding alps_hw_init_rushmore_v3
hw_init_rushmore-Ends priv =
    ending-Ends _ (λ c. c)
      (next-Keeps (trackstick-Keeps priv alps_reg_base_rushmore) (
        next-Keeps (checked-Keeps enter-Keeps) (
          bind-Keeps (read_reg-Keeps priv 0xc2d9) (λ r. next-Keeps (write-Keeps priv 0xc2cb 0x00) (
            bind-Keeps (read_reg-Keeps priv 0xc2c6) (λ r. next-Keeps (value-Keeps priv _) (
              next-Keeps (write-Keeps priv 0xc2c9 0x64)
                (bind-Keeps (read_reg-Keeps priv 0xc2c4) (λ r. value-Keeps priv _)))))))))
      same-Kept

pub hw_init_ss4-Ends : (priv : AlpsData) → Ends 0xf4 (alps_hw_init_ss4_v2 priv)
unfolding alps_hw_init_ss4_v2
hw_init_ss4-Ends priv =
    let before : (c : Ps2Controller) → Kept c _ = λ c. then-Kept (short-Kept c 0xea) (
      then-Kept (short-Kept _ 0xea) (
        then-Kept (command-Kept _ 0x64 0xf3) (
          then-Kept (command-Kept _ 0x28 0xf3) (
            then-Kept (exit-Keeps.keeps _) (
              then-Kept (enter-Keeps.keeps _) (
                then-Kept ((write_reg-Keeps priv 0x001d 0x20).keeps _) (exit-Keeps.keeps _))))))) in
    record {
      line = record { keeps = λ c. then-Kept (before c) (short-Kept _ 0xf4) };
      last = λ c on h. short_ends c 0xf4 (before c) on;
    }

pub hw_init_dolphin-Ends : Ends 0xf4 alps_hw_init_dolphin_v1
unfolding alps_hw_init_dolphin_v1
hw_init_dolphin-Ends =
    let before : (c : Ps2Controller) → Kept c _ = λ c.
      then-Kept (short-Kept c 0xea)
        (then-Kept (command-Kept _ 0x64 0xf3) (command-Kept _ 0x28 0xf3)) in
    record {
      line = record { keeps = λ c. then-Kept (before c) (short-Kept _ 0xf4) };
      last = λ c on h. short_ends c 0xf4 (before c) on;
    }
