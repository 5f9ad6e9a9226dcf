-- ===== src/Alps/HwInit/Inits.antt =====
-- The values of `hw_init` in VoodooPS2Trackpad/alps.cpp, with what they ask the device for.
use voodoo_ps2_alps.Base.{
  ℕ, ◌+◌, ◌-◌, ◌*◌, ◌/◌, ◌&◌, ◌¦◌, ◌%◌, Bool, true, false, Option, none, some, if◌then◌else◌, ltb,
  nz,
}
use voodoo_ps2_alps.Base.Int.{ℤ, pos, negsuc, pos_part, ◌+ℤ◌, ◌-ℤ◌, ◌*ℤ◌}
use voodoo_ps2_alps.Controller.Request.{Ps2Controller}
use voodoo_ps2_alps.Alps.Types.{
  AlpsData, HwInit, init_null, init_v1_v2, init_v3, init_rushmore_v3, init_v4, init_dolphin_v1,
  init_v7, init_ss4_v2, alps_pass, alps_dualpoint,
}
use voodoo_ps2_alps.Alps.Command.{
  alps_enter_command_mode, alps_exit_command_mode, alps_command_mode_write_reg,
  alps_passthrough_mode_v2, ps2_command, ps2_command_short, alps_absolute_mode_v1_v2,
}
use voodoo_ps2_alps.Alps.HwInit.{
  Attempt, Done, done, ◌>>=◌, ◌>>◌, checked, always, skip, succeeded, ending, is_io_error,
  alps_reg_base_rushmore, alps_reg_base_pinnacle, alps_tap_mode, read_reg, write_reg, write_last,
  alps_absolute_mode_v3, alps_absolute_mode_v4, alps_setup_trackstick_v3,
}

-- The low and the high four bits of a byte, as signed numbers: `(char)(reg << 4) >> 4` and
-- `(char)reg >> 4`
abbrev pub signed4 : ℕ → ℤ
signed4 n = if ltb n 8 then pos n else negsuc (15 - n)

-- The pitches are in 0.1 mm; the physical sizes too.
unfoldable pub x_phys : ℕ → ℕ → ℤ
x_phys pitch electrode =
    (pos 50 +ℤ pos 2 *ℤ signed4 (pitch % 16)) *ℤ (pos 17 +ℤ signed4 (electrode % 16) -ℤ pos 1)

unfoldable pub y_phys : ℕ → ℕ → ℤ
y_phys pitch electrode =
    (pos 36 +ℤ pos 2 *ℤ signed4 (pitch / 16 % 16))
    *ℤ (pos 13 +ℤ signed4 (electrode / 16 % 16) -ℤ pos 1)

-- The resolutions, from the two registers
unfoldable pub with_resolution : AlpsData → ℕ → ℕ → AlpsData
unfolding x_phys y_phys
with_resolution priv pitch electrode = record priv {
  x_res = priv.x_max * 10 / pos_part (x_phys pitch electrode);
  y_res = priv.y_max * 10 / pos_part (y_phys pitch electrode);
}

module _ (priv : AlpsData) where
  -- The result of the method is `true` in any case: where a register cannot be read, it returns -1
  -- as a `bool`.
  unfoldable pub alps_get_v3_v7_resolution : ℕ → Ps2Controller → Ps2Controller × AlpsData × Bool
  unfolding with_resolution
  alps_get_v3_v7_resolution reg_pitch c =
      let (c1, pitch) = read_reg priv reg_pitch c in
      let (c2, electrode) = read_reg priv (reg_pitch + 1) c1 in
      elim pitch [
        | none ↦ (c1, priv, true)
        | some p ↦ elim electrode [
          | none ↦ (c2, priv, true)
          | some e ↦ (c2, with_resolution priv p e, true)
        ]
      ]

  unfoldable pub alps_hw_init_v1_v2 : Ps2Controller → Ps2Controller × Bool
  alps_hw_init_v1_v2 =
      let passes = nz (priv.flags & alps_pass) in
      succeeded (do
        if passes then checked (λ c. alps_passthrough_mode_v2 c true) else skip
        checked (λ c. alps_tap_mode c true)
        checked alps_absolute_mode_v1_v2
        if passes then checked (λ c. alps_passthrough_mode_v2 c false) else skip
        always (λ c. ps2_command_short c 0xea))

  -- The trackstick, where there is one: any other result than kIOReturnIOError goes on.
  abbrev pub trackstick : ℕ → Attempt Done
  trackstick base c =
      let (c', ret) = alps_setup_trackstick_v3 priv base c in
      if nz (priv.flags & alps_dualpoint)
      then (c', if is_io_error ret then none else some done)
      else (c, some done)

  unfoldable pub alps_hw_init_v3 : Ps2Controller → Ps2Controller × Bool
  alps_hw_init_v3 c =
      let body : Attempt Done = do
        trackstick alps_reg_base_pinnacle
        checked alps_enter_command_mode
        checked (alps_absolute_mode_v3 priv)
        reg6 ← read_reg priv 0x0006
        write_last priv (reg6 ¦ 0x01)
        reg7 ← read_reg priv 0x0007
        write_last priv (reg7 ¦ 0x01)
        reg144 ← read_reg priv 0x0144
        write_last priv 0x04
        reg159 ← read_reg priv 0x0159
        write_last priv 0x03
        reg163 ← read_reg priv 0x0163
        write_reg priv 0x0163 0x03
        reg162 ← read_reg priv 0x0162
        write_reg priv 0x0162 0x04
      in ending (λ c'. ps2_command_short (ps2_command c' 0x28 0xf3) 0xf4) (body c)

  unfoldable pub alps_hw_init_rushmore_v3 : Ps2Controller → Ps2Controller × Bool
  alps_hw_init_rushmore_v3 c =
      let body : Attempt Done = do
        trackstick alps_reg_base_rushmore
        checked alps_enter_command_mode
        reg_d9 ← read_reg priv 0xc2d9
        write_reg priv 0xc2cb 0x00
        reg_c6 ← read_reg priv 0xc2c6
        write_last priv (reg_c6 & 0xfd)
        write_reg priv 0xc2c9 0x64
        reg_c4 ← read_reg priv 0xc2c4
        write_last priv (reg_c4 ¦ 0x02)
      in ending (λ c'. ps2_command_short c' 0xf4) (body c)

  -- "This sequence changes the output from a 9-byte to an 8-byte format", and the rate
  abbrev pub v4_format : Ps2Controller → Ps2Controller
  v4_format c =
      let c1 = ps2_command c 0xc8 0xf3 in
      let c2 = ps2_command c1 0x64 0xf3 in
      let c3 = ps2_command c2 0x50 0xf3 in
      let c4 = ps2_command_short c3 0xf2 in
      let c5 = ps2_command c4 0x64 0xf3 in ps2_command_short c5 0xf4

  unfoldable pub alps_hw_init_v4 : Ps2Controller → Ps2Controller × Bool
  alps_hw_init_v4 c =
      let body : Attempt Done = do
        checked alps_enter_command_mode
        checked (alps_absolute_mode_v4 priv)
        write_reg priv 0x0007 0x8c
        write_reg priv 0x0149 0x03
        write_reg priv 0x0160 0x03
        write_reg priv 0x017f 0x15
        write_reg priv 0x0151 0x01
        write_reg priv 0x0168 0x03
        write_reg priv 0x014a 0x03
        write_reg priv 0x0161 0x03
      in ending v4_format (body c)

  -- The resolutions are stored before the steps that may fail.
  unfoldable pub alps_hw_init_v7 : Ps2Controller → Ps2Controller × AlpsData × Bool
  unfolding alps_get_v3_v7_resolution
  alps_hw_init_v7 c =
      let start : Attempt ℕ = do checked alps_enter_command_mode; read_reg priv 0xc2d9
      in let rest : Attempt Done = do
        write_reg priv 0xc2c9 0x64
        reg_val ← read_reg priv 0xc2c4
        write_last priv (reg_val ¦ 0x02)
        in let (c1, started) = start c in
          let (c2, priv', good) = alps_get_v3_v7_resolution 0xc397 c1 in
          let (c3, rested) = rest c2 in
          let (c4, ended) =
            ending (λ c'. ps2_command_short (ps2_command c' 0x28 0xf3) 0xf4) (c3, rested) in
          elim started [
            | none ↦ ((alps_exit_command_mode c1).0, priv, false)
            | some reg ↦
                if good then (c4, priv', ended) else ((alps_exit_command_mode c2).0, priv', false)
          ]

  unfoldable pub alps_hw_init_ss4_v2 : Ps2Controller → Ps2Controller × Bool
  alps_hw_init_ss4_v2 c =
      let c1 = ps2_command_short (ps2_command_short c 0xea) 0xea in
      let c2 = ps2_command (ps2_command c1 0x64 0xf3) 0x28 0xf3 in
      let (c3, left) = alps_exit_command_mode c2 in
      let (c4, entered) = alps_enter_command_mode c3 in
      let (c5, written) = alps_command_mode_write_reg priv c4 0x001d 0x20 in
      let (c6, left_again) = alps_exit_command_mode c5 in (ps2_command_short c6 0xf4, true)

-- `alps_hw_init_dolphin_v1`
unfoldable pub alps_hw_init_dolphin_v1 : Ps2Controller → Ps2Controller × Bool
alps_hw_init_dolphin_v1 c =
    let c1 = ps2_command_short c 0xea in
    let c2 = ps2_command c1 0x64 0xf3 in
    let c3 = ps2_command c2 0x28 0xf3 in (ps2_command_short c3 0xf4, true)

abbrev pub keep : AlpsData → Ps2Controller × Bool → Ps2Controller × AlpsData × Bool
keep priv (c, good) = (c, priv, good)

-- `(this->*hw_init)()`; `none` is a call through a null pointer.
unfoldable pub call_hw_init :
    HwInit → AlpsData → Ps2Controller → Option (Ps2Controller × AlpsData × Bool)
unfolding alps_hw_init_v1_v2 alps_hw_init_v3 alps_hw_init_rushmore_v3 alps_hw_init_v4
    alps_hw_init_dolphin_v1 alps_hw_init_v7 alps_hw_init_ss4_v2
call_hw_init init_null priv c = none
call_hw_init init_v1_v2 priv c = some (keep priv (alps_hw_init_v1_v2 priv c))
call_hw_init init_v3 priv c = some (keep priv (alps_hw_init_v3 priv c))
call_hw_init init_rushmore_v3 priv c = some (keep priv (alps_hw_init_rushmore_v3 priv c))
call_hw_init init_v4 priv c = some (keep priv (alps_hw_init_v4 priv c))
call_hw_init init_dolphin_v1 priv c = some (keep priv (alps_hw_init_dolphin_v1 c))
call_hw_init init_v7 priv c = some (alps_hw_init_v7 priv c)
call_hw_init init_ss4_v2 priv c = some (keep priv (alps_hw_init_ss4_v2 priv c))
