-- ===== src/Alps/HwInit.antt =====
-- The methods of VoodooPS2Trackpad/alps.cpp that set the device up: `alps_hw_init_*` and what they
-- call. A `goto error` ends an attempt with `none`; the hardware keeps what was sent before.
pub mod Inits
pub mod Resolution
pub mod Online
pub mod Endings
pub mod Enabled
pub mod Streamed
pub mod Prepared
use voodoo_ps2_alps.Base.{
  ℕ, ◌+◌, ◌&◌, ◌¦◌, ◌%◌, List, [], ◌∷◌, Bool, true, false, Option, none, some, if◌then◌else◌, ◌==◌,
  ltb, nz,
}
use voodoo_ps2_alps.Base.Int.{ℤ, pos, pos_part, ◌+ℤ◌, ◌-ℤ◌, ◌*ℤ◌}
use voodoo_ps2_alps.Controller.Request.{Ps2Controller}
use voodoo_ps2_alps.Alps.Types.{AlpsData}
use voodoo_ps2_alps.Alps.Command.{
  say, hear, submit, completed, answer, AlpsStatus, alps_rpt_cmd, alps_enter_command_mode,
  alps_exit_command_mode, alps_command_mode_send_nibble, alps_command_mode_read_reg, write_value,
  alps_command_mode_write_reg, ps2_command_short, and_then,
}

-- A run of steps up to the first that fails
abbrev pub Attempt : Type 0 → Type 0
Attempt A = Ps2Controller → Ps2Controller × Option A

pub data Done : Type 0 where
  done : Done

infixl 5 ◌>>=◌ ◌>>◌
unfoldable pub ◌>>=◌ : {A B : Type 0} → Attempt A → (A → Attempt B) → Attempt B
◌>>=◌ m f c = let (c', r) = m c in elim r [ none ↦ (c', none) | some a ↦ f a c' ]

unfoldable pub ◌>>◌ : {A B : Type 0} → Attempt A → Attempt B → Attempt B
unfolding ◌>>=◌
m >> k = m >>= λ a. k

-- `if (!call) goto error;`
unfoldable pub checked : (Ps2Controller → Ps2Controller × Bool) → Attempt Done
checked call c = let (c', good) = call c in (c', if good then some done else none)

-- A call whose result is not looked at
unfoldable pub always : (Ps2Controller → Ps2Controller) → Attempt Done
always call c = (call c, some done)

unfoldable pub skip : Attempt Done
skip c = (c, some done)

-- The result of a method that returns true at its end and false from each failure
abbrev pub succeeded : {A : Type 0} → Attempt A → Ps2Controller → Ps2Controller × Bool
succeeded m c = let (c', r) = m c in (c', elim r [ none ↦ false | some a ↦ true ])

-- The two ends of the methods that use the command mode: it is left on either way, and `after` comes
-- on success only.
abbrev pub ending :
    {A : Type 0} → (Ps2Controller → Ps2Controller) → Ps2Controller × Option A → Ps2Controller × Bool
ending after (c, none) = ((alps_exit_command_mode c).0, false)
ending after (c, some a) = (after (alps_exit_command_mode c).0, true)

-- IOReturn codes. A command mode that fails at the last step gives `-kIOReturnIOError`.
pub data IoReturn : Type 0 where
  success io_error no_device minus_io_error invalid : IoReturn

abbrev pub is_io_error : IoReturn → Bool
is_io_error success = false
is_io_error io_error = true
is_io_error no_device = false
is_io_error minus_io_error = false
is_io_error invalid = false

abbrev pub is_failure : IoReturn → Bool
is_failure success = false
is_failure io_error = true
is_failure no_device = true
is_failure minus_io_error = true
is_failure invalid = true

-- `ALPS_REG_BASE_RUSHMORE`, `ALPS_REG_BASE_V7`, `ALPS_REG_BASE_PINNACLE`
abbrev pub alps_reg_base_rushmore : ℕ
alps_reg_base_rushmore = 0xc2c0

abbrev pub alps_reg_base_v7 : ℕ
alps_reg_base_v7 = 0xc2c0

abbrev pub alps_reg_base_pinnacle : ℕ
alps_reg_base_pinnacle = 0x0000

unfoldable pub alps_get_status : Ps2Controller → Ps2Controller × Bool × AlpsStatus
alps_get_status c = alps_rpt_cmd c 0 0 0xf5

unfoldable pub alps_tap_mode : Ps2Controller → Bool → Ps2Controller × Bool
unfolding alps_get_status
alps_tap_mode c enable =
    let items =
      say 0xe9
      ∷ hear
      ∷ hear
      ∷ hear
      ∷ say 0xf5
      ∷ say 0xf5
      ∷ say (if enable then 0xf3 else 0xe8)
      ∷ say (if enable then 0x0a else 0x00)
      ∷ [] in
    let r = submit c items in
    let (c', good, status) = alps_get_status r.controller in
    if completed items r then (c', good) else (r.controller, false)

module _ (priv : AlpsData) where
  -- A register is read, or the attempt is over.
  abbrev pub read_reg : ℕ → Attempt ℕ
  read_reg addr c = alps_command_mode_read_reg priv c addr

  abbrev pub write_reg : ℕ → ℕ → Attempt Done
  write_reg addr value = checked (λ c. alps_command_mode_write_reg priv c addr value)

  -- The register of the last address
  abbrev pub write_last : ℕ → Attempt Done
  write_last value = checked (λ c. write_value priv c value)

  -- An early return if the command mode cannot be entered; the mode is left in any other case.
  unfoldable pub alps_passthrough_mode_v3 : ℕ → Bool → Ps2Controller → Ps2Controller × Bool
  alps_passthrough_mode_v3 base enable c =
      let (c1, entered) = alps_enter_command_mode c in
      let body : Attempt Done = do
        reg_val ← read_reg (base + 0x0008)
        write_last (if enable then reg_val ¦ 0x01 else reg_val & 0xfffffffe)
      in if entered then ending (λ c'. c') (body c1) else (c1, false)

  unfoldable pub alps_absolute_mode_v3 : Ps2Controller → Ps2Controller × Bool
  alps_absolute_mode_v3 = succeeded (do reg_val ← read_reg 0x0004; write_last (reg_val ¦ 0x06))

  unfoldable pub alps_absolute_mode_v4 : Ps2Controller → Ps2Controller × Bool
  alps_absolute_mode_v4 = succeeded (do reg_val ← read_reg 0x0004; write_last (reg_val ¦ 0x02))

  -- Bit 7 says that there is a trackstick.
  unfoldable pub alps_probe_trackstick_v3_v7 : ℕ → Ps2Controller → Ps2Controller × IoReturn
  alps_probe_trackstick_v3_v7 base c =
      let probe : Attempt ℕ = do checked alps_enter_command_mode; read_reg (base + 0x08)
      in let (c', r) = probe c in
        (
          (alps_exit_command_mode c').0,
          elim r [
            | none ↦ io_error
            | some reg_val ↦ if nz (reg_val & 0x80) then success else no_device
          ],
        )

  -- What `alps_setup_trackstick_v3` does between the two calls of `alps_passthrough_mode_v3`
  unfoldable pub magic_sequence : ℕ → Ps2Controller → Ps2Controller × IoReturn
  magic_sequence base c =
      let (c1, reported, report) = alps_rpt_cmd c 0 0 0xe7 in
      let items = say 0xe6 ∷ say 0xe6 ∷ say 0xe6 ∷ [] in
      let r = submit c1 items in
      let nibbles : Attempt Done = do
        checked (λ c'. alps_command_mode_send_nibble priv c' 0x9)
        checked (λ c'. alps_command_mode_send_nibble priv c' 0x4)
      in let register : Attempt Done = do
        checked alps_enter_command_mode
        write_reg (base + 0x0008) 0x82
        checked alps_exit_command_mode
        in let (c2, tapped) = nibbles r.controller in
          let (c3, written) = register c2 in
          if reported
          then if completed items r
            then elim tapped [
              | none ↦ (c2, io_error)
              | some d ↦ (c3, elim written [ none ↦ minus_io_error | some e ↦ success ])
            ]
            else (r.controller, io_error)
          else (c1, no_device)

  unfoldable pub alps_setup_trackstick_v3 : ℕ → Ps2Controller → Ps2Controller × IoReturn
  unfolding magic_sequence
  alps_setup_trackstick_v3 base c =
      let (c1, through) = alps_passthrough_mode_v3 base true c in
      let (c2, ret) = magic_sequence base c1 in
      let (c3, back) = alps_passthrough_mode_v3 base false c2 in
      if through then (c3, if back then ret else io_error) else (c1, io_error)
