-- ===== src/Alps/Command.antt =====
-- The command mode of VoodooPS2Trackpad/alps.cpp: registers of the device are addressed by nibbles,
-- each of which is a PS/2 command; and the other requests that the driver makes.
pub mod Nibbles
pub mod Address
use voodoo_ps2_alps.Base.{
  ℕ, zero, suc, ◌+◌, ◌&◌, ◌¦◌, ◌≪◌, ◌≫◌, List, [], ◌∷◌, ◌++◌, Bool, true, false, Option, none, some,
  if◌then◌else◌, ◌==◌, ◌!=◌, ltb, nz, not, ◌&&◌, ◌||◌, length, map, get_or, replicate,
}
use voodoo_ps2_alps.Controller.Request.{
  Command, CommandKind, kread_data_port, ksend_mouse_command_and_compare_ack, Ps2Controller,
  Response, process_request,
}
use voodoo_ps2_alps.Alps.Types.{AlpsData, NibbleCommand}

nibble : ℕ → ℕ → NibbleCommand
nibble command argument = record { command = command; argument = argument }

-- The rows that `alps_v3_nibble_commands` and `alps_v4_nibble_commands` share, from row 1 on. In the
-- second byte of a command, the high nibble counts bytes to send, and the low one bytes to receive.
shared_rows : List NibbleCommand
unfolding nibble
shared_rows =
    nibble 0xf6 0x00
    ∷ nibble 0xe7 0x00
    ∷ nibble 0x10f3 0x0a
    ∷ nibble 0x10f3 0x14
    ∷ nibble 0x10f3 0x28
    ∷ nibble 0x10f3 0x3c
    ∷ nibble 0x10f3 0x50
    ∷ nibble 0x10f3 0x64
    ∷ nibble 0x10f3 0xc8
    ∷ nibble 0x01f2 0x00
    ∷ nibble 0x10e8 0x00
    ∷ nibble 0x10e8 0x01
    ∷ nibble 0x10e8 0x02
    ∷ nibble 0x10e8 0x03
    ∷ nibble 0xe6 0x00
    ∷ []

unfoldable pub alps_v3_nibble_commands : List NibbleCommand
unfolding nibble shared_rows
alps_v3_nibble_commands = nibble 0xf0 0x00 ∷ shared_rows

unfoldable pub alps_v4_nibble_commands : List NibbleCommand
unfolding nibble shared_rows
alps_v4_nibble_commands = nibble 0xf4 0x00 ∷ shared_rows

unfoldable pub alps_v6_nibble_commands : List NibbleCommand
unfolding nibble
alps_v6_nibble_commands =
    nibble 0xf4 0x00
    ∷ nibble 0xf3 0x0a
    ∷ nibble 0xf3 0x14
    ∷ nibble 0xf3 0x28
    ∷ nibble 0xf3 0x3c
    ∷ nibble 0xf3 0x50
    ∷ nibble 0xf3 0x64
    ∷ nibble 0xf3 0xc8
    ∷ nibble 0xf2 0x00
    ∷ nibble 0xe9 0x00
    ∷ nibble 0xe8 0x00
    ∷ nibble 0xe8 0x01
    ∷ nibble 0xe8 0x02
    ∷ nibble 0xe8 0x03
    ∷ nibble 0xe7 0x00
    ∷ nibble 0xe6 0x00
    ∷ []

-- The commands that the requests of the driver are made of: kPS2C_SendMouseCommandAndCompareAck
-- with a byte, and kPS2C_ReadDataPort
pub data Item : Type 0 where
  say : ℕ → Item
  hear : Item

abbrev pub command_of : Item → Command
command_of (say b) = record {
  command = ksend_mouse_command_and_compare_ack;
  in_or_out = b;
  clear_bits = 0;
  old_bits = 0;
  byte3 = 0;
}
command_of hear = record {
  command = kread_data_port;
  in_or_out = 0;
  clear_bits = 0;
  old_bits = 0;
  byte3 = 0;
}

-- `_device->submitRequestAndBlock(&request)`
unfoldable pub submit : Ps2Controller → List Item → Response
submit c items = process_request c (map command_of items)

-- `request.commandsCount == cmdCount`
unfoldable pub completed : List Item → Response → Bool
completed items r = r.commands_count == length items

-- `request.commands[i].inOrOut`
unfoldable pub answer : Response → ℕ → ℕ
answer r i = (get_or r.commands i (command_of hear)).in_or_out

-- The request for a row of the table, unless the row asks for too much
unfoldable pub row_items : NibbleCommand → Option (List Item)
row_items row =
    let send = row.command ≫ 12 & 0xf in
    let receive = row.command ≫ 8 & 0xf in
    let arguments = if ltb 0 send then say row.argument ∷ [] else [] in
    if ltb 1 send || ltb 2 (send + receive + 1)
    then none
    else some (say (row.command & 0xff) ∷ (arguments ++ replicate receive hear))

-- `priv.nibble_commands[nibble]`; the callers pass a nibble.
unfoldable pub row_of : AlpsData → ℕ → NibbleCommand
row_of priv n = get_or priv.nibble_commands n (record { command = 0; argument = 0 })

-- The driver's methods return the controller with their result.
unfoldable pub alps_command_mode_send_nibble : AlpsData → Ps2Controller → ℕ → Ps2Controller × Bool
unfolding submit completed row_items row_of
alps_command_mode_send_nibble priv c n = elim (row_items (row_of priv n)) [
  | none ↦ (c, false)
  | some items ↦ let r = submit c items in (r.controller, completed items r)
]

-- A call that comes after another one, if that returned true
abbrev pub and_then :
    Ps2Controller × Bool → (Ps2Controller → Ps2Controller × Bool) → Ps2Controller × Bool
and_then (c, true) next = next c
and_then (c, false) next = (c, false)

-- The loop over nibbles
unfoldable pub send_nibbles : AlpsData → Ps2Controller → List ℕ → Ps2Controller × Bool
send_nibbles priv c [] = (c, true)
send_nibbles priv c (n ∷ ns) =
    and_then (alps_command_mode_send_nibble priv c n) (λ c'. send_nibbles priv c' ns)

-- `(addr >> i) & 0xf` for i = 12, 8, 4, 0
abbrev pub address_nibbles : ℕ → List ℕ
address_nibbles addr =
    (addr ≫ 12 & 0xf) ∷ (addr ≫ 8 & 0xf) ∷ (addr ≫ 4 & 0xf) ∷ (addr ≫ 0 & 0xf) ∷ []

unfoldable pub alps_command_mode_set_addr : AlpsData → Ps2Controller → ℕ → Ps2Controller × Bool
unfolding send_nibbles submit completed
alps_command_mode_set_addr priv c addr =
    let items = say priv.addr_command ∷ [] in
    let r = submit c items in
    and_then (r.controller, completed items r) (λ c'. send_nibbles priv c' (address_nibbles addr))

-- The status request: "sync.."
abbrev pub status_items : List Item
status_items = say 0xe9 ∷ hear ∷ hear ∷ hear ∷ []

-- What the status request brings; `none` is -1.
unfoldable pub read_status : Ps2Controller → ℕ → Ps2Controller × Option ℕ
unfolding submit completed answer
read_status c addr =
    let r = submit c status_items in
    (
      r.controller,
      if not (completed status_items r)
          then none
          else if addr != (answer r 1 ≪ 8 ¦ answer r 2)
          then none
          else some (answer r 3),
    )

unfoldable pub alps_command_mode_read_reg : AlpsData → Ps2Controller → ℕ → Ps2Controller × Option ℕ
unfolding alps_command_mode_set_addr read_status
alps_command_mode_read_reg priv c addr =
    let (c', addressed) = alps_command_mode_set_addr priv c addr in
    if addressed then read_status c' addr else (c', none)

-- `alps_command_mode_write_reg(value)`, and with the address
unfoldable pub write_value : AlpsData → Ps2Controller → ℕ → Ps2Controller × Bool
unfolding send_nibbles
write_value priv c value = send_nibbles priv c ((value ≫ 4 & 0xf) ∷ (value & 0xf) ∷ [])

unfoldable pub alps_command_mode_write_reg : AlpsData → Ps2Controller → ℕ → ℕ → Ps2Controller × Bool
unfolding alps_command_mode_set_addr write_value
alps_command_mode_write_reg priv c addr value =
    and_then (alps_command_mode_set_addr priv c addr) (λ c'. write_value priv c' value)

-- `ALPSStatus_t`
pub record AlpsStatus : Type 0 where
  pub byte0 : ℕ
  pub byte1 : ℕ
  pub byte2 : ℕ

-- The request of `alps_rpt_cmd`, and the index of its first answer
abbrev pub report_items : ℕ → ℕ → ℕ → List Item × ℕ
report_items init_command init_arg repeated =
    let body = say repeated ∷ say repeated ∷ say repeated ∷ say 0xe9 ∷ hear ∷ hear ∷ hear ∷ [] in
    if nz init_command then (say 0xe8 ∷ say init_arg ∷ body, 6) else (body, 4)

unfoldable pub alps_rpt_cmd : Ps2Controller → ℕ → ℕ → ℕ → Ps2Controller × Bool × AlpsStatus
unfolding submit completed answer
alps_rpt_cmd c init_command init_arg repeated =
    let (items, byte0) = report_items init_command init_arg repeated in
    let r = submit c items in
    (
      r.controller,
      completed items r,
      record { byte0 = answer r byte0; byte1 = answer r (byte0 + 1); byte2 = answer r (byte0 + 2) },
    )

unfoldable pub alps_enter_command_mode : Ps2Controller → Ps2Controller × Bool
unfolding alps_rpt_cmd
alps_enter_command_mode c = let (c', entered, status) = alps_rpt_cmd c 0 0 0xec in (c', entered)

unfoldable pub alps_exit_command_mode : Ps2Controller → Ps2Controller × Bool
unfolding submit
alps_exit_command_mode c = ((submit c (say 0xea ∷ [])).controller, true)

unfoldable pub alps_passthrough_mode_v2 : Ps2Controller → Bool → Ps2Controller × Bool
unfolding submit completed
alps_passthrough_mode_v2 c enable =
    let cmd = if enable then 0xe7 else 0xe6 in
    let items = say cmd ∷ say cmd ∷ say cmd ∷ say 0xf5 ∷ [] in
    let r = submit c items in (r.controller, completed items r)

unfoldable pub ps2_command : Ps2Controller → ℕ → ℕ → Ps2Controller
unfolding submit
ps2_command c value command = (submit c (say command ∷ say value ∷ [])).controller

unfoldable pub ps2_command_short : Ps2Controller → ℕ → Ps2Controller
unfolding submit
ps2_command_short c command = (submit c (say command ∷ [])).controller

unfoldable pub alps_absolute_mode_v1_v2 : Ps2Controller → Ps2Controller × Bool
unfolding ps2_command_short
alps_absolute_mode_v1_v2 c0 =
    let c1 = ps2_command_short c0 0xf5 in
    let c2 = ps2_command_short c1 0xf5 in
    let c3 = ps2_command_short c2 0xf5 in
    let c4 = ps2_command_short c3 0xf5 in
    let c5 = ps2_command_short c4 0xf4 in (ps2_command_short c5 0xf0, true)

-- "Verify the result": it fails only if both answers are wrong.
unfoldable pub reset_mouse : Ps2Controller → Ps2Controller × Bool
unfolding submit answer
reset_mouse c =
    let r = submit c (say 0xff ∷ hear ∷ hear ∷ []) in
    (r.controller, not (answer r 1 != 0xaa && answer r 2 != 0x00))
