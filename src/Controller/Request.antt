-- ===== src/Controller/Request.antt =====
-- `ApplePS2Controller::processRequest`: the commands of a request, carried out in order up to the
-- first that fails. The waits for room in the input buffer of the hardware are left out.
pub mod Outcome
use voodoo_ps2_alps.Base.{
  ℕ, zero, suc, ◌+◌, ◌-◌, ◌*◌, ◌/◌, ◌%◌, ◌&◌, ◌¦◌, List, [], ◌∷◌, ◌++◌, Bool, true, false, Option,
  none, some, if◌then◌else◌, ◌==◌, ◌!=◌, length,
}
use voodoo_ps2_alps.Controller.Ports.{
  DeviceType, keyboard, mouse, Poll, not_ready, ready, Dispatch, Reading, timeout_start,
  read_data_port, read_expected,
}

-- `PS2CommandEnum`
pub data CommandKind : Type 0 where
  kread_data_port kread_data_port_and_compare kwrite_data_port kwrite_command_port : CommandKind
  ksend_mouse_command_and_compare_ack kread_mouse_data_port : CommandKind
  kread_mouse_data_port_and_compare kflush_data_port ksleep_ms kmodify_command_byte : CommandKind

-- `PS2Command`. The union is its four bytes: `inOrOut` and `setBits` are the first of them,
-- `clearBits` the second, `oldBits` the third, and `inOrOut32` all four.
pub record Command : Type 0 where
  pub command : CommandKind
  pub in_or_out : ℕ
  pub clear_bits : ℕ
  pub old_bits : ℕ
  pub byte3 : ℕ

in_or_out32 : Command → ℕ
in_or_out32 c = c.in_or_out + c.clear_bits * 0x100 + c.old_bits * 0x10000 + c.byte3 * 0x1000000

set_in_or_out32 : Command → ℕ → Command
set_in_or_out32 c n = record c {
  in_or_out = n % 0x100;
  clear_bits = n / 0x100 % 0x100;
  old_bits = n / 0x10000 % 0x100;
  byte3 = n / 0x1000000 % 0x100;
}

-- What is done to the hardware, in order
pub data Output : Type 0 where
  command_port data_port sleep : ℕ → Output

-- The state of the controller object that requests use, with the hardware: the polls to come, what
-- was done, and the bytes that were dispatched to the drivers.
pub record Ps2Controller : Type 0 where
  pub hardware_offline : Bool
  pub suppress_timeout : Bool
  pub ignore_out_of_order : Bool
  pub ignore_interrupts : ℕ
  pub polls : List Poll
  pub done : List Output
  pub dispatched : List Dispatch

-- `kCP_TransmitToMouse`, `kCP_GetCommandByte`, `kCP_SetCommandByte`, `kSC_Acknowledge`
abbrev pub transmit_to_mouse : ℕ
transmit_to_mouse = 0xd4

abbrev pub get_command_byte : ℕ
get_command_byte = 0x20

abbrev pub set_command_byte : ℕ
set_command_byte = 0x60

abbrev pub acknowledge : ℕ
acknowledge = 0xfa

-- `writeCommandPort`, `writeDataPort`, `IOSleep`
abbrev pub put : Ps2Controller → Output → Ps2Controller
put c o = record c { done = c.done ++ (o ∷ []) }

-- The controller after a read
abbrev pub after_read : Ps2Controller → Reading → Ps2Controller
after_read c r = record c { polls = r.rest; dispatched = c.dispatched ++ r.dispatched }

abbrev pub read_port : Ps2Controller → DeviceType → Reading
read_port c device = read_data_port c.suppress_timeout device timeout_start c.polls

abbrev pub read_port_expecting : Ps2Controller → DeviceType → ℕ → Reading
read_port_expecting c device expected =
    read_expected c.ignore_out_of_order device expected none timeout_start c.polls

-- The loop of kPS2C_FlushDataPort: the bytes that are thrown away, and the polls that are left
flush : List Poll → ℕ × List Poll
flush [] = (0, [])
flush (not_ready ∷ polls) = (0, polls)
flush (ready from byte ∷ polls) = let (n, rest) = flush polls in (suc n, rest)

-- The variables of the loop and the command, after a command was carried out
pub record Step : Type 0 where
  pub controller : Ps2Controller
  pub device_mode : DeviceType
  pub to_mouse : Bool
  pub result : Command
  pub failed : Bool

-- The body of the loop
unfoldable pub do_command : Ps2Controller → DeviceType → Bool → Command → Step
unfolding flush in_or_out32 set_in_or_out32
do_command c mode to_mouse cmd = elim (cmd.command) [
  | kread_data_port ↦
      let r = read_port c mode in
      record {
        controller = after_read c r;
        device_mode = mode;
        to_mouse = to_mouse;
        result = record cmd { in_or_out = r.result };
        failed = false;
      }
  | kread_data_port_and_compare ↦
      let r = read_port_expecting c mode cmd.in_or_out in
      record {
        controller = after_read c r;
        device_mode = mode;
        to_mouse = to_mouse;
        result = record cmd { in_or_out = r.result };
        failed = r.result != cmd.in_or_out;
      }
  | kwrite_data_port ↦ record {
    controller = put c (data_port cmd.in_or_out);
    device_mode = if to_mouse then mouse else keyboard;
    to_mouse = false;
    result = cmd;
    failed = false;
  }
  | kwrite_command_port ↦ record {
    controller = put c (command_port cmd.in_or_out);
    device_mode = mode;
    to_mouse = if cmd.in_or_out == transmit_to_mouse then true else to_mouse;
    result = cmd;
    failed = false;
  }
  | ksend_mouse_command_and_compare_ack ↦
      let c' = put (put c (command_port transmit_to_mouse)) (data_port cmd.in_or_out) in
      let r = read_port_expecting c' mouse acknowledge in
      record {
        controller = after_read c' r;
        device_mode = mouse;
        to_mouse = to_mouse;
        result = cmd;
        failed = r.result != acknowledge;
      }
  | kread_mouse_data_port ↦
      let r = read_port c mouse in
      record {
        controller = after_read c r;
        device_mode = mouse;
        to_mouse = to_mouse;
        result = record cmd { in_or_out = r.result };
        failed = false;
      }
  | kread_mouse_data_port_and_compare ↦
      let r = read_port_expecting c mouse cmd.in_or_out in
      record {
        controller = after_read c r;
        device_mode = mouse;
        to_mouse = to_mouse;
        result = cmd;
        failed = r.result != cmd.in_or_out;
      }
  | kflush_data_port ↦
      let (n, rest) = flush c.polls in
      record {
        controller = record c { polls = rest };
        device_mode = mode;
        to_mouse = to_mouse;
        result = set_in_or_out32 cmd n;
        failed = false;
      }
  | ksleep_ms ↦ record {
    controller = put c (sleep (in_or_out32 cmd));
    device_mode = mode;
    to_mouse = to_mouse;
    result = cmd;
    failed = false;
  }
  | kmodify_command_byte ↦
      let c' = put c (command_port get_command_byte) in
      let r = read_port c' keyboard in
      let value = (r.result ¦ cmd.in_or_out) & (0xff - cmd.clear_bits) in
      record {
        controller = put (put (after_read c' r) (command_port set_command_byte)) (data_port value);
        device_mode = mode;
        to_mouse = to_mouse;
        result = record cmd { old_bits = r.result };
        failed = false;
      }
]

-- What a request comes back as: its commands, and `commandsCount`
pub record Response : Type 0 where
  pub controller : Ps2Controller
  pub commands : List Command
  pub commands_count : ℕ

-- A command that was carried out, in front of those behind it
abbrev pub done_before : Command → Response → Response
done_before cmd r = record r { commands = cmd ∷ r.commands; commands_count = suc r.commands_count }

-- The loop: on a failure the count becomes the index of the command that failed.
unfoldable pub do_commands : Ps2Controller → DeviceType → Bool → List Command → Response
unfolding do_command
do_commands c mode to_mouse [] = record { controller = c; commands = []; commands_count = 0 }
do_commands c mode to_mouse (cmd ∷ cmds) =
    let s = do_command c mode to_mouse cmd in
    let rest = do_commands s.controller s.device_mode s.to_mouse cmds in
    if s.failed
    then record { controller = s.controller; commands = s.result ∷ cmds; commands_count = 0 }
    else done_before s.result rest

-- The function, by `_hardwareOffline`; the completion of the request is left to the caller.
unfoldable pub process_request_if : Bool → Ps2Controller → List Command → Response
process_request_if true c cmds = record { controller = c; commands = cmds; commands_count = 0 }
process_request_if false c cmds =
    let r =
      do_commands (record c { ignore_interrupts = c.ignore_interrupts + 1 }) keyboard false cmds in
    record r {
      controller = record (r.controller) { ignore_interrupts = r.controller.ignore_interrupts - 1 };
    }

unfoldable pub process_request : Ps2Controller → List Command → Response
unfolding process_request_if do_commands
process_request c cmds = process_request_if c.hardware_offline c cmds
