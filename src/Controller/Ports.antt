-- ===== src/Controller/Ports.antt =====
-- The reads of the data port: both `readDataPort` of ApplePS2Controller. The hardware is a list of
-- what the polls of the status port give, one after the other; behind the list, nothing comes.
pub mod Streams
use voodoo_ps2_alps.Base.{
  ℕ, zero, suc, List, [], ◌∷◌, ◌++◌, Bool, true, false, Option, none, some, if◌then◌else◌, ◌==◌,
  not,
}

-- `PS2DeviceType`
pub data DeviceType : Type 0 where
  keyboard mouse : DeviceType

abbrev pub other : DeviceType → DeviceType
other keyboard = mouse
other mouse = keyboard

abbrev pub same_device : DeviceType → DeviceType → Bool
same_device keyboard keyboard = true
same_device mouse mouse = true
same_device _ _ = false

-- One poll of the command port: the output buffer is not ready, or holds a byte of a device.
pub data Poll : Type 0 where
  not_ready : Poll
  ready : DeviceType → ℕ → Poll

-- `timeoutCounter`
abbrev pub timeout_start : ℕ
timeout_start = 10000

-- A byte that is handed to a driver: `dispatchDriverInterrupt`
pub record Dispatch : Type 0 where
  pub device : DeviceType
  pub byte : ℕ

-- What a read returns, with the polls that are left and the bytes that were dispatched
pub record Reading : Type 0 where
  pub result : ℕ
  pub rest : List Poll
  pub dispatched : List Dispatch

-- "The data we just received is for the other input stream"
abbrev pub dispatch_first : Dispatch → Reading → Reading
dispatch_first d r = record r { dispatched = d ∷ r.dispatched }

-- `readDataPort(deviceType)`, with `_suppressTimeout` and the value of the counter; 0 is the fake
-- value on a time-out.
unfoldable pub read_data_port : Bool → DeviceType → ℕ → List Poll → Reading
read_data_port suppress device zero polls = record { result = 0; rest = polls; dispatched = [] }
read_data_port suppress device (suc counter) [] = record { result = 0; rest = []; dispatched = [] }
read_data_port suppress device (suc counter) (not_ready ∷ polls) =
    read_data_port suppress device counter polls
read_data_port suppress device (suc counter) (ready from byte ∷ polls) =
    let more = read_data_port suppress device (suc counter) polls in
    if suppress
    then record { result = byte; rest = polls; dispatched = [] }
    else if same_device device from
    then record { result = byte; rest = polls; dispatched = [] }
    else dispatch_first (record { device = from; byte = byte }) more

-- The bytes that are dispatched unless `_ignoreOutOfOrder`
abbrev pub unless : Bool → Dispatch → List Dispatch
unless ignore d = if ignore then [] else d ∷ []

-- `readDataPort(deviceType, expectedByte)`: `held` is the first byte, put aside.
unfoldable pub read_expected : Bool → DeviceType → ℕ → Option ℕ → ℕ → List Poll → Reading
read_expected ignore device expected none zero polls = record {
  result = 0;
  rest = polls;
  dispatched = [];
}
read_expected ignore device expected (some first) zero polls = record {
  result = first;
  rest = polls;
  dispatched = [];
}
read_expected ignore device expected none (suc counter) [] = record {
  result = 0;
  rest = [];
  dispatched = [];
}
read_expected ignore device expected (some first) (suc counter) [] = record {
  result = first;
  rest = [];
  dispatched = [];
}
read_expected ignore device expected held (suc counter) (not_ready ∷ polls) =
    read_expected ignore device expected held counter polls
read_expected ignore device expected none (suc counter) (ready from byte ∷ polls) =
    let held = read_expected ignore device expected (some byte) (suc counter) polls in
    let more = read_expected ignore device expected none (suc counter) polls in
    if same_device device from
    then if byte == expected then record { result = byte; rest = polls; dispatched = [] } else held
    else record more {
      dispatched = unless ignore (record { device = from; byte = byte }) ++ more.dispatched;
    }
read_expected ignore device expected (some first) (suc counter) (ready from byte ∷ polls) =
    let more = read_expected ignore device expected (some first) (suc counter) polls in
    if same_device device from
    then if byte == expected
      then record {
        result = byte;
        rest = polls;
        dispatched = unless ignore (record { device = device; byte = first });
      }
      else record {
        result = first;
        rest = polls;
        dispatched = unless ignore (record { device = device; byte = byte });
      }
    else record more {
      dispatched = unless ignore (record { device = from; byte = byte }) ++ more.dispatched;
    }
