-- ===== src/Controller/Ports/Streams.antt =====
-- What the reads of the data port return and dispatch, as a function of the bytes of each stream.
use voodoo_ps2_alps.Base.{
  ℕ, zero, suc, ◌<◌, List, [], ◌∷◌, ◌++◌, Bool, false, Option, none, some, if◌then◌else◌, ◌==◌, ◌≡◌,
  refl, ap, arith,
}
use voodoo_ps2_alps.Controller.Ports.{
  DeviceType, keyboard, mouse, other, same_device, Poll, not_ready, ready, Dispatch, read_expected,
}

-- The bytes that a device sends, in order
abbrev pub bytes_of : DeviceType → List Poll → List ℕ
bytes_of device [] = []
bytes_of device (not_ready ∷ polls) = bytes_of device polls
bytes_of device (ready from byte ∷ polls) =
    if same_device device from then byte ∷ bytes_of device polls else bytes_of device polls

-- The polls that find nothing
abbrev pub waits : List Poll → ℕ
waits [] = 0
waits (not_ready ∷ polls) = suc (waits polls)
waits (ready from byte ∷ polls) = waits polls

-- The bytes that are dispatched to a device, in order
abbrev pub dispatched_to : DeviceType → List Dispatch → List ℕ
dispatched_to device [] = []
dispatched_to device (d ∷ ds) =
    if same_device device d.device
    then d.byte ∷ dispatched_to device ds
    else dispatched_to device ds

-- The byte that is taken for the answer, of those that the device sends
abbrev pub second_chance : ℕ → Option ℕ → List ℕ → ℕ
second_chance expected none [] = 0
second_chance expected (some first) [] = first
second_chance expected none (x ∷ xs) =
    if x == expected then x else second_chance expected (some x) xs
second_chance expected (some first) (x ∷ xs) = if x == expected then x else first

-- With enough polls before the time-out, the byte that `readDataPort` returns for an expected byte
-- depends only on the first two bytes that the requested device sends: it is the first, unless the
-- second is the expected one and the first is not; and 0 if the device sends nothing.
pub read_expected-second_chance :
    (ignore : Bool) (device : DeviceType) (expected : ℕ) (held : Option ℕ) (counter : ℕ)
    (polls : List Poll)
    → waits polls < counter
    → (read_expected ignore device expected held counter polls).result
      ≡ second_chance expected held (bytes_of device polls)
unfolding read_expected
read_expected-second_chance ignore device expected held zero polls h = absurd (omega arith)
read_expected-second_chance ignore device expected none (suc counter) [] h = refl
read_expected-second_chance ignore device expected (some first) (suc counter) [] h = refl
read_expected-second_chance ignore device expected none (suc counter) (not_ready ∷ polls) h =
    read_expected-second_chance ignore device expected none counter polls (omega arith)
read_expected-second_chance ignore device expected (some first) (suc counter) (not_ready ∷ polls)
      h =
    read_expected-second_chance ignore device expected (some first) counter polls (omega arith)
read_expected-second_chance ignore device expected none (suc counter) (ready from byte ∷ polls) h =
    let more = read_expected-second_chance ignore device expected none (suc counter) polls h in
    let held =
      read_expected-second_chance ignore device expected (some byte) (suc counter) polls h in
    ground arith
read_expected-second_chance ignore device expected (some first) (suc counter)
      (ready from byte ∷ polls) h =
    let more =
      read_expected-second_chance ignore device expected (some first) (suc counter) polls h in
    ground arith

-- No byte of the other device is lost, and their order is kept: those that a read takes from the
-- port are dispatched to the driver of that device, unless out-of-order data is ignored.
pub read_expected-other :
    (device : DeviceType) (expected : ℕ) (held : Option ℕ) (counter : ℕ) (polls : List Poll)
    → bytes_of (other device) polls
      ≡ dispatched_to
          (other device)
          (read_expected false device expected held counter polls).dispatched
        ++ bytes_of (other device) (read_expected false device expected held counter polls).rest
unfolding read_expected
read_expected-other device expected none zero polls = refl
read_expected-other device expected (some first) zero polls = refl
read_expected-other device expected none (suc counter) [] = refl
read_expected-other device expected (some first) (suc counter) [] = refl
read_expected-other device expected none (suc counter) (not_ready ∷ polls) =
    read_expected-other device expected none counter polls
read_expected-other device expected (some first) (suc counter) (not_ready ∷ polls) =
    read_expected-other device expected (some first) counter polls
read_expected-other keyboard expected none (suc counter) (ready keyboard byte ∷ polls) =
    let held = read_expected-other keyboard expected (some byte) (suc counter) polls in ground arith
read_expected-other mouse expected none (suc counter) (ready mouse byte ∷ polls) =
    let held = read_expected-other mouse expected (some byte) (suc counter) polls in ground arith
read_expected-other keyboard expected none (suc counter) (ready mouse byte ∷ polls) =
    ap (λ l. byte ∷ l) (read_expected-other keyboard expected none (suc counter) polls)
read_expected-other mouse expected none (suc counter) (ready keyboard byte ∷ polls) =
    ap (λ l. byte ∷ l) (read_expected-other mouse expected none (suc counter) polls)
read_expected-other keyboard expected (some first) (suc counter) (ready keyboard byte ∷ polls) =
    ground arith
read_expected-other mouse expected (some first) (suc counter) (ready mouse byte ∷ polls) =
    ground arith
read_expected-other keyboard expected (some first) (suc counter) (ready mouse byte ∷ polls) =
    ap (λ l. byte ∷ l) (read_expected-other keyboard expected (some first) (suc counter) polls)
read_expected-other mouse expected (some first) (suc counter) (ready keyboard byte ∷ polls) =
    ap (λ l. byte ∷ l) (read_expected-other mouse expected (some first) (suc counter) polls)
