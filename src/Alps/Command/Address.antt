-- ===== src/Alps/Command/Address.antt =====
-- What a register address and a value are sent as.
use voodoo_ps2_alps.Base.{
  ℕ, ◌+◌, ◌<◌, List, [], ◌∷◌, ◌++◌, Bool, true, false, Option, none, some, ◌==◌, ◌≡◌, refl, sym, ap,
  ◌∙◌, arith, length, map, Bool-cases, ==→≡, ◌≫◌, ◌&◌, ◌/◌, ◌%◌, inl, inr, append-nil, append_assoc,
}
use voodoo_ps2_alps.Base.Bits.{bit_and-ones}
use voodoo_ps2_alps.Controller.Ports.{DeviceType, keyboard}
use voodoo_ps2_alps.Controller.Request.{
  Output, command_port, data_port, Ps2Controller, transmit_to_mouse, do_command, do_commands,
  process_request_if, process_request,
}
use voodoo_ps2_alps.Controller.Request.Outcome.{sent}
use voodoo_ps2_alps.Alps.Types.{AlpsData, NibbleCommand}
use voodoo_ps2_alps.Alps.Command.{
  Item, say, hear, command_of, submit, completed, row_items, row_of, alps_command_mode_send_nibble,
  and_then, send_nibbles, address_nibbles, alps_command_mode_set_addr, write_value,
  alps_command_mode_write_reg,
}

-- The bytes that a request says
abbrev pub said : List Item → List ℕ
said [] = []
said (say b ∷ items) = b ∷ said items
said (hear ∷ items) = said items

sent-append : (xs ys : List ℕ) → sent (xs ++ ys) ≡ sent xs ++ sent ys
sent-append [] ys = refl
sent-append (x ∷ xs) ys =
    ap (λ l. command_port transmit_to_mouse ∷ data_port x ∷ l) (sent-append xs ys)

item-done :
    (item : Item) (c : Ps2Controller) (mode : DeviceType) (to_mouse : Bool)
    → (do_command c mode to_mouse (command_of item)).controller.done
      ≡ c.done ++ sent (said (item ∷ []))
unfolding do_command
item-done (say b) c mode to_mouse =
    append_assoc c.done (command_port transmit_to_mouse ∷ []) (data_port b ∷ [])
item-done hear c mode to_mouse = sym (append-nil c.done)

items-done :
    (items : List Item) (c : Ps2Controller) (mode : DeviceType) (to_mouse : Bool)
    → (do_commands c mode to_mouse (map command_of items)).commands_count ≡ length items
    → (do_commands c mode to_mouse (map command_of items)).controller.done
      ≡ c.done ++ sent (said items)
unfolding do_commands
items-done [] c mode to_mouse = λ h. sym (append-nil c.done)
items-done (item ∷ items) c mode to_mouse =
    let s = do_command c mode to_mouse (command_of item) in
    let one = item-done item c mode to_mouse in
    let split : sent (said (item ∷ [])) ++ sent (said items) ≡ sent (said (item ∷ items)) =
      said_split item items in
    let rest = items-done items s.controller s.device_mode s.to_mouse in
    elim (Bool-cases s.failed) [
      | inl e ↦ rw e (λ h. absurd (omega arith))
      | inr e ↦ rw e (λ h.
          rest (omega arith)
          ∙ ap (λ l. l ++ sent (said items)) one
          ∙ append_assoc c.done (sent (said (item ∷ []))) (sent (said items))
          ∙ ap (λ l. c.done ++ l) split)
    ]
  where
    said_split :
        (item : Item) (items : List Item)
        → sent (said (item ∷ [])) ++ sent (said items) ≡ sent (said (item ∷ items))
    said_split (say b) items = refl
    said_split hear items = refl

-- A submitted request, by the mode of the hardware
submitted :
    (offline : Bool) (c : Ps2Controller) (items : List Item)
    → 0 < length items
    → ((process_request_if offline c (map command_of items)).commands_count == length items) ≡ true
    → (process_request_if offline c (map command_of items)).controller.done
      ≡ c.done ++ sent (said items)
unfolding process_request_if
submitted true c items p h = absurd (omega (arith, ==→≡ 0 (length items) h))
submitted false c items p h =
    items-done items (record c { ignore_interrupts = c.ignore_interrupts + 1 }) keyboard false
      (==→≡
        (do_commands (record c { ignore_interrupts = c.ignore_interrupts + 1 }) keyboard false
          (map command_of items)).commands_count
        (length items) h)

-- A request that is completed puts out the bytes that it says.
submit-done :
    (c : Ps2Controller) (items : List Item)
    → 0 < length items
    → completed items (submit c items) ≡ true
    → (submit c items).controller.done ≡ c.done ++ sent (said items)
unfolding submit completed process_request
submit-done c items p h = submitted c.hardware_offline c items p h

-- What is said for a nibble
unfoldable pub nibble_bytes : AlpsData → ℕ → List ℕ
unfolding row_items row_of
nibble_bytes priv n = elim (row_items (row_of priv n)) [ none ↦ [] | some items ↦ said items ]

row_some : (row : NibbleCommand) (items : List Item) → row_items row ≡ some items → 0 < length items
unfolding row_items
row_some row items h = ground arith

send_nibble-done :
    (priv : AlpsData) (c : Ps2Controller) (n : ℕ)
    → (alps_command_mode_send_nibble priv c n).1 ≡ true
    → (alps_command_mode_send_nibble priv c n).0.done ≡ c.done ++ sent (nibble_bytes priv n)
unfolding alps_command_mode_send_nibble nibble_bytes
send_nibble-done priv c n = by_row (row_items (row_of priv n)) refl
  where
    by_row :
        (row : Option (List Item))
        → row_items (row_of priv n) ≡ row
        → (alps_command_mode_send_nibble priv c n).1 ≡ true
        → (alps_command_mode_send_nibble priv c n).0.done ≡ c.done ++ sent (nibble_bytes priv n)
    by_row none e = rw (e, alps_command_mode_send_nibble, nibble_bytes) (λ h. ground arith)
    by_row (some items) e =
        rw (e, alps_command_mode_send_nibble, nibble_bytes)
          (λ h. submit-done c items (row_some (row_of priv n) items e) h)

abbrev pub all_bytes : AlpsData → List ℕ → List ℕ
all_bytes priv [] = []
all_bytes priv (n ∷ ns) = nibble_bytes priv n ++ all_bytes priv ns

and_then-done :
    (first : Ps2Controller × Bool) (next : Ps2Controller → Ps2Controller × Bool)
    (start : List Output) (xs ys : List ℕ)
    → (first.1 ≡ true → first.0.done ≡ start ++ sent xs)
    → ((next first.0).1 ≡ true → (next first.0).0.done ≡ first.0.done ++ sent ys)
    → (and_then first next).1 ≡ true
    → (and_then first next).0.done ≡ start ++ sent (xs ++ ys)
and_then-done (c, true) next start xs ys f g h =
    g h
    ∙ ap (λ l. l ++ sent ys) (f refl)
    ∙ append_assoc start (sent xs) (sent ys)
    ∙ ap (λ l. start ++ l) (sym (sent-append xs ys))
and_then-done (c, false) next start xs ys f g h = ground arith

send_nibbles-done :
    (priv : AlpsData) (ns : List ℕ) (c : Ps2Controller)
    → (send_nibbles priv c ns).1 ≡ true
    → (send_nibbles priv c ns).0.done ≡ c.done ++ sent (all_bytes priv ns)
unfolding send_nibbles
send_nibbles-done priv [] c h = sym (append-nil c.done)
send_nibbles-done priv (n ∷ ns) c h =
    and_then-done (alps_command_mode_send_nibble priv c n) (λ c'. send_nibbles priv c' ns) c.done
      (nibble_bytes priv n) (all_bytes priv ns) (send_nibble-done priv c n)
      (send_nibbles-done priv ns (alps_command_mode_send_nibble priv c n).0) h

-- The digits of an address to the base 16, the high ones first
abbrev hex_digits : ℕ → List ℕ
hex_digits addr = addr / 4096 % 16 ∷ addr / 256 % 16 ∷ addr / 16 % 16 ∷ addr % 16 ∷ []

nibbles-digits : (addr : ℕ) → address_nibbles addr ≡ hex_digits addr
unfolding ◌≫◌
nibbles-digits addr =
    rw
      (
        bit_and-ones 4 (addr / 4096),
        bit_and-ones 4 (addr / 256),
        bit_and-ones 4 (addr / 16),
        bit_and-ones 4 (addr / 1),
        div_one addr,
      )
      refl
  where
    div_one : (a : ℕ) → a / 1 ≡ a
    div_one a = omega arith

set_addr-nibbles :
    (priv : AlpsData) (c : Ps2Controller) (addr : ℕ)
    → (alps_command_mode_set_addr priv c addr).1 ≡ true
    → (alps_command_mode_set_addr priv c addr).0.done
      ≡ c.done ++ sent (priv.addr_command ∷ all_bytes priv (address_nibbles addr))
unfolding alps_command_mode_set_addr
set_addr-nibbles priv c addr h =
    let items = say priv.addr_command ∷ [] in
    let r = submit c items in
    and_then-done (r.controller, completed items r)
      (λ c'. send_nibbles priv c' (address_nibbles addr)) c.done (priv.addr_command ∷ [])
      (all_bytes priv (address_nibbles addr)) (submit-done c items (omega arith))
      (send_nibbles-done priv (address_nibbles addr) r.controller) h

-- If the address of a register is set, what was put out is the address command and, each as its row
-- in the table says, the four lowest digits of the address to the base 16, that of 4096 first and that
-- of 1 last, and nothing else.
pub set_addr-done :
    (priv : AlpsData) (c : Ps2Controller) (addr : ℕ)
    → (alps_command_mode_set_addr priv c addr).1 ≡ true
    → (alps_command_mode_set_addr priv c addr).0.done
      ≡ c.done
        ++ sent (
            priv.addr_command
            ∷ all_bytes priv (addr / 4096 % 16 ∷ addr / 256 % 16 ∷ addr / 16 % 16 ∷ addr % 16 ∷ []))
set_addr-done priv c addr h =
    set_addr-nibbles priv c addr h
    ∙ ap (λ ns. c.done ++ sent (priv.addr_command ∷ all_bytes priv ns)) (nibbles-digits addr)

-- If a register is written, what was put out is what sets its address, and then the two nibbles of
-- the value.
pub write_reg-done :
    (priv : AlpsData) (c : Ps2Controller) (addr value : ℕ)
    → (alps_command_mode_write_reg priv c addr value).1 ≡ true
    → (alps_command_mode_write_reg priv c addr value).0.done
      ≡ c.done
        ++ sent (
            (priv.addr_command ∷ all_bytes priv (address_nibbles addr))
            ++ all_bytes priv ((value ≫ 4 & 0xf) ∷ (value & 0xf) ∷ []))
unfolding alps_command_mode_write_reg write_value
write_reg-done priv c addr value h =
    and_then-done (alps_command_mode_set_addr priv c addr) (λ c'. write_value priv c' value) c.done
      (priv.addr_command ∷ all_bytes priv (address_nibbles addr))
      (all_bytes priv ((value ≫ 4 & 0xf) ∷ (value & 0xf) ∷ [])) (set_addr-nibbles priv c addr)
      (send_nibbles-done priv ((value ≫ 4 & 0xf) ∷ (value & 0xf) ∷ [])
        (alps_command_mode_set_addr priv c addr).0)
      h
