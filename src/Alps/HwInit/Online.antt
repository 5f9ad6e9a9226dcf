-- ===== src/Alps/HwInit/Online.antt =====
-- No request takes the hardware offline.
use voodoo_ps2_alps.Base.{
  ℕ, ◌+◌, ◌≡◌, refl, ◌∙◌, arith, List, [], ◌∷◌, map, Bool, true, false, Option, none, some,
  if◌then◌else◌, Bool-cases, inl, inr, ◌≫◌, ◌&◌,
}
use voodoo_ps2_alps.Controller.Ports.{DeviceType, keyboard}
use voodoo_ps2_alps.Controller.Request.{
  Command, Ps2Controller, do_command, do_commands, process_request_if, process_request,
}
use voodoo_ps2_alps.Alps.Types.{AlpsData}
use voodoo_ps2_alps.Alps.Command.{
  Item, say, command_of, submit, alps_command_mode_send_nibble, send_nibbles, row_items, row_of,
  alps_command_mode_set_addr, address_nibbles, status_items, report_items, read_status,
  alps_command_mode_read_reg, write_value, alps_command_mode_write_reg, alps_rpt_cmd,
  alps_enter_command_mode, alps_exit_command_mode, and_then, completed,
}
use voodoo_ps2_alps.Alps.HwInit.{Attempt, ◌>>=◌, ◌>>◌, checked}

do_command-offline :
    (c : Ps2Controller) (mode : DeviceType) (to_mouse : Bool) (cmd : Command)
    → (do_command c mode to_mouse cmd).controller.hardware_offline ≡ c.hardware_offline
unfolding do_command
do_command-offline c mode to_mouse cmd = ground arith

do_commands-offline :
    (cmds : List Command) (c : Ps2Controller) (mode : DeviceType) (to_mouse : Bool)
    → (do_commands c mode to_mouse cmds).controller.hardware_offline ≡ c.hardware_offline
unfolding do_commands
do_commands-offline [] c mode to_mouse = refl
do_commands-offline (cmd ∷ cmds) c mode to_mouse =
    let s = do_command c mode to_mouse cmd in
    let one = do_command-offline c mode to_mouse cmd in
    let rest = do_commands-offline cmds s.controller s.device_mode s.to_mouse in
    elim (Bool-cases s.failed) [ inl e ↦ rw e one | inr e ↦ rw e (rest ∙ one) ]

request_if-offline :
    (offline : Bool) (c : Ps2Controller) (cmds : List Command)
    → (process_request_if offline c cmds).controller.hardware_offline ≡ c.hardware_offline
unfolding process_request_if
request_if-offline true c cmds = refl
request_if-offline false c cmds =
    do_commands-offline cmds (record c { ignore_interrupts = c.ignore_interrupts + 1 }) keyboard
      false

-- The state of the line is as before.
pub data Kept (c : Ps2Controller) : Ps2Controller → Type 0 where
  kept : {c' : Ps2Controller} → c'.hardware_offline ≡ c.hardware_offline → Kept c c'

pub submit-Kept : (c : Ps2Controller) (items : List Item) → Kept c (submit c items).controller
unfolding submit process_request
submit-Kept c items = kept (request_if-offline c.hardware_offline c (map command_of items))

pub same-Kept : (c : Ps2Controller) → Kept c c
same-Kept c = kept refl

pub then-Kept : {a b c : Ps2Controller} → Kept a b → Kept b c → Kept a c
then-Kept (kept e) (kept f) = kept (f ∙ e)

-- A method that leaves the line as it is, whatever it is given
pub record Keeps {B : Type 0} (method : Ps2Controller → Ps2Controller × B) : Type 0 where
  pub keeps : (c : Ps2Controller) → Kept c (method c).0

pub bind-Keeps :
    {A B : Type 0} {m : Attempt A} {f : A → Attempt B}
    → Keeps m
    → ((a : A) → Keeps (f a))
    → Keeps (m >>= f)
unfolding ◌>>=◌
bind-Keeps {A = A} {B = B} {m = m} {f = f} p q = record {
  keeps = λ c. by_result c (m c) (p.keeps c);
}
  where
    by_result :
        (c : Ps2Controller) (r : Ps2Controller × Option A)
        → Kept c r.0
        → Kept c
            (elim (r.1) as (λ x. Ps2Controller × Option B) [
              | none ↦ (r.0, none)
              | some a ↦ f a r.0
            ]).0
    by_result c (c', none) k = k
    by_result c (c', some a) k = then-Kept k ((q a).keeps c')

pub next-Keeps : {A B : Type 0} {m : Attempt A} {k : Attempt B} → Keeps m → Keeps k → Keeps (m >> k)
unfolding ◌>>◌
next-Keeps p q = bind-Keeps p (λ a. q)

pub checked-Keeps :
    {call : Ps2Controller → Ps2Controller × Bool} → Keeps call → Keeps (checked call)
unfolding checked
checked-Keeps p = record { keeps = λ c. p.keeps c }

pub send_nibble-Keeps :
    (priv : AlpsData) (n : ℕ) → Keeps (λ c. alps_command_mode_send_nibble priv c n)
unfolding alps_command_mode_send_nibble
send_nibble-Keeps priv n = record { keeps = λ c. by_row c (row_items (row_of priv n)) }
  where
    by_row :
        (c : Ps2Controller) (row : Option (List Item))
        → Kept c
            (elim row as (λ x. Ps2Controller × Bool) [
              | none ↦ (c, false)
              | some items ↦ ((submit c items).controller, completed items (submit c items))
            ]).0
    by_row c none = same-Kept c
    by_row c (some items) = submit-Kept c items

and_then-Kept :
    {c : Ps2Controller} (r : Ps2Controller × Bool) (next : Ps2Controller → Ps2Controller × Bool)
    → Kept c r.0
    → Keeps next
    → Kept c (and_then r next).0
and_then-Kept (c', true) next k p = then-Kept k (p.keeps c')
and_then-Kept (c', false) next k p = k

send_nibbles-Keeps : (priv : AlpsData) (ns : List ℕ) → Keeps (λ c. send_nibbles priv c ns)
unfolding send_nibbles
send_nibbles-Keeps priv [] = record { keeps = same-Kept }
send_nibbles-Keeps priv (n ∷ ns) = record {
  keeps = λ c.
      and_then-Kept (alps_command_mode_send_nibble priv c n) (λ c'. send_nibbles priv c' ns)
        ((send_nibble-Keeps priv n).keeps c) (send_nibbles-Keeps priv ns);
}

set_addr-Keeps : (priv : AlpsData) (addr : ℕ) → Keeps (λ c. alps_command_mode_set_addr priv c addr)
unfolding alps_command_mode_set_addr
set_addr-Keeps priv addr = record {
  keeps = λ c.
      and_then-Kept _ (λ c'. send_nibbles priv c' (address_nibbles addr))
        (submit-Kept c (say priv.addr_command ∷ []))
        (send_nibbles-Keeps priv (address_nibbles addr));
}

pub write_value-Keeps : (priv : AlpsData) (value : ℕ) → Keeps (λ c. write_value priv c value)
unfolding write_value
write_value-Keeps priv value = send_nibbles-Keeps priv ((value ≫ 4 & 0xf) ∷ (value & 0xf) ∷ [])

pub write_reg-Keeps :
    (priv : AlpsData) (addr value : ℕ) → Keeps (λ c. alps_command_mode_write_reg priv c addr value)
unfolding alps_command_mode_write_reg
write_reg-Keeps priv addr value = record {
  keeps = λ c.
      and_then-Kept _ (λ c'. write_value priv c' value) ((set_addr-Keeps priv addr).keeps c)
        (write_value-Keeps priv value);
}

pub read_reg-Keeps :
    (priv : AlpsData) (addr : ℕ) → Keeps (λ c. alps_command_mode_read_reg priv c addr)
unfolding alps_command_mode_read_reg read_status
read_reg-Keeps priv addr = record {
  keeps =
      λ c. by_address (alps_command_mode_set_addr priv c addr) ((set_addr-Keeps priv addr).keeps c);
}
  where
    by_address :
        {c : Ps2Controller} (r : Ps2Controller × Bool)
        → Kept c r.0
        → Kept c (if r.1 then read_status r.0 addr else (r.0, none)).0
    by_address (c', true) k = then-Kept k (submit-Kept c' status_items)
    by_address (c', false) k = k

pub rpt_cmd-Kept :
    (c : Ps2Controller) (init_command init_arg repeated : ℕ)
    → Kept c (alps_rpt_cmd c init_command init_arg repeated).0
unfolding alps_rpt_cmd
rpt_cmd-Kept c init_command init_arg repeated =
    submit-Kept c (report_items init_command init_arg repeated).0

pub enter-Keeps : Keeps alps_enter_command_mode
unfolding alps_enter_command_mode
enter-Keeps = record { keeps = λ c. rpt_cmd-Kept c 0 0 0xec }

pub exit-Keeps : Keeps alps_exit_command_mode
unfolding alps_exit_command_mode
exit-Keeps = record { keeps = λ c. submit-Kept c (say 0xea ∷ []) }
