-- ===== src/Controller/Request/Outcome.antt =====
-- What a request comes back as: how far it got, and what was sent to the hardware.
use voodoo_ps2_alps.Base.{
  ℕ, suc, ◌+◌, ◌≤◌, List, [], ◌∷◌, ◌++◌, Bool, true, false, ◌≡◌, refl, ap, sym, subst, ◌∙◌, arith,
  length, take, drop, map, Bool-cases, inl, inr, append-nil, append_assoc,
}
use voodoo_ps2_alps.Controller.Ports.{DeviceType, keyboard}
use voodoo_ps2_alps.Controller.Request.{
  ksend_mouse_command_and_compare_ack, Command, Output, command_port, data_port, Ps2Controller,
  transmit_to_mouse, do_command, Response, do_commands, process_request_if, process_request,
}

-- How far a request got: it was carried out to its end, or the command at the index returned is the
-- one that failed, and those behind it are returned as they were.
pub record IsOutcome (cmds : List Command) (r : Response) : Type 0 where
  pub same_length : length r.commands ≡ length cmds
  pub bounded : r.commands_count ≤ length cmds
  pub untouched : drop (suc r.commands_count) r.commands ≡ drop (suc r.commands_count) cmds

do_commands-IsOutcome :
    (cmds : List Command) (c : Ps2Controller) (mode : DeviceType) (to_mouse : Bool)
    → IsOutcome cmds (do_commands c mode to_mouse cmds)
unfolding do_commands
do_commands-IsOutcome [] c mode to_mouse = record {
  same_length = refl;
  bounded = omega arith;
  untouched = refl;
}
do_commands-IsOutcome (cmd ∷ cmds) c mode to_mouse =
    let s = do_command c mode to_mouse cmd in
    let rest = do_commands-IsOutcome cmds s.controller s.device_mode s.to_mouse in
    elim (Bool-cases s.failed) [
      | inl e ↦ rw e (record { same_length = refl; bounded = omega arith; untouched = refl })
      | inr e ↦ rw e (record {
        same_length = ap suc rest.same_length;
        bounded = omega (arith, rest.bounded);
        untouched = rest.untouched;
      })
    ]

request_if-IsOutcome :
    (offline : Bool) (c : Ps2Controller) (cmds : List Command)
    → IsOutcome cmds (process_request_if offline c cmds)
unfolding process_request_if
request_if-IsOutcome true c cmds = record {
  same_length = refl;
  bounded = omega arith;
  untouched = refl;
}
request_if-IsOutcome false c cmds =
    let o =
      do_commands-IsOutcome cmds (record c { ignore_interrupts = c.ignore_interrupts + 1 }) keyboard
        false in
    record { same_length = o.same_length; bounded = o.bounded; untouched = o.untouched }

-- A request comes back with as many commands as it had, and with a count that is at most that; the
-- commands behind the one that the count names are as they were.
pub process_request-IsOutcome :
    (c : Ps2Controller) (cmds : List Command) → IsOutcome cmds (process_request c cmds)
unfolding process_request
process_request-IsOutcome c cmds = request_if-IsOutcome c.hardware_offline c cmds

do_command-interrupts :
    (c : Ps2Controller) (mode : DeviceType) (to_mouse : Bool) (cmd : Command)
    → (do_command c mode to_mouse cmd).controller.ignore_interrupts ≡ c.ignore_interrupts
unfolding do_command
do_command-interrupts c mode to_mouse cmd = ground arith

do_commands-interrupts :
    (cmds : List Command) (c : Ps2Controller) (mode : DeviceType) (to_mouse : Bool)
    → (do_commands c mode to_mouse cmds).controller.ignore_interrupts ≡ c.ignore_interrupts
unfolding do_commands
do_commands-interrupts [] c mode to_mouse = refl
do_commands-interrupts (cmd ∷ cmds) c mode to_mouse =
    let s = do_command c mode to_mouse cmd in
    let one = do_command-interrupts c mode to_mouse cmd in
    let rest = do_commands-interrupts cmds s.controller s.device_mode s.to_mouse in
    elim (Bool-cases s.failed) [ inl e ↦ rw e one | inr e ↦ rw e (rest ∙ one) ]

request_if-interrupts :
    (offline : Bool) (c : Ps2Controller) (cmds : List Command)
    → (process_request_if offline c cmds).controller.ignore_interrupts ≡ c.ignore_interrupts
unfolding process_request_if
request_if-interrupts true c cmds = refl
request_if-interrupts false c cmds = omega (
  arith,
  do_commands-interrupts cmds (record c { ignore_interrupts = c.ignore_interrupts + 1 }) keyboard
      false,
)

-- Whatever a request holds and however it ends, the counter that holds off interrupts is after it
-- what it was before.
pub process_request-interrupts :
    (c : Ps2Controller) (cmds : List Command)
    → (process_request c cmds).controller.ignore_interrupts ≡ c.ignore_interrupts
unfolding process_request
process_request-interrupts c cmds = request_if-interrupts c.hardware_offline c cmds

-- A command byte for the mouse
abbrev pub send_mouse : ℕ → Command
send_mouse b = record {
  command = ksend_mouse_command_and_compare_ack;
  in_or_out = b;
  clear_bits = 0;
  old_bits = 0;
  byte3 = 0;
}

-- What command bytes for the mouse put out: each follows the prefix for the mouse
abbrev pub sent : List ℕ → List Output
sent [] = []
sent (b ∷ bs) = command_port transmit_to_mouse ∷ data_port b ∷ sent bs

send-done :
    (c : Ps2Controller) (mode : DeviceType) (to_mouse : Bool) (b : ℕ)
    → (do_command c mode to_mouse (send_mouse b)).controller.done ≡ c.done ++ sent (b ∷ [])
unfolding do_command
send-done c mode to_mouse b =
    append_assoc c.done (command_port transmit_to_mouse ∷ []) (data_port b ∷ [])

sent-prefix :
    (bs : List ℕ) (c : Ps2Controller) (mode : DeviceType) (to_mouse : Bool)
    → (do_commands c mode to_mouse (map send_mouse bs)).controller.done
      ≡ c.done
        ++ sent (take (suc (do_commands c mode to_mouse (map send_mouse bs)).commands_count) bs)
unfolding do_commands
sent-prefix [] c mode to_mouse = sym (append-nil c.done)
sent-prefix (b ∷ bs) c mode to_mouse =
    let s = do_command c mode to_mouse (send_mouse b) in
    let one = send-done c mode to_mouse b in
    let rest = sent-prefix bs s.controller s.device_mode s.to_mouse in
    let n =
      (do_commands s.controller s.device_mode s.to_mouse (map send_mouse bs)).commands_count in
    elim (Bool-cases s.failed) [
      | inl e ↦ rw e one
      | inr e ↦ rw e (
          rest
          ∙ ap (λ l. l ++ sent (take (suc n) bs)) one
          ∙ append_assoc c.done (sent (b ∷ [])) (sent (take (suc n) bs)))
    ]

request_if-sent :
    (c : Ps2Controller) (bs : List ℕ)
    → (process_request_if false c (map send_mouse bs)).controller.done
      ≡ c.done
        ++ sent (take (suc (process_request_if false c (map send_mouse bs)).commands_count) bs)
unfolding process_request_if
request_if-sent c bs =
    sent-prefix bs (record c { ignore_interrupts = c.ignore_interrupts + 1 }) keyboard false

-- With hardware that is not offline, a request of command bytes for the mouse puts these out in
-- their order, each behind the prefix for the mouse, up to and including the one that the returned
-- count names, and nothing else.
pub process_request-sent :
    (c : Ps2Controller) (bs : List ℕ)
    → c.hardware_offline ≡ false
    → (process_request c (map send_mouse bs)).controller.done
      ≡ c.done ++ sent (take (suc (process_request c (map send_mouse bs)).commands_count) bs)
unfolding process_request
process_request-sent c bs e =
    subst
      (λ (b : Bool).
        (process_request_if b c (map send_mouse bs)).controller.done
        ≡ c.done
          ++ sent (take (suc (process_request_if b c (map send_mouse bs)).commands_count) bs))
      (sym e) (request_if-sent c bs)
