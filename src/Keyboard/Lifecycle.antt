-- ===== src/Keyboard/Lifecycle.antt =====
-- VoodooPS2Keyboard.cpp, `initKeyboard`, `setDevicePowerState`, the keyboard's LEDs and its enabling:
-- requests to the controller, and the reset of the driver's state.
pub mod Reset
use voodoo_ps2_alps.Base.{
  ℕ, zero, suc, ◌+◌, ◌-◌, ◌&◌, ◌¦◌, List, [], ◌∷◌, Bool, true, false, if◌then◌else◌, ltb, u8,
  replicate,
}
use voodoo_ps2_alps.RingBuffer.{reset}
use voodoo_ps2_alps.Controller.Request.{
  Command, CommandKind, kwrite_data_port, kread_data_port_and_compare,
}
use voodoo_ps2_alps.Keyboard.Types.{
  Config, Keyboard, submit, set_command_byte, emit, kbv_is_keydown, kbv_num_keycodes,
  kbv_num_scancodes, ring_size,
}
use voodoo_ps2_alps.Keyboard.Interrupt.{sc_acknowledge, sc_up_bit}
use voodoo_ps2_alps.Keyboard.Dispatch.{dispatch}

-- A command of a request. The other bytes of the union are not used.
command : CommandKind → ℕ → Command
command kind x = record { command = kind; in_or_out = x; clear_bits = 0; old_bits = 0; byte3 = 0 }

-- A byte for the keyboard, which acknowledges it
unfoldable pub write_and_ack : ℕ → List Command → List Command
unfolding command
write_and_ack x rest =
    command kwrite_data_port x ∷ command kread_data_port_and_compare sc_acknowledge ∷ rest

unfoldable pub set_leds : ℕ → Keyboard → Keyboard
unfolding write_and_ack emit
set_leds led_state k = emit (submit (write_and_ack 0xed (write_and_ack led_state []))) k

-- `kLED_NumLock` and `kLED_CapsLock`
abbrev pub led_num_lock : ℕ
led_num_lock = 0x02

abbrev pub led_caps_lock : ℕ
led_caps_lock = 0x04

unfoldable pub set_led : ℕ → Bool → Keyboard → Keyboard
unfolding set_leds
set_led led locked k =
    let state = if locked then k.led_state ¦ led else k.led_state & (255 - led) in
    set_leds state (record k { led_state = state })

unfoldable pub set_alpha_lock_feedback : Bool → Keyboard → Keyboard
unfolding set_led
set_alpha_lock_feedback locked k = set_led led_caps_lock locked k

unfoldable pub set_num_lock_feedback : Bool → Keyboard → Keyboard
unfolding set_led
set_num_lock_feedback locked k = set_led led_num_lock locked k

-- `kDP_Enable` or `kDP_SetDefaultsAndDisable`
unfoldable pub set_keyboard_enable : Bool → Keyboard → Keyboard
unfolding write_and_ack emit
set_keyboard_enable enable k = emit (submit (write_and_ack (if enable then 0xf4 else 0xf5) [])) k

-- The packet of `initKeyboard` lies on the stack; only its first two bytes are written. `stale` is
-- what the other bytes hold.
unfoldable pub break_packet : List ℕ → ℕ → List ℕ
break_packet stale code =
    (if ltb code kbv_num_scancodes then 1 else 2) ∷ u8 (code ¦ sc_up_bit) ∷ stale

-- "for each key that is down, dispatch a key up for it": `n` key codes from `code` on
unfoldable pub release_keys : Config → List ℕ → ℕ → ℕ → Keyboard → Keyboard
unfolding break_packet
release_keys c stale zero code k = k
release_keys c stale (suc n) code k =
    release_keys c stale n (code + 1)
      (if kbv_is_keydown k code then dispatch c (break_packet stale code) k else k)

-- "start out with all keys up"
unfoldable pub clear_keys : Keyboard → Keyboard
clear_keys k = record k { key_bits = replicate kbv_num_keycodes false; modifier_state = 0 }

unfoldable pub init_keyboard : Config → List ℕ → Keyboard → Keyboard
unfolding write_and_ack release_keys clear_keys set_leds set_keyboard_enable emit
init_keyboard c stale k0 =
    let k1 = emit (submit (write_and_ack 0xf6 [])) k0 in
    let k2 = clear_keys (release_keys c stale kbv_num_keycodes 0 k1) in
    let k3 = set_leds k2.led_state k2 in
    let k4 = record k3 { extend_count = 0; ring = reset ring_size k3.ring } in
    emit (set_command_byte 0x40 0) (set_keyboard_enable true k4)

-- `kPS2C_DisableDevice` and `kPS2C_EnableDevice`
pub data PowerState : Type 0 where
  disable_device enable_device : PowerState

unfoldable pub set_device_power_state : Config → List ℕ → PowerState → Keyboard → Keyboard
unfolding set_keyboard_enable init_keyboard
set_device_power_state c stale disable_device k = set_keyboard_enable false k
set_device_power_state c stale enable_device k = init_keyboard c stale k
