-- ===== src/Keyboard/Types.antt =====
-- VoodooPS2Keyboard/VoodooPS2Keyboard.h: the state of `ApplePS2Keyboard`, its configuration, and
-- what it asks of the rest of the system.
use voodoo_ps2_alps.Base.{ℕ, ◌+◌, List, ◌∷◌, Bool, true, false, Option, get_or, set, ◌&◌, ◌==◌}
use voodoo_ps2_alps.RingBuffer.{RingBuffer}
use voodoo_ps2_alps.Controller.Request.{Command}
use voodoo_ps2_alps.Keyboard.Macros.{Macros}
use voodoo_ps2_alps.Touchpad.Messages.{Typing}

-- `KBV_NUM_KEYCODES`, `KBV_NUM_SCANCODES`, `kBreaklessKey`
abbrev pub kbv_num_keycodes : ℕ
kbv_num_keycodes = 512

abbrev pub kbv_num_scancodes : ℕ
kbv_num_scancodes = 256

abbrev pub breakless_key : ℕ
breakless_key = 0x01

-- `RingBuffer<UInt8, kPacketLength*32>`
abbrev pub ring_size : ℕ
ring_size = 512

-- `kTimerSleep`, `kTimerEject`
pub data TimerFunc : Type 0 where
  timer_sleep timer_eject : TimerFunc

-- What the driver does outside its own object
pub data Action : Type 0 where
  key_event : (adb : ℕ) (going_down : Bool) (time : ℕ) → Action
  evaluate_rka : (digit : ℕ) (going_down : Bool) → Action
  evaluate_bcm evaluate_kkcm : (level : ℕ) → Action
  sleep_now : Action
  set_sleep_eject_timer : (time : ℕ) → Action
  cancel_sleep_eject_timer : Action
  set_macro_timer : (time : ℕ) → Action
  cancel_macro_timer : Action
  set_fkey_mode : (mode : Bool) → Action
  submit : (commands : List Command) → Action
  set_command_byte : (set_bits clear_bits : ℕ) → Action

-- The kernel and the ACPI device, which are asked one thing at a time: what the n-th question gets.
-- The uptime is 64 bits long; a level is a 32-bit word, or an error.
pub record Kernel : Type 0 where
  pub uptime : ℕ → ℕ
  pub absolutetime_to_nanoseconds : ℕ → ℕ
  pub evaluate_bqc : ℕ → Option ℕ
  pub evaluate_kkqc : ℕ → Option ℕ

-- `_actionSwipe*`, arrays of 16 UInt16
pub record SwipeActions : Type 0 where
  pub action_swipe_up : List ℕ
  pub action_swipe_down : List ℕ
  pub action_swipe_left : List ℕ
  pub action_swipe_right : List ℕ
  pub action_swipe4_up : List ℕ
  pub action_swipe4_down : List ℕ
  pub action_swipe4_left : List ℕ
  pub action_swipe4_right : List ℕ

-- The configuration: what only `init`, `start` and `setParamProperties` set. Levels are 32-bit
-- words that stand for an `int`; a null pointer is `none`. `macro_ready`
-- says that `_macroTimer` and `_macroBuffer` are there.
pub record Config : Type 0 where
  pub kernel : Kernel
  pub ps2_to_ps2_map : List ℕ
  pub ps2_flags : List ℕ
  pub ps2_to_adb_map : List ℕ
  pub fkeymode : Bool
  pub fkeymodesupported : Bool
  pub f12ejectdelay : ℕ
  pub maxsleeppresstime : ℕ
  pub has_provider : Bool
  pub brightness_levels : Option (List ℕ)
  pub backlight_levels : Option (List ℕ)
  pub brightness_hack : Bool
  pub macro_inversion : Option (List (List ℕ))
  pub macro_ready : Bool
  pub macro_max_time : ℕ
  pub version_major : ℕ
  pub swipe : SwipeActions

-- The state. The key bit vector is the list of its 512 bits. `asked` counts the questions to the
-- kernel, `typing` is the touchpad's state that messages reach, `first_time` the static flag for
-- caps lock, and `actions` what was done, the latest first.
pub record Keyboard : Type 0 where
  pub key_bits : List Bool
  pub extend_count : ℕ
  pub ring : RingBuffer
  pub last_data : ℕ
  pub led_state : ℕ
  pub modifier_state : ℕ
  pub timer_func : TimerFunc
  pub macros : Macros
  pub first_time : Bool
  pub asked : ℕ
  pub typing : Typing
  pub actions : List Action

unfoldable pub emit : Action → Keyboard → Keyboard
emit a k = record k { actions = a ∷ k.actions }

-- `clock_get_uptime`
unfoldable pub clock_get_uptime : Config → Keyboard → ℕ × Keyboard
clock_get_uptime c k = (c.kernel.uptime k.asked, record k { asked = k.asked + 1 })

-- `dispatchKeyboardEventX`, at a given time and at the time of the call
unfoldable pub dispatch_keyboard_event_x : ℕ → Bool → ℕ → Keyboard → Keyboard
unfolding emit
dispatch_keyboard_event_x adb down time k = emit (key_event adb down time) k

unfoldable pub dispatch_now : Config → ℕ → Bool → Keyboard → Keyboard
unfolding clock_get_uptime dispatch_keyboard_event_x emit
dispatch_now c adb down k =
    let asked = clock_get_uptime c k in dispatch_keyboard_event_x adb down asked.0 asked.1

-- `KBV_IS_KEYDOWN`, `KBV_KEYDOWN` and `KBV_KEYUP`
unfoldable pub kbv_is_keydown : Keyboard → ℕ → Bool
kbv_is_keydown k n = get_or k.key_bits n false

unfoldable pub kbv_keydown : Keyboard → ℕ → Keyboard
kbv_keydown k n = record k { key_bits = set k.key_bits n true }

unfoldable pub kbv_keyup : Keyboard → ℕ → Keyboard
kbv_keyup k n = record k { key_bits = set k.key_bits n false }

-- `checkModifierState`
unfoldable pub check_modifier_state : Keyboard → ℕ → Bool
check_modifier_state k mask = mask == (k.modifier_state & mask)
