-- ===== src/Keyboard/Special.antt =====
-- The keys with a meaning of their own: the `switch` on the key code and the one on the ADB key
-- code in `dispatchKeyboardEventWithPacket` of VoodooPS2Keyboard.cpp, and `onSleepEjectTimer`.
use voodoo_ps2_alps.Base.{
  ℕ, ◌+◌, ◌-◌, ◌*◌, ◌¦◌, List, [], ◌∷◌, Bool, true, false, not, ◌&&◌, ◌||◌, none, some,
  if◌then◌else◌, ◌==◌, leb, get_or,
}
use voodoo_ps2_alps.Touchpad.Messages.{get_disable_touchpad, set_disable_touchpad}
use voodoo_ps2_alps.Keyboard.Types.{
  Config, Keyboard, evaluate_rka, sleep_now, set_sleep_eject_timer, cancel_sleep_eject_timer,
  set_fkey_mode, timer_sleep, timer_eject, emit, dispatch_keyboard_event_x, dispatch_now,
  kbv_is_keydown, check_modifier_state,
}
use voodoo_ps2_alps.Keyboard.Levels.{modify_screen_brightness, modify_keyboard_backlight}

-- `DEADKEY` and the masks `kMask*` of VoodooPS2Keyboard/ApplePS2ToADBMap.h that are tested
abbrev pub deadkey : ℕ
deadkey = 0x80

abbrev pub mask_left_control : ℕ
mask_left_control = 0x0001

abbrev pub mask_left_shift : ℕ
mask_left_shift = 0x0004

abbrev pub mask_left_alt : ℕ
mask_left_alt = 0x0010

abbrev pub mask_left_windows : ℕ
mask_left_windows = 0x0040

unfoldable pub to_adb : Config → ℕ → ℕ
to_adb c key_code = get_or c.ps2_to_adb_map key_code 0

-- "codes e0f0 through e0ff can be used to call back into ACPI methods on this device"
unfoldable pub rka_digit : ℕ → ℕ
rka_digit n = if leb 10 n then n - 10 + b'A' else n + b'0'

unfoldable pub call_rka : Config → ℕ → Bool → Keyboard → Keyboard
unfolding emit rka_digit
call_rka c key_code going_down k =
    if leb 0x01f0 key_code && leb key_code 0x01ff && c.has_provider
    then emit (evaluate_rka (rka_digit (key_code - 0x01f0)) going_down) k
    else k

-- "if Option key is down don't pull up on the Shift keys"
unfoldable pub held_keys : Keyboard → List ℕ
held_keys k = if check_modifier_state k mask_left_windows then 0x1d ∷ [] else 0x2a ∷ 0x1d ∷ []

unfoldable pub dispatch_held : Config → List ℕ → Bool → ℕ → Keyboard → Keyboard
unfolding dispatch_keyboard_event_x
dispatch_held c [] going_down time k = k
dispatch_held c (key ∷ keys) going_down time k =
    dispatch_held c keys going_down time (
      if kbv_is_keydown k key
      then dispatch_keyboard_event_x (to_adb c key) going_down time k
      else k)

unfoldable pub hack_brightness : Config → ℕ → Bool → ℕ → Keyboard → Keyboard
unfolding dispatch_held dispatch_keyboard_event_x held_keys
hack_brightness c key_code going_down time k =
    let keys = held_keys k in
    let released = dispatch_held c keys false time k in
    let adb = if key_code == 0x4e then 0x90 else 0x91 in
    dispatch_held c keys true time (dispatch_keyboard_event_x adb going_down time released)

-- Numpad+ and Numpad-
unfoldable pub numpad_key : Config → ℕ → Bool → ℕ → Keyboard → Keyboard × ℕ
unfolding hack_brightness
numpad_key c key_code going_down time k =
    let hack =
      if c.brightness_hack && check_modifier_state k (mask_left_control ¦ mask_left_shift)
      then (hack_brightness c key_code going_down time k, 0)
      else (k, key_code) in
    elim (c.backlight_levels) [
      | none ↦ hack
      | some levels ↦
          if check_modifier_state k (mask_left_control ¦ mask_left_alt)
          then (modify_keyboard_backlight c levels key_code going_down k, 0)
          else hack
    ]

-- "If OS X thinks the Command and Control keys are down at the time of receiving an ADB 0x7f (power
-- button), it will unconditionaly and unsafely reboot the computer": they go up first.
unfoldable pub salute : ℕ → Keyboard → Keyboard
unfolding dispatch_keyboard_event_x
salute time k =
    let k1 = dispatch_keyboard_event_x 0x37 false time k in
    let k2 = dispatch_keyboard_event_x 0x3b false time k1 in
    let k3 = dispatch_keyboard_event_x 0x7f true time k2 in
    dispatch_keyboard_event_x 0x7f false time k3

-- The "three finger salute"
unfoldable pub delete_key : ℕ → Bool → ℕ → Keyboard → Keyboard × ℕ
unfolding salute
delete_key key_code going_down time k =
    if check_modifier_state k (mask_left_control ¦ mask_left_alt)
    then (if going_down then k else salute time k, 0)
    else (k, key_code)

-- `onSleepEjectTimer`
unfoldable pub on_sleep_eject_timer : Config → Keyboard → Keyboard
unfolding dispatch_now emit
on_sleep_eject_timer c k = elim (k.timer_func) [
  | timer_sleep ↦ emit sleep_now k
  | timer_eject ↦ dispatch_now c 0x92 true k
]

unfoldable pub sleep_key : Config → Bool → Keyboard → Keyboard
unfolding on_sleep_eject_timer emit
sleep_key c going_down k0 =
    let k = record k0 { timer_func = timer_sleep } in
    if going_down
    then if c.fkeymode || c.maxsleeppresstime == 0
      then on_sleep_eject_timer c k
      else emit (set_sleep_eject_timer (c.maxsleeppresstime * 1000000)) k
    else emit cancel_sleep_eject_timer k0

-- "get current enabled status, and toggle it"
unfoldable pub toggle_touchpad : Keyboard → Keyboard
unfolding get_disable_touchpad set_disable_touchpad
toggle_touchpad k = record k {
  typing = set_disable_touchpad (not (get_disable_touchpad k.typing)) k.typing;
}

unfoldable pub toggle_fkey_mode : Config → Bool → Keyboard → Keyboard
unfolding emit
toggle_fkey_mode c going_down k =
    if going_down && c.fkeymodesupported then emit (set_fkey_mode (not c.fkeymode)) k else k

-- 0x0128 and 0x0137, print screen
unfoldable pub toggle_key : Config → ℕ → Bool → Keyboard → Keyboard
unfolding toggle_fkey_mode toggle_touchpad
toggle_key c key_code going_down k =
    if not going_down
    then k
    else if not (check_modifier_state k mask_left_control)
    then toggle_touchpad k
    else if key_code == 0x0137
    then toggle_fkey_mode c going_down k
    else k

-- The `switch` on the key code; the key code that it returns is 0 if the key is used up.
unfoldable pub special_key : Config → ℕ → Bool → ℕ → Keyboard → Keyboard × ℕ
unfolding sleep_key toggle_key toggle_fkey_mode
special_key c key_code going_down time k =
    if key_code == 0x4e || key_code == 0x4a
    then numpad_key c key_code going_down time k
    else if key_code == 0x0153
    then delete_key key_code going_down time k
    else if key_code == 0x015f
    then (sleep_key c going_down k, 0)
    else if key_code == 0x0128 || key_code == 0x0137
    then (toggle_key c key_code going_down k, 0)
    else if key_code == 0x0127
    then (toggle_fkey_mode c going_down k, 0)
    else (k, key_code)

-- The eject key with no modifier
unfoldable pub eject_key : Config → Bool → Keyboard → Keyboard
unfolding on_sleep_eject_timer emit
eject_key c going_down k0 =
    let k = record k0 { timer_func = timer_eject } in
    if going_down
    then if c.f12ejectdelay == 0
      then on_sleep_eject_timer c k
      else emit (set_sleep_eject_timer (c.f12ejectdelay * 1000000)) k
    else emit cancel_sleep_eject_timer k0

-- The `switch` on the ADB key code: the driver, the ADB key code and `eatKey`
unfoldable pub special_adb : Config → ℕ → Bool → Keyboard → Keyboard × ℕ × Bool
unfolding eject_key
special_adb c adb going_down k =
    if adb == 0x90 || adb == 0x91
    then elim (c.brightness_levels) [
      | none ↦ (k, adb, false)
      | some levels ↦ (modify_screen_brightness c levels adb going_down k, deadkey, false)
    ]
    else if adb == 0x92 && k.modifier_state == 0
    then (eject_key c going_down k, adb, going_down)
    else (k, adb, false)
