-- ===== src/Keyboard/Dispatch.antt =====
-- `dispatchKeyboardEventWithPacket` of VoodooPS2Keyboard.cpp, built without DEBUG: a packet becomes
-- key events. Each part of the function is a definition that takes the driver and returns it.
pub mod Frame
pub mod Events
use voodoo_ps2_alps.Base.{
  ℕ, ◌+◌, ◌-◌, ◌*◌, ◌%◌, ◌^◌, ◌&◌, ◌¦◌, ◌≪◌, ◌≫◌, List, [], ◌∷◌, Bool, true, false, not, ◌&&◌, ◌||◌,
  Option, none, some, if◌then◌else◌, ◌==◌, leb, nz, get_or, at, u8,
}
use voodoo_ps2_alps.Touchpad.Messages.{
  Ps2KeyInfo, get_disable_touchpad, set_disable_touchpad, notify_key_pressed,
}
use voodoo_ps2_alps.Keyboard.Types.{
  Config, Keyboard, Action, evaluate_rka, sleep_now, set_sleep_eject_timer,
  cancel_sleep_eject_timer, set_fkey_mode, timer_sleep, timer_eject, emit, clock_get_uptime,
  dispatch_keyboard_event_x, dispatch_now, kbv_is_keydown, check_modifier_state, kbv_num_scancodes,
}
use voodoo_ps2_alps.Keyboard.Packets.{packet_time}
use voodoo_ps2_alps.Keyboard.Interrupt.{is_breakless, goes_up}
use voodoo_ps2_alps.Keyboard.Levels.{modify_screen_brightness, modify_keyboard_backlight}
use voodoo_ps2_alps.Keyboard.Special.{
  deadkey, mask_left_control, mask_left_shift, mask_left_alt, mask_left_windows, to_adb, rka_digit,
  call_rka, held_keys, dispatch_held, hack_brightness, numpad_key, salute, delete_key,
  on_sleep_eject_timer, sleep_key, toggle_touchpad, toggle_fkey_mode, toggle_key, special_key,
  eject_key, special_adb,
}

unfoldable pub extended : List ℕ → ℕ
extended packet = u8 (at packet 0 + 255)

unfoldable pub key_code_raw : List ℕ → ℕ
unfolding extended
key_code_raw packet =
    let code = at packet 1 & 0x7f in if extended packet == 0 then code else code + kbv_num_scancodes

-- LANG1 (Hangul) and LANG2 (Hanja) "make one event only when the key was pressed".
unfoldable pub dispatch_lang : Config → ℕ → Keyboard → Keyboard
unfolding dispatch_now
dispatch_lang c code k =
    dispatch_now c (to_adb c code) false (dispatch_now c (to_adb c code) true k)

-- "tracking modifier key state": `_PS2flags[keyCodeRaw] >> 8` is 0 or the number of the bit, from 1.
unfoldable pub modifier_bit : Config → ℕ → ℕ
modifier_bit c raw = u8 (get_or c.ps2_flags raw 0 ≫ 8)

unfoldable pub modifier_mask : ℕ → ℕ
modifier_mask bit = if bit == 0 then 0 else (1 ≪ (bit - 1)) % 2 ^ 16

unfoldable pub track_modifier : Config → ℕ → Bool → Keyboard → Keyboard
unfolding modifier_bit
track_modifier c raw going_down k =
    let mask = modifier_mask (modifier_bit c raw) in
    if modifier_bit c raw == 0 then k else record k {
      modifier_state =
          if going_down then k.modifier_state ¦ mask else k.modifier_state & (2 ^ 16 - 1 - mask);
    }

-- Caps lock on macOS 10.12 and later: one press, or two from the second time on.
unfoldable pub press_caps_lock : Config → ℕ → Keyboard → Keyboard
unfolding dispatch_now
press_caps_lock c adb k0 =
    let k1 = dispatch_now c adb false (dispatch_now c adb true k0) in
    let k2 = if k1.first_time then k1 else dispatch_now c adb false (dispatch_now c adb true k1) in
    record k2 { first_time = false }

-- "dispatch to HID system"
unfoldable pub send_key : Config → ℕ → ℕ → Bool → ℕ → Keyboard → Keyboard
unfolding dispatch_keyboard_event_x
send_key c adb raw going_down time k0 =
    let breakless = is_breakless c raw in
    let k1 =
      if going_down || not breakless
      then dispatch_keyboard_event_x adb going_down time k0
      else k0 in
    if going_down && breakless then dispatch_keyboard_event_x adb false time k1 else k1

-- "allow mouse/trackpad driver to have time of last keyboard activity"
unfoldable pub notify_touchpad : Config → ℕ → Bool → Bool → ℕ → Keyboard → Keyboard
notify_touchpad c adb going_down eat_key time k =
    let info : Ps2KeyInfo = record {
      time = c.kernel.absolutetime_to_nanoseconds time;
      adb_key_code = adb;
      going_down = going_down;
      eat_key = eat_key;
    } in
    record k { typing = notify_key_pressed info k.typing }

-- From the touchpad's notification on. The touchpad's handler does not change `info.eatKey`.
unfoldable pub deliver : Config → ℕ → ℕ → ℕ → Bool → Bool → ℕ → Keyboard → Keyboard
unfolding send_key press_caps_lock
deliver c adb key_code raw going_down eat_key time k0 =
    let k = notify_touchpad c adb going_down eat_key time k0 in
    if adb == 0x39 && leb 16 c.version_major
    then if going_down then press_caps_lock c adb k else k
    else if nz key_code && not eat_key
    then send_key c adb raw going_down time k
    else k

-- A key whose code is found: all that follows the special cases of the scan code
unfoldable pub dispatch_key : Config → ℕ → ℕ → Bool → ℕ → Keyboard → Keyboard
dispatch_key c raw key_code0 going_down time k0 =
    let k1 = call_rka c key_code0 going_down (track_modifier c raw going_down k0) in
    let special = special_key c key_code0 going_down time k1 in
    let key_code = special.1 in
    let mapped = special_adb c (to_adb c key_code) going_down special.0 in
    deliver c mapped.1 key_code raw going_down mapped.2 time mapped.0

unfoldable pub dispatch_keyboard_event_with_packet : Config → List ℕ → Keyboard → Keyboard × Bool
unfolding dispatch_lang dispatch_key
dispatch_keyboard_event_with_packet c packet k =
    let code = at packet 1 in
    let raw = key_code_raw packet in
    if extended packet == 0 && (code == 0xf2 || code == 0xf1)
    then (dispatch_lang c code k, true)
    else if raw == 0x012a
    then (k, false)
    else (
      dispatch_key c raw (get_or c.ps2_to_ps2_map raw 0) (not (goes_up code)) (packet_time packet)
          k,
      true,
    )

-- The result is used by no caller.
unfoldable pub dispatch : Config → List ℕ → Keyboard → Keyboard
unfolding dispatch_keyboard_event_with_packet
dispatch c packet k = (dispatch_keyboard_event_with_packet c packet k).0
