-- ===== src/Keyboard/Dispatch/Frame.antt =====
-- What `dispatchKeyboardEventWithPacket` leaves alone.
use voodoo_ps2_alps.Base.{
  ℕ, ◌≡◌, refl, ◌∙◌, arith, List, [], ◌∷◌, Bool, true, false, Option, none, some, ◌&&◌, ◌||◌, ◌==◌,
  at, if◌then◌else◌, get_or, not,
}
use voodoo_ps2_alps.Keyboard.Packets.{packet_time}
use voodoo_ps2_alps.Keyboard.Types.{
  Config, Keyboard, emit, clock_get_uptime, dispatch_keyboard_event_x, dispatch_now, timer_sleep,
  timer_eject,
}
use voodoo_ps2_alps.Keyboard.Interrupt.{goes_up}
use voodoo_ps2_alps.Keyboard.Levels.{set_level, modify_screen_brightness, modify_keyboard_backlight}
use voodoo_ps2_alps.Keyboard.Dispatch.{
  extended, key_code_raw, dispatch_lang, track_modifier, press_caps_lock, send_key, notify_touchpad,
  deliver, dispatch_key, dispatch_keyboard_event_with_packet, dispatch,
}
use voodoo_ps2_alps.Keyboard.Special.{
  to_adb, call_rka, held_keys, dispatch_held, hack_brightness, numpad_key, salute, delete_key,
  on_sleep_eject_timer, sleep_key, toggle_touchpad, toggle_fkey_mode, toggle_key, special_key,
  eject_key, special_adb,
}

-- The same ring, prefix, key bits, modifiers, LEDs and macros
pub record Frame (k k' : Keyboard) : Type 0 where
  pub same_ring : k'.ring ≡ k.ring
  pub same_prefix : k'.extend_count ≡ k.extend_count
  pub same_last : k'.last_data ≡ k.last_data
  pub same_bits : k'.key_bits ≡ k.key_bits
  pub same_macros : k'.macros ≡ k.macros
  pub same_leds : k'.led_state ≡ k.led_state
  pub same_modifiers : k'.modifier_state ≡ k.modifier_state

trans : {a b c : Keyboard} → Frame a b → Frame b c → Frame a c
trans p q = record {
  same_ring = q.same_ring ∙ p.same_ring;
  same_prefix = q.same_prefix ∙ p.same_prefix;
  same_last = q.same_last ∙ p.same_last;
  same_bits = q.same_bits ∙ p.same_bits;
  same_macros = q.same_macros ∙ p.same_macros;
  same_leds = q.same_leds ∙ p.same_leds;
  same_modifiers = q.same_modifiers ∙ p.same_modifiers;
}

event-Frame :
    (adb : ℕ) (down : Bool) (time : ℕ) (k : Keyboard)
    → Frame k (dispatch_keyboard_event_x adb down time k)
unfolding dispatch_keyboard_event_x emit
event-Frame adb down time k = ground arith

now-Frame :
    (c : Config) (adb : ℕ) (down : Bool) (k : Keyboard) → Frame k (dispatch_now c adb down k)
unfolding dispatch_now dispatch_keyboard_event_x emit clock_get_uptime
now-Frame c adb down k = ground arith

lang-Frame : (c : Config) (code : ℕ) (k : Keyboard) → Frame k (dispatch_lang c code k)
unfolding dispatch_lang dispatch_now dispatch_keyboard_event_x emit clock_get_uptime
lang-Frame c code k = ground arith

rka-Frame : (c : Config) (code : ℕ) (down : Bool) (k : Keyboard) → Frame k (call_rka c code down k)
unfolding call_rka emit
rka-Frame c code down k = ground arith

held-Frame :
    (c : Config) (keys : List ℕ) (down : Bool) (time : ℕ) (k : Keyboard)
    → Frame k (dispatch_held c keys down time k)
unfolding dispatch_held
held-Frame c [] down time k = ground arith
held-Frame c (key ∷ keys) down time k =
    let k' = dispatch_keyboard_event_x (to_adb c key) down time k in
    ground (
      arith,
      held-Frame c keys down time k,
      held-Frame c keys down time k',
      event-Frame (to_adb c key) down time k,
    )

hack-Frame :
    (c : Config) (code : ℕ) (down : Bool) (time : ℕ) (k : Keyboard)
    → Frame k (hack_brightness c code down time k)
unfolding hack_brightness
hack-Frame c code down time k =
    let keys = held_keys k in
    let released = dispatch_held c keys false time k in
    let adb = if code == 0x4e then 0x90 else 0x91 in
    let pressed = dispatch_keyboard_event_x adb down time released in
    ground (
      arith,
      held-Frame c keys false time k,
      event-Frame adb down time released,
      held-Frame c keys true time pressed,
    )

backlight-Frame :
    (c : Config) (levels : List ℕ) (code : ℕ) (down : Bool) (k : Keyboard)
    → Frame k (modify_keyboard_backlight c levels code down k)
unfolding modify_keyboard_backlight set_level emit
backlight-Frame c levels code down k = ground arith

brightness-Frame :
    (c : Config) (levels : List ℕ) (code : ℕ) (down : Bool) (k : Keyboard)
    → Frame k (modify_screen_brightness c levels code down k)
unfolding modify_screen_brightness set_level emit
brightness-Frame c levels code down k = ground arith

numpad-Frame :
    (c : Config) (code : ℕ) (down : Bool) (time : ℕ) (k : Keyboard)
    → Frame k (numpad_key c code down time k).0
unfolding numpad_key
numpad-Frame c code down time k = by_table c.backlight_levels refl
  where
    by_table :
        (o : Option (List ℕ)) → c.backlight_levels ≡ o → Frame k (numpad_key c code down time k).0
    by_table none e = ground (arith, e, hack-Frame c code down time k)
    by_table (some levels) e =
        ground (arith, e, hack-Frame c code down time k, backlight-Frame c levels code down k)

delete-Frame :
    (code : ℕ) (down : Bool) (time : ℕ) (k : Keyboard) → Frame k (delete_key code down time k).0
unfolding delete_key salute dispatch_keyboard_event_x emit
delete-Frame code down time k = ground arith

timer-Frame : (c : Config) (k : Keyboard) → Frame k (on_sleep_eject_timer c k)
unfolding on_sleep_eject_timer dispatch_now dispatch_keyboard_event_x emit clock_get_uptime
timer-Frame c k = ground arith

sleep-Frame : (c : Config) (down : Bool) (k : Keyboard) → Frame k (sleep_key c down k)
unfolding sleep_key emit
sleep-Frame c down k = ground (arith, timer-Frame c (record k { timer_func = timer_sleep }))

toggle-Frame :
    (c : Config) (code : ℕ) (down : Bool) (k : Keyboard) → Frame k (toggle_key c code down k)
unfolding toggle_key toggle_fkey_mode toggle_touchpad emit
toggle-Frame c code down k = ground arith

special_key-Frame :
    (c : Config) (code : ℕ) (down : Bool) (time : ℕ) (k : Keyboard)
    → Frame k (special_key c code down time k).0
unfolding special_key toggle_fkey_mode emit
special_key-Frame c code down time k = ground (
  arith,
  numpad-Frame c code down time k,
  delete-Frame code down time k,
  sleep-Frame c down k,
  toggle-Frame c code down k,
)

eject-Frame : (c : Config) (down : Bool) (k : Keyboard) → Frame k (eject_key c down k)
unfolding eject_key emit
eject-Frame c down k = ground (arith, timer-Frame c (record k { timer_func = timer_eject }))

special_adb-Frame :
    (c : Config) (adb : ℕ) (down : Bool) (k : Keyboard) → Frame k (special_adb c adb down k).0
unfolding special_adb
special_adb-Frame c adb down k = by_table c.brightness_levels refl
  where
    by_table :
        (o : Option (List ℕ)) → c.brightness_levels ≡ o → Frame k (special_adb c adb down k).0
    by_table none e = ground (arith, e, eject-Frame c down k)
    by_table (some levels) e =
        ground (arith, e, eject-Frame c down k, brightness-Frame c levels adb down k)

caps-Frame : (c : Config) (adb : ℕ) (k : Keyboard) → Frame k (press_caps_lock c adb k)
unfolding press_caps_lock dispatch_now dispatch_keyboard_event_x emit clock_get_uptime
caps-Frame c adb k = ground arith

notify-Frame :
    (c : Config) (adb : ℕ) (down eat : Bool) (time : ℕ) (k : Keyboard)
    → Frame k (notify_touchpad c adb down eat time k)
unfolding notify_touchpad
notify-Frame c adb down eat time k = ground arith

send-Frame :
    (c : Config) (adb raw : ℕ) (down : Bool) (time : ℕ) (k : Keyboard)
    → Frame k (send_key c adb raw down time k)
unfolding send_key dispatch_keyboard_event_x emit
send-Frame c adb raw down time k = ground arith

deliver-Frame :
    (c : Config) (adb code raw : ℕ) (down eat : Bool) (time : ℕ) (k : Keyboard)
    → Frame k (deliver c adb code raw down eat time k)
unfolding deliver
deliver-Frame c adb code raw down eat time k =
    let k' = notify_touchpad c adb down eat time k in
    ground (
      arith,
      notify-Frame c adb down eat time k,
      send-Frame c adb raw down time k',
      caps-Frame c adb k',
    )

dispatch_key-Frame :
    (c : Config) (raw code : ℕ) (down : Bool) (time : ℕ) (k : Keyboard)
    → Frame (track_modifier c raw down k) (dispatch_key c raw code down time k)
unfolding dispatch_key
dispatch_key-Frame c raw code down time k =
    let k0 = track_modifier c raw down k in
    let k1 = call_rka c code down k0 in
    let special = special_key c code down time k1 in
    let mapped = special_adb c (to_adb c special.1) down special.0 in
    let f0 = rka-Frame c code down k0 in
    let f1 = special_key-Frame c code down time k1 in
    let f2 = special_adb-Frame c (to_adb c special.1) down special.0 in
    let f3 = deliver-Frame c mapped.1 special.1 raw down mapped.2 time mapped.0 in
    trans f0 (trans f1 (trans f2 f3))

-- Does the packet have a key code of its own?
unfoldable pub is_key : List ℕ → Bool
is_key packet =
    not (extended packet == 0 && (at packet 1 == 0xf2 || at packet 1 == 0xf1))
    && not (key_code_raw packet == 0x012a)

-- Whatever the packet and the branch that it takes, dispatching it leaves the ring, the prefix
-- counter, the key bit vector, the macros and the LEDs as they were. The modifiers change only by
-- the flags of the packet's own key; a packet of a language key and a header of PrintScreen have
-- none.
pub dispatch-Frame :
    (c : Config) (packet : List ℕ) (k : Keyboard)
    → Frame
        (if is_key packet
          then track_modifier c (key_code_raw packet) (not (goes_up (at packet 1))) k
          else k)
        (dispatch c packet k)
unfolding dispatch dispatch_keyboard_event_with_packet is_key
dispatch-Frame c packet k =
    let raw = key_code_raw packet in
    let code = get_or c.ps2_to_ps2_map raw 0 in
    let down = not (goes_up (at packet 1)) in
    ground (
      arith,
      lang-Frame c (at packet 1) k,
      dispatch_key-Frame c raw code down (packet_time packet) k,
    )
