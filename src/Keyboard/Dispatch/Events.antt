-- ===== src/Keyboard/Dispatch/Events.antt =====
-- The key events of an ordinary key, and those of control, alt and delete.
use voodoo_ps2_alps.Base.{
  ℕ, ◌≡◌, arith, List, [], ◌∷◌, ◌++◌, Bool, true, false, ◌&&◌, ◌||◌, ◌==◌, ◌¦◌, at, leb, not,
  if◌then◌else◌, get_or,
}
use voodoo_ps2_alps.Keyboard.Packets.{packet_time}
use voodoo_ps2_alps.Keyboard.Types.{
  Config, Keyboard, Action, key_event, emit, dispatch_keyboard_event_x, check_modifier_state,
}
use voodoo_ps2_alps.Keyboard.Interrupt.{goes_up, is_breakless}
use voodoo_ps2_alps.Keyboard.Dispatch.{
  key_code_raw, track_modifier, notify_touchpad, send_key, deliver, dispatch_key,
  dispatch_keyboard_event_with_packet, dispatch,
}
use voodoo_ps2_alps.Keyboard.Special.{
  to_adb, call_rka, salute, delete_key, special_key, special_adb, mask_left_control, mask_left_alt,
  deadkey,
}
use voodoo_ps2_alps.Keyboard.Dispatch.Frame.{is_key}

-- The key code of a packet, after the remapping
abbrev pub key_code : Config → List ℕ → ℕ
key_code c packet = get_or c.ps2_to_ps2_map (key_code_raw packet) 0

abbrev pub going_down : List ℕ → Bool
going_down packet = not (goes_up (at packet 1))

-- Neither the key code nor the ADB key code is one of those that have a meaning of their own.
unfoldable pub is_ordinary : Config → ℕ → ℕ → Bool
is_ordinary c code adb =
    not (
      code == 0x4e
      || code == 0x4a
      || code == 0x0153
      || code == 0x015f
      || code == 0x0128
      || code == 0x0137
      || code == 0x0127
      || code == 0)
    && not (leb 0x01f0 code && leb code 0x01ff)
    && not (adb == 0x90 || adb == 0x91 || adb == 0x92 || adb == 0x39)

-- The events of a key, the latest first. A breakless key sends no break, so its release is made up.
unfoldable pub key_events : Bool → ℕ → Bool → ℕ → List Action
key_events false adb down time = key_event adb down time ∷ []
key_events true adb true time = key_event adb false time ∷ key_event adb true time ∷ []
key_events true adb false time = []

send_key_lem :
    (c : Config) (adb raw : ℕ) (down : Bool) (time : ℕ) (k : Keyboard)
    → (send_key c adb raw down time k).actions
      ≡ key_events (is_breakless c raw) adb down time ++ k.actions
unfolding send_key dispatch_keyboard_event_x emit key_events
send_key_lem c adb raw down time k = ground arith

module _ (c : Config) (code adb : ℕ) where
  call_rka_ordinary :
      (down : Bool) (k : Keyboard) → is_ordinary c code adb ≡ true → call_rka c code down k ≡ k
  unfolding call_rka is_ordinary
  call_rka_ordinary down k o = ground arith

  special_key_ordinary :
      (down : Bool) (time : ℕ) (k : Keyboard)
      → is_ordinary c code adb ≡ true
      → special_key c code down time k ≡ (k, code)
  unfolding special_key is_ordinary
  special_key_ordinary down time k o = ground arith

  special_adb_ordinary :
      (down : Bool) (k : Keyboard)
      → is_ordinary c code adb ≡ true
      → special_adb c adb down k ≡ (k, adb, false)
  unfolding special_adb is_ordinary
  special_adb_ordinary down k o = ground arith

  deliver_ordinary :
      (raw : ℕ) (down : Bool) (time : ℕ) (k : Keyboard)
      → is_ordinary c code adb ≡ true
      → (deliver c adb code raw down false time k).actions
        ≡ key_events (is_breakless c raw) adb down time ++ k.actions
  unfolding deliver notify_touchpad is_ordinary
  deliver_ordinary raw down time k o =
      ground (arith, send_key_lem c adb raw down time (notify_touchpad c adb down false time k))

track_modifier-actions :
    (c : Config) (raw : ℕ) (down : Bool) (k : Keyboard)
    → (track_modifier c raw down k).actions ≡ k.actions
unfolding track_modifier
track_modifier-actions c raw down k = ground arith

-- A packet of an ordinary key, as a packet of the ring or of ACPI: the system gets the key's ADB
-- code with the time of the packet, and nothing else. A key that has breaks goes down or up as the
-- packet says; a breakless key goes down and at once up on the make, and does nothing on a break.
pub dispatch_lem :
    (c : Config) (packet : List ℕ) (k : Keyboard)
    → is_key packet ≡ true
    → is_ordinary c (key_code c packet) (to_adb c (key_code c packet)) ≡ true
    → (dispatch c packet k).actions
      ≡ key_events
          (is_breakless c (key_code_raw packet))
          (to_adb c (key_code c packet))
          (going_down packet)
          (packet_time packet)
        ++ k.actions
unfolding dispatch dispatch_keyboard_event_with_packet is_key dispatch_key
dispatch_lem c packet k h o =
    let code = key_code c packet in
    let raw = key_code_raw packet in
    let adb = to_adb c code in
    let down = going_down packet in
    let time = packet_time packet in
    let tracked = track_modifier c raw down k in
    ground (
      arith,
      call_rka_ordinary c code adb down tracked o,
      special_key_ordinary c code adb down time tracked o,
      special_adb_ordinary c code adb down tracked o,
      deliver_ordinary c code adb raw down time tracked o,
      track_modifier-actions c raw down k,
    )

-- Control, alt and delete, where the key code 0 has no ADB code: on the way down nothing is sent.
-- On the way up the power key is pressed and released, after the command and the control key have
-- been released.
pub salute_lem :
    (c : Config) (packet : List ℕ) (k : Keyboard)
    → is_key packet ≡ true
    → key_code c packet ≡ 0x0153
    → to_adb c 0 ≡ deadkey
    → check_modifier_state
        (track_modifier c (key_code_raw packet) (going_down packet) k)
        (mask_left_control ¦ mask_left_alt)
      ≡ true
    → let time = packet_time packet in
      (dispatch c packet k).actions ≡ (
        if going_down packet
        then k.actions
        else key_event 0x7f false time
          ∷ key_event 0x7f true time
          ∷ key_event 0x3b false time
          ∷ key_event 0x37 false time
          ∷ k.actions)
unfolding dispatch dispatch_keyboard_event_with_packet is_key dispatch_key track_modifier call_rka
    special_key delete_key salute special_adb deliver notify_touchpad dispatch_keyboard_event_x emit
salute_lem c packet k h code dead mods = ground (arith, code, dead)
