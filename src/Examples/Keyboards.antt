-- ===== src/Examples/Keyboards.antt =====
-- Examples for the keyboard driver.
use voodoo_ps2_alps.Base.{
  ℕ, suc, ◌+◌, ◌*◌, ◌-◌, ◌<◌, ◌≡◌, refl, arith, List, [], ◌∷◌, ◌++◌, true, false, Option, none,
  some, length, length-replicate, replicate, get_or, at, not, if◌then◌else◌, max, min, drop, zero,
  ◌¦◌,
}
use voodoo_ps2_alps.Base.Int.{pos}
use voodoo_ps2_alps.RingBuffer.{count}
use voodoo_ps2_alps.RingBuffer.Fifo.{contents}
use voodoo_ps2_alps.Keyboard.Packets.{packet_time, length-le_bytes}
use voodoo_ps2_alps.Keyboard.Types.{
  Config, Keyboard, Kernel, SwipeActions, key_event, timer_sleep, ring_size, kbv_is_keydown,
  set_command_byte, submit, emit, check_modifier_state,
}
use voodoo_ps2_alps.Keyboard.Macros.{Macros, invert_macros}
use voodoo_ps2_alps.Keyboard.Macros.Kept.{Accounted, invert_macros-Accounted}
use voodoo_ps2_alps.Keyboard.Macros.Room.{Fits, invert_macros-Fits}
use voodoo_ps2_alps.Keyboard.Interrupt.{interrupt_occurred, is_breakless, put_packet, goes_up}
use voodoo_ps2_alps.Keyboard.Interrupt.Valid.{IsValid, interrupt_occurred-IsValid}
use voodoo_ps2_alps.Keyboard.Interrupt.Repeats.{alternates, alternates_lem}
use voodoo_ps2_alps.Keyboard.Interrupt.Stored.{put_packet_lem}
use voodoo_ps2_alps.Keyboard.Levels.{next_index, leb_int}
use voodoo_ps2_alps.Keyboard.Levels.Bounds.{Increasing, next_index_lem}
use voodoo_ps2_alps.Keyboard.Dispatch.{
  dispatch, extended, key_code_raw, track_modifier, modifier_bit,
}
use voodoo_ps2_alps.Keyboard.Special.{to_adb, deadkey, mask_left_control, mask_left_alt}
use voodoo_ps2_alps.Keyboard.Dispatch.Frame.{Frame, is_key, dispatch-Frame}
use voodoo_ps2_alps.Keyboard.Dispatch.Events.{
  key_code, going_down, is_ordinary, key_events, dispatch_lem, salute_lem,
}
use voodoo_ps2_alps.Keyboard.Delivery.{host, make_packet, receive_all, send_key_sequence}
use voodoo_ps2_alps.Keyboard.Delivery.Loop.{IsIdle, receive_all-IsIdle}
use voodoo_ps2_alps.Keyboard.Lifecycle.{init_keyboard, write_and_ack}
use voodoo_ps2_alps.Keyboard.Lifecycle.Reset.{breaks, dispatch_all, init_keyboard_lem}
use voodoo_ps2_alps.Keyboard.Parse.{parse_action}
use voodoo_ps2_alps.Keyboard.Parse.Printed.{KeyMove, print_action}
use voodoo_ps2_alps.Keyboard.Parse.Sent.{
  AreKeys, no_keys, one_key, dispatch_moves, send-parse_action,
}
use voodoo_ps2_alps.Keyboard.Load.{load_custom_ps2_map, load_custom_adb_map, longest}
use voodoo_ps2_alps.Keyboard.Stock.{ps2_to_ps2_map_stock, ps2_to_adb_map_stock, ps2_flags_stock}
use voodoo_ps2_alps.Keyboard.Stock.Entries.{key_code-bounded}

-- A clock that gains 1000 with each question, in nanoseconds
abbrev kernel : Kernel
kernel = record {
  uptime = λ n. 1000 * n;
  absolutetime_to_nanoseconds = λ t. t;
  evaluate_bqc = λ n. none;
  evaluate_kkqc = λ n. none;
}

abbrev no_swipes : SwipeActions
no_swipes = record {
  action_swipe_up = [];
  action_swipe_down = [];
  action_swipe_left = [];
  action_swipe_right = [];
  action_swipe4_up = [];
  action_swipe4_down = [];
  action_swipe4_left = [];
  action_swipe4_right = [];
}

-- The stock tables and no ACPI device
abbrev config : Config
config = record {
  kernel = kernel;
  ps2_to_ps2_map = ps2_to_ps2_map_stock;
  ps2_flags = ps2_flags_stock;
  ps2_to_adb_map = ps2_to_adb_map_stock;
  fkeymode = false;
  fkeymodesupported = false;
  f12ejectdelay = 250;
  maxsleeppresstime = 0;
  has_provider = false;
  brightness_levels = none;
  backlight_levels = none;
  brightness_hack = false;
  macro_inversion = none;
  macro_ready = false;
  macro_max_time = 25000000;
  version_major = 16;
  swipe = no_swipes;
}

abbrev no_packets : Macros
no_packets = record { buffer = replicate 64 0; current = 0 }

abbrev idle : Keyboard
idle = record {
  key_bits = replicate 512 false;
  extend_count = 0;
  ring = record { buffer = replicate 512 0; head = 0; tail = 0 };
  last_data = 0;
  led_state = 0;
  modifier_state = 0;
  timer_func = timer_sleep;
  macros = no_packets;
  first_time = true;
  asked = 0;
  typing = record {
    ignoreall = false;
    modifierdown = 0;
    keytime = 0;
    momentumscrollcurrent = pos 0;
  };
  actions = [];
}

idle-IsValid : IsValid idle
idle-IsValid = record {
  ring_valid = record {
    size = length-replicate {A = ℕ} 512 0;
    small = omega arith;
    head_in = omega arith;
    tail_in = omega arith;
  };
  head_aligned = refl;
  tail_aligned = refl;
  prefix = omega arith;
  bits = length-replicate 512 false;
}

interrupt_occurred-IsValid_example : IsValid (interrupt_occurred config idle 0x1e).0
interrupt_occurred-IsValid_example = interrupt_occurred-IsValid config idle 0x1e idle-IsValid

-- The A key goes down, repeats, goes up and goes down again.
abbrev a_key : List ℕ
a_key = 0x1e ∷ 0x1e ∷ 0x9e ∷ 0x1e ∷ []

a_has_breaks : is_breakless config 0x1e ≡ false
unfolding is_breakless ps2_flags_stock
a_has_breaks = refl

alternates_lem_example : alternates config idle 0x1e (kbv_is_keydown idle 0x1e) a_key ≡ true
alternates_lem_example = alternates_lem config idle 0x1e a_key a_has_breaks idle-IsValid

put_packet_lem_example :
    (packet : List ℕ) × (contents ring_size (put_packet config 1 0x1e idle).ring
      ≡ contents ring_size idle.ring ++ packet)
    × (length packet ≡ 16)
    × (at packet 0 ≡ 1)
    × (at packet 1 ≡ 0x1e)
    × (packet_time packet ≡ config.kernel.uptime idle.asked)
put_packet_lem_example =
    put_packet_lem config 1 0x1e idle idle-IsValid (unfold count in omega arith) (omega arith)

idle-IsIdle : IsIdle idle
idle-IsIdle = record { valid = idle-IsValid; empty = refl }

receive_all-IsIdle_example : IsIdle (receive_all config idle a_key)
receive_all-IsIdle_example = receive_all-IsIdle config idle a_key idle-IsIdle

-- Two packets, left windows and P, become one.
abbrev macros : List (List ℕ)
macros = (0xff ∷ 0xff ∷ 0x02 ∷ 0x6e ∷ 0 ∷ 0 ∷ 0 ∷ 0 ∷ 0x02 ∷ 0x5b ∷ 0x01 ∷ 0x19 ∷ []) ∷ []

abbrev windows_key : List ℕ
windows_key = make_packet 0x02 0x5b 1000

windows_size : length windows_key ≡ 16
unfolding make_packet
windows_size = omega (arith, length-le_bytes 8 1000)

invert_macros-Accounted_example :
    Accounted
      (host config)
      macros
      no_packets
      windows_key
      idle
      (invert_macros (host config) macros 25000000 windows_key no_packets idle)
invert_macros-Accounted_example =
    invert_macros-Accounted (host config) macros 25000000 windows_key no_packets idle windows_size
      (omega arith)

no_packets-Fits : Fits macros no_packets
no_packets-Fits = record { size = unfold longest in refl; room = unfold longest in omega arith }

invert_macros-Fits_example :
    Fits macros (invert_macros (host config) macros 25000000 windows_key no_packets idle).0
invert_macros-Fits_example =
    invert_macros-Fits (host config) macros 25000000 windows_key no_packets idle no_packets-Fits

-- Two entries for the power supply, and then four levels
abbrev levels : List ℕ
levels = 100 ∷ 50 ∷ 10 ∷ 40 ∷ 70 ∷ 100 ∷ []

levels-Increasing : Increasing (drop 2 levels)
unfolding leb_int
levels-Increasing zero (suc zero) p q = refl
levels-Increasing zero (suc (suc zero)) p q = refl
levels-Increasing zero (suc (suc (suc zero))) p q = refl
levels-Increasing (suc zero) (suc (suc zero)) p q = refl
levels-Increasing (suc zero) (suc (suc (suc zero))) p q = refl
levels-Increasing (suc (suc zero)) (suc (suc (suc zero))) p q = refl
levels-Increasing a b p q = absurd (omega arith)

next_index_lem_example :
    next_index 2 levels (get_or levels (2 + 1) 0) true
    ≡ (if true then min (2 + 1 + 1) (length levels - 1) else max 2 (2 + 1 - 1))
next_index_lem_example = next_index_lem 2 levels 1 true (omega arith) levels-Increasing

-- "3b d, 7e d, 7e u, 3b u"
abbrev move_up : List KeyMove
move_up =
    record { adb = 0x3b; down = true }
    ∷ record { adb = 0x7e; down = true }
    ∷ record { adb = 0x7e; down = false }
    ∷ record { adb = 0x3b; down = false }
    ∷ []

move_up-AreKeys : AreKeys move_up
move_up-AreKeys =
    one_key (omega arith)
      (one_key (omega arith) (one_key (omega arith) (one_key (omega arith) no_keys)))

send-parse_action_example :
    ((parse_action (print_action move_up) (replicate 16 0) 16).0 ≡ true)
    × (send_key_sequence config (parse_action (print_action move_up) (replicate 16 0) 16).1 idle
        ≡ some (dispatch_moves config move_up idle))
send-parse_action_example =
    send-parse_action config move_up (replicate 16 0) 16 idle move_up-AreKeys (omega arith) refl

abbrev swap_entry : List (Option (List ℕ))
swap_entry = some (b'1' ∷ b'd' ∷ b'=' ∷ b'3' ∷ b'a' ∷ []) ∷ none ∷ []

key_code-bounded_example :
    (key_code_raw windows_key < length (load_custom_ps2_map swap_entry ps2_to_ps2_map_stock))
    × (get_or (load_custom_ps2_map swap_entry ps2_to_ps2_map_stock) (key_code_raw windows_key) 0
        < length (load_custom_adb_map [] ps2_to_adb_map_stock))
    × (get_or
          (load_custom_adb_map [] ps2_to_adb_map_stock)
          (get_or
            (load_custom_ps2_map swap_entry ps2_to_ps2_map_stock)
            (key_code_raw windows_key)
            0)
          0
        < 256)
key_code-bounded_example = key_code-bounded swap_entry [] windows_key

-- The A key again, as a packet
abbrev a_down : List ℕ
a_down = make_packet 0x01 0x1e 1000

dispatch-Frame_example :
    Frame
      (if is_key a_down
        then track_modifier config (key_code_raw a_down) (not (goes_up (at a_down 1))) idle
        else idle)
      (dispatch config a_down idle)
dispatch-Frame_example = dispatch-Frame config a_down idle

a_is_key : is_key a_down ≡ true
unfolding make_packet is_key extended key_code_raw
a_is_key = refl

a_is_ordinary :
    is_ordinary config (key_code config a_down) (to_adb config (key_code config a_down)) ≡ true
unfolding make_packet is_ordinary key_code_raw extended to_adb ps2_to_ps2_map_stock
    ps2_to_adb_map_stock
a_is_ordinary = refl

dispatch_lem_example :
    (dispatch config a_down idle).actions
    ≡ key_events
        (is_breakless config (key_code_raw a_down))
        (to_adb config (key_code config a_down))
        (going_down a_down)
        (packet_time a_down)
      ++ idle.actions
dispatch_lem_example = dispatch_lem config a_down idle a_is_key a_is_ordinary

abbrev delete_up : List ℕ
delete_up = make_packet 0x02 0xd3 1000

abbrev held : Keyboard
held = record idle { modifier_state = 0x11 }

delete_is_key : is_key delete_up ≡ true
unfolding make_packet is_key extended key_code_raw
delete_is_key = refl

delete_code : key_code config delete_up ≡ 0x0153
unfolding make_packet key_code_raw extended ps2_to_ps2_map_stock
delete_code = refl

no_key : to_adb config 0 ≡ deadkey
unfolding to_adb ps2_to_adb_map_stock
no_key = refl

control_alt :
    check_modifier_state
      (track_modifier config (key_code_raw delete_up) (going_down delete_up) held)
      (mask_left_control ¦ mask_left_alt)
    ≡ true
unfolding make_packet key_code_raw extended track_modifier modifier_bit check_modifier_state
    ps2_flags_stock
control_alt = refl

salute_lem_example : (dispatch config delete_up held).actions ≡ (
    if going_down delete_up
    then held.actions
    else key_event 0x7f false (packet_time delete_up)
      ∷ key_event 0x7f true (packet_time delete_up)
      ∷ key_event 0x3b false (packet_time delete_up)
      ∷ key_event 0x37 false (packet_time delete_up)
      ∷ held.actions)
salute_lem_example = salute_lem config delete_up held delete_is_key delete_code no_key control_alt

abbrev released : Keyboard → Keyboard
released k = dispatch_all config (breaks k [] 512 0) (emit (submit (write_and_ack 0xf6 [])) k)

init_keyboard_lem_example :
    IsIdle (init_keyboard config [] idle)
    × ((code : ℕ) → kbv_is_keydown (init_keyboard config [] idle) code ≡ false)
    × ((init_keyboard config [] idle).modifier_state ≡ 0)
    × ((init_keyboard config [] idle).actions
        ≡ set_command_byte 0x40 0
          ∷ submit (write_and_ack 0xf4 [])
          ∷ submit (write_and_ack 0xed (write_and_ack (released idle).led_state []))
          ∷ (released idle).actions)
init_keyboard_lem_example = init_keyboard_lem config [] idle idle-IsValid
