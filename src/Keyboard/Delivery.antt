-- ===== src/Keyboard/Delivery.antt =====
-- VoodooPS2Keyboard.cpp, `packetReady`, `onMacroTimer`, `message` and `receiveMessage`: the packets
-- of the ring, of ACPI and of the touchpad's gestures reach `dispatchKeyboardEventWithPacket`.
pub mod Loop
use voodoo_ps2_alps.Base.{
  ℕ, zero, suc, ◌+◌, ◌-◌, ◌&◌, ◌¦◌, ◌≫◌, List, [], ◌∷◌, ◌++◌, Bool, true, false, not, ◌||◌, Option,
  none, some, if◌then◌else◌, ◌==◌, leb, nz, at, u8, tabulate, replicate,
}
use voodoo_ps2_alps.RingBuffer.{RingBuffer, count, advance_tail, read_tail}
use voodoo_ps2_alps.Alps.Framing.{Ps2InterruptResult, packet_ready, packet_buffering}
use voodoo_ps2_alps.Keyboard.Packets.{packet_length, le_bytes}
use voodoo_ps2_alps.Keyboard.Types.{
  Config, Keyboard, SwipeActions, set_macro_timer, cancel_macro_timer, emit, clock_get_uptime,
  dispatch_now, ring_size,
}
use voodoo_ps2_alps.Keyboard.Macros.{Host, Macros, invert_macros, expire}
use voodoo_ps2_alps.Keyboard.Dispatch.{dispatch}
use voodoo_ps2_alps.Keyboard.Interrupt.{interrupt_occurred}

-- The driver as the macros see it
unfoldable pub host : Config → Host Keyboard
host c = record {
  dispatch = dispatch c;
  modifier_state = λ k. k.modifier_state;
  set_macro_timer = λ time k. emit (set_macro_timer time) k;
  cancel_macro_timer = emit cancel_macro_timer;
  absolutetime_to_nanoseconds = c.kernel.absolutetime_to_nanoseconds;
}

-- `!_macroInversion || !invertMacros(packet)`, negated, with the state after it
unfoldable pub is_inverted : Config → List ℕ → Keyboard → Keyboard × Bool
unfolding host
is_inverted c packet k = elim (c.macro_inversion) [
  | none ↦ (k, false)
  | some macros ↦
      let r = invert_macros (host c) macros c.macro_max_time packet k.macros k in
      if c.macro_ready then (record r.1 { macros = r.0 }, r.2) else (k, false)
]

-- A packet goes through the macros, and is dispatched unless they keep it.
unfoldable pub handle_packet : Config → List ℕ → Keyboard → Keyboard
unfolding is_inverted
handle_packet c packet k =
    let r = is_inverted c packet k in if r.1 then r.0 else dispatch c packet r.0

unfoldable pub tail_packet : Keyboard → List ℕ
tail_packet k = tabulate packet_length (read_tail k.ring)

-- One round of `packetReady`. The packet that stands for a reset is dropped.
unfoldable pub next_packet : Config → Keyboard → Keyboard
unfolding tail_packet handle_packet
next_packet c k0 =
    let packet = tail_packet k0 in
    let k = if at packet 0 == 0x00 then k0 else handle_packet c packet k0 in
    record k { ring = advance_tail ring_size k.ring packet_length }

-- `while (_ringBuffer.count() >= kPacketLength)`, with the rounds that are left
unfoldable pub packet_loop : Config → ℕ → Keyboard → Keyboard
unfolding next_packet
packet_loop c zero k = k
packet_loop c (suc rounds) k = elim (leb packet_length (count ring_size k.ring)) [
  | false ↦ k
  | true ↦ packet_loop c rounds (next_packet c k)
]

-- Each round takes a packet, so as many rounds as there are bytes are enough.
unfoldable pub packet_ready_all : Config → Keyboard → Keyboard
unfolding packet_loop
packet_ready_all c k = packet_loop c (count ring_size k.ring) k

-- A byte as the controller delivers it: the interrupt routine, and `packetReady` if it asks for it.
unfoldable pub after_interrupt : Config → Keyboard × Ps2InterruptResult → Keyboard
unfolding packet_ready_all
after_interrupt c (k, packet_buffering) = k
after_interrupt c (k, packet_ready) = packet_ready_all c k

unfoldable pub receive : Config → Keyboard → ℕ → Keyboard
unfolding after_interrupt
receive c k byte = after_interrupt c (interrupt_occurred c k byte)

unfoldable pub receive_all : Config → Keyboard → List ℕ → Keyboard
unfolding receive
receive_all c k [] = k
receive_all c k (byte ∷ bytes) = receive_all c (receive c k byte) bytes

-- "by calling packetReady, these packets are processed before dealing with the timer"
unfoldable pub on_macro_timer : Config → Keyboard → Keyboard
unfolding packet_ready_all host clock_get_uptime
on_macro_timer c k0 =
    let k = packet_ready_all c k0 in
    let asked = clock_get_uptime c k in
    let r = expire (host c) c.macro_max_time asked.0 k.macros asked.1 in
    if nz k.macros.current then record r.1 { macros = r.0 } else k

-- A packet of `message`; its bytes 2 to 7 are never read.
unfoldable pub make_packet : ℕ → ℕ → ℕ → List ℕ
unfolding le_bytes
make_packet b0 b1 time = b0 ∷ b1 ∷ (replicate 6 0 ++ le_bytes 8 time)

unfoldable pub send_stamped : Config → ℕ → ℕ → Keyboard → Keyboard
unfolding clock_get_uptime make_packet
send_stamped c b0 b1 k =
    let asked = clock_get_uptime c k in handle_packet c (make_packet b0 b1 asked.0) asked.1

-- `message`, for the argument of an ACPI notification. Codes 3 and 4 stand for make and break.
unfoldable pub message : Config → ℕ → Keyboard → Keyboard
unfolding send_stamped
message c arg k =
    let b0 = u8 (arg ≫ 8) in
    let b1 = u8 arg in
    if not ((arg & 0xffff0000) == 0)
    then k
    else if b0 == 1 || b0 == 2
    then send_stamped c b0 b1 k
    else if b0 == 3 || b0 == 4
    then send_stamped c (b0 - 2) (b1 ¦ 0x80) (send_stamped c (b0 - 2) b1 k)
    else k

-- `sendKeySequence`; `none` if the array has no end mark.
unfoldable pub send_key_sequence : Config → List ℕ → Keyboard → Option Keyboard
unfolding dispatch_now
send_key_sequence c [] k = none
send_key_sequence c (key ∷ keys) k =
    if key == 0
    then some k
    else send_key_sequence c keys (dispatch_now c (key & 0xff) (not (nz (key & 0x1000))) k)

-- The messages of the touchpad
pub data SwipeMessage : Type 0 where
  m_swipe_down m_swipe_left m_swipe_right m_swipe_up : SwipeMessage
  m_swipe4_down m_swipe4_left m_swipe4_right m_swipe4_up : SwipeMessage

unfoldable pub action_of : SwipeActions → SwipeMessage → List ℕ
action_of s m_swipe_down = s.action_swipe_down
action_of s m_swipe_left = s.action_swipe_left
action_of s m_swipe_right = s.action_swipe_right
action_of s m_swipe_up = s.action_swipe_up
action_of s m_swipe4_down = s.action_swipe4_down
action_of s m_swipe4_left = s.action_swipe4_left
action_of s m_swipe4_right = s.action_swipe4_right
action_of s m_swipe4_up = s.action_swipe4_up

unfoldable pub receive_message : Config → SwipeMessage → Keyboard → Option Keyboard
unfolding action_of send_key_sequence
receive_message c m k = send_key_sequence c (action_of c.swipe m) k
