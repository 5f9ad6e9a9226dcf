-- ===== src/Touchpad/MiddleButton.antt =====
-- VoodooPS2Trackpad/VoodooPS2TouchPadBase.cpp: the middle button that two buttons stand for
-- (`middleButton`, `onButtonTimer`). The timer and the pointer events are the list that a call leaves
-- behind, in the order in which the source makes them. `to_ns` is the kernel's
-- `absolutetime_to_nanoseconds`.
pub mod Timer
pub mod Clicks
use voodoo_ps2_alps.Base.{
  ℕ, ◌+◌, ◌-◌, ◌^◌, ◌%◌, ◌<◌, Bool, true, false, not, ◌&&◌, ◌||◌, ◌==◌, ltb, if◌then◌else◌, List,
  [], ◌∷◌, ◌++◌, ◌&◌, ◌¦◌,
}

-- `_mbuttonstate`
pub data MButtonState : Type 0 where
  state_no_buttons state_middle state_wait4two state_wait4none state_noop : MButtonState

-- `MBComingFrom`
pub data MbComingFrom : Type 0 where
  from_passthru from_timer from_trackpad from_cancel : MbComingFrom

abbrev pub is_timer : MbComingFrom → Bool
is_timer from_passthru = false
is_timer from_timer = true
is_timer from_trackpad = false
is_timer from_cancel = false

abbrev pub is_trackpad : MbComingFrom → Bool
is_trackpad from_passthru = false
is_trackpad from_timer = false
is_trackpad from_trackpad = true
is_trackpad from_cancel = false

abbrev pub is_cancel : MbComingFrom → Bool
is_cancel from_passthru = false
is_cancel from_timer = false
is_cancel from_trackpad = false
is_cancel from_cancel = true

-- What a call does to the timer and sends to the system: `relative_pointer b` is
-- `dispatchRelativePointerEventX(0, 0, b, now_abs)` at the time of the call.
pub data TouchEvent : Type 0 where
  set_timer : ℕ → TouchEvent
  cancel_timer : TouchEvent
  relative_pointer : ℕ → TouchEvent

-- The fields of the driver that the button machine reads and writes
pub record MiddleButton : Type 0 where
  pub fake_middle_button : Bool
  pub button_count : ℕ
  pub ignore_all : Bool
  pub max_middle_click_time : ℕ
  pub state : MButtonState
  pub pending_buttons : ℕ
  pub button_time : ℕ

abbrev pub Moved : Type 0
Moved = MiddleButton × List TouchEvent

abbrev pub released : Bool → MButtonState
released b = if b then state_no_buttons else state_noop

abbrev pub enter : MiddleButton → MButtonState → MiddleButton
enter m s = record m { state = s }

-- `_pendingbuttons = buttons; _buttontime = now_ns; setTimerTimeout(...); _mbuttonstate = s`
abbrev pub wait_in : MiddleButton → ℕ → ℕ → MButtonState → Moved
wait_in m buttons now_ns s = (
  record m { pending_buttons = buttons; button_time = now_ns; state = s },
  set_timer m.max_middle_click_time ∷ [],
)

-- `_pendingbuttons = 0; cancelTimer(_buttonTimer); _mbuttonstate = s`
abbrev pub stop_wait : MiddleButton → List TouchEvent → MButtonState → Moved
stop_wait m events s = (record m { pending_buttons = 0; state = s }, events ++ (cancel_timer ∷ []))

-- Whether the wait is over: `now_ns - _buttontime` is a difference of 64 bits.
unfoldable pub timed_out : MiddleButton → ℕ → MbComingFrom → Bool
timed_out m now_ns from =
    is_timer from
    || is_cancel from
    || ltb m.max_middle_click_time ((now_ns + 2 ^ 64 - m.button_time) % 2 ^ 64)

-- The first switch, case by case
unfoldable pub on_no_buttons : MiddleButton → ℕ → ℕ → MbComingFrom → Moved
on_no_buttons m buttons now_ns from =
    if is_cancel from
    then (m, [])
    else if not ((buttons & 0x4) == 0)
    then (enter m state_noop, [])
    else if 0x3 == buttons
    then (enter m state_middle, [])
    else if not (0 == buttons)
    then wait_in m buttons now_ns state_wait4two
    else (m, [])

unfoldable pub on_wait4two : MiddleButton → Bool → ℕ → MbComingFrom → Moved
on_wait4two m timeout buttons from =
    if not timeout && (0x3 == buttons)
    then stop_wait m [] state_middle
    else if timeout || not (buttons == m.pending_buttons)
    then stop_wait m
        (if is_timer from || ((buttons & m.pending_buttons) == 0)
          then relative_pointer (buttons ¦ m.pending_buttons) ∷ []
          else [])
        (released (0 == buttons))
    else (m, [])

unfoldable pub on_middle : MiddleButton → ℕ → ℕ → Moved
on_middle m buttons now_ns =
    if 0 == buttons
    then (enter m state_no_buttons, [])
    else if not (0x3 == (buttons & 0x3))
    then wait_in m buttons now_ns state_wait4none
    else (m, [])

unfoldable pub on_wait4none : MiddleButton → Bool → ℕ → MbComingFrom → Moved
on_wait4none m timeout buttons from =
    if not timeout && (0 == buttons)
    then stop_wait m [] state_no_buttons
    else if timeout || not (buttons == m.pending_buttons)
    then stop_wait m
        (if is_timer from then relative_pointer (buttons ¦ m.pending_buttons) ∷ [] else [])
        (released (0 == buttons))
    else (m, [])

unfoldable pub on_noop : MiddleButton → ℕ → Moved
on_noop m buttons = if 0 == buttons then (enter m state_no_buttons, []) else (m, [])

unfoldable pub on_state : MButtonState → MiddleButton → ℕ → ℕ → MbComingFrom → Moved
on_state state_no_buttons m buttons now_ns from = on_no_buttons m buttons now_ns from
on_state state_wait4two m buttons now_ns from = on_wait4two m (timed_out m now_ns from) buttons from
on_state state_middle m buttons now_ns from = on_middle m buttons now_ns
on_state state_wait4none m buttons now_ns from =
    on_wait4none m (timed_out m now_ns from) buttons from
on_state state_noop m buttons now_ns from = on_noop m buttons

-- The second switch: the buttons that are reported. `~0x3` is of 32 bits.
unfoldable pub reported : MButtonState → ℕ → ℕ
reported state_no_buttons buttons = buttons
reported state_middle buttons = 0x4
reported state_wait4two buttons = buttons & 0xFFFFFFFC
reported state_wait4none buttons = buttons & 0xFFFFFFFC
reported state_noop buttons = buttons

abbrev pub report : ℕ → Moved → ℕ × MiddleButton × List TouchEvent
report buttons (m, events) = (reported m.state buttons, m, events)

-- Whether the machine leaves the buttons as they are
unfoldable pub bypassed : MiddleButton → MbComingFrom → Bool
bypassed m from =
    not m.fake_middle_button || ltb m.button_count 3 || (m.ignore_all && is_trackpad from)

module _ (to_ns : ℕ → ℕ) where
  -- The buttons to report, the new state and the events
  unfoldable pub middle_button :
      MiddleButton → ℕ → ℕ → MbComingFrom → ℕ × MiddleButton × List TouchEvent
  middle_button m buttons now_abs from =
      if bypassed m from
      then (buttons, m, [])
      else report buttons (on_state m.state m buttons (to_ns now_abs) from)

  -- The timer's handler, at `lastbuttons`: what `middleButton` returns is dropped.
  unfoldable pub on_button_timer : MiddleButton → ℕ → ℕ → MiddleButton × List TouchEvent
  on_button_timer m last_buttons now_abs =
      let (buttons, moved, events) = middle_button m last_buttons now_abs from_timer in
      (moved, events)
