-- ===== src/Touchpad/MiddleButton/Timer.antt =====
-- The states that the button machine can come to, and its timer.
use voodoo_ps2_alps.Base.{
  ℕ, ◌<◌, Bool, true, false, not, ◌==◌, List, [], ◌∷◌, ◌≡◌, ◌≢◌, subst, ◌∙◌, arith,
}
use voodoo_ps2_alps.Touchpad.MiddleButton.{
  MButtonState, state_no_buttons, state_middle, state_wait4two, state_wait4none, state_noop,
  MbComingFrom, from_timer, TouchEvent, set_timer, cancel_timer, relative_pointer, MiddleButton,
  on_state, on_no_buttons, on_wait4two, on_middle, on_wait4none, on_noop, timed_out, bypassed,
  middle_button, on_button_timer,
}

-- The states in which a click is held back
abbrev pub waits : MButtonState → Bool
waits state_no_buttons = false
waits state_middle = false
waits state_wait4two = true
waits state_wait4none = true
waits state_noop = false

-- Whether the timer runs after some events
unfoldable pub armed : Bool → List TouchEvent → Bool
armed on [] = on
armed on (set_timer t ∷ events) = armed true events
armed on (cancel_timer ∷ events) = armed false events
armed on (relative_pointer b ∷ events) = armed on events

-- Buttons are pending exactly in a waiting state.
abbrev pub IsMiddleButton : MiddleButton → Type 0
IsMiddleButton m = waits m.state ≡ not (m.pending_buttons == 0)

-- How the driver comes to a state, with the timer running or not: from the start, by a change of
-- `ignoreall`, by a call with new buttons, or when the running timer fires.
pub data Reaches (to_ns : ℕ → ℕ) : Bool → MiddleButton → Type 0 where
  start :
      {m : MiddleButton}
      → m.fake_middle_button ≡ true
      → 2 < m.button_count
      → m.state ≡ state_no_buttons
      → m.pending_buttons ≡ 0
      → Reaches to_ns false m
  set_ignore_all :
      {on : Bool} {m : MiddleButton}
      → Reaches to_ns on m
      → (b : Bool) → Reaches to_ns on (record m { ignore_all = b })
  call :
      {on : Bool} {m m' : MiddleButton}
      → Reaches to_ns on m
      → (buttons now_abs shown : ℕ) (from : MbComingFrom) (events : List TouchEvent)
      → from ≢ from_timer
      → middle_button to_ns m buttons now_abs from ≡ (shown, m', events)
      → Reaches to_ns (armed on events) m'
  fire :
      {m m' : MiddleButton}
      → Reaches to_ns true m
      → (last_buttons now_abs : ℕ) (events : List TouchEvent)
      → on_button_timer to_ns m last_buttons now_abs ≡ (m', events)
      → Reaches to_ns (armed false events) m'

-- The timer runs exactly in a waiting state.
pub record IsRunning (on : Bool) (m : MiddleButton) : Type 0 where
  pub has_fake : m.fake_middle_button ≡ true
  pub has_buttons : 2 < m.button_count
  pub pends : IsMiddleButton m
  pub timer : on ≡ waits m.state

module _ (to_ns : ℕ → ℕ) where
  -- After a call the buttons are pending in a waiting state only, and the settings are as before.
  call_kept :
      (m : MiddleButton) (buttons now_abs : ℕ) (from : MbComingFrom) (on : Bool)
      → IsMiddleButton m
      → on ≡ waits m.state
      → let (shown, m', events) = middle_button to_ns m buttons now_abs from in
        IsMiddleButton m' × (armed on events ≡ waits m'.state)
  unfolding middle_button on_state on_no_buttons on_wait4two on_middle on_wait4none on_noop
      timed_out bypassed armed
  call_kept m buttons now_abs from on v w = ground arith

  call_settings :
      (m : MiddleButton) (buttons now_abs : ℕ) (from : MbComingFrom)
      → let (shown, m', events) = middle_button to_ns m buttons now_abs from in
        (m'.fake_middle_button ≡ m.fake_middle_button) × (m'.button_count ≡ m.button_count)
  unfolding middle_button on_state on_no_buttons on_wait4two on_middle on_wait4none on_noop bypassed
  call_settings m buttons now_abs from = ground arith

  -- The timer that fires is off, and the call leaves the waiting state.
  fire_kept :
      (m : MiddleButton) (last_buttons now_abs : ℕ)
      → IsRunning true m
      → let (m', events) = on_button_timer to_ns m last_buttons now_abs in
        IsMiddleButton m' × (armed false events ≡ waits m'.state) × (waits m'.state ≡ false)
  unfolding on_button_timer middle_button on_state on_no_buttons on_wait4two on_middle on_wait4none
      on_noop timed_out bypassed armed
  fire_kept m last_buttons now_abs v = ground (arith, v.has_fake, v.has_buttons, v.pends, v.timer)

  fire_settings :
      (m : MiddleButton) (last_buttons now_abs : ℕ)
      → let (m', events) = on_button_timer to_ns m last_buttons now_abs in
        (m'.fake_middle_button ≡ m.fake_middle_button) × (m'.button_count ≡ m.button_count)
  unfolding on_button_timer
  fire_settings m last_buttons now_abs = call_settings m last_buttons now_abs from_timer

  call-IsRunning :
      {on : Bool} {m : MiddleButton} (buttons now_abs : ℕ) (from : MbComingFrom)
      → IsRunning on m
      → let (shown, m', events) = middle_button to_ns m buttons now_abs from in
        IsRunning (armed on events) m'
  call-IsRunning {on} {m} buttons now_abs from v =
      let (pending, timer) = call_kept m buttons now_abs from on v.pends v.timer in
      let (fake, count) = call_settings m buttons now_abs from in
      record {
        has_fake = fake ∙ v.has_fake;
        has_buttons = omega (arith, count, v.has_buttons);
        pends = pending;
        timer = timer;
      }

  fire-IsRunning :
      {m : MiddleButton} (last_buttons now_abs : ℕ)
      → IsRunning true m
      → let (m', events) = on_button_timer to_ns m last_buttons now_abs in
        IsRunning (armed false events) m'
  fire-IsRunning {m} last_buttons now_abs v =
      let (pending, timer, left) = fire_kept m last_buttons now_abs v in
      let (fake, count) = fire_settings m last_buttons now_abs in
      record {
        has_fake = fake ∙ v.has_fake;
        has_buttons = omega (arith, count, v.has_buttons);
        pends = pending;
        timer = timer;
      }

  -- However the driver came to a state from the start, with new buttons from elsewhere than the
  -- timer, by the timer when it runs, or by a change of `ignoreall`: the timer runs exactly in the two
  -- waiting states, and buttons are pending exactly there.
  pub Reaches-IsRunning : {on : Bool} {m : MiddleButton} → Reaches to_ns on m → IsRunning on m
  Reaches-IsRunning {m = m} (start f b s p) = record {
    has_fake = f;
    has_buttons = b;
    pends = ground (arith, s, p);
    timer = ground (arith, s);
  }
  Reaches-IsRunning (set_ignore_all r b) =
      let v = Reaches-IsRunning r in
      record {
        has_fake = v.has_fake;
        has_buttons = v.has_buttons;
        pends = v.pends;
        timer = v.timer;
      }
  Reaches-IsRunning (call {on} {m} {m'} r buttons now_abs shown from events t e) =
      subst
        (λ ((shown, m', events) : ℕ × MiddleButton × List TouchEvent).
          IsRunning (armed on events) m')
        e (call-IsRunning buttons now_abs from (Reaches-IsRunning r))
  Reaches-IsRunning (fire r last_buttons now_abs events e) =
      subst (λ ((m', events) : MiddleButton × List TouchEvent). IsRunning (armed false events) m') e
        (fire-IsRunning last_buttons now_abs (Reaches-IsRunning r))
