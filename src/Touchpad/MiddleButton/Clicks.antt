-- ===== src/Touchpad/MiddleButton/Clicks.antt =====
-- What the button machine reports: releases, chords, and buttons that are held back.
use voodoo_ps2_alps.Base.{
  ℕ, zero, suc, ◌-◌, ◌^◌, ◌<◌, ◌≤◌, Bool, true, false, ◌&&◌, ◌==◌, if◌then◌else◌, [], ◌∷◌, ◌&◌, ◌¦◌,
  ◌≡◌, ◌≢◌, refl, arith,
}
use voodoo_ps2_alps.Base.Bits.{zero-bit_or, zero-bit_and}
use voodoo_ps2_alps.Touchpad.MiddleButton.{
  state_no_buttons, state_middle, state_wait4two, state_noop, MbComingFrom, from_timer,
  from_trackpad, from_cancel, set_timer, cancel_timer, relative_pointer, MiddleButton, on_state,
  on_no_buttons, on_wait4two, on_middle, on_wait4none, on_noop, timed_out, reported, bypassed,
  is_trackpad, middle_button, on_button_timer,
}
use voodoo_ps2_alps.Touchpad.MiddleButton.Timer.{armed, Reaches, Reaches-IsRunning}

module _ (to_ns : ℕ → ℕ) where
  -- From every state that the driver comes to, a call with no button down, from the stick or from a
  -- touchpad that is not ignored, reports no button, brings the machine to rest and leaves the timer
  -- off; if a first click was held back, that click is sent, and then the timer is cancelled.
  pub middle_button_release :
      {on : Bool} {m : MiddleButton}
      → Reaches to_ns on m
      → (now_abs : ℕ) (from : MbComingFrom) → from ≢ from_timer
      → from ≢ from_cancel
      → (m.ignore_all && is_trackpad from) ≡ false
      → let (shown, m', events) = middle_button to_ns m 0 now_abs from in
        (shown ≡ 0)
        × (m'.state ≡ state_no_buttons)
        × (armed on events ≡ false)
        × (m.state ≡ state_wait4two
            → events ≡ relative_pointer m.pending_buttons ∷ cancel_timer ∷ [])
  unfolding middle_button on_state on_no_buttons on_wait4two on_middle on_wait4none on_noop
      timed_out bypassed armed reported
  middle_button_release {on} {m} r now_abs from t c i =
      let v = Reaches-IsRunning to_ns r in
      ground (
        arith,
        v.has_fake,
        v.has_buttons,
        v.pends,
        v.timer,
        zero-bit_or m.pending_buttons,
        zero-bit_and m.pending_buttons,
      )

  -- what the masks read of a button that is pressed alone
  single_button :
      (button : ℕ)
      → 0 < button
      → button < 3
      → ((button & 0x4) ≡ 0) × ((button & 0xFFFFFFFC) ≡ 0) × ((3 & button) ≡ button)
  single_button zero p q = absurd (omega arith)
  single_button (suc zero) p q = (refl, refl, refl)
  single_button (suc (suc zero)) p q = (refl, refl, refl)
  single_button (suc (suc (suc b))) p q = absurd (omega arith)

  -- From rest, on a touchpad that is not ignored, has more than two buttons and has the fake middle
  -- button on, the left or the right button alone is not reported, and starts the timer. If both come down then, they are reported as the middle button
  -- within the time, and as they are after it; the timer is cancelled, and no pointer event is sent.
  -- The second time is no earlier than the first one, and fits in 64 bits.
  pub middle_button_chord :
      (m : MiddleButton)
      → bypassed m from_trackpad ≡ false
      → m.state ≡ state_no_buttons
      → (button t1 t2 : ℕ) → 0 < button
      → button < 3
      → to_ns t1 ≤ to_ns t2
      → to_ns t2 < 2 ^ 64
      → let (shown1, m1, events1) = middle_button to_ns m button t1 from_trackpad in
        let (shown2, m2, events2) = middle_button to_ns m1 3 t2 from_trackpad in
        (shown1 ≡ 0)
        × (events1 ≡ set_timer m.max_middle_click_time ∷ [])
        × (to_ns t2 - to_ns t1 ≤ m.max_middle_click_time
            → (shown2 ≡ 4) × (m2.state ≡ state_middle) × (events2 ≡ cancel_timer ∷ []))
        × (m.max_middle_click_time < to_ns t2 - to_ns t1
            → (shown2 ≡ 3) × (m2.state ≡ state_noop) × (events2 ≡ cancel_timer ∷ []))
  unfolding middle_button on_state on_no_buttons on_wait4two on_middle on_wait4none on_noop
      timed_out reported bypassed
  middle_button_chord m b s button t1 t2 p q later word = ground (arith, single_button button p q)

  -- When the timer fires in a state that the driver comes to with the timer running, the machine is at
  -- rest if no button is down and out of action else, nothing is pending, and what is done is to send
  -- the pending buttons with those that are down, once, and to cancel the timer.
  pub on_button_timer_lem :
      {m : MiddleButton}
      → Reaches to_ns true m
      → (last_buttons now_abs : ℕ)
      → let (m', events) = on_button_timer to_ns m last_buttons now_abs in
        (m'.state ≡ (if last_buttons == 0 then state_no_buttons else state_noop))
        × (m'.pending_buttons ≡ 0)
        × (events ≡ relative_pointer (last_buttons ¦ m.pending_buttons) ∷ cancel_timer ∷ [])
  unfolding on_button_timer middle_button on_state on_no_buttons on_wait4two on_middle on_wait4none
      on_noop timed_out bypassed
  on_button_timer_lem {m} r last_buttons now_abs =
      let v = Reaches-IsRunning to_ns r in
      ground (arith, v.has_fake, v.has_buttons, v.pends, v.timer)
