-- ===== src/Examples/Touchpads.antt =====
-- Examples for the filters, for the middle button, and for the start of a device.
use voodoo_ps2_alps.Base.{
  ℕ, ◌-◌, ◌*◌, ◌/◌, ◌≤◌, ◌<◌, ◌≡◌, inr, ◌↔◌, refl, arith, List, [], ◌∷◌, ◌++◌, replicate, Bool,
  true, false, some, if◌then◌else◌, ◌==◌, ◌¦◌,
}
use voodoo_ps2_alps.Base.Int.{ℤ, pos, negsuc}
use voodoo_ps2_alps.Controller.Ports.{mouse, ready, Poll}
use voodoo_ps2_alps.Controller.Request.{Ps2Controller}
use voodoo_ps2_alps.Touchpad.Averages.{SimpleAverage}
use voodoo_ps2_alps.Touchpad.Momentum.{Momentum, on_scroll_timer, coast}
use voodoo_ps2_alps.Touchpad.Momentum.Coasting.{IsMomentum, coast_lem}
use voodoo_ps2_alps.Touchpad.MiddleButton.{
  MiddleButton, state_no_buttons, state_wait4two, state_middle, state_noop, from_trackpad,
  set_timer, cancel_timer, relative_pointer, middle_button, on_button_timer, bypassed, on_state,
  on_no_buttons, reported,
}
use voodoo_ps2_alps.Touchpad.MiddleButton.Timer.{
  armed, Reaches, start, call, IsRunning, Reaches-IsRunning,
}
use voodoo_ps2_alps.Touchpad.MiddleButton.Clicks.{
  middle_button_release, middle_button_chord, on_button_timer_lem,
}
use voodoo_ps2_alps.Alps.Types.{Driver, Handled, alps_proto_v4}
use voodoo_ps2_alps.Alps.Framing.{receive_all}
use voodoo_ps2_alps.Alps.Framing.Sync.{IsSynced}
use voodoo_ps2_alps.Alps.Command.{reset_mouse}
use voodoo_ps2_alps.Controller.Request.{process_request}
use voodoo_ps2_alps.Controller.Ports.{read_expected, read_data_port}
use voodoo_ps2_alps.Alps.Identify.{identify, match_row, alps_model_data}
use voodoo_ps2_alps.Alps.Dispatch.{axis_factor, scaled}
use voodoo_ps2_alps.Alps.HwInit.Inits.{
  x_phys, y_phys, with_resolution, alps_hw_init_dolphin_v1, call_hw_init,
}
use voodoo_ps2_alps.Alps.HwInit.Endings.{Last}
use voodoo_ps2_alps.Alps.Setup.Ended.{device_specific_init-Last}
use voodoo_ps2_alps.Alps.Setup.{device_specific_init, after_init, set_pktsize}
use voodoo_ps2_alps.Alps.Types.{init_dolphin_v1}
use voodoo_ps2_alps.Alps.HwInit.Resolution.{with_resolution_lem}
use voodoo_ps2_alps.Alps.Setup.{probe, identify_device, install_identity, use_row, init_touch_pad}
use voodoo_ps2_alps.Alps.Setup.Protocol.{set_protocol}
use voodoo_ps2_alps.Alps.Setup.Configured.{IsConfigured}
use voodoo_ps2_alps.Alps.Setup.Synced.{probe-init_touch_pad}
use voodoo_ps2_alps.Alps.Setup.Scale.{axis_factor_zero}
use voodoo_ps2_alps.Examples.Streams.{controller, priv}
use voodoo_ps2_alps.Examples.Packets.{driver, driver-IsSynced}

-- Three places of times in nanoseconds, with two values in them whose sum is beyond 32 bits
abbrev history : SimpleAverage ℕ
history = record {
  buffer = 4000000000 ∷ 4016000000 ∷ 9 ∷ [];
  count = 2;
  sum = 3721032704;
  index = 2;
}

identity : ℕ → ℕ
identity x = x

-- A touchpad with three buttons
abbrev idle : MiddleButton
idle = record {
  fake_middle_button = true;
  button_count = 3;
  ignore_all = false;
  max_middle_click_time = 100;
  state = state_no_buttons;
  pending_buttons = 0;
  button_time = 0;
}

abbrev ns : ℕ → ℕ
ns t = t

abbrev pressed : MiddleButton
pressed = record idle { state = state_wait4two; pending_buttons = 1; button_time = 50 }

press_run : middle_button ns idle 1 50 from_trackpad ≡ (0, pressed, set_timer 100 ∷ [])
unfolding middle_button on_state on_no_buttons reported bypassed
press_run = refl

pressed-Reaches : Reaches ns true pressed
unfolding armed
pressed-Reaches =
    call (start refl (omega arith) refl refl) 1 50 0 from_trackpad (set_timer 100 ∷ []) (λ e. cc)
      press_run

Reaches-IsRunning_example : IsRunning true pressed
Reaches-IsRunning_example = Reaches-IsRunning ns pressed-Reaches

not_bypassed : bypassed idle from_trackpad ≡ false
unfolding bypassed
not_bypassed = refl

middle_button_release_example :
    let (shown, m', events) = middle_button ns pressed 0 80 from_trackpad in
    (shown ≡ 0)
    × (m'.state ≡ state_no_buttons)
    × (armed true events ≡ false)
    × (state_wait4two ≡ state_wait4two → events ≡ relative_pointer 1 ∷ cancel_timer ∷ [])
middle_button_release_example =
    middle_button_release ns pressed-Reaches 80 from_trackpad (λ e. cc) (λ e. cc) refl

middle_button_chord_example :
    let (shown1, m1, events1) = middle_button ns idle 1 50 from_trackpad in
    let (shown2, m2, events2) = middle_button ns m1 3 80 from_trackpad in
    (shown1 ≡ 0)
    × (events1 ≡ set_timer 100 ∷ [])
    × (80 - 50 ≤ 100 → (shown2 ≡ 4) × (m2.state ≡ state_middle) × (events2 ≡ cancel_timer ∷ []))
    × (100 < 80 - 50 → (shown2 ≡ 3) × (m2.state ≡ state_noop) × (events2 ≡ cancel_timer ∷ []))
middle_button_chord_example =
    middle_button_chord ns idle not_bypassed refl 1 50 80 (omega arith) (omega arith) (omega arith)
      (omega arith)

on_button_timer_lem_example :
    let (m', events) = on_button_timer ns pressed 1 150 in
    (m'.state ≡ state_noop)
    × (m'.pending_buttons ≡ 0)
    × (events ≡ relative_pointer (1 ¦ 1) ∷ cancel_timer ∷ [])
on_button_timer_lem_example = on_button_timer_lem ns pressed-Reaches 1 150

with_resolution_lem_example :
    (w : ℕ) × (h : ℕ) × (x_phys 0x8f 0x23 ≡ pos w)
    × (y_phys 0x8f 0x23 ≡ pos h)
    × (272 ≤ w)
    × (w ≤ 1472)
    × (80 ≤ h)
    × (h ≤ 950)
    × ((with_resolution priv 0x8f 0x23).x_res ≡ priv.x_max * 10 / w)
    × ((with_resolution priv 0x8f 0x23).y_res ≡ priv.y_max * 10 / h)
with_resolution_lem_example = with_resolution_lem priv 0x8f 0x23

-- A device of the V8 protocol
abbrev v8_driver : Driver
v8_driver = record driver { priv = record priv { proto_version = 0x800 } }

axis_factor_zero_example :
    (axis_factor (set_protocol v8_driver controller).1.priv ≡ 0 ↔ ◌≡◌ {A = ℕ} 0x800 0x800)
    × (◌≡◌ {A = ℕ} 0x800 0x800
        → (xupmm yupmm : ℕ) (x y : ℤ)
        → scaled (set_protocol v8_driver controller).1.priv xupmm yupmm x y ≡ (pos 0, pos 0))
axis_factor_zero_example = axis_factor_zero v8_driver controller refl

-- The answers of a device of the V1 protocol: to the reset, to the three reports, and to the end of
-- the command mode
abbrev acks : ℕ → List Poll
acks n = replicate n (ready mouse 0xfa)

abbrev bytes : ℕ → ℕ → ℕ → List Poll
bytes a b c = ready mouse a ∷ ready mouse b ∷ ready mouse c ∷ []

abbrev v1_device : Ps2Controller
v1_device = record controller {
  polls =
      acks 1
      ++ ((ready mouse 0xaa ∷ ready mouse 0x00 ∷ [])
          ++ (acks 6
              ++ (bytes 0x00 0x00 0x0a
                  ++ (acks 6
                      ++ (bytes 0x33 0x02 0x0a ++ (acks 6 ++ (bytes 0x88 0x07 0x9d ++ acks 1)))))));
}

v1_found : (probe driver v1_device).2 ≡ true
unfolding probe identify_device identify install_identity use_row set_protocol match_row
    alps_model_data reset_mouse process_request read_expected read_data_port
v1_found = refl

probe-init_touch_pad_example :
    (r : Ps2Controller × Driver × Bool) × (init_touch_pad (probe driver v1_device).1 controller
      ≡ some r)
    × IsConfigured r.1
    × (r.1.priv.pktsize ≡ (if r.1.priv.proto_version == alps_proto_v4 then 8 else 6))
    × ((bytes : List ℕ) → (h : Handled) × (receive_all r.1 bytes ≡ some h) × IsSynced h.0)
probe-init_touch_pad_example =
    probe-init_touch_pad driver v1_device controller driver-IsSynced.valid v1_found

-- A momentum that points back, with the default divisor
abbrev swing : Momentum
swing = record {
  interval = 20;
  timer = 10;
  threshy = 7;
  multiplier = 98;
  divisor = 100;
  wv_divisor = 30;
  current = negsuc 299;
  rest1 = negsuc 4;
  rest2 = pos 0;
}

swing-IsMomentum : IsMomentum swing
swing-IsMomentum = record { slows = omega arith; same_sign = inr (refl, refl) }

coast_lem_example :
    ((coast 30005 swing).current ≡ pos 0) × ((on_scroll_timer (coast 30005 swing)).1 ≡ [])
coast_lem_example = coast_lem swing 30005 swing-IsMomentum (omega arith)

-- A device of the V5 protocol
abbrev v5_driver : Driver
v5_driver = record driver { hw_init = init_dolphin_v1 }

v5_ready :
    device_specific_init v5_driver controller
    ≡ some ((alps_hw_init_dolphin_v1 controller).0, set_pktsize v5_driver, true)
unfolding device_specific_init after_init call_hw_init
v5_ready = refl

device_specific_init-Last_example :
    (true ≡ true → Last 0xf4 (alps_hw_init_dolphin_v1 controller).0)
    × (true ≡ false → Last 0xff (alps_hw_init_dolphin_v1 controller).0)
device_specific_init-Last_example = device_specific_init-Last v5_driver controller refl v5_ready
