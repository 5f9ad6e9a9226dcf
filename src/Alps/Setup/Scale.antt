-- ===== src/Alps/Setup/Scale.antt =====
-- The scale that `dispatchEventsWithInfo` applies, for the sizes that `set_protocol` sets.
use voodoo_ps2_alps.Base.{ℕ, ◌<◌, ◌≡◌, ◌≢◌, ◌↔◌, refl, arith, ◌≫◌, true}
use voodoo_ps2_alps.Base.Int.{ℤ, pos, ◌*ℤ◌}
use voodoo_ps2_alps.Base.Bits.{bit_and-ones}
use voodoo_ps2_alps.Controller.Request.{Ps2Controller}
use voodoo_ps2_alps.Alps.Types.{AlpsData, Driver, alps_proto_v8}
use voodoo_ps2_alps.Alps.Command.{alps_v3_nibble_commands}
use voodoo_ps2_alps.Alps.Dispatch.{axis_factor, scaled}
use voodoo_ps2_alps.Alps.Setup.Configured.{is_supported}
use voodoo_ps2_alps.Alps.Setup.Protocol.{
  set_protocol, default_data, set_v1_v2, set_v3, set_rushmore, set_v4, set_v5, v5_data, set_v7,
  set_v8, after_probe, alps_dolphin_get_device_area, with_device_area,
}

-- at most 23 and 16 electrodes, and at least 8 and 1
dolphin_factor : (priv : AlpsData) (b : ℕ) → 0 < axis_factor (with_device_area priv b)
unfolding axis_factor with_device_area
dolphin_factor priv b = ground (arith, bit_and-ones 4 b, bit_and-ones 4 (b ≫ 4))

-- `answer` of the status request, in the case of V5
dolphin_set :
    (priv : AlpsData) (c : Ps2Controller) → axis_factor (alps_dolphin_get_device_area priv c).1 ≢ 0
unfolding alps_dolphin_get_device_area
dolphin_set priv c e = omega (arith, e, dolphin_factor priv _)

v5_factor : (d : Driver) (c : Ps2Controller) → axis_factor (set_v5 d c).1.priv ≢ 0
unfolding set_v5
v5_factor d c =
    dolphin_set
      (v5_data (record (d.priv) { nibble_commands = alps_v3_nibble_commands; addr_command = 0xec }))
      c

zero_is_v8 :
    (d : Driver) (c : Ps2Controller)
    → is_supported d.priv.proto_version ≡ true
    → axis_factor (set_protocol d c).1.priv ≡ 0
    → d.priv.proto_version ≡ alps_proto_v8
unfolding set_protocol set_v1_v2 set_v3 set_rushmore set_v4 set_v7 set_v8 after_probe default_data
    axis_factor
zero_is_v8 d c h e = ground (arith, e, h, v5_factor (record d { priv = default_data d.priv }) c)

v8_is_zero :
    (d : Driver) (c : Ps2Controller)
    → d.priv.proto_version ≡ alps_proto_v8
    → axis_factor (set_protocol d c).1.priv ≡ 0
unfolding set_protocol set_v8 default_data axis_factor
v8_is_zero d c e = ground (arith, e)

times_zero : (x : ℤ) → x *ℤ pos 0 ≡ pos 0
unfolding ◌*ℤ◌
times_zero x = ground arith

scaled_zero :
    (priv : AlpsData) (xupmm yupmm : ℕ) (x y : ℤ)
    → axis_factor priv ≡ 0
    → scaled priv xupmm yupmm x y ≡ (pos 0, pos 0)
unfolding scaled
scaled_zero priv xupmm yupmm x y e = rw (e, times_zero, times_zero) refl

-- For a supported protocol, the factor that positions are scaled by is zero exactly if the protocol is
-- V8; each position of a V8 device is scaled to (0, 0).
pub axis_factor_zero :
    (d : Driver) (c : Ps2Controller)
    → is_supported d.priv.proto_version ≡ true
    → let priv = (set_protocol d c).1.priv in
      (axis_factor priv ≡ 0 ↔ d.priv.proto_version ≡ alps_proto_v8)
      × (d.priv.proto_version ≡ alps_proto_v8
          → (xupmm yupmm : ℕ) (x y : ℤ) → scaled priv xupmm yupmm x y ≡ (pos 0, pos 0))
axis_factor_zero d c h =
    ((zero_is_v8 d c h, v8_is_zero d c), λ e u v x y. scaled_zero _ u v x y (v8_is_zero d c e))
