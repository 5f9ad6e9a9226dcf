-- ===== src/Alps/Setup.antt =====
-- How the ALPS driver comes to life: what VoodooPS2Trackpad/alps.cpp makes of an identified device
-- (`matchTable`, `identify`), and the methods that start, reset and stop it, of `ALPS` and of its base
-- class (VoodooPS2Trackpad/VoodooPS2TouchPadBase.cpp). The locks, the log, the event sources and the
-- sleep before a wake-up are left out, and of `initTouchPad` the fields that no packet handler reads.
pub mod Protocol
pub mod Configured
pub mod Synced
pub mod Scale
pub mod Ended
use voodoo_ps2_alps.Base.{
  ℕ, List, [], ◌∷◌, Bool, true, false, Option, none, some, if◌then◌else◌, ◌==◌,
}
use voodoo_ps2_alps.RingBuffer.{reset}
use voodoo_ps2_alps.Controller.Request.{Ps2Controller}
use voodoo_ps2_alps.Alps.Types.{AlpsData, Driver, alps_proto_v4}
use voodoo_ps2_alps.Alps.Framing.{ring_size}
use voodoo_ps2_alps.Alps.Command.{AlpsStatus, reset_mouse}
use voodoo_ps2_alps.Alps.Identify.{AlpsModelInfo, Identity, identify}
use voodoo_ps2_alps.Alps.HwInit.{IoReturn}
use voodoo_ps2_alps.Alps.HwInit.Inits.{call_hw_init}
use Protocol.{set_protocol}

-- `matchTable`, once it has found its row: the row's flags and first byte replace what `set_protocol`
-- has set.
unfoldable pub use_row : Driver → Ps2Controller → AlpsModelInfo → Ps2Controller × Driver
unfolding set_protocol
use_row d c row =
    let (c', d') =
      set_protocol (record d { priv = record (d.priv) { proto_version = row.proto_version } }) c in
    (
      c',
      record d' {
        priv = record (d'.priv) { flags = row.flags; byte0 = row.byte0; mask0 = row.mask0 };
      },
    )

-- The end of `identify`, with the firmware version saved
unfoldable pub use_protocol : Driver → Ps2Controller → ℕ → AlpsStatus → Ps2Controller × Driver
unfolding set_protocol
use_protocol d c proto ec =
    set_protocol
      (record d {
        priv = record (d.priv) {
          proto_version = proto;
          fw_ver = ec.byte0 ∷ ec.byte1 ∷ ec.byte2 ∷ [];
        };
      })
      c

abbrev pub answered : IoReturn → Ps2Controller × Driver → Ps2Controller × Driver × IoReturn
answered ret (c, d) = (c, d, ret)

unfoldable pub install_identity :
    Driver → Ps2Controller → Identity → Ps2Controller × Driver × IoReturn
unfolding use_row use_protocol
install_identity d c Identity.io_error = (c, d, IoReturn.io_error)
install_identity d c Identity.invalid = (c, d, IoReturn.invalid)
install_identity d c (Identity.known_model row) = answered IoReturn.success (use_row d c row)
install_identity d c (Identity.known_protocol proto ec) =
    answered IoReturn.success (use_protocol d c proto ec)

-- `identify`, its questions and its effect on the driver
unfoldable pub identify_device : Driver → Ps2Controller → Ps2Controller × Driver × IoReturn
unfolding identify install_identity
identify_device d c = let (c', id) = identify c in install_identity d c' id

-- The result of `probe` is the driver or 0.
unfoldable pub probe : Driver → Ps2Controller → Ps2Controller × Driver × Bool
unfolding identify_device reset_mouse
probe d c =
    let (c1, good) = reset_mouse c in
    let (c2, d', ret) = identify_device d c1 in
    (c2, d', elim ret [ IoReturn.success ↦ true | other ↦ false ])

unfoldable pub restart : Driver → Ps2Controller → Ps2Controller × Driver
unfolding identify_device reset_mouse
restart d c = let (c1, good) = reset_mouse c in let (c2, d', ret) = identify_device d c1 in (c2, d')

-- "Setup expected packet size"
unfoldable pub set_pktsize : Driver → Driver
set_pktsize d = record d {
  priv = record (d.priv) { pktsize = if d.priv.proto_version == alps_proto_v4 then 8 else 6 };
}

-- What follows the call of `hw_init`: on a failure the mouse is reset.
unfoldable pub after_init :
    Driver → Option (Ps2Controller × AlpsData × Bool) → Option (Ps2Controller × Driver × Bool)
unfolding reset_mouse
after_init d none = none
after_init d (some (c, priv, good)) =
    some (if good then c else (reset_mouse c).0, record d { priv = priv }, good)

-- The result says whether the device was set up; `none` is a call through a null pointer.
unfoldable pub device_specific_init :
    Driver → Ps2Controller → Option (Ps2Controller × Driver × Bool)
unfolding set_pktsize call_hw_init after_init
device_specific_init d0 c = let d = set_pktsize d0 in after_init d (call_hw_init d.hw_init d.priv c)

-- `initTouchPad`: "Clear packet buffer pointer to avoid issues caused by stale packet fragments."
unfoldable pub clear_packets : Driver → Driver
clear_packets d = record d { packet_byte_count = 0; ring = reset ring_size d.ring }

unfoldable pub init_touch_pad : Driver → Ps2Controller → Option (Ps2Controller × Driver × Bool)
unfolding clear_packets device_specific_init
init_touch_pad d c = device_specific_init (clear_packets d) c

unfoldable pub set_touch_pad_enable :
    Bool → Driver → Ps2Controller → Option (Ps2Controller × Driver)
unfolding init_touch_pad reset_mouse
set_touch_pad_enable true d c = elim (init_touch_pad d c) [
  | none ↦ none
  | some (c', d', good) ↦ some (c', d')
]
set_touch_pad_enable false d c = some ((reset_mouse c).0, d)

-- `setDevicePowerState`
pub data PowerControl : Type 0 where
  disable_device enable_device : PowerControl

unfoldable pub set_device_power_state :
    PowerControl → Driver → Ps2Controller → Option (Ps2Controller × Driver)
unfolding set_touch_pad_enable
set_device_power_state disable_device d c = set_touch_pad_enable false d c
set_device_power_state enable_device d c = elim (init_touch_pad d c) [
  | none ↦ none
  | some (c', d', good) ↦ some (c', d')
]
