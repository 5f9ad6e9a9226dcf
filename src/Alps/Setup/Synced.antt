-- ===== src/Alps/Setup/Synced.antt =====
-- A device that is identified is a device that the driver can run: the pointers are set, they fit each
-- other and the packets, and whatever the device sends is handled.
use voodoo_ps2_alps.Base.{
  ℕ, ◌≡◌, ◌≢◌, refl, ◌∙◌, sym, ap, subst, arith, List, [], ◌∷◌, Bool, true, some, if◌then◌else◌,
  ◌==◌,
}
use voodoo_ps2_alps.RingBuffer.{reset}
use voodoo_ps2_alps.RingBuffer.Bounds.{IsValid}
use voodoo_ps2_alps.Controller.Request.{Ps2Controller}
use voodoo_ps2_alps.Alps.Types.{
  Driver, Handled, AlpsData, HwInit, init_null, init_v1_v2, init_v3, init_rushmore_v3, init_v4,
  init_dolphin_v1, init_v7, init_ss4_v2, alps_proto_v4,
}
use voodoo_ps2_alps.Alps.Framing.{ring_size, receive_all}
use voodoo_ps2_alps.Alps.Framing.Frame.{SameFormat}
use voodoo_ps2_alps.Alps.Framing.Sync.{IsSynced}
use voodoo_ps2_alps.Alps.Framing.Receive.{receive_all_total}
use voodoo_ps2_alps.Alps.Command.{reset_mouse}
use voodoo_ps2_alps.Alps.Identify.{Identity, identify}
use voodoo_ps2_alps.Alps.HwInit.Inits.{
  call_hw_init, keep, alps_hw_init_v1_v2, alps_hw_init_v3, alps_hw_init_rushmore_v3,
  alps_hw_init_v4, alps_hw_init_dolphin_v1, alps_hw_init_ss4_v2, alps_hw_init_v7,
  alps_get_v3_v7_resolution, with_resolution,
}
use voodoo_ps2_alps.Alps.Setup.Protocol.{
  set_protocol, default_data, set_v1_v2, set_v3, set_rushmore, set_v4, set_v5, set_v6, set_v7,
  set_v8, after_probe, alps_dolphin_get_device_area, with_device_area,
}
use voodoo_ps2_alps.Alps.Setup.{
  use_row, use_protocol, install_identity, identify_device, probe, set_pktsize,
  device_specific_init, after_init, clear_packets, init_touch_pad,
}
use voodoo_ps2_alps.Alps.Setup.Configured.{IsConfigured, probe-IsConfigured}

-- The methods that set the device up store resolutions only.
hw_init_kept :
    (init : HwInit) (priv : AlpsData) (c : Ps2Controller)
    → init ≢ init_null
    → (r : Ps2Controller × AlpsData × Bool) × (call_hw_init init priv c ≡ some r)
      × SameFormat priv r.1
unfolding call_hw_init alps_hw_init_v7 alps_get_v3_v7_resolution with_resolution
hw_init_kept init_null priv c h = absurd (h refl)
hw_init_kept init_v1_v2 priv c h = (keep priv (alps_hw_init_v1_v2 priv c), refl, ground arith)
hw_init_kept init_v3 priv c h = (keep priv (alps_hw_init_v3 priv c), refl, ground arith)
hw_init_kept init_rushmore_v3 priv c h =
    (keep priv (alps_hw_init_rushmore_v3 priv c), refl, ground arith)
hw_init_kept init_v4 priv c h = (keep priv (alps_hw_init_v4 priv c), refl, ground arith)
hw_init_kept init_dolphin_v1 priv c h = (keep priv (alps_hw_init_dolphin_v1 c), refl, ground arith)
hw_init_kept init_v7 priv c h = (alps_hw_init_v7 priv c, refl, ground arith)
hw_init_kept init_ss4_v2 priv c h = (keep priv (alps_hw_init_ss4_v2 priv c), refl, ground arith)

-- What a method of the device leaves of the driver: the same pointers, with packets of a known size
pub record IsReady (d d' : Driver) : Type 0 where
  pub same_ring : d'.ring ≡ d.ring
  pub same_count : d'.packet_byte_count ≡ d.packet_byte_count
  pub configured : IsConfigured d'
  pub pktsize_lem : d'.priv.pktsize ≡ (if d'.priv.proto_version == alps_proto_v4 then 8 else 6)

specific_init_lem :
    (d : Driver) (c : Ps2Controller)
    → IsConfigured d
    → (r : Ps2Controller × Driver × Bool) × (device_specific_init d c ≡ some r) × IsReady d r.1
unfolding device_specific_init set_pktsize after_init
specific_init_lem d c v =
    let sized = set_pktsize d in
    let ((c1, priv, good), e, same) = hw_init_kept d.hw_init sized.priv c v.starts in
    (
      (if good then c1 else (reset_mouse c1).0, record sized { priv = priv }, good),
      ap (after_init sized) e,
      ready same,
    )
  where
    ready :
        {priv : AlpsData}
        → SameFormat (set_pktsize d).priv priv
        → IsReady d (record (set_pktsize d) { priv = priv })
    ready same = record {
      same_ring = refl;
      same_count = refl;
      configured = record {
        handled = v.handled;
        starts = v.starts;
        v3_decoder = v.v3_decoder;
        v5_decoder = v.v5_decoder;
        v7_decoder = v.v7_decoder;
        ss4_decoder = v.ss4_decoder;
        eight_bytes = λ e. same.same_proto ∙ v.eight_bytes e;
        v4_handler = λ e. v.v4_handler (sym same.same_proto ∙ e);
      };
      pktsize_lem = ground (arith, same.same_pktsize, same.same_proto);
    }

cleared-IsSynced :
    (d : Driver) {d' : Driver}
    → IsValid ring_size d.ring
    → IsReady (clear_packets d) d'
    → IsSynced d'
unfolding clear_packets reset
cleared-IsSynced d {d'} ring r =
    let here = r.same_ring in
    record {
      valid = record {
        size = ground (arith, here, ring.size);
        small = ring.small;
        head_in = ground (arith, here, ring.head_in);
        tail_in = ground (arith, here, ring.tail_in);
      };
      empty = ground (arith, here);
      size = ground (arith, r.pktsize_lem);
      aligned = ground (arith, here, r.pktsize_lem);
      partial = ground (arith, r.same_count, r.pktsize_lem);
      bare_short = λ e. omega (arith, r.same_count);
      handled = r.configured.handled;
    }

cleared-IsConfigured : {d : Driver} → IsConfigured d → IsConfigured (clear_packets d)
unfolding clear_packets
cleared-IsConfigured v = record {
  handled = v.handled;
  starts = v.starts;
  v3_decoder = v.v3_decoder;
  v5_decoder = v.v5_decoder;
  v7_decoder = v.v7_decoder;
  ss4_decoder = v.ss4_decoder;
  eight_bytes = v.eight_bytes;
  v4_handler = v.v4_handler;
}

-- `initTouchPad` of a driver that is configured, whether the set-up of the device succeeds or not
init_touch_pad_lem :
    (d : Driver) (c : Ps2Controller)
    → IsConfigured d
    → IsValid ring_size d.ring
    → (r : Ps2Controller × Driver × Bool) × (init_touch_pad d c ≡ some r)
      × IsConfigured r.1
      × IsSynced r.1
      × (r.1.priv.pktsize ≡ (if r.1.priv.proto_version == alps_proto_v4 then 8 else 6))
unfolding init_touch_pad
init_touch_pad_lem d c v ring =
    let (r, e, ready) = specific_init_lem (clear_packets d) c (cleared-IsConfigured v) in
    (r, e, ready.configured, cleared-IsSynced d ring ready, ready.pktsize_lem)

-- Identification does not touch the ring.
set_protocol_ring : (d : Driver) (c : Ps2Controller) → (set_protocol d c).1.ring ≡ d.ring
unfolding set_protocol default_data set_v1_v2 set_v3 set_rushmore set_v4 set_v5 set_v6 set_v7 set_v8
    after_probe alps_dolphin_get_device_area with_device_area
set_protocol_ring d c = ground arith

install_identity_ring :
    (d : Driver) (c : Ps2Controller) (id : Identity) → (install_identity d c id).1.ring ≡ d.ring
unfolding install_identity use_row use_protocol
install_identity_ring d c Identity.io_error = refl
install_identity_ring d c Identity.invalid = refl
install_identity_ring d c (Identity.known_model row) =
    set_protocol_ring (record d { priv = record (d.priv) { proto_version = row.proto_version } }) c
install_identity_ring d c (Identity.known_protocol proto ec) =
    set_protocol_ring
      (record d {
        priv = record (d.priv) {
          proto_version = proto;
          fw_ver = ec.byte0 ∷ ec.byte1 ∷ ec.byte2 ∷ [];
        };
      })
      c

probe_ring : (d : Driver) (c : Ps2Controller) → (probe d c).1.ring ≡ d.ring
unfolding probe identify_device
probe_ring d c = let (c2, id) = identify (reset_mouse c).0 in install_identity_ring d c2 id

-- A driver with a valid ring whose probe succeeded: `initTouchPad`, with whatever the device answers,
-- calls no null pointer and comes to an end. The pointers that it leaves are set and fit each other,
-- the packets are of eight bytes for V4 and of six else, and whatever bytes come then are all handled,
-- with a driver that is synchronised behind them, if `packetReady` runs behind each byte that asks for
-- it and before the next byte.
pub probe-init_touch_pad :
    (d : Driver) (c c' : Ps2Controller)
    → IsValid ring_size d.ring
    → (probe d c).2 ≡ true
    → (r : Ps2Controller × Driver × Bool) × (init_touch_pad (probe d c).1 c' ≡ some r)
      × IsConfigured r.1
      × (r.1.priv.pktsize ≡ (if r.1.priv.proto_version == alps_proto_v4 then 8 else 6))
      × ((bytes : List ℕ) → (h : Handled) × (receive_all r.1 bytes ≡ some h) × IsSynced h.0)
probe-init_touch_pad d c c' ring e =
    let ring' = subst (IsValid ring_size) (sym (probe_ring d c)) ring in
    let (r, e', v, synced, size) =
      init_touch_pad_lem (probe d c).1 c' (probe-IsConfigured d c e) ring' in
    (r, e', v, size, λ bytes. receive_all_total bytes r.1 synced)
