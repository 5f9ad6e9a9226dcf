-- ===== src/Keyboard/Lifecycle/Reset.antt =====
-- What `initKeyboard` makes of the driver's state.
use voodoo_ps2_alps.Base.{
  ℕ, zero, suc, ◌+◌, ◌≡◌, refl, ◌∙◌, ap, arith, List, [], ◌∷◌, false, replicate, length,
  length-replicate, get_or, if◌then◌else◌, ◌/◌, ◌*◌, ◌%◌, ◌¦◌, ltb, u8,
}
use voodoo_ps2_alps.Base.Bits.{bit_or_step, bit_or-zero}
use voodoo_ps2_alps.RingBuffer.{RingBuffer, reset}
use voodoo_ps2_alps.Keyboard.Types.{
  Config, Keyboard, submit, set_command_byte, emit, kbv_is_keydown,
}
use voodoo_ps2_alps.Keyboard.Interrupt.Valid.{IsValid}
use voodoo_ps2_alps.Keyboard.Dispatch.{dispatch, track_modifier}
use voodoo_ps2_alps.Keyboard.Dispatch.Frame.{dispatch-Frame}
use voodoo_ps2_alps.Keyboard.Delivery.Loop.{IsIdle}
use voodoo_ps2_alps.Keyboard.Lifecycle.{
  write_and_ack, set_leds, set_keyboard_enable, break_packet, release_keys, clear_keys,
  init_keyboard,
}

-- The upper bit of a byte set
or_step : (x b c : ℕ) → b ≡ c * 2 → (x ¦ b) ≡ (x / 2 ¦ c) * 2 + x % 2
or_step x b c e =
    let half : b / 2 ≡ c = omega (arith, e) in
    let even : b % 2 ≡ 0 = omega (arith, e) in bit_or_step x b ∙ rw (half, even) (omega arith)

up_bit : (x : ℕ) → u8 (x ¦ 0x80) ≡ x % 128 + 128
up_bit x = omega (
  arith,
  or_step x 128 64 refl,
  or_step (x / 2) 64 32 refl,
  or_step (x / 2 / 2) 32 16 refl,
  or_step (x / 2 / 2 / 2) 16 8 refl,
  or_step (x / 2 / 2 / 2 / 2) 8 4 refl,
  or_step (x / 2 / 2 / 2 / 2 / 2) 4 2 refl,
  or_step (x / 2 / 2 / 2 / 2 / 2 / 2) 2 1 refl,
  bit_or_step (x / 2 / 2 / 2 / 2 / 2 / 2 / 2) 1,
  bit_or-zero (x / 2 / 2 / 2 / 2 / 2 / 2 / 2 / 2),
)

-- The packet that says that a key has come up: the kind of its code, and the low byte with bit 7 set
abbrev pub key_up : List ℕ → ℕ → List ℕ
key_up stale code = (if ltb code 256 then 1 else 2) ∷ (code % 128 + 128) ∷ stale

break-key_up : (stale : List ℕ) (code : ℕ) → break_packet stale code ≡ key_up stale code
unfolding break_packet
break-key_up stale code = ap (λ (b : ℕ). (if ltb code 256 then 1 else 2) ∷ b ∷ stale) (up_bit code)

-- The break packets, in their order, of the keys that are down among `n` key codes from `code` on
pub breaks : Keyboard → List ℕ → ℕ → ℕ → List (List ℕ)
breaks k stale zero code = []
breaks k stale (suc n) code =
    let rest = breaks k stale n (code + 1) in
    if kbv_is_keydown k code then key_up stale code ∷ rest else rest

pub dispatch_all : Config → List (List ℕ) → Keyboard → Keyboard
dispatch_all c [] k = k
dispatch_all c (packet ∷ packets) k = dispatch_all c packets (dispatch c packet k)

dispatch-bits :
    (c : Config) (packet : List ℕ) (k : Keyboard) → (dispatch c packet k).key_bits ≡ k.key_bits
unfolding track_modifier
dispatch-bits c packet k = ground (arith, dispatch-Frame c packet k)

dispatch-ring : (c : Config) (packet : List ℕ) (k : Keyboard) → (dispatch c packet k).ring ≡ k.ring
unfolding track_modifier
dispatch-ring c packet k = ground (arith, dispatch-Frame c packet k)

breaks_same :
    (k k' : Keyboard) (stale : List ℕ) (n code : ℕ)
    → k'.key_bits ≡ k.key_bits
    → breaks k' stale n code ≡ breaks k stale n code
unfolding breaks kbv_is_keydown
breaks_same k k' stale zero code e = refl
breaks_same k k' stale (suc n) code e = rw (e, breaks_same k k' stale n (code + 1) e) refl

release_keys_lem :
    (c : Config) (stale : List ℕ) (n code : ℕ) (k : Keyboard)
    → release_keys c stale n code k ≡ dispatch_all c (breaks k stale n code) k
unfolding release_keys breaks dispatch_all
release_keys_lem c stale zero code k = refl
release_keys_lem c stale (suc n) code k =
    let k' = dispatch c (key_up stale code) k in
    rw (break-key_up stale code) (
      ground (
        arith,
        release_keys_lem c stale n (code + 1) k,
        release_keys_lem c stale n (code + 1) k',
        breaks_same k k' stale n (code + 1) (dispatch-bits c (key_up stale code) k),
      ))

get_or-replicate : (n i : ℕ) → get_or (replicate n false) i false ≡ false
get_or-replicate zero i = refl
get_or-replicate (suc n) zero = refl
get_or-replicate (suc n) (suc i) = get_or-replicate n i

dispatch_all-ring :
    (c : Config) (packets : List (List ℕ)) (k : Keyboard) → (dispatch_all c packets k).ring ≡ k.ring
unfolding dispatch_all
dispatch_all-ring c [] k = refl
dispatch_all-ring c (packet ∷ packets) k =
    dispatch_all-ring c packets (dispatch c packet k) ∙ dispatch-ring c packet k

-- After initKeyboard, from a valid state, no key is down, no modifier is set, and the ring is empty
-- and valid. Before that a break packet has been dispatched, in the order of the key codes, for
-- each key that was down; the keyboard was told to take its defaults first, and its LEDs, its
-- enabling and the translation of scan codes come last.
pub init_keyboard_lem :
    (c : Config) (stale : List ℕ) (k : Keyboard)
    → IsValid k
    → let k' = init_keyboard c stale k in
      let released =
        dispatch_all c (breaks k stale 512 0) (emit (submit (write_and_ack 0xf6 [])) k) in
      IsIdle k'
      × ((code : ℕ) → kbv_is_keydown k' code ≡ false)
      × (k'.modifier_state ≡ 0)
      × (k'.actions
          ≡ set_command_byte 0x40 0
            ∷ submit (write_and_ack 0xf4 [])
            ∷ submit (write_and_ack 0xed (write_and_ack released.led_state []))
            ∷ released.actions)
unfolding init_keyboard clear_keys set_leds set_keyboard_enable emit reset kbv_is_keydown
init_keyboard_lem c stale k v =
    let k1 = emit (submit (write_and_ack 0xf6 [])) k in
    let all : release_keys c stale 512 0 k1 ≡ dispatch_all c (breaks k stale 512 0) k1 =
      release_keys_lem c stale 512 0 k1
      ∙ ap (λ p. dispatch_all c p k1) (breaks_same k k1 stale 512 0 refl) in
    let ring : (dispatch_all c (breaks k stale 512 0) k1).ring ≡ k.ring =
      dispatch_all-ring c (breaks k stale 512 0) k1 in
    rw all (
      record {
        valid = record {
          ring_valid = record {
            size = ap (λ (r : RingBuffer). length r.buffer) ring ∙ v.ring_valid.size;
            small = v.ring_valid.small;
            head_in = omega arith;
            tail_in = omega arith;
          };
          head_aligned = refl;
          tail_aligned = refl;
          prefix = omega arith;
          bits = length-replicate 512 false;
        };
        empty = refl;
      },
      get_or-replicate 512,
      refl,
      refl,
    )
