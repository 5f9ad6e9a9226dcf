-- ===== src/Keyboard/Interrupt/Repeats.antt =====
-- The key bit vector and the packets that `interruptOccurred` asks to be delivered.
use voodoo_ps2_alps.Base.{
  ℕ, ◌+◌, ◌-◌, ◌≤◌, ◌≡◌, refl, arith, List, [], ◌∷◌, Bool, true, false, not, ◌&&◌, Option, none,
  some, get_or, get_or-set_self, get_or-set_ne, get_or-set_block_before, length-set, u8, nz, ◌==◌,
  if◌then◌else◌,
}
use voodoo_ps2_alps.RingBuffer.{RingBuffer, advance_head, write_head}
use voodoo_ps2_alps.Alps.Framing.{Ps2InterruptResult, packet_ready, packet_buffering}
use voodoo_ps2_alps.Keyboard.Packets.{le_bytes}
use voodoo_ps2_alps.Keyboard.Types.{
  Config, Keyboard, kbv_is_keydown, kbv_keydown, kbv_keyup, clock_get_uptime,
}
use voodoo_ps2_alps.Keyboard.Interrupt.{
  interrupt_occurred, count_down, scan_code, update_bits, put_packet, raw_key_code, is_repeat,
  is_breakless, goes_up,
}
use voodoo_ps2_alps.Keyboard.Interrupt.Valid.{
  IsValid, interrupt_occurred-IsValid, raw_key_code-bounded, update_bits-IsValid,
}

-- The key data at the old head of the ring, if the packet routine is asked for
unfoldable pub passed : Keyboard → Keyboard × Ps2InterruptResult → Option (ℕ × ℕ)
passed k (k', packet_buffering) = none
passed k (k', packet_ready) =
    some (get_or k'.ring.buffer k.ring.head 0, get_or k'.ring.buffer (k.ring.head + 1) 0)

-- Is this the key's packet? The key data of a reset begins with 0.
unfoldable pub is_of : ℕ → ℕ × ℕ → Bool
is_of raw (b0, b1) = nz b0 && raw_key_code (b0 - 1) b1 == raw

-- Whether a key is down after a packet
unfoldable pub down_after : ℕ → Bool → ℕ × ℕ → Bool
unfolding is_of goes_up
down_after raw down (b0, b1) = if is_of raw (b0, b1) then not (goes_up b1) else down

-- No make of a key that is down
unfoldable pub is_new : ℕ → Bool → ℕ × ℕ → Bool
unfolding is_of goes_up
is_new raw down (b0, b1) = not (is_of raw (b0, b1) && not (goes_up b1) && down)

unfoldable pub after_some : ℕ → Bool → Option (ℕ × ℕ) → Bool
unfolding down_after
after_some raw down none = down
after_some raw down (some p) = down_after raw down p

unfoldable pub new_some : ℕ → Bool → Option (ℕ × ℕ) → Bool
unfolding is_new
new_some raw down none = true
new_some raw down (some p) = is_new raw down p

-- A stream of bytes: no key that goes down is down already.
unfoldable pub alternates : Config → Keyboard → ℕ → Bool → List ℕ → Bool
unfolding interrupt_occurred passed after_some new_some
alternates c k raw down [] = true
alternates c k raw down (byte ∷ bytes) =
    let r = interrupt_occurred c k byte in
    new_some raw down (passed k r) && alternates c r.0 raw (after_some raw down (passed k r)) bytes

module _ (c : Config) (b0 b1 : ℕ) (k : Keyboard) (v : IsValid k) where
  abbrev keyed : RingBuffer
  keyed = write_head (write_head k.ring 0 b0) 1 b1

  put_packet-passed :
      (get_or (put_packet c b0 b1 k).ring.buffer k.ring.head 0 ≡ b0)
      × (get_or (put_packet c b0 b1 k).ring.buffer (k.ring.head + 1) 0 ≡ b1)
      × ((put_packet c b0 b1 k).key_bits ≡ k.key_bits)
  unfolding put_packet write_head advance_head clock_get_uptime
  put_packet-passed =
      let t = le_bytes 8 (c.kernel.uptime k.asked) in
      let h = k.ring.head in
      let first = (write_head k.ring 0 b0).buffer in
      ground (
        arith,
        get_or-set_block_before t keyed.buffer (h + 8) h 0,
        get_or-set_block_before t keyed.buffer (h + 8) (h + 1) 0,
        get_or-set_self k.ring.buffer (h + 0) b0 0,
        get_or-set_self first (h + 1) b1 0,
        get_or-set_ne first (h + 1) h b1 0,
        length-set k.ring.buffer (h + 0) b0,
      )

abbrev Tracks : Keyboard → ℕ → Keyboard × Ps2InterruptResult → Type 0
Tracks k raw r =
    (kbv_is_keydown r.0 raw ≡ after_some raw (kbv_is_keydown k raw) (passed k r))
    × (new_some raw (kbv_is_keydown k raw) (passed k r) ≡ true)

module _ (c : Config) (raw : ℕ) (kept : is_breakless c raw ≡ false) where
  scan_code-Tracks :
      (extended byte : ℕ) (k : Keyboard)
      → IsValid k
      → extended ≤ 1
      → Tracks k raw (scan_code c extended byte k)
  unfolding scan_code update_bits is_repeat kbv_is_keydown kbv_keydown kbv_keyup passed after_some
      new_some down_after is_new is_of
  scan_code-Tracks extended byte k v h =
      let code = raw_key_code extended byte in
      let bits = update_bits c extended byte k in
      ground (
        arith,
        kept,
        put_packet-passed c (u8 (extended + 1)) byte bits (update_bits-IsValid c extended byte k v),
        raw_key_code-bounded extended byte h,
        get_or-set_self k.key_bits code true false,
        get_or-set_self k.key_bits code false false,
        get_or-set_ne k.key_bits code raw true false,
        get_or-set_ne k.key_bits code raw false false,
      )

  count_down-Tracks : (byte : ℕ) (k : Keyboard) → IsValid k → Tracks k raw (count_down c byte k)
  unfolding count_down passed after_some new_some kbv_is_keydown
  count_down-Tracks byte k v =
      let k' = record k { extend_count = 0 } in
      ground (
        arith,
        scan_code-Tracks 0 byte k v (omega arith),
        scan_code-Tracks k.extend_count byte k' (omega arith),
      )

  interrupt_occurred-Tracks :
      (k : Keyboard) (byte : ℕ) → IsValid k → Tracks k raw (interrupt_occurred c k byte)
  unfolding interrupt_occurred passed after_some new_some down_after is_new is_of kbv_is_keydown
  interrupt_occurred-Tracks k byte v = ground (
    arith,
    put_packet-passed c 0 0xaa k v,
    count_down-Tracks byte (record k { last_data = byte }) (omega arith),
  )

  alternates-from :
      (k : Keyboard) (bytes : List ℕ)
      → IsValid k
      → alternates c k raw (kbv_is_keydown k raw) bytes ≡ true
  unfolding alternates
  alternates-from k [] v = refl
  alternates-from k (byte ∷ bytes) v =
      let step = interrupt_occurred-Tracks k byte v in
      let r = interrupt_occurred c k byte in
      let rest = alternates-from r.0 bytes (interrupt_occurred-IsValid c k byte v) in
      rw (← step.0, step.1) rest

-- On whatever bytes the keyboard sends, each packet that asks for delivery and says that a key goes
-- down finds that key up: going by the packets before it, or at first by the key bit vector. So the
-- repeats of a key that is held are dropped. Breakless keys are left out.
pub alternates_lem :
    (c : Config) (k : Keyboard) (raw : ℕ) (bytes : List ℕ)
    → is_breakless c raw ≡ false
    → IsValid k
    → alternates c k raw (kbv_is_keydown k raw) bytes ≡ true
alternates_lem c k raw bytes kept v = alternates-from c raw kept k bytes v

-- After each byte, the key bit vector says of each key that is not breakless whether the last
-- packet for it was a make: a byte that asks for no packet of the key leaves its bit as it was.
pub bits_lem :
    (c : Config) (k : Keyboard) (raw byte : ℕ)
    → is_breakless c raw ≡ false
    → IsValid k
    → let r = interrupt_occurred c k byte in
      kbv_is_keydown r.0 raw ≡ after_some raw (kbv_is_keydown k raw) (passed k r)
bits_lem c k raw byte kept v = (interrupt_occurred-Tracks c raw kept k byte v).0
