-- ===== src/Keyboard/Macros.antt =====
-- The macro inversion of VoodooPS2Keyboard.cpp: `compareMacro`, `invertMacros` and
-- `dispatchInvertBuffer`. A sequence of packets that a macro describes is held back and, when it is
-- complete, replaced by one packet. The rest of the driver is reached through an interface.
pub mod Chunks
pub mod Matching
pub mod Kept
pub mod Room
pub mod Observe
use voodoo_ps2_alps.Base.{
  ℕ, zero, suc, ◌+◌, ◌-◌, ◌*◌, ◌%◌, ◌^◌, ◌&◌, ◌≪◌, List, [], ◌∷◌, Bool, true, false, ◌&&◌, ◌||◌,
  if◌then◌else◌, ◌==◌, nz, ltb, leb, at, take, drop, set, set_block, length,
}
use voodoo_ps2_alps.Keyboard.Packets.{
  packet_length, packet_time_offset, packet_key_data_length, packet_time,
}

-- What the macros use of the driver, whose state is an `S`
pub record Host (S : Type 0) : Type 0 where
  pub dispatch : List ℕ → S → S
  pub modifier_state : S → ℕ
  pub set_macro_timer : ℕ → S → S
  pub cancel_macro_timer : S → S
  pub absolutetime_to_nanoseconds : ℕ → ℕ

-- `_macroBuffer` and `_macroCurrent`
pub record Macros : Type 0 where
  pub buffer : List ℕ
  pub current : ℕ

-- `kOutputBytesOffset`, `kModifierBytesOffset`, and `kPrefixBytes` or `kSequenceBytesOffset`
abbrev output_bytes_offset : ℕ
output_bytes_offset = 2

abbrev modifier_bytes_offset : ℕ
modifier_bytes_offset = 4

abbrev pub prefix_bytes : ℕ
prefix_bytes = 8

-- The two pointers move on by a packet and by the key data of one.
unfoldable pub compare_macro : List ℕ → List ℕ → ℕ → Bool
compare_macro buffer bytes zero = true
compare_macro buffer bytes (suc count) =
    at buffer 0 == at bytes 0
    && at buffer 1 == at bytes 1
    && compare_macro (drop packet_length buffer) (drop packet_key_data_length bytes) count

-- "get modifier mask/compare from macro definition"
unfoldable pub modifiers_match : ℕ → List ℕ → Bool
modifiers_match state macro =
    let mask = (at macro 4 ≪ 8) + at macro 5 in
    let compare = (at macro 6 ≪ 8) + at macro 7 in
    0xffff == compare && nz (state & mask) || (state & mask) == compare

-- What the loop over the macros finds first
pub data Match : Type 0 where
  no_match partial_match : Match
  exact_match : (macro : List ℕ) → Match

-- `length` is that of the sequence. A macro of the table is longer than its prefix.
unfoldable pub match_macro : ℕ → List ℕ → ℕ → List ℕ → Match
unfolding compare_macro modifiers_match
match_macro state buffer buffered macro =
    let total = buffered * packet_key_data_length in
    let len = length macro - prefix_bytes in
    if leb total len && compare_macro buffer (drop prefix_bytes macro) buffered
    then if total == len
      then if modifiers_match state macro then exact_match macro else no_match
      else partial_match
    else no_match

unfoldable pub or_else : Match → Match → Match
or_else no_match rest = rest
or_else found rest = found

unfoldable pub find_macro : ℕ → List ℕ → ℕ → List (List ℕ) → Match
unfolding or_else
find_macro state buffer buffered [] = no_match
find_macro state buffer buffered (macro ∷ macros) =
    or_else (match_macro state buffer buffered macro) (find_macro state buffer buffered macros)

-- `now_ns-prev`, on UInt64
unfoldable pub since : ℕ → ℕ → ℕ
since now prev = (now + 2 ^ 64 - prev % 2 ^ 64) % 2 ^ 64

unfoldable pub buffered_packet : Macros → ℕ → List ℕ
buffered_packet m i = take packet_length (drop (i * packet_length) m.buffer)

-- `memcpy(_macroBuffer+_macroCurrent*kPacketLength, packet, kPacketLength)`
unfoldable pub store : List ℕ → Macros → Macros
store packet m = record m {
  buffer = set_block m.buffer (m.current * packet_length) (take packet_length packet);
}

-- The output bytes of a macro, with the timestamp of the first packet
unfoldable pub inverted : List ℕ → Macros → Macros
inverted macro m = record m { buffer = set (set m.buffer 0 (at macro 2)) 1 (at macro 3) }

module _ {S : Type 0} (h : Host S) where
  unfoldable pub dispatch_buffer : ℕ → List ℕ → S → S
  dispatch_buffer zero bytes s = s
  dispatch_buffer (suc n) bytes s =
      dispatch_buffer n (drop packet_length bytes) (h.dispatch (take packet_length bytes) s)

  -- `dispatchInvertBuffer`
  unfoldable pub dispatch_invert_buffer : Macros → S → Macros × S
  unfolding dispatch_buffer
  dispatch_invert_buffer m s =
      (record m { current = 0 }, h.cancel_macro_timer (dispatch_buffer m.current m.buffer s))

  -- The packets are given up if a packet, or the timer, comes too late after the last one.
  unfoldable pub expire : ℕ → ℕ → Macros → S → Macros × S
  unfolding dispatch_invert_buffer since buffered_packet
  expire max_time now m s =
      let last = packet_time (buffered_packet m (m.current - 1)) in
      let age = since (h.absolutetime_to_nanoseconds now) (h.absolutetime_to_nanoseconds last) in
      if nz m.current && ltb max_time age then dispatch_invert_buffer m s else (m, s)

  -- The packet is in the buffer, behind those that were held back before.
  unfoldable pub conclude : ℕ → Match → Macros → S → Macros × S × Bool
  unfolding dispatch_invert_buffer inverted buffered_packet
  conclude max_time (exact_match macro) m s =
      let m' = inverted macro m in
      (record m' { current = 0 }, h.cancel_macro_timer (h.dispatch (buffered_packet m' 0) s), true)
  conclude max_time partial_match m s = (
    record m { current = m.current + 1 },
    h.set_macro_timer max_time (h.cancel_macro_timer s),
    true,
  )
  conclude max_time no_match m s =
      let flushed = if nz m.current then dispatch_invert_buffer m s else (m, s) in
      (flushed.0, flushed.1, false)

  -- `invertMacros`, with the timer and the buffer in place
  unfoldable pub invert_macros : List (List ℕ) → ℕ → List ℕ → Macros → S → Macros × S × Bool
  unfolding expire store
  invert_macros macros max_time packet m0 s0 =
      let live = expire max_time (packet_time packet) m0 s0 in
      let m = store packet live.0 in
      conclude max_time (find_macro (h.modifier_state live.1) m.buffer (m.current + 1) macros) m
        live.1
