-- ===== src/Keyboard/Parse/Sent.antt =====
-- Key sequences from their texts to key events: `parseAction` and then `sendKeySequence`.
use voodoo_ps2_alps.Base.{
  ℕ, suc, ◌<◌, ◌≡◌, refl, ◌∙◌, ap, arith, List, [], ◌∷◌, ◌++◌, map, true, false, not, some, length,
  drop, nz, ◌&◌, ◌==◌,
}
use voodoo_ps2_alps.Base.Bits.{bit_and-ones, field}
use voodoo_ps2_alps.Keyboard.Types.{Config, Keyboard, dispatch_now}
use voodoo_ps2_alps.Keyboard.Delivery.{send_key_sequence}
use voodoo_ps2_alps.Keyboard.Parse.{parse_action}
use voodoo_ps2_alps.Keyboard.Parse.Printed.{
  KeyMove, print_action, entry_of, AreBytes, none_left, one_more, parsed, parse_action_lem,
}

-- The key moves are sent one after the other, each at the time of its turn.
pub dispatch_moves : Config → List KeyMove → Keyboard → Keyboard
dispatch_moves c [] k = k
dispatch_moves c (m ∷ ms) k = dispatch_moves c ms (dispatch_now c m.adb m.down k)

-- A key code that `sendKeySequence` does not take for the end: a byte other than 0
pub data AreKeys : List KeyMove → Type 0 where
  no_keys : AreKeys []
  one_key :
      {m : KeyMove} {ms : List KeyMove}
      → (0 < m.adb) × (m.adb < 256)
      → AreKeys ms
      → AreKeys (m ∷ ms)

entry_nonzero : (m : KeyMove) → 0 < m.adb → (entry_of m == 0) ≡ false
unfolding entry_of
entry_nonzero m h = ground arith

entry_low : (m : KeyMove) → m.adb < 256 → (entry_of m & 0xff) ≡ m.adb
unfolding entry_of
entry_low m h = ground (arith, bit_and-ones 8 (entry_of m))

entry_down : (m : KeyMove) → m.adb < 256 → not (nz (entry_of m & 0x1000)) ≡ m.down
unfolding entry_of
entry_down m h = ground (arith, field 1 12 (entry_of m))

send_lem :
    (c : Config) (ms : List KeyMove) (rest : List ℕ) (k : Keyboard)
    → AreKeys ms
    → send_key_sequence c (map entry_of ms ++ (0 ∷ rest)) k ≡ some (dispatch_moves c ms k)
unfolding send_key_sequence dispatch_moves
send_lem c [] rest k b = refl
send_lem c (m ∷ ms) rest k (AreKeys.one_key p b) =
    rw (entry_nonzero m p.0, entry_low m p.1, entry_down m p.1)
      (send_lem c ms rest (dispatch_now c m.adb m.down k) b)

are_bytes : (ms : List KeyMove) → AreKeys ms → AreBytes ms
are_bytes [] b = none_left
are_bytes (m ∷ ms) (AreKeys.one_key p b) = one_more p.1 (are_bytes ms b)

-- The text of key moves ("3b d, 7e u"), with bytes other than 0 for key codes and at least one
-- place less than the array, is parsed, and the array it is parsed into is sent as just these key
-- moves, in their order. (The key code 0 would be the end mark.)
pub send-parse_action :
    (c : Config) (ms : List KeyMove) (dest : List ℕ) (size : ℕ) (k : Keyboard)
    → AreKeys ms
    → length ms < size
    → length dest ≡ size
    → let r = parse_action (print_action ms) dest size in
      (r.0 ≡ true) × (send_key_sequence c r.1 k ≡ some (dispatch_moves c ms k))
unfolding parsed
send-parse_action c ms dest size k b h e =
    let r = parse_action_lem ms dest size (are_bytes ms b) h e in
    (
      ap (λ t. t.0) r,
      ap (λ t. send_key_sequence c t.1 k) r ∙ send_lem c ms (drop (suc (length ms)) dest) k b,
    )
