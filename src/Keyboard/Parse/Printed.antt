-- ===== src/Keyboard/Parse/Printed.antt =====
-- The texts of key sequences, and what `parseAction` makes of them.
use voodoo_ps2_alps.Base.{
  ℕ, zero, suc, ◌+◌, ◌-◌, ◌/◌, ◌%◌, ◌^◌, ◌≤◌, ◌<◌, ◌≡◌, refl, ◌∙◌, ap, sym, arith, List, [], ◌∷◌,
  ◌++◌, map, Bool, true, false, Option, some, length, drop, set, set_block, set_block_start,
  set_block-append, length-append, append_assoc, leb, ltb, lt→ltb, if◌then◌else◌, ◌¦◌, ◌==◌,
}
use native.Mathlib.Nat.{zero-add}
use voodoo_ps2_alps.Base.Bits.{bit_or-zero, or_add, bit_or_comm}
use voodoo_ps2_alps.Keyboard.Parse.{
  hex_digit, hex_loop, parse_hex, skip_spaces, parse_direction, parse_entry, action_loop,
  finish_action, parse_action,
}

-- A key goes down or up.
pub record KeyMove : Type 0 where
  pub adb : ℕ
  pub down : Bool

unfoldable pub hex_char : ℕ → ℕ
hex_char d = if ltb d 10 then d + b'0' else d - 10 + b'a'

-- "3b d" and "3b u"
unfoldable pub print_move : KeyMove → List ℕ → List ℕ
unfolding hex_char
print_move m rest =
    hex_char (m.adb / 16) ∷ hex_char (m.adb % 16) ∷ b' ' ∷ (if m.down then b'd' else b'u') ∷ rest

-- "3b d, 37 d"
unfoldable pub print_action : List KeyMove → List ℕ
unfolding print_move
print_action [] = []
print_action (m ∷ []) = print_move m []
print_action (m ∷ n ∷ ms) = print_move m (b',' ∷ b' ' ∷ print_action (n ∷ ms))

-- The number that stands for it in the array
unfoldable pub entry_of : KeyMove → ℕ
entry_of m = m.adb + (if m.down then 0 else 0x1000)

-- A key code of a byte; the code 0 is not excluded here.
pub data AreBytes : List KeyMove → Type 0 where
  none_left : AreBytes []
  one_more : {m : KeyMove} {ms : List KeyMove} → m.adb < 256 → AreBytes ms → AreBytes (m ∷ ms)

hex_digit-hex_char : (d : ℕ) → d < 16 → hex_digit (hex_char d) ≡ some d
unfolding hex_digit hex_char
hex_digit-hex_char d h = ground arith

-- Two digits, up to the blank
parse_hex_lem :
    (n : ℕ) (rest : List ℕ)
    → n < 256
    → parse_hex (hex_char (n / 16) ∷ hex_char (n % 16) ∷ b' ' ∷ rest) b' ' 0 ≡ some (b' ' ∷ rest, n)
unfolding parse_hex hex_loop hex_char
parse_hex_lem n rest h =
    ground
      (arith, hex_digit-hex_char (n / 16) (omega arith), hex_digit-hex_char (n % 16) (omega arith))

entry_lem :
    (adb : ℕ) (down : Bool)
    → adb < 256
    → (adb ¦ (if down then 0 else 0x1000)) % 2 ^ 16 ≡ entry_of (record { adb = adb; down = down })
unfolding entry_of
entry_lem adb true h = omega (arith, bit_or-zero adb)
entry_lem adb false h =
    omega (arith, bit_or_comm adb 0x1000, or_add 12 0x1000 adb refl (omega arith))

parse_entry_lem :
    (m : KeyMove) (rest : List ℕ)
    → m.adb < 256
    → parse_entry (print_move m rest)
      ≡ parse_direction m.adb ((if m.down then b'd' else b'u') ∷ rest)
unfolding parse_entry print_move
parse_entry_lem m rest h =
    ground (arith, parse_hex_lem m.adb ((if m.down then b'd' else b'u') ∷ rest) h)

parse_direction_last :
    (adb : ℕ) (down : Bool)
    → adb < 256
    → parse_direction adb ((if down then b'd' else b'u') ∷ [])
      ≡ some (entry_of (record { adb = adb; down = down }), [])
unfolding parse_direction
parse_direction_last adb true h = ap (λ e. some (e, [])) (entry_lem adb true h)
parse_direction_last adb false h = ap (λ e. some (e, [])) (entry_lem adb false h)

parse_direction_more :
    (adb : ℕ) (down : Bool) (rest : List ℕ)
    → adb < 256
    → parse_direction adb ((if down then b'd' else b'u') ∷ b',' ∷ rest)
      ≡ some (entry_of (record { adb = adb; down = down }), skip_spaces rest)
unfolding parse_direction
parse_direction_more adb true rest h = ap (λ e. some (e, skip_spaces rest)) (entry_lem adb true h)
parse_direction_more adb false rest h = ap (λ e. some (e, skip_spaces rest)) (entry_lem adb false h)

hex_char-not_blank : (d : ℕ) → (hex_char d == b' ') ≡ false
unfolding hex_char
hex_char-not_blank d = ground arith

skip_to_next :
    (m : KeyMove) (rest : List ℕ) → skip_spaces (b' ' ∷ print_move m rest) ≡ print_move m rest
unfolding skip_spaces print_move
skip_to_next m rest = rw (hex_char-not_blank (m.adb / 16)) refl

parse_last : (m : KeyMove) → m.adb < 256 → parse_entry (print_move m []) ≡ some (entry_of m, [])
parse_last m h = parse_entry_lem m [] h ∙ parse_direction_last m.adb m.down h

parse_more :
    (m n : KeyMove) (rest : List ℕ)
    → m.adb < 256
    → parse_entry (print_move m (b',' ∷ b' ' ∷ print_move n rest))
      ≡ some (entry_of m, print_move n rest)
parse_more m n rest h =
    parse_entry_lem m (b',' ∷ b' ' ∷ print_move n rest) h
    ∙ parse_direction_more m.adb m.down (b' ' ∷ print_move n rest) h
    ∙ ap (λ t. some (entry_of m, t)) (skip_to_next n rest)

action_loop-end :
    (rounds size i : ℕ) (dest : List ℕ) → action_loop rounds [] size i dest ≡ (some i, dest)
unfolding action_loop
action_loop-end zero size i dest = refl
action_loop-end (suc rounds) size i dest = refl

one_on :
    (i n : ℕ) (entries dest : List ℕ)
    → ◌≡◌ {A = Option ℕ × List ℕ}
        (some (i + 1 + n), set_block dest (i + 1) entries)
        (some (i + suc n), set_block dest (suc i) entries)
one_on i n entries dest =
    let a : i + 1 + n ≡ i + suc n = omega arith in
    let b : i + 1 ≡ suc i = omega arith in rw (a, b) refl

-- A round of the loop
action_loop-step :
    (rounds size i entry : ℕ) (dest rest : List ℕ) (m : KeyMove) (tail : List ℕ)
    → i < size
    → parse_entry (print_move m tail) ≡ some (entry, rest)
    → action_loop (suc rounds) (print_move m tail) size i dest
      ≡ action_loop rounds rest size (i + 1) (set dest i entry)
unfolding action_loop print_move
action_loop-step rounds size i entry dest rest m tail h e = ground (arith, e, lt→ltb i size h)

loop_lem :
    (rounds : ℕ) (ms : List KeyMove) (size i : ℕ) (dest : List ℕ)
    → AreBytes ms
    → length ms ≤ rounds
    → i + length ms ≤ size
    → action_loop rounds (print_action ms) size i dest
      ≡ (some (i + length ms), set_block dest i (map entry_of ms))
unfolding print_action
loop_lem rounds [] size i dest b h w =
    action_loop-end rounds size i dest ∙ ap (λ (n : ℕ). (some n, dest)) (omega arith)
loop_lem zero (m ∷ ms) size i dest b h w = absurd (omega arith)
loop_lem (suc rounds) (m ∷ []) size i dest (AreBytes.one_more p b) h w =
    action_loop-step rounds size i (entry_of m) dest [] m [] (omega arith) (parse_last m p)
    ∙ action_loop-end rounds size (i + 1) (set dest i (entry_of m))
loop_lem (suc rounds) (m ∷ n ∷ []) size i dest (AreBytes.one_more p b) h w =
    action_loop-step rounds size i (entry_of m) dest (print_action (n ∷ [])) m
      (b',' ∷ b' ' ∷ print_action (n ∷ [])) (omega arith) (parse_more m n [] p)
    ∙ loop_lem rounds (n ∷ []) size (i + 1) (set dest i (entry_of m)) b (omega arith) (omega arith)
    ∙ one_on i 1 (map entry_of (n ∷ [])) (set dest i (entry_of m))
loop_lem (suc rounds) (m ∷ n ∷ o ∷ ms) size i dest (AreBytes.one_more p b) h w =
    let rest = b',' ∷ b' ' ∷ print_action (o ∷ ms) in
    action_loop-step rounds size i (entry_of m) dest (print_action (n ∷ o ∷ ms)) m
      (b',' ∷ b' ' ∷ print_action (n ∷ o ∷ ms)) (omega arith) (parse_more m n rest p)
    ∙ loop_lem rounds (n ∷ o ∷ ms) size (i + 1) (set dest i (entry_of m)) b (omega arith)
        (omega arith)
    ∙ one_on i (length (n ∷ o ∷ ms)) (map entry_of (n ∷ o ∷ ms)) (set dest i (entry_of m))

-- The array that a text of at most `size - 1` key moves is parsed into: their entries, the end mark,
-- and then what was there.
unfoldable pub parsed : List KeyMove → List ℕ → List ℕ
parsed ms dest = map entry_of ms ++ (0 ∷ drop (suc (length ms)) dest)

length-map : (ms : List KeyMove) → length (map entry_of ms) ≡ length ms
length-map [] = refl
length-map (m ∷ ms) = ap suc (length-map ms)

not_full : (n size : ℕ) → n < size → leb size n ≡ false
not_full n size h = ground arith

mark_end :
    (ms : List KeyMove) (dest : List ℕ)
    → length ms + 1 ≤ length dest
    → set (set_block dest 0 (map entry_of ms)) (length ms) 0 ≡ parsed ms dest
unfolding parsed
mark_end ms dest h =
    let codes = map entry_of ms in
    let size : length (codes ++ (0 ∷ [])) ≡ suc (length ms) =
      omega (arith, length-append codes (0 ∷ []), length-map ms) in
    sym (
      rw (← append_assoc codes (0 ∷ []) (drop (suc (length ms)) dest), ← size)
        (sym (set_block_start (codes ++ (0 ∷ [])) dest (omega (arith, size))))
      ∙ set_block-append codes (0 ∷ []) dest 0
      ∙ rw (zero-add (length codes), length-map ms) refl)

pub parse_action_lem :
    (ms : List KeyMove) (dest : List ℕ) (size : ℕ)
    → AreBytes ms
    → length ms < size
    → length dest ≡ size
    → parse_action (print_action ms) dest size ≡ (true, parsed ms dest)
unfolding parse_action finish_action parsed
parse_action_lem ms dest size b h e =
    let n = length ms in
    let codes = map entry_of ms in
    let fits : n + 1 ≤ length dest = omega (arith, e) in
    rw (loop_lem size ms size 0 dest b (omega arith) (omega arith), zero-add n, not_full n size h)
      (ap (λ t. (true, t)) (mark_end ms dest fits))
