-- ===== src/Keyboard/Parse.antt =====
-- VoodooPS2Keyboard.cpp, `parseHex`, `parseRemap` and `parseAction`. A C string is the list of its
-- characters, without the end mark: to be at the end is to have no character left.
pub mod Printed
pub mod Sent
use voodoo_ps2_alps.Base.{
  ℕ, zero, suc, ◌+◌, ◌-◌, ◌*◌, ◌%◌, ◌^◌, ◌¦◌, List, [], ◌∷◌, Bool, true, false, not, ◌&&◌, ◌||◌,
  Option, none, some, if◌then◌else◌, ◌==◌, ◌!=◌, leb, ltb, set, length,
}

unfoldable pub hex_digit : ℕ → Option ℕ
hex_digit c =
    if leb b'0' c && leb c b'9'
    then some (c - b'0')
    else if leb b'a' c && leb c b'f'
    then some (c - b'a' + 10)
    else if leb b'A' c && leb c b'F'
    then some (c - b'A' + 10)
    else none

-- The loop of `parseHex`, from the number `n` on. `n` is 32 bits long: `n <<= 4` drops the upper
-- digits of a longer number. `none` is the null pointer.
unfoldable pub hex_loop : ℕ → ℕ → List ℕ → ℕ → Option (List ℕ × ℕ)
unfolding hex_digit
hex_loop term1 term2 [] n = some ([], n)
hex_loop term1 term2 (c ∷ cs) n = elim (c == term1 || c == term2) [
  | true ↦ some (c ∷ cs, n)
  | false ↦ elim (hex_digit c) [
    | none ↦ none
    | some d ↦ hex_loop term1 term2 cs ((n * 16 + d) % 2 ^ 32)
  ]
]

unfoldable pub parse_hex : List ℕ → ℕ → ℕ → Option (List ℕ × ℕ)
unfolding hex_loop
parse_hex psz term1 term2 = hex_loop term1 term2 psz 0

-- After the "=" of `parseRemap`
unfoldable pub parse_scan_to : ℕ → List ℕ → Option (ℕ × ℕ)
unfolding parse_hex
parse_scan_to scan_from psz = elim (parse_hex psz b'\n' b';') [
  | none ↦ none
  | some (rest, n) ↦ if leb n 0xffff then some (scan_from, n) else none
]

unfoldable pub parse_remap : List ℕ → Option (ℕ × ℕ)
unfolding parse_scan_to
parse_remap psz = elim (parse_hex psz b'=' 0) [
  | none ↦ none
  | some ([], n) ↦ none
  | some (c ∷ rest, n) ↦ if c == b'=' && leb n 0xffff then parse_scan_to n rest else none
]

-- `while (*++psz == ' ')`, behind the comma
unfoldable pub skip_spaces : List ℕ → List ℕ
skip_spaces [] = []
skip_spaces (c ∷ cs) = let rest = skip_spaces cs in if c == b' ' then rest else c ∷ cs

-- The body of the loop of `parseAction`: the entry and the rest of the text; `none` is `goto error`.
unfoldable pub parse_direction : ℕ → List ℕ → Option (ℕ × List ℕ)
unfolding skip_spaces
parse_direction n [] = none
parse_direction n (c ∷ cs) =
    let entry = (n ¦ (if c == b'u' then 0x1000 else 0)) % 2 ^ 16 in
    if c == b'd' || c == b'u'
    then elim cs [
      | [] ↦ some (entry, [])
      | comma ∷ rest ↦ if comma == b',' then some (entry, skip_spaces rest) else none
    ]
    else none

unfoldable pub parse_entry : List ℕ → Option (ℕ × List ℕ)
unfolding parse_hex parse_direction
parse_entry psz = elim (parse_hex psz b' ' 0) [
  | none ↦ none
  | some ([], n) ↦ none
  | some (c ∷ rest, n) ↦ if c == b' ' then parse_direction n rest else none
]

-- The loop, with the rounds that are left: the array, and the index or the error.
unfoldable pub action_loop : ℕ → List ℕ → ℕ → ℕ → List ℕ → Option ℕ × List ℕ
unfolding parse_entry
action_loop zero psz size i dest = (some i, dest)
action_loop (suc rounds) [] size i dest = (some i, dest)
action_loop (suc rounds) (c ∷ cs) size i dest = elim (ltb i size) [
  | false ↦ (some i, dest)
  | true ↦ elim (parse_entry (c ∷ cs)) [
    | none ↦ (none, dest)
    | some (entry, rest) ↦ action_loop rounds rest size (i + 1) (set dest i entry)
  ]
]

unfoldable pub finish_action : ℕ → Option ℕ × List ℕ → Bool × List ℕ
finish_action size (none, dest) = (false, set dest 0 0)
finish_action size (some i, dest) =
    if leb size i then (false, set dest 0 0) else (true, set dest i 0)

-- Each round takes a place of the array, so `size` rounds are enough.
unfoldable pub parse_action : List ℕ → List ℕ → ℕ → Bool × List ℕ
unfolding action_loop finish_action
parse_action psz dest size = finish_action size (action_loop size psz size 0 dest)
