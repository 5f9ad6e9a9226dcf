-- ===== src/Keyboard/Load.antt =====
-- VoodooPS2Keyboard.cpp, `loadCustomPS2Map`, `loadBreaklessPS2`, `loadCustomADBMap` and
-- `loadMacroData`: the tables from the entries of the configuration. An entry of an array is a
-- string (of bytes), or `none` if the object has another class.
pub mod Tables
use voodoo_ps2_alps.Base.{
  ℕ, zero, suc, ◌+◌, ◌-◌, ◌%◌, ◌^◌, ◌&◌, ◌¦◌, ◌≫◌, List, [], ◌∷◌, Bool, true, false, not, ◌&&◌,
  ◌||◌, Option, none, some, if◌then◌else◌, ◌==◌, leb, nz, at, u8, set, get_or, length,
}
use voodoo_ps2_alps.Keyboard.Types.{kbv_num_scancodes, breakless_key}
use voodoo_ps2_alps.Keyboard.Parse.{parse_hex, parse_remap}

-- ";" begins a comment.
unfoldable pub is_comment : List ℕ → Bool
is_comment psz = at psz 0 == b';'

-- "must be normal scan code or extended, nothing else"
unfoldable pub is_scan_code : ℕ → Bool
is_scan_code scan = u8 (scan ≫ 8) == 0 || u8 (scan ≫ 8) == 0xe0

unfoldable pub table_index : ℕ → ℕ
table_index scan = (scan & 0xff) + (if u8 (scan ≫ 8) == 0xe0 then kbv_num_scancodes else 0)

unfoldable pub set_ps2_entry : Option (ℕ × ℕ) → List ℕ → List ℕ
unfolding is_scan_code table_index
set_ps2_entry none map = map
set_ps2_entry (some (scan_in, scan_out)) map =
    if is_scan_code scan_in && is_scan_code scan_out
    then set map (table_index scan_in) (table_index scan_out)
    else map

unfoldable pub load_custom_ps2_map : List (Option (List ℕ)) → List ℕ → List ℕ
unfolding set_ps2_entry is_comment
load_custom_ps2_map [] map = map
load_custom_ps2_map (none ∷ entries) map = load_custom_ps2_map entries map
load_custom_ps2_map (some psz ∷ entries) map =
    load_custom_ps2_map entries
      (if is_comment psz then map else set_ps2_entry (parse_remap psz) map)

unfoldable pub set_breakless_entry : Option (List ℕ × ℕ) → List ℕ → List ℕ
unfolding is_scan_code table_index
set_breakless_entry none flags = flags
set_breakless_entry (some (rest, scan_in)) flags =
    let index = table_index scan_in in
    if is_scan_code scan_in then set flags index (get_or flags index 0 ¦ breakless_key) else flags

unfoldable pub load_breakless_ps2 : List (Option (List ℕ)) → List ℕ → List ℕ
unfolding set_breakless_entry is_comment
load_breakless_ps2 [] flags = flags
load_breakless_ps2 (none ∷ entries) flags = load_breakless_ps2 entries flags
load_breakless_ps2 (some psz ∷ entries) flags =
    load_breakless_ps2 entries
      (if is_comment psz then flags else set_breakless_entry (parse_hex psz b'\n' b';') flags)

unfoldable pub set_adb_entry : Option (ℕ × ℕ) → List ℕ → List ℕ
unfolding is_scan_code table_index
set_adb_entry none map = map
set_adb_entry (some (scan_in, adb_out)) map =
    if is_scan_code scan_in && leb adb_out 0xff then set map (table_index scan_in) adb_out else map

unfoldable pub load_custom_adb_map : List (Option (List ℕ)) → List ℕ → List ℕ
unfolding set_adb_entry is_comment
load_custom_adb_map [] map = map
load_custom_adb_map (none ∷ entries) map = load_custom_adb_map entries map
load_custom_adb_map (some psz ∷ entries) map =
    load_custom_adb_map entries
      (if is_comment psz then map else set_adb_entry (parse_remap psz) map)

-- A macro of even length, of at least `kMinMacroInversion` = 10 bytes, that begins with 0xffff
unfoldable pub is_macro : List ℕ → Bool
is_macro macro =
    leb 10 (length macro) && length macro % 2 == 0 && at macro 0 == 0xff && at macro 1 == 0xff

unfoldable pub valid_macros : List (Option (List ℕ)) → List (List ℕ)
unfolding is_macro
valid_macros [] = []
valid_macros (none ∷ entries) = valid_macros entries
valid_macros (some macro ∷ entries) =
    let rest = valid_macros entries in if is_macro macro then macro ∷ rest else rest

-- A null pointer if there is no valid macro
unfoldable pub load_macro_data : List (Option (List ℕ)) → Option (List (List ℕ))
unfolding valid_macros
load_macro_data entries = elim (valid_macros entries) [
  | [] ↦ none
  | macro ∷ macros ↦ some (macro ∷ macros)
]

-- `init`: the longest sequence of the macros, for which the macro buffer has room
unfoldable pub longest : List (List ℕ) → ℕ → ℕ
longest [] most = most
longest (macro ∷ macros) most =
    let len = length macro - 8 in longest macros (if leb len most then most else len)
