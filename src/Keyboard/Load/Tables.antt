-- ===== src/Keyboard/Load/Tables.antt =====
-- The tables that the configuration fills stay in their bounds.
use voodoo_ps2_alps.Base.{
  ℕ, zero, suc, ◌<◌, ◌≡◌, ◌∙◌, refl, arith, List, [], ◌∷◌, Bool, true, false, Option, none, some,
  length, length-set, set, get_or, ◌&&◌, if◌then◌else◌, leb,
}
use voodoo_ps2_alps.Base.Bits.{bit_and-ones}
use voodoo_ps2_alps.Keyboard.Parse.{parse_remap}
use voodoo_ps2_alps.Keyboard.Load.{
  is_comment, is_scan_code, table_index, set_ps2_entry, load_custom_ps2_map, set_adb_entry,
  load_custom_adb_map,
}

-- A table of 512 entries, all below `bound`
pub record IsTable (bound : ℕ) (map : List ℕ) : Type 0 where
  pub size : length map ≡ 512
  pub entries : (i : ℕ) → get_or map i 0 < bound

table_index-bounded : (scan : ℕ) → table_index scan < 512
unfolding table_index
table_index-bounded scan = ground (arith, bit_and-ones 8 scan)

get_or-set_below :
    (xs : List ℕ) (i v j bound : ℕ)
    → v < bound
    → get_or xs j 0 < bound
    → get_or (set xs i v) j 0 < bound
get_or-set_below [] i v j bound h t = t
get_or-set_below (x ∷ xs) zero v zero bound h t = h
get_or-set_below (x ∷ xs) zero v (suc j) bound h t = t
get_or-set_below (x ∷ xs) (suc i) v zero bound h t = t
get_or-set_below (x ∷ xs) (suc i) v (suc j) bound h t = get_or-set_below xs i v j bound h t

set-IsTable :
    {bound : ℕ} {map : List ℕ} (i v : ℕ)
    → v < bound
    → IsTable bound map
    → IsTable bound (set map i v)
set-IsTable {bound} {map} i v h t = record {
  size = length-set map i v ∙ t.size;
  entries = λ j. get_or-set_below map i v j bound h (t.entries j);
}

if-IsTable :
    {bound : ℕ} {a b : List ℕ} (x : Bool)
    → (x ≡ true → IsTable bound a)
    → IsTable bound b
    → IsTable bound (if x then a else b)
if-IsTable true p q = p refl
if-IsTable false p q = q

set_ps2_entry-IsTable :
    (e : Option (ℕ × ℕ)) (map : List ℕ) → IsTable 512 map → IsTable 512 (set_ps2_entry e map)
unfolding set_ps2_entry
set_ps2_entry-IsTable none map t = t
set_ps2_entry-IsTable (some (scan_in, scan_out)) map t =
    if-IsTable (is_scan_code scan_in && is_scan_code scan_out)
      (λ e.
        set-IsTable (table_index scan_in) (table_index scan_out) (table_index-bounded scan_out) t)
      t

pub load_custom_ps2_map-IsTable :
    (entries : List (Option (List ℕ))) (map : List ℕ)
    → IsTable 512 map
    → IsTable 512 (load_custom_ps2_map entries map)
unfolding load_custom_ps2_map
load_custom_ps2_map-IsTable [] map t = t
load_custom_ps2_map-IsTable (none ∷ entries) map t = load_custom_ps2_map-IsTable entries map t
load_custom_ps2_map-IsTable (some psz ∷ entries) map t =
    load_custom_ps2_map-IsTable entries
      (if is_comment psz then map else set_ps2_entry (parse_remap psz) map)
      (if-IsTable (is_comment psz) (λ e. t) (set_ps2_entry-IsTable (parse_remap psz) map t))

set_adb_entry-IsTable :
    (e : Option (ℕ × ℕ)) (map : List ℕ) → IsTable 256 map → IsTable 256 (set_adb_entry e map)
unfolding set_adb_entry
set_adb_entry-IsTable none map t = t
set_adb_entry-IsTable (some (scan_in, adb_out)) map t =
    if-IsTable (is_scan_code scan_in && leb adb_out 0xff)
      (λ e. set-IsTable (table_index scan_in) adb_out (below e) t) t
  where
    below : (is_scan_code scan_in && leb adb_out 0xff) ≡ true → adb_out < 256
    below e = ground arith

pub load_custom_adb_map-IsTable :
    (entries : List (Option (List ℕ))) (map : List ℕ)
    → IsTable 256 map
    → IsTable 256 (load_custom_adb_map entries map)
unfolding load_custom_adb_map
load_custom_adb_map-IsTable [] map t = t
load_custom_adb_map-IsTable (none ∷ entries) map t = load_custom_adb_map-IsTable entries map t
load_custom_adb_map-IsTable (some psz ∷ entries) map t =
    load_custom_adb_map-IsTable entries
      (if is_comment psz then map else set_adb_entry (parse_remap psz) map)
      (if-IsTable (is_comment psz) (λ e. t) (set_adb_entry-IsTable (parse_remap psz) map t))
