-- ===== src/Keyboard/Stock/Entries.antt =====
-- What all entries of the stock tables have in common.
use voodoo_ps2_alps.Base.{
  ℕ, zero, suc, ◌<◌, ◌≡◌, refl, arith, List, [], ◌∷◌, Bool, true, not, ◌&&◌, ◌||◌, length, get_or,
  at, Option, ltb, ◌==◌, ltb→lt,
}
use voodoo_ps2_alps.Base.Bits.{bit_and-ones}
use voodoo_ps2_alps.Keyboard.Stock.{ps2_to_adb_map_stock, ps2_to_ps2_map_stock}
use voodoo_ps2_alps.Keyboard.Load.Tables.{
  IsTable, load_custom_ps2_map-IsTable, load_custom_adb_map-IsTable,
}
use voodoo_ps2_alps.Keyboard.Load.{load_custom_ps2_map, load_custom_adb_map}
use voodoo_ps2_alps.Keyboard.Dispatch.{key_code_raw}

-- A test that all entries of a list pass, and 0 beyond them
all : (ℕ → Bool) → List ℕ → Bool
all f [] = f 0
all f (x ∷ xs) = f x && all f xs

all-get_or : (f : ℕ → Bool) (xs : List ℕ) → all f xs ≡ true → (i : ℕ) → f (get_or xs i 0) ≡ true
unfolding all
all-get_or f [] h i = h
all-get_or f (x ∷ xs) h zero = ground arith
all-get_or f (x ∷ xs) h (suc i) = all-get_or f xs (ground arith) i

abbrev is_no_brightness : ℕ → Bool
is_no_brightness adb = ltb adb 256 && not (adb == 0x90 || adb == 0x91)

adb_entries : all is_no_brightness ps2_to_adb_map_stock ≡ true
unfolding all ps2_to_adb_map_stock
adb_entries = refl

ps2_entries : all (λ n. ltb n 512) ps2_to_ps2_map_stock ≡ true
unfolding all ps2_to_ps2_map_stock
ps2_entries = refl

stock_ps2-IsTable : IsTable 512 ps2_to_ps2_map_stock
stock_ps2-IsTable = record {
  size = unfold ps2_to_ps2_map_stock in refl;
  entries = λ i.
      ltb→lt (get_or ps2_to_ps2_map_stock i 0) 512
        (all-get_or (λ n. ltb n 512) ps2_to_ps2_map_stock ps2_entries i);
}

is_byte : (adb : ℕ) → is_no_brightness adb ≡ true → adb < 256
is_byte adb h = ground arith

stock_adb-IsTable : IsTable 256 ps2_to_adb_map_stock
stock_adb-IsTable = record {
  size = unfold ps2_to_adb_map_stock in refl;
  entries = λ i.
      is_byte (get_or ps2_to_adb_map_stock i 0)
        (all-get_or is_no_brightness ps2_to_adb_map_stock adb_entries i);
}

key_code_raw-bounded : (packet : List ℕ) → key_code_raw packet < 512
unfolding key_code_raw
key_code_raw-bounded packet = ground (arith, bit_and-ones 7 (at packet 1))

-- Whatever remappings the configuration adds to the stock tables, every index that a packet leads
-- to is in its table: the raw key code in the map of scan codes, the key code in the map of ADB
-- codes (both of 512 entries); and the ADB code that is found is a byte.
pub key_code-bounded :
    (ps2 adb : List (Option (List ℕ))) (packet : List ℕ)
    → let ps2_map = load_custom_ps2_map ps2 ps2_to_ps2_map_stock in
      let adb_map = load_custom_adb_map adb ps2_to_adb_map_stock in
      let code = get_or ps2_map (key_code_raw packet) 0 in
      (key_code_raw packet < length ps2_map)
      × (code < length adb_map)
      × (get_or adb_map code 0 < 256)
key_code-bounded ps2 adb packet =
    let p = load_custom_ps2_map-IsTable ps2 ps2_to_ps2_map_stock stock_ps2-IsTable in
    let a = load_custom_adb_map-IsTable adb ps2_to_adb_map_stock stock_adb-IsTable in
    let raw = key_code_raw packet in
    let code = get_or (load_custom_ps2_map ps2 ps2_to_ps2_map_stock) raw 0 in
    (
      omega (arith, p.size, key_code_raw-bounded packet),
      omega (arith, a.size, p.entries raw),
      a.entries code,
    )
