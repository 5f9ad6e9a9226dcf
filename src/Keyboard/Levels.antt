-- ===== src/Keyboard/Levels.antt =====
-- `modifyScreenBrightness` and `modifyKeyboardBacklight` of VoodooPS2Keyboard.cpp: the next level
-- of a table, from the current one that ACPI reports.
pub mod Bounds
use voodoo_ps2_alps.Base.{
  ℕ, zero, suc, ◌+◌, ◌-◌, ◌^◌, ◌%◌, List, [], ◌∷◌, Bool, Option, none, some, if◌then◌else◌, ◌==◌,
  ltb, leb, length, drop, get_or,
}
use voodoo_ps2_alps.Keyboard.Types.{Config, Keyboard, Action, evaluate_bcm, evaluate_kkcm, emit}

-- `a <= b` of two words that stand for an `int`
unfoldable pub leb_int : ℕ → ℕ → Bool
leb_int a b = leb ((a + 2 ^ 31) % 2 ^ 32) ((b + 2 ^ 31) % 2 ^ 32)

-- The loop "find current in table >= entry in table", over the entries from `index` on
unfoldable pub find_level : List ℕ → ℕ → ℕ → ℕ
unfolding leb_int
find_level [] index current = index
find_level (level ∷ levels) index current =
    if leb_int current level then index else find_level levels (index + 1) current

-- "move to next or previous", and the two clamps. The index is never below 0 where -1 would not be
-- clamped to `least` all the same.
unfoldable pub step_index : ℕ → ℕ → Bool → ℕ → ℕ
step_index least count up index =
    let moved = if up then index + 1 else index - 1 in
    let capped = if leb count moved then count - 1 else moved in
    if ltb capped least then least else capped

-- The index of the level that is set, where the table's entries count from `least` on
unfoldable pub next_index : ℕ → List ℕ → ℕ → Bool → ℕ
unfolding find_level step_index
next_index least levels current up =
    step_index least (length levels) up (find_level (drop least levels) least current)

unfoldable pub set_level : (ℕ → Action) → ℕ → List ℕ → ℕ → Bool → Bool → Keyboard → Keyboard
unfolding next_index emit
set_level act least levels current up going_down k =
    if going_down then emit (act (get_or levels (next_index least levels current up) 0)) k else k

-- The question to ACPI is counted; an error ends the function.
unfoldable pub modify_screen_brightness : Config → List ℕ → ℕ → Bool → Keyboard → Keyboard
unfolding set_level
modify_screen_brightness c levels adb going_down k0 =
    let k = record k0 { asked = k0.asked + 1 } in
    elim (c.kernel.evaluate_bqc k0.asked) [
      | none ↦ k
      | some current ↦ set_level evaluate_bcm 2 levels current (adb == 0x90) going_down k
    ]

unfoldable pub modify_keyboard_backlight : Config → List ℕ → ℕ → Bool → Keyboard → Keyboard
unfolding set_level
modify_keyboard_backlight c levels key_code going_down k0 =
    let k = record k0 { asked = k0.asked + 1 } in
    elim (c.kernel.evaluate_kkqc k0.asked) [
      | none ↦ k
      | some current ↦ set_level evaluate_kkcm 0 levels current (key_code == 0x4e) going_down k
    ]
