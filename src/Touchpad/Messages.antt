-- ===== src/Touchpad/Messages.antt =====
-- VoodooPS2Trackpad/VoodooPS2TouchPadBase.cpp, `receiveMessage`: what the keyboard driver tells the
-- touchpad. `SIMULATE_PASSTHRU` is not defined, and `touchpadToggled` does nothing.
use voodoo_ps2_alps.Base.{
  ℕ, ◌-◌, ◌^◌, ◌&◌, ◌¦◌, List, [], ◌∷◌, Bool, not, ◌&&◌, ◌||◌, if◌then◌else◌, leb, get_or,
}
use voodoo_ps2_alps.Base.Int.{ℤ, pos}

-- `PS2KeyInfo` of VoodooPS2Controller/ApplePS2Device.h
pub record Ps2KeyInfo : Type 0 where
  pub time : ℕ
  pub adb_key_code : ℕ
  pub going_down : Bool
  pub eat_key : Bool

-- The part of the touchpad's state that the messages use. `_modifierdown` is a 32-bit word.
pub record Typing : Type 0 where
  pub ignoreall : Bool
  pub modifierdown : ℕ
  pub keytime : ℕ
  pub momentumscrollcurrent : ℤ

-- `kPS2M_getDisableTouchpad`
unfoldable pub get_disable_touchpad : Typing → Bool
get_disable_touchpad t = not t.ignoreall

-- `kPS2M_setDisableTouchpad`
unfoldable pub set_disable_touchpad : Bool → Typing → Typing
set_disable_touchpad enable t =
    if enable && t.ignoreall || not enable && not t.ignoreall
    then record t { ignoreall = not enable }
    else t

-- `masks`, from 0x36 on
abbrev masks : List ℕ
masks = 0x10 ∷ 0x100000 ∷ 0 ∷ 0 ∷ 0x080000 ∷ 0x040000 ∷ 0 ∷ 0x08 ∷ 0x04 ∷ 0x200000 ∷ []

-- The labels of the `switch`: all of 0x36 to 0x3f but caps lock, 0x39
unfoldable pub is_modifier : ℕ → Bool
is_modifier adb = leb 0x36 adb && leb adb 0x38 || leb 0x3a adb && leb adb 0x3f

-- `kPS2M_notifyKeyPressed`: `eatKey` is left as it is.
unfoldable pub notify_key_pressed : Ps2KeyInfo → Typing → Typing
unfolding is_modifier
notify_key_pressed info t =
    let mask = get_or masks (info.adb_key_code - 0x36) 0 in
    if is_modifier info.adb_key_code
    then if info.going_down
      then record t { modifierdown = t.modifierdown ¦ mask }
      else record t { modifierdown = t.modifierdown & (2 ^ 32 - 1 - mask); keytime = info.time }
    else record t { momentumscrollcurrent = pos 0; keytime = info.time }
