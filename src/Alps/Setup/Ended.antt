-- ===== src/Alps/Setup/Ended.antt =====
-- What `deviceSpecificInit` leaves the device with.
use voodoo_ps2_alps.Base.{ℕ, ◌≡◌, refl, sym, subst, Bool, true, false, Option, none, some}
use voodoo_ps2_alps.Controller.Request.{Ps2Controller}
use voodoo_ps2_alps.Alps.Types.{Driver}
use voodoo_ps2_alps.Alps.HwInit.Endings.{online, Last, reset-Last}
use voodoo_ps2_alps.Alps.HwInit.Prepared.{Result, Prepared, last_byte, hw_init-Prepared}
use voodoo_ps2_alps.Alps.Setup.{set_pktsize, after_init, device_specific_init}

-- The last byte that the device is sent, if a success ends with `b`
abbrev pub Ended : ℕ → Option (Ps2Controller × Driver × Bool) → Type 0
Ended b none = Unit {0}
Ended b (some (c, d, good)) = (good ≡ true → Last b c) × (good ≡ false → Last 0xff c)

contradiction : true ≡ false → ⊥
contradiction e = cc

after_init-Ended :
    {b : ℕ} (d : Driver) (c : Ps2Controller) (o : Option Result)
    → c.hardware_offline ≡ false
    → ((r : Result) → o ≡ some r → Prepared b c r)
    → Ended b (after_init d o)
unfolding after_init
after_init-Ended d c none on p = tt
after_init-Ended d c (some (c1, priv, true)) on p = ((p _ refl).last, λ e. absurd (contradiction e))
after_init-Ended d c (some (c1, priv, false)) on p =
    ((λ e. absurd (contradiction (sym e))), λ e. reset-Last c1 (online (p _ refl).line on))

-- With a controller that is not offline, whatever the device answers: if `deviceSpecificInit` succeeds,
-- the last byte that the device was sent is the one that enables it, 0xf4, or for V1 and V2 the one
-- for stream mode, 0xea; if it fails, that byte is the reset, 0xff.
pub device_specific_init-Last :
    (d : Driver) (c : Ps2Controller) {c' : Ps2Controller} {d' : Driver} {good : Bool}
    → c.hardware_offline ≡ false
    → device_specific_init d c ≡ some (c', d', good)
    → (good ≡ true → Last (last_byte d.hw_init) c') × (good ≡ false → Last 0xff c')
unfolding device_specific_init set_pktsize
device_specific_init-Last d c on e = subst (Ended (last_byte d.hw_init)) e (
    after_init-Ended (set_pktsize d) c _ on
      (λ r h. hw_init-Prepared d.hw_init (set_pktsize d).priv c r on h))
