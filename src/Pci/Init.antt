-- ===== src/Pci/Init.antt =====
-- dicedev_init and dicedev_exit of dicedev_base.c.
use dicedev_linux_driver.Base.{◌≡◌, refl, true, false, Option, none, some}
use dicedev_linux_driver.Pt.{Errno}
use dicedev_linux_driver.Pci.{Registered, dicedev_init, dicedev_exit}

abbrev pub unregistered : Registered
unregistered = record { region = false; class = false; driver = false }

abbrev pub registered : Registered
registered = record { region = true; class = true; driver = true }

-- The first call that fails.
abbrev pub first_error : Option Errno → Option Errno → Option Errno → Option Errno
first_error (some e) y z = some e
first_error none (some e) z = some e
first_error none none z = z

abbrev pub Inited : Option Errno → Registered → Type 0
Inited (some e) r = r ≡ unregistered
Inited none r = (r ≡ registered) × (dicedev_exit r ≡ unregistered)

-- dicedev_init gives the error of the first registration that fails, with nothing registered, and
-- otherwise 0 with the region, the class and the driver registered, all of which dicedev_exit takes
-- back.
pub init-exit :
    (region class driver : Option Errno)
    → let r = dicedev_init region class driver unregistered in
      (r.0 ≡ first_error region class driver) × Inited r.0 r.1
unfolding dicedev_init dicedev_exit
init-exit (some e) class driver = (refl, refl)
init-exit none (some e) driver = (refl, refl)
init-exit none none (some e) = (refl, refl)
init-exit none none none = (refl, (refl, refl))
