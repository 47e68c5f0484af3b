-- ===== src/Pci/Power.antt =====
-- dicedev_suspend and dicedev_resume of dicedev_base.c.
use dicedev_linux_driver.Base.{
  ℕ, ◌≡◌, true, false, Option, none, some, List, [], ◌∷◌, ◌==◌, if◌then◌else◌,
}
use dicedev_linux_driver.Dice.{intr_enable, enable}
use dicedev_linux_driver.Types.{active_intr}
use dicedev_linux_driver.Host.{Host}

-- What was written to a register last.
abbrev pub last_written : ℕ → List (ℕ × ℕ) → Option ℕ
last_written reg [] = none
last_written reg ((r, v) ∷ log) = if r == reg then some v else last_written reg log

-- The thread is parked or runs, and the device and its interrupts are off or on.
pub record IsOff (h h' : Host) : Type 0 where
  pub thread : h'.parked ≡ true
  pub device : last_written enable h'.world.writes ≡ some 0
  pub interrupts : last_written intr_enable h'.world.writes ≡ some 0
  pub rest : h' ≡ record h { parked = true; world = record h.world { writes = h'.world.writes } }

pub record IsOn (h h' : Host) : Type 0 where
  pub thread : h'.parked ≡ false
  pub device : last_written enable h'.world.writes ≡ some 1
  pub interrupts : last_written intr_enable h'.world.writes ≡ some active_intr
  pub rest : h' ≡ record h { parked = false; world = record h.world { writes = h'.world.writes } }

-- A device whose structure and registers are there.
abbrev pub usable : Host → ℕ → Host
usable h d = record h { held = record h.held { memory = true; bar = true }; drvdata = some d }
