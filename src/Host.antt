-- ===== src/Host.antt =====
-- What the kernel holds for one device of the driver while dicedev_base.c probes and removes it, and
-- commands over it: a command returns, or runs into a fault.
use dicedev_linux_driver.Base.{ℕ, Bool, true, false, Option, List}
use dicedev_linux_driver.Types.{World}
use dicedev_linux_driver.Monad.{M, Run, Fault}

-- The allocation of struct dicedev_device, and what the calls of the kernel take.
pub record Held : Type 0 where
  pub memory : Bool
  pub enabled : Bool
  pub regions : Bool
  pub bar : Bool
  pub irq : Bool
  pub worker : Bool
  pub cdev : Bool
  pub node : Bool

-- `devices` is dicedev_devices, `drvdata` what pci_set_drvdata keeps, `idx` the field of the device,
-- whose other fields stand in `world`.
pub record Host : Type 0 where
  pub held : Held
  pub devices : List (Option ℕ)
  pub devices_lock : Bool
  pub drvdata : Option ℕ
  pub idx : ℕ
  pub parked : Bool
  pub world : World

pub data Out (A : Type 0) : Type 0 where
  ok : A → Host → Out A
  fault : Fault → Out A

abbrev pub H : Type 0 → Type 0
H A = Host → Out A

abbrev pub pure : {A : Type 0} → A → H A
pure a h = ok a h

abbrev pub fail : {A : Type 0} → Fault → H A
fail e h = fault e

module _ {A B : Type 0} where
  abbrev pub and_then : Out A → (A → H B) → Out B
  and_then (ok a h) k = k a h
  and_then (fault e) k = fault e

  infixl 5 ◌>>=◌ ◌>>◌
  abbrev pub ◌>>=◌ : H A → (A → H B) → H B
  ◌>>=◌ m k h = and_then (m h) k

  abbrev pub ◌>>◌ : H A → H B → H B
  ◌>>◌ m k h = and_then (m h) (λ _. k)

abbrev pub modify : (Host → Host) → H (Unit {0})
modify f h = ok tt (f h)

abbrev pub gets : {A : Type 0} → (Host → A) → H A
gets f h = ok (f h) h

abbrev pub hold : (Held → Held) → H (Unit {0})
hold f h = ok tt (record h { held = f h.held })

abbrev pub lifted : {A : Type 0} → Host → Run A → Out A
lifted h (Run.ok a w) = ok a (record h { world = w })
lifted h Run.blocked = fault Fault.deadlock
lifted h (Run.fault e) = fault e

-- A command of the driver on the device. None of those that are used here sleeps.
abbrev pub lift : {A : Type 0} → M A → H A
lift m h = lifted h (m h.world)

abbrev pub take_mutex : Bool → H (Unit {0})
take_mutex true h = fault Fault.deadlock
take_mutex false h = ok tt (record h { devices_lock = true })

-- mutex_lock(&dicedev_devices_lock) and its release
abbrev pub mutex_lock : H (Unit {0})
mutex_lock h = take_mutex h.devices_lock h

abbrev pub mutex_unlock : H (Unit {0})
mutex_unlock h = ok tt (record h { devices_lock = false })

-- The structure of the device is followed.
abbrev pub alive : Bool → H (Unit {0})
alive true h = ok tt h
alive false h = fault Fault.freed

abbrev pub follow : H (Unit {0})
follow h = alive h.held.memory h

-- The registers can be reached only while they are mapped.
abbrev pub mapped : Bool → H (Unit {0})
mapped true h = ok tt h
mapped false h = fault Fault.out_of_bounds

abbrev pub on_registers : {A : Type 0} → M A → H A
on_registers m h = and_then (mapped h.held.bar h) (λ _. lift m)

-- The command returns, and what it returns and leaves satisfies `P`.
pub data Returns {A : Type 0} (P : A → Host → Type 0) : Out A → Type 0 where
  returns : {a : A} {h : Host} → P a h → Returns P (ok a h)

pub weaken :
    {A : Type 0} {P Q : A → Host → Type 0} {r : Out A}
    → ((a : A) (h : Host) → P a h → Q a h)
    → Returns P r
    → Returns Q r
weaken f (returns p) = returns (f _ _ p)
