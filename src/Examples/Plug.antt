-- ===== src/Examples/Plug.antt =====
-- A device that is plugged in, sleeps, and is pulled out.
use dicedev_linux_driver.Base.{ℕ, ◌≡◌, refl, true, false, Option, none, some, List, replicate}
use dicedev_linux_driver.Pt.{Errno}
use dicedev_linux_driver.Host.{Host, Returns}
use dicedev_linux_driver.Pci.{Calls, dicedev_probe, dicedev_init}
use dicedev_linux_driver.Pci.Probe.{vacant, Probed, dicedev_probe-Probed}
use dicedev_linux_driver.Pci.Remove.{Undoes, probe-remove}
use dicedev_linux_driver.Pci.Start.{Starts, probe-Starts}
use dicedev_linux_driver.Types.{World}
use dicedev_linux_driver.Pci.Init.{Inited, unregistered, init-exit}
use dicedev_linux_driver.Examples.{ready_hw, ready_hw-Responsive, world}

abbrev no_devices : List (Option ℕ)
no_devices = replicate 256 none

abbrev all_well : Calls
all_well = record {
  dev = some 9;
  enable_device = none;
  dma_mask = none;
  request_regions = none;
  iomap_ok = true;
  request_irq = none;
  kthread_ok = true;
  cdev_add = none;
  create_ok = true;
}

-- The interrupt line is taken.
abbrev no_irq : Calls
no_irq = record all_well { request_irq = some Errno.enomem }

abbrev plugged : Host
plugged = vacant no_devices none 0 false world

dicedev_probe-Probed_example :
    Returns (Probed no_irq plugged) (dicedev_probe ready_hw no_irq plugged)
dicedev_probe-Probed_example =
    dicedev_probe-Probed ready_hw ready_hw-Responsive no_devices none 0 false world refl no_irq

probe-remove_example :
    Returns (Undoes ready_hw no_devices true true) (dicedev_probe ready_hw all_well plugged)
probe-remove_example =
    probe-remove ready_hw ready_hw-Responsive no_devices none 0 false world refl all_well

init-exit_example :
    let r = dicedev_init none none (some Errno.enomem) unregistered in
    (r.0 ≡ some Errno.enomem) × Inited r.0 r.1
init-exit_example = init-exit none none (some Errno.enomem)

-- No process has opened the device.
abbrev bare : World
bare = record world { buffers = λ p. none; contexts = λ x. none }

probe-Starts_example :
    Returns Starts (dicedev_probe ready_hw all_well (vacant no_devices none 0 false bare))
probe-Starts_example =
    probe-Starts bare (λ p. refl) (λ x. refl) ready_hw ready_hw-Responsive no_devices none 0 false
      refl all_well refl
