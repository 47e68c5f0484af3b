-- ===== src/Pci.antt =====
-- The PCI driver of dicedev_base.c: probe, remove, suspend and resume of a device, and the init and
-- exit of the module. What the kernel answers is an argument.
pub mod Index
pub mod Probe
pub mod Remove
pub mod Power
pub mod Init
pub mod Start
use dicedev_linux_driver.Base.{
  ℕ, zero, suc, ◌+◌, Bool, true, false, Option, none, some, List, [], ◌∷◌, set, replicate,
}
use dicedev_linux_driver.Dice.{
  u32, intr, intr_enable, enable, cmd_fence_wait, cmd_fence_last, unbind_slot_header,
}
use dicedev_linux_driver.Types.{World, FenceState, num_slots, active_intr, all_intr}
use dicedev_linux_driver.Monad.{Fault}
use dicedev_linux_driver.Pt.{Errno}
use dicedev_linux_driver.Utils.{Hw, dicedev_iow, feed_cmd, first_null}
use dicedev_linux_driver.Wt.Thread.{dicedev_wt_init, wt_exit}
use dicedev_linux_driver.Host.{
  Held, Host, H, pure, fail, ◌>>=◌, ◌>>◌, modify, gets, hold, lift, mutex_lock, mutex_unlock,
  follow, on_registers,
}

abbrev pub max_devices : ℕ
max_devices = 256

-- The calls of dicedev_probe: kzalloc, pci_enable_device, dma_set_mask_and_coherent,
-- pci_request_regions, pci_iomap, request_irq, cdev_add and device_create, and kthread_run of
-- dicedev_wt_init. `none` stands for 0.
pub record Calls : Type 0 where
  pub dev : Option ℕ
  pub enable_device : Option Errno
  pub dma_mask : Option Errno
  pub request_regions : Option Errno
  pub iomap_ok : Bool
  pub request_irq : Option Errno
  pub kthread_ok : Bool
  pub cdev_add : Option Errno
  pub create_ok : Bool

abbrev pub write_reg : ℕ → ℕ → H (Unit {0})
write_reg reg val = on_registers (dicedev_iow reg val)

-- The labels at the end of dicedev_probe, each with what it falls through to. The result is `err`,
-- with `none` for 0.
err_max_dev : Option Errno → H (Option Errno)
err_max_dev e = do hold (λ r. record r { memory = false }); pure e

-- The entry of the device is cleared.
abbrev pub clear_index : H (Unit {0})
clear_index = do
  mutex_lock
  modify (λ h. record h { devices = set h.devices h.idx none })
  mutex_unlock

err_enable_dev : Option Errno → H (Option Errno)
unfolding err_max_dev
err_enable_dev e = do clear_index; err_max_dev e

err_request_regions : Option Errno → H (Option Errno)
unfolding err_enable_dev
err_request_regions e = do hold (λ r. record r { enabled = false }); err_enable_dev e

err_iomap : Option Errno → H (Option Errno)
unfolding err_request_regions
err_iomap e = do hold (λ r. record r { regions = false }); err_request_regions e

err_request_irq : Option Errno → H (Option Errno)
unfolding err_iomap
err_request_irq e = do hold (λ r. record r { bar = false }); err_iomap e

err_cdev_add : Option Errno → H (Option Errno)
unfolding err_request_irq
err_cdev_add e = do
  write_reg enable 0
  write_reg intr_enable 0
  hold (λ r. record r { irq = false })
  err_request_irq e

-- The loop that unbinds the slots from slot `i` on.
pub unbind_from : Hw → ℕ → ℕ → H (Unit {0})
unbind_from hw zero i = pure tt
unbind_from hw (suc rounds) i = do
  on_registers (feed_cmd hw (u32 (unbind_slot_header i) ∷ []))
  unbind_from hw rounds (i + 1)

-- The fields of the device and the thread.
init_fields : Bool → H (Unit {0})
init_fields kthread_ok = do
  modify (λ h. record h {
    world = record h.world {
      fence_state = FenceState.none;
      failed = false;
      buff_slots = replicate num_slots none;
      free_slots = num_slots;
    };
  })
  thread ← lift (dicedev_wt_init kthread_ok)
  hold (λ r. record r { worker = thread })

pub init_registers : Hw → H (Unit {0})
init_registers hw = do
  write_reg intr all_intr
  write_reg intr_enable active_intr
  write_reg cmd_fence_wait 1
  write_reg cmd_fence_last 0
  write_reg enable 1
  unbind_from hw num_slots 0

module _ (hw : Hw) (k : Calls) where
  create_node : Bool → H (Option Errno)
  unfolding err_cdev_add
  create_node true = do hold (λ r. record r { node = true }); pure none
  -- `err` is still 0.
  create_node false = err_cdev_add none

  add_cdev : Option Errno → H (Option Errno)
  unfolding create_node
  add_cdev (some e) = err_cdev_add (some e)
  add_cdev none = do hold (λ r. record r { cdev = true }); create_node k.create_ok

  connect_irq : Option Errno → H (Option Errno)
  unfolding add_cdev init_fields init_registers
  connect_irq (some e) = err_request_irq (some e)
  connect_irq none = do
    hold (λ r. record r { irq = true })
    init_fields k.kthread_ok
    init_registers hw
    add_cdev k.cdev_add

  map_bar : Bool → H (Option Errno)
  unfolding connect_irq
  map_bar false = err_iomap (some Errno.enomem)
  map_bar true = do hold (λ r. record r { bar = true }); connect_irq k.request_irq

  take_regions : Option Errno → H (Option Errno)
  unfolding map_bar
  take_regions (some e) = err_request_regions (some e)
  take_regions none = do hold (λ r. record r { regions = true }); map_bar k.iomap_ok

  set_mask : Option Errno → H (Option Errno)
  unfolding take_regions
  set_mask (some e) = err_request_regions (some e)
  set_mask none = take_regions k.request_regions

  enable_dev : Option Errno → H (Option Errno)
  unfolding set_mask
  enable_dev (some e) = err_enable_dev (some e)
  enable_dev none = do hold (λ r. record r { enabled = true }); set_mask k.dma_mask

  -- The index that is found, if one is free. The mutex is held.
  take_index : ℕ → Option ℕ → H (Option Errno)
  unfolding enable_dev
  take_index d none = do mutex_unlock; err_max_dev (some Errno.enospc)
  take_index d (some i) = do
    modify (λ h. record h { devices = set h.devices i (some d); idx = i })
    mutex_unlock
    enable_dev k.enable_device

  probe_device : Option ℕ → H (Option Errno)
  unfolding take_index
  probe_device none = pure (some Errno.enomem)
  probe_device (some d) = do
    modify (λ h. record h {
      held = record h.held { memory = true };
      drvdata = some d;
      world = record h.world { slock = false; feed_lock = false };
    })
    mutex_lock
    free ← gets (λ h. first_null 0 h.devices)
    take_index d free

  unfoldable pub dicedev_probe : H (Option Errno)
  unfolding probe_device
  dicedev_probe = probe_device k.dev

-- The structure that the driver data point to.
abbrev pub drvdata_of : Option ℕ → H (Unit {0})
drvdata_of none = fail Fault.null_pointer
drvdata_of (some d) = follow

abbrev pub get_drvdata : H (Unit {0})
get_drvdata h = drvdata_of h.drvdata h

-- The thread leaves its loop, and its end is waited for.
running_thread : Hw → Bool → H (Unit {0})
running_thread hw false = fail Fault.null_pointer
running_thread hw true = do lift (wt_exit hw); hold (λ r. record r { worker = false })

-- kthread_stop follows wt.thread.
stop_thread : Hw → H (Unit {0})
unfolding running_thread
stop_thread hw h = running_thread hw h.held.worker h

unfoldable pub dicedev_remove : Hw → H (Unit {0})
unfolding stop_thread
dicedev_remove hw = do
  get_drvdata
  hold (λ r. record r { node = false })
  hold (λ r. record r { cdev = false })
  write_reg intr_enable 0
  stop_thread hw
  write_reg enable 0
  hold (λ r. record r { irq = false })
  hold (λ r. record r { bar = false })
  hold (λ r. record r { regions = false })
  hold (λ r. record r { enabled = false })
  clear_index
  hold (λ r. record r { memory = false })

unfoldable pub dicedev_suspend : H (Unit {0})
dicedev_suspend = do
  get_drvdata
  write_reg intr_enable 0
  modify (λ h. record h { parked = true })
  write_reg enable 0

unfoldable pub dicedev_resume : H (Unit {0})
dicedev_resume = do
  get_drvdata
  modify (λ h. record h { parked = false })
  write_reg intr_enable active_intr
  write_reg enable 1

-- What dicedev_init registers: the region of device numbers, the class and the PCI driver.
pub record Registered : Type 0 where
  pub region : Bool
  pub class : Bool
  pub driver : Bool

err_class : Option Errno → Registered → Option Errno × Registered
err_class e r = (e, record r { region = false })

err_pci : Option Errno → Registered → Option Errno × Registered
unfolding err_class
err_pci e r = err_class e (record r { class = false })

register_driver : Option Errno → Registered → Option Errno × Registered
unfolding err_pci
register_driver (some e) r = err_pci (some e) r
register_driver none r = (none, record r { driver = true })

register_class : Option Errno → Option Errno → Registered → Option Errno × Registered
unfolding register_driver
register_class (some e) driver r = err_class (some e) r
register_class none driver r = register_driver driver (record r { class = true })

-- The answers of alloc_chrdev_region, class_register and pci_register_driver.
unfoldable pub dicedev_init :
    Option Errno → Option Errno → Option Errno → Registered → Option Errno × Registered
unfolding register_class
dicedev_init (some e) class driver r = (some e, r)
dicedev_init none class driver r = register_class class driver (record r { region = true })

unfoldable pub dicedev_exit : Registered → Registered
dicedev_exit r = record r { driver = false; class = false; region = false }
