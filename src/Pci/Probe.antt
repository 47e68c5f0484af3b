-- ===== src/Pci/Probe.antt =====
-- dicedev_probe of dicedev_base.c as a whole: what is held after each way out.
use dicedev_linux_driver.Base.{
  ℕ, zero, suc, ◌+◌, ◌<◌, ◌≡◌, refl, ap, ◌≢◌, ◌⊎◌, inl, inr, subst, sym, Bool, true, false, Option,
  none, some, List, [], ◌∷◌, arith, length, get_elem?, set, replicate, Option-cases,
  get_elem?_bound,
}
use dicedev_linux_driver.Dice.{
  u32, intr, intr_enable, enable, cmd_fence_wait, cmd_fence_last, unbind_slot_header,
}
use dicedev_linux_driver.Types.{World, FenceState, num_slots, active_intr, all_intr}
use dicedev_linux_driver.Pt.{Errno}
use dicedev_linux_driver.Utils.{Hw, Responsive, dicedev_iow, first_null}
use dicedev_linux_driver.Utils.Feed.{fed, feed_cmd-fed}
use dicedev_linux_driver.Wt.Thread.{dicedev_wt_init}
use dicedev_linux_driver.Pci.Index.{first_null-IsLowest, set-set}
use dicedev_linux_driver.Host.{Held, Host, ok, Returns, returns}
use dicedev_linux_driver.Pci.{Calls, max_devices, unbind_from, init_registers, dicedev_probe}

abbrev pub none_held : Held
none_held = record {
  memory = false;
  enabled = false;
  regions = false;
  bar = false;
  irq = false;
  worker = false;
  cdev = false;
  node = false;
}

abbrev pub all_held : Held
all_held = record {
  memory = true;
  enabled = true;
  regions = true;
  bar = true;
  irq = true;
  worker = true;
  cdev = true;
  node = true;
}

-- The words that unbind `n` slots from slot `i` on.
abbrev pub unbinds : ℕ → ℕ → List ℕ
unbinds zero i = []
unbinds (suc n) i = u32 (unbind_slot_header i) ∷ unbinds n (i + 1)

-- The registers after the start of the device, the latest write first.
abbrev pub started : List (ℕ × ℕ) → List (ℕ × ℕ)
started log =
    (enable, 1)
    ∷ (cmd_fence_last, 0)
    ∷ (cmd_fence_wait, 1)
    ∷ (intr_enable, active_intr)
    ∷ (intr, all_intr)
    ∷ log

-- Before a probe nothing is held.
abbrev pub vacant : List (Option ℕ) → Option ℕ → ℕ → Bool → World → Host
vacant devices drvdata idx parked world = record {
  held = none_held;
  devices = devices;
  devices_lock = false;
  drvdata = drvdata;
  idx = idx;
  parked = parked;
  world = world;
}

-- A device that has been probed.
pub record Ready (k : Calls) (h h' : Host) : Type 0 where
  pub allocated : (d : ℕ) × (k.dev ≡ some d)
  pub held : h'.held ≡ record all_held { worker = k.kthread_ok }
  pub unlocked : h'.devices_lock ≡ false
  pub bounded : h'.idx < max_devices
  pub free : get_elem? h.devices h'.idx ≡ some none
  pub lowest : (j : ℕ) → j < h'.idx → get_elem? h.devices j ≢ some none
  pub entered : h'.devices ≡ set h.devices h'.idx k.dev
  pub drvdata : h'.drvdata ≡ k.dev
  pub world : h'.world ≡ record h.world {
    slock = false;
    feed_lock = false;
    fence_state = FenceState.none;
    failed = false;
    buff_slots = replicate num_slots none;
    free_slots = num_slots;
    pending_tasks = [];
    running_task = none;
    writes = fed (unbinds num_slots 0) (started h.world.writes);
  }

module _ (hw : Hw) (drains : Responsive hw) where
  unbind_from-fed :
      (n i : ℕ) (h : Host) (r : Held)
      → h.world.feed_lock ≡ false
      → unbind_from hw n i (record h { held = record r { bar = true } })
        ≡ ok tt (record h {
          held = record r { bar = true };
          world = record h.world { writes = fed (unbinds n i) h.world.writes; feed_lock = false };
        })
  unfolding unbind_from
  unbind_from-fed zero i h r idle =
      ap
        (λ l.
          ok tt
            (record h { held = record r { bar = true }; world = record h.world { feed_lock = l } }))
        idle
  unbind_from-fed (suc n) i h r idle =
      rw (feed_cmd-fed hw drains (u32 (unbind_slot_header i) ∷ []) h.world idle) (
        unbind_from-fed n (i + 1)
          (record h {
            world = record h.world {
              writes = fed (u32 (unbind_slot_header i) ∷ []) h.world.writes;
              feed_lock = false;
            };
          })
          r refl)

  init_registers-started :
      (h : Host) (r : Held)
      → h.world.feed_lock ≡ false
      → init_registers hw (record h { held = record r { bar = true } })
        ≡ ok tt (record h {
          held = record r { bar = true };
          world = record h.world {
            writes = fed (unbinds num_slots 0) (started h.world.writes);
            feed_lock = false;
          };
        })
  unfolding init_registers dicedev_iow
  init_registers-started h r idle =
      unbind_from-fed num_slots 0
        (record h { world = record h.world { writes = started h.world.writes } }) r idle

-- What is left after a probe.
abbrev pub Probed : Calls → Host → Option Errno → Host → Type 0
Probed k h (some e) h' =
    (h'.devices ≡ h.devices)
    × (h'.devices_lock ≡ false)
    × ((h'.held ≡ none_held)
        ⊎ ((k.cdev_add ≡ some e) × (h'.held ≡ record none_held { worker = k.kthread_ok })))
Probed k h none h' =
    ((k.create_ok ≡ true) × Ready k h h')
    ⊎ ((k.create_ok ≡ false)
        × (h'.devices ≡ h.devices)
        × (h'.devices_lock ≡ false)
        × ((d : ℕ) × (h'.drvdata ≡ some d))
        × (h'.held ≡ record none_held { worker = k.kthread_ok; cdev = true }))

module _ (hw : Hw) (drains : Responsive hw) (devices : List (Option ℕ)) (drvdata : Option ℕ)
    (idx : ℕ) (parked : Bool) (world : World) (size : length devices ≡ max_devices) where
  abbrev h : Host
  h = vacant devices drvdata idx parked world

  abbrev calls :
      ℕ
      → Option Errno
      → Option Errno
      → Option Errno
      → Bool
      → Option Errno
      → Bool
      → Option Errno
      → Bool
      → Calls
  calls d en mask regions io irq kthread cdev create = record {
    dev = some d;
    enable_device = en;
    dma_mask = mask;
    request_regions = regions;
    iomap_ok = io;
    request_irq = irq;
    kthread_ok = kthread;
    cdev_add = cdev;
    create_ok = create;
  }

  restored :
      (d i : ℕ) → first_null 0 devices ≡ some i → set (set devices i (some d)) i none ≡ devices
  restored d i found = set-set devices i (some d) (first_null-IsLowest devices i found).free

  -- Once the interrupt is connected and the fields are set.
  abbrev connected : Bool → ℕ → ℕ → Host
  connected kthread d i = record h {
    held = record all_held { worker = kthread; cdev = false; node = false };
    devices = set devices i (some d);
    drvdata = some d;
    idx = i;
    world = record world {
      slock = false;
      feed_lock = false;
      fence_state = FenceState.none;
      failed = false;
      buff_slots = replicate num_slots none;
      free_slots = num_slots;
      pending_tasks = [];
      running_task = none;
    };
  }

  with_index :
      (d i : ℕ) (en mask regions : Option Errno) (io : Bool) (irq : Option Errno) (kthread : Bool)
      (cdev : Option Errno) (create : Bool)
      → first_null 0 devices ≡ some i
      → let k = calls d en mask regions io irq kthread cdev create in
        Returns (Probed k h) (dicedev_probe hw k h)
  unfolding dicedev_probe dicedev_iow dicedev_wt_init
  with_index d i (some e) mask regions io irq kthread cdev create found =
      rw found (returns (restored d i found, refl, inl refl))
  with_index d i none (some e) regions io irq kthread cdev create found =
      rw found (returns (restored d i found, refl, inl refl))
  with_index d i none none (some e) io irq kthread cdev create found =
      rw found (returns (restored d i found, refl, inl refl))
  with_index d i none none none false irq kthread cdev create found =
      rw found (returns (restored d i found, refl, inl refl))
  with_index d i none none none true (some e) kthread cdev create found =
      rw found (returns (restored d i found, refl, inl refl))
  with_index d i none none none true none kthread (some e) create found =
      rw
        (
          found,
          init_registers-started hw drains (connected kthread d i) (connected kthread d i).held
              refl,
        )
        (returns (restored d i found, refl, inr (refl, refl)))
  with_index d i none none none true none kthread none false found =
      rw
        (
          found,
          init_registers-started hw drains (connected kthread d i) (connected kthread d i).held
              refl,
        )
        (returns (inr (refl, restored d i found, refl, (d, refl), refl)))
  with_index d i none none none true none kthread none true found =
      let low = first_null-IsLowest devices i found in
      rw
        (
          found,
          init_registers-started hw drains (connected kthread d i) (connected kthread d i).held
              refl,
        )
        (returns (
          inl (
            refl,
            record {
              allocated = (d, refl);
              held = refl;
              unlocked = refl;
              bounded = omega (arith, get_elem?_bound devices i low.free);
              free = low.free;
              lowest = low.lowest;
              entered = refl;
              drvdata = refl;
              world = refl;
            },
          )))

  of_dev : (dev : Option ℕ) (k : Calls) → k.dev ≡ dev → Returns (Probed k h) (dicedev_probe hw k h)
  unfolding dicedev_probe
  of_dev none k e = rw e (returns (refl, refl, inl refl))
  of_dev (some d) k e = elim (Option-cases (first_null 0 devices)) [
    | inl full ↦ rw (e, full) (returns (refl, refl, inl refl))
    | inr (i, found) ↦
        subst
          (λ o.
            Returns (Probed (record k { dev = o }) h) (dicedev_probe hw (record k { dev = o }) h))
          (sym e)
          (with_index d i k.enable_device k.dma_mask k.request_regions k.iomap_ok k.request_irq
            k.kthread_ok k.cdev_add k.create_ok found)
  ]

  -- With nothing held for the device, 256 entries in the table of devices and a queue that
  -- drains, dicedev_probe returns, whichever of its calls fails. If it gives an error, the table
  -- is as it was and nothing is held, except that the work thread, if it was started, goes on if
  -- cdev_add fails. If it gives 0 and the node was created, all is held, except that there is no
  -- thread if kthread_run has failed, the device stands at the first free index, below 256, and
  -- its state and its registers are those of a started device with no slot bound and no task. If
  -- the node was not created it gives 0 as well, while the structure of the device is freed, the
  -- table is as it was, the driver data still point to it, and the thread, if it was started, and
  -- the character device are left.
  pub dicedev_probe-Probed : (k : Calls) → Returns (Probed k h) (dicedev_probe hw k h)
  dicedev_probe-Probed k = of_dev k.dev k refl
