-- ===== src/Pci/Start.antt =====
-- dicedev_probe of dicedev_base.c and the invariants of the thread and of the counts.
use dicedev_linux_driver.Base.{
  ℕ, ◌≡◌, refl, ◌∙◌, sym, ap, subst, inl, inr, Bool, true, false, Option, none, some, List, [],
  length, replicate, all_none,
}
use mathlib.Core.Option
use dicedev_linux_driver.Types.{World, Context, FenceState, num_slots}
use dicedev_linux_driver.Pt.{Errno}
use dicedev_linux_driver.Utils.{Hw, Responsive}
use dicedev_linux_driver.Utils.Feed.{fed}
use dicedev_linux_driver.Utils.Slots.{SlotsAgree}
use dicedev_linux_driver.Wt.Thread.Turn.{Working}
use dicedev_linux_driver.System.{line}
use dicedev_linux_driver.System.Queue.{Counted}
use dicedev_linux_driver.Host.{Host, Returns, weaken}
use dicedev_linux_driver.Pci.{Calls, max_devices, dicedev_probe}
use dicedev_linux_driver.Pci.Probe.{vacant, Probed, unbinds, started, dicedev_probe-Probed}

abbrev Invariants : World → Type 0
Invariants w = Working none w × Counted (line none w)

-- What is left, if the result is 0.
abbrev pub Starts : Option Errno → Host → Type 0
Starts (some e) h = Unit {0}
Starts none h = Working none h.world × Counted (line none h.world)

module _ (world : World) (no_buffers : (p : ℕ) → world.buffers p ≡ none)
    (no_contexts : (x : ℕ) → world.contexts x ≡ none) where
  abbrev fresh : World
  fresh = record world {
    slock = false;
    feed_lock = false;
    fence_state = FenceState.none;
    failed = false;
    buff_slots = replicate num_slots none;
    free_slots = num_slots;
    pending_tasks = [];
    running_task = none;
    writes = fed (unbinds num_slots 0) (started world.writes);
  }

  fresh-SlotsAgree : SlotsAgree fresh
  fresh-SlotsAgree = record {
    size = refl;
    counted = refl;
    owner = λ s p h. absurd (all_none num_slots s p h);
    held = λ p s b h g. let e = sym (no_buffers p) ∙ h in absurd cc;
  }

  fresh-Working : Working none fresh
  fresh-Working = record {
    quiet = record { unlocked = refl; idle = refl; slots = fresh-SlotsAgree };
    clear = refl;
    queued = tt;
    ahead = tt;
    sent = tt;
    fenced = λ busy. absurd (busy refl);
    idle = λ e. refl;
  }

  fresh-Counted : Counted (line none fresh)
  fresh-Counted x k h =
      let e = sym (ap (Option.map (λ (c : Context). c.task_count)) (no_contexts x)) ∙ h in absurd cc

  of_result :
      (k : Calls) (h : Host) (e : Option Errno) (h' : Host)
      → h.world ≡ world
      → k.create_ok ≡ true
      → Probed k h e h'
      → Starts e h'
  of_result k h (some e) h' same created p = tt
  of_result k h none h' same created (inl (c, r)) =
      subst Invariants (sym (rw same at r.world)) (fresh-Working, fresh-Counted)
  of_result k h none h' same created (inr (failed, devices, lock, drvdata, held)) =
      let e = sym failed ∙ created in absurd cc

  module _ (hw : Hw) (drains : Responsive hw) (devices : List (Option ℕ)) (drvdata : Option ℕ)
      (idx : ℕ) (parked : Bool) (size : length devices ≡ max_devices) where
    -- With nothing held for the device, no context and no buffer there, 256 entries in the
    -- table of devices, a queue that drains, and the node created: if dicedev_probe gives 0,
    -- the invariant of the thread holds for the device, with no task taken, and every context
    -- counts its tasks.
    pub probe-Starts :
        (k : Calls)
        → k.create_ok ≡ true
        → Returns Starts (dicedev_probe hw k (vacant devices drvdata idx parked world))
    probe-Starts k created =
        weaken (λ e h p. of_result k (vacant devices drvdata idx parked world) e h refl created p)
          (dicedev_probe-Probed hw drains devices drvdata idx parked world size k)
