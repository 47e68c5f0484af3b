-- ===== src/Pci/Remove.antt =====
-- dicedev_remove of dicedev_base.c, by itself and after dicedev_probe.
use dicedev_linux_driver.Base.{
  ℕ, ◌≡◌, refl, ◌∙◌, sym, ap, subst, Bool-cases, inl, inr, Bool, true, false, Option, none, some,
  List, ◌∷◌, length, set, if◌then◌else◌,
}
use dicedev_linux_driver.Dice.{intr_enable, enable}
use dicedev_linux_driver.Types.{World}
use dicedev_linux_driver.Monad.{Fault}
use dicedev_linux_driver.Pt.{Errno}
use dicedev_linux_driver.Utils.{Hw, Responsive, dicedev_iow}
use dicedev_linux_driver.Wt.Thread.Exit.{is_idle, wt_exit-deadlock}
use dicedev_linux_driver.Host.{Host, ok, fault, Returns, returns, weaken}
use dicedev_linux_driver.Pci.{Calls, max_devices, dicedev_probe, dicedev_remove}
use dicedev_linux_driver.Pci.Index.{set-set}
use dicedev_linux_driver.Pci.Probe.{
  none_held, all_held, vacant, Ready, Probed, dicedev_probe-Probed,
}

abbrev pub present : List (Option ℕ) → ℕ → ℕ → Bool → World → Host
present devices d i parked w = record {
  held = all_held;
  devices = devices;
  devices_lock = false;
  drvdata = some d;
  idx = i;
  parked = parked;
  world = w;
}

-- Nothing is held, and the device is off.
abbrev pub removed : Host → Host
removed h = record h {
  held = none_held;
  devices = set h.devices h.idx none;
  world = record h.world {
    slock = false;
    writes = (enable, 0) ∷ (intr_enable, 0) ∷ h.world.writes;
  };
}

module _ (hw : Hw) where
  pub dicedev_remove-removed :
      (devices : List (Option ℕ)) (d i : ℕ) (parked : Bool) (w : World)
      → w.slock ≡ false
      → dicedev_remove hw (present devices d i parked w) ≡ (
          if is_idle w.pending_tasks w.running_task
          then ok tt (removed (present devices d i parked w))
          else fault Fault.deadlock)
  unfolding dicedev_remove dicedev_iow
  dicedev_remove-removed devices d i parked w unlocked =
      let w' : World = record w { writes = (intr_enable, 0) ∷ w.writes } in
      let e = wt_exit-deadlock hw w' w.pending_tasks w.running_task unlocked refl refl in
      elim (Bool-cases (is_idle w.pending_tasks w.running_task)) [
        | inl idle ↦ rw (e, idle)
        | inr busy ↦ rw (e, busy)
      ]

present_lem :
    (h : Host) (d : ℕ)
    → h.held ≡ all_held
    → h.devices_lock ≡ false
    → h.drvdata ≡ some d
    → h ≡ present h.devices d h.idx h.parked h.world
present_lem h d a b c = λ i. record h { held = a i; devices_lock = b i; drvdata = c i }

-- What dicedev_remove does to a device that dicedev_probe left with the result 0.
abbrev pub Undone : Hw → List (Option ℕ) → Bool → Bool → Host → Type 0
Undone hw devices true true h =
    Returns (λ u h'. (h'.held ≡ none_held) × (h'.devices ≡ devices)) (dicedev_remove hw h)
Undone hw devices true false h = dicedev_remove hw h ≡ fault Fault.null_pointer
Undone hw devices false kthread_ok h = dicedev_remove hw h ≡ fault Fault.freed

abbrev pub Undoes : Hw → List (Option ℕ) → Bool → Bool → Option Errno → Host → Type 0
Undoes hw devices create_ok kthread_ok (some e) h = h.devices ≡ devices
Undoes hw devices create_ok kthread_ok none h = Undone hw devices create_ok kthread_ok h

module _ (hw : Hw) (drains : Responsive hw) (devices : List (Option ℕ)) (drvdata : Option ℕ)
    (idx : ℕ) (parked : Bool) (world : World) (size : length devices ≡ max_devices)
    (k : Calls) where
  Ready-Undone :
      (h : Host) (started : Bool)
      → k.kthread_ok ≡ started
      → Ready k (vacant devices drvdata idx parked world) h
      → Undone hw devices true started h
  unfolding dicedev_remove dicedev_iow
  Ready-Undone h false none_started r =
      let (d, at) = r.allocated in
      let here = r.drvdata ∙ at in
      let held : h.held ≡ record all_held { worker = false } =
        r.held ∙ ap (λ s. record all_held { worker = s }) none_started in
      rw (here, held)
  Ready-Undone h true started r =
      let (d, at) = r.allocated in
      let held : h.held ≡ all_held = r.held ∙ ap (λ s. record all_held { worker = s }) started in
      let same = present_lem h d held r.unlocked (r.drvdata ∙ at) in
      let unlocked : h.world.slock ≡ false = ap (λ (w : World). w.slock) r.world in
      let idle : is_idle h.world.pending_tasks h.world.running_task ≡ true =
        ap (λ (w : World). is_idle w.pending_tasks w.running_task) r.world in
      subst (Undone hw devices true true) (sym same) (
        rw (dicedev_remove-removed hw h.devices d h.idx h.parked h.world unlocked, idle)
          (returns
            (refl, ap (λ ds. set ds h.idx none) r.entered ∙ set-set devices h.idx k.dev r.free)))

  of_result :
      (e : Option Errno) (h : Host)
      → Probed k (vacant devices drvdata idx parked world) e h
      → Undoes hw devices k.create_ok k.kthread_ok e h
  unfolding dicedev_remove
  of_result (some e) h p = p.0
  of_result none h (inl (created, r)) = rw created (Ready-Undone h k.kthread_ok refl r)
  of_result none h (inr (created, same, unlocked, (d, at), held)) = rw created (rw (at, held))

  -- With nothing held for the device, 256 entries in the table of devices and a queue that
  -- drains: if dicedev_probe gives 0, the thread was started and the node created, dicedev_remove
  -- right after it returns, with nothing held and the table as it was before the probe; if
  -- kthread_run has failed, dicedev_remove follows its error as a pointer; if the node was not
  -- created, dicedev_remove follows the freed structure of the device. If dicedev_probe gives an
  -- error, the table is as it was.
  pub probe-remove :
      Returns
        (Undoes hw devices k.create_ok k.kthread_ok)
        (dicedev_probe hw k (vacant devices drvdata idx parked world))
  probe-remove =
      weaken (λ e h p. of_result e h p)
        (dicedev_probe-Probed hw drains devices drvdata idx parked world size k)
