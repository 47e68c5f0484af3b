-- ===== src/System/Safety/Ioctls.antt =====
-- The ioctls and the release of a context of dicedev_base.c: what they follow is there, and no lock
-- is taken twice.
use dicedev_linux_driver.Base.{
  ℕ, ◌+◌, ◌%◌, ◌≡◌, refl, sym, subst, inl, inr, Bool, true, false, not, ◌&&◌, Option, none, some,
  ◌==◌, ltb, Bool-cases, update_self,
}
use dicedev_linux_driver.Dice.{u64}
use dicedev_linux_driver.Types.{World, Buffer, Context, PageTable}
use dicedev_linux_driver.Holdings.{file}
use dicedev_linux_driver.Monad.{pure, ◌>>=◌, Ensures, ensured, faults}
use dicedev_linux_driver.Monad.Safe.{Safe, goes_on, waits, stops, Safe-then, then_Safe, either_Safe}
use dicedev_linux_driver.Pt.{Errno, Ret, err}
use dicedev_linux_driver.Utils.{Hw, dicedev_iow}
use dicedev_linux_driver.Wt.Thread.{dicedev_wt_add_task}
use dicedev_linux_driver.Wt.Exec.Present.{Present}
use dicedev_linux_driver.Buffer.{
  dicedev_buffer_init, dicedev_buffer_destroy, dicedev_buffer_get_fd, init_table,
}
use dicedev_linux_driver.Chardev.{
  NewSet, CreateSet, FdTarget, RunCmd, bad_size, max_allowed, create_fd, create_done, create_buffer,
  dicedev_ioctl_create_set, private_data, run_queue, run_checked, run_buffers, run_fds,
  dicedev_ioctl_run, wait_for, dicedev_ioctl_wait, set_increment, dicedev_ioctl_seed_increment,
}
use dicedev_linux_driver.Chardev.Dispatch.{
  IoctlArg, ioctl_create_set, ioctl_run, ioctl_wait, ioctl_enable_seed_increment, dicedev_ioctl,
}
use dicedev_linux_driver.System.Creation.{Inited, init-Inited}

-- The file that a descriptor leads to is open.
abbrev pub Open : World → FdTarget → Type 0
Open w FdTarget.no_file = Unit {0}
Open w FdTarget.null_data = Unit {0}
Open w FdTarget.foreign = Unit {0}
Open w (FdTarget.buffer_file p) = (b : Buffer) × (w.buffers p ≡ some b)

abbrev pub OpenRun : World → Option RunCmd → Type 0
OpenRun w none = Unit {0}
OpenRun w (some r) = Open w r.cfd × Open w r.bfd

module _ (hw : Hw) (ctx : ℕ) (w : World) (unlocked : w.slock ≡ false) (c : Context)
    (known : w.contexts ctx ≡ some c) where
  module _ (task_ok : Bool) where
    checked-Safe : (x y : ℕ) (r : RunCmd) → Safe (run_checked ctx x y r task_ok w)
    unfolding run_checked run_queue dicedev_wt_add_task
    checked-Safe x y r = elim (Bool-cases c.failed) [
      | inl bad ↦ rw (known, bad) goes_on
      | inr good ↦ elim task_ok as (λ k. Safe (run_checked ctx x y r k w)) [
        | true ↦ rw (known, good, unlocked, known) goes_on
        | false ↦ rw (known, good) goes_on
      ]
    ]

    buffers-Safe :
        (r : RunCmd) (x y : Option ℕ)
        → Present x w
        → Present y w
        → Safe (run_buffers ctx r task_ok x y w)
    unfolding run_buffers
    buffers-Safe r none y h k = goes_on
    buffers-Safe r (some x) none h k = goes_on
    buffers-Safe r (some x) (some y) (cb, here) (db, there) =
        rw (here, there)
          (either_Safe (ltb cb.pt.max_size (u64 (r.addr + r.size))) (pure (err Errno.einval)) _ w
            goes_on
            (either_Safe (not (cb.ctx == ctx && db.ctx == ctx)) (pure (err Errno.einval)) _ w
              goes_on (checked-Safe x y r)))

    private_data-Safe : (f : FdTarget) (v : World) → Safe (private_data f v)
    private_data-Safe FdTarget.no_file v = stops tt
    private_data-Safe FdTarget.null_data v = goes_on
    private_data-Safe FdTarget.foreign v = stops tt
    private_data-Safe (FdTarget.buffer_file p) v = goes_on

    private_data-Present :
        (f : FdTarget) → Open w f → Ensures (λ o v. (v ≡ w) × Present o w) (private_data f w)
    private_data-Present FdTarget.no_file h = faults
    private_data-Present FdTarget.null_data h = ensured (refl, tt)
    private_data-Present FdTarget.foreign h = faults
    private_data-Present (FdTarget.buffer_file p) h = ensured (refl, h)

    fds-Safe : (r : RunCmd) → Open w r.cfd → Open w r.bfd → Safe (run_fds ctx r task_ok w)
    unfolding run_fds
    fds-Safe r h k =
        then_Safe (private_data-Safe r.cfd w) (private_data-Present r.cfd h) λ x v (same, here).
          subst (λ z. Safe ((private_data r.bfd >>= λ y. run_buffers ctx r task_ok x y) z))
            (sym same)
            (then_Safe (private_data-Safe r.bfd w) (private_data-Present r.bfd k)
              λ y u (again, there).
                subst (λ z. Safe (run_buffers ctx r task_ok x y z)) (sym again)
                  (buffers-Safe r x y here there))

    pub ioctl_run-Safe :
        (r : Option RunCmd) → OpenRun w r → Safe (dicedev_ioctl_run ctx r task_ok w)
    unfolding dicedev_ioctl_run
    ioctl_run-Safe none h = goes_on
    ioctl_run-Safe (some r) (h, k) =
        either_Safe (not (r.addr % 4 == 0 && r.size % 4 == 0)) (pure (err Errno.einval))
          (run_fds ctx r task_ok) w goes_on (fds-Safe r h k)

  ioctl_wait-Safe : (cnt : Option ℕ) → Safe (dicedev_ioctl_wait ctx cnt w)
  unfolding dicedev_ioctl_wait wait_for
  ioctl_wait-Safe none = goes_on
  ioctl_wait-Safe (some cnt) = elim (Bool-cases (ltb cnt c.task_count)) [
    | inl busy ↦ rw (known, busy) waits
    | inr few ↦ rw (known, few) goes_on
  ]

  seed_increment-Safe : (e : Option ℕ) → Safe (dicedev_ioctl_seed_increment e w)
  unfolding dicedev_ioctl_seed_increment set_increment dicedev_iow
  seed_increment-Safe none = goes_on
  seed_increment-Safe (some e) =
      either_Safe (not (e == 0) && not (e == 1)) (pure (err Errno.einval)) (set_increment e) w
        goes_on (rw unlocked goes_on)

  module _ (k : NewSet) where
    table-Safe :
        (p allowed : ℕ) (file : Option Errno) (r : Ret PageTable) (v : World)
        → Safe (init_table ctx p allowed file r v)
    table-Safe p allowed file (err e) v = goes_on
    table-Safe p allowed none (Ret.ok pt) v = goes_on
    table-Safe p allowed (some e) (Ret.ok pt) v = goes_on

    init-Safe :
        (p size allowed : ℕ) (pt_ok : Bool)
        → Safe (dicedev_buffer_init k.alloc pt_ok k.pages_ok k.file ctx p size allowed w)
    unfolding dicedev_buffer_init
    init-Safe p size allowed false = goes_on
    init-Safe p size allowed true = table-Safe p allowed k.file _ _

    -- The new buffer is there, without a slot.
    fd-Safe :
        (p : ℕ) (b : Buffer) (fd : Ret ℕ) (v : World)
        → v.buffers p ≡ some b
        → b.binded_slot ≡ none
        → v.slock ≡ false
        → v.contexts ctx ≡ some c
        → Safe ((dicedev_buffer_get_fd fd p >>= create_fd hw ctx p) v)
    unfolding create_fd dicedev_buffer_get_fd dicedev_buffer_destroy
    fd-Safe p b (Ret.ok fd) v there loose open_lock at = rw at goes_on
    fd-Safe p b (err e) v there loose open_lock at = rw (open_lock, there, loose) goes_on

    done-Safe :
        (p allowed : ℕ) (fd : Ret ℕ) (r : Ret (Unit {0})) (v : World)
        → Inited p ctx allowed w r v
        → Safe (create_done hw ctx p fd r v)
    unfolding create_done
    done-Safe p allowed fd (err e) v i = goes_on
    done-Safe p allowed fd (Ret.ok u) v (d, pt, same) =
        subst (λ x. Safe ((dicedev_buffer_get_fd fd p >>= create_fd hw ctx p) x)) (sym same)
          (fd-Safe p _ fd _ (update_self w.buffers p _) refl unlocked known)

    new_buffer-Safe :
        (cs : CreateSet) (buff : Option ℕ)
        → ((p : ℕ) → buff ≡ some p → w.buffers p ≡ none)
        → Safe (create_buffer hw ctx k cs buff w)
    unfolding create_buffer
    new_buffer-Safe cs none fresh = goes_on
    new_buffer-Safe cs (some p) fresh =
        then_Safe (init-Safe p cs.size cs.allowed k.pt_ok)
          (init-Inited p w (fresh p refl) k.alloc ctx cs.size cs.allowed k.pt_ok k.pages_ok k.file)
          λ r v i. done-Safe p cs.allowed k.fd r v i

    create_set-Safe :
        (cs : Option CreateSet)
        → ((p : ℕ) → k.buff ≡ some p → w.buffers p ≡ none)
        → Safe (dicedev_ioctl_create_set hw ctx k cs w)
    unfolding dicedev_ioctl_create_set
    create_set-Safe none fresh = goes_on
    create_set-Safe (some cs) fresh =
        either_Safe (bad_size cs.size) (pure (err Errno.einval)) _ w goes_on (
          either_Safe (ltb max_allowed cs.allowed) (pure (err Errno.einval)) _ w goes_on
            (new_buffer-Safe cs k.buff fresh))

  pub ioctl-Safe :
      (cmd : ℕ) (a : IoctlArg)
      → ((p : ℕ) → a.new_set.buff ≡ some p → w.buffers p ≡ none)
      → OpenRun w a.run
      → Safe (dicedev_ioctl hw ctx cmd a w)
  unfolding dicedev_ioctl
  ioctl-Safe cmd a fresh opened =
      either_Safe (cmd == ioctl_create_set) (dicedev_ioctl_create_set hw ctx a.new_set a.set) _ w
        (create_set-Safe a.new_set a.set fresh)
        (either_Safe (cmd == ioctl_run) _ _ w
          (Safe-then (ioctl_run-Safe a.task_ok a.run opened) λ r v. goes_on)
          (either_Safe (cmd == ioctl_wait) _ _ w (Safe-then (ioctl_wait-Safe a.wait) λ r v. goes_on)
            (either_Safe (cmd == ioctl_enable_seed_increment) _ (pure (err Errno.einval)) w
              (Safe-then (seed_increment-Safe a.increment) λ r v. goes_on) goes_on)))
