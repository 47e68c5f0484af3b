-- ===== src/System/Arrivals.antt =====
-- dicedev_buffer_write of dicedev_buffer.c and dicedev_ioctl_run of dicedev_base.c, whatever they are
-- given, seen from the queue.
use dicedev_linux_driver.Base.{
  ℕ, ◌+◌, ◌%◌, ◌≡◌, refl, ◌∙◌, sym, ap, subst, inl, inr, Bool, true, false, not, ◌&&◌, Option, none,
  some, List, ◌==◌, ltb, if◌then◌else◌, Bool-cases, arith, Option-cases, update_self,
}
use mathlib.Core.Option
use dicedev_linux_driver.Dice.{u64}
use dicedev_linux_driver.Types.{World, Buffer, Context, Task}
use dicedev_linux_driver.Holdings.{job, holdings, file}
use dicedev_linux_driver.Holdings.Passes.{Belongs, Fits}
use dicedev_linux_driver.Monad.{Run, pure, Ensures, ensured, faults, then_ensured, either}
use dicedev_linux_driver.Pt.{Errno, err}
use dicedev_linux_driver.Wt.Thread.{dicedev_wt_add_task}
use dicedev_linux_driver.Buffer.{write_task, write_locked, write_open, dicedev_buffer_write}
use dicedev_linux_driver.Chardev.{
  FdTarget, RunCmd, private_data, run_task, run_queue, run_checked, run_buffers, run_fds,
  dicedev_ioctl_run,
}
use dicedev_linux_driver.System.{Queued}

-- The task is for the buffer `p`, or of the context `x`.
abbrev pub ForBuffer : ℕ → Task → Type 0
ForBuffer p t = t.buff_out ≡ p

abbrev pub OfContext : ℕ → Task → Type 0
OfContext x t = t.ctx ≡ x

abbrev After : {A : Type 0} → (Task → Type 0) → World → A → World → Type 0
After P w a w' = Queued P w w'

from_same :
    {A : Type 0} {P : Task → Type 0} {r : Run A} (v w : World)
    → v ≡ w
    → Ensures (After P v) r
    → Ensures (After P w) r
from_same {A = A} {P = P} {r = r} v w same h = subst (λ z. Ensures {A = A} (After P z) r) same h

module _ (w : World) (unlocked : w.slock ≡ false) where
  owned : {x : ℕ} (p : ℕ) (b : Buffer) → w.buffers p ≡ some b → b.ctx ≡ x → Belongs (holdings w) x p
  owned p b there mine = (file b, ap (Option.map file) there, mine)

  released : record w { slock = false } ≡ w
  released = ap (λ l. record w { slock = l }) (sym unlocked)

  module _ (p count : ℕ) (cmd_ok : Bool) (copied : Option (List ℕ)) (task_ok : Bool) where
    counted-Queued :
        (b : Buffer) (c : Context) (x : Bool) (y : Option (List ℕ)) (z : Bool)
        → w.buffers p ≡ some b
        → w.contexts b.ctx ≡ some c
        → Ensures (After (ForBuffer p) w) (write_open p count x y z b (record w { slock = true }))
    unfolding write_open dicedev_wt_add_task
    counted-Queued b c true (some words) true there known = rw known (
        ensured (
          inr (
            write_task p b.ctx words count,
            c,
            refl,
            ((b, there), (c, known)),
            (owned p b there refl, tt),
            known,
            refl,
          )))
    counted-Queued b c true (some words) false there known =
        rw
          (
            known,
            update_self w.contexts b.ctx (some (record c { task_count = u64 (c.task_count + 1) })),
          )
          faults
    counted-Queued b c true none z there known =
        rw
          (
            known,
            update_self w.contexts b.ctx (some (record c { task_count = u64 (c.task_count + 1) })),
          )
          faults
    counted-Queued b c false y z there known =
        rw
          (
            known,
            update_self w.contexts b.ctx (some (record c { task_count = u64 (c.task_count + 1) })),
          )
          faults

    open-Queued :
        (b : Buffer)
        → w.buffers p ≡ some b
        → Ensures
            (After (ForBuffer p) w)
            (write_open p count cmd_ok copied task_ok b (record w { slock = true }))
    unfolding write_open
    open-Queued b there = elim (Option-cases (w.contexts b.ctx)) [
      | inl gone ↦ rw gone faults
      | inr (c, known) ↦ counted-Queued b c cmd_ok copied task_ok there known
    ]

    locked-Queued : Ensures (After (ForBuffer p) w) (write_locked p count cmd_ok copied task_ok w)
    unfolding write_locked
    locked-Queued = elim (Option-cases (w.buffers p)) [
      | inl gone ↦ rw (unlocked, gone) faults
      | inr (b, there) ↦
          simp (unlocked, there)
            (either b.destroyed _ (write_open p count cmd_ok copied task_ok b) _
              (ensured (inl released)) (open-Queued b there))
    ]

    -- Whatever a write is given, if it returns, the state is as it was, or one task for the buffer
    -- and its context has been counted and queued behind the others. The lock is free.
    pub buffer_write-Queued :
        Ensures
          (λ _ w'. Queued (ForBuffer p) w w')
          (dicedev_buffer_write p count cmd_ok copied task_ok w)
    unfolding dicedev_buffer_write
    buffer_write-Queued =
        either (not (count % 4 == 0)) (pure (err Errno.einval))
          (write_locked p count cmd_ok copied task_ok) w (ensured (inl refl)) locked-Queued

module _ (ctx : ℕ) (task_ok : Bool) where
  module _ (w : World) (unlocked : w.slock ≡ false) where
    run_queue-Queued :
        (c d : ℕ) (r : RunCmd) (ok : Bool) (b : Buffer) (x : Context)
        → w.buffers d ≡ some b
        → Fits (holdings w) (job (run_task ctx c d r))
        → w.contexts ctx ≡ some x
        → Ensures (After (OfContext ctx) w) (run_queue ctx c d r ok w)
    unfolding run_queue dicedev_wt_add_task
    run_queue-Queued c d r true b x there fits known =
        rw (unlocked, known)
          (ensured (inr (run_task ctx c d r, x, refl, ((b, there), (x, known)), fits, known, refl)))
    run_queue-Queued c d r false b x there fits known = ensured (inl refl)

    run_checked-Queued :
        (c d : ℕ) (r : RunCmd) (b : Buffer)
        → w.buffers d ≡ some b
        → Fits (holdings w) (job (run_task ctx c d r))
        → Ensures (After (OfContext ctx) w) (run_checked ctx c d r task_ok w)
    unfolding run_checked
    run_checked-Queued c d r b there fits = elim (Option-cases (w.contexts ctx)) [
      | inl gone ↦ rw gone faults
      | inr (x, known) ↦ rw known (
          either x.failed (pure (err Errno.eio)) (run_queue ctx c d r task_ok) w
            (ensured (inl refl)) (run_queue-Queued c d r task_ok b x there fits known))
    ]

    run_buffers-Queued :
        (r : RunCmd) (c d : Option ℕ)
        → Ensures (After (OfContext ctx) w) (run_buffers ctx r task_ok c d w)
    unfolding run_buffers
    run_buffers-Queued r none d = ensured (inl refl)
    run_buffers-Queued r (some c) none = ensured (inl refl)
    run_buffers-Queued r (some c) (some d) = elim (Option-cases (w.buffers c)) [
      | inl gone ↦ rw gone faults
      | inr (cb, here) ↦ elim (Option-cases (w.buffers d)) [
        | inl gone ↦ rw (here, gone) faults
        | inr (db, there) ↦
            rw (here, there)
              (either (ltb cb.pt.max_size (u64 (r.addr + r.size))) (pure (err Errno.einval))
                (if not (cb.ctx == ctx && db.ctx == ctx)
                  then pure (err Errno.einval)
                  else run_checked ctx c d r task_ok)
                w (ensured (inl refl))
                (elim (Bool-cases (cb.ctx == ctx && db.ctx == ctx)) [
                  | inr strange ↦ rw strange (ensured (inl refl))
                  | inl own ↦ rw own (
                      run_checked-Queued c d r db there (
                        owned w unlocked d db there (ground arith),
                        owned w unlocked c cb here (ground arith),
                      ))
                ]))
      ]
    ]

  private_data-Ensures : (f : FdTarget) (w : World) → Ensures (λ _ v. v ≡ w) (private_data f w)
  private_data-Ensures FdTarget.no_file w = faults
  private_data-Ensures FdTarget.null_data w = ensured refl
  private_data-Ensures FdTarget.foreign w = faults
  private_data-Ensures (FdTarget.buffer_file p) w = ensured refl

  module _ (w : World) (unlocked : w.slock ≡ false) where
    run_fds-Queued : (r : RunCmd) → Ensures (After (OfContext ctx) w) (run_fds ctx r task_ok w)
    unfolding run_fds
    run_fds-Queued r = then_ensured (private_data-Ensures r.cfd w) λ c v same.
        then_ensured (private_data-Ensures r.bfd v) λ d u again.
          let here : u ≡ w = again ∙ same in
          from_same u w here
            (run_buffers-Queued u (ap (λ (z : World). z.slock) here ∙ unlocked) r c d)

    -- The same for DICEDEV_IOCTL_RUN, whatever its descriptors lead to.
    pub ioctl_run-Queued :
        (r : Option RunCmd)
        → Ensures (λ _ w'. Queued (OfContext ctx) w w') (dicedev_ioctl_run ctx r task_ok w)
    unfolding dicedev_ioctl_run
    ioctl_run-Queued none = ensured (inl refl)
    ioctl_run-Queued (some r) =
        either (not (r.addr % 4 == 0 && r.size % 4 == 0)) (pure (err Errno.einval))
          (run_fds ctx r task_ok) w (ensured (inl refl)) (run_fds-Queued r)
