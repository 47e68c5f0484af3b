-- ===== src/Chardev/RunIoctl.antt =====
-- dicedev_ioctl_run of dicedev_base.c, when both descriptors lead to buffers.
use dicedev_linux_driver.Base.{
  ℕ, ◌+◌, ◌%◌, ◌≡◌, Bool, true, false, ◌&&◌, some, [], ◌∷◌, ◌++◌, ◌==◌, leb, arith, update,
}
use dicedev_linux_driver.Dice.{u64}
use dicedev_linux_driver.Types.{World, Buffer, Context}
use dicedev_linux_driver.Monad.{Run, ok}
use dicedev_linux_driver.Pt.{Errno, Ret, err}
use dicedev_linux_driver.Wt.Thread.{dicedev_wt_add_task}
use dicedev_linux_driver.Chardev.{FdTarget, RunCmd, run_task, dicedev_ioctl_run}

-- The commands lie in whole words inside of the first buffer, and both buffers are the context's.
abbrev pub is_valid_run : ℕ → ℕ → ℕ → Buffer → Buffer → Bool
is_valid_run ctx addr size cb db =
    addr % 4 == 0
    && size % 4 == 0
    && leb (u64 (addr + size)) cb.pt.max_size
    && cb.ctx == ctx
    && db.ctx == ctx

abbrev pub run_cmd : ℕ → ℕ → ℕ → ℕ → RunCmd
run_cmd addr size c d = record {
  cfd = FdTarget.buffer_file c;
  addr = addr;
  size = size;
  bfd = FdTarget.buffer_file d;
}

module _ (ctx addr size c d : ℕ) (x : Context) (w : World) where
  abbrev pub run_queued : World
  run_queued = record w {
    slock = false;
    contexts = update w.contexts ctx (some (record x { task_count = u64 (x.task_count + 1) }));
    pending_tasks = w.pending_tasks ++ run_task ctx c d (run_cmd addr size c d) ∷ [];
  }

  abbrev pub run_outcome : Bool → Bool → Bool → Run (Ret (Unit {0}))
  run_outcome false failed task_ok = ok (err Errno.einval) w
  run_outcome true true task_ok = ok (err Errno.eio) w
  run_outcome true false false = ok (err Errno.enomem) w
  run_outcome true false true = ok (Ret.ok tt) run_queued

  -- With the lock free, both descriptors leading to buffers, and the context there: if address
  -- and size are multiples of 4, their sum is within the size of the first buffer and both
  -- buffers are the context's, the ioctl gives EIO in a failed context, ENOMEM if the allocation
  -- fails, and otherwise counts one run task and queues it behind the others. In all other cases
  -- it gives EINVAL, and what does not succeed changes nothing.
  pub ioctl_run-outcome :
      (task_ok : Bool) (cb db : Buffer)
      → w.slock ≡ false
      → w.buffers c ≡ some cb
      → w.buffers d ≡ some db
      → w.contexts ctx ≡ some x
      → dicedev_ioctl_run ctx (some (run_cmd addr size c d)) task_ok w
        ≡ run_outcome (is_valid_run ctx addr size cb db) x.failed task_ok
  unfolding dicedev_ioctl_run dicedev_wt_add_task
  ioctl_run-outcome task_ok cb db unlocked there to known =
      ground (arith, unlocked, there, to, known)
