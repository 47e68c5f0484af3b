-- ===== src/Buffer/Write.antt =====
-- dicedev_buffer_write of dicedev_buffer.c, on an aligned size.
use dicedev_linux_driver.Base.{
  ℕ, ◌+◌, ◌%◌, ◌≡◌, Bool, true, false, Option, none, some, List, [], ◌∷◌, ◌++◌, arith, update,
}
use dicedev_linux_driver.Dice.{u64}
use dicedev_linux_driver.Types.{World, Buffer, Context}
use dicedev_linux_driver.Monad.{Run, Fault, ok, fault}
use dicedev_linux_driver.Pt.{Errno, Ret, err}
use dicedev_linux_driver.Wt.Thread.{dicedev_wt_add_task}
use dicedev_linux_driver.Buffer.{write_task, dicedev_buffer_write}

module _ (p count : ℕ) (w : World) (b : Buffer) (c : Context) where
  -- The task is counted in its context and queued behind the others.
  abbrev pub queued : List ℕ → World
  queued words = record w {
    slock = false;
    contexts = update w.contexts b.ctx (some (record c { task_count = u64 (c.task_count + 1) }));
    pending_tasks = w.pending_tasks ++ write_task p b.ctx words count ∷ [];
  }

  abbrev pub live_outcome : Bool → Option (List ℕ) → Bool → Run (Ret ℕ)
  live_outcome true (some words) true = ok (Ret.ok count) (queued words)
  live_outcome _ _ _ = fault Fault.null_pointer

  abbrev pub write_outcome : Bool → Option (List ℕ) → Bool → Bool → Run (Ret ℕ)
  write_outcome cmd_ok copied task_ok true = ok (err Errno.eperm) (record w { slock = false })
  write_outcome cmd_ok copied task_ok false = live_outcome cmd_ok copied task_ok

  pub buffer_write-outcome :
      (cmd_ok : Bool) (copied : Option (List ℕ)) (task_ok : Bool)
      → count % 4 ≡ 0
      → w.slock ≡ false
      → w.buffers p ≡ some b
      → w.contexts b.ctx ≡ some c
      → dicedev_buffer_write p count cmd_ok copied task_ok w
        ≡ write_outcome cmd_ok copied task_ok b.destroyed
  unfolding dicedev_buffer_write dicedev_wt_add_task
  buffer_write-outcome false copied task_ok aligned unlocked exists known =
      ground (arith, unlocked, exists, known)
  buffer_write-outcome true none task_ok aligned unlocked exists known =
      ground (arith, unlocked, exists, known)
  buffer_write-outcome true (some words) false aligned unlocked exists known =
      ground (arith, unlocked, exists, known)
  buffer_write-outcome true (some words) true aligned unlocked exists known =
      ground (arith, unlocked, exists, known)
