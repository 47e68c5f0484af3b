-- ===== src/Wt/Thread/Exit.antt =====
-- The end of dicedev_wt_fn in dicedev_wt.c.
use dicedev_linux_driver.Base.{
  ◌≡◌, Bool, true, false, Option, none, some, List, [], ◌∷◌, if◌then◌else◌,
}
use dicedev_linux_driver.Types.{World, Task}
use dicedev_linux_driver.Monad.{Fault, ok, fault}
use dicedev_linux_driver.Utils.{Hw}
use dicedev_linux_driver.Wt.Thread.{task_destroy, wt_exit}

abbrev pub is_idle : List Task → Option Task → Bool
is_idle [] none = true
is_idle [] (some t) = false
is_idle (t ∷ ts) r = false

module _ (hw : Hw) where
  -- With the lock free, the end of dicedev_wt_fn returns if no task is queued and none runs;
  -- otherwise it stops at the lock that it holds itself.
  pub wt_exit-deadlock :
      (w : World) (pending : List Task) (running : Option Task)
      → w.slock ≡ false
      → w.pending_tasks ≡ pending
      → w.running_task ≡ running
      → wt_exit hw w ≡ (
          if is_idle pending running
          then ok tt (record w { slock = false })
          else fault Fault.deadlock)
  unfolding wt_exit task_destroy
  wt_exit-deadlock w [] none free p r = rw (free, p, r)
  wt_exit-deadlock w [] (some t) free p r = rw (free, p, r)
  wt_exit-deadlock w (t ∷ ts) running free p r = rw (free, p)
