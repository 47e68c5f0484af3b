-- ===== src/System/Step.antt =====
-- One call by the thread of dicedev_wt.c, the device or a user, and the invariant that all of them
-- keep.
pub mod Kept
use dicedev_linux_driver.Base.{
  ℕ, ◌<◌, ◌^◌, ◌≡◌, refl, ◌≢◌, ◌∙◌, sym, ap, subst, Bool, Option, some, none, inl, inr, List, [],
  ◌∷◌, ◌++◌,
}
use mathlib.Core.Option
use dicedev_linux_driver.Types.{World, Buffer, Task}
use dicedev_linux_driver.Holdings.{
  Job, Holdings, job, holdings, holdings_eq, buffer_list, view_kept, Steady,
}
use dicedev_linux_driver.Holdings.Passes.{Fits, Pass}
use dicedev_linux_driver.Monad.{get_file, fput, Run, ok, Ensures, ensured_at, weaker_ensured}
use dicedev_linux_driver.Pt.{Ret}
use dicedev_linux_driver.Utils.{Hw, Responsive}
use dicedev_linux_driver.Wt.Thread.{wt_turn}
use dicedev_linux_driver.Wt.Thread.Turn.{Working}
use dicedev_linux_driver.Wt.Thread.Turn.Whole.{wt_turn-Ensures}
use dicedev_linux_driver.Buffer.{
  Dice, dicedev_buffer_write, dicedev_buffer_read, dicedev_buffer_ioctl, dicedev_buffer_release,
}
use dicedev_linux_driver.Chardev.{dicedev_isr, dicedev_open, release_mark, release_rest}
use dicedev_linux_driver.Chardev.Dispatch.{IoctlArg, dicedev_ioctl}
use dicedev_linux_driver.System.Waiting.{unfinished}
use dicedev_linux_driver.System.Release.Rest.{AllMarked}
use dicedev_linux_driver.System.Release.Rest.{release_rest-Ends}
use dicedev_linux_driver.System.Ioctls.{Called, ioctl-Called, open-Opened}
use dicedev_linux_driver.System.Queue.{Move, Moves, Counted, waits, order_kept}
use dicedev_linux_driver.System.Queue.Counts.{Move-Counted}
use dicedev_linux_driver.System.{
  Aside, Passed, Passes, Aside-Passed, Passed-Passes, Queued, Beside-Working, Beside-Into,
  Queued-Working, Queued-Into, Into, Into-to, Moved, line, enqueued,
}
use dicedev_linux_driver.System.Sides.{isr-Aside}
use dicedev_linux_driver.System.Files.{buffer_read-Aside, buffer_ioctl-Aside}
use dicedev_linux_driver.System.Arrivals.{buffer_write-Queued}
use dicedev_linux_driver.System.Turns.{wt_turn-Turned}
use dicedev_linux_driver.System.Owners.{All, Owned, Owned-kept}
use dicedev_linux_driver.System.Closing.{Users, get_file-Passed, fput-Passed, buffer_release-Ends}

-- The invariant: the thread's, the counts of the contexts, and the owners of the buffers.
pub record Sound (n : Option Task) (w : World) : Type 0 where
  pub working : Working n w
  pub counted : Counted (line n w)
  pub owned : Owned n w

-- One call that returns, by the thread, the device or a user. The first and the third argument are
-- the task that the thread has taken.
pub data Step (hw : Hw) : Option Task → World → Option Task → World → Type 0 where
  turn :
      {n n' : Option Task} {w w' : World} (should_stop should_park : Bool)
      → wt_turn hw should_stop should_park n w ≡ ok n' w'
      → Step hw n w n' w'
  interrupt :
      {n : Option Task} {w w' : World} (b : Bool) → dicedev_isr hw w ≡ ok b w' → Step hw n w n w'
  -- A user, through a mapping, or the device stores in pages, whatever it is.
  store :
      {n : Option Task} {w w' : World} (mem : ℕ → ℕ → ℕ)
      → w' ≡ record w { dma = record w.dma { mem = mem } }
      → Step hw n w n w'
  write :
      {n : Option Task} {w w' : World} (p count : ℕ) (cmd_ok : Bool) (copied : Option (List ℕ))
      (task_ok : Bool) (r : Ret ℕ)
      → dicedev_buffer_write p count cmd_ok copied task_ok w ≡ ok r w'
      → Step hw n w n w'
  read :
      {n : Option Task} {w w' : World} (p count : ℕ) (copy_ok : Bool) (r : Ret (Option Dice))
      → dicedev_buffer_read p count copy_ok w ≡ ok r w'
      → Step hw n w n w'
  seed :
      {n : Option Task} {w w' : World} (p cmd : ℕ) (copied : Option ℕ) (r : Ret (Unit {0}))
      → dicedev_buffer_ioctl p cmd copied w ≡ ok r w'
      → Step hw n w n w'
  -- The address of a buffer that comes in is not in use,
  ioctl :
      {n : Option Task} {w w' : World} (ctx cmd : ℕ) (a : IoctlArg) (r : Ret ℕ)
      → ((p : ℕ) → a.new_set.buff ≡ some p → w.buffers p ≡ none)
      → dicedev_ioctl hw ctx cmd a w ≡ ok r w'
      → Step hw n w n w'
  -- nor that of a context, to which no buffer points either.
  open_ctx :
      {n : Option Task} {w w' : World} (x : Option ℕ) (r : Ret ℕ)
      → ((y : ℕ) → x ≡ some y → w.contexts y ≡ none)
      → ((y : ℕ) → x ≡ some y → (q : ℕ) (b : Buffer) → w.buffers q ≡ some b → b.ctx ≢ y)
      → dicedev_open x w ≡ ok r w'
      → Step hw n w n w'
  -- The two parts of dicedev_release.
  mark :
      {n : Option Task} {w w' : World} (ctx : ℕ) (u : Unit {0})
      → release_mark ctx w ≡ ok u w'
      → Step hw n w n w'
  close :
      {n : Option Task} {w w' : World} (ctx : ℕ) (u : Unit {0})
      → unfinished n w ctx < 2 ^ 64
      → AllMarked w ctx
      → release_rest hw ctx w ≡ ok u w'
      → Step hw n w n w'
  -- A user who has a reference to the file of a buffer shares it or gives it back.
  share :
      {n : Option Task} {w w' : World} (p : ℕ) (u : Unit {0})
      → Users w p
      → get_file p w ≡ ok u w'
      → Step hw n w n w'
  put :
      {n : Option Task} {w w' : World} (p : ℕ) (u : Unit {0})
      → Users w p
      → fput p w ≡ ok u w'
      → Step hw n w n w'
  -- No reference is left.
  last_close :
      {n : Option Task} {w w' : World} (p : ℕ) (u : Unit {0})
      → ((b : Buffer) → w.buffers p ≡ some b → b.file_refs ≡ 0)
      → dicedev_buffer_release hw p w ≡ ok u w'
      → Step hw n w n w'

-- The jobs that a call can bring in: a write those for its buffer, an ioctl those of its context,
-- and no other call any.
abbrev pub Brings :
    {hw : Hw} {n n' : Option Task} {w w' : World} → Step hw n w n' w' → List Job → Type 0
Brings (Step.write p count cmd_ok copied task_ok r e) i = All (λ j. j.buff_out ≡ p) i
Brings (Step.ioctl ctx cmd a r fresh e) i = All (λ j. j.ctx ≡ ctx) i
Brings (Step.turn stop park e) i = i ≡ []
Brings (Step.interrupt b e) i = i ≡ []
Brings (Step.store mem e) i = i ≡ []
Brings (Step.read p count copy_ok r e) i = i ≡ []
Brings (Step.seed p cmd copied r e) i = i ≡ []
Brings (Step.open_ctx x r fresh unused e) i = i ≡ []
Brings (Step.mark ctx u e) i = i ≡ []
Brings (Step.close ctx u few done e) i = i ≡ []
Brings (Step.share p u users e) i = i ≡ []
Brings (Step.put p u users e) i = i ≡ []
Brings (Step.last_close p u unused e) i = i ≡ []
