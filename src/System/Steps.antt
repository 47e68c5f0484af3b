-- ===== src/System/Steps.antt =====
-- The thread of dicedev_wt.c, the interrupt handler of dicedev_base.c and the calls of users, in any
-- order.
use dicedev_linux_driver.Base.{Option, List, [], ◌++◌}
use dicedev_linux_driver.Types.{World, Task}
use dicedev_linux_driver.Holdings.{Job}
use dicedev_linux_driver.Utils.{Hw, Responsive}
use dicedev_linux_driver.Wt.Thread.Turn.{Working}
use dicedev_linux_driver.System.Queue.{Move, Moves, Counted}
use dicedev_linux_driver.System.{line}
use dicedev_linux_driver.System.Owners.{Owned}
use dicedev_linux_driver.System.Step.{Sound, Step, Brings}
use dicedev_linux_driver.System.Step.Kept.{Step-Sound}

pub data Steps (hw : Hw) : Option Task → World → Option Task → World → Type 0 where
  start : {n : Option Task} {w : World} → Steps hw n w n w
  then_step :
      {n m n' : Option Task} {w v w' : World}
      → Steps hw n w m v
      → Step hw m v n' w'
      → Steps hw n w n' w'

-- Each call of a sequence is one move of the line, in which only jobs come in that the call can
-- bring. The lists are the jobs that come in and those that leave, in order.
pub data Paced (hw : Hw)
    : (n : Option Task) (w : World) (n' : Option Task) (w' : World)
      → Steps hw n w n' w'
      → List Job
      → List Job
      → Type 0 where
  start : {n : Option Task} {w : World} → Paced hw n w n w Steps.start [] []
  then_step :
      {n m n' : Option Task} {w v w' : World} {before : Steps hw n w m v} {step : Step hw m v n' w'}
      {i o i' o' : List Job}
      → Paced hw n w m v before i o
      → Brings step i'
      → Move (line m v) i' o' (line n' w')
      → Paced hw n w n' w' (Steps.then_step before step) (i ++ i') (o ++ o')

module _ (hw : Hw) (drains : Responsive hw) where
  abbrev Reaches : {n n' : Option Task} {w w' : World} → Steps hw n w n' w' → Type 0
  Reaches {n = n} {n' = n'} {w = w} {w' = w'} steps =
      Sound n' w'
      × ((came : List Job) × (left : List Job) × Paced hw n w n' w' steps came left
          × Moves (line n w) came left (line n' w'))

  Steps-Reaches :
      (n : Option Task) (w : World) (n' : Option Task) (w' : World)
      → Sound n w
      → (steps : Steps hw n w n' w') → Reaches steps
  Steps-Reaches n w n' w' s start = (s, ([], [], Paced.start, Moves.none_yet))
  Steps-Reaches n w n' w' s (then_step {m = m} {v = v} before step) =
      let (sv, (i, o, paced, so_far)) = Steps-Reaches n w m v s before in
      let (s', (i', o', brings, last)) = Step-Sound hw drains m v n' w' sv step in
      (s', (i ++ i', o ++ o', Paced.then_step paced brings last, Moves.then_move so_far last))

  pub Steps-Sound :
      (n : Option Task) (w : World) (n' : Option Task) (w' : World)
      → Sound n w
      → Steps hw n w n' w'
      → Sound n' w'
  Steps-Sound n w n' w' s steps = (Steps-Reaches n w n' w' s steps).0

  -- From a state with the invariant of the driver: that of the thread, every context counts its
  -- tasks, and buffers are held by the contexts that own them. After any sequence, in any order,
  -- of turns of the thread, interrupts, and of opens, ioctls, writes, reads and closes of a
  -- context by users that return, whatever they are given, and of references to the files of
  -- buffers that are shared and given back, and last closes of buffers: the locks are free, the
  -- slots agree, the failure flag of the device is clear, the buffers and contexts of all queued,
  -- taken and running tasks exist, and a task runs exactly if the fence state is not none. The
  -- queue of the device drains; new contexts and buffers get addresses that are not in use, that
  -- of a context also not as the context of a buffer; a context that is closed has fewer than 2 ^
  -- 64 tasks, and all its buffers have been marked as destroyed; a user who shares or gives back
  -- a reference to a file has one beside the context's own, and fewer than 2 ^ 64 - 1 are
  -- counted; and the last close comes when none is left.
  pub Steps-Working :
      (n : Option Task) (w : World) (n' : Option Task) (w' : World)
      → Sound n w
      → Steps hw n w n' w'
      → Working n' w'
  Steps-Working n w n' w' s steps = (Steps-Reaches n w n' w' s steps).0.working

  -- If the invariant of the driver holds, every context counts its queued, taken and running
  -- tasks, modulo 2 ^ 64, after any sequence, in any order, of turns, interrupts and calls of
  -- users that return. The queue of the device drains; new contexts and buffers get addresses
  -- that are not in use, that of a context also not as the context of a buffer; a context that is
  -- closed has fewer than 2 ^ 64 tasks, and all its buffers have been marked as destroyed; a user
  -- who shares or gives back a reference to a file has one beside the context's own, and fewer
  -- than 2 ^ 64 - 1 are counted; and the last close comes when none is left.
  pub Steps-Counted :
      (n : Option Task) (w : World) (n' : Option Task) (w' : World)
      → Sound n w
      → Steps hw n w n' w'
      → Counted (line n' w')
  Steps-Counted n w n' w' s steps = (Steps-Reaches n w n' w' s steps).0.counted

  -- No close frees what a task uses. From a state with the invariant of the driver, after any
  -- sequence, in any order, of turns, interrupts and calls of users that return: the buffer of
  -- the results of every task that is queued, taken or running, and the buffer of its commands,
  -- if they are in one, exist and belong to the task's context; a buffer in the list of a context
  -- exists, is the context's and has a reference to its file; a buffer of a context that is there
  -- is in its list; and the context of a buffer that is not marked as destroyed is there. The
  -- queue of the device drains; new contexts and buffers get addresses that are not in use, that
  -- of a context also not as the context of a buffer; a context that is closed has fewer than 2 ^
  -- 64 tasks, and all its buffers have been marked as destroyed; a user who shares or gives back
  -- a reference to a file has one beside the context's own, and fewer than 2 ^ 64 - 1 are
  -- counted; and the last close comes when none is left.
  pub Steps-Owned :
      (n : Option Task) (w : World) (n' : Option Task) (w' : World)
      → Sound n w
      → Steps hw n w n' w'
      → Owned n' w'
  Steps-Owned n w n' w' s steps = (Steps-Reaches n w n' w' s steps).0.owned
