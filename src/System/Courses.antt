-- ===== src/System/Courses.antt =====
-- All that can happen to the driver, the opens of dicedev_base.c included at which a context gets the
-- address that a buffer keeps as that of its own context, which is gone.
use dicedev_linux_driver.Base.{ℕ, ◌≡◌, ◌⊎◌, inl, inr, Option, some, none}
use dicedev_linux_driver.Types.{World, Buffer, Task}
use dicedev_linux_driver.Monad.{Run, ok}
use dicedev_linux_driver.Monad.Safe.{Safe}
use dicedev_linux_driver.Pt.{Ret}
use dicedev_linux_driver.Utils.{Hw, Responsive}
use dicedev_linux_driver.Wt.Thread.Turn.{Working}
use dicedev_linux_driver.Chardev.{dicedev_open}
use dicedev_linux_driver.System.Owners.{Owned}
use dicedev_linux_driver.System.Step.{Sound, Step}
use dicedev_linux_driver.System.Steps.{Steps, Steps-Working, Steps-Owned}
use dicedev_linux_driver.System.Safety.Calls.{Call, Steps-Safe}

-- Every open is one of System.Step or, if there is a buffer that keeps the address, `reopen`.
pub data Course (hw : Hw) : Option Task → World → Option Task → World → Type 0 where
  start : {n : Option Task} {w : World} → Course hw n w n w
  then_step :
      {n m n' : Option Task} {w v w' : World}
      → Course hw n w m v
      → Step hw m v n' w'
      → Course hw n w n' w'
  -- An open, at an address that is free, and that the buffer at `p` keeps.
  reopen :
      {n m : Option Task} {w v w' : World} (x p : ℕ) (b : Buffer) (r : Ret ℕ)
      → Course hw n w m v
      → v.contexts x ≡ none
      → v.buffers p ≡ some b
      → b.ctx ≡ x
      → dicedev_open (some x) v ≡ ok r w'
      → Course hw n w m w'

-- There is such an open in it.
abbrev pub Reopens : {hw : Hw} {n n' : Option Task} {w w' : World} → Course hw n w n' w' → Type 0
Reopens Course.start = ⊥
Reopens (Course.then_step before step) = Reopens before
Reopens (Course.reopen x p b r before free kept mine e) = Unit {0}

module _ (hw : Hw) where
  Course-Steps :
      (n : Option Task) (w : World) (n' : Option Task) (w' : World) (c : Course hw n w n' w')
      → Reopens c ⊎ Steps hw n w n' w'
  Course-Steps n w n' w' Course.start = inr Steps.start
  Course-Steps n w n' w' (Course.then_step {m = m} {v = v} before step) =
      elim (Course-Steps n w m v before) [
        | inl again ↦ inl again
        | inr steps ↦ inr (Steps.then_step steps step)
      ]
  Course-Steps n w n' w' (Course.reopen x p b r before free kept mine e) = inl tt

module _ (hw : Hw) (drains : Responsive hw) (n : Option Task) (w : World) (n' : Option Task)
    (w' : World) (s : Sound n w) (c : Course hw n w n' w') where
  by_steps : {P : Type 0} → (Steps hw n w n' w' → P) → Reopens c ⊎ P
  by_steps f = elim (Course-Steps hw n w n' w' c) [
    | inl again ↦ inl again
    | inr steps ↦ inr (f steps)
  ]

  -- From a state with the invariant of the driver: that of the thread, every context counts its
  -- tasks, and buffers are held by the contexts that own them. After any sequence, in any order,
  -- of turns of the thread, interrupts, stores in pages by users and the device, and of opens,
  -- ioctls, writes, reads and closes of a context by users that return, whatever they are given,
  -- and of references to the files of buffers that are shared and given back, and last closes of
  -- buffers: the locks are free, the slots agree, the failure flag of the device is clear, the
  -- buffers and contexts of all queued, taken and running tasks exist, and a task runs exactly if
  -- the fence state is not none. The one exception is a sequence in which an open gives a context
  -- the address that a buffer keeps as that of its own context, which is gone. The queue of the
  -- device drains; new contexts and buffers get addresses that are not in use; a context that is
  -- closed has fewer than 2 ^ 64 tasks, and all its buffers have been marked as destroyed; a user
  -- who shares or gives back a reference to a file has one beside the context's own, and fewer
  -- than 2 ^ 64 - 1 are counted; and the last close comes when none is left.
  pub Course-Working : Reopens c ⊎ Working n' w'
  Course-Working = by_steps (Steps-Working hw drains n w n' w' s)

  -- Unless a context gets the address that a buffer keeps as that of its own one, no close frees
  -- what a task uses. From a state with the invariant of the driver, after any sequence, in any
  -- order, of turns, interrupts and calls of users that return: the buffer of the results of
  -- every task that is queued, taken or running, and the buffer of its commands, if they are in
  -- one, exist and belong to the task's context; a buffer in the list of a context exists, is the
  -- context's and has a reference to its file; a buffer of a context that is there is in its
  -- list; and the context of a buffer that is not marked as destroyed is there. The one exception
  -- is a sequence in which an open gives a context the address that a buffer keeps as that of its
  -- own context, which is gone. The queue of the device drains; new contexts and buffers get
  -- addresses that are not in use; a context that is closed has fewer than 2 ^ 64 tasks, and all
  -- its buffers have been marked as destroyed; a user who shares or gives back a reference to a
  -- file has one beside the context's own, and fewer than 2 ^ 64 - 1 are counted; and the last
  -- close comes when none is left.
  pub Course-Owned : Reopens c ⊎ Owned n' w'
  Course-Owned = by_steps (Steps-Owned hw drains n w n' w' s)

  -- Unless a context gets the address that a buffer keeps as that of its own one, no call follows
  -- a pointer to a buffer or context that is gone, waits for a lock that it holds, or goes round
  -- a loop for ever. In a state that such a sequence reaches from one with the invariant of the
  -- driver: a turn of the thread, an interrupt, a write, read, ioctl, page fault or last close of
  -- a buffer that is there, an ioctl of a context that is there, whose descriptors may lead to
  -- files of buffers that are there, to others and to none, and either part of the release of a
  -- context that is there, each as a whole, follow no such pointer, take no lock that they hold,
  -- and do not run out of the rounds of a loop. They return, sleep, stop at a BUG_ON, follow a
  -- null pointer, or leave an array. A buffer that an ioctl creates gets an address that is not
  -- in use. The one exception is a sequence in which an open gives a context the address that a
  -- buffer keeps as that of its own context, which is gone. The queue of the device drains; new
  -- contexts and buffers get addresses that are not in use; a context that is closed has fewer
  -- than 2 ^ 64 tasks, and all its buffers have been marked as destroyed; a user who shares or
  -- gives back a reference to a file has one beside the context's own, and fewer than 2 ^ 64 - 1
  -- are counted; and the last close comes when none is left.
  pub Course-Safe : {A : Type 0} {r : Run A} → Call hw n' w' A r → Reopens c ⊎ Safe r
  Course-Safe {r = r} call =
      by_steps {P = Safe r} (λ steps. Steps-Safe hw drains n w n' w' s steps call)
