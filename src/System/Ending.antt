-- ===== src/System/Ending.antt =====
-- The loop of dicedev_wt_fn in dicedev_wt.c when nobody brings it more to do.
use dicedev_linux_driver.Base.{ℕ, zero, suc, ◌<◌, ◌≡◌, refl, false, Option, arith}
use dicedev_linux_driver.Types.{World, Task}
use dicedev_linux_driver.Monad.{M, Run, Fault, ok, blocked, fault, and_then, ensured_at}
use dicedev_linux_driver.Monad.Safe.{Spared, Safe, goes_on, waits, stops}
use dicedev_linux_driver.Utils.{Hw, Responsive}
use dicedev_linux_driver.Wt.Thread.{wt_turn, wt_turns}
use dicedev_linux_driver.Wt.Thread.Turn.Progress.{work, wt_turn-Less}
use dicedev_linux_driver.System.Step.{Sound, Step}
use dicedev_linux_driver.System.Step.Kept.{Step-Sound}
use dicedev_linux_driver.System.Safety.{wt_turn-Safe}

-- It sleeps, or ends at a fault that is neither a use of a freed object, nor a lock that it holds,
-- nor a loop that runs out of rounds.
pub data Ended {A : Type 0} : Run A → Type 0 where
  asleep : Ended blocked
  stopped : {e : Fault} → Spared e → Ended (fault e)

then_Ended :
    {A B : Type 0} {k : A → M B} (r : Run A)
    → Safe r
    → ((a : A) (w : World) → r ≡ ok a w → Ended (k a w))
    → Ended (and_then r k)
then_Ended (ok a w) goes_on next = next a w refl
then_Ended blocked waits next = asleep
then_Ended (fault e) (stops s) next = stopped s

module _ (hw : Hw) (drains : Responsive hw) where
  -- The work thread, left alone, comes to rest. From a state with the invariant of the driver,
  -- the loop of dicedev_wt_fn, which nobody stops or parks and to which no interrupt and no call
  -- of a user comes, does not go on for more turns than there is work: five for each queued task,
  -- four for a taken one without a slot and three for one with a slot, and two for the one on the
  -- device. Within them it sleeps, stops at a BUG_ON, follows a null pointer, or reads behind the
  -- end of an array; it does not follow a pointer to a buffer or context that is gone, wait for a
  -- lock that it holds, or go round a loop for ever. The queue of the device drains.
  pub wt_turns-Ended :
      (n : ℕ) (next : Option Task) (w : World)
      → Sound next w
      → work next w < n
      → Ended (wt_turns hw n next w)
  unfolding wt_turns
  wt_turns-Ended zero next w s enough = absurd (omega (arith, enough))
  wt_turns-Ended (suc n) next w s enough =
      then_Ended (wt_turn hw false false next w)
        (wt_turn-Safe hw drains next w s.working s.owned false false)
        λ m v e.
          let less : work m v < work next w =
            ensured_at (λ m' v'. work m' v' < work next w) (wt_turn-Less hw drains next w s.working)
              e in
          let (s', moved) = Step-Sound hw drains next w m v s (Step.turn false false e) in
          wt_turns-Ended n m v s' (omega (arith, less, enough))
