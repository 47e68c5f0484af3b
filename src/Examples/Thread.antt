-- ===== src/Examples/Thread.antt =====
-- The theorems on the work thread and the slots at the device of the example.
use dicedev_linux_driver.Base.{◌≡◌, refl, arith, false, none, some, [], ◌∷◌, subst}
use dicedev_linux_driver.Types.{World, Task, FenceState}
use dicedev_linux_driver.Monad.{Fault, ok, fault, Returns}
use dicedev_linux_driver.Utils.{feed_cmd}
use dicedev_linux_driver.Utils.Feed.{fed, feed_cmd-fed}
use dicedev_linux_driver.Utils.Slots.{SlotsAgree, same-SlotsAgree}
use dicedev_linux_driver.Wt.Thread.{wt_get_event, wt_turn, task_destroy, on_finish, wt_exit}
use dicedev_linux_driver.Wt.Thread.Destroy.{Destroyed, task_destroy-Destroyed}
use dicedev_linux_driver.Wt.Thread.Events.{
  Justified, Finished, wt_get_event-Justified, on_finish-Finished,
}
use dicedev_linux_driver.Wt.Thread.Exit.{wt_exit-deadlock}
use dicedev_linux_driver.Wt.Exec.{wt_run_task}
use dicedev_linux_driver.Wt.Exec.Frame.{Ran}
use dicedev_linux_driver.Wt.Exec.Tasks.{write_task-plan}
use dicedev_linux_driver.Wt.Thread.Turn.{Working}
use dicedev_linux_driver.Wt.Thread.Turn.Sending.{waiting, Executed-Ran}
use dicedev_linux_driver.Wt.Thread.Turn.Whole.{Goes, wt_turn-Working}
use dicedev_linux_driver.Examples.Exec.{roll_plan, roll_body, roll_inside}
use dicedev_linux_driver.Examples.{
  ready_hw, ready_hw-Responsive, held, ctx, roll, world, world-SlotsAgree, world-Quiet,
}

-- The task of the second buffer, which has no slot.
abbrev waiting_roll : Task
waiting_roll = record roll { buff_out = 2 }

abbrev running_world : World
running_world = record world { running_task = some roll; fence_state = FenceState.reached }

running_world-SlotsAgree : SlotsAgree running_world
running_world-SlotsAgree = same-SlotsAgree world running_world world-SlotsAgree refl refl refl

feed_cmd-fed_example :
    feed_cmd ready_hw (4 ∷ 0 ∷ []) world
    ≡ ok tt (record world { writes = fed (4 ∷ 0 ∷ []) world.writes; feed_lock = false })
feed_cmd-fed_example = feed_cmd-fed ready_hw ready_hw-Responsive (4 ∷ 0 ∷ []) world refl

task_destroy-Destroyed_example :
    Returns (λ _ w'. Destroyed roll ctx held world w') (task_destroy ready_hw roll world)
task_destroy-Destroyed_example =
    task_destroy-Destroyed ready_hw ready_hw-Responsive roll ctx held world refl refl
      world-SlotsAgree refl refl

wt_get_event-Justified_example :
    Returns
      (λ e v. Justified false false world (some roll) e × (v ≡ world))
      (wt_get_event false false (some roll) world)
wt_get_event-Justified_example =
    wt_get_event-Justified world refl false false (some roll) (λ t e. (held, ground arith))

on_finish-Finished_example :
    Returns
      (λ n w'. (n ≡ none) × Finished roll ctx held running_world w' × (w'.failed ≡ false))
      (on_finish ready_hw none running_world)
on_finish-Finished_example =
    on_finish-Finished ready_hw ready_hw-Responsive roll ctx held running_world none
      (record { unlocked = refl; idle = refl; slots = running_world-SlotsAgree }) refl refl refl
      refl

wt_exit-deadlock_example : wt_exit ready_hw running_world ≡ fault Fault.deadlock
wt_exit-deadlock_example = wt_exit-deadlock ready_hw running_world [] (some roll) refl refl refl

-- The first task has been taken, and the thread is about to send it.
world-Working : Working (some roll) world
world-Working = record {
  quiet = world-Quiet;
  clear = refl;
  queued = tt;
  ahead = ((held, refl), (ctx, refl));
  sent = tt;
  fenced = λ busy. absurd (busy refl);
  idle = λ e. refl;
}

roll-Ran : Returns (λ _ v. Ran roll (waiting world) v) (wt_run_task ready_hw roll (waiting world))
roll-Ran =
    Executed-Ran ready_hw ready_hw-Responsive roll (waiting world) refl roll_plan ctx
      roll_plan.verdict roll_inside
      (write_task-plan ready_hw roll ctx (waiting world) refl ready_hw-Responsive held 0 refl refl
        refl roll_body refl refl)

wt_turn-Working_example : Goes (wt_turn ready_hw false false (some roll) world)
wt_turn-Working_example =
    wt_turn-Working ready_hw ready_hw-Responsive (some roll) world world-Working
      (λ t b s same there fence bound.
        let this : roll ≡ t = cc in
        subst
          (λ u. Returns (λ _ v. Ran u (waiting world) v) (wt_run_task ready_hw u (waiting world)))
          this roll-Ran)
      false false
