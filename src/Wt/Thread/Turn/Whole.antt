-- ===== src/Wt/Thread/Turn/Whole.antt =====
-- One turn of the loop of dicedev_wt_fn in dicedev_wt.c, whatever event it takes.
use dicedev_linux_driver.Base.{ℕ, ◌≡◌, refl, ◌⊎◌, sym, inl, inr, Bool, Option, some, subst}
use dicedev_linux_driver.Types.{World, Buffer, FenceState, Task}
use dicedev_linux_driver.Monad.{
  Run, blocked, and_then, Returns, returns, Ensures, ensured, sleeps, then_ensured, Returns-Ensures,
}
use dicedev_linux_driver.Utils.{Hw, Responsive}
use dicedev_linux_driver.Wt.Exec.{wt_run_task}
use dicedev_linux_driver.Wt.Exec.Frame.{Ran}
use dicedev_linux_driver.Wt.Thread.{WtEvent, on_get_next, on_bind_slot, on_run, handle, wt_turn}
use dicedev_linux_driver.Wt.Thread.Events.{Justified, wt_get_event-Justified}
use dicedev_linux_driver.Wt.Thread.Turn.{MaybeLives, Working}
use dicedev_linux_driver.Wt.Thread.Turn.Handlers.{
  on_get_next-Working, on_bind_slot-Working, on_finish-Working,
}
use dicedev_linux_driver.Wt.Thread.Turn.Sending.{waiting, on_run-Working, on_run-Ensures}

-- A turn sleeps, or returns with the invariant.
abbrev pub Goes : Run (Option Task) → Type 0
Goes r = (r ≡ blocked) ⊎ Returns Working r

-- Turns that return, whatever the words of the tasks are.
module _ (hw : Hw) (drains : Responsive hw) (next : Option Task) (w : World)
    (g : Working next w) where
  handle-Ensures :
      (stopped parked : Bool) (e : WtEvent)
      → Justified stopped parked w next e
      → Ensures Working (handle hw e next w)
  unfolding handle
  handle-Ensures stopped parked WtEvent.stop j = ensured g
  handle-Ensures stopped parked WtEvent.park j = ensured g
  handle-Ensures stopped parked WtEvent.no_event j = sleeps
  handle-Ensures stopped parked WtEvent.task_finish j =
      Returns-Ensures (on_finish-Working hw drains w next g j)
  handle-Ensures stopped parked WtEvent.task_get_next (same, busy, some_task) =
      subst (λ n. Working n w → Ensures Working (on_get_next hw n w)) (sym same)
        (λ g'. Returns-Ensures (on_get_next-Working hw drains w g' some_task)) g
  handle-Ensures stopped parked WtEvent.task_bind_slot (t, b, same, there, fence, unheld, free) =
      subst (λ n. Working n w → Ensures Working (on_bind_slot hw n w)) (sym same)
        (λ g'. Returns-Ensures (on_bind_slot-Working hw drains t b w g' there unheld free)) g
  handle-Ensures stopped parked WtEvent.task_run (t, b, s, same, there, fence, bound) =
      subst (λ n. Working n w → Ensures Working (on_run hw n w)) (sym same)
        (λ g'. on_run-Ensures hw drains t w g') g

  pub wt_turn-Ensures :
      (should_stop should_park : Bool) → Ensures Working (wt_turn hw should_stop should_park next w)
  unfolding wt_turn
  wt_turn-Ensures should_stop should_park =
      then_ensured
        (Returns-Ensures (
          wt_get_event-Justified w g.quiet.unlocked should_stop should_park next
            (λ t same. (subst (λ n. MaybeLives w n) same g.ahead).0)))
        λ e v j. rw (j.1) (handle-Ensures should_stop should_park e j.0)

module _ (hw : Hw) (drains : Responsive hw) (next : Option Task) (w : World) (g : Working next w)
    (runs : (t : Task) (b : Buffer) (s : ℕ)
      → next ≡ some t
      → w.buffers t.buff_out ≡ some b
      → w.fence_state ≡ FenceState.none
      → b.binded_slot ≡ some s
      → Returns (λ _ v. Ran t (waiting w) v) (wt_run_task hw t (waiting w))) where
  handle-Goes :
      (stopped parked : Bool) (e : WtEvent)
      → Justified stopped parked w next e
      → Goes (handle hw e next w)
  unfolding handle
  handle-Goes stopped parked WtEvent.stop j = inr (returns g)
  handle-Goes stopped parked WtEvent.park j = inr (returns g)
  handle-Goes stopped parked WtEvent.no_event j = inl refl
  handle-Goes stopped parked WtEvent.task_finish j = inr (on_finish-Working hw drains w next g j)
  handle-Goes stopped parked WtEvent.task_get_next (same, busy, some_task) = inr (
      subst (λ n. Working n w → Returns Working (on_get_next hw n w)) (sym same)
        (λ g'. on_get_next-Working hw drains w g' some_task) g)
  handle-Goes stopped parked WtEvent.task_bind_slot (t, b, same, there, fence, unheld, free) = inr (
      subst (λ n. Working n w → Returns Working (on_bind_slot hw n w)) (sym same)
        (λ g'. on_bind_slot-Working hw drains t b w g' there unheld free) g)
  handle-Goes stopped parked WtEvent.task_run (t, b, s, same, there, fence, bound) = inr (
      subst (λ n. Working n w → Returns Working (on_run hw n w)) (sym same)
        (λ g'. on_run-Working hw drains t w g' (runs t b s same there fence bound)) g)

  chosen-Goes :
      (stopped parked : Bool) {r : Run WtEvent}
      → Returns (λ e v. Justified stopped parked w next e × (v ≡ w)) r
      → Goes (and_then r (λ e. handle hw e next))
  chosen-Goes stopped parked (returns (j, same)) = rw same (handle-Goes stopped parked _ j)

  -- One turn of the loop of dicedev_wt_fn keeps the invariant of the thread: the locks are free,
  -- the slots agree, the failure flag of the device is clear, the buffers and contexts of all
  -- queued, taken and running tasks exist, and a task runs exactly if the fence state is not
  -- none. From such a state, whatever event it takes, the turn sleeps, or returns to such a state
  -- without a fault; the queue drains, and the taken task, if it is to be sent, returns from
  -- __wt_run_task as the running one, with the locks, the fence state, the slots, the queue and
  -- the buffers as they were and the contexts too, except that its own may have failed.
  pub wt_turn-Working :
      (should_stop should_park : Bool) → Goes (wt_turn hw should_stop should_park next w)
  unfolding wt_turn
  wt_turn-Working should_stop should_park = chosen-Goes should_stop should_park (
      wt_get_event-Justified w g.quiet.unlocked should_stop should_park next
        (λ t same. (subst (λ n. MaybeLives w n) same g.ahead).0))
