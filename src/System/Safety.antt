-- ===== src/System/Safety.antt =====
-- Turns of the thread of dicedev_wt.c, and the interrupt handler and the release of a context of
-- dicedev_base.c: what they follow is there, and no lock is taken twice.
pub mod Files
pub mod Ioctls
pub mod Release
pub mod Calls
use dicedev_linux_driver.Base.{
  ℕ, ◌≡◌, ◌∙◌, sym, subst, inl, inr, Bool, true, false, Option, none, some, [], ◌∷◌, if◌then◌else◌,
  Option-cases,
}
use dicedev_linux_driver.Dice.{u32, fence_header, cmd_fence_wait}
use dicedev_linux_driver.Types.{World, Task}
use dicedev_linux_driver.Holdings.{file, holdings, seen, command_buffer}
use dicedev_linux_driver.Holdings.Passes.{Fits, MaybeBelongs}
use dicedev_linux_driver.Monad.{Fault, ok, fault}
use dicedev_linux_driver.Monad.Safe.{
  Safe, goes_on, waits, stops, Returns-Safe, then_Safe, returned_Safe,
}
use dicedev_linux_driver.Utils.{Hw, Responsive, dicedev_iow}
use dicedev_linux_driver.Utils.Feed.{feed_cmd-fed}
use dicedev_linux_driver.Wt.Exec.Present.{Present, wt_run_task-Safe}
use dicedev_linux_driver.Wt.Exec.Frame.{wt_run_task-Ran}
use dicedev_linux_driver.Wt.Thread.{
  WtEvent, task_fence_val, handle, on_run, on_bind_slot, on_get_next, wt_turn,
}
use dicedev_linux_driver.Wt.Thread.Events.{Justified, wt_get_event-Justified}
use dicedev_linux_driver.Wt.Thread.Turn.{Lives, MaybeLives, Working}
use dicedev_linux_driver.Wt.Thread.Turn.Handlers.{
  on_get_next-Working, on_bind_slot-Working, on_finish-Working,
}
use dicedev_linux_driver.Wt.Thread.Turn.Sending.{waiting}
use dicedev_linux_driver.Chardev.{dicedev_isr}
use dicedev_linux_driver.Chardev.Irq.{isr-handled}
use dicedev_linux_driver.System.{line}
use dicedev_linux_driver.System.Sides.{isr-idle}
use dicedev_linux_driver.System.Owners.{Owned, flight-Parts}

Belongs-Present : (w : World) (x : ℕ) (o : Option ℕ) → MaybeBelongs (holdings w) x o → Present o w
Belongs-Present w x none h = tt
Belongs-Present w x (some p) (f, is, mine) =
    let (b, there, same) = seen file (w.buffers p) f is in (b, there)

module _ (hw : Hw) (drains : Responsive hw) where
  on_run-Safe :
      (t : Task) (w : World) → Working (some t) w → Owned (some t) w → Safe (on_run hw (some t) w)
  unfolding on_run dicedev_iow
  on_run-Safe t w g own =
      let (running, taken, queue) = flight-Parts (Fits (holdings w)) (line (some t) w) own.fits in
      let ((b, there), (c, known)) = g.ahead in
      then_Safe
        (wt_run_task-Safe hw drains t (waiting w) b c g.quiet.idle there
          (Belongs-Present (waiting w) t.ctx (command_buffer t.body) (taken.0.1)) known)
        (wt_run_task-Ran hw drains t (waiting w) g.quiet.idle)
        λ u v r.
          let open_lock : v.slock ≡ false = r.lock ∙ g.quiet.unlocked in
          rw
            (
              open_lock,
              feed_cmd-fed hw drains (u32 (fence_header task_fence_val) ∷ [])
                  (record v { slock = true; writes = (cmd_fence_wait, task_fence_val) ∷ v.writes })
                  r.idle,
            )
            goes_on

  module _ (next : Option Task) (w : World) (g : Working next w) (own : Owned next w) where
    handle-Safe :
        (stopped parked : Bool) (e : WtEvent)
        → Justified stopped parked w next e
        → Safe (handle hw e next w)
    unfolding handle
    handle-Safe stopped parked WtEvent.stop j = goes_on
    handle-Safe stopped parked WtEvent.park j = goes_on
    handle-Safe stopped parked WtEvent.no_event j = waits
    handle-Safe stopped parked WtEvent.task_finish j =
        Returns-Safe (on_finish-Working hw drains w next g j)
    handle-Safe stopped parked WtEvent.task_get_next (same, busy, some_task) =
        subst (λ n. Working n w → Safe (on_get_next hw n w)) (sym same)
          (λ g'. Returns-Safe (on_get_next-Working hw drains w g' some_task)) g
    handle-Safe stopped parked WtEvent.task_bind_slot (t, b, same, there, fence, unheld, free) =
        subst (λ n. Working n w → Safe (on_bind_slot hw n w)) (sym same)
          (λ g'. Returns-Safe (on_bind_slot-Working hw drains t b w g' there unheld free)) g
    handle-Safe stopped parked WtEvent.task_run (t, b, s, same, there, fence, bound) =
        subst (λ n. Working n w → Owned n w → Safe (on_run hw n w)) (sym same)
          (λ g' own'. on_run-Safe t w g' own') g own

    pub wt_turn-Safe :
        (should_stop should_park : Bool) → Safe (wt_turn hw should_stop should_park next w)
    unfolding wt_turn
    wt_turn-Safe should_stop should_park =
        returned_Safe
          (wt_get_event-Justified w g.quiet.unlocked should_stop should_park next
            (λ t same. (subst (λ n. MaybeLives w n) same g.ahead).0))
          λ e v j. rw (j.1) (handle-Safe should_stop should_park e j.0)

  module _ (w : World) (next : Option Task) (g : Working next w) where
    acked-Safe :
        (z f : Bool) (v u : World)
        → Safe (if z then ok false v else if f then fault Fault.bug_on else ok true u)
    acked-Safe true f v u = goes_on
    acked-Safe false true v u = stops tt
    acked-Safe false false v u = goes_on

    served-Safe : (z : Bool) (v u : World) → Safe (if z then ok false v else ok true u)
    served-Safe true v u = goes_on
    served-Safe false v u = goes_on

    pub isr-Safe : Safe (dicedev_isr hw w)
    isr-Safe = elim (Option-cases w.running_task) [
      | inl idle ↦ rw (isr-idle w g.quiet hw idle) (acked-Safe _ _ _ _)
      | inr (t, runs) ↦
          let live : Lives w t = rw runs at g.sent in
          let (there, (c, known)) = live in
          rw (isr-handled hw w t c g.quiet.unlocked runs known) (served-Safe _ _ _)
    ]
