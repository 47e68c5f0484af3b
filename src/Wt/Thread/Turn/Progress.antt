-- ===== src/Wt/Thread/Turn/Progress.antt =====
-- The work that is left to the loop of dicedev_wt_fn in dicedev_wt.c, and what a turn does to it.
use dicedev_linux_driver.Base.{
  ℕ, ◌+◌, ◌*◌, ◌<◌, ◌≤◌, ◌≡◌, sym, ap, subst, inl, inr, false, Option, none, some, List, ◌∷◌,
  length, arith,
}
use dicedev_linux_driver.Types.{World, Buffer, Context, Task}
use dicedev_linux_driver.Monad.{Ensures, sleeps, then_ensured, weaker_ensured, Returns-Ensures}
use dicedev_linux_driver.Utils.{Hw, Responsive}
use dicedev_linux_driver.Wt.Thread.{WtEvent, on_get_next, on_bind_slot, on_run, handle, wt_turn}
use dicedev_linux_driver.Wt.Thread.Bind.{Bound, on_bind_slot-Bound}
use dicedev_linux_driver.Wt.Thread.Events.{
  Finished, on_finish-Finished, Justified, wt_get_event-Justified,
}
use dicedev_linux_driver.Wt.Thread.Turn.{Lives, MaybeLives, Working}
use dicedev_linux_driver.Wt.Thread.Turn.Handlers.{Took, on_get_next-Front}
use dicedev_linux_driver.Wt.Thread.Turn.Sending.{Sending, on_run-Sending}

-- What is left to do for a task that is taken, by the slot of its buffer: to bind, or to send.
abbrev by_slot : Option ℕ → ℕ
by_slot none = 4
by_slot (some s) = 3

abbrev by_buffer : Option Buffer → ℕ
by_buffer none = 4
by_buffer (some b) = by_slot b.binded_slot

abbrev taken_work : Option Task → World → ℕ
taken_work none w = 0
taken_work (some t) w = by_buffer (w.buffers t.buff_out)

abbrev device_work : Option Task → ℕ
device_work none = 0
device_work (some t) = 2

-- The work that is left, with the task that the thread has taken.
abbrev pub work : Option Task → World → ℕ
work n w = 5 * length w.pending_tasks + taken_work n w + device_work w.running_task

by_slot_bounds : (o : Option ℕ) → (3 ≤ by_slot o) × (by_slot o ≤ 4)
by_slot_bounds none = (omega arith, omega arith)
by_slot_bounds (some s) = (omega arith, omega arith)

by_buffer_bounds : (o : Option Buffer) → (3 ≤ by_buffer o) × (by_buffer o ≤ 4)
by_buffer_bounds none = (omega arith, omega arith)
by_buffer_bounds (some b) = by_slot_bounds b.binded_slot

-- The work for a task that stays taken grows at most by one, when its buffer loses its slot.
taken_again : (n : Option Task) (w w' : World) → taken_work n w' ≤ taken_work n w + 1
taken_again none w w' = omega arith
taken_again (some t) w w' =
    let (least, most) = by_buffer_bounds (w.buffers t.buff_out) in
    let (least', most') = by_buffer_bounds (w'.buffers t.buff_out) in omega arith

module _ (hw : Hw) (drains : Responsive hw) where
  abbrev Less : Option Task → World → Option Task → World → Type 0
  Less next w n w' = work n w' < work next w

  Finished-Less :
      (t : Task) (c : Context) (b : Buffer) (next n : Option Task) (w w' : World)
      → w.running_task ≡ some t
      → n ≡ next
      → Finished t c b w w'
      → Less next w n w'
  Finished-Less t c b next n w w' runs same f =
      let again = taken_again next w w' in
      subst (λ m. Less next w m w') (sym same)
        (omega (arith, ap length f.pending, ap device_work f.running, ap device_work runs, again))

  Took-Less :
      (w : World) (t : Task) (rest : List Task) (c : Context) (b : Buffer) (n : Option Task)
      (w' : World)
      → w.pending_tasks ≡ t ∷ rest
      → Took hw drains t rest c b w n w'
      → Less none w n w'
  Took-Less w t rest c b n w' front (inl (same, at)) =
      let (least, most) = by_buffer_bounds (w.buffers t.buff_out) in
      rw (same, at, front) (omega arith)
  Took-Less w t rest c b n w' front (inr (same, d)) =
      rw (same, d.pending, d.running, front) (omega arith)

  Bound-Less :
      (t : Task) (b : Buffer) (s : ℕ) (w w' : World) (n : Option Task)
      → n ≡ some t
      → w.buffers t.buff_out ≡ some b
      → b.binded_slot ≡ none
      → Bound t.buff_out b s w w'
      → Less (some t) w n w'
  Bound-Less t b s w w' n same there unheld d =
      rw (same, d.pending, d.running, d.buffer, there, unheld) (omega arith)

  Sending-Less :
      (t : Task) (b : Buffer) (s : ℕ) (w w' : World) (n : Option Task)
      → w.running_task ≡ none
      → w.buffers t.buff_out ≡ some b
      → b.binded_slot ≡ some s
      → Sending hw drains t w n w'
      → Less (some t) w n w'
  Sending-Less t b s w w' n idle there bound (same, (v, r, e)) =
      let (t', at, same_job) = r.running in
      rw (same, e, r.pending, at, idle, there, bound) (omega arith)

  handle-Less :
      (next : Option Task) (w : World)
      → Working next w
      → (e : WtEvent) → Justified false false w next e
      → Ensures (Less next w) (handle hw e next w)
  unfolding handle
  handle-Less next w g WtEvent.stop j = absurd (ground arith)
  handle-Less next w g WtEvent.park j = absurd (ground arith)
  handle-Less next w g WtEvent.no_event j = sleeps
  handle-Less next w g WtEvent.task_finish j =
      let (t, running) = g.fenced (rw j λ e. cc) in
      let live : Lives w t = rw running at g.sent in
      let ((b, there), (c, known)) = live in
      weaker_ensured
        (Returns-Ensures
          (on_finish-Finished hw drains t c b w next g.quiet running g.clear known there))
        λ n w' (same, f, clear). Finished-Less t c b next n w w' running same f
  handle-Less next w g WtEvent.task_get_next (same, busy, some_task) =
      subst (λ m. Working m w → Ensures (Less m w) (on_get_next hw m w)) (sym same)
        (λ g'.
          weaker_ensured (Returns-Ensures (on_get_next-Front hw drains w g' some_task))
            λ n w' (t, rest, c, b, front, known, h). Took-Less w t rest c b n w' front h)
        g
  handle-Less next w g WtEvent.task_bind_slot (t, b, same, there, fence, unheld, free) =
      subst (λ m. Ensures (Less m w) (on_bind_slot hw m w)) (sym same)
        (weaker_ensured
          (Returns-Ensures (on_bind_slot-Bound hw drains t b w g.quiet there unheld free))
          λ n w' (still, (s, d)). Bound-Less t b s w w' n still there unheld d)
  handle-Less next w g WtEvent.task_run (t, b, s, same, there, fence, bound) =
      subst (λ m. Working m w → Ensures (Less m w) (on_run hw m w)) (sym same)
        (λ g'.
          weaker_ensured (on_run-Sending hw drains t w g')
            λ n w' h. Sending-Less t b s w w' n (g'.idle fence) there bound h)
        g

  -- From a state with the invariant of the thread, and as long as it is neither stopped nor parked,
  -- a turn of the loop of dicedev_wt_fn that returns leaves less work, whatever the words of the
  -- tasks are: five for each queued task, four for a taken one without a slot and three for one
  -- with a slot, and two for the one on the device. The queue of the device drains.
  pub wt_turn-Less :
      (next : Option Task) (w : World)
      → Working next w
      → Ensures (λ n w'. work n w' < work next w) (wt_turn hw false false next w)
  unfolding wt_turn
  wt_turn-Less next w g =
      then_ensured
        (Returns-Ensures (
          wt_get_event-Justified w g.quiet.unlocked false false next
            (λ t same. (subst (λ n. MaybeLives w n) same g.ahead).0)))
        λ e v j. rw (j.1) (handle-Less next w g e j.0)
