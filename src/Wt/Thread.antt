-- ===== src/Wt/Thread.antt =====
-- The work thread of dicedev_wt.c: the queue of tasks, the events and the body of the loop of
-- dicedev_wt_fn. The local variable wtState.next_task is an argument and a result.
pub mod Destroy
pub mod Events
pub mod Exit
pub mod Bind
pub mod Turn
use dicedev_linux_driver.Base.{
  suc, zero, ℕ, ◌+◌, ◌%◌, ◌^◌, Bool, true, false, ◌||◌, Option, none, some, List, [], ◌∷◌, ◌++◌,
  ltb, if◌then◌else◌, is_some,
}
use dicedev_linux_driver.Dice.{u64, sub64, u32, fence_header, cmd_fence_wait}
use dicedev_linux_driver.Types.{World, Buffer, Reader, FenceState, Task, TaskBody}
use dicedev_linux_driver.Monad.{
  M, Fault, ok, blocked, fail, pure, ◌>>=◌, ◌>>◌, modify, gets, spin_lock, spin_unlock, get_buffer,
  put_buffer, get_context, put_context,
}
use dicedev_linux_driver.Utils.{
  Hw, dicedev_iow, feed_cmd, get_slot, bind_slot, unbind_slot, restart_device,
}
use dicedev_linux_driver.Wt.Exec.{wt_run_task}

abbrev pub task_fence_val : ℕ
task_fence_val = 42

-- The result is wt.thread: whether kthread_run gave a thread, or an error in the place of the
-- pointer to it, which is not tested.
unfoldable pub dicedev_wt_init : Bool → M Bool
dicedev_wt_init kthread_ok = do
  modify (λ w. record w { running_task = none; pending_tasks = [] })
  pure kthread_ok

unfoldable pub dicedev_wt_add_task : Task → M (Unit {0})
dicedev_wt_add_task task = do
  spin_lock
  modify (λ w. record w { pending_tasks = w.pending_tasks ++ task ∷ [] })
  spin_unlock

-- dicedev_buffer_init_reader of dicedev_buffer.c.
unfoldable pub dicedev_buffer_init_reader : ℕ → M (Unit {0})
dicedev_buffer_init_reader p = do
  b ← get_buffer p
  put_buffer p (record b { reader = record { result_count = 0; offset = 0 } })

pub data WtEvent : Type 0 where
  no_event task_get_next task_bind_slot task_run task_finish park stop : WtEvent

-- The events that need a look at the next task's buffer.
unfoldable pub event_of_task : Task → M WtEvent
event_of_task t = do
  spin_lock
  b ← get_buffer t.buff_out
  spin_unlock
  free ← gets (λ w. w.free_slots)
  pure (elim b.binded_slot [
    | none ↦ if ltb 0 free then WtEvent.task_bind_slot else WtEvent.no_event
    | some s ↦ WtEvent.task_run
  ])

unfoldable pub event_of_next : Option Task → FenceState → List Task → M WtEvent
unfolding event_of_task
event_of_next next FenceState.reached pending = pure WtEvent.task_finish
event_of_next none _ [] = pure WtEvent.no_event
event_of_next none _ (t ∷ ts) = pure WtEvent.task_get_next
event_of_next (some t) FenceState.waiting pending = pure WtEvent.no_event
event_of_next (some t) FenceState.none pending = event_of_task t

-- `should_stop` and `should_park` are what the kernel answers at this moment.
unfoldable pub wt_get_event : Bool → Bool → Option Task → M WtEvent
unfolding event_of_next
wt_get_event true should_park next w = ok WtEvent.stop w
wt_get_event false true next w = ok WtEvent.park w
wt_get_event false false next w = event_of_next next w.fence_state w.pending_tasks w

abbrev pub is_run : TaskBody → Bool
is_run (TaskBody.write t) = false
is_run (TaskBody.run t) = true

module _ (hw : Hw) where
  -- The first critical section of __task_destroy.
  unfoldable pub release_slot : Task → Option ℕ → M (Unit {0})
  release_slot task none = pure tt
  release_slot task (some s) = do
    c ← get_context task.ctx
    if is_run task.body || c.failed then unbind_slot hw task.buff_out else pure tt

  -- The second one: the task is no longer counted, and its results can be read.
  unfoldable pub account : Task → M (Unit {0})
  account task = do
    c ← get_context task.ctx
    put_context task.ctx (record c { task_count = sub64 c.task_count 1 })
    b ← get_buffer task.buff_out
    put_buffer task.buff_out (record b {
      reader = record b.reader { result_count = u64 (b.reader.result_count + task.result_count) };
    })

  unfoldable pub task_destroy : Task → M (Unit {0})
  unfolding release_slot account
  task_destroy task = do
    spin_lock
    b ← get_buffer task.buff_out
    release_slot task b.binded_slot
    spin_unlock
    spin_lock
    account task
    spin_unlock

  -- WT_EVENT_TASK_GET_NEXT
  unfoldable pub take_next : Option Task → List Task → M (Option Task)
  take_next next [] = fail Fault.null_pointer
  take_next next (task ∷ rest) = do
    modify (λ w. record w { pending_tasks = rest })
    spin_unlock
    c ← get_context task.ctx
    if c.failed then (task_destroy task >> pure next) else pure (some task)

  unfoldable pub on_get_next : Option Task → M (Option Task)
  unfolding take_next
  on_get_next next = do spin_lock; pending ← gets (λ w. w.pending_tasks); take_next next pending

  -- WT_EVENT_TASK_BIND_SLOT
  unfoldable pub on_bind_slot : Option Task → M (Option Task)
  on_bind_slot none = fail Fault.null_pointer
  on_bind_slot (some task) = do
    spin_lock
    slot ← gets get_slot
    bind_slot hw task.buff_out slot
    dicedev_buffer_init_reader task.buff_out
    spin_unlock
    pure (some task)

  -- WT_EVENT_TASK_RUN
  unfoldable pub on_run : Option Task → M (Option Task)
  on_run none = fail Fault.null_pointer
  on_run (some task) = do
    modify (λ w. record w { fence_state = FenceState.waiting })
    wt_run_task hw task
    spin_lock
    dicedev_iow cmd_fence_wait task_fence_val
    feed_cmd hw (u32 (fence_header task_fence_val) ∷ [])
    spin_unlock
    pure none

  unfoldable pub restart_if : Bool → M (Unit {0})
  restart_if false = pure tt
  restart_if true = do restart_device; modify (λ w. record w { failed = false })

  -- WT_EVENT_TASK_FINISH
  unfoldable pub finish_task : Option Task → M (Unit {0})
  unfolding task_destroy restart_if
  finish_task none = fail Fault.bug_on
  finish_task (some task) = do
    task_destroy task
    failed ← gets (λ w. w.failed)
    restart_if failed
    modify (λ w. record w { fence_state = FenceState.none; running_task = none })

  unfoldable pub on_finish : Option Task → M (Option Task)
  unfolding finish_task
  on_finish next = do running ← gets (λ w. w.running_task); finish_task running; pure next

  unfoldable pub handle : WtEvent → Option Task → M (Option Task)
  unfolding on_get_next on_bind_slot on_run on_finish
  handle WtEvent.stop next = pure next
  handle WtEvent.park next = pure next
  handle WtEvent.no_event next = λ w. blocked
  handle WtEvent.task_get_next next = on_get_next next
  handle WtEvent.task_bind_slot next = on_bind_slot next
  handle WtEvent.task_run next = on_run next
  handle WtEvent.task_finish next = on_finish next

  -- One turn of the loop of dicedev_wt_fn.
  unfoldable pub wt_turn : Bool → Bool → Option Task → M (Option Task)
  unfolding wt_get_event handle
  wt_turn should_stop should_park next = do
    e ← wt_get_event should_stop should_park next
    handle e next

  -- The loop of dicedev_wt_fn for `n` turns, in which nobody stops or parks the thread.
  unfoldable pub wt_turns : ℕ → Option Task → M (Option Task)
  wt_turns zero next = pure next
  wt_turns (suc n) next = do next' ← wt_turn false false next; wt_turns n next'

  destroy_pending : List Task → M (Unit {0})
  destroy_pending [] = pure tt
  destroy_pending (task ∷ rest) = do
    modify (λ w. record w { pending_tasks = rest })
    task_destroy task
    destroy_pending rest

  destroy_running : Option Task → M (Unit {0})
  destroy_running none = pure tt
  destroy_running (some task) = do modify (λ w. record w { running_task = none }); task_destroy task

  -- What dicedev_wt_fn does once it has been stopped. The lock is held throughout.
  unfoldable pub wt_exit : M (Unit {0})
  unfolding destroy_pending destroy_running
  wt_exit = do
    spin_lock
    pending ← gets (λ w. w.pending_tasks)
    destroy_pending pending
    running ← gets (λ w. w.running_task)
    destroy_running running
    spin_unlock
