-- ===== src/Wt/Thread/Events.antt =====
-- The events of the work thread of dicedev_wt.c: when each is chosen, and what it does.
use dicedev_linux_driver.Base.{
  ℕ, ◌<◌, ◌≡◌, refl, ap, sym, ◌∙◌, ◌≢◌, ◌⊎◌, inl, inr, Bool, true, false, Option, none, some, List,
  [], ◌∷◌, arith, ltb, Option-cases, Bool-cases, if◌then◌else◌,
}
use dicedev_linux_driver.Types.{World, Buffer, Context, FenceState, Task}
use dicedev_linux_driver.Monad.{
  M, ok, and_then, ◌>>=◌, ◌>>◌, gets, modify, pure, Returns, returns, bind,
}
use dicedev_linux_driver.Dice.{unbind_slot_header}
use dicedev_linux_driver.Utils.{Hw, Responsive}
use dicedev_linux_driver.Utils.Feed.{fed}
use dicedev_linux_driver.Utils.Slots.{SlotsAgree, same-SlotsAgree}
use dicedev_linux_driver.Wt.Thread.{
  WtEvent, wt_get_event, event_of_next, event_of_task, on_finish, task_destroy, restart_if,
}
use dicedev_linux_driver.Wt.Thread.Destroy.{Destroyed, task_destroy-Destroyed}

-- Why the thread sleeps: there is nothing to do, a task is on the device, or no slot is free for the
-- buffer of the next task.
abbrev pub Asleep : World → Option Task → Type 0
Asleep w next =
    ((next ≡ none) × (w.pending_tasks ≡ []))
    ⊎ ((w.fence_state ≢ FenceState.none)
        ⊎ ((t : Task) × (b : Buffer) × (next ≡ some t)
            × (w.buffers t.buff_out ≡ some b)
            × (b.binded_slot ≡ none)
            × (w.free_slots ≡ 0)))

-- What an event says of the state in which it is chosen.
abbrev pub Justified : Bool → Bool → World → Option Task → WtEvent → Type 0
Justified should_stop should_park w next WtEvent.no_event =
    (w.fence_state ≢ FenceState.reached) × Asleep w next
Justified should_stop should_park w next WtEvent.task_get_next =
    (next ≡ none) × (w.fence_state ≢ FenceState.reached) × (w.pending_tasks ≢ [])
Justified should_stop should_park w next WtEvent.task_bind_slot =
    (t : Task) × (b : Buffer) × (next ≡ some t)
    × (w.buffers t.buff_out ≡ some b)
    × (w.fence_state ≡ FenceState.none)
    × (b.binded_slot ≡ none)
    × (0 < w.free_slots)
Justified should_stop should_park w next WtEvent.task_run =
    (t : Task) × (b : Buffer) × (s : ℕ) × (next ≡ some t)
    × (w.buffers t.buff_out ≡ some b)
    × (w.fence_state ≡ FenceState.none)
    × (b.binded_slot ≡ some s)
Justified should_stop should_park w next WtEvent.task_finish = w.fence_state ≡ FenceState.reached
Justified should_stop should_park w next WtEvent.park = (should_stop ≡ false) × (should_park ≡ true)
Justified should_stop should_park w next WtEvent.stop = should_stop ≡ true

abbrev chosen : World → Buffer → WtEvent
chosen w b = elim b.binded_slot [
  | none ↦ if ltb 0 w.free_slots then WtEvent.task_bind_slot else WtEvent.no_event
  | some s ↦ WtEvent.task_run
]

of_task_locked :
    (w : World)
    → w.slock ≡ false
    → (t : Task) (b : Buffer) → w.buffers t.buff_out ≡ some b
    → event_of_task t w ≡ ok (chosen w b) (record w { slock = false })
unfolding event_of_task
of_task_locked w unlocked t b there = rw (unlocked, there)

module _ (w : World) (unlocked : w.slock ≡ false) where
  abbrev Good : Option Task → WtEvent → World → Type 0
  Good next e v = Justified false false w next e × (v ≡ w)

  same : record w { slock = false } ≡ w
  same = ap (λ l. record w { slock = l }) (sym unlocked)

  of_task_eq :
      (t : Task) (b : Buffer)
      → w.buffers t.buff_out ≡ some b
      → event_of_task t w ≡ ok (chosen w b) w
  of_task_eq t b there = of_task_locked w unlocked t b there ∙ ap (ok (chosen w b)) same

  of_task :
      (t : Task) (b : Buffer)
      → w.buffers t.buff_out ≡ some b
      → w.fence_state ≡ FenceState.none
      → Returns (Good (some t)) (event_of_task t w)
  of_task t b there fence = elim (Option-cases b.binded_slot) [
    | inr (s, e) ↦ rw (of_task_eq t b there, e) (returns ((t, b, s, refl, there, fence, e), refl))
    | inl e ↦ elim (Bool-cases (ltb 0 w.free_slots)) [
      | inl free ↦
          rw (of_task_eq t b there, e, free)
            (returns ((t, b, refl, there, fence, e, ground arith), refl))
      | inr full ↦
          rw (of_task_eq t b there, e, full)
            (returns (((λ r. cc), inr (inr (t, b, refl, there, e, ground arith))), refl))
    ]
  ]

  of_next :
      (next : Option Task) (f : FenceState) (pending : List Task)
      → w.fence_state ≡ f
      → w.pending_tasks ≡ pending
      → ((t : Task) → next ≡ some t → (b : Buffer) × (w.buffers t.buff_out ≡ some b))
      → Returns (Good next) (event_of_next next f pending w)
  unfolding event_of_next
  of_next next FenceState.reached pending f p valid = returns (f, refl)
  of_next none FenceState.none [] f p valid = returns (((λ r. cc), inl (refl, p)), refl)
  of_next none FenceState.waiting [] f p valid = returns (((λ r. cc), inl (refl, p)), refl)
  of_next none FenceState.none (t ∷ ts) f p valid = returns ((refl, (λ r. cc), (λ r. cc)), refl)
  of_next none FenceState.waiting (t ∷ ts) f p valid = returns ((refl, (λ r. cc), (λ r. cc)), refl)
  of_next (some t) FenceState.waiting pending f p valid =
      returns (((λ r. cc), inr (inl λ r. cc)), refl)
  of_next (some t) FenceState.none pending f p valid =
      let (b, there) = valid t refl in of_task t b there f

  -- With the lock free and the buffer of the next task there, __wt_get_event returns, changes
  -- nothing, and what it chooses fits the state: a task is finished only if its fence is reached,
  -- the thread stops or parks only if it is asked to, and sleeps only if no fence is reached and
  -- there is nothing to do, a task is on the device, or no slot is free for the buffer of the
  -- next task, a task is taken only if none is next and one is queued, a slot is bound only if
  -- the buffer has none, one is free and no task is on the device, and a task is sent only if its
  -- buffer has a slot and no task is on the device.
  pub wt_get_event-Justified :
      (should_stop should_park : Bool) (next : Option Task)
      → ((t : Task) → next ≡ some t → (b : Buffer) × (w.buffers t.buff_out ≡ some b))
      → Returns
          (λ e v. Justified should_stop should_park w next e × (v ≡ w))
          (wt_get_event should_stop should_park next w)
  unfolding wt_get_event
  wt_get_event-Justified true should_park next valid = returns (refl, refl)
  wt_get_event-Justified false true next valid = returns ((refl, refl), refl)
  wt_get_event-Justified false false next valid =
      of_next next w.fence_state w.pending_tasks refl refl valid

-- The state between the turns of the thread, with the locks free.
pub record Quiet (w : World) : Type 0 where
  pub unlocked : w.slock ≡ false
  pub idle : w.feed_lock ≡ false
  pub slots : SlotsAgree w

-- What a finished task leaves.
pub record Finished (task : Task) (c : Context) (b : Buffer) (w w' : World) : Type 0 where
  pub quiet : Quiet w'
  pub fence : w'.fence_state ≡ FenceState.none
  pub running : w'.running_task ≡ none
  pub pending : w'.pending_tasks ≡ w.pending_tasks
  pub destroyed :
      (v : World) × Destroyed task c b w v × (w'.contexts ≡ v.contexts) × (w'.buffers ≡ v.buffers)
  -- The only write that there can be gives back the slot: the device is not restarted.
  pub writes :
      (w'.writes ≡ w.writes)
      ⊎ ((s : ℕ) × (b.binded_slot ≡ some s)
          × (w'.writes ≡ fed (unbind_slot_header s ∷ []) w.writes))

abbrev done : World → World
done v = record v { fence_state = FenceState.none; running_task = none }

abbrev finish_rest : Hw → M (Unit {0})
finish_rest hw = do failed ← gets (λ w. w.failed); restart_if hw failed; modify done

finish_rest-clear : (hw : Hw) (v : World) → v.failed ≡ false → finish_rest hw v ≡ ok tt (done v)
unfolding restart_if
finish_rest-clear hw v e = rw e

finishes :
    (hw : Hw) (task : Task) (c : Context) (b : Buffer) (w v : World)
    → w.failed ≡ false
    → Destroyed task c b w v
    → Returns (λ u w'. Finished task c b w w' × (w'.failed ≡ false)) (finish_rest hw v)
finishes hw task c b w v ok_flag d =
    let clear : v.failed ≡ false = d.failed ∙ ok_flag in
    rw (finish_rest-clear hw v clear) (
      returns (
        record {
          quiet = record {
            unlocked = d.unlocked;
            idle = d.idle;
            slots = same-SlotsAgree v (done v) d.slots refl refl refl;
          };
          fence = refl;
          running = refl;
          pending = d.pending;
          destroyed = (v, d, refl, refl);
          writes = d.writes;
        },
        clear,
      ))

module _ (hw : Hw) (drains : Responsive hw) where
  on_finish-some :
      (task : Task) (w : World) (next : Option Task)
      → w.running_task ≡ some task
      → on_finish hw next w
        ≡ and_then (and_then (task_destroy hw task w) (λ _. finish_rest hw)) (λ _. pure next)
  unfolding on_finish
  on_finish-some task w next e = rw e

  -- With a running task whose context and buffer exist, the locks free, the queue draining, the
  -- slots in agreement and the failure flag of the device clear, WT_EVENT_TASK_FINISH returns
  -- with no task running, the fence state none, the locks free and the slots in agreement; the
  -- task has been destroyed, the queue is as it was, and the device is not restarted, even if the
  -- context has failed.
  pub on_finish-Finished :
      (task : Task) (c : Context) (b : Buffer) (w : World) (next : Option Task)
      → Quiet w
      → w.running_task ≡ some task
      → w.failed ≡ false
      → w.contexts task.ctx ≡ some c
      → w.buffers task.buff_out ≡ some b
      → Returns
          (λ n w'. (n ≡ next) × Finished task c b w w' × (w'.failed ≡ false))
          (on_finish hw next w)
  on_finish-Finished task c b w next q run ok_flag known exists =
      rw (on_finish-some task w next run) (
        bind
          (bind (task_destroy-Destroyed hw drains task c b w q.unlocked q.idle q.slots known exists)
            λ u v d. finishes hw task c b w v ok_flag d)
          λ u v f. returns (refl, f.0, f.1))
