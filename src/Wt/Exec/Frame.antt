-- ===== src/Wt/Exec/Frame.antt =====
-- What __wt_run_task of dicedev_wt.c leaves alone, whatever the words of the task are.
use dicedev_linux_driver.Base.{
  ℕ, zero, suc, ◌≡◌, refl, ◌∙◌, ap, sym, inl, inr, Bool, true, false, Option, none, some, List,
  Bool-cases, ◌==◌, ltb, Option-cases, if◌then◌else◌, not, bit_and, ◌⊎◌, update, subst,
}
use dicedev_linux_driver.Types.{World, Buffer, Context, Task}
use dicedev_linux_driver.Holdings.{Job}
use dicedev_linux_driver.Monad.{
  M, Run, pure, Ensures, ensured, faults, then_ensured, weaker_ensured, either,
}
use dicedev_linux_driver.Utils.{Hw, Responsive, feed_cmd}
use dicedev_linux_driver.Utils.Feed.{fed, feed_cmd-fed}
use dicedev_linux_driver.Wt.Exec.{
  CmdType, cmd_type, Round, round, switch, run_loop, round_get_die, round_new_set, get_die_checked,
  get_die_fed, get_die_second, new_set_fed, not32, run_end, run_bound, rounds, task_size,
  wt_run_task, get_die_slot_mask, new_set_slot_mask,
}
use dicedev_linux_driver.Wt.Exec.Plan.{die_words, set_words}
use dicedev_linux_driver.Wt.Exec.Reads.{
  SameTask, get_buffer-Ensures, next_word-Ensures, init_it-Ensures,
}

-- Only words have been fed.
abbrev pub Only : World → World → Type 0
Only w w' = (log : List (ℕ × ℕ)) × (w' ≡ record w { writes = log; feed_lock = false })

-- What __wt_run_task leaves of the driver's state: the task of the device is the one it was given,
-- as far as context and buffers go, and its context may have failed.
pub record Ran (t : Task) (w w' : World) : Type 0 where
  pub lock : w'.slock ≡ w.slock
  pub idle : w'.feed_lock ≡ false
  pub fence : w'.fence_state ≡ w.fence_state
  pub failed : w'.failed ≡ w.failed
  pub slots : w'.buff_slots ≡ w.buff_slots
  pub free : w'.free_slots ≡ w.free_slots
  pub pending : w'.pending_tasks ≡ w.pending_tasks
  pub buffers : w'.buffers ≡ w.buffers
  pub contexts :
      (w'.contexts ≡ w.contexts)
      ⊎ ((c : Context) × (w.contexts t.ctx ≡ some c)
          × (w'.contexts ≡ update w.contexts t.ctx (some (record c { failed = true }))))
  pub running : (t' : Task) × (w'.running_task ≡ some t') × SameTask t t'

abbrev task_of : Round → Task
task_of (Round.next t left) = t
task_of (Round.ctx_fail t) = t

abbrev pub RoundDone : Task → World → Round → World → Type 0
RoundDone t w r w' = SameTask t (task_of r) × Only w w'

abbrev pub LoopDone : Task → World → Bool × Task → World → Type 0
LoopDone t w r w' = SameTask t r.1 × Only w w'

unchanged : (w : World) → w.feed_lock ≡ false → Only w w
unchanged w idle = (w.writes, ap (λ l. record w { feed_lock = l }) idle)

both_fed : (w v u : World) → Only w v → Only v u → Only w u
both_fed w v u (l, e) (l', e') =
    (l', e' ∙ ap {A = World} {B = World} (λ x. record x { writes = l'; feed_lock = false }) e)

pub unlocked_after : (w v : World) → Only w v → v.feed_lock ≡ false
unlocked_after w v (l, e) = ap (λ (x : World). x.feed_lock) e

pub still : {w v : World} → v ≡ w → w.feed_lock ≡ false → v.feed_lock ≡ false
still e idle = ap (λ (x : World). x.feed_lock) e ∙ idle

pub nothing_fed : {w v : World} → v ≡ w → w.feed_lock ≡ false → Only w v
nothing_fed e idle = (_, e ∙ (unchanged _ idle).1)

then_round :
    (t t' : Task) (w v : World) {r : Run Round}
    → SameTask t t'
    → Only w v
    → Ensures (RoundDone t' v) r
    → Ensures (RoundDone t w) r
then_round t t' w v same o h = weaker_ensured h λ q u done. (done.0 ∙ same, both_fed w v u o done.1)

module _ (hw : Hw) (drains : Responsive hw) where
  pub feed-Ensures :
      (cs : List ℕ) (w : World)
      → w.feed_lock ≡ false
      → Ensures (λ _ w'. Only w w') (feed_cmd hw cs w)
  feed-Ensures cs w idle = rw (feed_cmd-fed hw drains cs w idle) (ensured (fed cs w.writes, refl))

  module _ (slot allowed : ℕ) where
    fail-Ensures :
        (t : Task) (w : World)
        → w.feed_lock ≡ false
        → Ensures (RoundDone t w) (pure (Round.ctx_fail t) w)
    fail-Ensures t w idle = ensured (refl, unchanged w idle)

    get_die_fed-Ensures :
        (c0 c1 : ℕ) (t : Task) (left : ℕ) (w : World)
        → w.feed_lock ≡ false
        → Ensures (RoundDone t w) (get_die_fed hw slot allowed c0 c1 t left w)
    unfolding get_die_fed
    get_die_fed-Ensures c0 c1 t left w idle =
        then_ensured (feed-Ensures (die_words slot c0 c1) w idle) λ x v only. ensured (refl, only)

    get_die_checked-Ensures :
        (c0 c1 : ℕ) (t : Task) (left : ℕ) (w : World)
        → w.feed_lock ≡ false
        → Ensures (RoundDone t w) (get_die_checked hw slot allowed c0 c1 t left w)
    unfolding get_die_checked
    get_die_checked-Ensures c0 c1 t left w idle =
        either (not (bit_and c0 get_die_slot_mask == 0)) (pure (Round.ctx_fail t))
          (if not (bit_and c1 (not32 allowed) == 0)
            then pure (Round.ctx_fail t)
            else get_die_fed hw slot allowed c0 c1 t left)
          w (fail-Ensures t w idle)
          (either (not (bit_and c1 (not32 allowed) == 0)) (pure (Round.ctx_fail t))
            (get_die_fed hw slot allowed c0 c1 t left) w (fail-Ensures t w idle)
            (get_die_fed-Ensures c0 c1 t left w idle))

    get_die-Ensures :
        (c0 : ℕ) (t : Task) (left : ℕ) (w : World)
        → w.feed_lock ≡ false
        → Ensures (RoundDone t w) (round_get_die hw slot allowed c0 t left w)
    unfolding round_get_die get_die_second
    get_die-Ensures c0 t left w idle =
        either (ltb left 4) (pure (Round.ctx_fail t)) (get_die_second hw slot allowed c0 t left) w
          (fail-Ensures t w idle)
          (then_ensured (next_word-Ensures t w) λ r v same.
            then_round t r.1 w v same.0 (nothing_fed same.1 idle)
              (get_die_checked-Ensures c0 r.0 r.1 left v (still same.1 idle)))

    new_set-Ensures :
        (c0 : ℕ) (t : Task) (left : ℕ) (w : World)
        → w.feed_lock ≡ false
        → Ensures (RoundDone t w) (round_new_set hw slot allowed c0 t left w)
    unfolding round_new_set new_set_fed
    new_set-Ensures c0 t left w idle =
        either (not (bit_and c0 new_set_slot_mask == 0)) (pure (Round.ctx_fail t))
          (new_set_fed hw slot allowed c0 t left) w (fail-Ensures t w idle)
          (then_ensured (feed-Ensures (set_words slot c0) w idle) λ x v only. ensured (refl, only))

    switch-Ensures :
        (c0 : ℕ) (t : Task) (left : ℕ) (ty : CmdType) (w : World)
        → w.feed_lock ≡ false
        → Ensures (RoundDone t w) (switch hw slot allowed c0 t left ty w)
    unfolding switch
    switch-Ensures c0 t left CmdType.nop w idle = ensured (refl, unchanged w idle)
    switch-Ensures c0 t left CmdType.get_die w idle = get_die-Ensures c0 t left w idle
    switch-Ensures c0 t left CmdType.new_set w idle = new_set-Ensures c0 t left w idle
    switch-Ensures c0 t left CmdType.other w idle = fail-Ensures t w idle

    pub round-Ensures :
        (t : Task) (left : ℕ) (w : World)
        → w.feed_lock ≡ false
        → Ensures (RoundDone t w) (round hw slot allowed t left w)
    unfolding round
    round-Ensures t left w idle = then_ensured (next_word-Ensures t w) λ r v same.
        then_round t r.1 w v same.0 (nothing_fed same.1 idle)
          (switch-Ensures r.0 r.1 left (cmd_type r.0) v (still same.1 idle))

    abbrev after_round : ℕ → Round → M (Bool × Task)
    after_round fuel (Round.next t left) = run_loop hw slot allowed fuel t left
    after_round fuel (Round.ctx_fail t) = pure (true, t)

    pub run_loop-Ensures :
        (fuel : ℕ) (t : Task) (left : ℕ) (w : World)
        → w.feed_lock ≡ false
        → Ensures (LoopDone t w) (run_loop hw slot allowed fuel t left w)
    unfolding run_loop
    run_loop-Ensures zero t left w idle = faults
    run_loop-Ensures (suc fuel) t left w idle = elim (Bool-cases (left == 0)) [
      | inl e ↦ rw (e, run_loop) (ensured (refl, unchanged w idle))
      | inr e ↦
          rw (e, run_loop)
            (then_ensured (round-Ensures t left w idle) λ r.
              elim r
                as (λ q.
                  (v : World) → RoundDone t w q v → Ensures (LoopDone t w) (after_round fuel q v)) [
                    | Round.next t' left' ↦ λ v done.
                        weaker_ensured
                          (run_loop-Ensures fuel t' left' v (unlocked_after w v done.1))
                          λ q u more. (more.0 ∙ done.0, both_fed w v u done.1 more.1)
                    | Round.ctx_fail t' ↦ λ v done. ensured done
                  ])
    ]

  abbrev ended : World → List (ℕ × ℕ) → Task → World
  ended w log t = record w { writes = log; feed_lock = false; running_task = some t }

  ended-Ran :
      (t t' : Task) (w v : World) (log : List (ℕ × ℕ))
      → SameTask t t'
      → v ≡ record w { writes = log; feed_lock = false }
      → Ran t w (record v { running_task = some t' })
  ended-Ran t t' w v log same e = rw e (record {
    lock = refl;
    idle = refl;
    fence = refl;
    failed = refl;
    slots = refl;
    free = refl;
    pending = refl;
    buffers = refl;
    contexts = inl refl;
    running = (t', refl, same);
  })

  failed-Ran :
      (t t' : Task) (x : ℕ) (c : Context) (w v : World) (log : List (ℕ × ℕ))
      → SameTask t t'
      → x ≡ t.ctx
      → v ≡ record w { writes = log; feed_lock = false }
      → v.contexts x ≡ some c
      → Ran t w (record v {
        running_task = some t';
        contexts = update v.contexts x (some (record c { failed = true }));
      })
  failed-Ran t t' x c w v log same here e known =
      let there : w.contexts t.ctx ≡ some c =
        sym (ap (λ (u : World). u.contexts t.ctx) e) ∙ ap v.contexts (sym here) ∙ known in
      rw e (record {
        lock = refl;
        idle = refl;
        fence = refl;
        failed = refl;
        slots = refl;
        free = refl;
        pending = refl;
        buffers = refl;
        contexts =
            inr (c, there, ap (λ y. update w.contexts y (some (record c { failed = true }))) here);
        running = (t', refl, same);
      })

  run_end-Ran :
      (t : Task) (x : ℕ) (w v : World) (r : Bool × Task)
      → x ≡ t.ctx
      → SameTask t r.1
      → Only w v
      → Ensures (λ _ u. Ran t w u) (run_end x r v)
  run_end-Ran t x w v (false, t') here same (log, e) = ensured (ended-Ran t t' w v log same e)
  run_end-Ran t x w v (true, t') here same (log, e) = elim (Option-cases (v.contexts x)) [
    | inl gone ↦ rw gone faults
    | inr (c, known) ↦ rw known (ensured (failed-Ran t t' x c w v log same here e known))
  ]

  -- The task of the device is set before anything is read.
  from_start : (t : Task) (w u : World) → Ran t (record w { running_task = some t }) u → Ran t w u
  from_start t w u r = record {
    lock = r.lock;
    idle = r.idle;
    fence = r.fence;
    failed = r.failed;
    slots = r.slots;
    free = r.free;
    pending = r.pending;
    buffers = r.buffers;
    contexts = r.contexts;
    running = r.running;
  }

  run_bound-Ran :
      (t : Task) (b : Buffer) (slot : Option ℕ) (w : World)
      → w.feed_lock ≡ false
      → Ensures (λ _ u. Ran t w u) (run_bound hw t b slot w)
  unfolding run_bound
  run_bound-Ran t b none w idle = faults
  run_bound-Ran t b (some slot) w idle = then_ensured (init_it-Ensures t w) λ t' v same.
      let here = still same.1 idle in
      then_ensured (run_loop-Ensures slot b.allowed (rounds w t.body) t' (task_size t'.body) v here)
        λ r u done.
          run_end-Ran t t'.ctx w u r (ap (λ (j : Job). j.ctx) same.0) (done.0 ∙ same.0)
            (both_fed w v u (nothing_fed same.1 idle) done.1)

  -- Whatever words a task holds and wherever they lead: if __wt_run_task returns, the spin lock,
  -- the fence state, the slots, the queue, the failure flag and the buffers of the device are as
  -- they were, the running task is the given one as far as its context and its buffers go, and of
  -- all the contexts at most the task's has changed, which has then failed. The feed lock is
  -- free, before and after, and the queue of the device drains.
  pub wt_run_task-Ran :
      (t : Task) (w : World)
      → w.feed_lock ≡ false
      → Ensures (λ _ w'. Ran t w w') (wt_run_task hw t w)
  unfolding wt_run_task
  wt_run_task-Ran t w idle =
      let w' : World = record w { running_task = some t } in
      then_ensured (get_buffer-Ensures t.buff_out w') λ b v same.
        weaker_ensured (run_bound-Ran t b b.binded_slot v (still same idle))
          λ x u r. from_start t w u (subst (λ z. Ran t z u) same r)
