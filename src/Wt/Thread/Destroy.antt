-- ===== src/Wt/Thread/Destroy.antt =====
-- __task_destroy of dicedev_wt.c.
use dicedev_linux_driver.Base.{
  ℕ, ◌+◌, ◌≡◌, refl, sym, ◌∙◌, ◌≢◌, ◌⊎◌, inl, inr, true, false, ◌||◌, Option, none, some, [], ◌∷◌,
  arith, update, update_self, update_ne, Bool-cases, Option-cases, if◌then◌else◌,
}
use dicedev_linux_driver.Dice.{u64, sub64, unbind_slot_header}
use dicedev_linux_driver.Types.{World, Buffer, Context, Task}
use dicedev_linux_driver.Holdings.{Steady, holdings, holdings_eq, view_kept, file, buffer_list}
use dicedev_linux_driver.Monad.{ok, Returns, returns}
use dicedev_linux_driver.Utils.{Hw, Responsive, unbind_slot}
use dicedev_linux_driver.Utils.Feed.{fed}
use dicedev_linux_driver.Utils.Slots.{
  SlotsAgree, unbound, unbind_slot-unbound, unbound-SlotsAgree, same-SlotsAgree, changed-SlotsAgree,
}
use dicedev_linux_driver.Wt.Thread.{is_run, release_slot, account, task_destroy}

-- The slot that the buffer keeps.
abbrev pub kept_slot : Task → Context → Buffer → Option ℕ
kept_slot task c b = if is_run task.body || c.failed then none else b.binded_slot

pub record Destroyed (task : Task) (c : Context) (b : Buffer) (w w' : World) : Type 0 where
  pub unlocked : w'.slock ≡ false
  pub idle : w'.feed_lock ≡ false
  pub fence : w'.fence_state ≡ w.fence_state
  pub failed : w'.failed ≡ w.failed
  pub pending : w'.pending_tasks ≡ w.pending_tasks
  pub running : w'.running_task ≡ w.running_task
  pub context : w'.contexts task.ctx ≡ some (record c { task_count = sub64 c.task_count 1 })
  pub others : (x : ℕ) → task.ctx ≢ x → w'.contexts x ≡ w.contexts x
  pub reader :
      (b' : Buffer) × (w'.buffers task.buff_out ≡ some b')
      × (b'.reader.result_count ≡ u64 (b.reader.result_count + task.result_count))
      × (b'.reader.offset ≡ b.reader.offset)
      × (b'.binded_slot ≡ kept_slot task c b)
  pub buffers : (q : ℕ) → task.buff_out ≢ q → w'.buffers q ≡ w.buffers q
  pub slots : SlotsAgree w'
  pub writes :
      (w'.writes ≡ w.writes)
      ⊎ ((s : ℕ) × (b.binded_slot ≡ some s)
          × (w'.writes ≡ fed (unbind_slot_header s ∷ []) w.writes))
  pub steady : Steady w w'

module _ (hw : Hw) (drains : Responsive hw) (task : Task) (c : Context) (b : Buffer) (w : World)
    (unlocked : w.slock ≡ false) (idle : w.feed_lock ≡ false) (agree : SlotsAgree w)
    (known : w.contexts task.ctx ≡ some c) (exists : w.buffers task.buff_out ≡ some b) where
  abbrev p : ℕ
  p = task.buff_out

  abbrev locked : World
  locked = record w { slock = true }

  abbrev accounted : World → Buffer → World
  accounted v d = record v {
    slock = false;
    contexts = update v.contexts task.ctx (some (record c { task_count = sub64 c.task_count 1 }));
    buffers = update v.buffers p (
        some (record d {
          reader = record d.reader {
            result_count = u64 (d.reader.result_count + task.result_count);
          };
        }));
  }

  locked-SlotsAgree : SlotsAgree locked
  locked-SlotsAgree = same-SlotsAgree w locked agree refl refl refl

  accounted_files :
      (v : World) (d : Buffer)
      → v.buffers p ≡ some d
      → v.contexts task.ctx ≡ some c
      → holdings (accounted v d) ≡ holdings v
  accounted_files v d there at =
      holdings_eq (holdings (accounted v d)) (holdings v)
        (view_kept file v.buffers p d _ there refl)
        (view_kept buffer_list v.contexts task.ctx c _ at refl)

  -- Whatever the first critical section does to the slot.
  task_destroy-accounted :
      (v : World) (d : Buffer)
      → release_slot hw task b.binded_slot locked ≡ ok tt v
      → v.contexts task.ctx ≡ some c
      → v.buffers p ≡ some d
      → task_destroy hw task w ≡ ok tt (accounted v d)
  unfolding task_destroy account
  task_destroy-accounted v d e kc kd = rw (unlocked, exists, e, kc, kd)

  kept :
      release_slot hw task b.binded_slot locked ≡ ok tt locked
      → b.binded_slot ≡ kept_slot task c b
      → Returns (λ _ w'. Destroyed task c b w w') (task_destroy hw task w)
  kept e slot = rw (task_destroy-accounted locked b e known exists) (
      returns (record {
        unlocked = refl;
        idle = idle;
        fence = refl;
        failed = refl;
        pending = refl;
        running = refl;
        context = update_self w.contexts task.ctx _;
        others = λ x ne. update_ne w.contexts task.ctx x _ ne;
        reader = (_, update_self w.buffers p _, refl, refl, slot);
        buffers = λ q ne. update_ne w.buffers p q _ ne;
        slots = changed-SlotsAgree w (accounted locked b) agree refl refl p b _ exists refl refl;
        writes = inl refl;
        steady = accounted_files locked b exists known;
      }))

  released :
      (s : ℕ)
      → b.binded_slot ≡ some s
      → release_slot hw task b.binded_slot locked ≡ unbind_slot hw p locked
      → kept_slot task c b ≡ none
      → Returns (λ _ w'. Destroyed task c b w w') (task_destroy hw task w)
  released s bound e gone =
      let v = unbound locked p b s in
      let d : Buffer = record b { binded_slot = none; usage_count = 0 } in
      let unbind : release_slot hw task b.binded_slot locked ≡ ok tt v =
        e ∙ unbind_slot-unbound hw drains locked p b s idle exists bound in
      let there : v.buffers p ≡ some d = update_self w.buffers p (some d) in
      let agree' : SlotsAgree v = unbound-SlotsAgree locked p b s locked-SlotsAgree exists bound in
      rw (task_destroy-accounted v d unbind known there) (
        returns (record {
          unlocked = refl;
          idle = refl;
          fence = refl;
          failed = refl;
          pending = refl;
          running = refl;
          context = update_self w.contexts task.ctx _;
          others = λ x ne. update_ne w.contexts task.ctx x _ ne;
          reader = (_, update_self v.buffers p _, refl, refl, sym gone);
          buffers = λ q ne. update_ne v.buffers p q _ ne ∙ update_ne w.buffers p q _ ne;
          slots = changed-SlotsAgree v (accounted v d) agree' refl refl p d _ there refl refl;
          writes = inr (s, bound, refl);
          steady =
              accounted_files v d there known
              ∙ holdings_eq (holdings v) (holdings w) (view_kept file w.buffers p b d exists refl)
                  refl;
        }))

  -- With the locks free, the queue draining, the slots in agreement, and its context and its
  -- output buffer there, __task_destroy returns with the locks free and the slots in agreement:
  -- the context counts one task less, the results of the task are added to the buffer's, the slot
  -- is given back by a run task or in a failed context and kept otherwise, at most the unbind
  -- command is fed, no other buffer, context, task or flag changes, and every buffer keeps its
  -- context and its references.
  pub task_destroy-Destroyed : Returns (λ _ w'. Destroyed task c b w w') (task_destroy hw task w)
  unfolding release_slot
  task_destroy-Destroyed = elim (Option-cases b.binded_slot) [
    | inl e ↦ kept (rw e) (ground arith)
    | inr (s, e) ↦ elim (Bool-cases (is_run task.body || c.failed)) [
      | inl free ↦ released s e (rw (e, known, free)) (rw free)
      | inr keep ↦ kept (rw (e, known, keep)) (rw keep)
    ]
  ]
