-- ===== src/Wt/Thread/Turn/Handlers.antt =====
-- The handlers of dicedev_wt_fn in dicedev_wt.c and the invariant of the thread.
use dicedev_linux_driver.Base.{
  ℕ, ◌<◌, ◌≡◌, refl, ◌≢◌, ◌∙◌, sym, ◌⊎◌, inl, inr, false, Option, none, some, List, [], ◌∷◌,
  Bool-cases, subst,
}
use dicedev_linux_driver.Types.{World, Buffer, Context, FenceState, Task}
use dicedev_linux_driver.Monad.{Run, Returns, returns, bind}
use dicedev_linux_driver.Utils.{Hw, Responsive}
use dicedev_linux_driver.Utils.Slots.{same-SlotsAgree}
use dicedev_linux_driver.Wt.Thread.{take_next, on_get_next, on_bind_slot, on_finish}
use dicedev_linux_driver.Wt.Thread.Destroy.{Destroyed, task_destroy-Destroyed}
use dicedev_linux_driver.Wt.Thread.Events.{Finished, on_finish-Finished}
use dicedev_linux_driver.Wt.Thread.Bind.{Bound, on_bind_slot-Bound}
use dicedev_linux_driver.Wt.Thread.Turn.{
  Lives, AllLive, Working, Keeps, keep-Lives, keep-AllLive, keep-MaybeLives, same-Keeps,
  Destroyed-Keeps, Bound-Keeps,
}

weaken :
    {A : Type 0} {P Q : A → World → Type 0} {r : Run A}
    → ((a : A) (w : World) → P a w → Q a w)
    → Returns P r
    → Returns Q r
weaken f (returns h) = returns (f _ _ h)

module _ (hw : Hw) (drains : Responsive hw) where
  abbrev pub popped : World → List Task → World
  popped w rest = record w { slock = false; pending_tasks = rest }

  popped-Working :
      (w : World) (t : Task) (rest : List Task)
      → Working none w
      → w.pending_tasks ≡ t ∷ rest
      → Working none (popped w rest) × Lives w t
  popped-Working w t rest g e =
      let live : AllLive w (t ∷ rest) = rw e at g.queued in
      let k = same-Keeps w (popped w rest) refl refl in
      (
        record {
          quiet = record {
            unlocked = refl;
            idle = g.quiet.idle;
            slots = same-SlotsAgree w (popped w rest) g.quiet.slots refl refl refl;
          };
          clear = g.clear;
          queued = keep-AllLive w (popped w rest) k rest live.1;
          ahead = tt;
          sent = keep-MaybeLives w (popped w rest) k w.running_task g.sent;
          fenced = g.fenced;
          idle = g.idle;
        },
        live.0,
      )

  dropped :
      (t : Task) (c : Context) (b : Buffer) (v w' : World)
      → Working none v
      → Destroyed t c b v w'
      → Working none w'
  dropped t c b v w' g d =
      let k = Destroyed-Keeps t c b v w' d in
      record {
        quiet = record { unlocked = d.unlocked; idle = d.idle; slots = d.slots };
        clear = d.failed ∙ g.clear;
        queued = rw d.pending (keep-AllLive v w' k v.pending_tasks g.queued);
        ahead = tt;
        sent = rw d.running (keep-MaybeLives v w' k v.running_task g.sent);
        fenced = rw (d.fence, d.running) g.fenced;
        idle = rw (d.fence, d.running) g.idle;
      }

  -- The task is taken, or destroyed if its context has failed.
  abbrev pub Took : Task → List Task → Context → Buffer → World → Option Task → World → Type 0
  Took t rest c b w n w' =
      ((n ≡ some t) × (w' ≡ popped w rest)) ⊎ ((n ≡ none) × Destroyed t c b (popped w rest) w')

  get_next-Took :
      (w : World) (t : Task) (rest : List Task) (c : Context) (b : Buffer)
      → Working none w
      → w.pending_tasks ≡ t ∷ rest
      → w.contexts t.ctx ≡ some c
      → w.buffers t.buff_out ≡ some b
      → Returns (Took t rest c b w) (on_get_next hw none w)
  unfolding on_get_next take_next
  get_next-Took w t rest c b g e known there =
      let (v, live) = popped-Working w t rest g e in
      elim (Bool-cases c.failed) [
        | inl bad ↦
            simp (g.quiet.unlocked, e, known, bad)
              (bind
                (task_destroy-Destroyed hw drains t c b (popped w rest) refl v.quiet.idle
                  v.quiet.slots known there)
                λ u w' d. returns (inr (refl, d)))
        | inr good ↦ simp (g.quiet.unlocked, e, known, good) (returns (inl (refl, refl)))
      ]

  Took-Working :
      (w : World) (t : Task) (rest : List Task) (c : Context) (b : Buffer) (n : Option Task)
      (w' : World)
      → Working none w
      → w.pending_tasks ≡ t ∷ rest
      → Took t rest c b w n w'
      → Working n w'
  Took-Working w t rest c b n w' g e (inl (same, at)) =
      let (v, live) = popped-Working w t rest g e in
      rw (same, at)
        (record {
          quiet = v.quiet;
          clear = v.clear;
          queued = v.queued;
          ahead = keep-Lives w (popped w rest) (same-Keeps w (popped w rest) refl refl) t live;
          sent = v.sent;
          fenced = v.fenced;
          idle = v.idle;
        })
  Took-Working w t rest c b n w' g e (inr (same, d)) =
      subst (λ m. Working m w') (sym same)
        (dropped t c b (popped w rest) w' (popped-Working w t rest g e).0 d)

  -- What a turn that takes a task finds and leaves.
  abbrev pub Front : World → Option Task → World → Type 0
  Front w n w' =
      (t : Task) × (rest : List Task) × (c : Context) × (b : Buffer) × (w.pending_tasks ≡ t ∷ rest)
      × (w.contexts t.ctx ≡ some c)
      × Took t rest c b w n w'

  get_next_of :
      (w : World) (ts : List Task)
      → Working none w
      → w.pending_tasks ≡ ts
      → ts ≢ []
      → Returns (Front w) (on_get_next hw none w)
  get_next_of w [] g e ne = absurd (ne refl)
  get_next_of w (t ∷ rest) g e ne =
      let ((b, there), (c, known)) = (popped-Working w t rest g e).1 in
      weaken (λ n w' h. (t, rest, c, b, e, known, h)) (get_next-Took w t rest c b g e known there)

  pub on_get_next-Front :
      (w : World)
      → Working none w
      → w.pending_tasks ≢ []
      → Returns (Front w) (on_get_next hw none w)
  on_get_next-Front w g some_task = get_next_of w w.pending_tasks g refl some_task

  pub on_get_next-Working :
      (w : World) → Working none w → w.pending_tasks ≢ [] → Returns Working (on_get_next hw none w)
  on_get_next-Working w g some_task =
      weaken (λ n w' (t, rest, c, b, e, known, h). Took-Working w t rest c b n w' g e h)
        (on_get_next-Front w g some_task)

  Bound-Working :
      (task : Task) (b : Buffer) (s : ℕ) (w w' : World)
      → Working (some task) w
      → Bound task.buff_out b s w w'
      → Working (some task) w'
  Bound-Working task b s w w' g d =
      let k = Bound-Keeps task.buff_out b s w w' d in
      record {
        quiet = d.quiet;
        clear = d.failed ∙ g.clear;
        queued = rw d.pending (keep-AllLive w w' k w.pending_tasks g.queued);
        ahead = keep-Lives w w' k task g.ahead;
        sent = rw d.running (keep-MaybeLives w w' k w.running_task g.sent);
        fenced = rw (d.fence, d.running) g.fenced;
        idle = rw (d.fence, d.running) g.idle;
      }

  pub on_bind_slot-Working :
      (task : Task) (b : Buffer) (w : World)
      → Working (some task) w
      → w.buffers task.buff_out ≡ some b
      → b.binded_slot ≡ none
      → 0 < w.free_slots
      → Returns Working (on_bind_slot hw (some task) w)
  on_bind_slot-Working task b w g there unheld free =
      weaken
        (λ n w' h.
          let (same, (s, d)) = h in
          subst (λ m. Working m w') (sym same) (Bound-Working task b s w w' g d))
        (on_bind_slot-Bound hw drains task b w g.quiet there unheld free)

  Finished-Working :
      (t : Task) (c : Context) (b : Buffer) (w w' : World) (next : Option Task)
      → Working next w
      → Finished t c b w w'
      → w'.failed ≡ false
      → Working next w'
  Finished-Working t c b w w' next g d clear =
      let (v, gone, contexts, buffers) = d.destroyed in
      let kv = Destroyed-Keeps t c b w v gone in
      let k : Keeps w w' = record {
        buffers = λ q e h. rw buffers (kv.buffers q e h);
        contexts = λ x e h. rw contexts (kv.contexts x e h);
      } in
      record {
        quiet = d.quiet;
        clear = clear;
        queued = rw d.pending (keep-AllLive w w' k w.pending_tasks g.queued);
        ahead = keep-MaybeLives w w' k next g.ahead;
        sent = rw d.running tt;
        fenced = λ busy. absurd (busy d.fence);
        idle = λ e. d.running;
      }

  pub on_finish-Working :
      (w : World) (next : Option Task)
      → Working next w
      → w.fence_state ≡ FenceState.reached
      → Returns Working (on_finish hw next w)
  on_finish-Working w next g fence =
      let (t, run) = g.fenced (rw fence λ e. cc) in
      let live : Lives w t = rw run at g.sent in
      let ((b, there), (c, known)) = live in
      weaken
        (λ n w' h.
          let (same, d, clear) = h in
          subst (λ m. Working m w') (sym same) (Finished-Working t c b w w' next g d clear))
        (on_finish-Finished hw drains t c b w next g.quiet run g.clear known there)
