-- ===== src/Wt/Thread/Turn/Sending.antt =====
-- WT_EVENT_TASK_RUN of dicedev_wt_fn in dicedev_wt.c and the invariant of the thread.
use dicedev_linux_driver.Base.{
  inl, inr, ◌≡◌, refl, ◌≢◌, ◌∙◌, sym, ap, subst, Option, true, false, none, some, [], ◌∷◌,
}
use dicedev_linux_driver.Dice.{u32, fence_header, cmd_fence_wait}
use dicedev_linux_driver.Types.{World, Context, FenceState, Task}
use dicedev_linux_driver.Holdings.{
  Job, view_kept, file, buffer_list, holdings, holdings_eq, view, Steady, same-Steady,
}
use dicedev_linux_driver.Monad.{
  ok, Returns, returns, bind, ensured_at, Ensures, ensured, then_ensured, weaker_ensured,
}
use dicedev_linux_driver.Utils.{Hw, Responsive, dicedev_iow}
use dicedev_linux_driver.Utils.Feed.{fed, feed_cmd-fed}
use dicedev_linux_driver.Utils.Slots.{same-SlotsAgree}
use dicedev_linux_driver.Wt.Exec.{wt_run_task}
use dicedev_linux_driver.Wt.Exec.Frame.{Ran, wt_run_task-Ran}
use dicedev_linux_driver.Wt.Exec.Plan.{Plan, Verdict}
use dicedev_linux_driver.Wt.Exec.Tasks.{Executed}
use dicedev_linux_driver.Wt.Thread.{task_fence_val, on_run}
use dicedev_linux_driver.Wt.Thread.Turn.{
  Lives, Working, Keeps, keep-Lives, keep-AllLive, same-Keeps, replaced-Keeps,
}

abbrev pub waiting : World → World
waiting w = record w { fence_state = FenceState.waiting }

-- A task that does not run past its words.
module _ (hw : Hw) (drains : Responsive hw) (t : Task) (w : World)
    (unlocked : w.feed_lock ≡ false) where
  runs_to :
      (v : World) → wt_run_task hw t w ≡ ok tt v → Returns (λ _ w'. Ran t w w') (wt_run_task hw t w)
  runs_to v e =
      let r = ensured_at (λ _ w'. Ran t w w') (wt_run_task-Ran hw drains t w unlocked) e in
      rw e (returns r)

  pub Executed-Ran :
      (p : Plan) (c : Context) (v : Verdict)
      → v ≢ Verdict.overrun
      → Executed p t c w (wt_run_task hw t w) v
      → Returns (λ _ w'. Ran t w w') (wt_run_task hw t w)
  Executed-Ran p c Verdict.done ne (body, e) = runs_to _ e
  Executed-Ran p c Verdict.ctx_fail ne (body, e) = runs_to _ e
  Executed-Ran p c Verdict.overrun ne h = absurd (ne refl)

-- No buffer and no context goes.
pub Ran-Keeps : (t : Task) (w v : World) → Ran t w v → Keeps w v
Ran-Keeps t w v r = elim r.contexts [
  | inl same ↦ same-Keeps w v r.buffers same
  | inr (c, known, failed) ↦ replaced-Keeps w v t.ctx (record c { failed = true }) r.buffers failed
]

pub Ran-Steady : (t : Task) (w v : World) → Ran t w v → Steady w v
Ran-Steady t w v r = elim r.contexts [
  | inl same ↦ same-Steady w v r.buffers same
  | inr (c, known, failed) ↦ holdings_eq (holdings v) (holdings w) (ap (view file) r.buffers) (
      ap (view buffer_list) failed
      ∙ view_kept buffer_list w.contexts t.ctx c (record c { failed = true }) known refl)
]

module _ (hw : Hw) (drains : Responsive hw) where
  waits : FenceState.waiting ≢ FenceState.none
  waits e = cc

  abbrev pub fenced_world : World → World
  fenced_world v = record v {
    slock = false;
    feed_lock = false;
    writes =
        fed (u32 (fence_header task_fence_val) ∷ []) ((cmd_fence_wait, task_fence_val) ∷ v.writes);
  }

  sent_Working :
      (t : Task) (w v : World)
      → Working (some t) w
      → Ran t (waiting w) v
      → Working none (fenced_world v)
  sent_Working t w v g r =
      let kept = Ran-Keeps t (waiting w) v r in
      let k : Keeps w (fenced_world v) = record {
        buffers = kept.buffers;
        contexts = kept.contexts;
      } in
      let (t', at, same) = r.running in
      let same_ctx = ap (λ (j : Job). j.ctx) same in
      let same_buff = ap (λ (j : Job). j.buff_out) same in
      let live : Lives (fenced_world v) t = keep-Lives w (fenced_world v) k t g.ahead in
      record {
        quiet = record {
          unlocked = refl;
          idle = refl;
          slots = same-SlotsAgree w (fenced_world v) g.quiet.slots r.slots r.free r.buffers;
        };
        clear = r.failed ∙ g.clear;
        queued = rw r.pending (keep-AllLive w (fenced_world v) k w.pending_tasks g.queued);
        ahead = tt;
        sent = rw (at, same_ctx, same_buff) live;
        fenced = λ busy. (t', at);
        idle = λ e. absurd (waits (sym r.fence ∙ e));
      }

  pub on_run-Working :
      (t : Task) (w : World)
      → Working (some t) w
      → Returns (λ _ v. Ran t (waiting w) v) (wt_run_task hw t (waiting w))
      → Returns Working (on_run hw (some t) w)
  unfolding on_run dicedev_iow
  on_run-Working t w g runs = bind runs λ u v r.
      let open_lock : v.slock ≡ false = r.lock ∙ g.quiet.unlocked in
      rw
        (
          open_lock,
          feed_cmd-fed hw drains (u32 (fence_header task_fence_val) ∷ [])
              (record v { slock = true; writes = (cmd_fence_wait, task_fence_val) ∷ v.writes })
              r.idle,
        )
        (returns (sent_Working t w v g r))

  -- What a turn that sends leaves.
  abbrev pub Sending : Task → World → Option Task → World → Type 0
  Sending t w n w' = (n ≡ none) × ((v : World) × Ran t (waiting w) v × (w' ≡ fenced_world v))

  -- The same, whatever the words of the task are, if the turn returns.
  pub on_run-Sending :
      (t : Task) (w : World) → Working (some t) w → Ensures (Sending t w) (on_run hw (some t) w)
  unfolding on_run dicedev_iow
  on_run-Sending t w g =
      then_ensured (wt_run_task-Ran hw drains t (waiting w) g.quiet.idle) λ u v r.
        let open_lock : v.slock ≡ false = r.lock ∙ g.quiet.unlocked in
        rw
          (
            open_lock,
            feed_cmd-fed hw drains (u32 (fence_header task_fence_val) ∷ [])
                (record v { slock = true; writes = (cmd_fence_wait, task_fence_val) ∷ v.writes })
                r.idle,
          )
          (ensured (refl, (v, r, refl)))

  pub on_run-Ensures :
      (t : Task) (w : World) → Working (some t) w → Ensures Working (on_run hw (some t) w)
  on_run-Ensures t w g = weaker_ensured (on_run-Sending t w g) λ n w' (same, (v, r, e)).
      subst (λ m. Working m w') (sym same) (subst (Working none) (sym e) (sent_Working t w v g r))
