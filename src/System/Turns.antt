-- ===== src/System/Turns.antt =====
-- The turns of dicedev_wt_fn in dicedev_wt.c as steps of the line of tasks.
use dicedev_linux_driver.Base.{
  ℕ, ◌≡◌, refl, ◌∙◌, sym, ap, subst, Bool, inl, inr, Option, none, some, List, [], ◌∷◌, map, update,
}
use mathlib.Core.Option
use dicedev_linux_driver.Dice.{sub64}
use dicedev_linux_driver.Types.{World, Buffer, Context, Task}
use dicedev_linux_driver.Holdings.{job, holdings, view_at, Steady, same-Steady}
use dicedev_linux_driver.Monad.{
  Ensures, ensured, sleeps, then_ensured, weaker_ensured, Returns-Ensures,
}
use dicedev_linux_driver.Utils.{Hw, Responsive}
use dicedev_linux_driver.Wt.Exec.Frame.{Ran}
use dicedev_linux_driver.Wt.Thread.{WtEvent, on_get_next, on_bind_slot, on_run, handle, wt_turn}
use dicedev_linux_driver.Wt.Thread.Destroy.{Destroyed}
use dicedev_linux_driver.Wt.Thread.Bind.{Bound, on_bind_slot-Bound}
use dicedev_linux_driver.Wt.Thread.Events.{
  Finished, on_finish-Finished, Justified, wt_get_event-Justified,
}
use dicedev_linux_driver.Wt.Thread.Turn.{Lives, MaybeLives, Working}
use dicedev_linux_driver.Wt.Thread.Turn.Handlers.{Took, popped, on_get_next-Front}
use dicedev_linux_driver.Wt.Thread.Turn.Sending.{
  Sending, waiting, fenced_world, on_run-Sending, Ran-Steady,
}
use dicedev_linux_driver.System.Queue.{Move}
use dicedev_linux_driver.System.{tally, count_of, line, line_eq, tally_failed, Into, Into-to}

abbrev counted : Option Context → Option ℕ
counted = Option.map count_of

Destroyed-tally :
    (t : Task) (c : Context) (b : Buffer) (v w : World)
    → Destroyed t c b v w
    → tally w.contexts ≡ update (tally v.contexts) t.ctx (some (sub64 c.task_count 1))
Destroyed-tally t c b v w d =
    view_at count_of v.contexts w.contexts t.ctx
      (some (record c { task_count = sub64 c.task_count 1 })) d.context d.others

Ran-tally : (t : Task) (w v : World) → Ran t w v → tally v.contexts ≡ tally w.contexts
Ran-tally t w v r = elim r.contexts [
  | inl same ↦ ap tally same
  | inr (c, known, failed) ↦ ap tally failed ∙ tally_failed w.contexts t.ctx c known
]

module _ (hw : Hw) (drains : Responsive hw) where
  Took-Into :
      (w : World) (t : Task) (rest : List Task) (c : Context) (b : Buffer) (n : Option Task)
      (w' : World)
      → w.pending_tasks ≡ t ∷ rest
      → w.contexts t.ctx ≡ some c
      → Took hw drains t rest c b w n w'
      → Into [] none w n w'
  Took-Into w t rest c b n w' front known (inl (same, at)) =
      Into-to none w n w' [] [] _ (Move.take refl (ap (map job) front)) (rw (same, at) refl)
  Took-Into w t rest c b n w' front known (inr (same, d)) =
      Into-to none w n w' [] (job t ∷ []) _ (Move.drop refl (ap (map job) front) (ap counted known))
        (line_eq (line n w') _ (ap (Option.map job) d.running) (ap (Option.map job) same)
          (ap (map job) d.pending) (Destroyed-tally t c b (popped hw drains w rest) w' d))

  Took-Steady :
      (w : World) (t : Task) (rest : List Task) (c : Context) (b : Buffer) (n : Option Task)
      (w' : World)
      → Took hw drains t rest c b w n w'
      → Steady w w'
  Took-Steady w t rest c b n w' (inl (same, at)) = ap holdings at
  Took-Steady w t rest c b n w' (inr (same, d)) = d.steady

  bind-Into :
      (t : Task) (b : Buffer) (s : ℕ) (w w' : World) (n : Option Task)
      → n ≡ some t
      → Bound t.buff_out b s w w'
      → Into [] (some t) w n w'
  bind-Into t b s w w' n same d = Into-to (some t) w n w' [] [] _ Move.stay (
      line_eq (line n w') (line (some t) w) (ap (Option.map job) d.running)
        (ap (Option.map job) same) (ap (map job) d.pending) (ap tally d.contexts))

  send-Into :
      (t : Task) (w w' : World) (n : Option Task)
      → w.running_task ≡ none
      → Sending hw drains t w n w'
      → Into [] (some t) w n w'
  send-Into t w w' n idle (same, (v, r, e)) =
      let (t', at, same_job) = r.running in
      Into-to (some t) w n w' [] (job t ∷ []) _ (Move.send refl (ap (Option.map job) idle)) (
        ap (line n) e
        ∙ line_eq (line n (fenced_world hw drains v)) _ (ap (Option.map job) at ∙ ap some same_job)
            (ap (Option.map job) same) (ap (map job) r.pending) (Ran-tally t (waiting w) v r))

  finish-Into :
      (t : Task) (c : Context) (b : Buffer) (next n : Option Task) (w w' : World)
      → w.running_task ≡ some t
      → w.contexts t.ctx ≡ some c
      → n ≡ next
      → Finished t c b w w'
      → Into [] next w n w'
  finish-Into t c b next n w w' runs known same f =
      let (v, d, contexts, buffers) = f.destroyed in
      Into-to next w n w' [] [] _ (Move.finish (ap (Option.map job) runs) (ap counted known)) (
        line_eq (line n w') _ (ap (Option.map job) f.running) (ap (Option.map job) same)
          (ap (map job) f.pending) (ap tally contexts ∙ Destroyed-tally t c b w v d))

  abbrev Turned : Option Task → World → Option Task → World → Type 0
  Turned next w n w' = Into [] next w n w' × Steady w w'

  handle-Turned :
      (stopped parked : Bool) (next : Option Task) (w : World)
      → Working next w
      → (e : WtEvent) → Justified stopped parked w next e
      → Ensures (Turned next w) (handle hw e next w)
  unfolding handle
  handle-Turned stopped parked next w g WtEvent.stop j = ensured (([], Move.stay), refl)
  handle-Turned stopped parked next w g WtEvent.park j = ensured (([], Move.stay), refl)
  handle-Turned stopped parked next w g WtEvent.no_event j = sleeps
  handle-Turned stopped parked next w g WtEvent.task_finish j =
      let (t, runs) = g.fenced (rw j λ e. cc) in
      let live : Lives w t = rw runs at g.sent in
      let ((b, there), (c, known)) = live in
      weaker_ensured
        (Returns-Ensures
          (on_finish-Finished hw drains t c b w next g.quiet runs g.clear known there))
        λ n w' (same, f, clear).
          let (v, d, contexts, buffers) = f.destroyed in
          (
            finish-Into t c b next n w w' runs known same f,
            same-Steady v w' buffers contexts ∙ d.steady,
          )
  handle-Turned stopped parked next w g WtEvent.task_get_next (same, busy, some_task) =
      subst (λ m. Working m w → Ensures (Turned m w) (on_get_next hw m w)) (sym same)
        (λ g'.
          weaker_ensured (Returns-Ensures (on_get_next-Front hw drains w g' some_task))
            λ n w' (t, rest, c, b, front, known, h).
              (Took-Into w t rest c b n w' front known h, Took-Steady w t rest c b n w' h))
        g
  handle-Turned stopped parked next w g WtEvent.task_bind_slot
        (t, b, same, there, fence, unheld, free) =
      subst (λ m. Ensures (Turned m w) (on_bind_slot hw m w)) (sym same)
        (weaker_ensured
          (Returns-Ensures (on_bind_slot-Bound hw drains t b w g.quiet there unheld free))
          λ n w' (still, (s, d)). (bind-Into t b s w w' n still d, d.steady))
  handle-Turned stopped parked next w g WtEvent.task_run (t, b, s, same, there, fence, bound) =
      subst (λ m. Working m w → Ensures (Turned m w) (on_run hw m w)) (sym same)
        (λ g'. weaker_ensured (on_run-Sending hw drains t w g') λ n w' h. (
          send-Into t w w' n (g.idle fence) h,
          let (same_next, (v, r, e)) = h in ap holdings e ∙ Ran-Steady t (waiting w) v r,
        ))
        g

  -- A turn that returns is a step of the line in which no task comes in, and no buffer changes
  -- hands.
  pub wt_turn-Turned :
      (should_stop should_park : Bool) (next : Option Task) (w : World)
      → Working next w
      → Ensures (Turned next w) (wt_turn hw should_stop should_park next w)
  unfolding wt_turn
  wt_turn-Turned should_stop should_park next w g =
      then_ensured
        (Returns-Ensures (
          wt_get_event-Justified w g.quiet.unlocked should_stop should_park next
            (λ t same. (subst (λ n. MaybeLives w n) same g.ahead).0)))
        λ e v j. rw (j.1) (handle-Turned should_stop should_park next w g e j.0)
