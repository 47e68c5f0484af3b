-- ===== src/System/Release/Rest.antt =====
-- The second part of dicedev_release of dicedev_base.c: the buffers give their slots back, the context
-- drops its references to their files, and is freed.
use dicedev_linux_driver.Base.{
  ℕ, ◌<◌, ◌^◌, ◌≡◌, refl, ◌∙◌, sym, ap, subst, inl, inr, true, false, Option, none, some, List, [],
  ◌∷◌, map, arith, ltb, ◌==◌, if◌then◌else◌, update, update_ne, Bool-cases, Option-cases,
  ℕ_discrete,
}
use mathlib.Core.Option
use dicedev_linux_driver.Types.{World, Buffer, Context, Task}
use dicedev_linux_driver.Dice.{sub64}
use dicedev_linux_driver.Holdings.{
  Holdings, job, file, buffer_list, holdings, holdings_eq, view_put, view_kept, File, seen,
}
use dicedev_linux_driver.Holdings.Passes.{Pass, has, less}
use dicedev_linux_driver.Monad.{
  fput, Ensures, ensured, faults, sleeps, then_ensured, weaker_ensured,
}
use dicedev_linux_driver.Utils.{Hw, Responsive}
use dicedev_linux_driver.Utils.Slots.{
  same-SlotsAgree, unbound, unbind_slot-unbound, unbound-SlotsAgree,
}
use dicedev_linux_driver.Wt.Thread.Events.{Quiet}
use dicedev_linux_driver.Wt.Thread.Turn.{Lives, AllLive, MaybeLives, Working, replaced_buffer-Keeps}
use dicedev_linux_driver.Buffer.{unbind_if}
use dicedev_linux_driver.Chardev.{close_buffers, release_rest}
use dicedev_linux_driver.System.Queue.{Move, Counted, count, one, to_list, in_flight}
use dicedev_linux_driver.System.Queue.Counts.{count-flight, one_self}
use dicedev_linux_driver.System.{
  Aside, Beside, Beside-Working, Beside-line, Into, Into-to, Passes, line, line_eq, tally, count_of,
}
use dicedev_linux_driver.System.Waiting.{unfinished, count_is}
use dicedev_linux_driver.System.Sides.{as_before, released, replaced, changed}
use dicedev_linux_driver.System.Release.{
  Beside-trans, Beside-Quiet, changed_files, changed_next, open_lock,
}

abbrev without : ℕ → World → World
without ctx v = record v { contexts = λ x. if ctx == x then none else v.contexts x }

module _ (hw : Hw) (drains : Responsive hw) where
  -- A buffer gives its slot back.
  module _ (w : World) (q : Quiet w) (p : ℕ) (b : Buffer) (there : w.buffers p ≡ some b) where
    abbrev locked : World
    locked = record w { slock = true }

    unbound-Aside : (s : ℕ) → b.binded_slot ≡ some s → Aside w (open_lock (unbound locked p b s))
    unbound-Aside s has =
        let w' = open_lock (unbound locked p b s) in
        record {
          lock = refl;
          feed = refl;
          slots =
              same-SlotsAgree (unbound locked p b s) w'
                (unbound-SlotsAgree locked p b s (same-SlotsAgree w locked q.slots refl refl refl)
                  there has)
                refl refl refl;
          failed = refl;
          running = refl;
          pending = refl;
          fence = inl refl;
          counts = refl;
          keeps =
              replaced_buffer-Keeps w w' p (record b { binded_slot = none; usage_count = 0 }) refl
                refl;
          holds =
              holdings_eq (holdings w') (holdings w)
                (view_kept file w.buffers p b (record b { binded_slot = none; usage_count = 0 })
                  there refl)
                refl;
        }

    pub unbind_if-Aside :
        Ensures (λ _ v. Aside w (open_lock v)) (unbind_if hw p b.binded_slot locked)
    unbind_if-Aside = elim (Option-cases b.binded_slot) [
      | inl no_slot ↦ rw no_slot (ensured (released w q))
      | inr (s, has) ↦
          rw (has, unbind_slot-unbound hw drains locked p b s q.idle there has)
            (ensured (unbound-Aside s has))
    ]

  abbrev without_refs : List ℕ → Holdings → Holdings
  without_refs ps h = changed_files less ps h

  -- The context's reference to a file is dropped.
  abbrev put : World → ℕ → Buffer → World
  put v p b = changed v p (record b { file_refs = sub64 b.file_refs 1 }) false

  close-Beside :
      (ps : List ℕ) (w : World)
      → Quiet w
      → (h : Holdings) → without_refs ps (holdings w) ≡ h
      → Ensures (λ _ v. Beside h w v) (close_buffers hw ps w)
  unfolding close_buffers fput
  close-Beside [] w q h e = ensured (subst (λ k. Beside k w w) e (as_before w q))
  close-Beside (p ∷ ps) w q h e = elim (Option-cases (w.buffers p)) [
    | inl gone ↦ rw gone faults
    | inr (b, there) ↦
        simp (there, q.unlocked)
          (then_ensured (unbind_if-Aside w q p b there) λ u v a.
            let o = open_lock v in
            elim (Option-cases (v.buffers p)) [
              | inl gone ↦ rw gone faults
              | inr (d, still) ↦
                  let x = put o p d in
                  let px =
                    Beside-trans w o x a
                      (replaced o (Beside-Quiet w o a) p d _ still refl (holdings x) refl) in
                  let to = changed_next less p ps (holdings w) h d _ o still refl a.holds e in
                  rw still (
                    weaker_ensured (close-Beside ps x (Beside-Quiet w x px) h to)
                      λ u' v' b'. Beside-trans w x v' px b')
            ])
  ]

  -- The context is gone, which counted nothing, and its references with it.
  abbrev pub Freed : ℕ → World → World → Type 0
  Freed ctx w w' =
      (c : Context) × (w.contexts ctx ≡ some c)
      × (c.task_count ≡ 0)
      × ((v : World) × Beside (without_refs c.allocated_buffers (holdings w)) w v
          × (w' ≡ without ctx v))

  pub release_rest-Freed :
      (ctx : ℕ) (w : World) → Quiet w → Ensures (λ _ w'. Freed ctx w w') (release_rest hw ctx w)
  unfolding release_rest
  release_rest-Freed ctx w q = elim (Option-cases (w.contexts ctx)) [
    | inl gone ↦ rw gone faults
    | inr (c, known) ↦ elim (Bool-cases (ltb 0 c.task_count)) [
      | inl busy ↦ rw (known, busy) sleeps
      | inr idle ↦
          simp (known, idle)
            (then_ensured (close-Beside c.allocated_buffers w q _ refl)
              λ u v a. ensured (c, refl, ground arith, (v, a, refl)))
    ]
  ]

-- A world without a context that has no tasks.
module _ (ctx : ℕ) (v w' : World) (e : w' ≡ without ctx v) where
  stays : (t : Task) → one (job t) ctx ≡ 0 → Lives v t → Lives w' t
  stays t other ((b, there), (c, known)) = elim (ℕ_discrete ctx t.ctx) [
    | yes same ↦
        let mine = subst (λ x. one (job t) x ≡ 1) (sym same) (one_self (job t)) in
        absurd (omega arith)
    | no ne ↦
        subst (λ z. Lives z t) (sym e)
          ((b, there), (c, update_ne v.contexts ctx t.ctx none ne ∙ known))
  ]

  all_stay : (ts : List Task) → count ctx (map job ts) ≡ 0 → AllLive v ts → AllLive w' ts
  all_stay [] z h = tt
  all_stay (t ∷ ts) z (l, h) = (stays t (omega arith) l, all_stay ts (omega arith) h)

  maybe_stays :
      (o : Option Task)
      → count ctx (to_list (Option.map job o)) ≡ 0
      → MaybeLives v o
      → MaybeLives w' o
  maybe_stays none z h = tt
  maybe_stays (some t) z h = stays t (omega arith) h

  tally_gone : tally w'.contexts ≡ update (tally v.contexts) ctx none
  tally_gone = ap (λ (z : World). tally z.contexts) e ∙ view_put count_of v.contexts ctx none

  -- Where the context has no task, the invariant of the thread stays.
  gone-Working : (n : Option Task) → unfinished n v ctx ≡ 0 → Working n v → Working n w'
  gone-Working n none_left g =
      let parts = sym (count-flight ctx (line n v)) ∙ none_left in
      record {
        quiet = rw e (record {
          unlocked = g.quiet.unlocked;
          idle = g.quiet.idle;
          slots = same-SlotsAgree v (without ctx v) g.quiet.slots refl refl refl;
        });
        clear = rw e g.clear;
        queued =
            subst (λ ts. AllLive w' ts) (sym (ap (λ (z : World). z.pending_tasks) e))
              (all_stay v.pending_tasks (omega arith) g.queued);
        ahead = maybe_stays n (omega arith) g.ahead;
        sent =
            subst (λ o. MaybeLives w' o) (sym (ap (λ (z : World). z.running_task) e))
              (maybe_stays v.running_task (omega arith) g.sent);
        fenced = rw e g.fenced;
        idle = rw e g.idle;
      }

-- The first part of dicedev_release has marked every buffer of the context, and none has come since.
abbrev pub AllMarked : World → ℕ → Type 0
AllMarked w ctx =
    (c : Context) (p : ℕ) (b : Buffer)
    → w.contexts ctx ≡ some c
    → has p c.allocated_buffers ≡ true
    → w.buffers p ≡ some b
    → b.destroyed ≡ true

module _ (hw : Hw) (drains : Responsive hw) (n : Option Task) (w : World) (g : Working n w)
    (counted : Counted (line n w)) (ctx : ℕ) (few : unfinished n w ctx < 2 ^ 64)
    (done : AllMarked w ctx) where
  -- Once no task of the context is left, its end is a step of the line, and its references to
  -- the files of its buffers are dropped.
  pub release_rest-Ends :
      Ensures (λ _ w'. Working n w' × Into [] n w n w' × Passes w w') (release_rest hw ctx w)
  release_rest-Ends =
      weaker_ensured (release_rest-Freed hw drains ctx w g.quiet)
        λ u w' (c, known, zero, (v, a, e)).
          let before : unfinished n w ctx ≡ 0 = sym (count_is n w counted ctx c known few) ∙ zero in
          let after : unfinished n v ctx ≡ 0 =
            ap (λ l. count ctx (in_flight l)) (Beside-line w v a n) ∙ before in
          (
            gone-Working ctx v w' e n after (Beside-Working w v a n g),
            Into-to n w n w' [] [] _ (Move.leave ctx before) (
                line_eq (line n w') _
                  (ap (λ (z : World). Option.map job z.running_task) e
                    ∙ ap (Option.map job) a.running)
                  refl (ap (λ (z : World). map job z.pending_tasks) e ∙ ap (map job) a.pending)
                  (tally_gone ctx v w' e ∙ ap (λ f. update f ctx none) a.counts)),
            subst (Pass (holdings w))
                (sym (
                  ap holdings e
                  ∙ holdings_eq (holdings (without ctx v)) _
                      (ap (λ (h : Holdings). h.files) a.holds)
                      (view_put buffer_list v.contexts ctx none
                        ∙ ap (λ (h : Holdings). update h.lists ctx none) a.holds)))
                (Pass.leave ctx c.allocated_buffers (ap (Option.map buffer_list) known)
                  λ p f inside is.
                    let (b, there, same) = seen file (w.buffers p) f is in
                    ap (λ (k : File). k.destroyed) (sym same) ∙ done c p b known inside there),
          )
