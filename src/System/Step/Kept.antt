-- ===== src/System/Step/Kept.antt =====
-- Each call of System.Step and the invariant.
use dicedev_linux_driver.Base.{ℕ, ◌≡◌, refl, ◌∙◌, sym, ap, subst, Option, inl, inr, List, [], ◌∷◌}
use dicedev_linux_driver.Types.{World, Task}
use dicedev_linux_driver.Holdings.{Job, job, holdings, holdings_eq, buffer_list, view_kept, Steady}
use dicedev_linux_driver.Holdings.Passes.{Fits, Pass}
use dicedev_linux_driver.Monad.{Run, ok, Ensures, ensured, ensured_at, weaker_ensured}
use dicedev_linux_driver.Utils.{Hw, Responsive}
use dicedev_linux_driver.Wt.Thread.Turn.{Working}
use dicedev_linux_driver.Wt.Thread.Turn.Whole.{wt_turn-Ensures}
use dicedev_linux_driver.System.Release.{release_mark-Passed}
use dicedev_linux_driver.System.Release.Rest.{release_rest-Ends}
use dicedev_linux_driver.System.Ioctls.{Called, ioctl-Called, open-Opened}
use dicedev_linux_driver.System.Queue.{Move}
use dicedev_linux_driver.System.Queue.Counts.{Move-Counted}
use dicedev_linux_driver.System.{
  Aside, Passed, Passes, Granted-Passed, Aside-Passed, Passed-Passes, Queued, Beside-Working,
  Beside-Into, Queued-Working, Queued-Into, Into, Into-to, line, enqueued,
}
use dicedev_linux_driver.System.Sides.{isr-Aside}
use dicedev_linux_driver.System.Creation.{memory-Aside}
use dicedev_linux_driver.System.Files.{buffer_read-Aside, buffer_ioctl-Aside}
use dicedev_linux_driver.System.Arrivals.{ForBuffer, OfContext, buffer_write-Queued}
use dicedev_linux_driver.System.Turns.{wt_turn-Turned}
use dicedev_linux_driver.System.Owners.{All, Owned-kept}
use dicedev_linux_driver.System.Closing.{get_file-Passed, fput-Passed, buffer_release-Ends}
use dicedev_linux_driver.System.Step.{Sound, Step, Brings}

-- The jobs `i` come in, whose buffers belong to their contexts.
abbrev Goes : List Job → Option Task → World → Option Task → World → Type 0
Goes i n w n' w' = Working n' w' × Into i n w n' w' × Passes w w' × All (Fits (holdings w')) i

abbrev Went : (List Job → Type 0) → Option Task → World → Option Task → World → Type 0
Went B n w n' w' = (i : List Job) × B i × Goes i n w n' w'

abbrev Alone : List Job → Type 0
Alone i = i ≡ []

abbrev Ends : Option Task → World → World → Type 0
Ends n w w' = Working n w' × Into [] n w n w' × Passes w w'

module _ (n : Option Task) (w : World) (g : Working n w) where
  Ends-Went :
      {A : Type 0} {r : Run A} {a : A} {w' : World}
      → Ensures (λ _ v. Ends n w v) r
      → r ≡ ok a w'
      → Went Alone n w n w'
  Ends-Went h e =
      let (g', into, pass) = ensured_at (λ _ v. Ends n w v) h e in ([], refl, (g', into, pass, tt))

  Passed-Ends :
      {A : Type 0} {r : Run A} → Ensures (λ _ v. Passed w v) r → Ensures (λ _ v. Ends n w v) r
  Passed-Ends h = weaker_ensured h λ a v (k, pass, b).
      (Beside-Working w v b n g, Beside-Into n w v b, Passed-Passes w v (k, pass, b))

  Aside-Went :
      {A : Type 0} {r : Run A} {a : A} {w' : World}
      → Ensures (λ _ v. Aside w v) r
      → r ≡ ok a w'
      → Went Alone n w n w'
  Aside-Went h = Ends-Went (Passed-Ends (weaker_ensured h λ a v b. Aside-Passed b))

  module _ (P : Task → Type 0) (B : Job → Type 0) (bring : (t : Task) → P t → B (job t)) where
    arrived : {w' : World} → Queued P w w' → Went (All B) n w n w'
    arrived {w' = w'} (inl same) = (
      [],
      tt,
      (
        Queued-Working P n w w' (inl same) g,
        Into-to n w n w' [] [] (line n w) Move.stay (ap (line n) same),
        subst (Pass (holdings w)) (sym (ap holdings same)) Pass.stay,
        tt,
      ),
    )
    arrived {w' = w'} (inr (t, c, its, live, fits, known, e)) =
        let still : holdings w' ≡ holdings w =
          ap holdings e
          ∙ holdings_eq (holdings (enqueued w t c)) (holdings w) refl
              (view_kept buffer_list w.contexts t.ctx c _ known refl) in
        (
          job t ∷ [],
          (bring t its, tt),
          (
            Queued-Working P n w w' (inr (t, c, its, live, fits, known, e)) g,
            Queued-Into n w w' t c known e,
            subst (Pass (holdings w)) (sym still) Pass.stay,
            (subst (λ h. Fits h (job t)) (sym still) fits, tt),
          ),
        )

  write-Went :
      {A : Type 0} (p : ℕ) {r : Run A} {a : A} {w' : World}
      → Ensures (λ _ v. Queued (ForBuffer p) w v) r
      → r ≡ ok a w'
      → Went (All (λ j. j.buff_out ≡ p)) n w n w'
  write-Went p h e =
      arrived (ForBuffer p) (λ j. j.buff_out ≡ p) (λ t its. its)
        (ensured_at (λ _ v. Queued (ForBuffer p) w v) h e)

  Called-Went : (x : ℕ) {w' : World} → Called x w w' → Went (All (λ j. j.ctx ≡ x)) n w n w'
  Called-Went x {w' = w'} (inl new) =
      let (k, pass, b) = Granted-Passed x w w' new in
      (
        [],
        tt,
        (Beside-Working w w' b n g, Beside-Into n w w' b, Passed-Passes w w' (k, pass, b), tt),
      )
  Called-Went x (inr q) = arrived (OfContext x) (λ j. j.ctx ≡ x) (λ t its. its) q

module _ (hw : Hw) (drains : Responsive hw) where
  Step-Went :
      (n : Option Task) (w : World) (n' : Option Task) (w' : World)
      → Sound n w
      → (step : Step hw n w n' w') → Went (Brings step) n w n' w'
  Step-Went n w n' w' s (Step.turn stop park e) =
      let (into, still) =
        ensured_at (λ m v. Into [] n w m v × Steady w v)
          (wt_turn-Turned hw drains stop park n w s.working) e in
      (
        [],
        refl,
        (
          ensured_at Working (wt_turn-Ensures hw drains n w s.working stop park) e,
          into,
          subst (Pass (holdings w)) (sym still) Pass.stay,
          tt,
        ),
      )
  Step-Went n w n' w' s (Step.interrupt b e) =
      Aside-Went n w s.working (isr-Aside w s.working.quiet hw s.working.sent) e
  Step-Went n w n' w' s (Step.store mem e) =
      Aside-Went n w s.working {r = ok tt (record w { dma = record w.dma { mem = mem } })}
        (ensured (memory-Aside w s.working.quiet (record w.dma { mem = mem }))) (ap (ok tt) (sym e))
  Step-Went n w n' w' s (Step.write p count cmd_ok copied task_ok r e) =
      write-Went n w s.working p
        (buffer_write-Queued w s.working.quiet.unlocked p count cmd_ok copied task_ok) e
  Step-Went n w n' w' s (Step.read p count copy_ok r e) =
      Aside-Went n w s.working (buffer_read-Aside w s.working.quiet p count copy_ok) e
  Step-Went n w n' w' s (Step.seed p cmd copied r e) =
      Aside-Went n w s.working (buffer_ioctl-Aside w s.working.quiet p cmd copied) e
  Step-Went n w n' w' s (Step.ioctl ctx cmd a r fresh e) =
      Called-Went n w s.working ctx
        (ensured_at (λ _ v. Called ctx w v) (ioctl-Called hw ctx w s.working.quiet a fresh cmd) e)
  Step-Went n w n' w' s (Step.open_ctx x r fresh unused e) =
      Ends-Went n w s.working (open-Opened n w x s.working fresh unused) e
  Step-Went n w n' w' s (Step.mark ctx u e) =
      Ends-Went n w s.working
        (Passed-Ends n w s.working (release_mark-Passed w s.working.quiet ctx)) e
  Step-Went n w n' w' s (Step.close ctx u few done e) =
      Ends-Went n w s.working (release_rest-Ends hw drains n w s.working s.counted ctx few done) e
  Step-Went n w n' w' s (Step.share p u users e) =
      Ends-Went n w s.working
        (Passed-Ends n w s.working (get_file-Passed w s.working.quiet p users)) e
  Step-Went n w n' w' s (Step.put p u users e) =
      Ends-Went n w s.working (Passed-Ends n w s.working (fput-Passed w s.working.quiet p users)) e
  Step-Went n w n' w' s (Step.last_close p u unused e) =
      Ends-Went n w s.working (buffer_release-Ends hw drains n w s.working s.owned p unused) e

  -- A call keeps the invariant and is one move of the line.
  abbrev pub Kept : {n n' : Option Task} {w w' : World} → Step hw n w n' w' → Type 0
  Kept {n = n} {n' = n'} {w = w} {w' = w'} step =
      Sound n' w'
      × ((i : List Job) × (o : List Job) × Brings step i × Move (line n w) i o (line n' w'))

  pub Step-Sound :
      (n : Option Task) (w : World) (n' : Option Task) (w' : World)
      → Sound n w
      → (step : Step hw n w n' w') → Kept step
  Step-Sound n w n' w' s step =
      let (i, brings, (g', (o, move), pass, come)) = Step-Went n w n' w' s step in
      (
        record {
          working = g';
          counted = Move-Counted (line n w) i o (line n' w') move s.counted;
          owned = Owned-kept i n w n' w' s.working s.owned (o, move) pass come;
        },
        (i, o, brings, move),
      )
