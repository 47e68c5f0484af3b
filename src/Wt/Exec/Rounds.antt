-- ===== src/Wt/Exec/Rounds.antt =====
-- One round of the loop of __wt_run_task, by the first word, and one turn of the loop.
use dicedev_linux_driver.Base.{
  ℕ, suc, ◌+◌, ◌≡◌, refl, ap, sym, ◌∙◌, ◌≢◌, Bool, true, false, Option, List, [], ◌∷◌, ◌++◌, arith,
  ◌==◌, ltb, bit_and,
}
use dicedev_linux_driver.Dice.{u64, sub64, cmd_manual_feed}
use dicedev_linux_driver.Types.{World, Buffer, Dma, TaskBody, Task}
use dicedev_linux_driver.Monad.{Run, Fault, ok, fault}
use dicedev_linux_driver.Utils.{Hw, Responsive}
use dicedev_linux_driver.Utils.Feed.{fed, feed_cmd-fed}
use dicedev_linux_driver.Wt.Task.{body_next, dicedev_task_get_next_word}
use dicedev_linux_driver.Wt.Exec.{
  CmdType, cmd_type, Round, run_loop, round, switch, get_die_num_mask,
}
use dicedev_linux_driver.Wt.Exec.Plan.{
  Plan, Verdict, feeding, die_words, set_words, die_refused, set_refused,
}

-- With these buffers and this memory the iterator gives exactly these words, and then a fault.
abbrev pub Yields : (ℕ → Option Buffer) → Dma → TaskBody → List ℕ → Type 0
Yields bs dma t [] =
    (e : Fault) × (e ≢ Fault.no_fuel)
    × ((w : World) → w.buffers ≡ bs → w.dma ≡ dma → body_next t w ≡ fault e)
Yields bs dma t (c ∷ cs) =
    (t' : TaskBody) × Yields bs dma t' cs
    × ((w : World) → w.buffers ≡ bs → w.dma ≡ dma → body_next t w ≡ ok (c, t') w)

abbrev pub after : Plan → World → World
after p w = record w { writes = fed p.words w.writes; feed_lock = false }

-- How the loop ends by a plan: the task keeps all but its count and its iterator.
abbrev pub Ends : Plan → Task → World → Run (Bool × Task) → Verdict → Type 0
Ends p task w r Verdict.done =
    (t : TaskBody) × (r ≡ ok (false, record task { result_count = p.count; body = t }) (after p w))
Ends p task w r Verdict.ctx_fail =
    (t : TaskBody) × (r ≡ ok (true, record task { result_count = p.count; body = t }) (after p w))
Ends p task w r Verdict.overrun = (e : Fault) × (e ≢ Fault.no_fuel) × (r ≡ fault e)

-- The state that the loop keeps: only the log grows.
pub record Ready (bs : ℕ → Option Buffer) (dma : Dma) (w : World) : Type 0 where
  pub idle : w.feed_lock ≡ false
  pub buffers : w.buffers ≡ bs
  pub memory : w.dma ≡ dma

abbrev pub sent : List ℕ → World → World
sent cs w = record w { writes = fed cs w.writes; feed_lock = false }

pub sent-nil : (w : World) → w.feed_lock ≡ false → sent [] w ≡ w
sent-nil w e = ap (λ b. record w { feed_lock = b }) (sym e)

fed-append : (cs ds : List ℕ) (log : List (ℕ × ℕ)) → fed (cs ++ ds) log ≡ fed ds (fed cs log)
fed-append [] ds log = refl
fed-append (c ∷ cs) ds log = fed-append cs ds ((cmd_manual_feed, c) ∷ log)

pub Ends-feeding :
    (cs : List ℕ) (p : Plan) (task : Task) (n : ℕ) (t : TaskBody) (w : World)
    (r : Run (Bool × Task))
    → (v : Verdict) → Ends p (record task { result_count = n; body = t }) (sent cs w) r v
    → Ends (feeding cs p) task w r v
Ends-feeding cs p task n t w r Verdict.done (t', e) = (t', rw (fed-append cs p.words w.writes) e)
Ends-feeding cs p task n t w r Verdict.ctx_fail (t', e) =
    (t', rw (fed-append cs p.words w.writes) e)
Ends-feeding cs p task n t w r Verdict.overrun h = h

-- One turn of the loop.
module _ (hw : Hw) (slot allowed : ℕ) (fuel : ℕ) (task : Task) (left : ℕ) (w : World) where
  pub loop_over :
      (left == 0) ≡ true → run_loop hw slot allowed (suc fuel) task left w ≡ ok (false, task) w
  unfolding run_loop
  loop_over z = rw (z, run_loop)

  module _ (more : (left == 0) ≡ false) where
    pub loop_next :
        {t : Task} {l : ℕ} {w' : World}
        → round hw slot allowed task left w ≡ ok (Round.next t l) w'
        → run_loop hw slot allowed (suc fuel) task left w ≡ run_loop hw slot allowed fuel t l w'
    unfolding run_loop
    loop_next e = rw (more, run_loop, e)

    pub loop_fail :
        {t : Task} {w' : World}
        → round hw slot allowed task left w ≡ ok (Round.ctx_fail t) w'
        → run_loop hw slot allowed (suc fuel) task left w ≡ ok (true, t) w'
    unfolding run_loop
    loop_fail e = rw (more, run_loop, e)

    pub loop_fault :
        {e : Fault}
        → round hw slot allowed task left w ≡ fault e
        → run_loop hw slot allowed (suc fuel) task left w ≡ fault e
    unfolding run_loop
    loop_fault h = rw (more, run_loop, h)

-- One round, by the first word.
module _ (hw : Hw) (drains : Responsive hw) (slot allowed : ℕ) (task : Task) (left : ℕ) (w : World)
    (idle : w.feed_lock ≡ false) where
  pub round_fault :
      {e : Fault} → body_next task.body w ≡ fault e → round hw slot allowed task left w ≡ fault e
  unfolding round dicedev_task_get_next_word
  round_fault h = rw h

  module _ (c0 : ℕ) (t : TaskBody) (read : body_next task.body w ≡ ok (c0, t) w) where
    pub round-switch :
        {ty : CmdType}
        → cmd_type c0 ≡ ty
        → round hw slot allowed task left w
          ≡ switch hw slot allowed c0 (record task { body = t }) left ty w
    unfolding round dicedev_task_get_next_word
    round-switch e = rw (read, e)

    pub round_new_set_fed :
        cmd_type c0 ≡ CmdType.new_set
        → set_refused c0 ≡ false
        → round hw slot allowed task left w
          ≡ ok (Round.next (record task { body = t }) (sub64 left 4)) (sent (set_words slot c0) w)
    unfolding switch
    round_new_set_fed e ok_slot =
        round-switch e ∙ rw (ok_slot, feed_cmd-fed hw drains (set_words slot c0) w idle)

    pub round_new_set_refused :
        cmd_type c0 ≡ CmdType.new_set
        → set_refused c0 ≡ true
        → round hw slot allowed task left w ≡ ok (Round.ctx_fail (record task { body = t })) w
    unfolding switch
    round_new_set_refused e bad = round-switch e ∙ rw bad

    pub round_get_die_short :
        cmd_type c0 ≡ CmdType.get_die
        → ltb left 4 ≡ true
        → round hw slot allowed task left w ≡ ok (Round.ctx_fail (record task { body = t })) w
    unfolding switch
    round_get_die_short e short = round-switch e ∙ rw short

    pub round_get_die_fault :
        {x : Fault}
        → cmd_type c0 ≡ CmdType.get_die
        → ltb left 4 ≡ false
        → body_next t w ≡ fault x
        → round hw slot allowed task left w ≡ fault x
    unfolding switch dicedev_task_get_next_word
    round_get_die_fault e long h = round-switch e ∙ rw (long, h)

    module _ (c1 : ℕ) (t' : TaskBody) (read' : body_next t w ≡ ok (c1, t') w)
        (e : cmd_type c0 ≡ CmdType.get_die) (long : ltb left 4 ≡ false) where
      pub round_get_die_refused :
          die_refused allowed c0 c1 ≡ true
          → round hw slot allowed task left w ≡ ok (Round.ctx_fail (record task { body = t' })) w
      unfolding switch dicedev_task_get_next_word
      round_get_die_refused bad = round-switch e ∙ rw (long, read') (ground arith)

      pub round_get_die_fed :
          die_refused allowed c0 c1 ≡ false
          → round hw slot allowed task left w
            ≡ ok
                (Round.next
                  (record task {
                    result_count = u64 (task.result_count + bit_and c0 get_die_num_mask);
                    body = t';
                  })
                  (sub64 left 8))
                (sent (die_words slot c0 c1) w)
      unfolding switch dicedev_task_get_next_word
      round_get_die_fed good =
          round-switch e
          ∙ rw (long, read') (ground (arith, feed_cmd-fed hw drains (die_words slot c0 c1) w idle))
