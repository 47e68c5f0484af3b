-- ===== src/Wt/Exec/Refine.antt =====
-- The loop of __wt_run_task of dicedev_wt.c and the plan of its words.
use dicedev_linux_driver.Base.{
  ℕ, zero, suc, ◌+◌, ◌<◌, ◌≡◌, refl, inl, inr, Bool, true, false, Option, List, [], ◌∷◌, arith,
  ◌==◌, ltb, length, bit_and, Bool-cases,
}
use dicedev_linux_driver.Dice.{u64, sub64}
use dicedev_linux_driver.Types.{Buffer, Dma, TaskBody, Task, World}
use dicedev_linux_driver.Monad.{Run, ok}
use dicedev_linux_driver.Utils.{Hw, Responsive}
use dicedev_linux_driver.Wt.Task.{body_next}
use dicedev_linux_driver.Wt.Exec.{
  CmdType, cmd_type, Round, round, switch, run_loop, get_die_num_mask,
}
use dicedev_linux_driver.Wt.Exec.Plan.{
  Plan, Verdict, stop, feeding, plan, die_words, set_words, die_refused, set_refused,
}
use dicedev_linux_driver.Wt.Exec.Rounds.{
  Yields, Ends, Ready, sent, sent-nil, Ends-feeding, loop_over, loop_next, loop_fail, loop_fault,
  round_fault, round-switch, round_new_set_fed, round_new_set_refused, round_get_die_short,
  round_get_die_fault, round_get_die_refused, round_get_die_fed,
}

module _ (task : Task) (w : World) (r : Run (Bool × Task)) (idle : w.feed_lock ≡ false) where
  Ends-done :
      r ≡ ok (false, task) w → Ends (stop Verdict.done task.result_count) task w r Verdict.done
  Ends-done e = (task.body, rw (sent-nil w idle) e)

  Ends-fail :
      (t : TaskBody)
      → r ≡ ok (true, record task { body = t }) w
      → Ends (stop Verdict.ctx_fail task.result_count) task w r Verdict.ctx_fail
  Ends-fail t e = (t, rw (sent-nil w idle) e)

module _ (hw : Hw) (drains : Responsive hw) (slot allowed : ℕ) (bs : ℕ → Option Buffer)
    (dma : Dma) where
  abbrev pub Follows : List ℕ → ℕ → Task → World → Run (Bool × Task) → Type 0
  Follows words left task w r =
      Ends (plan slot allowed words left task.result_count) task w r
        (plan slot allowed words left task.result_count).verdict

  -- What the induction gives for the words that are left after a round.
  abbrev Later : List ℕ → ℕ → Type 0
  Later words fuel =
      (left : ℕ) (task : Task) (w : World)
      → Ready bs dma w
      → Yields bs dma task.body words
      → Follows words left task w (run_loop hw slot allowed fuel task left w)

  sent-Ready : (cs : List ℕ) {w : World} → Ready bs dma w → Ready bs dma (sent cs w)
  sent-Ready cs r = record { idle = refl; buffers = r.buffers; memory = r.memory }

  module _ (fuel left : ℕ) (task : Task) (w : World) (r : Ready bs dma w) where
    abbrev result : Run (Bool × Task)
    result = run_loop hw slot allowed (suc fuel) task left w

    follow_none : Yields bs dma task.body [] → Follows [] left task w result
    unfolding plan
    follow_none (e, ne, y) = elim (Bool-cases (left == 0)) [
      | inl z ↦
          rw (z, plan) (Ends-done task w _ r.idle (loop_over hw slot allowed fuel task left w z))
      | inr nz ↦
          rw (nz, plan)
            (
              e,
              ne,
              loop_fault hw slot allowed fuel task left w nz
                  (round_fault hw drains slot allowed task left w r.idle (y w r.buffers r.memory)),
            )
    ]

    module _ (more : (left == 0) ≡ false) (c0 : ℕ) (t : TaskBody)
        (read : (v : World)
          → v.buffers ≡ bs
          → v.dma ≡ dma
          → body_next task.body v ≡ ok (c0, t) v) where
      abbrev reads : body_next task.body w ≡ ok (c0, t) w
      reads = read w r.buffers r.memory

      -- A round that goes on, after the words `cs` have been sent.
      follow_next :
          (rest cs : List ℕ) (n left' : ℕ) (t' : TaskBody)
          → Later rest fuel
          → Yields bs dma t' rest
          → round hw slot allowed task left w
            ≡ ok (Round.next (record task { result_count = n; body = t' }) left') (sent cs w)
          → let p = plan slot allowed rest left' n in Ends (feeding cs p) task w result p.verdict
      follow_next rest cs n left' t' later y e =
          let task' : Task = record task { result_count = n; body = t' } in
          rw (loop_next hw slot allowed fuel task left w more e) (
            Ends-feeding cs (plan slot allowed rest left' n) task n t' w _ _
              (later left' task' (sent cs w) (sent-Ready cs r) y))

      follow_skip :
          (rest : List ℕ) (left' : ℕ)
          → Later rest fuel
          → Yields bs dma t rest
          → round hw slot allowed task left w ≡ ok (Round.next (record task { body = t }) left') w
          → let p = plan slot allowed rest left' task.result_count in Ends p task w result p.verdict
      follow_skip rest left' later y e =
          follow_next rest [] task.result_count left' t later y (rw (sent-nil w r.idle) e)

      follow_fail :
          (t' : TaskBody)
          → round hw slot allowed task left w ≡ ok (Round.ctx_fail (record task { body = t' })) w
          → Ends (stop Verdict.ctx_fail task.result_count) task w result Verdict.ctx_fail
      follow_fail t' e =
          Ends-fail task w result r.idle t' (loop_fail hw slot allowed fuel task left w more e)

      follow_set :
          (rest : List ℕ)
          → cmd_type c0 ≡ CmdType.new_set
          → Later rest fuel
          → Yields bs dma t rest
          → let p : Plan = elim (set_refused c0) [
            | true ↦ stop Verdict.ctx_fail task.result_count
            | false ↦
                feeding
                  (set_words slot c0)
                  (plan slot allowed rest (sub64 left 4) task.result_count)
          ] in
            Ends p task w result p.verdict
      follow_set rest e later y = elim (Bool-cases (set_refused c0)) [
        | inl bad ↦ rw bad (
            follow_fail t
              (round_new_set_refused hw drains slot allowed task left w r.idle c0 t reads e bad))
        | inr good ↦ rw good (
            follow_next rest (set_words slot c0) task.result_count (sub64 left 4) t later y
              (round_new_set_fed hw drains slot allowed task left w r.idle c0 t reads e good))
      ]

      follow_one :
          (ty : CmdType)
          → cmd_type c0 ≡ ty
          → Yields bs dma t []
          → Later [] fuel
          → Follows (c0 ∷ []) left task w result
      unfolding plan switch
      follow_one CmdType.nop e y later =
          rw (more, plan, e)
            (follow_skip [] (sub64 left 4) later y
              (round-switch hw drains slot allowed task left w r.idle c0 t reads e))
      follow_one CmdType.get_die e (x, ne, y) later = elim (Bool-cases (ltb left 4)) [
        | inl short ↦
            rw (more, plan, e, short)
              (follow_fail t
                (round_get_die_short hw drains slot allowed task left w r.idle c0 t reads e short))
        | inr long ↦
            rw (more, plan, e, long)
              (
                x,
                ne,
                loop_fault hw slot allowed fuel task left w more (
                    round_get_die_fault hw drains slot allowed task left w r.idle c0 t reads e long
                      (y w r.buffers r.memory)),
              )
      ]
      follow_one CmdType.new_set e y later = rw (more, plan, e) (follow_set [] e later y)
      follow_one CmdType.other e y later =
          rw (more, plan, e)
            (follow_fail t (round-switch hw drains slot allowed task left w r.idle c0 t reads e))

      module _ (c1 : ℕ) (cs : List ℕ) (t' : TaskBody) (y' : Yields bs dma t' cs)
          (read' : (v : World) → v.buffers ≡ bs → v.dma ≡ dma → body_next t v ≡ ok (c1, t') v) where
        follow_die :
            cmd_type c0 ≡ CmdType.get_die
            → ltb left 4 ≡ false
            → Later cs fuel
            → let n = u64 (task.result_count + bit_and c0 get_die_num_mask) in
              let p : Plan = elim (die_refused allowed c0 c1) [
                | true ↦ stop Verdict.ctx_fail task.result_count
                | false ↦ feeding (die_words slot c0 c1) (plan slot allowed cs (sub64 left 8) n)
              ] in
              Ends p task w result p.verdict
        follow_die e long later =
            let reads' : body_next t w ≡ ok (c1, t') w = read' w r.buffers r.memory in
            elim (Bool-cases (die_refused allowed c0 c1)) [
              | inl bad ↦ rw bad (
                  follow_fail t' (
                    round_get_die_refused hw drains slot allowed task left w r.idle c0 t reads c1 t'
                      reads' e long bad))
              | inr good ↦ rw good (
                  follow_next cs (die_words slot c0 c1) _ (sub64 left 8) t' later y' (
                    round_get_die_fed hw drains slot allowed task left w r.idle c0 t reads c1 t'
                      reads' e long good))
            ]

        follow_many :
            (ty : CmdType)
            → cmd_type c0 ≡ ty
            → Later (c1 ∷ cs) fuel
            → Later cs fuel
            → Follows (c0 ∷ c1 ∷ cs) left task w result
        unfolding plan switch
        follow_many CmdType.nop e later later' =
            rw (more, plan, e)
              (follow_skip (c1 ∷ cs) (sub64 left 4) later (t', y', read')
                (round-switch hw drains slot allowed task left w r.idle c0 t reads e))
        follow_many CmdType.get_die e later later' = elim (Bool-cases (ltb left 4)) [
          | inl short ↦
              rw (more, plan, e, short)
                (follow_fail t (
                  round_get_die_short hw drains slot allowed task left w r.idle c0 t reads e short))
          | inr long ↦ rw (more, plan, e, long) (follow_die e long later')
        ]
        follow_many CmdType.new_set e later later' =
            rw (more, plan, e) (follow_set (c1 ∷ cs) e later (t', y', read'))
        follow_many CmdType.other e later later' =
            rw (more, plan, e)
              (follow_fail t (round-switch hw drains slot allowed task left w r.idle c0 t reads e))

  -- The loop fed with the words of an iterator ends as the plan of the words says. It takes a round
  -- for each word at most, and one more.
  pub run_loop-plan :
      (words : List ℕ) (fuel left : ℕ) (task : Task) (w : World)
      → length words < fuel
      → Ready bs dma w
      → Yields bs dma task.body words
      → Follows words left task w (run_loop hw slot allowed fuel task left w)
  unfolding plan
  run_loop-plan [] zero left task w h r y = absurd (omega arith)
  run_loop-plan (c0 ∷ []) zero left task w h r y = absurd (omega arith)
  run_loop-plan (c0 ∷ c1 ∷ cs) zero left task w h r y = absurd (omega arith)
  run_loop-plan [] (suc fuel) left task w h r y = follow_none fuel left task w r y
  run_loop-plan (c0 ∷ []) (suc fuel) left task w h r (t, y, read) = elim (Bool-cases (left == 0)) [
    | inl z ↦
        rw (z, plan) (Ends-done task w _ r.idle (loop_over hw slot allowed fuel task left w z))
    | inr more ↦
        follow_one fuel left task w r more c0 t read (cmd_type c0) refl y
          (λ l k v rv yv. run_loop-plan [] fuel l k v (omega arith) rv yv)
  ]
  run_loop-plan (c0 ∷ c1 ∷ cs) (suc fuel) left task w h r (t, (t', y', read'), read) =
      elim (Bool-cases (left == 0)) [
        | inl z ↦
            rw (z, plan) (Ends-done task w _ r.idle (loop_over hw slot allowed fuel task left w z))
        | inr more ↦
            follow_many fuel left task w r more c0 t read c1 cs t' y' read' (cmd_type c0) refl
              (λ l k v rv yv. run_loop-plan (c1 ∷ cs) fuel l k v (omega arith) rv yv)
              (λ l k v rv yv. run_loop-plan cs fuel l k v (omega arith) rv yv)
      ]
