-- ===== src/Wt/Exec/Tasks.antt =====
-- __wt_run_task as a whole, on a write task and on a run task.
use dicedev_linux_driver.Base.{
  ℕ, ◌+◌, ◌*◌, ◌/◌, ◌%◌, ◌<◌, ◌≡◌, ◌≢◌, refl, Bool, true, false, some, List, arith, length, update,
  get_elem?, get_elem?_bound, drop, get_elem?-drop, length-drop_le,
}
use dicedev_linux_driver.Dice.{page_size}
use dicedev_linux_driver.Types.{Buffer, Context, Page, WriteTask, RunTask, TaskBody, Task, World}
use dicedev_linux_driver.Monad.{Run, Fault, ok, fault, and_then}
use dicedev_linux_driver.Utils.{Hw, Responsive}
use dicedev_linux_driver.Wt.Task.{dicedev_task_init_it}
use dicedev_linux_driver.Wt.Exec.{run_end, rounds, task_size, wt_run_task}
use dicedev_linux_driver.Wt.Exec.Plan.{Plan, Verdict, plan}
use dicedev_linux_driver.Wt.Exec.Rounds.{Yields, Ends, after}
use dicedev_linux_driver.Wt.Exec.Words.{write_Yields, run_words, run_Yields, length-run_words}
use dicedev_linux_driver.Wt.Exec.Refine.{run_loop-plan}

-- How the function ends by a plan. The task that ran is left in `running_task`, with its count.
abbrev pub Executed : Plan → Task → Context → World → Run (Unit {0}) → Verdict → Type 0
Executed p task c w r Verdict.done =
    (t : TaskBody) × (r
      ≡ ok tt (record (after p w) {
        running_task = some (record task { result_count = p.count; body = t });
      }))
Executed p task c w r Verdict.ctx_fail =
    (t : TaskBody) × (r
      ≡ ok tt (record (after p w) {
        running_task = some (record task { result_count = p.count; body = t });
        contexts = update w.contexts task.ctx (some (record c { failed = true }));
      }))
Executed p task c w r Verdict.overrun = (e : Fault) × (e ≢ Fault.no_fuel) × (r ≡ fault e)

module _ (hw : Hw) (task : Task) (c : Context) (w : World)
    (known : w.contexts task.ctx ≡ some c) where
  abbrev started : World
  started = record w { running_task = some task }

  Ends-Executed :
      (p : Plan) (t : TaskBody) (r : Run (Bool × Task)) (v : Verdict)
      → Ends p (record task { body = t }) started r v
      → Executed p task c w (and_then r (run_end task.ctx)) v
  Ends-Executed p t r Verdict.done (t', e) = (t', rw e)
  Ends-Executed p t r Verdict.ctx_fail (t', e) = (t', rw (e, known))
  Ends-Executed p t r Verdict.overrun (x, ne, e) = (x, ne, rw e)

  module _ (drains : Responsive hw) (b : Buffer) (slot : ℕ) (idle : w.feed_lock ≡ false)
      (exists : w.buffers task.buff_out ≡ some b) (bound : b.binded_slot ≡ some slot) where
    wt_run_task-plan :
        (t : TaskBody) (words : List ℕ)
        → dicedev_task_init_it task started ≡ ok (record task { body = t }) started
        → length words < rounds started task.body
        → Yields w.buffers w.dma t words
        → let p = plan slot b.allowed words (task_size t) task.result_count in
          Executed p task c w (wt_run_task hw task w) p.verdict
    unfolding wt_run_task
    wt_run_task-plan t words init enough y =
        rw (exists, bound, init)
          (Ends-Executed (plan slot b.allowed words (task_size t) task.result_count) t _ _ (
            run_loop-plan hw drains slot b.allowed w.buffers w.dma words (rounds started task.body)
              (task_size t) (record task { body = t }) started enough
              (record { idle = idle; buffers = refl; memory = refl }) y))

    -- __wt_run_task on a write task implements the plan of its words. The context and the
    -- output buffer exist, the buffer has a slot, the feed lock is free, the queue of the
    -- device drains, and the size is four times the number of words. Then the call returns with
    -- exactly the words of the plan fed, the results of the plan counted, and the context
    -- failed where the plan says so; and where the plan asks for a word behind the last, the
    -- call runs into a fault other than the lack of fuel.
    pub write_task-plan :
        (t : WriteTask)
        → task.body ≡ TaskBody.write t
        → t.cmd_size ≡ 4 * length t.cmd
        → let p = plan slot b.allowed t.cmd t.cmd_size task.result_count in
          Executed p task c w (wt_run_task hw task w) p.verdict
    unfolding dicedev_task_init_it
    write_task-plan t kind size =
        wt_run_task-plan (TaskBody.write (record t { it_offset = 0 })) t.cmd (rw kind)
          (rw kind (omega arith))
          (write_Yields w.buffers w.dma t.cmd (record t { it_offset = 0 })
            (λ j. let z : 0 + j ≡ j = omega arith in rw z) size (omega arith))

    -- __wt_run_task on a run task at an aligned offset implements the plan of the words from
    -- the start of the page on which the offset lies, through the later pages of the command
    -- buffer: the place inside of the page does not count. Both buffers, the page and the
    -- context exist, the output buffer has a slot, the feed lock is free and the queue drains.
    -- The call feeds, counts and fails as the plan says, or runs into a fault other than the
    -- lack of fuel where the plan asks for a word behind the last page.
    pub run_task-plan :
        (t : RunTask) (cb : Buffer) (first : Page)
        → task.body ≡ TaskBody.run t
        → t.offset % 4 ≡ 0
        → w.buffers t.c_buff ≡ some cb
        → get_elem? cb.pt.pages (t.offset / page_size) ≡ some first
        → let words =
            run_words w.dma
              (drop (t.offset / page_size + 1) cb.pt.pages)
              first.page
              (page_size / 4) in
          let p = plan slot b.allowed words t.size task.result_count in
          Executed p task c w (wt_run_task hw task w) p.verdict
    unfolding dicedev_task_init_it
    run_task-plan t cb first kind aligned there has =
        let words =
          run_words w.dma (drop (t.offset / page_size + 1) cb.pt.pages) first.page
            (page_size / 4) in
        wt_run_task-plan
          (TaskBody.run (record t {
            curr_pg_no = t.offset / page_size;
            curr_pg_off = t.offset % page_size % 4;
            curr_pg = first.page;
            bytes_left = t.size;
          }))
          words (rw (kind, there, has))
          (rw (kind, there)
            (omega (
              arith,
              length-run_words w.dma (drop (t.offset / page_size + 1) cb.pt.pages) first.page
                  (page_size / 4),
              length-drop_le (t.offset / page_size + 1) cb.pt.pages
                  (omega (arith, get_elem?_bound cb.pt.pages (t.offset / page_size) has)),
              get_elem?_bound cb.pt.pages (t.offset / page_size) has,
            )))
          (run_Yields w.buffers w.dma cb _ (page_size / 4) _ (record {
            exists = there;
            place = omega arith;
            behind = get_elem?-drop (t.offset / page_size + 1) cb.pt.pages;
          }))
