-- ===== src/Wt/Exec/Delivery.antt =====
-- What __wt_run_task of dicedev_wt.c sends to the device for any task, and for the program of a
-- user.
use dicedev_linux_driver.Base.{
  ℕ, ◌+◌, ◌*◌, ◌/◌, ◌%◌, ◌^◌, ◌<◌, ◌≡◌, refl, ◌≢◌, some, false, List, arith, length, get_elem?,
  drop, subst,
}
use dicedev_linux_driver.Dice.{page_size}
use dicedev_linux_driver.Types.{Buffer, Context, Page, WriteTask, RunTask, TaskBody, Task, World}
use dicedev_linux_driver.Monad.{Run, ok, Returns, returns}
use dicedev_linux_driver.Utils.{Hw, Responsive}
use dicedev_linux_driver.Utils.Feed.{fed}
use dicedev_linux_driver.Wt.Exec.{wt_run_task}
use dicedev_linux_driver.Wt.Exec.Plan.{Plan, Verdict, plan}
use dicedev_linux_driver.Wt.Exec.Words.{run_words}
use dicedev_linux_driver.Wt.Exec.Tasks.{Executed, write_task-plan, run_task-plan}
use dicedev_linux_driver.Wt.Exec.Isolation.{Fed, plan-Fed}
use dicedev_linux_driver.Wt.Exec.Program.{Command, encode, Fits, translate, counted, plan-encode}

-- Commands have been fed, and the slots and the buffers are as they were.
abbrev pub Sent : ℕ → ℕ → World → World → Type 0
Sent slot allowed w w' =
    (cs : List ℕ) × Fed slot allowed cs
    × (w'.writes ≡ fed cs w.writes)
    × (w'.buff_slots ≡ w.buff_slots)
    × (w'.buffers ≡ w.buffers)

Executed-Sent :
    (slot allowed : ℕ) (p : Plan) (task : Task) (c : Context) (w : World) (r : Run (Unit {0}))
    → Fed slot allowed p.words
    → (v : Verdict) → v ≢ Verdict.overrun
    → Executed p task c w r v
    → Returns (λ _ w'. Sent slot allowed w w') r
Executed-Sent slot allowed p task c w r f Verdict.done ne (t, e) =
    rw e (returns (p.words, f, refl, refl, refl))
Executed-Sent slot allowed p task c w r f Verdict.ctx_fail ne (t, e) =
    rw e (returns (p.words, f, refl, refl, refl))
Executed-Sent slot allowed p task c w r f Verdict.overrun ne h = absurd (ne refl)

module _ (hw : Hw) (task : Task) (c : Context) (w : World) (known : w.contexts task.ctx ≡ some c)
    (drains : Responsive hw) (b : Buffer) (slot : ℕ) (idle : w.feed_lock ≡ false)
    (exists : w.buffers task.buff_out ≡ some b) (bound : b.binded_slot ≡ some slot) where
  -- Whatever words a write task holds: if the plan of its words does not run past them,
  -- __wt_run_task returns, and what it has fed is a sequence of GET_DIE and NEW_SET commands, the
  -- former with dice that the buffer allows, each for the buffer's slot or, if that is even, the
  -- slot behind it. The slots and the buffers are as they were. Context and buffer exist, the
  -- buffer has a slot below 16, the feed lock is free, the queue drains, and the size is four
  -- times the number of words.
  pub write_task-Sent :
      (t : WriteTask)
      → task.body ≡ TaskBody.write t
      → t.cmd_size ≡ 4 * length t.cmd
      → slot < 16
      → let p = plan slot b.allowed t.cmd t.cmd_size task.result_count in
        p.verdict ≢ Verdict.overrun
        → Returns (λ _ w'. Sent slot b.allowed w w') (wt_run_task hw task w)
  write_task-Sent t kind size small inside =
      let p = plan slot b.allowed t.cmd t.cmd_size task.result_count in
      Executed-Sent slot b.allowed p task c w _
        (plan-Fed slot b.allowed small t.cmd t.cmd_size task.result_count) p.verdict inside
        (write_task-plan hw task c w known drains b slot idle exists bound t kind size)

  -- The same for the words that a run task reads at an aligned offset of its command buffer: if
  -- the plan of the words from the start of the page does not run past the last page,
  -- __wt_run_task returns, and has fed only GET_DIE and NEW_SET commands for the slot of the
  -- output buffer or, if that is even, the slot behind it, with dice that the buffer allows.
  -- Buffers, first page and context exist, the slot is below 16, the feed lock is free and the
  -- queue drains.
  pub run_task-Sent :
      (t : RunTask) (cb : Buffer) (first : Page)
      → task.body ≡ TaskBody.run t
      → t.offset % 4 ≡ 0
      → w.buffers t.c_buff ≡ some cb
      → get_elem? cb.pt.pages (t.offset / page_size) ≡ some first
      → slot < 16
      → let words =
          run_words w.dma
            (drop (t.offset / page_size + 1) cb.pt.pages)
            first.page
            (page_size / 4) in
        let p = plan slot b.allowed words t.size task.result_count in
        p.verdict ≢ Verdict.overrun
        → Returns (λ _ w'. Sent slot b.allowed w w') (wt_run_task hw task w)
  run_task-Sent t cb first kind aligned there has small inside =
      let words =
        run_words w.dma (drop (t.offset / page_size + 1) cb.pt.pages) first.page (page_size / 4) in
      let p = plan slot b.allowed words t.size task.result_count in
      Executed-Sent slot b.allowed p task c w _
        (plan-Fed slot b.allowed small words t.size task.result_count) p.verdict inside
        (run_task-plan hw task c w known drains b slot idle exists bound t cb first kind aligned
          there has)

  -- A program of GET_DIE, NEW_SET and NOP commands whose numbers fit their fields and whose dice
  -- the buffer allows, written as one task, is run to its end: every command is fed in order with
  -- the slot filled in, and 16 results are counted for each roll asked for, without the lowest
  -- bit of their number. The context and the buffer exist, the buffer has a slot, the feed lock
  -- is free, the queue drains, and the size is that of the program and below 2 ^ 64.
  pub write_task-encode :
      (t : WriteTask) (prog : List Command)
      → task.body ≡ TaskBody.write t
      → t.cmd ≡ encode prog
      → t.cmd_size ≡ 4 * length (encode prog)
      → Fits b.allowed prog
      → t.cmd_size < 2 ^ 64
      → (body : TaskBody) × (wt_run_task hw task w
          ≡ ok tt (record w {
            writes = fed (translate slot prog) w.writes;
            feed_lock = false;
            running_task =
                some (record task { result_count = counted task.result_count prog; body = body });
          }))
  write_task-encode t prog kind cmd size fits small =
      let same : t.cmd_size ≡ 4 * length t.cmd = rw cmd size in
      let e : plan slot b.allowed t.cmd t.cmd_size task.result_count ≡ record {
        words = translate slot prog;
        count = counted task.result_count prog;
        verdict = Verdict.done;
      } =
        rw (cmd, size) (plan-encode slot b.allowed prog task.result_count fits (omega arith)) in
      subst (λ (p : Plan). Executed p task c w (wt_run_task hw task w) p.verdict) e
        (write_task-plan hw task c w known drains b slot idle exists bound t kind same)
