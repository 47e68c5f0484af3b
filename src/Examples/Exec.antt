-- ===== src/Examples/Exec.antt =====
-- The theorems on __wt_run_task at the program of the example.
use dicedev_linux_driver.Base.{ℕ, ◌/◌, [], ◌∷◌, ◌≡◌, ◌≢◌, refl, some, false, arith, List}
use dicedev_linux_driver.Types.{TaskBody, WriteTask, RunTask, Task}
use dicedev_linux_driver.Dice.{page_size}
use dicedev_linux_driver.Wt.Popcount.{numbers_of_bits_set}
use dicedev_linux_driver.Wt.Popcount.Bytes.{popcount}
use dicedev_linux_driver.Wt.Popcount.Count.{numbers_of_bits_set-popcount}
use dicedev_linux_driver.Wt.Exec.{cmd_type, wt_run_task}
use dicedev_linux_driver.Wt.Exec.Plan.{Plan, Verdict, plan}
use dicedev_linux_driver.Wt.Exec.Words.{run_words}
use dicedev_linux_driver.Wt.Exec.Tasks.{Executed, write_task-plan, run_task-plan}
use dicedev_linux_driver.Monad.{ok, Returns, Ensures}
use dicedev_linux_driver.Wt.Exec.Frame.{Ran, wt_run_task-Ran}
use dicedev_linux_driver.Utils.Feed.{fed}
use dicedev_linux_driver.Wt.Exec.Delivery.{Sent, write_task-Sent, run_task-Sent, write_task-encode}
use dicedev_linux_driver.Wt.Exec.Program.{get_die_header, encode, translate, counted}
use dicedev_linux_driver.Examples.{
  ready_hw, ready_hw-Responsive, first_page, loose, held, ctx, program, roll, world,
}

abbrev pub roll_plan : Plan
roll_plan = plan 0 0x3F (encode program) 16 0

abbrev run_body : RunTask
run_body = record {
  c_buff = 2;
  offset = 8;
  size = 4;
  curr_pg = 0;
  curr_pg_no = 0;
  curr_pg_off = 0;
  bytes_left = 0;
}

abbrev run_roll : Task
run_roll = record roll { body = TaskBody.run run_body }

abbrev page_words : List ℕ
page_words =
    run_words world.dma (record { page = 8; dma_handler = 0x8000 } ∷ []) first_page.page
      (page_size / 4)

write_task-plan_example :
    Executed roll_plan roll ctx world (wt_run_task ready_hw roll world) roll_plan.verdict
write_task-plan_example =
    write_task-plan ready_hw roll ctx world refl ready_hw-Responsive held 0 refl refl refl
      (record { cmd = encode program; cmd_size = 16; it_offset = 0 }) refl refl

run_task-plan_example :
    let p = plan 0 0x3F page_words 4 0 in
    Executed p run_roll ctx world (wt_run_task ready_hw run_roll world) p.verdict
run_task-plan_example =
    run_task-plan ready_hw run_roll ctx world refl ready_hw-Responsive held 0 refl refl refl
      run_body loose first_page refl refl refl refl

numbers_of_bits_set-popcount_example : numbers_of_bits_set 0x3F ≡ popcount 32 0x3F
numbers_of_bits_set-popcount_example = numbers_of_bits_set-popcount 0x3F (omega arith)

abbrev pub roll_body : WriteTask
roll_body = record { cmd = encode program; cmd_size = 16; it_offset = 0 }

pub roll_inside : roll_plan.verdict ≢ Verdict.overrun
unfolding plan cmd_type get_die_header
roll_inside = λ e. cc

run_inside : let p = plan 0 0x3F page_words 4 0 in p.verdict ≢ Verdict.overrun
unfolding plan cmd_type run_words
run_inside = λ e. cc

write_task-Sent_example : Returns (λ _ w'. Sent 0 0x3F world w') (wt_run_task ready_hw roll world)
write_task-Sent_example =
    write_task-Sent ready_hw roll ctx world refl ready_hw-Responsive held 0 refl refl refl roll_body
      refl refl (omega arith) roll_inside

run_task-Sent_example : Returns (λ _ w'. Sent 0 0x3F world w') (wt_run_task ready_hw run_roll world)
run_task-Sent_example =
    run_task-Sent ready_hw run_roll ctx world refl ready_hw-Responsive held 0 refl refl refl
      run_body loose first_page refl refl refl refl (omega arith) run_inside

write_task-encode_example :
    (body : TaskBody) × (wt_run_task ready_hw roll world
      ≡ ok tt (record world {
        writes = fed (translate 0 program) world.writes;
        feed_lock = false;
        running_task = some (record roll { result_count = counted 0 program; body = body });
      }))
write_task-encode_example =
    write_task-encode ready_hw roll ctx world refl ready_hw-Responsive held 0 refl refl refl
      roll_body program refl refl refl (omega arith, omega arith, refl, tt) (omega arith)

wt_run_task-Ran_example : Ensures (λ _ w'. Ran roll world w') (wt_run_task ready_hw roll world)
wt_run_task-Ran_example = wt_run_task-Ran ready_hw ready_hw-Responsive roll world refl
