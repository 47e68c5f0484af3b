-- ===== src/Wt/Task.antt =====
-- dicedev_task_get_next_word and dicedev_task_init_it of dicedev_wt.c: a task as an iterator over the
-- words of its commands.
use dicedev_linux_driver.Base.{ℕ, ◌+◌, ◌/◌, ◌%◌, Option, none, some, ◌==◌, if◌then◌else◌, get_elem?}
use dicedev_linux_driver.Dice.{page_size, sub64}
use dicedev_linux_driver.Types.{WriteTask, RunTask, TaskBody, Task}
use dicedev_linux_driver.Monad.{M, Fault, fail, pure, ◌>>=◌, gets, get_buffer}

-- An element of a C array. The array ends behind its last element.
abbrev pub element : {A : Type 0} → Option A → M A
element none = fail Fault.out_of_bounds
element (some a) = pure a

unfoldable pub write_word : WriteTask → M (ℕ × WriteTask)
write_word t = do
  c ← element (get_elem? t.cmd t.it_offset)
  pure (c, record t { it_offset = t.it_offset + 1 })

-- The BUG_ON compares a count of bytes with a count of words.
unfoldable pub write_next : WriteTask → M (ℕ × WriteTask)
unfolding write_word
write_next t = if t.cmd_size == t.it_offset then fail Fault.bug_on else write_word t

unfoldable pub next_page : RunTask → M RunTask
next_page t = do
  b ← get_buffer t.c_buff
  next ← element (get_elem? b.pt.pages (t.curr_pg_no + 1))
  pure (record t { curr_pg_off = 0; curr_pg_no = t.curr_pg_no + 1; curr_pg = next.page })

-- Behind the last word of a page the iterator goes to the next one.
unfoldable pub turn_page : RunTask → M RunTask
unfolding next_page
turn_page t = if t.curr_pg_off == page_size / 4 then next_page t else pure t

unfoldable pub run_next : RunTask → M (ℕ × RunTask)
unfolding turn_page
run_next t = do
  t ← turn_page t
  c ← gets (λ w. w.dma.mem t.curr_pg t.curr_pg_off)
  pure (c, record t { bytes_left = sub64 t.bytes_left 4; curr_pg_off = t.curr_pg_off + 1 })

unfoldable pub body_next : TaskBody → M (ℕ × TaskBody)
unfolding write_next run_next
body_next (TaskBody.write t) = do (c, t) ← write_next t; pure (c, TaskBody.write t)
body_next (TaskBody.run t) = do (c, t) ← run_next t; pure (c, TaskBody.run t)

unfoldable pub dicedev_task_get_next_word : Task → M (ℕ × Task)
unfolding body_next
dicedev_task_get_next_word task = do
  (c, body) ← body_next task.body
  pure (c, record task { body = body })

unfoldable pub init_body : TaskBody → M TaskBody
init_body (TaskBody.write t) = pure (TaskBody.write (record t { it_offset = 0 }))
init_body (TaskBody.run t) = do
  b ← get_buffer t.c_buff
  first ← element (get_elem? b.pt.pages (t.offset / page_size))
  pure (
      TaskBody.run (record t {
        curr_pg_no = t.offset / page_size;
        curr_pg_off = t.offset % page_size % 4;
        curr_pg = first.page;
        bytes_left = t.size;
      }))

unfoldable pub dicedev_task_init_it : Task → M Task
unfolding init_body
dicedev_task_init_it task = do body ← init_body task.body; pure (record task { body = body })
