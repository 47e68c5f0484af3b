-- ===== src/Wt/Exec.antt =====
-- __wt_run_task of dicedev_wt.c: the commands of a task are checked, given the slot of the output
-- buffer, and fed to the device.
pub mod Plan
pub mod Rounds
pub mod Words
pub mod Refine
pub mod Tasks
pub mod Masks
pub mod Slot
pub mod Isolation
pub mod Program
pub mod Delivery
pub mod Reads
pub mod Frame
pub mod Forward
pub mod Present
use dicedev_linux_driver.Base.{
  ℕ, zero, suc, ◌+◌, ◌-◌, ◌*◌, ◌/◌, ◌^◌, Bool, true, false, not, Option, none, some, [], ◌∷◌, ◌==◌,
  ltb, if◌then◌else◌, length, bit_and, bit_or, bit_xor,
}
use dicedev_linux_driver.Dice.{
  u32, u64, sub64, ◌<<◌, page_size, cmd_type_nop, cmd_type_get_die, cmd_type_new_set,
}
use dicedev_linux_driver.Types.{World, Buffer, Task, TaskBody}
use dicedev_linux_driver.Monad.{
  M, Fault, fault, fail, pure, ◌>>=◌, ◌>>◌, modify, gets, and_then, get_buffer, get_context,
  put_context,
}
use dicedev_linux_driver.Utils.{Hw, feed_cmd}
use dicedev_linux_driver.Wt.Task.{dicedev_task_get_next_word, dicedev_task_init_it}
use dicedev_linux_driver.Wt.Popcount.{numbers_of_bits_set}

abbrev pub cmd_type_mask : ℕ
cmd_type_mask = 0xF

abbrev pub get_die_slot_mask : ℕ
get_die_slot_mask = bit_xor ((1 << 28) - 1) ((1 << 25) - 1)

abbrev pub get_die_num_mask : ℕ
get_die_num_mask = bit_xor ((1 << 20) - 1) ((1 << 5) - 1)

abbrev pub new_set_slot_mask : ℕ
new_set_slot_mask = bit_xor ((1 << 8) - 1) ((1 << 5) - 1)

-- ~x on uint32_t
abbrev pub not32 : ℕ → ℕ
not32 x = 2 ^ 32 - 1 - x

-- The cases of the `switch` on the type of a command.
pub data CmdType : Type 0 where
  nop get_die new_set other : CmdType

unfoldable pub cmd_type : ℕ → CmdType
cmd_type c =
    let t = bit_and c cmd_type_mask in
    if t == cmd_type_nop
    then CmdType.nop
    else if t == cmd_type_get_die
    then CmdType.get_die
    else if t == cmd_type_new_set
    then CmdType.new_set
    else CmdType.other

-- How a round of the loop ends: with `break`, and the bytes left, or at `err_ctx_fail`.
pub data Round : Type 0 where
  next : Task → ℕ → Round
  ctx_fail : Task → Round

module _ (hw : Hw) (slot allowed : ℕ) where
  get_die_fed : ℕ → ℕ → Task → ℕ → M Round
  get_die_fed c0 c1 task left = do
    let count = bit_and c0 get_die_num_mask
    -- computed and not used, as in the source
    let res_count = u64 (count * numbers_of_bits_set c1)
    feed_cmd hw (u32 (bit_or c0 (slot << 24)) ∷ c1 ∷ [])
    pure
        (Round.next (record task { result_count = u64 (task.result_count + count) }) (sub64 left 8))

  get_die_checked : ℕ → ℕ → Task → ℕ → M Round
  unfolding get_die_fed
  get_die_checked c0 c1 task left =
      if not (bit_and c0 get_die_slot_mask == 0)
      then pure (Round.ctx_fail task)
      else if not (bit_and c1 (not32 allowed) == 0)
      then pure (Round.ctx_fail task)
      else get_die_fed c0 c1 task left

  get_die_second : ℕ → Task → ℕ → M Round
  unfolding get_die_checked
  get_die_second c0 task left = do
    (c1, task) ← dicedev_task_get_next_word task
    get_die_checked c0 c1 task left

  round_get_die : ℕ → Task → ℕ → M Round
  unfolding get_die_second
  round_get_die c0 task left =
      if ltb left 4 then pure (Round.ctx_fail task) else get_die_second c0 task left

  new_set_fed : ℕ → Task → ℕ → M Round
  new_set_fed c0 task left = do
    feed_cmd hw (u32 (bit_or c0 (slot << 4)) ∷ [])
    pure (Round.next task (sub64 left 4))

  round_new_set : ℕ → Task → ℕ → M Round
  unfolding new_set_fed
  round_new_set c0 task left =
      if not (bit_and c0 new_set_slot_mask == 0)
      then pure (Round.ctx_fail task)
      else new_set_fed c0 task left

  unfoldable pub switch : ℕ → Task → ℕ → CmdType → M Round
  unfolding round_get_die round_new_set
  switch c0 task left CmdType.nop = pure (Round.next task (sub64 left 4))
  switch c0 task left CmdType.get_die = round_get_die c0 task left
  switch c0 task left CmdType.new_set = round_new_set c0 task left
  switch c0 task left CmdType.other = pure (Round.ctx_fail task)

  unfoldable pub round : Task → ℕ → M Round
  unfolding switch cmd_type
  round task left = do
    (c0, task) ← dicedev_task_get_next_word task
    switch c0 task left (cmd_type c0)

  -- The `while` loop. The result says whether it ended at `err_ctx_fail`.
  unfoldable pub run_loop : ℕ → Task → ℕ → M (Bool × Task)
  unfolding round
  run_loop zero task left w = fault Fault.no_fuel
  run_loop (suc fuel) task left w = elim (left == 0) [
    | true ↦ pure (false, task) w
    | false ↦ and_then (round task left w) (λ r. elim r [
      | Round.next task' left' ↦ run_loop fuel task' left'
      | Round.ctx_fail task' ↦ pure (true, task')
    ])
  ]

-- The rounds given to the loop: each reads a word, and an iterator has no more words than these.
abbrev pub rounds : World → TaskBody → ℕ
rounds w (TaskBody.write t) = length t.cmd + 2
rounds w (TaskBody.run t) = elim (w.buffers t.c_buff) [
  | none ↦ 2
  | some b ↦ page_size / 4 * length b.pt.pages + 2
]

abbrev pub task_size : TaskBody → ℕ
task_size (TaskBody.write t) = t.cmd_size
task_size (TaskBody.run t) = t.size

-- The end of the function. `task` and `running_task` are one object, so its fields change there too.
abbrev pub run_end : ℕ → Bool × Task → M (Unit {0})
run_end ctx (false, task) = modify (λ w. record w { running_task = some task })
run_end ctx (true, task) = do
  modify (λ w. record w { running_task = some task })
  c ← get_context ctx
  put_context ctx (record c { failed = true })

module _ (hw : Hw) where
  unfoldable pub run_bound : Task → Buffer → Option ℕ → M (Unit {0})
  unfolding run_loop
  run_bound task b none = fail Fault.bug_on
  run_bound task b (some slot) = do
    fuel ← gets (λ w. rounds w task.body)
    task ← dicedev_task_init_it task
    r ← run_loop hw slot b.allowed fuel task (task_size task.body)
    run_end task.ctx r

  unfoldable pub wt_run_task : Task → M (Unit {0})
  unfolding run_bound
  wt_run_task task = do
    modify (λ w. record w { running_task = some task })
    b ← get_buffer task.buff_out
    run_bound task b b.binded_slot
