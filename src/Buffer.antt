-- ===== src/Buffer.antt =====
-- dicedev_buffer.c: the operations on the file of a buffer. What the kernel answers (allocation,
-- copies from and to the user, descriptors) is an argument.
pub mod Area
pub mod Write
pub mod Read
pub mod Destroy
pub mod Bounds
pub mod Sequence
use dicedev_linux_driver.Base.{
  ℕ, ◌+◌, ◌*◌, ◌/◌, ◌%◌, ◌^◌, Bool, true, false, not, ◌&&◌, Option, none, some, List, ◌∷◌, ◌==◌,
  ltb, leb, if◌then◌else◌, get_elem?,
}
use dicedev_linux_driver.Dice.{u32, u64, sub64, page_size}
use dicedev_linux_driver.Types.{
  World, Page, PageTable, Buffer, Reader, Context, WriteTask, TaskBody, Task, default_seed,
}
use dicedev_linux_driver.Monad.{
  M, Fault, ok, blocked, fail, pure, ◌>>=◌, ◌>>◌, modify, gets, spin_lock, spin_unlock, get_buffer,
  put_buffer, get_context, put_context,
}
use dicedev_linux_driver.Pt.{Alloc, Errno, Ret, err, dicedev_pt_init, dicedev_pt_free}
use dicedev_linux_driver.Utils.{Hw, unbind_slot}
use dicedev_linux_driver.Wt.Thread.{dicedev_wt_add_task}

-- READS_AVAILABLE, on size_t
abbrev pub reads_available : Reader → ℕ
reads_available r = sub64 r.result_count r.offset

-- err_task: `task` has not been set, or is null, and its context is followed.
unfoldable pub write_err_task : ℕ → M (Ret ℕ)
write_err_task ctx = do
  spin_lock
  c ← get_context ctx
  put_context ctx (record c { task_count = sub64 c.task_count 1 })
  fail Fault.null_pointer

abbrev pub write_task : ℕ → ℕ → List ℕ → ℕ → Task
write_task p ctx words count = record {
  ctx = ctx;
  result_count = 0;
  buff_out = p;
  body = TaskBody.write (record { cmd = words; cmd_size = count; it_offset = 0 });
}

-- The allocations and the copy, once the task has been counted.
unfoldable pub write_counted : ℕ → ℕ → ℕ → Bool → Option (List ℕ) → Bool → M (Ret ℕ)
unfolding write_err_task
write_counted p ctx count false copied task_ok = write_err_task ctx
write_counted p ctx count true none task_ok = write_err_task ctx
write_counted p ctx count true (some words) false = write_err_task ctx
write_counted p ctx count true (some words) true = do
  dicedev_wt_add_task (write_task p ctx words count)
  pure (Ret.ok count)

unfoldable pub write_open : ℕ → ℕ → Bool → Option (List ℕ) → Bool → Buffer → M (Ret ℕ)
unfolding write_counted
write_open p count cmd_ok copied task_ok b = do
  c ← get_context b.ctx
  put_context b.ctx (record c { task_count = u64 (c.task_count + 1) })
  spin_unlock
  write_counted p b.ctx count cmd_ok copied task_ok

unfoldable pub write_locked : ℕ → ℕ → Bool → Option (List ℕ) → Bool → M (Ret ℕ)
unfolding write_open
write_locked p count cmd_ok copied task_ok = do
  spin_lock
  b ← get_buffer p
  if b.destroyed
      then (spin_unlock >> pure (err Errno.eperm))
      else write_open p count cmd_ok copied task_ok b

-- `cmd_ok` and `task_ok` say whether the two calls of kmalloc succeed, `copied` is what copy_from_user
-- brings.
unfoldable pub dicedev_buffer_write : ℕ → ℕ → Bool → Option (List ℕ) → Bool → M (Ret ℕ)
unfolding write_locked
dicedev_buffer_write p count cmd_ok copied task_ok =
    if not (count % 4 == 0)
    then pure (err Errno.einval)
    else write_locked p count cmd_ok copied task_ok

-- struct dice
pub record Dice : Type 0 where
  pub value : ℕ
  pub type : ℕ

abbrev pub dice_per_page : ℕ
dice_per_page = page_size / 8

abbrev pub dice_in : ℕ → Option Page → M (Ret Dice)
dice_in off none = fail Fault.out_of_bounds
dice_in off (some page) = do
  value ← gets (λ w. w.dma.mem page.page (2 * (off % dice_per_page)))
  type ← gets (λ w. w.dma.mem page.page (2 * (off % dice_per_page) + 1))
  pure (Ret.ok (record { value = value; type = type }))

-- __buff_read_result
unfoldable pub buff_read_result : ℕ → Buffer → M (Ret Dice)
buff_read_result p b = do
  put_buffer p (record b { reader = record b.reader { offset = u64 (b.reader.offset + 1) } })
  if leb b.pt.num_pages (b.reader.offset / dice_per_page)
      then pure (err Errno.einval)
      else dice_in b.reader.offset (get_elem? b.pt.pages (b.reader.offset / dice_per_page))

abbrev pub copy_result : Bool → Ret Dice → M (Ret (Option Dice))
copy_result copy_ok (err e) = spin_unlock >> pure (err Errno.efault)
copy_result false (Ret.ok d) = spin_unlock >> pure (err Errno.efault)
copy_result true (Ret.ok d) = spin_unlock >> pure (Ret.ok (some d))

unfoldable pub read_available : ℕ → Bool → Buffer → M (Ret (Option Dice))
unfolding buff_read_result
read_available p copy_ok b = do r ← buff_read_result p b; copy_result copy_ok r

-- Nothing to read: sleep while tasks of a live context are left, else report the end.
unfoldable pub read_empty : Buffer → M (Ret (Option Dice))
read_empty b = if b.destroyed then (spin_unlock >> pure (Ret.ok none)) else do
  c ← get_context b.ctx
  if ltb 0 c.task_count then (λ w. blocked) else (spin_unlock >> pure (Ret.ok none))

-- The result is the dice copied to the user, if any: 8 bytes or none.
unfoldable pub dicedev_buffer_read : ℕ → ℕ → Bool → M (Ret (Option Dice))
unfolding read_available read_empty
dicedev_buffer_read p count copy_ok = if not (count == 8) then pure (err Errno.einval) else do
  spin_lock
  b ← get_buffer p
  if reads_available b.reader == 0 then read_empty b else read_available p copy_ok b

abbrev pub buffer_ioctl_seed : ℕ
buffer_ioctl_seed = 0x0

abbrev pub set_seed : ℕ → Option ℕ → M (Ret (Unit {0}))
set_seed p none = pure (err Errno.efault)
set_seed p (some seed) = do
  b ← get_buffer p
  put_buffer p (record b { seed_chg = true; seed = seed })
  pure (Ret.ok tt)

unfoldable pub dicedev_buffer_ioctl : ℕ → ℕ → Option ℕ → M (Ret (Unit {0}))
dicedev_buffer_ioctl p cmd copied =
    if cmd == buffer_ioctl_seed then set_seed p copied else pure (err Errno.enotty)

abbrev pub unbind_if : Hw → ℕ → Option ℕ → M (Unit {0})
unbind_if hw p none = pure tt
unbind_if hw p (some s) = unbind_slot hw p

unfoldable pub dicedev_buffer_destroy : Hw → ℕ → M (Unit {0})
dicedev_buffer_destroy hw p = do
  spin_lock
  b ← get_buffer p
  unbind_if hw p b.binded_slot
  spin_unlock
  modify (λ w. record w { dma = dicedev_pt_free b.pt w.dma })

abbrev pub kfree_buffer : ℕ → M (Unit {0})
kfree_buffer p = modify (λ w. record w { buffers = λ q. if p == q then none else w.buffers q })

unfoldable pub dicedev_buffer_release : Hw → ℕ → M (Unit {0})
unfolding dicedev_buffer_destroy
dicedev_buffer_release hw p = do dicedev_buffer_destroy hw p; kfree_buffer p

abbrev pub new_buffer : PageTable → ℕ → ℕ → Buffer
new_buffer pt ctx allowed = record {
  pt = pt;
  ctx = ctx;
  destroyed = false;
  seed = default_seed;
  seed_chg = false;
  allowed = u32 allowed;
  usage_count = 0;
  binded_slot = none;
  reader = record { result_count = 0; offset = 0 };
  file_refs = 0;
}

-- The file of the buffer with the reference that anon_inode_getfile gives and that of get_file, or
-- the way out at err_fil.
abbrev pub init_file : ℕ → Buffer → Option Errno → M (Ret (Unit {0}))
init_file p b none = do put_buffer p (record b { file_refs = 2 }); pure (Ret.ok tt)
init_file p b (some e) = do
  modify (λ w. record w { dma = dicedev_pt_free b.pt w.dma })
  pure (err e)

abbrev pub init_table : ℕ → ℕ → ℕ → Option Errno → Ret PageTable → M (Ret (Unit {0}))
init_table ctx p allowed file (err e) = pure (err Errno.enomem)
init_table ctx p allowed file (Ret.ok pt) = init_file p (new_buffer pt ctx allowed) file

unfoldable pub dicedev_buffer_init :
    Alloc → Bool → Bool → Option Errno → ℕ → ℕ → ℕ → ℕ → M (Ret (Unit {0}))
dicedev_buffer_init alloc pt_ok pages_ok file ctx p size allowed =
    if not pt_ok then pure (err Errno.enomem) else do
      r ← gets (λ w. dicedev_pt_init alloc pages_ok size w.dma)
      modify (λ w. record w { dma = r.1 })
      init_table ctx p allowed file r.0

-- The descriptor that get_unused_fd_flags gives, if it gives one, is installed for the file.
unfoldable pub dicedev_buffer_get_fd : Ret ℕ → ℕ → M (Ret ℕ)
dicedev_buffer_get_fd (err e) p = pure (err e)
dicedev_buffer_get_fd (Ret.ok fd) p = do
  modify (λ w. record w { installed = (fd, p) ∷ w.installed })
  pure (Ret.ok fd)
