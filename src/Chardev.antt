-- ===== src/Chardev.antt =====
-- The character device of dicedev_base.c: contexts and their ioctls, and the interrupt handler.
pub mod RunIoctl
pub mod Sets
pub mod Dispatch
pub mod Irq
use dicedev_linux_driver.Base.{
  ℕ, ◌+◌, ◌*◌, ◌-◌, ◌%◌, ◌^◌, Bool, true, false, not, ◌&&◌, ◌||◌, Option, none, some, List, [], ◌∷◌,
  ◌==◌, ltb, leb, if◌then◌else◌, update, bit_and, bit_or,
}
use dicedev_linux_driver.Dice.{
  u64, ◌<<◌, page_size, intr, intr_enable, increment_seed, intr_fence_wait, intr_cmd_error,
  intr_mem_error,
}
use dicedev_linux_driver.Types.{World, Buffer, Context, FenceState, RunTask, TaskBody, Task}
use dicedev_linux_driver.Monad.{
  fput, M, Fault, ok, blocked, fail, pure, ◌>>=◌, ◌>>◌, modify, gets, spin_lock, spin_unlock,
  get_buffer, put_buffer, get_context, put_context,
}
use dicedev_linux_driver.Pt.{Alloc, Errno, Ret, err}
use dicedev_linux_driver.Utils.{Hw, dicedev_iow, dicedev_ior, unbind_slot}
use dicedev_linux_driver.Wt.Thread.{dicedev_wt_add_task}
use dicedev_linux_driver.Buffer.{
  unbind_if, kfree_buffer, dicedev_buffer_init, dicedev_buffer_destroy, dicedev_buffer_get_fd,
}

abbrev pub max_buffer_size : ℕ
max_buffer_size = page_size * 1024

abbrev pub max_allowed : ℕ
max_allowed = (1 << 33) - 1

-- `p` is the address that kzalloc gives, if it gives one.
unfoldable pub dicedev_open : Option ℕ → M (Ret ℕ)
dicedev_open none = pure (err Errno.enomem)
dicedev_open (some p) = do
  put_context p (record { failed = false; task_count = 0; allocated_buffers = [] })
  pure (Ret.ok p)

unfoldable pub mark_destroyed : List ℕ → M (Unit {0})
mark_destroyed [] = pure tt
mark_destroyed (p ∷ ps) = do
  b ← get_buffer p
  put_buffer p (record b { destroyed = true })
  mark_destroyed ps

-- The first part of dicedev_release.
unfoldable pub release_mark : ℕ → M (Unit {0})
unfolding mark_destroyed
release_mark ctx = do
  c ← get_context ctx
  spin_lock
  mark_destroyed c.allocated_buffers
  spin_unlock

unfoldable pub close_buffers : Hw → List ℕ → M (Unit {0})
close_buffers hw [] = pure tt
close_buffers hw (p ∷ ps) = do
  b ← get_buffer p
  spin_lock
  unbind_if hw p b.binded_slot
  spin_unlock
  fput p
  close_buffers hw ps

-- The rest: sleep until no task is left, give the slots back, drop the references of the context to
-- the files of its buffers, and free the context.
unfoldable pub release_rest : Hw → ℕ → M (Unit {0})
unfolding close_buffers
release_rest hw ctx = do
  c ← get_context ctx
  if ltb 0 c.task_count then (λ w. blocked) else do
    close_buffers hw c.allocated_buffers
    modify (λ w. record w { contexts = λ x. if ctx == x then none else w.contexts x })

-- struct dicedev_ioctl_create_set. `size` is the bit pattern of an int.
pub record CreateSet : Type 0 where
  pub size : ℕ
  pub allowed : ℕ

-- cs.size < 0 || cs.size > DICEDEV_MAX_BUFFER_SIZE, on int
abbrev pub bad_size : ℕ → Bool
bad_size size = if leb (2 ^ 31) size then true else ltb max_buffer_size size

-- The calls that a new buffer makes: kzalloc of the buffer, of its table and of the pages, the
-- file, and the descriptor.
pub record NewSet : Type 0 where
  pub alloc : Alloc
  pub buff : Option ℕ
  pub pt_ok : Bool
  pub pages_ok : Bool
  pub file : Option Errno
  pub fd : Ret ℕ

module _ (hw : Hw) (ctx : ℕ) where
  unfoldable pub create_fd : ℕ → Ret ℕ → M (Ret ℕ)
  create_fd p (err e) = do dicedev_buffer_destroy hw p; kfree_buffer p; pure (err e)
  create_fd p (Ret.ok fd) = do
    c ← get_context ctx
    put_context ctx (record c { allocated_buffers = p ∷ c.allocated_buffers })
    pure (Ret.ok fd)

  unfoldable pub create_done : ℕ → Ret ℕ → Ret (Unit {0}) → M (Ret ℕ)
  unfolding create_fd
  create_done p fd (err e) = pure (err Errno.enomem)
  create_done p fd (Ret.ok u) = do r ← dicedev_buffer_get_fd fd p; create_fd p r

  unfoldable pub create_buffer : NewSet → CreateSet → Option ℕ → M (Ret ℕ)
  unfolding create_done
  create_buffer k cs none = pure (err Errno.enomem)
  create_buffer k cs (some p) = do
    r ← dicedev_buffer_init k.alloc k.pt_ok k.pages_ok k.file ctx p cs.size cs.allowed
    create_done p k.fd r

  unfoldable pub dicedev_ioctl_create_set : NewSet → Option CreateSet → M (Ret ℕ)
  unfolding create_buffer
  dicedev_ioctl_create_set k none = pure (err Errno.efault)
  dicedev_ioctl_create_set k (some cs) =
      if bad_size cs.size
      then pure (err Errno.einval)
      else if ltb max_allowed cs.allowed
      then pure (err Errno.einval)
      else create_buffer k cs k.buff

-- What a descriptor leads to: no file, a file with no private data, the file of a buffer, or a file
-- of another kind, whose private data is then taken for a buffer.
pub data FdTarget : Type 0 where
  no_file null_data foreign : FdTarget
  buffer_file : ℕ → FdTarget

pub record RunCmd : Type 0 where
  pub cfd : FdTarget
  pub addr : ℕ
  pub size : ℕ
  pub bfd : FdTarget

-- fdget(fd).file->private_data
abbrev pub private_data : FdTarget → M (Option ℕ)
private_data FdTarget.no_file = fail Fault.null_pointer
private_data FdTarget.null_data = pure none
private_data FdTarget.foreign = fail Fault.out_of_bounds
private_data (FdTarget.buffer_file p) = pure (some p)

abbrev pub run_task : ℕ → ℕ → ℕ → RunCmd → Task
run_task ctx c d r = record {
  ctx = ctx;
  result_count = 0;
  buff_out = d;
  body = TaskBody.run (record {
    c_buff = c;
    offset = r.addr;
    size = r.size;
    curr_pg = 0;
    curr_pg_no = 0;
    curr_pg_off = 0;
    bytes_left = 0;
  });
}

module _ (ctx : ℕ) where
  unfoldable pub run_queue : ℕ → ℕ → RunCmd → Bool → M (Ret (Unit {0}))
  run_queue c d r false = pure (err Errno.enomem)
  run_queue c d r true = do
    spin_lock
    x ← get_context ctx
    put_context ctx (record x { task_count = u64 (x.task_count + 1) })
    spin_unlock
    dicedev_wt_add_task (run_task ctx c d r)
    pure (Ret.ok tt)

  unfoldable pub run_checked : ℕ → ℕ → RunCmd → Bool → M (Ret (Unit {0}))
  unfolding run_queue
  run_checked c d r task_ok = do
    x ← get_context ctx
    if x.failed then pure (err Errno.eio) else run_queue c d r task_ok

  unfoldable pub run_buffers : RunCmd → Bool → Option ℕ → Option ℕ → M (Ret (Unit {0}))
  unfolding run_checked
  run_buffers r task_ok none d = pure (err Errno.einval)
  run_buffers r task_ok (some c) none = pure (err Errno.einval)
  run_buffers r task_ok (some c) (some d) = do
    cb ← get_buffer c
    db ← get_buffer d
    if ltb cb.pt.max_size (u64 (r.addr + r.size))
        then pure (err Errno.einval)
        else if not (cb.ctx == ctx && db.ctx == ctx)
        then pure (err Errno.einval)
        else run_checked c d r task_ok

  unfoldable pub run_fds : RunCmd → Bool → M (Ret (Unit {0}))
  unfolding run_buffers
  run_fds r task_ok = do c ← private_data r.cfd; d ← private_data r.bfd; run_buffers r task_ok c d

  unfoldable pub dicedev_ioctl_run : Option RunCmd → Bool → M (Ret (Unit {0}))
  unfolding run_fds
  dicedev_ioctl_run none task_ok = pure (err Errno.efault)
  dicedev_ioctl_run (some r) task_ok =
      if not (r.addr % 4 == 0 && r.size % 4 == 0)
      then pure (err Errno.einval)
      else run_fds r task_ok

  unfoldable pub wait_for : ℕ → M (Ret (Unit {0}))
  wait_for cnt = do
    c ← get_context ctx
    if ltb cnt c.task_count
        then (λ w. blocked)
        else pure (if c.failed then err Errno.eio else Ret.ok tt)

  unfoldable pub dicedev_ioctl_wait : Option ℕ → M (Ret (Unit {0}))
  unfolding wait_for
  dicedev_ioctl_wait none = pure (err Errno.efault)
  dicedev_ioctl_wait (some cnt) = wait_for cnt

unfoldable pub set_increment : ℕ → M (Ret (Unit {0}))
set_increment e = do spin_lock; dicedev_iow increment_seed e; spin_unlock; pure (Ret.ok tt)

unfoldable pub dicedev_ioctl_seed_increment : Option ℕ → M (Ret (Unit {0}))
unfolding set_increment
dicedev_ioctl_seed_increment none = pure (err Errno.efault)
dicedev_ioctl_seed_increment (some e) =
    if not (e == 0) && not (e == 1) then pure (err Errno.einval) else set_increment e

-- BUG_ON(dev->wt.running_task == NULL)
abbrev pub running : Option Task → M Task
running none = fail Fault.bug_on
running (some t) = pure t

dicedev_ctx_fail : ℕ → M (Unit {0})
dicedev_ctx_fail ctx = do c ← get_context ctx; put_context ctx (record c { failed = true })

isr_error : ℕ → M (Unit {0})
unfolding dicedev_ctx_fail
isr_error istatus =
    if bit_and istatus (bit_or intr_cmd_error intr_mem_error) == 0
    then pure tt
    else do r ← gets (λ w. w.running_task); t ← running r; dicedev_ctx_fail t.ctx

isr_fence : ℕ → M (Unit {0})
isr_fence istatus = if bit_and istatus intr_fence_wait == 0 then pure tt else do
  r ← gets (λ w. w.running_task)
  t ← running r
  modify (λ w. record w { fence_state = FenceState.reached })

isr_handle : ℕ → M (Unit {0})
unfolding isr_error isr_fence
isr_handle istatus =
    if istatus == 0
    then pure tt
    else do dicedev_iow intr istatus; isr_error istatus; isr_fence istatus

-- The result says whether the interrupt was the device's.
unfoldable pub dicedev_isr : Hw → M Bool
unfolding isr_handle
dicedev_isr hw = do
  spin_lock
  status ← dicedev_ior hw intr
  enabled ← dicedev_ior hw intr_enable
  let istatus = bit_and status enabled
  isr_handle istatus
  spin_unlock
  pure (not (istatus == 0))
