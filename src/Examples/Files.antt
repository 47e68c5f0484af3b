-- ===== src/Examples/Files.antt =====
-- The theorems on the files of buffers and contexts, and on the interrupt, at the device of the
-- example.
use dicedev_linux_driver.Base.{
  ℕ, zero, suc, ◌≡◌, refl, arith, true, some, none, subst, some-injective,
}
use dicedev_linux_driver.Types.{World, Buffer}
use dicedev_linux_driver.Monad.{ok, Returns, Ensures}
use dicedev_linux_driver.Pt.{Ret}
use dicedev_linux_driver.Buffer.Area.{Vma, VmOps, dicedev_buffer_mmap, dicedev_buffer_vm_fault}
use dicedev_linux_driver.Buffer.{dicedev_buffer_read, dicedev_buffer_release}
use dicedev_linux_driver.Buffer.Sequence.{reads, ReadOn, reads-ReadOn}
use dicedev_linux_driver.Buffer.Destroy.{Released, buffer_release-Released}
use dicedev_linux_driver.Chardev.{dicedev_ioctl_run, dicedev_isr}
use dicedev_linux_driver.Chardev.RunIoctl.{run_cmd, run_queued, ioctl_run-outcome}
use dicedev_linux_driver.Chardev.Dispatch.{IoctlArg, dicedev_ioctl}
use dicedev_linux_driver.Chardev.Irq.{handled, isr-handled}
use dicedev_linux_driver.Buffer.Bounds.{Full, Answers, NoFault, file-NoFault}
use dicedev_linux_driver.System.Ioctls.{Called, ioctl-Called}
use dicedev_linux_driver.Examples.{
  table, world-Quiet, ready_hw, ready_hw-Responsive, first_page, loose, held, ctx, roll, world,
  world-SlotsAgree,
}

abbrev full : Buffer
full = record held { reader = record { result_count = 32; offset = 3 } }

abbrev full_world : World
full_world = record world { buffers = λ p. some full }

abbrev busy_world : World
busy_world = record world { running_task = some roll }

buffer_release-Released_example :
    Returns (λ _ w'. Released 1 held world w') (dicedev_buffer_release ready_hw 1 world)
buffer_release-Released_example =
    buffer_release-Released ready_hw ready_hw-Responsive 1 held world refl refl world-SlotsAgree
      refl

ioctl_run-outcome_example :
    dicedev_ioctl_run 3 (some (run_cmd 8 16 2 1)) true world
    ≡ ok (Ret.ok tt) (run_queued 3 8 16 2 1 ctx world)
ioctl_run-outcome_example =
    ioctl_run-outcome 3 8 16 2 1 ctx world true loose held refl refl refl refl

isr-handled_example : dicedev_isr ready_hw busy_world ≡ ok true (handled busy_world 3 ctx 1)
isr-handled_example = isr-handled ready_hw busy_world roll ctx refl refl refl

table-Full : Full table
table-Full zero lt = (first_page, refl)
table-Full (suc zero) lt = (record { page = 8; dma_handler = 0x8000 }, refl)
table-Full (suc (suc j)) lt = absurd (omega arith)

-- The offset of the reader lies behind the pages.
abbrev behind : Buffer
behind = record held { reader = record { result_count = 3000; offset = 2000 } }

abbrev behind_world : World
behind_world = record world { buffers = λ p. some behind }

-- An area of the memory of a process, before and after mmap.
abbrev area : Vma
area = record { vm_private_data = none; vm_ops = none }

abbrev mapped_area : Vma
mapped_area = record { vm_private_data = some 1; vm_ops = some VmOps.dicedev_buffer_vm_ops }

area-mapped : dicedev_buffer_mmap (some 1) area ≡ Ret.ok mapped_area
unfolding dicedev_buffer_mmap
area-mapped = refl

file-NoFault_example :
    Returns
      (λ f w'. (w' ≡ behind_world) × Answers behind 5 f)
      (dicedev_buffer_vm_fault mapped_area 5 behind_world)
    × NoFault (dicedev_buffer_read 1 8 true behind_world)
file-NoFault_example =
    file-NoFault 1 behind behind_world refl table-Full ctx refl refl area mapped_area 5 8 true
      area-mapped

-- An ioctl that creates a buffer at the address 4.
abbrev create_arg : IoctlArg
create_arg = record {
  set = some (record { size = 4096; allowed = 1 });
  new_set = record {
    alloc = λ d. some first_page;
    buff = some 4;
    pt_ok = true;
    pages_ok = true;
    file = none;
    fd = Ret.ok 5;
  };
  run = none;
  task_ok = true;
  wait = none;
  increment = none;
}

ioctl-Called_example :
    Ensures (λ _ w'. Called 3 world w') (dicedev_ioctl ready_hw 3 0 create_arg world)
ioctl-Called_example = ioctl-Called ready_hw 3 world world-Quiet create_arg four_is_free 0
  where
    four_is_free : (p : ℕ) → some 4 ≡ some p → world.buffers p ≡ none
    four_is_free p e =
        let same = some-injective 4 p e in subst (λ q. world.buffers q ≡ none) same refl

reads-ReadOn_example : Returns (ReadOn 1 full 3 full_world) (reads 1 3 full_world)
reads-ReadOn_example =
    reads-ReadOn 3 1 full_world full refl refl table-Full (omega arith) (omega arith) (omega arith)
