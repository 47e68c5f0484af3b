-- ===== src/Buffer/Area.antt =====
-- The pages of a buffer in the memory of a process: dicedev_buffer_mmap and dicedev_buffer_vm_fault of
-- dicedev_buffer.c.
use dicedev_linux_driver.Base.{ℕ, Option, none, some, leb, if◌then◌else◌, get_elem?}
use dicedev_linux_driver.Types.{Page}
use dicedev_linux_driver.Monad.{M, Fault, fail, pure, ◌>>=◌, get_buffer}
use dicedev_linux_driver.Pt.{Errno, Ret, err, ok}

-- dicedev_buffer_vm_ops, whose only operation is dicedev_buffer_vm_fault.
pub data VmOps : Type 0 where
  dicedev_buffer_vm_ops : VmOps

-- struct vm_area_struct, as far as the driver sets it.
pub record Vma : Type 0 where
  pub vm_private_data : Option ℕ
  pub vm_ops : Option VmOps

-- `data` is the private data of the file.
unfoldable pub dicedev_buffer_mmap : Option ℕ → Vma → Ret Vma
dicedev_buffer_mmap none vma = err Errno.einval
dicedev_buffer_mmap (some p) vma =
    ok (record vma { vm_private_data = some p; vm_ops = some VmOps.dicedev_buffer_vm_ops })

-- VM_FAULT_SIGBUS, or the page that is mapped.
pub data VmFault : Type 0 where
  sigbus : VmFault
  mapped : Page → VmFault

abbrev pub map_page : Option Page → M VmFault
map_page none = fail Fault.out_of_bounds
map_page (some p) = pure (VmFault.mapped p)

unfoldable pub fault_in : Option ℕ → ℕ → M VmFault
fault_in none pgoff = fail Fault.null_pointer
fault_in (some p) pgoff = do
  b ← get_buffer p
  if leb b.pt.num_pages pgoff then pure VmFault.sigbus else map_page (get_elem? b.pt.pages pgoff)

unfoldable pub dicedev_buffer_vm_fault : Vma → ℕ → M VmFault
unfolding fault_in
dicedev_buffer_vm_fault vma pgoff = fault_in vma.vm_private_data pgoff
