-- ===== src/Buffer/Bounds.antt =====
-- dicedev_buffer_vm_fault and dicedev_buffer_read of dicedev_buffer.c, and the page table.
use dicedev_linux_driver.Base.{
  ℕ, ◌/◌, ◌<◌, ◌≤◌, ◌≡◌, refl, inl, inr, Bool, true, false, Option, none, some, ap, sym, ◌==◌, leb,
  ltb, arith, get_elem?, Bool-cases,
}
use dicedev_linux_driver.Types.{World, Buffer, Context, Page, PageTable}
use dicedev_linux_driver.Monad.{Run, ok, blocked, fault, Returns, returns}
use dicedev_linux_driver.Pt.{Ret, err}
use dicedev_linux_driver.Buffer.Area.{Vma, VmFault, dicedev_buffer_mmap, dicedev_buffer_vm_fault}
use dicedev_linux_driver.Buffer.{
  dice_per_page, read_available, read_empty, reads_available, buff_read_result, dicedev_buffer_read,
}

-- The answer to a page fault at page `off` of the file.
abbrev pub Answers : Buffer → ℕ → VmFault → Type 0
Answers b off VmFault.sigbus = b.pt.num_pages ≤ off
Answers b off (VmFault.mapped page) =
    (off < b.pt.num_pages) × (get_elem? b.pt.pages off ≡ some page)

-- The command returns or sleeps.
abbrev pub NoFault : {A : Type 0} → Run A → Type 0
NoFault (ok a w) = Unit {0}
NoFault blocked = Unit {0}
NoFault (fault e) = ⊥

-- Every page that the table counts is there.
abbrev pub Full : PageTable → Type 0
Full pt = (j : ℕ) → j < pt.num_pages → (page : Page) × (get_elem? pt.pages j ≡ some page)

private_of : Ret Vma → Option ℕ
private_of (err e) = none
private_of (Ret.ok vma) = vma.vm_private_data

-- The area of the file of a buffer has the buffer as private data.
mmap_area :
    (p : ℕ) (area vma : Vma)
    → dicedev_buffer_mmap (some p) area ≡ Ret.ok vma
    → vma.vm_private_data ≡ some p
unfolding private_of dicedev_buffer_mmap
mmap_area p area vma e = sym (ap private_of e)

module _ (p : ℕ) (b : Buffer) (w : World) (there : w.buffers p ≡ some b) (full : Full b.pt) where
  page_in :
      (i : ℕ) → leb b.pt.num_pages i ≡ false → (page : Page) × (get_elem? b.pt.pages i ≡ some page)
  page_in i inside = full i (ground arith)

  vm_fault-Answers :
      (area vma : Vma) (off : ℕ)
      → dicedev_buffer_mmap (some p) area ≡ Ret.ok vma
      → Returns (λ f w'. (w' ≡ w) × Answers b off f) (dicedev_buffer_vm_fault vma off w)
  unfolding dicedev_buffer_vm_fault
  vm_fault-Answers area vma off set =
      rw (mmap_area p area vma set) (elim (Bool-cases (leb b.pt.num_pages off)) [
        | inl behind ↦ rw (there, behind) (returns (refl, ground arith))
        | inr inside ↦
            let (page, at) = page_in off inside in
            rw (there, inside, at) (returns (refl, (ground arith, at)))
      ])

  module _ (c : Context) (unlocked : w.slock ≡ false) (known : w.contexts b.ctx ≡ some c) where
    available : (copy_ok : Bool) → NoFault (read_available p copy_ok b (record w { slock = true }))
    unfolding read_available buff_read_result
    available copy_ok = elim (Bool-cases (leb b.pt.num_pages (b.reader.offset / dice_per_page))) [
      | inl behind ↦ rw behind tt
      | inr inside ↦
          let (page, at) = page_in (b.reader.offset / dice_per_page) inside in
          elim copy_ok as (λ k. NoFault (read_available p k b (record w { slock = true }))) [
            | true ↦ rw (inside, at) tt
            | false ↦ rw (inside, at) tt
          ]
    ]

    buffer_read-NoFault :
        (count : ℕ) (copy_ok : Bool) → NoFault (dicedev_buffer_read p count copy_ok w)
    unfolding dicedev_buffer_read read_empty
    buffer_read-NoFault count copy_ok = elim (Bool-cases (count == 8)) [
      | inr wrong ↦ rw wrong tt
      | inl right ↦ elim (Bool-cases (reads_available b.reader == 0)) [
        | inr left ↦ simp (right, unlocked, there, left) (available copy_ok)
        | inl empty ↦ elim (Bool-cases b.destroyed) [
          | inl gone ↦ simp (right, unlocked, there, empty, gone) tt
          | inr live ↦ elim (Bool-cases (ltb 0 c.task_count)) [
            | inl busy ↦ simp (right, unlocked, there, empty, live, known, busy) tt
            | inr idle ↦ simp (right, unlocked, there, empty, live, known, idle) tt
          ]
        ]
      ]
    ]

    -- With the lock free, buffer and context there, and every page that the table counts there:
    -- a page fault in an area that dicedev_buffer_mmap has set up for the file returns and
    -- changes nothing, with the page at the offset, which the table counts, or VM_FAULT_SIGBUS
    -- if the offset is behind the pages; and a read returns or sleeps, whatever its size and
    -- wherever the offset of the reader stands.
    pub file-NoFault :
        (area vma : Vma) (off count : ℕ) (copy_ok : Bool)
        → dicedev_buffer_mmap (some p) area ≡ Ret.ok vma
        → Returns (λ f w'. (w' ≡ w) × Answers b off f) (dicedev_buffer_vm_fault vma off w)
          × NoFault (dicedev_buffer_read p count copy_ok w)
    file-NoFault area vma off count copy_ok set =
        (vm_fault-Answers area vma off set, buffer_read-NoFault count copy_ok)
