-- ===== src/Chardev/Sets.antt =====
-- The sizes that dicedev_ioctl_create_set of dicedev_base.c accepts, and the tables that
-- dicedev_pt_init of dicedev_pt.c makes for them.
use dicedev_linux_driver.Base.{ℕ, ◌/◌, ◌≤◌, ◌≡◌, Bool, false, arith}
use dicedev_linux_driver.Dice.{page_size}
use dicedev_linux_driver.Types.{PageTable, Dma}
use dicedev_linux_driver.Pt.{Alloc, Ret, ok, err, dicedev_pt_init}
use dicedev_linux_driver.Pt.Balance.{Fresh}
use dicedev_linux_driver.Pt.Entries.{Mapped, pt_init-Mapped}
use dicedev_linux_driver.Buffer.Bounds.{Full}
use dicedev_linux_driver.Chardev.{bad_size, max_buffer_size}

-- The entries of the table lie on its page, and every page that it counts is there.
abbrev pub Fits : Ret PageTable × Dma → Type 0
Fits (err e, d) = Unit {0}
Fits (ok t, d) = (t.num_pages ≤ page_size / 4) × Full t

accepted : (size : ℕ) → bad_size size ≡ false → size ≤ max_buffer_size
accepted size e = ground arith

module _ (alloc : Alloc) (fresh : Fresh alloc) where
  Mapped-Fits :
      (size : ℕ) (r : Ret PageTable × Dma) → size ≤ max_buffer_size → Mapped size r → Fits r
  Mapped-Fits size (err e, d) small m = tt
  Mapped-Fits size (ok t, d) small (max, holds, least, maps) =
      (omega arith, λ j lt. let (page, at, entry) = maps j lt in (page, at))

  -- For every size that DICEDEV_IOCTL_CREATE_SET accepts, and an allocator that gives only pages
  -- that are not in use: if dicedev_pt_init succeeds, the table has the least number of pages
  -- that hold the size, its entries, at most 1024, lie on the page of the table, entry j is made
  -- of the device's address of page j, and every page is there.
  pub create_set-Fits :
      (size : ℕ) (kzalloc_ok : Bool) (d : Dma)
      → bad_size size ≡ false
      → let r = dicedev_pt_init alloc kzalloc_ok size d in Mapped size r × Fits r
  create_set-Fits size kzalloc_ok d ok_size =
      let small = accepted size ok_size in
      let (m, inside) = pt_init-Mapped alloc fresh kzalloc_ok size d (omega arith) in
      (m, Mapped-Fits size (dicedev_pt_init alloc kzalloc_ok size d) small m)
