-- ===== src/Examples/Memory.antt =====
-- The theorems on page tables at a small memory.
use dicedev_linux_driver.Base.{
  ℕ, ◌/◌, ◌%◌, ◌*◌, ◌≡◌, refl, arith, true, false, none, some, if◌then◌else◌,
}
use dicedev_linux_driver.Dice.{page_size}
use dicedev_linux_driver.Types.{Page, Dma}
use dicedev_linux_driver.Pt.{Alloc, make_pt_entry, dicedev_pt_init}
use dicedev_linux_driver.Pt.Balance.{Fresh, then_free, pt_init-balanced}
use dicedev_linux_driver.Chardev.Sets.{Fits, create_set-Fits}
use dicedev_linux_driver.Pt.Entries.{Mapped, make_pt_entry_page, pt_init-Mapped}

abbrev page_of : ℕ → Page
page_of n = record { page = n; dma_handler = n * page_size }

-- A memory of three pages.
abbrev three_pages : Alloc
three_pages d =
    if d.live 1
    then (if d.live 2 then (if d.live 3 then none else some (page_of 3)) else some (page_of 2))
    else some (page_of 1)

three_pages-Fresh : Fresh three_pages
three_pages-Fresh d p e = ground arith

abbrev unused : Dma
unused = record { mem = λ p i. 0; live = λ p. false; overrun = false }

pt_init-balanced_example :
    let v = then_free (dicedev_pt_init three_pages true 12288 unused) in
    ((q : ℕ) → v.live q ≡ unused.live q) × (v.overrun ≡ false)
pt_init-balanced_example =
    pt_init-balanced three_pages three_pages-Fresh 12288 true unused (omega arith)

pt_init-Mapped_example :
    let r = dicedev_pt_init three_pages true 8192 unused in Mapped 8192 r × (r.1.overrun ≡ false)
pt_init-Mapped_example = pt_init-Mapped three_pages three_pages-Fresh true 8192 unused (omega arith)

make_pt_entry_page_example :
    (make_pt_entry 0x7000 / 16 * page_size ≡ 0x7000) × (make_pt_entry 0x7000 % 16 ≡ 1)
make_pt_entry_page_example = make_pt_entry_page 0x7000 refl (omega arith)

create_set-Fits_example :
    let r = dicedev_pt_init three_pages true 8192 unused in Mapped 8192 r × Fits r
create_set-Fits_example = create_set-Fits three_pages three_pages-Fresh 8192 true unused refl
