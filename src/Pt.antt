-- ===== src/Pt.antt =====
-- dicedev_pt.c: page tables of buffers. dma_alloc_coherent and kzalloc are the kernel's: what they
-- answer is an argument.
pub mod Room
pub mod Balance
pub mod Entries
use dicedev_linux_driver.Base.{
  ℕ, zero, suc, ◌+◌, ◌-◌, ◌*◌, ◌/◌, ◌%◌, ◌^◌, Bool, true, false, ◌&&◌, ◌||◌, leb, Option, none,
  some, List, ◌==◌, if◌then◌else◌, get_elem?, set, replicate, update, bit_and, bit_or,
}
use dicedev_linux_driver.Dice.{u32, u64, ◌>>>◌, page_size}
use dicedev_linux_driver.Types.{Page, PageTable, Dma}

-- The error codes of the kernel that the driver returns.
pub data Errno : Type 0 where
  einval enomem efault eperm eio enotty enospc : Errno
  other : ℕ → Errno  -- passed on from the kernel

pub data Ret (A : Type 0) : Type 0 where
  ok : A → Ret A
  err : Errno → Ret A

-- PRESENT and MAKE_PT_ENTRY
abbrev pub present : ℕ → ℕ
present x = bit_and x 0x1

abbrev pub make_pt_entry : ℕ → ℕ
make_pt_entry addr = u32 (bit_or 0x1 (addr >>> 8))

-- dma_alloc_coherent: the page that it gives, if it gives one.
abbrev pub Alloc : Type 0
Alloc = Dma → Option Page

-- The new page is allocated, and zero (__GFP_ZERO).
abbrev pub allocated : Page → Dma → Dma
allocated p d = record d { live = update d.live p.page true; mem = update d.mem p.page (λ i. 0) }

unfoldable pub page_init : Alloc → Dma → Option (Page × Dma)
page_init alloc d = elim (alloc d) [ none ↦ none | some p ↦ some (p, allocated p d) ]

unfoldable pub page_free : Page → Dma → Dma
page_free p d = record d { live = update d.live p.page false }

abbrev pub null_page : Page
null_page = record { page = 0; dma_handler = 0 }

abbrev pub or_null : Option Page → Page
or_null none = null_page
or_null (some p) = p

abbrev pub page_at : List Page → ℕ → Page
page_at pages i = or_null (get_elem? pages i)

-- The page of the table has room for these entries. An access behind them is noted in `overrun`: what
-- stands there is not known, so nothing is said of a state in which `overrun` is set.
abbrev pub max_entries : ℕ
max_entries = page_size / 4

abbrev pub reach : ℕ → Dma → Dma
reach i d = record d { overrun = d.overrun || leb max_entries i }

-- page_entries[i] = v
abbrev pub write_entry : Page → ℕ → ℕ → Dma → Dma
write_entry pt i v d =
    reach i (record d { mem = update d.mem pt.page (update (d.mem pt.page) i v) })

-- The loop that allocates the pages, from page `i` on: whether it got through, and how far.
unfoldable pub fill : Alloc → ℕ → ℕ → Page → List Page → Dma → Bool × List Page × Dma
unfolding page_init
fill alloc zero i pt pages d = (true, pages, d)
fill alloc (suc rounds) i pt pages d = elim (page_init alloc d) [
  | none ↦ (false, pages, d)
  | some (p, d') ↦
      fill alloc rounds (i + 1) pt (set pages i p)
        (write_entry pt i (make_pt_entry p.dma_handler) d')
]

-- The loop that gives the pages back, up to the first entry that is not present.
unfoldable pub free_present : ℕ → ℕ → Page → List Page → Dma → Dma
unfolding page_free
free_present zero i pt pages d = d
free_present (suc rounds) i pt pages d = elim (present (d.mem pt.page i) == 0) [
  | true ↦ reach i d
  | false ↦ free_present rounds (i + 1) pt pages (page_free (page_at pages i) (reach i d))
]

abbrev pub num_pages_of : ℕ → ℕ
num_pages_of size = u64 (size + page_size - 1) / page_size

-- The end of dicedev_pt_init: success, or the way out at err_pages.
abbrev pub pt_done : Page → ℕ → ℕ → Bool × List Page × Dma → Ret PageTable × Dma
pt_done pt n size (true, pages, d) =
    (ok (record { pt = pt; pages = pages; num_pages = n; max_size = size }), d)
pt_done pt n size (false, pages, d) = (err Errno.enomem, page_free pt (free_present n 0 pt pages d))

unfoldable pub pt_pages : Alloc → Bool → Page → ℕ → Dma → Ret PageTable × Dma
unfolding fill free_present
pt_pages alloc false pt size d = (err Errno.enomem, page_free pt d)
pt_pages alloc true pt size d =
    let n = num_pages_of size in pt_done pt n size (fill alloc n 0 pt (replicate n null_page) d)

-- `kzalloc_ok` says whether kzalloc gives the array of pages.
unfoldable pub dicedev_pt_init : Alloc → Bool → ℕ → Dma → Ret PageTable × Dma
unfolding pt_pages
dicedev_pt_init alloc kzalloc_ok size d = elim (page_init alloc d) [
  | none ↦ (err Errno.enomem, d)
  | some (pt, d') ↦ pt_pages alloc kzalloc_ok pt size d'
]

unfoldable pub dicedev_pt_free : PageTable → Dma → Dma
unfolding free_present
dicedev_pt_free t d = page_free t.pt (free_present t.num_pages 0 t.pt t.pages d)
