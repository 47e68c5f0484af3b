-- ===== src/Pt/Entries.antt =====
-- The page table that dicedev_pt_init of dicedev_pt.c hands to the device, and its entries.
use dicedev_linux_driver.Base.{
  ℕ, zero, suc, ◌+◌, ◌*◌, ◌/◌, ◌%◌, ◌^◌, ◌<◌, ◌≤◌, ◌≡◌, refl, sym, ap, ◌∙◌, ◌≢◌, inl, inr, Bool,
  true, false, some, List, arith, ==_refl, Option-cases, get_elem?, set, length, length-set,
  length-replicate, replicate, get_elem?-set_self, bit_or, update_self, ℕ_discrete, subst,
}
use dicedev_linux_driver.Base.Bits.{bit_or_lowest, zero-bit_or}
use dicedev_linux_driver.Dice.{page_size}
use dicedev_linux_driver.Types.{Page, PageTable, Dma}
use dicedev_linux_driver.Pt.{
  Alloc, Ret, ok, err, make_pt_entry, allocated, page_init, null_page, fill, num_pages_of, pt_done,
  pt_pages, dicedev_pt_init,
}
use dicedev_linux_driver.Pt.Room.{max_size, pt_init-overrun}
use dicedev_linux_driver.Pt.Balance.{
  Fresh, page_init-some, fill-none, fill-some, stepped, stepped_alive, stepped_entry, fill-Kept,
}

-- For an address of at most 40 bits that is a multiple of the page size, the entry has the present
-- bit and nothing else in its lowest four bits, and its other bits give the address back.
pub make_pt_entry_page :
    (a : ℕ)
    → a % page_size ≡ 0
    → a < 2 ^ 40
    → (make_pt_entry a / 16 * page_size ≡ a) × (make_pt_entry a % 16 ≡ 1)
make_pt_entry_page a aligned small =
    let odd : bit_or 1 (a / 2 ^ 8) ≡ a / 2 ^ 8 + 1 =
      omega (arith, bit_or_lowest 1 (a / 2 ^ 8), zero-bit_or (a / 2 ^ 8 / 2)) in
    (rw odd (omega arith), rw odd (omega arith))

-- Entry `j` and page `j` belong together.
abbrev pub MapsPage : Page → List Page → Dma → ℕ → Type 0
MapsPage pt pages d j =
    (p : Page) × (get_elem? pages j ≡ some p) × (d.mem pt.page j ≡ make_pt_entry p.dma_handler)

-- What dicedev_pt_init returns, where it succeeds.
abbrev pub Mapped : ℕ → Ret PageTable × Dma → Type 0
Mapped size (err e, d) = Unit {0}
Mapped size (ok t, d) =
    (t.max_size ≡ size)
    × (size ≤ t.num_pages * page_size)
    × (t.num_pages * page_size < size + page_size)
    × ((j : ℕ) → j < t.num_pages → MapsPage t.pt t.pages d j)

module _ (alloc : Alloc) (fresh : Fresh alloc) where
  fill-MapsPage :
      (pt : Page) (rounds i : ℕ) (pages : List Page) (d : Dma)
      → d.live pt.page ≡ true
      → i + rounds ≤ length pages
      → let r = fill alloc rounds i pt pages d in
        r.0 ≡ true → (j : ℕ) → i ≤ j → j < i + rounds → MapsPage pt r.1 r.2 j
  fill-MapsPage pt zero i pages d alive room full j lo hi = absurd (omega arith)
  fill-MapsPage pt (suc rounds) i pages d alive room full j lo hi = elim (Option-cases (alloc d)) [
    | inl e ↦
        let stopped =
          ap (λ (x : Bool × List Page × Dma). x.0) (fill-none alloc fresh pt rounds i pages d e) in
        cc
    | inr (p, e) ↦
        let d' : Dma = stepped alloc fresh pt i p d in
        let alive' = stepped_alive alloc fresh pt i p d alive e in
        let k = fill-Kept alloc fresh pt rounds (i + 1) (set pages i p) d' alive' in
        let r = fill alloc rounds (i + 1) pt (set pages i p) d' in
        let same = fill-some alloc fresh pt rounds i pages d p e in
        let full' : r.0 ≡ true = sym (ap (λ (x : Bool × List Page × Dma). x.0) same) ∙ full in
        let entry : r.2.mem pt.page i ≡ make_pt_entry p.dma_handler =
          k.entries i (omega arith)
          ∙ stepped_entry alloc fresh pt i p d alive e i
          ∙ rw (==_refl i) in
        let page : get_elem? r.1 i ≡ some p =
          k.slots i (omega arith) ∙ get_elem?-set_self pages i p (omega arith) in
        let later : i ≢ j → MapsPage pt r.1 r.2 j = λ ne.
          fill-MapsPage pt rounds (i + 1) (set pages i p) d' alive'
            (omega (arith, length-set pages i p)) full' j (omega arith) (omega arith) in
        subst (λ (x : Bool × List Page × Dma). MapsPage pt x.1 x.2 j) (sym same)
          (elim (ℕ_discrete i j) [
            | yes here ↦ subst (MapsPage pt r.1 r.2) here (p, page, entry)
            | no other ↦ later other
          ])
  ]

  pt_done-Mapped :
      (pt : Page) (size : ℕ) (r : Bool × List Page × Dma)
      → size + page_size < 2 ^ 64
      → (r.0 ≡ true → (j : ℕ) → j < num_pages_of size → MapsPage pt r.1 r.2 j)
      → Mapped size (pt_done pt (num_pages_of size) size r)
  pt_done-Mapped pt size (true, pages, d) small maps = (refl, omega arith, omega arith, maps refl)
  pt_done-Mapped pt size (false, pages, d) small maps = tt

  pt_pages-Mapped :
      (pt : Page) (kzalloc_ok : Bool) (size : ℕ) (d : Dma)
      → size + page_size < 2 ^ 64
      → Mapped size (pt_pages alloc kzalloc_ok pt size (allocated pt d))
  unfolding pt_pages
  pt_pages-Mapped pt false size d small = tt
  pt_pages-Mapped pt true size d small =
      let n = num_pages_of size in
      pt_done-Mapped pt size (fill alloc n 0 pt (replicate n null_page) (allocated pt d)) small
        λ full j lt.
          fill-MapsPage pt n 0 (replicate n null_page) (allocated pt d)
            (update_self d.live pt.page true) (omega (arith, length-replicate n null_page)) full j
            (omega arith) (omega arith)

  init-Mapped :
      (kzalloc_ok : Bool) (size : ℕ) (d : Dma)
      → size + page_size < 2 ^ 64
      → Mapped size (dicedev_pt_init alloc kzalloc_ok size d)
  unfolding dicedev_pt_init
  init-Mapped kzalloc_ok size d small = elim (Option-cases (alloc d)) [
    | inl e ↦ rw (dicedev_pt_init, page_init, e) tt
    | inr (pt, e) ↦
        rw (page_init-some alloc d pt e, dicedev_pt_init)
          (pt_pages-Mapped pt kzalloc_ok size d small)
  ]

  -- With an allocator that gives only pages that are not in use and a size of at most 4 MB, for
  -- which the page of the table has room: dicedev_pt_init accesses no entry behind that page, and
  -- if it succeeds, the table has the least number of pages that hold the size, and entry j of it
  -- is made of the device's address of page j.
  pub pt_init-Mapped :
      (kzalloc_ok : Bool) (size : ℕ) (d : Dma)
      → size ≤ max_size
      → let r = dicedev_pt_init alloc kzalloc_ok size d in Mapped size r × (r.1.overrun ≡ d.overrun)
  pt_init-Mapped kzalloc_ok size d small =
      (init-Mapped kzalloc_ok size d (omega arith), pt_init-overrun alloc size small kzalloc_ok d)
