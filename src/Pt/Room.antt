-- ===== src/Pt/Room.antt =====
-- The loops of dicedev_pt.c stay on the page of the table, if it has room for the entries.
use dicedev_linux_driver.Base.{
  ℕ, zero, suc, ◌+◌, ◌*◌, ◌≤◌, ◌≡◌, refl, ◌∙◌, inl, inr, Bool, true, false, List, arith, ◌==◌,
  Bool-cases, Option-cases, set, replicate,
}
use dicedev_linux_driver.Dice.{page_size}
use dicedev_linux_driver.Types.{Page, PageTable, Dma}
use dicedev_linux_driver.Pt.{
  Alloc, Ret, ok, err, present, make_pt_entry, allocated, page_init, page_free, null_page, page_at,
  max_entries, reach, write_entry, fill, free_present, num_pages_of, pt_done, pt_pages,
  dicedev_pt_init,
}

reach_inside : (i : ℕ) (d : Dma) → i + 1 ≤ max_entries → (reach i d).overrun ≡ d.overrun
reach_inside i d inside = ground arith

pub free_present-overrun :
    (rounds i : ℕ) (pt : Page) (pages : List Page) (d : Dma)
    → i + rounds ≤ max_entries
    → (free_present rounds i pt pages d).overrun ≡ d.overrun
unfolding free_present page_free
free_present-overrun zero i pt pages d room = refl
free_present-overrun (suc rounds) i pt pages d room =
    elim (Bool-cases (present (d.mem pt.page i) == 0)) [
      | inl stop ↦ rw (stop, free_present) (reach_inside i d (omega arith))
      | inr go ↦
          rw (go, free_present)
            (free_present-overrun rounds (i + 1) pt pages (page_free (page_at pages i) (reach i d))
                (omega arith)
              ∙ reach_inside i d (omega arith))
    ]

pub fill-overrun :
    (alloc : Alloc) (rounds i : ℕ) (pt : Page) (pages : List Page) (d : Dma)
    → i + rounds ≤ max_entries
    → let r = fill alloc rounds i pt pages d in (r.2).overrun ≡ d.overrun
unfolding fill page_init
fill-overrun alloc zero i pt pages d room = refl
fill-overrun alloc (suc rounds) i pt pages d room = elim (Option-cases (alloc d)) [
  | inl e ↦ rw (fill, e)
  | inr (p, e) ↦
      let d' : Dma = write_entry pt i (make_pt_entry p.dma_handler) (allocated p d) in
      let rest = fill-overrun alloc rounds (i + 1) pt (set pages i p) d' (omega arith) in
      rw (fill, e) (rest ∙ reach_inside i d (omega arith))
]

-- The sizes for which the table has room.
abbrev pub max_size : ℕ
max_size = max_entries * page_size

pub num_pages_bound : (size : ℕ) → size ≤ max_size → 0 + num_pages_of size ≤ max_entries
num_pages_bound size small = omega arith

module _ (alloc : Alloc) (size : ℕ) (small : size ≤ max_size) where
  done-overrun :
      (pt : Page) (r : Bool × List Page × Dma)
      → (pt_done pt (num_pages_of size) size r).1.overrun ≡ (r.2).overrun
  unfolding page_free
  done-overrun pt (true, pages, d) = refl
  done-overrun pt (false, pages, d) =
      free_present-overrun (num_pages_of size) 0 pt pages d (num_pages_bound size small)

  pages-overrun :
      (kzalloc_ok : Bool) (pt : Page) (d : Dma)
      → (pt_pages alloc kzalloc_ok pt size d).1.overrun ≡ d.overrun
  unfolding pt_pages page_free
  pages-overrun false pt d = refl
  pages-overrun true pt d =
      let n = num_pages_of size in
      done-overrun pt (fill alloc n 0 pt (replicate n null_page) d)
      ∙ fill-overrun alloc n 0 pt (replicate n null_page) d (num_pages_bound size small)

  pub pt_init-overrun :
      (kzalloc_ok : Bool) (d : Dma)
      → (dicedev_pt_init alloc kzalloc_ok size d).1.overrun ≡ d.overrun
  unfolding dicedev_pt_init page_init
  pt_init-overrun kzalloc_ok d = elim (Option-cases (alloc d)) [
    | inl e ↦ rw (dicedev_pt_init, page_init, e)
    | inr (pt, e) ↦
        rw (dicedev_pt_init, page_init, e) (pages-overrun kzalloc_ok pt (allocated pt d))
  ]

-- The number of pages of a table that has been built.
abbrev pub Sized : ℕ → Ret PageTable × Dma → Type 0
Sized size (err e, d) = Unit {0}
Sized size (ok t, d) = t.num_pages ≡ num_pages_of size

module _ (alloc : Alloc) (size : ℕ) where
  done-Sized :
      (pt : Page) (r : Bool × List Page × Dma) → Sized size (pt_done pt (num_pages_of size) size r)
  done-Sized pt (true, pages, d) = refl
  done-Sized pt (false, pages, d) = tt

  pages-Sized :
      (kzalloc_ok : Bool) (pt : Page) (d : Dma) → Sized size (pt_pages alloc kzalloc_ok pt size d)
  unfolding pt_pages
  pages-Sized false pt d = tt
  pages-Sized true pt d =
      let n = num_pages_of size in done-Sized pt (fill alloc n 0 pt (replicate n null_page) d)

  pub pt_init-Sized :
      (kzalloc_ok : Bool) (d : Dma) → Sized size (dicedev_pt_init alloc kzalloc_ok size d)
  unfolding dicedev_pt_init page_init
  pt_init-Sized kzalloc_ok d = elim (Option-cases (alloc d)) [
    | inl e ↦ rw (dicedev_pt_init, page_init, e) tt
    | inr (pt, e) ↦ rw (dicedev_pt_init, page_init, e) (pages-Sized kzalloc_ok pt (allocated pt d))
  ]
