-- ===== src/Pt/Balance.antt =====
-- Which pages are allocated after dicedev_pt_init and dicedev_pt_free of dicedev_pt.c.
use dicedev_linux_driver.Base.{
  ℕ, zero, suc, ◌+◌, ◌/◌, ◌^◌, ◌<◌, ◌≤◌, ◌≡◌, refl, ap, ◌∙◌, ◌≢◌, inl, inr, Bool, true, false, none,
  some, List, arith, ◌==◌, ==_refl, ==_ne, Bool-cases, Option-cases, if◌then◌else◌, ◌||◌, leb,
  get_elem?, set, length, length-set, length-replicate, replicate, update, update_self, update_ne,
  get_elem?-set_self, get_elem?-set_ne,
}
use dicedev_linux_driver.Base.Bits.{bit_or_lowest, bit_and_low}
use dicedev_linux_driver.Types.{Page, PageTable, Dma}
use dicedev_linux_driver.Pt.{
  Alloc, Ret, ok, err, present, make_pt_entry, allocated, page_init, page_free, null_page, page_at,
  reach, max_entries, write_entry, fill, free_present, num_pages_of, pt_done, pt_pages,
  dicedev_pt_init, dicedev_pt_free,
}
use dicedev_linux_driver.Pt.Room.{
  Sized, pt_init-Sized, free_present-overrun, max_size, num_pages_bound, pt_init-overrun,
}

-- dma_alloc_coherent gives a page that is not in use.
abbrev pub Fresh : Alloc → Type 0
Fresh alloc = (d : Dma) (p : Page) → alloc d ≡ some p → d.live p.page ≡ false

pub entry_present : (a : ℕ) → present (make_pt_entry a) ≡ 1
entry_present a = omega (arith, bit_and_low 1 (make_pt_entry a), bit_or_lowest 1 (a / 2 ^ 8))

pub page_init-some :
    (alloc : Alloc) (d : Dma) (p : Page)
    → alloc d ≡ some p
    → page_init alloc d ≡ some (p, allocated p d)
unfolding page_init
page_init-some alloc d p e = rw (page_init, e)

-- The loop does not look at whether an access went too far.
free_present-live :
    (rounds i : ℕ) (pt : Page) (pages : List Page) (d : Dma) (o : Bool) (q : ℕ)
    → (free_present rounds i pt pages (record d { overrun = o })).live q
      ≡ (free_present rounds i pt pages d).live q
unfolding free_present page_free
free_present-live zero i pt pages d o q = refl
free_present-live (suc rounds) i pt pages d o q =
    elim (Bool-cases (present (d.mem pt.page i) == 0)) [
      | inl stop ↦ rw (stop, free_present)
      | inr go ↦
          let next : Dma = page_free (page_at pages i) (reach i d) in
          rw (go, free_present)
            (free_present-live rounds (i + 1) pt pages next (o || leb max_entries i) q)
    ]

-- Freeing commutes with the loop, which does not look at what is live.
free_present-page_free :
    (rounds i : ℕ) (pt : Page) (pages : List Page) (p : Page) (d : Dma) (q : ℕ)
    → (free_present rounds i pt pages (page_free p d)).live q
      ≡ (if p.page == q then false else (free_present rounds i pt pages d).live q)
unfolding free_present
free_present-page_free zero i pt pages p d q = refl
free_present-page_free (suc rounds) i pt pages p d q =
    elim (Bool-cases (present (d.mem pt.page i) == 0)) [
      | inl stop ↦ rw (stop, free_present)
      | inr go ↦
          rw (go, free_present)
            (ground (
              arith,
              free_present-page_free rounds (i + 1) pt pages (page_at pages i)
                  (page_free p (reach i d)) q,
              free_present-page_free rounds (i + 1) pt pages p (reach i d) q,
              free_present-page_free rounds (i + 1) pt pages (page_at pages i) (reach i d) q,
            ))
    ]

module _ (alloc : Alloc) (fresh : Fresh alloc) (pt : Page) where
  -- What one round of the loop leaves.
  abbrev pub stepped : ℕ → Page → Dma → Dma
  stepped i p d = write_entry pt i (make_pt_entry p.dma_handler) (allocated p d)

  pub fill-none :
      (rounds i : ℕ) (pages : List Page) (d : Dma)
      → alloc d ≡ none
      → fill alloc (suc rounds) i pt pages d ≡ (false, pages, d)
  unfolding fill
  fill-none rounds i pages d e = rw (fill, e)

  pub fill-some :
      (rounds i : ℕ) (pages : List Page) (d : Dma) (p : Page)
      → alloc d ≡ some p
      → fill alloc (suc rounds) i pt pages d
        ≡ fill alloc rounds (i + 1) pt (set pages i p) (stepped i p d)
  unfolding fill
  fill-some rounds i pages d p e = rw (fill, e)

  -- The entries and the pages below `i` stay, and the table stays allocated.
  pub record Kept (i : ℕ) (pages pages' : List Page) (d d' : Dma) : Type 0 where
    pub entries : (j : ℕ) → j < i → d'.mem pt.page j ≡ d.mem pt.page j
    pub slots : (j : ℕ) → j < i → get_elem? pages' j ≡ get_elem? pages j
    pub alive : d'.live pt.page ≡ true

  module _ (i : ℕ) (p : Page) (d : Dma) (alive : d.live pt.page ≡ true) (e : alloc d ≡ some p) where
    other_page : p.page ≢ pt.page
    other_page same = let dead : d.live pt.page ≡ false = rw (← same) (fresh d p e) in cc

    pub stepped_alive : (stepped i p d).live pt.page ≡ true
    stepped_alive = update_ne d.live p.page pt.page true other_page ∙ alive

    pub stepped_entry :
        (j : ℕ)
        → (stepped i p d).mem pt.page j
          ≡ (if i == j then make_pt_entry p.dma_handler else d.mem pt.page j)
    stepped_entry j =
        let z : update d.mem p.page (λ i. 0) pt.page ≡ d.mem pt.page =
          update_ne d.mem p.page pt.page (λ i. 0) other_page in
        ap (λ (f : ℕ → ℕ). f j) (update_self (update d.mem p.page (λ i. 0)) pt.page _)
        ∙ ap (λ (f : ℕ → ℕ). if i == j then make_pt_entry p.dma_handler else f j) z

  pub fill-Kept :
      (rounds i : ℕ) (pages : List Page) (d : Dma)
      → d.live pt.page ≡ true
      → let r = fill alloc rounds i pt pages d in Kept i pages r.1 d r.2
  unfolding fill
  fill-Kept zero i pages d alive = record {
    entries = λ j h. refl;
    slots = λ j h. refl;
    alive = alive;
  }
  fill-Kept (suc rounds) i pages d alive = elim (Option-cases (alloc d)) [
    | inl e ↦
        rw (fill-none rounds i pages d e)
          (record { entries = λ j h. refl; slots = λ j h. refl; alive = alive })
    | inr (p, e) ↦
        let k =
          fill-Kept rounds (i + 1) (set pages i p) (stepped i p d) (stepped_alive i p d alive e) in
        rw (fill-some rounds i pages d p e) (record {
          entries = λ j h.
              k.entries j (omega arith)
              ∙ stepped_entry i p d alive e j
              ∙ rw (==_ne i j (omega arith));
          slots = λ j h. k.slots j (omega arith) ∙ get_elem?-set_ne pages i j p (omega arith);
          alive = k.alive;
        })
  ]

  free_page :
      (rounds i : ℕ) (pages : List Page) (v : Dma) (p : Page)
      → v.mem pt.page i ≡ make_pt_entry p.dma_handler
      → get_elem? pages i ≡ some p
      → free_present (suc rounds) i pt pages v
        ≡ free_present rounds (i + 1) pt pages (page_free p (reach i v))
  unfolding free_present
  free_page rounds i pages v p entry page =
      rw (free_present, entry, entry_present p.dma_handler, page)

  fill-freed :
      (rounds i : ℕ) (pages : List Page) (d : Dma)
      → d.live pt.page ≡ true
      → i + rounds ≤ length pages
      → ((j : ℕ) → i ≤ j → d.mem pt.page j ≡ 0)
      → (q : ℕ)
      → let r = fill alloc rounds i pt pages d in
        (free_present rounds i pt r.1 r.2).live q ≡ d.live q
  unfolding fill free_present
  fill-freed zero i pages d alive room zeros q = refl
  fill-freed (suc rounds) i pages d alive room zeros q = elim (Option-cases (alloc d)) [
    | inl e ↦
        ap (λ (r : Bool × List Page × Dma). (free_present (suc rounds) i pt r.1 r.2).live q)
          (fill-none rounds i pages d e)
        ∙ rw (free_present, zeros i (omega arith))
    | inr (p, e) ↦
        let d' : Dma = stepped i p d in
        let alive' = stepped_alive i p d alive e in
        let k = fill-Kept rounds (i + 1) (set pages i p) d' alive' in
        let r = fill alloc rounds (i + 1) pt (set pages i p) d' in
        let entry : r.2.mem pt.page i ≡ make_pt_entry p.dma_handler =
          k.entries i (omega arith) ∙ stepped_entry i p d alive e i ∙ rw (==_refl i) in
        let page : get_elem? r.1 i ≡ some p =
          k.slots i (omega arith) ∙ get_elem?-set_self pages i p (omega arith) in
        let rest : (free_present rounds (i + 1) pt r.1 r.2).live q ≡ d'.live q =
          fill-freed rounds (i + 1) (set pages i p) d' alive' (omega (arith, length-set pages i p))
            (λ j h.
              stepped_entry i p d alive e j ∙ rw (==_ne i j (omega arith)) (zeros j (omega arith)))
            q in
        ap (λ (x : Bool × List Page × Dma). (free_present (suc rounds) i pt x.1 x.2).live q)
          (fill-some rounds i pages d p e)
        ∙ ap (λ (x : Dma). x.live q) (free_page rounds i r.1 r.2 p entry page)
        ∙ ground (
          arith,
          free_present-page_free rounds (i + 1) pt r.1 p (reach i r.2) q,
          free_present-live rounds (i + 1) pt r.1 r.2 (r.2.overrun || leb max_entries i) q,
          rest,
          fresh d p e,
        )
  ]

-- A table is freed if there is one.
abbrev pub then_free : Ret PageTable × Dma → Dma
then_free (ok t, d) = dicedev_pt_free t d
then_free (err e, d) = d

module _ (alloc : Alloc) (fresh : Fresh alloc) (size : ℕ) where
  freed_with_table :
      (pt : Page) (d : Dma) (v : Dma) (q : ℕ)
      → d.live pt.page ≡ false
      → v.live q ≡ (allocated pt d).live q
      → (page_free pt v).live q ≡ d.live q
  unfolding page_free
  freed_with_table pt d v q dead e = ground arith

  pt_done-live :
      (pt : Page) (n : ℕ) (d : Dma) (r : Bool × List Page × Dma) (q : ℕ)
      → d.live pt.page ≡ false
      → (free_present n 0 pt r.1 r.2).live q ≡ (allocated pt d).live q
      → (then_free (pt_done pt n size r)).live q ≡ d.live q
  unfolding dicedev_pt_free
  pt_done-live pt n d (true, pages, v) q dead e =
      freed_with_table pt d (free_present n 0 pt pages v) q dead e
  pt_done-live pt n d (false, pages, v) q dead e =
      freed_with_table pt d (free_present n 0 pt pages v) q dead e

  pt_pages-live :
      (pt : Page) (kzalloc_ok : Bool) (d : Dma) (q : ℕ)
      → d.live pt.page ≡ false
      → (then_free (pt_pages alloc kzalloc_ok pt size (allocated pt d))).live q ≡ d.live q
  unfolding pt_pages
  pt_pages-live pt false d q dead = freed_with_table pt d (allocated pt d) q dead refl
  pt_pages-live pt true d q dead =
      let n = num_pages_of size in
      pt_done-live pt n d (fill alloc n 0 pt (replicate n null_page) (allocated pt d)) q dead (
        fill-freed alloc fresh pt n 0 (replicate n null_page) (allocated pt d)
          (update_self d.live pt.page true) (omega (arith, length-replicate n null_page))
          (λ j h. ap (λ (f : ℕ → ℕ). f j) (update_self d.mem pt.page (λ i. 0))) q)

  init-live :
      (kzalloc_ok : Bool) (d : Dma) (q : ℕ)
      → (then_free (dicedev_pt_init alloc kzalloc_ok size d)).live q ≡ d.live q
  unfolding dicedev_pt_init
  init-live kzalloc_ok d q = elim (Option-cases (alloc d)) [
    | inl e ↦ rw (dicedev_pt_init, page_init, e)
    | inr (pt, e) ↦
        rw (page_init-some alloc d pt e, dicedev_pt_init)
          (pt_pages-live pt kzalloc_ok d q (fresh d pt e))
  ]

  freed-overrun :
      (small : size ≤ max_size) (r : Ret PageTable × Dma)
      → Sized size r
      → (then_free r).overrun ≡ r.1.overrun
  unfolding dicedev_pt_free page_free
  freed-overrun small (err e, d) sized = refl
  freed-overrun small (ok t, d) sized =
      free_present-overrun t.num_pages 0 t.pt t.pages d
        (omega (arith, sized, num_pages_bound size small))

  -- With an allocator that gives only pages that are not in use, and a size of at most 4 MB, for
  -- which the page of the table has room: after dicedev_pt_init has failed, at whichever
  -- allocation, and after a table that it built has been freed by dicedev_pt_free, every page is
  -- allocated or not as it was before, and no entry behind the page of the table has been
  -- accessed.
  pub pt_init-balanced :
      (kzalloc_ok : Bool) (d : Dma)
      → size ≤ max_size
      → let v = then_free (dicedev_pt_init alloc kzalloc_ok size d) in
        ((q : ℕ) → v.live q ≡ d.live q) × (v.overrun ≡ d.overrun)
  pt_init-balanced kzalloc_ok d small = (
    init-live kzalloc_ok d,
    freed-overrun small (dicedev_pt_init alloc kzalloc_ok size d)
          (pt_init-Sized alloc size kzalloc_ok d)
        ∙ pt_init-overrun alloc size small kzalloc_ok d,
  )
