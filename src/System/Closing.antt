-- ===== src/System/Closing.antt =====
-- What users do to the file of a buffer beside the calls of dicedev_buffer.c: they share it, give a
-- reference back, and the kernel calls dicedev_buffer_release once none is left.
use dicedev_linux_driver.Base.{
  ℕ, ◌+◌, ◌^◌, ◌<◌, ◌≡◌, refl, ◌∙◌, sym, ap, subst, Bool, true, false, inl, inr, Option, none, some,
  List, [], ◌∷◌, map, arith, if◌then◌else◌, Option-cases,
}
use mathlib.Core.Option
use dicedev_linux_driver.Dice.{u64, sub64}
use dicedev_linux_driver.Types.{World, Buffer, Context, Task}
use dicedev_linux_driver.Holdings.{
  job, file, buffer_list, holdings, holdings_eq, view, view_at, view_put, seen,
}
use dicedev_linux_driver.Holdings.Passes.{has, Fits, Pass}
use dicedev_linux_driver.Holdings.Staying.{Pass-Fits}
use dicedev_linux_driver.Monad.{
  get_file, fput, Ensures, ensured, faults, weaker_ensured, Returns-Ensures,
}
use dicedev_linux_driver.Utils.{Hw, Responsive}
use dicedev_linux_driver.Wt.Thread.Events.{Quiet}
use dicedev_linux_driver.Wt.Thread.Turn.{Lives, AllLive, MaybeLives, Working}
use dicedev_linux_driver.Buffer.{dicedev_buffer_release}
use dicedev_linux_driver.Buffer.Destroy.{Released, buffer_release-Released}
use dicedev_linux_driver.System.Queue.{Move, to_list, in_flight}
use dicedev_linux_driver.System.{Passed, Passes, Into, Into-to, line, line_eq, tally}
use dicedev_linux_driver.System.Sides.{changed, replaced}
use dicedev_linux_driver.System.Owners.{All, All-map2, flight-Parts, Owned, Working-Rooted}

-- The context's own reference to the file of a buffer.
abbrev listed_in : Option Context → ℕ → Bool
listed_in none p = false
listed_in (some c) p = has p c.allocated_buffers

abbrev pub own_refs : World → ℕ → Buffer → ℕ
own_refs w p b = if listed_in (w.contexts b.ctx) p then 1 else 0

-- A user has a reference to the file, beside the context's own. Their count is small.
abbrev pub Users : World → ℕ → Type 0
Users w p =
    (b : Buffer)
    → w.buffers p ≡ some b
    → (own_refs w p b < b.file_refs) × (b.file_refs + 1 < 2 ^ 64)

module _ (w : World) (q : Quiet w) (p : ℕ) (users : Users w p) where
  own_listed :
      (b : Buffer) (l : List ℕ)
      → (holdings w).lists b.ctx ≡ some l
      → has p l ≡ true
      → own_refs w p b ≡ 1
  own_listed b l at inside =
      let (c, known, same) = seen buffer_list (w.contexts b.ctx) l at in
      let here : has p c.allocated_buffers ≡ true = ap (has p) same ∙ inside in
      rw (known, here) refl

  module _ (b : Buffer) (there : w.buffers p ≡ some b) (n : ℕ)
      (enough : (l : List ℕ) → (holdings w).lists b.ctx ≡ some l → has p l ≡ true → 0 < n) where
    abbrev with_refs : Buffer
    with_refs = record b { file_refs = n }

    refs-Passed : Passed w (changed w p with_refs w.slock)
    refs-Passed =
        subst (λ l. Passed w (changed w p with_refs l)) (sym q.unlocked)
          (
            _,
            Pass.share p n (file b) (ap (Option.map file) there) enough,
            replaced w q p b with_refs there refl _ (
                holdings_eq (holdings (changed w p with_refs false)) _
                  (view_put file w.buffers p (some with_refs)) refl),
          )

  -- dup, fork and mmap of the file count one reference more,
  pub get_file-Passed : Ensures (λ _ w'. Passed w w') (get_file p w)
  unfolding get_file
  get_file-Passed = elim (Option-cases (w.buffers p)) [
    | inl gone ↦ rw gone faults
    | inr (b, there) ↦
        let few = (users b there).1 in
        rw there (ensured (refs-Passed b there (u64 (b.file_refs + 1)) λ l at inside. omega arith))
  ]

  -- and close, exit and munmap one less.
  pub fput-Passed : Ensures (λ _ w'. Passed w w') (fput p w)
  unfolding fput
  fput-Passed = elim (Option-cases (w.buffers p)) [
    | inl gone ↦ rw gone faults
    | inr (b, there) ↦
        let (more, few) = users b there in
        rw there (
          ensured (
            refs-Passed b there (sub64 b.file_refs 1)
              λ l at inside. let one = own_listed b l at inside in omega arith))
  ]

-- A world in which contexts and tasks are as before, and the buffers of the tasks are there.
module _ (w w' : World) (same : w'.contexts ≡ w.contexts) where
  Fits-Lives : (t : Task) → Fits (holdings w') (job t) → Lives w t → Lives w' t
  Fits-Lives t ((f, is, mine), commands) (there, (c, known)) =
      let (b, here, e) = seen file (w'.buffers t.buff_out) f is in
      ((b, here), (c, ap (λ g. g t.ctx) same ∙ known))

  Fits-AllLive :
      (ts : List Task) → All (Fits (holdings w')) (map job ts) → AllLive w ts → AllLive w' ts
  Fits-AllLive [] fits h = tt
  Fits-AllLive (t ∷ ts) (f, fits) (h, hs) = (Fits-Lives t f h, Fits-AllLive ts fits hs)

  Fits-MaybeLives :
      (o : Option Task)
      → All (Fits (holdings w')) (to_list (Option.map job o))
      → MaybeLives w o
      → MaybeLives w' o
  Fits-MaybeLives none fits h = tt
  Fits-MaybeLives (some t) (f, fits) h = Fits-Lives t f h

released_twice :
    (hw : Hw) (p : ℕ) (w : World)
    → w.slock ≡ false
    → w.buffers p ≡ none
    → (P : Unit {0} → World → Type 0) → Ensures P (dicedev_buffer_release hw p w)
unfolding dicedev_buffer_release
released_twice hw p w unlocked gone P = rw (unlocked, gone) faults

module _ (hw : Hw) (drains : Responsive hw) (n : Option Task) (w : World) (g : Working n w)
    (own : Owned n w) (p : ℕ) where
  module _ (b : Buffer) (there : w.buffers p ≡ some b) (w' : World) (r : Released p b w w') where
    released-line : line n w' ≡ line n w
    released-line =
        line_eq (line n w') (line n w) (ap (Option.map job) r.running) refl (ap (map job) r.pending)
          (ap tally r.contexts)

    released-Passes : b.file_refs ≡ 0 → Passes w w'
    released-Passes unused =
        subst (Pass (holdings w))
          (sym (
            holdings_eq (holdings w') _ (view_at file w.buffers w'.buffers p none r.gone r.others)
              (ap (view buffer_list) r.contexts)))
          (Pass.free p (file b) (ap (Option.map file) there) unused)

    released-Working : b.file_refs ≡ 0 → Working n w'
    released-Working unused =
        let fits : All (Fits (holdings w')) (in_flight (line n w)) =
          All-map2 (in_flight (line n w))
            (λ j live fit.
              Pass-Fits (holdings w) own.held (holdings w') j (released-Passes unused) live fit)
            (Working-Rooted w n g) own.fits in
        let (running, taken, waiting) = flight-Parts (Fits (holdings w')) (line n w) fits in
        record {
          quiet = record { unlocked = r.unlocked; idle = r.idle; slots = r.slots };
          clear = r.failed ∙ g.clear;
          queued = rw r.pending (Fits-AllLive w w' r.contexts w.pending_tasks waiting g.queued);
          ahead = Fits-MaybeLives w w' r.contexts n taken g.ahead;
          sent = rw r.running (Fits-MaybeLives w w' r.contexts w.running_task running g.sent);
          fenced = rw (r.fence, r.running) g.fenced;
          idle = rw (r.fence, r.running) g.idle;
        }

  -- The last close of a buffer frees no buffer of a task.
  pub buffer_release-Ends :
      ((b : Buffer) → w.buffers p ≡ some b → b.file_refs ≡ 0)
      → Ensures
          (λ _ w'. Working n w' × Into [] n w n w' × Passes w w')
          (dicedev_buffer_release hw p w)
  buffer_release-Ends last = elim (Option-cases (w.buffers p)) [
    | inl gone ↦ released_twice hw p w g.quiet.unlocked gone _
    | inr (b, there) ↦
        weaker_ensured
          (Returns-Ensures (
            buffer_release-Released hw drains p b w g.quiet.unlocked g.quiet.idle g.quiet.slots
              there))
          λ u w' r. (
            released-Working b there w' r (last b there),
            Into-to n w n w' [] [] (line n w) Move.stay (released-line b there w' r),
            released-Passes b there w' r (last b there),
          )
  ]
