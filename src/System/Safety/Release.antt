-- ===== src/System/Safety/Release.antt =====
-- dicedev_release of dicedev_base.c: what it follows is there, and no lock is taken twice.
use dicedev_linux_driver.Base.{
  ℕ, ◌≡◌, refl, ◌∙◌, sym, ap, inl, inr, true, false, Option, some, List, [], ◌∷◌, ltb, arith,
  Bool-cases, Option-cases, update, update_self, update_ne, ℕ_discrete,
}
use mathlib.Core.Option
use dicedev_linux_driver.Dice.{sub64}
use dicedev_linux_driver.Types.{World, Buffer, Context, Task}
use dicedev_linux_driver.Holdings.{file, buffer_list, seen, holdings}
use dicedev_linux_driver.Holdings.Passes.{has, Held}
use dicedev_linux_driver.Monad.{fput}
use dicedev_linux_driver.Monad.Safe.{Safe, goes_on, waits, Safe-then, then_Safe}
use dicedev_linux_driver.Utils.{Hw, Responsive}
use dicedev_linux_driver.Utils.Slots.{unbind_slot-unbound}
use dicedev_linux_driver.Wt.Thread.Events.{Quiet}
use dicedev_linux_driver.Buffer.{unbind_if}
use dicedev_linux_driver.Chardev.{mark_destroyed, release_mark, close_buffers, release_rest}
use dicedev_linux_driver.System.Step.{Sound}
use dicedev_linux_driver.System.Sides.{changed, replaced}
use dicedev_linux_driver.System.Release.{Beside-Quiet, open_lock}
use dicedev_linux_driver.System.Release.Rest.{unbind_if-Aside}

-- All buffers of a list are there.
abbrev AllThere : World → List ℕ → Type 0
AllThere w [] = Unit {0}
AllThere w (p ∷ ps) = ((b : Buffer) × (w.buffers p ≡ some b)) × AllThere w ps

kept_there :
    (w v : World)
    → ((q : ℕ) (b : Buffer) → w.buffers q ≡ some b → (d : Buffer) × (v.buffers q ≡ some d))
    → (ps : List ℕ) → AllThere w ps
    → AllThere v ps
kept_there w v keep [] h = tt
kept_there w v keep (p ∷ ps) ((b, there), hs) = (keep p b there, kept_there w v keep ps hs)

put_keeps :
    (f : ℕ → Option Buffer) (p : ℕ) (d : Buffer) (q : ℕ) (b : Buffer)
    → f q ≡ some b
    → (d' : Buffer) × (update f p (some d) q ≡ some d')
put_keeps f p d q b there = elim (ℕ_discrete p q) [
  | yes same ↦ (d, ap (update f p (some d)) (sym same) ∙ update_self f p (some d))
  | no other ↦ (b, update_ne f p q (some d) other ∙ there)
]

listed_there :
    (w : World) (x : ℕ) (l : List ℕ)
    → Held (holdings w)
    → (holdings w).lists x ≡ some l
    → (ps : List ℕ) → ((p : ℕ) → has p ps ≡ true → has p l ≡ true)
    → AllThere w ps
listed_there w x l held at [] inside = tt
listed_there w x l held at (p ∷ ps) inside =
    let (f, is, mine, more) = held.listed x p l at (inside p (ground arith)) in
    let (b, there, same) = seen file (w.buffers p) f is in
    ((b, there), listed_there w x l held at ps λ q i. inside q (ground arith))

mark_destroyed-Safe : (ps : List ℕ) (v : World) → AllThere v ps → Safe (mark_destroyed ps v)
unfolding mark_destroyed
mark_destroyed-Safe [] v h = goes_on
mark_destroyed-Safe (p ∷ ps) v ((b, there), hs) =
    let d : Buffer = record b { destroyed = true } in
    let v' : World = record v { buffers = update v.buffers p (some d) } in
    rw there (mark_destroyed-Safe ps v' (kept_there v v' (put_keeps v.buffers p d) ps hs))

module _ (hw : Hw) (drains : Responsive hw) where
  unbind-Safe :
      (w : World) (p : ℕ) (b : Buffer)
      → Quiet w
      → w.buffers p ≡ some b
      → Safe (unbind_if hw p b.binded_slot (record w { slock = true }))
  unbind-Safe w p b q there = elim (Option-cases b.binded_slot) [
    | inl no_slot ↦ rw no_slot goes_on
    | inr (s, bound) ↦
        rw
          (
            bound,
            unbind_slot-unbound hw drains (record w { slock = true }) p b s q.idle there bound,
          )
          goes_on
  ]

  close_buffers-Safe :
      (ps : List ℕ) (w : World) → Quiet w → AllThere w ps → Safe (close_buffers hw ps w)
  unfolding close_buffers fput
  close_buffers-Safe [] w q h = goes_on
  close_buffers-Safe (p ∷ ps) w q ((b, there), hs) =
      rw (there, q.unlocked)
        (then_Safe (unbind-Safe w p b q there) (unbind_if-Aside hw drains w q p b there) λ u v a.
          let o = open_lock v in
          let (d, still) = a.keeps.buffers p b there in
          let less : Buffer = record d { file_refs = sub64 d.file_refs 1 } in
          let x = changed o p less false in
          let r = replaced o (Beside-Quiet w o a) p d less still refl (holdings x) refl in
          rw still (
            close_buffers-Safe ps x (Beside-Quiet o x r) (
              kept_there o x (put_keeps o.buffers p less) ps
                (kept_there w o a.keeps.buffers ps hs))))

module _ (hw : Hw) (drains : Responsive hw) (n : Option Task) (w : World) (s : Sound n w) (ctx : ℕ)
    (c : Context) (known : w.contexts ctx ≡ some c) where
  all_there : AllThere w c.allocated_buffers
  all_there =
      listed_there w ctx c.allocated_buffers s.owned.held (ap (Option.map buffer_list) known)
        c.allocated_buffers λ p i. i

  pub release_mark-Safe : Safe (release_mark ctx w)
  unfolding release_mark
  release_mark-Safe =
      rw (known, s.working.quiet.unlocked)
        (Safe-then
          (mark_destroyed-Safe c.allocated_buffers (record w { slock = true })
            (kept_there w (record w { slock = true }) (λ q b there. (b, there)) c.allocated_buffers
              all_there))
          λ u v. goes_on)

  pub release_rest-Safe : Safe (release_rest hw ctx w)
  unfolding release_rest
  release_rest-Safe = elim (Bool-cases (ltb 0 c.task_count)) [
    | inl busy ↦ rw (known, busy) waits
    | inr idle ↦
        rw (known, idle)
          (Safe-then (close_buffers-Safe hw drains c.allocated_buffers w s.working.quiet all_there)
            λ u v. goes_on)
  ]
