-- ===== src/System/Release.antt =====
-- dicedev_release of dicedev_base.c: the buffers are marked as destroyed.
pub mod Rest
use dicedev_linux_driver.Base.{
  ℕ, ◌<◌, ◌^◌, ◌≡◌, refl, ◌∙◌, sym, ap, subst, inl, inr, true, false, Option, none, some, List, [],
  ◌∷◌, map, arith, ltb, ◌==◌, if◌then◌else◌, update, update_ne, Bool-cases, Option-cases,
  ℕ_discrete,
}
use mathlib.Core.Option
use dicedev_linux_driver.Types.{World, Buffer, Context, Task}
use dicedev_linux_driver.Dice.{sub64}
use dicedev_linux_driver.Holdings.{
  Holdings, job, file, buffer_list, holdings, holdings_eq, view, view_put, view_kept, File, seen,
}
use dicedev_linux_driver.Holdings.Passes.{Pass, has, less, marked, each}
use dicedev_linux_driver.Monad.{
  fput, Ensures, ensured, faults, sleeps, then_ensured, weaker_ensured,
}
use dicedev_linux_driver.Utils.{Hw, Responsive}
use dicedev_linux_driver.Utils.Slots.{
  same-SlotsAgree, unbound, unbind_slot-unbound, unbound-SlotsAgree,
}
use dicedev_linux_driver.Wt.Thread.Events.{Quiet}
use dicedev_linux_driver.Wt.Thread.Turn.{Lives, AllLive, MaybeLives, Working, replaced_buffer-Keeps}
use dicedev_linux_driver.Buffer.{unbind_if}
use dicedev_linux_driver.Chardev.{mark_destroyed, release_mark, close_buffers, release_rest}
use dicedev_linux_driver.System.Queue.{Move, Counted, count, one, to_list, in_flight}
use dicedev_linux_driver.System.Queue.Counts.{count-flight, one_self}
use dicedev_linux_driver.System.{
  Aside, Beside, Beside-Working, Beside-line, Into, Into-to, Passes, Passed, line, line_eq, tally,
  count_of,
}
use dicedev_linux_driver.System.Waiting.{unfinished, count_is}
use dicedev_linux_driver.System.Sides.{as_before, released, replaced, changed}

pub Beside-trans : {h k : Holdings} (u v w : World) → Beside h u v → Beside k v w → Beside k u w
Beside-trans u v w a b = record {
  lock = b.lock;
  feed = b.feed;
  slots = b.slots;
  failed = b.failed ∙ a.failed;
  running = b.running ∙ a.running;
  pending = b.pending ∙ a.pending;
  fence = elim b.fence [
    | inl same ↦ elim a.fence [
      | inl again ↦ inl (same ∙ again)
      | inr (reached, t) ↦ inr (same ∙ reached, t)
    ]
    | inr (reached, (t, runs)) ↦ inr (reached, (t, sym a.running ∙ runs))
  ];
  counts = b.counts ∙ a.counts;
  keeps = record {
    buffers = λ q x h. let (y, g) = a.keeps.buffers q x h in b.keeps.buffers q y g;
    contexts = λ q x h. let (y, g) = a.keeps.contexts q x h in b.keeps.contexts q y g;
  };
  holds = b.holds;
}

pub Beside-Quiet : {h : Holdings} (v w : World) → Beside h v w → Quiet w
Beside-Quiet v w a = record { unlocked = a.lock; idle = a.feed; slots = a.slots }

abbrev pub open_lock : World → World
open_lock v = record v { slock = false }

abbrev pub changed_files : (File → File) → List ℕ → Holdings → Holdings
changed_files g ps h = record h { files = each g ps h.files }

-- One file changes, and then those in a list.
pub changed_next :
    (g : File → File) (p : ℕ) (ps : List ℕ) (h k : Holdings) (b d : Buffer) (v : World)
    → v.buffers p ≡ some b
    → g (file b) ≡ file d
    → holdings v ≡ h
    → changed_files g (p ∷ ps) h ≡ k
    → changed_files g ps (holdings (changed v p d false)) ≡ k
changed_next g p ps h k b d v there to same e =
    ap (changed_files g ps) (
      holdings_eq (holdings (changed v p d false)) _
        (view_put file v.buffers p (some d)
          ∙ ap (λ f. update (view file v.buffers) p (some f)) (sym to)
          ∙ ap (update (view file v.buffers) p)
              (sym (ap (λ o. Option.map g (Option.map file o)) there))
          ∙ ap (λ (h : Holdings). update h.files p (Option.map g (h.files p))) same)
        (ap (λ (h : Holdings). h.lists) same))
    ∙ e

-- The lock is held.
abbrev Within : Holdings → World → Unit {0} → World → Type 0
Within h w u v = (v.slock ≡ true) × Beside h w (open_lock v)

mark-Within :
    (ps : List ℕ) (w v : World) (h k : Holdings)
    → Within h w tt v
    → changed_files marked ps h ≡ k
    → Ensures (Within k w) (mark_destroyed ps v)
unfolding mark_destroyed
mark-Within [] w v h k (held, a) e = ensured (held, subst (λ x. Beside x w (open_lock v)) e a)
mark-Within (p ∷ ps) w v h k (held, a) e = elim (Option-cases (v.buffers p)) [
  | inl gone ↦ rw gone faults
  | inr (b, there) ↦
      let d : Buffer = record b { destroyed = true } in
      let o = open_lock v in
      let x = changed o p d false in
      let v' : World = record v { buffers = update v.buffers p (some d) } in
      rw there (
        mark-Within ps w v' (holdings x) k
          (
            held,
            Beside-trans w o x a
                (replaced o (Beside-Quiet w o a) p b d there refl (holdings x) refl),
          )
          (changed_next marked p ps h k b d o there refl a.holds e))
]

module _ (w : World) (q : Quiet w) where
  -- All buffers of the context are marked, and nothing else changes.
  pub release_mark-Passed : (ctx : ℕ) → Ensures (λ _ w'. Passed w w') (release_mark ctx w)
  unfolding release_mark
  release_mark-Passed ctx = elim (Option-cases (w.contexts ctx)) [
    | inl gone ↦ rw gone faults
    | inr (c, known) ↦
        let k = changed_files marked c.allocated_buffers (holdings w) in
        simp (known, q.unlocked)
          (then_ensured
            (mark-Within c.allocated_buffers w (record w { slock = true }) (holdings w) k
              (refl, released w q) refl)
            λ u v h.
              ensured
                (k, Pass.mark ctx c.allocated_buffers (ap (Option.map buffer_list) known), h.1))
  ]
