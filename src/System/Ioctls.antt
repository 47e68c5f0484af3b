-- ===== src/System/Ioctls.antt =====
-- dicedev_ioctl and dicedev_open of dicedev_base.c, whatever they are given.
use dicedev_linux_driver.Base.{
  ℕ, ◌≡◌, refl, ◌∙◌, sym, ap, subst, ◌≢◌, inl, inr, ◌⊎◌, false, Option, none, some, List, [], ◌∷◌,
  map, ◌==◌, arith, update, update_ne, Bool-cases, ℕ_discrete,
}
use mathlib.Core.Option
use dicedev_linux_driver.Types.{World, Buffer, Context, Task}
use dicedev_linux_driver.Holdings.{
  File, job, file, buffer_list, holdings, holdings_eq, seen, view_put,
}
use dicedev_linux_driver.Holdings.Passes.{Pass}
use dicedev_linux_driver.Monad.{Run, and_then, pure, Ensures, ensured, then_ensured, weaker_ensured}
use dicedev_linux_driver.Pt.{Ret}
use dicedev_linux_driver.Utils.{Hw}
use dicedev_linux_driver.Utils.Slots.{same-SlotsAgree}
use dicedev_linux_driver.Wt.Thread.Events.{Quiet}
use dicedev_linux_driver.Wt.Thread.Turn.{
  Lives, AllLive, MaybeLives, Working, Keeps, keep-AllLive, keep-MaybeLives,
}
use dicedev_linux_driver.Chardev.{dicedev_open}
use dicedev_linux_driver.Chardev.Dispatch.{
  IoctlArg, as_long, ioctl_create_set, ioctl_run, ioctl_wait, ioctl_enable_seed_increment,
  dicedev_ioctl,
}
use dicedev_linux_driver.System.Queue.{Move, count, one, in_flight, to_list}
use dicedev_linux_driver.System.Queue.Counts.{count-flight}
use dicedev_linux_driver.System.{
  Granted, Aside-Granted, Passes, Queued, Into, Into-to, line, line_eq, count_of,
}
use dicedev_linux_driver.System.Sides.{as_before}
use dicedev_linux_driver.System.Files.{ioctl_wait-Aside, seed_increment-Aside}
use dicedev_linux_driver.System.Arrivals.{OfContext, ioctl_run-Queued}
use dicedev_linux_driver.System.Creation.{create_set-Granted}

-- A buffer more, or a task of the context more, or nothing that others see.
abbrev pub Called : ℕ → World → World → Type 0
Called ctx w w' = Granted ctx w w' ⊎ Queued (OfContext ctx) w w'

module _ (hw : Hw) (ctx : ℕ) (w : World) (q : Quiet w) (a : IoctlArg)
    (fresh : (p : ℕ) → a.new_set.buff ≡ some p → w.buffers p ≡ none) where
  long-Called :
      {r : Run (Ret (Unit {0}))}
      → Ensures (λ _ w'. Called ctx w w') r
      → Ensures (λ _ w'. Called ctx w w') (and_then r (λ x. pure (as_long x)))
  long-Called h = then_ensured h λ x v c. ensured c

  -- Whatever command and argument an ioctl of a context gets: if it returns, one task of that
  -- context with a living buffer, whose buffers belong to the context, has been counted and
  -- queued behind the others, and nothing else has changed; or the queue, the running task, the
  -- counts of the contexts and the failure flag are as they were, the locks are free, the slots
  -- agree, no buffer or context has gone, and buffers are held as before, or beside them a new
  -- one by that context and two references. The locks are free and the slots agree before, and a
  -- new buffer gets an address that is not in use.
  pub ioctl-Called : (cmd : ℕ) → Ensures (λ _ w'. Called ctx w w') (dicedev_ioctl hw ctx cmd a w)
  unfolding dicedev_ioctl
  ioctl-Called cmd = elim (Bool-cases (cmd == ioctl_create_set)) [
    | inl set ↦
        rw set (weaker_ensured (create_set-Granted w q hw ctx a.new_set a.set fresh) λ x v h. inl h)
    | inr e ↦ elim (Bool-cases (cmd == ioctl_run)) [
      | inl run ↦
          rw (e, run)
            (long-Called
              (weaker_ensured (ioctl_run-Queued ctx a.task_ok w q.unlocked a.run) λ x v h. inr h))
      | inr f ↦ elim (Bool-cases (cmd == ioctl_wait)) [
        | inl wait ↦
            rw (e, f, wait)
              (long-Called (
                weaker_ensured (ioctl_wait-Aside w q ctx a.wait)
                  λ x v h. inl (Aside-Granted ctx h)))
        | inr g ↦ elim (Bool-cases (cmd == ioctl_enable_seed_increment)) [
          | inl increment ↦
              rw (e, f, g, increment)
                (long-Called (
                  weaker_ensured (seed_increment-Aside w q a.increment)
                    λ x v h. inl (Aside-Granted ctx h)))
          | inr none_left ↦
              rw (e, f, g, none_left) (ensured (inl (Aside-Granted ctx (as_before w q))))
        ]
      ]
    ]
  ]

-- A context that is opened is used by no task.
module _ (w : World) (x : ℕ) (new : w.contexts x ≡ none) where
  other_ctx : (t : Task) → Lives w t → one (job t) x ≡ 0
  other_ctx t (there, (c, known)) = elim (ℕ_discrete t.ctx x) [
    | yes same ↦ let e = sym known ∙ ap w.contexts same ∙ new in absurd cc
    | no other ↦ ground arith
  ]

  none_queued : (ts : List Task) → AllLive w ts → count x (map job ts) ≡ 0
  none_queued [] h = refl
  none_queued (t ∷ ts) (l, h) = omega (arith, other_ctx t l, none_queued ts h)

  none_at : (o : Option Task) → MaybeLives w o → count x (to_list (Option.map job o)) ≡ 0
  none_at none l = refl
  none_at (some t) l = omega (arith, other_ctx t l)

  none_unfinished : (n : Option Task) → Working n w → count x (in_flight (line n w)) ≡ 0
  none_unfinished n g =
      count-flight x (line n w)
      ∙ omega (
        arith,
        none_at w.running_task g.sent,
        none_at n g.ahead,
        none_queued w.pending_tasks g.queued,
      )

  abbrev new_context : Context
  new_context = record { failed = false; task_count = 0; allocated_buffers = [] }

  abbrev opened : World
  opened = record w { contexts = update w.contexts x (some new_context) }

  opened-Keeps : Keeps w opened
  opened-Keeps = record {
    buffers = λ q b h. (b, h);
    contexts = λ y c h. elim (ℕ_discrete x y) [
      | yes same ↦ let e = sym h ∙ ap w.contexts (sym same) ∙ new in absurd cc
      | no other ↦ (c, update_ne w.contexts x y (some new_context) other ∙ h)
    ];
  }

  opened-Working : (n : Option Task) → Working n w → Working n opened
  opened-Working n g = record {
    quiet = record {
      unlocked = g.quiet.unlocked;
      idle = g.quiet.idle;
      slots = same-SlotsAgree w opened g.quiet.slots refl refl refl;
    };
    clear = g.clear;
    queued = keep-AllLive w opened opened-Keeps w.pending_tasks g.queued;
    ahead = keep-MaybeLives w opened opened-Keeps n g.ahead;
    sent = keep-MaybeLives w opened opened-Keeps w.running_task g.sent;
    fenced = g.fenced;
    idle = g.idle;
  }

  opened-Into : (n : Option Task) → Working n w → Into [] n w n opened
  opened-Into n g =
      Into-to n w n opened [] [] _ (Move.join (ap (Option.map count_of) new) (none_unfinished n g))
        (line_eq (line n opened) _ refl refl refl
          (view_put count_of w.contexts x (some new_context)))

  opened-Passes : ((p : ℕ) (b : Buffer) → w.buffers p ≡ some b → b.ctx ≢ x) → Passes w opened
  opened-Passes unused =
      subst (Pass (holdings w))
        (sym (
          holdings_eq (holdings opened) _ refl
            (view_put buffer_list w.contexts x (some new_context))))
        (Pass.open_ctx x (ap (Option.map buffer_list) new) λ p f is mine.
          let (b, there, same) = seen file (w.buffers p) f is in
          unused p b there (ap (λ (k : File). k.ctx) same ∙ mine))

-- dicedev_open, at an address that is not in use and to which no buffer points.
pub open-Opened :
    (n : Option Task) (w : World) (p : Option ℕ)
    → Working n w
    → ((x : ℕ) → p ≡ some x → w.contexts x ≡ none)
    → ((x : ℕ) → p ≡ some x → (q : ℕ) (b : Buffer) → w.buffers q ≡ some b → b.ctx ≢ x)
    → Ensures (λ _ w'. Working n w' × Into [] n w n w' × Passes w w') (dicedev_open p w)
unfolding dicedev_open
open-Opened n w none g fresh unused = ensured (g, ([], Move.stay), Pass.stay)
open-Opened n w (some x) g fresh unused = ensured (
  opened-Working w x (fresh x refl) n g,
  opened-Into w x (fresh x refl) n g,
  opened-Passes w x (fresh x refl) (unused x refl),
)
