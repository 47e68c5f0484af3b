-- ===== src/Wt/Thread/Turn.antt =====
-- The invariant of the work thread of dicedev_wt.c: the locks, the slots, and the buffers and
-- contexts of the tasks.
pub mod Handlers
pub mod Sending
pub mod Whole
pub mod Progress
use dicedev_linux_driver.Base.{
  ℕ, ◌≡◌, refl, ◌≢◌, ◌∙◌, sym, true, false, Option, none, some, List, [], ◌∷◌, ℕ_discrete, subst,
  update, update_self, update_ne,
}
use dicedev_linux_driver.Types.{World, Buffer, Context, FenceState, Task}
use dicedev_linux_driver.Utils.Slots.{SlotsAgree}
use dicedev_linux_driver.Wt.Thread.Destroy.{Destroyed}
use dicedev_linux_driver.Wt.Thread.Events.{Quiet, Finished}
use dicedev_linux_driver.Wt.Thread.Bind.{Bound}

abbrev pub Lives : World → Task → Type 0
Lives w t =
    ((b : Buffer) × (w.buffers t.buff_out ≡ some b)) × ((c : Context) × (w.contexts t.ctx ≡ some c))

abbrev pub AllLive : World → List Task → Type 0
AllLive w [] = Unit {0}
AllLive w (t ∷ ts) = Lives w t × AllLive w ts

abbrev pub MaybeLives : World → Option Task → Type 0
MaybeLives w none = Unit {0}
MaybeLives w (some t) = Lives w t

-- `next` is the task that the thread has taken and not sent.
pub record Working (next : Option Task) (w : World) : Type 0 where
  pub quiet : Quiet w
  pub clear : w.failed ≡ false
  pub queued : AllLive w w.pending_tasks
  pub ahead : MaybeLives w next
  pub sent : MaybeLives w w.running_task
  pub fenced : w.fence_state ≢ FenceState.none → (t : Task) × (w.running_task ≡ some t)
  pub idle : w.fence_state ≡ FenceState.none → w.running_task ≡ none

-- No buffer and no context goes.
pub record Keeps (w w' : World) : Type 0 where
  pub buffers : (q : ℕ) (b : Buffer) → w.buffers q ≡ some b → (d : Buffer) × (w'.buffers q ≡ some d)
  pub contexts :
      (x : ℕ) (c : Context) → w.contexts x ≡ some c → (d : Context) × (w'.contexts x ≡ some d)

module _ (w w' : World) (k : Keeps w w') where
  pub keep-Lives : (t : Task) → Lives w t → Lives w' t
  keep-Lives t ((b, e), (c, f)) = (k.buffers t.buff_out b e, k.contexts t.ctx c f)

  pub keep-AllLive : (ts : List Task) → AllLive w ts → AllLive w' ts
  keep-AllLive [] h = tt
  keep-AllLive (t ∷ ts) (h, hs) = (keep-Lives t h, keep-AllLive ts hs)

  pub keep-MaybeLives : (t : Option Task) → MaybeLives w t → MaybeLives w' t
  keep-MaybeLives none h = tt
  keep-MaybeLives (some t) h = keep-Lives t h

pub same-Keeps : (w w' : World) → w'.buffers ≡ w.buffers → w'.contexts ≡ w.contexts → Keeps w w'
same-Keeps w w' e f = record { buffers = λ q b h. (b, rw e h); contexts = λ x c h. (c, rw f h) }

-- A table in which the object at `p` is replaced, and no other changes.
replaced :
    {A : Type 0} (f f' : ℕ → Option A) (p : ℕ) (d : A)
    → f' p ≡ some d
    → ((q : ℕ) → p ≢ q → f' q ≡ f q)
    → (q : ℕ) (a : A) → f q ≡ some a
    → (a' : A) × (f' q ≡ some a')
replaced f f' p d at others q a h = elim (ℕ_discrete p q) [
  | yes same ↦ (d, subst (λ r. f' r ≡ some d) same at)
  | no other ↦ (a, others q other ∙ h)
]

pub replaced-Keeps :
    (w w' : World) (x : ℕ) (c : Context)
    → w'.buffers ≡ w.buffers
    → w'.contexts ≡ update w.contexts x (some c)
    → Keeps w w'
replaced-Keeps w w' x c e f = record {
  buffers = λ q b h. (b, rw e h);
  contexts = rw f (
      replaced w.contexts (update w.contexts x (some c)) x c (update_self w.contexts x (some c))
        (λ q ne. update_ne w.contexts x q (some c) ne));
}

pub replaced_buffer-Keeps :
    (w w' : World) (p : ℕ) (b : Buffer)
    → w'.buffers ≡ update w.buffers p (some b)
    → w'.contexts ≡ w.contexts
    → Keeps w w'
replaced_buffer-Keeps w w' p b e f = record {
  buffers = rw e (
      replaced w.buffers (update w.buffers p (some b)) p b (update_self w.buffers p (some b))
        (λ q ne. update_ne w.buffers p q (some b) ne));
  contexts = λ x c h. (c, rw f h);
}

pub Destroyed-Keeps :
    (task : Task) (c : Context) (b : Buffer) (w w' : World) → Destroyed task c b w w' → Keeps w w'
Destroyed-Keeps task c b w w' d =
    let r = d.reader in
    record {
      buffers = replaced w.buffers w'.buffers task.buff_out r.0 r.1 d.buffers;
      contexts = replaced w.contexts w'.contexts task.ctx _ d.context d.others;
    }

pub Bound-Keeps : (p : ℕ) (b : Buffer) (s : ℕ) (w w' : World) → Bound p b s w w' → Keeps w w'
Bound-Keeps p b s w w' d = record {
  buffers = replaced w.buffers w'.buffers p _ d.buffer d.others;
  contexts = λ x c h. (c, rw d.contexts h);
}
