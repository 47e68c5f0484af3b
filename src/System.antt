-- ===== src/System.antt =====
-- The calls of users and the interrupt handler, seen from the work thread and its queue.
pub mod Queue
pub mod Sides
pub mod Files
pub mod Turns
pub mod Owners
pub mod Closing
pub mod Step
pub mod Steps
pub mod Safety
pub mod Ending
pub mod Courses
pub mod Waiting
pub mod Creation
pub mod Ioctls
pub mod Release
pub mod Arrivals
use dicedev_linux_driver.Base.{
  ℕ, ◌+◌, ◌≡◌, refl, ◌≢◌, ◌∙◌, sym, subst, ap, fun_ext, ◌⊎◌, inl, inr, true, false, Option, none,
  some, List, [], ◌∷◌, ◌++◌, map, map-append, arith, update, update_self, update_ne, ℕ_discrete,
}
use mathlib.Core.Option
use dicedev_linux_driver.Dice.{u64}
use dicedev_linux_driver.Types.{World, Buffer, Context, FenceState, Task}
use dicedev_linux_driver.Holdings.{Job, job, Holdings, holdings, view, view_put, view_kept}
use dicedev_linux_driver.Holdings.Passes.{Fits, Pass, new_file}
use dicedev_linux_driver.Utils.Slots.{SlotsAgree, same-SlotsAgree}
use dicedev_linux_driver.Wt.Thread.Turn.{
  Lives, AllLive, Working, Keeps, keep-Lives, keep-AllLive, keep-MaybeLives, replaced-Keeps,
}
use dicedev_linux_driver.System.Queue.{Line, Move}

-- The tasks that each context counts.
abbrev pub count_of : Context → ℕ
count_of c = c.task_count

abbrev pub tally : (ℕ → Option Context) → ℕ → Option ℕ
tally contexts = view count_of contexts

-- The line of tasks behind the state of the driver and the task that the thread has taken.
abbrev pub line : Option Task → World → Line
line next w = record {
  running = Option.map job w.running_task;
  taken = Option.map job next;
  queue = map job w.pending_tasks;
  counts = tally w.contexts;
}

pub line_eq :
    (l m : Line)
    → l.running ≡ m.running
    → l.taken ≡ m.taken
    → l.queue ≡ m.queue
    → l.counts ≡ m.counts
    → l ≡ m
line_eq l m r t q c = λ i. record { running = r i; taken = t i; queue = q i; counts = c i }

-- A context that fails counts the tasks that it counted.
pub tally_failed :
    (f : ℕ → Option Context) (x : ℕ) (c : Context)
    → f x ≡ some c
    → tally (update f x (some (record c { failed = true }))) ≡ tally f
tally_failed f x c known = view_kept count_of f x c (record c { failed = true }) known refl

-- A step that takes no part in the queue, and after which buffers are held as in `h`.
pub record Beside (h : Holdings) (w w' : World) : Type 0 where
  pub lock : w'.slock ≡ false
  pub feed : w'.feed_lock ≡ false
  pub slots : SlotsAgree w'
  pub failed : w'.failed ≡ w.failed
  pub running : w'.running_task ≡ w.running_task
  pub pending : w'.pending_tasks ≡ w.pending_tasks
  pub fence :
      (w'.fence_state ≡ w.fence_state)
      ⊎ ((w'.fence_state ≡ FenceState.reached) × ((t : Task) × (w.running_task ≡ some t)))
  pub counts : tally w'.contexts ≡ tally w.contexts
  pub keeps : Keeps w w'
  pub holds : holdings w' ≡ h

abbrev pub Aside : World → World → Type 0
Aside w w' = Beside (holdings w) w w'

abbrev pub Passed : World → World → Type 0
Passed w w' = (h : Holdings) × Pass (holdings w) h × Beside h w w'

pub Aside-Passed : {w w' : World} → Aside w w' → Passed w w'
Aside-Passed a = (_, Pass.stay, a)

-- The buffers are held as before, or a new one by the context `x` and two references.
pub record Created (x : ℕ) (g h : Holdings) : Type 0 where
  pub buffer : ℕ
  pub before : List ℕ
  pub new : g.files buffer ≡ none
  pub known : g.lists x ≡ some before
  pub after : h ≡ record {
    lists = update g.lists x (some (buffer ∷ before));
    files = update g.files buffer (some (new_file x));
  }

abbrev pub Granted : ℕ → World → World → Type 0
Granted x w w' = (h : Holdings) × ((h ≡ holdings w) ⊎ Created x (holdings w) h) × Beside h w w'

pub Aside-Granted : (x : ℕ) {w w' : World} → Aside w w' → Granted x w w'
Aside-Granted x a = (_, inl refl, a)

pub Granted-Passed : (x : ℕ) (w w' : World) → Granted x w w' → Passed w w'
Granted-Passed x w w' (h, inl same, a) = (h, subst (Pass (holdings w)) (sym same) Pass.stay, a)
Granted-Passed x w w' (h, inr c, a) =
    (h, subst (Pass (holdings w)) (sym c.after) (Pass.create x c.buffer c.before c.new c.known), a)

abbrev pub Passes : World → World → Type 0
Passes w w' = Pass (holdings w) (holdings w')

pub Passed-Passes : (w w' : World) → Passed w w' → Passes w w'
Passed-Passes w w' (h, pass, a) = subst (Pass (holdings w)) (sym a.holds) pass

module _ {h : Holdings} (w w' : World) (a : Beside h w w') where
  pub Beside-line : (next : Option Task) → line next w' ≡ line next w
  Beside-line next =
      line_eq (line next w') (line next w) (ap (Option.map job) a.running) refl
        (ap (map job) a.pending) a.counts

  pub Beside-Working : (next : Option Task) → Working next w → Working next w'
  Beside-Working next g = record {
    quiet = record { unlocked = a.lock; idle = a.feed; slots = a.slots };
    clear = a.failed ∙ g.clear;
    queued = rw a.pending (keep-AllLive w w' a.keeps w.pending_tasks g.queued);
    ahead = keep-MaybeLives w w' a.keeps next g.ahead;
    sent = rw a.running (keep-MaybeLives w w' a.keeps w.running_task g.sent);
    fenced = elim a.fence [
      | inl same ↦ rw (same, a.running) g.fenced
      | inr (reached, (t, runs)) ↦ λ busy. (t, a.running ∙ runs)
    ];
    idle = elim a.fence [
      | inl same ↦ rw (same, a.running) g.idle
      | inr (reached, (t, runs)) ↦ λ none. let e = sym reached ∙ none in absurd cc
    ];
  }

-- A task of a living buffer and context is counted and queued behind the others.
abbrev pub enqueued : World → Task → Context → World
enqueued w t c = record w {
  slock = false;
  contexts = update w.contexts t.ctx (some (record c { task_count = u64 (c.task_count + 1) }));
  pending_tasks = w.pending_tasks ++ t ∷ [];
}

-- Nothing changes, or a task comes in, of which `P` holds.
abbrev pub Queued : (Task → Type 0) → World → World → Type 0
Queued P w w' =
    (w' ≡ w)
    ⊎ ((t : Task) × (c : Context) × P t
        × Lives w t
        × Fits (holdings w) (job t)
        × (w.contexts t.ctx ≡ some c)
        × (w' ≡ enqueued w t c))

AllLive-append :
    (w : World) (ts : List Task) (t : Task) → AllLive w ts → Lives w t → AllLive w (ts ++ t ∷ [])
AllLive-append w [] t h l = (l, tt)
AllLive-append w (u ∷ ts) t (h, hs) l = (h, AllLive-append w ts t hs l)

enqueued-Working :
    (next : Option Task) (w : World) (t : Task) (c : Context)
    → Lives w t
    → w.contexts t.ctx ≡ some c
    → Working next w
    → Working next (enqueued w t c)
enqueued-Working next w t c live known g =
    let w' = enqueued w t c in
    let more : Context = record c { task_count = u64 (c.task_count + 1) } in
    let k = replaced-Keeps w w' t.ctx more refl refl in
    record {
      quiet = record {
        unlocked = refl;
        idle = g.quiet.idle;
        slots = same-SlotsAgree w w' g.quiet.slots refl refl refl;
      };
      clear = g.clear;
      queued =
          AllLive-append w' w.pending_tasks t (keep-AllLive w w' k w.pending_tasks g.queued)
            (keep-Lives w w' k t live);
      ahead = keep-MaybeLives w w' k next g.ahead;
      sent = keep-MaybeLives w w' k w.running_task g.sent;
      fenced = g.fenced;
      idle = g.idle;
    }

pub Queued-Working :
    (P : Task → Type 0) (next : Option Task) (w w' : World)
    → Queued P w w'
    → Working next w
    → Working next w'
Queued-Working P next w w' (inl same) g = subst (Working next) (sym same) g
Queued-Working P next w w' (inr (t, c, its, live, fits, known, e)) g =
    subst (Working next) (sym e) (enqueued-Working next w t c live known g)

-- A step of the driver is a step of the line, in which the jobs `i` come in.
abbrev pub Into : List Job → Option Task → World → Option Task → World → Type 0
Into i n w n' w' = (o : List Job) × Move (line n w) i o (line n' w')

abbrev pub Moved : Option Task → World → Option Task → World → Type 0
Moved n w n' w' = (i : List Job) × Into i n w n' w'

pub Into-to :
    (n : Option Task) (w : World) (n' : Option Task) (w' : World) (i o : List Job) (l : Line)
    → Move (line n w) i o l
    → line n' w' ≡ l
    → Into i n w n' w'
Into-to n w n' w' i o l m e = (o, subst (Move (line n w) i o) (sym e) m)

pub Beside-Into : {h : Holdings} (n : Option Task) (w w' : World) → Beside h w w' → Into [] n w n w'
Beside-Into n w w' a = Into-to n w n w' [] [] (line n w) Move.stay (Beside-line w w' a n)

pub Queued-Into :
    (n : Option Task) (w w' : World) (t : Task) (c : Context)
    → w.contexts t.ctx ≡ some c
    → w' ≡ enqueued w t c
    → Into (job t ∷ []) n w n w'
Queued-Into n w w' t c known e =
    Into-to n w n w' (job t ∷ []) [] _ (Move.arrive (ap (Option.map count_of) known)) (
      ap (line n) e
      ∙ line_eq (line n (enqueued w t c)) _ refl refl (map-append job w.pending_tasks (t ∷ [])) (
          view_put count_of w.contexts t.ctx
            (some (record c { task_count = u64 (c.task_count + 1) }))))
