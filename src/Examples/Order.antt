-- ===== src/Examples/Order.antt =====
-- The interleavings at a device that runs a task: its fence is reached, then a task is written.
use dicedev_linux_driver.Base.{
  ℕ, ◌≡◌, refl, sym, true, some, none, List, [], ◌∷◌, arith, ℕ_discrete, some-injective, subst,
  update, ◌∙◌, ap, false, ◌⊎◌, inl, inr, ◌<◌, ◌+◌, ◌^◌, if◌then◌else◌, ◌==◌,
}
use dicedev_linux_driver.Types.{World, FenceState}
use dicedev_linux_driver.Monad.{fput, blocked, ok}
use dicedev_linux_driver.Pt.{Ret}
use dicedev_linux_driver.Utils.Slots.{same-SlotsAgree}
use dicedev_linux_driver.Wt.Thread.Turn.{Working}
use dicedev_linux_driver.Buffer.{dicedev_buffer_read}
use dicedev_linux_driver.Buffer.Write.{queued, buffer_write-outcome}
use dicedev_linux_driver.Chardev.{dicedev_ioctl_wait, release_rest, dicedev_open}
use dicedev_linux_driver.Chardev.Irq.{handled, isr-handled}
use dicedev_linux_driver.System.{line, tally}
use dicedev_linux_driver.System.Queue.{Counted}
use dicedev_linux_driver.Holdings.{File, file, holdings}
use dicedev_linux_driver.Holdings.Passes.{has, Held}
use dicedev_linux_driver.System.Owners.{Owned}
use dicedev_linux_driver.System.Closing.{Users, own_refs}
use dicedev_linux_driver.Monad.Safe.{Safe}
use dicedev_linux_driver.Wt.Thread.{wt_turn, wt_turns}
use dicedev_linux_driver.Wt.Thread.Turn.Progress.{work}
use dicedev_linux_driver.System.Ending.{Ended, wt_turns-Ended}
use dicedev_linux_driver.System.Safety.Calls.{Call}
use dicedev_linux_driver.System.Courses.{Course, Reopens, Course-Working, Course-Owned, Course-Safe}
use dicedev_linux_driver.System.Step.{Sound, Step}
use dicedev_linux_driver.System.Steps.{Steps, Steps-Sound, Steps-Counted}
use dicedev_linux_driver.System.Waiting.{
  unfinished, ioctl_wait-unfinished, release_rest-unfinished, buffer_read-unfinished,
}
use dicedev_linux_driver.Examples.{
  ready_hw, ready_hw-Responsive, held, loose, ctx, roll, world, world-SlotsAgree,
}

abbrev sending : World
sending = record world { running_task = some roll; fence_state = FenceState.waiting }

abbrev reached : World
reached = handled sending 3 ctx 1

abbrev words : List ℕ
words = 4 ∷ 0 ∷ []

abbrev written : World
written = queued 1 8 reached held ctx words

sending-Working : Working none sending
sending-Working = record {
  quiet = record {
    unlocked = refl;
    idle = refl;
    slots = same-SlotsAgree world sending world-SlotsAgree refl refl refl;
  };
  clear = refl;
  queued = tt;
  ahead = tt;
  sent = ((held, refl), (ctx, refl));
  fenced = λ busy. (roll, refl);
  idle = λ e. cc;
}

interrupt_then_write : Steps ready_hw none sending none written
interrupt_then_write =
    Steps.then_step
      (Steps.then_step Steps.start
        (Step.interrupt true (isr-handled ready_hw sending roll ctx refl refl refl)))
      (Step.write 1 8 true (some words) true (Ret.ok 8)
        (buffer_write-outcome 1 8 reached held ctx true (some words) true refl refl refl refl))

-- Contexts of which only the one at 3 is there.
only_three :
    (n : ℕ) (bs : List ℕ) (x k : ℕ)
    → tally
        (λ p. if p == 3 then some (record ctx { task_count = n; allocated_buffers = bs }) else none)
        x
      ≡ some k
    → (x ≡ 3) × (n ≡ k)
only_three n bs x k h = elim (ℕ_discrete x 3) [
  | yes same ↦ (
    same,
    some-injective n k (
        subst
          (λ y.
            tally
              (λ p.
                if p == 3
                then some (record ctx { task_count = n; allocated_buffers = bs })
                else none)
              y
            ≡ some k)
          same h),
  )
  | no other ↦ absurd (ground arith)
]

sending-Counted : Counted (line none sending)
sending-Counted x k h = let (same, one) = only_three 1 (2 ∷ 1 ∷ []) x k h in rw same (sym one)

-- Nothing is in flight.
abbrev finished : World
finished = record world {
  contexts =
      λ p. if p == 3 then some (record ctx { task_count = 0; allocated_buffers = [] }) else none;
}

finished-Counted : Counted (line none finished)
finished-Counted x k h = sym (only_three 0 [] x k h).1

-- The context lists both buffers, which have two references each.
lists_three :
    (x : ℕ) (l : List ℕ) → (holdings sending).lists x ≡ some l → (x ≡ 3) × (2 ∷ 1 ∷ [] ≡ l)
lists_three x l h = elim (ℕ_discrete x 3) [
  | yes same ↦ (
    same,
    some-injective (2 ∷ 1 ∷ []) l (subst (λ y. (holdings sending).lists y ≡ some l) same h),
  )
  | no other ↦ absurd (ground arith)
]

in_two : (p : ℕ) → has p (2 ∷ 1 ∷ []) ≡ true → (p ≡ 2) ⊎ (p ≡ 1)
in_two p h = ground arith

abbrev Two : ℕ → Type 0
Two p = (f : File) × ((holdings sending).files p ≡ some f) × (f.ctx ≡ 3) × (0 < f.refs)

sending-Two : (p : ℕ) → (p ≡ 2) ⊎ (p ≡ 1) → Two p
sending-Two p (inl two) = subst Two (sym two) (file loose, refl, refl, omega arith)
sending-Two p (inr one) = subst Two (sym one) (file held, refl, refl, omega arith)

files_two : (p : ℕ) (f : File) → (holdings sending).files p ≡ some f → has p (2 ∷ 1 ∷ []) ≡ true
files_two p f h = elim (ℕ_discrete p 1) [
  | yes one ↦ rw one refl
  | no other ↦ elim (ℕ_discrete p 2) [ yes two ↦ rw two refl | no neither ↦ absurd (ground arith) ]
]

sending-Held : Held (holdings sending)
sending-Held = record {
  listed = λ x p l at inside.
      let (same, these) = lists_three x l at in
      let (f, is, mine, more) = sending-Two p (in_two p (ap (has p) these ∙ inside)) in
      (f, is, mine ∙ sym same, more);
  member = λ p f l is at.
      let (same, these) = lists_three f.ctx l at in ap (has p) (sym these) ∙ files_two p f is;
  alive = λ p f is live.
      let (g, was, mine, more) = sending-Two p (in_two p (files_two p f is)) in
      let own : f.ctx ≡ 3 = ap (λ (k : File). k.ctx) (some-injective f g (sym is ∙ was)) ∙ mine in
      (2 ∷ 1 ∷ [], ap (holdings sending).lists own);
}

sending-Sound : Sound none sending
sending-Sound = record {
  working = sending-Working;
  counted = sending-Counted;
  owned = record { held = sending-Held; fits = (((_, refl, refl), tt), tt) };
}

-- A user closes the descriptor of the second buffer.
abbrev put_two : World
put_two = record written {
  buffers = update written.buffers 2 (some (record loose { file_refs = 1 }));
}

two-Users : Users written 2
two-Users b there =
    subst (λ d. (own_refs written 2 d < d.file_refs) × (d.file_refs + 1 < 2 ^ 64))
      (some-injective loose b there) (omega arith, omega arith)

closed_two : fput 2 written ≡ ok tt put_two
unfolding fput
closed_two = refl

then_close : Steps ready_hw none sending none put_two
then_close = Steps.then_step interrupt_then_write (Step.put 2 tt two-Users closed_two)

Steps-Counted_example : Counted (line none put_two)
Steps-Counted_example =
    Steps-Counted ready_hw ready_hw-Responsive none sending none put_two sending-Sound then_close

-- The same as a course.
course : Course ready_hw none sending none put_two
course =
    Course.then_step
      (Course.then_step
        (Course.then_step Course.start
          (Step.interrupt true (isr-handled ready_hw sending roll ctx refl refl refl)))
        (Step.write 1 8 true (some words) true (Ret.ok 8)
          (buffer_write-outcome 1 8 reached held ctx true (some words) true refl refl refl refl)))
      (Step.put 2 tt two-Users closed_two)

Course-Working_example : Reopens course ⊎ Working none put_two
Course-Working_example =
    Course-Working ready_hw ready_hw-Responsive none sending none put_two sending-Sound course

Course-Owned_example : Reopens course ⊎ Owned none put_two
Course-Owned_example =
    Course-Owned ready_hw ready_hw-Responsive none sending none put_two sending-Sound course

-- The fence of the task is reached: the next turn finishes it.
Course-Safe_example : Reopens course ⊎ Safe (wt_turn ready_hw false false none put_two)
Course-Safe_example =
    Course-Safe ready_hw ready_hw-Responsive none sending none put_two sending-Sound course
      (Call.turn false false)

-- The context of the first buffer is gone, and its address is given to a new one: the buffer passes
-- for one of the new context, which does not list it.
abbrev stray : World
stray = record world {
  buffers = λ p. if p == 1 then some (record held { file_refs = 1; destroyed = true }) else none;
  contexts = λ x. none;
}

abbrev reused : World
reused = record stray {
  contexts =
      update stray.contexts 3
        (some (record { failed = false; task_count = 0; allocated_buffers = [] }));
}

opened_again : dicedev_open (some 3) stray ≡ ok (Ret.ok 3) reused
unfolding dicedev_open
opened_again = refl

reopening : Course ready_hw none stray none reused
reopening =
    Course.reopen 3 1 (record held { file_refs = 1; destroyed = true }) (Ret.ok 3) Course.start refl
      refl refl opened_again

no_longer_held : Held (holdings reused) → false ≡ true
no_longer_held h = h.member 1 (record { ctx = 3; refs = 1; destroyed = true }) [] refl refl

put_two-Sound : Sound none put_two
put_two-Sound =
    Steps-Sound ready_hw ready_hw-Responsive none sending none put_two sending-Sound then_close

-- One task waits, and one is on the device.
work_seven : work none put_two ≡ 7
work_seven = refl

wt_turns-Ended_example : Ended (wt_turns ready_hw 8 none put_two)
wt_turns-Ended_example =
    wt_turns-Ended ready_hw ready_hw-Responsive 8 none put_two put_two-Sound
      (omega (arith, work_seven))

-- One task of the context is on the device: a wait for none sleeps.
ioctl_wait-unfinished_example : dicedev_ioctl_wait 3 (some 0) sending ≡ blocked
ioctl_wait-unfinished_example =
    ioctl_wait-unfinished none sending sending-Counted 3 0 ctx refl (omega arith)

-- Its context is freed, and a read of its buffer reports the end.
finished_end : dicedev_buffer_read 1 8 true finished ≡ ok (Ret.ok none) finished
unfolding dicedev_buffer_read
finished_end = refl

abbrev freed : World
freed = record finished { contexts = λ x. if 3 == x then none else finished.contexts x }

finished-freed : release_rest ready_hw 3 finished ≡ ok tt freed
unfolding release_rest
finished-freed = refl

buffer_read-unfinished_example : unfinished none finished 3 ≡ 0
buffer_read-unfinished_example =
    buffer_read-unfinished none finished finished-Counted 1 8 true held
      (record ctx { task_count = 0; allocated_buffers = [] }) refl refl refl refl finished
      (omega arith) finished_end

release_rest-unfinished_example : unfinished none finished 3 ≡ 0
release_rest-unfinished_example =
    release_rest-unfinished none finished finished-Counted ready_hw 3
      (record ctx { task_count = 0; allocated_buffers = [] }) tt freed refl (omega arith)
      finished-freed
