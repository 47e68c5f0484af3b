-- ===== src/System/Safety/Files.antt =====
-- The operations on an open file of dicedev_buffer.c: what they follow is there, and no lock is
-- taken twice.
use dicedev_linux_driver.Base.{
  ℕ, ◌+◌, ◌/◌, ◌%◌, ◌≡◌, ap, inl, inr, Bool, true, false, not, Option, none, some, List, ◌==◌, leb,
  ltb, Bool-cases, update_self, get_elem?,
}
use mathlib.Core.Option
use dicedev_linux_driver.Dice.{u64}
use dicedev_linux_driver.Types.{World, Buffer, Context, Page, Task}
use dicedev_linux_driver.Holdings.{file, buffer_list, seen}
use dicedev_linux_driver.Monad.{pure}
use dicedev_linux_driver.Monad.Safe.{
  Safe, goes_on, waits, stops, Safe-then, Returns-Safe, either_Safe,
}
use dicedev_linux_driver.Pt.{Errno, Ret, err}
use dicedev_linux_driver.Utils.{Hw, Responsive}
use dicedev_linux_driver.Wt.Thread.{dicedev_wt_add_task}
use dicedev_linux_driver.Buffer.{
  Dice, dice_in, dice_per_page, buff_read_result, copy_result, read_available, read_empty,
  dicedev_buffer_read, reads_available, write_open, write_locked, dicedev_buffer_write, set_seed,
  dicedev_buffer_ioctl, buffer_ioctl_seed, dicedev_buffer_release,
}
use dicedev_linux_driver.Buffer.Destroy.{buffer_release-Released}
use dicedev_linux_driver.System.Step.{Sound}

module _ (n : Option Task) (w : World) (s : Sound n w) (p : ℕ) (b : Buffer)
    (there : w.buffers p ≡ some b) where
  open s.working.quiet use {unlocked}

  abbrev locked : World
  locked = record w { slock = true }

  -- The context of a buffer that is not marked is there.
  live_context : b.destroyed ≡ false → (c : Context) × (w.contexts b.ctx ≡ some c)
  live_context live =
      let (l, at) = s.owned.held.alive p (file b) (ap (Option.map file) there) live in
      let (c, known, same) = seen buffer_list (w.contexts b.ctx) l at in (c, known)

  open-Safe :
      (c : Context) (count : ℕ) (x : Bool) (y : Option (List ℕ)) (z : Bool)
      → w.contexts b.ctx ≡ some c
      → Safe (write_open p count x y z b locked)
  unfolding write_open dicedev_wt_add_task
  open-Safe c count true (some words) true known = rw known goes_on
  open-Safe c count true (some words) false known =
      rw
        (
          known,
          update_self w.contexts b.ctx (some (record c { task_count = u64 (c.task_count + 1) })),
        )
        (stops tt)
  open-Safe c count true none z known =
      rw
        (
          known,
          update_self w.contexts b.ctx (some (record c { task_count = u64 (c.task_count + 1) })),
        )
        (stops tt)
  open-Safe c count false y z known =
      rw
        (
          known,
          update_self w.contexts b.ctx (some (record c { task_count = u64 (c.task_count + 1) })),
        )
        (stops tt)

  locked-Safe :
      (count : ℕ) (x : Bool) (y : Option (List ℕ)) (z : Bool) → Safe (write_locked p count x y z w)
  unfolding write_locked
  locked-Safe count x y z = elim (Bool-cases b.destroyed) [
    | inl gone ↦ simp (unlocked, there, gone) goes_on
    | inr live ↦
        let (c, known) = live_context live in
        simp (unlocked, there, live) (open-Safe c count x y z known)
  ]

  pub buffer_write-Safe :
      (count : ℕ) (cmd_ok : Bool) (copied : Option (List ℕ)) (task_ok : Bool)
      → Safe (dicedev_buffer_write p count cmd_ok copied task_ok w)
  unfolding dicedev_buffer_write
  buffer_write-Safe count cmd_ok copied task_ok =
      either_Safe (not (count % 4 == 0)) (pure (err Errno.einval))
        (write_locked p count cmd_ok copied task_ok) w goes_on
        (locked-Safe count cmd_ok copied task_ok)

  dice_in-Safe : (off : ℕ) (page : Option Page) (v : World) → Safe (dice_in off page v)
  dice_in-Safe off none v = stops tt
  dice_in-Safe off (some page) v = goes_on

  copy-Safe : (copy_ok : Bool) (r : Ret Dice) (v : World) → Safe (copy_result copy_ok r v)
  copy-Safe copy_ok (err e) v = goes_on
  copy-Safe false (Ret.ok d) v = goes_on
  copy-Safe true (Ret.ok d) v = goes_on

  available-Safe : (copy_ok : Bool) → Safe (read_available p copy_ok b locked)
  unfolding read_available buff_read_result
  available-Safe copy_ok =
      Safe-then
        (either_Safe (leb b.pt.num_pages (b.reader.offset / dice_per_page))
          (pure (err Errno.einval))
          (dice_in b.reader.offset (get_elem? b.pt.pages (b.reader.offset / dice_per_page))) _
          goes_on (dice_in-Safe _ _ _))
        λ r v. copy-Safe copy_ok r v

  empty-Safe : Safe (read_empty b locked)
  unfolding read_empty
  empty-Safe = elim (Bool-cases b.destroyed) [
    | inl gone ↦ rw gone goes_on
    | inr live ↦
        let (c, known) = live_context live in
        elim (Bool-cases (ltb 0 c.task_count)) [
          | inl busy ↦ rw (live, known, busy) waits
          | inr idle ↦ rw (live, known, idle) goes_on
        ]
  ]

  pub buffer_read-Safe : (count : ℕ) (copy_ok : Bool) → Safe (dicedev_buffer_read p count copy_ok w)
  unfolding dicedev_buffer_read
  buffer_read-Safe count copy_ok = elim (Bool-cases (count == 8)) [
    | inr wrong ↦ rw wrong goes_on
    | inl right ↦
        simp (right, unlocked, there)
          (either_Safe (reads_available b.reader == 0) (read_empty b) (read_available p copy_ok b)
            locked empty-Safe (available-Safe copy_ok))
  ]

  pub buffer_ioctl-Safe : (cmd : ℕ) (copied : Option ℕ) → Safe (dicedev_buffer_ioctl p cmd copied w)
  unfolding dicedev_buffer_ioctl
  buffer_ioctl-Safe cmd none =
      either_Safe (cmd == buffer_ioctl_seed) (set_seed p none) (pure (err Errno.enotty)) w goes_on
        goes_on
  buffer_ioctl-Safe cmd (some seed) =
      either_Safe (cmd == buffer_ioctl_seed) (set_seed p (some seed)) (pure (err Errno.enotty)) w
        (rw there goes_on) goes_on

  pub buffer_release-Safe : (hw : Hw) → Responsive hw → Safe (dicedev_buffer_release hw p w)
  buffer_release-Safe hw drains = Returns-Safe (
      buffer_release-Released hw drains p b w unlocked s.working.quiet.idle s.working.quiet.slots
        there)
