-- ===== src/System/Files.antt =====
-- Reads and the ioctl of dicedev_buffer.c, and the ioctls of dicedev_base.c that wait and that set
-- the seed's increment, seen from the queue.
use dicedev_linux_driver.Base.{
  ℕ, ◌+◌, ◌/◌, ◌≡◌, refl, sym, subst, inl, inr, Bool, true, false, not, ◌&&◌, Option, none, some,
  ◌∷◌, ◌==◌, leb, ltb, Bool-cases, Option-cases, get_elem?,
}
use dicedev_linux_driver.Dice.{u64, increment_seed}
use dicedev_linux_driver.Types.{World, Buffer, Page}
use dicedev_linux_driver.Monad.{pure, Ensures, ensured, faults, sleeps, then_ensured, either}
use dicedev_linux_driver.Pt.{Errno, Ret, err}
use dicedev_linux_driver.Utils.{dicedev_iow}
use dicedev_linux_driver.Wt.Thread.Events.{Quiet}
use dicedev_linux_driver.Buffer.{
  Dice, dice_in, dice_per_page, buff_read_result, copy_result, read_available, read_empty,
  dicedev_buffer_read, reads_available, dicedev_buffer_ioctl, buffer_ioctl_seed, set_seed,
}
use dicedev_linux_driver.Chardev.{
  dicedev_ioctl_wait, dicedev_ioctl_seed_increment, wait_for, set_increment,
}
use dicedev_linux_driver.System.{Aside}
use dicedev_linux_driver.System.Sides.{as_before, released, changed, stepped, logged}

module _ (w : World) (q : Quiet w) where
  abbrev locked : World
  locked = record w { slock = true }

  dice_in-Ensures :
      (off : ℕ) (page : Option Page) (v : World) → Ensures (λ _ u. u ≡ v) (dice_in off page v)
  dice_in-Ensures off none v = faults
  dice_in-Ensures off (some page) v = ensured refl

  copy-Aside :
      (v : World)
      → Aside w (record v { slock = false })
      → (copy_ok : Bool) (r : Ret Dice) → Ensures (λ _ w'. Aside w w') (copy_result copy_ok r v)
  copy-Aside v a copy_ok (err e) = ensured a
  copy-Aside v a false (Ret.ok d) = ensured a
  copy-Aside v a true (Ret.ok d) = ensured a

  module _ (p : ℕ) (b : Buffer) (there : w.buffers p ≡ some b) where
    abbrev advanced : Buffer
    advanced = record b { reader = record b.reader { offset = u64 (b.reader.offset + 1) } }

    result-Ensures : Ensures (λ _ v. v ≡ changed w p advanced true) (buff_read_result p b locked)
    unfolding buff_read_result
    result-Ensures =
        either (leb b.pt.num_pages (b.reader.offset / dice_per_page)) (pure (err Errno.einval))
          (dice_in b.reader.offset (get_elem? b.pt.pages (b.reader.offset / dice_per_page)))
          (changed w p advanced true) (ensured refl) (dice_in-Ensures _ _ _)

    available-Aside :
        (copy_ok : Bool) → Ensures (λ _ w'. Aside w w') (read_available p copy_ok b locked)
    unfolding read_available
    available-Aside copy_ok = then_ensured result-Ensures λ r v same.
        copy-Aside v
          (subst (λ u. Aside w (record u { slock = false })) (sym same)
            (stepped w q p b advanced there refl refl))
          copy_ok r

    empty-Aside : Ensures (λ _ w'. Aside w w') (read_empty b locked)
    unfolding read_empty
    empty-Aside = elim (Bool-cases b.destroyed) [
      | inl gone ↦ rw gone (ensured (released w q))
      | inr live ↦ elim (Option-cases (w.contexts b.ctx)) [
        | inl gone ↦ rw (live, gone) faults
        | inr (c, known) ↦ elim (Bool-cases (ltb 0 c.task_count)) [
          | inl busy ↦ rw (live, known, busy) sleeps
          | inr idle ↦ rw (live, known, idle) (ensured (released w q))
        ]
      ]
    ]

  -- A read, if it returns, leaves queue, tasks and counts as they are.
  pub buffer_read-Aside :
      (p count : ℕ) (copy_ok : Bool)
      → Ensures (λ _ w'. Aside w w') (dicedev_buffer_read p count copy_ok w)
  unfolding dicedev_buffer_read
  buffer_read-Aside p count copy_ok = elim (Bool-cases (count == 8)) [
    | inr wrong ↦ rw wrong (ensured (as_before w q))
    | inl right ↦ elim (Option-cases (w.buffers p)) [
      | inl gone ↦ rw (right, q.unlocked, gone) faults
      | inr (b, there) ↦
          simp (right, q.unlocked, there)
            (either (reads_available b.reader == 0) (read_empty b) (read_available p copy_ok b)
              locked (empty-Aside p b there) (available-Aside p b there copy_ok))
    ]
  ]

  wait_for-Aside : (ctx cnt : ℕ) → Ensures (λ _ w'. Aside w w') (wait_for ctx cnt w)
  unfolding wait_for
  wait_for-Aside ctx cnt = elim (Option-cases (w.contexts ctx)) [
    | inl gone ↦ rw gone faults
    | inr (c, known) ↦ elim (Bool-cases (ltb cnt c.task_count)) [
      | inl busy ↦ rw (known, busy) sleeps
      | inr few ↦ rw (known, few) (ensured (as_before w q))
    ]
  ]

  -- So does DICEDEV_IOCTL_WAIT,
  pub ioctl_wait-Aside :
      (ctx : ℕ) (cnt : Option ℕ) → Ensures (λ _ w'. Aside w w') (dicedev_ioctl_wait ctx cnt w)
  unfolding dicedev_ioctl_wait
  ioctl_wait-Aside ctx none = ensured (as_before w q)
  ioctl_wait-Aside ctx (some cnt) = wait_for-Aside ctx cnt

  -- and DICEDEV_IOCTL_SEED_INCREMENT,
  pub seed_increment-Aside :
      (e : Option ℕ) → Ensures (λ _ w'. Aside w w') (dicedev_ioctl_seed_increment e w)
  unfolding dicedev_ioctl_seed_increment set_increment dicedev_iow
  seed_increment-Aside none = ensured (as_before w q)
  seed_increment-Aside (some e) =
      either (not (e == 0) && not (e == 1)) (pure (err Errno.einval)) (set_increment e) w
        (ensured (as_before w q))
        (simp (q.unlocked) (ensured (logged w q ((increment_seed, e) ∷ w.writes))))

  -- and the ioctl of a buffer.
  pub buffer_ioctl-Aside :
      (p cmd : ℕ) (copied : Option ℕ)
      → Ensures (λ _ w'. Aside w w') (dicedev_buffer_ioctl p cmd copied w)
  unfolding dicedev_buffer_ioctl
  buffer_ioctl-Aside p cmd none =
      either (cmd == buffer_ioctl_seed) (pure (err Errno.efault)) (pure (err Errno.enotty)) w
        (ensured (as_before w q)) (ensured (as_before w q))
  buffer_ioctl-Aside p cmd (some seed) =
      either (cmd == buffer_ioctl_seed) (set_seed p (some seed)) (pure (err Errno.enotty)) w
        (elim (Option-cases (w.buffers p)) [
          | inl gone ↦ rw gone faults
          | inr (b, there) ↦ rw there (
              ensured (
                subst (λ l. Aside w (changed w p (record b { seed_chg = true; seed = seed }) l))
                  (sym q.unlocked)
                  (stepped w q p b (record b { seed_chg = true; seed = seed }) there refl refl)))
        ])
        (ensured (as_before w q))
