-- ===== src/System/Waiting.antt =====
-- What the count of a context tells those that wait: dicedev_ioctl_wait and dicedev_release of
-- dicedev_base.c and dicedev_buffer_read of dicedev_buffer.c.
use dicedev_linux_driver.Base.{
  subst, ◌≢◌, ℕ, ◌<◌, ◌^◌, ◌≡◌, refl, ◌∙◌, sym, ap, inl, inr, Bool, true, false, Option, none, some,
  ◌==◌, ltb, arith, if◌then◌else◌, Bool-cases,
}
use mathlib.Core.Option
use dicedev_linux_driver.Types.{World, Buffer, Context, Task}
use dicedev_linux_driver.Monad.{
  Run, ok, blocked, fault, Ensures, ensured, sleeps, faults, then_ensured, weaker_ensured,
  ensured_at,
}
use dicedev_linux_driver.Pt.{Errno, Ret, err}
use dicedev_linux_driver.Utils.{Hw}
use dicedev_linux_driver.Buffer.{
  Dice, dicedev_buffer_read, reads_available, read_empty, read_available, buff_read_result,
  copy_result,
}
use dicedev_linux_driver.Chardev.{dicedev_ioctl_wait, release_rest}
use dicedev_linux_driver.System.Queue.{Counted, count, in_flight}
use dicedev_linux_driver.System.{line}

-- The tasks of a context that are queued, taken or running.
abbrev pub unfinished : Option Task → World → ℕ → ℕ
unfinished next w ctx = count ctx (in_flight (line next w))

module _ (next : Option Task) (w : World) (counted : Counted (line next w)) where
  pub count_is :
      (ctx : ℕ) (c : Context)
      → w.contexts ctx ≡ some c
      → unfinished next w ctx < 2 ^ 64
      → c.task_count ≡ unfinished next w ctx
  count_is ctx c known few =
      let k = counted ctx c.task_count (ap (Option.map (λ (d : Context). d.task_count)) known) in
      omega arith

  ioctl_wait-known :
      (ctx cnt : ℕ) (c : Context)
      → w.contexts ctx ≡ some c
      → dicedev_ioctl_wait ctx (some cnt) w ≡ (
          if ltb cnt c.task_count
          then blocked
          else ok (if c.failed then err Errno.eio else Ret.ok tt) w)
  unfolding dicedev_ioctl_wait
  ioctl_wait-known ctx cnt c known = ground (arith, known)

  -- If every context counts its tasks, and those of a context that is there are fewer than 2 ^
  -- 64, DICEDEV_IOCTL_WAIT sleeps while more than the given number of tasks of the context are
  -- queued, taken or running; otherwise it gives EIO if the context has failed and 0 if not, and
  -- changes nothing.
  pub ioctl_wait-unfinished :
      (ctx cnt : ℕ) (c : Context)
      → w.contexts ctx ≡ some c
      → unfinished next w ctx < 2 ^ 64
      → dicedev_ioctl_wait ctx (some cnt) w ≡ (
          if ltb cnt (unfinished next w ctx)
          then blocked
          else ok (if c.failed then err Errno.eio else Ret.ok tt) w)
  ioctl_wait-unfinished ctx cnt c known few =
      subst
        (λ n.
          dicedev_ioctl_wait ctx (some cnt) w
          ≡ (if ltb cnt n then blocked else ok (if c.failed then err Errno.eio else Ret.ok tt) w))
        (count_is ctx c known few) (ioctl_wait-known ctx cnt c known)

  release_busy :
      (hw : Hw) (ctx : ℕ) (c : Context)
      → w.contexts ctx ≡ some c
      → ltb 0 c.task_count ≡ true
      → release_rest hw ctx w ≡ blocked
  unfolding release_rest
  release_busy hw ctx c known busy = rw (known, busy) refl

  -- If every context counts its tasks, and those of a context that is there are fewer than 2 ^
  -- 64, then dicedev_release comes to free the context only if no task of it is queued, taken or
  -- running.
  pub release_rest-unfinished :
      (hw : Hw) (ctx : ℕ) (c : Context) (u : Unit {0}) (w' : World)
      → w.contexts ctx ≡ some c
      → unfinished next w ctx < 2 ^ 64
      → release_rest hw ctx w ≡ ok u w'
      → unfinished next w ctx ≡ 0
  release_rest-unfinished hw ctx c u w' known few e = elim (Bool-cases (ltb 0 c.task_count)) [
    | inl busy ↦ let no = sym (release_busy hw ctx c known busy) ∙ e in absurd cc
    | inr idle ↦ let k = count_is ctx c known few in ground arith
  ]

  any : {A : Type 0} (r : Run A) → Ensures (λ _ _. Unit {0}) r
  any (ok a v) = ensured tt
  any blocked = sleeps
  any (fault f) = faults

  copy_some :
      (copy_ok : Bool) (r : Ret Dice) (v : World)
      → Ensures (λ x _. x ≢ Ret.ok none) (copy_result copy_ok r v)
  copy_some copy_ok (err e) v = ensured (λ h. cc)
  copy_some false (Ret.ok d) v = ensured (λ h. cc)
  copy_some true (Ret.ok d) v = ensured (λ h. cc)

  available_some :
      (p : ℕ) (copy_ok : Bool) (b : Buffer) (v : World)
      → Ensures (λ x _. x ≢ Ret.ok none) (read_available p copy_ok b v)
  unfolding read_available
  available_some p copy_ok b v =
      then_ensured (any (buff_read_result p b v)) λ r u h. copy_some copy_ok r u

  module _ (p size : ℕ) (copy_ok : Bool) (b : Buffer) (c : Context) (unlocked : w.slock ≡ false)
      (there : w.buffers p ≡ some b) (known : w.contexts b.ctx ≡ some c)
      (live : b.destroyed ≡ false) where
    -- A read that reports the end has found that the context counts nothing.
    read_end :
        Ensures (λ x _. x ≡ Ret.ok none → c.task_count ≡ 0) (dicedev_buffer_read p size copy_ok w)
    unfolding dicedev_buffer_read read_empty
    read_end = elim (Bool-cases (size == 8)) [
      | inr wrong ↦ rw wrong (ensured (λ h. cc))
      | inl right ↦ elim (Bool-cases (reads_available b.reader == 0)) [
        | inl empty ↦ elim (Bool-cases (ltb 0 c.task_count)) [
          | inl busy ↦ simp (right, unlocked, there, empty, live, known, busy) sleeps
          | inr idle ↦
              simp (right, unlocked, there, empty, live, known, idle) (ensured (λ h. ground arith))
        ]
        | inr some_left ↦
            simp (right, unlocked, there, some_left)
              (weaker_ensured (available_some p copy_ok b (record w { slock = true }))
                λ x v ne h. absurd (ne h))
      ]
    ]

    -- If every context counts its tasks, and the lock is free, a read of a buffer that is not
    -- destroyed, whose context is there with fewer than 2 ^ 64 tasks, reports the end only if
    -- no task of the context is queued, taken or running.
    pub buffer_read-unfinished :
        (w' : World)
        → unfinished next w b.ctx < 2 ^ 64
        → dicedev_buffer_read p size copy_ok w ≡ ok (Ret.ok none) w'
        → unfinished next w b.ctx ≡ 0
    buffer_read-unfinished w' few e =
        sym (count_is b.ctx c known few)
        ∙ ensured_at (λ (x : Ret (Option Dice)) _. x ≡ Ret.ok none → c.task_count ≡ 0) read_end e
            refl
