-- ===== src/Chardev/Irq.antt =====
-- dicedev_isr of dicedev_base.c, while a task runs.
use dicedev_linux_driver.Base.{
  ℕ, ◌≡◌, Bool, true, false, not, some, ◌∷◌, ◌==◌, arith, update, bit_and, bit_or, if◌then◌else◌,
}
use dicedev_linux_driver.Dice.{intr, intr_enable, intr_fence_wait, intr_cmd_error, intr_mem_error}
use dicedev_linux_driver.Types.{World, Context, FenceState, Task}
use dicedev_linux_driver.Monad.{ok}
use dicedev_linux_driver.Utils.{Hw, dicedev_iow, dicedev_ior}
use dicedev_linux_driver.Chardev.{dicedev_isr}

-- The interrupts that are raised and enabled.
abbrev pub raised : Hw → World → ℕ
raised hw w = bit_and (hw.read w.writes intr 0) (hw.read w.writes intr_enable 0)

abbrev pub has_error : ℕ → Bool
has_error i = not (bit_and i (bit_or intr_cmd_error intr_mem_error) == 0)

abbrev pub has_fence : ℕ → Bool
has_fence i = not (bit_and i intr_fence_wait == 0)

-- What the handler leaves: the interrupts are acknowledged, a command or memory error fails the
-- context, and the fence is seen.
abbrev pub handled : World → ℕ → Context → ℕ → World
handled w ctx c i = record w {
  writes = (intr, i) ∷ w.writes;
  slock = false;
  fence_state = if has_fence i then FenceState.reached else w.fence_state;
  contexts =
      if has_error i then update w.contexts ctx (some (record c { failed = true })) else w.contexts;
}

module _ (hw : Hw) (w : World) (t : Task) (c : Context) where
  -- With the lock free and a task of an existing context running, the interrupt handler does
  -- nothing if no enabled interrupt is raised. Otherwise it acknowledges what is raised, fails
  -- the context of the running task on a command or memory error and only then, and sets the
  -- fence reached on a fence interrupt and only then.
  pub isr-handled :
      w.slock ≡ false
      → w.running_task ≡ some t
      → w.contexts t.ctx ≡ some c
      → dicedev_isr hw w ≡ (
          if raised hw w == 0
          then ok false (record w { slock = false })
          else ok true (handled w t.ctx c (raised hw w)))
  unfolding dicedev_isr dicedev_iow dicedev_ior
  isr-handled unlocked runs known = ground (arith, unlocked, runs, known)
