-- ===== src/Chardev/Dispatch.antt =====
-- dicedev_ioctl of dicedev_base.c: the command chooses the handler.
use dicedev_linux_driver.Base.{ℕ, Bool, Option, ◌==◌, if◌then◌else◌}
use dicedev_linux_driver.Monad.{M, pure, ◌>>=◌}
use dicedev_linux_driver.Pt.{Errno, Ret, err}
use dicedev_linux_driver.Utils.{Hw}
use dicedev_linux_driver.Chardev.{
  CreateSet, NewSet, RunCmd, dicedev_ioctl_create_set, dicedev_ioctl_run, dicedev_ioctl_wait,
  dicedev_ioctl_seed_increment,
}

abbrev pub ioctl_create_set : ℕ
ioctl_create_set = 0x0

abbrev pub ioctl_run : ℕ
ioctl_run = 0x1

abbrev pub ioctl_wait : ℕ
ioctl_wait = 0x3

abbrev pub ioctl_enable_seed_increment : ℕ
ioctl_enable_seed_increment = 0x4

-- What copy_from_user brings from `arg`, read as the structure of each command, and what the
-- allocations of the handlers give.
pub record IoctlArg : Type 0 where
  pub set : Option CreateSet
  pub new_set : NewSet
  pub run : Option RunCmd
  pub task_ok : Bool
  pub wait : Option ℕ
  pub increment : Option ℕ

-- The handler's result as a long.
abbrev pub as_long : Ret (Unit {0}) → Ret ℕ
as_long (err e) = err e
as_long (Ret.ok u) = Ret.ok 0

unfoldable pub dicedev_ioctl : Hw → ℕ → ℕ → IoctlArg → M (Ret ℕ)
dicedev_ioctl hw ctx cmd a =
    if cmd == ioctl_create_set
    then dicedev_ioctl_create_set hw ctx a.new_set a.set
    else if cmd == ioctl_run
    then (do r ← dicedev_ioctl_run ctx a.run a.task_ok; pure (as_long r))
    else if cmd == ioctl_wait
    then (do r ← dicedev_ioctl_wait ctx a.wait; pure (as_long r))
    else if cmd == ioctl_enable_seed_increment
    then (do r ← dicedev_ioctl_seed_increment a.increment; pure (as_long r))
    else pure (err Errno.einval)
