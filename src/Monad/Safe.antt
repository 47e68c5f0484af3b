-- ===== src/Monad/Safe.antt =====
-- Commands that follow no pointer to an object that is gone, take no lock that they hold, and end.
use dicedev_linux_driver.Base.{Bool, true, false, if◌then◌else◌}
use dicedev_linux_driver.Types.{World}
use dicedev_linux_driver.Monad.{
  M, Run, Fault, ok, blocked, fault, and_then, Returns, returns, Ensures, ensured, sleeps, faults,
}

abbrev pub Spared : Fault → Type 0
Spared Fault.freed = ⊥
Spared Fault.deadlock = ⊥
Spared Fault.bug_on = Unit {0}
Spared Fault.null_pointer = Unit {0}
Spared Fault.out_of_bounds = Unit {0}
Spared Fault.no_fuel = ⊥

pub data Safe {A : Type 0} : Run A → Type 0 where
  goes_on : {a : A} {w : World} → Safe (ok a w)
  waits : Safe blocked
  stops : {e : Fault} → Spared e → Safe (fault e)

pub Returns-Safe : {A : Type 0} {P : A → World → Type 0} {r : Run A} → Returns P r → Safe r
Returns-Safe (returns h) = goes_on

pub Safe-then :
    {A B : Type 0} {r : Run A} {k : A → M B}
    → Safe r
    → ((a : A) (w : World) → Safe (k a w))
    → Safe (and_then r k)
Safe-then goes_on next = next _ _
Safe-then waits next = waits
Safe-then (stops s) next = stops s

module _ {A B : Type 0} {P : A → World → Type 0} where
  pub then_Safe :
      {r : Run A} {k : A → M B}
      → Safe r
      → Ensures P r
      → ((a : A) (w : World) → P a w → Safe (k a w))
      → Safe (and_then r k)
  then_Safe s (ensured h) next = next _ _ h
  then_Safe s sleeps next = waits
  then_Safe (stops s) faults next = stops s

  pub returned_Safe :
      {r : Run A} {k : A → M B}
      → Returns P r
      → ((a : A) (w : World) → P a w → Safe (k a w))
      → Safe (and_then r k)
  returned_Safe (returns h) next = next _ _ h

pub either_Safe :
    {A : Type 0} (b : Bool) (x y : M A) (w : World)
    → Safe (x w)
    → Safe (y w)
    → Safe ((if b then x else y) w)
either_Safe true x y w hx hy = hx
either_Safe false x y w hx hy = hy
