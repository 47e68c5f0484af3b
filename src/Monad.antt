-- ===== src/Monad.antt =====
-- Commands over the state. A command returns, sleeps in wait_event_interruptible with nothing
-- changed since it last tested its condition, or runs into what C leaves undefined or the kernel
-- stops at.
pub mod Safe
use dicedev_linux_driver.Base.{
  ℕ, ◌+◌, ◌≡◌, refl, inl, inr, subst, Bool, true, false, Option, none, some, update, Option-cases,
  if◌then◌else◌,
}
use dicedev_linux_driver.Dice.{u64, sub64}
use dicedev_linux_driver.Types.{World, Buffer, Context}

pub data Fault : Type 0 where
  bug_on : Fault  -- BUG_ON or BUG
  null_pointer : Fault  -- a null pointer, or one that was never set, is followed
  freed : Fault  -- the object at the address is gone
  out_of_bounds : Fault  -- an array is read or written past its end
  deadlock : Fault  -- a thread takes a spin lock that it holds
  no_fuel : Fault  -- the rounds given to a loop ran out

pub data Run (A : Type 0) : Type 0 where
  ok : A → World → Run A
  blocked : Run A
  fault : Fault → Run A

abbrev pub M : Type 0 → Type 0
M A = World → Run A

abbrev pub pure : {A : Type 0} → A → M A
pure a w = ok a w

abbrev pub fail : {A : Type 0} → Fault → M A
fail e w = fault e

module _ {A B : Type 0} where
  abbrev pub and_then : Run A → (A → M B) → Run B
  and_then (ok a w) k = k a w
  and_then blocked k = blocked
  and_then (fault e) k = fault e

  infixl 5 ◌>>=◌ ◌>>◌
  abbrev pub ◌>>=◌ : M A → (A → M B) → M B
  ◌>>=◌ m k w = and_then (m w) k

  abbrev pub ◌>>◌ : M A → M B → M B
  ◌>>◌ m k w = and_then (m w) (λ _. k)

abbrev pub modify : (World → World) → M (Unit {0})
modify f w = ok tt (f w)

abbrev pub gets : {A : Type 0} → (World → A) → M A
gets f w = ok (f w) w

abbrev pub take_lock : Bool → World → Run (Unit {0})
take_lock true w = fault deadlock
take_lock false w = ok tt (record w { slock = true })

-- spin_lock_irqsave(&dev->slock, flags) and its release
abbrev pub spin_lock : M (Unit {0})
spin_lock w = take_lock w.slock w

abbrev pub spin_unlock : M (Unit {0})
spin_unlock w = ok tt (record w { slock = false })

abbrev pub take_feed_lock : Bool → World → Run (Unit {0})
take_feed_lock true w = fault deadlock
take_feed_lock false w = ok tt (record w { feed_lock = true })

-- The same for &dev->feed_lock.
abbrev pub feed_lock : M (Unit {0})
feed_lock w = take_feed_lock w.feed_lock w

abbrev pub feed_unlock : M (Unit {0})
feed_unlock w = ok tt (record w { feed_lock = false })

abbrev pub found : {A : Type 0} → Option A → M A
found none w = fault freed
found (some a) w = ok a w

-- A pointer to a buffer or a context is followed, or the object is written back.
abbrev pub get_buffer : ℕ → M Buffer
get_buffer p w = found (w.buffers p) w

abbrev pub put_buffer : ℕ → Buffer → M (Unit {0})
put_buffer p b w = ok tt (record w { buffers = update w.buffers p (some b) })

abbrev pub get_context : ℕ → M Context
get_context p w = found (w.contexts p) w

abbrev pub put_context : ℕ → Context → M (Unit {0})
put_context p c w = ok tt (record w { contexts = update w.contexts p (some c) })

-- The kernel's count of the references to the file of a buffer: get_file, and the part of fput that
-- counts. Once no reference is left, the kernel calls dicedev_buffer_release, in a later step.
unfoldable pub get_file : ℕ → M (Unit {0})
get_file p = do b ← get_buffer p; put_buffer p (record b { file_refs = u64 (b.file_refs + 1) })

unfoldable pub fput : ℕ → M (Unit {0})
fput p = do b ← get_buffer p; put_buffer p (record b { file_refs = sub64 b.file_refs 1 })

-- The command returns, and what it returns and leaves satisfies `P`: total correctness.
pub data Returns {A : Type 0} (P : A → World → Type 0) : Run A → Type 0 where
  returns : {a : A} {w : World} → P a w → Returns P (ok a w)

module _ {A B : Type 0} {P : A → World → Type 0} {Q : B → World → Type 0} where
  pub bind :
      {r : Run A} {k : A → M B}
      → Returns P r
      → ((a : A) (w : World) → P a w → Returns Q (k a w))
      → Returns Q (and_then r k)
  bind (returns h) next = next _ _ h

-- What the command returns and leaves, if it returns, satisfies `P`: partial correctness.
pub data Ensures {A : Type 0} (P : A → World → Type 0) : Run A → Type 0 where
  ensured : {a : A} {w : World} → P a w → Ensures P (ok a w)
  sleeps : Ensures P blocked
  faults : {e : Fault} → Ensures P (fault e)

pub Returns-Ensures : {A : Type 0} {P : A → World → Type 0} {r : Run A} → Returns P r → Ensures P r
Returns-Ensures (returns h) = ensured h

module _ {A : Type 0} (P : A → World → Type 0) where
  abbrev Leaves : Run A → Type 0
  Leaves (ok a w) = P a w
  Leaves blocked = Unit {0}
  Leaves (fault e) = Unit {0}

  left : {r : Run A} → Ensures P r → Leaves r
  left (ensured h) = h
  left sleeps = tt
  left faults = tt

  pub ensured_at : {r : Run A} {a : A} {w : World} → Ensures P r → r ≡ ok a w → P a w
  ensured_at h e = subst Leaves e (left h)

module _ {A B : Type 0} {P : A → World → Type 0} {Q : B → World → Type 0} where
  pub then_ensured :
      {r : Run A} {k : A → M B}
      → Ensures P r
      → ((a : A) (w : World) → P a w → Ensures Q (k a w))
      → Ensures Q (and_then r k)
  then_ensured (ensured h) next = next _ _ h
  then_ensured sleeps next = sleeps
  then_ensured faults next = faults

module _ {A : Type 0} {P Q : A → World → Type 0} where
  pub weaker_ensured :
      {r : Run A} → Ensures P r → ((a : A) (w : World) → P a w → Q a w) → Ensures Q r
  weaker_ensured (ensured h) weaker = ensured (weaker _ _ h)
  weaker_ensured sleeps weaker = sleeps
  weaker_ensured faults weaker = faults

-- What a pointer that is followed leads to.
pub get_buffer-known :
    (p : ℕ) (w : World) → Ensures (λ b v. (v ≡ w) × (w.buffers p ≡ some b)) (get_buffer p w)
get_buffer-known p w = elim (Option-cases (w.buffers p)) [
  | inl e ↦ rw e faults
  | inr (b, e) ↦ rw e (ensured (refl, refl))
]

pub get_context-known :
    (p : ℕ) (w : World) → Ensures (λ c v. (v ≡ w) × (w.contexts p ≡ some c)) (get_context p w)
get_context-known p w = elim (Option-cases (w.contexts p)) [
  | inl e ↦ rw e faults
  | inr (c, e) ↦ rw e (ensured (refl, refl))
]

-- The two ways of a test.
pub either :
    {A : Type 0} {P : A → World → Type 0} (b : Bool) (x y : M A) (w : World)
    → Ensures P (x w)
    → Ensures P (y w)
    → Ensures P ((if b then x else y) w)
either true x y w hx hy = hx
either false x y w hx hy = hy
