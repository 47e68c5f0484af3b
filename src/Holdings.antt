-- ===== src/Holdings.antt =====
-- Who holds a buffer: the context that lists it, the references to its file, and the tasks that use
-- it. dicedev_types.h, seen from what keeps an object from being freed.
pub mod Passes
pub mod Keeping
pub mod Staying
use dicedev_linux_driver.Base.{
  ℕ, ◌≡◌, refl, ◌≢◌, ◌∙◌, sym, ap, fun_ext, subst, Bool, Option, none, some, List, update,
  update_self, update_ne, ℕ_discrete, some-injective,
}
use mathlib.Core.Option
use dicedev_linux_driver.Types.{World, Buffer, Context, TaskBody, Task}

-- A task, seen as the context that asked for it, the buffer of its results, and the buffer that
-- holds its commands, if they are in one.
pub record Job : Type 0 where
  pub ctx : ℕ
  pub buff_out : ℕ
  pub c_buff : Option ℕ

abbrev pub command_buffer : TaskBody → Option ℕ
command_buffer (TaskBody.write t) = none
command_buffer (TaskBody.run t) = some t.c_buff

abbrev pub job : Task → Job
job t = record { ctx = t.ctx; buff_out = t.buff_out; c_buff = command_buffer t.body }

-- The file of a buffer, seen as the context that the buffer belongs to, whether that is being
-- closed, and the count of references.
pub record File : Type 0 where
  pub ctx : ℕ
  pub refs : ℕ
  pub destroyed : Bool

abbrev pub file : Buffer → File
file b = record { ctx = b.ctx; refs = b.file_refs; destroyed = b.destroyed }

abbrev pub buffer_list : Context → List ℕ
buffer_list c = c.allocated_buffers

pub record Holdings : Type 0 where
  pub files : ℕ → Option File
  pub lists : ℕ → Option (List ℕ)

abbrev pub view : {A B : Type 0} → (A → B) → (ℕ → Option A) → ℕ → Option B
view g f x = Option.map g (f x)

abbrev pub holdings : World → Holdings
holdings w = record { files = view file w.buffers; lists = view buffer_list w.contexts }

abbrev pub Steady : World → World → Type 0
Steady w w' = holdings w' ≡ holdings w

pub holdings_eq : (h k : Holdings) → h.files ≡ k.files → h.lists ≡ k.lists → h ≡ k
holdings_eq h k f l = λ i. record { files = f i; lists = l i }

module _ {A B : Type 0} (g : A → B) where
  -- A table in which the object at `p` is another or none, and no other changes.
  pub view_at :
      (f f' : ℕ → Option A) (p : ℕ) (o : Option A)
      → f' p ≡ o
      → ((q : ℕ) → p ≢ q → f' q ≡ f q)
      → view g f' ≡ update (view g f) p (Option.map g o)
  view_at f f' p o at others = fun_ext λ q. elim (ℕ_discrete p q) [
    | yes same ↦
        subst (λ r. view g f' r ≡ update (view g f) p (Option.map g o) r) same
          (ap (Option.map g) at ∙ sym (update_self (view g f) p (Option.map g o)))
    | no other ↦
        ap (Option.map g) (others q other) ∙ sym (update_ne (view g f) p q (Option.map g o) other)
  ]

  pub view_put :
      (f : ℕ → Option A) (p : ℕ) (o : Option A)
      → view g (update f p o) ≡ update (view g f) p (Option.map g o)
  view_put f p o = view_at f (update f p o) p o (update_self f p o) λ q ne. update_ne f p q o ne

  -- An object that is replaced by one of the same view.
  pub view_same :
      (f f' : ℕ → Option A) (p : ℕ) (a a' : A)
      → f p ≡ some a
      → f' p ≡ some a'
      → g a' ≡ g a
      → ((q : ℕ) → p ≢ q → f' q ≡ f q)
      → view g f' ≡ view g f
  view_same f f' p a a' at at' same others = fun_ext λ q. elim (ℕ_discrete p q) [
    | yes e ↦
        subst (λ r. view g f' r ≡ view g f r) e
          (ap (Option.map g) at' ∙ ap some same ∙ sym (ap (Option.map g) at))
    | no other ↦ ap (Option.map g) (others q other)
  ]

  pub view_kept :
      (f : ℕ → Option A) (p : ℕ) (a a' : A)
      → f p ≡ some a
      → g a' ≡ g a
      → view g (update f p (some a')) ≡ view g f
  view_kept f p a a' at same =
      view_same f (update f p (some a')) p a a' at (update_self f p (some a')) same
        λ q ne. update_ne f p q (some a') ne

  -- What is seen is there.
  pub seen : (o : Option A) (b : B) → Option.map g o ≡ some b → (a : A) × (o ≡ some a) × (g a ≡ b)
  seen none b e = absurd cc
  seen (some a) b e = (a, refl, some-injective (g a) b e)

pub same-Steady : (w w' : World) → w'.buffers ≡ w.buffers → w'.contexts ≡ w.contexts → Steady w w'
same-Steady w w' e f =
    holdings_eq (holdings w') (holdings w) (ap (view file) e) (ap (view buffer_list) f)
