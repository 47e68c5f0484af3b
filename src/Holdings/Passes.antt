-- ===== src/Holdings/Passes.antt =====
-- The steps in which buffers and contexts come, are shared and go: the files of dicedev_buffer.c and
-- the list allocated_buffers of struct dicedev_context.
use dicedev_linux_driver.Base.{
  ℕ, ◌<◌, ◌≡◌, refl, ◌≢◌, ◌∙◌, sym, ap, subst, ◌⊎◌, inl, inr, Bool, true, false, ◌||◌, Option, none,
  some, List, [], ◌∷◌, ◌==◌, arith, update, update_self, update_ne, ℕ_discrete,
}
use mathlib.Core.Option
use dicedev_linux_driver.Dice.{sub64}
use dicedev_linux_driver.Holdings.{Job, File, Holdings, seen}

abbrev pub has : ℕ → List ℕ → Bool
has p [] = false
has p (q ∷ qs) = (p == q) || has p qs

-- Buffer `p` is there and belongs to context `x`.
abbrev pub Belongs : Holdings → ℕ → ℕ → Type 0
Belongs h x p = (f : File) × (h.files p ≡ some f) × (f.ctx ≡ x)

abbrev pub MaybeBelongs : Holdings → ℕ → Option ℕ → Type 0
MaybeBelongs h x none = Unit {0}
MaybeBelongs h x (some p) = Belongs h x p

-- The buffers of a task belong to its context.
abbrev pub Fits : Holdings → Job → Type 0
Fits h j = Belongs h j.ctx j.buff_out × MaybeBelongs h j.ctx j.c_buff

-- The files in a list change.
abbrev pub each : (File → File) → List ℕ → (ℕ → Option File) → ℕ → Option File
each g [] files = files
each g (p ∷ ps) files = each g ps (update files p (Option.map g (files p)))

-- The context drops its reference.
abbrev pub less : File → File
less f = record f { refs = sub64 f.refs 1 }

abbrev pub marked : File → File
marked f = record f { destroyed = true }

abbrev pub new_file : ℕ → File
new_file x = record { ctx = x; refs = 2; destroyed = false }

module _ {A : Type 0} (f : ℕ → Option A) (p q : ℕ) (o : Option A) (a : A) where
  -- What a table with a new entry has at an address.
  pub at_update : update f p o q ≡ some a → ((p ≡ q) × (o ≡ some a)) ⊎ ((p ≢ q) × (f q ≡ some a))
  at_update e = elim (ℕ_discrete p q) [
    | yes same ↦ inl (same, sym (update_self f p o) ∙ ap (update f p o) same ∙ e)
    | no other ↦ inr (other, sym (update_ne f p q o other) ∙ e)
  ]

-- A file that is not in the list is as it was.
pub each-outside :
    (g : File → File) (ps : List ℕ) (f : ℕ → Option File) (q : ℕ)
    → has q ps ≡ false
    → each g ps f q ≡ f q
each-outside g [] f q out = refl
each-outside g (p ∷ ps) f q out =
    each-outside g ps (update f p (Option.map g (f p))) q (ground arith)
    ∙ update_ne f p q (Option.map g (f p)) (ground arith)

-- What a change leaves of a file, it leaves of all in the list.
module _ (g : File → File) (P : File → File → Type 0) (same : (f : File) → P f f)
    (once : (f k : File) → P (g f) k → P f k) where
  pub each-back :
      (ps : List ℕ) (f : ℕ → Option File) (q : ℕ) (k : File)
      → each g ps f q ≡ some k
      → (a : File) × (f q ≡ some a) × P a k
  each-back [] f q k e = (k, e, same k)
  each-back (p ∷ ps) f q k e =
      let (m, at, left) = each-back ps (update f p (Option.map g (f p))) q k e in
      elim (at_update f p q (Option.map g (f p)) m at) [
        | inl (here, changed) ↦
            let (a, is, to) = seen g (f p) m changed in
            (a, ap f (sym here) ∙ is, once a k (subst (λ x. P x k) (sym to) left))
        | inr (elsewhere, before) ↦ (m, before, left)
      ]

  pub each-on :
      (ps : List ℕ) (f : ℕ → Option File) (q : ℕ) (a : File)
      → f q ≡ some a
      → (k : File) × (each g ps f q ≡ some k) × P a k
  each-on [] f q a is = (a, is, same a)
  each-on (p ∷ ps) f q a is = elim (ℕ_discrete p q) [
    | yes here ↦
        let (k, at, left) = each-on ps (update f p (Option.map g (f p))) q (g a) (
          ap (update f p (Option.map g (f p))) (sym here)
          ∙ update_self f p (Option.map g (f p))
          ∙ ap (Option.map g) (ap f here ∙ is)) in
        (k, at, once a k left)
    | no elsewhere ↦
        each-on ps (update f p (Option.map g (f p))) q a
          (update_ne f p q (Option.map g (f p)) elsewhere ∙ is)
  ]

abbrev pub Lessened : File → File → Type 0
Lessened f k = (k.ctx ≡ f.ctx) × (k.destroyed ≡ f.destroyed)

pub less-back :
    (ps : List ℕ) (f : ℕ → Option File) (q : ℕ) (k : File)
    → each less ps f q ≡ some k
    → (a : File) × (f q ≡ some a) × Lessened a k
less-back ps f q k e = each-back less Lessened (λ a. (refl, refl)) (λ a b h. h) ps f q k e

pub less-on :
    (ps : List ℕ) (f : ℕ → Option File) (q : ℕ) (a : File)
    → f q ≡ some a
    → (k : File) × (each less ps f q ≡ some k) × Lessened a k
less-on ps f q a e = each-on less Lessened (λ a. (refl, refl)) (λ a b h. h) ps f q a e

abbrev pub Marked : File → File → Type 0
Marked f k = (k.ctx ≡ f.ctx) × (k.refs ≡ f.refs) × (k.destroyed ≡ false → f.destroyed ≡ false)

pub marked-back :
    (ps : List ℕ) (f : ℕ → Option File) (q : ℕ) (k : File)
    → each marked ps f q ≡ some k
    → (a : File) × (f q ≡ some a) × Marked a k
marked-back ps f q k e =
    each-back marked Marked (λ a. (refl, refl, λ x. x))
      (λ a b (c, r, live). (c, r, λ x. let z = live x in absurd cc)) ps f q k e

pub marked-on :
    (ps : List ℕ) (f : ℕ → Option File) (q : ℕ) (a : File)
    → f q ≡ some a
    → (k : File) × (each marked ps f q ≡ some k) × Marked a k
marked-on ps f q a e =
    each-on marked Marked (λ a. (refl, refl, λ x. x))
      (λ a b (c, r, live). (c, r, λ x. let z = live x in absurd cc)) ps f q a e

-- One step. The references of a file of a context that lists it are at least one, the context's own.
pub data Pass (h : Holdings) : Holdings → Type 0 where
  stay : Pass h h
  open_ctx :
      (x : ℕ)
      → h.lists x ≡ none
      → ((p : ℕ) (f : File) → h.files p ≡ some f → f.ctx ≢ x)
      → Pass h (record h { lists = update h.lists x (some []) })
  create :
      (x p : ℕ) (l : List ℕ)
      → h.files p ≡ none
      → h.lists x ≡ some l
      → Pass h (record {
        files = update h.files p (some (new_file x));
        lists = update h.lists x (some (p ∷ l));
      })
  share :
      (p n : ℕ) (f : File)
      → h.files p ≡ some f
      → ((l : List ℕ) → h.lists f.ctx ≡ some l → has p l ≡ true → 0 < n)
      → Pass h (record h { files = update h.files p (some (record f { refs = n })) })
  leave :
      (x : ℕ) (l : List ℕ)
      → h.lists x ≡ some l
      → ((p : ℕ) (f : File) → has p l ≡ true → h.files p ≡ some f → f.destroyed ≡ true)
      → Pass h (record { files = each less l h.files; lists = update h.lists x none })
  mark :
      (x : ℕ) (l : List ℕ)
      → h.lists x ≡ some l
      → Pass h (record h { files = each marked l h.files })
  free :
      (p : ℕ) (f : File)
      → h.files p ≡ some f
      → f.refs ≡ 0
      → Pass h (record h { files = update h.files p none })

pub record Held (h : Holdings) : Type 0 where
  -- A buffer in the list of a context is there, belongs to it, and has a reference.
  pub listed :
      (x p : ℕ) (l : List ℕ)
      → h.lists x ≡ some l
      → has p l ≡ true
      → (f : File) × (h.files p ≡ some f) × (f.ctx ≡ x) × (0 < f.refs)
  -- A buffer of a context that is there is in its list.
  pub member :
      (p : ℕ) (f : File) (l : List ℕ) → h.files p ≡ some f → h.lists f.ctx ≡ some l → has p l ≡ true
  -- The context of a buffer that is not marked is there.
  pub alive :
      (p : ℕ) (f : File)
      → h.files p ≡ some f
      → f.destroyed ≡ false
      → (l : List ℕ) × (h.lists f.ctx ≡ some l)
