-- ===== src/System/Queue/Counts.antt =====
-- The counts of the contexts in the line of tasks of dicedev_wt.c.
use dicedev_linux_driver.Base.{
  ℕ, ◌+◌, ◌≡◌, refl, ◌∙◌, sym, ap, Option, none, some, List, [], ◌∷◌, ◌++◌, arith, update, ◌≢◌,
  ℕ_discrete, update_ne, update_self, some-injective, subst,
}
use dicedev_linux_driver.Holdings.{Job}
use dicedev_linux_driver.Dice.{u64, sub64}
use dicedev_linux_driver.System.Queue.{Line, Move, Counted, to_list, waits, in_flight, one, count}

count-append : (x : ℕ) (xs ys : List Job) → count x (xs ++ ys) ≡ count x xs + count x ys
count-append x [] ys = omega arith
count-append x (a ∷ xs) ys = rw (count-append x xs ys) (omega arith)

pub count-flight :
    (x : ℕ) (l : Line)
    → count x (in_flight l)
      ≡ count x (to_list l.running) + (count x (to_list l.taken) + count x l.queue)
count-flight x l =
    count-append x (to_list l.running) (waits l)
    ∙ ap (λ n. count x (to_list l.running) + n) (count-append x (to_list l.taken) l.queue)

pub one_self : (j : Job) → one j j.ctx ≡ 1
one_self j = ground arith

one_other : (j : Job) (x : ℕ) → j.ctx ≢ x → one j x ≡ 0
one_other j x ne = ground arith

-- The counts `f` of a line with `d` jobs of each context, after one of them has changed.
module _ (f : ℕ → Option ℕ) (j : Job) (k : ℕ) (d e : ℕ → ℕ)
    (counted : (x n : ℕ) → f x ≡ some n → n ≡ u64 (d x)) (known : f j.ctx ≡ some k) where
  recount :
      (v : ℕ)
      → v ≡ u64 (e j.ctx)
      → ((x : ℕ) → j.ctx ≢ x → e x ≡ d x)
      → (x n : ℕ) → update f j.ctx (some v) x ≡ some n
      → n ≡ u64 (e x)
  recount v new rest x n h = elim (ℕ_discrete j.ctx x) [
    | yes same ↦
        some-injective n v
          (sym h ∙ ap (update f j.ctx (some v)) (sym same) ∙ update_self f j.ctx (some v))
        ∙ new
        ∙ ap (λ y. u64 (e y)) same
    | no other ↦
        counted x n (sym (update_ne f j.ctx x (some v) other) ∙ h) ∙ ap u64 (sym (rest x other))
  ]

  one_more :
      ((x : ℕ) → e x ≡ d x + one j x)
      → (x n : ℕ) → update f j.ctx (some (u64 (k + 1))) x ≡ some n
      → n ≡ u64 (e x)
  one_more more =
      recount (u64 (k + 1))
        (let old = counted j.ctx k known in
          let here = more j.ctx ∙ ap (λ n. d j.ctx + n) (one_self j) in omega arith)
        (λ x ne. let there = more x ∙ ap (λ n. d x + n) (one_other j x ne) in omega arith)

  one_less :
      ((x : ℕ) → d x ≡ one j x + e x)
      → (x n : ℕ) → update f j.ctx (some (sub64 k 1)) x ≡ some n
      → n ≡ u64 (e x)
  one_less less =
      recount (sub64 k 1)
        (let old = counted j.ctx k known in
          let here = less j.ctx ∙ ap (λ n. n + e j.ctx) (one_self j) in omega arith)
        (λ x ne. let there = less x ∙ ap (λ n. n + e x) (one_other j x ne) in omega arith)

-- The number of jobs of each context, split by where they are.
abbrev parts : ℕ → Line → ℕ
parts x l = count x (to_list l.running) + (count x (to_list l.taken) + count x l.queue)

same_parts :
    (l m : Line) → Counted l → m.counts ≡ l.counts → ((x : ℕ) → parts x m ≡ parts x l) → Counted m
same_parts l m c f same x k h =
    c x k (ap (λ g. g x) (sym f) ∙ h)
    ∙ ap u64 (count-flight x l ∙ sym (same x) ∙ sym (count-flight x m))

-- A context that comes in counts nothing, and one that leaves is not counted.
joined :
    (l : Line) (x : ℕ)
    → Counted l
    → count x (in_flight l) ≡ 0
    → Counted (record l { counts = update l.counts x (some 0) })
joined l x c unused y k h = elim (ℕ_discrete x y) [
  | yes same ↦
      let e = sym (update_self l.counts x (some 0)) ∙ ap (update l.counts x (some 0)) same ∙ h in
      let z = some-injective 0 k e in
      subst (λ r. k ≡ u64 (count r (in_flight l))) same (omega arith)
  | no other ↦ c y k (sym (update_ne l.counts x y (some 0) other) ∙ h)
]

left : (l : Line) (x : ℕ) → Counted l → Counted (record l { counts = update l.counts x none })
left l x c y k h = elim (ℕ_discrete x y) [
  | yes same ↦
      let e = sym (update_self l.counts x none) ∙ ap (update l.counts x none) same ∙ h in absurd cc
  | no other ↦ c y k (sym (update_ne l.counts x y none other) ∙ h)
]

-- Every step keeps the counts of the contexts.
pub Move-Counted : (l : Line) (i o : List Job) (m : Line) → Move l i o m → Counted l → Counted m
Move-Counted l i o m Move.stay c = c
Move-Counted l i o m (Move.arrive {j} {k} known) c =
    one_more l.counts j k (λ x. count x (in_flight l)) (λ x. count x (in_flight m)) c known
      λ x.
        count-flight x m
        ∙ (let q = count-append x l.queue (j ∷ []) in let a = count-flight x l in omega arith)
Move-Counted l i o m (Move.take idle front) c =
    same_parts l m c refl λ x. rw (idle, front) (omega arith)
Move-Counted l i o m (Move.drop {j} {js} {k} idle front known) c =
    one_less l.counts j k (λ x. count x (in_flight l)) (λ x. count x (in_flight m)) c known
      λ x. let a = count-flight x l in let b = count-flight x m in rw (a, b, front) (omega arith)
Move-Counted l i o m (Move.send taken idle) c =
    same_parts l m c refl λ x. rw (idle, taken) (omega arith)
Move-Counted l i o m (Move.finish {j} {k} running known) c =
    one_less l.counts j k (λ x. count x (in_flight l)) (λ x. count x (in_flight m)) c known
      λ x. let a = count-flight x l in let b = count-flight x m in rw (a, b, running) (omega arith)
Move-Counted l i o m (Move.join {x = x} new unused) c = joined l x c unused
Move-Counted l i o m (Move.leave x unused) c = left l x c
