-- ===== src/System/Queue.antt =====
-- What the queue of dicedev_wt.c promises: tasks, seen as the context that asked for them and their
-- buffers, wait in a line, are taken one at a time and are on the device one at a
-- time, and each context counts its own.
pub mod Counts
use dicedev_linux_driver.Base.{
  ℕ, ◌+◌, ◌≡◌, refl, ◌∙◌, sym, ap, Option, none, some, List, [], ◌∷◌, ◌++◌, ◌==◌, arith, update,
  if◌then◌else◌, append-nil, append_assoc, ◌≢◌, ℕ_discrete, update_ne, update_self, some-injective,
  subst,
}
use dicedev_linux_driver.Holdings.{Job}
use dicedev_linux_driver.Dice.{u64, sub64}

pub record Line : Type 0 where
  pub running : Option Job
  pub taken : Option Job
  pub queue : List Job
  pub counts : ℕ → Option ℕ

abbrev pub to_list : Option Job → List Job
to_list none = []
to_list (some j) = j ∷ []

-- The jobs that have not left for the device, oldest first.
abbrev pub waits : Line → List Job
waits l = to_list l.taken ++ l.queue

-- All jobs that are not finished.
abbrev pub in_flight : Line → List Job
in_flight l = to_list l.running ++ waits l

abbrev pub one : Job → ℕ → ℕ
one j x = if j.ctx == x then 1 else 0

abbrev pub count : ℕ → List Job → ℕ
count x [] = 0
count x (j ∷ js) = one j x + count x js

-- One step, with the jobs that come in and the jobs that leave the line for the device or are
-- dropped because their context has failed.
pub data Move (l : Line) : List Job → List Job → Line → Type 0 where
  stay : Move l [] [] l
  arrive :
      {j : Job} {k : ℕ}
      → l.counts j.ctx ≡ some k
      → Move l (j ∷ []) [] (record l {
        queue = l.queue ++ j ∷ [];
        counts = update l.counts j.ctx (some (u64 (k + 1)));
      })
  take :
      {j : Job} {js : List Job}
      → l.taken ≡ none
      → l.queue ≡ j ∷ js
      → Move l [] [] (record l { taken = some j; queue = js })
  drop :
      {j : Job} {js : List Job} {k : ℕ}
      → l.taken ≡ none
      → l.queue ≡ j ∷ js
      → l.counts j.ctx ≡ some k
      → Move l []
          (j ∷ [])
          (record l { queue = js; counts = update l.counts j.ctx (some (sub64 k 1)) })
  send :
      {j : Job}
      → l.taken ≡ some j
      → l.running ≡ none
      → Move l [] (j ∷ []) (record l { running = some j; taken = none })
  finish :
      {j : Job} {k : ℕ}
      → l.running ≡ some j
      → l.counts j.ctx ≡ some k
      → Move l [] []
          (record l { running = none; counts = update l.counts j.ctx (some (sub64 k 1)) })
  join :
      {x : ℕ}
      → l.counts x ≡ none
      → count x (in_flight l) ≡ 0
      → Move l [] [] (record l { counts = update l.counts x (some 0) })
  leave :
      (x : ℕ)
      → count x (in_flight l) ≡ 0
      → Move l [] [] (record l { counts = update l.counts x none })

pub data Moves (l : Line) : List Job → List Job → Line → Type 0 where
  none_yet : Moves l [] [] l
  then_move :
      {i o i' o' : List Job} {m n : Line}
      → Moves l i o m
      → Move m i' o' n
      → Moves l (i ++ i') (o ++ o') n

-- Each context counts its jobs, modulo 2 ^ 64.
abbrev pub Counted : Line → Type 0
Counted l = (x k : ℕ) → l.counts x ≡ some k → k ≡ u64 (count x (in_flight l))

move_order : (l : Line) (i o : List Job) (m : Line) → Move l i o m → waits l ++ i ≡ o ++ waits m
move_order l i o m stay = append-nil (waits l)
move_order l i o m (arrive {j} known) = append_assoc (to_list l.taken) l.queue (j ∷ [])
move_order l i o m (take idle front) = rw (idle, front) (append-nil _)
move_order l i o m (drop idle front known) = rw (idle, front) (append-nil _)
move_order l i o m (send taken idle) = rw taken (append-nil _)
move_order l i o m (finish running known) = append-nil _
move_order l i o m (join new unused) = append-nil _
move_order l i o m (leave x unused) = append-nil _

-- Jobs leave the line for the device, or are dropped, in the order in which they came: those that
-- waited, followed by those that came in, are those that left, followed by those that wait.
pub order_kept :
    (l : Line) (i o : List Job) (m : Line) → Moves l i o m → waits l ++ i ≡ o ++ waits m
order_kept l i o m none_yet = append-nil (waits l)
order_kept l i o m (then_move {i = i1} {o = o1} {i' = i2} {o' = o2} {m = v} before step) =
    sym (append_assoc (waits l) i1 i2)
    ∙ ap (λ x. x ++ i2) (order_kept l i1 o1 v before)
    ∙ append_assoc o1 (waits v) i2
    ∙ ap (λ x. o1 ++ x) (move_order v i2 o2 m step)
    ∙ sym (append_assoc o1 o2 (waits m))
