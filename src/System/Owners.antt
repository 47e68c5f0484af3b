-- ===== src/System/Owners.antt =====
-- The buffers of all tasks that are not finished belong to the tasks' contexts: the lists and files
-- of dicedev_base.c and dicedev_buffer.c together with the queue of dicedev_wt.c.
use dicedev_linux_driver.Base.{ℕ, ◌≡◌, ap, subst, Option, none, some, List, [], ◌∷◌, ◌++◌, map}
use mathlib.Core.Option
use dicedev_linux_driver.Types.{World, Task}
use dicedev_linux_driver.Holdings.{Job, Holdings, job, holdings, buffer_list}
use dicedev_linux_driver.Holdings.Passes.{Fits, Held}
use dicedev_linux_driver.Holdings.Keeping.{Pass-Held}
use dicedev_linux_driver.Holdings.Staying.{Pass-Fits}
use dicedev_linux_driver.Wt.Thread.Turn.{Lives, AllLive, MaybeLives, Working}
use dicedev_linux_driver.System.Queue.{Line, Move, to_list, waits, in_flight}
use dicedev_linux_driver.System.{line, Into, Passes}

abbrev pub All : (Job → Type 0) → List Job → Type 0
All P [] = Unit {0}
All P (j ∷ js) = P j × All P js

module _ (P : Job → Type 0) where
  pub All-append : (xs ys : List Job) → All P xs → All P ys → All P (xs ++ ys)
  All-append [] ys h k = k
  All-append (x ∷ xs) ys (p, h) k = (p, All-append xs ys h k)

  All-split : (xs ys : List Job) → All P (xs ++ ys) → All P xs × All P ys
  All-split [] ys h = (tt, h)
  All-split (x ∷ xs) ys (p, h) = let (a, b) = All-split xs ys h in ((p, a), b)

  abbrev Parts : Line → Type 0
  Parts l = All P (to_list l.running) × All P (to_list l.taken) × All P l.queue

  pub flight-Parts : (l : Line) → All P (in_flight l) → Parts l
  flight-Parts l h =
      let (r, w) = All-split (to_list l.running) (waits l) h in
      let (t, q) = All-split (to_list l.taken) l.queue w in (r, t, q)

  Parts-flight : (l : Line) → Parts l → All P (in_flight l)
  Parts-flight l (r, t, q) =
      All-append (to_list l.running) (waits l) r (All-append (to_list l.taken) l.queue t q)

  Move-Parts : (l : Line) (i o : List Job) (m : Line) → Move l i o m → Parts l → All P i → Parts m
  Move-Parts l i o m Move.stay h k = h
  Move-Parts l i o m (Move.arrive {j} known) (r, t, q) k = (r, t, All-append l.queue (j ∷ []) q k)
  Move-Parts l i o m (Move.take idle front) (r, t, q) k =
      let both = subst (All P) front q in (r, (both.0, tt), both.1)
  Move-Parts l i o m (Move.drop idle front known) (r, t, q) k =
      let both = subst (All P) front q in (r, t, both.1)
  Move-Parts l i o m (Move.send taken idle) (r, t, q) k =
      (subst (λ x. All P (to_list x)) taken t, tt, q)
  Move-Parts l i o m (Move.finish running known) (r, t, q) k = (tt, t, q)
  Move-Parts l i o m (Move.join new unused) h k = h
  Move-Parts l i o m (Move.leave x unused) h k = h

  -- What holds of all jobs in flight and of those that come in holds of all in flight then.
  pub moved_flight :
      (l : Line) (i o : List Job) (m : Line)
      → Move l i o m
      → All P (in_flight l)
      → All P i
      → All P (in_flight m)
  moved_flight l i o m move h k = Parts-flight m (Move-Parts l i o m move (flight-Parts l h) k)

module _ {P Q : Job → Type 0} where
  pub All-map2 :
      {R : Job → Type 0} (js : List Job)
      → ((j : Job) → P j → Q j → R j)
      → All P js
      → All Q js
      → All R js
  All-map2 [] f h k = tt
  All-map2 (j ∷ js) f (p, h) (q, k) = (f j p q, All-map2 js f h k)

-- The context of a job is there.
abbrev pub Rooted : Holdings → Job → Type 0
Rooted h j = (l : List ℕ) × (h.lists j.ctx ≡ some l)

module _ (w : World) where
  Lives-Rooted : (t : Task) → Lives w t → Rooted (holdings w) (job t)
  Lives-Rooted t (there, (c, known)) = (buffer_list c, ap (Option.map buffer_list) known)

  queued-Rooted : (ts : List Task) → AllLive w ts → All (Rooted (holdings w)) (map job ts)
  queued-Rooted [] h = tt
  queued-Rooted (t ∷ ts) (h, hs) = (Lives-Rooted t h, queued-Rooted ts hs)

  maybe-Rooted :
      (o : Option Task) → MaybeLives w o → All (Rooted (holdings w)) (to_list (Option.map job o))
  maybe-Rooted none h = tt
  maybe-Rooted (some t) h = (Lives-Rooted t h, tt)

  pub Working-Rooted :
      (n : Option Task) → Working n w → All (Rooted (holdings w)) (in_flight (line n w))
  Working-Rooted n g = Parts-flight (Rooted (holdings w)) (line n w) (
    maybe-Rooted w.running_task g.sent,
    maybe-Rooted n g.ahead,
    queued-Rooted w.pending_tasks g.queued,
  )

pub record Owned (n : Option Task) (w : World) : Type 0 where
  pub held : Held (holdings w)
  pub fits : All (Fits (holdings w)) (in_flight (line n w))

-- The invariant is kept by a step of the line and of the holdings in which fitting tasks come in.
pub Owned-kept :
    (i : List Job) (n : Option Task) (w : World) (n' : Option Task) (w' : World)
    → Working n w
    → Owned n w
    → Into i n w n' w'
    → Passes w w'
    → All (Fits (holdings w')) i
    → Owned n' w'
Owned-kept i n w n' w' g own (o, move) pass come = record {
  held = Pass-Held (holdings w) own.held (holdings w') pass;
  fits =
      moved_flight (Fits (holdings w')) (line n w) i o (line n' w') move
        (All-map2 (in_flight (line n w))
          (λ j live fit. Pass-Fits (holdings w) own.held (holdings w') j pass live fit)
          (Working-Rooted w n g) own.fits)
        come;
}
