-- ===== src/Wt/Exec/Present.antt =====
-- __wt_run_task of dicedev_wt.c follows only pointers to its buffers and its context, and ends.
use dicedev_linux_driver.Base.{
  ℕ, zero, suc, ◌+◌, ◌<◌, arith, ◌/◌, ◌≡◌, refl, ◌∙◌, ap, sym, inl, inr, Bool, true, false, Option,
  none, some, List, subst, Bool-cases, ◌==◌, ltb, not, bit_and, get_elem?,
}
use dicedev_linux_driver.Dice.{page_size}
use dicedev_linux_driver.Types.{World, Buffer, Context, Task, TaskBody, WriteTask, RunTask}
use dicedev_linux_driver.Holdings.{Job, command_buffer}
use dicedev_linux_driver.Monad.{M, pure, ◌>>◌, ensured, then_ensured}
use dicedev_linux_driver.Monad.Safe.{Safe, goes_on, stops, then_Safe, either_Safe}
use dicedev_linux_driver.Utils.{Hw, Responsive, feed_cmd}
use dicedev_linux_driver.Utils.Feed.{feed_cmd-fed}
use dicedev_linux_driver.Wt.Task.{
  element, write_next, turn_page, body_next, init_body, dicedev_task_get_next_word,
  dicedev_task_init_it,
}
use dicedev_linux_driver.Wt.Exec.{
  CmdType, cmd_type, Round, round, switch, run_loop, round_get_die, round_new_set, get_die_checked,
  get_die_fed, get_die_second, new_set_fed, not32, run_end, run_bound, rounds, task_size,
  wt_run_task, get_die_slot_mask, new_set_slot_mask,
}
use dicedev_linux_driver.Wt.Exec.Plan.{die_words, set_words}
use dicedev_linux_driver.Wt.Exec.Reads.{
  SameTask, element-Ensures, body_next-Ensures, init_body-Ensures, write_next-Ensures,
  turn_page-Ensures, next_word-Ensures, init_it-Ensures,
}
use dicedev_linux_driver.Wt.Exec.Forward.{
  ahead, Placed, Placed-same, RoundForward, round-Forward, init_it-Supply, both,
}
use dicedev_linux_driver.Wt.Exec.Frame.{
  Only, RoundDone, round-Ensures, run_loop-Ensures, still, unlocked_after,
}

-- The buffer of the commands is there, if they are in one.
abbrev pub Present : Option ℕ → World → Type 0
Present none w = Unit {0}
Present (some p) w = (b : Buffer) × (w.buffers p ≡ some b)

abbrev pub Supplied : Task → World → Type 0
Supplied t w = Present (command_buffer t.body) w

Present-same :
    (o o' : Option ℕ) (w w' : World) → o' ≡ o → w'.buffers ≡ w.buffers → Present o w → Present o' w'
Present-same o o' w w' same e h = subst (λ q. Present q w') (sym same) (kept o h)
  where
    kept : (q : Option ℕ) → Present q w → Present q w'
    kept none h = tt
    kept (some p) (b, there) = (b, ap (λ f. f p) e ∙ there)

SameTask-Supplied :
    (t t' : Task) (w w' : World)
    → SameTask t t'
    → w'.buffers ≡ w.buffers
    → Supplied t w
    → Supplied t' w'
SameTask-Supplied t t' w w' same e h =
    Present-same (command_buffer t.body) (command_buffer t'.body) w w'
      (ap (λ (j : Job). j.c_buff) same) e h

Only-buffers : (w w' : World) → Only w w' → w'.buffers ≡ w.buffers
Only-buffers w w' (l, e) = ap (λ (v : World). v.buffers) e

element-Safe : {A : Type 0} (o : Option A) (w : World) → Safe (element o w)
element-Safe none w = stops tt
element-Safe (some a) w = goes_on

write_next-Safe : (t : WriteTask) (w : World) → Safe (write_next t w)
unfolding write_next
write_next-Safe t w = elim (Bool-cases (t.cmd_size == t.it_offset)) [
  | inl e ↦ rw e (stops tt)
  | inr e ↦ rw e (
      then_Safe (element-Safe (get_elem? t.cmd t.it_offset) w)
        (element-Ensures (get_elem? t.cmd t.it_offset) w) λ a v same. goes_on)
]

turn_page-Safe : (t : RunTask) (w : World) → Present (some t.c_buff) w → Safe (turn_page t w)
unfolding turn_page
turn_page-Safe t w (b, there) = elim (Bool-cases (t.curr_pg_off == page_size / 4)) [
  | inl e ↦
      rw (e, there)
        (then_Safe (element-Safe (get_elem? b.pt.pages (t.curr_pg_no + 1)) w)
          (element-Ensures (get_elem? b.pt.pages (t.curr_pg_no + 1)) w) λ p u again. goes_on)
  | inr e ↦ rw e goes_on
]

body_next-Safe : (t : TaskBody) (w : World) → Present (command_buffer t) w → Safe (body_next t w)
unfolding body_next
body_next-Safe (TaskBody.write t) w h =
    then_Safe (write_next-Safe t w) (write_next-Ensures t w) λ a v same. goes_on
body_next-Safe (TaskBody.run t) w h =
    then_Safe {P = λ r v. v ≡ w}
      (then_Safe (turn_page-Safe t w h) (turn_page-Ensures t w) λ a v same. goes_on)
      (then_ensured (turn_page-Ensures t w) λ a v same. ensured same.1) λ a v same. goes_on

next_word-Safe : (t : Task) (w : World) → Supplied t w → Safe (dicedev_task_get_next_word t w)
unfolding dicedev_task_get_next_word
next_word-Safe t w h =
    then_Safe (body_next-Safe t.body w h) (body_next-Ensures t.body w) λ a v same. goes_on

init_body-Safe : (t : TaskBody) (w : World) → Present (command_buffer t) w → Safe (init_body t w)
unfolding init_body
init_body-Safe (TaskBody.write t) w h = goes_on
init_body-Safe (TaskBody.run t) w (b, there) = rw there (
    then_Safe (element-Safe (get_elem? b.pt.pages (t.offset / page_size)) w)
      (element-Ensures (get_elem? b.pt.pages (t.offset / page_size)) w) λ p u again. goes_on)

init_it-Safe : (t : Task) (w : World) → Supplied t w → Safe (dicedev_task_init_it t w)
unfolding dicedev_task_init_it
init_it-Safe t w h =
    then_Safe (init_body-Safe t.body w h) (init_body-Ensures t.body w) λ a v same. goes_on

module _ (hw : Hw) (drains : Responsive hw) (slot allowed : ℕ) where
  fed-Safe :
      (cs : List ℕ) (r : Round) (w : World)
      → w.feed_lock ≡ false
      → Safe ((feed_cmd hw cs >> pure r) w)
  fed-Safe cs r w idle = rw (feed_cmd-fed hw drains cs w idle) goes_on

  get_die_checked-Safe :
      (c0 c1 : ℕ) (t : Task) (left : ℕ) (w : World)
      → w.feed_lock ≡ false
      → Safe (get_die_checked hw slot allowed c0 c1 t left w)
  unfolding get_die_checked get_die_fed
  get_die_checked-Safe c0 c1 t left w idle =
      either_Safe (not (bit_and c0 get_die_slot_mask == 0)) (pure (Round.ctx_fail t)) _ w goes_on (
        either_Safe (not (bit_and c1 (not32 allowed) == 0)) (pure (Round.ctx_fail t)) _ w goes_on
          (fed-Safe (die_words slot c0 c1) _ w idle))

  get_die-Safe :
      (c0 : ℕ) (t : Task) (left : ℕ) (w : World)
      → w.feed_lock ≡ false
      → Supplied t w
      → Safe (round_get_die hw slot allowed c0 t left w)
  unfolding round_get_die get_die_second
  get_die-Safe c0 t left w idle h =
      either_Safe (ltb left 4) (pure (Round.ctx_fail t)) (get_die_second hw slot allowed c0 t left)
        w goes_on
        (then_Safe (next_word-Safe t w h) (next_word-Ensures t w)
          λ r v same. get_die_checked-Safe c0 r.0 r.1 left v (still same.1 idle))

  new_set-Safe :
      (c0 : ℕ) (t : Task) (left : ℕ) (w : World)
      → w.feed_lock ≡ false
      → Safe (round_new_set hw slot allowed c0 t left w)
  unfolding round_new_set new_set_fed
  new_set-Safe c0 t left w idle =
      either_Safe (not (bit_and c0 new_set_slot_mask == 0)) (pure (Round.ctx_fail t))
        (new_set_fed hw slot allowed c0 t left) w goes_on (fed-Safe (set_words slot c0) _ w idle)

  switch-Safe :
      (c0 : ℕ) (t : Task) (left : ℕ) (ty : CmdType) (w : World)
      → w.feed_lock ≡ false
      → Supplied t w
      → Safe (switch hw slot allowed c0 t left ty w)
  unfolding switch
  switch-Safe c0 t left CmdType.nop w idle h = goes_on
  switch-Safe c0 t left CmdType.get_die w idle h = get_die-Safe c0 t left w idle h
  switch-Safe c0 t left CmdType.new_set w idle h = new_set-Safe c0 t left w idle
  switch-Safe c0 t left CmdType.other w idle h = goes_on

  round-Safe :
      (t : Task) (left : ℕ) (w : World)
      → w.feed_lock ≡ false
      → Supplied t w
      → Safe (round hw slot allowed t left w)
  unfolding round
  round-Safe t left w idle h =
      then_Safe (next_word-Safe t w h) (next_word-Ensures t w) λ r v (same, here).
        switch-Safe r.0 r.1 left (cmd_type r.0) v (still here idle)
          (SameTask-Supplied t r.1 w v same (ap (λ (x : World). x.buffers) here) h)

  abbrev after_round : ℕ → Round → M (Bool × Task)
  after_round fuel (Round.next t left) = run_loop hw slot allowed fuel t left
  after_round fuel (Round.ctx_fail t) = pure (true, t)

  run_loop-Safe :
      (n fuel : ℕ) (t : Task) (left : ℕ) (w : World)
      → w.feed_lock ≡ false
      → Supplied t w
      → Placed n w t.body
      → ahead n t.body < fuel
      → Safe (run_loop hw slot allowed fuel t left w)
  unfolding run_loop
  run_loop-Safe n zero t left w idle h at enough = absurd (omega (arith, enough))
  run_loop-Safe n (suc fuel) t left w idle h at enough = elim (Bool-cases (left == 0)) [
    | inl e ↦ rw (e, run_loop) goes_on
    | inr e ↦
        rw (e, run_loop)
          (then_Safe (round-Safe t left w idle h)
            (both (round hw slot allowed t left w)
              (round-Ensures hw drains slot allowed t left w idle)
              (round-Forward hw slot allowed n w t left at))
            λ r.
              elim r
                as (λ q.
                  (v : World)
                  → RoundDone t w q v × RoundForward n w t.body q
                  → Safe (after_round fuel q v)) [
                    | Round.next t' left' ↦ λ v (done, (at', less)).
                        run_loop-Safe n fuel t' left' v (unlocked_after w v done.1)
                          (SameTask-Supplied t t' w v done.0 (Only-buffers w v done.1) h)
                          (Placed-same n w v t'.body (Only-buffers w v done.1) at')
                          (omega (arith, less, enough))
                    | Round.ctx_fail t' ↦ λ v done. goes_on
                  ])
  ]

module _ (hw : Hw) (drains : Responsive hw) where
  run_end-Safe :
      (x : ℕ) (r : Bool × Task) (v : World) (c : Context)
      → v.contexts x ≡ some c
      → Safe (run_end x r v)
  run_end-Safe x (false, t) v c known = goes_on
  run_end-Safe x (true, t) v c known = rw known goes_on

  run_bound-Safe :
      (t : Task) (b : Buffer) (slot : Option ℕ) (w : World) (c : Context)
      → w.feed_lock ≡ false
      → Supplied t w
      → w.contexts t.ctx ≡ some c
      → Safe (run_bound hw t b slot w)
  unfolding run_bound
  run_bound-Safe t b none w c idle h known = stops tt
  run_bound-Safe t b (some slot) w c idle h known =
      then_Safe (init_it-Safe t w h)
        (both (dicedev_task_init_it t w) (init_it-Ensures t w) (init_it-Supply w t))
        λ t' v ((same, here), ((n, at, enough), again)).
          let unlocked = still here idle in
          let shared : v.buffers ≡ w.buffers = ap (λ (x : World). x.buffers) here in
          let supplied = SameTask-Supplied t t' w v same shared h in
          then_Safe
            (run_loop-Safe hw drains slot b.allowed n (rounds w t.body) t' (task_size t'.body) v
              unlocked supplied (Placed-same n w v t'.body shared at) enough)
            (run_loop-Ensures hw drains slot b.allowed (rounds w t.body) t' (task_size t'.body) v
              unlocked)
            λ r u (again, (log, e)). run_end-Safe t'.ctx r u c (
              ap (λ (x : World). x.contexts t'.ctx) e
              ∙ ap (λ (x : World). x.contexts t'.ctx) here
              ∙ ap w.contexts (ap (λ (j : Job). j.ctx) same)
              ∙ known)

  -- With its buffers and its context there, __wt_run_task follows no pointer to an object that is
  -- gone, takes no lock twice, and does not run out of rounds, whatever the words of the task are.
  pub wt_run_task-Safe :
      (t : Task) (w : World) (b : Buffer) (c : Context)
      → w.feed_lock ≡ false
      → w.buffers t.buff_out ≡ some b
      → Supplied t w
      → w.contexts t.ctx ≡ some c
      → Safe (wt_run_task hw t w)
  unfolding wt_run_task
  wt_run_task-Safe t w b c idle there h known = rw there (
      run_bound-Safe t b b.binded_slot (record w { running_task = some t }) c idle
        (SameTask-Supplied t t w (record w { running_task = some t }) refl refl h) known)
