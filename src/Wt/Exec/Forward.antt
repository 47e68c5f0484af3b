-- ===== src/Wt/Exec/Forward.antt =====
-- Every round of the loop of __wt_run_task in dicedev_wt.c reads a word, and there are only so many.
use dicedev_linux_driver.Base.{
  ℕ, ◌+◌, ◌-◌, ◌*◌, ◌/◌, ◌<◌, ◌≤◌, ◌≡◌, refl, ◌∙◌, ap, inl, inr, some, arith, Bool-cases,
  Option-cases, ◌==◌, ltb, not, bit_and, get_elem?, get_elem?_bound, length,
}
use dicedev_linux_driver.Dice.{page_size}
use dicedev_linux_driver.Types.{World, Buffer, Task, TaskBody, WriteTask, RunTask}
use dicedev_linux_driver.Monad.{
  Run, ok, blocked, fault, pure, Ensures, ensured, sleeps, faults, then_ensured, weaker_ensured,
  either,
}
use dicedev_linux_driver.Utils.{Hw, feed_cmd}
use dicedev_linux_driver.Wt.Task.{
  write_next, turn_page, init_body, body_next, dicedev_task_get_next_word, dicedev_task_init_it,
}
use dicedev_linux_driver.Wt.Exec.{
  CmdType, cmd_type, Round, round, switch, round_get_die, round_new_set, get_die_checked,
  get_die_fed, get_die_second, new_set_fed, not32, rounds, get_die_slot_mask, new_set_slot_mask,
}

-- The words that are not read yet, of a run in a table of `n` pages.
abbrev pub ahead : ℕ → TaskBody → ℕ
ahead n (TaskBody.write t) = length t.cmd - t.it_offset
ahead n (TaskBody.run t) =
    (n - (t.curr_pg_no + 1)) * (page_size / 4) + (page_size / 4 - t.curr_pg_off)

abbrev pub Placed : ℕ → World → TaskBody → Type 0
Placed n w (TaskBody.write t) = Unit {0}
Placed n w (TaskBody.run t) =
    (t.curr_pg_off ≤ page_size / 4)
    × ((b : Buffer) × (w.buffers t.c_buff ≡ some b) × (length b.pt.pages ≡ n))

pub Placed-same :
    (n : ℕ) (w v : World) (t : TaskBody) → v.buffers ≡ w.buffers → Placed n w t → Placed n v t
Placed-same n w v (TaskBody.write t) e h = tt
Placed-same n w v (TaskBody.run t) e (at, (b, there, size)) =
    (at, (b, ap (λ f. f t.c_buff) e ∙ there, size))

abbrev pub Forward : ℕ → World → TaskBody → TaskBody → Type 0
Forward n w t t' = Placed n w t' × (ahead n t' < ahead n t)

anything : {A : Type 0} (r : Run A) → Ensures (λ _ _. Unit {0}) r
anything (ok a w) = ensured tt
anything blocked = sleeps
anything (fault e) = faults

module _ (n : ℕ) (w : World) where
  write_next-Forward :
      (t : WriteTask)
      → Ensures
          (λ r v. Forward n w (TaskBody.write t) (TaskBody.write r.1) × (v ≡ w))
          (write_next t w)
  unfolding write_next
  write_next-Forward t = elim (Bool-cases (t.cmd_size == t.it_offset)) [
    | inl e ↦ rw e faults
    | inr e ↦ elim (Option-cases (get_elem? t.cmd t.it_offset)) [
      | inl past ↦ rw (e, past) faults
      | inr (c, at) ↦
          let inside = get_elem?_bound t.cmd t.it_offset at in
          rw (e, at) (ensured ((tt, omega arith), refl))
    ]
  ]

  abbrev Turned : RunTask → RunTask → Type 0
  Turned t t' =
      Placed n w (TaskBody.run t')
      × (t'.curr_pg_off < page_size / 4)
      × (ahead n (TaskBody.run t') ≤ ahead n (TaskBody.run t))

  turn_page-Turned :
      (t : RunTask)
      → Placed n w (TaskBody.run t)
      → Ensures (λ t' v. Turned t t' × (v ≡ w)) (turn_page t w)
  unfolding turn_page
  turn_page-Turned t (low, (b, there, size)) = elim (Bool-cases (t.curr_pg_off == page_size / 4)) [
    | inl e ↦ elim (Option-cases (get_elem? b.pt.pages (t.curr_pg_no + 1))) [
      | inl past ↦ rw (e, there, past) faults
      | inr (p, at) ↦
          let inside = get_elem?_bound b.pt.pages (t.curr_pg_no + 1) at in
          let last : t.curr_pg_off ≡ 1024 = ground arith in
          rw (e, there, at)
            (ensured
              (((omega arith, (b, there, size)), omega arith, omega (arith, inside, size)), refl))
    ]
    | inr e ↦
        let other : t.curr_pg_off < 1024 = ground arith in
        rw e (ensured (((low, (b, there, size)), other, omega arith), refl))
  ]

  body_next-Forward :
      (t : TaskBody) → Placed n w t → Ensures (λ r v. Forward n w t r.1 × (v ≡ w)) (body_next t w)
  unfolding body_next
  body_next-Forward (TaskBody.write t) h =
      then_ensured (write_next-Forward t) λ a v done. ensured done
  body_next-Forward (TaskBody.run t) h =
      then_ensured
        (then_ensured {Q = λ r v. Forward n w (TaskBody.run t) (TaskBody.run r.1) × (v ≡ w)}
          (turn_page-Turned t h)
          λ t' v ((placed, low, less), same).
            ensured (((omega arith, placed.1), omega (arith, low, less)), same))
        λ a v done. ensured done

  next_word-Forward :
      (t : Task)
      → Placed n w t.body
      → Ensures (λ r v. Forward n w t.body (r.1).body × (v ≡ w)) (dicedev_task_get_next_word t w)
  unfolding dicedev_task_get_next_word
  next_word-Forward t h = then_ensured (body_next-Forward t.body h) λ a v done. ensured done

-- What a round leaves for the next one.
abbrev pub RoundForward : ℕ → World → TaskBody → Round → Type 0
RoundForward n w t (Round.next t' left) = Forward n w t t'.body
RoundForward n w t (Round.ctx_fail t') = Unit {0}

module _ (hw : Hw) (slot allowed n : ℕ) (w : World) where
  -- A round after its first word, in any state, ends with at most the words that it began with.
  abbrev Stays : TaskBody → Round → Type 0
  Stays t (Round.next t' left) = Placed n w t'.body × (ahead n t'.body ≤ ahead n t)
  Stays t (Round.ctx_fail t') = Unit {0}

  get_die_checked-Stays :
      (c0 c1 : ℕ) (t : Task) (left : ℕ) (v : World)
      → Placed n w t.body
      → Ensures (λ q u. Stays t.body q) (get_die_checked hw slot allowed c0 c1 t left v)
  unfolding get_die_checked get_die_fed
  get_die_checked-Stays c0 c1 t left v h =
      either (not (bit_and c0 get_die_slot_mask == 0)) (pure (Round.ctx_fail t)) _ v (ensured tt) (
        either (not (bit_and c1 (not32 allowed) == 0)) (pure (Round.ctx_fail t)) _ v (ensured tt)
          (then_ensured (anything (feed_cmd hw _ v)) λ x u done. ensured (h, omega arith)))

  switch-Stays :
      (c0 : ℕ) (t : Task) (left : ℕ) (ty : CmdType)
      → Placed n w t.body
      → Ensures (λ q u. Stays t.body q) (switch hw slot allowed c0 t left ty w)
  unfolding switch round_get_die get_die_second round_new_set new_set_fed
  switch-Stays c0 t left CmdType.nop h = ensured (h, omega arith)
  switch-Stays c0 t left CmdType.other h = ensured tt
  switch-Stays c0 t left CmdType.new_set h =
      either (not (bit_and c0 new_set_slot_mask == 0)) (pure (Round.ctx_fail t))
        (new_set_fed hw slot allowed c0 t left) w (ensured tt)
        (then_ensured (anything (feed_cmd hw _ w)) λ x u done. ensured (h, omega arith))
  switch-Stays c0 t left CmdType.get_die h =
      either (ltb left 4) (pure (Round.ctx_fail t)) (get_die_second hw slot allowed c0 t left) w
        (ensured tt)
        (then_ensured (next_word-Forward n w t h) λ r v ((placed, less), same).
          weaker_ensured (get_die_checked-Stays c0 r.0 r.1 left v placed) λ q u.
            elim q as (λ q. Stays (r.1).body q → Stays t.body q) [
              | Round.next t' left' ↦ λ (at, more). (at, omega (arith, less, more))
              | Round.ctx_fail t' ↦ λ done. tt
            ])

  pub round-Forward :
      (t : Task) (left : ℕ)
      → Placed n w t.body
      → Ensures (λ q u. RoundForward n w t.body q) (round hw slot allowed t left w)
  unfolding round
  round-Forward t left h = then_ensured (next_word-Forward n w t h) λ r v ((placed, less), same).
      rw same (
        weaker_ensured (switch-Stays r.0 r.1 left (cmd_type r.0) placed) λ q u.
          elim q as (λ q. Stays (r.1).body q → RoundForward n w t.body q) [
            | Round.next t' left' ↦ λ (at, more). (at, omega (arith, less, more))
            | Round.ctx_fail t' ↦ λ done. tt
          ])

-- The rounds that are given to the loop are enough.
abbrev pub Supply : World → TaskBody → TaskBody → Type 0
Supply w t t' = (n : ℕ) × Placed n w t' × (ahead n t' < rounds w t)

module _ (w : World) where
  init_body-Supply : (t : TaskBody) → Ensures (λ t' v. Supply w t t' × (v ≡ w)) (init_body t w)
  unfolding init_body
  init_body-Supply (TaskBody.write t) = ensured ((0, tt, omega arith), refl)
  init_body-Supply (TaskBody.run t) = elim (Option-cases (w.buffers t.c_buff)) [
    | inl e ↦ rw e faults
    | inr (b, e) ↦ elim (Option-cases (get_elem? b.pt.pages (t.offset / page_size))) [
      | inl past ↦ rw (e, past) faults
      | inr (p, at) ↦
          let inside = get_elem?_bound b.pt.pages (t.offset / page_size) at in
          let given : rounds w (TaskBody.run t) ≡ 1024 * length b.pt.pages + 2 =
            rw (rounds, e) refl in
          rw (e, at)
            (ensured (
              (length b.pt.pages, (omega arith, (b, e, refl)), omega (arith, inside, given)),
              refl,
            ))
    ]
  ]

  pub init_it-Supply :
      (t : Task) → Ensures (λ t' v. Supply w t.body t'.body × (v ≡ w)) (dicedev_task_init_it t w)
  unfolding dicedev_task_init_it
  init_it-Supply t = then_ensured (init_body-Supply t.body) λ a v done. ensured done

-- Two things that a command ensures.
pub both :
    {A : Type 0} {P Q : A → World → Type 0} (r : Run A)
    → Ensures P r
    → Ensures Q r
    → Ensures (λ a w. P a w × Q a w) r
both (ok a w) (ensured p) (ensured q) = ensured (p, q)
both blocked h k = sleeps
both (fault e) h k = faults
