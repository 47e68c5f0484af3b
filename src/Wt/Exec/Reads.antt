-- ===== src/Wt/Exec/Reads.antt =====
-- What the iterator of dicedev_wt.c over the words of a task leaves alone.
use dicedev_linux_driver.Base.{
  ℕ, ◌+◌, ◌≡◌, refl, ◌∙◌, ap, inl, inr, Option, none, some, Bool-cases, ◌==◌, get_elem?,
  Option-cases, ◌/◌,
}
use dicedev_linux_driver.Dice.{page_size}
use dicedev_linux_driver.Types.{World, Task, TaskBody, WriteTask, RunTask}
use dicedev_linux_driver.Holdings.{job, command_buffer}
use dicedev_linux_driver.Monad.{get_buffer, Ensures, ensured, faults, then_ensured}
use dicedev_linux_driver.Wt.Task.{
  element, write_next, turn_page, init_body, body_next, dicedev_task_get_next_word,
  dicedev_task_init_it,
}

abbrev pub SameTask : Task → Task → Type 0
SameTask t t' = job t' ≡ job t

abbrev pub SameBuffer : TaskBody → TaskBody → Type 0
SameBuffer t t' = command_buffer t' ≡ command_buffer t

with_body : (t : Task) (b : TaskBody) → SameBuffer t.body b → SameTask t (record t { body = b })
with_body t b same = ap (λ c. record { ctx = t.ctx; buff_out = t.buff_out; c_buff = c }) same

pub get_buffer-Ensures : (p : ℕ) (w : World) → Ensures (λ _ w'. w' ≡ w) (get_buffer p w)
get_buffer-Ensures p w = elim (Option-cases (w.buffers p)) [
  | inl e ↦ rw e faults
  | inr (b, e) ↦ rw e (ensured refl)
]

pub element-Ensures :
    {A : Type 0} (o : Option A) (w : World) → Ensures (λ _ w'. w' ≡ w) (element o w)
element-Ensures none w = faults
element-Ensures (some a) w = ensured refl

pub write_next-Ensures : (t : WriteTask) (w : World) → Ensures (λ _ w'. w' ≡ w) (write_next t w)
unfolding write_next
write_next-Ensures t w = elim (Bool-cases (t.cmd_size == t.it_offset)) [
  | inl e ↦ rw e faults
  | inr e ↦
      rw e (then_ensured (element-Ensures (get_elem? t.cmd t.it_offset) w) λ a v same. ensured same)
]

pub turn_page-Ensures :
    (t : RunTask) (w : World) → Ensures (λ t' w'. (t'.c_buff ≡ t.c_buff) × (w' ≡ w)) (turn_page t w)
unfolding turn_page
turn_page-Ensures t w = elim (Bool-cases (t.curr_pg_off == page_size / 4)) [
  | inl e ↦ rw e (
      then_ensured (get_buffer-Ensures t.c_buff w) λ b v same.
        then_ensured (element-Ensures (get_elem? b.pt.pages (t.curr_pg_no + 1)) v)
          λ p u again. ensured (refl, again ∙ same))
  | inr e ↦ rw e (ensured (refl, refl))
]

pub body_next-Ensures :
    (t : TaskBody) (w : World) → Ensures (λ r w'. SameBuffer t r.1 × (w' ≡ w)) (body_next t w)
unfolding body_next
body_next-Ensures (TaskBody.write t) w =
    then_ensured (write_next-Ensures t w) λ a v same. ensured (refl, same)
body_next-Ensures (TaskBody.run t) w =
    then_ensured
      (then_ensured {Q = λ r v. (r.1.c_buff ≡ t.c_buff) × (v ≡ w)} (turn_page-Ensures t w)
        λ a v same. ensured same)
      λ a v same. ensured (ap some same.0, same.1)

pub next_word-Ensures :
    (t : Task) (w : World)
    → Ensures (λ r w'. SameTask t r.1 × (w' ≡ w)) (dicedev_task_get_next_word t w)
unfolding dicedev_task_get_next_word
next_word-Ensures t w =
    then_ensured (body_next-Ensures t.body w)
      λ a v (same, still). ensured (with_body t a.1 same, still)

pub init_body-Ensures :
    (t : TaskBody) (w : World) → Ensures (λ b w'. SameBuffer t b × (w' ≡ w)) (init_body t w)
unfolding init_body
init_body-Ensures (TaskBody.write t) w = ensured (refl, refl)
init_body-Ensures (TaskBody.run t) w = then_ensured (get_buffer-Ensures t.c_buff w) λ b v same.
    then_ensured (element-Ensures (get_elem? b.pt.pages (t.offset / page_size)) v)
      λ p u again. ensured (refl, again ∙ same)

pub init_it-Ensures :
    (t : Task) (w : World) → Ensures (λ t' w'. SameTask t t' × (w' ≡ w)) (dicedev_task_init_it t w)
unfolding dicedev_task_init_it
init_it-Ensures t w =
    then_ensured (init_body-Ensures t.body w)
      λ a v (same, still). ensured (with_body t a same, still)
