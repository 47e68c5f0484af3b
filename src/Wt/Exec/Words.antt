-- ===== src/Wt/Exec/Words.antt =====
-- The words that the iterators of dicedev_task_get_next_word of dicedev_wt.c give, on a write
-- task and on a run task.
use dicedev_linux_driver.Base.{
  ℕ, zero, suc, ◌+◌, ◌-◌, ◌*◌, ◌/◌, ◌≡◌, refl, ◌∙◌, inl, inr, true, false, Option, none, some, List,
  [], ◌∷◌, arith, ◌==◌, length, get_elem?, ==_ne, Bool-cases,
}
use dicedev_linux_driver.Dice.{page_size, sub64}
use dicedev_linux_driver.Types.{World, Buffer, Dma, Page, WriteTask, RunTask, TaskBody}
use dicedev_linux_driver.Monad.{Fault, ok, fault}
use dicedev_linux_driver.Wt.Task.{body_next}
use dicedev_linux_driver.Wt.Exec.Rounds.{Yields}

module _ (bs : ℕ → Option Buffer) (dma : Dma) where
  -- A write task whose words from the iterator on are `rest`.
  pub write_Yields :
      (rest : List ℕ) (t : WriteTask)
      → ((j : ℕ) → get_elem? t.cmd (t.it_offset + j) ≡ get_elem? rest j)
      → t.cmd_size ≡ 4 * length t.cmd
      → t.it_offset + length rest ≡ length t.cmd
      → Yields bs dma (TaskBody.write t) rest
  unfolding body_next
  write_Yields [] t at size fits = elim (Bool-cases (t.cmd_size == t.it_offset)) [
    | inl same ↦ (Fault.bug_on, (λ e. cc), λ w b m. rw same)
    | inr other ↦ (Fault.out_of_bounds, (λ e. cc), λ w b m. rw (other, here (at 0)))
  ]
    where
      here : get_elem? t.cmd (t.it_offset + 0) ≡ none → get_elem? t.cmd t.it_offset ≡ none
      here e = let z : t.it_offset + 0 ≡ t.it_offset = omega arith in rw z at e
  write_Yields (c ∷ cs) t at size fits =
      let z : t.it_offset + 0 ≡ t.it_offset = omega arith in
      let here : get_elem? t.cmd t.it_offset ≡ some c = rw z at (at 0) in
      let more : (t.cmd_size == t.it_offset) ≡ false = ==_ne _ _ (omega arith) in
      (
        TaskBody.write (record t { it_offset = t.it_offset + 1 }),
        write_Yields cs (record t { it_offset = t.it_offset + 1 })
            (λ j.
              let s : t.it_offset + 1 + j ≡ t.it_offset + suc j = omega arith in rw s (at (suc j)))
            size (omega arith),
        λ w b m. rw (more, here),
      )

  Yields-cong :
      (t u : TaskBody) (words : List ℕ)
      → ((w : World) → w.buffers ≡ bs → body_next t w ≡ body_next u w)
      → Yields bs dma u words
      → Yields bs dma t words
  Yields-cong t u [] same (e, ne, y) = (e, ne, λ w b m. same w b ∙ y w b m)
  Yields-cong t u (c ∷ cs) same (u', y, read) = (u', y, λ w b m. same w b ∙ read w b m)

-- The last `k` words of a page, and all words of the pages behind it.
unfoldable pub run_words : Dma → List Page → ℕ → ℕ → List ℕ
run_words dma [] page zero = []
run_words dma (next ∷ more) page zero = run_words dma more next.page (page_size / 4)
run_words dma [] page (suc k) = dma.mem page (page_size / 4 - suc k) ∷ run_words dma [] page k
run_words dma (next ∷ more) page (suc k) =
    dma.mem page (page_size / 4 - suc k) ∷ run_words dma (next ∷ more) page k

module _ (bs : ℕ → Option Buffer) (dma : Dma) (b : Buffer) where
  -- The words behind the iterator of a run task: `k` in its page, `more` pages behind that.
  pub record Cursor (t : RunTask) (more : List Page) (k : ℕ) : Type 0 where
    pub exists : bs t.c_buff ≡ some b
    pub place : t.curr_pg_off + k ≡ page_size / 4
    pub behind : (j : ℕ) → get_elem? b.pt.pages (t.curr_pg_no + 1 + j) ≡ get_elem? more j

  abbrev turned : RunTask → Page → RunTask
  turned t next = record t { curr_pg_off = 0; curr_pg_no = t.curr_pg_no + 1; curr_pg = next.page }

  abbrev moved : RunTask → RunTask
  moved t = record t { bytes_left = sub64 t.bytes_left 4; curr_pg_off = t.curr_pg_off + 1 }

  behind_first :
      (t : RunTask) (more : List Page) (k : ℕ)
      → Cursor t more k
      → get_elem? b.pt.pages (t.curr_pg_no + 1) ≡ get_elem? more 0
  behind_first t more k c =
      let z : t.curr_pg_no + 1 + 0 ≡ t.curr_pg_no + 1 = omega arith in rw z at (c.behind 0)

  module _ (t : RunTask) (w : World) (buffers : w.buffers ≡ bs) where
    turn_page_end : Cursor t [] 0 → body_next (TaskBody.run t) w ≡ fault Fault.out_of_bounds
    unfolding body_next
    turn_page_end c =
        let last : (t.curr_pg_off == page_size / 4) ≡ true = ground (arith, c.place) in
        let there : w.buffers t.c_buff ≡ some b = rw buffers c.exists in
        rw (last, there, behind_first t [] 0 c)

    turn_page_next :
        (next : Page) (more : List Page)
        → Cursor t (next ∷ more) 0
        → body_next (TaskBody.run t) w ≡ body_next (TaskBody.run (turned t next)) w
    unfolding body_next
    turn_page_next next more c =
        let last : (t.curr_pg_off == page_size / 4) ≡ true = ground (arith, c.place) in
        let there : w.buffers t.c_buff ≡ some b = rw buffers c.exists in
        rw (last, there, behind_first t (next ∷ more) 0 c)

    read_word :
        (more : List Page) (k : ℕ)
        → Cursor t more (suc k)
        → w.dma ≡ dma
        → body_next (TaskBody.run t) w
          ≡ ok (dma.mem t.curr_pg (page_size / 4 - suc k), TaskBody.run (moved t)) w
    unfolding body_next
    read_word more k c memory =
        let inside : (t.curr_pg_off == page_size / 4) ≡ false = ground (arith, c.place) in
        let here : t.curr_pg_off ≡ page_size / 4 - suc k = omega (arith, c.place) in
        let same : w.dma.mem t.curr_pg t.curr_pg_off ≡ dma.mem t.curr_pg (page_size / 4 - suc k) =
          rw (memory, here) in
        rw (inside, same)

  turned-Cursor :
      (t : RunTask) (next : Page) (more : List Page)
      → Cursor t (next ∷ more) 0
      → Cursor (turned t next) more (page_size / 4)
  turned-Cursor t next more c = record {
    exists = c.exists;
    place = omega arith;
    behind = λ j.
        let z : t.curr_pg_no + 1 + 1 + j ≡ t.curr_pg_no + 1 + suc j = omega arith in
        rw z (c.behind (suc j));
  }

  moved-Cursor :
      (t : RunTask) (more : List Page) (k : ℕ) → Cursor t more (suc k) → Cursor (moved t) more k
  moved-Cursor t more k c = record {
    exists = c.exists;
    place = omega (arith, c.place);
    behind = c.behind;
  }

  pub run_Yields :
      (more : List Page) (k : ℕ) (t : RunTask)
      → Cursor t more k
      → Yields bs dma (TaskBody.run t) (run_words dma more t.curr_pg k)
  unfolding run_words
  run_Yields [] zero t c = (Fault.out_of_bounds, (λ e. cc), λ w bf m. turn_page_end t w bf c)
  run_Yields (next ∷ more) zero t c =
      Yields-cong bs dma (TaskBody.run t) (TaskBody.run (turned t next)) _
        (λ w bf. turn_page_next t w bf next more c)
        (run_Yields more (page_size / 4) (turned t next) (turned-Cursor t next more c))
  run_Yields [] (suc k) t c = (
    TaskBody.run (moved t),
    run_Yields [] k (moved t) (moved-Cursor t [] k c),
    λ w bf m. read_word t w bf [] k c m,
  )
  run_Yields (next ∷ more) (suc k) t c = (
    TaskBody.run (moved t),
    run_Yields (next ∷ more) k (moved t) (moved-Cursor t (next ∷ more) k c),
    λ w bf m. read_word t w bf (next ∷ more) k c m,
  )

pub length-run_words :
    (dma : Dma) (more : List Page) (page k : ℕ)
    → length (run_words dma more page k) ≡ k + page_size / 4 * length more
unfolding run_words
length-run_words dma [] page zero = refl
length-run_words dma (next ∷ more) page zero =
    omega (arith, length-run_words dma more next.page (page_size / 4))
length-run_words dma [] page (suc k) = omega (arith, length-run_words dma [] page k)
length-run_words dma (next ∷ more) page (suc k) =
    omega (arith, length-run_words dma (next ∷ more) page k)
