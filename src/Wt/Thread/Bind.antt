-- ===== src/Wt/Thread/Bind.antt =====
-- WT_EVENT_TASK_BIND_SLOT of dicedev_wt_fn in dicedev_wt.c.
use dicedev_linux_driver.Base.{
  ℕ, ◌<◌, ◌≡◌, refl, ◌∙◌, ◌≢◌, inl, inr, true, false, none, some, arith, update, update_self,
  update_ne, get_elem?,
}
use dicedev_linux_driver.Types.{World, Buffer, Reader, Task}
use dicedev_linux_driver.Holdings.{Steady, holdings, holdings_eq, view_kept, file}
use dicedev_linux_driver.Monad.{ok, Returns, returns}
use dicedev_linux_driver.Utils.{Hw, Responsive, get_slot, bind_words}
use dicedev_linux_driver.Utils.Feed.{fed}
use dicedev_linux_driver.Utils.Slots.{
  SlotsAgree, get_slot-lowest, bound, bind_slot-bound, bound-SlotsAgree, same-SlotsAgree,
  changed-SlotsAgree,
}
use dicedev_linux_driver.Wt.Thread.{on_bind_slot, dicedev_buffer_init_reader}
use dicedev_linux_driver.Wt.Thread.Events.{Quiet}

abbrev fresh_reader : Reader
fresh_reader = record { result_count = 0; offset = 0 }

pub record Bound (p : ℕ) (b : Buffer) (s : ℕ) (w w' : World) : Type 0 where
  pub quiet : Quiet w'
  pub empty : get_elem? w.buff_slots s ≡ some none
  pub lowest : (j : ℕ) → j < s → get_elem? w.buff_slots j ≢ some none
  pub buffer :
      w'.buffers p
      ≡ some (record b { binded_slot = some s; usage_count = 1; reader = fresh_reader })
  pub others : (q : ℕ) → p ≢ q → w'.buffers q ≡ w.buffers q
  pub contexts : w'.contexts ≡ w.contexts
  pub fence : w'.fence_state ≡ w.fence_state
  pub failed : w'.failed ≡ w.failed
  pub pending : w'.pending_tasks ≡ w.pending_tasks
  pub running : w'.running_task ≡ w.running_task
  pub writes : w'.writes ≡ fed (bind_words s b) w.writes
  pub steady : Steady w w'

module _ (hw : Hw) (drains : Responsive hw) (task : Task) (b : Buffer) (w : World) (q : Quiet w)
    (exists : w.buffers task.buff_out ≡ some b) where
  abbrev p : ℕ
  p = task.buff_out

  abbrev locked : World
  locked = record w { slock = true }

  locked-SlotsAgree : SlotsAgree locked
  locked-SlotsAgree = same-SlotsAgree w locked q.slots refl refl refl

  abbrev after_bind : ℕ → World
  after_bind s = bound locked p b s

  abbrev final : ℕ → World
  final s = record (after_bind s) {
    slock = false;
    buffers =
        update (after_bind s).buffers p
          (some (record b { binded_slot = some s; usage_count = 1; reader = fresh_reader }));
  }

  on_bind_slot-final :
      (s : ℕ)
      → get_slot locked ≡ some s
      → get_elem? w.buff_slots s ≡ some none
      → on_bind_slot hw (some task) w ≡ ok (some task) (final s)
  unfolding on_bind_slot dicedev_buffer_init_reader
  on_bind_slot-final s e empty = rw (
    q.unlocked,
    e,
    bind_slot-bound hw drains locked p b s q.idle exists empty,
    update_self w.buffers p (some (record b { binded_slot = some s; usage_count = 1 })),
  )

  final-Bound :
      (s : ℕ)
      → b.binded_slot ≡ none
      → get_elem? w.buff_slots s ≡ some none
      → ((j : ℕ) → j < s → get_elem? w.buff_slots j ≢ some none)
      → Bound p b s w (final s)
  final-Bound s unheld empty lowest =
      let agree : SlotsAgree (after_bind s) =
        bound-SlotsAgree locked p b s locked-SlotsAgree exists unheld empty in
      let there =
        update_self w.buffers p (some (record b { binded_slot = some s; usage_count = 1 })) in
      record {
        quiet = record {
          unlocked = refl;
          idle = refl;
          slots = changed-SlotsAgree (after_bind s) (final s) agree refl refl p _ _ there refl refl;
        };
        empty = empty;
        lowest = lowest;
        buffer = update_self (after_bind s).buffers p _;
        others = λ r ne. update_ne (after_bind s).buffers p r _ ne ∙ update_ne w.buffers p r _ ne;
        contexts = refl;
        fence = refl;
        failed = refl;
        pending = refl;
        running = refl;
        writes = refl;
        steady =
            holdings_eq (holdings (final s)) (holdings w)
              (view_kept file (after_bind s).buffers p _ _ there refl
                ∙ view_kept file w.buffers p b _ exists refl)
              refl;
      }

  pub on_bind_slot-Bound :
      b.binded_slot ≡ none
      → 0 < w.free_slots
      → Returns
          (λ n w'. (n ≡ some task) × ((s : ℕ) × Bound p b s w w'))
          (on_bind_slot hw (some task) w)
  on_bind_slot-Bound unheld free = elim (get_slot-lowest locked q.slots.counted) [
    | inl (full, e) ↦ absurd (omega arith)
    | inr (s, e, empty, lowest) ↦
        rw (on_bind_slot-final s e empty) (returns (refl, (s, final-Bound s unheld empty lowest)))
  ]
