-- ===== src/Utils.antt =====
-- dicedev_utils.c: access to the registers, feeding of commands, and the slots.
pub mod Feed
pub mod Slots
pub mod Binding
use dicedev_linux_driver.Base.{
  ℕ, zero, suc, ◌+◌, ◌*◌, ◌/◌, ◌%◌, ◌^◌, ◌<◌, ◌≢◌, Bool, true, false, Option, none, some, List, [],
  ◌∷◌, ◌==◌, ltb, if◌then◌else◌, get_elem?, set,
}
use dicedev_linux_driver.Dice.{
  u32, u64, sub64, ◌>>>◌, intr, intr_enable, enable, cmd_manual_feed, cmd_manual_free,
  bind_slot_header, unbind_slot_header,
}
use dicedev_linux_driver.Types.{World, Buffer, active_intr}
use dicedev_linux_driver.Monad.{
  M, Fault, ok, fault, fail, pure, ◌>>=◌, ◌>>◌, modify, gets, feed_lock, feed_unlock, get_buffer,
  put_buffer,
}

-- The device behind the registers: `read log reg i` is what the (i+1)-th read of `reg` since the
-- last of the writes `log` gives. `polls` bounds the rounds of the busy wait in `feed_cmd`.
pub record Hw : Type 0 where
  pub read : List (ℕ × ℕ) → ℕ → ℕ → ℕ
  pub polls : ℕ

-- The command queue always drains: within `polls` reads the free count is not 0.
abbrev pub Responsive : Hw → Type 0
Responsive hw =
    (log : List (ℕ × ℕ)) → (i : ℕ) × (i < hw.polls) × (hw.read log cmd_manual_free i ≢ 0)

unfoldable pub dicedev_iow : ℕ → ℕ → M (Unit {0})
dicedev_iow reg val w = ok tt (record w { writes = (reg, val) ∷ w.writes })

module _ (hw : Hw) where
  unfoldable pub dicedev_ior : ℕ → M ℕ
  dicedev_ior reg w = ok (hw.read w.writes reg 0) w

  -- The busy wait, from the read number `i` on.
  wait_free : ℕ → ℕ → M (Unit {0})
  wait_free zero i w = fault Fault.no_fuel
  wait_free (suc rounds) i w = elim (hw.read w.writes cmd_manual_free i == 0) [
    | true ↦ wait_free rounds (i + 1) w
    | false ↦ ok tt w
  ]

  feed_words : List ℕ → M (Unit {0})
  feed_words [] = pure tt
  feed_words (c ∷ cs) = do wait_free hw.polls 0; dicedev_iow cmd_manual_feed c; feed_words cs

  unfoldable pub feed_cmd : List ℕ → M (Unit {0})
  unfolding feed_words wait_free dicedev_iow
  feed_cmd cs = do feed_lock; feed_words cs; feed_unlock

-- The scan of `get_slot`, from slot `i` on.
unfoldable pub first_null : ℕ → List (Option ℕ) → Option ℕ
first_null i [] = none
first_null i (none ∷ slots) = some i
first_null i (some b ∷ slots) = first_null (i + 1) slots

-- `none` is the slot -1.
unfoldable pub get_slot : World → Option ℕ
get_slot w = if ltb 0 w.free_slots then first_null 0 w.buff_slots else none

-- BUG_ON(dev->buff_slots[slot] != NULL)
abbrev pub check_null : Option (Option ℕ) → M (Unit {0})
check_null none = fail Fault.out_of_bounds
check_null (some (some b)) = fail Fault.bug_on
check_null (some none) = pure tt

-- The four words that bind a buffer to a slot.
unfoldable pub bind_words : ℕ → Buffer → List ℕ
bind_words slot b =
    u32 (bind_slot_header slot b.seed)
    ∷ b.allowed
    ∷ u32 b.pt.pt.dma_handler
    ∷ u32 (b.pt.pt.dma_handler >>> 32)
    ∷ []

module _ (hw : Hw) where
  bind_slot_at : ℕ → ℕ → M (Unit {0})
  bind_slot_at p slot = do
    entry ← gets (λ w. get_elem? w.buff_slots slot)
    check_null entry
    modify (λ w. record w {
      free_slots = sub64 w.free_slots 1;
      buff_slots = set w.buff_slots slot (some p);
    })
    b ← get_buffer p
    put_buffer p (record b { binded_slot = some slot; usage_count = 1 })
    feed_cmd hw (bind_words slot b)

  -- Slot -1 is outside of the array.
  unfoldable pub bind_slot : ℕ → Option ℕ → M (Unit {0})
  unfolding bind_slot_at
  bind_slot p none = fail Fault.out_of_bounds
  bind_slot p (some slot) = bind_slot_at p slot

  unbind_slot_of : ℕ → Buffer → Option ℕ → M (Unit {0})
  unbind_slot_of p b none = fail Fault.bug_on
  unbind_slot_of p b (some slot) = do
    modify (λ w. record w { buff_slots = set w.buff_slots slot none })
    put_buffer p (record b { binded_slot = none; usage_count = 0 })
    modify (λ w. record w { free_slots = u64 (w.free_slots + 1) })
    feed_cmd hw (unbind_slot_header slot ∷ [])

  unfoldable pub unbind_slot : ℕ → M (Unit {0})
  unfolding unbind_slot_of
  unbind_slot p = do b ← get_buffer p; unbind_slot_of p b b.binded_slot

unfoldable pub restart_device : M (Unit {0})
unfolding dicedev_iow
restart_device = do
  dicedev_iow enable 0
  dicedev_iow intr_enable 0
  dicedev_iow intr active_intr
  dicedev_iow intr_enable active_intr
  dicedev_iow enable 1
