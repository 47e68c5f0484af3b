-- ===== src/Wt/Exec/Slot.antt =====
-- Which slot a command addresses once __wt_run_task has put the slot of the output buffer in. The
-- slot field has four bits, and the masks of the check leave out its lowest.
use dicedev_linux_driver.Base.{
  ℕ, zero, suc, ◌+◌, ◌-◌, ◌*◌, ◌/◌, ◌%◌, ◌^◌, ◌<◌, ◌≡◌, ◌∙◌, ap, false, arith, bit_or,
}
use dicedev_linux_driver.Base.Bits.{bit_or-div, bit_or-mod, bit_or_lowest, zero-bit_or}
use dicedev_linux_driver.Dice.{u32, ◌<<◌}
use dicedev_linux_driver.Wt.Exec.Plan.{set_refused, die_refused}
use dicedev_linux_driver.Wt.Exec.Masks.{get_die_slot_field, new_set_slot_field}

-- The slot field of a command that has it from bit `k` on.
abbrev pub slot_field : ℕ → ℕ → ℕ
slot_field k c = c / 2 ^ k % 16

-- A slot of which the user has set the lowest bit, too.
bit_or_low_bit : (u slot : ℕ) → u < 2 → bit_or u slot ≡ slot + u * (1 - slot % 2)
bit_or_low_bit zero slot h = ground (arith, zero-bit_or slot)
bit_or_low_bit (suc zero) slot h = ground (arith, bit_or_lowest 1 slot, zero-bit_or (slot / 2))
bit_or_low_bit (suc (suc u)) slot h = absurd (omega arith)

-- The field holds the disjunction of the user's bits and the slot.
slot_field-bit_or :
    (k c slot : ℕ)
    → slot << k / 2 ^ k % 16 ≡ slot
    → slot_field k (bit_or c (slot << k)) ≡ bit_or (slot_field k c) slot
slot_field-bit_or k c slot e =
    ap (λ x. x % 16) (bit_or-div k c (slot << k))
    ∙ bit_or-mod 4 (c / 2 ^ k) (slot << k / 2 ^ k)
    ∙ ap (bit_or (slot_field k c)) e

module _ (c slot : ℕ) (small : slot < 16) where
  pub new_set_slot :
      set_refused c ≡ false
      → slot_field 4 (u32 (bit_or c (slot << 4))) ≡ slot + c / 16 % 2 * (1 - slot % 2)
  new_set_slot accepted = ground (
    arith,
    new_set_slot_field c,
    slot_field-bit_or 4 c slot (omega arith),
    bit_or_low_bit (slot_field 4 c) slot,
  )

  pub get_die_slot :
      (allowed c1 : ℕ)
      → die_refused allowed c c1 ≡ false
      → slot_field 24 (u32 (bit_or c (slot << 24))) ≡ slot + c / 2 ^ 24 % 2 * (1 - slot % 2)
  get_die_slot allowed c1 accepted = ground (
    arith,
    get_die_slot_field c,
    slot_field-bit_or 24 c slot (omega arith),
    bit_or_low_bit (slot_field 24 c) slot,
  )
