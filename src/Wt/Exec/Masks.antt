-- ===== src/Wt/Exec/Masks.antt =====
-- The masks of dicedev_wt.c as fields of a word.
use dicedev_linux_driver.Base.{ℕ, ◌-◌, ◌*◌, ◌/◌, ◌%◌, ◌^◌, ◌≡◌, ◌∙◌, ap, bit_and}
use dicedev_linux_driver.Base.Bits.{bit_and_low, bit_and_high}
use dicedev_linux_driver.Wt.Exec.{
  cmd_type_mask, get_die_slot_mask, get_die_num_mask, new_set_slot_mask,
}

-- A mask of `n` ones from bit `k` on.
bit_and_field : (n k c : ℕ) → bit_and c ((2 ^ n - 1) * 2 ^ k) ≡ c / 2 ^ k % 2 ^ n * 2 ^ k
bit_and_field n k c = bit_and_high k c (2 ^ n - 1) ∙ ap (λ x. x * 2 ^ k) (bit_and_low n (c / 2 ^ k))

pub type_field : (c : ℕ) → bit_and c cmd_type_mask ≡ c % 16
type_field c = bit_and_low 4 c

-- Bits 25 to 27.
pub get_die_slot_field : (c : ℕ) → bit_and c get_die_slot_mask ≡ c / 2 ^ 25 % 8 * 2 ^ 25
get_die_slot_field c = bit_and_field 3 25 c

-- Bits 5 to 19.
pub get_die_num_field : (c : ℕ) → bit_and c get_die_num_mask ≡ c / 32 % 2 ^ 15 * 32
get_die_num_field c = bit_and_field 15 5 c

-- Bits 5 to 7.
pub new_set_slot_field : (c : ℕ) → bit_and c new_set_slot_mask ≡ c / 32 % 8 * 32
new_set_slot_field c = bit_and_field 3 5 c
