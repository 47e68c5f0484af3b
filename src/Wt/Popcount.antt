-- ===== src/Wt/Popcount.antt =====
-- numbers_of_bits_set of dicedev_wt.c.
pub mod Bytes
pub mod Count
use dicedev_linux_driver.Base.{ℕ, ◌+◌, ◌-◌, ◌*◌, ◌^◌, bit_and}
use dicedev_linux_driver.Dice.{u32, ◌>>>◌}

-- The three sums of neighbours, and the sum of the four bytes. Every operation is on uint32_t.
abbrev pub pairs : ℕ → ℕ
pairs i = u32 (i + 2 ^ 32 - bit_and (i >>> 1) 0x55555555)

abbrev pub quads : ℕ → ℕ
quads i = u32 (bit_and i 0x33333333 + bit_and (i >>> 2) 0x33333333)

abbrev pub groups : ℕ → ℕ
groups i = bit_and (u32 (i + (i >>> 4))) 0x0F0F0F0F

unfoldable pub numbers_of_bits_set : ℕ → ℕ
numbers_of_bits_set i = u32 (groups (quads (pairs i)) * 0x01010101) >>> 24
