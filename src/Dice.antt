-- ===== src/Dice.antt =====
-- dicedev.h: the registers, the interrupt bits, the command words and the macros that build them.
-- A `uint32_t` is a number below 2 ^ 32; what C stores into one is cut by `u32`.
use dicedev_linux_driver.Base.{ℕ, ◌+◌, ◌-◌, ◌*◌, ◌/◌, ◌%◌, ◌^◌, bit_or}

abbrev pub u32 : ℕ → ℕ
u32 n = n % 2 ^ 32

-- size_t and uint64_t
abbrev pub u64 : ℕ → ℕ
u64 n = n % 2 ^ 64

-- a - b on size_t, which wraps.
abbrev pub sub64 : ℕ → ℕ → ℕ
sub64 a b = (a + 2 ^ 64 - b) % 2 ^ 64

infixl 70 ◌<<◌ ◌>>>◌
abbrev pub ◌<<◌ : ℕ → ℕ → ℕ
x << k = x * 2 ^ k

abbrev pub ◌>>>◌ : ℕ → ℕ → ℕ
x >>> k = x / 2 ^ k

abbrev pub intr : ℕ
intr = 0x0000

abbrev pub intr_enable : ℕ
intr_enable = 0x0004

abbrev pub enable : ℕ
enable = 0x0008

abbrev pub increment_seed : ℕ
increment_seed = 0x000c

abbrev pub cmd_manual_feed : ℕ
cmd_manual_feed = 0x008c

abbrev pub cmd_manual_free : ℕ
cmd_manual_free = 0x0094

abbrev pub cmd_fence_last : ℕ
cmd_fence_last = 0x009c

abbrev pub cmd_fence_wait : ℕ
cmd_fence_wait = 0x00a4

abbrev pub intr_fence_wait : ℕ
intr_fence_wait = 0x1

abbrev pub intr_feed_error : ℕ
intr_feed_error = 0x2

abbrev pub intr_cmd_error : ℕ
intr_cmd_error = 0x4

abbrev pub intr_mem_error : ℕ
intr_mem_error = 0x8

abbrev pub intr_slot_error : ℕ
intr_slot_error = 0x10

abbrev pub page_size : ℕ
page_size = 0x1000

abbrev pub cmd_type_nop : ℕ
cmd_type_nop = 0x0

abbrev pub cmd_type_bind_slot : ℕ
cmd_type_bind_slot = 0x1

abbrev pub cmd_type_get_die : ℕ
cmd_type_get_die = 0x2

abbrev pub cmd_type_fence : ℕ
cmd_type_fence = 0x3

abbrev pub cmd_type_new_set : ℕ
cmd_type_new_set = 0x4

abbrev pub cmd_type_unbind_slot : ℕ
cmd_type_unbind_slot = 0x5

-- DICEDEV_USER_CMD_BIND_SLOT_HEADER(SLOT, SEED)
abbrev pub bind_slot_header : ℕ → ℕ → ℕ
bind_slot_header slot seed = bit_or (bit_or cmd_type_bind_slot (slot << 4)) (seed << 12)

-- DICEDEV_USER_CMD_FENCE_HEADER(NUM)
abbrev pub fence_header : ℕ → ℕ
fence_header num = bit_or cmd_type_fence (num << 4)

-- DICEDEV_USER_CMD_UNBIND_SLOT_HEADER(SLOT)
abbrev pub unbind_slot_header : ℕ → ℕ
unbind_slot_header slot = bit_or cmd_type_unbind_slot (slot << 4)
