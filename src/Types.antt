-- ===== src/Types.antt =====
-- dicedev_types.h and the structures of dicedev_pt.h: the state of one device with the contexts and
-- buffers that belong to it. A pointer is an address, a number; a table that maps an address to
-- `none` holds no object there, because it was never allocated or has been freed.
use dicedev_linux_driver.Base.{ℕ, Bool, Option, List, bit_or}
use dicedev_linux_driver.Dice.{
  intr_fence_wait, intr_feed_error, intr_cmd_error, intr_mem_error, intr_slot_error,
}

abbrev pub num_slots : ℕ
num_slots = 16

abbrev pub default_seed : ℕ
default_seed = 42

-- DICEDEV_ACTIVE_INTR
abbrev pub active_intr : ℕ
active_intr = bit_or (bit_or (bit_or intr_fence_wait intr_cmd_error) intr_mem_error) intr_slot_error

-- DICEDEV_ALL_INTR
abbrev pub all_intr : ℕ
all_intr =
    bit_or (bit_or (bit_or (bit_or intr_fence_wait intr_feed_error) intr_cmd_error) intr_mem_error)
      intr_slot_error

pub data FenceState : Type 0 where
  none waiting reached : FenceState

-- struct dicedev_page: the kernel's address of a page and the device's.
pub record Page : Type 0 where
  pub page : ℕ
  pub dma_handler : ℕ

pub record PageTable : Type 0 where
  pub pt : Page
  pub pages : List Page
  pub num_pages : ℕ
  pub max_size : ℕ

pub record Reader : Type 0 where
  pub result_count : ℕ
  pub offset : ℕ

-- struct dicedev_buffer. `binded_slot` is `none` for DICEDEV_BUFFER_NO_SLOT, and `file_refs` is the
-- number of references to `file` that the kernel counts.
pub record Buffer : Type 0 where
  pub pt : PageTable
  pub ctx : ℕ
  pub destroyed : Bool
  pub seed : ℕ
  pub seed_chg : Bool
  pub allowed : ℕ
  pub usage_count : ℕ
  pub binded_slot : Option ℕ
  pub reader : Reader
  pub file_refs : ℕ

-- struct dicedev_context. `allocated_buffers` holds the buffers' addresses, head first.
pub record Context : Type 0 where
  pub failed : Bool
  pub task_count : ℕ
  pub allocated_buffers : List ℕ

-- struct dicedev_task_write. `cmd` holds the words of the allocated array, `cmd_size` counts bytes.
pub record WriteTask : Type 0 where
  pub cmd : List ℕ
  pub cmd_size : ℕ
  pub it_offset : ℕ

pub record RunTask : Type 0 where
  pub c_buff : ℕ
  pub offset : ℕ
  pub size : ℕ
  pub curr_pg : ℕ
  pub curr_pg_no : ℕ
  pub curr_pg_off : ℕ
  pub bytes_left : ℕ

-- The tag and the union of struct dicedev_task.
pub data TaskBody : Type 0 where
  write : WriteTask → TaskBody
  run : RunTask → TaskBody

pub record Task : Type 0 where
  pub ctx : ℕ
  pub result_count : ℕ
  pub buff_out : ℕ
  pub body : TaskBody

-- The memory that dma_alloc_coherent gives out: the words of each page, and whether it is allocated.
pub record Dma : Type 0 where
  pub mem : ℕ → ℕ → ℕ
  pub live : ℕ → Bool
  pub overrun : Bool

-- struct dicedev_device, with the objects that point to it. `writes` logs iowrite32, the latest
-- write first, and `installed` fd_install, as the descriptor and the buffer whose file it gets.
pub record World : Type 0 where
  pub writes : List (ℕ × ℕ)
  pub slock : Bool
  pub feed_lock : Bool
  pub fence_state : FenceState
  pub failed : Bool
  pub buff_slots : List (Option ℕ)
  pub free_slots : ℕ
  pub pending_tasks : List Task
  pub running_task : Option Task
  pub buffers : ℕ → Option Buffer
  pub contexts : ℕ → Option Context
  pub installed : List (ℕ × ℕ)
  pub dma : Dma
