-- ===== src/Examples.antt =====
-- A device with two buffers, and the theorems at it.
mod Exec
mod Thread
mod Memory
mod Files
mod Order
mod Plug
use dicedev_linux_driver.Base.{
  ℕ, zero, suc, ◌≡◌, refl, ◌≢◌, Bool, true, false, Option, none, some, List, [], ◌∷◌, ◌==◌, arith,
  all_none, replicate, get_elem?, if◌then◌else◌,
}
use dicedev_linux_driver.Types.{World, Page, PageTable, Buffer, Context, FenceState, Task, TaskBody}
use dicedev_linux_driver.Utils.{Hw, Responsive}
use dicedev_linux_driver.Utils.Slots.{SlotsAgree, bound, bound-SlotsAgree}
use dicedev_linux_driver.Wt.Exec.Program.{Command, encode}
use dicedev_linux_driver.Wt.Thread.Events.{Quiet}

-- Every register reads 1.
abbrev pub ready_hw : Hw
ready_hw = record { read = λ log reg i. 1; polls = 1 }

pub ready_hw-Responsive : Responsive ready_hw
ready_hw-Responsive log = (0, omega arith, λ e. cc)

abbrev pub first_page : Page
first_page = record { page = 7; dma_handler = 0x7000 }

abbrev pub table : PageTable
table = record {
  pt = record { page = 5; dma_handler = 0x5000 };
  pages = first_page ∷ record { page = 8; dma_handler = 0x8000 } ∷ [];
  num_pages = 2;
  max_size = 8192;
}

-- The buffers have the addresses 1 and 2, their context 3.
abbrev pub loose : Buffer
loose = record {
  pt = table;
  ctx = 3;
  destroyed = false;
  seed = 42;
  seed_chg = false;
  allowed = 0x3F;
  usage_count = 0;
  binded_slot = none;
  reader = record { result_count = 0; offset = 0 };
  file_refs = 2;
}

abbrev pub held : Buffer
held = record loose { binded_slot = some 0; usage_count = 1 }

abbrev pub ctx : Context
ctx = record { failed = false; task_count = 1; allocated_buffers = 2 ∷ 1 ∷ [] }

abbrev pub program : List Command
program = Command.get_die 2 1 0x3 ∷ Command.new_set ∷ Command.nop ∷ []

abbrev pub roll : Task
roll = record {
  ctx = 3;
  result_count = 0;
  buff_out = 1;
  body = TaskBody.write (record { cmd = encode program; cmd_size = 16; it_offset = 0 });
}

-- All slots are free.
abbrev empty : World
empty = record {
  writes = [];
  slock = false;
  feed_lock = false;
  fence_state = FenceState.none;
  failed = false;
  buff_slots = replicate 16 none;
  free_slots = 16;
  pending_tasks = [];
  running_task = none;
  buffers = λ p. if p == 1 then some loose else if p == 2 then some loose else none;
  contexts = λ p. if p == 3 then some ctx else none;
  installed = [];
  dma = record { mem = λ p i. i; live = λ p. false; overrun = false };
}

empty-SlotsAgree : SlotsAgree empty
empty-SlotsAgree = record {
  size = refl;
  counted = refl;
  owner = λ s p h. absurd (all_none 16 s p h);
  held = λ p s b h g. absurd (ground arith);
}

-- The first buffer has slot 0.
abbrev pub world : World
world = bound empty 1 loose 0

pub world-SlotsAgree : SlotsAgree world
world-SlotsAgree = bound-SlotsAgree empty 1 loose 0 empty-SlotsAgree refl refl refl

pub world-Quiet : Quiet world
world-Quiet = record { unlocked = refl; idle = refl; slots = world-SlotsAgree }
