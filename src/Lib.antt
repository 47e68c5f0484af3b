-- ===== src/Lib.antt =====
-- The Linux driver of the dicedev device, file by file.
--
-- The program. A process opens the character device and gets a context (dicedev_base.c). It
-- creates buffers, each a file of its own with a page table that the device reads
-- (dicedev_buffer.c, dicedev_pt.c). A write to a buffer, or a run command on a buffer that holds
-- commands, queues a task. A kernel thread (dicedev_wt.c) takes the tasks one at a time, binds the
-- output buffer to one of the 16 slots of the device (dicedev_utils.c), checks each command, fills
-- in the slot, feeds it through a register, and sets a fence. The interrupt handler
-- (dicedev_base.c) reports the fence and errors, the thread then accounts the results, which reads
-- of the buffer give to the user.
--
-- The files.
--   Dice      dicedev.h: registers, interrupt bits, commands, sizes
--   Types     dicedev_types.h and the structs of dicedev_pt.h: World is the state of a device
--             (struct dicedev_device) with the buffers and contexts that point to it
--   Holdings  who holds a buffer: the list of its context, the references to its file, and the tasks;
--             Holdings.Passes are the steps in which this changes
--   Monad     commands over World that return, sleep, or run into a fault
--   Pt        dicedev_pt.c: dicedev_pt_init, dicedev_pt_free, page_init, page_free
--   Utils     dicedev_utils.c: feed_cmd, get_slot, bind_slot, unbind_slot, restart_device
--   Wt.Task   dicedev_wt.c: dicedev_task_get_next_word, dicedev_task_init_it
--   Wt.Popcount  dicedev_wt.c: numbers_of_bits_set
--   Wt.Exec   dicedev_wt.c: __wt_run_task; Wt.Exec.Plan is its specification on a list of words
--   Wt.Thread dicedev_wt.c: __wt_get_event, __task_destroy and the cases of dicedev_wt_fn; and
--             dicedev_buffer_init_reader of dicedev_buffer.c
--   Buffer    dicedev_buffer.c: write, read, ioctl, release, init, destroy, get_fd; Buffer.Area is
--             mmap and vm_fault
--   Chardev   dicedev_base.c: open, release, the ioctls, and the interrupt handler
--   Host      what the kernel holds for a device while it is probed and removed
--   Pci       dicedev_base.c: dicedev_probe, dicedev_remove, dicedev_suspend, dicedev_resume,
--             dicedev_init and dicedev_exit
--   System    the thread, interrupts and calls of users together, as sequences of steps;
--             System.Queue is the line of tasks that they implement, System.Safety is about what the
--             calls follow, System.Ending about the thread when it is left alone,
--             System.Courses about all that can happen, opens at a reused address included
--   Examples  a device with two buffers, at which the theorems are applied
-- The modules below each of these hold the lemmas about it; Base holds what all of them share.
--
-- How the code is read.
--   * A pointer is a number. A table that gives none at an address has no object there, and a
--     command that follows such a pointer is a fault (freed). One device is modelled, so
--     the pointers to it are left out, and a context that is followed only for its device is not looked
--     up.
--   * Calls of the kernel that can fail, and what they give, are arguments: the allocations, the
--     copies from and to the user, the file and the descriptor. Hw is the device behind the
--     registers: what a read gives depends on the log of the writes. The driver's writes are that
--     log, the latest first.
--   * slock and feed_lock are flags of World. Taking one that is held is the fault deadlock: the
--     theorems are on a thread that holds what it has taken. System.Steps lets turns of the thread,
--     interrupts, stores in pages, opens, closes, writes, reads and ioctls follow each other in any order, each as a
--     whole, a close in two parts; what happens between two critical sections of another handler is
--     not modelled. fput only counts a reference less: the last close of a buffer, which the kernel
--     calls later, is a step of its own. dup, fork and mmap share a reference, close, exit and munmap
--     give it back.
--   * BUG_ON, a null pointer and an index past the end of an array are faults. So is the
--     end of an array of words: what lies behind it is never read as a word. In Pt the loops note an
--     entry behind the page of the table in Dma.overrun, and nothing is said of a state with it.
--   * What kthread_run gives is not tested: its error is a worker that is not there, and kthread_stop
--     on it is a fault (null_pointer).
--   * wait_event_interruptible is `blocked`: the handler is asked again in a later state.
--   * size_t and uint32_t wrap where the source can reach the bound; a pointer is never wrapped.
--   * In Host, what a call of the kernel gives is a flag of Held, which the call that gives it back
--     clears. A register can be written only while the flag of its BAR is set, and the structure of
--     the device can be followed only while that of its memory is.
-- Fuel. The busy wait of feed_cmd is given Hw.polls rounds, and Responsive says that within these
-- the queue drains. The loop of __wt_run_task is given one round for each word that its iterator
-- can read and two more, which is enough, since each round reads a word. The loop of dicedev_wt_fn
-- (wt_turns) is given a number of turns; more turns than Wt.Thread.Turn.Progress.work are enough.
--
-- Not modelled: the wait queues and wakeups; what a user or the device stores in the pages of a
-- buffer within a call, though it may come between any two steps of System.Steps; the lock and the free of kernel memory other than buffers, contexts,
-- pages and devices; the tests in z3-tst, which are programs of users.
pub mod Base
pub mod Dice
pub mod Types
pub mod Holdings
pub mod Monad
pub mod Pt
pub mod Utils
pub mod Wt
pub mod Buffer
pub mod Chardev
pub mod Host
pub mod Pci
pub mod System
pub mod Examples
