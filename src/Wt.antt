-- ===== src/Wt.antt =====
-- dicedev_wt.c: the work thread that sends the tasks to the device, one at a time.
pub mod Task
pub mod Popcount
pub mod Exec
pub mod Thread
