-- ===== src/System/Safety/Calls.antt =====
-- All calls of the driver by the thread, the device, users and the kernel, in a state that
-- System.Steps reach.
use dicedev_linux_driver.Base.{ℕ, ◌≡◌, Bool, Option, none, some, List, leb, get_elem?}
use dicedev_linux_driver.Types.{World, Buffer, Context, Page, Task}
use dicedev_linux_driver.Monad.{Run, pure}
use dicedev_linux_driver.Monad.Safe.{Safe, goes_on, stops, either_Safe}
use dicedev_linux_driver.Utils.{Hw, Responsive}
use dicedev_linux_driver.Wt.Thread.{wt_turn}
use dicedev_linux_driver.Buffer.{
  dicedev_buffer_write, dicedev_buffer_read, dicedev_buffer_ioctl, dicedev_buffer_release,
}
use dicedev_linux_driver.Buffer.Area.{Vma, VmFault, map_page, dicedev_buffer_vm_fault}
use dicedev_linux_driver.Chardev.{dicedev_isr, release_mark, release_rest}
use dicedev_linux_driver.Chardev.Dispatch.{IoctlArg, dicedev_ioctl}
use dicedev_linux_driver.System.Step.{Sound}
use dicedev_linux_driver.System.Steps.{Steps, Steps-Sound}
use dicedev_linux_driver.System.Safety.{wt_turn-Safe, isr-Safe}
use dicedev_linux_driver.System.Safety.Files.{
  buffer_write-Safe, buffer_read-Safe, buffer_ioctl-Safe, buffer_release-Safe,
}
use dicedev_linux_driver.System.Safety.Ioctls.{OpenRun, ioctl-Safe}
use dicedev_linux_driver.System.Safety.Release.{release_mark-Safe, release_rest-Safe}

-- The calls that can come in a state, with the task that the thread has taken. A user has a file or
-- an area of a buffer or a file of a context only while that is there.
pub data Call (hw : Hw) (n : Option Task) (w : World) : (A : Type 0) → Run A → Type 1 where
  turn : (should_stop should_park : Bool) → Call hw n w _ (wt_turn hw should_stop should_park n w)
  interrupt : Call hw n w _ (dicedev_isr hw w)
  write :
      {b : Buffer} (p count : ℕ) (cmd_ok : Bool) (copied : Option (List ℕ)) (task_ok : Bool)
      → w.buffers p ≡ some b
      → Call hw n w _ (dicedev_buffer_write p count cmd_ok copied task_ok w)
  read :
      {b : Buffer} (p count : ℕ) (copy_ok : Bool)
      → w.buffers p ≡ some b
      → Call hw n w _ (dicedev_buffer_read p count copy_ok w)
  seed :
      {b : Buffer} (p cmd : ℕ) (copied : Option ℕ)
      → w.buffers p ≡ some b
      → Call hw n w _ (dicedev_buffer_ioctl p cmd copied w)
  page :
      {b : Buffer} (p : ℕ) (vma : Vma) (pgoff : ℕ)
      → vma.vm_private_data ≡ some p
      → w.buffers p ≡ some b
      → Call hw n w _ (dicedev_buffer_vm_fault vma pgoff w)
  last_close :
      {b : Buffer} (p : ℕ) → w.buffers p ≡ some b → Call hw n w _ (dicedev_buffer_release hw p w)
  -- The address of a buffer that comes in is not in use.
  ioctl :
      {c : Context} (ctx cmd : ℕ) (a : IoctlArg)
      → w.contexts ctx ≡ some c
      → ((p : ℕ) → a.new_set.buff ≡ some p → w.buffers p ≡ none)
      → OpenRun w a.run
      → Call hw n w _ (dicedev_ioctl hw ctx cmd a w)
  mark : {c : Context} (ctx : ℕ) → w.contexts ctx ≡ some c → Call hw n w _ (release_mark ctx w)
  close : {c : Context} (ctx : ℕ) → w.contexts ctx ≡ some c → Call hw n w _ (release_rest hw ctx w)

map_page-Safe : (o : Option Page) (w : World) → Safe (map_page o w)
map_page-Safe none w = stops tt
map_page-Safe (some p) w = goes_on

vm_fault-Safe :
    (w : World) (p : ℕ) (b : Buffer) (vma : Vma) (pgoff : ℕ)
    → vma.vm_private_data ≡ some p
    → w.buffers p ≡ some b
    → Safe (dicedev_buffer_vm_fault vma pgoff w)
unfolding dicedev_buffer_vm_fault
vm_fault-Safe w p b vma pgoff mapped there =
    rw (mapped, there)
      (either_Safe (leb b.pt.num_pages pgoff) (pure VmFault.sigbus)
        (map_page (get_elem? b.pt.pages pgoff)) w goes_on (map_page-Safe _ w))

module _ (hw : Hw) (drains : Responsive hw) (n : Option Task) (w : World) (s : Sound n w) where
  Call-Safe : (A : Type 0) (r : Run A) → Call hw n w A r → Safe r
  Call-Safe A r (Call.turn stop park) = wt_turn-Safe hw drains n w s.working s.owned stop park
  Call-Safe A r Call.interrupt = isr-Safe hw drains w n s.working
  Call-Safe A r (Call.write {b} p count cmd_ok copied task_ok there) =
      buffer_write-Safe n w s p b there count cmd_ok copied task_ok
  Call-Safe A r (Call.read {b} p count copy_ok there) =
      buffer_read-Safe n w s p b there count copy_ok
  Call-Safe A r (Call.seed {b} p cmd copied there) = buffer_ioctl-Safe n w s p b there cmd copied
  Call-Safe A r (Call.page {b} p vma pgoff mapped there) =
      vm_fault-Safe w p b vma pgoff mapped there
  Call-Safe A r (Call.last_close {b} p there) = buffer_release-Safe n w s p b there hw drains
  Call-Safe A r (Call.ioctl {c} ctx cmd a known fresh opened) =
      ioctl-Safe hw ctx w s.working.quiet.unlocked c known cmd a fresh opened
  Call-Safe A r (Call.mark {c} ctx known) = release_mark-Safe hw drains n w s ctx c known
  Call-Safe A r (Call.close {c} ctx known) = release_rest-Safe hw drains n w s ctx c known

module _ (hw : Hw) (drains : Responsive hw) where
  -- In a state that such a sequence reaches from one with
  -- the invariant of the driver: a turn of the thread, an interrupt, a write, read, ioctl, page
  -- fault or last close of a buffer that is there, an ioctl of a context that is there, whose
  -- descriptors may lead to files of buffers that are there, to others and to none, and either
  -- part of the release of a context that is there, follow no pointer to a buffer or context that
  -- is gone, and take no lock that they hold. They return, sleep or end in another fault. A
  -- buffer that an ioctl creates gets an address that is not in use. The queue of the device
  -- drains; new contexts and buffers get addresses that are not in use, that of a context also
  -- not as the context of a buffer; a context that is closed has fewer than 2 ^ 64 tasks, and all
  -- its buffers have been marked as destroyed; a user who shares or gives back a reference to a
  -- file has one beside the context's own, and fewer than 2 ^ 64 - 1 are counted; and the last
  -- close comes when none is left.
  pub Steps-Safe :
      {A : Type 0} {r : Run A} (n : Option Task) (w : World) (n' : Option Task) (w' : World)
      → Sound n w
      → Steps hw n w n' w'
      → Call hw n' w' A r
      → Safe r
  Steps-Safe {A} {r} n w n' w' s steps call =
      Call-Safe hw drains n' w' (Steps-Sound hw drains n w n' w' s steps) A r call
