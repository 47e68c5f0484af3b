-- ===== src/Buffer/Read.antt =====
-- dicedev_buffer_read of dicedev_buffer.c, for the size of one struct dice.
use dicedev_linux_driver.Base.{
  ℕ, ◌+◌, ◌*◌, ◌/◌, ◌%◌, ◌^◌, ◌<◌, ◌≡◌, Bool, true, false, none, some, arith, update, get_elem?,
  ltb, if◌then◌else◌,
}
use dicedev_linux_driver.Types.{World, Buffer, Context, Page}
use dicedev_linux_driver.Monad.{ok, blocked}
use dicedev_linux_driver.Pt.{Ret}
use dicedev_linux_driver.Buffer.{Dice, dice_per_page, dicedev_buffer_read}

-- The dice number `i` of a page.
abbrev pub dice_at : World → Page → ℕ → Dice
dice_at w page i = record {
  value = w.dma.mem page.page (2 * i);
  type = w.dma.mem page.page (2 * i + 1);
}

abbrev pub advanced : World → ℕ → Buffer → World
advanced w p b = record w {
  slock = false;
  buffers =
      update w.buffers p
        (some (record b { reader = record b.reader { offset = b.reader.offset + 1 } }));
}

module _ (p : ℕ) (w : World) (b : Buffer) (unlocked : w.slock ≡ false)
    (exists : w.buffers p ≡ some b) where
  -- A read with results left gives the dice at the offset and moves the offset on.
  pub buffer_read-next :
      (page : Page)
      → b.reader.offset < b.reader.result_count
      → b.reader.result_count < 2 ^ 64
      → b.reader.offset / dice_per_page < b.pt.num_pages
      → get_elem? b.pt.pages (b.reader.offset / dice_per_page) ≡ some page
      → dicedev_buffer_read p 8 true w
        ≡ ok (Ret.ok (some (dice_at w page (b.reader.offset % dice_per_page)))) (advanced w p b)
  unfolding dicedev_buffer_read
  buffer_read-next page left small inside there = ground (arith, unlocked, exists, there)

  -- With the lock free, no result left, the count below 2 ^ 64 and the context there, a read of 8
  -- bytes gives none if the buffer is destroyed or its context has no task, and sleeps otherwise.
  pub buffer_read-empty :
      (c : Context) (copy_ok : Bool)
      → b.reader.offset ≡ b.reader.result_count
      → b.reader.result_count < 2 ^ 64
      → w.contexts b.ctx ≡ some c
      → dicedev_buffer_read p 8 copy_ok w ≡ (
          if b.destroyed
          then ok (Ret.ok none) (record w { slock = false })
          else if ltb 0 c.task_count
          then blocked
          else ok (Ret.ok none) (record w { slock = false }))
  unfolding dicedev_buffer_read
  buffer_read-empty c copy_ok none_left small known = ground (arith, unlocked, exists, known)
