-- ===== src/Buffer/Sequence.antt =====
-- Reads of a buffer by dicedev_buffer_read of dicedev_buffer.c, one after the other.
use dicedev_linux_driver.Base.{
  ℕ, zero, suc, ◌+◌, ◌*◌, ◌/◌, ◌%◌, ◌^◌, ◌<◌, ◌≤◌, ◌≡◌, ◌≢◌, refl, ◌∙◌, ap, true, false, Option,
  some, List, [], ◌∷◌, arith, get_elem?, update_self, update_ne,
}
use dicedev_linux_driver.Types.{World, Buffer, Page, Dma}
use dicedev_linux_driver.Monad.{M, pure, ◌>>=◌, Returns, returns, bind}
use dicedev_linux_driver.Pt.{Ret, page_at}
use dicedev_linux_driver.Buffer.{Dice, dice_per_page, dicedev_buffer_read}
use dicedev_linux_driver.Buffer.Read.{advanced, buffer_read-next}
use dicedev_linux_driver.Buffer.Bounds.{Full}

-- `n` reads of one dice each.
pub reads : ℕ → ℕ → M (List (Ret (Option Dice)))
reads p zero = pure []
reads p (suc n) = do r ← dicedev_buffer_read p 8 true; rest ← reads p n; pure (r ∷ rest)

abbrev pub dice_of : Dma → Page → ℕ → Dice
dice_of dma page i = record {
  value = dma.mem page.page (2 * i);
  type = dma.mem page.page (2 * i + 1);
}

-- The `n` dice from number `i` on, through the pages of a buffer.
abbrev pub dice_from : Dma → List Page → ℕ → ℕ → List (Ret (Option Dice))
dice_from dma pages i zero = []
dice_from dma pages i (suc n) =
    Ret.ok (some (dice_of dma (page_at pages (i / dice_per_page)) (i % dice_per_page)))
    ∷ dice_from dma pages (i + 1) n

abbrev pub moved_on : Buffer → ℕ → Buffer
moved_on b i = record b { reader = record b.reader { offset = i } }

-- What `n` reads give and leave.
pub record ReadOn (p : ℕ) (b : Buffer) (n : ℕ) (w : World) (rs : List (Ret (Option Dice)))
    (w' : World) : Type 0 where
  pub dice : rs ≡ dice_from w.dma b.pt.pages b.reader.offset n
  pub buffer : w'.buffers p ≡ some (moved_on b (b.reader.offset + n))
  pub others : (q : ℕ) → p ≢ q → w'.buffers q ≡ w.buffers q
  pub memory : w'.dma ≡ w.dma
  pub unlocked : w'.slock ≡ false

on_page :
    (b : Buffer) (i : ℕ)
    → Full b.pt
    → i / dice_per_page < b.pt.num_pages
    → get_elem? b.pt.pages (i / dice_per_page) ≡ some (page_at b.pt.pages (i / dice_per_page))
on_page b i full inside = let (page, at) = full (i / dice_per_page) inside in rw at refl

-- One read, then `n` more.
next_read :
    (n p : ℕ) (w : World) (b : Buffer) (rs : List (Ret (Option Dice))) (w' : World)
    → ReadOn p (moved_on b (b.reader.offset + 1)) n (advanced w p b) rs w'
    → ReadOn p b
        (suc n)
        w
        (Ret.ok (
            some (
              dice_of w.dma
                (page_at b.pt.pages (b.reader.offset / dice_per_page))
                (b.reader.offset % dice_per_page)))
          ∷ rs)
        w'
next_read n p w b rs w' h =
    let z : b.reader.offset + 1 + n ≡ b.reader.offset + suc n = omega arith in
    record {
      dice =
          ap
            (λ (t : List (Ret (Option Dice))).
              Ret.ok (
                some (
                  dice_of w.dma (page_at b.pt.pages (b.reader.offset / dice_per_page))
                    (b.reader.offset % dice_per_page)))
              ∷ t)
            h.dice;
      buffer = h.buffer ∙ ap (λ o. some (moved_on b o)) z;
      others = λ q ne.
          h.others q ne ∙ update_ne w.buffers p q (some (moved_on b (b.reader.offset + 1))) ne;
      memory = h.memory;
      unlocked = h.unlocked;
    }

-- With the lock free, every page that the table counts there, at least n results left, and their
-- count below 2 ^ 64 and on the pages of the buffer: n reads of 8 bytes in a row, whose copies to
-- the user succeed, return the next n dice in order, through all the pages, and move the offset on
-- by n; the memory and the other buffers are as they were and the lock is free.
pub reads-ReadOn :
    (n p : ℕ) (w : World) (b : Buffer)
    → w.slock ≡ false
    → w.buffers p ≡ some b
    → Full b.pt
    → b.reader.offset + n ≤ b.reader.result_count
    → b.reader.result_count < 2 ^ 64
    → b.reader.result_count ≤ b.pt.num_pages * dice_per_page
    → Returns (ReadOn p b n w) (reads p n w)
unfolding reads
reads-ReadOn zero p w b unlocked there full left small room = returns (record {
  dice = refl;
  buffer = let z : b.reader.offset + 0 ≡ b.reader.offset = omega arith in rw z there;
  others = λ q ne. refl;
  memory = refl;
  unlocked = unlocked;
})
reads-ReadOn (suc n) p w b unlocked there full left small room =
    rw
      (buffer_read-next p w b unlocked there (page_at b.pt.pages (b.reader.offset / dice_per_page))
        (omega arith) small (omega arith) (on_page b b.reader.offset full (omega arith)))
      (bind
        (reads-ReadOn n p (advanced w p b) (moved_on b (b.reader.offset + 1)) refl
          (update_self w.buffers p (some (moved_on b (b.reader.offset + 1)))) full (omega arith)
          small room)
        λ rs w' h. returns (next_read n p w b rs w' h))
