-- ===== src/Utils/Feed.antt =====
-- feed_cmd of dicedev_utils.c on a device whose queue drains.
use dicedev_linux_driver.Base.{
  ℕ, zero, suc, ◌+◌, ◌<◌, ◌≡◌, refl, ◌≢◌, true, false, List, [], ◌∷◌, arith,
}
use dicedev_linux_driver.Dice.{cmd_manual_feed, cmd_manual_free}
use dicedev_linux_driver.Types.{World}
use dicedev_linux_driver.Monad.{ok}
use dicedev_linux_driver.Utils.{Hw, Responsive, wait_free, feed_words, feed_cmd, dicedev_iow}

-- The log after the words `cs` have been fed.
abbrev pub fed : List ℕ → List (ℕ × ℕ) → List (ℕ × ℕ)
fed [] log = log
fed (c ∷ cs) log = fed cs ((cmd_manual_feed, c) ∷ log)

module _ (hw : Hw) where
  -- The wait from read `i` on ends if some later read, within the rounds, is not 0.
  wait_free-ok :
      (rounds i : ℕ) (w : World) (d : ℕ)
      → d < rounds
      → hw.read w.writes cmd_manual_free (i + d) ≢ 0
      → wait_free hw rounds i w ≡ ok tt w
  unfolding wait_free
  wait_free-ok zero i w d lt h = absurd (omega arith)
  wait_free-ok (suc rounds) i w zero lt h = ground arith
  wait_free-ok (suc rounds) i w (suc d) lt h = ground (arith, wait_free-ok rounds (i + 1) w d)

module _ (hw : Hw) (drains : Responsive hw) where
  feed_words-fed :
      (cs : List ℕ) (w : World) → feed_words hw cs w ≡ ok tt (record w { writes = fed cs w.writes })
  unfolding feed_words dicedev_iow
  feed_words-fed [] w = refl
  feed_words-fed (c ∷ cs) w =
      let (i, lt, h) = drains w.writes in
      let z : 0 + i ≡ i = omega arith in
      rw (wait_free-ok hw hw.polls 0 w i lt (rw z h))
        (feed_words-fed cs (record w { writes = (cmd_manual_feed, c) ∷ w.writes }))

  -- With the feed lock free and a queue that always drains, feed_cmd returns, writes all words in
  -- order to the feed register, changes nothing else and leaves the lock free.
  pub feed_cmd-fed :
      (cs : List ℕ) (w : World)
      → w.feed_lock ≡ false
      → feed_cmd hw cs w ≡ ok tt (record w { writes = fed cs w.writes; feed_lock = false })
  unfolding feed_cmd
  feed_cmd-fed cs w free = ground (arith, feed_words-fed cs (record w { feed_lock = true }))
