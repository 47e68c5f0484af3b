-- ===== src/Utils/Binding.antt =====
-- bind_slot and unbind_slot of dicedev_utils.c as a whole.
use dicedev_linux_driver.Base.{
  ℕ, ◌≡◌, refl, ◌≢◌, false, none, some, [], ◌∷◌, update_self, update_ne, set,
}
use dicedev_linux_driver.Dice.{unbind_slot_header}
use dicedev_linux_driver.Types.{World, Buffer}
use dicedev_linux_driver.Monad.{Returns, returns}
use dicedev_linux_driver.Utils.{Hw, Responsive, unbind_slot}
use dicedev_linux_driver.Utils.Feed.{fed}
use dicedev_linux_driver.Utils.Slots.{SlotsAgree, unbind_slot-unbound, unbound-SlotsAgree}

-- The slots agree, the buffer at `p` has become `b`, and the others stay.
pub record Rebound (p : ℕ) (b : Buffer) (w w' : World) : Type 0 where
  pub slots : SlotsAgree w'
  pub buffer : w'.buffers p ≡ some b
  pub others : (q : ℕ) → p ≢ q → w'.buffers q ≡ w.buffers q

module _ (hw : Hw) (drains : Responsive hw) (w : World) (p : ℕ) (b : Buffer) (s : ℕ)
    (idle : w.feed_lock ≡ false) (agree : SlotsAgree w) (exists : w.buffers p ≡ some b) where
  -- With the slots in agreement, the feed lock free and the queue draining, a buffer gives its
  -- slot back: unbind_slot returns, the array of slots, the count of free ones and the buffers
  -- agree again, the unbind command is fed, and no other buffer changes.
  pub unbind_slot-Rebound :
      b.binded_slot ≡ some s
      → Returns
          (λ _ w'.
            Rebound p (record b { binded_slot = none; usage_count = 0 }) w w'
            × (w'.buff_slots ≡ set w.buff_slots s none)
            × (w'.writes ≡ fed (unbind_slot_header s ∷ []) w.writes))
          (unbind_slot hw p w)
  unbind_slot-Rebound bound = rw (unbind_slot-unbound hw drains w p b s idle exists bound) (
      returns (
        record {
          slots = unbound-SlotsAgree w p b s agree exists bound;
          buffer = update_self w.buffers p _;
          others = λ q ne. update_ne w.buffers p q _ ne;
        },
        refl,
        refl,
      ))
