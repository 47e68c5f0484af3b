-- ===== src/Buffer/Destroy.antt =====
-- dicedev_buffer_release of dicedev_buffer.c, with dicedev_buffer_destroy, as a whole.
use dicedev_linux_driver.Base.{
  ℕ, ◌≡◌, refl, ◌≢◌, inl, inr, true, false, none, some, ◌==◌, arith, get_elem?, update_self,
  Option-cases, if◌then◌else◌, ℕ_discrete,
}
use dicedev_linux_driver.Types.{World, Buffer}
use dicedev_linux_driver.Monad.{Returns, returns}
use dicedev_linux_driver.Pt.{dicedev_pt_free}
use dicedev_linux_driver.Utils.{Hw, Responsive}
use dicedev_linux_driver.Utils.Slots.{
  SlotsAgree, unbound, unbind_slot-unbound, unbound-SlotsAgree, same-SlotsAgree,
}
use dicedev_linux_driver.Buffer.{dicedev_buffer_release}

pub record Released (p : ℕ) (b : Buffer) (w w' : World) : Type 0 where
  pub unlocked : w'.slock ≡ false
  pub gone : w'.buffers p ≡ none
  pub others : (q : ℕ) → p ≢ q → w'.buffers q ≡ w.buffers q
  pub dma : w'.dma ≡ dicedev_pt_free b.pt w.dma
  pub slots : SlotsAgree w'
  pub idle : w'.feed_lock ≡ false
  pub failed : w'.failed ≡ w.failed
  pub fence : w'.fence_state ≡ w.fence_state
  pub running : w'.running_task ≡ w.running_task
  pub pending : w'.pending_tasks ≡ w.pending_tasks
  pub contexts : w'.contexts ≡ w.contexts

abbrev freed_buffer : World → ℕ → Buffer → World
freed_buffer v p b = record v {
  slock = false;
  dma = dicedev_pt_free b.pt v.dma;
  buffers = λ q. if p == q then none else v.buffers q;
}

-- A buffer without a slot can go.
module _ (v : World) (p : ℕ) (b d : Buffer) (agree : SlotsAgree v) (exists : v.buffers p ≡ some d)
    (unheld : d.binded_slot ≡ none) where
  open agree use {size, counted, owner, held}

  freed_owner :
      (s q : ℕ)
      → Dec (p ≡ q)
      → get_elem? v.buff_slots s ≡ some (some q)
      → (c : Buffer) × ((freed_buffer v p b).buffers q ≡ some c) × (c.binded_slot ≡ some s)
  freed_owner s q (yes same) h = let (c, there, mine) = owner s q h in absurd (ground arith)
  freed_owner s q (no other) h = let (c, there, mine) = owner s q h in (c, ground arith, mine)

  freed_buffer-SlotsAgree : SlotsAgree (freed_buffer v p b)
  freed_buffer-SlotsAgree = record {
    size = size;
    counted = counted;
    owner = λ s q h. freed_owner s q (ℕ_discrete p q) h;
    held = λ q s c h g. held q s c (ground arith) g;
  }

module _ (hw : Hw) (drains : Responsive hw) (p : ℕ) (b : Buffer) (w : World)
    (unlocked : w.slock ≡ false) (idle : w.feed_lock ≡ false) (agree : SlotsAgree w)
    (exists : w.buffers p ≡ some b) where
  abbrev locked : World
  locked = record w { slock = true }

  locked-SlotsAgree : SlotsAgree locked
  locked-SlotsAgree = same-SlotsAgree w locked agree refl refl refl

  -- With the locks free, the slots in agreement and the queue draining, the last close of a
  -- buffer returns: its slot, if it has one, is given back and the slots agree again, its pages
  -- are freed, it is gone, and no other buffer, no context and no task changes.
  pub buffer_release-Released : Returns (λ _ w'. Released p b w w') (dicedev_buffer_release hw p w)
  unfolding dicedev_buffer_release
  buffer_release-Released = elim (Option-cases b.binded_slot) [
    | inl e ↦
        rw (unlocked, exists, e)
          (returns (record {
            unlocked = refl;
            gone = ground arith;
            others = λ q ne. ground arith;
            dma = refl;
            slots = freed_buffer-SlotsAgree w p b b agree exists e;
            idle = idle;
            failed = refl;
            fence = refl;
            running = refl;
            pending = refl;
            contexts = refl;
          }))
    | inr (s, e) ↦
        let v = unbound locked p b s in
        let d : Buffer = record b { binded_slot = none; usage_count = 0 } in
        let there : v.buffers p ≡ some d = update_self w.buffers p (some d) in
        let agree' : SlotsAgree v = unbound-SlotsAgree locked p b s locked-SlotsAgree exists e in
        rw (unlocked, exists, e, unbind_slot-unbound hw drains locked p b s idle exists e)
          (returns (record {
            unlocked = refl;
            gone = ground arith;
            others = λ q ne. ground arith;
            dma = refl;
            slots = freed_buffer-SlotsAgree v p b d agree' there refl;
            idle = refl;
            failed = refl;
            fence = refl;
            running = refl;
            pending = refl;
            contexts = refl;
          }))
  ]
