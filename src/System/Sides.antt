-- ===== src/System/Sides.antt =====
-- The interrupt handler of dicedev_base.c and changes of a buffer, seen from the queue.
use dicedev_linux_driver.Base.{
  ℕ, ◌≡◌, refl, sym, subst, inl, inr, Bool, true, false, ◌||◌, none, some, List, ◌∷◌, ◌==◌, arith,
  if◌then◌else◌, Bool-cases, Option-cases, update,
}
use dicedev_linux_driver.Dice.{intr}
use dicedev_linux_driver.Types.{World, Buffer, Context, Task}
use dicedev_linux_driver.Holdings.{Holdings, holdings, holdings_eq, view_kept, file, buffer_list}
use dicedev_linux_driver.Monad.{Fault, ok, fault, Ensures, ensured, faults}
use dicedev_linux_driver.Utils.{Hw, dicedev_iow, dicedev_ior}
use dicedev_linux_driver.Utils.Slots.{same-SlotsAgree, changed-SlotsAgree}
use dicedev_linux_driver.Wt.Thread.Events.{Quiet}
use dicedev_linux_driver.Wt.Thread.Turn.{
  Lives, MaybeLives, same-Keeps, replaced-Keeps, replaced_buffer-Keeps,
}
use dicedev_linux_driver.Chardev.{dicedev_isr}
use dicedev_linux_driver.Chardev.Irq.{raised, has_error, has_fence, handled, isr-handled}
use dicedev_linux_driver.System.{Aside, Beside, tally_failed}

-- A buffer changes.
abbrev pub changed : World → ℕ → Buffer → Bool → World
changed w p d l = record w { slock = l; buffers = update w.buffers p (some d) }

module _ (w : World) (q : Quiet w) where
  pub logged : (log : List (ℕ × ℕ)) → Aside w (record w { slock = false; writes = log })
  logged log = record {
    lock = refl;
    feed = q.idle;
    slots = same-SlotsAgree w (record w { slock = false; writes = log }) q.slots refl refl refl;
    failed = refl;
    running = refl;
    pending = refl;
    fence = inl refl;
    counts = refl;
    keeps = same-Keeps w (record w { slock = false; writes = log }) refl refl;
    holds = refl;
  }

  pub released : Aside w (record w { slock = false })
  released = logged w.writes

  pub as_before : Aside w w
  as_before = subst (λ l. Aside w (record w { slock = l })) (sym q.unlocked) released

  module _ (p : ℕ) (b d : Buffer) (there : w.buffers p ≡ some b)
      (slot : d.binded_slot ≡ b.binded_slot) where
    pub replaced :
        (h : Holdings) → holdings (changed w p d false) ≡ h → Beside h w (changed w p d false)
    replaced h e = record {
      lock = refl;
      feed = q.idle;
      slots = changed-SlotsAgree w (changed w p d false) q.slots refl refl p b d there slot refl;
      failed = refl;
      running = refl;
      pending = refl;
      fence = inl refl;
      counts = refl;
      keeps = replaced_buffer-Keeps w (changed w p d false) p d refl refl;
      holds = e;
    }

    pub stepped : file d ≡ file b → Aside w (changed w p d false)
    stepped same = replaced (holdings w) (
        holdings_eq (holdings (changed w p d false)) (holdings w)
          (view_kept file w.buffers p b d there same) refl)

  module _ (hw : Hw) where
    -- No task runs.
    pub isr-idle :
        w.running_task ≡ none
        → dicedev_isr hw w ≡ (
            if raised hw w == 0
            then ok false (record w { slock = false })
            else if has_error (raised hw w) || has_fence (raised hw w)
            then fault Fault.bug_on
            else ok true (record w { slock = false; writes = (intr, raised hw w) ∷ w.writes }))
    unfolding dicedev_isr dicedev_iow dicedev_ior
    isr-idle idle = ground (arith, q.unlocked, idle)

    handled-Aside :
        (t : Task) (c : Context) (i : ℕ)
        → w.running_task ≡ some t
        → w.contexts t.ctx ≡ some c
        → Aside w (handled w t.ctx c i)
    handled-Aside t c i runs known =
        let w' = handled w t.ctx c i in
        record {
          lock = refl;
          feed = q.idle;
          slots = same-SlotsAgree w w' q.slots refl refl refl;
          failed = refl;
          running = refl;
          pending = refl;
          fence = elim (Bool-cases (has_fence i)) [
            | inl yes_fence ↦ inr (rw yes_fence refl, (t, runs))
            | inr no_fence ↦ inl (rw no_fence refl)
          ];
          counts = elim (Bool-cases (has_error i)) [
            | inl bad ↦ rw bad (tally_failed w.contexts t.ctx c known)
            | inr good ↦ rw good refl
          ];
          keeps = elim (Bool-cases (has_error i)) [
            | inl bad ↦ replaced-Keeps w w' t.ctx (record c { failed = true }) refl (rw bad refl)
            | inr good ↦ same-Keeps w w' refl (rw good refl)
          ];
          holds = holdings_eq (holdings w') (holdings w) refl (elim (Bool-cases (has_error i)) [
            | inl bad ↦
                rw bad
                  (view_kept buffer_list w.contexts t.ctx c (record c { failed = true }) known refl)
            | inr good ↦ rw good refl
          ]);
        }

    acked-Aside :
        (z f : Bool) (log : List (ℕ × ℕ))
        → Ensures
            (λ _ w'. Aside w w')
            (if z
              then ok false (record w { slock = false })
              else if f
              then fault Fault.bug_on
              else ok true (record w { slock = false; writes = log }))
    acked-Aside true f log = ensured released
    acked-Aside false true log = faults
    acked-Aside false false log = ensured (logged log)

    served-Aside :
        (z : Bool) (v : World)
        → Aside w v
        → Ensures
            (λ _ w'. Aside w w')
            (if z then ok false (record w { slock = false }) else ok true v)
    served-Aside true v a = ensured released
    served-Aside false v a = ensured a

    -- With the locks free, the slots in agreement and the context of the running task there, the
    -- interrupt handler, if it returns, leaves queue, tasks and counts as they are.
    pub isr-Aside : MaybeLives w w.running_task → Ensures (λ _ w'. Aside w w') (dicedev_isr hw w)
    isr-Aside sent = elim (Option-cases w.running_task) [
      | inl idle ↦ rw (isr-idle idle) (
          acked-Aside (raised hw w == 0) (has_error (raised hw w) || has_fence (raised hw w))
            ((intr, raised hw w) ∷ w.writes))
      | inr (t, runs) ↦
          let live : Lives w t = rw runs at sent in
          let (there, (c, known)) = live in
          rw (isr-handled hw w t c q.unlocked runs known) (
            served-Aside (raised hw w == 0) (handled w t.ctx c (raised hw w))
              (handled-Aside t c (raised hw w) runs known))
    ]
