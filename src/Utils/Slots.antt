-- ===== src/Utils/Slots.antt =====
-- get_slot, bind_slot and unbind_slot of dicedev_utils.c: the array of slots, the count of free
-- ones and the slot that each buffer remembers.
use dicedev_linux_driver.Base.{
  ℕ, zero, suc, ◌+◌, ◌<◌, ◌≤◌, ◌≡◌, refl, ◌≢◌, false, Option, none, some, List, [], ◌∷◌, arith, inl,
  inr, ◌⊎◌, sym, ◌∙◌, length, get_elem?, set, update, length-set, get_elem?-set_self,
  get_elem?-set_ne, get_elem?_bound, dec_lt, ℕ_discrete,
}
use dicedev_linux_driver.Dice.{u64, sub64, unbind_slot_header}
use dicedev_linux_driver.Types.{World, Buffer, num_slots}
use dicedev_linux_driver.Monad.{ok}
use dicedev_linux_driver.Utils.{
  Hw, Responsive, first_null, get_slot, bind_words, bind_slot, unbind_slot,
}
use dicedev_linux_driver.Utils.Feed.{fed, feed_cmd-fed}

-- The number of empty slots.
abbrev pub nulls : List (Option ℕ) → ℕ
nulls [] = 0
nulls (none ∷ slots) = suc (nulls slots)
nulls (some p ∷ slots) = nulls slots

pub record SlotsAgree (w : World) : Type 0 where
  pub size : length w.buff_slots ≡ num_slots
  pub counted : w.free_slots ≡ nulls w.buff_slots
  pub owner :
      (s p : ℕ)
      → get_elem? w.buff_slots s ≡ some (some p)
      → (b : Buffer) × (w.buffers p ≡ some b) × (b.binded_slot ≡ some s)
  pub held :
      (p s : ℕ) (b : Buffer)
      → w.buffers p ≡ some b
      → b.binded_slot ≡ some s
      → get_elem? w.buff_slots s ≡ some (some p)

nulls-le : (slots : List (Option ℕ)) → nulls slots ≤ length slots
nulls-le [] = omega arith
nulls-le (none ∷ slots) = omega (arith, nulls-le slots)
nulls-le (some p ∷ slots) = omega (arith, nulls-le slots)

nulls-fill :
    (slots : List (Option ℕ)) (s p : ℕ)
    → get_elem? slots s ≡ some none
    → nulls (set slots s (some p)) + 1 ≡ nulls slots
nulls-fill [] s p e = cc
nulls-fill (none ∷ slots) zero p e = omega arith
nulls-fill (some q ∷ slots) zero p e = cc
nulls-fill (none ∷ slots) (suc s) p e = omega (arith, nulls-fill slots s p e)
nulls-fill (some q ∷ slots) (suc s) p e = omega (arith, nulls-fill slots s p e)

nulls-clear :
    (slots : List (Option ℕ)) (s p : ℕ)
    → get_elem? slots s ≡ some (some p)
    → nulls (set slots s none) ≡ nulls slots + 1
nulls-clear [] s p e = cc
nulls-clear (none ∷ slots) zero p e = cc
nulls-clear (some q ∷ slots) zero p e = omega arith
nulls-clear (none ∷ slots) (suc s) p e = omega (arith, nulls-clear slots s p e)
nulls-clear (some q ∷ slots) (suc s) p e = omega (arith, nulls-clear slots s p e)

-- The scan from slot `i` on stops at the first empty slot.
pub record IsFirstNull (slots : List (Option ℕ)) (i s : ℕ) : Type 0 where
  pub offset : ℕ
  pub at : s ≡ i + offset
  pub empty : get_elem? slots offset ≡ some none
  pub before : (j : ℕ) → j < offset → get_elem? slots j ≢ some none

first_null-found :
    (slots : List (Option ℕ)) (i : ℕ)
    → 0 < nulls slots
    → (s : ℕ) × (first_null i slots ≡ some s) × IsFirstNull slots i s
unfolding first_null
first_null-found [] i h = absurd (omega arith)
first_null-found (none ∷ slots) i h = (
  i,
  refl,
  record { offset = 0; at = omega arith; empty = refl; before = λ j lt. absurd (omega arith) },
)
first_null-found (some p ∷ slots) i h =
    let (s, e, r) = first_null-found slots (i + 1) h in
    (
      s,
      e,
      record {
        offset = suc r.offset;
        at = omega (arith, r.at);
        empty = r.empty;
        before = later r.before;
      },
    )
  where
    later :
        {n : ℕ}
        → ((j : ℕ) → j < n → get_elem? slots j ≢ some none)
        → (j : ℕ) → j < suc n
        → get_elem? (some p ∷ slots) j ≢ some none
    later f zero lt = λ e. cc
    later f (suc j) lt = f j (omega arith)

-- If the count of free slots is right, get_slot gives -1 when it is 0, and otherwise the lowest
-- empty slot.
pub get_slot-lowest :
    (w : World)
    → w.free_slots ≡ nulls w.buff_slots
    → ((w.free_slots ≡ 0) × (get_slot w ≡ none))
      ⊎ ((s : ℕ) × (get_slot w ≡ some s)
          × (get_elem? w.buff_slots s ≡ some none)
          × ((j : ℕ) → j < s → get_elem? w.buff_slots j ≢ some none))
unfolding get_slot
get_slot-lowest w h = elim (dec_lt 0 w.free_slots) [
  | no none_free ↦ inl (omega arith, ground arith)
  | yes some_free ↦
      let (s, e, r) = first_null-found w.buff_slots 0 (omega arith) in
      let at : s ≡ r.offset = omega (arith, r.at) in
      inr (s, ground (arith, e), rw at r.empty, λ j lt. r.before j (omega arith))
]

-- The state after `bind_slot`, and after `unbind_slot`.
abbrev pub bound : World → ℕ → Buffer → ℕ → World
bound w p b s = record w {
  free_slots = sub64 w.free_slots 1;
  buff_slots = set w.buff_slots s (some p);
  buffers = update w.buffers p (some (record b { binded_slot = some s; usage_count = 1 }));
  writes = fed (bind_words s b) w.writes;
  feed_lock = false;
}

abbrev pub unbound : World → ℕ → Buffer → ℕ → World
unbound w p b s = record w {
  free_slots = u64 (w.free_slots + 1);
  buff_slots = set w.buff_slots s none;
  buffers = update w.buffers p (some (record b { binded_slot = none; usage_count = 0 }));
  writes = fed (unbind_slot_header s ∷ []) w.writes;
  feed_lock = false;
}

module _ (hw : Hw) (drains : Responsive hw) (w : World) (p : ℕ) (b : Buffer) (s : ℕ)
    (open_feed : w.feed_lock ≡ false) (exists : w.buffers p ≡ some b) where
  -- At an empty slot `bind_slot` succeeds and feeds the four words of the bind command.
  pub bind_slot-bound :
      get_elem? w.buff_slots s ≡ some none → bind_slot hw p (some s) w ≡ ok tt (bound w p b s)
  unfolding bind_slot
  bind_slot-bound e = ground (
    arith,
    feed_cmd-fed hw drains (bind_words s b) (record w {
      free_slots = sub64 w.free_slots 1;
      buff_slots = set w.buff_slots s (some p);
      buffers = update w.buffers p (some (record b { binded_slot = some s; usage_count = 1 }));
    }),
  )

  pub unbind_slot-unbound : b.binded_slot ≡ some s → unbind_slot hw p w ≡ ok tt (unbound w p b s)
  unfolding unbind_slot
  unbind_slot-unbound e = ground (
    arith,
    feed_cmd-fed hw drains (unbind_slot_header s ∷ []) (record w {
      free_slots = u64 (w.free_slots + 1);
      buff_slots = set w.buff_slots s none;
      buffers = update w.buffers p (some (record b { binded_slot = none; usage_count = 0 }));
    }),
  )

module _ (w : World) (p : ℕ) (b : Buffer) (s : ℕ) (agree : SlotsAgree w)
    (exists : w.buffers p ≡ some b) where
  open agree use {size, counted, owner, held}

  bound_owner :
      b.binded_slot ≡ none
      → get_elem? w.buff_slots s ≡ some none
      → (t q : ℕ) → Dec (s ≡ t)
      → get_elem? (set w.buff_slots s (some p)) t ≡ some (some q)
      → (c : Buffer) × ((bound w p b s).buffers q ≡ some c) × (c.binded_slot ≡ some t)
  bound_owner unheld e t q (yes same) h =
      let at : get_elem? (set w.buff_slots s (some p)) s ≡ some (some p) =
        get_elem?-set_self w.buff_slots s (some p) (get_elem?_bound w.buff_slots s e) in
      (record b { binded_slot = some s; usage_count = 1 }, ground arith, ground arith)
  bound_owner unheld e t q (no other) h =
      let (c, there, mine) =
        owner t q (sym (get_elem?-set_ne w.buff_slots s t (some p) other) ∙ h) in
      (c, ground arith, mine)

  bound_held :
      b.binded_slot ≡ none
      → get_elem? w.buff_slots s ≡ some none
      → (q t : ℕ) (c : Buffer) → Dec (p ≡ q)
      → (bound w p b s).buffers q ≡ some c
      → c.binded_slot ≡ some t
      → get_elem? (set w.buff_slots s (some p)) t ≡ some (some q)
  bound_held unheld e q t c (yes same) h g =
      let at : get_elem? (set w.buff_slots s (some p)) s ≡ some (some p) =
        get_elem?-set_self w.buff_slots s (some p) (get_elem?_bound w.buff_slots s e) in
      ground arith
  bound_held unheld e q t c (no other) h g =
      let there : get_elem? w.buff_slots t ≡ some (some q) = held q t c (ground arith) g in
      get_elem?-set_ne w.buff_slots s t (some p) (ground arith) ∙ there

  pub bound-SlotsAgree :
      b.binded_slot ≡ none → get_elem? w.buff_slots s ≡ some none → SlotsAgree (bound w p b s)
  bound-SlotsAgree unheld e = record {
    size = length-set w.buff_slots s (some p) ∙ size;
    counted = omega (arith, nulls-fill w.buff_slots s p e, nulls-le w.buff_slots);
    owner = λ t q h. bound_owner unheld e t q (ℕ_discrete s t) h;
    held = λ q t c h g. bound_held unheld e q t c (ℕ_discrete p q) h g;
  }

  unbound_owner :
      b.binded_slot ≡ some s
      → (t q : ℕ) → Dec (s ≡ t)
      → get_elem? (set w.buff_slots s none) t ≡ some (some q)
      → (c : Buffer) × ((unbound w p b s).buffers q ≡ some c) × (c.binded_slot ≡ some t)
  unbound_owner mine t q (yes same) h =
      let at : get_elem? (set w.buff_slots s none) s ≡ some none =
        get_elem?-set_self w.buff_slots s none
          (get_elem?_bound w.buff_slots s (held p s b exists mine)) in
      absurd (ground arith)
  unbound_owner mine t q (no other) h =
      let (c, there, bound_to) =
        owner t q (sym (get_elem?-set_ne w.buff_slots s t none other) ∙ h) in
      (c, ground arith, bound_to)

  unbound_held :
      b.binded_slot ≡ some s
      → (q t : ℕ) (c : Buffer) → Dec (p ≡ q)
      → (unbound w p b s).buffers q ≡ some c
      → c.binded_slot ≡ some t
      → get_elem? (set w.buff_slots s none) t ≡ some (some q)
  unbound_held mine q t c (yes same) h g = absurd (ground arith)
  unbound_held mine q t c (no other) h g =
      let there : get_elem? w.buff_slots t ≡ some (some q) = held q t c (ground arith) g in
      let here : get_elem? w.buff_slots s ≡ some (some p) = held p s b exists mine in
      get_elem?-set_ne w.buff_slots s t none (ground arith) ∙ there

  pub unbound-SlotsAgree : b.binded_slot ≡ some s → SlotsAgree (unbound w p b s)
  unbound-SlotsAgree mine = record {
    size = length-set w.buff_slots s none ∙ size;
    counted = omega (
      arith,
      nulls-clear w.buff_slots s p (held p s b exists mine),
      nulls-le (set w.buff_slots s none),
      length-set w.buff_slots s none,
    );
    owner = λ t q h. unbound_owner mine t q (ℕ_discrete s t) h;
    held = λ q t c h g. unbound_held mine q t c (ℕ_discrete p q) h g;
  }

-- A change of a buffer that leaves its slot alone, and of anything but the slots.
module _ (w v : World) (agree : SlotsAgree w) (slots : v.buff_slots ≡ w.buff_slots)
    (free : v.free_slots ≡ w.free_slots) where
  open agree use {size, counted, owner, held}

  pub same-SlotsAgree : v.buffers ≡ w.buffers → SlotsAgree v
  same-SlotsAgree e = record {
    size = rw slots size;
    counted = rw (slots, free) counted;
    owner = λ s p h. rw e (owner s p (rw slots at h));
    held = λ p s b h g. rw slots (held p s b (rw e at h) g);
  }

  module _ (p : ℕ) (b b' : Buffer) (exists : w.buffers p ≡ some b)
      (kept : b'.binded_slot ≡ b.binded_slot) (e : v.buffers ≡ update w.buffers p (some b')) where
    changed_owner :
        (s q : ℕ)
        → Dec (p ≡ q)
        → get_elem? w.buff_slots s ≡ some (some q)
        → (c : Buffer) × (update w.buffers p (some b') q ≡ some c) × (c.binded_slot ≡ some s)
    changed_owner s q (yes same) h =
        let (c, there, mine) = owner s q h in (b', ground arith, ground arith)
    changed_owner s q (no other) h = let (c, there, mine) = owner s q h in (c, ground arith, mine)

    changed_held :
        (q s : ℕ) (c : Buffer)
        → Dec (p ≡ q)
        → update w.buffers p (some b') q ≡ some c
        → c.binded_slot ≡ some s
        → get_elem? w.buff_slots s ≡ some (some q)
    changed_held q s c (yes same) h g =
        let at : get_elem? w.buff_slots s ≡ some (some p) = held p s b exists (ground arith) in
        ground arith
    changed_held q s c (no other) h g = held q s c (ground arith) g

    pub changed-SlotsAgree : SlotsAgree v
    changed-SlotsAgree = record {
      size = rw slots size;
      counted = rw (slots, free) counted;
      owner = λ s q h. rw e (changed_owner s q (ℕ_discrete p q) (rw slots at h));
      held = λ q s c h g. rw slots (changed_held q s c (ℕ_discrete p q) (rw e at h) g);
    }
