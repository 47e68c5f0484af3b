-- ===== src/System/Creation.antt =====
-- dicedev_ioctl_create_set of dicedev_base.c, whatever it is given, seen from the queue.
use dicedev_linux_driver.Base.{
  ℕ, ◌≡◌, refl, ◌∙◌, ◌≢◌, sym, ap, fun_ext, subst, inl, inr, Bool, true, false, Option, none, some,
  List, ◌∷◌, ◌==◌, ltb, if◌then◌else◌, Option-cases, update, update_self, update_ne, ℕ_discrete,
}
use mathlib.Core.Option
use dicedev_linux_driver.Types.{World, Buffer, Context, PageTable, Dma}
use dicedev_linux_driver.Holdings.{
  File, file, buffer_list, holdings, holdings_eq, view, view_put, view_kept,
}
use dicedev_linux_driver.Monad.{pure, ◌>>=◌, Ensures, ensured, faults, then_ensured, either}
use dicedev_linux_driver.Pt.{Alloc, Errno, Ret, err, dicedev_pt_init, dicedev_pt_free}
use dicedev_linux_driver.Utils.{Hw}
use dicedev_linux_driver.Utils.Slots.{SlotsAgree, same-SlotsAgree}
use dicedev_linux_driver.Wt.Thread.Events.{Quiet}
use dicedev_linux_driver.Wt.Thread.Turn.{Keeps, same-Keeps, replaced-Keeps}
use dicedev_linux_driver.Buffer.{
  dicedev_buffer_init, dicedev_buffer_destroy, dicedev_buffer_get_fd, new_buffer, init_table,
}
use dicedev_linux_driver.Chardev.{
  NewSet, CreateSet, bad_size, max_allowed, create_fd, create_done, create_buffer,
  dicedev_ioctl_create_set,
}
use dicedev_linux_driver.System.{Aside, Granted, Aside-Granted, count_of}
use dicedev_linux_driver.System.Sides.{as_before}

abbrev pub with_file : Buffer → Buffer
with_file b = record b { file_refs = 2 }

-- What dicedev_buffer_init leaves.
abbrev pub Inited : ℕ → ℕ → ℕ → World → Ret (Unit {0}) → World → Type 0
Inited p ctx allowed w (err e) v = (d : Dma) × (v ≡ record w { dma = d })
Inited p ctx allowed w (Ret.ok u) v =
    (d : Dma) × (pt : PageTable) × (v ≡ record w {
      dma = d;
      buffers = update w.buffers p (some (with_file (new_buffer pt ctx allowed)));
    })

module _ (p : ℕ) (w : World) (fresh : w.buffers p ≡ none) where
  abbrev added : Dma → Buffer → World
  added d b = record w { dma = d; buffers = update w.buffers p (some b) }

  not_used : (q : ℕ) (b : Buffer) → w.buffers q ≡ some b → p ≢ q
  not_used q b there same = let e = ap w.buffers same in cc

  added-SlotsAgree :
      (d : Dma) (b : Buffer) → b.binded_slot ≡ none → SlotsAgree w → SlotsAgree (added d b)
  added-SlotsAgree d b unbound a = record {
    size = a.size;
    counted = a.counted;
    owner = λ s q h.
        let (c, there, slot) = a.owner s q h in
        (c, update_ne w.buffers p q (some b) (not_used q c there) ∙ there, slot);
    held = λ q s c h g. elim (ℕ_discrete p q) [
      | yes same ↦
          let e : update w.buffers p (some b) p ≡ some c =
            subst (λ r. update w.buffers p (some b) r ≡ some c) (sym same) h in
          let i = sym (update_self w.buffers p (some b)) ∙ e in
          let j : b ≡ c = cc in let k = ap (λ (x : Buffer). x.binded_slot) j in absurd cc
      | no other ↦ a.held q s c (sym (update_ne w.buffers p q (some b) other) ∙ h) g
    ];
  }

  added-Keeps : (d : Dma) (b : Buffer) → Keeps w (added d b)
  added-Keeps d b = record {
    buffers = λ q c there. (c, update_ne w.buffers p q (some b) (not_used q c there) ∙ there);
    contexts = λ x c h. (c, h);
  }

  -- The buffer is gone again.
  taken_back :
      (b : Buffer) → (λ q. if p == q then none else update w.buffers p (some b) q) ≡ w.buffers
  taken_back b = fun_ext λ q. elim (ℕ_discrete p q) [
    | yes same ↦
        subst (λ r. update (update w.buffers p (some b)) p none r ≡ w.buffers r) same
          (update_self (update w.buffers p (some b)) p none ∙ sym fresh)
    | no other ↦
        update_ne (update w.buffers p (some b)) p q none other
        ∙ update_ne w.buffers p q (some b) other
  ]

  module _ (alloc : Alloc) (ctx size allowed : ℕ) where
    file-Inited :
        (d : Dma) (file : Option Errno) (r : Ret PageTable)
        → Ensures (Inited p ctx allowed w) (init_table ctx p allowed file r (record w { dma = d }))
    file-Inited d file (err e) = ensured (d, refl)
    file-Inited d none (Ret.ok pt) = ensured (d, pt, refl)
    file-Inited d (some e) (Ret.ok pt) = ensured (dicedev_pt_free pt d, refl)

    pub init-Inited :
        (pt_ok pages_ok : Bool) (file : Option Errno)
        → Ensures
            (Inited p ctx allowed w)
            (dicedev_buffer_init alloc pt_ok pages_ok file ctx p size allowed w)
    unfolding dicedev_buffer_init
    init-Inited false pages_ok file = ensured (w.dma, refl)
    init-Inited true pages_ok file =
        let r = dicedev_pt_init alloc pages_ok size w.dma in file-Inited r.1 file r.0

module _ (w : World) (q : Quiet w) where
  -- Only the memory of pages changes.
  pub memory-Aside : (d : Dma) → Aside w (record w { dma = d })
  memory-Aside d = record {
    lock = q.unlocked;
    feed = q.idle;
    slots = same-SlotsAgree w (record w { dma = d }) q.slots refl refl refl;
    failed = refl;
    running = refl;
    pending = refl;
    fence = inl refl;
    counts = refl;
    keeps = same-Keeps w (record w { dma = d }) refl refl;
    holds = refl;
  }

  module _ (hw : Hw) (ctx p : ℕ) (fresh : w.buffers p ≡ none) where
    kept-Granted :
        (d : Dma) (b : Buffer) (c : Context) (log : List (ℕ × ℕ))
        → b.binded_slot ≡ none
        → w.contexts ctx ≡ some c
        → b.ctx ≡ ctx
        → b.file_refs ≡ 2
        → b.destroyed ≡ false
        → Granted ctx w (record (added p w fresh d b) {
          installed = log;
          contexts =
              update w.contexts ctx
                (some (record c { allocated_buffers = p ∷ c.allocated_buffers }));
        })
    kept-Granted d b c log unbound known mine two live =
        let x : Context = record c { allocated_buffers = p ∷ c.allocated_buffers } in
        let v = added p w fresh d b in
        let w' : World = record v { installed = log; contexts = update w.contexts ctx (some x) } in
        let kb = added-Keeps p w fresh d b in
        let kc = replaced-Keeps v w' ctx x refl refl in
        (
          _,
          inr (record {
            buffer = p;
            before = c.allocated_buffers;
            new = ap (Option.map file) fresh;
            known = ap (Option.map buffer_list) known;
            after = refl;
          }),
          record {
            lock = q.unlocked;
            feed = q.idle;
            slots =
                same-SlotsAgree v w' (added-SlotsAgree p w fresh d b unbound q.slots) refl refl
                  refl;
            failed = refl;
            running = refl;
            pending = refl;
            fence = inl refl;
            counts = view_kept count_of w.contexts ctx c x known refl;
            keeps = record { buffers = kb.buffers; contexts = kc.contexts };
            holds =
                holdings_eq (holdings w') _
                  (view_put file w.buffers p (some b)
                    ∙ ap (λ (f : File). update (view file w.buffers) p (some f))
                        (λ i. record { ctx = mine i; refs = two i; destroyed = live i }))
                  (view_put buffer_list w.contexts ctx (some x));
          },
        )

    gone-Aside :
        (d : Dma) (b : Buffer)
        → Aside w (record w {
          slock = false;
          dma = d;
          buffers = λ r. if p == r then none else update w.buffers p (some b) r;
        })
    gone-Aside d b =
        subst (λ f. Aside w (record w { slock = false; dma = d; buffers = f }))
          (sym (taken_back p w fresh b))
          (subst (λ l. Aside w (record w { slock = l; dma = d })) q.unlocked (memory-Aside d))

    fd-Granted :
        (d : Dma) (b : Buffer) (fd : Ret ℕ)
        → b.binded_slot ≡ none
        → b.ctx ≡ ctx
        → b.file_refs ≡ 2
        → b.destroyed ≡ false
        → Ensures
            (λ _ w'. Granted ctx w w')
            ((dicedev_buffer_get_fd fd p >>= create_fd hw ctx p) (added p w fresh d b))
    unfolding create_fd dicedev_buffer_get_fd dicedev_buffer_destroy
    fd-Granted d b (Ret.ok fd) unbound mine two live = elim (Option-cases (w.contexts ctx)) [
      | inl gone ↦ rw gone faults
      | inr (c, known) ↦ rw known (ensured (kept-Granted d b c _ unbound known mine two live))
    ]
    fd-Granted d b (err e) unbound mine two live =
        simp (q.unlocked, update_self w.buffers p (some b), unbound)
          (ensured (Aside-Granted ctx (gone-Aside (dicedev_pt_free b.pt d) b)))

    done-Granted :
        (allowed : ℕ) (fd : Ret ℕ) (r : Ret (Unit {0})) (v : World)
        → Inited p ctx allowed w r v
        → Ensures (λ _ w'. Granted ctx w w') (create_done hw ctx p fd r v)
    unfolding create_done
    done-Granted allowed fd (err e) v (d, same) =
        ensured (Aside-Granted ctx (subst (Aside w) (sym same) (memory-Aside d)))
    done-Granted allowed fd (Ret.ok u) v (d, pt, same) =
        subst
          (λ x.
            Ensures (λ _ w'. Granted ctx w w')
              ((dicedev_buffer_get_fd fd p >>= create_fd hw ctx p) x))
          (sym same) (fd-Granted d (with_file (new_buffer pt ctx allowed)) fd refl refl refl refl)

  module _ (hw : Hw) (ctx : ℕ) (k : NewSet) where
    create_buffer-Granted :
        (cs : CreateSet) (buff : Option ℕ)
        → ((p : ℕ) → buff ≡ some p → w.buffers p ≡ none)
        → Ensures (λ _ w'. Granted ctx w w') (create_buffer hw ctx k cs buff w)
    unfolding create_buffer
    create_buffer-Granted cs none fresh = ensured (Aside-Granted ctx (as_before w q))
    create_buffer-Granted cs (some p) fresh =
        then_ensured
          (init-Inited p w (fresh p refl) k.alloc ctx cs.size cs.allowed k.pt_ok k.pages_ok k.file)
          λ r v h. done-Granted hw ctx p (fresh p refl) cs.allowed k.fd r v h

    -- DICEDEV_IOCTL_CREATE_SET, if it returns, leaves queue, tasks and counts as they are, and
    -- buffers are held as before or a new one by the context and its file. The address of the new buffer is not in use.
    pub create_set-Granted :
        (cs : Option CreateSet)
        → ((p : ℕ) → k.buff ≡ some p → w.buffers p ≡ none)
        → Ensures (λ _ w'. Granted ctx w w') (dicedev_ioctl_create_set hw ctx k cs w)
    unfolding dicedev_ioctl_create_set
    create_set-Granted none fresh = ensured (Aside-Granted ctx (as_before w q))
    create_set-Granted (some cs) fresh =
        either (bad_size cs.size) (pure (err Errno.einval))
          (if ltb max_allowed cs.allowed
            then pure (err Errno.einval)
            else create_buffer hw ctx k cs k.buff)
          w (ensured (Aside-Granted ctx (as_before w q)))
          (either (ltb max_allowed cs.allowed) (pure (err Errno.einval))
            (create_buffer hw ctx k cs k.buff) w (ensured (Aside-Granted ctx (as_before w q)))
            (create_buffer-Granted cs k.buff fresh))
