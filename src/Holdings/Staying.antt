-- ===== src/Holdings/Staying.antt =====
-- A buffer of a task stays while the context of the task does, whatever step of Holdings.Passes is
-- taken.
use dicedev_linux_driver.Base.{
  ℕ, ◌≡◌, ◌∙◌, sym, ap, subst, Option, none, some, List, arith, update, update_self, update_ne,
  ℕ_discrete, some-injective,
}
use dicedev_linux_driver.Holdings.{Job, File, Holdings}
use dicedev_linux_driver.Holdings.Passes.{
  Belongs, MaybeBelongs, Fits, Pass, Held, new_file, less-on, marked-on,
}

module _ (h : Holdings) (held : Held h) where
  open held use {listed, member}

  -- A buffer stays, as long as its context does.
  pub Pass-Belongs :
      (k : Holdings) (x p : ℕ)
      → Pass h k
      → ((l : List ℕ) × (h.lists x ≡ some l))
      → Belongs h x p
      → Belongs k x p
  Pass-Belongs k x p Pass.stay live b = b
  Pass-Belongs k x p (Pass.open_ctx y new unused) live b = b
  Pass-Belongs k x p (Pass.create y q l fresh at) live (f, is, own) = (
    f,
    update_ne h.files q p (some (new_file y))
          (λ e. let z = sym is ∙ ap h.files (sym e) ∙ fresh in absurd cc)
        ∙ is,
    own,
  )
  Pass-Belongs k x p (Pass.share q n g was enough) live (f, is, own) = elim (ℕ_discrete q p) [
    | yes here ↦ (
      record g { refs = n },
      subst (λ r. update h.files q (some (record g { refs = n })) r ≡ some (record g { refs = n }))
          here (update_self h.files q (some (record g { refs = n }))),
      ap (λ (k : File). k.ctx) (some-injective g f (sym was ∙ ap h.files here ∙ is)) ∙ own,
    )
    | no elsewhere ↦ (f, update_ne h.files q p (some (record g { refs = n })) elsewhere ∙ is, own)
  ]
  Pass-Belongs k x p (Pass.leave y l at gone) live (f, is, own) =
      let (g, was, (same, mark)) = less-on l h.files p f is in (g, was, same ∙ own)
  Pass-Belongs k x p (Pass.mark y l at) live (f, is, own) =
      let (g, was, (same, refs, mark)) = marked-on l h.files p f is in (g, was, same ∙ own)
  Pass-Belongs k x p (Pass.free q g was unused) (l, at) (f, is, own) =
      let inside = member p f l is (ap h.lists own ∙ at) in
      let (g', is', mine, more) = listed x p l at inside in
      (
        f,
        update_ne h.files q p none (λ here.
              let none_left =
                ap (λ (k : File). k.refs)
                  (some-injective g' g (sym is' ∙ ap h.files (sym here) ∙ was))
                ∙ unused in
              absurd (omega arith))
            ∙ is,
        own,
      )

  pub Pass-Fits :
      (k : Holdings) (j : Job)
      → Pass h k
      → ((l : List ℕ) × (h.lists j.ctx ≡ some l))
      → Fits h j
      → Fits k j
  Pass-Fits k j pass live (out, commands) =
      (Pass-Belongs k j.ctx j.buff_out pass live out, maybe j.c_buff commands)
    where
      maybe : (o : Option ℕ) → MaybeBelongs h j.ctx o → MaybeBelongs k j.ctx o
      maybe none b = tt
      maybe (some p) b = Pass-Belongs k j.ctx p pass live b
