-- ===== src/Holdings/Keeping.antt =====
-- What the steps of Holdings.Passes keep.
use dicedev_linux_driver.Base.{
  ℕ, ◌<◌, ◌≡◌, ◌≢◌, ◌∙◌, sym, ap, subst, inl, inr, true, none, some, List, [], ◌∷◌, arith, update,
  update_self, update_ne, ℕ_discrete, some-injective, Bool-cases,
}
use dicedev_linux_driver.Holdings.{File, Holdings}
use dicedev_linux_driver.Holdings.Passes.{
  has, Pass, Held, at_update, less, marked, new_file, each, each-outside, less-back, marked-back,
  marked-on,
}

module _ (h : Holdings) (held : Held h) where
  open held use {listed, member, alive}

  -- Two that list a buffer are one.
  one_list :
      (x y p : ℕ) (l m : List ℕ)
      → h.lists x ≡ some l
      → h.lists y ≡ some m
      → has p l ≡ true
      → has p m ≡ true
      → x ≡ y
  one_list x y p l m at there inside also =
      let (f, is, mine, more) = listed x p l at inside in
      let (g, was, yours, some_more) = listed y p m there also in
      sym mine ∙ ap (λ (k : File). k.ctx) (some-injective f g (sym is ∙ was)) ∙ yours

  still_listed :
      (x y : ℕ) (m : List ℕ)
      → ((l : List ℕ) × (h.lists y ≡ some l))
      → (l : List ℕ) × (update h.lists x (some m) y ≡ some l)
  still_listed x y m (l, at) = elim (ℕ_discrete x y) [
    | yes same ↦ (m, ap (update h.lists x (some m)) (sym same) ∙ update_self h.lists x (some m))
    | no other ↦ (l, update_ne h.lists x y (some m) other ∙ at)
  ]

  open-Held :
      (x : ℕ)
      → ((p : ℕ) (f : File) → h.files p ≡ some f → f.ctx ≢ x)
      → Held (record h { lists = update h.lists x (some []) })
  open-Held x unused = record {
    listed = λ y p l at inside. elim (at_update h.lists x y (some []) l at) [
      | inl (same, e) ↦ let z = ap (has p) (some-injective [] l e) ∙ inside in absurd cc
      | inr (other, there) ↦ listed y p l there inside
    ];
    member = λ p f l is at. elim (at_update h.lists x f.ctx (some []) l at) [
      | inl (same, e) ↦ absurd (unused p f is (sym same))
      | inr (other, there) ↦ member p f l is there
    ];
    alive = λ p f is live. still_listed x f.ctx [] (alive p f is live);
  }

  create-Held :
      (x p : ℕ) (l : List ℕ)
      → h.files p ≡ none
      → h.lists x ≡ some l
      → Held (record {
        files = update h.files p (some (new_file x));
        lists = update h.lists x (some (p ∷ l));
      })
  create-Held x p l fresh at = record {
    listed = λ y q m there inside. elim (at_update h.lists x y (some (p ∷ l)) m there) [
      | inl (same, e) ↦ elim (ℕ_discrete p q) [
        | yes here ↦ (
          new_file x,
          subst (λ r. update h.files p (some (new_file x)) r ≡ some (new_file x)) here
              (update_self h.files p (some (new_file x))),
          same,
          omega arith,
        )
        | no elsewhere ↦
            let old : has q (p ∷ l) ≡ true = ap (has q) (some-injective (p ∷ l) m e) ∙ inside in
            let (f, is, mine, more) = listed x q l at (ground arith) in
            (f, update_ne h.files p q (some (new_file x)) elsewhere ∙ is, mine ∙ same, more)
      ]
      | inr (other, before) ↦
          let (f, is, mine, more) = listed y q m before inside in
          (
            f,
            update_ne h.files p q (some (new_file x))
                  (λ e. let z = sym is ∙ ap h.files (sym e) ∙ fresh in absurd cc)
                ∙ is,
            mine,
            more,
          )
    ];
    member = λ q f m is there. elim (at_update h.files p q _ f is) [
      | inl (here, e) ↦
          let mine = ap (λ (k : File). k.ctx) (some-injective (new_file x) f e) in
          let e' =
            sym (update_self h.lists x (some (p ∷ l)))
            ∙ ap (update h.lists x (some (p ∷ l))) mine
            ∙ there in
          sym (ap (has q) (some-injective (p ∷ l) m e')) ∙ ground arith
      | inr (elsewhere, before) ↦ elim (at_update h.lists x f.ctx (some (p ∷ l)) m there) [
        | inl (same, e) ↦
            let old = member q f l before (ap h.lists (sym same) ∙ at) in
            sym (ap (has q) (some-injective (p ∷ l) m e)) ∙ ground arith
        | inr (other, known) ↦ member q f m before known
      ]
    ];
    alive = λ q f is live. elim (at_update h.files p q (some (new_file x)) f is) [
      | inl (here, e) ↦ (
        p ∷ l,
        ap (update h.lists x (some (p ∷ l)))
              (sym (ap (λ (k : File). k.ctx) (some-injective (new_file x) f e)))
            ∙ update_self h.lists x (some (p ∷ l)),
      )
      | inr (elsewhere, before) ↦ still_listed x f.ctx (p ∷ l) (alive q f before live)
    ];
  }

  share-Held :
      (p n : ℕ) (f : File)
      → h.files p ≡ some f
      → ((l : List ℕ) → h.lists f.ctx ≡ some l → has p l ≡ true → 0 < n)
      → Held (record h { files = update h.files p (some (record f { refs = n })) })
  share-Held p n f is enough = record {
    listed = λ y q m there inside.
        let (g, was, mine, more) = listed y q m there inside in
        elim (ℕ_discrete p q) [
          | yes here ↦
              let same : f ≡ g = some-injective f g (sym is ∙ ap h.files here ∙ was) in
              let own : f.ctx ≡ y = ap (λ (k : File). k.ctx) same ∙ mine in
              (
                record f { refs = n },
                subst
                    (λ r.
                      update h.files p (some (record f { refs = n })) r
                      ≡ some (record f { refs = n }))
                    here (update_self h.files p (some (record f { refs = n }))),
                own,
                enough m (ap h.lists own ∙ there) (ap (λ r. has r m) here ∙ inside),
              )
          | no elsewhere ↦
              (g, update_ne h.files p q (some (record f { refs = n })) elsewhere ∙ was, mine, more)
        ];
    member = λ q g m was there. elim (at_update h.files p q _ g was) [
      | inl (here, e) ↦
          let own : f.ctx ≡ g.ctx =
            ap (λ (k : File). k.ctx) (some-injective (record f { refs = n }) g e) in
          ap (λ r. has r m) (sym here) ∙ member p f m is (ap h.lists own ∙ there)
      | inr (elsewhere, before) ↦ member q g m before there
    ];
    alive = λ q g was live. elim (at_update h.files p q (some (record f { refs = n })) g was) [
      | inl (here, e) ↦
          let same = some-injective (record f { refs = n }) g e in
          let (l, at) = alive p f is (ap (λ (k : File). k.destroyed) same ∙ live) in
          (l, ap h.lists (sym (ap (λ (k : File). k.ctx) same)) ∙ at)
      | inr (elsewhere, before) ↦ alive q g before live
    ];
  }

  leave-Held :
      (x : ℕ) (l : List ℕ)
      → h.lists x ≡ some l
      → ((p : ℕ) (f : File) → has p l ≡ true → h.files p ≡ some f → f.destroyed ≡ true)
      → Held (record { files = each less l h.files; lists = update h.lists x none })
  leave-Held x l at gone = record {
    listed = λ y q m there inside. elim (at_update h.lists x y none m there) [
      | inl (same, e) ↦ absurd cc
      | inr (other, known) ↦
          let (g, was, mine, more) = listed y q m known inside in
          elim (Bool-cases (has q l)) [
            | inl also ↦ absurd (other (one_list x y q l m at known also inside))
            | inr out ↦ (g, each-outside less l h.files q out ∙ was, mine, more)
          ]
    ];
    member = λ q g m was there. elim (at_update h.lists x g.ctx none m there) [
      | inl (same, e) ↦ absurd cc
      | inr (other, known) ↦
          let (f, is, (own, mark)) = less-back l h.files q g was in
          member q f m is (ap h.lists (sym own) ∙ known)
    ];
    alive = λ q g was live.
        let (f, is, (own, mark)) = less-back l h.files q g was in
        let (m, there) = alive q f is (sym mark ∙ live) in
        elim (ℕ_discrete x f.ctx) [
          | yes same ↦
              let marked_one = gone q f (member q f l is (ap h.lists (sym same) ∙ at)) is in
              let z = sym marked_one ∙ sym mark ∙ live in absurd cc
          | no other ↦
              (m, ap (update h.lists x none) own ∙ update_ne h.lists x f.ctx none other ∙ there)
        ];
  }

  mark-Held :
      (x : ℕ) (l : List ℕ) → h.lists x ≡ some l → Held (record h { files = each marked l h.files })
  mark-Held x l at = record {
    listed = λ y q m there inside.
        let (g, was, mine, more) = listed y q m there inside in
        let (k, is, (own, refs, live)) = marked-on l h.files q g was in
        (k, is, own ∙ mine, subst (λ n. 0 < n) (sym refs) more);
    member = λ q k m is there.
        let (g, was, (own, refs, live)) = marked-back l h.files q k is in
        member q g m was (ap h.lists (sym own) ∙ there);
    alive = λ q k is unmarked.
        let (g, was, (own, refs, live)) = marked-back l h.files q k is in
        let (m, there) = alive q g was (live unmarked) in (m, ap h.lists own ∙ there);
  }

  free-Held :
      (p : ℕ) (f : File)
      → h.files p ≡ some f
      → f.refs ≡ 0
      → Held (record h { files = update h.files p none })
  free-Held p f is unused = record {
    listed = λ y q m there inside.
        let (g, was, mine, more) = listed y q m there inside in
        elim (ℕ_discrete p q) [
          | yes here ↦
              let same : f ≡ g = some-injective f g (sym is ∙ ap h.files here ∙ was) in
              let none_left = ap (λ (k : File). k.refs) (sym same) ∙ unused in absurd (omega arith)
          | no elsewhere ↦ (g, update_ne h.files p q none elsewhere ∙ was, mine, more)
        ];
    member = λ q g m was there. elim (at_update h.files p q none g was) [
      | inl (here, e) ↦ absurd cc
      | inr (elsewhere, before) ↦ member q g m before there
    ];
    alive = λ q g was live. elim (at_update h.files p q none g was) [
      | inl (here, e) ↦ absurd cc
      | inr (elsewhere, before) ↦ alive q g before live
    ];
  }

  pub Pass-Held : (k : Holdings) → Pass h k → Held k
  Pass-Held k Pass.stay = held
  Pass-Held k (Pass.open_ctx x new unused) = open-Held x unused
  Pass-Held k (Pass.create x p l fresh at) = create-Held x p l fresh at
  Pass-Held k (Pass.share p n f is enough) = share-Held p n f is enough
  Pass-Held k (Pass.leave x l at gone) = leave-Held x l at gone
  Pass-Held k (Pass.mark x l at) = mark-Held x l at
  Pass-Held k (Pass.free p f is unused) = free-Held p f is unused
