-- ===== src/Pci/Index.antt =====
-- The index that dicedev_probe of dicedev_base.c looks for in the table of devices.
use dicedev_linux_driver.Base.{
  ℕ, zero, suc, ◌+◌, ◌<◌, ◌≡◌, refl, ◌≢◌, Option, none, some, List, [], ◌∷◌, arith, get_elem?, set,
  ap,
}
use dicedev_linux_driver.Utils.{first_null}
use dicedev_linux_driver.Utils.Slots.{IsFirstNull}

scan : (ds : List (Option ℕ)) (i s : ℕ) → first_null i ds ≡ some s → IsFirstNull ds i s
unfolding first_null
scan [] i s e = absurd cc
scan (none ∷ ds) i s e = record {
  offset = 0;
  at = ground arith;
  empty = refl;
  before = λ j lt. absurd (omega arith);
}
scan (some d ∷ ds) i s e =
    let r = scan ds (i + 1) s e in
    record {
      offset = suc r.offset;
      at = omega (arith, r.at);
      empty = r.empty;
      before = later r.before;
    }
  where
    later :
        {n : ℕ}
        → ((j : ℕ) → j < n → get_elem? ds j ≢ some none)
        → (j : ℕ) → j < suc n
        → get_elem? (some d ∷ ds) j ≢ some none
    later f zero lt = λ e. cc
    later f (suc j) lt = f j (omega arith)

pub record IsLowest (ds : List (Option ℕ)) (i : ℕ) : Type 0 where
  pub free : get_elem? ds i ≡ some none
  pub lowest : (j : ℕ) → j < i → get_elem? ds j ≢ some none

pub first_null-IsLowest : (ds : List (Option ℕ)) (i : ℕ) → first_null 0 ds ≡ some i → IsLowest ds i
first_null-IsLowest ds i e =
    let r = scan ds 0 i e in
    let at : i ≡ r.offset = omega (arith, r.at) in
    record { free = rw at r.empty; lowest = λ j lt. r.before j (omega arith) }

-- An entry that is taken and given back.
pub set-set :
    (ds : List (Option ℕ)) (i : ℕ) (d : Option ℕ)
    → get_elem? ds i ≡ some none
    → set (set ds i d) i none ≡ ds
set-set [] i d e = refl
set-set (x ∷ ds) zero d e = ground arith
set-set (x ∷ ds) (suc i) d e = ap (λ t. x ∷ t) (set-set ds i d e)
