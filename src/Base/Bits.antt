-- ===== src/Base/Bits.antt =====
-- `&` and `|` of C at every width, from the recursion on binary digits that the native operations
-- stand for: one equation for the lowest digit, then the law that splits both words at bit `k`.
use Prim.Native.Nat.{ℕ, zero, suc, ◌+◌, ◌-◌, ◌*◌, ◌/◌, ◌%◌, ◌^◌, ◌≤◌, ◌<◌, min, max}
use Prim.Native.Nat.{bit_and, bit_or, digits, bit_and-bitwise, bit_or-bitwise}
use mathlib.Core.Path.{◌≡◌, refl, ap, ap₂, ◌∙◌}
use mathlib.Core.Bool.{Bool, true, ◌&&◌}
use native.Mathlib.Nat.{pow-suc, one-le-pow}
use native.Mathlib.Omega.{arith}

-- More fuel than digits changes nothing.
module _ (z : ℕ → ℕ) (f : ℕ → ℕ → ℕ) where
  digits-enough : (n a b : ℕ) (m : ℕ) → a ≤ n → a ≤ m → digits z f n a b ≡ digits z f m a b
  digits-enough zero zero b zero p q = refl
  digits-enough zero zero b (suc m) p q = refl
  digits-enough zero (suc a) b m p q = absurd (omega arith)
  digits-enough (suc n) zero b zero p q = refl
  digits-enough (suc n) zero b (suc m) p q = refl
  digits-enough (suc n) (suc a) b zero p q = absurd (omega arith)
  digits-enough (suc n) (suc a) b (suc m) p q =
      ap (λ t. t * 2 + f (suc a % 2) (b % 2))
        (digits-enough n (suc a / 2) (b / 2) m (omega arith) (omega arith))

pub bit_and_lowest : (a b : ℕ) → bit_and a b ≡ bit_and (a / 2) (b / 2) * 2 + min (a % 2) (b % 2)
bit_and_lowest zero b = rw (bit_and-bitwise 0 b, bit_and-bitwise 0 (b / 2)) (omega arith)
bit_and_lowest (suc a) b =
    rw (bit_and-bitwise (suc a) b, bit_and-bitwise (suc a / 2) (b / 2))
      (ap (λ t. t * 2 + min (suc a % 2) (b % 2))
        (digits-enough _ min a (suc a / 2) (b / 2) (suc a / 2) (omega arith) (omega arith)))

pub bit_or_lowest : (a b : ℕ) → bit_or a b ≡ bit_or (a / 2) (b / 2) * 2 + max (a % 2) (b % 2)
bit_or_lowest zero b = rw (bit_or-bitwise 0 b, bit_or-bitwise 0 (b / 2)) (omega arith)
bit_or_lowest (suc a) b =
    rw (bit_or-bitwise (suc a) b, bit_or-bitwise (suc a / 2) (b / 2))
      (ap (λ t. t * 2 + max (suc a % 2) (b % 2))
        (digits-enough _ max a (suc a / 2) (b / 2) (suc a / 2) (omega arith) (omega arith)))

pub two_pow : (q k : ℕ) → q * 2 ^ suc k ≡ 2 * (q * 2 ^ k)
two_pow q k = omega (arith, ap (λ (t : ℕ). q * t) (pow-suc 2 k))

-- Words that are split at bit `k` are combined part by part.
pub bit_and_split :
    (k q r s t : ℕ)
    → r < 2 ^ k
    → t < 2 ^ k
    → bit_and (q * 2 ^ k + r) (s * 2 ^ k + t) ≡ bit_and q s * 2 ^ k + bit_and r t
bit_and_split zero q zero s zero p p' = ground (arith)
bit_and_split zero q (suc r) s t p p' = absurd (omega arith)
bit_and_split zero q zero s (suc t) p p' = absurd (omega arith)
bit_and_split (suc k) q r s t p p' = ground (
  arith,
  bit_and_lowest (q * 2 ^ suc k + r) (s * 2 ^ suc k + t),
  bit_and_lowest r t,
  two_pow q k,
  two_pow s k,
  two_pow (bit_and q s) k,
  pow-suc 2 k,
  bit_and_split k q (r / 2) s (t / 2) (omega (arith, pow-suc 2 k)) (omega (arith, pow-suc 2 k)),
)

pub bit_or_split :
    (k q r s t : ℕ)
    → r < 2 ^ k
    → t < 2 ^ k
    → bit_or (q * 2 ^ k + r) (s * 2 ^ k + t) ≡ bit_or q s * 2 ^ k + bit_or r t
bit_or_split zero q zero s zero p p' = ground (arith)
bit_or_split zero q (suc r) s t p p' = absurd (omega arith)
bit_or_split zero q zero s (suc t) p p' = absurd (omega arith)
bit_or_split (suc k) q r s t p p' = ground (
  arith,
  bit_or_lowest (q * 2 ^ suc k + r) (s * 2 ^ suc k + t),
  bit_or_lowest r t,
  two_pow q k,
  two_pow s k,
  two_pow (bit_or q s) k,
  pow-suc 2 k,
  bit_or_split k q (r / 2) s (t / 2) (omega (arith, pow-suc 2 k)) (omega (arith, pow-suc 2 k)),
)

zero-bit_and : (b : ℕ) → bit_and 0 b ≡ 0
zero-bit_and b = bit_and-bitwise 0 b

bit_and-zero_within : (n a : ℕ) → a ≤ n → bit_and a 0 ≡ 0
bit_and-zero_within zero zero p = refl
bit_and-zero_within zero (suc a) p = absurd (omega arith)
bit_and-zero_within (suc n) zero p = refl
bit_and-zero_within (suc n) (suc a) p =
    omega (arith, bit_and_lowest (suc a) 0, bit_and-zero_within n (suc a / 2) (omega arith))

pub bit_and-zero : (a : ℕ) → bit_and a 0 ≡ 0
bit_and-zero a = bit_and-zero_within a a (omega arith)

bit_or-zero_within : (n a : ℕ) → a ≤ n → bit_or a 0 ≡ a
bit_or-zero_within zero zero p = refl
bit_or-zero_within zero (suc a) p = absurd (omega arith)
bit_or-zero_within (suc n) zero p = refl
bit_or-zero_within (suc n) (suc a) p =
    omega (arith, bit_or_lowest (suc a) 0, bit_or-zero_within n (suc a / 2) (omega arith))

pub bit_or-zero : (a : ℕ) → bit_or a 0 ≡ a
bit_or-zero a = bit_or-zero_within a a (omega arith)

pub zero-bit_or : (a : ℕ) → bit_or 0 a ≡ a
zero-bit_or a = bit_or-bitwise 0 a

bit_and_ones : (k r : ℕ) → r < 2 ^ k → bit_and r (2 ^ k - 1) ≡ r
bit_and_ones zero zero p = refl
bit_and_ones zero (suc r) p = absurd (omega arith)
bit_and_ones (suc k) r p = ground (
  arith,
  bit_and_lowest r (2 ^ suc k - 1),
  pow-suc 2 k,
  one-le-pow k 2,
  bit_and_ones k (r / 2) (omega (arith, pow-suc 2 k)),
)

-- The mask of the `k` low bits.
pub bit_and_low : (k a : ℕ) → bit_and a (2 ^ k - 1) ≡ a % 2 ^ k
bit_and_low k a = ground (
  arith,
  one-le-pow k 2,
  bit_and_split k (a / 2 ^ k) (a % 2 ^ k) 0 (2 ^ k - 1),
  bit_and-zero (a / 2 ^ k),
  bit_and_ones k (a % 2 ^ k),
)

-- A mask whose `k` low bits are clear reads the word from bit `k` on.
pub bit_and_high : (k a m : ℕ) → bit_and a (m * 2 ^ k) ≡ bit_and (a / 2 ^ k) m * 2 ^ k
bit_and_high k a m =
    ground
      (arith, one-le-pow k 2, bit_and_split k (a / 2 ^ k) (a % 2 ^ k) m 0, bit_and-zero (a % 2 ^ k))

bit_or_bound : (k a b : ℕ) → a < 2 ^ k → b < 2 ^ k → bit_or a b < 2 ^ k
bit_or_bound zero zero zero p q = omega arith
bit_or_bound zero (suc a) b p q = absurd (omega arith)
bit_or_bound zero zero (suc b) p q = absurd (omega arith)
bit_or_bound (suc k) a b p q = omega (
  arith,
  pow-suc 2 k,
  bit_or_lowest a b,
  bit_or_bound k (a / 2) (b / 2) (omega (arith, pow-suc 2 k)) (omega (arith, pow-suc 2 k)),
)

module _ (d q r : ℕ) (p : r < d) where
  quotient_unique : (q * d + r) / d ≡ q
  quotient_unique = grind arith

  remainder_unique : (q * d + r) % d ≡ r
  remainder_unique = grind arith

-- The parts of a disjunction above and below bit `k`.
module _ (k a b : ℕ) where
  bit_or_joined :
      bit_or a b ≡ bit_or (a / 2 ^ k) (b / 2 ^ k) * 2 ^ k + bit_or (a % 2 ^ k) (b % 2 ^ k)
  bit_or_joined = ground (
    arith,
    one-le-pow k 2,
    bit_or_split k (a / 2 ^ k) (a % 2 ^ k) (b / 2 ^ k) (b % 2 ^ k),
    ap₂ bit_or (rejoin a) (rejoin b),
  )
    where
      rejoin : (c : ℕ) → c ≡ c / 2 ^ k * 2 ^ k + c % 2 ^ k
      rejoin c = omega arith

  low_bound : bit_or (a % 2 ^ k) (b % 2 ^ k) < 2 ^ k
  low_bound =
      bit_or_bound k (a % 2 ^ k) (b % 2 ^ k) (omega (arith, one-le-pow k 2))
        (omega (arith, one-le-pow k 2))

  pub bit_or-div : bit_or a b / 2 ^ k ≡ bit_or (a / 2 ^ k) (b / 2 ^ k)
  bit_or-div = ap (λ x. x / 2 ^ k) bit_or_joined ∙ quotient_unique (2 ^ k) _ _ low_bound

  pub bit_or-mod : bit_or a b % 2 ^ k ≡ bit_or (a % 2 ^ k) (b % 2 ^ k)
  bit_or-mod =
      ap (λ x. x % 2 ^ k) bit_or_joined
      ∙ remainder_unique (2 ^ k) (bit_or (a / 2 ^ k) (b / 2 ^ k)) _ low_bound

-- A disjunction of a field with what lies below it is their sum.
pub bit_or_below : (k q r : ℕ) → r < 2 ^ k → bit_or r (q * 2 ^ k) ≡ q * 2 ^ k + r
bit_or_below k q r p =
    ground (arith, one-le-pow k 2, bit_or_split k 0 r q 0, zero-bit_or q, bit_or-zero r)

abbrev pub all_below : ℕ → (ℕ → Bool) → Bool
all_below zero p = true
all_below (suc n) p = p n && all_below n p

-- A property of small numbers, checked at each of them.
pub all_below_sound : (n : ℕ) (p : ℕ → Bool) (x : ℕ) → all_below n p ≡ true → x < n → p x ≡ true
all_below_sound zero p x h lt = absurd (omega arith)
all_below_sound (suc n) p x h lt = ground (arith, all_below_sound n p x)
