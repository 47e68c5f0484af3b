-- ===== src/Wt/Popcount/Bytes.antt =====
-- numbers_of_bits_set of dicedev_wt.c on each byte of its argument. For a byte the facts are
-- checked by a table.
use dicedev_linux_driver.Base.{
  ℕ, zero, suc, ◌+◌, ◌-◌, ◌*◌, ◌/◌, ◌%◌, ◌^◌, ◌<◌, ◌≤◌, ◌≡◌, refl, ◌∙◌, ap, Bool, true, arith,
  bit_and, ◌==◌, leb, ◌&&◌,
}
use dicedev_linux_driver.Base.Bits.{bit_and_split, all_below, all_below_sound}
use dicedev_linux_driver.Dice.{◌>>>◌}
use dicedev_linux_driver.Wt.Popcount.{pairs}

-- The bits of the lowest `n` places.
unfoldable pub popcount : ℕ → ℕ → ℕ
popcount zero x = 0
popcount (suc n) x = x % 2 + popcount n (x / 2)

abbrev pub word : ℕ → ℕ → ℕ → ℕ → ℕ
word a b c d = ((a * 2 ^ 8 + b) * 2 ^ 8 + c) * 2 ^ 8 + d

-- The three steps on a byte.
abbrev pub pair_byte : ℕ → ℕ
pair_byte b = b - bit_and (b / 2) 0x55

abbrev pub quad_byte : ℕ → ℕ
quad_byte b = bit_and b 0x33 + bit_and (b / 4) 0x33

abbrev pub group_byte : ℕ → ℕ
group_byte b = (b + b / 16) % 16

abbrev byte_ok : ℕ → Bool
byte_ok b =
    let q = quad_byte (pair_byte b) in
    leb (bit_and (b / 2) 0x55) b
    && bit_and (b / 2 + 128) 0x55 == bit_and (b / 2) 0x55
    && leb (q % 16) 4
    && leb (q / 16) 4
    && group_byte q == popcount 8 b

abbrev shifted_ok : ℕ → Bool
shifted_ok b =
    leb (bit_and b 0x33) 0x33
    && leb (bit_and (b / 4) 0x33) 0x33
    && bit_and (b / 4 + 64) 0x33 == bit_and (b / 4) 0x33
    && bit_and (b / 4 + 128) 0x33 == bit_and (b / 4) 0x33
    && bit_and (b / 4 + 192) 0x33 == bit_and (b / 4) 0x33
    && bit_and b 0x0F == b % 16

byte_table : all_below 256 byte_ok ≡ true
unfolding popcount
byte_table = refl

shifted_table : all_below 256 shifted_ok ≡ true
shifted_table = refl

pub record ByteFacts (b : ℕ) : Type 0 where
  pub below : bit_and (b / 2) 0x55 ≤ b
  pub carry : (r : ℕ) → r < 2 → bit_and (b / 2 + 128 * r) 0x55 ≡ bit_and (b / 2) 0x55
  pub low : quad_byte (pair_byte b) % 16 ≤ 4
  pub high : quad_byte (pair_byte b) / 16 ≤ 4
  pub counted : group_byte (quad_byte (pair_byte b)) ≡ popcount 8 b

byte_carry :
    (b r : ℕ)
    → r < 2
    → bit_and (b / 2 + 128) 0x55 ≡ bit_and (b / 2) 0x55
    → bit_and (b / 2 + 128 * r) 0x55 ≡ bit_and (b / 2) 0x55
byte_carry b zero h e = let z : b / 2 + 128 * 0 ≡ b / 2 = omega arith in rw z
byte_carry b (suc zero) h e = e
byte_carry b (suc (suc r)) h e = absurd (omega arith)

pub byte_facts : (b : ℕ) → b < 256 → ByteFacts b
byte_facts b h =
    let ok = all_below_sound 256 byte_ok b byte_table h in
    record {
      below = ground arith;
      carry = λ r small. byte_carry b r small (ground arith);
      low = ground arith;
      high = ground arith;
      counted = ground arith;
    }

pub record QuadFacts (b : ℕ) : Type 0 where
  pub first : bit_and b 0x33 ≤ 0x33
  pub second : bit_and (b / 4) 0x33 ≤ 0x33
  pub carry : (r : ℕ) → r < 4 → bit_and (b / 4 + 64 * r) 0x33 ≡ bit_and (b / 4) 0x33

quad_carry :
    (b r : ℕ) → r < 4 → shifted_ok b ≡ true → bit_and (b / 4 + 64 * r) 0x33 ≡ bit_and (b / 4) 0x33
quad_carry b zero h e = let z : b / 4 + 64 * 0 ≡ b / 4 = omega arith in rw z
quad_carry b (suc zero) h e = ground arith
quad_carry b (suc (suc zero)) h e = ground arith
quad_carry b (suc (suc (suc zero))) h e = ground arith
quad_carry b (suc (suc (suc (suc r)))) h e = absurd (omega arith)

pub quad_facts : (b : ℕ) → b < 256 → QuadFacts b
quad_facts b h =
    let ok = all_below_sound 256 shifted_ok b shifted_table h in
    record {
      first = ground arith;
      second = ground arith;
      carry = λ r small. quad_carry b r small ok;
    }

pub low_nibble : (b : ℕ) → b < 256 → bit_and b 0x0F ≡ b % 16
low_nibble b h = let ok = all_below_sound 256 shifted_ok b shifted_table h in ground arith

-- A mask that repeats in each byte.
module _ (a b c d m : ℕ) (pa : a < 256) (pb : b < 256) (pc : c < 256) (pd : d < 256)
    (pm : m < 256) where
  pub bit_and-word :
      bit_and (word a b c d) (word m m m m)
      ≡ word (bit_and a m) (bit_and b m) (bit_and c m) (bit_and d m)
  bit_and-word =
      bit_and_split 8 ((a * 2 ^ 8 + b) * 2 ^ 8 + c) d ((m * 2 ^ 8 + m) * 2 ^ 8 + m) m (omega arith)
        (omega arith)
      ∙ ap (λ x. x * 2 ^ 8 + bit_and d m)
          (bit_and_split 8 (a * 2 ^ 8 + b) c (m * 2 ^ 8 + m) m (omega arith) (omega arith)
            ∙ ap (λ x. x * 2 ^ 8 + bit_and c m)
                (bit_and_split 8 a b m m (omega arith) (omega arith)))

module _ (a b c d : ℕ) (pa : a < 256) (pb : b < 256) (pc : c < 256) (pd : d < 256) where
  pub pairs-word :
      pairs (word a b c d) ≡ word (pair_byte a) (pair_byte b) (pair_byte c) (pair_byte d)
  pairs-word =
      let shift : word a b c d >>> 1
          ≡ word (a / 2) (b / 2 + 128 * (a % 2)) (c / 2 + 128 * (b % 2)) (d / 2 + 128 * (c % 2)) =
        omega arith in
      let masked =
        bit_and-word (a / 2) (b / 2 + 128 * (a % 2)) (c / 2 + 128 * (b % 2)) (d / 2 + 128 * (c % 2))
          0x55 (omega arith) (omega arith) (omega arith) (omega arith) (omega arith) in
      rw
        (
          shift,
          masked,
          (byte_facts b pb).carry (a % 2) (omega arith),
          (byte_facts c pc).carry (b % 2) (omega arith),
          (byte_facts d pd).carry (c % 2) (omega arith),
        )
        (omega (
          arith,
          (byte_facts a pa).below,
          (byte_facts b pb).below,
          (byte_facts c pc).below,
          (byte_facts d pd).below,
        ))
