-- ===== src/Wt/Popcount/Count.antt =====
-- numbers_of_bits_set of dicedev_wt.c on a word: the bytes put together.
use dicedev_linux_driver.Base.{ℕ, zero, suc, ◌+◌, ◌*◌, ◌/◌, ◌%◌, ◌^◌, ◌<◌, ◌≤◌, ◌≡◌, refl, arith}
use native.Mathlib.Nat.{pow-suc}
use dicedev_linux_driver.Base.Bits.{two_pow}
use dicedev_linux_driver.Dice.{u32, ◌>>>◌}
use dicedev_linux_driver.Wt.Popcount.{quads, groups, numbers_of_bits_set}
use dicedev_linux_driver.Wt.Popcount.Bytes.{
  popcount, word, pair_byte, quad_byte, group_byte, byte_facts, quad_facts, low_nibble,
  bit_and-word, pairs-word,
}

module _ (a b c d : ℕ) (pa : a < 256) (pb : b < 256) (pc : c < 256) (pd : d < 256) where
  quads-word : quads (word a b c d) ≡ word (quad_byte a) (quad_byte b) (quad_byte c) (quad_byte d)
  quads-word =
      let shift : word a b c d >>> 2
          ≡ word (a / 4) (b / 4 + 64 * (a % 4)) (c / 4 + 64 * (b % 4)) (d / 4 + 64 * (c % 4)) =
        omega arith in
      let fb = quad_facts b pb in
      let fc = quad_facts c pc in
      let fd = quad_facts d pd in
      let fa = quad_facts a pa in
      rw
        (
          shift,
          bit_and-word a b c d 0x33 pa pb pc pd (omega arith),
          bit_and-word (a / 4) (b / 4 + 64 * (a % 4)) (c / 4 + 64 * (b % 4)) (d / 4 + 64 * (c % 4))
              0x33 (omega arith) (omega arith) (omega arith) (omega arith) (omega arith),
          fb.carry (a % 4) (omega arith),
          fc.carry (b % 4) (omega arith),
          fd.carry (c % 4) (omega arith),
        )
        (omega (
          arith, fa.first, fa.second, fb.first, fb.second, fc.first, fc.second, fd.first, fd.second,
        ))

  -- With nibbles of 4 at most the sums stay in their bytes.
  groups-word :
      (a % 16 ≤ 4) × (a / 16 ≤ 4)
      → (b % 16 ≤ 4) × (b / 16 ≤ 4)
      → (c % 16 ≤ 4) × (c / 16 ≤ 4)
      → (d % 16 ≤ 4) × (d / 16 ≤ 4)
      → groups (word a b c d) ≡ word (group_byte a) (group_byte b) (group_byte c) (group_byte d)
  groups-word (la, ha) (lb, hb) (lc, hc) (ld, hd) =
      let b' = b + b / 16 + 16 * (a % 16) in
      let c' = c + c / 16 + 16 * (b % 16) in
      let d' = d + d / 16 + 16 * (c % 16) in
      let a' = a + a / 16 in
      let sum : u32 (word a b c d + word a b c d >>> 4) ≡ word a' b' c' d' = omega arith in
      rw
        (
          sum,
          bit_and-word a' b' c' d' 0x0F (omega arith) (omega arith) (omega arith) (omega arith)
              (omega arith),
          low_nibble a' (omega arith),
          low_nibble b' (omega arith),
          low_nibble c' (omega arith),
          low_nibble d' (omega arith),
        )
        (omega arith)

popcount-le : (n x : ℕ) → popcount n x ≤ n
unfolding popcount
popcount-le zero x = omega arith
popcount-le (suc n) x = omega (arith, popcount-le n (x / 2))

popcount_split :
    (k n j q r : ℕ)
    → j ≡ k + n
    → r < 2 ^ k
    → popcount j (q * 2 ^ k + r) ≡ popcount k r + popcount n q
unfolding popcount
popcount_split zero n j q zero e p =
    let x : q * 2 ^ 0 + 0 ≡ q = omega arith in
    let y : j ≡ n = omega arith in rw (x, y) (omega arith)
popcount_split zero n j q (suc r) e p = absurd (omega arith)
popcount_split (suc k) n zero q r e p = absurd (omega arith)
popcount_split (suc k) n (suc j) q r e p =
    let half : (q * 2 ^ suc k + r) / 2 ≡ q * 2 ^ k + r / 2 = omega (arith, two_pow q k) in
    let digit : (q * 2 ^ suc k + r) % 2 ≡ r % 2 = omega (arith, two_pow q k) in
    rw (half, digit)
      (omega (arith, popcount_split k n j q (r / 2) (omega arith) (omega (arith, pow-suc 2 k))))

module _ (a b c d : ℕ) (pa : a < 256) (pb : b < 256) (pc : c < 256) (pd : d < 256) where
  popcount-word :
      popcount 32 (word a b c d) ≡ popcount 8 a + popcount 8 b + popcount 8 c + popcount 8 d
  popcount-word = omega (
    arith,
    popcount_split 8 24 32 ((a * 2 ^ 8 + b) * 2 ^ 8 + c) d refl pd,
    popcount_split 8 16 24 (a * 2 ^ 8 + b) c refl pc,
    popcount_split 8 8 16 a b refl pb,
  )

  counted_word : numbers_of_bits_set (word a b c d) ≡ popcount 32 (word a b c d)
  unfolding numbers_of_bits_set
  counted_word =
      let fa = byte_facts a pa in
      let fb = byte_facts b pb in
      let fc = byte_facts c pc in
      let fd = byte_facts d pd in
      rw
        (
          pairs-word a b c d pa pb pc pd,
          quads-word (pair_byte a) (pair_byte b) (pair_byte c) (pair_byte d) (omega arith)
              (omega arith) (omega arith) (omega arith),
          groups-word (quad_byte (pair_byte a)) (quad_byte (pair_byte b)) (quad_byte (pair_byte c))
              (quad_byte (pair_byte d)) (omega (arith, fa.high)) (omega (arith, fb.high))
              (omega (arith, fc.high)) (omega (arith, fd.high)) (fa.low, fa.high) (fb.low, fb.high)
              (fc.low, fc.high) (fd.low, fd.high),
          fa.counted,
          fb.counted,
          fc.counted,
          fd.counted,
          popcount-word,
        )
        (omega (arith, popcount-le 8 a, popcount-le 8 b, popcount-le 8 c, popcount-le 8 d))

-- On every 32-bit word numbers_of_bits_set gives the number of bits that are set.
pub numbers_of_bits_set-popcount : (x : ℕ) → x < 2 ^ 32 → numbers_of_bits_set x ≡ popcount 32 x
numbers_of_bits_set-popcount x h =
    let bytes : x ≡ word (x / 2 ^ 24) (x / 2 ^ 16 % 256) (x / 2 ^ 8 % 256) (x % 256) =
      omega arith in
    rw bytes (
      counted_word (x / 2 ^ 24) (x / 2 ^ 16 % 256) (x / 2 ^ 8 % 256) (x % 256) (omega arith)
        (omega arith) (omega arith) (omega arith))
