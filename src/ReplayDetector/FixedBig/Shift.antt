-- ===== src/ReplayDetector/FixedBig/Shift.antt =====
-- `Lsh` moves every bit of the slice up by n places.
use transport.Prelude.{
  ℕ, ◌+◌, ◌-◌, ◌*◌, ◌/◌, ◌%◌, ◌≤◌, ◌<◌, ◌≡◌, false, List, leb, ◌&&◌, get_or, arith, Bool-cases, inl,
  inr,
}
use transport.Words.{test_bit, shl64, shr}
use transport.Words.Laws.{IsWord, test_bit-bit_or, test_bit-zero, test_bit-shl64, test_bit-shr}
use transport.ReplayDetector.FixedBig.{carry, shifted_word}
use transport.ReplayDetector.FixedBig.Laws.{slice_bit}

module _ (bits : List ℕ) (n j p : ℕ) (low : p < 64) where
  abbrev q : ℕ
  q = n / 64

  abbrev r : ℕ
  r = n % 64

  abbrev old : ℕ
  old = 64 * j + p - n

  below : 64 * j + p < n → test_bit (shifted_word bits n j) p ≡ false
  unfolding shifted_word carry
  below h = ground (
    arith,
    test_bit-bit_or p (shl64 (get_or bits j 0) n) (carry bits n j),
    test_bit-shl64 n p (get_or bits j 0),
    test_bit-shl64 r p (get_or bits (j - q) 0),
    test_bit-zero p,
  )

  same_word :
      q ≤ j
      → r ≤ p
      → ((j : ℕ) → IsWord (get_or bits j 0))
      → test_bit (shifted_word bits n j) p ≡ slice_bit bits old
  unfolding shifted_word carry
  same_word hj hp w =
      let word : old / 64 ≡ j - q = omega arith in
      let place : old % 64 ≡ p - r = omega arith in
      rw (word, place)
        (ground (
          arith,
          test_bit-bit_or p (shl64 (get_or bits j 0) n) (carry bits n j),
          test_bit-bit_or p (shl64 (get_or bits (j - q) 0) r)
              (shr (get_or bits (j - q - 1) 0) (64 - r)),
          test_bit-shl64 n p (get_or bits j 0),
          test_bit-shl64 r p (get_or bits (j - q) 0),
          test_bit-shr (64 - r) p (get_or bits (j - q - 1) 0),
          w (j - q - 1) (p + (64 - r)),
        ))

  word_below : q + 1 ≤ j → p < r → test_bit (shifted_word bits n j) p ≡ slice_bit bits old
  unfolding shifted_word carry
  word_below hj hp =
      let word : old / 64 ≡ j - q - 1 = omega arith in
      let place : old % 64 ≡ p + (64 - r) = omega arith in
      rw (word, place)
        (ground (
          arith,
          test_bit-bit_or p (shl64 (get_or bits j 0) n) (carry bits n j),
          test_bit-bit_or p (shl64 (get_or bits (j - q) 0) r)
              (shr (get_or bits (j - q - 1) 0) (64 - r)),
          test_bit-shl64 n p (get_or bits j 0),
          test_bit-shl64 r p (get_or bits (j - q) 0),
          test_bit-shr (64 - r) p (get_or bits (j - q - 1) 0),
        ))

  -- One bit of a word that the loop of `Lsh` writes.
  pub test_bit-shifted_word :
      ((j : ℕ) → IsWord (get_or bits j 0))
      → test_bit (shifted_word bits n j) p ≡ (leb n (64 * j + p) && slice_bit bits old)
  test_bit-shifted_word w = elim (Bool-cases (leb n (64 * j + p))) [
    | inr short ↦ rw short (below (ground arith))
    | inl enough ↦ rw enough (elim (Bool-cases (leb r p)) [
      | inl here ↦ same_word (ground arith) (ground arith) w
      | inr there ↦ word_below (ground arith) (ground arith)
    ])
  ]

-- Above bit 63 a written word has no bits.
pub IsWord-shifted_word :
    (bits : List ℕ) (n j : ℕ)
    → ((k : ℕ) → IsWord (get_or bits k 0))
    → IsWord (shifted_word bits n j)
unfolding shifted_word carry
IsWord-shifted_word bits n j w i h = ground (
  arith,
  test_bit-bit_or i (shl64 (get_or bits j 0) n) (carry bits n j),
  test_bit-bit_or i (shl64 (get_or bits (j - n / 64) 0) (n % 64))
      (shr (get_or bits (j - n / 64 - 1) 0) (64 - n % 64)),
  test_bit-shl64 n i (get_or bits j 0),
  test_bit-shl64 (n % 64) i (get_or bits (j - n / 64) 0),
  test_bit-shr (64 - n % 64) i (get_or bits (j - n / 64 - 1) 0),
  w (j - n / 64 - 1) (i + (64 - n % 64)),
  test_bit-zero i,
)
