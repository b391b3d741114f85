-- ===== src/ReplayDetector/FixedBig/Bits.antt =====
-- The methods of fixedBigInt as operations on a window of n bits: `Bit` reads, `SetBit` adds one,
-- `Lsh` moves all of them up and drops what leaves the window.
use Prim.Native.Nat.{bit_and, bit_or}
use transport.Prelude.{
  ℕ, zero, suc, ◌+◌, ◌-◌, ◌*◌, ◌/◌, ◌%◌, ◌^◌, ◌<◌, ◌≡◌, refl, ◌∙◌, max, Bool, true, false, List,
  ◌==◌, ltb, leb, ◌&&◌, ◌||◌, if◌then◌else◌, length, get_or, set, replicate, arith, length-set,
  length-replicate, Bool-cases, inl, inr,
}
use transport.Words.{test_bit, shr}
use transport.Words.Laws.{
  IsWord, test_bit-bit_or, test_bit-bit_and, test_bit-zero, test_bit-pow, masked-test_bit,
  test_bit-shr, test_bit-ones,
}
use transport.ReplayDetector.FixedBig.{
  FixedBigInt, new_fixed_big_int, lsh_loop, mask_top, lsh, bit, set_bit,
}
use transport.ReplayDetector.FixedBig.Laws.{
  IsValid, slice_bit, get_or-set_self, get_or-set_ne, get_or-lsh_loop, length-lsh_loop, IsWord-set,
}
use transport.ReplayDetector.FixedBig.Shift.{test_bit-shifted_word, IsWord-shifted_word}

-- The window as a set of positions: what `Bit` returns, as a test.
pub has : FixedBigInt → ℕ → Bool
has s i = ltb i s.n && slice_bit s.bits i

-- Only positions of the window are in it.
pub has-lt : (s : FixedBigInt) (i : ℕ) → has s i ≡ true → i < s.n
unfolding has
has-lt s i h = ground arith

pub bit-has : (s : FixedBigInt) (i : ℕ) → bit s i ≡ (if has s i then 1 else 0)
unfolding bit has
bit-has s i = ground (arith, masked-test_bit (i % 64) (get_or s.bits (i / 64) 0))

abbrev zeros : ℕ → List ℕ
zeros k = replicate k 0

get_or-replicate : (k j : ℕ) → get_or (zeros k) j 0 ≡ 0
get_or-replicate zero j = refl
get_or-replicate (suc k) zero = refl
get_or-replicate (suc k) (suc j) = get_or-replicate k j

-- A new value is valid and empty, where the size can be rounded up to words.
pub new_fixed_big_int_lem :
    (n : ℕ)
    → n + 63 < 2 ^ 64
    → IsValid (new_fixed_big_int n)
      × ((i : ℕ) → has (new_fixed_big_int n) i ≡ false)
      × ((new_fixed_big_int n).n ≡ n)
unfolding new_fixed_big_int has
new_fixed_big_int_lem n h = (
  record {
    room = omega (arith, size);
    words = λ j i hi. rw (get_or-replicate chunks j) (test_bit-zero i);
    mask = λ i hi. ones i hi;
  },
  λ i. ground (arith, get_or-replicate chunks (i / 64), test_bit-zero (i % 64)),
  refl,
)
  where
    chunks : ℕ
    chunks = max ((n + 63) % 2 ^ 64 / 64) 1

    size : length (zeros chunks) ≡ chunks
    size = length-replicate chunks 0

    ones :
        (i : ℕ)
        → 64 * (length (zeros chunks) - 1) + i < n
        → test_bit (shr (2 ^ 64 - 1) ((64 - n % 64) % 64)) i ≡ true
    ones i hi = ground (
      arith,
      size,
      test_bit-shr ((64 - n % 64) % 64) i (2 ^ 64 - 1),
      test_bit-ones 64 (i + (64 - n % 64) % 64),
    )

set_bit-IsValid : (s : FixedBigInt) (k : ℕ) → IsValid s → IsValid (set_bit s k)
unfolding set_bit
set_bit-IsValid s k v = elim (Bool-cases (leb s.n k)) [
  | inl out ↦ rw out v
  | inr inside ↦ rw inside (record {
    room = omega (arith, length-set s.bits (k / 64) new, v.room);
    words = words;
    mask = λ i hi. v.mask i (omega (arith, length-set s.bits (k / 64) new));
  })
]
  where
    new : ℕ
    new = bit_or (get_or s.bits (k / 64) 0) (2 ^ (k % 64))

    words : (j : ℕ) → IsWord (get_or (set s.bits (k / 64) new) j 0)
    words j =
        IsWord-set s.bits (k / 64) new j
          (λ i hi. ground (
            arith,
            test_bit-bit_or i (get_or s.bits (k / 64) 0) (2 ^ (k % 64)),
            test_bit-pow (k % 64) i,
            v.words (k / 64) i hi,
          ))
          v.words

has-set_bit :
    (s : FixedBigInt) (k i : ℕ)
    → IsValid s
    → has (set_bit s k) i ≡ (has s i || (ltb i s.n && k == i))
unfolding set_bit has
has-set_bit s k i v = ground (
  arith,
  v.room,
  get_or-set_self s.bits (k / 64) (bit_or (get_or s.bits (k / 64) 0) (2 ^ (k % 64))) 0,
  get_or-set_ne s.bits (k / 64) (i / 64) (bit_or (get_or s.bits (k / 64) 0) (2 ^ (k % 64))) 0,
  test_bit-bit_or (i % 64) (get_or s.bits (k / 64) 0) (2 ^ (k % 64)),
  test_bit-pow (k % 64) (i % 64),
)

module _ (s : FixedBigInt) (k : ℕ) (v : IsValid s) where
  abbrev moved : List ℕ
  moved = lsh_loop k (length s.bits) s.bits

  moved-IsWord : (j : ℕ) → IsWord (get_or moved j 0)
  moved-IsWord j i hi = ground (
    arith,
    get_or-lsh_loop k (length s.bits) j s.bits,
    IsWord-shifted_word s.bits k j v.words i hi,
    v.words j i hi,
  )

  lsh-IsValid : IsValid (lsh s k)
  unfolding lsh mask_top
  lsh-IsValid = elim (Bool-cases (k == 0)) [
    | inl still ↦ rw still v
    | inr moves ↦ rw moves (record {
      room = omega (arith, lengths, v.room);
      words = λ j.
          IsWord-set moved (length moved - 1) top j
            (λ i hi. ground (
              arith,
              test_bit-bit_and i (get_or moved (length moved - 1) 0) s.msb_mask,
              moved-IsWord (length moved - 1) i hi,
            ))
            moved-IsWord;
      mask = λ i hi. v.mask i (omega (arith, lengths));
    })
  ]
    where
      top : ℕ
      top = bit_and (get_or moved (length moved - 1) 0) s.msb_mask

      lengths : length (mask_top s.msb_mask moved) ≡ length s.bits
      lengths = length-set moved (length moved - 1) top ∙ length-lsh_loop k (length s.bits) s.bits

  -- The mask leaves the bits of the window as they are.
  slice_bit-mask_top :
      (i : ℕ) → i < s.n → slice_bit (mask_top s.msb_mask moved) i ≡ slice_bit moved i
  unfolding mask_top
  slice_bit-mask_top i hi = ground (
    arith,
    v.room,
    lengths,
    get_or-set_self moved (length moved - 1) top 0,
    get_or-set_ne moved (length moved - 1) (i / 64) top 0,
    test_bit-bit_and (i % 64) (get_or moved (length moved - 1) 0) s.msb_mask,
    v.mask (i % 64),
  )
    where
      top : ℕ
      top = bit_and (get_or moved (length moved - 1) 0) s.msb_mask

      lengths : length moved ≡ length s.bits
      lengths = length-lsh_loop k (length s.bits) s.bits

  has-lsh : (i : ℕ) → has (lsh s k) i ≡ (ltb i s.n && (leb k i && has s (i - k)))
  unfolding lsh has
  has-lsh i = elim (Bool-cases (k == 0)) [
    | inl still ↦ let same : i - k ≡ i = ground arith in rw (still, same) (ground arith)
    | inr moves ↦ rw moves (elim (Bool-cases (ltb i s.n)) [
      | inr out ↦ rw out
      | inl inside ↦ rw inside (
          ground (
            arith,
            v.room,
            slice_bit-mask_top i (ground arith),
            get_or-lsh_loop k (length s.bits) (i / 64) s.bits,
            rw whole at (test_bit-shifted_word s.bits k (i / 64) (i % 64) (omega arith) v.words),
          ))
    ])
  ]
    where
      whole : 64 * (i / 64) + i % 64 ≡ i
      whole = omega arith

-- `SetBit` adds its position to the window and `Lsh` moves the window up, dropping what leaves it;
-- both keep the value valid, and the size.
pub set_bit-lsh :
    (s : FixedBigInt) (k : ℕ)
    → IsValid s
    → (IsValid (set_bit s k) × IsValid (lsh s k))
      × (((set_bit s k).n ≡ s.n) × ((lsh s k).n ≡ s.n))
      × ((i : ℕ) → has (set_bit s k) i ≡ (has s i || (ltb i s.n && k == i)))
      × ((i : ℕ) → has (lsh s k) i ≡ (ltb i s.n && (leb k i && has s (i - k))))
unfolding set_bit lsh
set_bit-lsh s k v = (
  (set_bit-IsValid s k v, lsh-IsValid s k v),
  (ground arith, ground arith),
  λ i. has-set_bit s k i v,
  has-lsh s k v,
)
