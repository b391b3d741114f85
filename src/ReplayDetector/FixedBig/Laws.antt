-- ===== src/ReplayDetector/FixedBig/Laws.antt =====
-- What the operations of fixedBigInt do to its single bits.
use transport.Prelude.{
  ℕ, zero, suc, ◌+◌, ◌-◌, ◌*◌, ◌/◌, ◌%◌, ◌≤◌, ◌<◌, ◌≡◌, ◌≢◌, refl, ap, ◌∙◌, Bool, true, List, [],
  ◌∷◌, ltb, if◌then◌else◌, length, get_or, set, arith, length-set,
}
use transport.Words.{test_bit}
use transport.Words.Laws.{IsWord}
use transport.ReplayDetector.FixedBig.{FixedBigInt, carry, shifted_word, lsh_loop}

pub get_or-set_self : (xs : List ℕ) (i v d : ℕ) → i < length xs → get_or (set xs i v) i d ≡ v
get_or-set_self [] i v d h = absurd (omega arith)
get_or-set_self (x ∷ xs) zero v d h = refl
get_or-set_self (x ∷ xs) (suc i) v d h = get_or-set_self xs i v d (omega arith)

pub get_or-set_ne : (xs : List ℕ) (i j v d : ℕ) → i ≢ j → get_or (set xs i v) j d ≡ get_or xs j d
get_or-set_ne [] i j v d h = refl
get_or-set_ne (x ∷ xs) zero zero v d h = absurd (h refl)
get_or-set_ne (x ∷ xs) zero (suc j) v d h = refl
get_or-set_ne (x ∷ xs) (suc i) zero v d h = refl
get_or-set_ne (x ∷ xs) (suc i) (suc j) v d h = get_or-set_ne xs i j v d (λ e. h (ap suc e))

-- The bit at position i of the whole slice.
abbrev pub slice_bit : List ℕ → ℕ → Bool
slice_bit bits i = test_bit (get_or bits (i / 64) 0) (i % 64)

-- A value of a window of n bits: the slice has the words for n bits, each of them a uint64.
pub record IsValid (s : FixedBigInt) : Type 0 where
  pub room : s.n ≤ 64 * length s.bits
  pub words : (j : ℕ) → IsWord (get_or s.bits j 0)
  pub mask : (i : ℕ) → 64 * (length s.bits - 1) + i < s.n → test_bit s.msb_mask i ≡ true

carry-unchanged : (bits : List ℕ) (n i j v : ℕ) → j < i → carry (set bits i v) n j ≡ carry bits n j
unfolding carry
carry-unchanged bits n i j v h =
    ground (arith, get_or-set_ne bits i (j - n / 64) v 0, get_or-set_ne bits i (j - n / 64 - 1) v 0)

shifted_word-unchanged :
    (bits : List ℕ) (n i j v : ℕ) → j < i → shifted_word (set bits i v) n j ≡ shifted_word bits n j
unfolding shifted_word
shifted_word-unchanged bits n i j v h =
    rw (carry-unchanged bits n i j v h, get_or-set_ne bits i j v 0 (λ e. omega arith))

-- The loop writes every word from the old slice, though it works in place.
pub get_or-lsh_loop :
    (n k j : ℕ) (bits : List ℕ)
    → k ≤ length bits
    → get_or (lsh_loop n k bits) j 0 ≡ (if ltb j k then shifted_word bits n j else get_or bits j 0)
unfolding lsh_loop
get_or-lsh_loop n zero j bits h = ground arith
get_or-lsh_loop n (suc k) j bits h = ground (
  arith,
  get_or-lsh_loop n k j (set bits k (shifted_word bits n k)),
  length-set bits k (shifted_word bits n k),
  shifted_word-unchanged bits n k j (shifted_word bits n k),
  get_or-set_ne bits k j (shifted_word bits n k) 0,
  get_or-set_self bits k (shifted_word bits n k) 0,
)

pub length-lsh_loop : (n k : ℕ) (bits : List ℕ) → length (lsh_loop n k bits) ≡ length bits
unfolding lsh_loop
length-lsh_loop n zero bits = refl
length-lsh_loop n (suc k) bits =
    length-lsh_loop n k (set bits k (shifted_word bits n k))
    ∙ length-set bits k (shifted_word bits n k)

-- A slice of words stays one when a word is written.
pub IsWord-set :
    (xs : List ℕ) (i v j : ℕ)
    → IsWord v
    → ((k : ℕ) → IsWord (get_or xs k 0))
    → IsWord (get_or (set xs i v) j 0)
IsWord-set [] i v j hv h = h 0
IsWord-set (x ∷ xs) zero v zero hv h = hv
IsWord-set (x ∷ xs) zero v (suc j) hv h = h (suc j)
IsWord-set (x ∷ xs) (suc i) v zero hv h = h zero
IsWord-set (x ∷ xs) (suc i) v (suc j) hv h = IsWord-set xs i v j hv (λ k. h (suc k))
