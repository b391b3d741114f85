-- ===== src/ReplayDetector/FixedBig.antt =====
-- replaydetector/fixedbig.go: an integer of a fixed number of bits, as a slice of uint64 words.
-- `uint` is taken to have 64 bits. The pointer methods return the new value.
pub mod Laws
pub mod Shift
pub mod Bits
use Prim.Native.Nat.{bit_and, bit_or}
use transport.Prelude.{
  ℕ, zero, suc, ◌+◌, ◌-◌, ◌*◌, ◌/◌, ◌%◌, ◌^◌, max, Bool, List, ◌==◌, leb, if◌then◌else◌, length,
  get_or, set, replicate,
}
use transport.Words.{shl64, shr, masked}

pub record FixedBigInt : Type 0 where
  pub bits : List ℕ
  pub n : ℕ
  pub msb_mask : ℕ

unfoldable pub new_fixed_big_int : ℕ → FixedBigInt
new_fixed_big_int n = record {
  bits = replicate (max ((n + 63) % 2 ^ 64 / 64) 1) 0;
  n = n;
  msb_mask = shr (2 ^ 64 - 1) ((64 - n % 64) % 64);
}

-- The two terms of `carry`, for the word at index i.
unfoldable pub carry : List ℕ → ℕ → ℕ → ℕ
carry bits n i =
    if leb (n / 64) i
    then if leb (n / 64 + 1) i
      then bit_or (shl64 (get_or bits (i - n / 64) 0) (n % 64))
          (shr (get_or bits (i - n / 64 - 1) 0) (64 - n % 64))
      else shl64 (get_or bits (i - n / 64) 0) (n % 64)
    else 0

-- `(s.bits[i] << n) | carry`
unfoldable pub shifted_word : List ℕ → ℕ → ℕ → ℕ
unfolding carry
shifted_word bits n i = bit_or (shl64 (get_or bits i 0) n) (carry bits n i)

-- The loop of `Lsh` in place, over the indices below the counter, from the top down.
unfoldable pub lsh_loop : ℕ → ℕ → List ℕ → List ℕ
unfolding shifted_word
lsh_loop n zero bits = bits
lsh_loop n (suc i) bits = lsh_loop n i (set bits i (shifted_word bits n i))

-- `s.bits[len(s.bits)-1] &= s.msbMask`
unfoldable pub mask_top : ℕ → List ℕ → List ℕ
mask_top mask bits = set bits (length bits - 1) (bit_and (get_or bits (length bits - 1) 0) mask)

unfoldable pub lsh : FixedBigInt → ℕ → FixedBigInt
unfolding lsh_loop mask_top
lsh s n =
    if n == 0
    then s
    else record s { bits = mask_top s.msb_mask (lsh_loop n (length s.bits) s.bits) }

unfoldable pub bit : FixedBigInt → ℕ → ℕ
bit s i = if leb s.n i then 0 else if masked (get_or s.bits (i / 64) 0) (i % 64) then 1 else 0

unfoldable pub set_bit : FixedBigInt → ℕ → FixedBigInt
set_bit s i =
    if leb s.n i
    then s
    else record s { bits = set s.bits (i / 64) (bit_or (get_or s.bits (i / 64) 0) (2 ^ (i % 64))) }
