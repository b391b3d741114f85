-- ===== src/Words.antt =====
-- Go's uint64 words as numbers below 2 ^ 64: shifts, bit tests, and what they do to the single bits.
pub mod Steps
pub mod Laws
use Prim.Native.Nat.{bit_and}
use transport.Prelude.{ℕ, zero, suc, ◌*◌, ◌/◌, ◌%◌, ◌^◌, Bool, ◌==◌, not}

-- `x << k` on a uint64; a count of 64 or more gives 0.
abbrev pub shl64 : ℕ → ℕ → ℕ
shl64 x k = x * 2 ^ k % 2 ^ 64

-- `x >> k`
abbrev pub shr : ℕ → ℕ → ℕ
shr x k = x / 2 ^ k

-- The bit of weight 2 ^ i, by halving.
unfoldable pub test_bit : ℕ → ℕ → Bool
test_bit x zero = x % 2 == 1
test_bit x (suc i) = test_bit (x / 2) i

-- `x & (1 << i) != 0`
abbrev pub masked : ℕ → ℕ → Bool
masked x i = not (bit_and x (2 ^ i) == 0)
