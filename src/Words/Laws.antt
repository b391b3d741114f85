-- ===== src/Words/Laws.antt =====
-- What the operations on words do to their single bits.
use Prim.Native.Nat.{bit_and, bit_or}
use native.Mathlib.Nat.{div-div-eq-div-mul, mod-eq-sub-mul-div, two-pow-succ, one-le-pow}
use transport.Prelude.{
  ℕ, zero, suc, ◌+◌, ◌-◌, ◌*◌, ◌/◌, ◌%◌, ◌^◌, ◌≤◌, ◌≡◌, refl, sym, ap, ◌∙◌, arith, false, ◌&&◌,
  ◌||◌, ◌==◌, ltb, leb,
}
use transport.Words.{test_bit, masked, shl64, shr}
use transport.Words.Steps.{bit_and-halves, bit_or-halves}

pub test_bit-bit_or : (i a b : ℕ) → test_bit (bit_or a b) i ≡ (test_bit a i || test_bit b i)
unfolding test_bit
test_bit-bit_or zero a b = ground (arith, bit_or-halves a b)
test_bit-bit_or (suc i) a b =
    let half : bit_or a b / 2 ≡ bit_or (a / 2) (b / 2) = omega (arith, bit_or-halves a b) in
    rw half (test_bit-bit_or i (a / 2) (b / 2))

pub test_bit-bit_and : (i a b : ℕ) → test_bit (bit_and a b) i ≡ (test_bit a i && test_bit b i)
unfolding test_bit
test_bit-bit_and zero a b = ground (arith, bit_and-halves a b)
test_bit-bit_and (suc i) a b =
    let half : bit_and a b / 2 ≡ bit_and (a / 2) (b / 2) = omega (arith, bit_and-halves a b) in
    rw half (test_bit-bit_and i (a / 2) (b / 2))

pub test_bit-zero : (i : ℕ) → test_bit 0 i ≡ false
unfolding test_bit
test_bit-zero zero = refl
test_bit-zero (suc i) = test_bit-zero i

-- A power of two has one bit.
pub test_bit-pow : (p i : ℕ) → test_bit (2 ^ p) i ≡ (p == i)
unfolding test_bit
test_bit-pow zero zero = refl
test_bit-pow zero (suc i) = rw (test_bit-zero i) (ground arith)
test_bit-pow (suc p) zero = ground (arith, two-pow-succ p)
test_bit-pow (suc p) (suc i) =
    let half : 2 ^ suc p / 2 ≡ 2 ^ p = omega (arith, two-pow-succ p) in
    rw half (ground (arith, test_bit-pow p i))

bit_and-zero : (n a : ℕ) → a ≤ n → bit_and a 0 ≡ 0
bit_and-zero zero a h = ground (arith, bit_and-halves a 0)
bit_and-zero (suc n) zero h = refl
bit_and-zero (suc n) (suc a) h =
    omega (arith, bit_and-halves (suc a) 0, bit_and-zero n (suc a / 2) (omega arith))

-- The mask test of the source reads one bit.
pub masked-test_bit : (i x : ℕ) → masked x i ≡ test_bit x i
unfolding test_bit
masked-test_bit zero x = ground (arith, bit_and-halves x 1, bit_and-zero (x / 2) (x / 2))
masked-test_bit (suc i) x =
    let half : 2 ^ suc i / 2 ≡ 2 ^ i = omega (arith, two-pow-succ i) in
    let low : bit_and x (2 ^ suc i) ≡ bit_and (x / 2) (2 ^ i) * 2 =
      omega (arith, bit_and-halves x (2 ^ suc i), two-pow-succ i, ap (bit_and (x / 2)) half) in
    ground (arith, masked-test_bit i (x / 2), low)

mod_double : (x m : ℕ) → (x % (2 * m) / 2 ≡ x / 2 % m) × (x % (2 * m) % 2 ≡ x % 2)
mod_double x m = omega (
  arith,
  mod-eq_parts,
  mod-eq-sub-mul-div (x / 2) m,
  div-div-eq-div-mul x 2 m,
  ap (λ (t : ℕ). m * t) (div-div-eq-div-mul x 2 m),
)
  where
    mod-eq_parts : x % (2 * m) ≡ x - 2 * (m * (x / (2 * m)))
    mod-eq_parts = mod-eq-sub-mul-div x (2 * m) ∙ grind arith

pub test_bit-mod : (m i x : ℕ) → test_bit (x % 2 ^ m) i ≡ (ltb i m && test_bit x i)
unfolding test_bit
test_bit-mod zero i x =
    let none_left : x % 2 ^ 0 ≡ 0 = omega arith in rw (none_left, test_bit-zero i) (ground arith)
test_bit-mod (suc m) zero x =
    let double : 2 ^ suc m ≡ 2 * 2 ^ m = omega (arith, two-pow-succ m) in
    rw double (ground (arith, mod_double x (2 ^ m)))
test_bit-mod (suc m) (suc i) x =
    let double : 2 ^ suc m ≡ 2 * 2 ^ m = omega (arith, two-pow-succ m) in
    rw (double, (mod_double x (2 ^ m)).0) (ground (arith, test_bit-mod m i (x / 2)))

pub test_bit-mul : (k i x : ℕ) → test_bit (x * 2 ^ k) i ≡ (leb k i && test_bit x (i - k))
unfolding test_bit
test_bit-mul zero i x =
    let whole : x * 2 ^ 0 ≡ x = omega arith in
    let all : i - 0 ≡ i = omega arith in rw (whole, all) (ground arith)
test_bit-mul (suc k) zero x = ground (arith, double)
  where
    double : x * 2 ^ suc k ≡ 2 * (x * 2 ^ k)
    double = ap (λ t. x * t) (two-pow-succ k) ∙ omega arith
test_bit-mul (suc k) (suc i) x = rw half (ground (arith, test_bit-mul k i x, less))
  where
    half : x * 2 ^ suc k / 2 ≡ x * 2 ^ k
    half = ap (λ t. x * t / 2) (two-pow-succ k) ∙ omega arith

    less : suc i - suc k ≡ i - k
    less = omega arith

pub test_bit-shl64 :
    (k i x : ℕ) → test_bit (shl64 x k) i ≡ (ltb i 64 && (leb k i && test_bit x (i - k)))
test_bit-shl64 k i x = rw (test_bit-mod 64 i (x * 2 ^ k), test_bit-mul k i x)

pub test_bit-shr : (k i x : ℕ) → test_bit (shr x k) i ≡ test_bit x (i + k)
unfolding test_bit
test_bit-shr zero i x =
    let whole : x / 2 ^ 0 ≡ x = omega arith in let all : i + 0 ≡ i = omega arith in rw (whole, all)
test_bit-shr (suc k) i x = rw halved (test_bit-shr k i (x / 2) ∙ next)
  where
    double : 2 ^ suc k ≡ 2 * 2 ^ k
    double = omega (arith, two-pow-succ k)

    halved : x / 2 ^ suc k ≡ x / 2 / 2 ^ k
    halved = rw double (sym (div-div-eq-div-mul x 2 (2 ^ k)))

    next : test_bit (x / 2) (i + k) ≡ test_bit x (i + suc k)
    next = let e : i + suc k ≡ suc (i + k) = omega arith in rw e

-- All ones below m.
pub test_bit-ones : (m i : ℕ) → test_bit (2 ^ m - 1) i ≡ ltb i m
unfolding test_bit
test_bit-ones zero i = rw (test_bit-zero i) (ground arith)
test_bit-ones (suc m) zero = ground (arith, two-pow-succ m, one-le-pow m 2 (omega arith))
test_bit-ones (suc m) (suc i) = rw half (ground (arith, test_bit-ones m i))
  where
    half : (2 ^ suc m - 1) / 2 ≡ 2 ^ m - 1
    half = omega (arith, two-pow-succ m, one-le-pow m 2 (omega arith))

-- No bit above the width: the value fits in a uint64.
abbrev pub IsWord : ℕ → Type 0
IsWord x = (i : ℕ) → 64 ≤ i → test_bit x i ≡ false
