-- ===== src/Words/Steps.antt =====
-- The native operations on binary digits, one digit at a time.
use Prim.Native.Nat.{bit_and, bit_or, digits, bit_and-bitwise, bit_or-bitwise}
use transport.Prelude.{ℕ, zero, suc, ◌+◌, ◌*◌, ◌/◌, ◌%◌, ◌≤◌, ◌≡◌, refl, min, max, arith}

module _ (rest : ℕ → ℕ) (digit : ℕ → ℕ → ℕ) where
  -- Two counts of steps that both reach the end of the first number give one result.
  agree :
      (x y : ℕ) (long short : ℕ)
      → x ≤ short
      → x ≤ long
      → digits rest digit long x y ≡ digits rest digit short x y
  agree (suc x) y (suc long) (suc short) p q =
      let same = agree (suc x / 2) (y / 2) long short (omega arith) (omega arith) in omega arith
  agree (suc x) y (suc long) zero p q = absurd (omega arith)
  agree (suc x) y zero short p q = absurd (omega arith)
  agree zero y (suc long) (suc short) p q = refl
  agree zero y (suc long) zero p q = refl
  agree zero y zero (suc short) p q = refl
  agree zero y zero zero p q = refl

  -- The lowest digit, and the operation on the halves.
  lowest :
      (x y : ℕ)
      → digits rest digit (suc x) (suc x) y
        ≡ digits rest digit (suc x / 2) (suc x / 2) (y / 2) * 2 + digit (suc x % 2) (y % 2)
  lowest x y =
      let half = agree (suc x / 2) (y / 2) x (suc x / 2) (omega arith) (omega arith) in omega arith

pub bit_and-halves : (x y : ℕ) → bit_and x y ≡ bit_and (x / 2) (y / 2) * 2 + min (x % 2) (y % 2)
bit_and-halves (suc x) y =
    rw (bit_and-bitwise (suc x) y, bit_and-bitwise (suc x / 2) (y / 2)) (lowest (λ _. 0) min x y)
bit_and-halves zero y =
    let whole = bit_and-bitwise 0 y in let half = bit_and-bitwise 0 (y / 2) in omega arith

pub bit_or-halves : (x y : ℕ) → bit_or x y ≡ bit_or (x / 2) (y / 2) * 2 + max (x % 2) (y % 2)
bit_or-halves (suc x) y =
    rw (bit_or-bitwise (suc x) y, bit_or-bitwise (suc x / 2) (y / 2)) (lowest (λ d. d) max x y)
bit_or-halves zero y =
    let whole = bit_or-bitwise 0 y in let half = bit_or-bitwise 0 (y / 2) in omega arith
