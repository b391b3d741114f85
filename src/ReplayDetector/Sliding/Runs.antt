-- ===== src/ReplayDetector/Sliding/Runs.antt =====
-- Whole runs of the sliding window detector: each number is checked, and accepted if it passes.
use transport.Prelude.{
  ℕ, ◌-◌, ◌%◌, ◌≤◌, ◌<◌, ◌≡◌, refl, min, Bool, true, false, if◌then◌else◌, Option, none, some, List,
  [], ◌∷◌, arith, Bool-cases, inl, inr, ◌^◌, lt→ltb,
}
use native.Mathlib.Nat.{mod_self, sub_self, sub-zero}
use transport.ReplayDetector.FixedBig.{new_fixed_big_int, lsh, set_bit}
use transport.ReplayDetector.FixedBig.Bits.{has, bit-has, new_fixed_big_int_lem, set_bit-lsh}
use transport.ReplayDetector.Token.{passed, rejected}
use transport.ReplayDetector.Sliding.{
  SlidingWindowDetector, new, check_seq, mark, accept_seq, check, check_token, accept,
}
use transport.ReplayDetector.Sliding.Window.{seen, Tracks, check_seq-Tracks, accept_seq-Tracks}

-- A caller that accepts what passes: by the closure of `Check`, and by a token.
pub receive : SlidingWindowDetector → ℕ → Option (SlidingWindowDetector × Bool)
receive d seq =
    let (acceptor, passes) = check d seq in if passes then acceptor d else some (d, false)

unfoldable pub receive_token : SlidingWindowDetector → ℕ → Option (SlidingWindowDetector × Bool)
receive_token d seq = accept d (check_token d seq)

-- The two interfaces of the detector do the same.
receive_token-receive : (d : SlidingWindowDetector) (seq : ℕ) → receive_token d seq ≡ receive d seq
unfolding receive receive_token check check_token accept passed rejected
receive_token-receive d seq = ground arith

-- The numbers that pass, last first, put in front of those accepted before.
unfoldable pub run :
    SlidingWindowDetector → List ℕ → List ℕ → Option (SlidingWindowDetector × List ℕ)
run d acc [] = some (d, acc)
run d acc (seq ∷ seqs) = elim (receive_token d seq) [
  | none ↦ none
  | some (d', b) ↦ run d' (if check_seq d seq then seq ∷ acc else acc) seqs
]

abbrev pub AreDistinct : List ℕ → Type 0
AreDistinct [] = Unit
AreDistinct (x ∷ xs) = (seen xs x ≡ false) × AreDistinct xs

receive-step :
    (d : SlidingWindowDetector) (acc : List ℕ) (seq : ℕ)
    → Tracks d acc
    → (d' : SlidingWindowDetector) × (b : Bool) × (receive_token d seq ≡ some (d', b))
      × Tracks d' (if check_seq d seq then seq ∷ acc else acc)
unfolding receive_token check_token accept passed rejected
receive-step d acc seq t = elim (Bool-cases (check_seq d seq)) [
  | inr fails ↦ (d, false, rw fails, rw fails t)
  | inl passes ↦
      let limit : seq ≤ d.max_seq = ground (arith, check_seq-Tracks d acc seq t) in
      let next = accept_seq-Tracks d acc seq t limit in
      (next.0, next.1, rw passes next.2, rw passes next.3)
]

receive-AreDistinct :
    (d : SlidingWindowDetector) (acc : List ℕ) (seq : ℕ)
    → Tracks d acc
    → AreDistinct acc
    → AreDistinct (if check_seq d seq then seq ∷ acc else acc)
receive-AreDistinct d acc seq t h = elim (Bool-cases (check_seq d seq)) [
  | inr fails ↦ rw fails h
  | inl passes ↦ rw passes (elim (Bool-cases (seen acc seq)) [
    | inr fresh ↦ (fresh, h)
    | inl old ↦ absurd (ground (arith, check_seq-Tracks d acc seq t, t.newest seq old))
  ])
]

-- With a window of at least 1 and at most the limit, and a detector that tracks the numbers accepted
-- so far, which are distinct, no run panics, whatever the numbers that arrive and their order, and
-- none of them is accepted twice: the detector goes on tracking exactly the numbers accepted.
pub run-AreDistinct :
    (d : SlidingWindowDetector) (acc seqs : List ℕ)
    → Tracks d acc
    → AreDistinct acc
    → (d' : SlidingWindowDetector) × (acc' : List ℕ) × (run d acc seqs ≡ some (d', acc'))
      × Tracks d' acc'
      × AreDistinct acc'
unfolding run
run-AreDistinct d acc [] t h = (d, acc, refl, t, h)
run-AreDistinct d acc (seq ∷ seqs) t h =
    let step = receive-step d acc seq t in
    rw (step.2, run)
      (run-AreDistinct step.0 (if check_seq d seq then seq ∷ acc else acc) seqs step.3
        (receive-AreDistinct d acc seq t h))

module _ (w m : ℕ) (pos : 0 < m) (wide : m < w) (bound : w < 2 ^ 64 - 63) where
  abbrev after_limit : SlidingWindowDetector
  after_limit = mark (record (new w m) { latest_seq = m; mask = lsh (new_fixed_big_int w) m }) 0

  has-after_limit : has after_limit.mask m ≡ false
  unfolding mark
  has-after_limit =
      let made = new_fixed_big_int_lem w (omega arith) in
      let moved = set_bit-lsh (new_fixed_big_int w) m made.0 in
      ground (
        arith,
        moved.3 m,
        made.1 (m - m),
        (set_bit-lsh (lsh (new_fixed_big_int w) m) 0 moved.0.1).2 m,
      )

  limit_step : accept_seq (new w m) m ≡ some (after_limit, true)
  unfolding accept_seq new
  limit_step =
      let step : min (m - 0) w ≡ m = omega arith in
      let none_left : (m - m) % m ≡ 0 = rw (sub_self m) (omega arith) in
      rw (lt→ltb 0 m pos) (ground (arith, step, none_left))

  zero_step : accept_seq after_limit 0 ≡ some (mark after_limit 0, false)
  unfolding accept_seq new mark
  zero_step =
      let none_left : (m - 0) % m ≡ 0 = rw (sub-zero m) (mod_self m) in ground (arith, none_left)

  passes_again : check_seq (mark after_limit 0) 0 ≡ true
  unfolding check_seq new mark
  passes_again =
      let made = new_fixed_big_int_lem w (omega arith) in
      let moved = set_bit-lsh (new_fixed_big_int w) m made.0 in
      let marked = set_bit-lsh (lsh (new_fixed_big_int w) m) 0 moved.0.1 in
      let distance : m - 0 ≡ m = omega arith in
      rw distance (
        ground (
          arith,
          has-after_limit,
          (set_bit-lsh after_limit.mask 0 marked.0.0).2 m,
          bit-has (set_bit after_limit.mask 0) m,
        ))

-- With a window larger than the limit a number can be replayed: once the limit itself and 0 have
-- been accepted, 0 passes the check again.
pub accept_seq-replay :
    (window_size max_seq : ℕ)
    → 0 < max_seq
    → max_seq < window_size
    → window_size < 2 ^ 64 - 63
    → (d : SlidingWindowDetector) × (d' : SlidingWindowDetector) × (accept_seq
          (new window_size max_seq)
          max_seq
        ≡ some (d, true))
      × (accept_seq d 0 ≡ some (d', false))
      × (check_seq d' 0 ≡ true)
accept_seq-replay w m pos wide bound = (
  after_limit w m pos wide bound,
  mark (after_limit w m pos wide bound) 0,
  limit_step w m pos wide bound,
  zero_step w m pos wide bound,
  passes_again w m pos wide bound,
)
