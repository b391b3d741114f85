-- ===== src/ReplayDetector/Sliding.antt =====
-- replaydetector/replaydetector.go: slidingWindowDetector, the detector without wrapping.
-- Sequence numbers are uint64 values, and `uint` has 64 bits. The methods return the new detector;
-- `none` is Go's panic on an integer division by zero.
pub mod Window
pub mod Runs
use transport.Prelude.{
  ℕ, ◌+◌, ◌-◌, ◌%◌, min, Bool, true, false, not, ◌&&◌, ◌==◌, ltb, leb, if◌then◌else◌, Option, none,
  some,
}
use transport.ReplayDetector.FixedBig.{FixedBigInt, new_fixed_big_int, lsh, bit, set_bit}
use transport.ReplayDetector.Token.{Token, passed, rejected}

pub record SlidingWindowDetector : Type 0 where
  pub latest_seq : ℕ
  pub max_seq : ℕ
  pub window_size : ℕ
  pub mask : FixedBigInt

-- `New(windowSize, maxSeq)`
unfoldable pub new : ℕ → ℕ → SlidingWindowDetector
new window_size max_seq = record {
  latest_seq = 0;
  max_seq = max_seq;
  window_size = window_size;
  mask = new_fixed_big_int window_size;
}

unfoldable pub check_seq : SlidingWindowDetector → ℕ → Bool
check_seq d seq =
    if ltb d.max_seq seq
    then false
    else if leb seq d.latest_seq
    then if leb d.window_size (d.latest_seq - seq)
      then false
      else if bit d.mask (d.latest_seq - seq) == 0
      then true
      else false
    else true

-- The update of the head of the window in `acceptSeq`.
unfoldable pub advance : SlidingWindowDetector → ℕ → SlidingWindowDetector
advance d seq =
    if ltb d.latest_seq seq
    then record d { latest_seq = seq; mask = lsh d.mask (min (seq - d.latest_seq) d.window_size) }
    else d

-- `latest`
unfoldable pub is_latest : SlidingWindowDetector → ℕ → Bool
is_latest d seq =
    if ltb d.latest_seq seq then true else seq == 0 && (d.latest_seq == 0 && bit d.mask 0 == 0)

-- `d.mask.SetBit(uint(diff))`
unfoldable pub mark : SlidingWindowDetector → ℕ → SlidingWindowDetector
mark d diff = record d { mask = set_bit d.mask diff }

-- After `advance` the subtraction does not wrap.
unfoldable pub accept_seq : SlidingWindowDetector → ℕ → Option (SlidingWindowDetector × Bool)
unfolding advance is_latest mark
accept_seq d seq =
    if d.max_seq == 0
    then none
    else some
        (mark (advance d seq) (((advance d seq).latest_seq - seq) % d.max_seq), is_latest d seq)

-- `Check`: the closure, which works on the detector as it is when the closure is called, and `ok`.
unfoldable pub check :
    SlidingWindowDetector
    → ℕ
    → (SlidingWindowDetector → Option (SlidingWindowDetector × Bool)) × Bool
check d seq =
    if check_seq d seq then (λ d'. accept_seq d' seq, true) else (λ d'. some (d', false), false)

-- `CheckSeq`
unfoldable pub check_token : SlidingWindowDetector → ℕ → Token
check_token d seq = if check_seq d seq then passed seq else rejected seq

-- `Accept`
unfoldable pub accept : SlidingWindowDetector → Token → Option (SlidingWindowDetector × Bool)
accept d tok = if tok.is_passed then accept_seq d tok.seq else some (d, false)
