-- ===== src/ReplayDetector/Wrapped.antt =====
-- replaydetector/replaydetector.go: wrappedSlidingWindowDetector, the detector with wrapping.
-- Sequence numbers are uint64 values; the differences are int64 values, as integers that wrap.
-- The methods return the new detector.
pub mod Diff
pub mod Window
pub mod Replay
use transport.Prelude.{
  ℕ, ◌+◌, ◌-◌, ◌/◌, ◌%◌, ◌^◌, min, Bool, true, false, ◌==◌, ltb, leb, if◌then◌else◌,
}
use transport.Prelude.Int.{ℤ, pos, negsuc, pos_part, neg_part, sub_ℕ, ◌+ℤ◌, ◌-ℤ◌, ltb_ℤ}
use transport.ReplayDetector.FixedBig.{FixedBigInt, new_fixed_big_int, lsh, bit, set_bit}
use transport.ReplayDetector.Token.{Token, passed, rejected}

-- `int64(x)` of a uint64
unfoldable pub to_int64 : ℕ → ℤ
to_int64 x = if ltb x (2 ^ 63) then pos x else negsuc (2 ^ 64 - x - 1)

-- An integer brought back into the range of int64.
unfoldable pub wrap_int64 : ℤ → ℤ
unfolding to_int64
wrap_int64 (pos n) = to_int64 (n % 2 ^ 64)
wrap_int64 (negsuc n) = to_int64 (2 ^ 64 - 1 - n % 2 ^ 64)

-- `-a` and `a / 2` on int64 values; the division rounds towards zero.
unfoldable pub neg_int64 : ℤ → ℤ
neg_int64 a = wrap_int64 (pos 0 -ℤ a)

unfoldable pub half_int64 : ℤ → ℤ
half_int64 (pos n) = pos (n / 2)
half_int64 (negsuc n) = sub_ℕ 0 ((n + 1) / 2)

pub record WrappedSlidingWindowDetector : Type 0 where
  pub latest_seq : ℕ
  pub max_seq : ℕ
  pub window_size : ℕ
  pub mask : FixedBigInt
  pub is_init : Bool

-- `WithWrap(windowSize, maxSeq)`
unfoldable pub with_wrap : ℕ → ℕ → WrappedSlidingWindowDetector
with_wrap window_size max_seq = record {
  latest_seq = 0;
  max_seq = max_seq;
  window_size = window_size;
  mask = new_fixed_big_int window_size;
  is_init = false;
}

-- The wrapping of `diff`.
unfoldable pub shorten : ℕ → ℤ → ℤ
shorten max_seq diff =
    if ltb_ℤ (half_int64 (to_int64 max_seq)) diff
    then wrap_int64 (diff -ℤ to_int64 ((max_seq + 1) % 2 ^ 64))
    else if ltb_ℤ (half_int64 (neg_int64 (to_int64 max_seq))) diff
    then diff
    else wrap_int64 (diff +ℤ to_int64 ((max_seq + 1) % 2 ^ 64))

unfoldable pub diff : WrappedSlidingWindowDetector → ℕ → ℤ
diff d seq = shorten d.max_seq (wrap_int64 (to_int64 d.latest_seq -ℤ to_int64 seq))

-- The first check sets the head of the window just behind its number.
unfoldable pub initialise : WrappedSlidingWindowDetector → ℕ → WrappedSlidingWindowDetector
initialise d seq =
    if d.is_init
    then d
    else record d { latest_seq = if seq == 0 then d.max_seq else seq - 1; is_init = true }

-- The two tests on the distance at the end of `checkSeq`.
unfoldable pub in_window : WrappedSlidingWindowDetector → ℤ → Bool
in_window d diff =
    if ltb_ℤ diff (to_int64 d.window_size)
    then if ltb_ℤ diff (pos 0)
      then true
      else if bit d.mask (pos_part diff) == 0
      then true
      else false
    else false

unfoldable pub check_seq :
    WrappedSlidingWindowDetector → ℕ → WrappedSlidingWindowDetector × ℤ × Bool
check_seq d seq = if ltb d.max_seq seq then (d, pos 0, false) else (
  initialise d seq,
  diff (initialise d seq) seq,
  in_window (initialise d seq) (diff (initialise d seq) seq),
)

unfoldable pub accept_diff :
    WrappedSlidingWindowDetector → ℕ → ℤ → WrappedSlidingWindowDetector × Bool
accept_diff d seq diff =
    if ltb_ℤ diff (pos 0)
    then (
      record d {
        latest_seq = seq;
        mask = set_bit (lsh d.mask (min (neg_part diff) d.window_size)) 0;
      },
      true,
    )
    else (record d { mask = set_bit d.mask (pos_part diff) }, false)

-- `Check`: the closure keeps the distance of the time of the check.
unfoldable pub check :
    WrappedSlidingWindowDetector
    → ℕ
    → WrappedSlidingWindowDetector
      × (WrappedSlidingWindowDetector → WrappedSlidingWindowDetector × Bool)
      × Bool
check d seq =
    let (d', diff, passes) = check_seq d seq in
    if passes then (d', λ e. accept_diff e seq diff, true) else (d', λ e. (e, false), false)

-- `CheckSeq`
unfoldable pub check_token : WrappedSlidingWindowDetector → ℕ → WrappedSlidingWindowDetector × Token
check_token d seq =
    let (d', _, passes) = check_seq d seq in if passes then (d', passed seq) else (d', rejected seq)

-- `Accept`: the distance is computed anew.
unfoldable pub accept : WrappedSlidingWindowDetector → Token → WrappedSlidingWindowDetector × Bool
accept d tok = if tok.is_passed then accept_diff d tok.seq (diff d tok.seq) else (d, false)
