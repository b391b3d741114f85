-- ===== src/ReplayDetector/Tests.antt =====
-- The detectors on small runs, and their theorems there.
use transport.Prelude.{
  ℕ, ◌+◌, ◌-◌, ◌/◌, ◌%◌, ◌≤◌, ◌<◌, ◌≡◌, ◌↔◌, refl, none, some, List, [], ◌∷◌, true, false, Bool,
  not, ◌&&◌, ◌||◌, ltb, leb, ◌==◌, Option, arith,
}
use transport.Prelude.Int.{pos, negsuc, pos_part, neg_part, ltb_ℤ, ◌+ℤ◌, ◌-ℤ◌}
use transport.ReplayDetector.FixedBig.{new_fixed_big_int, lsh, bit, set_bit}
use transport.ReplayDetector.FixedBig.Laws
use transport.ReplayDetector.FixedBig.Bits.{has, new_fixed_big_int_lem, set_bit-lsh}
use transport.ReplayDetector.Sliding
use transport.ReplayDetector.Sliding.{SlidingWindowDetector, accept_seq}
use transport.ReplayDetector.Sliding.Window.{
  Tracks, seen, new-Tracks, check_seq-Tracks, accept_seq-Tracks,
}
use transport.ReplayDetector.Sliding.Runs.{
  receive_token, run, AreDistinct, run-AreDistinct, accept_seq-replay,
}
use transport.ReplayDetector.Token.{passed, rejected}
use transport.ReplayDetector.Wrapped
use transport.ReplayDetector.Wrapped.{
  WrappedSlidingWindowDetector, with_wrap, initialise, diff, accept_diff,
}
use transport.ReplayDetector.Wrapped.Diff.{diff_circle}
use transport.ReplayDetector.Wrapped.Window.{behind, received, with_wrap-IsValid}
use transport.ReplayDetector.Wrapped.Replay.{
  Accepted, accept_diff-Accepted, check_seq-received, check_seq-accepted,
}

-- A shift over the boundary of two words.
shift_over : bit (lsh (set_bit (new_fixed_big_int 100) 50) 20) 70 ≡ 1
unfolding bit lsh set_bit new_fixed_big_int
shift_over = refl

abbrev small : SlidingWindowDetector
small = Sliding.new 4 100

abbrev arrivals : List ℕ
arrivals = 5 ∷ 3 ∷ 5 ∷ 1 ∷ 6 ∷ 3 ∷ []

abbrev accepted : Option (SlidingWindowDetector × List ℕ) → List ℕ
accepted none = []
accepted (some (d, acc)) = acc

-- 5 and 3 are refused the second time, and 1 is too old.
runs_once : accepted (run small [] arrivals) ≡ 6 ∷ 3 ∷ 5 ∷ []
unfolding run receive_token Sliding.check_token Sliding.accept Sliding.check_seq accept_seq
    Sliding.new bit lsh set_bit new_fixed_big_int passed rejected
runs_once = refl

small-Tracks : Tracks small []
small-Tracks = new-Tracks 4 100 (omega arith) (omega arith) (omega arith)

set_bit-lsh_example :
    (Laws.IsValid (set_bit (new_fixed_big_int 4) 2) × Laws.IsValid (lsh (new_fixed_big_int 4) 2))
    × (((set_bit (new_fixed_big_int 4) 2).n ≡ (new_fixed_big_int 4).n)
        × ((lsh (new_fixed_big_int 4) 2).n ≡ (new_fixed_big_int 4).n))
    × ((i : ℕ)
        → has (set_bit (new_fixed_big_int 4) 2) i
          ≡ (has (new_fixed_big_int 4) i || (ltb i (new_fixed_big_int 4).n && 2 == i)))
    × ((i : ℕ)
        → has (lsh (new_fixed_big_int 4) 2) i
          ≡ (ltb i (new_fixed_big_int 4).n && (leb 2 i && has (new_fixed_big_int 4) (i - 2))))
set_bit-lsh_example = set_bit-lsh (new_fixed_big_int 4) 2 (new_fixed_big_int_lem 4 (omega arith)).0

check_seq-Tracks_example : Sliding.check_seq small 7 ≡ (
    leb 7 small.max_seq
    && (ltb small.latest_seq 7
        || (ltb (small.latest_seq - 7) small.window_size && not (seen [] 7))))
check_seq-Tracks_example = check_seq-Tracks small [] 7 small-Tracks

accept_seq-Tracks_example :
    (d : SlidingWindowDetector) × (b : Bool) × (accept_seq small 7 ≡ some (d, b))
    × Tracks d (7 ∷ [])
    × ((b ≡ true) ↔ ((x : ℕ) → seen [] x ≡ true → x < 7))
    × (d.max_seq ≡ small.max_seq)
    × (d.window_size ≡ small.window_size)
unfolding Sliding.new
accept_seq-Tracks_example = accept_seq-Tracks small [] 7 small-Tracks (omega arith)

run-AreDistinct_example :
    (d : SlidingWindowDetector) × (acc : List ℕ) × (run small [] arrivals ≡ some (d, acc))
    × Tracks d acc
    × AreDistinct acc
run-AreDistinct_example = run-AreDistinct small [] arrivals small-Tracks tt

accept_seq-replay_example :
    (d : SlidingWindowDetector) × (d' : SlidingWindowDetector) × (accept_seq (Sliding.new 10 5) 5
      ≡ some (d, true))
    × (accept_seq d 0 ≡ some (d', false))
    × (Sliding.check_seq d' 0 ≡ true)
accept_seq-replay_example = accept_seq-replay 10 5 (omega arith) (omega arith) (omega arith)

-- A detector for 16-bit numbers whose first number was 100.
abbrev srtp : WrappedSlidingWindowDetector
srtp = initialise (with_wrap 64 65535) 100

wraps_ahead : diff (record srtp { latest_seq = 65534 }) 3 ≡ negsuc 4
unfolding diff initialise with_wrap Wrapped.shorten Wrapped.wrap_int64 Wrapped.to_int64
    Wrapped.half_int64 Wrapped.neg_int64 ◌+ℤ◌ ◌-ℤ◌
wraps_ahead = refl

srtp-IsValid : transport.ReplayDetector.Wrapped.Window.IsValid srtp
srtp-IsValid =
    (with_wrap-IsValid 64 65535 100 (omega arith) (omega arith) (omega arith) (omega arith)).0

accept_diff-Accepted_example :
    let (e, latest) = accept_diff srtp 100 (diff srtp 100) in
    Accepted srtp e 100 latest × (latest ≡ ltb_ℤ (diff srtp 100) (pos 0))
unfolding initialise with_wrap
accept_diff-Accepted_example = accept_diff-Accepted srtp 100 srtp-IsValid (omega arith)

check_seq-received_example :
    ((Wrapped.check_seq srtp 100).0 ≡ srtp)
    × ((Wrapped.check_seq srtp 100).2 ≡ (
        leb 100 srtp.max_seq
        && (ltb_ℤ (diff srtp 100) (pos 0)
            || (ltb (behind srtp.max_seq srtp.latest_seq 100) srtp.window_size
                && not (received srtp 100)))))
unfolding initialise with_wrap
check_seq-received_example = check_seq-received srtp 100 srtp-IsValid refl

check_seq-accepted_example :
    (Wrapped.check_seq (accept_diff srtp 100 (diff srtp 100)).0 100).2 ≡ false
unfolding initialise with_wrap diff Wrapped.check_seq Wrapped.shorten Wrapped.wrap_int64
    Wrapped.to_int64 Wrapped.half_int64 Wrapped.neg_int64 Wrapped.in_window ◌+ℤ◌ ◌-ℤ◌
check_seq-accepted_example = check_seq-accepted srtp 100 srtp-IsValid refl refl

diff_circle_example :
    ((srtp.latest_seq + (srtp.max_seq + 1) + neg_part (diff srtp 200) - pos_part (diff srtp 200))
        % (srtp.max_seq + 1)
      ≡ 200)
    × (neg_part (diff srtp 200) ≤ srtp.max_seq - srtp.max_seq / 2)
    × (pos_part (diff srtp 200) ≤ srtp.max_seq + 1 - srtp.max_seq / 2)
unfolding initialise with_wrap
diff_circle_example = diff_circle srtp 200 (omega arith) (omega arith) (omega arith) (omega arith)

-- With a window of more than half the limit a number can be replayed: 0 passes, is accepted, and passes
-- again.
abbrev wide : WrappedSlidingWindowDetector
wide = with_wrap 3 1

wide_replay :
    ((Wrapped.check_seq wide 0).2 ≡ true)
    × ((Wrapped.check_seq (Wrapped.accept (Wrapped.check_token wide 0).0 (passed 0)).0 0).2 ≡ true)
unfolding with_wrap initialise diff accept_diff Wrapped.check_seq Wrapped.check_token Wrapped.accept
    Wrapped.in_window Wrapped.shorten Wrapped.wrap_int64 Wrapped.to_int64 Wrapped.half_int64
    Wrapped.neg_int64 bit lsh set_bit new_fixed_big_int passed rejected ◌+ℤ◌ ◌-ℤ◌
wide_replay = (refl, refl)
