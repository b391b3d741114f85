-- ===== src/ReplayDetector/Wrapped/Replay.antt =====
-- What a check and an acceptance of the wrapping detector do to the set of received numbers.
use transport.Prelude.{
  ℕ, ◌≤◌, ◌<◌, ◌≡◌, inl, inr, refl, ap, Bool, true, false, not, ◌&&◌, ◌||◌, ◌==◌, ltb, leb,
  if◌then◌else◌, arith, Bool-cases,
}
use transport.Prelude.Int.{pos, ltb_ℤ}
use transport.ReplayDetector.FixedBig.Bits.{bit-has}
use transport.ReplayDetector.Wrapped.{
  WrappedSlidingWindowDetector, diff, initialise, in_window, check_seq, accept_diff,
}
use transport.ReplayDetector.Wrapped.Diff.{to_int64_small}
use transport.ReplayDetector.Wrapped.Window.{
  behind, received, IsValid, diff_cases, kept, moved, place, accept_behind, accept_ahead,
  received-kept, kept-IsValid, received-moved, moved-IsValid,
}

-- What holds of the detector `e` after `seq` has been accepted by `d`.
pub record Accepted (d e : WrappedSlidingWindowDetector) (seq : ℕ) (latest : Bool) : Type 0 where
  pub valid : IsValid e
  pub same_limit : e.max_seq ≡ d.max_seq
  pub same_window : e.window_size ≡ d.window_size
  pub same_init : e.is_init ≡ d.is_init
  pub head : e.latest_seq ≡ (if latest then seq else d.latest_seq)
  pub numbers :
      (s : ℕ)
      → s ≤ d.max_seq
      → behind d.max_seq e.latest_seq s < d.window_size
      → received e s ≡ (s == seq || received d s)

-- For a window of at least 1 and at most half the limit, and a limit below 2 ^ 62: to accept a number
-- up to the limit with the distance computed from the detector's own head keeps a valid detector
-- valid, and the numbers that the window then covers are marked as before, but for the accepted
-- number, which is marked; the head moves exactly if the number was ahead, and the result says so.
pub accept_diff-Accepted :
    (d : WrappedSlidingWindowDetector) (seq : ℕ)
    → IsValid d
    → seq ≤ d.max_seq
    → let (e, latest) = accept_diff d seq (diff d seq) in
      Accepted d e seq latest × (latest ≡ ltb_ℤ (diff d seq) (pos 0))
accept_diff-Accepted d seq v hs = elim (diff_cases d seq v hs) [
  | inl e ↦
      rw (e, accept_behind d seq (place d seq v hs))
        (
          record {
            valid = kept-IsValid d seq v hs (place d seq v hs);
            same_limit = refl;
            same_window = refl;
            same_init = refl;
            head = refl;
            numbers = received-kept d seq v hs;
          },
          ground arith,
        )
  | inr (k, e, half, circle) ↦
      rw (e, accept_ahead d seq k)
        (
          record {
            valid = moved-IsValid d seq v hs k;
            same_limit = refl;
            same_window = refl;
            same_init = refl;
            head = refl;
            numbers = λ s h near. received-moved d seq v hs k s h half circle near;
          },
          ground arith,
        )
]

initialise_done :
    (d : WrappedSlidingWindowDetector) (seq : ℕ) → d.is_init ≡ true → initialise d seq ≡ d
unfolding initialise
initialise_done d seq e = ground arith

-- For a window of at least 1 and at most half the limit, and a limit below 2 ^ 62: the check of a
-- valid, initialised detector passes exactly the numbers up to the limit that are ahead, or in the
-- window and not marked as received; it changes nothing.
pub check_seq-received :
    (d : WrappedSlidingWindowDetector) (seq : ℕ)
    → IsValid d
    → d.is_init ≡ true
    → ((check_seq d seq).0 ≡ d)
      × ((check_seq d seq).2 ≡ (
          leb seq d.max_seq
          && (ltb_ℤ (diff d seq) (pos 0)
              || (ltb (behind d.max_seq d.latest_seq seq) d.window_size && not (received d seq)))))
unfolding check_seq in_window received
check_seq-received d seq v e = elim (Bool-cases (ltb d.max_seq seq)) [
  | inl over ↦ (rw over, ground arith)
  | inr limit ↦
      let limit' : seq ≤ d.max_seq = ground arith in
      let width = to_int64_small d.window_size (omega (arith, v.fits, v.small)) in
      rw (limit, initialise_done d seq e)
        (
          refl,
          elim (diff_cases d seq v limit') [
            | inl here ↦
                rw (here, width)
                  (ground
                    (arith, v.size, limit', bit-has d.mask (behind d.max_seq d.latest_seq seq)))
            | inr (k, there, half, circle) ↦ rw (there, width) (ground (arith, limit'))
          ],
        )
]

diff-kept : (d : WrappedSlidingWindowDetector) (b seq : ℕ) → diff (kept d b) seq ≡ diff d seq
unfolding diff
diff-kept d b seq = refl

diff-moved :
    (d : WrappedSlidingWindowDetector) (seq k : ℕ)
    → IsValid (moved d seq k)
    → seq ≤ d.max_seq
    → diff (moved d seq k) seq ≡ pos 0
diff-moved d seq k v hs = elim (diff_cases (moved d seq k) seq v hs) [
  | inl here ↦
      let zero_behind : behind d.max_seq seq seq ≡ 0 = ground arith in rw here (ap pos zero_behind)
  | inr (j, there, half, circle) ↦ absurd (omega (arith, v.fits, v.some_room, zero_behind))
]
  where
    zero_behind : behind d.max_seq seq seq ≡ 0
    zero_behind = ground arith

-- For a window of at least 1 and at most half the limit, and a limit below 2 ^ 62: a number that has
-- passed the check of a valid, initialised detector and been accepted does not pass again, as the next
-- check of the same number fails.
pub check_seq-accepted :
    (d : WrappedSlidingWindowDetector) (seq : ℕ)
    → IsValid d
    → d.is_init ≡ true
    → (check_seq d seq).2 ≡ true
    → (check_seq (accept_diff d seq (diff d seq)).0 seq).2 ≡ false
check_seq-accepted d seq v e passes = elim (diff_cases d seq v limit) [
  | inl here ↦
      let kept_v = kept-IsValid d seq v limit (place d seq v limit) in
      let after = check_seq-received (kept d (place d seq v limit)) seq kept_v e in
      rw (here, accept_behind d seq (place d seq v limit))
        (ground (
          arith,
          after.1,
          here,
          diff-kept d (place d seq v limit) seq,
          (check_seq-received d seq v e).1,
          received-kept d seq v limit seq limit,
        ))
  | inr (k, there, half, circle) ↦
      let moved_v = moved-IsValid d seq v limit k in
      let after = check_seq-received (moved d seq k) seq moved_v e in
      rw (there, accept_ahead d seq k)
        (ground (
          arith,
          v.some_room,
          after.1,
          diff-moved d seq k moved_v limit,
          received-moved d seq v limit k seq limit half circle,
        ))
]
  where
    limit : seq ≤ d.max_seq
    limit = ground (arith, (check_seq-received d seq v e).1)
