-- ===== src/ReplayDetector/Wrapped/Diff.antt =====
-- What `diff` computes, where nothing wraps in int64: limits below 2 ^ 62.
use transport.Prelude.{
  ℕ, ◌+◌, ◌-◌, ◌*◌, ◌/◌, ◌%◌, ◌^◌, ◌≤◌, ◌<◌, ◌≡◌, ltb, leb, if◌then◌else◌, arith,
}
use native.Mathlib.Nat.{add-mod_right, mod-eq_of_lt}
use transport.Prelude.Int.{pos, pos_part, neg_part, sub_ℕ, ◌+ℤ◌, ◌-ℤ◌, ltb_ℤ}
use transport.ReplayDetector.Wrapped.{
  WrappedSlidingWindowDetector, to_int64, wrap_int64, neg_int64, half_int64, shorten, diff,
}

pub to_int64_small : (x : ℕ) → x < 2 ^ 63 → to_int64 x ≡ pos x
unfolding to_int64
to_int64_small x h = ground arith

wrap-sub_ℕ : (a b : ℕ) → a < 2 ^ 63 → b < 2 ^ 63 → wrap_int64 (sub_ℕ a b) ≡ sub_ℕ a b
unfolding wrap_int64 to_int64
wrap-sub_ℕ a b ha hb = ground arith

half_lem : (m : ℕ) → m < 2 ^ 63 → half_int64 (to_int64 m) ≡ pos (m / 2)
unfolding half_int64
half_lem m h = rw (to_int64_small m h)

pos_sub : (a b : ℕ) → pos a -ℤ pos b ≡ sub_ℕ a b
unfolding ◌-ℤ◌
pos_sub a b = ground arith

half_neg : (m : ℕ) → half_int64 (sub_ℕ 0 m) ≡ sub_ℕ 0 (m / 2)
unfolding half_int64
half_neg m = ground arith

neg_half : (m : ℕ) → m < 2 ^ 63 → half_int64 (neg_int64 (to_int64 m)) ≡ sub_ℕ 0 (m / 2)
unfolding neg_int64
neg_half m h = rw (to_int64_small m h, pos_sub 0 m, wrap-sub_ℕ 0 m (omega arith) h, half_neg m)

modulus : (m : ℕ) → m < 2 ^ 62 → to_int64 ((m + 1) % 2 ^ 64) ≡ pos (m + 1)
modulus m h =
    let small : (m + 1) % 2 ^ 64 ≡ m + 1 = omega arith in
    rw small (to_int64_small (m + 1) (omega arith))

lt_pos : (h a b : ℕ) → ltb_ℤ (pos h) (sub_ℕ a b) ≡ ltb (h + b) a
lt_pos h a b = ground arith

lt_neg : (h a b : ℕ) → ltb_ℤ (sub_ℕ 0 h) (sub_ℕ a b) ≡ ltb b (a + h)
lt_neg h a b = ground arith

sub_pos : (a b k : ℕ) → sub_ℕ a b -ℤ pos k ≡ sub_ℕ a (b + k)
unfolding ◌-ℤ◌
sub_pos a b k = ground arith

add_pos : (a b k : ℕ) → sub_ℕ a b +ℤ pos k ≡ sub_ℕ (a + k) b
unfolding ◌+ℤ◌
add_pos a b k = ground arith

shorten-sub_ℕ :
    (m a b : ℕ)
    → m < 2 ^ 62
    → a ≤ m
    → b ≤ m
    → shorten m (sub_ℕ a b) ≡ (
        if ltb (m / 2 + b) a
        then sub_ℕ a (b + (m + 1))
        else if ltb b (a + m / 2)
        then sub_ℕ a b
        else sub_ℕ (a + (m + 1)) b)
unfolding shorten
shorten-sub_ℕ m a b hm ha hb = rw (
  half_lem m (omega arith),
  neg_half m (omega arith),
  modulus m hm,
  lt_pos (m / 2) a b,
  lt_neg (m / 2) a b,
  sub_pos a b (m + 1),
  add_pos a b (m + 1),
  wrap-sub_ℕ a (b + (m + 1)) (omega arith) (omega arith),
  wrap-sub_ℕ (a + (m + 1)) b (omega arith) (omega arith),
)

-- The distance that `diff` gives, for a limit of 2 or more: a number less than half the limit ahead
-- of the head without going round, or at most `max_seq - max_seq / 2` ahead when going round, is that
-- far ahead (negative); any other number is behind, by the rest of the circle.
pub diff_lem :
    (d : WrappedSlidingWindowDetector) (seq : ℕ)
    → 2 ≤ d.max_seq
    → d.max_seq < 2 ^ 62
    → d.latest_seq ≤ d.max_seq
    → seq ≤ d.max_seq
    → diff d seq ≡ (
        if ltb (d.max_seq / 2 + seq) d.latest_seq
        then sub_ℕ 0 (d.max_seq + 1 - (d.latest_seq - seq))
        else if leb seq d.latest_seq
        then pos (d.latest_seq - seq)
        else if ltb (seq - d.latest_seq) (d.max_seq / 2)
        then sub_ℕ 0 (seq - d.latest_seq)
        else pos (d.max_seq + 1 - (seq - d.latest_seq)))
unfolding diff
diff_lem d seq two hm hl hs =
    rw
      (
        to_int64_small d.latest_seq (omega arith),
        to_int64_small seq (omega arith),
        pos_sub d.latest_seq seq,
        wrap-sub_ℕ d.latest_seq seq (omega arith) (omega arith),
        shorten-sub_ℕ d.max_seq d.latest_seq seq hm hl hs,
      )
      (ground arith)

-- For a limit of at least 2 and below 2 ^ 62, and a head and a number up to the limit, where nothing
-- wraps in int64: `diff` is the distance behind the head modulo `max_seq + 1`, and it lies strictly above
-- `-(max_seq - max_seq / 2 + 1)` and at or below `max_seq + 1 - max_seq / 2`.
pub diff_circle :
    (d : WrappedSlidingWindowDetector) (seq : ℕ)
    → 2 ≤ d.max_seq
    → d.max_seq < 2 ^ 62
    → d.latest_seq ≤ d.max_seq
    → seq ≤ d.max_seq
    → ((d.latest_seq + (d.max_seq + 1) + neg_part (diff d seq) - pos_part (diff d seq))
          % (d.max_seq + 1)
        ≡ seq)
      × (neg_part (diff d seq) ≤ d.max_seq - d.max_seq / 2)
      × (pos_part (diff d seq) ≤ d.max_seq + 1 - d.max_seq / 2)
diff_circle d seq two hm hl hs =
    let n = d.max_seq + 1 in
    ground (
      arith,
      diff_lem d seq two hm hl hs,
      add-mod_right seq n,
      add-mod_right (seq + n) n,
      mod-eq_of_lt {n = seq} {m = n} (omega arith),
    )

-- Above half of the circle the distance is not the shorter one: with an odd limit 2 h + 1, a number
-- h ahead of the head, without going round, counts as h + 2 behind it.
pub diff_not_shorter :
    (d : WrappedSlidingWindowDetector) (h : ℕ)
    → 0 < h
    → d.max_seq ≡ 2 * h + 1
    → d.max_seq < 2 ^ 62
    → d.latest_seq + h ≤ d.max_seq
    → diff d (d.latest_seq + h) ≡ pos (h + 2)
diff_not_shorter d h hh e hm hl =
    ground (arith, diff_lem d (d.latest_seq + h) (omega arith) hm (omega arith) hl)
