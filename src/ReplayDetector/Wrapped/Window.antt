-- ===== src/ReplayDetector/Wrapped/Window.antt =====
-- The window of the wrapping detector, as the set of the numbers received in it.
use transport.Prelude.{
  ℕ, suc, ◌+◌, ◌-◌, ◌/◌, ◌^◌, ◌≤◌, ◌<◌, ◌≡◌, ◌⊎◌, inl, inr, ◌∙◌, min, Bool, true, false, ◌&&◌, ◌||◌,
  ◌==◌, ltb, leb, if◌then◌else◌, arith, Bool-cases,
}
use transport.Prelude.Int.{pos, negsuc, sub_ℕ}
use transport.ReplayDetector.FixedBig.{FixedBigInt, lsh, set_bit}
use transport.ReplayDetector.FixedBig.Laws
use transport.ReplayDetector.FixedBig.Bits.{has, has-lt, set_bit-lsh, new_fixed_big_int_lem}
use transport.ReplayDetector.Wrapped.{
  WrappedSlidingWindowDetector, with_wrap, diff, initialise, accept_diff,
}
use transport.ReplayDetector.Wrapped.Diff.{diff_lem}

-- How far a number lies behind the head, going down and round from 0 to the limit.
abbrev pub behind : ℕ → ℕ → ℕ → ℕ
behind max_seq latest s = if leb s latest then latest - s else latest + (max_seq + 1) - s

-- Is the number marked as received in the window?
unfoldable pub received : WrappedSlidingWindowDetector → ℕ → Bool
received d s = has d.mask (behind d.max_seq d.latest_seq s)

-- A window of at most half the limit, which is itself small enough for int64 differences.
pub record IsValid (d : WrappedSlidingWindowDetector) : Type 0 where
  pub mask_valid : Laws.IsValid d.mask
  pub size : d.mask.n ≡ d.window_size
  pub some_room : 0 < d.window_size
  pub fits : d.window_size ≤ d.max_seq / 2
  pub small : d.max_seq < 2 ^ 62
  pub in_range : d.latest_seq ≤ d.max_seq

-- A new detector is valid, before and after its first check.
pub with_wrap-IsValid :
    (window_size max_seq seq : ℕ)
    → 0 < window_size
    → window_size ≤ max_seq / 2
    → max_seq < 2 ^ 62
    → seq ≤ max_seq
    → IsValid (initialise (with_wrap window_size max_seq) seq)
      × ((s : ℕ) → received (initialise (with_wrap window_size max_seq) seq) s ≡ false)
unfolding with_wrap initialise received
with_wrap-IsValid w m seq hw hm bound hs =
    let made = new_fixed_big_int_lem w (omega arith) in
    (
      record {
        mask_valid = made.0;
        size = made.2;
        some_room = hw;
        fits = hm;
        small = bound;
        in_range = ground arith;
      },
      λ s. made.1 (behind m (if seq == 0 then m else seq - 1) s),
    )

-- A distance is the number's place in the window, or says how far ahead it is: at most half.
pub diff_cases :
    (d : WrappedSlidingWindowDetector) (seq : ℕ)
    → IsValid d
    → seq ≤ d.max_seq
    → (diff d seq ≡ pos (behind d.max_seq d.latest_seq seq))
      ⊎ ((k : ℕ) × (diff d seq ≡ negsuc k)
          × (suc k ≤ d.max_seq - d.max_seq / 2)
          × (suc k + behind d.max_seq d.latest_seq seq ≡ d.max_seq + 1))
diff_cases d seq v hs = elim (Bool-cases (ltb (d.max_seq / 2 + seq) d.latest_seq)) [
  | inl round ↦
      inr (d.max_seq - (d.latest_seq - seq), ground (arith, lem), ground arith, ground arith)
  | inr direct ↦ elim (Bool-cases (leb seq d.latest_seq)) [
    | inl back ↦ inl (ground (arith, lem))
    | inr front ↦ elim (Bool-cases (ltb (seq - d.latest_seq) (d.max_seq / 2))) [
      | inl near ↦ inr (seq - d.latest_seq - 1, ground (arith, lem), ground arith, ground arith)
      | inr far ↦ inl (ground (arith, lem))
    ]
  ]
]
  where
    lem : diff d seq ≡ (
        if ltb (d.max_seq / 2 + seq) d.latest_seq
        then sub_ℕ 0 (d.max_seq + 1 - (d.latest_seq - seq))
        else if leb seq d.latest_seq
        then pos (d.latest_seq - seq)
        else if ltb (seq - d.latest_seq) (d.max_seq / 2)
        then sub_ℕ 0 (seq - d.latest_seq)
        else pos (d.max_seq + 1 - (seq - d.latest_seq)))
    lem = diff_lem d seq (omega (arith, v.some_room, v.fits)) v.small v.in_range hs

-- The place of a number after the head has moved k ahead, to `seq`.
behind-moved :
    (m latest seq s k : ℕ)
    → latest ≤ m
    → seq ≤ m
    → s ≤ m
    → k + behind m latest seq ≡ m + 1
    → (if leb k (behind m seq s)
        then behind m latest s ≡ behind m seq s - k
        else behind m latest s ≡ m + 1 - k + behind m seq s)
behind-moved m latest seq s k hl hq hs e = ground arith

-- Nothing is marked outside the window.
has-out : (b : FixedBigInt) (i : ℕ) → b.n ≤ i → has b i ≡ false
has-out b i h = ground (arith, has-lt b i)

-- The two outcomes of `acceptDiff`.
abbrev pub kept : WrappedSlidingWindowDetector → ℕ → WrappedSlidingWindowDetector
kept d b = record d { mask = set_bit d.mask b }

abbrev pub moved : WrappedSlidingWindowDetector → ℕ → ℕ → WrappedSlidingWindowDetector
moved d seq k = record d {
  latest_seq = seq;
  mask = set_bit (lsh d.mask (min (suc k) d.window_size)) 0;
}

pub accept_behind :
    (d : WrappedSlidingWindowDetector) (seq b : ℕ) → accept_diff d seq (pos b) ≡ (kept d b, false)
unfolding accept_diff
accept_behind d seq b = ground arith

pub accept_ahead :
    (d : WrappedSlidingWindowDetector) (seq k : ℕ)
    → accept_diff d seq (negsuc k) ≡ (moved d seq k, true)
unfolding accept_diff
accept_ahead d seq k = ground arith

module _ (d : WrappedSlidingWindowDetector) (seq : ℕ) (v : IsValid d) (hs : seq ≤ d.max_seq) where
  abbrev pub place : ℕ
  place = behind d.max_seq d.latest_seq seq

  -- A number that is not ahead: only its own bit changes.
  pub received-kept :
      (s : ℕ)
      → s ≤ d.max_seq
      → behind d.max_seq d.latest_seq s < d.window_size
      → received (kept d place) s ≡ (s == seq || received d s)
  unfolding received
  received-kept s h near = ground (
    arith,
    v.size,
    v.in_range,
    (set_bit-lsh d.mask place v.mask_valid).2 (behind d.max_seq d.latest_seq s),
  )

  pub kept-IsValid : (b : ℕ) → IsValid (kept d b)
  kept-IsValid b = record {
    mask_valid = (set_bit-lsh d.mask b v.mask_valid).0.0;
    size = (set_bit-lsh d.mask b v.mask_valid).1.0 ∙ v.size;
    some_room = v.some_room;
    fits = v.fits;
    small = v.small;
    in_range = v.in_range;
  }

  module _ (k : ℕ) where
    abbrev pub step : ℕ
    step = min (suc k) d.window_size

    -- The mask after the move, bit by bit.
    has-moved :
        (i : ℕ)
        → i < d.window_size
        → has (moved d seq k).mask i ≡ ((leb (suc k) i && has d.mask (i - suc k)) || 0 == i)
    has-moved i inside =
        let shifted = set_bit-lsh d.mask step v.mask_valid in
        let marked = set_bit-lsh (lsh d.mask step) 0 shifted.0.1 in
        ground (arith, v.size, shifted.1.1, shifted.3 i, marked.2 i)

    -- A number ahead moves the window.
    pub received-moved :
        (s : ℕ)
        → s ≤ d.max_seq
        → suc k ≤ d.max_seq - d.max_seq / 2
        → suc k + place ≡ d.max_seq + 1
        → behind d.max_seq seq s < d.window_size
        → received (moved d seq k) s ≡ (s == seq || received d s)
    unfolding received
    received-moved s h half circle near = elim (Bool-cases (leb (suc k) (behind d.max_seq seq s))) [
      | inl old ↦
          let back : behind d.max_seq d.latest_seq s ≡ behind d.max_seq seq s - suc k =
            rw old at (behind-moved d.max_seq d.latest_seq seq s (suc k) v.in_range hs h circle) in
          rw (back, has-moved (behind d.max_seq seq s) near) (ground arith)
      | inr fresh ↦
          let back : behind d.max_seq d.latest_seq s
              ≡ d.max_seq + 1 - suc k + behind d.max_seq seq s =
            rw fresh at
              (behind-moved d.max_seq d.latest_seq seq s (suc k) v.in_range hs h circle) in
          rw (back, has-moved (behind d.max_seq seq s) near)
            (ground (
              arith,
              v.size,
              v.fits,
              has-out d.mask (d.max_seq + 1 - suc k + behind d.max_seq seq s),
            ))
    ]

    pub moved-IsValid : IsValid (moved d seq k)
    moved-IsValid =
        let shifted = set_bit-lsh d.mask step v.mask_valid in
        let marked = set_bit-lsh (lsh d.mask step) 0 shifted.0.1 in
        record {
          mask_valid = marked.0.0;
          size = marked.1.0 ∙ shifted.1.1 ∙ v.size;
          some_room = v.some_room;
          fits = v.fits;
          small = v.small;
          in_range = hs;
        }
