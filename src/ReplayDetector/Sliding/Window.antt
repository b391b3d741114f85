-- ===== src/ReplayDetector/Sliding/Window.antt =====
-- The sliding window against the list of all sequence numbers accepted so far.
use transport.Prelude.{
  ℕ, ◌-◌, ◌%◌, ◌≤◌, ◌<◌, ◌≡◌, ◌⊎◌, inl, inr, refl, min, Bool, true, false, not, ◌&&◌, ◌||◌, ◌==◌,
  ltb, leb, some, List, [], ◌∷◌, arith, Bool-cases, ◌^◌, ◌∙◌, ltb→lt, ◌↔◌,
}
use mathlib.Core.Path.{subst}
use native.Mathlib.Nat.{mod-eq_of_lt, mod_self}
use transport.ReplayDetector.FixedBig.{lsh, set_bit}
use transport.ReplayDetector.FixedBig.Laws.{IsValid}
use transport.ReplayDetector.FixedBig.Bits.{has, bit-has, new_fixed_big_int_lem, set_bit-lsh}
use transport.ReplayDetector.Sliding.{
  SlidingWindowDetector, new, check_seq, advance, is_latest, mark, accept_seq,
}

-- Is the number among those accepted?
unfoldable pub seen : List ℕ → ℕ → Bool
seen [] x = false
seen (y ∷ ys) x = y == x || seen ys x

-- The detector, whose window is at least 1 and at most its limit, has accepted exactly the numbers of
-- the list: its head is their maximum, and the bits of its mask are those among the last `window_size`
-- numbers.
pub record Tracks (d : SlidingWindowDetector) (acc : List ℕ) : Type 0 where
  pub valid : IsValid d.mask
  pub size : d.mask.n ≡ d.window_size
  pub fits : d.window_size ≤ d.max_seq
  pub positive : 0 < d.window_size
  pub in_range : d.latest_seq ≤ d.max_seq
  pub newest : (x : ℕ) → seen acc x ≡ true → x ≤ d.latest_seq
  pub head : (seen acc d.latest_seq ≡ true) ⊎ ((acc ≡ []) × (d.latest_seq ≡ 0))
  pub window :
      (i : ℕ)
      → has d.mask i ≡ (ltb i d.window_size && (leb i d.latest_seq && seen acc (d.latest_seq - i)))

-- A new detector has accepted nothing.
pub new-Tracks :
    (window_size max_seq : ℕ)
    → 0 < window_size
    → window_size ≤ max_seq
    → max_seq < 2 ^ 64 - 63
    → Tracks (new window_size max_seq) []
unfolding new seen
new-Tracks w m hw hm bound =
    let made = new_fixed_big_int_lem w (omega arith) in
    record {
      valid = made.0;
      size = made.2;
      fits = hm;
      positive = hw;
      in_range = omega arith;
      newest = λ x e. cc;
      head = inr (refl, refl);
      window = λ i. ground (arith, made.1 i);
    }

-- With a window of at least 1 and at most the limit, the check of a detector that tracks the numbers
-- accepted so far passes exactly the numbers up to the limit that are ahead of its head, which is the
-- highest of them or 0, or within the window and not accepted yet.
pub check_seq-Tracks :
    (d : SlidingWindowDetector) (acc : List ℕ) (seq : ℕ)
    → Tracks d acc
    → check_seq d seq ≡ (
        leb seq d.max_seq
        && (ltb d.latest_seq seq || (ltb (d.latest_seq - seq) d.window_size && not (seen acc seq))))
unfolding check_seq
check_seq-Tracks d acc seq t = elim (Bool-cases (leb seq d.latest_seq)) [
  | inr ahead ↦ ground arith
  | inl behind ↦
      let back : d.latest_seq - (d.latest_seq - seq) ≡ seq = ground arith in
      ground
        (arith, bit-has d.mask (d.latest_seq - seq), rw back at (t.window (d.latest_seq - seq)))
]

-- All but the head: what holds in the middle of `acceptSeq` too, when the window has been moved.
record Moved (d : SlidingWindowDetector) (acc : List ℕ) : Type 0 where
  valid : IsValid d.mask
  size : d.mask.n ≡ d.window_size
  fits : d.window_size ≤ d.max_seq
  positive : 0 < d.window_size
  in_range : d.latest_seq ≤ d.max_seq
  newest : (x : ℕ) → seen acc x ≡ true → x ≤ d.latest_seq
  window :
      (i : ℕ)
      → has d.mask i ≡ (ltb i d.window_size && (leb i d.latest_seq && seen acc (d.latest_seq - i)))

not-seen :
    (acc : List ℕ) (n x : ℕ) → ((y : ℕ) → seen acc y ≡ true → y ≤ n) → n < x → seen acc x ≡ false
not-seen acc n x newest h = elim (Bool-cases (seen acc x)) [
  | inl e ↦ absurd (omega (arith, newest x e))
  | inr e ↦ e
]

module _ (d : SlidingWindowDetector) (acc : List ℕ) (seq : ℕ) (t : Tracks d acc) where
  abbrev step : ℕ
  step = min (seq - d.latest_seq) d.window_size

  advanced_window :
      d.latest_seq < seq
      → (i : ℕ)
      → has (lsh d.mask step) i ≡ (ltb i d.window_size && (leb i seq && seen acc (seq - i)))
  advanced_window ahead i = elim (Bool-cases (ltb i d.window_size)) [
    | inr out ↦ ground (arith, t.size, (set_bit-lsh d.mask step t.valid).3 i)
    | inl inside ↦ elim (Bool-cases (leb (seq - d.latest_seq) i)) [
      | inl shifted ↦
          let back : d.latest_seq - (i - step) ≡ seq - i = ground arith in
          ground
            (arith, t.size, (set_bit-lsh d.mask step t.valid).3 i, rw back at (t.window (i - step)))
      | inr fresh ↦ ground (
        arith,
        t.size,
        (set_bit-lsh d.mask step t.valid).3 i,
        not-seen acc d.latest_seq (seq - i) t.newest (ground arith),
      )
    ]
  ]

  advance-Moved : seq ≤ d.max_seq → Moved (advance d seq) acc × (seq ≤ (advance d seq).latest_seq)
  unfolding advance
  advance-Moved limit = elim (Bool-cases (ltb d.latest_seq seq)) [
    | inl ahead ↦
        rw (ahead, advance)
          (
            record {
              valid = (set_bit-lsh d.mask step t.valid).0.1;
              size = (set_bit-lsh d.mask step t.valid).1.1 ∙ t.size;
              fits = t.fits;
              positive = t.positive;
              in_range = limit;
              newest = λ x e. omega (arith, t.newest x e, ltb→lt d.latest_seq seq ahead);
              window = advanced_window (ltb→lt d.latest_seq seq ahead);
            },
            omega arith,
          )
    | inr behind ↦
        rw (behind, advance)
          (
            record {
              valid = t.valid;
              size = t.size;
              fits = t.fits;
              positive = t.positive;
              in_range = t.in_range;
              newest = t.newest;
              window = t.window;
            },
            ground arith,
          )
  ]

  -- The head of the window is an accepted number, or the one being accepted.
  advance-head : (seen acc (advance d seq).latest_seq ≡ true) ⊎ ((advance d seq).latest_seq ≡ seq)
  unfolding advance
  advance-head = elim (Bool-cases (ltb d.latest_seq seq)) [
    | inl ahead ↦ rw (ahead, advance) (inr refl)
    | inr behind ↦ rw (behind, advance) (elim t.head [ inl e ↦ inl e | inr e ↦ inr (ground arith) ])
  ]

module _ (d : SlidingWindowDetector) (acc : List ℕ) (seq : ℕ) (m : Moved d acc)
    (behind : seq ≤ d.latest_seq)
    (head : (seen acc d.latest_seq ≡ true) ⊎ (d.latest_seq ≡ seq)) where
  abbrev diff : ℕ
  diff = (d.latest_seq - seq) % d.max_seq

  -- The remainder matters only at distance `max_seq`, which lies outside the window.
  diff_cases : (diff ≡ d.latest_seq - seq) ⊎ ((diff ≡ 0) × (d.latest_seq - seq ≡ d.max_seq))
  diff_cases = elim (Bool-cases (ltb (d.latest_seq - seq) d.max_seq)) [
    | inl near ↦ inl (mod-eq_of_lt (ltb→lt (d.latest_seq - seq) d.max_seq near))
    | inr far ↦
        let e : d.latest_seq - seq ≡ d.max_seq = ground (arith, m.in_range) in
        inr (rw e (mod_self d.max_seq), e)
  ]

  marked_window :
      (i : ℕ)
      → has (set_bit d.mask diff) i
        ≡ (ltb i d.window_size && (leb i d.latest_seq && seen (seq ∷ acc) (d.latest_seq - i)))
  unfolding seen
  marked_window i = ground (
    arith,
    m.size,
    m.fits,
    m.positive,
    m.in_range,
    diff_cases,
    head,
    m.window i,
    (set_bit-lsh d.mask diff m.valid).2 i,
  )

  mark-Tracks : Tracks (mark d diff) (seq ∷ acc)
  unfolding mark seen
  mark-Tracks = record {
    valid = (set_bit-lsh d.mask diff m.valid).0.0;
    size = (set_bit-lsh d.mask diff m.valid).1.0 ∙ m.size;
    fits = m.fits;
    positive = m.positive;
    in_range = m.in_range;
    newest = λ x e. ground (arith, m.newest x);
    head = inl (ground (arith, head));
    window = marked_window;
  }

-- The value that `acceptSeq` returns says whether the number is above all those accepted before.
is_latest-Tracks :
    (d : SlidingWindowDetector) (acc : List ℕ) (seq : ℕ)
    → Tracks d acc
    → (is_latest d seq ≡ true) ↔ ((x : ℕ) → seen acc x ≡ true → x < seq)
unfolding is_latest seen
is_latest-Tracks d acc seq t = (
  λ e x h. ground (arith, t.newest x h, t.window 0, bit-has d.mask 0, t.positive),
  λ above. ground (arith, t.head, above d.latest_seq, t.window 0, bit-has d.mask 0, t.positive),
)

max_seq-advance : (d : SlidingWindowDetector) (seq : ℕ) → (advance d seq).max_seq ≡ d.max_seq
unfolding advance
max_seq-advance d seq = ground arith

window_size-advance :
    (d : SlidingWindowDetector) (seq : ℕ) → (advance d seq).window_size ≡ d.window_size
unfolding advance
window_size-advance d seq = ground arith

-- With a window of at least 1 and at most the limit, to accept a number up to the limit never panics
-- where the detector tracks the numbers accepted so far: it then tracks that number besides them, and
-- reports whether it is above all of them. The configuration stays.
pub accept_seq-Tracks :
    (d : SlidingWindowDetector) (acc : List ℕ) (seq : ℕ)
    → Tracks d acc
    → seq ≤ d.max_seq
    → (d' : SlidingWindowDetector) × (b : Bool) × (accept_seq d seq ≡ some (d', b))
      × Tracks d' (seq ∷ acc)
      × ((b ≡ true) ↔ ((x : ℕ) → seen acc x ≡ true → x < seq))
      × (d'.max_seq ≡ d.max_seq)
      × (d'.window_size ≡ d.window_size)
unfolding accept_seq
accept_seq-Tracks d acc seq t limit = (
  mark (advance d seq) (((advance d seq).latest_seq - seq) % d.max_seq),
  is_latest d seq,
  ground (arith, t.positive, t.fits),
  subst (λ k. Tracks (mark (advance d seq) (((advance d seq).latest_seq - seq) % k)) (seq ∷ acc))
      (max_seq-advance d seq)
      (mark-Tracks (advance d seq) acc seq (advance-Moved d acc seq t limit).0
        (advance-Moved d acc seq t limit).1 (advance-head d acc seq t)),
  is_latest-Tracks d acc seq t,
  max_seq-advance d seq,
  window_size-advance d seq,
)
