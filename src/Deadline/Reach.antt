-- ===== src/Deadline/Reach.antt =====
-- Everything that can happen to a deadline, in any order, and what holds of it at all times.
use transport.Prelude.{
  ℕ, zero, suc, ◌+◌, ◌-◌, ◌≤◌, ◌<◌, ◌≡◌, inl, inr, refl, ap, sym, ◌∙◌, true, false, ◌==◌, Option,
  none, some, arith, some-inj, Bool-cases, Option-cases,
}
use transport.Deadline.{
  Deadline, DeadlineState, suspended, started, exceeded, Outcome, new, is_exceeded, timeout, set,
  context, done_signal, has_err, current_deadline, decr,
}
use transport.Deadline.Steps.{
  System, armed, StateFits, IsValid, State-cases, set-IsValid, timeout-IsValid, ran, lowered,
  timeout_ignored, timeout_fires, fired, decr_lem, ignored-IsValid,
}

-- `sets` and `asks` are calls of the client, `expires` is Go's timer, `runs` is a callback that
-- gets the lock, and `passes` is the clock. A timer expires only while fewer than 254 callbacks wait.
pub data Step : System → System → Type 0 where
  sets :
      {s : System} (t : Option ℕ) (d' : Deadline) (c : Option ℕ)
      → set s.d s.now t ≡ some (d', c)
      → Step s (record s { d = d' })
  asks : {s : System} → Step s (record s { d = (context s.d).0 })
  expires :
      {s : System} (t : ℕ)
      → s.d.timer_due ≡ some t
      → t ≤ s.now
      → s.waiting < 254
      → Step s (record s { d = record s.d { timer_due = none }; waiting = s.waiting + 1 })
  runs :
      {s : System} (n : ℕ) (d' : Deadline) (c : Option ℕ)
      → s.waiting ≡ suc n
      → timeout s.d ≡ some (d', c)
      → Step s (ran s n d')
  passes : {s : System} (later : ℕ) → s.now ≤ later → Step s (record s { now = later })

pub data Reaches : System → Type 0 where
  begins : (now : ℕ) → Reaches (record { d = new; waiting = 0; now = now })
  goes : {s s' : System} → Reaches s → Step s s' → Reaches s'

begins-IsValid : (now : ℕ) → IsValid (record { d = new; waiting = 0; now = now })
unfolding new is_exceeded
begins-IsValid now = record {
  counted = refl;
  bounded = omega arith;
  closed = refl;
  fits = (refl, refl);
}

context-IsValid : (s : System) → IsValid s → IsValid (record s { d = (context s.d).0 })
context-IsValid s v = elim (Bool-cases (is_exceeded s.d.state)) [
  | inl past ↦ unfold context in rw past v
  | inr ahead ↦ elim (Option-cases s.d.ctx) [
    | inl unset ↦ rw (same ahead unset) (record {
      counted = v.counted;
      bounded = v.bounded;
      closed = v.closed;
      fits = kept s.d.state v.fits;
    })
    | inr (c, old) ↦ unfold context in rw (ahead, old) v
  ]
]
  where
    named : Deadline
    named = record s.d { ctx = some s.d.next_name; next_name = s.d.next_name + 1 }

    kept : (x : DeadlineState) → StateFits x s → StateFits x (record s { d = named })
    kept suspended f = f
    kept started f = f
    kept exceeded f = f

    same :
        is_exceeded s.d.state ≡ false → s.d.ctx ≡ none → context s.d ≡ (named, some s.d.next_name)
    same ahead unset = unfold context in rw (ahead, unset) refl

expires-IsValid :
    (s : System) (t : ℕ)
    → IsValid s
    → s.d.timer_due ≡ some t
    → t ≤ s.now
    → s.waiting < 254
    → IsValid (record s { d = record s.d { timer_due = none }; waiting = s.waiting + 1 })
expires-IsValid s t v on due h = record {
  counted = omega (arith, v.counted, ap armed on);
  bounded = omega arith;
  closed = v.closed;
  fits = kept s.d.state v.fits;
}
  where
    next : System
    next = record s { d = record s.d { timer_due = none }; waiting = s.waiting + 1 }

    kept : (x : DeadlineState) → StateFits x s → StateFits x next
    kept suspended (dl, off) = cc
    kept started (t', dl, inl on') =
        (t', dl, inr (refl, omega (arith, some-inj (sym on' ∙ on)), omega arith))
    kept started (t', dl, inr (off, _, _)) = cc
    kept exceeded (t', dl, le, off) = cc

passes-IsValid :
    (s : System) (later : ℕ) → IsValid s → s.now ≤ later → IsValid (record s { now = later })
passes-IsValid s later v h = record {
  counted = v.counted;
  bounded = v.bounded;
  closed = v.closed;
  fits = kept s.d.state v.fits;
}
  where
    kept : (x : DeadlineState) → StateFits x s → StateFits x (record s { now = later })
    kept suspended f = f
    kept started (t, dl, inl on) = (t, dl, inl on)
    kept started (t, dl, inr (off, due, f)) = (t, dl, inr (off, omega arith, f))
    kept exceeded (t, dl, due, off) = (t, dl, omega arith, off)

pub Step-IsValid : {s s' : System} → IsValid s → Step s s' → IsValid s'
Step-IsValid {s} v (sets t d' c e) =
    let (d'', c'', e'', v'', _) = set-IsValid s t v in
    rw (sym (ap (λ r. r.0) (some-inj (sym e'' ∙ e)))) v''
Step-IsValid {s} v asks = context-IsValid s v
Step-IsValid {s} v (expires t on due h) = expires-IsValid s t v on due h
Step-IsValid {s} v (runs n d' c w e) =
    let (d'', c'', e'', v'') = timeout-IsValid s n v w in
    rw (sym (ap (λ r. r.0) (some-inj (sym e'' ∙ e)))) v''
Step-IsValid {s} v (passes later h) = passes-IsValid s later v h

-- A deadline that has been reached through any interleaving of calls, expiries and callbacks is
-- valid: it counts its callbacks, its channel is closed exactly if the deadline is exceeded, and
-- neither a `set` nor a callback that gets the lock panics by closing the channel twice.
pub Reaches-IsValid :
    {s : System}
    → Reaches s
    → IsValid s
      × (done_signal s.d ≡ has_err s.d)
      × ((t : Option ℕ) → (o : Deadline × Option ℕ) × (set s.d s.now t ≡ some o))
      × (0 < s.waiting → (o : Deadline × Option ℕ) × (timeout s.d ≡ some o))
unfolding done_signal has_err
Reaches-IsValid {s} h =
    let v = valid h in
    (
      v,
      v.closed,
      λ t. (let (d', c, e, _, _) = set-IsValid s t v in ((d', c), e)),
      λ w. (let (d', c, e, _) = timeout-IsValid s (s.waiting - 1) v (omega arith) in ((d', c), e)),
    )
  where
    valid : {s' : System} → Reaches s' → IsValid s'
    valid (begins now) = begins-IsValid now
    valid (goes r step) = Step-IsValid (valid r) step

-- Never too early: whenever the deadline reports that it is exceeded, it is a time that has passed,
-- also after it was set again while callbacks of an earlier deadline were still waiting.
pub exceeded-Reaches :
    {s : System}
    → Reaches s
    → has_err s.d ≡ true
    → (t : ℕ) × (current_deadline s.d ≡ some t) × (t ≤ s.now)
unfolding has_err current_deadline
exceeded-Reaches {s} h e = elim (State-cases s.d.state) [
  | inl f ↦ (let q : false ≡ true = unfold is_exceeded in rw f at e in cc)
  | inr (inl f) ↦ (let q : false ≡ true = unfold is_exceeded in rw f at e in cc)
  | inr (inr f) ↦
      let (t, dl, due, _) : StateFits exceeded s = rw f at (Reaches-IsValid h).0.fits in
      (t, dl, due)
]

-- The callbacks that wait get the lock one after the other.
unfoldable pub run_all : ℕ → Deadline → Option Deadline
run_all zero d = some d
run_all (suc n) d = elim (timeout d) [ none ↦ none | some (d', c) ↦ run_all n d' ]

-- The state of a started deadline whose timer has expired: its time is over, and callbacks wait.
expired_lem :
    (s : System)
    → StateFits started s
    → s.d.timer_due ≡ none
    → (t : ℕ) × (s.d.deadline ≡ some t) × (t ≤ s.now) × (0 < s.waiting)
expired_lem s (t, dl, inl on) off = cc
expired_lem s (t, dl, inr (_, due, w)) off = (t, dl, due, w)

run_all-timeout :
    (n : ℕ) (d d' : Deadline) (c : Option ℕ)
    → timeout d ≡ some (d', c)
    → run_all (suc n) d ≡ run_all n d'
unfolding run_all
run_all-timeout n d d' c e = ap (after n) e
  where
    after : ℕ → Outcome → Option Deadline
    after n none = none
    after n (some (d', c)) = run_all n d'

run_expired :
    (n : ℕ) (s : System)
    → IsValid s
    → s.waiting ≡ suc n
    → s.d.state ≡ started
    → s.d.timer_due ≡ none
    → (d' : Deadline) × (run_all (suc n) s.d ≡ some d') × (has_err d' ≡ true)
unfolding has_err
run_expired zero s v w f off =
    let last : (decr s.d.pending == 0) ≡ true = ground (arith, decr_lem s 0 v w, ap armed off) in
    (
      fired s.d,
      run_all-timeout 0 s.d (fired s.d) s.d.ctx (timeout_fires s v f last)
          ∙ (unfold run_all in refl),
      unfold is_exceeded in refl,
    )
run_expired (suc n) s v w f off =
    let others : (decr s.d.pending == 0) ≡ false =
      ground (arith, decr_lem s (suc n) v w, ap armed off) in
    let (t, dl, due, _) = expired_lem s (rw f at v.fits) off in
    let fits : StateFits s.d.state (ran s (suc n) (lowered s.d)) =
      rw f (t, dl, inr (off, due, omega arith)) in
    let (d', e, x) =
      run_expired n (ran s (suc n) (lowered s.d)) (ignored-IsValid s (suc n) v w fits) refl f off in
    (d', run_all-timeout (suc n) s.d (lowered s.d) none (timeout_ignored s.d (inl others)) ∙ e, x)

-- Not too late either: when the timer of a started deadline has expired, the deadline is exceeded
-- as soon as the callbacks that wait have run, in whatever order.
pub run_all-exceeds :
    (s : System)
    → IsValid s
    → s.d.state ≡ started
    → s.d.timer_due ≡ none
    → (d' : Deadline) × (run_all s.waiting s.d ≡ some d') × (has_err d' ≡ true)
run_all-exceeds s v f off =
    let (_, _, _, w) = expired_lem s (rw f at v.fits) off in
    let n : s.waiting ≡ suc (s.waiting - 1) = omega arith in
    rw n (run_expired (s.waiting - 1) s v n f off)
