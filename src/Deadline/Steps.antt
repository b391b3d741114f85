-- ===== src/Deadline/Steps.antt =====
-- The deadline together with Go's timer: what can happen, in any order.
use transport.Prelude.{
  ℕ, suc, ◌+◌, ◌≤◌, ◌<◌, ◌≡◌, ◌⊎◌, inl, inr, refl, ap, sym, ◌∙◌, true, false, ◌==◌, ltb, Option,
  none, some, arith, Bool-cases, Option-cases,
}
use transport.Deadline.{
  Deadline, DeadlineState, suspended, started, exceeded, fire, is_started, is_exceeded, timeout,
  stop_timer, renew, set, incr, decr,
}

-- `waiting` counts the callbacks that the timer has started and that have not got the lock yet.
pub record System : Type 0 where
  pub d : Deadline
  pub waiting : ℕ
  pub now : ℕ

abbrev pub armed : Option ℕ → ℕ
armed none = 0
armed (some t) = 1

-- A started deadline: the timer is armed for it, or it is past and a callback waits.
abbrev pub StateFits : DeadlineState → System → Type 0
StateFits suspended s = (s.d.deadline ≡ none) × (s.d.timer_due ≡ none)
StateFits started s =
    (t : ℕ) × (s.d.deadline ≡ some t)
    × ((s.d.timer_due ≡ some t) ⊎ ((s.d.timer_due ≡ none) × (t ≤ s.now) × (0 < s.waiting)))
StateFits exceeded s = (t : ℕ) × (s.d.deadline ≡ some t) × (t ≤ s.now) × (s.d.timer_due ≡ none)

-- Fewer than 255 callbacks wait, so the uint8 counter does not wrap.
pub record IsValid (s : System) : Type 0 where
  pub counted : s.d.pending ≡ armed s.d.timer_due + s.waiting
  pub bounded : s.waiting < 255
  pub closed : s.d.is_done_closed ≡ is_exceeded s.d.state
  pub fits : StateFits s.d.state s

pub State-cases : (x : DeadlineState) → (x ≡ suspended) ⊎ ((x ≡ started) ⊎ (x ≡ exceeded))
State-cases suspended = inl refl
State-cases started = inr (inl refl)
State-cases exceeded = inr (inr refl)

-- After the stop no timer is armed, and `pending` counts the callbacks that wait.
stop_timer_lem :
    (s : System)
    → IsValid s
    → ((stop_timer s.d).timer_due ≡ none)
      × ((stop_timer s.d).pending ≡ s.waiting)
      × ((stop_timer s.d).state ≡ s.d.state)
      × ((stop_timer s.d).is_done_closed ≡ s.d.is_done_closed)
unfolding stop_timer is_started
stop_timer_lem s v = elim (State-cases s.d.state) [
  | inl e ↦ let f : StateFits suspended s = rw e at v.fits in ground (arith, f, e, v.counted)
  | inr (inl e) ↦ elim (Option-cases s.d.timer_due) [
    | inl off ↦ ground (arith, e, off, v.counted)
    | inr (due, on) ↦ ground (arith, e, on, v.counted, v.bounded)
  ]
  | inr (inr e) ↦ let f : StateFits exceeded s = rw e at v.fits in ground (arith, f.3, e, v.counted)
]

-- The deadline in the middle of `set`: stopped, counted up and with an open channel.
abbrev pub opened : System → Option ℕ → Deadline
opened s t =
    renew (record (stop_timer s.d) { deadline = t; pending = incr (stop_timer s.d).pending })

renew_lem :
    (d : Deadline)
    → d.is_done_closed ≡ is_exceeded d.state
    → ((renew d).timer_due ≡ d.timer_due)
      × ((renew d).pending ≡ d.pending)
      × ((renew d).deadline ≡ d.deadline)
      × ((renew d).is_done_closed ≡ false)
unfolding renew
renew_lem d e = elim (Bool-cases (is_exceeded d.state)) [
  | inl past ↦ rw past (refl, refl, refl, refl)
  | inr ahead ↦ rw ahead (refl, refl, refl, e ∙ ahead)
]

opened_lem :
    (s : System) (t : Option ℕ)
    → IsValid s
    → ((opened s t).timer_due ≡ none)
      × ((opened s t).pending ≡ s.waiting + 1)
      × ((opened s t).deadline ≡ t)
      × ((opened s t).is_done_closed ≡ false)
opened_lem s t v =
    let a = stop_timer_lem s v in
    let b =
      renew_lem (record (stop_timer s.d) { deadline = t; pending = incr (stop_timer s.d).pending })
        (a.3 ∙ v.closed ∙ ap is_exceeded (sym a.2)) in
    (b.0 ∙ a.0, omega (arith, b.1, a.1, v.bounded), b.2, b.3)

-- `set` never closes a channel twice, and keeps the system valid, at any time and in any state.
-- It leaves the new deadline in force.
pub set-IsValid :
    (s : System) (t : Option ℕ)
    → IsValid s
    → (d' : Deadline) × (c : Option ℕ) × (set s.d s.now t ≡ some (d', c))
      × IsValid (record s { d = d' })
      × (d'.deadline ≡ t)
unfolding set fire is_exceeded
set-IsValid s none v =
    let o = opened_lem s none v in
    (
      record (opened s none) {
        pending = decr (opened s none).pending;
        state = DeadlineState.suspended;
      },
      none,
      refl,
      record {
        counted = omega (arith, o.1, ap armed o.0, v.bounded);
        bounded = v.bounded;
        closed = o.3;
        fits = (o.2, o.0);
      },
      o.2,
    )
set-IsValid s (some t) v = elim (Bool-cases (ltb s.now t)) [
  | inl later ↦
      let o = opened_lem s (some t) v in
      (
        record (opened s (some t)) { state = DeadlineState.started; timer_due = some t },
        none,
        rw later refl,
        record {
          counted = omega (arith, o.1);
          bounded = v.bounded;
          closed = o.3;
          fits = (t, o.2, inl refl);
        },
        o.2,
      )
  | inr reached ↦
      let o = opened_lem s (some t) v in
      (
        record (opened s (some t)) {
          pending = decr (opened s (some t)).pending;
          state = DeadlineState.exceeded;
          is_done_closed = true;
          ctx = none;
        },
        (opened s (some t)).ctx,
        rw (reached, o.3) refl,
        record {
          counted = omega (arith, o.1, ap armed o.0, v.bounded);
          bounded = v.bounded;
          closed = refl;
          fits = (t, o.2, ground (arith, reached), o.0);
        },
        o.2,
      )
]

abbrev pub ran : System → ℕ → Deadline → System
ran s n d = record s { d = d; waiting = n }

abbrev pub lowered : Deadline → Deadline
lowered d = record d { pending = decr d.pending }

pub timeout_ignored :
    (d : Deadline)
    → ((decr d.pending == 0) ≡ false) ⊎ (is_started d.state ≡ false)
    → timeout d ≡ some (lowered d, none)
unfolding timeout
timeout_ignored d (inl others) = rw others refl
timeout_ignored d (inr off) = elim (Bool-cases (decr d.pending == 0)) [
  | inl last ↦ rw (last, off) refl
  | inr others ↦ rw others refl
]

pub decr_lem :
    (s : System) (n : ℕ)
    → IsValid s
    → s.waiting ≡ suc n
    → decr s.d.pending ≡ armed s.d.timer_due + n
decr_lem s n v e = elim (Option-cases s.d.timer_due) [
  | inl off ↦ rw off (omega (arith, rw off at v.counted, v.bounded, e))
  | inr (t, on) ↦ rw on (omega (arith, rw on at v.counted, v.bounded, e))
]

pub ignored-IsValid :
    (s : System) (n : ℕ)
    → IsValid s
    → s.waiting ≡ suc n
    → StateFits s.d.state (ran s n (lowered s.d))
    → IsValid (ran s n (lowered s.d))
ignored-IsValid s n v e f = record {
  counted = decr_lem s n v e;
  bounded = omega (arith, v.bounded);
  closed = v.closed;
  fits = f;
}

-- What happens to a callback, in a state whose callbacks are ignored.
ignored_lem :
    (s : System) (n : ℕ)
    → IsValid s
    → s.waiting ≡ suc n
    → ((decr s.d.pending == 0) ≡ false) ⊎ (is_started s.d.state ≡ false)
    → StateFits s.d.state (ran s n (lowered s.d))
    → (d' : Deadline) × (c : Option ℕ) × (timeout s.d ≡ some (d', c)) × IsValid (ran s n d')
ignored_lem s n v e h f = (lowered s.d, none, timeout_ignored s.d h, ignored-IsValid s n v e f)

abbrev pub fired : Deadline → Deadline
fired d = record (lowered d) { state = DeadlineState.exceeded; is_done_closed = true; ctx = none }

-- The last callback of a started deadline fires.
pub timeout_fires :
    (s : System)
    → IsValid s
    → s.d.state ≡ started
    → (decr s.d.pending == 0) ≡ true
    → timeout s.d ≡ some (fired s.d, s.d.ctx)
unfolding timeout fire is_started is_exceeded
timeout_fires s v f last = rw (last, v.closed ∙ ap is_exceeded f, f) refl

-- A callback that gets the lock keeps the system valid and never closes a channel twice.
pub timeout-IsValid :
    (s : System) (n : ℕ)
    → IsValid s
    → s.waiting ≡ suc n
    → (d' : Deadline) × (c : Option ℕ) × (timeout s.d ≡ some (d', c)) × IsValid (ran s n d')
unfolding timeout fire is_started is_exceeded
timeout-IsValid s n v e = elim (State-cases s.d.state) [
  | inl f ↦ ignored_lem s n v e (inr (ap is_started f)) (rw f (rw f at v.fits))
  | inr (inr f) ↦ ignored_lem s n v e (inr (ap is_started f)) (rw f (rw f at v.fits))
  | inr (inl f) ↦ by_timer f (rw f at v.fits)
]
  where
    by_timer :
        (f : s.d.state ≡ started)
        → StateFits started s
        → (d' : Deadline) × (c : Option ℕ) × (timeout s.d ≡ some (d', c)) × IsValid (ran s n d')
    by_timer f (t, dl, inl on) =
        ignored_lem s n v e (inl (ground (arith, decr_lem s n v e, ap armed on)))
          (rw f (t, dl, inl on))
    by_timer f (t, dl, inr (off, due, h)) = elim (Bool-cases (decr s.d.pending == 0)) [
      | inr others ↦
          ignored_lem s n v e (inl others)
            (rw f (t, dl, inr (off, due, ground (arith, others, decr_lem s n v e, ap armed off))))
      | inl last ↦ (
        fired s.d,
        s.d.ctx,
        timeout_fires s v f last,
        record {
          counted = decr_lem s n v e;
          bounded = omega (arith, v.bounded);
          closed = unfold is_exceeded in refl;
          fits = (t, dl, due, off);
        },
      )
    ]
