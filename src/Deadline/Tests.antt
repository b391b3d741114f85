-- ===== src/Deadline/Tests.antt =====
-- A deadline that is set, expires, and is set again while its callback still waits.
use transport.Prelude.{ℕ, ◌≤◌, ◌<◌, ◌≡◌, refl, true, false, Option, none, some, arith}
use transport.Deadline.{
  Deadline, DeadlineState, new, set, timeout, fire, stop_timer, renew, is_started, is_exceeded,
  done_signal, has_err, current_deadline,
}
use transport.Deadline.Steps.{System, IsValid}
use transport.Deadline.Reach.{
  Reaches, sets, expires, runs, passes, begins, goes, Reaches-IsValid, exceeded-Reaches, run_all,
  run_all-exceeds,
}

abbrev start : System
start = record { d = new; waiting = 0; now = 3 }

-- What `set` leaves behind for 5 at the time 3.
abbrev armed_5 : Deadline
armed_5 = record {
  done = 0;
  is_done_closed = false;
  ctx = none;
  deadline = some 5;
  state = DeadlineState.started;
  pending = 1;
  timer_due = some 5;
  next_name = 1;
}

abbrev late : System
late = record { d = record armed_5 { timer_due = none }; waiting = 1; now = 7 }

late-Reaches : Reaches late
unfolding new set fire stop_timer renew is_started is_exceeded
late-Reaches =
    goes (goes (goes (begins 3) (sets (some 5) armed_5 none refl)) (passes 7 (omega arith)))
      (expires 5 refl (omega arith) (omega arith))

abbrev over : System
over = record {
  d = record armed_5 {
    state = DeadlineState.exceeded;
    is_done_closed = true;
    pending = 0;
    timer_due = none;
  };
  waiting = 0;
  now = 7;
}

over-Reaches : Reaches over
unfolding timeout fire is_started
over-Reaches = goes late-Reaches (runs 0 over.d none refl refl)

Reaches-IsValid_example :
    IsValid late
    × (done_signal late.d ≡ has_err late.d)
    × ((t : Option ℕ) → (o : Deadline × Option ℕ) × (set late.d 7 t ≡ some o))
    × (0 < 1 → (o : Deadline × Option ℕ) × (timeout late.d ≡ some o))
Reaches-IsValid_example = Reaches-IsValid late-Reaches

exceeded-Reaches_example : (t : ℕ) × (current_deadline over.d ≡ some t) × (t ≤ 7)
exceeded-Reaches_example = exceeded-Reaches over-Reaches (unfold has_err is_exceeded in refl)

run_all-exceeds_example : (d' : Deadline) × (run_all 1 late.d ≡ some d') × (has_err d' ≡ true)
run_all-exceeds_example = run_all-exceeds late (Reaches-IsValid late-Reaches).0 refl refl
