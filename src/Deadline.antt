-- ===== src/Deadline.antt =====
-- Package deadline (deadline/deadline.go): an updatable deadline timer.
-- The mutex makes each method one atomic step. Times are numbers; a zero time is `none`.
-- Go's timer and its goroutines are part of the model: `timer_due` is the time for which the timer
-- is armed, and `System` holds the callbacks that it has started and that have not run yet.
pub mod Steps
pub mod Reach
mod Tests
use transport.Prelude.{
  ℕ, zero, suc, ◌+◌, ◌-◌, ◌%◌, Bool, true, false, ◌==◌, ltb, leb, if◌then◌else◌, Option, none, some,
  List, [], ◌∷◌, ◌++◌, get_or,
}

pub data DeadlineState : Type 0 where
  suspended started exceeded : DeadlineState

-- A channel is a number, fresh for each `make`; so is a context.
pub record Deadline : Type 0 where
  pub done : ℕ
  pub is_done_closed : Bool
  pub ctx : Option ℕ
  pub deadline : Option ℕ
  pub state : DeadlineState
  pub pending : ℕ
  pub timer_due : Option ℕ
  pub next_name : ℕ

unfoldable pub new : Deadline
new = record {
  done = 0;
  is_done_closed = false;
  ctx = none;
  deadline = none;
  state = DeadlineState.suspended;
  pending = 0;
  timer_due = none;
  next_name = 1;
}

-- `pending++` and `pending--` on a uint8
abbrev pub incr : ℕ → ℕ
incr p = (p + 1) % 256

abbrev pub decr : ℕ → ℕ
decr p = (p + 255) % 256

-- The context that is to be cancelled after the unlock stands beside the new state; the outer
-- `none` is the panic of closing a closed channel.
abbrev pub Outcome : Type 0
Outcome = Option (Deadline × Option ℕ)

unfoldable pub fire : Deadline → Outcome
fire d =
    if d.is_done_closed
    then none
    else some
        (record d { state = DeadlineState.exceeded; is_done_closed = true; ctx = none }, d.ctx)

unfoldable pub is_started : DeadlineState → Bool
is_started DeadlineState.started = true
is_started DeadlineState.suspended = false
is_started DeadlineState.exceeded = false

unfoldable pub is_exceeded : DeadlineState → Bool
is_exceeded DeadlineState.exceeded = true
is_exceeded DeadlineState.suspended = false
is_exceeded DeadlineState.started = false

unfoldable pub timeout : Deadline → Outcome
timeout d =
    let d' : Deadline = record d { pending = decr d.pending } in
    if d'.pending == 0
    then if is_started d.state then fire d' else some (d', none)
    else some (d', none)

-- `d.state == deadlineStarted && d.timer.Stop()`: the timer is stopped, and `pending` falls if it
-- was still armed.
unfoldable pub stop_timer : Deadline → Deadline
stop_timer d =
    if is_started d.state
    then elim d.timer_due [
      | none ↦ d
      | some due ↦ record d { timer_due = none; pending = decr d.pending }
    ]
    else d

-- A new channel, if the old one has been closed by `fire`.
unfoldable pub renew : Deadline → Deadline
renew d =
    if is_exceeded d.state
    then record d { done = d.next_name; is_done_closed = false; next_name = d.next_name + 1 }
    else d

-- `set`, at the time `now`.
unfoldable pub set : Deadline → ℕ → Option ℕ → Outcome
set d now set_to =
    let s = stop_timer d in
    let r = renew (record s { deadline = set_to; pending = incr s.pending }) in
    elim set_to [
      | none ↦ some (record r { pending = decr r.pending; state = DeadlineState.suspended }, none)
      | some t ↦
          if ltb now t
          then some (record r { state = DeadlineState.started; timer_due = some t }, none)
          else fire (record r { pending = decr r.pending })
    ]

-- `Context`: `none` stands for the shared context that is already cancelled.
unfoldable pub context : Deadline → Deadline × Option ℕ
context d = if is_exceeded d.state then (d, none) else elim d.ctx [
  | some c ↦ (d, some c)
  | none ↦ (record d { ctx = some d.next_name; next_name = d.next_name + 1 }, some d.next_name)
]

-- `Done`, `Err` and `Deadline`
unfoldable pub done_signal : Deadline → Bool
done_signal d = d.is_done_closed

unfoldable pub has_err : Deadline → Bool
has_err d = is_exceeded d.state

unfoldable pub current_deadline : Deadline → Option ℕ
current_deadline d = d.deadline
