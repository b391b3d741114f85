-- ===== src/Vnet/DelayFilter/Order.antt =====
-- vnet/delay_filter.go: the order and the times in which a delay filter hands chunks on.
use transport.Prelude.{
  ℕ, ◌+◌, ◌-◌, ◌⊎◌, ◌≤◌, ◌<◌, ◌≡◌, refl, sym, ap, ◌∙◌, ltb, List, [], ◌∷◌, ◌++◌, arith, Bool-cases,
  inl, inr, true, false, if◌then◌else◌,
}
use mathlib.Core.Bool.{true≢false}
use mathlib.Core.List.{append_assoc, append-nil}
use mathlib.Core.Path.{subst}
use transport.Vnet.Chunk.{Chunk}
use transport.Vnet.DelayFilter.{
  TimedChunk, DelayFilter, new_delay_filter, set_delay, on_inbound_chunk, update_timer, schedule,
  process_ready, Case, is_done, pushed, tick, take_case, run_case,
}

-- What happens to a filter: a new delay, an inbound chunk at a time, or a case of `run`.
pub data Event : Type 0 where
  changes : ℕ → Event
  arrives : ℕ → Chunk → Event
  runs : Case → Event

-- The filter after the events, the chunks that came in with the deadline they were given, and those
-- that the NIC got, in order.
unfoldable pub run : DelayFilter → List Event → DelayFilter × List TimedChunk × List TimedChunk
run f [] = (f, [], [])
run f (changes delay ∷ es) = run (set_delay f delay) es
run f (arrives now c ∷ es) =
    let (last, ins, outs) = run (on_inbound_chunk f now c) es in
    (last, record { chunk = c; deadline = now + f.delay } ∷ ins, outs)
run f (runs k ∷ es) =
    let (f', ready) = run_case f k in
    let (last, ins, outs) = run f' es in (last, ins, ready ++ outs)

process_ready-append :
    (now : ℕ) (ts : List TimedChunk) → (process_ready now ts).0 ++ (process_ready now ts).1 ≡ ts
unfolding process_ready
process_ready-append now [] = refl
process_ready-append now (t ∷ ts) = elim (Bool-cases (ltb now t.deadline)) [
  | inl early ↦ rw (early, process_ready) refl
  | inr due ↦ rw (due, process_ready) (ap (λ xs. t ∷ xs) (process_ready-append now ts))
]

take_case-append :
    (f : DelayFilter) (k : Case) → (take_case f k).1 ++ (take_case f k).0.queue ≡ f.queue
unfolding take_case
take_case-append f is_done = append-nil f.queue
take_case-append f pushed = elim (Bool-cases (ltb 0 f.pushes)) [
  | inl sent ↦ rw (sent, take_case) refl
  | inr none_left ↦ rw (none_left, take_case) refl
]
take_case-append f (tick now) = process_ready-append now f.queue

run_case_returned : (f : DelayFilter) (k : Case) → f.done ≡ true → run_case f k ≡ (f, [])
unfolding run_case
run_case_returned f k e = ap (λ b. if b then (f, []) else take_case f k) e

run_case_loops : (f : DelayFilter) (k : Case) → f.done ≡ false → run_case f k ≡ take_case f k
unfolding run_case
run_case_loops f k e = ap (λ b. if b then (f, []) else take_case f k) e

run_case-append :
    (f : DelayFilter) (k : Case) → (run_case f k).1 ++ (run_case f k).0.queue ≡ f.queue
run_case-append f k = elim (Bool-cases f.done) [
  | inl returned ↦ ap (λ o. o.1 ++ o.0.queue) (run_case_returned f k returned)
  | inr loops ↦ ap (λ o. o.1 ++ o.0.queue) (run_case_loops f k loops) ∙ take_case-append f k
]

-- A delay filter is first in, first out, whatever the delays are, in any order of its events:
-- the chunks it held, followed by those that came in, are the chunks that the NIC got, followed by
-- those that it holds, so that none is lost, added or overtaken.
pub run-order_delayed :
    (es : List Event) (f : DelayFilter)
    → let (last, ins, outs) = run f es in f.queue ++ ins ≡ outs ++ last.queue
unfolding run set_delay on_inbound_chunk
run-order_delayed [] f = append-nil f.queue
run-order_delayed (changes delay ∷ es) f = run-order_delayed es (set_delay f delay)
run-order_delayed (arrives now c ∷ es) f =
    sym (
      append_assoc f.queue (record { chunk = c; deadline = now + f.delay } ∷ [])
        (run (on_inbound_chunk f now c) es).1)
    ∙ run-order_delayed es (on_inbound_chunk f now c)
run-order_delayed (runs k ∷ es) f =
    ap (λ xs. xs ++ (run (run_case f k).0 es).1) (sym (run_case-append f k))
    ∙ append_assoc (run_case f k).1 (run_case f k).0.queue (run (run_case f k).0 es).1
    ∙ ap (λ xs. (run_case f k).1 ++ xs) (run-order_delayed es (run_case f k).0)
    ∙ sym (
        append_assoc (run_case f k).1 (run (run_case f k).0 es).2 (run (run_case f k).0 es).0.queue)

-- All chunks of the list are due at a time.
abbrev pub AllDue : ℕ → List TimedChunk → Type 0
AllDue now [] = Unit
AllDue now (t ∷ ts) = (t.deadline ≤ now) × AllDue now ts

-- The first chunk is not due yet.
abbrev pub HeadWaits : ℕ → List TimedChunk → Type 0
HeadWaits now [] = Unit
HeadWaits now (t ∷ ts) = now < t.deadline

-- A filter that has a chunk will look at it: a send on `push` waits, or the timer is set to the
-- deadline of the first chunk.
abbrev HasAlarm : ℕ → ℕ → List TimedChunk → Type 0
HasAlarm pushes timer [] = Unit
HasAlarm pushes timer (t ∷ ts) = (0 < pushes) ⊎ (timer ≡ t.deadline)

abbrev pub WillWake : DelayFilter → Type 0
WillWake f = HasAlarm f.pushes f.timer f.queue

-- The goroutine has returned, or will look at the chunks that wait.
abbrev ReturnedOrWakes : DelayFilter → Type 0
ReturnedOrWakes f = (f.done ≡ true) ⊎ WillWake f

process_ready-AllDue :
    (now : ℕ) (ts : List TimedChunk)
    → AllDue now (process_ready now ts).0 × HeadWaits now (process_ready now ts).1
unfolding process_ready
process_ready-AllDue now [] = (tt, tt)
process_ready-AllDue now (t ∷ ts) = elim (Bool-cases (ltb now t.deadline)) [
  | inl early ↦ rw (early, process_ready) (tt, ground arith)
  | inr due ↦
      rw (due, process_ready)
        ((ground arith, (process_ready-AllDue now ts).0), (process_ready-AllDue now ts).1)
]

HasAlarm-pushes : (pushes timer : ℕ) (ts : List TimedChunk) → 0 < pushes → HasAlarm pushes timer ts
HasAlarm-pushes pushes timer [] h = tt
HasAlarm-pushes pushes timer (t ∷ ts) h = inl h

HasAlarm-update :
    (pushes timer : ℕ) (ts : List TimedChunk) → HasAlarm pushes (update_timer timer ts) ts
unfolding update_timer
HasAlarm-update pushes timer [] = tt
HasAlarm-update pushes timer (t ∷ ts) = inr refl

HasAlarm-schedule : (pushes now : ℕ) (ts : List TimedChunk) → HasAlarm pushes (schedule now ts) ts
unfolding schedule
HasAlarm-schedule pushes now [] = tt
HasAlarm-schedule pushes now (t ∷ ts) = inr refl

take_case-wakes :
    (f : DelayFilter) (k : Case)
    → f.done ≡ false
    → ReturnedOrWakes f
    → ReturnedOrWakes (take_case f k).0
unfolding take_case
take_case-wakes f is_done o h = inl refl
take_case-wakes f pushed o h = elim (Bool-cases (ltb 0 f.pushes)) [
  | inl sent ↦ rw (sent, take_case) (inr (HasAlarm-update (f.pushes - 1) f.timer f.queue))
  | inr none_left ↦ rw (none_left, take_case) h
]
take_case-wakes f (tick now) o h =
    inr (HasAlarm-schedule f.pushes now (process_ready now f.queue).1)

run_case-wakes : (f : DelayFilter) (k : Case) → ReturnedOrWakes f → ReturnedOrWakes (run_case f k).0
run_case-wakes f k h = elim (Bool-cases f.done) [
  | inl returned ↦ inl (ap (λ o. o.0.done) (run_case_returned f k returned) ∙ returned)
  | inr loops ↦
      subst (λ o. ReturnedOrWakes o.0) (sym (run_case_loops f k loops))
        (take_case-wakes f k loops h)
]

run-wakes : (es : List Event) (f : DelayFilter) → ReturnedOrWakes f → ReturnedOrWakes (run f es).0
unfolding run set_delay on_inbound_chunk
run-wakes [] f h = h
run-wakes (changes delay ∷ es) f h = run-wakes es (set_delay f delay) h
run-wakes (arrives now c ∷ es) f h =
    run-wakes es (on_inbound_chunk f now c)
      (inr (HasAlarm-pushes (f.pushes + 1) f.timer _ (omega arith)))
run-wakes (runs k ∷ es) f h = run-wakes es (run_case f k).0 (run_case-wakes f k h)

tick-AllDue :
    (now : ℕ) (f : DelayFilter)
    → f.done ≡ false
    → AllDue now (run_case f (tick now)).1 × HeadWaits now (run_case f (tick now)).0.queue
unfolding take_case
tick-AllDue now f open_ =
    subst (λ o. AllDue now o.1 × HeadWaits now o.0.queue) (sym (run_case_loops f (tick now) open_))
      (process_ready-AllDue now f.queue)

-- However a new delay filter has been used, as long as it is not closed, a chunk that waits is not
-- forgotten: the goroutine has a send on `push` to take, or its timer is set to the deadline of the
-- first chunk. And a tick at a time hands on chunks that are due then, up to the first that is not.
pub new_delay_filter-WillWake :
    (start delay now : ℕ) (es : List Event)
    → (run (new_delay_filter start delay) es).0.done ≡ false
    → let f = (run (new_delay_filter start delay) es).0 in
      WillWake f
      × AllDue now (run_case f (tick now)).1
      × HeadWaits now (run_case f (tick now)).0.queue
new_delay_filter-WillWake start delay now es open_ =
    let due = tick-AllDue now (run (new_delay_filter start delay) es).0 open_ in
    (
      elim (run-wakes es (new_delay_filter start delay) (inr (unfold new_delay_filter in tt))) [
        | inl returned ↦ absurd (true≢false (sym returned ∙ open_))
        | inr wakes ↦ wakes
      ],
      due.0,
      due.1,
    )
