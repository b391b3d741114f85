-- ===== src/Vnet/DelayFilter.antt =====
-- vnet/delay_filter.go: a NIC that holds inbound chunks back for a while.
-- The goroutine `run` takes one case of its select at a time; each is one step. The queue has no
-- limits, so that a push appends. A delay is not below 0. Times are nanoseconds.
pub mod Order
mod Tests
use transport.Prelude.{
  ℕ, ◌+◌, ◌-◌, Bool, true, false, ltb, leb, if◌then◌else◌, Option, none, some, List, [], ◌∷◌, ◌++◌,
  map,
}
use transport.Vnet.Chunk.{Chunk}

pub record TimedChunk : Type 0 where
  pub chunk : Chunk
  pub deadline : ℕ

-- `timer` is when the timer fires, `pushes` counts the sends on `push` that `run` has not taken, and
-- `done` says that `run` has returned.
pub record DelayFilter : Type 0 where
  pub delay : ℕ
  pub queue : List TimedChunk
  pub timer : ℕ
  pub pushes : ℕ
  pub done : Bool

-- `NewDelayFilter`, at the time `now`, with the delay of its options.
unfoldable pub new_delay_filter : ℕ → ℕ → DelayFilter
new_delay_filter now delay = record {
  delay = delay;
  queue = [];
  timer = now;
  pushes = 0;
  done = false;
}

-- `SetDelay`
unfoldable pub set_delay : DelayFilter → ℕ → DelayFilter
set_delay f delay = record f { delay = delay }

-- `onInboundChunk`, up to its send on `push`.
unfoldable pub on_inbound_chunk : DelayFilter → ℕ → Chunk → DelayFilter
on_inbound_chunk f now c = record f {
  queue = f.queue ++ (record { chunk = c; deadline = now + f.delay } ∷ []);
  pushes = f.pushes + 1;
}

-- `updateTimerForNextPacket`
unfoldable pub update_timer : ℕ → List TimedChunk → ℕ
update_timer timer [] = timer
update_timer timer (t ∷ ts) = t.deadline

-- `scheduleNextPacketTimer`, where an empty queue waits for a minute.
unfoldable pub schedule : ℕ → List TimedChunk → ℕ
schedule now [] = now + 60000000000
schedule now (t ∷ ts) = t.deadline

-- `processReadyPackets`: the chunks that the NIC gets, and those that stay.
unfoldable pub process_ready : ℕ → List TimedChunk → List TimedChunk × List TimedChunk
process_ready now [] = ([], [])
process_ready now (t ∷ ts) = elim (ltb now t.deadline) [
  | true ↦ ([], t ∷ ts)
  | false ↦ let (ready, rest) = process_ready now ts in (t ∷ ready, rest)
]

-- A case of the select in `run`: `done`, with `drainRemainingPackets`, `push`, or the timer's tick,
-- whose time is `now`. The case of `push` needs a send that waits.
pub data Case : Type 0 where
  is_done pushed : Case
  tick : ℕ → Case

unfoldable pub take_case : DelayFilter → Case → DelayFilter × List TimedChunk
take_case f is_done = (record f { queue = []; done = true }, f.queue)
take_case f pushed =
    if ltb 0 f.pushes
    then (record f { timer = update_timer f.timer f.queue; pushes = f.pushes - 1 }, [])
    else (f, [])
take_case f (tick now) =
    let (ready, rest) = process_ready now f.queue in
    (record f { queue = rest; timer = schedule now rest }, ready)

-- A turn of the loop of `run`, of which there is none once it has returned.
unfoldable pub run_case : DelayFilter → Case → DelayFilter × List TimedChunk
unfolding take_case
run_case f k = if f.done then (f, []) else take_case f k
