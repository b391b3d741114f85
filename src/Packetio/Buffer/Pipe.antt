-- ===== src/Packetio/Buffer/Pipe.antt =====
-- packetio/buffer.go: what a packet buffer promises, as a queue of packets, and the calls of its
-- methods in any order.
use transport.Prelude.{
  ℕ, ◌+◌, Bool, true, false, ◌&&◌, ◌||◌, ltb, leb, if◌then◌else◌, min, Option, none, some, List, [],
  ◌∷◌, ◌++◌, length, take, drop,
}
use transport.Prelude.Int.{ℤ, pos, pos_part}
use transport.Packetio.Buffer.{
  Buffer, Error, packet_too_big, closed_pipe, full, short_buffer, eof, timeout, Answer, answers,
  waits, size_limit, write, read, resume, close, set_limit_count, set_limit_size,
}
use transport.Packetio.Buffer.Queue.{Packet, encode}

-- The calls of a client: `reads` is a call of `Read` up to its first wait, and `resumes` one that goes
-- on from a wait, each with a read deadline that is exceeded or not, and the reader's slice.
pub data Call (A : Type 0) : Type 0 where
  writes : List ℕ → List A → Call A
  reads resumes : Bool → List ℕ → Call A
  shuts : Call A
  limits_count limits_size : ℤ → Call A

pub data Result (A : Type 0) : Type 0 where
  wrote : ℕ → Option Error → Result A
  gave : Answer A → Result A
  done : Result A

-- A queue of packets, whether it is closed, and its limits.
pub record Pipe (A : Type 0) : Type 0 where
  pub packets : List (Packet A)
  pub closed : Bool
  pub limit_count : ℤ
  pub limit_size : ℤ

module _ {A : Type 0} where
  abbrev pub new_pipe : Pipe A
  new_pipe = record { packets = []; closed = false; limit_count = pos 0; limit_size = pos 0 }

  -- A limit is reached, when a packet of `size` bytes is to come: each packet counts with a header of
  -- two bytes.
  abbrev pub is_at_limit : Bool → Pipe A → ℕ → Bool
  is_at_limit hard p size =
      (ltb 0 (pos_part p.limit_count) && leb (pos_part p.limit_count) (length p.packets))
      || ltb (size_limit hard p.limit_size) (length (encode p.packets) + size + 2)

  -- Why a packet of `size` bytes is refused.
  abbrev pub refusal : Bool → Pipe A → ℕ → Option Error
  refusal hard p size =
      if leb 65536 size
      then some packet_too_big
      else if p.closed
      then some closed_pipe
      else if is_at_limit hard p size
      then some full
      else none

  abbrev pub put : Pipe A → List ℕ → List A → Option Error → Pipe A × Result A
  put p payload tags (some e) = (p, wrote 0 (some e))
  put p payload tags none =
      (record p { packets = p.packets ++ ((payload, tags) ∷ []) }, wrote (length payload) none)

  abbrev pub front : Pipe A → List ℕ → List (Packet A) → Pipe A × Answer A
  front p buf [] = (p, if p.closed then answers buf 0 [] (some eof) else waits)
  front p buf ((payload, tags) ∷ rest) = (
    record p { packets = rest },
    answers
        (take (min (length buf) (length payload)) payload
          ++ drop (min (length buf) (length payload)) buf)
        (min (length buf) (length payload)) tags
        (if ltb (length buf) (length payload) then some short_buffer else none),
  )

  abbrev pub get : Pipe A → Bool → List ℕ → Pipe A × Answer A
  get p expired buf =
      if expired then (p, answers buf 0 [] (some timeout)) else front p buf p.packets

  -- What a call does to the queue. A read that goes on from a wait does what a new one does.
  abbrev pub call_pipe : Bool → Pipe A → Call A → Pipe A × Result A
  call_pipe hard p (writes payload tags) = put p payload tags (refusal hard p (length payload))
  call_pipe hard p (reads expired buf) = ((get p expired buf).0, gave (get p expired buf).1)
  call_pipe hard p (resumes expired buf) = ((get p expired buf).0, gave (get p expired buf).1)
  call_pipe hard p shuts = (record p { closed = true }, done)
  call_pipe hard p (limits_count limit) = (record p { limit_count = limit }, done)
  call_pipe hard p (limits_size limit) = (record p { limit_size = limit }, done)

  unfoldable pub run_pipe : Bool → Pipe A → List (Call A) → Pipe A × List (Result A)
  run_pipe hard p [] = (p, [])
  run_pipe hard p (c ∷ cs) =
      let (p', r) = call_pipe hard p c in let (last, rs) = run_pipe hard p' cs in (last, r ∷ rs)

  -- The same for the buffer; `none` is fuel that is spent.
  abbrev pub after_write : Option (Buffer A × ℕ × Option Error) → Option (Buffer A × Result A)
  after_write none = none
  after_write (some (b, n, e)) = some (b, wrote n e)

  unfoldable pub call : Bool → Buffer A → Call A → Option (Buffer A × Result A)
  call hard b (writes payload tags) = after_write (write hard b payload tags)
  call hard b (reads expired buf) = some ((read b expired buf).0, gave (read b expired buf).1)
  call hard b (resumes expired buf) = some ((resume b expired buf).0, gave (resume b expired buf).1)
  call hard b shuts = some (close b, done)
  call hard b (limits_count limit) = some (set_limit_count b limit, done)
  call hard b (limits_size limit) = some (set_limit_size b limit, done)

  abbrev pub with_result :
      Result A → Option (Buffer A × List (Result A)) → Option (Buffer A × List (Result A))
  with_result r none = none
  with_result r (some (b, rs)) = some (b, r ∷ rs)

  unfoldable pub run : Bool → Buffer A → List (Call A) → Option (Buffer A × List (Result A))
  unfolding call
  run hard b [] = some (b, [])
  run hard b (c ∷ cs) = elim (call hard b c) [
    | none ↦ none
    | some (b', r) ↦ with_result r (run hard b' cs)
  ]
