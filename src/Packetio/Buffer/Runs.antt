-- ===== src/Packetio/Buffer/Runs.antt =====
-- packetio/buffer.go: a packet buffer does what a queue of packets does, whatever is called.
use mathlib.Core.Path.{subst}
use mathlib.Core.Bool.{true≢false}
use transport.Prelude.{
  ℕ, ◌+◌, ◌≤◌, ◌<◌, ◌≡◌, ◌⊎◌, inl, inr, refl, sym, ap, ◌∙◌, Bool, true, false, leb, if◌then◌else◌,
  Option, none, some, List, [], ◌∷◌, length, arith, Bool-cases,
}
use transport.Prelude.Int.{pos_part}
use transport.Packetio.Buffer.{
  Buffer, Error, packet_too_big, closed_pipe, full, size_limit, new_buffer, write, close,
  set_limit_count, set_limit_size,
}
use transport.Packetio.Buffer.Queue.{encode, Represents}
use transport.Packetio.Buffer.WriteLaws.{write-append_packet, write_error}
use transport.Packetio.Buffer.Read.{empty-IsRing}
use transport.Packetio.Buffer.Pipe.{
  Call, writes, reads, resumes, shuts, limits_count, limits_size, Result, gave, Pipe, new_pipe,
  is_at_limit, refusal, put, call_pipe, run_pipe, after_write, call, with_result, run,
}
use transport.Packetio.Buffer.Holds.{Holds, Implements, same-Represents, read-get, resume-get}

module _ {A : Type 0} (hard : Bool) where
  abbrev Agrees : Option (Buffer A × Result A) → Pipe A × Result A → Type 0
  Agrees o s = (b' : Buffer A) × (o ≡ some (b', s.1)) × Implements b' s.0

  refused :
      (b : Buffer A) (p : Pipe A) (payload : List ℕ) (tags : List A) (e : Error)
      → Implements b p
      → write hard b payload tags ≡ some (b, 0, some e)
      → refusal hard p (length payload) ≡ some e
      → Agrees
          (after_write (write hard b payload tags))
          (put p payload tags (refusal hard p (length payload)))
  refused b p payload tags e h w r =
      subst (λ o. Agrees (after_write (write hard b payload tags)) (put p payload tags o)) (sym r)
        (b, ap after_write w, h)

  limit_reached :
      (b : Buffer A) (p : Pipe A) (n : ℕ)
      → Holds b p
      → is_at_limit hard p n ≡ true
      → ((0 < pos_part b.limit_count) × (pos_part b.limit_count ≤ length p.packets))
        ⊎ (size_limit hard b.limit_size < length (encode p.packets) + n + 2)
  limit_reached b p n h e = rw (h.limit_count, h.limit_size) (ground (arith, e))

  limit_left :
      (b : Buffer A) (p : Pipe A) (n : ℕ)
      → Holds b p
      → is_at_limit hard p n ≡ false
      → (0 < pos_part b.limit_count → length p.packets < pos_part b.limit_count)
        × (length (encode p.packets) + n + 2 ≤ size_limit hard b.limit_size)
  limit_left b p n h e = rw (h.limit_count, h.limit_size) (ground (arith, e))

  write-put :
      (b : Buffer A) (p : Pipe A) (payload : List ℕ) (tags : List A)
      → Implements b p
      → Agrees
          (after_write (write hard b payload tags))
          (put p payload tags (refusal hard p (length payload)))
  write-put b p payload tags h =
      let failed = write_error hard b p.packets payload tags h.0.packets in
      elim (Bool-cases (leb 65536 (length payload))) [
        | inl long ↦
            refused b p payload tags packet_too_big h (failed.0 (ground arith)) (ground arith)
        | inr short ↦ elim (Bool-cases p.closed) [
          | inl shut ↦
              refused b p payload tags closed_pipe h (failed.1 (ground arith) (h.0.closed ∙ shut))
                (ground arith)
          | inr open_ ↦ elim (Bool-cases (is_at_limit hard p (length payload))) [
            | inl reached ↦
                refused b p payload tags full h
                  (failed.2 (ground arith) (h.0.closed ∙ open_)
                    (limit_reached b p (length payload) h.0 reached))
                  (accepts short open_ ∙ ap (λ c. if c then some full else none) reached)
            | inr left ↦
                let room = limit_left b p (length payload) h.0 left in
                let (b', w, r, told, closed, count, size) =
                  write-append_packet hard b p.packets payload tags h.0.packets (h.0.closed ∙ open_)
                    (ground arith) room.0 room.1 in
                subst (λ o. Agrees (after_write (write hard b payload tags)) (put p payload tags o))
                  (sym (accepts short open_ ∙ ap (λ c. if c then some full else none) left))
                  (
                    b',
                    ap after_write w,
                    (
                      record {
                        packets = r;
                        closed = closed ∙ h.0.closed;
                        limit_count = count ∙ h.0.limit_count;
                        limit_size = size ∙ h.0.limit_size;
                      },
                      λ more o. told,
                    ),
                  )
          ]
        ]
      ]
    where
      accepts :
          leb 65536 (length payload) ≡ false
          → p.closed ≡ false
          → refusal hard p (length payload)
            ≡ (if is_at_limit hard p (length payload) then some full else none)
      accepts short open_ =
          ap
            (λ c.
              if c
              then some packet_too_big
              else if p.closed
              then some closed_pipe
              else if is_at_limit hard p (length payload)
              then some full
              else none)
            short
          ∙ ap
              (λ c.
                if c
                then some closed_pipe
                else if is_at_limit hard p (length payload)
                then some full
                else none)
              open_

  call-Implements :
      (b : Buffer A) (p : Pipe A) (c : Call A)
      → Implements b p
      → Agrees (call hard b c) (call_pipe hard p c)
  unfolding call close set_limit_count set_limit_size
  call-Implements b p (writes payload tags) h = write-put b p payload tags h
  call-Implements b p (reads expired buf) h =
      let (b', e, h') = read-get b p expired buf h in (b', ap (λ o. some (o.0, gave o.1)) e, h')
  call-Implements b p (resumes expired buf) h =
      let (b', e, h') = resume-get b p expired buf h in (b', ap (λ o. some (o.0, gave o.1)) e, h')
  call-Implements b p shuts (h, told) = (
    record b { closed = true },
    refl,
    (
      record {
        packets = same-Represents b _ p.packets h.packets refl refl refl refl refl refl;
        closed = refl;
        limit_count = h.limit_count;
        limit_size = h.limit_size;
      },
      λ more o. absurd (true≢false o),
    ),
  )
  call-Implements b p (limits_count limit) (h, told) = (
    record b { limit_count = limit },
    refl,
    (
      record {
        packets = same-Represents b _ p.packets h.packets refl refl refl refl refl refl;
        closed = h.closed;
        limit_count = refl;
        limit_size = h.limit_size;
      },
      told,
    ),
  )
  call-Implements b p (limits_size limit) (h, told) = (
    record b { limit_size = limit },
    refl,
    (
      record {
        packets = same-Represents b _ p.packets h.packets refl refl refl refl refl refl;
        closed = h.closed;
        limit_count = h.limit_count;
        limit_size = refl;
      },
      told,
    ),
  )

  run-call :
      (b b' : Buffer A) (c : Call A) (cs : List (Call A)) (r : Result A)
      → call hard b c ≡ some (b', r)
      → run hard b (c ∷ cs) ≡ with_result r (run hard b' cs)
  unfolding run
  run-call b b' c cs r e = ap after e
    where
      after : Option (Buffer A × Result A) → Option (Buffer A × List (Result A))
      after none = none
      after (some (larger, result)) = with_result result (run hard larger cs)

  run-Implements :
      (b : Buffer A) (p : Pipe A) (cs : List (Call A))
      → Implements b p
      → (b' : Buffer A) × (run hard b cs ≡ some (b', (run_pipe hard p cs).1))
        × Implements b' (run_pipe hard p cs).0
  unfolding run run_pipe
  run-Implements b p [] h = (b, refl, h)
  run-Implements b p (c ∷ cs) h =
      let (b', e, h') = call-Implements b p c h in
      let (last, es, h'') = run-Implements b' (call_pipe hard p c).0 cs h' in
      (
        last,
        run-call b b' c cs (call_pipe hard p c).1 e ∙ ap (with_result (call_pipe hard p c).1) es,
        h'',
      )

  -- A new packet buffer answers any sequence of calls of Write, Read, Close, SetLimitCount and
  -- SetLimitSize as a queue of packets does, and holds the packets of that queue in the end. A packet is
  -- refused as too big from 65536 bytes on, then where the buffer is closed, then as full where a limit
  -- is reached, and is otherwise put at the end; a read past its deadline times out, and any other takes
  -- the first packet, or is at the end where the buffer is closed, or waits. One that goes on from a wait
  -- answers as a new one would, so that none sleeps while there is a packet. The loop of Write never runs
  -- out of fuel. Each call up to its first wait, and each wake-up with what follows it, is one step.
  pub new_buffer-run :
      (cs : List (Call A))
      → (b : Buffer A) × (run hard new_buffer cs ≡ some (b, (run_pipe hard new_pipe cs).1))
        × Represents b (run_pipe hard new_pipe cs).0.packets
  new_buffer-run cs =
      let (b, e, (h, told)) = run-Implements new_buffer new_pipe cs start in (b, e, h.packets)
    where
      start : Implements {A = A} new_buffer new_pipe
      start =
          unfold new_buffer in
          (
            record {
              packets =
                  (unfold encode in
                    record {
                      ring = empty-IsRing 0 [];
                      end_at = refl;
                      free = λ h. h;
                      counted = refl;
                      short = tt;
                      attached = empty-IsRing [] [];
                    });
              closed = refl;
              limit_count = refl;
              limit_size = refl;
            },
            λ more o. absurd (omega (arith, more)),
          )
