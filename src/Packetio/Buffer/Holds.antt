-- ===== src/Packetio/Buffer/Holds.antt =====
-- packetio/buffer.go: a reader of a packet buffer gets what the queue of packets gives.
use mathlib.Core.Path.{subst}
use mathlib.Core.Bool.{true≢false}
use transport.Prelude.{
  ℕ, ◌+◌, ◌<◌, ◌≡◌, inl, inr, refl, sym, ap, ◌∙◌, Bool, true, false, ◌||◌, if◌then◌else◌, some,
  List, [], ◌∷◌, length, arith, Bool-cases,
}
use transport.Packetio.Ring.{wrap}
use transport.Packetio.Buffer.{
  Buffer, eof, Answer, answers, waits, attempt, read, take_token, resume,
}
use transport.Packetio.Buffer.Queue.{Packet, Represents}
use transport.Packetio.Buffer.Read.{
  finish, finish-Represents, attempt_lem, notified-finish, attempt_empty,
}
use transport.Packetio.Buffer.Pipe.{Pipe, front, get}

-- The buffer holds the packets of the queue, and has its limits.
pub record Holds {A : Type 0} (b : Buffer A) (p : Pipe A) : Type 0 where
  pub packets : Represents b p.packets
  pub closed : b.closed ≡ p.closed
  pub limit_count : b.limit_count ≡ p.limit_count
  pub limit_size : b.limit_size ≡ p.limit_size

-- Where an open buffer has packets, a token waits for a reader.
abbrev pub IsTold : {A : Type 0} → Buffer A → Pipe A → Type 0
IsTold b p = 0 < length p.packets → p.closed ≡ false → b.notified ≡ true

abbrev pub Implements : {A : Type 0} → Buffer A → Pipe A → Type 0
Implements b p = Holds b p × IsTold b p

module _ {A : Type 0} where
  abbrev pub Answered : (b : Buffer A × Answer A) → Pipe A × Answer A → Type 0
  Answered o s = (b' : Buffer A) × (o ≡ (b', s.1)) × Implements b' s.0

  attempt-front :
      (b : Buffer A) (p : Pipe A) (buf : List ℕ) (q : List (Packet A))
      → p.packets ≡ q
      → Holds b p
      → Answered (attempt b buf) (front p buf q)
  attempt-front b p buf [] e h = (
    b,
    attempt_empty b buf (subst (λ q. Represents b q) e h.packets)
        ∙ ap (λ c. (b, if c then answers buf 0 [] (some eof) else waits)) h.closed,
    (h, λ more o. absurd (omega (arith, more, ap length e))),
  )
  attempt-front b p buf ((payload, tags) ∷ rest) e h =
      let r = subst (λ q. Represents b q) e h.packets in
      (
        finish b (wrap (length b.bytes) (b.head + (length payload + 2))),
        attempt_lem b payload tags rest buf r,
        (
          record {
            packets = finish-Represents b payload tags rest r;
            closed = h.closed;
            limit_count = h.limit_count;
            limit_size = h.limit_size;
          },
          λ more o. notified-finish b payload tags rest r more (h.closed ∙ o),
        ),
      )

  pub read-get :
      (b : Buffer A) (p : Pipe A) (expired : Bool) (buf : List ℕ)
      → Implements b p
      → Answered (read b expired buf) (get p expired buf)
  unfolding read
  read-get b p true buf h = (b, refl, h)
  read-get b p false buf h = attempt-front b p buf p.packets refl h.0

  -- A buffer that has other limits, or is closed, holds the same packets.
  pub same-Represents :
      (b b' : Buffer A) (q : List (Packet A))
      → Represents b q
      → b'.bytes ≡ b.bytes
      → b'.head ≡ b.head
      → b'.tail ≡ b.tail
      → b'.count ≡ b.count
      → b'.attributes ≡ b.attributes
      → b'.attributes_head ≡ b.attributes_head
      → Represents b' q
  same-Represents b b' q r e1 e2 e3 e4 e5 e6 = record {
    ring = rw (e1, e2) r.ring;
    end_at = rw (e1, e2, e3) r.end_at;
    free = rw e1 r.free;
    counted = rw e4 r.counted;
    short = r.short;
    attached = rw (e5, e6) r.attached;
  }

  take_token-Holds : (b : Buffer A) (p : Pipe A) → Holds b p → Holds (take_token b) p
  unfolding take_token
  take_token-Holds b p h = record {
    packets = same-Represents b _ p.packets h.packets refl refl refl refl refl refl;
    closed = h.closed;
    limit_count = h.limit_count;
    limit_size = h.limit_size;
  }

  -- Where nothing wakes a reader, there is nothing to read.
  waits-front :
      (b : Buffer A) (p : Pipe A) (buf : List ℕ) (q : List (Packet A))
      → p.packets ≡ q
      → Implements b p
      → (b.notified || b.closed) ≡ false
      → Answered (b, waits) (front p buf q)
  waits-front b p buf [] e (h, told) asleep =
      let open_ : p.closed ≡ false = ground (arith, h.closed, asleep) in
      (b, ap (λ c. (b, if c then answers buf 0 [] (some eof) else waits)) (sym open_), (h, told))
  waits-front b p buf (x ∷ rest) e (h, told) asleep =
      let open_ : p.closed ≡ false = ground (arith, h.closed, asleep) in
      let awake : b.notified ≡ true = told (omega (arith, ap length e)) open_ in
      absurd (true≢false (ground (arith, awake, asleep)))

  pub resume-get :
      (b : Buffer A) (p : Pipe A) (expired : Bool) (buf : List ℕ)
      → Implements b p
      → Answered (resume b expired buf) (get p expired buf)
  unfolding resume
  resume-get b p true buf h = (b, refl, h)
  resume-get b p false buf h = elim (Bool-cases (b.notified || b.closed)) [
    | inl awake ↦
        subst (λ o. Answered o (front p buf p.packets))
          (ap (λ c. if c then attempt (take_token b) buf else (b, waits)) (sym awake))
          (attempt-front (take_token b) p buf p.packets refl (take_token-Holds b p h.0))
    | inr asleep ↦
        subst (λ o. Answered o (front p buf p.packets))
          (ap (λ c. if c then attempt (take_token b) buf else (b, waits)) (sym asleep))
          (waits-front b p buf p.packets refl h asleep)
  ]
