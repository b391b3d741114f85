-- ===== src/Packetio/Buffer/Read.antt =====
-- What `Read` does to the queue of packets.
use transport.Prelude.{
  ℕ, zero, suc, ◌+◌, ◌-◌, ◌≤◌, ◌<◌, ◌≡◌, refl, ap, ◌∙◌, min, true, false, ◌==◌, ltb, if◌then◌else◌,
  none, some, List, [], ◌∷◌, ◌++◌, length, get_or, set, take, drop, length-append, arith,
}
use transport.Packetio.Ring.{wrap, IsRing, read_bytes}
use transport.Packetio.Ring.Laws.{skip-IsRing}
use transport.Packetio.Ring.Copy.{read_bytes-IsRing}
use transport.Packetio.Ring.Slots.{clear-IsRing}
use transport.Packetio.Buffer.{
  Buffer, short_buffer, eof, timeout, answers, waits, header, header_value, header_size,
  consume_packet, attempt, read,
}
use transport.Packetio.Buffer.Queue.{Packet, encode, attributes_of, Represents}

header_lem : (n : ℕ) → n < 65536 → header_value (header n) ≡ n
header_lem n h = omega arith

drop-append : {A : Type 0} (xs ys : List A) → drop (length xs) (xs ++ ys) ≡ ys
drop-append [] ys = refl
drop-append (x ∷ xs) ys = drop-append xs ys

take_le_append :
    {A : Type 0} (n : ℕ) (xs ys : List A) → n ≤ length xs → take n (xs ++ ys) ≡ take n xs
take_le_append zero xs ys h = refl
take_le_append (suc n) [] ys h = absurd (omega arith)
take_le_append (suc n) (x ∷ xs) ys h = ap (λ r. x ∷ r) (take_le_append n xs ys (omega arith))

pub empty-IsRing : {B : Type 0} (d : B) (ring : List B) → IsRing d ring 0 []
empty-IsRing d ring = record {
  starts = λ p. absurd (omega arith);
  fits = omega arith;
  entries = λ i l. absurd (omega arith);
}

module _ {A : Type 0} where
  -- The header of the first packet, and the head behind it.
  read-header :
      (b : Buffer A) (p : List ℕ) (tags : List A) (q : List (Packet A))
      → Represents b ((p, tags) ∷ q)
      → (header_value (read_bytes b.bytes b.head (0 ∷ 0 ∷ []) header_size).0 ≡ length p)
        × ((read_bytes b.bytes b.head (0 ∷ 0 ∷ []) header_size).1
            ≡ wrap (length b.bytes) (b.head + 2))
        × IsRing 0 b.bytes (wrap (length b.bytes) (b.head + 2)) (p ++ encode q)
  unfolding encode
  read-header b p tags q r =
      let f =
        read_bytes-IsRing 0 b.bytes b.head (encode ((p, tags) ∷ q)) (0 ∷ 0 ∷ []) 2 r.ring
          (omega arith) in
      (
        ap header_value f.0 ∙ header_lem (length p) r.short.0,
        f.1,
        skip-IsRing 0 b.bytes b.head 2 (encode ((p, tags) ∷ q)) r.ring (omega arith),
      )

  -- The payload of the first packet, and the head behind it.
  read-payload :
      (b : Buffer A) (p : List ℕ) (tags : List A) (q : List (Packet A)) (buf : List ℕ)
      → Represents b ((p, tags) ∷ q)
      → let start = wrap (length b.bytes) (b.head + 2) in
        ((read_bytes b.bytes start buf (length p)).0
          ≡ take (min (length buf) (length p)) p ++ drop (min (length buf) (length p)) buf)
        × ((read_bytes b.bytes start buf (length p)).1
            ≡ wrap (length b.bytes) (b.head + (length p + 2)))
        × ((read_bytes b.bytes start buf (length p)).2 ≡ min (length buf) (length p))
        × IsRing 0 b.bytes (wrap (length b.bytes) (b.head + (length p + 2))) (encode q)
  unfolding encode
  read-payload b p tags q buf r =
      let (_, _, rest) = read-header b p tags q r in
      let start = wrap (length b.bytes) (b.head + 2) in
      let whole = length-append p (encode q) in
      let f =
        read_bytes-IsRing 0 b.bytes start (p ++ encode q) buf (length p) rest
          (omega (arith, whole)) in
      let s = skip-IsRing 0 b.bytes start (length p) (p ++ encode q) rest (omega (arith, whole)) in
      let next : wrap (length b.bytes) (start + length p)
          ≡ wrap (length b.bytes) (b.head + (length p + 2)) =
        ground (arith, r.ring.starts, r.ring.fits, r.free, whole) in
      (
        f.0
            ∙ ap (λ t. t ++ drop (min (length buf) (length p)) buf)
                (take_le_append (min (length buf) (length p)) p (encode q) (omega arith)),
        f.1 ∙ next,
        f.2,
        (rw (next, drop-append p (encode q)) at s),
      )

  -- The buffer behind a read whose head comes to `next`.
  abbrev pub finish : Buffer A → ℕ → Buffer A
  finish b next =
      let emptied = next == b.tail in
      record b {
        head = if emptied then 0 else next;
        tail = if emptied then 0 else b.tail;
        notified = if emptied then b.notified else if b.closed then b.notified else true;
        count = b.count - 1;
        attributes = set b.attributes b.attributes_head [];
        attributes_head =
            if emptied
            then 0
            else if b.attributes_head + 1 == length b.attributes
            then 0
            else b.attributes_head + 1;
      }

  consume_packet_lem :
      (b : Buffer A) (p : List ℕ) (tags : List A) (q : List (Packet A)) (buf : List ℕ)
      → Represents b ((p, tags) ∷ q)
      → consume_packet b buf ≡ (
        finish b (wrap (length b.bytes) (b.head + (length p + 2))),
        take (min (length buf) (length p)) p ++ drop (min (length buf) (length p)) buf,
        min (length buf) (length p),
        tags,
        if ltb (min (length buf) (length p)) (length p) then some short_buffer else none,
      )
  unfolding consume_packet
  consume_packet_lem b p tags q buf r =
      let h = read-header b p tags q r in
      let f = read-payload b p tags q buf r in
      let first : get_or b.attributes b.attributes_head [] ≡ tags =
        (clear-IsRing [] b.attributes b.attributes_head tags [] (attributes_of q) r.attached).0 in
      rw (h.0, h.1, f.0, f.1, f.2, first) refl

  -- The queue is empty exactly if the head comes to the tail.
  emptied_last :
      (b : Buffer A) (p : List ℕ) (tags : List A)
      → Represents b ((p, tags) ∷ [])
      → (wrap (length b.bytes) (b.head + (length p + 2)) == b.tail) ≡ true
  unfolding encode
  emptied_last b p tags r = ground (arith, r.end_at, length-append p [])

  emptied_more :
      (b : Buffer A) (p : List ℕ) (tags : List A) (x : Packet A) (q : List (Packet A))
      → Represents b ((p, tags) ∷ x ∷ q)
      → (wrap (length b.bytes) (b.head + (length p + 2)) == b.tail) ≡ false
  unfolding encode
  emptied_more b p tags (p', tags') q r = ground (
    arith,
    r.end_at,
    r.free,
    r.ring.starts,
    r.ring.fits,
    length-append p (encode ((p', tags') ∷ q)),
  )

  pub finish-Represents :
      (b : Buffer A) (p : List ℕ) (tags : List A) (q : List (Packet A))
      → Represents b ((p, tags) ∷ q)
      → Represents (finish b (wrap (length b.bytes) (b.head + (length p + 2)))) q
  unfolding encode
  finish-Represents b p tags [] r = rw (emptied_last b p tags r) (record {
    ring = empty-IsRing 0 b.bytes;
    end_at = ground arith;
    free = λ l. l;
    counted = omega (arith, r.counted);
    short = tt;
    attached = empty-IsRing [] (set b.attributes b.attributes_head []);
  })
  finish-Represents b p tags (x ∷ q) r =
      let c =
        clear-IsRing [] b.attributes b.attributes_head tags [] (attributes_of (x ∷ q)) r.attached in
      let f = read-payload b p tags (x ∷ q) [] r in
      let whole = length-append p (encode (x ∷ q)) in
      let place : wrap (length b.attributes) (b.attributes_head + 1)
          ≡ (if b.attributes_head + 1 == length b.attributes then 0 else b.attributes_head + 1) =
        ground (arith, r.attached.starts, r.attached.fits) in
      rw (emptied_more b p tags x q r) (record {
        ring = f.3;
        end_at = ground (arith, r.end_at, r.free, r.ring.starts, r.ring.fits, whole);
        free = λ l. omega (arith, r.free l, whole);
        counted = omega (arith, r.counted);
        short = r.short.1;
        attached = (rw place at c.1);
      })

  nonempty_lem :
      (b : Buffer A) (p : List ℕ) (tags : List A) (q : List (Packet A))
      → Represents b ((p, tags) ∷ q)
      → (b.head == b.tail) ≡ false
  unfolding encode
  nonempty_lem b p tags q r =
      ground (arith, r.end_at, r.free, r.ring.starts, r.ring.fits, length-append p (encode q))

  pub attempt_lem :
      (b : Buffer A) (p : List ℕ) (tags : List A) (q : List (Packet A)) (buf : List ℕ)
      → Represents b ((p, tags) ∷ q)
      → attempt b buf ≡ (
        finish b (wrap (length b.bytes) (b.head + (length p + 2))),
        answers
            (take (min (length buf) (length p)) p ++ drop (min (length buf) (length p)) buf)
            (min (length buf) (length p))
            tags
            (if ltb (length buf) (length p) then some short_buffer else none),
      )
  unfolding attempt
  attempt_lem b p tags q buf r =
      let e : ltb (min (length buf) (length p)) (length p) ≡ ltb (length buf) (length p) =
        ground arith in
      rw (nonempty_lem b p tags q r, consume_packet_lem b p tags q buf r, e) refl

  pub notified-finish :
      (b : Buffer A) (p : List ℕ) (tags : List A) (q : List (Packet A))
      → Represents b ((p, tags) ∷ q)
      → 0 < length q
      → b.closed ≡ false
      → (finish b (wrap (length b.bytes) (b.head + (length p + 2)))).notified ≡ true
  notified-finish b p tags [] r h o = absurd (omega arith)
  notified-finish b p tags (x ∷ q) r h o = rw (emptied_more b p tags x q r, o) refl

  -- `Read` takes the first packet of the queue: its bytes, as many as fit, come to the front of the
  -- reader's slice with their number and the packet's attributes, and the error says whether some
  -- did not fit. The other packets stay, and if there are any in an open buffer, the next reader is
  -- notified.
  pub read-Represents :
      (b : Buffer A) (p : List ℕ) (tags : List A) (q : List (Packet A)) (buf : List ℕ)
      → Represents b ((p, tags) ∷ q)
      → (b' : Buffer A) × (read b false buf ≡ (
        b',
        answers
            (take (min (length buf) (length p)) p ++ drop (min (length buf) (length p)) buf)
            (min (length buf) (length p))
            tags
            (if ltb (length buf) (length p) then some short_buffer else none),
      ))
        × Represents b' q
        × (0 < length q → b.closed ≡ false → b'.notified ≡ true)
  unfolding read
  read-Represents b p tags q buf r = (
    finish b (wrap (length b.bytes) (b.head + (length p + 2))),
    attempt_lem b p tags q buf r,
    finish-Represents b p tags q r,
    notified-finish b p tags q r,
  )

  pub attempt_empty :
      (b : Buffer A) (buf : List ℕ)
      → Represents b []
      → attempt b buf ≡ (b, if b.closed then answers buf 0 [] (some eof) else waits)
  unfolding attempt encode
  attempt_empty b buf r =
      let empty : (b.head == b.tail) ≡ true =
        ground (arith, r.end_at, r.free, r.ring.starts, r.ring.fits) in
      rw empty refl

  -- `Read` on an empty buffer waits while the buffer is open, and is at the end once it is closed;
  -- after the deadline it times out, whatever the buffer holds.
  pub read_empty :
      (b : Buffer A) (q : List (Packet A)) (buf : List ℕ)
      → Represents b q
      → (q ≡ [] → b.closed ≡ false → read b false buf ≡ (b, waits))
        × (q ≡ [] → b.closed ≡ true → read b false buf ≡ (b, answers buf 0 [] (some eof)))
        × (read b true buf ≡ (b, answers buf 0 [] (some timeout)))
  unfolding read attempt encode
  read_empty b q buf r = (λ e o. rw (empty e, o) refl, λ e c. rw (empty e, c) refl, refl)
    where
      empty : q ≡ [] → (b.head == b.tail) ≡ true
      empty e =
          let none_left : length (encode q) ≡ 0 = rw e refl in
          ground (arith, none_left, r.end_at, r.free, r.ring.starts, r.ring.fits)
