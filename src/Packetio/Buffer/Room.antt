-- ===== src/Packetio/Buffer/Room.antt =====
-- The loop of `Write` that makes room for a packet.
use transport.Prelude.{
  ℕ, zero, suc, ◌+◌, ◌≤◌, ◌<◌, ◌≡◌, refl, ap, ◌∙◌, Bool, true, false, leb, Option, none, some, List,
  length, replicate, length-replicate, arith, Bool-cases, inl, inr,
}
use transport.Packetio.Ring.{unroll}
use transport.Packetio.Ring.Copy.{unroll-IsRing}
use transport.Packetio.Buffer.{Buffer, available, grown_size, size_limit, grow, make_room}
use transport.Packetio.Buffer.Queue.{
  Packet, encode, Represents, available-Represents, grown_size_lem,
}

-- A buffer with another slice.
abbrev pub moved : {A : Type 0} → Buffer A → List ℕ → ℕ → ℕ → Buffer A
moved b bytes head tail = record b { bytes = bytes; head = head; tail = tail }

module _ {A : Type 0} (hard : Bool) where
  -- Below the limit a slice grows, and keeps the packets.
  grow-Represents :
      (b : Buffer A) (q : List (Packet A))
      → Represents b q
      → length b.bytes ≤ size_limit hard b.limit_size
      → (bytes : List ℕ) × (tail : ℕ) × (grow hard b ≡ some (moved b bytes 0 tail))
        × Represents (moved b bytes 0 tail) q
        × (length b.bytes < length bytes)
  unfolding grow
  grow-Represents b q r h =
      let size = grown_size hard b.limit_size (length b.bytes) in
      let fresh = replicate size 0 in
      let more = (grown_size_lem hard b.limit_size (length b.bytes)).1 h in
      let long : length fresh ≡ size = length-replicate size 0 in
      let u =
        unroll-IsRing 0 b.bytes b.head b.tail (encode q) fresh r.ring r.end_at r.free
          (omega (arith, r.ring.fits, long, more)) in
      let grows : leb (grown_size hard b.limit_size (length b.bytes)) (length b.bytes) ≡ false =
        ground (arith, more) in
      (
        (unroll b.bytes b.head b.tail fresh).0,
        (unroll b.bytes b.head b.tail fresh).1,
        rw grows refl,
        record {
          ring = u.0;
          end_at = ground (arith, u.1, u.2, long, more, r.ring.fits);
          free = λ p. omega (arith, u.2, long, more, r.ring.fits);
          counted = r.counted;
          short = r.short;
          attached = r.attached;
        },
        omega (arith, u.2, long, more),
      )

  make_room-grow :
      (n size : ℕ) (b b' : Buffer A)
      → available b size ≡ false
      → grow hard b ≡ some b'
      → make_room (suc n) hard size b ≡ make_room n hard size b'
  unfolding make_room
  make_room-grow n size b b' tight e = rw tight (ap after e)
    where
      after : Option (Buffer A) → Option (Buffer A × Bool)
      after none = some (b, false)
      after (some larger) = make_room n hard size larger

  -- With fuel for every byte up to the limit, the loop ends, and there is room: it neither runs out
  -- of fuel nor reports a full buffer.
  pub make_room-Represents :
      (n size : ℕ) (b : Buffer A) (q : List (Packet A))
      → Represents b q
      → length (encode q) + size + 2 ≤ size_limit hard b.limit_size
      → size_limit hard b.limit_size + 2 ≤ n + length b.bytes
      → 0 < n
      → (bytes : List ℕ) × (head tail : ℕ) × (make_room n hard size b
          ≡ some (moved b bytes head tail, true))
        × Represents (moved b bytes head tail) q
        × (length (encode q) + size + 3 ≤ length bytes)
  unfolding make_room
  make_room-Represents zero size b q r h f p = absurd (omega arith)
  make_room-Represents (suc n) size b q r h f p = elim (Bool-cases (available b size)) [
    | inl room ↦ (
      b.bytes,
      b.head,
      b.tail,
      rw room refl,
      r,
      ground (arith, room, available-Represents b q size r),
    )
    | inr tight ↦
        let short : length b.bytes < length (encode q) + size + 3 =
          ground (arith, tight, available-Represents b q size r) in
        let (bytes, tail, grown, r', more) = grow-Represents b q r (omega arith) in
        let (bytes', head', tail', e, r'', enough) =
          make_room-Represents n size (moved b bytes 0 tail) q r' h (omega arith) (omega arith) in
        (
          bytes',
          head',
          tail',
          make_room-grow n size b (moved b bytes 0 tail) tight grown ∙ e,
          r'',
          enough,
        )
  ]
