-- ===== src/Packetio/Buffer/WriteLaws.antt =====
-- `Write` in terms of the queue: when it succeeds, and what stops it.
use transport.Prelude.{
  ℕ, ◌+◌, ◌≤◌, ◌<◌, ◌≡◌, ◌⊎◌, inl, inr, refl, ap, ◌∙◌, Bool, true, false, leb, ltb, Bool-cases,
  if◌then◌else◌, Option, none, some, List, [], ◌∷◌, ◌++◌, length, arith,
}
use transport.Prelude.Int.{pos_part}
use transport.Packetio.Buffer.{
  Buffer, Error, packet_too_big, closed_pipe, full, size_limit, is_full, fuel, make_room,
  grow_attributes, append_packet, write,
}
use transport.Packetio.Buffer.Queue.{Packet, encode, Represents, used-Represents}
use transport.Packetio.Buffer.Room.{moved, make_room-Represents}
use transport.Packetio.Buffer.Write.{append_packet-Represents}

if_false {ℓ} : {A : Type ℓ} {c : Bool} (x : A) {y : A} → c ≡ false → (if c then x else y) ≡ y
if_false x e = rw e refl

if_true {ℓ} : {A : Type ℓ} {c : Bool} {x : A} (y : A) → c ≡ true → (if c then x else y) ≡ x
if_true y e = rw e refl

module _ {A : Type 0} (hard : Bool) where
  open_lem :
      (b : Buffer A) (q : List (Packet A)) (n : ℕ)
      → Represents b q
      → (0 < pos_part b.limit_count → length q < pos_part b.limit_count)
      → length (encode q) + n + 2 ≤ size_limit hard b.limit_size
      → is_full hard b n ≡ false
  open_lem b q n r c h = ground (arith, r.counted, used-Represents b q r)

  full_lem :
      (b : Buffer A) (q : List (Packet A)) (n : ℕ)
      → Represents b q
      → ((0 < pos_part b.limit_count) × (pos_part b.limit_count ≤ length q))
        ⊎ (size_limit hard b.limit_size < length (encode q) + n + 2)
      → is_full hard b n ≡ true
  full_lem b q n r (inl h) = ground (arith, r.counted, h)
  full_lem b q n r (inr h) = ground (arith, used-Represents b q r, h)

  limit-fuel : (b : Buffer A) → size_limit hard b.limit_size + 2 ≤ fuel b
  limit-fuel b = ground arith

  write-make_room :
      (b b' : Buffer A) (payload : List ℕ) (tags : List A)
      → leb 65536 (length payload) ≡ false
      → b.closed ≡ false
      → is_full hard b (length payload) ≡ false
      → make_room (fuel b) hard (length payload) b ≡ some (b', true)
      → write hard b payload tags ≡ some (append_packet b' payload tags, length payload, none)
  unfolding write
  write-make_room b b' payload tags s o f e =
      if_false _ s ∙ if_false _ o ∙ if_false _ f ∙ ap after e
    where
      after : Option (Buffer A × Bool) → Option (Buffer A × ℕ × Option Error)
      after none = none
      after (some (larger, false)) = some (larger, 0, some full)
      after (some (larger, true)) = some (append_packet larger payload tags, length payload, none)

  append_packet-same :
      (b : Buffer A) (payload : List ℕ) (tags : List A)
      → ((append_packet b payload tags).closed ≡ b.closed)
        × ((append_packet b payload tags).limit_count ≡ b.limit_count)
        × ((append_packet b payload tags).limit_size ≡ b.limit_size)
  unfolding append_packet grow_attributes
  append_packet-same b payload tags = elim (Bool-cases (ltb b.count (length b.attributes))) [
    | inl room ↦ rw room (refl, refl, refl)
    | inr tight ↦ rw tight (refl, refl, refl)
  ]

  -- How a packet that fits is written.
  pub write-append_packet :
      (b : Buffer A) (q : List (Packet A)) (payload : List ℕ) (tags : List A)
      → Represents b q
      → b.closed ≡ false
      → length payload < 65536
      → (0 < pos_part b.limit_count → length q < pos_part b.limit_count)
      → length (encode q) + length payload + 2 ≤ size_limit hard b.limit_size
      → (b' : Buffer A) × (write hard b payload tags ≡ some (b', length payload, none))
        × Represents b' (q ++ ((payload, tags) ∷ []))
        × (b'.notified ≡ true)
        × (b'.closed ≡ b.closed)
        × (b'.limit_count ≡ b.limit_count)
        × (b'.limit_size ≡ b.limit_size)
  write-append_packet b q payload tags r o s c h =
      let (bytes, head, tail, e, r', room) =
        make_room-Represents hard (fuel b) (length payload) b q r h (omega (arith, limit-fuel b))
          (omega (arith, limit-fuel b)) in
      let same = append_packet-same (moved b bytes head tail) payload tags in
      (
        append_packet (moved b bytes head tail) payload tags,
        write-make_room b (moved b bytes head tail) payload tags (ground arith) o
            (open_lem b q (length payload) r c h) e,
        append_packet-Represents (moved b bytes head tail) q payload tags r' s (omega arith),
        unfold append_packet in refl,
        same.0,
        same.1,
        same.2,
      )

  -- A packet is written, and comes to the end of the queue, whenever the buffer is open, the packet
  -- is shorter than 65536 bytes, and the limits on the packets and on the bytes leave room for it.
  -- The slice then always grows far enough. A reader is notified.
  pub write-Represents :
      (b : Buffer A) (q : List (Packet A)) (payload : List ℕ) (tags : List A)
      → Represents b q
      → b.closed ≡ false
      → length payload < 65536
      → (0 < pos_part b.limit_count → length q < pos_part b.limit_count)
      → length (encode q) + length payload + 2 ≤ size_limit hard b.limit_size
      → (b' : Buffer A) × (write hard b payload tags ≡ some (b', length payload, none))
        × Represents b' (q ++ ((payload, tags) ∷ []))
        × (b'.notified ≡ true)
  write-Represents b q payload tags r o s c h =
      let (b', e, r', told, _, _, _) = write-append_packet b q payload tags r o s c h in
      (b', e, r', told)

  -- What makes `Write` fail.
  pub write_error :
      (b : Buffer A) (q : List (Packet A)) (payload : List ℕ) (tags : List A)
      → Represents b q
      → (65536 ≤ length payload → write hard b payload tags ≡ some (b, 0, some packet_too_big))
        × (length payload < 65536
            → b.closed ≡ true
            → write hard b payload tags ≡ some (b, 0, some closed_pipe))
        × (length payload < 65536
            → b.closed ≡ false
            → ((0 < pos_part b.limit_count) × (pos_part b.limit_count ≤ length q))
              ⊎ (size_limit hard b.limit_size < length (encode q) + length payload + 2)
            → write hard b payload tags ≡ some (b, 0, some full))
  unfolding write
  write_error b q payload tags r = (
    λ h. (let e : leb 65536 (length payload) ≡ true = ground arith in rw e refl),
    λ h c. (let e : leb 65536 (length payload) ≡ false = ground arith in rw (e, c) refl),
    λ h c f.
        (let e : leb 65536 (length payload) ≡ false = ground arith in
          if_false _ e ∙ if_false _ c ∙ if_true _ (full_lem b q (length payload) r f)),
  )
