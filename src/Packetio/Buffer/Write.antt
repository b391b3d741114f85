-- ===== src/Packetio/Buffer/Write.antt =====
-- What `Write` does to the queue of packets.
use mathlib.Core.List.{append_assoc, append-nil}
use transport.Prelude.{
  ℕ, suc, ◌+◌, ◌-◌, ◌*◌, ◌≤◌, ◌<◌, ◌≡◌, refl, ap, sym, ◌∙◌, min, max, ltb, List, [], ◌∷◌, ◌++◌,
  length, take, drop, replicate, length-replicate, length-append, arith, Bool-cases, inl, inr,
}
use transport.Packetio.Ring.{wrap, copy_at}
use transport.Packetio.Ring.Laws.{write_bytes-IsRing, length-copy_at}
use transport.Packetio.Ring.Slots.{set-IsRing, rotate-IsRing}
use transport.Packetio.Buffer.{Buffer, header, grow_attributes, put_bytes, append_packet}
use transport.Packetio.Buffer.Queue.{Packet, encode, AllShort, attributes_of, Represents}

module _ {A : Type 0} where
  encode-append :
      (q : List (Packet A)) (payload : List ℕ) (tags : List A)
      → encode (q ++ ((payload, tags) ∷ [])) ≡ (encode q ++ header (length payload)) ++ payload
  unfolding encode
  encode-append [] payload tags = rw (append-nil payload) refl
  encode-append ((p, bs) ∷ q) payload tags = rw (encode-append q payload tags) (simp append_assoc)

  attributes_of-append :
      (q : List (Packet A)) (payload : List ℕ) (tags : List A)
      → attributes_of (q ++ ((payload, tags) ∷ [])) ≡ attributes_of q ++ (tags ∷ [])
  attributes_of-append [] payload tags = refl
  attributes_of-append ((p, bs) ∷ q) payload tags =
      ap (λ r. bs ∷ r) (attributes_of-append q payload tags)

  length-attributes_of : (q : List (Packet A)) → length (attributes_of q) ≡ length q
  length-attributes_of [] = refl
  length-attributes_of ((p, bs) ∷ q) = ap suc (length-attributes_of q)

  AllShort-append :
      (q : List (Packet A)) (payload : List ℕ) (tags : List A)
      → AllShort q
      → length payload < 65536
      → AllShort (q ++ ((payload, tags) ∷ []))
  AllShort-append [] payload tags s h = (h, tt)
  AllShort-append ((p, bs) ∷ q) payload tags s h = (s.0, AllShort-append q payload tags s.1 h)

  -- There is a slot for the attributes of one packet more.
  grow_attributes-Represents :
      (b : Buffer A) (q : List (Packet A))
      → Represents b q
      → Represents (grow_attributes b) q
        × (length q < length (grow_attributes b).attributes)
        × ((grow_attributes b).bytes ≡ b.bytes)
  unfolding grow_attributes
  grow_attributes-Represents b q r = elim (Bool-cases (ltb b.count (length b.attributes))) [
    | inl room ↦ rw room (r, ground (arith, room, r.counted), refl)
    | inr tight ↦
        let fresh : List (List A) = replicate (max 1 (2 * length b.attributes)) [] in
        let long : length fresh ≡ max 1 (2 * length b.attributes) =
          length-replicate (max 1 (2 * length b.attributes)) [] in
        let same : length (attributes_of q) ≡ length b.attributes =
          ground (arith, tight, r.counted, r.attached.fits, length-attributes_of q) in
        let turned =
          rotate-IsRing [] b.attributes b.attributes_head (attributes_of q) fresh r.attached same
            (omega (arith, long)) in
        rw tight (
          record {
            ring = r.ring;
            end_at = r.end_at;
            free = r.free;
            counted = r.counted;
            short = r.short;
            attached = turned;
          },
          omega (
            arith,
            length-copy_at (copy_at fresh 0 (drop b.attributes_head b.attributes))
                (min (length fresh) (length b.attributes - b.attributes_head))
                (take b.attributes_head b.attributes),
            length-copy_at fresh 0 (drop b.attributes_head b.attributes),
            long,
            same,
            length-attributes_of q,
          ),
          refl,
        )
  ]

  -- A packet for which there is room comes to the end of the queue.
  pub append_packet-Represents :
      (b : Buffer A) (q : List (Packet A)) (payload : List ℕ) (tags : List A)
      → Represents b q
      → length payload < 65536
      → length (encode q) + length payload + 3 ≤ length b.bytes
      → Represents (append_packet b payload tags) (q ++ ((payload, tags) ∷ []))
  unfolding append_packet
  append_packet-Represents b q payload tags r s h =
      let g = grow_attributes b in
      let (r', room, same) = grow_attributes-Represents b q r in
      let head_bytes = header (length payload) in
      let w =
        write_bytes-IsRing 0 g.bytes g.head g.tail (encode q) head_bytes r'.ring r'.end_at
          (omega (arith, ap length same)) in
      let b' = put_bytes g head_bytes in
      let w' =
        write_bytes-IsRing 0 b'.bytes b'.head b'.tail (encode q ++ head_bytes) payload w.0
          (w.1 ∙ ap (λ l. wrap l (g.head + length (encode q ++ head_bytes))) (sym w.2))
          (omega (arith, ap length same, w.2, length-append (encode q) head_bytes)) in
      let all = encode-append q payload tags in
      let place : length (attributes_of q) ≡ g.count = length-attributes_of q ∙ sym r'.counted in
      let put =
        set-IsRing [] g.attributes g.attributes_head (attributes_of q) tags r'.attached
          (omega (arith, room, length-attributes_of q)) in
      record {
        ring = rw all w'.0;
        end_at = rw all (
            w'.1
            ∙ ap (λ l. wrap l (g.head + length ((encode q ++ head_bytes) ++ payload))) (sym w'.2));
        free = λ p. omega (
          arith,
          ap length all,
          length-append (encode q ++ head_bytes) payload,
          length-append (encode q) head_bytes,
          w.2,
          w'.2,
          ap length same,
        );
        counted = omega (arith, r'.counted, length-append q ((payload, tags) ∷ []));
        short = AllShort-append q payload tags r.short s;
        attached = rw (attributes_of-append q payload tags) (rw place at put);
      }
