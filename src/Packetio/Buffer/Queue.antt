-- ===== src/Packetio/Buffer/Queue.antt =====
-- The queue of packets that a buffer holds, and how the ring of bytes grows under it.
use transport.Prelude.{
  ℕ, ◌+◌, ◌≤◌, ◌<◌, ◌≡◌, Bool, true, false, leb, List, [], ◌∷◌, ◌++◌, length, arith,
}
use transport.Prelude.Int.{ℤ}
use transport.Packetio.Ring.{wrap, IsRing}
use transport.Packetio.Buffer.{Buffer, header, used, available, grown_size, size_limit}

abbrev pub Packet : Type 0 → Type 0
Packet A = List ℕ × List A

-- The bytes of a queue of packets.
unfoldable pub encode : {A : Type 0} → List (Packet A) → List ℕ
encode [] = []
encode ((payload, attributes) ∷ q) = header (length payload) ++ payload ++ encode q

abbrev pub AllShort : {A : Type 0} → List (Packet A) → Type 0
AllShort [] = Unit
AllShort ((payload, attributes) ∷ q) = (length payload < 65536) × AllShort q

abbrev pub attributes_of : {A : Type 0} → List (Packet A) → List (List A)
attributes_of [] = []
attributes_of ((payload, attributes) ∷ q) = attributes ∷ attributes_of q

-- The buffer holds the packets `q`, the first one at its head.
pub record Represents {A : Type 0} (b : Buffer A) (q : List (Packet A)) : Type 0 where
  pub ring : IsRing 0 b.bytes b.head (encode q)
  pub end_at : b.tail ≡ wrap (length b.bytes) (b.head + length (encode q))
  pub free : 0 < length b.bytes → length (encode q) < length b.bytes
  pub counted : b.count ≡ length q
  pub short : AllShort q
  pub attached : IsRing [] b.attributes b.attributes_head (attributes_of q)

module _ {A : Type 0} where
  -- `Size` is the number of bytes of the packets that the buffer holds, with a header of two bytes
  -- for each.
  pub used-Represents :
      (b : Buffer A) (q : List (Packet A)) → Represents b q → used b ≡ length (encode q)
  unfolding used
  used-Represents b q r = ground (arith, r.end_at, r.free, r.ring.starts, r.ring.fits)

  pub available-Represents :
      (b : Buffer A) (q : List (Packet A)) (size : ℕ)
      → Represents b q
      → available b size ≡ leb (length (encode q) + size + 3) (length b.bytes)
  unfolding available
  available-Represents b q size r = ground (arith, r.end_at, r.free, r.ring.starts, r.ring.fits)

pub grown_size_lem :
    (hard : Bool) (limit : ℤ) (len : ℕ)
    → (grown_size hard limit len ≤ size_limit hard limit + 1)
      × (len ≤ size_limit hard limit → len < grown_size hard limit len)
unfolding grown_size
grown_size_lem true limit len = (ground arith, λ h. ground arith)
grown_size_lem false limit len = (ground arith, λ h. ground arith)
