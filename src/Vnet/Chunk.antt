-- ===== src/Vnet/Chunk.antt =====
-- vnet/chunk.go: a UDP or TCP packet of the virtual network, as far as the queues and the address
-- translation read and write it. Tags, the duplicate mark and the TCP header fields are left out.
use transport.Prelude.{ℕ, ◌+◌, List, [], ◌∷◌, length, ◌≡◌, ◌⊎◌, inl, inr, refl}
use transport.Vnet.Addr.{Addr}

-- `Network()`: "udp" or "tcp"
pub data Network : Type 0 where
  udp tcp : Network

pub network-cases : (n : Network) → (n ≡ Network.udp) ⊎ (n ≡ Network.tcp)
network-cases Network.udp = inl refl
network-cases Network.tcp = inr refl

pub record Chunk : Type 0 where
  pub network : Network
  pub source : Addr
  pub destination : Addr
  pub user_data : List ℕ
  pub timestamp : ℕ

-- `setTimestamp`, at the time `now`.
abbrev pub set_timestamp : Chunk → ℕ → Chunk
set_timestamp c now = record c { timestamp = now }

-- `newChunkUDP`, with the payload that its callers put in. The zero time is 0.
abbrev pub new_chunk_udp : Addr → Addr → List ℕ → Chunk
new_chunk_udp src dst user_data = record {
  network = Network.udp;
  source = src;
  destination = dst;
  user_data = user_data;
  timestamp = 0;
}

-- `setSourceAddr` and `setDestinationAddr`, for an address that has been printed from `Addr`.
abbrev pub set_source_addr : Chunk → Addr → Chunk
set_source_addr c a = record c { source = a }

abbrev pub set_destination_addr : Chunk → Addr → Chunk
set_destination_addr c a = record c { destination = a }

-- The bytes of user data in a list of chunks.
unfoldable pub bytes : List Chunk → ℕ
bytes [] = 0
bytes (c ∷ cs) = length c.user_data + bytes cs
