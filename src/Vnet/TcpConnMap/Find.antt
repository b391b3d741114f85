-- ===== src/Vnet/TcpConnMap/Find.antt =====
-- Which connection tcpConnMap hands a chunk to, before and after an insertion or a deletion.
use transport.Prelude.{
  ℕ, ◌≡◌, ◌≢◌, refl, ◌⊎◌, true, false, none, some, List, [], ◌∷◌, ◌++◌, arith, ◌≤◌, Bool-cases,
  Option-cases, inl, inr, length,
}
use transport.Vnet.Addr.{Ip, Addr, ip_eq_refl, ip_eq_iff}
use transport.Vnet.PortMap.{lookup, lookup-insert, lookup-erase}
use transport.Vnet.TcpConnMap.{
  TcpConn, TcpConnMap, slice_at, same_remote, clashes, tuple_taken, insert, receives,
  first_receiver, find_by_chunk, store_kept, has_tuple, without_tuple, delete_by_addr, any_on_ip,
  port_in_use,
}
use transport.Vnet.TcpConnMap.Laws.{ApartFrom, AllApart, IsValid}

abbrev pub Has : TcpConn → List TcpConn → Type 0
Has c [] = ⊥
Has c (d ∷ ds) = (d ≡ c) ⊎ Has c ds

-- Two connections that take the same chunk clash.
receives-clashes :
    (c d : TcpConn) (dst src : Addr)
    → receives c dst src ≡ true
    → receives d dst src ≡ true
    → clashes c d ≡ true
unfolding receives clashes
receives-clashes c d dst src hc hd = ground (
  arith,
  ip_eq_iff c.loc_addr.ip dst.ip,
  ip_eq_iff d.loc_addr.ip dst.ip,
  ip_eq_iff c.loc_addr.ip d.loc_addr.ip,
  ip_eq_iff c.rem_addr.ip src.ip,
  ip_eq_iff d.rem_addr.ip src.ip,
  ip_eq_iff c.rem_addr.ip d.rem_addr.ip,
)

ApartFrom-receives :
    (d c : TcpConn) (cs : List TcpConn) (dst src : Addr)
    → ApartFrom d cs
    → Has c cs
    → receives c dst src ≡ true
    → receives d dst src ≡ false
ApartFrom-receives d c (x ∷ cs) dst src h (inl e) r = ground (arith, receives-clashes d c dst src)
ApartFrom-receives d c (x ∷ cs) dst src h (inr i) r = ApartFrom-receives d c cs dst src h.1 i r
ApartFrom-receives d c [] dst src h i r = absurd i

first_receiver_unique :
    (c : TcpConn) (cs : List TcpConn) (dst src : Addr)
    → AllApart cs
    → Has c cs
    → receives c dst src ≡ true
    → first_receiver dst src cs ≡ some c
unfolding first_receiver
first_receiver_unique c [] dst src h i r = absurd i
first_receiver_unique c (d ∷ ds) dst src h (inl e) r = ground arith
first_receiver_unique c (d ∷ ds) dst src h (inr i) r =
    rw (ApartFrom-receives d c ds dst src h.0 i r) (first_receiver_unique c ds dst src h.1 i r)

-- On a valid map a chunk has one receiver at most: `findByChunk` returns every connection of the
-- port that matches the chunk's addresses, wherever it stands in the list.
pub find_by_chunk_unique :
    (m : TcpConnMap) (c : TcpConn) (dst src : Addr) (cs : List TcpConn)
    → IsValid m
    → lookup dst.port m ≡ some cs
    → Has c cs
    → receives c dst src ≡ true
    → find_by_chunk m dst src ≡ some c
unfolding find_by_chunk
find_by_chunk_unique m c dst src cs h used i r =
    rw (used, find_by_chunk) (first_receiver_unique c cs dst src (h _ cs used).apart i r)

receives-own : (c d : TcpConn) → receives d c.loc_addr c.rem_addr ≡ true → clashes d c ≡ true
unfolding receives clashes
receives-own c d h = ground arith

receives_self : (c : TcpConn) → receives c c.loc_addr c.rem_addr ≡ true
unfolding receives same_remote
receives_self c = ground (arith, ip_eq_refl c.loc_addr.ip, ip_eq_refl c.rem_addr.ip)

first_receiver-append :
    (c : TcpConn) (cs : List TcpConn)
    → tuple_taken c cs ≡ false
    → first_receiver c.loc_addr c.rem_addr (cs ++ (c ∷ [])) ≡ some c
unfolding first_receiver tuple_taken
first_receiver-append c [] h = rw (receives_self c)
first_receiver-append c (d ∷ ds) h = ground (arith, receives-own c d, first_receiver-append c ds)

-- A connection that `insert` accepts receives the chunks from its remote to its local address, and
-- the connections of all other ports stay as they are; one that it refuses changes nothing.
pub find_by_chunk-insert :
    (m : TcpConnMap) (c : TcpConn)
    → ((insert m c).0 ≡ none → find_by_chunk (insert m c).1 c.loc_addr c.rem_addr ≡ some c)
      × ((p : ℕ) → c.loc_addr.port ≢ p → lookup p (insert m c).1 ≡ lookup p m)
      × ((insert m c).0 ≢ none → (insert m c).1 ≡ m)
find_by_chunk-insert m c = (own, other, refused)
  where
    own : (insert m c).0 ≡ none → find_by_chunk (insert m c).1 c.loc_addr c.rem_addr ≡ some c
    own e =
        unfold insert find_by_chunk in
        ground (
          arith,
          lookup-insert c.loc_addr.port c.loc_addr.port (slice_at c.loc_addr.port m ++ (c ∷ [])) m,
          first_receiver-append c (slice_at c.loc_addr.port m),
        )

    other : (p : ℕ) → c.loc_addr.port ≢ p → lookup p (insert m c).1 ≡ lookup p m
    other p ne =
        unfold insert in
        ground (arith, lookup-insert c.loc_addr.port p (slice_at c.loc_addr.port m ++ (c ∷ [])) m)

    refused : (insert m c).0 ≢ none → (insert m c).1 ≡ m
    refused e = unfold insert in ground arith

any_on_ip-receives :
    (ip : Ip) (cs : List TcpConn) (dst src : Addr)
    → dst.ip ≡ ip
    → any_on_ip ip cs ≡ false
    → first_receiver dst src cs ≡ none
unfolding any_on_ip first_receiver receives
any_on_ip-receives ip [] dst src e h = refl
any_on_ip-receives ip (c ∷ cs) dst src e h = ground (arith, any_on_ip-receives ip cs dst src e)

-- Where `portInUse` says no, no chunk for that address has a receiver.
pub port_in_use-find_by_chunk :
    (m : TcpConnMap) (dst src : Addr)
    → port_in_use m dst.ip dst.port ≡ false
    → find_by_chunk m dst src ≡ none
unfolding port_in_use find_by_chunk
port_in_use-find_by_chunk m dst src h = elim (Option-cases (lookup dst.port m)) [
  | inl free ↦ ground arith
  | inr (cs, used) ↦ ground (arith, any_on_ip-receives dst.ip cs dst src refl)
]

-- Two connections with one remote address, where one has the local address and the other would
-- receive its chunks, clash.
tuple-clashes :
    (c d : TcpConn) (l r : Addr)
    → has_tuple c l r ≡ true
    → receives d l r ≡ true
    → (clashes c d ≡ true) × (clashes d c ≡ true)
unfolding receives clashes has_tuple
tuple-clashes c d l r hc hd = ground (
  arith,
  ip_eq_iff c.loc_addr.ip l.ip,
  ip_eq_iff d.loc_addr.ip l.ip,
  ip_eq_iff c.loc_addr.ip d.loc_addr.ip,
  ip_eq_iff d.loc_addr.ip c.loc_addr.ip,
  ip_eq_iff c.rem_addr.ip r.ip,
  ip_eq_iff d.rem_addr.ip r.ip,
  ip_eq_iff c.rem_addr.ip d.rem_addr.ip,
  ip_eq_iff d.rem_addr.ip c.rem_addr.ip,
)

length-without_tuple : (l r : Addr) (cs : List TcpConn) → length (without_tuple l r cs) ≤ length cs
unfolding without_tuple
length-without_tuple l r [] = ground arith
length-without_tuple l r (c ∷ cs) = ground (arith, length-without_tuple l r cs)

-- What is left receives nothing, if a connection apart from it had the tuple.
first_receiver-without_apart :
    (l r : Addr) (c : TcpConn) (cs : List TcpConn)
    → ApartFrom c cs
    → has_tuple c l r ≡ true
    → first_receiver l r (without_tuple l r cs) ≡ none
unfolding first_receiver without_tuple
first_receiver-without_apart l r c [] h t = refl
first_receiver-without_apart l r c (d ∷ ds) h t =
    ground (arith, tuple-clashes c d l r, first_receiver-without_apart l r c ds h.1 t)

receives-removed :
    (l r : Addr) (d : TcpConn) (cs : List TcpConn)
    → ApartFrom d cs
    → length (without_tuple l r cs) ≢ length cs
    → receives d l r ≡ false
unfolding without_tuple
receives-removed l r d [] h t = absurd (t refl)
receives-removed l r d (c ∷ cs) h t =
    ground (arith, tuple-clashes c d l r, receives-removed l r d cs h.1)

first_receiver-without_tuple :
    (l r : Addr) (cs : List TcpConn)
    → AllApart cs
    → length (without_tuple l r cs) ≢ length cs
    → first_receiver l r (without_tuple l r cs) ≡ none
unfolding first_receiver without_tuple
first_receiver-without_tuple l r [] h t = refl
first_receiver-without_tuple l r (c ∷ cs) h t = elim (Bool-cases (has_tuple c l r)) [
  | inl gone ↦ ground (arith, first_receiver-without_apart l r c cs h.0 gone)
  | inr stays ↦
      ground (arith, receives-removed l r c cs h.0, first_receiver-without_tuple l r cs h.1)
]

-- After a `deleteByAddr` that succeeds on a valid map, no connection receives the chunks of that
-- pair of addresses.
pub find_by_chunk-delete_by_addr :
    (m : TcpConnMap) (l r : Addr)
    → IsValid m
    → (delete_by_addr m l r).0 ≡ none
    → find_by_chunk (delete_by_addr m l r).1 l r ≡ none
unfolding delete_by_addr find_by_chunk store_kept
find_by_chunk-delete_by_addr m l r h e = elim (Option-cases (lookup l.port m)) [
  | inl free ↦ ground arith
  | inr (cs, used) ↦ after cs used (without_tuple l r cs) refl
]
  where
    after :
        (cs : List TcpConn)
        → lookup l.port m ≡ some cs
        → (kept : List TcpConn) → without_tuple l r cs ≡ kept
        → find_by_chunk (delete_by_addr m l r).1 l r ≡ none
    after cs used [] q = ground (arith, lookup-erase l.port l.port m)
    after cs used (d ∷ ds) q = ground (
      arith,
      lookup-insert l.port l.port (d ∷ ds) m,
      first_receiver-without_tuple l r cs (h _ cs used).apart,
    )
