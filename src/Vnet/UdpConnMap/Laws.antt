-- ===== src/Vnet/UdpConnMap/Laws.antt =====
-- The invariant of vnet/conn_map.go, and what its methods keep of it.
use transport.Prelude.{
  ℕ, ◌+◌, ◌≡◌, ◌≢◌, refl, ◌↔◌, true, false, none, some, List, [], ◌∷◌, ◌++◌, arith, Bool-cases,
  Option-cases, some-inj, inl, inr, length-append,
}
use transport.Vnet.Addr.{Ip, Addr, is_unspecified, ip_eq_refl}
use transport.Vnet.PortMap.{lookup, lookup-insert, lookup-erase, total-insert}
use mathlib.Core.Path.{subst}
use transport.Vnet.PortList.{covers, taken, first_covering, ApartFrom, AllApart, OnPort, IsValid}
use transport.Vnet.PortList.Laws.{
  append-ne-nil, OnPort-append, AllApart-append, put-IsValid, erase-IsValid, first_covering-taken,
  first_covering-append,
}
use transport.Vnet.UdpConnMap.{
  UdpConn, UdpConnMap, cannot_remove_unspecified_ip, local_addr, insert, find, without, store_kept,
  delete, size,
}

-- What `delete` keeps of a port's list is again such a list, but it may be empty.
ApartFrom-without :
    (ip : Ip) (d : UdpConn) (cs kept : List UdpConn)
    → without ip cs ≡ some kept
    → ApartFrom local_addr d cs
    → ApartFrom local_addr d kept
unfolding without
ApartFrom-without ip d [] kept e h = subst (ApartFrom local_addr d) (some-inj e) tt
ApartFrom-without ip d (c ∷ cs) kept e h = elim (Option-cases (without ip cs)) [
  | inl stuck ↦ ground arith
  | inr (k, q) ↦ ground (arith, ApartFrom-without ip d cs k q h.1)
]

OnPort-without :
    (ip : Ip) (p : ℕ) (cs kept : List UdpConn)
    → without ip cs ≡ some kept
    → OnPort local_addr p cs
    → OnPort local_addr p kept
unfolding without
OnPort-without ip p [] kept e h = subst (OnPort local_addr p) (some-inj e) tt
OnPort-without ip p (c ∷ cs) kept e h = elim (Option-cases (without ip cs)) [
  | inl stuck ↦ ground arith
  | inr (k, q) ↦ ground (arith, OnPort-without ip p cs k q h.1)
]

AllApart-without :
    (ip : Ip) (cs kept : List UdpConn)
    → without ip cs ≡ some kept
    → AllApart local_addr cs
    → AllApart local_addr kept
unfolding without
AllApart-without ip [] kept e h = subst (AllApart local_addr) (some-inj e) tt
AllApart-without ip (c ∷ cs) kept e h = elim (Option-cases (without ip cs)) [
  | inl stuck ↦ ground arith
  | inr (k, q) ↦ ground (arith, ApartFrom-without ip c cs k q h.0, AllApart-without ip cs k q h.1)
]

store_kept-IsValid :
    (p : ℕ) (m : UdpConnMap) (kept : List UdpConn)
    → OnPort local_addr p kept
    → AllApart local_addr kept
    → IsValid local_addr m
    → IsValid local_addr (store_kept p m kept)
unfolding store_kept
store_kept-IsValid p m [] on apart h = erase-IsValid local_addr p m h
store_kept-IsValid p m (c ∷ cs) on apart h =
    put-IsValid local_addr p (c ∷ cs) m (record { nonempty = λ e. cc; on_port = on; apart = apart })
      h

insert-IsValid :
    (m : UdpConnMap) (c : UdpConn) → IsValid local_addr m → IsValid local_addr (insert m c).1
unfolding insert
insert-IsValid m c h = elim (Option-cases (lookup c.loc_addr.port m)) [
  | inl free ↦
      rw (free, insert)
        (put-IsValid local_addr _ _ m
          (record { nonempty = λ e. cc; on_port = (refl, tt); apart = (tt, tt) }) h)
  | inr (conns, used) ↦
      rw (used, insert)
        (elim (Bool-cases (is_unspecified c.loc_addr.ip)) [
          | inl wild ↦ rw wild h
          | inr specified ↦ rw specified (elim (Bool-cases (taken local_addr c.loc_addr.ip conns)) [
            | inl clash ↦ rw clash h
            | inr apart ↦ rw apart (
                put-IsValid local_addr _ _ m
                  (record {
                    nonempty = append-ne-nil local_addr conns c;
                    on_port = OnPort-append local_addr _ conns c (h _ conns used).on_port refl;
                    apart =
                        AllApart-append local_addr c specified conns (h _ conns used).apart apart;
                  })
                  h)
          ])
        ])
]

delete-IsValid :
    (m : UdpConnMap) (a : Addr) → IsValid local_addr m → IsValid local_addr (delete m a).1
unfolding delete
delete-IsValid m a h = elim (Option-cases (lookup a.port m)) [
  | inl free ↦ rw (free, delete) h
  | inr (conns, used) ↦
      rw (used, delete)
        (elim (Bool-cases (is_unspecified a.ip)) [
          | inl wild ↦ rw wild (erase-IsValid local_addr _ m h)
          | inr specified ↦ rw specified (elim (Option-cases (without a.ip conns)) [
            | inl refused ↦ rw refused h
            | inr (kept, e) ↦ rw e (
                store_kept-IsValid a.port m kept
                  (OnPort-without a.ip _ conns kept e (h _ conns used).on_port)
                  (AllApart-without a.ip conns kept e (h _ conns used).apart) h)
          ])
        ])
]

-- Both methods that change the map keep the invariant, whatever they return: the list of a port is
-- never empty, its connections are of that port, and no two of them could take the same packet.
pub UdpConnMap-IsValid :
    (m : UdpConnMap) (c : UdpConn) (a : Addr)
    → IsValid local_addr m
    → IsValid local_addr (insert m c).1 × IsValid local_addr (delete m a).1
UdpConnMap-IsValid m c a h = (insert-IsValid m c h, delete-IsValid m a h)

-- On a valid map `insert` accepts a connection exactly if `find` gives no connection for its
-- address: an address is refused only if a listener could already take its packets.
pub insert-find :
    (m : UdpConnMap) (c : UdpConn)
    → IsValid local_addr m
    → ((insert m c).0 ≡ none) ↔ ((find m c.loc_addr).0 ≡ none)
unfolding insert find
insert-find m c h = elim (Option-cases (lookup c.loc_addr.port m)) [
  | inl free ↦ ground arith
  | inr ([], used) ↦ absurd ((h _ [] used).nonempty refl)
  | inr ((d ∷ ds), used) ↦ ground (arith, first_covering-taken local_addr c.loc_addr.ip (d ∷ ds))
]

-- What `find` returns depends on the list of the address's port alone.
find-lookup :
    (m m' : UdpConnMap) (a : Addr)
    → lookup a.port m ≡ lookup a.port m'
    → (find m a).0 ≡ (find m' a).0
unfolding find
find-lookup m m' a e = elim (Option-cases (lookup a.port m')) [
  | inl free ↦ ground arith
  | inr ([], used) ↦ ground arith
  | inr ((d ∷ ds), used) ↦ ground arith
]

insert-other :
    (m : UdpConnMap) (c : UdpConn) (p : ℕ)
    → c.loc_addr.port ≢ p
    → lookup p (insert m c).1 ≡ lookup p m
unfolding insert
insert-other m c p ne = elim (Option-cases (lookup c.loc_addr.port m)) [
  | inl free ↦ ground (arith, lookup-insert c.loc_addr.port p (c ∷ []) m)
  | inr (cs, used) ↦ ground (arith, lookup-insert c.loc_addr.port p (cs ++ (c ∷ [])) m)
]

find-insert_self :
    (m : UdpConnMap) (c : UdpConn)
    → (insert m c).0 ≡ none
    → (find (insert m c).1 c.loc_addr).0 ≡ some c
unfolding insert find first_covering covers
find-insert_self m c e = elim (Option-cases (lookup c.loc_addr.port m)) [
  | inl free ↦
      ground
        (arith, lookup-insert c.loc_addr.port c.loc_addr.port (c ∷ []) m, ip_eq_refl c.loc_addr.ip)
  | inr (cs, used) ↦ ground (
    arith,
    lookup-insert c.loc_addr.port c.loc_addr.port (cs ++ (c ∷ [])) m,
    first_covering-append local_addr c cs,
  )
]

-- A connection that `insert` accepts is what `find` returns for its address, and the connections
-- of all other ports are found as before.
pub find-insert :
    (m : UdpConnMap) (c : UdpConn)
    → (insert m c).0 ≡ none
    → ((find (insert m c).1 c.loc_addr).0 ≡ some c)
      × ((a : Addr) → c.loc_addr.port ≢ a.port → (find (insert m c).1 a).0 ≡ (find m a).0)
find-insert m c e =
    (find-insert_self m c e, λ a ne. find-lookup (insert m c).1 m a (insert-other m c a.port ne))

-- On success `insert` adds one connection to the size of the map, and a refused one leaves the map
-- as it is.
pub size-insert :
    (m : UdpConnMap) (c : UdpConn)
    → ((insert m c).0 ≡ none → size (insert m c).1 ≡ size m + 1)
      × ((insert m c).0 ≢ none → (insert m c).1 ≡ m)
unfolding insert size
size-insert m c = elim (Option-cases (lookup c.loc_addr.port m)) [
  | inl free ↦ ground (arith, total-insert c.loc_addr.port (c ∷ []) m)
  | inr (cs, used) ↦
      ground (arith, total-insert c.loc_addr.port (cs ++ (c ∷ [])) m, length-append cs (c ∷ []))
]

first_covering-without :
    (ip : Ip) (cs kept : List UdpConn)
    → without ip cs ≡ some kept
    → first_covering local_addr ip kept ≡ none
unfolding without first_covering covers
first_covering-without ip [] kept e = ground arith
first_covering-without ip (c ∷ cs) kept e = elim (Option-cases (without ip cs)) [
  | inl stuck ↦ ground arith
  | inr (k, q) ↦ ground (arith, first_covering-without ip cs k q)
]

-- After a `delete` that succeeds, `find` gives no connection for the deleted address, and a wildcard
-- address takes every connection off its port.
pub find-delete :
    (m : UdpConnMap) (a : Addr) → (delete m a).0 ≡ none → (find (delete m a).1 a).0 ≡ none
unfolding delete find store_kept
find-delete m a e = elim (Option-cases (lookup a.port m)) [
  | inl free ↦ ground arith
  | inr (conns, used) ↦ elim (Option-cases (without a.ip conns)) [
    | inl refused ↦ ground (arith, lookup-erase a.port a.port m)
    | inr ([], q) ↦ ground (arith, lookup-erase a.port a.port m)
    | inr ((d ∷ ds), q) ↦ ground (
      arith,
      lookup-erase a.port a.port m,
      lookup-insert a.port a.port (d ∷ ds) m,
      first_covering-without a.ip conns (d ∷ ds) q,
    )
  ]
]

without-wildcard :
    (ip : Ip) (cs : List UdpConn) (w : UdpConn)
    → first_covering local_addr ip cs ≡ some w
    → is_unspecified w.loc_addr.ip ≡ true
    → without ip cs ≡ none
unfolding without first_covering covers
without-wildcard ip [] w e h = cc
without-wildcard ip (c ∷ cs) w e h = ground (arith, without-wildcard ip cs w)

-- Where `find` gives a wildcard connection for a specified address, `delete` of that address
-- returns errCannotRemoveUnspecifiedIP and leaves the map as it is.
pub delete-wildcard :
    (m : UdpConnMap) (a : Addr) (w : UdpConn)
    → (find m a).0 ≡ some w
    → is_unspecified a.ip ≡ false
    → is_unspecified w.loc_addr.ip ≡ true
    → delete m a ≡ (some cannot_remove_unspecified_ip, m)
unfolding delete find
delete-wildcard m a w e specified wild = elim (Option-cases (lookup a.port m)) [
  | inl free ↦ ground arith
  | inr (conns, used) ↦ ground (arith, without-wildcard a.ip conns w)
]

-- A valid map has no empty list, so that `find` leaves it as it is.
pub find-same : (m : UdpConnMap) (a : Addr) → IsValid local_addr m → (find m a).1 ≡ m
unfolding find
find-same m a h = elim (Option-cases (lookup a.port m)) [
  | inl free ↦ ground arith
  | inr ([], used) ↦ absurd ((h _ [] used).nonempty refl)
  | inr ((d ∷ ds), used) ↦ ground arith
]
