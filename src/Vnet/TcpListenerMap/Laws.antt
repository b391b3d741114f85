-- ===== src/Vnet/TcpListenerMap/Laws.antt =====
-- The invariant of tcpListenerMap, and what its methods keep of it.
use transport.Prelude.{
  ◌≡◌, ◌≢◌, refl, ◌↔◌, true, false, none, some, List, [], ◌∷◌, ◌++◌, arith, ℕ, Bool-cases,
  Option-cases, inl, inr,
}
use transport.Vnet.Addr.{Ip, Addr, ip_eq, is_unspecified, ip_eq_refl}
use transport.Vnet.PortList.{covers, taken, first_covering, ApartFrom, AllApart, OnPort, IsValid}
use transport.Vnet.PortList.Laws.{
  append-ne-nil, OnPort-append, AllApart-append, put-IsValid, erase-IsValid, first_covering-taken,
  first_covering-append,
}
use transport.Vnet.PortMap.{lookup, lookup-insert, lookup-erase}
use transport.Vnet.TcpListenerMap.{
  TcpListener, TcpListenerMap, listen_addr, insert, find, without, store_kept, delete,
}

ApartFrom-without :
    (ip : Ip) (d : TcpListener) (ls : List TcpListener)
    → ApartFrom listen_addr d ls
    → ApartFrom listen_addr d (without ip ls).0
unfolding without
ApartFrom-without ip d [] h = tt
ApartFrom-without ip d (l ∷ ls) h = elim (Bool-cases (ip_eq l.loc_addr.ip ip)) [
  | inl gone ↦ rw gone (ApartFrom-without ip d ls h.1)
  | inr stays ↦ rw stays (h.0, ApartFrom-without ip d ls h.1)
]

OnPort-without :
    (ip : Ip) (p : ℕ) (ls : List TcpListener)
    → OnPort listen_addr p ls
    → OnPort listen_addr p (without ip ls).0
unfolding without
OnPort-without ip p [] h = tt
OnPort-without ip p (l ∷ ls) h = elim (Bool-cases (ip_eq l.loc_addr.ip ip)) [
  | inl gone ↦ rw gone (OnPort-without ip p ls h.1)
  | inr stays ↦ rw stays (h.0, OnPort-without ip p ls h.1)
]

AllApart-without :
    (ip : Ip) (ls : List TcpListener)
    → AllApart listen_addr ls
    → AllApart listen_addr (without ip ls).0
unfolding without
AllApart-without ip [] h = tt
AllApart-without ip (l ∷ ls) h = elim (Bool-cases (ip_eq l.loc_addr.ip ip)) [
  | inl gone ↦ rw gone (AllApart-without ip ls h.1)
  | inr stays ↦ rw stays (ApartFrom-without ip l ls h.0, AllApart-without ip ls h.1)
]

store_kept-IsValid :
    (p : ℕ) (m : TcpListenerMap) (kept : List TcpListener)
    → OnPort listen_addr p kept
    → AllApart listen_addr kept
    → IsValid listen_addr m
    → IsValid listen_addr (store_kept p m kept)
unfolding store_kept
store_kept-IsValid p m [] on apart h = erase-IsValid listen_addr p m h
store_kept-IsValid p m (l ∷ ls) on apart h =
    put-IsValid listen_addr p (l ∷ ls) m
      (record { nonempty = λ e. cc; on_port = on; apart = apart }) h

insert-IsValid :
    (m : TcpListenerMap) (l : TcpListener)
    → IsValid listen_addr m
    → IsValid listen_addr (insert m l).1
unfolding insert
insert-IsValid m l h = elim (Option-cases (lookup l.loc_addr.port m)) [
  | inl free ↦
      rw (free, insert)
        (put-IsValid listen_addr _ _ m
          (record { nonempty = λ e. cc; on_port = (refl, tt); apart = (tt, tt) }) h)
  | inr (ls, used) ↦
      rw (used, insert)
        (elim (Bool-cases (is_unspecified l.loc_addr.ip)) [
          | inl wild ↦ rw wild h
          | inr specified ↦ rw specified (elim (Bool-cases (taken listen_addr l.loc_addr.ip ls)) [
            | inl clash ↦ rw clash h
            | inr apart ↦ rw apart (
                put-IsValid listen_addr _ _ m
                  (record {
                    nonempty = append-ne-nil listen_addr ls l;
                    on_port = OnPort-append listen_addr _ ls l (h _ ls used).on_port refl;
                    apart = AllApart-append listen_addr l specified ls (h _ ls used).apart apart;
                  })
                  h)
          ])
        ])
]

delete-IsValid :
    (m : TcpListenerMap) (a : Addr) → IsValid listen_addr m → IsValid listen_addr (delete m a).1
unfolding delete
delete-IsValid m a h = elim (Option-cases (lookup a.port m)) [
  | inl free ↦ rw (free, delete) h
  | inr (ls, used) ↦
      rw (used, delete)
        (elim (Bool-cases (is_unspecified a.ip)) [
          | inl wild ↦ rw wild (erase-IsValid listen_addr _ m h)
          | inr specified ↦ rw specified (elim (Bool-cases (without a.ip ls).1) [
            | inl removed ↦ rw removed (
                store_kept-IsValid a.port m (without a.ip ls).0
                  (OnPort-without a.ip _ ls (h _ ls used).on_port)
                  (AllApart-without a.ip ls (h _ ls used).apart) h)
            | inr missing ↦ rw missing h
          ])
        ])
]

-- Both methods that change the map keep the invariant, whatever they return: the list of a port is
-- never empty, its listeners are on that port, and two of them have different addresses, neither of
-- them a wildcard.
pub TcpListenerMap-IsValid :
    (m : TcpListenerMap) (l : TcpListener) (a : Addr)
    → IsValid listen_addr m
    → IsValid listen_addr (insert m l).1 × IsValid listen_addr (delete m a).1
TcpListenerMap-IsValid m l a h = (insert-IsValid m l h, delete-IsValid m a h)

-- On a valid map a new listener is accepted exactly if `find` gives no listener for its address.
pub insert-find_listener :
    (m : TcpListenerMap) (l : TcpListener)
    → IsValid listen_addr m
    → ((insert m l).0 ≡ none) ↔ (find m l.loc_addr ≡ none)
unfolding insert find
insert-find_listener m l h = elim (Option-cases (lookup l.loc_addr.port m)) [
  | inl free ↦ ground arith
  | inr ([], used) ↦ absurd ((h _ [] used).nonempty refl)
  | inr ((d ∷ ds), used) ↦ ground (arith, first_covering-taken listen_addr l.loc_addr.ip (d ∷ ds))
]

insert-other :
    (m : TcpListenerMap) (l : TcpListener) (p : ℕ)
    → l.loc_addr.port ≢ p
    → lookup p (insert m l).1 ≡ lookup p m
unfolding insert
insert-other m l p ne = elim (Option-cases (lookup l.loc_addr.port m)) [
  | inl free ↦ ground (arith, lookup-insert l.loc_addr.port p (l ∷ []) m)
  | inr (ls, used) ↦ ground (arith, lookup-insert l.loc_addr.port p (ls ++ (l ∷ [])) m)
]

find-insert_self :
    (m : TcpListenerMap) (l : TcpListener)
    → (insert m l).0 ≡ none
    → find (insert m l).1 l.loc_addr ≡ some l
unfolding insert find first_covering covers
find-insert_self m l e = elim (Option-cases (lookup l.loc_addr.port m)) [
  | inl free ↦
      ground
        (arith, lookup-insert l.loc_addr.port l.loc_addr.port (l ∷ []) m, ip_eq_refl l.loc_addr.ip)
  | inr (ls, used) ↦ ground (
    arith,
    lookup-insert l.loc_addr.port l.loc_addr.port (ls ++ (l ∷ [])) m,
    first_covering-append listen_addr l ls,
  )
]

-- A listener that `insert` accepts is what `find` returns for its address, and no other port's
-- listeners change.
pub find-insert_listener :
    (m : TcpListenerMap) (l : TcpListener)
    → (insert m l).0 ≡ none
    → (find (insert m l).1 l.loc_addr ≡ some l)
      × ((p : ℕ) → l.loc_addr.port ≢ p → lookup p (insert m l).1 ≡ lookup p m)
find-insert_listener m l e = (find-insert_self m l e, insert-other m l)

first_covering-without_apart :
    (ip : Ip) (l : TcpListener) (ls : List TcpListener)
    → ApartFrom listen_addr l ls
    → ip_eq l.loc_addr.ip ip ≡ true
    → first_covering listen_addr ip (without ip ls).0 ≡ none
unfolding without first_covering covers
first_covering-without_apart ip l [] h e = refl
first_covering-without_apart ip l (d ∷ ds) h e =
    ground (arith, first_covering-without_apart ip l ds h.1 e)

specified_of_removed :
    (ip : Ip) (l : TcpListener) (ls : List TcpListener)
    → ApartFrom listen_addr l ls
    → (without ip ls).1 ≡ true
    → is_unspecified l.loc_addr.ip ≡ false
unfolding without
specified_of_removed ip l [] h e = cc
specified_of_removed ip l (d ∷ ds) h e = h.0.left

first_covering-without :
    (ip : Ip) (ls : List TcpListener)
    → AllApart listen_addr ls
    → (without ip ls).1 ≡ true
    → first_covering listen_addr ip (without ip ls).0 ≡ none
unfolding without first_covering covers
first_covering-without ip [] h e = cc
first_covering-without ip (l ∷ ls) h e = elim (Bool-cases (ip_eq l.loc_addr.ip ip)) [
  | inl gone ↦ ground (arith, first_covering-without_apart ip l ls h.0 gone)
  | inr stays ↦ ground (arith, first_covering-without ip ls h.1, specified_of_removed ip l ls h.0)
]

-- After a `delete` that succeeds on a valid map, `find` gives no listener for the deleted address.
pub find-delete_listener :
    (m : TcpListenerMap) (a : Addr)
    → IsValid listen_addr m
    → (delete m a).0 ≡ none
    → find (delete m a).1 a ≡ none
unfolding delete find store_kept
find-delete_listener m a h e = elim (Option-cases (lookup a.port m)) [
  | inl free ↦ ground arith
  | inr (ls, used) ↦ after ls used (without a.ip ls).0 refl
]
  where
    after :
        (ls : List TcpListener)
        → lookup a.port m ≡ some ls
        → (kept : List TcpListener) → (without a.ip ls).0 ≡ kept
        → find (delete m a).1 a ≡ none
    after ls used [] q = ground (arith, lookup-erase a.port a.port m)
    after ls used (d ∷ ds) q = ground (
      arith,
      lookup-erase a.port a.port m,
      lookup-insert a.port a.port (d ∷ ds) m,
      first_covering-without a.ip ls (h _ ls used).apart,
    )
