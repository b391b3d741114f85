-- ===== src/Vnet/TcpConnMap/Laws.antt =====
-- The invariant of tcpConnMap, and what its methods keep of it.
use transport.Prelude.{
  ℕ, ◌≡◌, ◌≢◌, refl, false, some, List, [], ◌∷◌, ◌++◌, arith, Bool-cases, Option-cases, some-inj,
  none-ne-some, inl, inr, ◌==◌, length,
}
use mathlib.Core.Path.{subst₂}
use transport.Vnet.Addr.{Addr}
use transport.Vnet.PortMap.{lookup, insert as put, erase, lookup-insert, lookup-erase}
use transport.Vnet.TcpConnMap.{
  TcpConn, TcpConnMap, slice_at, clashes, tuple_taken, insert, store_kept, without_conn,
  delete_conn, has_tuple, without_tuple, delete_by_addr,
}

abbrev pub ApartFrom : TcpConn → List TcpConn → Type 0
ApartFrom c [] = Unit
ApartFrom c (d ∷ ds) = (clashes c d ≡ false) × ApartFrom c ds

abbrev pub AllApart : List TcpConn → Type 0
AllApart [] = Unit
AllApart (c ∷ cs) = ApartFrom c cs × AllApart cs

abbrev pub OnPort : ℕ → List TcpConn → Type 0
OnPort p [] = Unit
OnPort p (c ∷ cs) = (c.loc_addr.port ≡ p) × OnPort p cs

-- What the list kept under a port is like: no two of its connections have the same remote address
-- and local addresses that overlap.
pub record IsPortList (p : ℕ) (cs : List TcpConn) : Type 0 where
  pub nonempty : cs ≢ []
  pub on_port : OnPort p cs
  pub apart : AllApart cs

abbrev pub IsValid : TcpConnMap → Type 0
IsValid m = (p : ℕ) (cs : List TcpConn) → lookup p m ≡ some cs → IsPortList p cs

put-IsValid :
    (k : ℕ) (v : List TcpConn) (m : TcpConnMap) → IsPortList k v → IsValid m → IsValid (put k v m)
put-IsValid k v m hv h p cs e = elim (Bool-cases (k == p)) [
  | inl same ↦
      let found : some v ≡ some cs = rw (lookup-insert k p v m, same) at e in
      let here : k ≡ p = ground arith in subst₂ IsPortList here (some-inj found) hv
  | inr other ↦ h p cs (rw (lookup-insert k p v m, other) at e)
]

erase-IsValid : (k : ℕ) (m : TcpConnMap) → IsValid m → IsValid (erase k m)
erase-IsValid k m h p cs e = elim (Bool-cases (k == p)) [
  | inl same ↦ absurd (none-ne-some (rw (lookup-erase k p m, same) at e))
  | inr other ↦ h p cs (rw (lookup-erase k p m, other) at e)
]

append-ne-nil : (cs : List TcpConn) (c : TcpConn) → cs ++ (c ∷ []) ≢ []
append-ne-nil [] c = λ e. cc
append-ne-nil (d ∷ cs) c = λ e. cc

OnPort-append :
    (p : ℕ) (cs : List TcpConn) (c : TcpConn)
    → OnPort p cs
    → c.loc_addr.port ≡ p
    → OnPort p (cs ++ (c ∷ []))
OnPort-append p [] c h e = (e, tt)
OnPort-append p (d ∷ cs) c h e = (h.0, OnPort-append p cs c h.1 e)

ApartFrom-append :
    (d c : TcpConn) (cs : List TcpConn)
    → ApartFrom d cs
    → clashes d c ≡ false
    → ApartFrom d (cs ++ (c ∷ []))
ApartFrom-append d c [] h e = (e, tt)
ApartFrom-append d c (x ∷ cs) h e = (h.0, ApartFrom-append d c cs h.1 e)

AllApart-append :
    (c : TcpConn) (cs : List TcpConn)
    → AllApart cs
    → tuple_taken c cs ≡ false
    → AllApart (cs ++ (c ∷ []))
unfolding tuple_taken
AllApart-append c [] h e = (tt, tt)
AllApart-append c (d ∷ cs) h e =
    (ApartFrom-append d c cs h.0 (ground arith), AllApart-append c cs h.1 (ground arith))

slice_at-OnPort : (m : TcpConnMap) (p : ℕ) → IsValid m → OnPort p (slice_at p m)
unfolding slice_at
slice_at-OnPort m p h = elim (Option-cases (lookup p m)) [
  | inl free ↦ rw (free, slice_at) tt
  | inr (cs, used) ↦ rw (used, slice_at) (h p cs used).on_port
]

slice_at-AllApart : (m : TcpConnMap) (p : ℕ) → IsValid m → AllApart (slice_at p m)
unfolding slice_at
slice_at-AllApart m p h = elim (Option-cases (lookup p m)) [
  | inl free ↦ rw (free, slice_at) tt
  | inr (cs, used) ↦ rw (used, slice_at) (h p cs used).apart
]

insert-IsValid : (m : TcpConnMap) (c : TcpConn) → IsValid m → IsValid (insert m c).1
unfolding insert
insert-IsValid m c h = elim (Bool-cases (tuple_taken c (slice_at c.loc_addr.port m))) [
  | inl clash ↦ rw (clash, insert) h
  | inr apart ↦
      rw (apart, insert)
        (put-IsValid _ _ m
          (record {
            nonempty = append-ne-nil (slice_at c.loc_addr.port m) c;
            on_port =
                OnPort-append _ (slice_at c.loc_addr.port m) c (slice_at-OnPort m c.loc_addr.port h)
                  refl;
            apart =
                AllApart-append c (slice_at c.loc_addr.port m)
                  (slice_at-AllApart m c.loc_addr.port h) apart;
          })
          h)
]

store_kept-IsValid :
    (p : ℕ) (m : TcpConnMap) (conns kept : List TcpConn)
    → OnPort p kept
    → AllApart kept
    → IsValid m
    → IsValid (store_kept p m conns kept).1
unfolding store_kept
store_kept-IsValid p m conns [] on apart h = elim (Bool-cases (length conns == 0)) [
  | inl none_removed ↦ rw none_removed h
  | inr removed ↦ rw removed (erase-IsValid p m h)
]
store_kept-IsValid p m conns (c ∷ cs) on apart h =
    elim (Bool-cases (length (c ∷ cs) == length conns)) [
      | inl none_removed ↦ rw none_removed h
      | inr removed ↦
          rw removed (
            put-IsValid p (c ∷ cs) m (record { nonempty = λ e. cc; on_port = on; apart = apart }) h)
    ]

OnPort-without_conn :
    (c : TcpConn) (p : ℕ) (ds : List TcpConn) → OnPort p ds → OnPort p (without_conn c ds)
unfolding without_conn
OnPort-without_conn c p [] h = tt
OnPort-without_conn c p (d ∷ ds) h = elim (Bool-cases (d.id == c.id)) [
  | inl gone ↦ rw gone (OnPort-without_conn c p ds h.1)
  | inr stays ↦ rw stays (h.0, OnPort-without_conn c p ds h.1)
]

ApartFrom-without_conn :
    (c x : TcpConn) (ds : List TcpConn) → ApartFrom x ds → ApartFrom x (without_conn c ds)
unfolding without_conn
ApartFrom-without_conn c x [] h = tt
ApartFrom-without_conn c x (d ∷ ds) h = elim (Bool-cases (d.id == c.id)) [
  | inl gone ↦ rw gone (ApartFrom-without_conn c x ds h.1)
  | inr stays ↦ rw stays (h.0, ApartFrom-without_conn c x ds h.1)
]

AllApart-without_conn :
    (c : TcpConn) (ds : List TcpConn) → AllApart ds → AllApart (without_conn c ds)
unfolding without_conn
AllApart-without_conn c [] h = tt
AllApart-without_conn c (d ∷ ds) h = elim (Bool-cases (d.id == c.id)) [
  | inl gone ↦ rw gone (AllApart-without_conn c ds h.1)
  | inr stays ↦ rw stays (ApartFrom-without_conn c d ds h.0, AllApart-without_conn c ds h.1)
]

OnPort-without_tuple :
    (l r : Addr) (p : ℕ) (ds : List TcpConn) → OnPort p ds → OnPort p (without_tuple l r ds)
unfolding without_tuple
OnPort-without_tuple l r p [] h = tt
OnPort-without_tuple l r p (d ∷ ds) h = elim (Bool-cases (has_tuple d l r)) [
  | inl gone ↦ rw gone (OnPort-without_tuple l r p ds h.1)
  | inr stays ↦ rw stays (h.0, OnPort-without_tuple l r p ds h.1)
]

ApartFrom-without_tuple :
    (l r : Addr) (x : TcpConn) (ds : List TcpConn)
    → ApartFrom x ds
    → ApartFrom x (without_tuple l r ds)
unfolding without_tuple
ApartFrom-without_tuple l r x [] h = tt
ApartFrom-without_tuple l r x (d ∷ ds) h = elim (Bool-cases (has_tuple d l r)) [
  | inl gone ↦ rw gone (ApartFrom-without_tuple l r x ds h.1)
  | inr stays ↦ rw stays (h.0, ApartFrom-without_tuple l r x ds h.1)
]

AllApart-without_tuple :
    (l r : Addr) (ds : List TcpConn) → AllApart ds → AllApart (without_tuple l r ds)
unfolding without_tuple
AllApart-without_tuple l r [] h = tt
AllApart-without_tuple l r (d ∷ ds) h = elim (Bool-cases (has_tuple d l r)) [
  | inl gone ↦ rw gone (AllApart-without_tuple l r ds h.1)
  | inr stays ↦ rw stays (ApartFrom-without_tuple l r d ds h.0, AllApart-without_tuple l r ds h.1)
]

delete_conn-IsValid : (m : TcpConnMap) (c : TcpConn) → IsValid m → IsValid (delete_conn m c).1
unfolding delete_conn
delete_conn-IsValid m c h = elim (Option-cases (lookup c.loc_addr.port m)) [
  | inl free ↦ rw (free, delete_conn) h
  | inr (cs, used) ↦
      rw (used, delete_conn)
        (store_kept-IsValid _ m cs _ (OnPort-without_conn c _ cs (h _ cs used).on_port)
          (AllApart-without_conn c cs (h _ cs used).apart) h)
]

delete_by_addr-IsValid :
    (m : TcpConnMap) (l r : Addr) → IsValid m → IsValid (delete_by_addr m l r).1
unfolding delete_by_addr
delete_by_addr-IsValid m l r h = elim (Option-cases (lookup l.port m)) [
  | inl free ↦ rw (free, delete_by_addr) h
  | inr (cs, used) ↦
      rw (used, delete_by_addr)
        (store_kept-IsValid _ m cs _ (OnPort-without_tuple l r _ cs (h _ cs used).on_port)
          (AllApart-without_tuple l r cs (h _ cs used).apart) h)
]

-- The three methods that change the map keep the invariant, whatever they return: the list of a
-- port is never empty, its connections are on that port, and no two of them have the same remote
-- address and local addresses that overlap.
pub TcpConnMap-IsValid :
    (m : TcpConnMap) (c gone : TcpConn) (l r : Addr)
    → IsValid m
    → IsValid (insert m c).1 × IsValid (delete_conn m gone).1 × IsValid (delete_by_addr m l r).1
TcpConnMap-IsValid m c gone l r h =
    (insert-IsValid m c h, delete_conn-IsValid m gone h, delete_by_addr-IsValid m l r h)
