-- ===== src/Vnet/Sockets/Conns.antt =====
-- vnet/conn_map.go, as a host uses it: what holds of all connections, and of one that is found.
use transport.Prelude.{
  ℕ, ◌==◌, ◌≡◌, some, List, [], ◌∷◌, ◌++◌, inl, inr, arith, Bool-cases, Option-cases, some-inj,
  none-ne-some,
}
use mathlib.Core.Path.{subst}
use transport.Vnet.Addr.{Ip, Addr, is_unspecified}
use transport.Vnet.PortMap.{lookup, insert as put, erase, lookup-insert, lookup-erase-some}
use transport.Vnet.PortList.{covers, first_covering, taken}
use transport.Vnet.UdpConnMap.{UdpConn, UdpConnMap, local_addr, insert, find}

abbrev pub All : (UdpConn → Type 0) → List UdpConn → Type 0
All P [] = Unit
All P (c ∷ cs) = P c × All P cs

-- The predicate holds of every connection of the map.
abbrev pub AllConns : (UdpConn → Type 0) → UdpConnMap → Type 0
AllConns P m = (port : ℕ) (cs : List UdpConn) → lookup port m ≡ some cs → All P cs

module _ (P : UdpConn → Type 0) where
  All-append : (cs : List UdpConn) (c : UdpConn) → All P cs → P c → All P (cs ++ (c ∷ []))
  All-append [] c h p = (p, tt)
  All-append (d ∷ ds) c h p = (h.0, All-append ds c h.1 p)

  AllConns-put :
      (port : ℕ) (cs : List UdpConn) (m : UdpConnMap)
      → All P cs
      → AllConns P m
      → AllConns P (put port cs m)
  AllConns-put port cs m new h other ds e = elim (Bool-cases (port == other)) [
    | inl same ↦ subst (All P) (some-inj (ground (arith, lookup-insert port other cs m))) new
    | inr apart ↦ h other ds (ground (arith, lookup-insert port other cs m))
  ]

  AllConns-erase : (port : ℕ) (m : UdpConnMap) → AllConns P m → AllConns P (erase port m)
  AllConns-erase port m h other ds e = h other ds (lookup-erase-some port other m e)

  pub AllConns-insert :
      (m : UdpConnMap) (c : UdpConn) → P c → AllConns P m → AllConns P (insert m c).1
  unfolding insert
  AllConns-insert m c p h = elim (Option-cases (lookup c.loc_addr.port m)) [
    | inl free ↦ rw (free, insert) (AllConns-put c.loc_addr.port (c ∷ []) m (p, tt) h)
    | inr (cs, used) ↦
        rw (used, insert)
          (elim (Bool-cases (is_unspecified c.loc_addr.ip)) [
            | inl wild ↦ rw wild h
            | inr specified ↦ rw specified (elim (Bool-cases (taken local_addr c.loc_addr.ip cs)) [
              | inl clash ↦ rw clash h
              | inr apart ↦ rw apart (
                  AllConns-put c.loc_addr.port (cs ++ (c ∷ [])) m (All-append cs c (h _ cs used) p)
                    h)
            ])
          ])
  ]

  All-first :
      (ip : Ip) (cs : List UdpConn) (c : UdpConn)
      → All P cs
      → first_covering local_addr ip cs ≡ some c
      → P c
  unfolding first_covering
  All-first ip [] c h e = absurd (none-ne-some e)
  All-first ip (d ∷ ds) c h e = elim (Bool-cases (covers local_addr d ip)) [
    | inl here ↦ subst P (some-inj (ground arith)) h.0
    | inr not_here ↦ All-first ip ds c h.1 (ground arith)
  ]

  pub find-All :
      (m : UdpConnMap) (a : Addr) (c : UdpConn) → AllConns P m → (find m a).0 ≡ some c → P c
  unfolding find first_covering
  find-All m a c h e = elim (Option-cases (lookup a.port m)) [
    | inl free ↦ absurd (none-ne-some {a = c} (ground arith))
    | inr ([], used) ↦ absurd (none-ne-some {a = c} (ground arith))
    | inr ((d ∷ ds), used) ↦ elim (Bool-cases (is_unspecified a.ip)) [
      | inl wild ↦ subst P (some-inj (ground arith)) (h _ _ used).0
      | inr specified ↦ All-first a.ip (d ∷ ds) c (h _ _ used) (ground arith)
    ]
  ]
