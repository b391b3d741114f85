-- ===== src/Vnet/Sockets/Deleted.antt =====
-- vnet/conn_map.go: what a host's `delete` leaves of its connections.
use transport.Prelude.{
  ℕ, ◌==◌, ◌≡◌, ◌≢◌, refl, sym, ap, ◌∙◌, false, none, some, List, [], ◌∷◌, inl, inr, arith,
  Bool-cases, Option-cases, some-inj, none-ne-some,
}
use mathlib.Core.Path.{subst}
use mathlib.Core.Bool.{true≢false}
use transport.Vnet.Addr.{Ip, Addr, is_unspecified, ip_eq, ip_eq_refl}
use transport.Vnet.PortMap.{lookup, erase, lookup-insert, lookup-erase-some, lookup-erase_ne}
use transport.Vnet.PortList.{first_covering, ApartFrom, AllApart, OnPort, IsValid}
use transport.Vnet.UdpConnMap.{UdpConn, UdpConnMap, local_addr, find, without, store_kept, delete}
use transport.Vnet.Sockets.Conns.{All, AllConns}

-- A list without wildcards loses the address alone.
without-specified :
    (ip : Ip) (d : UdpConn) (cs : List UdpConn)
    → ApartFrom local_addr d cs
    → (kept : List UdpConn) × (without ip cs ≡ some kept)
unfolding without
without-specified ip d [] h = ([], refl)
without-specified ip d (c ∷ cs) h =
    let (kept, e) = without-specified ip d cs h.1 in
    elim (Bool-cases (ip_eq c.loc_addr.ip ip)) [
      | inl same ↦ (kept, ground arith)
      | inr other ↦ (c ∷ kept, ground arith)
    ]

without-apart :
    (ip : Ip) (d d' : UdpConn) (ds : List UdpConn)
    → AllApart local_addr (d ∷ d' ∷ ds)
    → (kept : List UdpConn) × (without ip (d ∷ d' ∷ ds) ≡ some kept)
unfolding without
without-apart ip d d' ds h =
    let (kept, e) = without-specified ip d (d' ∷ ds) h.0 in
    elim (Bool-cases (ip_eq d.loc_addr.ip ip)) [
      | inl same ↦ (kept, rw (h.0.0.left, without, e, same) refl)
      | inr other ↦ (d ∷ kept, rw (h.0.0.left, without, e, other) refl)
    ]

-- So `delete` succeeds for the address of a connection that `find` gives for it.
pub delete-found :
    (m : UdpConnMap) (c : UdpConn)
    → IsValid local_addr m
    → (find m c.loc_addr).0 ≡ some c
    → (delete m c.loc_addr).0 ≡ none
unfolding find delete
delete-found m c h e = elim (Option-cases (lookup c.loc_addr.port m)) [
  | inl free ↦ ground arith
  | inr ([], used) ↦ absurd ((h _ [] used).nonempty refl)
  | inr ((d ∷ []), used) ↦ unfold without first_covering in ground arith
  | inr ((d ∷ d' ∷ ds), used) ↦
      let (kept, stays) = without-apart c.loc_addr.ip d d' ds (h _ _ used).apart in ground arith
]

module _ (P : UdpConn → Type 0) (a : Addr) where
  -- Of a connection that stays: it is as before, and not at the address.
  abbrev pub Stays : UdpConn → Type 0
  Stays c = P c × (c.loc_addr ≢ a)

  All-other :
      (q : ℕ) (cs : List UdpConn) → q ≢ a.port → OnPort local_addr q cs → All P cs → All Stays cs
  All-other q [] ne on h = tt
  All-other q (c ∷ cs) ne on h =
      ((h.0, λ same. ne (sym on.0 ∙ ap (λ b. b.port) same)), All-other q cs ne on.1 h.1)

  All-without : (cs kept : List UdpConn) → without a.ip cs ≡ some kept → All P cs → All Stays kept
  All-without [] kept e h =
      subst (All Stays) {x = []} {y = kept} (some-inj (unfold without in e)) tt
  All-without (c ∷ cs) kept e h = elim (Option-cases (without a.ip cs)) [
    | inl stuck ↦ absurd (none-ne-some {a = kept} (unfold without in ground arith))
    | inr (k, q) ↦ elim (Bool-cases (ip_eq c.loc_addr.ip a.ip)) [
      | inl same ↦ All-without cs kept (unfold without in ground arith) h.1
      | inr other ↦
          subst (All Stays) {x = c ∷ k} {y = kept} (some-inj (unfold without in ground arith)) (
            (
              h.0,
              λ eq. true≢false (sym (ip_eq_refl a.ip) ∙ ap (λ b. ip_eq b.ip a.ip) (sym eq) ∙ other),
            ),
            All-without cs k q h.1,
          )
    ]
  ]

  -- A refusal: the wildcard is alone in its list.
  All-refused :
      (cs : List UdpConn)
      → is_unspecified a.ip ≡ false
      → without a.ip cs ≡ none
      → AllApart local_addr cs
      → All P cs
      → All Stays cs
  All-refused [] specified e apart h = tt
  All-refused (d ∷ []) specified e apart h = (
    (
      h.0,
      λ eq. none-ne-some {a = []} (
          sym e
          ∙ unfold without in
            ground (
              arith,
              ap (λ b. is_unspecified b.ip) eq,
              ap (λ b. ip_eq b.ip a.ip) eq,
              ip_eq_refl a.ip,
            )),
    ),
    tt,
  )
  All-refused (d ∷ d' ∷ ds) specified e apart h =
      absurd (none-ne-some (sym e ∙ (without-apart a.ip d d' ds apart).1))

  AllConns-other :
      (m : UdpConnMap)
      → IsValid local_addr m
      → AllConns P m
      → (q : ℕ) (cs : List UdpConn) → q ≢ a.port
      → lookup q m ≡ some cs
      → All Stays cs
  AllConns-other m valid h q cs ne e = All-other q cs ne (valid q cs e).on_port (h q cs e)

  AllConns-erased :
      (m : UdpConnMap) → IsValid local_addr m → AllConns P m → AllConns Stays (erase a.port m)
  AllConns-erased m valid h q cs e =
      AllConns-other m valid h q cs (λ same. lookup-erase_ne a.port q m e (sym same))
        (lookup-erase-some a.port q m e)

  AllConns-kept :
      (m : UdpConnMap) (kept : List UdpConn)
      → IsValid local_addr m
      → AllConns P m
      → All Stays kept
      → AllConns Stays (store_kept a.port m kept)
  unfolding store_kept
  AllConns-kept m [] valid h new q ds e = AllConns-erased m valid h q ds e
  AllConns-kept m (c ∷ cs) valid h new q ds e = elim (Bool-cases (a.port == q)) [
    | inl same ↦
        subst (All Stays) {x = c ∷ cs} {y = ds}
          (some-inj (ground (arith, lookup-insert a.port q (c ∷ cs) m))) new
    | inr apart ↦
        AllConns-other m valid h q ds (ground arith)
          (ground (arith, lookup-insert a.port q (c ∷ cs) m))
  ]

  AllConns-unchanged :
      (m : UdpConnMap)
      → IsValid local_addr m
      → AllConns P m
      → ((cs : List UdpConn) → lookup a.port m ≡ some cs → All Stays cs)
      → AllConns Stays m
  AllConns-unchanged m valid h here q cs e = elim (Bool-cases (a.port == q)) [
    | inl same ↦ here cs (ap (λ p. lookup p m) {x = a.port} {y = q} (ground arith) ∙ e)
    | inr apart ↦ AllConns-other m valid h q cs (ground arith) e
  ]

  -- No connection of the address is left, whatever the method returns.
  pub delete-Stays :
      (m : UdpConnMap) → IsValid local_addr m → AllConns P m → AllConns Stays (delete m a).1
  unfolding delete
  delete-Stays m valid h = elim (Option-cases (lookup a.port m)) [
    | inl free ↦
        rw (free, delete)
          (AllConns-unchanged m valid h (λ cs e. absurd (none-ne-some (sym free ∙ e))))
    | inr (conns, used) ↦
        rw (used, delete)
          (elim (Bool-cases (is_unspecified a.ip)) [
            | inl wild ↦ rw wild (AllConns-erased m valid h)
            | inr specified ↦ rw specified (elim (Option-cases (without a.ip conns)) [
              | inl refused ↦ rw refused (
                  AllConns-unchanged m valid h (λ cs e.
                    subst (All Stays) (some-inj (sym used ∙ e))
                      (All-refused conns specified refused (valid _ _ used).apart (h _ _ used))))
              | inr (kept, e) ↦
                  rw e (AllConns-kept m kept valid h (All-without conns kept e (h _ _ used)))
            ])
          ])
  ]
