-- ===== src/Vnet/Resolver/Laws.antt =====
-- vnet/resolver.go: `lookUp` comes to an end, and gives the entry of the nearest resolver.
use transport.Prelude.{
  ℕ, zero, suc, ◌==◌, ◌≤◌, ◌≡◌, ◌≢◌, refl, sym, ap, ◌∙◌, true, false, Option, none, some, List, [],
  ◌∷◌, String, str_eq, str_eq_iff, ◌⊎◌, inl, inr, length, arith, Bool-cases, Option-cases,
  inl-ne-inr, inr-inj,
}
use mathlib.Core.Bool.{true≢false}
use transport.Vnet.Addr.{Ip}
use transport.Vnet.Resolver.{
  Error, host_not_found, hostname_empty, failed_to_parse_ip_addr, Resolver, Resolvers, write_host,
  write_resolver, add_host, look_up,
}

-- The resolvers that `lookUp` asks from a pointer on: each is the parent of the one before, and the
-- last has none.
pub data Chain (store : Resolvers) : ℕ → List ℕ → Type 0 where
  top : (p : ℕ) → (store p).parent ≡ none → Chain store p (p ∷ [])
  below :
      (p q : ℕ) (qs : List ℕ)
      → (store p).parent ≡ some q
      → Chain store q qs
      → Chain store p (p ∷ qs)

-- The first entry for the name along the chain.
unfoldable pub nearest : Resolvers → List ℕ → String → Error ⊎ Ip
nearest store [] name = inl host_not_found
nearest store (p ∷ ps) name = elim ((store p).hosts name) [
  | some ip ↦ inr ip
  | none ↦ nearest store ps name
]

-- From a resolver whose ancestors end, a look-up with fuel for each of them returns, and gives the
-- entry of the nearest one that has the name, or reports that the host is not found, if none has.
pub look_up-nearest :
    (store : Resolvers) (p : ℕ) (ps : List ℕ) (fuel : ℕ) (name : String)
    → Chain store p ps
    → length ps ≤ fuel
    → look_up fuel store p name ≡ some (nearest store ps name)
unfolding look_up nearest
look_up-nearest store p ps zero name (top _ h) enough = absurd (omega arith)
look_up-nearest store p ps zero name (below _ q qs h c) enough = absurd (omega arith)
look_up-nearest store p ps (suc fuel) name (top _ h) enough =
    elim (Option-cases ((store p).hosts name)) [
      | inr (ip, known) ↦ rw (known, look_up, nearest) refl
      | inl unknown ↦ rw (unknown, look_up, nearest, h) refl
    ]
look_up-nearest store p ps (suc fuel) name (below _ q qs h c) enough =
    elim (Option-cases ((store p).hosts name)) [
      | inr (ip, known) ↦ rw (known, look_up, nearest) refl
      | inl unknown ↦
          rw (unknown, look_up, nearest, h) (look_up-nearest store q qs fuel name c (omega arith))
    ]

look_up-some :
    (store : Resolvers) (p fuel : ℕ) (name : String) (ip : Ip)
    → (store p).hosts name ≡ some ip
    → look_up (suc fuel) store p name ≡ some (inr ip)
unfolding look_up
look_up-some store p fuel name ip known = rw (known, look_up) refl

-- A name that `addHost` accepts is looked up at once, whatever the parents have, and other names
-- are looked up in this resolver as before; an empty name is refused.
pub add_host-look_up :
    (parse_ip : String → Option Ip) (store : Resolvers) (p fuel : ℕ) (name ip_addr : String)
    (r : Resolver)
    → add_host parse_ip (store p) name ip_addr ≡ inr r
    → (name ≢ "")
      × ((ip : Ip) × (parse_ip ip_addr ≡ some ip)
          × (look_up (suc fuel) (write_resolver store p r) p name ≡ some (inr ip)))
      × ((other : String) → name ≢ other → r.hosts other ≡ (store p).hosts other)
unfolding add_host
add_host-look_up parse_ip store p fuel name ip_addr r e = elim (Bool-cases (str_eq name "")) [
  | inl empty ↦ absurd (inl-ne-inr {a = hostname_empty} {b = r} (rw empty at e))
  | inr named ↦ elim (Option-cases (parse_ip ip_addr)) [
    | inl bad ↦ absurd (inl-ne-inr {a = failed_to_parse_ip_addr} {b = r} (rw (named, bad) at e))
    | inr (ip, parsed) ↦
        let stored : record (store p) { hosts = write_host (store p).hosts name ip } ≡ r =
          inr-inj (rw (named, parsed) at e) in
        (
          λ same. true≢false (sym ((str_eq_iff name "").1 same) ∙ named),
          (
            ip,
            parsed,
            look_up-some (write_resolver store p r) p fuel name ip (rw (here p) (found stored)),
          ),
          λ other ne. ap (λ q. q.hosts other) (sym stored) ∙ rw (differs other ne) refl,
        )
  ]
]
  where
    here : (q : ℕ) → (q == q) ≡ true
    here q = ground arith

    found :
        {ip : Ip}
        → record (store p) { hosts = write_host (store p).hosts name ip } ≡ r
        → r.hosts name ≡ some ip
    found stored = ap (λ q. q.hosts name) (sym stored) ∙ rw ((str_eq_iff name name).1 refl) refl

    differs : (other : String) → name ≢ other → str_eq name other ≡ false
    differs other ne = elim (Bool-cases (str_eq name other)) [
      | inl same ↦ absurd (ne ((str_eq_iff name other).0 same))
      | inr apart ↦ apart
    ]
