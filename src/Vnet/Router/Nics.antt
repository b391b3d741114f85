-- ===== src/Vnet/Router/Nics.antt =====
-- vnet/router.go: which NIC a router has for an address, after a host was added.
use transport.Prelude.{
  ℕ, ◌==◌, ◌≡◌, refl, sym, ap, ◌∙◌, Bool, true, false, ◌||◌, if◌then◌else◌, Option, none, some,
  List, [], ◌∷◌, inl, inr, ◌⊎◌, arith, Bool-cases, none-ne-some,
}
use mathlib.Core.Bool.{true≢false}
use mathlib.Core.Path.{subst}
use transport.Interface.{Interface, ip_net}
use transport.Vnet.Addr.{Ip, ip_eq, ip_eq_iff}
use transport.Vnet.NetState.{Error as NetError}
use transport.Vnet.Net.{get_interface, set_router}
use transport.Vnet.RouterState.{
  Error, net_error, static_ip_is_beyond_subnet, contains, Nic, host_nic, Router, Network,
  write_router, write_nic, nic_interfaces, nic_static_ips, nic_add_address,
}
use transport.Vnet.Router.{add_ips, nic_ips, join, nic_set_router, add_given, add_nic}

abbrev pub listed : Ip → List Ip → Bool
listed j [] = false
listed j (ip ∷ ips) = ip_eq ip j || listed j ips

-- What the router has for an address, and that it is in the subnet.
pub record HasNic (before after : Router) (nic : Nic) (ips : List Ip) (j : Ip) : Type 0 where
  pub there : after.nics j ≡ (if listed j ips then some nic else before.nics j)
  pub inside : listed j ips ≡ true → contains before.ipv4_net j ≡ true

add_ips-HasNic :
    (w : Network) (p v : ℕ) (ips : List Ip) (j : Ip)
    → (add_ips w p (host_nic v) ips).1 ≡ none
    → HasNic (w.routers p) ((add_ips w p (host_nic v) ips).0.routers p) (host_nic v) ips j
unfolding add_ips nic_add_address
add_ips-HasNic w p v [] j e = record { there = refl; inside = λ h. absurd (true≢false (sym h)) }
add_ips-HasNic w p v (ip ∷ ips) j e = elim (Bool-cases (contains (w.routers p).ipv4_net ip)) [
  | inr beyond ↦
      absurd (none-ne-some {a = static_ip_is_beyond_subnet} (sym (rw (beyond, add_ips) at e)))
  | inl inside ↦
      let r : Router = record (w.routers p) {
        nics = write_nic (w.routers p).nics ip (some (host_nic v));
      } in
      let w' : Network =
        write_router (nic_add_address w (host_nic v) (ip_net ip (w.routers p).ipv4_net.ones)) p r in
      let at : w'.routers p ≡ r = written r in
      let rest = add_ips-HasNic w' p v ips j (rw (inside, add_ips) at e) in
      rw (inside, add_ips)
        (record {
          there =
              rest.there
              ∙ ap (λ q. if listed j ips then some (host_nic v) else q.nics j) at
              ∙ by_cases (ip_eq ip j) (listed j ips) (some (host_nic v)) ((w.routers p).nics j);
          inside = λ h. elim (Bool-cases (listed j ips)) [
            | inl later ↦ ap (λ q. contains q.ipv4_net j) (sym at) ∙ rest.inside later
            | inr not_later ↦
                ap (contains (w.routers p).ipv4_net)
                  (sym ((ip_eq_iff ip j).0 (head_of (ip_eq ip j) (listed j ips) h not_later)))
                ∙ inside
          ];
        })
]
  where
    written : (r : Router) → (if p == p then r else w.routers p) ≡ r
    written r = let here : (p == p) ≡ true = ground arith in rw here refl

    by_cases :
        {A : Type 0} (a b : Bool) (x y : A)
        → (if b then x else if a then x else y) ≡ (if a || b then x else y)
    by_cases true true x y = refl
    by_cases true false x y = refl
    by_cases false true x y = refl
    by_cases false false x y = refl

    head_of : (a b : Bool) → (a || b) ≡ true → b ≡ false → a ≡ true
    head_of true b h k = refl
    head_of false b h k = sym k ∙ h ∙ refl

join-host :
    (p v : ℕ) (x : Network × Option Error)
    → (join p (host_nic v) x).1 ≡ none
    → (x.1 ≡ none)
      × ((join p (host_nic v) x).0.routers ≡ x.0.routers)
      × (((join p (host_nic v) x).0.nets v).router ≡ some p)
unfolding join nic_set_router
join-host p v (w, some e) h = absurd (none-ne-some (sym h))
join-host p v (w, none) h = (refl, refl, written)
  where
    written : (if v == v then set_router (w.nets v) p else w.nets v).router ≡ some p
    written = let here : (v == v) ≡ true = ground arith in rw here refl

-- When `AddNet` of a host with static addresses reports no error, all of them are in the router's
-- subnet, the router has the host as the NIC of each of them and its other NICs as before, and the
-- host has the router.
pub add_nic-HasNic :
    (w : Network) (p v : ℕ) (ip : Ip) (ips : List Ip)
    → (w.nets v).static_ips ≡ ip ∷ ips
    → (add_nic w p (host_nic v)).1 ≡ none
    → ((j : Ip)
        → HasNic (w.routers p) ((add_nic w p (host_nic v)).0.routers p) (host_nic v) (ip ∷ ips) j)
      × (((add_nic w p (host_nic v)).0.nets v).router ≡ some p)
unfolding add_nic nic_static_ips
add_nic-HasNic w p v ip ips static e =
    elim (interface_cases (get_interface (nic_interfaces w (host_nic v)) "eth0")) [
      | inl (err, missing) ↦
          absurd (none-ne-some {a = net_error err} (sym (rw (missing, add_nic) at e)))
      | inr (ifc, found) ↦
          let nic : Nic = host_nic v in
          let added : Network × Option Error = add_ips w p nic (ip ∷ ips) in
          let eq : add_nic w p nic ≡ join p nic added =
            rw (found, add_nic) (ap (λ s. add_given p nic (nic_ips w p s)) static) in
          let joined = join-host p v added (ap (λ x. x.1) (sym eq) ∙ e) in
          subst
            (λ x.
              ((j : Ip) → HasNic (w.routers p) (x.0.routers p) nic (ip ∷ ips) j)
              × ((x.0.nets v).router ≡ some p))
            (sym eq)
            (
              λ j.
                  subst (λ rs. HasNic (w.routers p) (rs p) nic (ip ∷ ips) j) (sym joined.1)
                    (add_ips-HasNic w p v (ip ∷ ips) j joined.0),
              joined.2,
            )
    ]
  where
    interface_cases :
        (x : NetError ⊎ Interface)
        → ((err : NetError) × (x ≡ inl err)) ⊎ ((ifc : Interface) × (x ≡ inr ifc))
    interface_cases (inl err) = inl (err, refl)
    interface_cases (inr ifc) = inr (ifc, refl)
