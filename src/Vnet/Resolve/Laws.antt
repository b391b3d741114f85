-- ===== src/Vnet/Resolve/Laws.antt =====
-- vnet/net.go and vnet/resolver.go: a host resolves the names that its router was told.
use transport.Prelude.{
  ℕ, suc, ◌≡◌, ◌≢◌, refl, false, none, some, String, str_eq, str_eq_iff, inl, inr, Bool-cases,
}
use transport.Vnet.Addr.{Ip}
use transport.Vnet.Resolver.{Resolver, Resolvers, add_host, write_resolver}
use transport.Vnet.Resolver.Laws.{add_host-look_up}
use transport.Vnet.NetState.{Net}
use transport.Vnet.Resolve.{GoNet, is_ip_network, resolve_name, resolve_ip_addr, resolve_udp_addr}

str_eq-ne : (s t : String) → s ≢ t → str_eq s t ≡ false
str_eq-ne s t ne = elim (Bool-cases (str_eq s t)) [
  | inl same ↦ absurd (ne ((str_eq_iff s t).0 same))
  | inr apart ↦ apart
]

-- After a router's resolver was told the address of a name that is in lower case, no IP address
-- and not "localhost", a host on this router that resolves the name with a port, for "udp", gets
-- this IP and this port, whatever the fuel is beyond one.
pub resolve_udp_addr-add_host :
    (lib : GoNet) (fuel : ℕ) (store : Resolvers) (v : Net) (p port : ℕ)
    (name ip_addr address port_text : String) (r : Resolver)
    → v.router ≡ some p
    → add_host lib.parse_ip (store p) name ip_addr ≡ inr r
    → lib.split_host_port address ≡ some (name, port_text)
    → lib.atoi port_text ≡ some port
    → lib.parse_ip name ≡ none
    → lib.to_lower name ≡ name
    → name ≢ "localhost"
    → (ip : Ip) × (lib.parse_ip ip_addr ≡ some ip)
      × (resolve_udp_addr lib (suc fuel) (write_resolver store p r) v "udp" address
          ≡ some (inr (record { ip = ip; port = port })))
unfolding resolve_udp_addr resolve_ip_addr resolve_name is_ip_network
resolve_udp_addr-add_host lib fuel store v p port name ip_addr address port_text r linked added
      split number text lower named =
    let (filled, (ip, parsed, found), others) =
      add_host-look_up lib.parse_ip store p fuel name ip_addr r added in
    (
      ip,
      parsed,
      rw
          (
            split,
            str_eq-ne name "" filled,
            text,
            lower,
            str_eq-ne name "localhost" named,
            linked,
            lower,
            found,
            number,
          )
          refl,
    )
