-- ===== src/Vnet/Resolve.antt =====
-- vnet/net.go: a host resolves an address that is written as a text, and dials it.
-- The resolver of a router has the router's pointer. A look-up runs on fuel, and `none` says that
-- the fuel did not suffice, or, in `dial`, that `determineSourceIP` panicked.
pub mod Laws
mod Tests
use transport.Prelude.{
  ℕ, Bool, true, false, ◌||◌, not, if◌then◌else◌, Option, none, some, List, [], ◌∷◌, String, str_eq,
  ◌⊎◌, inl, inr,
}
use transport.Vnet.Addr.{Ip, Addr}
use transport.Vnet.Resolver.{Resolvers, look_up, Error as ResolverError}
use transport.Vnet.NetState.{
  Error, unknown_network, no_router_linked, invalid_port_number, invalid_host_port, host_not_found,
  Net, WantedAddr, loopback_v4, loopback_v6,
}
use transport.Vnet.Net.{determine_source_ip, SourceIp, source, no_source, panicked}
use transport.Vnet.Sockets.{dial_udp}

-- What the host calls of Go's library: `net.ParseIP`, `strings.ToLower`, `net.SplitHostPort` and
-- `strconv.Atoi`, where a number below 0 counts as an error.
pub record GoNet : Type 0 where
  pub parse_ip : String → Option Ip
  pub to_lower : String → String
  pub split_host_port : String → Option (String × String)
  pub atoi : String → Option ℕ

unfoldable pub is_ip_network : String → Bool
is_ip_network network =
    str_eq network "" || (str_eq network "ip" || (str_eq network "ip4" || str_eq network "ip6"))

-- The answer of `lookUp`.
unfoldable pub looked_up : Option (ResolverError ⊎ Ip) → Option (Error ⊎ Ip)
looked_up none = none
looked_up (some (inl e)) = some (inl host_not_found)
looked_up (some (inr ip)) = some (inr ip)

module _ (lib : GoNet) (fuel : ℕ) (resolvers : Resolvers) where
  -- The address is a domain name, in lower case.
  unfoldable pub resolve_name : Option ℕ → String → String → Option (Error ⊎ Ip)
  unfolding looked_up
  resolve_name router network name =
      if str_eq name "localhost"
      then some (inr (if str_eq network "ip6" then loopback_v6 else loopback_v4))
      else elim router [
        | none ↦ some (inl no_router_linked)
        | some r ↦ looked_up (look_up fuel resolvers r name)
      ]

  -- `ResolveIPAddr`
  unfoldable pub resolve_ip_addr : Net → String → String → Option (Error ⊎ Ip)
  resolve_ip_addr v network address =
      if not (is_ip_network network)
      then some (inl unknown_network)
      else if str_eq address ""
      then some (inr (if str_eq network "ip6" then Ip.v6 0 else Ip.v4 0))
      else elim (lib.parse_ip address) [
        | some ip ↦ some (inr ip)
        | none ↦ resolve_name v.router network (lib.to_lower address)
      ]

  -- The port is read after the host was resolved.
  unfoldable pub with_port : String → Option (Error ⊎ Ip) → Option (Error ⊎ Addr)
  with_port port none = none
  with_port port (some (inl e)) = some (inl e)
  with_port port (some (inr ip)) = elim (lib.atoi port) [
    | none ↦ some (inl invalid_port_number)
    | some n ↦ some (inr (record { ip = ip; port = n }))
  ]

  -- What `ResolveUDPAddr` and `ResolveTCPAddr` do with the network of their IP.
  unfoldable pub resolve_addr : Net → Option String → String → Option (Error ⊎ Addr)
  unfolding with_port
  resolve_addr v none address = some (inl unknown_network)
  resolve_addr v (some ip_network) address = elim (lib.split_host_port address) [
    | none ↦ some (inl invalid_host_port)
    | some parts ↦ with_port parts.1 (resolve_ip_addr v ip_network parts.0)
  ]

  unfoldable pub ip_network_of : String → String → String → String → Option String
  ip_network_of any v4 v6 network =
      if str_eq network any || str_eq network v4
      then some "ip4"
      else if str_eq network v6
      then some "ip6"
      else none

  unfoldable pub resolve_udp_addr : Net → String → String → Option (Error ⊎ Addr)
  unfolding resolve_addr ip_network_of
  resolve_udp_addr v network address =
      resolve_addr v (ip_network_of "udp" "udp4" "udp6" network) address

  unfoldable pub resolve_tcp_addr : Net → String → String → Option (Error ⊎ Addr)
  unfolding resolve_addr ip_network_of
  resolve_tcp_addr v network address =
      resolve_addr v (ip_network_of "tcp" "tcp4" "tcp6" network) address

  -- `ListenPacket`
  unfoldable pub listen_at :
      (ℕ → ℕ) → Net → String → Option (Error ⊎ Addr) → Option (Net × (Error ⊎ ℕ))
  listen_at intn v network none = none
  listen_at intn v network (some (inl e)) = some (v, inl e)
  listen_at intn v network (some (inr a)) =
      some (dial_udp intn v network (some (record { ip = some a.ip; port = a.port })) none)

  unfoldable pub listen_packet : (ℕ → ℕ) → Net → String → String → Option (Net × (Error ⊎ ℕ))
  unfolding listen_at
  listen_packet intn v network address =
      listen_at intn v network (resolve_udp_addr v network address)

  -- `Dial`
  unfoldable pub dial_from : (ℕ → ℕ) → Net → String → Addr → SourceIp → Option (Net × (Error ⊎ ℕ))
  dial_from intn v network rem panicked = none
  dial_from intn v network rem no_source =
      some (dial_udp intn v network (some (record { ip = none; port = 0 })) (some rem))
  dial_from intn v network rem (source ip) =
      some (dial_udp intn v network (some (record { ip = some ip; port = 0 })) (some rem))

  unfoldable pub dial_to :
      (ℕ → ℕ) → Net → String → Option (Error ⊎ Addr) → Option (Net × (Error ⊎ ℕ))
  unfolding dial_from
  dial_to intn v network none = none
  dial_to intn v network (some (inl e)) = some (v, inl e)
  dial_to intn v network (some (inr rem)) =
      dial_from intn v network rem (determine_source_ip v.interfaces none rem.ip)

  unfoldable pub dial : (ℕ → ℕ) → Net → String → String → Option (Net × (Error ⊎ ℕ))
  unfolding dial_to
  dial intn v network address = dial_to intn v network (resolve_udp_addr v network address)
