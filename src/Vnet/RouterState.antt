-- ===== src/Vnet/RouterState.antt =====
-- vnet/router.go: the state of a router, and the network of hosts, routers and resolvers that point
-- to each other. A store gives what the pointers of one kind refer to.
use transport.Prelude.{ℕ, ◌-◌, ◌/◌, ◌^◌, ◌==◌, Bool, false, if◌then◌else◌, Option, List}
use transport.Interface.{Interface, NetAddr, change_named, add_address}
use transport.Vnet.Addr.{Ip, ip_eq}
use transport.Vnet.Chunk.{Chunk}
use transport.Vnet.ChunkQueue.{ChunkQueue}
use transport.Vnet.NatState.{Nat, NatType, Error as NatError}
use transport.Vnet.NetState.{Net, Error as NetError}
use transport.Vnet.Resolver.{Resolvers}

pub data Error : Type 0 where
  address_space_exhausted static_ip_is_beyond_subnet no_ip_addr_eth0 : Error
  router_already_started router_already_stopped : Error
  invalid_local_ip_in_static_ips local_ip_beyond_static_ips_subset
        local_ip_no_statics_ips_associated :
      Error
  nat_error : NatError → Error
  net_error : NetError → Error

-- An IPv4 `net.IPNet`: its address, and the length of its mask.
pub record Subnet : Type 0 where
  pub base : ℕ
  pub ones : ℕ

-- `Contains`
unfoldable pub contains : Subnet → Ip → Bool
contains s (Ip.v4 a) = a / 2 ^ (32 - s.ones) == s.base / 2 ^ (32 - s.ones)
contains s (Ip.v6 a) = false

-- A `NIC` is a pointer to a host or to a router.
pub data Nic : Type 0 where
  host_nic router_nic : ℕ → Nic

-- `Router`. `started` says that `stopFunc` is not nil, `signalled` that `pushCh` holds an element. A
-- map keyed by texts of IPs is a function of the IP. Durations and times are nanoseconds. A chunk
-- filter is a function of the chunk.
pub record Router : Type 0 where
  pub interfaces : List Interface
  pub ipv4_net : Subnet
  pub static_ips : List Ip
  pub static_local_ips : Ip → Option Ip
  pub last_id : ℕ
  pub queue : ChunkQueue
  pub parent : Option ℕ
  pub children : List ℕ
  pub nat_type : Option NatType
  pub nat : Option Nat
  pub nics : Ip → Option Nic
  pub started : Bool
  pub chunk_filters : List (Chunk → Bool)
  pub min_delay : ℕ
  pub signalled : Bool

pub record Network : Type 0 where
  pub nets : ℕ → Net
  pub routers : ℕ → Router
  pub resolvers : Resolvers

abbrev pub write_at {ℓ} : {A : Type ℓ} → (ℕ → A) → ℕ → A → ℕ → A
write_at cells p a q = if p == q then a else cells q

abbrev pub write_router : Network → ℕ → Router → Network
write_router w p r = record w { routers = write_at w.routers p r }

abbrev pub write_net : Network → ℕ → Net → Network
write_net w p v = record w { nets = write_at w.nets p v }

-- `r.nics[ip.String()] = nic`, and `delete`.
abbrev pub write_nic : (Ip → Option Nic) → Ip → Option Nic → Ip → Option Nic
write_nic nics ip nic other = if ip_eq ip other then nic else nics other

-- The methods of the interface `NIC` that read.
unfoldable pub nic_interfaces : Network → Nic → List Interface
nic_interfaces w (host_nic p) = (w.nets p).interfaces
nic_interfaces w (router_nic p) = (w.routers p).interfaces

unfoldable pub nic_static_ips : Network → Nic → List Ip
nic_static_ips w (host_nic p) = (w.nets p).static_ips
nic_static_ips w (router_nic p) = (w.routers p).static_ips

-- `ifc.AddAddress(...)` on the eth0 of a NIC.
abbrev pub with_address : List Interface → NetAddr → List Interface
with_address ifcs a = change_named (λ i. add_address i a) ifcs "eth0"

unfoldable pub nic_add_address : Network → Nic → NetAddr → Network
nic_add_address w (host_nic p) a =
    write_net w p (record (w.nets p) { interfaces = with_address (w.nets p).interfaces a })
nic_add_address w (router_nic p) a =
    write_router w p (record (w.routers p) { interfaces = with_address (w.routers p).interfaces a })
