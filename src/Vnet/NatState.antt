-- ===== src/Vnet/NatState.antt =====
-- vnet/nat.go: the state of the address translator and the texts that key its maps.
-- Texts that are only keys or are parsed again are kept as the data they print. The two maps hold
-- pointers to shared mappings: `cells` is what the pointers below `next` refer to.
use transport.Prelude.{
  ℕ, Bool, true, false, ◌&&◌, not, ◌==◌, if◌then◌else◌, Option, none, some, List,
}
use transport.Vnet.Addr.{Ip, Addr, ip_eq}
use transport.Vnet.Chunk.{Network, Chunk}

pub data EndpointDependencyType : Type 0 where
  endpoint_independent endpoint_addr_dependent endpoint_addr_port_dependent : EndpointDependencyType

pub data NatMode : Type 0 where
  normal one_to_one : NatMode

-- Durations and times are nanoseconds.
pub record NatType : Type 0 where
  pub mode : NatMode
  pub mapping_behavior : EndpointDependencyType
  pub filtering_behavior : EndpointDependencyType
  pub hairpinning : Bool
  pub port_preservation : Bool
  pub mapping_life_time : ℕ

pub data Error : Type 0 where
  nat_requires_mapping mismatch_length_ip no_associated_local_address : Error
  no_nat_binding_found has_no_permission port_space_exhausted invalid_address : Error

-- "[<remote-ip>[:<remote-port>]]"
pub data Bound : Type 0 where
  anyone : Bound
  host : Ip → Bound
  endpoint : Addr → Bound

-- "<proto>:<local-ip>:<local-port>:<bound>"
pub record OutboundKey : Type 0 where
  pub proto : Network
  pub local : Addr
  pub bound : Bound

-- "<proto>:<mapped-ip>:<mapped-port>", where an IPv6 address has brackets or not.
pub record InboundKey : Type 0 where
  pub proto : Network
  pub bracketed : Bool
  pub mapped : Addr

pub record Mapping : Type 0 where
  pub proto : Network
  pub local : Addr
  pub mapped : Addr
  pub bound : Bound
  pub filters : Bound → Bool
  pub expires : ℕ

-- Go's map, for the operations that are used: a lookup, a write and `delete`.
abbrev pub GoMap : Type 0 → Type 0
GoMap K = K → Option ℕ

pub record Nat : Type 0 where
  pub nat_type : NatType
  pub mapped_ips : List Ip
  pub local_ips : List Ip
  pub outbound_map : GoMap OutboundKey
  pub inbound_map : GoMap InboundKey
  pub cells : ℕ → Mapping
  pub next : ℕ
  pub udp_port_counter : ℕ
  pub tcp_port_counter : ℕ

-- What a call returns: a chunk, `nil, nil`, an error, or an index out of range.
pub data Translation : Type 0 where
  translated : Chunk → Translation
  dropped : Translation
  failed : Error → Translation
  panicked : Translation

unfoldable pub network_eq : Network → Network → Bool
network_eq Network.udp Network.udp = true
network_eq Network.tcp Network.tcp = true
network_eq Network.udp Network.tcp = false
network_eq Network.tcp Network.udp = false

unfoldable pub addr_eq : Addr → Addr → Bool
addr_eq a b = ip_eq a.ip b.ip && a.port == b.port

unfoldable pub bound_eq : Bound → Bound → Bool
bound_eq anyone anyone = true
bound_eq (host a) (host b) = ip_eq a b
bound_eq (endpoint a) (endpoint b) = addr_eq a b
bound_eq anyone (host b) = false
bound_eq anyone (endpoint b) = false
bound_eq (host a) anyone = false
bound_eq (host a) (endpoint b) = false
bound_eq (endpoint a) anyone = false
bound_eq (endpoint a) (host b) = false

unfoldable pub bool_eq : Bool → Bool → Bool
bool_eq true b = b
bool_eq false b = not b

unfoldable pub outbound_key_eq : OutboundKey → OutboundKey → Bool
outbound_key_eq k j =
    network_eq k.proto j.proto && (addr_eq k.local j.local && bound_eq k.bound j.bound)

unfoldable pub inbound_key_eq : InboundKey → InboundKey → Bool
inbound_key_eq k j =
    network_eq k.proto j.proto && (bool_eq k.bracketed j.bracketed && addr_eq k.mapped j.mapped)

abbrev pub is_v6 : Ip → Bool
is_v6 (Ip.v4 a) = false
is_v6 (Ip.v6 a) = true

-- The keys of a mapping, as `removeMapping` prints them.
abbrev pub outbound_key : Mapping → OutboundKey
outbound_key m = record { proto = m.proto; local = m.local; bound = m.bound }

abbrev pub inbound_key : Mapping → InboundKey
inbound_key m = record { proto = m.proto; bracketed = false; mapped = m.mapped }

-- The key that `translateInbound` prints for a destination: Go puts brackets round IPv6.
abbrev pub destination_key : Network → Addr → InboundKey
destination_key proto dst = record { proto = proto; bracketed = is_v6 dst.ip; mapped = dst }

-- `fmt.Sprintf("%s:%d", ip, port)`, parsed again: without brackets only IPv4 can be.
abbrev pub host_port : Ip → ℕ → Option Addr
host_port (Ip.v4 a) port = some (record { ip = Ip.v4 a; port = port })
host_port (Ip.v6 a) port = none

abbrev pub assign : {K : Type 0} → (K → K → Bool) → GoMap K → K → Option ℕ → GoMap K
assign eq m k v j = if eq k j then v else m j

abbrev pub write_cell : (ℕ → Mapping) → ℕ → Mapping → ℕ → Mapping
write_cell cells p m q = if p == q then m else cells q

-- A mapping that no pointer refers to.
abbrev pub unallocated : Mapping
unallocated = record {
  proto = Network.udp;
  local = record { ip = Ip.v4 0; port = 0 };
  mapped = record { ip = Ip.v4 0; port = 0 };
  bound = anyone;
  filters = λ k. false;
  expires = 0;
}
