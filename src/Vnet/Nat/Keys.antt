-- ===== src/Vnet/Nat/Keys.antt =====
-- The texts that key the maps: equal exactly if what they print is equal.
use transport.Prelude.{◌≡◌, ◌↔◌, true, arith}
use transport.Vnet.Addr.{Addr, ip_eq_iff}
use transport.Vnet.Chunk.{Network, udp, tcp}
use transport.Vnet.NatState.{
  Bound, anyone, host, endpoint, OutboundKey, InboundKey, network_eq, addr_eq, bound_eq, bool_eq,
  outbound_key_eq, inbound_key_eq,
}

pub network_eq_iff : (a b : Network) → (network_eq a b ≡ true) ↔ (a ≡ b)
unfolding network_eq
network_eq_iff udp udp = ground arith
network_eq_iff udp tcp = ground arith
network_eq_iff tcp udp = ground arith
network_eq_iff tcp tcp = ground arith

pub addr_eq_iff : (a b : Addr) → (addr_eq a b ≡ true) ↔ (a ≡ b)
unfolding addr_eq
addr_eq_iff a b = ground (arith, ip_eq_iff a.ip b.ip)

pub bound_eq_iff : (a b : Bound) → (bound_eq a b ≡ true) ↔ (a ≡ b)
unfolding bound_eq
bound_eq_iff anyone anyone = ground arith
bound_eq_iff anyone (host b) = ground arith
bound_eq_iff anyone (endpoint b) = ground arith
bound_eq_iff (host a) anyone = ground arith
bound_eq_iff (host a) (host b) = ground (arith, ip_eq_iff a b)
bound_eq_iff (host a) (endpoint b) = ground arith
bound_eq_iff (endpoint a) anyone = ground arith
bound_eq_iff (endpoint a) (host b) = ground arith
bound_eq_iff (endpoint a) (endpoint b) = ground (arith, addr_eq_iff a b)

pub outbound_key_eq_iff : (k j : OutboundKey) → (outbound_key_eq k j ≡ true) ↔ (k ≡ j)
unfolding outbound_key_eq
outbound_key_eq_iff k j = ground (
  arith,
  network_eq_iff k.proto j.proto,
  addr_eq_iff k.local j.local,
  bound_eq_iff k.bound j.bound,
)

pub inbound_key_eq_iff : (k j : InboundKey) → (inbound_key_eq k j ≡ true) ↔ (k ≡ j)
unfolding inbound_key_eq bool_eq
inbound_key_eq_iff k j =
    ground (arith, network_eq_iff k.proto j.proto, addr_eq_iff k.mapped j.mapped)
