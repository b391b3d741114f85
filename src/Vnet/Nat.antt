-- ===== src/Vnet/Nat.antt =====
-- vnet/nat.go: the address translator of a router.
-- The mutex makes each call one atomic step, which reads the clock once, as `now`.
pub mod Keys
pub mod Valid
pub mod Changes
pub mod Find
pub mod Sends
pub mod RoundTrip
pub mod Permission
pub mod Ports
pub mod Paired
mod Tests
use transport.Prelude.{
  ℕ, ◌+◌, Bool, true, false, ◌&&◌, ◌||◌, not, ◌==◌, ltb, leb, if◌then◌else◌, Option, none, some,
  List, [], ◌∷◌, length, ◌⊎◌, inl, inr,
}
use transport.Vnet.Addr.{Ip, Addr, ip_eq}
use transport.Vnet.Chunk.{Network, Chunk, set_source_addr, set_destination_addr}
use transport.Vnet.NatState.{
  EndpointDependencyType, endpoint_independent, endpoint_addr_dependent,
  endpoint_addr_port_dependent, NatMode, normal, one_to_one, NatType, Error, nat_requires_mapping,
  mismatch_length_ip, no_associated_local_address, no_nat_binding_found, has_no_permission,
  port_space_exhausted, invalid_address, Bound, anyone, host, endpoint, OutboundKey, InboundKey,
  Mapping, GoMap, Nat, Translation, translated, dropped, failed, panicked, bound_eq,
  outbound_key_eq, inbound_key_eq, is_v6, outbound_key, inbound_key, destination_key, host_port,
  assign, write_cell, unallocated,
}

abbrev pub default_life_time : ℕ
default_life_time = 30000000000

abbrev pub made : NatType → List Ip → List Ip → Nat
made nat_type mapped_ips local_ips = record {
  nat_type = nat_type;
  mapped_ips = mapped_ips;
  local_ips = local_ips;
  outbound_map = λ k. none;
  inbound_map = λ k. none;
  cells = λ p. unallocated;
  next = 0;
  udp_port_counter = 0;
  tcp_port_counter = 0;
}

abbrev pub is_one_to_one : NatMode → Bool
is_one_to_one one_to_one = true
is_one_to_one normal = false

unfoldable pub new_nat : NatType → List Ip → List Ip → Error ⊎ Nat
new_nat t mapped_ips local_ips =
    if is_one_to_one t.mode
    then if length mapped_ips == 0
      then inl nat_requires_mapping
      else if not (length mapped_ips == length local_ips)
      then inl mismatch_length_ip
      else inr (
          made
            (record t {
              mapping_behavior = endpoint_independent;
              filtering_behavior = endpoint_independent;
              port_preservation = true;
              mapping_life_time = 0;
            })
            mapped_ips local_ips)
    else inr (
        made
          (record t {
            mode = normal;
            mapping_life_time =
                if t.mapping_life_time == 0 then default_life_time else t.mapping_life_time;
          })
          mapped_ips local_ips)

-- `getPairedMappedIP` and `getPairedLocalIP`: the partner of the first equal address. The lists are
-- of one length in this mode.
unfoldable pub paired : List Ip → List Ip → Ip → Option Ip
paired [] bs ip = none
paired (a ∷ as_list) [] ip = none
paired (a ∷ as_list) (b ∷ bs) ip = if ip_eq a ip then some b else paired as_list bs ip

-- `bound` and `filterKey`, for the remote address.
unfoldable pub remote_key : EndpointDependencyType → Addr → Bound
remote_key endpoint_independent remote = anyone
remote_key endpoint_addr_dependent remote = host remote.ip
remote_key endpoint_addr_port_dependent remote = endpoint remote

unfoldable pub remove_mapping : Nat → ℕ → Nat
remove_mapping n p = record n {
  outbound_map = assign outbound_key_eq n.outbound_map (outbound_key (n.cells p)) none;
  inbound_map = assign inbound_key_eq n.inbound_map (inbound_key (n.cells p)) none;
}

-- A mapping that has expired is removed; any other lives on from now.
unfoldable pub find_outbound_mapping : Nat → ℕ → OutboundKey → Nat × Option ℕ
find_outbound_mapping n now k = elim (n.outbound_map k) [
  | none ↦ (n, none)
  | some p ↦ if ltb (n.cells p).expires now then (remove_mapping n p, none) else (
    record n {
      cells =
          write_cell n.cells p
            (record (n.cells p) { expires = now + n.nat_type.mapping_life_time });
    },
    some p,
  )
]

unfoldable pub find_inbound_mapping : Nat → ℕ → InboundKey → Nat × Option ℕ
find_inbound_mapping n now k = elim (n.inbound_map k) [
  | none ↦ (n, none)
  | some p ↦ if ltb (n.cells p).expires now then (remove_mapping n p, none) else (n, some p)
]

-- The first port, and the counter of the ports that were given out.
abbrev pub port_base : Network → ℕ
port_base Network.udp = 0xC000
port_base Network.tcp = 0x8000

abbrev pub port_counter : Nat → Network → ℕ
port_counter n Network.udp = n.udp_port_counter
port_counter n Network.tcp = n.tcp_port_counter

abbrev pub count_port : Nat → Network → Nat
count_port n Network.udp = record n { udp_port_counter = n.udp_port_counter + 1 }
count_port n Network.tcp = record n { tcp_port_counter = n.tcp_port_counter + 1 }

abbrev pub permit : (Bound → Bool) → Bound → Bound → Bool
permit filters k j = bound_eq k j || filters j

-- A new mapping for the local address, at the next port, which the remote may use.
unfoldable pub new_mapping : Nat → ℕ → Chunk → Ip → OutboundKey → Bound → Mapping
new_mapping n now from ip key filter_key = record {
  proto = from.network;
  local = from.source;
  mapped = record { ip = ip; port = port_base from.network + port_counter n from.network };
  bound = key.bound;
  filters = permit (λ k. false) filter_key;
  expires = now + n.nat_type.mapping_life_time;
}

unfoldable pub insert_mapping : Nat → Mapping → OutboundKey → Nat
insert_mapping n m key = record (count_port n m.proto) {
  outbound_map = assign outbound_key_eq n.outbound_map key (some n.next);
  inbound_map = assign inbound_key_eq n.inbound_map (inbound_key m) (some n.next);
  cells = write_cell n.cells n.next m;
  next = n.next + 1;
}

-- `to.setSourceAddr(mapped)`
unfoldable pub with_source : Chunk → Option Addr → Translation
with_source to (some a) = translated (set_source_addr to a)
with_source to none = failed invalid_address

unfoldable pub with_destination : Chunk → Option Addr → Translation
with_destination to (some a) = translated (set_destination_addr to a)
with_destination to none = failed invalid_address

-- `if mapp == nil`: a binding is made, if a port is left.
unfoldable pub bind : Nat → ℕ → Chunk → List Ip → OutboundKey → Bound → Nat × Translation
bind n now from mapped_ips key filter_key =
    if ltb 65535 (port_base from.network + port_counter n from.network)
    then (n, failed port_space_exhausted)
    else elim mapped_ips [
      | [] ↦ (count_port n from.network, panicked)
      | ip ∷ ips ↦
          let m = new_mapping n now from ip key filter_key in
          (insert_mapping n m key, with_source from (host_port m.mapped.ip m.mapped.port))
    ]

-- `else`: the remote is permitted, too.
unfoldable pub reuse : Nat → Chunk → ℕ → Bound → Nat × Translation
reuse n from p filter_key =
    let m = n.cells p in
    let m' = record m { filters = permit m.filters filter_key } in
    (
      record n { cells = write_cell n.cells p m' },
      with_source from (host_port m.mapped.ip m.mapped.port),
    )

unfoldable pub translate_outbound_napt : Nat → ℕ → Chunk → Nat × Translation
translate_outbound_napt n now from =
    let key : OutboundKey = record {
      proto = from.network;
      local = from.source;
      bound = remote_key n.nat_type.mapping_behavior from.destination;
    } in
    let filter_key = remote_key n.nat_type.filtering_behavior from.destination in
    let (n', found) = find_outbound_mapping n now key in
    elim found [
      | none ↦ bind n' now from n'.mapped_ips key filter_key
      | some p ↦ reuse n' from p filter_key
    ]

-- The source address, where there is a partner for its IP.
unfoldable pub to_mapped : Chunk → Option Ip → Translation
to_mapped from none = dropped
to_mapped from (some ip) = with_source from (host_port ip from.source.port)

unfoldable pub to_local : Chunk → Option Ip → Translation
to_local from none = failed no_associated_local_address
to_local from (some ip) = with_destination from (host_port ip from.destination.port)

-- `translateOutbound`, at the time `now`. The chunk types of the package are UDP and TCP.
unfoldable pub translate_outbound : Nat → ℕ → Chunk → Nat × Translation
translate_outbound n now from =
    if is_one_to_one n.nat_type.mode
    then (n, to_mapped from (paired n.local_ips n.mapped_ips from.source.ip))
    else translate_outbound_napt n now from

-- The filter of a mapping that was found.
unfoldable pub admit : Nat → Chunk → ℕ → Translation
admit n from p =
    if (n.cells p).filters (remote_key n.nat_type.filtering_behavior from.source)
    then with_destination from (some (n.cells p).local)
    else failed has_no_permission

unfoldable pub translate_inbound_napt : Nat → ℕ → Chunk → Nat × Translation
translate_inbound_napt n now from =
    let (n', found) = find_inbound_mapping n now (destination_key from.network from.destination) in
    elim found [ none ↦ (n', failed no_nat_binding_found) | some p ↦ (n', admit n' from p) ]

-- `translateInbound`
unfoldable pub translate_inbound : Nat → ℕ → Chunk → Nat × Translation
translate_inbound n now from =
    if is_one_to_one n.nat_type.mode
    then (n, to_local from (paired n.mapped_ips n.local_ips from.destination.ip))
    else translate_inbound_napt n now from
