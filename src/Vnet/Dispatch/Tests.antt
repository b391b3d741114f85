-- ===== src/Vnet/Dispatch/Tests.antt =====
-- A router of the subnet 10.0.0.0/24 with one host, and the theorems of Router and Dispatch there.
use transport.Prelude.{
  ◌⊎◌, ◌<◌, ◌≤◌, ◌≡◌, ◌≢◌, refl, true, false, Option, none, some, [], ◌∷◌, String, str_eq,
  if◌then◌else◌, inl, inr, arith,
}
use transport.Prelude.Int.{pos}
use transport.Interface.{interface_named, new_interface, add_address, addresses, ip_of}
use transport.Vnet.Addr.{Ip, Addr, ip_eq}
use transport.Vnet.Chunk.{Chunk, new_chunk_udp, set_destination_addr}
use transport.Vnet.ChunkQueue.{new_chunk_queue, push as queue_push, peek, pop}
use transport.Vnet.NatState.{
  Nat, NatType, NatMode, EndpointDependencyType, network_eq, addr_eq, bound_eq, bool_eq,
  outbound_key_eq, inbound_key_eq,
}
use transport.Vnet.Nat.{
  made as made_nat, find_outbound_mapping, remote_key, new_mapping, insert_mapping, with_source,
  bind, translate_outbound_napt, translate_outbound,
}
use transport.Vnet.Nat.Find.{made-IsValid}
use transport.Vnet.Net.{new_net, parsed, get_interface}
use transport.Vnet.RouterState.{
  address_space_exhausted, contains, host_nic, Router, Network, nic_interfaces, nic_static_ips,
  nic_add_address,
}
use transport.Vnet.Router.{
  assign_ip_address, add_ips, nic_ips, join, nic_set_router, add_given, add_nic, push, enqueued,
}
use transport.Vnet.Router.Addresses.{assigned, nth_address, assign_ip_address-series}
use transport.Vnet.Router.Nics.{HasNic, add_nic-HasNic}
use transport.Vnet.RouterLife.{made}
use transport.Vnet.Dispatch.{
  to_nic, sleeps, no_fuel, passes, to_known_nic, after_nat, via_nat, via_parent, route,
  process_chunks, on_inbound_chunk,
}
use transport.Vnet.Dispatch.Order.{IsProcessed, process_chunks-IsProcessed}
use transport.Vnet.Dispatch.Ends.{process_chunks-ends}
use transport.Vnet.Dispatch.Replies.{on_inbound_chunk-route}

program : Unit {0}
unfolding new_net parsed add_nic nic_interfaces nic_static_ips nic_add_address add_given nic_ips
    join nic_set_router add_ips contains get_interface addresses ip_of new_interface add_address
    ip_eq new_chunk_queue queue_push push enqueued route passes to_known_nic via_parent via_nat
    after_nat process_chunks translate_outbound translate_outbound_napt find_outbound_mapping
    remote_key new_mapping insert_mapping with_source bind network_eq addr_eq bound_eq bool_eq
    outbound_key_eq inbound_key_eq interface_named peek pop
program = tt

abbrev host_ip : Ip
host_ip = Ip.v4 0x0a000005

abbrev parse : String → Option Ip
parse s = if str_eq s "10.0.0.5" then some host_ip else none

abbrev lan : Router
lan =
    made
      (record {
        ipv4_net = record { base = 0x0a000000; ones = 24 };
        queue_size = pos 0;
        static_ips = [];
        nat_type = none;
        min_delay = 10;
      })
      (record { ips = []; locals = [] })

abbrev network : Network
network = record {
  nets = λ p. new_net parse ("10.0.0.5" ∷ []);
  routers = λ p. lan;
  resolvers = λ p. record { parent = none; hosts = λ name. none };
}

assign_ip_address-series_example :
    ((3 < 254)
      × ((assign_ip_address (assigned 3 lan)).0 ≡ inr (nth_address lan 3))
      × (contains lan.ipv4_net (nth_address lan 3) ≡ true))
    ⊎ ((254 ≤ 3) × ((assign_ip_address (assigned 3 lan)).0 ≡ inl address_space_exhausted))
assign_ip_address-series_example =
    assign_ip_address-series lan 3 (unfold program in refl) (unfold program in omega arith)

-- The subnet 192.168.1.128/25: the address that the router assigns is 192.168.1.1, which lies outside.
abbrev half_lan : Router
half_lan = record lan { ipv4_net = record { base = 0xc0a80180; ones = 25 } }

assigned_outside :
    ((assign_ip_address half_lan).0 ≡ inr (Ip.v4 0xc0a80101))
    × (contains half_lan.ipv4_net (Ip.v4 0xc0a80101) ≡ false)
unfolding program assign_ip_address
assigned_outside = (refl, refl)

add_nic-HasNic_example :
    ((j : Ip)
      → HasNic lan ((add_nic network 0 (host_nic 7)).0.routers 0) (host_nic 7) (host_ip ∷ []) j)
    × (((add_nic network 0 (host_nic 7)).0.nets 7).router ≡ some 0)
add_nic-HasNic_example =
    add_nic-HasNic network 0 7 host_ip [] (unfold program in refl) (unfold program in refl)

-- The router with the host, started, and with two chunks for the host, pushed at the times 5 and 8.
abbrev ping : Chunk
ping =
    new_chunk_udp (record { ip = Ip.v4 0x0a000006; port = 1 }) (record { ip = host_ip; port = 2 })
      (1 ∷ [])

abbrev busy : Router
busy =
    push (push (record ((add_nic network 0 (host_nic 7)).0.routers 0) { started = true }) 5 ping) 8
      ping

first_only : (process_chunks 3 busy 15).1 ≡ to_nic (host_nic 7) (record ping { timestamp = 5 }) ∷ []
unfolding program
first_only = refl

then_sleeps : (process_chunks 3 busy 15).2 ≡ sleeps 3
unfolding program
then_sleeps = refl

process_chunks-IsProcessed_example :
    IsProcessed busy 15 busy.queue.chunks (process_chunks 3 busy 15)
unfolding program
process_chunks-IsProcessed_example = process_chunks-IsProcessed 3 busy 15 refl (omega arith)

process_chunks-ends_example : (process_chunks 3 busy 15).2 ≢ no_fuel
unfolding program
process_chunks-ends_example = process_chunks-ends 3 busy 15 (omega arith)

-- A router with a parent, and a server outside its subnet.
abbrev strict : NatType
strict = record {
  mode = NatMode.normal;
  mapping_behavior = EndpointDependencyType.endpoint_independent;
  filtering_behavior = EndpointDependencyType.endpoint_addr_port_dependent;
  hairpinning = false;
  port_preservation = false;
  mapping_life_time = 30;
}

abbrev public_ip : Ip
public_ip = Ip.v4 0x1b010101

abbrev nat : Nat
nat = made_nat strict (public_ip ∷ []) []

abbrev home : Router
home = record lan { parent = some 9; nat = some nat; started = true }

abbrev laptop : Addr
laptop = record { ip = host_ip; port = 5000 }

abbrev server : Addr
server = record { ip = Ip.v4 0x01020304; port = 80 }

abbrev outside : Addr
outside = record { ip = public_ip; port = 0xC000 }

abbrev request : Chunk
request = new_chunk_udp laptop server (1 ∷ [])

abbrev answer : Chunk
answer = new_chunk_udp server outside (2 ∷ [])

abbrev home_after : Router
home_after = record home { nat = some (translate_outbound nat 100 request).0 }

on_inbound_chunk-route_example :
    on_inbound_chunk home_after 130 answer
    ≡ some (push home_after 130 (set_destination_addr answer laptop))
on_inbound_chunk-route_example =
    on_inbound_chunk-route home home_after nat 100 130 9 request
      (record request { source = outside }) answer public_ip [] refl
      (made-IsValid strict (public_ip ∷ []) []) refl refl (unfold program in refl) refl refl refl
      (omega arith)
