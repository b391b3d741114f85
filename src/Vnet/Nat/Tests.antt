-- ===== src/Vnet/Nat/Tests.antt =====
-- A translator in front of one host, in both modes.
use transport.Prelude.{◌≤◌, ◌<◌, ◌≡◌, refl, false, none, some, List, [], ◌∷◌, arith}
use transport.Vnet.Addr.{Ip, Addr, ip_eq}
use transport.Vnet.Chunk.{set_source_addr, Network, Chunk, set_destination_addr}
use transport.Vnet.NatState.{
  Nat, NatType, NatMode, EndpointDependencyType, OutboundKey, Bound, translated, failed,
  has_no_permission, no_nat_binding_found, port_space_exhausted, network_eq, addr_eq, bound_eq,
  bool_eq, outbound_key_eq, inbound_key_eq, outbound_key, inbound_key, destination_key,
}
use transport.Vnet.Nat.{
  made, new_nat, paired, remote_key, remove_mapping, find_outbound_mapping, find_inbound_mapping,
  new_mapping, insert_mapping, with_source, with_destination, bind, reuse, translate_outbound_napt,
  to_mapped, to_local, translate_outbound, admit, translate_inbound_napt, translate_inbound,
  port_base,
}
use transport.Vnet.Nat.Valid.{IsValid}
use transport.Vnet.Nat.Find.{made-IsValid}
use transport.Vnet.Nat.RoundTrip.{translate_inbound-outbound}
use transport.Vnet.Nat.Permission.{
  Event, run, sent_in, Any, run-IsReached, start-IsReached, translate_inbound-sent,
}
use transport.Vnet.Nat.Ports.{run-mapped, translate_inbound_expired}
use transport.Vnet.Nat.Paired.{one_to_one-outbound}

program : Unit {0}
unfolding new_nat network_eq addr_eq bound_eq bool_eq ip_eq outbound_key_eq inbound_key_eq paired
    remote_key remove_mapping find_outbound_mapping find_inbound_mapping new_mapping insert_mapping
    with_source with_destination bind reuse translate_outbound_napt to_mapped to_local
    translate_outbound admit translate_inbound_napt translate_inbound run sent_in
program = tt

-- Endpoint-independent mapping and address- and port-dependent filtering, for 30 units of time.
abbrev strict : NatType
strict = record {
  mode = NatMode.normal;
  mapping_behavior = EndpointDependencyType.endpoint_independent;
  filtering_behavior = EndpointDependencyType.endpoint_addr_port_dependent;
  hairpinning = false;
  port_preservation = false;
  mapping_life_time = 30;
}

abbrev public_ip : Ip
public_ip = Ip.v4 0x1b010101

abbrev nat : Nat
nat = made strict (public_ip ∷ []) []

abbrev laptop : Addr
laptop = record { ip = Ip.v4 0x0a000002; port = 5000 }

abbrev server : Addr
server = record { ip = Ip.v4 0x01020304; port = 80 }

abbrev stranger : Addr
stranger = record { ip = Ip.v4 0x01020304; port = 81 }

abbrev request : Chunk
request = record {
  network = Network.udp;
  source = laptop;
  destination = server;
  user_data = 1 ∷ [];
  timestamp = 0;
}

abbrev outside : Addr
outside = record { ip = public_ip; port = 0xC000 }

abbrev sent : Chunk
sent = record request { source = outside }

abbrev answer : Chunk
answer = record {
  network = Network.udp;
  source = server;
  destination = outside;
  user_data = 2 ∷ [];
  timestamp = 0;
}

abbrev after : Nat
after = (translate_outbound nat 100 request).0

request_sent : (translate_outbound nat 100 request).1 ≡ translated sent
unfolding program
request_sent = refl

stranger_refused :
    (translate_inbound after 110 (record answer { source = stranger })).1 ≡ failed has_no_permission
unfolding program
stranger_refused = refl

next_port :
    (translate_outbound after 110 (record request { source = record laptop { port = 5001 } })).1
    ≡ translated (record sent { source = record outside { port = 0xC001 } })
unfolding program
next_port = refl

exhausted :
    (translate_outbound (record nat { udp_port_counter = 0x4000 }) 100 request).1
    ≡ failed port_space_exhausted
unfolding program
exhausted = refl

translate_inbound-outbound_example :
    translate_inbound after 130 answer ≡ (after, translated (set_destination_addr answer laptop))
translate_inbound-outbound_example =
    translate_inbound-outbound nat after 100 130 request sent answer public_ip []
      (made-IsValid strict (public_ip ∷ []) []) refl refl (unfold program in refl) refl refl refl
      (omega arith)

abbrev events : List Event
events = Event.outbound 100 request ∷ Event.inbound 105 (record answer { source = stranger }) ∷ []

translate_inbound-sent_example :
    Any
      (λ c.
        (c.network ≡ Network.udp)
        × (c.source ≡ laptop)
        × (remote_key strict.filtering_behavior c.destination
            ≡ remote_key strict.filtering_behavior server))
      (sent_in [] events)
translate_inbound-sent_example =
    translate_inbound-sent strict public_ip [] refl [] events 110 (run nat events) answer
      (set_destination_addr answer laptop) (unfold program in refl)

abbrev key : OutboundKey
key = record { proto = Network.udp; local = laptop; bound = Bound.anyone }

run-mapped_example :
    (inbound_key ((run nat events).cells 0) ≡ inbound_key ((run nat events).cells 0) → key ≡ key)
    × ((run nat events).inbound_map (inbound_key ((run nat events).cells 0)) ≡ some 0)
    × (port_base ((run nat events).cells 0).proto ≤ ((run nat events).cells 0).mapped.port)
    × (((run nat events).cells 0).mapped.port < 65536)
run-mapped_example =
    run-mapped strict public_ip [] [] events key key 0 0 refl (unfold program in refl)
      (unfold program in refl)

after-IsValid : IsValid after
unfolding run
after-IsValid =
    (run-IsReached strict public_ip [] refl (Event.outbound 100 request ∷ []) nat []
      (start-IsReached strict public_ip [] refl [])).valid

translate_inbound_expired_example :
    let (n', out) = translate_inbound after 131 answer in
    (out ≡ failed no_nat_binding_found)
    × (n'.inbound_map (destination_key Network.udp outside) ≡ none)
    × (n'.outbound_map (outbound_key (after.cells 0)) ≡ none)
translate_inbound_expired_example =
    translate_inbound_expired after 131 answer 0 after-IsValid (unfold program in refl)
      (unfold program in refl) (unfold program in omega arith)

abbrev pairs : Nat
pairs = made (record strict { mode = NatMode.one_to_one }) (public_ip ∷ []) (laptop.ip ∷ [])

abbrev paired_answer : Chunk
paired_answer = record answer {
  source = stranger;
  destination = record { ip = public_ip; port = request.source.port };
}

one_to_one-outbound_example :
    (translate_outbound pairs 100 request ≡ (
      pairs,
      translated (set_source_addr request (record { ip = public_ip; port = request.source.port })),
    ))
    × (translate_inbound pairs 900 paired_answer
        ≡ (pairs, translated (set_destination_addr paired_answer request.source)))
one_to_one-outbound_example =
    one_to_one-outbound pairs 100 900 public_ip request paired_answer refl (tt, tt)
      (unfold program in refl) refl refl refl
