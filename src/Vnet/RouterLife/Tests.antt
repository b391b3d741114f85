-- ===== src/Vnet/RouterLife/Tests.antt =====
-- A router with a child, made from texts, started and stopped.
use transport.Prelude.{
  ◌≡◌, refl, true, false, Option, none, some, List, [], ◌∷◌, String, str_eq, if◌then◌else◌, ◌⊎◌,
  inl, inr,
}
use transport.Prelude.Int.{pos}
use transport.Interface.{new_interface, add_address}
use transport.Vnet.Addr.{Ip, ip_eq}
use transport.Vnet.ChunkQueue.{new_chunk_queue}
use transport.Vnet.RouterState.{
  Error, invalid_local_ip_in_static_ips, local_ip_beyond_static_ips_subset,
  local_ip_no_statics_ips_associated, router_already_started, router_already_stopped, contains,
  Router, Network, write_router,
}
use transport.Vnet.NetState.{unallocated}
use transport.Vnet.RouterLife.{
  put_local, local_of, checked_local, add_static, read_static, read_statics, RouterConfig, made,
  check_locals, new_router, for_children, start, then_stopped, stop,
}

program : Unit {0}
unfolding put_local local_of checked_local add_static read_static read_statics check_locals
    new_router for_children start then_stopped stop contains ip_eq new_interface add_address
    new_chunk_queue
program = tt

abbrev outer : Ip
outer = Ip.v4 0x1b010102

abbrev inner : Ip
inner = Ip.v4 0x0a000009

abbrev parse : String → Option Ip
parse s =
    if str_eq s "27.1.1.2" then some outer else if str_eq s "10.0.0.9" then some inner else none

abbrev split : String → List String
split s =
    if str_eq s "27.1.1.2/10.0.0.9"
    then "27.1.1.2" ∷ "10.0.0.9" ∷ []
    else if str_eq s "27.1.1.2/x"
    then "27.1.1.2" ∷ "x" ∷ []
    else if str_eq s "27.1.1.2/27.1.1.2"
    then "27.1.1.2" ∷ "27.1.1.2" ∷ []
    else s ∷ []

abbrev config : List String → RouterConfig
config static_ips = record {
  ipv4_net = record { base = 0x0a000000; ones = 24 };
  queue_size = pos 0;
  static_ips = static_ips;
  nat_type = none;
  min_delay = 0;
}

abbrev failure : Error ⊎ Router → Option Error
failure (inl e) = some e
failure (inr r) = none

paired : failure (new_router parse split (config ("27.1.1.2/10.0.0.9" ∷ []))) ≡ none
unfolding program
paired = refl

bad_local :
    failure (new_router parse split (config ("27.1.1.2/x" ∷ [])))
    ≡ some invalid_local_ip_in_static_ips
unfolding program
bad_local = refl

local_outside :
    failure (new_router parse split (config ("27.1.1.2/27.1.1.2" ∷ [])))
    ≡ some local_ip_beyond_static_ips_subset
unfolding program
local_outside = refl

-- One of two addresses has a local one.
half_paired :
    failure (new_router parse split (config ("27.1.1.2/10.0.0.9" ∷ "10.0.0.9" ∷ [])))
    ≡ some local_ip_no_statics_ips_associated
unfolding program
half_paired = refl

abbrev leaf : Router
leaf = made (config []) (record { ips = []; locals = [] })

-- The router 0 has the child 1.
abbrev network : Network
network =
    write_router
      (record {
        nets = λ p. record {
          interfaces = [];
          static_ips = [];
          router = none;
          udp_conns = [];
          sockets = λ q. unallocated;
          next = 0;
        };
        routers = λ p. leaf;
        resolvers = λ p. record { parent = none; hosts = λ name. none };
      })
      0 (record leaf { children = 1 ∷ [] })

abbrev result : Option (Network × Option Error) → Option Error
result none = none
result (some r) = r.1

abbrev after : Option (Network × Option Error) → Network
after none = network
after (some r) = r.0

child_runs : ((after (start 2 network 0)).routers 1).started ≡ true
unfolding program
child_runs = refl

started_twice : result (start 2 (after (start 2 network 0)) 0) ≡ some router_already_started
unfolding program
started_twice = refl

child_stopped : ((after (stop 2 (after (start 2 network 0)) 0)).routers 1).started ≡ false
unfolding program
child_stopped = refl

stopped_twice : result (stop 2 network 0) ≡ some router_already_stopped
unfolding program
stopped_twice = refl
