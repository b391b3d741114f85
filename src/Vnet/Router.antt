-- ===== src/Vnet/Router.antt =====
-- vnet/router.go: how a network is put together.
-- The mutex makes each exported method one atomic step.
pub mod Addresses
pub mod Nics
use transport.Prelude.{
  ℕ, ◌+◌, ◌*◌, ◌/◌, ◌%◌, ◌==◌, Bool, true, false, not, ltb, if◌then◌else◌, Option, none, some, List,
  [], ◌∷◌, ◌++◌, String, ◌⊎◌, inl, inr, length,
}
use transport.Prelude.Int.{ℤ, pos, pos_part}
use transport.Interface.{
  Interface, NetAddr, ip_net, ip_addr, ip_of, new_interface, add_address, addresses, change_named,
  remove_address,
}
use transport.Vnet.Addr.{Ip, Addr, ip_eq}
use transport.Vnet.Chunk.{Chunk, set_timestamp}
use transport.Vnet.ChunkQueue.{ChunkQueue, new_chunk_queue, push as queue_push}
use transport.Vnet.NatState.{
  Nat, NatType, NatMode, normal, EndpointDependencyType, endpoint_independent,
  endpoint_addr_port_dependent, Error as NatError,
}
use transport.Vnet.Nat.{new_nat}
use transport.Vnet.NetState.{Net, Error as NetError, loopback_v4}
use transport.Vnet.Net.{get_interface, set_router}
use transport.Vnet.Resolver.{set_parent}
use transport.Vnet.RouterState.{
  Error, address_space_exhausted, static_ip_is_beyond_subnet, no_ip_addr_eth0,
  router_already_started, router_already_stopped, nat_error, net_error, Subnet, contains, Nic,
  host_nic, router_nic, Router, Network, write_router, write_net, write_nic, nic_interfaces,
  nic_static_ips, nic_add_address,
}

-- `assignIPAddress`: the first three bytes of the subnet's address, and the next number.
unfoldable pub assign_ip_address : Router → (Error ⊎ Ip) × Router
assign_ip_address r =
    if r.last_id == 0xfe
    then (inl address_space_exhausted, r)
    else (let id = (r.last_id + 1) % 256 in
        (inr (Ip.v4 (r.ipv4_net.base / 256 * 256 + id)), record r { last_id = id }))

-- `addIPToNIC`
unfoldable pub add_ip_to_nic : Router → Nic → Ip → Router × Option Error
add_ip_to_nic r nic ip =
    if contains r.ipv4_net ip
    then (record r { nics = write_nic r.nics ip (some nic) }, none)
    else (r, some static_ip_is_beyond_subnet)

-- `removeIPFromNIC`
unfoldable pub remove_ip_from_nic : Router → Ip → Router
remove_ip_from_nic r ip = record r { nics = write_nic r.nics ip none }

-- The loop of `addNIC`.
unfoldable pub add_ips : Network → ℕ → Nic → List Ip → Network × Option Error
add_ips w p nic [] = (w, none)
add_ips w p nic (ip ∷ ips) =
    let r = w.routers p in
    elim (contains r.ipv4_net ip) [
      | false ↦ (w, some static_ip_is_beyond_subnet)
      | true ↦
          let w' = nic_add_address w nic (ip_net ip r.ipv4_net.ones) in
          let r' = w'.routers p in
          add_ips (write_router w' p (record r' { nics = write_nic r'.nics ip (some nic) })) p nic
            ips
    ]

-- The addresses of eth0 that `setRouter` gives to the address translator.
unfoldable pub mapped_ips : List NetAddr → List Ip
unfolding ip_of
mapped_ips [] = []
mapped_ips (a ∷ rest) = elim (ip_of a) [ none ↦ mapped_ips rest | some ip ↦ ip ∷ mapped_ips rest ]

unfoldable pub local_ips : (Ip → Option Ip) → List Ip → List Ip
local_ips locals [] = []
local_ips locals (ip ∷ ips) = elim (locals ip) [
  | none ↦ local_ips locals ips
  | some loc ↦ loc ∷ local_ips locals ips
]

abbrev pub default_nat_type : NatType
default_nat_type = record {
  mode = normal;
  mapping_behavior = endpoint_independent;
  filtering_behavior = endpoint_addr_port_dependent;
  hairpinning = false;
  port_preservation = false;
  mapping_life_time = 30000000000;
}

unfoldable pub nat_type_of : Option NatType → NatType
nat_type_of none = default_nat_type
nat_type_of (some t) = t

-- The end of `setRouter`: a translator that cannot be made leaves nil.
unfoldable pub store_nat : Router → NatType → NatError ⊎ Nat → Router × Option Error
store_nat r t (inl e) = (record r { nat_type = some t; nat = none }, some (nat_error e))
store_nat r t (inr n) = (record r { nat_type = some t; nat = some n }, none)

unfoldable pub set_up_nat : Router → Option (List NetAddr) → Router × Option Error
unfolding store_nat nat_type_of
set_up_nat r none = (r, some no_ip_addr_eth0)
set_up_nat r (some addrs) = store_nat r (nat_type_of r.nat_type) (
    new_nat (nat_type_of r.nat_type) (mapped_ips addrs)
      (local_ips r.static_local_ips (mapped_ips addrs)))

unfoldable pub set_nat : Router → Router × Option Error
unfolding set_up_nat addresses get_interface
set_nat r = elim (get_interface r.interfaces "eth0") [
  | inl e ↦ (r, some (net_error e))
  | inr ifc ↦ set_up_nat r (addresses ifc)
]

-- `Router.setRouter`, of the router at `child`.
unfoldable pub set_parent_router : Network → ℕ → ℕ → Network × Option Error
set_parent_router w child parent =
    let (r, e) = set_nat (record (w.routers child) { parent = some parent }) in
    (
      record w {
        routers = (write_router w child r).routers;
        resolvers = set_parent w.resolvers child parent;
      },
      e,
    )

-- The method `setRouter` of a NIC.
unfoldable pub nic_set_router : Network → Nic → ℕ → Network × Option Error
unfolding set_parent_router
nic_set_router w (host_nic v) p = (write_net w v (set_router (w.nets v) p), none)
nic_set_router w (router_nic c) p = set_parent_router w c p

-- The addresses that a NIC is to have: its static ones, or one that the router assigns.
unfoldable pub nic_ips : Network → ℕ → List Ip → Network × (Error ⊎ List Ip)
nic_ips w p (ip ∷ ips) = (w, inr (ip ∷ ips))
nic_ips w p [] =
    let (given, r) = assign_ip_address (w.routers p) in
    elim given [
      | inl e ↦ (write_router w p r, inl e)
      | inr ip ↦ (write_router w p r, inr (ip ∷ []))
    ]

unfoldable pub join : ℕ → Nic → Network × Option Error → Network × Option Error
join p nic (w, some e) = (w, some e)
join p nic (w, none) = nic_set_router w nic p

unfoldable pub add_given : ℕ → Nic → Network × (Error ⊎ List Ip) → Network × Option Error
unfolding join
add_given p nic (w, inl e) = (w, some e)
add_given p nic (w, inr ips) = join p nic (add_ips w p nic ips)

-- `addNIC` and `AddNet`
unfoldable pub add_nic : Network → ℕ → Nic → Network × Option Error
unfolding add_given nic_ips
add_nic w p nic = elim (get_interface (nic_interfaces w nic) "eth0") [
  | inl e ↦ (w, some (net_error e))
  | inr ifc ↦ add_given p nic (nic_ips w p (nic_static_ips w nic))
]

-- `AddChildRouter`, which `AddRouter` ends with.
unfoldable pub add_child : ℕ → ℕ → Network × Option Error → Network × Option Error
add_child p c (w, some e) = (w, some e)
add_child p c (w, none) = (
  write_router w p (record (w.routers p) { children = (w.routers p).children ++ (c ∷ []) }),
  none,
)

unfoldable pub add_child_router : Network → ℕ → ℕ → Network × Option Error
unfolding add_child set_parent_router
add_child_router w p c = add_child p c (set_parent_router w c p)

-- `AddRouter`
unfoldable pub then_child : ℕ → ℕ → Network × Option Error → Network × Option Error
unfolding add_child_router
then_child p c (w, some e) = (w, some e)
then_child p c (w, none) = add_child_router w p c

unfoldable pub add_router : Network → ℕ → ℕ → Network × Option Error
unfolding then_child add_nic
add_router w p c = then_child p c (add_nic w p (router_nic c))

-- `AddChunkFilter`
abbrev pub add_chunk_filter : Router → (Chunk → Bool) → Router
add_chunk_filter r f = record r { chunk_filters = r.chunk_filters ++ (f ∷ []) }

-- `push`, at the time `now`. A full `pushCh` stays as it is.
unfoldable pub enqueued : Router → ChunkQueue × Bool → Router
enqueued r (q, true) = record r { queue = q; signalled = true }
enqueued r (q, false) = record r { queue = q }

unfoldable pub push : Router → ℕ → Chunk → Router
unfolding enqueued
push r now c = if r.started then enqueued r (queue_push r.queue (set_timestamp c now)) else r

-- `Net.AddAddress` and `Net.RemoveAddress`, for the host at a pointer.
unfoldable pub on_router :
    Network → Option ℕ → (Router → Router × Option Error) → Network × Option Error
on_router w none f = (w, none)
on_router w (some p) f = (write_router w p (f (w.routers p)).0, (f (w.routers p)).1)

unfoldable pub host_add_address : Network → ℕ → String → Ip → ℕ → Network × Option Error
unfolding on_router add_ip_to_nic
host_add_address w v name ip mask = elim (get_interface (w.nets v).interfaces name) [
  | inl e ↦ (w, some (net_error e))
  | inr ifc ↦
      on_router
        (write_net w v (record (w.nets v) {
          interfaces =
              change_named (λ i. add_address i (ip_net ip mask)) (w.nets v).interfaces name;
        }))
        (w.nets v).router (λ r. add_ip_to_nic r (host_nic v) ip)
]

unfoldable pub host_remove_address : Network → ℕ → String → Ip → Network × Option Error
unfolding on_router remove_ip_from_nic
host_remove_address w v name ip = elim (get_interface (w.nets v).interfaces name) [
  | inl e ↦ (w, some (net_error e))
  | inr ifc ↦
      on_router
        (write_net w v (record (w.nets v) {
          interfaces = change_named (λ i. (remove_address i ip).0) (w.nets v).interfaces name;
        }))
        (w.nets v).router (λ r. (remove_ip_from_nic r ip, none))
]
