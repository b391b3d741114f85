-- ===== src/Vnet/Net.antt =====
-- vnet/net.go: the addresses and the ports of a virtual host.
-- The mutex makes each exported method one atomic step.
pub mod Ports
use transport.Prelude.{
  ℕ, zero, suc, ◌+◌, ◌-◌, ◌%◌, Bool, true, false, ltb, ◌==◌, not, if◌then◌else◌, Option, none, some,
  List, [], ◌∷◌, ◌++◌, String, ◌⊎◌, inl, inr,
}
use transport.Interface.{
  Interface, NetAddr, ip_net, ip_addr, other_addr, ip_of, new_interface, add_address,
  remove_address, addresses, interface_named, change_named,
}
use transport.Vnet.Addr.{Ip, Addr, ip_eq, is_unspecified}
use transport.Vnet.NatState.{is_v6, bool_eq}
use transport.Vnet.NetState.{
  Error, no_interface, interface_not_found, end_port_less_than_start, port_space_exhausted,
  bind_failed_for, address_already_in_use, Net, is_loopback, same_family, loopback_v4, loopback_v6,
  unallocated,
}
use transport.Vnet.UdpConnMap.{UdpConn, UdpConnMap, find, new_udp_conn_map}

-- `_getInterface`
unfoldable pub get_interface : List Interface → String → Error ⊎ Interface
get_interface [] name = inl no_interface
get_interface (ifc ∷ ifcs) name = elim (interface_named (ifc ∷ ifcs) name) [
  | none ↦ inl interface_not_found
  | some i ↦ inr i
]

-- `InterfaceByIndex`
unfoldable pub interface_by_index : List Interface → ℕ → Error ⊎ Interface
interface_by_index [] index = inl interface_not_found
interface_by_index (ifc ∷ ifcs) index =
    if ifc.index == index then inr ifc else interface_by_index ifcs index

-- The addresses of an interface, where `Addrs` gives no error.
unfoldable pub addrs_or_none : Option (List NetAddr) → List NetAddr
addrs_or_none none = []
addrs_or_none (some addrs) = addrs

-- The inner loop of `getAllIPAddrs`.
unfoldable pub family_ips : Bool → List NetAddr → List Ip
unfolding ip_of
family_ips ipv6 [] = []
family_ips ipv6 (a ∷ rest) = elim (ip_of a) [
  | none ↦ family_ips ipv6 rest
  | some ip ↦ if bool_eq (is_v6 ip) ipv6 then ip ∷ family_ips ipv6 rest else family_ips ipv6 rest
]

unfoldable pub get_all_ip_addrs : List Interface → Bool → List Ip
unfolding family_ips addrs_or_none addresses
get_all_ip_addrs [] ipv6 = []
get_all_ip_addrs (ifc ∷ ifcs) ipv6 =
    family_ips ipv6 (addrs_or_none (addresses ifc)) ++ get_all_ip_addrs ifcs ipv6

-- The switch of `hasIPAddr`: an unspecified address stands for any of its family.
unfoldable pub matches : Ip → Option Ip → Bool
matches ip none = false
matches ip (some loc) = if is_unspecified ip then same_family ip loc else ip_eq loc ip

unfoldable pub any_matches : Ip → List NetAddr → Bool
unfolding ip_of
any_matches ip [] = false
any_matches ip (a ∷ rest) = if matches ip (ip_of a) then true else any_matches ip rest

unfoldable pub has_ip_addr : List Interface → Ip → Bool
unfolding any_matches addrs_or_none addresses
has_ip_addr [] ip = false
has_ip_addr (ifc ∷ ifcs) ip =
    if any_matches ip (addrs_or_none (addresses ifc)) then true else has_ip_addr ifcs ip

-- The result of `determineSourceIP`: an IP, nil, or a panic where eth0 has an address that is no
-- `*net.IPNet`.
pub data SourceIp : Type 0 where
  source : Ip → SourceIp
  no_source panicked : SourceIp

-- The loop over the addresses of eth0.
unfoldable pub first_of_family : Bool → List NetAddr → SourceIp
first_of_family ipv6 [] = no_source
first_of_family ipv6 (ip_net ip mask ∷ rest) =
    if bool_eq (is_v6 ip) ipv6 then source ip else first_of_family ipv6 rest
first_of_family ipv6 (ip_addr ip ∷ rest) = panicked
first_of_family ipv6 (other_addr a ∷ rest) = panicked

-- The family that is looked for: that of the local address, if there is one.
unfoldable pub wants_v6 : Option Ip → Ip → Bool
wants_v6 none dst = is_v6 dst
wants_v6 (some loc) dst = is_v6 loc

unfoldable pub source_on_eth0 : List Interface → Bool → SourceIp
unfolding first_of_family addresses get_interface
source_on_eth0 ifcs ipv6 = elim (get_interface ifcs "eth0") [
  | inl e ↦ no_source
  | inr ifc ↦ elim (addresses ifc) [ none ↦ no_source | some addrs ↦ first_of_family ipv6 addrs ]
]

unfoldable pub source_for_any : List Interface → Option Ip → Ip → SourceIp
unfolding source_on_eth0 wants_v6
source_for_any ifcs loc dst =
    if is_loopback dst
    then source (if wants_v6 loc dst then loopback_v6 else loopback_v4)
    else source_on_eth0 ifcs (wants_v6 loc dst)

unfoldable pub determine_source_ip : List Interface → Option Ip → Ip → SourceIp
unfolding source_for_any
determine_source_ip ifcs none dst = source_for_any ifcs none dst
determine_source_ip ifcs (some loc) dst =
    if is_unspecified loc then source_for_any ifcs (some loc) dst else source loc

-- The second loop of `allocateLocalAddr`; `find` may change the map.
unfoldable pub check_free : UdpConnMap → List Ip → ℕ → Option Error × UdpConnMap
check_free m [] port = (none, m)
check_free m (ip ∷ ips) port =
    let (found, m') = find m (record { ip = ip; port = port }) in
    elim found [ some c ↦ (some address_already_in_use, m') | none ↦ check_free m' ips port ]

-- The addresses that a socket on `ip` is to be bound to.
unfoldable pub bind_ips : List Interface → Ip → List Ip
unfolding get_all_ip_addrs has_ip_addr
bind_ips ifcs ip =
    if is_unspecified ip
    then get_all_ip_addrs ifcs (is_v6 ip)
    else if has_ip_addr ifcs ip
    then ip ∷ []
    else []

unfoldable pub allocate : UdpConnMap → List Ip → ℕ → Option Error × UdpConnMap
allocate m [] port = (some bind_failed_for, m)
allocate m (ip ∷ ips) port = check_free m (ip ∷ ips) port

unfoldable pub allocate_local_addr : Net → Ip → ℕ → Option Error × Net
unfolding allocate bind_ips
allocate_local_addr v ip port =
    let (e, m) = allocate v.udp_conns (bind_ips v.interfaces ip) port in
    (e, record v { udp_conns = m })

-- The loop of `assignPort`, for `left` more turns from turn `i`.
unfoldable pub try_ports : Net → Ip → ℕ → ℕ → ℕ → ℕ → ℕ → (Error ⊎ ℕ) × Net
try_ports v ip start space offset zero i = (inl port_space_exhausted, v)
try_ports v ip start space offset (suc left) i =
    let port = (offset + i) % space + start in
    let (e, v') = allocate_local_addr v ip port in
    elim e [ none ↦ (inr port, v') | some _ ↦ try_ports v' ip start space offset left (i + 1) ]

-- `assignPort`; `intn` is `rand.Intn`.
unfoldable pub assign_port : (ℕ → ℕ) → Net → Ip → ℕ → ℕ → (Error ⊎ ℕ) × Net
unfolding try_ports
assign_port intn v ip start end =
    if ltb end start
    then (inl end_port_less_than_start, v)
    else (let space = end + 1 - start in try_ports v ip start space (intn space) space 0)

-- The addresses of `NetConfig` that parse.
unfoldable pub parsed : (String → Option Ip) → List String → List Ip
parsed parse_ip [] = []
parsed parse_ip (s ∷ rest) = elim (parse_ip s) [
  | none ↦ parsed parse_ip rest
  | some ip ↦ ip ∷ parsed parse_ip rest
]

abbrev pub lo0 : Interface
lo0 =
    add_address (add_address (new_interface 1 "lo0String") (ip_net loopback_v4 8))
      (ip_net loopback_v6 128)

abbrev pub eth0 : Interface
eth0 = new_interface 2 "eth0"

-- `NewNet`; `parse_ip` is `net.ParseIP`.
unfoldable pub new_net : (String → Option Ip) → List String → Net
unfolding parsed
new_net parse_ip static_ips = record {
  interfaces = lo0 ∷ eth0 ∷ [];
  static_ips = parsed parse_ip static_ips;
  router = none;
  udp_conns = new_udp_conn_map;
  sockets = λ p. unallocated;
  next = 0;
}

abbrev pub get_static_ips : Net → List Ip
get_static_ips v = v.static_ips

abbrev pub set_router : Net → ℕ → Net
set_router v r = record v { router = some r }
