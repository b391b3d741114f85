-- ===== src/Interface.antt =====
-- net.go: a network interface with its addresses, which hosts and routers of package vnet hold.
-- A `net.Interface` is kept as far as package vnet reads it: its index and its name.
mod Laws
use transport.Prelude.{
  ℕ, ◌≡◌, Bool, true, false, Option, none, some, List, [], ◌∷◌, ◌++◌, String, str_eq, if◌then◌else◌,
}
use transport.Vnet.Addr.{Ip, Addr, ip_eq}

-- A `net.Addr`: a `*net.IPNet` (with the length of its mask), a `*net.IPAddr` or something else.
pub data NetAddr : Type 0 where
  ip_net : Ip → ℕ → NetAddr
  ip_addr : Ip → NetAddr
  other_addr : Addr → NetAddr

pub record Interface : Type 0 where
  pub index : ℕ
  pub name : String
  pub addrs : List NetAddr

unfoldable pub new_interface : ℕ → String → Interface
new_interface index name = record { index = index; name = name; addrs = [] }

-- The type switch that package vnet and `RemoveAddress` make.
unfoldable pub ip_of : NetAddr → Option Ip
ip_of (ip_net ip mask) = some ip
ip_of (ip_addr ip) = some ip
ip_of (other_addr a) = none

unfoldable pub has_ip : Ip → Option Ip → Bool
has_ip ip none = false
has_ip ip (some a) = ip_eq a ip

unfoldable pub add_address : Interface → NetAddr → Interface
add_address ifc a = record ifc { addrs = ifc.addrs ++ (a ∷ []) }

-- The loop of `RemoveAddress`: what is left when the first address with the IP is cut out.
unfoldable pub without_address : Ip → List NetAddr → Option (List NetAddr)
unfolding has_ip ip_of
without_address ip [] = none
without_address ip (a ∷ rest) = elim (has_ip ip (ip_of a)) [
  | true ↦ some rest
  | false ↦ elim (without_address ip rest) [ none ↦ none | some kept ↦ some (a ∷ kept) ]
]

unfoldable pub store_addrs : Interface → Option (List NetAddr) → Interface × Bool
store_addrs ifc none = (ifc, false)
store_addrs ifc (some kept) = (record ifc { addrs = kept }, true)

unfoldable pub remove_address : Interface → Ip → Interface × Bool
unfolding store_addrs
remove_address ifc ip = store_addrs ifc (without_address ip ifc.addrs)

-- `Addrs`; `none` is ErrNoAddressAssigned.
unfoldable pub addresses : Interface → Option (List NetAddr)
addresses ifc = elim ifc.addrs [ [] ↦ none | a ∷ rest ↦ some (a ∷ rest) ]

-- `_getInterface` of package vnet: the first interface of that name.
unfoldable pub interface_named : List Interface → String → Option Interface
interface_named [] name = none
interface_named (ifc ∷ ifcs) name =
    if str_eq ifc.name name then some ifc else interface_named ifcs name

-- A change of the object that `_getInterface` returned, in the slice that holds it.
unfoldable pub change_named : (Interface → Interface) → List Interface → String → List Interface
change_named f [] name = []
change_named f (ifc ∷ ifcs) name =
    if str_eq ifc.name name then f ifc ∷ ifcs else ifc ∷ change_named f ifcs name
