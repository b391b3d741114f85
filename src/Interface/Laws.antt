-- ===== src/Interface/Laws.antt =====
-- net.go: what an interface's addresses are after they have been added and removed.
use transport.Prelude.{
  ℕ, ◌≡◌, refl, Bool, true, false, none, some, List, [], ◌∷◌, ◌++◌, arith, ◌||◌, ap,
}
use transport.Vnet.Addr.{Ip, ip_eq_refl}
use transport.Interface.{
  NetAddr, ip_net, Interface, ip_of, has_ip, add_address, without_address, store_addrs,
  remove_address,
}

-- Does an address of the list have this IP?
abbrev pub holds_ip : Ip → List NetAddr → Bool
holds_ip ip [] = false
holds_ip ip (a ∷ rest) = has_ip ip (ip_of a) || holds_ip ip rest

without_address-append :
    (ip : Ip) (addrs : List NetAddr) (a : NetAddr)
    → holds_ip ip addrs ≡ false
    → has_ip ip (ip_of a) ≡ true
    → without_address ip (addrs ++ (a ∷ [])) ≡ some addrs
unfolding without_address
without_address-append ip [] a fresh h = ground arith
without_address-append ip (b ∷ rest) a fresh h = ground (arith, without_address-append ip rest a)

without_address-absent :
    (ip : Ip) (addrs : List NetAddr) → holds_ip ip addrs ≡ false → without_address ip addrs ≡ none
unfolding without_address
without_address-absent ip [] fresh = refl
without_address-absent ip (b ∷ rest) fresh = ground (arith, without_address-absent ip rest)

-- Where no address of the interface has the IP, adding one with it and removing the IP gives the
-- interface back, and removing the IP straight away changes nothing and reports so.
pub remove_address-add_address :
    (ifc : Interface) (ip : Ip) (mask : ℕ)
    → holds_ip ip ifc.addrs ≡ false
    → (remove_address (add_address ifc (ip_net ip mask)) ip ≡ (ifc, true))
      × (remove_address ifc ip ≡ (ifc, false))
unfolding remove_address add_address ip_of has_ip
remove_address-add_address ifc ip mask fresh = (
  ap (store_addrs (record ifc { addrs = ifc.addrs ++ (ip_net ip mask ∷ []) }))
      (without_address-append ip ifc.addrs (ip_net ip mask) fresh (ip_eq_refl ip)),
  ap (store_addrs ifc) (without_address-absent ip ifc.addrs fresh),
)
