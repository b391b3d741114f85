-- ===== src/Vnet/Resolver.antt =====
-- vnet/resolver.go: host names, and the resolvers that ask their parents.
-- Resolvers are shared objects: a store gives what their pointers refer to. `parse_ip` is
-- `net.ParseIP`.
pub mod Laws
mod Tests
use transport.Prelude.{
  ℕ, zero, suc, ◌==◌, Bool, true, false, if◌then◌else◌, Option, none, some, List, [], ◌∷◌, String,
  str_eq, ◌⊎◌, inl, inr,
}
use transport.Vnet.Addr.{Ip}

-- The errors of the file, the last for the `net.DNSError`.
pub data Error : Type 0 where
  hostname_empty failed_to_parse_ip_addr host_not_found : Error

-- Go's map from names: a lookup and a write are used.
pub record Resolver : Type 0 where
  pub parent : Option ℕ
  pub hosts : String → Option Ip

abbrev pub Resolvers : Type 0
Resolvers = ℕ → Resolver

abbrev pub write_host : (String → Option Ip) → String → Ip → String → Option Ip
write_host hosts name ip other = if str_eq name other then some ip else hosts other

abbrev pub write_resolver : Resolvers → ℕ → Resolver → Resolvers
write_resolver store p r q = if p == q then r else store q

-- `addHost`
unfoldable pub store_host : Resolver → String → Option Ip → Error ⊎ Resolver
store_host r name none = inl failed_to_parse_ip_addr
store_host r name (some ip) = inr (record r { hosts = write_host r.hosts name ip })

unfoldable pub add_host : (String → Option Ip) → Resolver → String → String → Error ⊎ Resolver
unfolding store_host
add_host parse_ip r name ip_addr =
    if str_eq name "" then inl hostname_empty else store_host r name (parse_ip ip_addr)

-- `newResolver`, which only logs an error.
unfoldable pub or_else : Resolver → Error ⊎ Resolver → Resolver
or_else r (inl e) = r
or_else r (inr r') = r'

unfoldable pub new_resolver : (String → Option Ip) → Resolver
unfolding or_else
new_resolver parse_ip =
    let empty : Resolver = record { parent = none; hosts = λ name. none } in
    or_else empty (add_host parse_ip empty "localhost" "127.0.0.1")

-- `setParent`
unfoldable pub set_parent : Resolvers → ℕ → ℕ → Resolvers
set_parent store p parent = write_resolver store p (record (store p) { parent = some parent })

-- `lookUp`, on fuel, which a chain of parents uses up: `none` where it does not suffice.
unfoldable pub look_up : ℕ → Resolvers → ℕ → String → Option (Error ⊎ Ip)
look_up zero store p name = none
look_up (suc fuel) store p name = elim ((store p).hosts name) [
  | some ip ↦ some (inr ip)
  | none ↦ elim (store p).parent [
    | none ↦ some (inl host_not_found)
    | some q ↦ look_up fuel store q name
  ]
]
