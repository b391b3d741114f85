-- ===== src/Vnet/Resolver/Tests.antt =====
-- A resolver with a parent, and the theorems of Laws there.
use transport.Prelude.{
  ◌≡◌, refl, Option, none, some, [], ◌∷◌, String, str_eq, if◌then◌else◌, inr, arith,
}
use transport.Vnet.Addr.{Ip}
use transport.Vnet.Resolver.{Resolver, Resolvers, write_host, write_resolver, look_up}
use transport.Vnet.Resolver.Laws.{top, below, nearest, look_up-nearest}

abbrev parse : String → Option Ip
parse s = if str_eq s "10.0.0.1" then some (Ip.v4 0x0a000001) else none

abbrev plain : Resolver
plain = record { parent = none; hosts = λ name. none }

abbrev named : Resolver
named = record plain { hosts = write_host plain.hosts "a" (Ip.v4 0x0a000001) }

-- The resolver 0 has the parent 1, which knows the host.
abbrev store : Resolvers
store = write_resolver (write_resolver (λ p. plain) 1 named) 0 (record plain { parent = some 1 })

look_up-nearest_example : look_up 2 store 0 "a" ≡ some (nearest store (0 ∷ 1 ∷ []) "a")
look_up-nearest_example =
    look_up-nearest store 0 (0 ∷ 1 ∷ []) 2 "a" (below 0 1 (1 ∷ []) refl (top 1 refl)) (omega arith)

found_above : look_up 2 store 0 "a" ≡ some (inr (Ip.v4 0x0a000001))
unfolding look_up
found_above = refl
