-- ===== src/Vnet/Dispatch/Replies.antt =====
-- vnet/router.go with vnet/nat.go: a reply to a chunk that left through the parent comes back.
use transport.Prelude.{
  ℕ, ◌+◌, ◌≤◌, ◌≡◌, refl, sym, ap, Option, none, some, List, [], ◌∷◌, Bool-cases, inl, inr,
}
use mathlib.Core.Path.{subst}
use transport.Vnet.Addr.{Ip}
use transport.Vnet.Chunk.{Chunk, set_destination_addr}
use transport.Vnet.NatState.{Nat, normal, Translation, translated, dropped, failed, panicked}
use transport.Vnet.Nat.{translate_outbound}
use transport.Vnet.Nat.Find.{filter_of}
use transport.Vnet.Nat.Valid.{IsValid}
use transport.Vnet.Nat.RoundTrip.{translate_inbound-outbound}
use transport.Vnet.RouterState.{contains, Nic, Router}
use transport.Vnet.Router.{push}
use transport.Vnet.Dispatch.{
  to_nic, to_parent, passes, Routed, goes_on, ends, to_known_nic, after_nat, via_nat, via_parent,
  route, pushed_inbound, on_inbound_chunk,
}

-- Where the one action is to push a chunk to the parent, it is what the translator made of the
-- chunk, and the router holds the translator that this leaves.
abbrev FromNat : Router → Nat → ℕ → Chunk → Routed → Type 0
FromNat r n now c (ends r' outcome) = Unit
FromNat r n now c (goes_on r' []) = Unit
FromNat r n now c (goes_on r' (to_nic nic s ∷ actions)) = Unit
FromNat r n now c (goes_on r' (to_parent p s ∷ actions)) =
    (n' : Nat) × (translate_outbound n now c ≡ (n', translated s))
    × (r' ≡ record r { nat = some n' })

after_nat-FromNat :
    (r : Router) (n n' : Nat) (now : ℕ) (c : Chunk) (p : ℕ) (t : Translation)
    → translate_outbound n now c ≡ (n', t)
    → FromNat r n now c (after_nat r p n' t)
unfolding after_nat
after_nat-FromNat r n n' now c p (translated s) e = (n', e, refl)
after_nat-FromNat r n n' now c p dropped e = tt
after_nat-FromNat r n n' now c p (failed err) e = tt
after_nat-FromNat r n n' now c p panicked e = tt

to_known_nic-FromNat :
    (r : Router) (n : Nat) (now : ℕ) (c : Chunk) (o : Option Nic)
    → FromNat r n now c (to_known_nic r c o)
unfolding to_known_nic
to_known_nic-FromNat r n now c none = tt
to_known_nic-FromNat r n now c (some nic) = tt

via_parent-FromNat :
    (r : Router) (n : Nat) (now : ℕ) (c : Chunk) (p : Option ℕ)
    → r.nat ≡ some n
    → FromNat r n now c (via_parent r now c p)
unfolding via_parent via_nat
via_parent-FromNat r n now c none e = tt
via_parent-FromNat r n now c (some p) e =
    subst (λ o. FromNat r n now c (via_nat r now c p o)) (sym e)
      (after_nat-FromNat r n (translate_outbound n now c).0 now c p (translate_outbound n now c).1
        refl)

route-FromNat :
    (r : Router) (n : Nat) (now : ℕ) (c : Chunk)
    → r.nat ≡ some n
    → FromNat r n now c (route r now c)
unfolding route
route-FromNat r n now c e = elim (Bool-cases (passes r.chunk_filters c)) [
  | inr blocked ↦ rw (blocked, route) tt
  | inl free ↦ elim (Bool-cases (contains r.ipv4_net c.destination.ip)) [
    | inl inside ↦
        rw (free, route, inside) (to_known_nic-FromNat r n now c (r.nics c.destination.ip))
    | inr outside ↦ rw (free, route, outside) (via_parent-FromNat r n now c r.parent e)
  ]
]

-- When a router whose valid translator works in the normal mode has passed a chunk on to its
-- parent, a reply to the new source address that comes in from the parent, from a remote address
-- that the filtering behaviour takes for the one the chunk went to, and before the lifetime is
-- over, is pushed to the queue of the router with the address that the chunk came from.
pub on_inbound_chunk-route :
    (r r' : Router) (n : Nat) (now later p : ℕ) (c sent reply : Chunk) (ip : Ip) (ips : List Ip)
    → r.nat ≡ some n
    → IsValid n
    → n.nat_type.mode ≡ normal
    → n.mapped_ips ≡ ip ∷ ips
    → route r now c ≡ goes_on r' (to_parent p sent ∷ [])
    → reply.network ≡ c.network
    → reply.destination ≡ sent.source
    → filter_of n reply.source ≡ filter_of n c.destination
    → later ≤ now + n.nat_type.mapping_life_time
    → on_inbound_chunk r' later reply ≡ some (push r' later (set_destination_addr reply c.source))
unfolding on_inbound_chunk pushed_inbound
on_inbound_chunk-route r r' n now later p c sent reply ip ips held valid mode mapped passed net dst
      remote time =
    let (n', out, left) = subst (FromNat r n now c) passed (route-FromNat r n now c held) in
    let back =
      translate_inbound-outbound n n' now later c sent reply ip ips valid mode mapped out net dst
        remote time in
    subst
      (λ q.
        on_inbound_chunk q later reply ≡ some (push q later (set_destination_addr reply c.source)))
      (sym left) (ap (λ o. pushed_inbound (record r { nat = some o.0 }) later o.1) back)
