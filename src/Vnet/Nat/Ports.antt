-- ===== src/Vnet/Nat/Ports.antt =====
-- Which external addresses are given out, and for how long.
use transport.Prelude.{
  ℕ, ◌≤◌, ◌<◌, ◌≡◌, refl, ap, sym, ◌∙◌, inl, inr, none, some, List, [], ◌∷◌, some-inj, arith,
}
use transport.Vnet.Addr.{Ip}
use transport.Vnet.Chunk.{Chunk}
use transport.Vnet.NatState.{
  Nat, NatType, normal, OutboundKey, failed, no_nat_binding_found, outbound_key, inbound_key,
  inbound_key_eq, outbound_key_eq, destination_key,
}
use transport.Vnet.Nat.{port_base, made, remove_mapping, translate_inbound}
use transport.Vnet.Nat.Keys.{inbound_key_eq_iff, outbound_key_eq_iff}
use transport.Vnet.Nat.Valid.{IsValid, assign_self}
use transport.Vnet.Nat.RoundTrip.{translate_inbound_cases, normal_inbound}
use transport.Vnet.Nat.Permission.{Event, run, run-IsReached, start-IsReached}

-- After any chunks, a translator in the normal mode has at most one binding for an external address
-- and protocol, the binding is found from that address, and its port lies in the protocol's range.
pub run-mapped :
    (t : NatType) (ip : Ip) (ips local : List Ip) (es : List Event) (k j : OutboundKey) (p q : ℕ)
    → t.mode ≡ normal
    → let n = run (made t (ip ∷ ips) local) es in
      n.outbound_map k ≡ some p
      → n.outbound_map j ≡ some q
      → (inbound_key (n.cells p) ≡ inbound_key (n.cells q) → k ≡ j)
        × (n.inbound_map (inbound_key (n.cells p)) ≡ some p)
        × (port_base (n.cells p).proto ≤ (n.cells p).mapped.port)
        × ((n.cells p).mapped.port < 65536)
run-mapped t ip ips local es k j p q mode e f =
    let n = run (made t (ip ∷ ips) local) es in
    let v =
      (run-IsReached t ip ips mode es (made t (ip ∷ ips) local) []
        (start-IsReached t ip ips mode local)).valid in
    let (below, same, back) = v.outward k p e in
    let (_, same', back') = v.outward j q f in
    (
      λ s.
          (let one : p ≡ q = some-inj (sym back ∙ ap n.inbound_map s ∙ back') in
            sym same ∙ ap (λ r. outbound_key (n.cells r)) one ∙ same'),
      back,
      (v.ports p below).0,
      omega (arith, v.ports p below, v.counted (n.cells p).proto),
    )

removed_lem :
    (n : Nat) (p : ℕ)
    → ((remove_mapping n p).inbound_map (inbound_key (n.cells p)) ≡ none)
      × ((remove_mapping n p).outbound_map (outbound_key (n.cells p)) ≡ none)
unfolding remove_mapping
removed_lem n p = (
  assign_self inbound_key_eq inbound_key_eq_iff n.inbound_map (inbound_key (n.cells p)) none,
  assign_self outbound_key_eq outbound_key_eq_iff n.outbound_map (outbound_key (n.cells p)) none,
)

-- When the lifetime of a binding is over, the next inbound chunk for it is refused, and the binding
-- is gone from both maps.
pub translate_inbound_expired :
    (n : Nat) (now : ℕ) (from : Chunk) (p : ℕ)
    → IsValid n
    → n.nat_type.mode ≡ normal
    → n.inbound_map (destination_key from.network from.destination) ≡ some p
    → (n.cells p).expires < now
    → let (n', out) = translate_inbound n now from in
      (out ≡ failed no_nat_binding_found)
      × (n'.inbound_map (destination_key from.network from.destination) ≡ none)
      × (n'.outbound_map (outbound_key (n.cells p)) ≡ none)
translate_inbound_expired n now from p v mode e over =
    let k = destination_key from.network from.destination in
    elim (translate_inbound_cases n now from) [
      | inl (absent, _) ↦ (let no_pointer : none ≡ some p = sym absent ∙ e in cc)
      | inr (q, there, outcome) ↦
          let same : q ≡ p = some-inj (sym there ∙ e) in
          elim outcome [
            | inr (live, _) ↦ absurd (omega (arith, ap (λ r. (n.cells r).expires) same))
            | inl (_, f) ↦
                let (_, key, _) = v.inward k p e in
                rw (normal_inbound n now from mode ∙ f) (
                  refl,
                  ap (λ r. (remove_mapping n r).inbound_map k) same
                      ∙ ap (remove_mapping n p).inbound_map (sym key)
                      ∙ (removed_lem n p).0,
                  ap (λ r. (remove_mapping n r).outbound_map (outbound_key (n.cells p))) same
                      ∙ (removed_lem n p).1,
                )
          ]
    ]
