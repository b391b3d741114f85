-- ===== src/Vnet/Nat/Valid.antt =====
-- The two maps of a translator agree, and no two mappings share a port.
use transport.Prelude.{
  ℕ, ◌+◌, ◌≤◌, ◌<◌, ◌≡◌, ◌≢◌, ◌↔◌, ◌⊎◌, refl, ap, sym, ◌∙◌, inl, inr, Bool, true, Option, some,
  some-inj, arith, Bool-cases,
}
use transport.Vnet.Chunk.{Network}
use transport.Vnet.NatState.{
  Nat, Mapping, OutboundKey, InboundKey, GoMap, outbound_key, inbound_key, assign, write_cell,
}
use transport.Vnet.Nat.{port_base, port_counter}

pub record IsValid (n : Nat) : Type 0 where
  pub outward :
      (k : OutboundKey) (p : ℕ)
      → n.outbound_map k ≡ some p
      → (p < n.next)
        × (outbound_key (n.cells p) ≡ k)
        × (n.inbound_map (inbound_key (n.cells p)) ≡ some p)
  pub inward :
      (k : InboundKey) (p : ℕ)
      → n.inbound_map k ≡ some p
      → (p < n.next)
        × (inbound_key (n.cells p) ≡ k)
        × (n.outbound_map (outbound_key (n.cells p)) ≡ some p)
  pub ports :
      (p : ℕ)
      → p < n.next
      → (port_base (n.cells p).proto ≤ (n.cells p).mapped.port)
        × ((n.cells p).mapped.port < port_base (n.cells p).proto + port_counter n (n.cells p).proto)
  pub counted : (proto : Network) → port_base proto + port_counter n proto ≤ 65536

module _ {K : Type 0} (eq : K → K → Bool) (eq_iff : (k j : K) → (eq k j ≡ true) ↔ (k ≡ j)) where
  -- A write is seen at its key, and nowhere else.
  pub assign_self : (m : GoMap K) (k : K) (v : Option ℕ) → assign eq m k v k ≡ v
  assign_self m k v = rw ((eq_iff k k).1 refl) refl

  pub assign_cases :
      (m : GoMap K) (k j : K) (v : Option ℕ) (p : ℕ)
      → assign eq m k v j ≡ some p
      → ((k ≡ j) × (v ≡ some p)) ⊎ ((k ≢ j) × (m j ≡ some p))
  assign_cases m k j v p e = elim (Bool-cases (eq k j)) [
    | inl same ↦ inl ((eq_iff k j).0 same, rw same at e)
    | inr other ↦ inr (λ s. (let t : eq k j ≡ true = (eq_iff k j).1 s in cc), rw other at e)
  ]

  pub assign_other : (m : GoMap K) (k j : K) (v : Option ℕ) → k ≢ j → assign eq m k v j ≡ m j
  assign_other m k j v h = elim (Bool-cases (eq k j)) [
    | inl same ↦ absurd (h ((eq_iff k j).0 same))
    | inr other ↦ rw other refl
  ]

pub write_cell_self : (cells : ℕ → Mapping) (p : ℕ) (m : Mapping) → write_cell cells p m p ≡ m
write_cell_self cells p m = ground arith

pub write_cell_other :
    (cells : ℕ → Mapping) (p q : ℕ) (m : Mapping) → p ≢ q → write_cell cells p m q ≡ cells q
write_cell_other cells p q m h = ground arith

-- Mappings that are in the maps and share a key are one.
pub outbound_key-inj :
    (n : Nat) (p q : ℕ) (k : OutboundKey)
    → IsValid n
    → n.outbound_map k ≡ some p
    → n.outbound_map (outbound_key (n.cells q)) ≡ some q
    → outbound_key (n.cells p) ≡ outbound_key (n.cells q)
    → p ≡ q
outbound_key-inj n p q k v e f s =
    let (_, same, _) = v.outward k p e in some-inj (sym e ∙ ap n.outbound_map (sym same ∙ s) ∙ f)

pub inbound_key-inj :
    (n : Nat) (p q : ℕ) (k : OutboundKey)
    → IsValid n
    → n.outbound_map k ≡ some p
    → n.inbound_map (inbound_key (n.cells q)) ≡ some q
    → inbound_key (n.cells p) ≡ inbound_key (n.cells q)
    → p ≡ q
inbound_key-inj n p q k v e f s =
    let (_, _, back) = v.outward k p e in some-inj (sym back ∙ ap n.inbound_map s ∙ f)
