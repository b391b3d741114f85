-- ===== src/Vnet/Nat/Changes.antt =====
-- The changes that a translator makes to its maps keep them in agreement.
use transport.Prelude.{
  ℕ, ◌+◌, ◌≤◌, ◌<◌, ◌≡◌, ◌≢◌, refl, ap, sym, ◌∙◌, inl, inr, ◌==◌, none, some, some-inj, arith,
  Bool-cases,
}
use transport.Vnet.Chunk.{Network, udp, tcp}
use transport.Vnet.NatState.{
  Nat, Mapping, OutboundKey, InboundKey, GoMap, outbound_key_eq, inbound_key_eq, outbound_key,
  inbound_key, assign, write_cell,
}
use transport.Vnet.Nat.{port_base, port_counter, count_port, remove_mapping, insert_mapping}
use transport.Vnet.Nat.Keys.{outbound_key_eq_iff, inbound_key_eq_iff}
use transport.Vnet.Nat.Valid.{
  IsValid, assign_self, assign_cases, assign_other, outbound_key-inj, inbound_key-inj,
}

-- Removing a mapping that is in the maps leaves the others.
pub remove_mapping-IsValid :
    (n : Nat) (p : ℕ) (k : OutboundKey)
    → IsValid n
    → n.outbound_map k ≡ some p
    → IsValid (remove_mapping n p)
unfolding remove_mapping
remove_mapping-IsValid n p k v e = record {
  outward = λ j q f.
      elim (assign_cases outbound_key_eq outbound_key_eq_iff n.outbound_map
        (outbound_key (n.cells p)) j none q f) [
          | inl (s, t) ↦ cc
          | inr (other, g) ↦
              let (below, same, back) = v.outward j q g in
              (
                below,
                same,
                assign_other inbound_key_eq inbound_key_eq_iff n.inbound_map
                      (inbound_key (n.cells p)) (inbound_key (n.cells q)) none
                      (λ s. other (
                        ap (λ r. outbound_key (n.cells r)) (inbound_key-inj n p q k v e back s)
                        ∙ same))
                    ∙ back,
              )
        ];
  inward = λ j q f.
      elim (assign_cases inbound_key_eq inbound_key_eq_iff n.inbound_map (inbound_key (n.cells p)) j
        none q f) [
          | inl (s, t) ↦ cc
          | inr (other, g) ↦
              let (below, same, back) = v.inward j q g in
              (
                below,
                same,
                assign_other outbound_key_eq outbound_key_eq_iff n.outbound_map
                      (outbound_key (n.cells p)) (outbound_key (n.cells q)) none
                      (λ s. other (
                        ap (λ r. inbound_key (n.cells r)) (outbound_key-inj n p q k v e back s)
                        ∙ same))
                    ∙ back,
              )
        ];
  ports = v.ports;
  counted = v.counted;
}

-- A mapping may change in all but its keys.
pub write_cell-IsValid :
    (n : Nat) (p : ℕ) (m : Mapping)
    → IsValid n
    → outbound_key m ≡ outbound_key (n.cells p)
    → m.mapped ≡ (n.cells p).mapped
    → IsValid (record n { cells = write_cell n.cells p m })
write_cell-IsValid n p m v e f = record {
  outward = λ k q g.
      let (below, same, back) = v.outward k q g in
      (below, keys q ∙ same, ap n.inbound_map (inbound_keys q) ∙ back);
  inward = λ k q g.
      let (below, same, back) = v.inward k q g in
      (below, inbound_keys q ∙ same, ap n.outbound_map (keys q) ∙ back);
  ports = λ q h. ground (arith, v.ports q h);
  counted = v.counted;
}
  where
    keys : (q : ℕ) → outbound_key (write_cell n.cells p m q) ≡ outbound_key (n.cells q)
    keys q = ground arith

    inbound_keys : (q : ℕ) → inbound_key (write_cell n.cells p m q) ≡ inbound_key (n.cells q)
    inbound_keys q = ground arith

count_port_lem :
    (n : Nat) (a b : Network)
    → (port_counter n b ≤ port_counter (count_port n a) b)
      × (a ≡ b → port_counter (count_port n a) b ≡ port_counter n b + 1)
count_port_lem n udp udp = ground arith
count_port_lem n udp tcp = ground arith
count_port_lem n tcp udp = ground arith
count_port_lem n tcp tcp = ground arith

count_port_within :
    (n : Nat) (a b : Network)
    → port_base a + port_counter n a < 65536
    → port_base b + port_counter n b ≤ 65536
    → port_base b + port_counter (count_port n a) b ≤ 65536
count_port_within n udp udp h i = omega arith
count_port_within n udp tcp h i = omega arith
count_port_within n tcp udp h i = omega arith
count_port_within n tcp tcp h i = omega arith

-- A mapping for a local address that has none, at the next port.
pub insert_mapping-IsValid :
    (n : Nat) (m : Mapping)
    → IsValid n
    → m.mapped.port ≡ port_base m.proto + port_counter n m.proto
    → m.mapped.port < 65536
    → n.outbound_map (outbound_key m) ≡ none
    → IsValid (insert_mapping n m (outbound_key m))
unfolding insert_mapping
insert_mapping-IsValid n m v e h free = record {
  outward = λ j q f.
      elim (assign_cases outbound_key_eq outbound_key_eq_iff n.outbound_map (outbound_key m) j
        (some n.next) q f) [
          | inl (s, t) ↦
              let here : n.next ≡ q = some-inj t in
              (
                omega arith,
                ap outbound_key (new_cell q here) ∙ s,
                ap inbound' (ap inbound_key (new_cell q here))
                    ∙ assign_self inbound_key_eq inbound_key_eq_iff n.inbound_map (inbound_key m)
                        (some n.next)
                    ∙ t,
              )
          | inr (other, g) ↦
              let (below, same, back) = v.outward j q g in
              (
                omega arith,
                ap outbound_key (old_cell q below) ∙ same,
                ap inbound' (ap inbound_key (old_cell q below))
                    ∙ assign_other inbound_key_eq inbound_key_eq_iff n.inbound_map (inbound_key m)
                        (inbound_key (n.cells q)) (some n.next) (new_port q below)
                    ∙ back,
              )
        ];
  inward = λ j q f.
      elim (assign_cases inbound_key_eq inbound_key_eq_iff n.inbound_map (inbound_key m) j
        (some n.next) q f) [
          | inl (s, t) ↦
              let here : n.next ≡ q = some-inj t in
              (
                omega arith,
                ap inbound_key (new_cell q here) ∙ s,
                ap outbound' (ap outbound_key (new_cell q here))
                    ∙ assign_self outbound_key_eq outbound_key_eq_iff n.outbound_map
                        (outbound_key m) (some n.next)
                    ∙ t,
              )
          | inr (other, g) ↦
              let (below, same, back) = v.inward j q g in
              (
                omega arith,
                ap inbound_key (old_cell q below) ∙ same,
                ap outbound' (ap outbound_key (old_cell q below))
                    ∙ assign_other outbound_key_eq outbound_key_eq_iff n.outbound_map
                        (outbound_key m) (outbound_key (n.cells q)) (some n.next)
                        (λ s.
                          (let gone : none ≡ some q = sym free ∙ ap n.outbound_map s ∙ back in cc))
                    ∙ back,
              )
        ];
  ports = λ q below. elim (Bool-cases (n.next == q)) [
    | inl here ↦ rw here (omega (arith, (count_port_lem n m.proto m.proto).1 refl, e))
    | inr old ↦
        rw old
          (omega (arith, v.ports q (ground arith), (count_port_lem n m.proto (n.cells q).proto).0))
  ];
  counted = counted';
}
  where
    counted' :
        (proto : Network)
        → port_base proto + port_counter (insert_mapping n m (outbound_key m)) proto ≤ 65536
    counted' udp = count_port_within n m.proto udp (omega (arith, e)) (v.counted udp)
    counted' tcp = count_port_within n m.proto tcp (omega (arith, e)) (v.counted tcp)

    cells' : ℕ → Mapping
    cells' = write_cell n.cells n.next m

    inbound' : GoMap InboundKey
    inbound' = assign inbound_key_eq n.inbound_map (inbound_key m) (some n.next)

    outbound' : GoMap OutboundKey
    outbound' = assign outbound_key_eq n.outbound_map (outbound_key m) (some n.next)

    new_cell : (q : ℕ) → n.next ≡ q → cells' q ≡ m
    new_cell q here = ground arith

    old_cell : (q : ℕ) → q < n.next → cells' q ≡ n.cells q
    old_cell q below = ground arith

    new_port : (q : ℕ) → q < n.next → inbound_key m ≢ inbound_key (n.cells q)
    new_port q below s =
        let same : m.proto ≡ (n.cells q).proto = ap (λ k. k.proto) s in
        let port : m.mapped.port ≡ (n.cells q).mapped.port = ap (λ k. k.mapped.port) s in
        absurd
          (omega (arith, v.ports q below, e, port, ap port_base same, ap (port_counter n) same))
