-- ===== src/Vnet/Nat/Find.antt =====
-- Finding the mapping of an outbound chunk.
use transport.Prelude.{
  ℕ, ◌+◌, ◌≤◌, ◌≡◌, ◌⊎◌, refl, sym, inl, inr, ltb, none, some, List, arith, Bool-cases,
  Option-cases,
}
use transport.Vnet.Addr.{Ip, Addr}
use transport.Vnet.Chunk.{Network, udp, tcp, Chunk}
use transport.Vnet.NatState.{
  Nat, NatType, OutboundKey, Bound, outbound_key_eq, outbound_key, write_cell,
}
use transport.Vnet.Nat.{
  port_base, port_counter, remote_key, remove_mapping, find_outbound_mapping, made,
}
use transport.Vnet.Nat.Keys.{outbound_key_eq_iff}
use transport.Vnet.Nat.Valid.{IsValid, assign_self}
use transport.Vnet.Nat.Changes.{remove_mapping-IsValid}

pub made-IsValid : (t : NatType) (mapped local : List Ip) → IsValid (made t mapped local)
made-IsValid t mapped local = record {
  outward = λ k p e. cc;
  inward = λ k p e. cc;
  ports = λ p h. absurd (omega arith);
  counted = start;
}
  where
    start : (proto : Network) → port_base proto + port_counter (made t mapped local) proto ≤ 65536
    start udp = omega arith
    start tcp = omega arith

abbrev pub key_of : Nat → Chunk → OutboundKey
key_of n from = record {
  proto = from.network;
  local = from.source;
  bound = remote_key n.nat_type.mapping_behavior from.destination;
}

abbrev pub filter_of : Nat → Addr → Bound
filter_of n remote = remote_key n.nat_type.filtering_behavior remote

-- There is no live mapping for the key: the state is as before, less one that expired.
pub record Unfound (n n' : Nat) (k : OutboundKey) : Type 0 where
  pub valid : IsValid n'
  pub free : n'.outbound_map k ≡ none
  pub same_cells : n'.cells ≡ n.cells
  pub same_type : n'.nat_type ≡ n.nat_type
  pub same_ips : n'.mapped_ips ≡ n.mapped_ips
  pub same_next : n'.next ≡ n.next
  pub same_ports : (proto : Network) → port_counter n' proto ≡ port_counter n proto

-- A live mapping, and the state in which it lives on.
abbrev pub refreshed : Nat → ℕ → ℕ → Nat
refreshed n now p = record n {
  cells =
      write_cell n.cells p (record (n.cells p) { expires = now + n.nat_type.mapping_life_time });
}

removed_lem :
    (n : Nat) (p : ℕ) (k : OutboundKey)
    → IsValid n
    → n.outbound_map k ≡ some p
    → Unfound n (remove_mapping n p) k
removed_lem n p k v e = record {
  valid = remove_mapping-IsValid n p k v e;
  free =
      unfold remove_mapping in
      rw (sym (v.outward k p e).1) (
        assign_self outbound_key_eq outbound_key_eq_iff n.outbound_map (outbound_key (n.cells p))
          none);
  same_cells = unfold remove_mapping in refl;
  same_type = unfold remove_mapping in refl;
  same_ips = unfold remove_mapping in refl;
  same_next = unfold remove_mapping in refl;
  same_ports = counters;
}
  where
    counters : (proto : Network) → port_counter (remove_mapping n p) proto ≡ port_counter n proto
    counters udp = unfold remove_mapping in refl
    counters tcp = unfold remove_mapping in refl

pub find_outbound_mapping_cases :
    (n : Nat) (now : ℕ) (k : OutboundKey)
    → IsValid n
    → ((n' : Nat) × (find_outbound_mapping n now k ≡ (n', none)) × Unfound n n' k)
      ⊎ ((p : ℕ) × (find_outbound_mapping n now k ≡ (refreshed n now p, some p))
          × (n.outbound_map k ≡ some p)
          × (now ≤ (n.cells p).expires))
unfolding find_outbound_mapping
find_outbound_mapping_cases n now k v = elim (Option-cases (n.outbound_map k)) [
  | inl absent ↦ inl (
    n,
    rw (absent, find_outbound_mapping) refl,
    record {
      valid = v;
      free = absent;
      same_cells = refl;
      same_type = refl;
      same_ips = refl;
      same_next = refl;
      same_ports = λ proto. refl;
    },
  )
  | inr (p, there) ↦ elim (Bool-cases (ltb (n.cells p).expires now)) [
    | inl expired ↦ inl (
      remove_mapping n p,
      rw (there, find_outbound_mapping, expired) refl,
      removed_lem n p k v there,
    )
    | inr live ↦ inr (p, rw (there, find_outbound_mapping, live) refl, there, ground (arith, live))
  ]
]
