-- ===== src/Vnet/Nat/Sends.antt =====
-- What an outbound chunk does to the state of a translator.
use transport.Prelude.{
  ℕ, ◌+◌, ◌≤◌, ◌<◌, ◌≡◌, ◌⊎◌, refl, ap, sym, ◌∙◌, inl, inr, Bool, true, false, ◌==◌, ltb, Option,
  none, some, List, ◌∷◌, arith, Bool-cases,
}
use transport.Vnet.Addr.{Ip}
use transport.Vnet.Chunk.{Network, udp, tcp, Chunk}
use transport.Vnet.NatState.{
  Nat, Mapping, Bound, Translation, failed, port_space_exhausted, outbound_key_eq, outbound_key,
  host_port, bound_eq,
}
use transport.Vnet.Nat.{
  port_base, port_counter, count_port, permit, find_outbound_mapping, new_mapping, insert_mapping,
  with_source, bind, reuse, translate_outbound_napt,
}
use transport.Vnet.Nat.Keys.{outbound_key_eq_iff, bound_eq_iff}
use transport.Vnet.Nat.Valid.{IsValid, assign_self, write_cell_self}
use transport.Vnet.Nat.Changes.{write_cell-IsValid, insert_mapping-IsValid}
use transport.Vnet.Nat.Find.{key_of, filter_of, Unfound, refreshed, find_outbound_mapping_cases}

-- The chunk goes out through the mapping `p`, which answers may use until its lifetime is over.
pub record Sends (n n' : Nat) (now : ℕ) (from : Chunk) (p : ℕ) (out : Translation) : Type 0 where
  pub valid : IsValid n'
  pub same_type : n'.nat_type ≡ n.nat_type
  pub same_ips : n'.mapped_ips ≡ n.mapped_ips
  pub mapped : n'.outbound_map (key_of n from) ≡ some p
  pub allows : (n'.cells p).filters (filter_of n from.destination) ≡ true
  pub alive : (n'.cells p).expires ≡ now + n.nat_type.mapping_life_time
  pub others : (q : ℕ) → q < n'.next → (q ≡ p) ⊎ ((q < n.next) × (n'.cells q ≡ n.cells q))
  pub grown :
      (f : Bound)
      → (n'.cells p).filters f ≡ true
      → (f ≡ filter_of n from.destination)
        ⊎ ((p < n.next)
            × ((n.cells p).filters f ≡ true)
            × (outbound_key (n.cells p) ≡ outbound_key (n'.cells p)))
  pub sent : out ≡ with_source from (host_port (n'.cells p).mapped.ip (n'.cells p).mapped.port)

permit_self : (filters : Bound → Bool) (k : Bound) → permit filters k k ≡ true
permit_self filters k = rw ((bound_eq_iff k k).1 refl) refl

permit_cases :
    (filters : Bound → Bool) (k f : Bound)
    → permit filters k f ≡ true
    → (f ≡ k) ⊎ (filters f ≡ true)
permit_cases filters k f h = elim (Bool-cases (bound_eq k f)) [
  | inl same ↦ inl (sym ((bound_eq_iff k f).0 same))
  | inr other ↦ inr (rw other at h)
]

reuse-Sends :
    (n : Nat) (now : ℕ) (from : Chunk) (p : ℕ)
    → IsValid n
    → n.outbound_map (key_of n from) ≡ some p
    → Sends n
        (reuse (refreshed n now p) from p (filter_of n from.destination)).0
        now
        from
        p
        (reuse (refreshed n now p) from p (filter_of n from.destination)).1
unfolding reuse
reuse-Sends n now from p v e =
    let m = (refreshed n now p).cells p in
    let w =
      write_cell-IsValid n p (record (n.cells p) { expires = now + n.nat_type.mapping_life_time }) v
        refl refl in
    record {
      valid =
          write_cell-IsValid (refreshed n now p) p
            (record m { filters = permit m.filters (filter_of n from.destination) }) w refl refl;
      same_type = refl;
      same_ips = refl;
      mapped = e;
      allows = ground (arith, permit_self m.filters (filter_of n from.destination));
      alive = ground arith;
      others = λ q h. elim (Bool-cases (p == q)) [
        | inl here ↦ inl (ground (arith, here))
        | inr other ↦ inr (h, ground (arith, other))
      ];
      grown = λ f h.
          elim (permit_cases (n.cells p).filters (filter_of n from.destination) f
            (ground (arith, h))) [
              | inl same ↦ inl same
              | inr old ↦ inr ((v.outward (key_of n from) p e).0, old, ground arith)
            ];
      sent = ground arith;
    }

abbrev pub bound_mapping : Nat → Nat → ℕ → Chunk → Ip → Mapping
bound_mapping n n' now from ip =
    new_mapping n' now from ip (key_of n from) (filter_of n from.destination)

count_port_same :
    (n : Nat) (a : Network)
    → ((count_port n a).nat_type ≡ n.nat_type) × ((count_port n a).mapped_ips ≡ n.mapped_ips)
count_port_same n udp = (refl, refl)
count_port_same n tcp = (refl, refl)

bind-Sends :
    (n n' : Nat) (now : ℕ) (from : Chunk) (ip : Ip)
    → Unfound n n' (key_of n from)
    → port_base from.network + port_counter n' from.network ≤ 65535
    → Sends n
        (insert_mapping n' (bound_mapping n n' now from ip) (key_of n from))
        now
        from
        n'.next
        (with_source from (
          host_port
            (bound_mapping n n' now from ip).mapped.ip
            (bound_mapping n n' now from ip).mapped.port))
unfolding new_mapping
bind-Sends n n' now from ip u h =
    let m = bound_mapping n n' now from ip in
    let v = insert_mapping-IsValid n' m u.valid refl (omega arith) u.free in
    record {
      valid = v;
      same_type = unfold insert_mapping in (count_port_same n' from.network).0 ∙ u.same_type;
      same_ips = unfold insert_mapping in (count_port_same n' from.network).1 ∙ u.same_ips;
      mapped =
          unfold insert_mapping in
          assign_self outbound_key_eq outbound_key_eq_iff n'.outbound_map (key_of n from)
            (some n'.next);
      allows =
          unfold insert_mapping in
          ground (arith, permit_self (λ k. false) (filter_of n from.destination));
      alive = unfold insert_mapping in ground (arith, u.same_type);
      others = λ q h.
          unfold insert_mapping in
          elim (Bool-cases (n'.next == q)) [
            | inl here ↦ inl (ground (arith, here))
            | inr old ↦
                inr (ground (arith, old, u.same_next), rw old (ap (λ cells. cells q) u.same_cells))
          ];
      grown = λ f h.
          elim (permit_cases (λ k. false) (filter_of n from.destination) f
            (unfold insert_mapping in rw (write_cell_self n'.cells n'.next m) at h)) [
              | inl same ↦ inl same
              | inr never ↦ cc
            ];
      sent = unfold insert_mapping in ground arith;
    }

napt-find :
    (n n' : Nat) (now : ℕ) (from : Chunk) (found : Option ℕ)
    → find_outbound_mapping n now (key_of n from) ≡ (n', found)
    → translate_outbound_napt n now from ≡ (elim found [
      | none ↦ bind n' now from n'.mapped_ips (key_of n from) (filter_of n from.destination)
      | some p ↦ reuse n' from p (filter_of n from.destination)
    ])
unfolding translate_outbound_napt
napt-find n n' now from found e = ap after e
  where
    after : Nat × Option ℕ → Nat × Translation
    after (n'', none) =
        bind n'' now from n''.mapped_ips (key_of n from) (filter_of n from.destination)
    after (n'', some p) = reuse n'' from p (filter_of n from.destination)

-- An outbound chunk is refused when its protocol has no port left, and otherwise goes out.
pub translate_outbound_cases :
    (n : Nat) (now : ℕ) (from : Chunk) (ip : Ip) (ips : List Ip)
    → IsValid n
    → n.mapped_ips ≡ ip ∷ ips
    → ((n' : Nat) × (translate_outbound_napt n now from ≡ (n', failed port_space_exhausted))
        × Unfound n n' (key_of n from)
        × (port_base from.network + port_counter n from.network ≡ 65536))
      ⊎ ((n' : Nat) × (p : ℕ) × (out : Translation) × (translate_outbound_napt n now from
            ≡ (n', out))
          × Sends n n' now from p out)
translate_outbound_cases n now from ip ips v m =
    elim (find_outbound_mapping_cases n now (key_of n from) v) [
      | inr (p, e, there, live) ↦ inr (
        (reuse (refreshed n now p) from p (filter_of n from.destination)).0,
        p,
        (reuse (refreshed n now p) from p (filter_of n from.destination)).1,
        napt-find n (refreshed n now p) now from (some p) e,
        reuse-Sends n now from p v there,
      )
      | inl (n', e, u) ↦
          elim (Bool-cases (ltb 65535 (port_base from.network + port_counter n' from.network))) [
            | inl over ↦ inl (
              n',
              napt-find n n' now from none e ∙ (unfold bind in rw over refl),
              u,
              ground (arith, over, u.same_ports from.network, v.counted from.network),
            )
            | inr room ↦ inr (
              insert_mapping n' (bound_mapping n n' now from ip) (key_of n from),
              n'.next,
              with_source from (
                  host_port (bound_mapping n n' now from ip).mapped.ip
                    (bound_mapping n n' now from ip).mapped.port),
              napt-find n n' now from none e
                  ∙ ap (λ l. bind n' now from l (key_of n from) (filter_of n from.destination))
                      (u.same_ips ∙ m)
                  ∙ (unfold bind in rw room refl),
              bind-Sends n n' now from ip u (ground (arith, room)),
            )
          ]
    ]
