-- ===== src/Vnet/Nat/RoundTrip.antt =====
-- Answers come back through the mapping that a chunk went out by.
use transport.Prelude.{
  ℕ, ◌+◌, ◌≤◌, ◌<◌, ◌≡◌, ◌⊎◌, refl, ap, sym, ◌∙◌, inl, inr, true, false, ltb, Option, none, some,
  List, ◌∷◌, some-inj, arith, Bool-cases, Option-cases,
}
use transport.Vnet.Addr.{Ip}
use transport.Vnet.Chunk.{Chunk, set_source_addr, set_destination_addr}
use transport.Vnet.NatState.{
  Nat, normal, Translation, translated, failed, no_nat_binding_found, port_space_exhausted,
  InboundKey, inbound_key, destination_key, host_port, is_v6,
}
use transport.Vnet.Nat.{
  is_one_to_one, remove_mapping, remote_key, with_source, with_destination, admit,
  find_inbound_mapping, translate_outbound, translate_outbound_napt, translate_inbound,
  translate_inbound_napt,
}
use transport.Vnet.Nat.Valid.{IsValid}
use transport.Vnet.Nat.Find.{key_of, filter_of}
use transport.Vnet.Nat.Sends.{Sends, translate_outbound_cases}

inbound-find :
    (n n' : Nat) (now : ℕ) (from : Chunk) (found : Option ℕ)
    → find_inbound_mapping n now (destination_key from.network from.destination) ≡ (n', found)
    → translate_inbound_napt n now from
      ≡ (elim found [ none ↦ (n', failed no_nat_binding_found) | some p ↦ (n', admit n' from p) ])
unfolding translate_inbound_napt
inbound-find n n' now from found e = ap after e
  where
    after : Nat × Option ℕ → Nat × Translation
    after (n'', none) = (n'', failed no_nat_binding_found)
    after (n'', some p) = (n'', admit n'' from p)

-- An inbound chunk finds no mapping, or one that is over, or it meets the filter of one.
pub translate_inbound_cases :
    (n : Nat) (now : ℕ) (from : Chunk)
    → let k = destination_key from.network from.destination in
      ((n.inbound_map k ≡ none)
        × (translate_inbound_napt n now from ≡ (n, failed no_nat_binding_found)))
      ⊎ ((p : ℕ) × (n.inbound_map k ≡ some p)
          × (((n.cells p).expires < now)
                × (translate_inbound_napt n now from
                    ≡ (remove_mapping n p, failed no_nat_binding_found))
              ⊎ ((now ≤ (n.cells p).expires)
                  × (translate_inbound_napt n now from ≡ (n, admit n from p)))))
translate_inbound_cases n now from =
    let k : InboundKey = destination_key from.network from.destination in
    elim (Option-cases (n.inbound_map k)) [
      | inl absent ↦ inl (
        absent,
        inbound-find n n now from none
            (unfold find_inbound_mapping in rw (absent, find_inbound_mapping) refl),
      )
      | inr (p, there) ↦ inr (
        p,
        there,
        elim (Bool-cases (ltb (n.cells p).expires now)) [
          | inl over ↦ inl (
            ground (arith, over),
            inbound-find n (remove_mapping n p) now from none
                (unfold find_inbound_mapping in rw (there, find_inbound_mapping, over) refl),
          )
          | inr live ↦ inr (
            ground (arith, live),
            inbound-find n n now from (some p)
                (unfold find_inbound_mapping in rw (there, find_inbound_mapping, live) refl),
          )
        ],
      )
    ]

-- Only an IPv4 address is printed so that it can be parsed again.
pub host_port_lem :
    (from c : Chunk) (ip : Ip) (port : ℕ)
    → with_source from (host_port ip port) ≡ translated c
    → (c ≡ set_source_addr from (record { ip = ip; port = port })) × (is_v6 ip ≡ false)
unfolding with_source
host_port_lem from c (Ip.v4 a) port e = ground (arith, e)
host_port_lem from c (Ip.v6 a) port e = cc

-- What a chunk that was sent says of its mapping.
pub sent_lem :
    (n n' : Nat) (now : ℕ) (from c : Chunk) (p : ℕ) (out : Translation)
    → Sends n n' now from p out
    → out ≡ translated c
    → (c ≡ set_source_addr from (n'.cells p).mapped)
      × (destination_key from.network c.source ≡ inbound_key (n'.cells p))
      × ((n'.cells p).local ≡ from.source)
sent_lem n n' now from c p out s e =
    let m = n'.cells p in
    let (moved, v4) = host_port_lem from c m.mapped.ip m.mapped.port (sym s.sent ∙ e) in
    let (_, same, _) = s.valid.outward (key_of n from) p s.mapped in
    let source : c.source ≡ m.mapped = ap (λ r. r.source) moved in
    let proto : m.proto ≡ from.network = ap (λ k. k.proto) same in
    (moved, ground (arith, source, proto, v4), ap (λ k. k.local) same)

pub normal_outbound :
    (n : Nat) (now : ℕ) (from : Chunk)
    → n.nat_type.mode ≡ normal
    → translate_outbound n now from ≡ translate_outbound_napt n now from
unfolding translate_outbound
normal_outbound n now from m = rw (ap is_one_to_one m) refl

pub normal_inbound :
    (n : Nat) (now : ℕ) (from : Chunk)
    → n.nat_type.mode ≡ normal
    → translate_inbound n now from ≡ translate_inbound_napt n now from
unfolding translate_inbound
normal_inbound n now from m = rw (ap is_one_to_one m) refl

-- A chunk that got through went out by a mapping.
pub translated-Sends :
    (n n' : Nat) (now : ℕ) (from c : Chunk) (ip : Ip) (ips : List Ip)
    → IsValid n
    → n.nat_type.mode ≡ normal
    → n.mapped_ips ≡ ip ∷ ips
    → translate_outbound n now from ≡ (n', translated c)
    → (p : ℕ) × Sends n n' now from p (translated c)
translated-Sends n n' now from c ip ips v mode m e =
    elim (translate_outbound_cases n now from ip ips v m) [
      | inl (n'', f, _, _) ↦
          let apart : failed port_space_exhausted ≡ translated c =
            ap (λ r. r.1) (sym f ∙ sym (normal_outbound n now from mode) ∙ e) in
          cc
      | inr (n'', p, out, f, s) ↦
          let both : ◌≡◌ {A = Nat × Translation} (n'', out) (n', translated c) =
            sym f ∙ sym (normal_outbound n now from mode) ∙ e in
          (p, rw (sym (ap (λ r. r.0) both), sym (ap (λ r. r.1) both)) s)
    ]

-- An answer from a remote that the mapping admits.
admit_lem :
    (n : Nat) (from : Chunk) (p : ℕ)
    → (n.cells p).filters (filter_of n from.source) ≡ true
    → admit n from p ≡ translated (set_destination_addr from (n.cells p).local)
unfolding admit with_destination
admit_lem n from p h = rw h refl

-- Round trip: in the normal mode, when a chunk has gone out, an answer to its new source address is
-- handed to the address it came from, if its remote address is the one the chunk went to as far as
-- the filtering behaviour looks at it, and if the lifetime is not over. The state stays as it is.
pub translate_inbound-outbound :
    (n n' : Nat) (now later : ℕ) (from c reply : Chunk) (ip : Ip) (ips : List Ip)
    → IsValid n
    → n.nat_type.mode ≡ normal
    → n.mapped_ips ≡ ip ∷ ips
    → translate_outbound n now from ≡ (n', translated c)
    → reply.network ≡ from.network
    → reply.destination ≡ c.source
    → filter_of n reply.source ≡ filter_of n from.destination
    → later ≤ now + n.nat_type.mapping_life_time
    → translate_inbound n' later reply ≡ (n', translated (set_destination_addr reply from.source))
translate_inbound-outbound n n' now later from c reply ip ips v mode m e net dst remote time =
    let (p, s) = translated-Sends n n' now from c ip ips v mode m e in
    let (_, key, local) = sent_lem n n' now from c p (translated c) s refl in
    let k : destination_key reply.network reply.destination ≡ inbound_key (n'.cells p) =
      ap (λ r. destination_key r reply.destination) net
      ∙ ap (destination_key from.network) dst
      ∙ key in
    let there : n'.inbound_map (destination_key reply.network reply.destination) ≡ some p =
      ap n'.inbound_map k ∙ (s.valid.outward (key_of n from) p s.mapped).2 in
    let allowed : (n'.cells p).filters (filter_of n' reply.source) ≡ true =
      ap (λ t. (n'.cells p).filters (remote_key t.filtering_behavior reply.source)) s.same_type
      ∙ ap (n'.cells p).filters remote
      ∙ s.allows in
    normal_inbound n' later reply (ap (λ t. t.mode) s.same_type ∙ mode)
    ∙ elim (translate_inbound_cases n' later reply) [
      | inl (absent, _) ↦ cc
      | inr (q, here, outcome) ↦
          let same : q ≡ p = some-inj (sym here ∙ there) in
          elim outcome [
            | inl (over, _) ↦ absurd (omega (arith, ap (λ r. (n'.cells r).expires) same, s.alive))
            | inr (_, f) ↦
                f
                ∙ ap (λ r. (n', admit n' reply r)) same
                ∙ ap (λ t. (n', t)) (admit_lem n' reply p allowed)
                ∙ ap (λ a. (n', translated (set_destination_addr reply a))) local
          ]
    ]
