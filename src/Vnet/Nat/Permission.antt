-- ===== src/Vnet/Nat/Permission.antt =====
-- Who may send to a host behind a translator, over any sequence of chunks.
use transport.Prelude.{
  ℕ, ◌<◌, ◌≡◌, ◌⊎◌, refl, ap, sym, ◌∙◌, inl, inr, true, List, [], ◌∷◌, arith, Bool-cases,
}
use transport.Vnet.Addr.{Ip}
use transport.Vnet.Chunk.{Chunk, set_destination_addr}
use transport.Vnet.NatState.{
  Nat, NatType, normal, Mapping, Bound, OutboundKey, Translation, translated, failed,
  no_nat_binding_found, outbound_key, destination_key,
}
use transport.Vnet.Nat.{
  remove_mapping, remote_key, with_destination, admit, made, translate_outbound, translate_inbound,
}
use transport.Vnet.Nat.Valid.{IsValid}
use transport.Vnet.Nat.Changes.{remove_mapping-IsValid}
use transport.Vnet.Nat.Find.{made-IsValid, key_of, filter_of, Unfound}
use transport.Vnet.Nat.Sends.{Sends, translate_outbound_cases}
use transport.Vnet.Nat.RoundTrip.{translate_inbound_cases, normal_outbound, normal_inbound}

pub data Event : Type 0 where
  outbound : ℕ → Chunk → Event
  inbound : ℕ → Chunk → Event

-- The translator after the events, the first one first, and the chunks that were sent out before
-- and in them.
abbrev pub step : Nat → Event → Nat
step n (outbound now c) = (translate_outbound n now c).0
step n (inbound now c) = (translate_inbound n now c).0

abbrev pub record_sent : List Chunk → Event → List Chunk
record_sent cs (outbound now c) = c ∷ cs
record_sent cs (inbound now c) = cs

unfoldable pub run : Nat → List Event → Nat
run n [] = n
run n (e ∷ es) = run (step n e) es

unfoldable pub sent_in : List Chunk → List Event → List Chunk
sent_in cs [] = cs
sent_in cs (e ∷ es) = sent_in (record_sent cs e) es

abbrev pub Any : (Chunk → Type 0) → List Chunk → Type 0
Any P [] = ⊥
Any P (c ∷ cs) = P c ⊎ Any P cs

pub Any_mono :
    {P Q : Chunk → Type 0} (cs : List Chunk) → ((c : Chunk) → P c → Q c) → Any P cs → Any Q cs
Any_mono [] f h = elim h [ ]
Any_mono (c ∷ cs) f (inl h) = inl (f c h)
Any_mono (c ∷ cs) f (inr h) = inr (Any_mono cs f h)

-- The chunk went out from the local address of the mapping, to a remote with this filter key.
abbrev pub Opened : NatType → Mapping → Bound → Chunk → Type 0
Opened t m f c =
    (c.network ≡ m.proto)
    × (c.source ≡ m.local)
    × (remote_key t.filtering_behavior c.destination ≡ f)

-- Every filter of a mapping was opened by a chunk that its host sent.
pub record IsReached (t : NatType) (ip : Ip) (ips : List Ip) (n : Nat) (cs : List Chunk)
    : Type 0 where
  pub valid : IsValid n
  pub same_type : n.nat_type ≡ t
  pub same_ips : n.mapped_ips ≡ ip ∷ ips
  pub opened :
      (p : ℕ)
      → p < n.next
      → (f : Bound) → (n.cells p).filters f ≡ true
      → Any (Opened t (n.cells p) f) cs

module _ (t : NatType) (ip : Ip) (ips : List Ip) (mode : t.mode ≡ normal) where
  Sends-IsReached :
      (n n' : Nat) (now : ℕ) (from : Chunk) (p : ℕ) (out : Translation) (cs : List Chunk)
      → IsReached t ip ips n cs
      → Sends n n' now from p out
      → IsReached t ip ips n' (from ∷ cs)
  Sends-IsReached n n' now from p out cs r s = record {
    valid = s.valid;
    same_type = s.same_type ∙ r.same_type;
    same_ips = s.same_ips ∙ r.same_ips;
    opened = λ q h f e. elim (s.others q h) [
      | inr (below, same) ↦
          inr (Any_mono cs (λ c o. (rw same o)) (r.opened q below f (rw same at e)))
      | inl here ↦
          Any_mono (from ∷ cs)
            (λ c o. (
              o.0 ∙ ap (λ r. (n'.cells r).proto) (sym here),
              o.1 ∙ ap (λ r. (n'.cells r).local) (sym here),
              o.2,
            ))
            (at_p f (rw here at e))
    ];
  }
    where
      key : outbound_key (n'.cells p) ≡ key_of n from
      key = (s.valid.outward (key_of n from) p s.mapped).1

      at_p :
          (f : Bound)
          → (n'.cells p).filters f ≡ true
          → Opened t (n'.cells p) f from ⊎ Any (Opened t (n'.cells p) f) cs
      at_p f e = elim (s.grown f e) [
        | inl new ↦ inl (
          sym (ap (λ k. k.proto) key),
          sym (ap (λ k. k.local) key),
          ap (λ u. remote_key u.filtering_behavior from.destination) (sym r.same_type) ∙ sym new,
        )
        | inr (below, old, same) ↦ inr (
            Any_mono cs (λ c o. (o.0 ∙ ap (λ k. k.proto) same, o.1 ∙ ap (λ k. k.local) same, o.2))
              (r.opened p below f old))
      ]

  Unfound-IsReached :
      (n n' : Nat) (k : OutboundKey) (cs : List Chunk)
      → IsReached t ip ips n cs
      → Unfound n n' k
      → IsReached t ip ips n' cs
  Unfound-IsReached n n' k cs r u = record {
    valid = u.valid;
    same_type = u.same_type ∙ r.same_type;
    same_ips = u.same_ips ∙ r.same_ips;
    opened = λ p h f e.
        Any_mono cs (λ c o. (rw u.same_cells o))
          (r.opened p (omega (arith, u.same_next)) f (rw u.same_cells at e));
  }

  outbound-IsReached :
      (n : Nat) (now : ℕ) (from : Chunk) (cs : List Chunk)
      → IsReached t ip ips n cs
      → IsReached t ip ips (translate_outbound n now from).0 (from ∷ cs)
  outbound-IsReached n now from cs r =
      let napt = normal_outbound n now from (ap (λ u. u.mode) r.same_type ∙ mode) in
      elim (translate_outbound_cases n now from ip ips r.valid r.same_ips) [
        | inr (n', p, out, e, s) ↦
            rw (ap (λ o. o.0) (napt ∙ e)) (Sends-IsReached n n' now from p out cs r s)
        | inl (n', e, u, _) ↦
            let kept = Unfound-IsReached n n' (key_of n from) cs r u in
            rw (ap (λ o. o.0) (napt ∙ e)) (record {
              valid = kept.valid;
              same_type = kept.same_type;
              same_ips = kept.same_ips;
              opened = λ p h f g. inr (kept.opened p h f g);
            })
      ]

  inbound-IsReached :
      (n : Nat) (now : ℕ) (from : Chunk) (cs : List Chunk)
      → IsReached t ip ips n cs
      → IsReached t ip ips (translate_inbound n now from).0 cs
  inbound-IsReached n now from cs r =
      let napt = normal_inbound n now from (ap (λ u. u.mode) r.same_type ∙ mode) in
      elim (translate_inbound_cases n now from) [
        | inl (_, e) ↦ rw (ap (λ o. o.0) (napt ∙ e)) r
        | inr (p, there, inr (_, e)) ↦ rw (ap (λ o. o.0) (napt ∙ e)) r
        | inr (p, there, inl (_, e)) ↦
            let back = (r.valid.inward (destination_key from.network from.destination) p there).2 in
            rw (ap (λ o. o.0) (napt ∙ e)) (record {
              valid = remove_mapping-IsValid n p (outbound_key (n.cells p)) r.valid back;
              same_type = unfold remove_mapping in r.same_type;
              same_ips = unfold remove_mapping in r.same_ips;
              opened = unfold remove_mapping in r.opened;
            })
      ]

  pub run-IsReached :
      (es : List Event) (n : Nat) (cs : List Chunk)
      → IsReached t ip ips n cs
      → IsReached t ip ips (run n es) (sent_in cs es)
  unfolding run sent_in
  run-IsReached [] n cs r = r
  run-IsReached (outbound now c ∷ es) n cs r =
      run-IsReached es (translate_outbound n now c).0 (c ∷ cs) (outbound-IsReached n now c cs r)
  run-IsReached (inbound now c ∷ es) n cs r =
      run-IsReached es (translate_inbound n now c).0 cs (inbound-IsReached n now c cs r)

  pub start-IsReached : (local : List Ip) → IsReached t ip ips (made t (ip ∷ ips) local) []
  start-IsReached local = record {
    valid = made-IsValid t (ip ∷ ips) local;
    same_type = refl;
    same_ips = refl;
    opened = λ p h f e. absurd (omega arith);
  }

  admitted_lem :
      (n : Nat) (from c : Chunk) (p : ℕ)
      → admit n from p ≡ translated c
      → ((n.cells p).filters (filter_of n from.source) ≡ true)
        × (c ≡ set_destination_addr from (n.cells p).local)
  unfolding admit with_destination
  admitted_lem n from c p e = elim (Bool-cases ((n.cells p).filters (filter_of n from.source))) [
    | inl yes_filter ↦ ground (arith, yes_filter, rw yes_filter at e)
    | inr no_filter ↦ (let f = rw no_filter at e in cc)
  ]

  -- A translator in the normal mode lets an inbound chunk through to a host only if that host has
  -- sent a chunk by the same protocol before, from the address that the inbound chunk is handed to,
  -- to a remote that the filtering behaviour does not tell from the sender.
  pub translate_inbound-sent :
      (local : List Ip) (es : List Event) (now : ℕ) (n : Nat) (from c : Chunk)
      → translate_inbound (run (made t (ip ∷ ips) local) es) now from ≡ (n, translated c)
      → Any
          (λ sent.
            (sent.network ≡ from.network)
            × (sent.source ≡ c.destination)
            × (remote_key t.filtering_behavior sent.destination
                ≡ remote_key t.filtering_behavior from.source))
          (sent_in [] es)
  translate_inbound-sent local es now n' from c e =
      let n = run (made t (ip ∷ ips) local) es in
      let r = run-IsReached es (made t (ip ∷ ips) local) [] (start-IsReached local) in
      let napt = normal_inbound n now from (ap (λ u. u.mode) r.same_type ∙ mode) in
      elim (translate_inbound_cases n now from) [
        | inl (_, f) ↦
            (let no : failed no_nat_binding_found ≡ translated c =
                ap (λ o. o.1) (sym f ∙ sym napt ∙ e) in
              cc)
        | inr (p, there, inl (_, f)) ↦
            (let no : failed no_nat_binding_found ≡ translated c =
                ap (λ o. o.1) (sym f ∙ sym napt ∙ e) in
              cc)
        | inr (p, there, inr (_, f)) ↦
            let (allowed, moved) = admitted_lem n from c p (ap (λ o. o.1) (sym f ∙ sym napt ∙ e)) in
            let (below, key, _) =
              r.valid.inward (destination_key from.network from.destination) p there in
            Any_mono (sent_in [] es)
              (λ s o. (
                o.0 ∙ ap (λ k. k.proto) key,
                o.1 ∙ sym (ap (λ d. d.destination) moved),
                o.2 ∙ ap (λ u. remote_key u.filtering_behavior from.source) r.same_type,
              ))
              (r.opened p below (filter_of n from.source) allowed)
      ]
