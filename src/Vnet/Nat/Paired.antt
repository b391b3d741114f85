-- ===== src/Vnet/Nat/Paired.antt =====
-- The 1:1 mode: each local address has its own external one.
use transport.Prelude.{
  ℕ, ◌≡◌, refl, ap, sym, ◌∙◌, inl, inr, true, false, some, List, [], ◌∷◌, some-inj, Bool-cases,
  if◌then◌else◌,
}
use transport.Vnet.Addr.{Ip, ip_eq, ip_eq_iff}
use transport.Vnet.Chunk.{Chunk, set_source_addr, set_destination_addr}
use transport.Vnet.NatState.{Nat, one_to_one, translated, is_v6, host_port}
use transport.Vnet.Nat.{
  is_one_to_one, paired, with_source, with_destination, to_mapped, to_local, translate_outbound,
  translate_inbound, translate_outbound_napt, translate_inbound_napt,
}

abbrev pub Absent : Ip → List Ip → Type 0
Absent b [] = Unit
Absent b (c ∷ cs) = (ip_eq b c ≡ false) × Absent b cs

abbrev pub AllDistinct : List Ip → Type 0
AllDistinct [] = Unit
AllDistinct (b ∷ bs) = Absent b bs × AllDistinct bs

paired-Absent :
    (ls ms : List Ip) (l m b : Ip) → paired ls ms l ≡ some m → Absent b ms → ip_eq b m ≡ false
unfolding paired
paired-Absent [] ms l m b e h = cc
paired-Absent (a ∷ ls) [] l m b e h = cc
paired-Absent (a ∷ ls) (c ∷ ms) l m b e h = elim (Bool-cases (ip_eq a l)) [
  | inl here ↦ ap (ip_eq b) (sym (some-inj (rw here at e))) ∙ h.0
  | inr later ↦ paired-Absent ls ms l m b (rw later at e) h.1
]

-- The partner of the partner, where the external addresses differ.
paired-paired :
    (ls ms : List Ip) (l m : Ip)
    → AllDistinct ms
    → paired ls ms l ≡ some m
    → paired ms ls m ≡ some l
unfolding paired
paired-paired [] ms l m d e = cc
paired-paired (a ∷ ls) [] l m d e = cc
paired-paired (a ∷ ls) (c ∷ ms) l m d e = elim (Bool-cases (ip_eq a l)) [
  | inl here ↦
      let same : c ≡ m = some-inj (rw here at e) in
      let hit : ip_eq c m ≡ true = (ip_eq_iff c m).1 same in
      rw hit (ap (λ i. some i) ((ip_eq_iff a l).0 here))
  | inr later ↦
      let rest : paired ls ms l ≡ some m = rw later at e in
      let miss : ip_eq c m ≡ false = paired-Absent ls ms l m c rest d.0 in
      rw miss (paired-paired ls ms l m d.1 rest)
]

host_port_v4 :
    (ip : Ip) (port : ℕ)
    → is_v6 ip ≡ false
    → host_port ip port ≡ some (record { ip = ip; port = port })
host_port_v4 (Ip.v4 a) port h = refl
host_port_v4 (Ip.v6 a) port h = cc

-- Round trip: in the 1:1 mode with distinct external addresses, a chunk from an IPv4 address whose
-- partner is an IPv4 address goes out from that partner, with the same port, and a chunk to the partner
-- and this port, at any later time and from anyone, is handed to the address the first one came from.
-- The state never changes.
pub one_to_one-outbound :
    (n : Nat) (now later : ℕ) (partner : Ip) (from reply : Chunk)
    → n.nat_type.mode ≡ one_to_one
    → AllDistinct n.mapped_ips
    → paired n.local_ips n.mapped_ips from.source.ip ≡ some partner
    → is_v6 from.source.ip ≡ false
    → is_v6 partner ≡ false
    → reply.destination ≡ record { ip = partner; port = from.source.port }
    → (translate_outbound n now from
        ≡ (n, translated (set_source_addr from (record { ip = partner; port = from.source.port }))))
      × (translate_inbound n later reply ≡ (n, translated (set_destination_addr reply from.source)))
unfolding translate_outbound translate_inbound to_mapped to_local with_source with_destination
one_to_one-outbound n now later partner from reply mode d found v4 w4 dst =
    let back : paired n.mapped_ips n.local_ips reply.destination.ip ≡ some from.source.ip =
      ap (λ a. paired n.mapped_ips n.local_ips a.ip) dst
      ∙ paired-paired n.local_ips n.mapped_ips from.source.ip partner d found in
    let direct = ap is_one_to_one mode in
    (
      ap
            (λ b.
              if b
              then (n, to_mapped from (paired n.local_ips n.mapped_ips from.source.ip))
              else translate_outbound_napt n now from)
            direct
          ∙ ap (λ o. (n, to_mapped from o)) found
          ∙ ap (λ o. (n, with_source from o)) (host_port_v4 partner from.source.port w4),
      ap
            (λ b.
              if b
              then (n, to_local reply (paired n.mapped_ips n.local_ips reply.destination.ip))
              else translate_inbound_napt n later reply)
            direct
          ∙ ap (λ o. (n, to_local reply o)) back
          ∙ ap (λ q. (n, with_destination reply (host_port from.source.ip q)))
              (ap (λ a. a.port) dst)
          ∙ ap (λ o. (n, with_destination reply o))
              (host_port_v4 from.source.ip from.source.port v4),
    )
