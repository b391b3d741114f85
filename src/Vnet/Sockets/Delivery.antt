-- ===== src/Vnet/Sockets/Delivery.antt =====
-- vnet/net.go and vnet/conn.go: which socket of a host an inbound chunk reaches.
use transport.Prelude.{
  ℕ, ◌==◌, ◌<◌, ◌≡◌, refl, sym, ap, ◌∙◌, true, false, ltb, some, List, [], ◌∷◌, ◌++◌, inl, inr, ◌⊎◌,
  ◌||◌, arith, Bool-cases, Option-cases, some-inj, none-ne-some, length,
}
use mathlib.Core.Path.{subst}
use transport.Vnet.Addr.{Ip, Addr, is_unspecified, ip_eq}
use transport.Vnet.Chunk.{Network, Chunk, network-cases}
use transport.Vnet.PortMap.{lookup}
use transport.Vnet.PortList.{IsValid, OnPort, covers, first_covering}
use transport.Vnet.UdpConnMap.{UdpConn, UdpConnMap, local_addr, find}
use transport.Vnet.NetState.{Socket, Net}
use transport.Vnet.Sockets.{max_read_queue_size, enqueue, deliver, on_inbound_chunk}
use transport.Vnet.Sockets.Conns.{find-All}
use transport.Vnet.Sockets.Valid.{IsOpen, HostIsValid}

first_covering-lem :
    (p : ℕ) (ip : Ip) (cs : List UdpConn) (c : UdpConn)
    → OnPort local_addr p cs
    → first_covering local_addr ip cs ≡ some c
    → (c.loc_addr.port ≡ p) × (covers local_addr c ip ≡ true)
unfolding first_covering
first_covering-lem p ip [] c on e = absurd (none-ne-some e)
first_covering-lem p ip (d ∷ ds) c on e = elim (Bool-cases (covers local_addr d ip)) [
  | inl here ↦
      let same : d ≡ c = some-inj (ground arith) in
      (
        ap (λ x. x.loc_addr.port) (sym same) ∙ on.0,
        ap (λ x. covers local_addr x ip) (sym same) ∙ here,
      )
  | inr not_here ↦ first_covering-lem p ip ds c on.1 (ground arith)
]

-- The connection that `find` gives is on the port, and takes packets for the address.
find-takes :
    (m : UdpConnMap) (a : Addr) (c : UdpConn)
    → IsValid local_addr m
    → (find m a).0 ≡ some c
    → (c.loc_addr.port ≡ a.port)
      × ((is_unspecified a.ip ≡ true) ⊎ (covers local_addr c a.ip ≡ true))
unfolding find
find-takes m a c h e = elim (Option-cases (lookup a.port m)) [
  | inl free ↦ absurd (none-ne-some {a = c} (ground arith))
  | inr ([], used) ↦ absurd ((h _ [] used).nonempty refl)
  | inr ((d ∷ ds), used) ↦ elim (Bool-cases (is_unspecified a.ip)) [
    | inl wild ↦
        let same : d ≡ c = some-inj (ground arith) in
        (ap (λ x. x.loc_addr.port) (sym same) ∙ (h _ _ used).on_port.0, inl wild)
    | inr specified ↦
        let found = first_covering-lem a.port a.ip (d ∷ ds) c (h _ _ used).on_port (ground arith) in
        (found.0, inr found.1)
  ]
]

-- A socket that a chunk may reach: open, with room, on the port, and listening on the address.
pub record Takes (s : Socket) (c : Chunk) : Type 0 where
  pub udp : c.network ≡ Network.udp
  pub live : s.closed ≡ false
  pub room : length s.read_ch < max_read_queue_size
  pub port : s.loc_addr.port ≡ c.destination.port
  pub listens :
      (is_unspecified c.destination.ip ≡ true)
      ⊎ (covers local_addr (record { id = 0; loc_addr = s.loc_addr }) c.destination.ip ≡ true)

-- The outcome of a chunk for one socket.
abbrev pub Outcome : Socket → Socket → Chunk → Type 0
Outcome s s' c = (s' ≡ s) ⊎ ((s' ≡ record s { read_ch = s.read_ch ++ (c ∷ []) }) × Takes s c)

-- Of the socket that was found.
enqueue-Outcome :
    (s : Socket) (c : Chunk) (conn : UdpConn)
    → c.network ≡ Network.udp
    → s.loc_addr ≡ conn.loc_addr
    → s.closed ≡ false
    → (conn.loc_addr.port ≡ c.destination.port)
      × ((is_unspecified c.destination.ip ≡ true)
          ⊎ (covers local_addr conn c.destination.ip ≡ true))
    → Outcome s (enqueue s c) c
unfolding enqueue covers
enqueue-Outcome s c conn udp there live found =
    elim (Bool-cases (ltb (length s.read_ch) max_read_queue_size)) [
      | inr full ↦ inl (ground arith)
      | inl room ↦ inr (
        ground arith,
        record {
          udp = udp;
          live = live;
          room = ground arith;
          port = ap (λ a. a.port) there ∙ found.0;
          listens =
              subst
                (λ a.
                  (is_unspecified c.destination.ip ≡ true)
                  ⊎ ((is_unspecified a.ip || ip_eq a.ip c.destination.ip) ≡ true))
                (sym there) found.1;
        },
      )
    ]

deliver-Outcome :
    (v : Net) (c : Chunk) (q : ℕ)
    → HostIsValid v
    → c.network ≡ Network.udp
    → Outcome (v.sockets q) ((deliver v c).sockets q) c
unfolding deliver
deliver-Outcome v c q h udp = elim (Option-cases (find v.udp_conns c.destination).0) [
  | inl free ↦ rw (free, deliver) (inl refl)
  | inr (conn, found) ↦ elim (Bool-cases (conn.id == q)) [
    | inr other ↦ rw (found, deliver) (rw other (inl refl))
    | inl here ↦
        rw (found, deliver)
          (rw here (
            subst (λ r. Outcome (v.sockets r) (enqueue (v.sockets conn.id) c) c) {x = conn.id}
              {y = q} (ground arith)
              (enqueue-Outcome (v.sockets conn.id) c conn udp (opened conn found).there
                (opened conn found).live
                (find-takes v.udp_conns c.destination conn h.conns found))))
  ]
]
  where
    opened :
        (conn : UdpConn)
        → (find v.udp_conns c.destination).0 ≡ some conn
        → IsOpen v.sockets v.next conn
    opened conn found =
        find-All (IsOpen v.sockets v.next) v.udp_conns c.destination conn h.live found

-- On a valid host an inbound chunk leaves a socket as it is, or it is put at the end of the
-- socket's queue. The latter happens only to an open socket that has room, and whose port and
-- address are those of a UDP chunk's destination, where 0.0.0.0 and :: match every address.
pub on_inbound_chunk-Outcome :
    (v : Net) (c : Chunk) (q : ℕ)
    → HostIsValid v
    → Outcome (v.sockets q) ((on_inbound_chunk v c).sockets q) c
unfolding on_inbound_chunk
on_inbound_chunk-Outcome v c q h = elim (network-cases c.network) [
  | inl udp ↦
      subst (λ w. Outcome (v.sockets q) (w.sockets q) c) {x = deliver v c} (by udp)
        (deliver-Outcome v c q h udp)
  | inr tcp ↦ rw (tcp, on_inbound_chunk) (inl refl)
]
  where
    by : c.network ≡ Network.udp → deliver v c ≡ on_inbound_chunk v c
    by udp = simp (udp, on_inbound_chunk)
