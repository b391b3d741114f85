-- ===== src/Vnet/Sockets/Loopback.antt =====
-- vnet/net.go and vnet/conn.go: bytes that are written to a socket of the same host are read there.
use transport.Prelude.{
  ℕ, zero, suc, if◌then◌else◌, ◌==◌, ◌≤◌, ◌≡◌, refl, ap, ◌∙◌, Bool, true, false, ltb, none, some,
  List, [], ◌∷◌, inl, inr, arith, Bool-cases, length, take,
}
use transport.Vnet.Addr.{Ip, Addr, is_unspecified}
use transport.Vnet.Chunk.{Chunk, new_chunk_udp}
use transport.Vnet.UdpConnMap.{UdpConn, find}
use transport.Vnet.NetState.{Socket, Net, is_loopback, loopback_v4, loopback_v6}
use transport.Vnet.NatState.{is_v6}
use transport.Vnet.Net.{determine_source_ip, source, source_for_any}
use transport.Vnet.SocketRead.{packet, read_from, received, is_foreign}
use transport.Vnet.Sockets.{enqueue, deliver, write, written, write_to}
use transport.Vnet.Sockets.Conns.{find-All}
use transport.Vnet.Sockets.Valid.{IsOpen, HostIsValid}

take-all : (n : ℕ) (xs : List ℕ) → length xs ≤ n → take n xs ≡ xs
take-all zero [] h = refl
take-all (suc n) [] h = refl
take-all zero (x ∷ xs) h = absurd (omega arith)
take-all (suc n) (x ∷ xs) h = ap (λ ys. x ∷ ys) (take-all n xs (omega arith))

-- For a loopback address there is always a source.
source-loopback :
    (v : Net) (loc dst : Ip)
    → is_loopback dst ≡ true
    → (src : Ip) × (determine_source_ip v.interfaces (some loc) dst ≡ source src)
unfolding determine_source_ip source_for_any
source-loopback v loc dst h = elim (Bool-cases (is_unspecified loc)) [
  | inl wild ↦ (if is_v6 loc then loopback_v6 else loopback_v4, rw (wild, h) refl)
  | inr specified ↦ (loc, rw specified refl)
]

deliver-found :
    (v : Net) (c : Chunk) (conn : UdpConn)
    → (find v.udp_conns c.destination).0 ≡ some conn
    → (deliver v c).sockets conn.id ≡ enqueue (v.sockets conn.id) c
unfolding deliver
deliver-found v c conn found =
    let here : (conn.id == conn.id) ≡ true = ground arith in rw (found, deliver) (rw here refl)

enqueue-empty :
    (s : Socket) (c : Chunk)
    → s.closed ≡ false
    → s.read_ch ≡ []
    → enqueue s c ≡ record s { read_ch = c ∷ [] }
unfolding enqueue
enqueue-empty s c live empty = rw (live, empty) refl

received-fits :
    (size : ℕ) (c : Chunk)
    → length c.user_data ≤ size
    → received size c ≡ packet c.user_data c.source none
unfolding received
received-fits size c fits =
    let short : ltb size (length c.user_data) ≡ false = ground arith in
    rw (short, take-all size c.user_data fits) refl

read_from-only :
    (takes_tick : ℕ → Bool) (size : ℕ) (s : Socket) (c : Chunk)
    → s.rem_addr ≡ none
    → s.fired ≡ false
    → length c.user_data ≤ size
    → (read_from takes_tick size (record s { read_ch = c ∷ [] })).1
      ≡ packet c.user_data c.source none
unfolding read_from is_foreign
read_from-only takes_tick size s c any quiet fits = rw (quiet, any) (received-fits size c fits)

-- On a valid host, bytes that an application writes to a loopback address reach the socket that
-- `find` gives for it: if that has an empty queue, no remote address and no tick of its timer
-- waiting, a read into a buffer that is large enough returns exactly these bytes, from the port of
-- the socket that wrote them, and no error.
pub read_from-write_to :
    (takes_tick : ℕ → Bool) (size : ℕ) (v : Net) (p : ℕ) (payload : List ℕ) (dst : Addr)
    (conn : UdpConn)
    → HostIsValid v
    → is_loopback dst.ip ≡ true
    → (find v.udp_conns dst).0 ≡ some conn
    → (v.sockets conn.id).read_ch ≡ []
    → (v.sockets conn.id).rem_addr ≡ none
    → (v.sockets conn.id).fired ≡ false
    → length payload ≤ size
    → (src : Ip) × (v' : Net) × (write_to v p payload dst ≡ some (v', none, inr (length payload)))
      × ((read_from takes_tick size (v'.sockets conn.id)).1
          ≡ packet payload (record { ip = src; port = (v.sockets p).loc_addr.port }) none)
unfolding write_to write written
read_from-write_to takes_tick size v p payload dst conn h near found empty any quiet fits =
    let (src, from) = source-loopback v (v.sockets p).loc_addr.ip dst.ip near in
    let c : Chunk =
      new_chunk_udp (record { ip = src; port = (v.sockets p).loc_addr.port }) dst payload in
    let live = (find-All (IsOpen v.sockets v.next) v.udp_conns dst conn h.live found).live in
    let arrived : (deliver v c).sockets conn.id ≡ record (v.sockets conn.id) { read_ch = c ∷ [] } =
      deliver-found v c conn found ∙ enqueue-empty (v.sockets conn.id) c live empty in
    (
      src,
      deliver v c,
      rw (from, near) refl,
      rw arrived (read_from-only takes_tick size (v.sockets conn.id) c any quiet fits),
    )
