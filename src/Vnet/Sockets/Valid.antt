-- ===== src/Vnet/Sockets/Valid.antt =====
-- vnet/net.go and vnet/conn.go: the invariant of a host, and that every operation keeps it.
use transport.Prelude.{
  ℕ, ◌+◌, ◌==◌, ◌<◌, ◌≡◌, ◌≢◌, refl, sym, ap, ◌∙◌, true, false, Option, List, [], ◌∷◌, inl, inr,
  ◌⊎◌, arith, Bool-cases, Option-cases, String,
}
use mathlib.Core.Path.{subst}
use transport.Vnet.Addr.{Ip, Addr}
use transport.Vnet.Chunk.{Chunk, network-cases}
use transport.Vnet.PortList.{IsValid}
use transport.Vnet.UdpConnMap.{UdpConn, local_addr, insert, find}
use transport.Vnet.UdpConnMap.Laws.{UdpConnMap-IsValid, find-same}
use transport.Vnet.NetState.{Error, Socket, Net, WantedAddr, write_socket, is_loopback}
use transport.Vnet.Net.{has_ip_addr}
use transport.Vnet.Net.Ports.{assign_port-same}
use transport.Vnet.Sockets.{
  is_udp_network, local_ip, local_port, new_udp_conn, register, register_at, dial_port,
  dial_any_port, dial_udp, enqueue, deliver, to_router, write, close,
}
use transport.Vnet.Sockets.Conns.{All, AllConns, AllConns-insert}
use transport.Vnet.Sockets.Deleted.{delete-Stays}

-- A connection of the map is an open socket of the host, at its address.
pub record IsOpen (sockets : ℕ → Socket) (next : ℕ) (c : UdpConn) : Type 0 where
  pub below : c.id < next
  pub there : (sockets c.id).loc_addr ≡ c.loc_addr
  pub live : (sockets c.id).closed ≡ false

-- The connection map is valid, and its connections are open sockets.
pub record HostIsValid (v : Net) : Type 0 where
  pub conns : IsValid local_addr v.udp_conns
  pub live : AllConns (IsOpen v.sockets v.next) v.udp_conns

All-map :
    {P Q : UdpConn → Type 0}
    → ((c : UdpConn) → P c → Q c)
    → (cs : List UdpConn) → All P cs
    → All Q cs
All-map f [] h = tt
All-map f (c ∷ cs) h = (f c h.0, All-map f cs h.1)

-- A socket changes, but not its address, and it is not closed.
pub update-HostIsValid :
    (v : Net) (p : ℕ) (s : Socket)
    → s.loc_addr ≡ (v.sockets p).loc_addr
    → s.closed ≡ (v.sockets p).closed
    → HostIsValid v
    → HostIsValid (record v { sockets = write_socket v.sockets p s })
update-HostIsValid v p s loc closed h = record {
  conns = h.conns;
  live = λ port cs e. All-map keeps cs (h.live port cs e);
}
  where
    keeps : (c : UdpConn) → IsOpen v.sockets v.next c → IsOpen (write_socket v.sockets p s) v.next c
    keeps c o = elim (Bool-cases (p == c.id)) [
      | inl same ↦
          let at : p ≡ c.id = ground arith in
          record {
            below = o.below;
            there = rw same (loc ∙ ap (λ q. (v.sockets q).loc_addr) at ∙ o.there);
            live = rw same (closed ∙ ap (λ q. (v.sockets q).closed) at ∙ o.live);
          }
      | inr other ↦ record { below = o.below; there = rw other o.there; live = rw other o.live }
    ]

register-HostIsValid :
    (v : Net) (loc : Addr) (rem : Option Addr) → HostIsValid v → HostIsValid (register v loc rem).0
unfolding register
register-HostIsValid v loc rem h = elim (Option-cases (insert v.udp_conns conn).0) [
  | inl fine ↦ rw (fine, register) after
  | inr (e, refused) ↦ rw (refused, register) after
]
  where
    conn : UdpConn
    conn = record { id = v.next; loc_addr = loc }

    older :
        (c : UdpConn)
        → IsOpen v.sockets v.next c
        → IsOpen (write_socket v.sockets v.next (new_udp_conn loc rem)) (v.next + 1) c
    older c o =
        let apart : (v.next == c.id) ≡ false = ground (arith, o.below) in
        record { below = ground (arith, o.below); there = rw apart o.there; live = rw apart o.live }

    here : (v.next == v.next) ≡ true
    here = ground arith

    newest : IsOpen (write_socket v.sockets v.next (new_udp_conn loc rem)) (v.next + 1) conn
    newest = record {
      below = omega arith;
      there = rw here (unfold new_udp_conn in refl);
      live = rw here (unfold new_udp_conn in refl);
    }

    after : HostIsValid (record v {
      udp_conns = (insert v.udp_conns conn).1;
      sockets = write_socket v.sockets v.next (new_udp_conn loc rem);
      next = v.next + 1;
    })
    after = record {
      conns = (UdpConnMap-IsValid v.udp_conns conn loc h.conns).0;
      live =
          AllConns-insert
            (IsOpen (write_socket v.sockets v.next (new_udp_conn loc rem)) (v.next + 1)) v.udp_conns
            conn newest (λ port cs e. All-map older cs (h.live port cs e));
    }

dial_port-HostIsValid :
    (v : Net) (loc : Addr) (rem : Option Addr) → HostIsValid v → HostIsValid (dial_port v loc rem).0
unfolding dial_port
dial_port-HostIsValid v loc rem h = elim (Option-cases (find v.udp_conns loc).0) [
  | inl free ↦
      rw (free, dial_port, find-same v.udp_conns loc h.conns) (register-HostIsValid v loc rem h)
  | inr (c, found) ↦ rw (found, dial_port, find-same v.udp_conns loc h.conns) h
]

register_at-HostIsValid :
    (v : Net) (ip : Ip) (port : Error ⊎ ℕ) (rem : Option Addr)
    → HostIsValid v
    → HostIsValid (register_at v ip port rem).0
unfolding register_at
register_at-HostIsValid v ip (inl e) rem h = h
register_at-HostIsValid v ip (inr port) rem h = register-HostIsValid v _ rem h

dial_any_port-HostIsValid :
    (intn : ℕ → ℕ) (v : Net) (ip : Ip) (rem : Option Addr)
    → HostIsValid v
    → HostIsValid (dial_any_port intn v ip rem).0
unfolding dial_any_port
dial_any_port-HostIsValid intn v ip rem h =
    register_at-HostIsValid _ ip _ rem
      (subst HostIsValid (sym (assign_port-same intn v ip 5000 5999 h.conns (omega arith))) h)

pub dial_udp-HostIsValid :
    (intn : ℕ → ℕ) (v : Net) (network : String) (loc : Option WantedAddr) (rem : Option Addr)
    → HostIsValid v
    → HostIsValid (dial_udp intn v network loc rem).0
unfolding dial_udp
dial_udp-HostIsValid intn v network loc rem h = elim (Bool-cases (is_udp_network network)) [
  | inr unknown ↦ rw unknown h
  | inl udp ↦ rw udp (elim (Bool-cases (has_ip_addr v.interfaces (local_ip network loc))) [
    | inr foreign ↦ rw foreign h
    | inl own ↦ rw own (elim (Bool-cases (local_port loc == 0)) [
      | inl any ↦ rw any (dial_any_port-HostIsValid intn v (local_ip network loc) rem h)
      | inr port ↦ rw port (dial_port-HostIsValid v _ rem h)
    ])
  ])
]

pub deliver-HostIsValid : (v : Net) (c : Chunk) → HostIsValid v → HostIsValid (deliver v c)
unfolding deliver enqueue
deliver-HostIsValid v c h = elim (Option-cases (find v.udp_conns c.destination).0) [
  | inl free ↦ rw (free, deliver, find-same v.udp_conns c.destination h.conns) h
  | inr (conn, found) ↦
      rw (found, deliver, find-same v.udp_conns c.destination h.conns)
        (update-HostIsValid v conn.id (enqueue (v.sockets conn.id) c) (ground arith) (ground arith)
          h)
]

to_router-HostIsValid : (v : Net) (c : Chunk) → HostIsValid v → HostIsValid (to_router v c).0
unfolding to_router
to_router-HostIsValid v c h = elim (Option-cases v.router) [
  | inl alone ↦ simp (alone, to_router) h
  | inr (r, linked) ↦ simp (linked, to_router) h
]

pub write-HostIsValid : (v : Net) (c : Chunk) → HostIsValid v → HostIsValid (write v c).0
unfolding write
write-HostIsValid v c h = elim (network-cases c.network) [
  | inl udp ↦
      rw (udp, write)
        (elim (Bool-cases (is_loopback c.destination.ip)) [
          | inl here ↦ rw here (deliver-HostIsValid v c h)
          | inr away ↦ rw away (to_router-HostIsValid v c h)
        ])
  | inr tcp ↦ rw (tcp, write) (to_router-HostIsValid v c h)
]

pub close-HostIsValid : (v : Net) (p : ℕ) → HostIsValid v → HostIsValid (close v p).0
unfolding close
close-HostIsValid v p h = elim (Bool-cases (v.sockets p).closed) [
  | inl twice ↦ rw twice h
  | inr first ↦ rw first (record {
    conns = (UdpConnMap-IsValid v.udp_conns unused (v.sockets p).loc_addr h.conns).1;
    live = λ port cs e. All-map keeps cs (
        delete-Stays (IsOpen v.sockets v.next) (v.sockets p).loc_addr v.udp_conns h.conns h.live
          port cs e);
  })
]
  where
    unused : UdpConn
    unused = record { id = 0; loc_addr = (v.sockets p).loc_addr }

    shut : Socket
    shut = record (v.sockets p) { closed = true }

    keeps :
        (c : UdpConn)
        → IsOpen v.sockets v.next c × (c.loc_addr ≢ (v.sockets p).loc_addr)
        → IsOpen (write_socket v.sockets p shut) v.next c
    keeps c (o, moved) = elim (Bool-cases (p == c.id)) [
      | inl same ↦
          absurd (
            moved
              (sym o.there ∙ ap (λ q. (v.sockets q).loc_addr) {x = c.id} {y = p} (ground arith)))
      | inr other ↦ record { below = o.below; there = rw other o.there; live = rw other o.live }
    ]
