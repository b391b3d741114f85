-- ===== src/Vnet/Sockets/Close.antt =====
-- vnet/net.go and vnet/conn.go: the address of a closed socket is free again.
use transport.Prelude.{ℕ, ◌==◌, ◌≡◌, ◌≢◌, refl, true, false, Option, none, some, inr, arith, String}
use transport.Vnet.Addr.{Addr}
use transport.Vnet.PortList.{IsValid}
use transport.Vnet.UdpConnMap.{UdpConn, local_addr, find, insert, delete}
use transport.Vnet.UdpConnMap.Laws.{find-same, insert-find, find-delete}
use transport.Vnet.NetState.{Net}
use transport.Vnet.Net.{has_ip_addr}
use transport.Vnet.Sockets.{
  is_udp_network, local_ip, local_port, register, dial_port, dial_udp, close,
}
use transport.Vnet.Sockets.Deleted.{delete-found}
use transport.Vnet.Sockets.Valid.{HostIsValid, close-HostIsValid}

dial_port-free :
    (v : Net) (loc : Addr) (rem : Option Addr)
    → IsValid local_addr v.udp_conns
    → (find v.udp_conns loc).0 ≡ none
    → (dial_port v loc rem).1 ≡ inr v.next
unfolding dial_port register
dial_port-free v loc rem h free =
    let conn : UdpConn = record { id = v.next; loc_addr = loc } in
    let fits : (insert v.udp_conns conn).0 ≡ none = (insert-find v.udp_conns conn h).1 free in
    rw (free, dial_port, find-same v.udp_conns loc h, fits, register) refl

-- An address with a port, of the host's own, that no socket takes.
dial_udp-free :
    (intn : ℕ → ℕ) (v : Net) (network : String) (loc : Addr) (rem : Option Addr)
    → IsValid local_addr v.udp_conns
    → is_udp_network network ≡ true
    → has_ip_addr v.interfaces loc.ip ≡ true
    → loc.port ≢ 0
    → (find v.udp_conns loc).0 ≡ none
    → (dial_udp intn v network (some (record { ip = some loc.ip; port = loc.port })) rem).1
      ≡ inr v.next
unfolding dial_udp local_ip local_port
dial_udp-free intn v network loc rem h udp own ne free =
    let given : (loc.port == 0) ≡ false = ground arith in
    rw (udp, own, given) (dial_port-free v loc rem h free)

-- An open socket of a valid host that its map has at its address can be closed, and then no
-- socket takes the packets of this address, and a new socket can be opened on it, if it has a port
-- and the host still has the IP.
pub dial_udp-close :
    (intn : ℕ → ℕ) (v : Net) (network : String) (p : ℕ) (rem : Option Addr)
    → HostIsValid v
    → (v.sockets p).closed ≡ false
    → (find v.udp_conns (v.sockets p).loc_addr).0
      ≡ some (record { id = p; loc_addr = (v.sockets p).loc_addr })
    → is_udp_network network ≡ true
    → has_ip_addr v.interfaces (v.sockets p).loc_addr.ip ≡ true
    → (v.sockets p).loc_addr.port ≢ 0
    → ((close v p).1 ≡ none)
      × ((find (close v p).0.udp_conns (v.sockets p).loc_addr).0 ≡ none)
      × ((dial_udp intn
            (close v p).0
            network
            (some
              (record { ip = some (v.sockets p).loc_addr.ip; port = (v.sockets p).loc_addr.port }))
            rem).1
          ≡ inr v.next)
unfolding close
dial_udp-close intn v network p rem h live here udp own ne =
    let gone : (find (delete v.udp_conns (v.sockets p).loc_addr).1 (v.sockets p).loc_addr).0
        ≡ none =
      find-delete v.udp_conns (v.sockets p).loc_addr (
        delete-found v.udp_conns (record { id = p; loc_addr = (v.sockets p).loc_addr }) h.conns
          here) in
    let valid = (close-HostIsValid v p h).conns in
    rw live (
      refl,
      gone,
      dial_udp-free intn _ network (v.sockets p).loc_addr rem (rw live at valid) udp own ne gone,
    )
