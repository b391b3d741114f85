-- ===== src/Vnet/Sockets.antt =====
-- vnet/net.go and vnet/conn.go: the UDP sockets of a virtual host.
-- A socket's methods and those of the host are atomic steps; each returns the host that it leaves.
pub mod Conns
pub mod Deleted
pub mod Valid
pub mod Runs
pub mod Delivery
pub mod Dial
pub mod Close
pub mod Loopback
mod Tests
use transport.Prelude.{
  ℕ, ◌+◌, ◌-◌, Bool, true, false, ltb, leb, not, ◌==◌, ◌&&◌, ◌||◌, if◌then◌else◌, Option, none,
  some, List, [], ◌∷◌, ◌++◌, length, take, min, String, str_eq, ◌⊎◌, inl, inr,
}
use transport.Vnet.Addr.{Ip, Addr, ip_eq}
use transport.Vnet.Chunk.{Network, Chunk, new_chunk_udp}
use transport.Vnet.NatState.{addr_eq}
use transport.Vnet.NetState.{
  Error, unexpected_network, cant_assign_requested_addr, address_already_in_use, no_router_linked,
  no_rem_addr, loc_addr_wrong, already_closed, use_of_closed_network_connection, timeout,
  short_buffer, Socket, Net, WantedAddr, is_loopback, udp_zero_ip, write_socket,
}
use transport.Vnet.Net.{
  has_ip_addr, assign_port, determine_source_ip, SourceIp, source, no_source, panicked,
}
use transport.Vnet.UdpConnMap.{UdpConn, UdpConnMap, find, insert, delete}

-- The length of `readCh`.
abbrev pub max_read_queue_size : ℕ
max_read_queue_size = 1024

-- `newUDPConn`
unfoldable pub new_udp_conn : Addr → Option Addr → Socket
new_udp_conn loc rem = record {
  loc_addr = loc;
  rem_addr = rem;
  read_ch = [];
  closed = false;
  alarm = none;
  fired = false;
}

-- The networks that `_dialUDP` knows.
unfoldable pub is_udp_network : String → Bool
is_udp_network network = str_eq network "udp" || (str_eq network "udp4" || str_eq network "udp6")

-- `conn, err := newUDPConn(...)` and `udpConns.insert(conn)`: the new socket has the next pointer.
unfoldable pub register : Net → Addr → Option Addr → Net × (Error ⊎ ℕ)
register v loc rem =
    let conn : UdpConn = record { id = v.next; loc_addr = loc } in
    let (e, m) = insert v.udp_conns conn in
    let v' = record v {
      udp_conns = m;
      sockets = write_socket v.sockets v.next (new_udp_conn loc rem);
      next = v.next + 1;
    } in
    elim e [ none ↦ (v', inr v.next) | some _ ↦ (v', inl address_already_in_use) ]

-- `_dialUDP` after the port has been chosen.
unfoldable pub register_at : Net → Ip → (Error ⊎ ℕ) → Option Addr → Net × (Error ⊎ ℕ)
register_at v ip (inl e) rem = (v, inl e)
register_at v ip (inr port) rem = register v (record { ip = ip; port = port }) rem

-- `_dialUDP` where a port was asked for: some socket may take its packets already.
unfoldable pub dial_port : Net → Addr → Option Addr → Net × (Error ⊎ ℕ)
dial_port v loc rem =
    let (found, m) = find v.udp_conns loc in
    let v' = record v { udp_conns = m } in
    elim found [ some c ↦ (v', inl address_already_in_use) | none ↦ register v' loc rem ]

unfoldable pub dial_any_port : (ℕ → ℕ) → Net → Ip → Option Addr → Net × (Error ⊎ ℕ)
unfolding register_at
dial_any_port intn v ip rem =
    let (port, v') = assign_port intn v ip 5000 5999 in register_at v' ip port rem

-- The IP of the local address, which is filled in where it is nil.
unfoldable pub local_ip : String → Option WantedAddr → Ip
local_ip network none = udp_zero_ip (str_eq network "udp6")
local_ip network (some a) = elim a.ip [ none ↦ udp_zero_ip (str_eq network "udp6") | some ip ↦ ip ]

unfoldable pub local_port : Option WantedAddr → ℕ
local_port none = 0
local_port (some a) = a.port

-- `_dialUDP`, which gives the pointer of the new socket. What the source writes into the caller's
-- address is the local address of the socket.
unfoldable pub dial_udp :
    (ℕ → ℕ) → Net → String → Option WantedAddr → Option Addr → Net × (Error ⊎ ℕ)
dial_udp intn v network loc rem =
    if not (is_udp_network network)
    then (v, inl unexpected_network)
    else if not (has_ip_addr v.interfaces (local_ip network loc))
    then (v, inl cant_assign_requested_addr)
    else if local_port loc == 0
    then dial_any_port intn v (local_ip network loc) rem
    else dial_port v (record { ip = local_ip network loc; port = local_port loc }) rem

-- `UDPConn.onInboundChunk`
unfoldable pub enqueue : Socket → Chunk → Socket
enqueue s c =
    if s.closed
    then s
    else if ltb (length s.read_ch) max_read_queue_size
    then record s { read_ch = s.read_ch ++ (c ∷ []) }
    else s

-- `if conn, ok := v.udpConns.find(...); ok { conn.onInboundChunk(c) }`
unfoldable pub deliver : Net → Chunk → Net
deliver v c =
    let (found, m) = find v.udp_conns c.destination in
    elim found [
      | none ↦ record v { udp_conns = m }
      | some conn ↦ record v {
        udp_conns = m;
        sockets = write_socket v.sockets conn.id (enqueue (v.sockets conn.id) c);
      }
    ]

-- `Net.onInboundChunk`
unfoldable pub on_inbound_chunk : Net → Chunk → Net
on_inbound_chunk v c = elim c.network [ Network.udp ↦ deliver v c | Network.tcp ↦ v ]

-- `Net.write`; the chunk that is pushed to the router is returned.
unfoldable pub to_router : Net → Chunk → Net × Option Chunk × Option Error
to_router v c = elim v.router [
  | none ↦ (v, none, some no_router_linked)
  | some r ↦ (v, some c, none)
]

unfoldable pub write : Net → Chunk → Net × Option Chunk × Option Error
unfolding to_router
write v c = elim c.network [
  | Network.tcp ↦ to_router v c
  | Network.udp ↦ if is_loopback c.destination.ip then (deliver v c, none, none) else to_router v c
]

-- The end of `WriteTo`: the count of bytes, or the error.
unfoldable pub written : ℕ → Net × Option Chunk × Option Error → Net × Option Chunk × (Error ⊎ ℕ)
written n (v, pushed, none) = (v, pushed, inr n)
written n (v, pushed, some e) = (v, pushed, inl e)

-- `WriteTo`, from the socket at a pointer; `none` is the panic of `determineSourceIP`.
unfoldable pub write_from :
    Net → Addr → List ℕ → Addr → SourceIp → Option (Net × Option Chunk × (Error ⊎ ℕ))
unfolding written
write_from v loc payload dst panicked = none
write_from v loc payload dst no_source = some (v, none, inl loc_addr_wrong)
write_from v loc payload dst (source ip) = some (
    written (length payload)
      (write v (new_chunk_udp (record { ip = ip; port = loc.port }) dst payload)))

unfoldable pub write_to : Net → ℕ → List ℕ → Addr → Option (Net × Option Chunk × (Error ⊎ ℕ))
unfolding write_from
write_to v p payload dst =
    let loc = (v.sockets p).loc_addr in
    write_from v loc payload dst (determine_source_ip v.interfaces (some loc.ip) dst.ip)

-- `Write`
unfoldable pub write_connected : Net → ℕ → List ℕ → Option (Net × Option Chunk × (Error ⊎ ℕ))
unfolding write_to
write_connected v p payload = elim (v.sockets p).rem_addr [
  | none ↦ some (v, none, inl no_rem_addr)
  | some dst ↦ write_to v p payload dst
]

-- `onClosed`, which ignores the error of `delete`.
unfoldable pub on_closed : Net → Addr → Net
on_closed v a = record v { udp_conns = (delete v.udp_conns a).1 }

-- `Close`
unfoldable pub close : Net → ℕ → Net × Option Error
unfolding on_closed
close v p = if (v.sockets p).closed then (v, some already_closed) else (
  on_closed
      (record v { sockets = write_socket v.sockets p (record (v.sockets p) { closed = true }) })
      (v.sockets p).loc_addr,
  none,
)
