-- ===== src/Vnet/TcpConnMap.antt =====
-- vnet/tcp_map.go, tcpConnMap: the TCP connections of a virtual host, by local port.
-- The mutex makes each method one atomic step; a method returns the new map beside its result.
mod Tests
pub mod Laws
pub mod Find
use transport.Prelude.{
  ℕ, Bool, true, false, Option, none, some, List, [], ◌∷◌, ◌++◌, ◌&&◌, ◌||◌, ◌==◌, if◌then◌else◌,
  length,
}
use transport.Vnet.Addr.{Ip, Addr, ip_eq, is_unspecified}
use transport.Vnet.PortMap.{PortMap, lookup, insert as put, erase}

-- errTCPConnAlreadyUsed and errNoSuchTCPConn
pub data Error : Type 0 where
  tcp_conn_already_used no_such_tcp_conn : Error

-- A `*TCPConn`: `id` stands for the pointer, the addresses for `LocalAddr()` and `RemoteAddr()`.
pub record TcpConn : Type 0 where
  pub id : ℕ
  pub loc_addr : Addr
  pub rem_addr : Addr

abbrev pub TcpConnMap : Type 0
TcpConnMap = PortMap TcpConn

abbrev pub new_tcp_conn_map : TcpConnMap
new_tcp_conn_map = []

-- `conns := m.portMap[p]`: no entry reads as the nil slice.
unfoldable pub slice_at : ℕ → TcpConnMap → List TcpConn
slice_at p m = elim (lookup p m) [ none ↦ [] | some conns ↦ conns ]

unfoldable pub same_remote : TcpConn → Addr → Bool
same_remote c r = ip_eq c.rem_addr.ip r.ip && c.rem_addr.port == r.port

-- The test of the loop of `insert`.
unfoldable pub clashes : TcpConn → TcpConn → Bool
unfolding same_remote
clashes existing conn =
    (is_unspecified existing.loc_addr.ip
      || is_unspecified conn.loc_addr.ip
      || ip_eq existing.loc_addr.ip conn.loc_addr.ip)
    && same_remote existing conn.rem_addr

unfoldable pub tuple_taken : TcpConn → List TcpConn → Bool
tuple_taken conn [] = false
tuple_taken conn (c ∷ cs) = clashes c conn || tuple_taken conn cs

unfoldable pub insert : TcpConnMap → TcpConn → Option Error × TcpConnMap
insert m conn =
    if tuple_taken conn conns
    then (some tcp_conn_already_used, m)
    else (none, put conn.loc_addr.port (conns ++ (conn ∷ [])) m)
  where
    conns : List TcpConn
    conns = slice_at conn.loc_addr.port m

-- The test of the loop of `findByChunk`, for a chunk from `src` to `dst`.
unfoldable pub receives : TcpConn → Addr → Addr → Bool
unfolding same_remote
receives c dst src =
    (is_unspecified c.loc_addr.ip || ip_eq c.loc_addr.ip dst.ip) && same_remote c src

unfoldable pub first_receiver : Addr → Addr → List TcpConn → Option TcpConn
first_receiver dst src [] = none
first_receiver dst src (c ∷ cs) = if receives c dst src then some c else first_receiver dst src cs

unfoldable pub find_by_chunk : TcpConnMap → Addr → Addr → Option TcpConn
find_by_chunk m dst src = elim (lookup dst.port m) [
  | none ↦ none
  | some conns ↦ first_receiver dst src conns
]

-- The end of both delete methods: nothing removed is an error, and an empty list drops the port.
unfoldable pub store_kept : ℕ → TcpConnMap → List TcpConn → List TcpConn → Option Error × TcpConnMap
store_kept port m conns [] =
    if length conns == 0 then (some no_such_tcp_conn, m) else (none, erase port m)
store_kept port m conns (c ∷ cs) =
    if length (c ∷ cs) == length conns
    then (some no_such_tcp_conn, m)
    else (none, put port (c ∷ cs) m)

-- The loop of `deleteConn`.
unfoldable pub without_conn : TcpConn → List TcpConn → List TcpConn
without_conn c [] = []
without_conn c (d ∷ ds) = if d.id == c.id then without_conn c ds else d ∷ without_conn c ds

unfoldable pub delete_conn : TcpConnMap → TcpConn → Option Error × TcpConnMap
delete_conn m c = elim (lookup c.loc_addr.port m) [
  | none ↦ (some no_such_tcp_conn, m)
  | some conns ↦ store_kept c.loc_addr.port m conns (without_conn c conns)
]

-- The test of the loop of `deleteByAddr`: the whole 4-tuple.
unfoldable pub has_tuple : TcpConn → Addr → Addr → Bool
unfolding same_remote
has_tuple c laddr raddr = ip_eq c.loc_addr.ip laddr.ip && same_remote c raddr

unfoldable pub without_tuple : Addr → Addr → List TcpConn → List TcpConn
without_tuple laddr raddr [] = []
without_tuple laddr raddr (c ∷ cs) =
    if has_tuple c laddr raddr
    then without_tuple laddr raddr cs
    else c ∷ without_tuple laddr raddr cs

unfoldable pub delete_by_addr : TcpConnMap → Addr → Addr → Option Error × TcpConnMap
delete_by_addr m laddr raddr = elim (lookup laddr.port m) [
  | none ↦ (some no_such_tcp_conn, m)
  | some conns ↦ store_kept laddr.port m conns (without_tuple laddr raddr conns)
]

-- The loop of `portInUse`.
unfoldable pub any_on_ip : Ip → List TcpConn → Bool
any_on_ip ip [] = false
any_on_ip ip (c ∷ cs) = is_unspecified c.loc_addr.ip || ip_eq c.loc_addr.ip ip || any_on_ip ip cs

unfoldable pub port_in_use : TcpConnMap → Ip → ℕ → Bool
port_in_use m ip port = elim (lookup port m) [ none ↦ false | some conns ↦ any_on_ip ip conns ]
