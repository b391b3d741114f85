-- ===== src/Vnet/UdpConnMap.antt =====
-- vnet/conn_map.go: the UDP connections of a virtual host, by local port.
-- The mutex makes each method one atomic step; a method returns the new map beside its results.
mod Tests
pub mod Laws
use transport.Prelude.{ℕ, Option, none, some, List, [], ◌∷◌, ◌++◌, if◌then◌else◌}
use transport.Vnet.Addr.{Ip, Addr, ip_eq, is_unspecified}
use transport.Vnet.PortList.{taken, first_covering}
use transport.Vnet.PortMap.{PortMap, lookup, insert as put, erase, total}

-- The error values of the file.
pub data Error : Type 0 where
  address_already_in_use no_such_udp_conn cannot_remove_unspecified_ip : Error

-- A `*UDPConn`: `id` stands for the pointer, `loc_addr` for what `LocalAddr()` returns.
pub record UdpConn : Type 0 where
  pub id : ℕ
  pub loc_addr : Addr

abbrev pub UdpConnMap : Type 0
UdpConnMap = PortMap UdpConn

abbrev pub new_udp_conn_map : UdpConnMap
new_udp_conn_map = []

-- `c.LocalAddr()`
abbrev pub local_addr : UdpConn → Addr
local_addr c = c.loc_addr

unfoldable pub insert : UdpConnMap → UdpConn → Option Error × UdpConnMap
insert m conn = elim (lookup addr.port m) [
  | none ↦ (none, put addr.port (conn ∷ []) m)
  | some conns ↦
      if is_unspecified addr.ip
      then (some address_already_in_use, m)
      else if taken local_addr addr.ip conns
      then (some address_already_in_use, m)
      else (none, put addr.port (conns ++ (conn ∷ [])) m)
]
  where
    addr : Addr
    addr = conn.loc_addr

-- `conns[0]`, or the branch for an empty slice, which drops the port.
unfoldable pub first_of_port : ℕ → UdpConnMap → List UdpConn → Option UdpConn × UdpConnMap
first_of_port port m [] = (none, erase port m)
first_of_port port m (c ∷ cs) = (some c, m)

unfoldable pub find : UdpConnMap → Addr → Option UdpConn × UdpConnMap
unfolding first_of_port
find m addr = elim (lookup addr.port m) [
  | none ↦ (none, m)
  | some conns ↦
      if is_unspecified addr.ip
      then first_of_port addr.port m conns
      else (first_covering local_addr addr.ip conns, m)
]

-- The loop of `delete`: the connections that stay, or `none` where it meets a wildcard connection.
unfoldable pub without : Ip → List UdpConn → Option (List UdpConn)
without ip [] = some []
without ip (c ∷ cs) = if is_unspecified c.loc_addr.ip then none else elim (without ip cs) [
  | none ↦ none
  | some kept ↦ if ip_eq c.loc_addr.ip ip then some kept else some (c ∷ kept)
]

-- The end of `delete`: an empty list drops the port.
unfoldable pub store_kept : ℕ → UdpConnMap → List UdpConn → UdpConnMap
store_kept port m [] = erase port m
store_kept port m (c ∷ cs) = put port (c ∷ cs) m

unfoldable pub delete : UdpConnMap → Addr → Option Error × UdpConnMap
unfolding store_kept
delete m addr = elim (lookup addr.port m) [
  | none ↦ (some no_such_udp_conn, m)
  | some conns ↦
      if is_unspecified addr.ip then (none, erase addr.port m) else elim (without addr.ip conns) [
        | none ↦ (some cannot_remove_unspecified_ip, m)
        | some kept ↦ (none, store_kept addr.port m kept)
      ]
]

unfoldable pub size : UdpConnMap → ℕ
size m = total m
