-- ===== src/Vnet/TcpListenerMap.antt =====
-- vnet/tcp_map.go, tcpListenerMap: the TCP listeners of a virtual host, by local port.
-- The mutex makes each method one atomic step; a method returns the new map beside its result.
mod Tests
pub mod Laws
use transport.Prelude.{ℕ, Bool, true, false, Option, none, some, List, [], ◌∷◌, ◌++◌, if◌then◌else◌}
use transport.Vnet.Addr.{Ip, Addr, ip_eq, is_unspecified}
use transport.Vnet.PortList.{taken, first_covering}
use transport.Vnet.PortMap.{PortMap, lookup, insert as put, erase}

-- errAddressAlreadyInUse and errNoSuchTCPListener
pub data Error : Type 0 where
  address_already_in_use no_such_tcp_listener : Error

-- A `*TCPListener`: `id` stands for the pointer, `loc_addr` for what `Addr()` returns.
pub record TcpListener : Type 0 where
  pub id : ℕ
  pub loc_addr : Addr

abbrev pub TcpListenerMap : Type 0
TcpListenerMap = PortMap TcpListener

abbrev pub new_tcp_listener_map : TcpListenerMap
new_tcp_listener_map = []

-- `l.Addr()`
abbrev pub listen_addr : TcpListener → Addr
listen_addr l = l.loc_addr

unfoldable pub insert : TcpListenerMap → TcpListener → Option Error × TcpListenerMap
insert m listener = elim (lookup addr.port m) [
  | none ↦ (none, put addr.port (listener ∷ []) m)
  | some listeners ↦
      if is_unspecified addr.ip
      then (some address_already_in_use, m)
      else if taken listen_addr addr.ip listeners
      then (some address_already_in_use, m)
      else (none, put addr.port (listeners ++ (listener ∷ [])) m)
]
  where
    addr : Addr
    addr = listener.loc_addr

-- `listeners[0]` where there is one.
unfoldable pub first_listener : List TcpListener → Option TcpListener
first_listener [] = none
first_listener (l ∷ ls) = some l

unfoldable pub find : TcpListenerMap → Addr → Option TcpListener
unfolding first_listener
find m addr = elim (lookup addr.port m) [
  | none ↦ none
  | some listeners ↦
      if is_unspecified addr.ip
      then first_listener listeners
      else first_covering listen_addr addr.ip listeners
]

-- The loop of `delete`: the listeners that stay, and whether one was removed.
unfoldable pub without : Ip → List TcpListener → List TcpListener × Bool
without ip [] = ([], false)
without ip (l ∷ ls) =
    let (kept, removed) = without ip ls in
    if ip_eq l.loc_addr.ip ip then (kept, true) else (l ∷ kept, removed)

-- The end of `delete`: an empty list drops the port.
unfoldable pub store_kept : ℕ → TcpListenerMap → List TcpListener → TcpListenerMap
store_kept port m [] = erase port m
store_kept port m (l ∷ ls) = put port (l ∷ ls) m

unfoldable pub delete : TcpListenerMap → Addr → Option Error × TcpListenerMap
unfolding store_kept
delete m addr = elim (lookup addr.port m) [
  | none ↦ (some no_such_tcp_listener, m)
  | some listeners ↦
      if is_unspecified addr.ip
      then (none, erase addr.port m)
      else if (without addr.ip listeners).1
      then (none, store_kept addr.port m (without addr.ip listeners).0)
      else (some no_such_tcp_listener, m)
]
