-- ===== src/Vnet/TcpListenerMap/Tests.antt =====
-- The TCP listener map on a small host, and its theorems there.
use transport.Prelude.{◌≡◌, refl, some, [], ◌∷◌}
use transport.Vnet.Addr.{Ip, ip_eq, is_unspecified}
use transport.Vnet.PortList.{IsValid, taken, first_covering, covers}
use transport.Vnet.PortList.Laws.{empty-IsValid}
use transport.Vnet.PortMap.{lookup, insert as put, erase}
use transport.Vnet.TcpListenerMap.{
  TcpListener, TcpListenerMap, no_such_tcp_listener, listen_addr, new_tcp_listener_map, insert,
  find, delete, without,
}
use transport.Vnet.TcpListenerMap.Laws.{TcpListenerMap-IsValid}

abbrev web : TcpListener
web = record { id = 1; loc_addr = record { ip = Ip.v4 0x0a000001; port = 80 } }

abbrev admin : TcpListener
admin = record { id = 2; loc_addr = record { ip = Ip.v4 0x0a000002; port = 80 } }

abbrev host : TcpListenerMap
host = (80, web ∷ []) ∷ []

program : Unit {0}
unfolding insert find delete without lookup put erase taken first_covering covers ip_eq
    is_unspecified
program = tt

missing : delete host admin.loc_addr ≡ (some no_such_tcp_listener, host)
unfolding program
missing = refl

host-IsValid : IsValid listen_addr host
unfolding program
host-IsValid =
    (TcpListenerMap-IsValid new_tcp_listener_map web web.loc_addr (empty-IsValid listen_addr)).0
