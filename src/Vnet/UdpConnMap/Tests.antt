-- ===== src/Vnet/UdpConnMap/Tests.antt =====
-- The UDP connection map on a small host, and its theorems there.
use transport.Prelude.{◌≡◌, ◌↔◌, refl, none, some, [], ◌∷◌}
use transport.Vnet.Addr.{Ip, Addr, ip_eq, is_unspecified}
use transport.Vnet.PortList.{IsValid, taken, first_covering, covers}
use transport.Vnet.PortList.Laws.{empty-IsValid}
use transport.Vnet.PortMap.{lookup, insert as put, erase, total}
use transport.Vnet.UdpConnMap.{
  UdpConn, UdpConnMap, address_already_in_use, local_addr, new_udp_conn_map, insert, find, delete,
  without, size,
}
use transport.Vnet.UdpConnMap.Laws.{UdpConnMap-IsValid, insert-find}

abbrev first : UdpConn
first = record { id = 1; loc_addr = record { ip = Ip.v4 0x0a000001; port = 80 } }

abbrev second : UdpConn
second = record { id = 2; loc_addr = record { ip = Ip.v4 0x0a000002; port = 80 } }

abbrev wildcard : UdpConn
wildcard = record { id = 3; loc_addr = record { ip = Ip.v4 0; port = 90 } }

abbrev other_addr : Addr
other_addr = record { ip = Ip.v4 0x0a000009; port = 90 }

abbrev host : UdpConnMap
host = (80, first ∷ []) ∷ (90, wildcard ∷ []) ∷ []

program : Unit {0}
unfolding insert find delete without size lookup put erase total taken first_covering covers ip_eq
    is_unspecified
program = tt

built : (insert (insert new_udp_conn_map first).1 wildcard).1 ≡ host
unfolding program
built = refl

second_fits : insert host second ≡ (none, (80, first ∷ second ∷ []) ∷ (90, wildcard ∷ []) ∷ [])
unfolding program
second_fits = refl

wildcard_refused :
    insert host (record { id = 4; loc_addr = record { ip = Ip.v4 0; port = 80 } })
    ≡ (some address_already_in_use, host)
unfolding program
wildcard_refused = refl

host-IsValid : IsValid local_addr host
unfolding program
host-IsValid =
    (UdpConnMap-IsValid (insert new_udp_conn_map first).1 wildcard other_addr
      (UdpConnMap-IsValid new_udp_conn_map first other_addr (empty-IsValid local_addr)).0).0

insert-find_example : ((insert host second).0 ≡ none) ↔ ((find host second.loc_addr).0 ≡ none)
insert-find_example = insert-find host second host-IsValid
