-- ===== src/Vnet/TcpConnMap/Tests.antt =====
-- The TCP connection map on a small host, and its theorems there.
use transport.Prelude.{ℕ, ◌≡◌, ◌≢◌, refl, inl, none, some, [], ◌∷◌, none-ne-some}
use transport.Vnet.Addr.{Ip, Addr, ip_eq, is_unspecified}
use transport.Vnet.PortMap.{lookup, insert as put, erase}
use transport.Vnet.TcpConnMap.{
  TcpConn, TcpConnMap, tcp_conn_already_used, new_tcp_conn_map, slice_at, tuple_taken, clashes,
  receives, first_receiver, insert, find_by_chunk, store_kept, without_conn, delete_conn, has_tuple,
  without_tuple, delete_by_addr, any_on_ip, port_in_use,
}
use transport.Vnet.TcpConnMap.Laws.{IsValid, TcpConnMap-IsValid}
use transport.Vnet.TcpConnMap.Find.{find_by_chunk_unique, find_by_chunk-insert}

abbrev here : Addr
here = record { ip = Ip.v4 0x0a000001; port = 80 }

abbrev alice : Addr
alice = record { ip = Ip.v4 0x0a000009; port = 4000 }

abbrev bob : Addr
bob = record { ip = Ip.v4 0x0a00000a; port = 4000 }

abbrev to_alice : TcpConn
to_alice = record { id = 1; loc_addr = here; rem_addr = alice }

abbrev to_bob : TcpConn
to_bob = record { id = 2; loc_addr = here; rem_addr = bob }

abbrev host : TcpConnMap
host = (80, to_alice ∷ []) ∷ []

program : Unit {0}
unfolding insert find_by_chunk delete_conn delete_by_addr port_in_use slice_at tuple_taken clashes
    receives first_receiver store_kept without_conn has_tuple without_tuple any_on_ip lookup put
    erase ip_eq is_unspecified
program = tt

used_twice :
    insert host (record { id = 3; loc_addr = here; rem_addr = alice })
    ≡ (some tcp_conn_already_used, host)
unfolding program
used_twice = refl

removed : delete_conn host to_alice ≡ (none, [])
unfolding program
removed = refl

empty-IsValid : IsValid new_tcp_conn_map
unfolding lookup
empty-IsValid p cs e = absurd (none-ne-some e)

host-IsValid : IsValid host
unfolding program
host-IsValid = (TcpConnMap-IsValid new_tcp_conn_map to_alice to_alice here bob empty-IsValid).0

find_by_chunk_unique_example : find_by_chunk host here alice ≡ some to_alice
unfolding program
find_by_chunk_unique_example =
    find_by_chunk_unique host to_alice here alice (to_alice ∷ []) host-IsValid refl (inl refl) refl

find_by_chunk-insert_example :
    ((insert host to_bob).0 ≡ none → find_by_chunk (insert host to_bob).1 here bob ≡ some to_bob)
    × ((p : ℕ) → 80 ≢ p → lookup p (insert host to_bob).1 ≡ lookup p host)
    × ((insert host to_bob).0 ≢ none → (insert host to_bob).1 ≡ host)
find_by_chunk-insert_example = find_by_chunk-insert host to_bob
