-- ===== src/Vnet/Sockets/Tests.antt =====
-- A host with sockets on its loopback addresses, and the theorems of Net and Sockets there.
use transport.Prelude.{
  ℕ, ◌≤◌, ◌≡◌, refl, true, Option, none, some, [], ◌∷◌, ◌⊎◌, inl, inr, String, arith,
}
use transport.Interface.{new_interface, add_address}
use transport.Vnet.Addr.{Ip, Addr, ip_eq, is_unspecified}
use transport.Vnet.Chunk.{Chunk, new_chunk_udp}
use transport.Vnet.PortList.{covers, first_covering, taken}
use transport.Vnet.PortMap.{lookup, insert as put, erase}
use transport.Vnet.UdpConnMap.{find, insert, delete, without}
use transport.Vnet.NatState.{bool_eq}
use transport.Vnet.NetState.{
  address_already_in_use, Net, port_space_exhausted, udp_zero_ip, loopback_v4, is_loopback,
}
use transport.Vnet.Net.{new_net, assign_port, allocate_local_addr, check_free, has_ip_addr, matches}
use transport.Vnet.Net.Ports.{IsFree, assign_port_lem}
use transport.Vnet.SocketRead.{read_from, read_loop, received, packet}
use transport.Vnet.Sockets.{
  is_udp_network, local_ip, local_port, new_udp_conn, register, register_at, dial_port,
  dial_any_port, dial_udp, enqueue, deliver, on_inbound_chunk, write, written, write_from, write_to,
  close,
}
use transport.Vnet.Sockets.Runs.{Event, dial, run, step, new_net-HostIsValid}
use transport.Vnet.Sockets.Valid.{HostIsValid}
use transport.Vnet.Sockets.Delivery.{Outcome, on_inbound_chunk-Outcome}
use transport.Vnet.Sockets.Dial.{asked_ip, asked_port, HasNew, PortFor, dial_udp-HasNew}
use transport.Vnet.Sockets.Close.{dial_udp-close}
use transport.Vnet.Sockets.Loopback.{read_from-write_to}

abbrev no_ip : String → Option Ip
no_ip s = none

abbrev middle : ℕ → ℕ
middle n = 500

abbrev echo_addr : Addr
echo_addr = record { ip = loopback_v4; port = 7 }

abbrev echo : Event
echo = dial middle "udp" (some (record { ip = some loopback_v4; port = 7 })) none

abbrev anywhere : Event
anywhere = dial middle "udp4" none none

abbrev host : Net
host = run (new_net no_ip []) (echo ∷ anywhere ∷ [])

program : Unit {0}
unfolding run step new_net dial_udp dial_port dial_any_port register_at register is_udp_network
    local_ip local_port new_udp_conn udp_zero_ip has_ip_addr find insert delete without lookup put
    erase taken first_covering covers ip_eq is_unspecified assign_port allocate_local_addr
    check_free new_interface add_address close is_loopback write_to write_from written write deliver
    enqueue on_inbound_chunk read_from read_loop received matches bool_eq
program = tt

second_port : (host.sockets 1).loc_addr ≡ record { ip = Ip.v4 0; port = 5500 }
unfolding program
second_port = refl

host-HostIsValid : HostIsValid host
host-HostIsValid = new_net-HostIsValid no_ip [] (echo ∷ anywhere ∷ [])

new_net-HostIsValid_example : HostIsValid (run (new_net no_ip []) (echo ∷ anywhere ∷ []))
new_net-HostIsValid_example = new_net-HostIsValid no_ip [] (echo ∷ anywhere ∷ [])

-- The port 7 is in use, so that 8 is given.
next_port : (assign_port middle host loopback_v4 7 8).0 ≡ inr 8
unfolding program
next_port = refl

assign_port_lem_example :
    ((port : ℕ) × (7 ≤ port)
      × (port ≤ 8)
      × (assign_port middle host loopback_v4 7 8 ≡ (inr port, host))
      × IsFree host loopback_v4 port)
    ⊎ ((assign_port middle host loopback_v4 7 8 ≡ (inl port_space_exhausted, host))
        × ((port : ℕ) → 7 ≤ port → port ≤ 8 → ¬ IsFree host loopback_v4 port))
assign_port_lem_example =
    assign_port_lem middle host loopback_v4 7 8 host-HostIsValid.conns (omega arith)

abbrev ping : Chunk
ping = new_chunk_udp (record { ip = loopback_v4; port = 5500 }) echo_addr (1 ∷ 2 ∷ [])

ping_arrives : ((on_inbound_chunk host ping).sockets 0).read_ch ≡ ping ∷ []
unfolding program
ping_arrives = refl

on_inbound_chunk-Outcome_example :
    Outcome (host.sockets 0) ((on_inbound_chunk host ping).sockets 0) ping
on_inbound_chunk-Outcome_example = on_inbound_chunk-Outcome host ping 0 host-HostIsValid

dial_udp-HasNew_example :
    (port : ℕ) × PortFor (asked_port none) port
    × (has_ip_addr host.interfaces (asked_ip "udp6" none) ≡ true)
    × HasNew host
        (dial_udp middle host "udp6" none none).0
        2
        (record { ip = asked_ip "udp6" none; port = port })
        none
unfolding program
dial_udp-HasNew_example = dial_udp-HasNew middle host "udp6" none none 2 host-HostIsValid refl

dial_udp-close_example :
    ((close host 0).1 ≡ none)
    × ((find (close host 0).0.udp_conns echo_addr).0 ≡ none)
    × ((dial_udp middle
          (close host 0).0
          "udp"
          (some (record { ip = some loopback_v4; port = 7 }))
          none).1
        ≡ inr 2)
unfolding program
dial_udp-close_example =
    dial_udp-close middle host "udp" 0 none host-HostIsValid refl refl refl refl (omega arith)

read_from-write_to_example :
    (src : Ip) × (v' : Net) × (write_to host 1 (1 ∷ 2 ∷ []) echo_addr ≡ some (v', none, inr 2))
    × ((read_from (λ n. true) 1500 (v'.sockets 0)).1
        ≡ packet (1 ∷ 2 ∷ []) (record { ip = src; port = 5500 }) none)
unfolding program
read_from-write_to_example =
    read_from-write_to (λ n. true) 1500 host 1 (1 ∷ 2 ∷ []) echo_addr
      (record { id = 0; loc_addr = echo_addr }) host-HostIsValid refl refl refl refl refl
      (omega arith)

-- A port that was chosen for 0.0.0.0 can be refused: only the IPv4 addresses are looked at, but
-- the port has a socket on ::1, beside which no wildcard fits.
chosen_port_refused :
    (dial_udp middle
      (run
        (new_net no_ip [])
        (dial middle "udp6" (some (record { ip = some (Ip.v6 1); port = 5500 })) none ∷ []))
      "udp4"
      none
      none).1
    ≡ inl address_already_in_use
unfolding program
chosen_port_refused = refl
