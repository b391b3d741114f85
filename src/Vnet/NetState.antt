-- ===== src/Vnet/NetState.antt =====
-- vnet/net.go and vnet/conn.go: the state of a virtual host and of its sockets.
use transport.Prelude.{ℕ, ◌/◌, ◌^◌, Bool, true, false, ◌==◌, if◌then◌else◌, Option, none, List, []}
use transport.Interface.{Interface}
use transport.Vnet.Addr.{Ip, Addr}
use transport.Vnet.Chunk.{Chunk}
use transport.Vnet.NatState.{is_v6, bool_eq}
use transport.Vnet.UdpConnMap.{UdpConnMap}

-- The errors of both files, and those of the library functions that resolve an address.
pub data Error : Type 0 where
  no_interface interface_not_found unexpected_network cant_assign_requested_addr : Error
  unknown_network no_router_linked invalid_port_number bind_failed_for : Error
  end_port_less_than_start port_space_exhausted address_already_in_use : Error
  host_not_found static_ip_is_beyond_subnet no_rem_addr loc_addr_wrong already_closed : Error
  use_of_closed_network_connection timeout short_buffer : Error
  invalid_host_port : Error

-- `UDPConn`. `rem_addr` is nil for a socket that listens, `read_ch` the buffer of the channel,
-- `alarm` the time that `readTimer` was set to, and `fired` says that its tick waits to be taken.
pub record Socket : Type 0 where
  pub loc_addr : Addr
  pub rem_addr : Option Addr
  pub read_ch : List Chunk
  pub closed : Bool
  pub alarm : Option ℕ
  pub fired : Bool

-- `Net`. The sockets are shared objects: `sockets` is what their pointers below `next` refer to.
-- `router` is the pointer to the router, or nil.
pub record Net : Type 0 where
  pub interfaces : List Interface
  pub static_ips : List Ip
  pub router : Option ℕ
  pub udp_conns : UdpConnMap
  pub sockets : ℕ → Socket
  pub next : ℕ

-- `&net.UDPAddr{}` before the host has filled it in: the IP may be nil.
pub record WantedAddr : Type 0 where
  pub ip : Option Ip
  pub port : ℕ

-- `IP.IsLoopback()`: 127.0.0.0/8 or ::1
unfoldable pub is_loopback : Ip → Bool
is_loopback (Ip.v4 a) = a / 2 ^ 24 == 127
is_loopback (Ip.v6 a) = a == 1

-- Both are IPv4, or both are not: what the tests of `To4()` compare.
abbrev pub same_family : Ip → Ip → Bool
same_family a b = bool_eq (is_v6 a) (is_v6 b)

abbrev pub loopback_v4 : Ip
loopback_v4 = Ip.v4 0x7f000001

abbrev pub loopback_v6 : Ip
loopback_v6 = Ip.v6 1

-- `udpZeroIP`
unfoldable pub udp_zero_ip : Bool → Ip
udp_zero_ip true = Ip.v6 0
udp_zero_ip false = Ip.v4 0

abbrev pub write_socket : (ℕ → Socket) → ℕ → Socket → ℕ → Socket
write_socket sockets p s q = if p == q then s else sockets q

-- A pointer that has not been given out.
abbrev pub unallocated : Socket
unallocated = record {
  loc_addr = record { ip = Ip.v4 0; port = 0 };
  rem_addr = none;
  read_ch = [];
  closed = true;
  alarm = none;
  fired = false;
}
