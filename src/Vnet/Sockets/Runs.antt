-- ===== src/Vnet/Sockets/Runs.antt =====
-- vnet/net.go and vnet/conn.go: a host under any sequence of calls and of ticks of its timers.
use transport.Prelude.{
  ℕ, ◌≡◌, refl, Bool, Option, none, some, List, [], ◌∷◌, ◌⊎◌, none-ne-some, inl, inr, arith, length,
  String,
}
use transport.Vnet.Addr.{Ip, Addr}
use transport.Vnet.Chunk.{Chunk, network-cases}
use transport.Vnet.PortList.Laws.{empty-IsValid}
use transport.Vnet.UdpConnMap.{local_addr}
use transport.Vnet.PortMap.{lookup}
use transport.Vnet.NetState.{Error, Socket, Net, WantedAddr, write_socket}
use transport.Interface.{Interface, NetAddr, add_address, remove_address, change_named}
use transport.Vnet.Net.{
  set_router, new_net, SourceIp, source, no_source, panicked, determine_source_ip,
}
use transport.Vnet.SocketRead.{read_from, read_loop, set_read_deadline, tick}
use transport.Vnet.Sockets.{dial_udp, on_inbound_chunk, write, written, write_from, write_to, close}
use transport.Vnet.Sockets.Valid.{
  HostIsValid, update-HostIsValid, dial_udp-HostIsValid, deliver-HostIsValid, write-HostIsValid,
  close-HostIsValid,
}

-- A call of a method on the host or on the socket at a pointer, or a tick at a time. `joins` is
-- setRouter, `gains` and `loses` are what AddAddress and RemoveAddress do to the interfaces, where
-- addNIC gives addresses, too.
pub data Event : Type 0 where
  dial : (ℕ → ℕ) → String → Option WantedAddr → Option Addr → Event
  inbound : Chunk → Event
  send : ℕ → List ℕ → Addr → Event
  shut : ℕ → Event
  receive : ℕ → (ℕ → Bool) → ℕ → Event
  set_deadline : ℕ → Option ℕ → Event
  time_passes : ℕ → ℕ → Event
  joins : ℕ → Event
  gains : String → NetAddr → Event
  loses : String → Ip → Event

-- The host after `WriteTo`; a panic leaves it.
unfoldable pub after_send : Net → Option (Net × Option Chunk × (Error ⊎ ℕ)) → Net
after_send v none = v
after_send v (some r) = r.0

-- The host with other addresses on its interfaces.
abbrev with_interfaces : Net → List Interface → Net
with_interfaces v ifcs = record v { interfaces = ifcs }

unfoldable pub step : Net → Event → Net
unfolding after_send
step v (dial intn network loc rem) = (dial_udp intn v network loc rem).0
step v (inbound c) = on_inbound_chunk v c
step v (send p payload dst) = after_send v (write_to v p payload dst)
step v (shut p) = (close v p).0
step v (receive p takes_tick size) = record v {
  sockets = write_socket v.sockets p (read_from takes_tick size (v.sockets p)).0;
}
step v (set_deadline p t) = record v {
  sockets = write_socket v.sockets p (set_read_deadline (v.sockets p) t);
}
step v (time_passes p now) = record v {
  sockets = write_socket v.sockets p (tick (v.sockets p) now);
}
step v (joins p) = set_router v p
step v (gains name a) = with_interfaces v (change_named (λ i. add_address i a) v.interfaces name)
step v (loses name ip) =
    with_interfaces v (change_named (λ i. (remove_address i ip).0) v.interfaces name)

unfoldable pub run : Net → List Event → Net
run v [] = v
run v (e ∷ es) = run (step v e) es

-- Reading keeps the address, and does not close.
read_loop-same :
    (takes_tick : ℕ → Bool) (size : ℕ) (s : Socket) (cs : List Chunk)
    → ((read_loop takes_tick size s cs).0.loc_addr ≡ s.loc_addr)
      × ((read_loop takes_tick size s cs).0.closed ≡ s.closed)
unfolding read_loop
read_loop-same takes_tick size s [] = ground arith
read_loop-same takes_tick size s (c ∷ cs) = ground (arith, read_loop-same takes_tick size s cs)

read_from-same :
    (takes_tick : ℕ → Bool) (size : ℕ) (s : Socket)
    → ((read_from takes_tick size s).0.loc_addr ≡ s.loc_addr)
      × ((read_from takes_tick size s).0.closed ≡ s.closed)
unfolding read_from
read_from-same takes_tick size s = read_loop-same takes_tick size s s.read_ch

tick-same :
    (s : Socket) (now : ℕ) → ((tick s now).loc_addr ≡ s.loc_addr) × ((tick s now).closed ≡ s.closed)
unfolding tick
tick-same s now = ground arith

written-HostIsValid :
    (n : ℕ) (r : Net × Option Chunk × Option Error) → HostIsValid r.0 → HostIsValid (written n r).0
unfolding written
written-HostIsValid n (v, pushed, none) h = h
written-HostIsValid n (v, pushed, some e) h = h

write_from-HostIsValid :
    (v : Net) (loc : Addr) (payload : List ℕ) (dst : Addr) (s : SourceIp)
    → HostIsValid v
    → HostIsValid (after_send v (write_from v loc payload dst s))
unfolding write_from after_send
write_from-HostIsValid v loc payload dst panicked h = h
write_from-HostIsValid v loc payload dst no_source h = h
write_from-HostIsValid v loc payload dst (source ip) h =
    written-HostIsValid (length payload) (write v _) (write-HostIsValid v _ h)

send-HostIsValid :
    (v : Net) (p : ℕ) (payload : List ℕ) (dst : Addr)
    → HostIsValid v
    → HostIsValid (after_send v (write_to v p payload dst))
unfolding write_to
send-HostIsValid v p payload dst h =
    write_from-HostIsValid v (v.sockets p).loc_addr payload dst
      (determine_source_ip v.interfaces (some (v.sockets p).loc_addr.ip) dst.ip) h

on_inbound_chunk-HostIsValid :
    (v : Net) (c : Chunk) → HostIsValid v → HostIsValid (on_inbound_chunk v c)
unfolding on_inbound_chunk
on_inbound_chunk-HostIsValid v c h = elim (network-cases c.network) [
  | inl udp ↦ rw (udp, on_inbound_chunk) (deliver-HostIsValid v c h)
  | inr tcp ↦ rw (tcp, on_inbound_chunk) h
]

step-HostIsValid : (v : Net) (e : Event) → HostIsValid v → HostIsValid (step v e)
unfolding step
step-HostIsValid v (dial intn network loc rem) h = dial_udp-HostIsValid intn v network loc rem h
step-HostIsValid v (inbound c) h = on_inbound_chunk-HostIsValid v c h
step-HostIsValid v (send p payload dst) h = send-HostIsValid v p payload dst h
step-HostIsValid v (shut p) h = close-HostIsValid v p h
step-HostIsValid v (receive p takes_tick size) h =
    update-HostIsValid v p _ (read_from-same takes_tick size (v.sockets p)).0
      (read_from-same takes_tick size (v.sockets p)).1 h
step-HostIsValid v (set_deadline p t) h =
    update-HostIsValid v p _ (unfold set_read_deadline in refl) (unfold set_read_deadline in refl) h
step-HostIsValid v (time_passes p now) h =
    update-HostIsValid v p _ (tick-same (v.sockets p) now).0 (tick-same (v.sockets p) now).1 h
step-HostIsValid v (joins p) h = record { conns = h.conns; live = h.live }
step-HostIsValid v (gains name a) h = record { conns = h.conns; live = h.live }
step-HostIsValid v (loses name ip) h = record { conns = h.conns; live = h.live }

pub run-HostIsValid : (v : Net) (es : List Event) → HostIsValid v → HostIsValid (run v es)
unfolding run
run-HostIsValid v [] h = h
run-HostIsValid v (e ∷ es) h = run-HostIsValid (step v e) es (step-HostIsValid v e h)

-- After any sequence of calls of _dialUDP, onInboundChunk, setRouter, AddAddress and RemoveAddress on
-- a new host, and of WriteTo, Close, ReadFrom and SetReadDeadline on its sockets, and of ticks of their
-- timers, the host's connection map is valid, and each connection in it is a socket of the host that is
-- not closed, at the address under which the map has it.
pub new_net-HostIsValid :
    (parse_ip : String → Option Ip) (static_ips : List String) (es : List Event)
    → HostIsValid (run (new_net parse_ip static_ips) es)
new_net-HostIsValid parse_ip static_ips es = run-HostIsValid (new_net parse_ip static_ips) es (
    unfold new_net in
    record {
      conns = empty-IsValid local_addr;
      live = λ port cs e. absurd (none-ne-some {a = cs} (unfold lookup in e));
    })
