-- ===== src/Vnet/Sockets/Dial.antt =====
-- vnet/net.go and vnet/conn.go: what a host has after a socket was opened.
use transport.Prelude.{
  ℕ, ◌==◌, ◌<◌, ◌≤◌, ◌≡◌, ◌≢◌, refl, sym, ap, ◌∙◌, true, false, inl, inr, ◌⊎◌, arith, Bool-cases,
  Option-cases, Option, none, some, inl-ne-inr, inr-inj, String, str_eq, if◌then◌else◌,
}
use mathlib.Core.Path.{subst}
use mathlib.Core.Bool.{true≢false}
use transport.Vnet.Addr.{Ip, Addr}
use transport.Vnet.PortList.{IsValid}
use transport.Vnet.UdpConnMap.{UdpConn, local_addr, find, insert}
use transport.Vnet.UdpConnMap.Laws.{find-same, find-insert}
use transport.Vnet.NetState.{
  Error, address_already_in_use, port_space_exhausted, unexpected_network,
  cant_assign_requested_addr, Net, WantedAddr, udp_zero_ip,
}
use transport.Vnet.Net.{has_ip_addr}
use transport.Vnet.Net.Ports.{assign_port-allocate}
use transport.Vnet.Sockets.{
  is_udp_network, local_ip, local_port, new_udp_conn, register, register_at, dial_port,
  dial_any_port, dial_udp,
}
use transport.Vnet.Sockets.Valid.{HostIsValid}

-- The host has a new socket at an address, and finds it there.
pub record HasNew (v v' : Net) (p : ℕ) (loc : Addr) (rem : Option Addr) : Type 0 where
  pub pointer : p ≡ v.next
  pub socket : v'.sockets p ≡ new_udp_conn loc rem
  pub found : (find v'.udp_conns loc).0 ≡ some (record { id = p; loc_addr = loc })
  pub others : (q : ℕ) → q < v.next → v'.sockets q ≡ v.sockets q

register-HasNew :
    (v : Net) (loc : Addr) (rem : Option Addr) (p : ℕ)
    → (register v loc rem).1 ≡ inr p
    → HasNew v (register v loc rem).0 p loc rem
unfolding register
register-HasNew v loc rem p e =
    elim (Option-cases (insert v.udp_conns (record { id = v.next; loc_addr = loc })).0) [
      | inr (err, refused) ↦
          absurd (inl-ne-inr {a = address_already_in_use} {b = p} (rw (refused, register) at e))
      | inl fine ↦
          let conn : UdpConn = record { id = v.next; loc_addr = loc } in
          let at : v.next ≡ p = inr-inj (rw (fine, register) at e) in
          subst (λ r. HasNew v (register v loc rem).0 r loc rem) at
            (rw (fine, register)
              (record {
                pointer = refl;
                socket = rw here refl;
                found = (find-insert v.udp_conns conn fine).0;
                others = λ q below. rw (apart q below) refl;
              }))
    ]
  where
    here : (v.next == v.next) ≡ true
    here = ground arith

    apart : (q : ℕ) → q < v.next → (v.next == q) ≡ false
    apart q below = ground arith

dial_port-HasNew :
    (v : Net) (loc : Addr) (rem : Option Addr) (p : ℕ)
    → IsValid local_addr v.udp_conns
    → (dial_port v loc rem).1 ≡ inr p
    → HasNew v (dial_port v loc rem).0 p loc rem
unfolding dial_port
dial_port-HasNew v loc rem p h e = elim (Option-cases (find v.udp_conns loc).0) [
  | inr (c, used) ↦
      absurd (inl-ne-inr {a = address_already_in_use} {b = p} (rw (used, dial_port) at e))
  | inl free ↦
      rw (free, dial_port, find-same v.udp_conns loc h)
        (register-HasNew v loc rem p (rw (free, dial_port, find-same v.udp_conns loc h) at e))
]

dial_any_port-HasNew :
    (intn : ℕ → ℕ) (v : Net) (ip : Ip) (rem : Option Addr) (p : ℕ)
    → IsValid local_addr v.udp_conns
    → (dial_any_port intn v ip rem).1 ≡ inr p
    → (port : ℕ) × (5000 ≤ port)
      × (port ≤ 5999)
      × HasNew v (dial_any_port intn v ip rem).0 p (record { ip = ip; port = port }) rem
unfolding dial_any_port register_at
dial_any_port-HasNew intn v ip rem p h e =
    elim (assign_port-allocate intn v ip 5000 5999 h (omega arith)) [
      | inr (exhausted, none_free) ↦ absurd (
          inl-ne-inr {a = port_space_exhausted} {b = p}
            (sym (ap (λ r. (at_port r).1) exhausted) ∙ e))
      | inl (port, low, high, given, free) ↦
          let opened : dial_any_port intn v ip rem
              ≡ register v (record { ip = ip; port = port }) rem =
            ap at_port given in
          (
            port,
            low,
            high,
            subst (λ r. HasNew v r.0 p (record { ip = ip; port = port }) rem) (sym opened)
                (register-HasNew v _ rem p (ap (λ r. r.1) (sym opened) ∙ e)),
          )
    ]
  where
    at_port : (Error ⊎ ℕ) × Net → Net × (Error ⊎ ℕ)
    at_port r = register_at r.1 ip r.0 rem

-- The port that a socket is given, for the one that was asked for.
pub record PortFor (wanted port : ℕ) : Type 0 where
  pub kept : wanted ≢ 0 → port ≡ wanted
  pub chosen : wanted ≡ 0 → (5000 ≤ port) × (port ≤ 5999)

dial_udp-opened :
    (intn : ℕ → ℕ) (v : Net) (network : String) (loc : Option WantedAddr) (rem : Option Addr)
    (p : ℕ)
    → HostIsValid v
    → (dial_udp intn v network loc rem).1 ≡ inr p
    → (port : ℕ) × PortFor (local_port loc) port
      × (has_ip_addr v.interfaces (local_ip network loc) ≡ true)
      × HasNew v
          (dial_udp intn v network loc rem).0
          p
          (record { ip = local_ip network loc; port = port })
          rem
unfolding dial_udp
dial_udp-opened intn v network loc rem p h e = elim (Bool-cases (is_udp_network network)) [
  | inr unknown ↦ absurd (inl-ne-inr {a = unexpected_network} {b = p} (rw unknown at e))
  | inl udp ↦ elim (Bool-cases (has_ip_addr v.interfaces (local_ip network loc))) [
    | inr foreign ↦
        absurd (inl-ne-inr {a = cant_assign_requested_addr} {b = p} (rw (udp, foreign) at e))
    | inl own ↦ elim (Bool-cases (local_port loc == 0)) [
      | inl any ↦
          rw (udp, own, any)
            (let (port, low, high, new) =
                dial_any_port-HasNew intn v (local_ip network loc) rem p h.conns
                  (rw (udp, own, any) at e) in
              (
                port,
                record { kept = λ ne. absurd (ne (ground arith)); chosen = λ z. (low, high) },
                refl,
                new,
              ))
      | inr port ↦
          rw (udp, own, port)
            (
              local_port loc,
              record {
                kept = λ ne. refl;
                chosen = λ z. absurd (true≢false (sym (ap (λ n. n == 0) z) ∙ port));
              },
              refl,
              dial_port-HasNew v _ rem p h.conns (rw (udp, own, port) at e),
            )
    ]
  ]
]

-- The local address that a caller asks for: where it leaves out the IP, the wildcard of the network.
abbrev pub any_ip : String → Ip
any_ip network = if str_eq network "udp6" then Ip.v6 0 else Ip.v4 0

abbrev pub asked_ip : String → Option WantedAddr → Ip
asked_ip network none = any_ip network
asked_ip network (some a) = elim a.ip [ none ↦ any_ip network | some ip ↦ ip ]

abbrev pub asked_port : Option WantedAddr → ℕ
asked_port none = 0
asked_port (some a) = a.port

udp_zero_ip-any : (network : String) → udp_zero_ip (str_eq network "udp6") ≡ any_ip network
unfolding udp_zero_ip
udp_zero_ip-any network = elim (Bool-cases (str_eq network "udp6")) [
  | inl six ↦ rw six refl
  | inr other ↦ rw other refl
]

local_ip-asked :
    (network : String) (loc : Option WantedAddr) → local_ip network loc ≡ asked_ip network loc
unfolding local_ip
local_ip-asked network none = udp_zero_ip-any network
local_ip-asked network (some a) = elim (Option-cases a.ip) [
  | inl left_out ↦ rw left_out (udp_zero_ip-any network)
  | inr (ip, given) ↦ rw given refl
]

local_port-asked : (loc : Option WantedAddr) → local_port loc ≡ asked_port loc
unfolding local_port
local_port-asked none = refl
local_port-asked (some a) = refl

-- A call of _dialUDP on a valid host that gives a socket: the host has the local IP, the port is
-- the one that was asked for, or one from 5000 to 5999 where that was 0, the socket is new, with
-- empty queue and at this address, `find` gives it for the address, and the older sockets are as before.
pub dial_udp-HasNew :
    (intn : ℕ → ℕ) (v : Net) (network : String) (loc : Option WantedAddr) (rem : Option Addr)
    (p : ℕ)
    → HostIsValid v
    → (dial_udp intn v network loc rem).1 ≡ inr p
    → (port : ℕ) × PortFor (asked_port loc) port
      × (has_ip_addr v.interfaces (asked_ip network loc) ≡ true)
      × HasNew v
          (dial_udp intn v network loc rem).0
          p
          (record { ip = asked_ip network loc; port = port })
          rem
dial_udp-HasNew intn v network loc rem p h e =
    let (port, fits, own, new) = dial_udp-opened intn v network loc rem p h e in
    (
      port,
      subst (λ n. PortFor n port) (local_port-asked loc) fits,
      ap (has_ip_addr v.interfaces) (sym (local_ip-asked network loc)) ∙ own,
      subst
          (λ ip.
            HasNew v (dial_udp intn v network loc rem).0 p (record { ip = ip; port = port }) rem)
          (local_ip-asked network loc) new,
    )
