-- ===== src/Vnet/Net/Ports.antt =====
-- vnet/net.go: which port a host assigns to a socket.
use transport.Prelude.{
  ℕ, zero, suc, ◌+◌, ◌-◌, ◌%◌, ◌≤◌, ◌<◌, ◌≡◌, ◌≢◌, refl, sym, ap, ◌∙◌, false, ltb, none, List, [],
  ◌∷◌, ◌⊎◌, inl, inr, arith, Bool-cases, Option-cases, none-ne-some,
}
use native.Mathlib.Nat.{mod-add-mod, mod-eq_of_lt, add-mod_right, mod-lt}
use transport.Vnet.Addr.{Ip, Addr}
use transport.Vnet.UdpConnMap.{UdpConnMap, local_addr, find}
use transport.Vnet.UdpConnMap.Laws.{find-same}
use transport.Vnet.PortList.{IsValid}
use transport.Vnet.NetState.{Net, port_space_exhausted}
use transport.Vnet.Net.{bind_ips, check_free, allocate, allocate_local_addr, try_ports, assign_port}

-- No socket takes the packets to any of these addresses.
abbrev pub AllFree : UdpConnMap → List Ip → ℕ → Type 0
AllFree m [] port = Unit
AllFree m (ip ∷ ips) port =
    ((find m (record { ip = ip; port = port })).0 ≡ none) × AllFree m ips port

check_free-same :
    (m : UdpConnMap) (ips : List Ip) (port : ℕ)
    → IsValid local_addr m
    → (check_free m ips port).1 ≡ m
unfolding check_free
check_free-same m [] port h = refl
check_free-same m (ip ∷ ips) port h = elim (Option-cases (find m a).0) [
  | inl free ↦ rw (free, check_free, find-same m a h) (check_free-same m ips port h)
  | inr (c, found) ↦ rw (found, check_free) (find-same m a h)
]
  where
    a : Addr
    a = record { ip = ip; port = port }

-- The loop finds no error exactly where all the addresses are free.
check_free-AllFree :
    (m : UdpConnMap) (ips : List Ip) (port : ℕ)
    → IsValid local_addr m
    → (((check_free m ips port).0 ≡ none) → AllFree m ips port)
      × (AllFree m ips port → (check_free m ips port).0 ≡ none)
unfolding check_free
check_free-AllFree m [] port h = (λ e. tt, λ f. refl)
check_free-AllFree m (ip ∷ ips) port h = elim (Option-cases (find m a).0) [
  | inl free ↦
      rw (free, check_free, find-same m a h)
        (
          λ e. (refl, (check_free-AllFree m ips port h).0 e),
          λ f. (check_free-AllFree m ips port h).1 f.1,
        )
  | inr (c, found) ↦
      rw (found, check_free)
        (λ e. absurd (none-ne-some (sym e)), λ f. absurd (none-ne-some (sym f.0)))
]
  where
    a : Addr
    a = record { ip = ip; port = port }

allocate-same :
    (m : UdpConnMap) (ips : List Ip) (port : ℕ) → IsValid local_addr m → (allocate m ips port).1 ≡ m
unfolding allocate
allocate-same m [] port h = refl
allocate-same m (ip ∷ ips) port h = check_free-same m (ip ∷ ips) port h

pub allocate_local_addr-same :
    (v : Net) (ip : Ip) (port : ℕ)
    → IsValid local_addr v.udp_conns
    → (allocate_local_addr v ip port).1 ≡ v
unfolding allocate_local_addr
allocate_local_addr-same v ip port h =
    ap (λ m. record v { udp_conns = m })
      (allocate-same v.udp_conns (bind_ips v.interfaces ip) port h)

-- The host has the address, or one of the same family where the address is 0.0.0.0 or ::, and no
-- socket takes the packets to it, or to any of those, at the port.
abbrev pub IsFree : Net → Ip → ℕ → Type 0
IsFree v ip port =
    (bind_ips v.interfaces ip ≢ []) × AllFree v.udp_conns (bind_ips v.interfaces ip) port

-- A port is given only where the host has the address, and no socket takes its packets.
pub allocate_local_addr-none :
    (v : Net) (ip : Ip) (port : ℕ)
    → IsValid local_addr v.udp_conns
    → (allocate_local_addr v ip port).0 ≡ none
    → IsFree v ip port
unfolding allocate_local_addr
allocate_local_addr-none v ip port h = go (bind_ips v.interfaces ip)
  where
    go :
        (ips : List Ip)
        → (allocate v.udp_conns ips port).0 ≡ none
        → (ips ≢ []) × AllFree v.udp_conns ips port
    go [] e = unfold allocate in absurd (none-ne-some (sym e))
    go (ip' ∷ ips) e =
        (λ z. cc, (check_free-AllFree v.udp_conns (ip' ∷ ips) port h).0 (unfold allocate in e))

-- And wherever that is so.
allocate_local_addr-IsFree :
    (v : Net) (ip : Ip) (port : ℕ)
    → IsValid local_addr v.udp_conns
    → IsFree v ip port
    → (allocate_local_addr v ip port).0 ≡ none
unfolding allocate_local_addr
allocate_local_addr-IsFree v ip port h (has, free) = go (bind_ips v.interfaces ip) has free
  where
    go :
        (ips : List Ip)
        → ips ≢ []
        → AllFree v.udp_conns ips port
        → (allocate v.udp_conns ips port).0 ≡ none
    go [] has' free' = absurd (has' refl)
    go (ip' ∷ ips) has' free' =
        unfold allocate in (check_free-AllFree v.udp_conns (ip' ∷ ips) port h).1 free'

-- Every number below `space` is met on the way round from any offset.
turn_of : (space offset r : ℕ) → r < space → (i : ℕ) × (i < space) × ((offset + i) % space ≡ r)
turn_of space offset r h = elim (Bool-cases (ltb r (offset % space))) [
  | inl before ↦ (
    r + space - offset % space,
    ground (arith, small),
    sym (mod-add-mod offset space (r + space - offset % space))
        ∙ ap (λ n. n % space) (ground (arith, small))
        ∙ add-mod_right r space
        ∙ mod-eq_of_lt h,
  )
  | inr after ↦ (
    r - offset % space,
    ground (arith, small),
    sym (mod-add-mod offset space (r - offset % space))
        ∙ ap (λ n. n % space) {x = offset % space + (r - offset % space)} (ground arith)
        ∙ mod-eq_of_lt h,
  )
]
  where
    small : offset % space < space
    small = mod-lt offset (omega arith)

-- The port of one turn.
abbrev port_at : ℕ → ℕ → ℕ → ℕ → ℕ
port_at start space offset j = (offset + j) % space + start

-- What the loop comes to in `left` turns from turn `i`.
try_ports_lem :
    (v : Net) (ip : Ip) (start space offset left i : ℕ)
    → IsValid local_addr v.udp_conns
    → ((j : ℕ) × (j < i + left)
        × (try_ports v ip start space offset left i ≡ (inr (port_at start space offset j), v))
        × ((allocate_local_addr v ip (port_at start space offset j)).0 ≡ none))
      ⊎ ((try_ports v ip start space offset left i ≡ (inl port_space_exhausted, v))
          × ((j : ℕ)
              → i ≤ j
              → j < i + left
              → (allocate_local_addr v ip (port_at start space offset j)).0 ≢ none))
unfolding try_ports
try_ports_lem v ip start space offset zero i h = inr (refl, λ j low high. absurd (omega arith))
try_ports_lem v ip start space offset (suc left) i h =
    elim (Option-cases (allocate_local_addr v ip (port_at start space offset i)).0) [
      | inl free ↦ inl (
        i,
        omega arith,
        rw (free, try_ports)
            (ap (λ w. (inr (port_at start space offset i), w)) (allocate_local_addr-same v ip _ h)),
        free,
      )
      | inr (e, busy) ↦
          rw (busy, try_ports, allocate_local_addr-same v ip (port_at start space offset i) h)
            (elim (try_ports_lem v ip start space offset left (i + 1) h) [
              | inl (j, below, found, free) ↦ inl (j, omega arith, found, free)
              | inr (exhausted, none_free) ↦ inr (
                exhausted,
                λ j low high. elim (Bool-cases (ltb i j)) [
                  | inl later ↦ none_free j (ground arith) (omega arith)
                  | inr now ↦ λ free. none-ne-some (
                      sym free
                      ∙ ap (λ k. (allocate_local_addr v ip (port_at start space offset k)).0)
                          {x = j} {y = i} (ground arith)
                      ∙ busy)
                ],
              )
            ])
    ]

-- The same as `assign_port_lem`, by what `allocate_local_addr` says.
pub assign_port-allocate :
    (intn : ℕ → ℕ) (v : Net) (ip : Ip) (start end : ℕ)
    → IsValid local_addr v.udp_conns
    → start ≤ end
    → ((port : ℕ) × (start ≤ port)
        × (port ≤ end)
        × (assign_port intn v ip start end ≡ (inr port, v))
        × ((allocate_local_addr v ip port).0 ≡ none))
      ⊎ ((assign_port intn v ip start end ≡ (inl port_space_exhausted, v))
          × ((port : ℕ) → start ≤ port → port ≤ end → (allocate_local_addr v ip port).0 ≢ none))
unfolding assign_port
assign_port-allocate intn v ip start end h range =
    rw ordered (elim (try_ports_lem v ip start space (intn space) space 0 h) [
      | inl (j, below, found, free) ↦ inl (
        port_at start space (intn space) j,
        omega arith,
        ground (arith, mod-lt (intn space + j) {m = space} (omega arith)),
        found,
        free,
      )
      | inr (exhausted, none_free) ↦
          inr (exhausted, λ port low high. in_turn none_free port low high)
    ])
  where
    ordered : ltb end start ≡ false
    ordered = ground arith

    space : ℕ
    space = end + 1 - start

    in_turn :
        ((j : ℕ)
          → 0 ≤ j
          → j < 0 + space
          → (allocate_local_addr v ip (port_at start space (intn space) j)).0 ≢ none)
        → (port : ℕ) → start ≤ port
        → port ≤ end
        → (allocate_local_addr v ip port).0 ≢ none
    in_turn none_free port low high free =
        let (j, below, met) = turn_of space (intn space) (port - start) (omega arith) in
        none_free j (omega arith) (ground (arith, below)) (
          ap (λ n. (allocate_local_addr v ip n).0) {x = port_at start space (intn space) j}
            {y = port} (ground (arith, met))
          ∙ free)

-- A host with a valid connection map, asked for a port from `start` to `end`, where `start` is not
-- above `end`, either gives one of them that is free for the address, or reports that the ports are
-- exhausted, and then none of them is free for it, whatever number math/rand chose to begin with. A
-- port is free where the host has the address, or one of the same family where the address is 0.0.0.0
-- or ::, and no socket takes the packets to it, or to any of those. The host stays as it is.
pub assign_port_lem :
    (intn : ℕ → ℕ) (v : Net) (ip : Ip) (start end : ℕ)
    → IsValid local_addr v.udp_conns
    → start ≤ end
    → ((port : ℕ) × (start ≤ port)
        × (port ≤ end)
        × (assign_port intn v ip start end ≡ (inr port, v))
        × IsFree v ip port)
      ⊎ ((assign_port intn v ip start end ≡ (inl port_space_exhausted, v))
          × ((port : ℕ) → start ≤ port → port ≤ end → ¬ IsFree v ip port))
assign_port_lem intn v ip start end h range =
    elim (assign_port-allocate intn v ip start end h range) [
      | inl (port, low, high, found, free) ↦
          inl (port, low, high, found, allocate_local_addr-none v ip port h free)
      | inr (exhausted, none_free) ↦ inr (
        exhausted,
        λ port low high free. none_free port low high (allocate_local_addr-IsFree v ip port h free),
      )
    ]

-- So that the host stays as it is.
pub assign_port-same :
    (intn : ℕ → ℕ) (v : Net) (ip : Ip) (start end : ℕ)
    → IsValid local_addr v.udp_conns
    → start ≤ end
    → (assign_port intn v ip start end).1 ≡ v
assign_port-same intn v ip start end h range = elim (assign_port_lem intn v ip start end h range) [
  | inl (port, low, high, found, free) ↦ ap (λ r. r.1) found
  | inr (exhausted, none_free) ↦ ap (λ r. r.1) exhausted
]
