-- ===== src/Vnet/RouterLife.antt =====
-- vnet/router.go: making, starting and stopping a router.
mod Tests
use transport.Prelude.{
  ℕ, zero, suc, ◌==◌, true, false, ltb, if◌then◌else◌, Option, none, some, List, [], ◌∷◌, ◌++◌,
  String, ◌⊎◌, inl, inr, length,
}
use transport.Prelude.Int.{ℤ, pos, pos_part}
use transport.Interface.{ip_addr, new_interface, add_address}
use transport.Vnet.Addr.{Ip, ip_eq}
use transport.Vnet.ChunkQueue.{new_chunk_queue}
use transport.Vnet.NatState.{NatType}
use transport.Vnet.NetState.{loopback_v4}
use transport.Vnet.RouterState.{
  Error, router_already_started, router_already_stopped, invalid_local_ip_in_static_ips,
  local_ip_beyond_static_ips_subset, local_ip_no_statics_ips_associated, Subnet, contains, Router,
  Network, write_router,
}

-- The map `staticLocalIPs`, as an association list.
unfoldable pub put_local : Ip → Ip → List (Ip × Ip) → List (Ip × Ip)
put_local ip loc [] = (ip, loc) ∷ []
put_local ip loc ((k, l) ∷ rest) =
    if ip_eq k ip then (k, loc) ∷ rest else (k, l) ∷ put_local ip loc rest

unfoldable pub local_of : List (Ip × Ip) → Ip → Option Ip
local_of [] ip = none
local_of ((k, l) ∷ rest) ip = if ip_eq k ip then some l else local_of rest ip

-- What the loop over `config.StaticIPs` has gathered.
pub record Statics : Type 0 where
  pub ips : List Ip
  pub locals : List (Ip × Ip)

module _ (parse_ip : String → Option Ip) (net : Subnet) where
  -- The part behind the slash, where there is one.
  unfoldable pub checked_local : Ip → Statics → Option Ip → Error ⊎ Statics
  checked_local ip s none = inl invalid_local_ip_in_static_ips
  checked_local ip s (some loc) =
      if contains net loc
      then inr (record { ips = s.ips ++ (ip ∷ []); locals = put_local ip loc s.locals })
      else inl local_ip_beyond_static_ips_subset

  unfoldable pub add_static : Statics → Option Ip → List String → Error ⊎ Statics
  unfolding checked_local
  add_static s none rest = inr s
  add_static s (some ip) [] = inr (record s { ips = s.ips ++ (ip ∷ []) })
  add_static s (some ip) (loc ∷ rest) = checked_local ip s (parse_ip loc)

  -- One text, split at its slashes; `strings.Split` gives one part at least.
  unfoldable pub read_static : Statics → List String → Error ⊎ Statics
  unfolding add_static
  read_static s [] = inr s
  read_static s (first ∷ rest) = add_static s (parse_ip first) rest

  unfoldable pub read_statics : (String → List String) → Statics → List String → Error ⊎ Statics
  read_statics split s [] = inr s
  read_statics split s (text ∷ texts) = elim (read_static s (split text)) [
    | inl e ↦ inl e
    | inr s' ↦ read_statics split s' texts
  ]

-- `RouterConfig`, with the CIDR already parsed; the name and the jitter are left out.
pub record RouterConfig : Type 0 where
  pub ipv4_net : Subnet
  pub queue_size : ℤ
  pub static_ips : List String
  pub nat_type : Option NatType
  pub min_delay : ℕ

abbrev pub made : RouterConfig → Statics → Router
made config s = record {
  interfaces =
      add_address (new_interface 1 "lo0String") (ip_addr loopback_v4) ∷ new_interface 2 "eth0" ∷ [];
  ipv4_net = config.ipv4_net;
  static_ips = s.ips;
  static_local_ips = local_of s.locals;
  last_id = 0;
  queue = new_chunk_queue (pos (pos_part config.queue_size)) (pos 0);
  parent = none;
  children = [];
  nat_type = config.nat_type;
  nat = none;
  nics = λ ip. none;
  started = false;
  chunk_filters = [];
  min_delay = config.min_delay;
  signalled = false;
}

-- `NewRouter` after `ParseCIDR`; `split` is `strings.Split` at "/".
unfoldable pub check_locals : RouterConfig → Statics → Error ⊎ Router
check_locals config s =
    if ltb 0 (length s.locals)
    then if length s.locals == length s.ips
      then inr (made config s)
      else inl local_ip_no_statics_ips_associated
    else inr (made config s)

unfoldable pub new_router :
    (String → Option Ip) → (String → List String) → RouterConfig → Error ⊎ Router
unfolding check_locals
new_router parse_ip split config =
    elim (read_statics parse_ip config.ipv4_net split (record { ips = []; locals = [] })
      config.static_ips) [ inl e ↦ inl e | inr s ↦ check_locals config s ]

-- The loops over the children stop at the first error; `none` is a want of fuel.
unfoldable pub for_children :
    (Network → ℕ → Option (Network × Option Error))
    → Network
    → List ℕ
    → Option (Network × Option Error)
for_children f w [] = some (w, none)
for_children f w (c ∷ cs) = elim (f w c) [
  | none ↦ none
  | some r ↦ elim r.1 [ some e ↦ some r | none ↦ for_children f r.0 cs ]
]

-- `Start`, of the router at a pointer, with its tree of children below.
unfoldable pub start : ℕ → Network → ℕ → Option (Network × Option Error)
unfolding for_children
start zero w p = none
start (suc fuel) w p =
    if (w.routers p).started
    then some (w, some router_already_started)
    else for_children (λ w' c. start fuel w' c)
        (write_router w p (record (w.routers p) { started = true })) (w.routers p).children

-- `Stop`: the children first.
unfoldable pub then_stopped : ℕ → Option (Network × Option Error) → Option (Network × Option Error)
then_stopped p none = none
then_stopped p (some (w, some e)) = some (w, some e)
then_stopped p (some (w, none)) =
    some (write_router w p (record (w.routers p) { started = false }), none)

unfoldable pub stop : ℕ → Network → ℕ → Option (Network × Option Error)
unfolding for_children then_stopped
stop zero w p = none
stop (suc fuel) w p =
    if (w.routers p).started
    then then_stopped p (for_children (λ w' c. stop fuel w' c) w (w.routers p).children)
    else some (w, some router_already_stopped)
