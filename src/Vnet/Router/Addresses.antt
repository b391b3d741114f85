-- ===== src/Vnet/Router/Addresses.antt =====
-- vnet/router.go: the addresses that a router assigns.
use transport.Prelude.{
  ℕ, zero, suc, ◌+◌, ◌*◌, ◌/◌, ◌<◌, ◌≤◌, ◌≡◌, refl, ap, ◌∙◌, true, false, ◌==◌, leb, arith,
  Bool-cases, inl, inr, ◌-◌, ◌^◌, ◌⊎◌, sym,
}
use native.Mathlib.Nat.{mod-eq_of_lt, pow-suc, mul_assoc, div-div-eq-div-mul}
use transport.Vnet.Addr.{Ip}
use transport.Vnet.RouterState.{address_space_exhausted, Subnet, contains, Router}
use transport.Vnet.Router.{assign_ip_address}

-- The router after n calls.
unfoldable pub assigned : ℕ → Router → Router
assigned zero r = r
assigned (suc n) r = (assign_ip_address (assigned n r)).1

assign-next :
    (r : Router)
    → r.last_id < 254
    → assign_ip_address r ≡ (
      inr (Ip.v4 (r.ipv4_net.base / 256 * 256 + (r.last_id + 1))),
      record r { last_id = r.last_id + 1 },
    )
unfolding assign_ip_address
assign-next r below =
    let room : (r.last_id == 254) ≡ false = ground arith in
    rw (room, mod-eq_of_lt {n = r.last_id + 1} {m = 256} (omega arith)) refl

assigned-fields :
    (n : ℕ) (r : Router)
    → r.last_id ≡ 0
    → n ≤ 254
    → ((assigned n r).last_id ≡ n) × ((assigned n r).ipv4_net ≡ r.ipv4_net)
unfolding assigned
assigned-fields zero r fresh h = (fresh, refl)
assigned-fields (suc n) r fresh h =
    let before = assigned-fields n r fresh (omega arith) in
    let next = assign-next (assigned n r) (ground (arith, before.0)) in
    (
      ap (λ o. o.1.last_id) next ∙ ap (λ k. k + 1) before.0 ∙ ground arith,
      ap (λ o. o.1.ipv4_net) next ∙ before.1,
    )

assign-full :
    (r : Router) → r.last_id ≡ 254 → assign_ip_address r ≡ (inl address_space_exhausted, r)
unfolding assign_ip_address
assign-full r full = let spent : (r.last_id == 254) ≡ true = ground arith in rw spent refl

assigned-full : (m : ℕ) (r : Router) → r.last_id ≡ 0 → 254 ≤ m → (assigned m r).last_id ≡ 254
unfolding assigned
assigned-full zero r fresh h = absurd (omega arith)
assigned-full (suc m) r fresh h = elim (Bool-cases (leb 254 m)) [
  | inl past ↦
      let full = assigned-full m r fresh (ground arith) in
      ap (λ o. o.1.last_id) (assign-full (assigned m r) full) ∙ full
  | inr first ↦ (assigned-fields (suc m) r fresh (ground arith)).0 ∙ ground arith
]

-- The address of call n, counted from 0.
abbrev pub nth_address : Router → ℕ → Ip
nth_address r n = Ip.v4 (r.ipv4_net.base / 256 * 256 + (n + 1))

assign-nth :
    (r : Router) (n : ℕ)
    → r.last_id ≡ 0
    → n < 254
    → (assign_ip_address (assigned n r)).0 ≡ inr (nth_address r n)
assign-nth r n fresh below =
    let at = assigned-fields n r fresh (omega arith) in
    ap (λ o. o.0) (assign-next (assigned n r) (ground (arith, at.0)))
    ∙ ap (λ k. inr (Ip.v4 ((assigned n r).ipv4_net.base / 256 * 256 + (k + 1)))) at.0
    ∙ ap (λ s. inr (Ip.v4 (s.base / 256 * 256 + (n + 1)))) at.1

pow_add : (k j : ℕ) → 2 ^ (k + j) ≡ 2 ^ j * 2 ^ k
pow_add zero j = ground arith
pow_add (suc k) j =
    ap (λ x. 2 ^ x) {x = suc k + j} {y = suc (k + j)} (omega arith)
    ∙ pow-suc 2 (k + j)
    ∙ ap (λ x. x * 2) (pow_add k j)
    ∙ mul_assoc (2 ^ j) (2 ^ k) 2
    ∙ ap (λ x. 2 ^ j * x) (sym (pow-suc 2 k))

-- A mask of at most 24 ones does not look at the last byte.
contains_last_byte :
    (s : Subnet) (x : ℕ)
    → s.ones ≤ 24
    → x < 256
    → contains s (Ip.v4 (s.base / 256 * 256 + x)) ≡ true
unfolding contains
contains_last_byte s x wide h =
    let split : 2 ^ (32 - s.ones) ≡ 256 * 2 ^ (24 - s.ones) =
      ap (λ k. 2 ^ k) {x = 32 - s.ones} {y = 24 - s.ones + 8} (omega arith)
      ∙ pow_add (24 - s.ones) 8 in
    let high : (s.base / 256 * 256 + x) / 256 ≡ s.base / 256 = omega arith in
    let same : (s.base / 256 * 256 + x) / 2 ^ (32 - s.ones) ≡ s.base / 2 ^ (32 - s.ones) =
      ap (λ k. (s.base / 256 * 256 + x) / k) split
      ∙ sym (div-div-eq-div-mul (s.base / 256 * 256 + x) 256 (2 ^ (24 - s.ones)))
      ∙ ap (λ k. k / 2 ^ (24 - s.ones)) high
      ∙ div-div-eq-div-mul s.base 256 (2 ^ (24 - s.ones))
      ∙ ap (λ k. s.base / k) (sym split) in
    ground (arith, same)

-- A router whose subnet has a mask of at most 24 ones, and that has not assigned an address yet: calls
-- 1 to 254 of assignIPAddress give addresses of the subnet, with the first three bytes of its base and
-- the number of the call for the last, so that no two calls give the same one; any later call reports
-- that the address space is exhausted. (Calls are counted from 0 below.)
pub assign_ip_address-series :
    (r : Router) (n : ℕ)
    → r.last_id ≡ 0
    → r.ipv4_net.ones ≤ 24
    → ((n < 254)
        × ((assign_ip_address (assigned n r)).0 ≡ inr (nth_address r n))
        × (contains r.ipv4_net (nth_address r n) ≡ true))
      ⊎ ((254 ≤ n) × ((assign_ip_address (assigned n r)).0 ≡ inl address_space_exhausted))
assign_ip_address-series r n fresh wide = elim (Bool-cases (leb 254 n)) [
  | inl late ↦
      let past : 254 ≤ n = ground arith in
      inr (past, ap (λ o. o.0) (assign-full (assigned n r) (assigned-full n r fresh past)))
  | inr early ↦
      let below : n < 254 = ground arith in
      inl (
        below,
        assign-nth r n fresh below,
        contains_last_byte r.ipv4_net (n + 1) wide (omega arith),
      )
]
