-- ===== src/Vnet/Dispatch/Ends.antt =====
-- vnet/router.go: `processChunks` of any router comes to an end.
use transport.Prelude.{
  ℕ, zero, suc, ◌-◌, ◌<◌, ◌≡◌, ◌≢◌, refl, sym, ap, ◌∙◌, Bool, true, false, Option, none, some, List,
  [], ◌∷◌, length, arith, Bool-cases, inl, inr,
}
use mathlib.Core.Bool.{true≢false}
use transport.Vnet.Chunk.{Chunk}
use transport.Vnet.ChunkQueue.{ChunkQueue, peek, first}
use transport.Vnet.NatState.{Nat, Translation, translated, dropped, failed, panicked}
use transport.Vnet.Nat.{translate_outbound}
use transport.Vnet.RouterState.{contains, Nic, Router}
use transport.Vnet.Dispatch.{
  Action, Outcome, sleeps, fails, panics, no_fuel, passes, Routed, goes_on, ends, to_known_nic,
  after_nat, via_nat, via_parent, route, is_early, before, process_chunks,
}
use transport.Vnet.Dispatch.Order.{peek-chunks, pop-chunks}

is_no_fuel : Outcome → Bool
is_no_fuel no_fuel = true
is_no_fuel (sleeps d) = false
is_no_fuel (fails e) = false
is_no_fuel panics = false

-- One chunk leaves the queue alone, or ends the loop for a reason of the source.
abbrev Keeps : ChunkQueue → Routed → Type 0
Keeps q (goes_on r actions) = r.queue ≡ q
Keeps q (ends r outcome) = is_no_fuel outcome ≡ false

after_nat-Keeps :
    (r : Router) (p : ℕ) (n : Nat) (t : Translation) → Keeps r.queue (after_nat r p n t)
unfolding after_nat is_no_fuel
after_nat-Keeps r p n (translated c) = refl
after_nat-Keeps r p n dropped = refl
after_nat-Keeps r p n (failed e) = refl
after_nat-Keeps r p n panicked = refl

via_nat-Keeps :
    (r : Router) (now : ℕ) (c : Chunk) (p : ℕ) (n : Option Nat)
    → Keeps r.queue (via_nat r now c p n)
unfolding via_nat is_no_fuel
via_nat-Keeps r now c p none = refl
via_nat-Keeps r now c p (some n) = after_nat-Keeps r p _ (translate_outbound n now c).1

via_parent-Keeps :
    (r : Router) (now : ℕ) (c : Chunk) (p : Option ℕ) → Keeps r.queue (via_parent r now c p)
unfolding via_parent
via_parent-Keeps r now c none = refl
via_parent-Keeps r now c (some p) = via_nat-Keeps r now c p r.nat

to_known_nic-Keeps : (r : Router) (c : Chunk) (o : Option Nic) → Keeps r.queue (to_known_nic r c o)
unfolding to_known_nic
to_known_nic-Keeps r c none = refl
to_known_nic-Keeps r c (some nic) = refl

route-Keeps : (r : Router) (now : ℕ) (c : Chunk) → Keeps r.queue (route r now c)
unfolding route
route-Keeps r now c = elim (Bool-cases (passes r.chunk_filters c)) [
  | inr blocked ↦ rw (blocked, route) refl
  | inl free ↦ elim (Bool-cases (contains r.ipv4_net c.destination.ip)) [
    | inl inside ↦ rw (free, route, inside) (to_known_nic-Keeps r c (r.nics c.destination.ip))
    | inr outside ↦ rw (free, route, outside) (via_parent-Keeps r now c r.parent)
  ]
]

-- The loop after one chunk.
abbrev continue : ℕ → ℕ → Routed → Router × List Action × Outcome
continue fuel now (ends r outcome) = (r, [], outcome)
continue fuel now (goes_on r actions) = before actions (process_chunks fuel r now)

continue-ends :
    (fuel now : ℕ) (q : ChunkQueue) (o : Routed)
    → ((r : Router) → r.queue ≡ q → is_no_fuel (process_chunks fuel r now).2 ≡ false)
    → Keeps q o
    → is_no_fuel (continue fuel now o).2 ≡ false
continue-ends fuel now q (ends r outcome) rest h = h
continue-ends fuel now q (goes_on r actions) rest h = rest r h

process_queue-ends :
    (fuel : ℕ) (r : Router) (now : ℕ) (cs : List Chunk)
    → r.queue.chunks ≡ cs
    → length cs < fuel
    → is_no_fuel (process_chunks fuel r now).2 ≡ false
unfolding process_chunks is_no_fuel
process_queue-ends zero r now cs e enough = absurd (omega arith)
process_queue-ends (suc fuel) r now [] e enough =
    let nothing : peek r.queue ≡ none = unfold peek in ap first e in
    rw (nothing, process_chunks) refl
process_queue-ends (suc fuel) r now (c ∷ cs) e enough = elim (Bool-cases (is_early r now c)) [
  | inl early ↦ rw (peek-chunks r.queue c cs e, process_chunks, early) refl
  | inr ready ↦
      let q : ChunkQueue = record r.queue {
        chunks = cs;
        current_bytes = r.queue.current_bytes - length c.user_data;
      } in
      rw
        (
          peek-chunks r.queue c cs e,
          process_chunks,
          ready,
          pop-chunks r.queue c cs e,
          pop-chunks r.queue c cs e,
        )
        (continue-ends fuel now q (route (record r { queue = q }) now c)
          (λ r' same. process_queue-ends fuel r' now cs (ap (λ x. x.chunks) same) (omega arith))
          (route-Keeps (record r { queue = q }) now c))
]

-- With fuel beyond the number of chunks in the queue, the loop of `processChunks` comes to an end
-- of the source: a sleep, an error of the translator or a panic, never for want of fuel.
pub process_chunks-ends :
    (fuel : ℕ) (r : Router) (now : ℕ)
    → length r.queue.chunks < fuel
    → (process_chunks fuel r now).2 ≢ no_fuel
unfolding is_no_fuel
process_chunks-ends fuel r now enough e =
    true≢false (sym (ap is_no_fuel e) ∙ process_queue-ends fuel r now r.queue.chunks refl enough)
