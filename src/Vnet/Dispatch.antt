-- ===== src/Vnet/Dispatch.antt =====
-- vnet/router.go: `processChunks`, the loop that empties a router's queue.
-- A run of the loop is taken to be at one time, `now`, and with no chunk pushed meanwhile; chunks
-- that leave the router are the actions of the run, in order.
pub mod Order
mod Tests
pub mod Ends
pub mod Replies
use transport.Prelude.{
  ℕ, zero, suc, ◌+◌, ◌-◌, Bool, true, false, ltb, if◌then◌else◌, Option, none, some, List, [], ◌∷◌,
  ◌++◌,
}
use transport.Vnet.Addr.{Ip}
use transport.Vnet.Chunk.{Chunk}
use transport.Vnet.ChunkQueue.{ChunkQueue, peek, pop}
use transport.Vnet.NatState.{
  Nat, Translation, translated, dropped, failed, panicked, Error as NatError,
}
use transport.Vnet.Nat.{translate_outbound, translate_inbound}
use transport.Vnet.RouterState.{contains, Nic, Router}
use transport.Vnet.Router.{push}

-- `nic.onInboundChunk(chunk)` and `r.parent.push(toParent)`
pub data Action : Type 0 where
  to_nic : Nic → Chunk → Action
  to_parent : ℕ → Chunk → Action

-- How the loop ends: with the next sleep duration, an error of the translator, or a panic, here
-- that of a nil translator too. `no_fuel` says that the fuel of the model did not suffice.
pub data Outcome : Type 0 where
  sleeps : ℕ → Outcome
  fails : NatError → Outcome
  panics no_fuel : Outcome

-- The loop over the filters: all let the chunk pass.
unfoldable pub passes : List (Chunk → Bool) → Chunk → Bool
passes [] c = true
passes (f ∷ fs) c = if f c then passes fs c else false

-- What becomes of one chunk: the router that is left and the actions, or the end of the loop.
pub data Routed : Type 0 where
  goes_on : Router → List Action → Routed
  ends : Router → Outcome → Routed

unfoldable pub to_known_nic : Router → Chunk → Option Nic → Routed
to_known_nic r c none = goes_on r []
to_known_nic r c (some nic) = goes_on r (to_nic nic c ∷ [])

unfoldable pub after_nat : Router → ℕ → Nat → Translation → Routed
after_nat r p n (translated c) = goes_on (record r { nat = some n }) (to_parent p c ∷ [])
after_nat r p n dropped = goes_on (record r { nat = some n }) []
after_nat r p n (failed e) = ends (record r { nat = some n }) (fails e)
after_nat r p n panicked = ends (record r { nat = some n }) panics

unfoldable pub via_nat : Router → ℕ → Chunk → ℕ → Option Nat → Routed
unfolding after_nat
via_nat r now c p none = ends r panics
via_nat r now c p (some n) = let (n', t) = translate_outbound n now c in after_nat r p n' t

unfoldable pub via_parent : Router → ℕ → Chunk → Option ℕ → Routed
unfolding via_nat
via_parent r now c none = goes_on r []
via_parent r now c (some p) = via_nat r now c p r.nat

unfoldable pub route : Router → ℕ → Chunk → Routed
unfolding passes to_known_nic
route r now c = elim (passes r.chunk_filters c) [
  | false ↦ goes_on r []
  | true ↦ elim (contains r.ipv4_net c.destination.ip) [
    | true ↦ to_known_nic r c (r.nics c.destination.ip)
    | false ↦ via_parent r now c r.parent
  ]
]

-- `chunk.getTimestamp().After(cutOff)`, where `cutOff` is `now` less the delay.
abbrev pub is_early : Router → ℕ → Chunk → Bool
is_early r now c = ltb now (c.timestamp + r.min_delay)

abbrev pub before : List Action → Router × List Action × Outcome → Router × List Action × Outcome
before actions (r, rest, outcome) = (r, actions ++ rest, outcome)

-- `processChunks` after its jitter.
unfoldable pub process_chunks : ℕ → Router → ℕ → Router × List Action × Outcome
process_chunks zero r now = (r, [], no_fuel)
process_chunks (suc fuel) r now = elim (peek r.queue) [
  | none ↦ (r, [], sleeps 0)
  | some c ↦ elim (is_early r now c) [
    | true ↦ (r, [], sleeps (c.timestamp + r.min_delay - now))
    | false ↦
        let (q, popped) = pop r.queue in
        elim popped [
          | none ↦ (record r { queue = q }, [], sleeps 0)
          | some c' ↦ elim (route (record r { queue = q }) now c') [
            | ends r' outcome ↦ (r', [], outcome)
            | goes_on r' actions ↦ before actions (process_chunks fuel r' now)
          ]
        ]
  ]
]

-- `Router.onInboundChunk`, at the time `now`: an error of the translator drops the chunk. A nil
-- translator is `none`, and so is a nil chunk, which `push` reads.
unfoldable pub pushed_inbound : Router → ℕ → Translation → Option Router
pushed_inbound r now (translated c) = some (push r now c)
pushed_inbound r now dropped = none
pushed_inbound r now (failed e) = some r
pushed_inbound r now panicked = none

unfoldable pub on_inbound_chunk : Router → ℕ → Chunk → Option Router
unfolding pushed_inbound
on_inbound_chunk r now c = elim r.nat [
  | none ↦ none
  | some n ↦
      let (n', t) = translate_inbound n now c in pushed_inbound (record r { nat = some n' }) now t
]
