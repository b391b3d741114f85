-- ===== src/Vnet/Dispatch/Order.antt =====
-- vnet/router.go: which chunks a router without a parent forwards, and in which order.
use transport.Prelude.{
  ltb, Bool, true, ℕ, zero, suc, ◌+◌, ◌-◌, ◌<◌, ◌≡◌, refl, ap, ◌&&◌, if◌then◌else◌, Option, none,
  some, List, [], ◌∷◌, ◌++◌, length, arith, Bool-cases, inl, inr,
}
use transport.Vnet.Chunk.{Chunk}
use transport.Vnet.ChunkQueue.{ChunkQueue, peek, pop, pop_from, first}
use transport.Vnet.RouterState.{contains, Nic, Router}
use transport.Vnet.Dispatch.{
  Action, to_nic, Outcome, sleeps, passes, goes_on, to_known_nic, via_parent, route, is_early,
  process_chunks,
}

-- When a chunk is due: `min_delay` after it was pushed.
abbrev pub due_at : Router → Chunk → ℕ
due_at r c = c.timestamp + r.min_delay

-- The chunks at the head of the queue that are due, and those from the first one that is early.
abbrev pub due : Router → ℕ → List Chunk → List Chunk
due r now [] = []
due r now (c ∷ cs) = if ltb now (due_at r c) then [] else c ∷ due r now cs

abbrev pub waiting : Router → ℕ → List Chunk → List Chunk
waiting r now [] = []
waiting r now (c ∷ cs) = if ltb now (due_at r c) then c ∷ cs else waiting r now cs

-- When the first of the chunks that wait is due; 0 where none waits.
abbrev pub next_sleep : Router → ℕ → List Chunk → ℕ
next_sleep r now [] = 0
next_sleep r now (c ∷ cs) = due_at r c - now

-- A chunk goes to the NIC of its destination, if all filters let it pass, the destination is in the
-- subnet, and there is such a NIC.
abbrev pub to_nic_of : Chunk → Option Nic → List Action
to_nic_of c none = []
to_nic_of c (some nic) = to_nic nic c ∷ []

abbrev pub all_pass : List (Chunk → Bool) → Chunk → Bool
all_pass [] c = true
all_pass (f ∷ fs) c = f c && all_pass fs c

abbrev pub handed : Router → Chunk → List Action
handed r c =
    if all_pass r.chunk_filters c && contains r.ipv4_net c.destination.ip
    then to_nic_of c (r.nics c.destination.ip)
    else []

abbrev pub handed_all : Router → List Chunk → List Action
handed_all r [] = []
handed_all r (c ∷ cs) = handed r c ++ handed_all r cs

to_known_nic-goes_on :
    (r : Router) (c : Chunk) (o : Option Nic) → to_known_nic r c o ≡ goes_on r (to_nic_of c o)
unfolding to_known_nic
to_known_nic-goes_on r c none = refl
to_known_nic-goes_on r c (some nic) = refl

passes-all_pass : (fs : List (Chunk → Bool)) (c : Chunk) → passes fs c ≡ all_pass fs c
unfolding passes
passes-all_pass [] c = refl
passes-all_pass (f ∷ fs) c = elim (Bool-cases (f c)) [
  | inl free ↦ rw free (passes-all_pass fs c)
  | inr blocked ↦ rw blocked refl
]

route-handed :
    (r : Router) (now : ℕ) (c : Chunk) → r.parent ≡ none → route r now c ≡ goes_on r (handed r c)
unfolding route via_parent
route-handed r now c alone =
    rw⁻¹ (passes-all_pass r.chunk_filters c) (elim (Bool-cases (passes r.chunk_filters c)) [
      | inr blocked ↦ rw (blocked, route) refl
      | inl free ↦ elim (Bool-cases (contains r.ipv4_net c.destination.ip)) [
        | inl inside ↦ rw (free, route, inside) (to_known_nic-goes_on r c (r.nics c.destination.ip))
        | inr outside ↦ rw (free, route, outside) (ap (via_parent r now c) alone)
      ]
    ])

pub peek-chunks :
    (q : ChunkQueue) (c : Chunk) (cs : List Chunk) → q.chunks ≡ c ∷ cs → peek q ≡ some c
unfolding peek
peek-chunks q c cs e = ap first e

pub pop-chunks :
    (q : ChunkQueue) (c : Chunk) (cs : List Chunk)
    → q.chunks ≡ c ∷ cs
    → pop q
      ≡ (record q { chunks = cs; current_bytes = q.current_bytes - length c.user_data }, some c)
unfolding pop
pop-chunks q c cs e = ap (pop_from q) e

-- What a run of the loop leaves and does, for the chunks `cs` of the queue.
pub record IsProcessed (r : Router) (now : ℕ) (cs : List Chunk)
    (out : Router × List Action × Outcome) : Type 0 where
  pub actions : out.1 ≡ handed_all r (due r now cs)
  pub kept : out.0.queue.chunks ≡ waiting r now cs
  pub ends : out.2 ≡ sleeps (next_sleep r now (waiting r now cs))

process_queue :
    (fuel : ℕ) (r : Router) (now : ℕ) (cs : List Chunk)
    → r.queue.chunks ≡ cs
    → r.parent ≡ none
    → length cs < fuel
    → IsProcessed r now cs (process_chunks fuel r now)
unfolding process_chunks
process_queue zero r now cs e alone enough = absurd (omega arith)
process_queue (suc fuel) r now [] e alone enough =
    let nothing : peek r.queue ≡ none = unfold peek in ap first e in
    rw (nothing, process_chunks) (record { actions = refl; kept = e; ends = refl })
process_queue (suc fuel) r now (c ∷ cs) e alone enough = elim (Bool-cases (is_early r now c)) [
  | inl early ↦
      rw (peek-chunks r.queue c cs e, process_chunks, early)
        (record { actions = rw early refl; kept = rw early e; ends = rw early refl })
  | inr ready ↦
      let q : ChunkQueue = record r.queue {
        chunks = cs;
        current_bytes = r.queue.current_bytes - length c.user_data;
      } in
      let rest = process_queue fuel (record r { queue = q }) now cs refl alone (omega arith) in
      rw
        (
          peek-chunks r.queue c cs e,
          process_chunks,
          ready,
          pop-chunks r.queue c cs e,
          pop-chunks r.queue c cs e,
          route-handed (record r { queue = q }) now c alone,
        )
        (record {
          actions = rw ready (ap (λ as_list. handed r c ++ as_list) rest.actions);
          kept = rw ready rest.kept;
          ends = rw ready rest.ends;
        })
]

-- With fuel beyond the number of chunks in its queue, `processChunks` of a router without a parent
-- ends: it has handed exactly the chunks at the head that are due, in the order of the queue and
-- each at most once, to the NIC of their destination, the first that is not due and all behind it
-- are left, and the sleep lasts until that one is due, or is 0 where the queue is empty.
pub process_chunks-IsProcessed :
    (fuel : ℕ) (r : Router) (now : ℕ)
    → r.parent ≡ none
    → length r.queue.chunks < fuel
    → IsProcessed r now r.queue.chunks (process_chunks fuel r now)
process_chunks-IsProcessed fuel r now alone enough =
    process_queue fuel r now r.queue.chunks refl alone enough
