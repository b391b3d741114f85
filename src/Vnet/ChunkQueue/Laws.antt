-- ===== src/Vnet/ChunkQueue/Laws.antt =====
-- The invariant of the chunk queue, and the order in which chunks leave it.
use mathlib.Core.List.{append_assoc, append-nil}
use transport.Prelude.{
  ◌+◌, ◌≤◌, ◌<◌, ◌≡◌, refl, ap, ◌∙◌, if◌then◌else◌, Option, none, some, List, [], ◌∷◌, ◌++◌, length,
  length-append, arith, inl, inr, Bool-cases, Option-cases, sym,
}
use transport.Prelude.Int.{ℤ, pos_part}
use transport.Vnet.Chunk.{Chunk, bytes}
use transport.Vnet.ChunkQueue.{ChunkQueue, new_chunk_queue, push, pop_from, pop, first, peek}

-- The byte count is right, and no limit that is set is exceeded: the byte limit is never reached.
pub record IsValid (q : ChunkQueue) : Type 0 where
  pub counted : q.current_bytes ≡ bytes q.chunks
  pub few : 0 < pos_part q.max_size → length q.chunks ≤ pos_part q.max_size
  pub short : 0 < pos_part q.max_bytes → q.current_bytes < pos_part q.max_bytes

pub new-IsValid : (max_size max_bytes : ℤ) → IsValid (new_chunk_queue max_size max_bytes)
unfolding new_chunk_queue bytes
new-IsValid s b = record { counted = refl; few = λ h. omega arith; short = λ h. h }

pub bytes-append : (xs ys : List Chunk) → bytes (xs ++ ys) ≡ bytes xs + bytes ys
unfolding bytes
bytes-append [] ys = omega arith
bytes-append (x ∷ xs) ys = omega (arith, bytes-append xs ys)

push-IsValid : (q : ChunkQueue) (c : Chunk) → IsValid q → IsValid (push q c).0
unfolding push bytes
push-IsValid q c v = record {
  counted = ground (arith, v.counted, bytes-append q.chunks (c ∷ []));
  few = λ h. ground (arith, length-append q.chunks (c ∷ []), v.few);
  short = λ h. ground (arith, v.short);
}

pop_from-IsValid :
    (q : ChunkQueue) (cs : List Chunk) → q.chunks ≡ cs → IsValid q → IsValid (pop_from q cs).0
unfolding pop_from bytes
pop_from-IsValid q [] e v = v
pop_from-IsValid q (c ∷ cs) e v = record {
  counted = omega (arith, v.counted, ap bytes e);
  few = λ h. omega (arith, v.few h, ap length e);
  short = λ h. omega (arith, v.short h);
}

-- A client's calls in order.
pub data Call : Type 0 where
  add : Chunk → Call
  take : Call

-- A chunk that came out, in front of the later ones.
unfoldable pub emit : Option Chunk → List Chunk → List Chunk
emit none outs = outs
emit (some c) outs = c ∷ outs

-- The queue after the calls, the chunks that were taken in, and those that came out, in order.
unfoldable pub run : ChunkQueue → List Call → ChunkQueue × List Chunk × List Chunk
run q [] = (q, [], [])
run q (add c ∷ calls) =
    let (q', added) = push q c in
    let (last, ins, outs) = run q' calls in (last, (if added then c ∷ ins else ins), outs)
run q (take ∷ calls) =
    let (q', out) = pop q in let (last, ins, outs) = run q' calls in (last, ins, emit out outs)

run_keeps : (calls : List Call) (q : ChunkQueue) → IsValid q → IsValid (run q calls).0
unfolding run pop
run_keeps [] q v = v
run_keeps (add c ∷ calls) q v = run_keeps calls (push q c).0 (push-IsValid q c v)
run_keeps (take ∷ calls) q v = run_keeps calls (pop q).0 (pop_from-IsValid q q.chunks refl v)

push-chunks :
    (q : ChunkQueue) (c : Chunk)
    → (push q c).0.chunks ≡ (if (push q c).1 then q.chunks ++ (c ∷ []) else q.chunks)
unfolding push
push-chunks q c = ground arith

-- The chunks before a `pop` and after it.
abbrev Front : Option Chunk → List Chunk → List Chunk → Type 0
Front none before after = before ≡ after
Front (some c) before after = before ≡ c ∷ after

-- What `pop` hands out was at the front.
pop_from-chunks :
    (q : ChunkQueue) (cs : List Chunk)
    → q.chunks ≡ cs
    → Front (pop_from q cs).1 cs (pop_from q cs).0.chunks
unfolding pop_from
pop_from-chunks q [] e = sym e
pop_from-chunks q (c ∷ cs) e = refl

-- The queue is first in, first out, over any sequence of calls: the chunks it held, followed by the
-- chunks that `push` took in, are the chunks that `pop` handed out, followed by those it holds.
pub run-order :
    (calls : List Call) (q : ChunkQueue)
    → let (last, ins, outs) = run q calls in q.chunks ++ ins ≡ outs ++ last.chunks
unfolding run emit
run-order [] q = append-nil q.chunks
run-order (add c ∷ calls) q = elim (Bool-cases (push q c).1) [
  | inl added ↦ rw added (
      sym (append_assoc q.chunks (c ∷ []) (run (push q c).0 calls).1)
      ∙ ap (λ cs. cs ++ (run (push q c).0 calls).1) (sym (rw added at (push-chunks q c)))
      ∙ run-order calls (push q c).0)
  | inr dropped ↦ rw dropped (
      ap (λ cs. cs ++ (run (push q c).0 calls).1) (sym (rw dropped at (push-chunks q c)))
      ∙ run-order calls (push q c).0)
]
run-order (take ∷ calls) q = elim (Option-cases (pop q).1) [
  | inl nothing ↦
      rw (nothing, emit)
        (ap (λ cs. cs ++ (run (pop q).0 calls).1) (rw nothing at front) ∙ run-order calls (pop q).0)
  | inr (c, some_chunk) ↦
      rw (some_chunk, emit)
        (ap (λ cs. cs ++ (run (pop q).0 calls).1) (rw some_chunk at front)
          ∙ ap (λ cs. c ∷ cs) (run-order calls (pop q).0))
]
  where
    front : Front (pop q).1 q.chunks (pop q).0.chunks
    front = unfold pop in pop_from-chunks q q.chunks refl

-- No sequence of calls breaks the limits of a queue: the number of chunks stays within its limit,
-- the bytes stay below theirs, and the byte count is that of the chunks it holds.
pub run-IsValid : (calls : List Call) (q : ChunkQueue) → IsValid q → IsValid (run q calls).0
run-IsValid calls q v = run_keeps calls q v

-- `pop` gives the chunk that `peek` shows.
pub peek-pop : (q : ChunkQueue) → (pop q).1 ≡ peek q
unfolding pop peek
peek-pop q = same q.chunks
  where
    same : (cs : List Chunk) → (pop_from q cs).1 ≡ first cs
    same [] = unfold pop_from first in refl
    same (c ∷ cs) = unfold pop_from first in refl
