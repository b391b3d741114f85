-- ===== src/Vnet/ChunkQueue.antt =====
-- vnet/chunk_queue.go: a queue of chunks with limits on their number and on their bytes.
-- The mutex makes each method one atomic step. A limit is an `int`; zero or less is no limit.
pub mod Laws
mod Tests
use transport.Prelude.{
  ℕ, ◌+◌, ◌-◌, Bool, true, false, ◌&&◌, ltb, leb, if◌then◌else◌, Option, none, some, List, [], ◌∷◌,
  ◌++◌, length,
}
use transport.Prelude.Int.{ℤ, pos_part}
use transport.Vnet.Chunk.{Chunk}

pub record ChunkQueue : Type 0 where
  pub chunks : List Chunk
  pub max_size : ℤ
  pub max_bytes : ℤ
  pub current_bytes : ℕ

unfoldable pub new_chunk_queue : ℤ → ℤ → ChunkQueue
new_chunk_queue max_size max_bytes = record {
  chunks = [];
  max_size = max_size;
  max_bytes = max_bytes;
  current_bytes = 0;
}

-- `limit > 0 && n >= limit`
abbrev pub reaches : ℕ → ℤ → Bool
reaches n limit = ltb 0 (pos_part limit) && leb (pos_part limit) n

unfoldable pub push : ChunkQueue → Chunk → ChunkQueue × Bool
push q c =
    if reaches (length q.chunks) q.max_size
    then (q, false)
    else if reaches (q.current_bytes + length c.user_data) q.max_bytes
    then (q, false)
    else (
      record q {
        current_bytes = q.current_bytes + length c.user_data;
        chunks = q.chunks ++ (c ∷ []);
      },
      true,
    )

-- The slice of `pop`; the bytes are an `int`, which `Laws.IsValid` keeps from falling below 0.
unfoldable pub pop_from : ChunkQueue → List Chunk → ChunkQueue × Option Chunk
pop_from q [] = (q, none)
pop_from q (c ∷ cs) =
    (record q { chunks = cs; current_bytes = q.current_bytes - length c.user_data }, some c)

unfoldable pub pop : ChunkQueue → ChunkQueue × Option Chunk
unfolding pop_from
pop q = pop_from q q.chunks

unfoldable pub first : List Chunk → Option Chunk
first [] = none
first (c ∷ cs) = some c

unfoldable pub peek : ChunkQueue → Option Chunk
unfolding first
peek q = first q.chunks
