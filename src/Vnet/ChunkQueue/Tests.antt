-- ===== src/Vnet/ChunkQueue/Tests.antt =====
-- A queue of at most two chunks and fewer than five bytes, and its theorems there.
use transport.Prelude.{◌≡◌, ◌++◌, refl, List, [], ◌∷◌}
use transport.Prelude.Int.{pos}
use transport.Vnet.Addr.{Ip, Addr}
use transport.Vnet.Chunk.{Network, Chunk}
use transport.Vnet.ChunkQueue.{ChunkQueue, new_chunk_queue, push, pop, pop_from}
use transport.Vnet.ChunkQueue.Laws.{Call, add, take, run, emit, run-order}

abbrev host : Addr
host = record { ip = Ip.v4 0x0a000001; port = 80 }

abbrev two_bytes : Chunk
two_bytes = record {
  network = Network.udp;
  source = host;
  destination = host;
  user_data = 1 ∷ 2 ∷ [];
  timestamp = 0;
}

abbrev three_bytes : Chunk
three_bytes = record two_bytes { user_data = 3 ∷ 4 ∷ 5 ∷ [] }

abbrev empty_queue : ChunkQueue
empty_queue = new_chunk_queue (pos 2) (pos 5)

abbrev calls : List Call
calls = add two_bytes ∷ add three_bytes ∷ take ∷ add three_bytes ∷ take ∷ take ∷ []

-- The second chunk does not fit while the first one is there.
runs : (run empty_queue calls).2 ≡ two_bytes ∷ three_bytes ∷ []
unfolding run emit push pop pop_from new_chunk_queue
runs = refl

run-order_example :
    let (last, ins, outs) = run empty_queue calls in empty_queue.chunks ++ ins ≡ outs ++ last.chunks
run-order_example = run-order calls empty_queue
