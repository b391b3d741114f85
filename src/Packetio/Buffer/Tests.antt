-- ===== src/Packetio/Buffer/Tests.antt =====
-- A buffer of at most twelve bytes whose queue goes round the end of its ring.
use transport.Prelude.{ℕ, ◌<◌, ◌≡◌, refl, true, false, Option, none, some, List, [], ◌∷◌, arith}
use transport.Prelude.Int.{pos}
use transport.Packetio.Ring.{write_bytes, read_bytes, unroll, copy_at}
use transport.Packetio.Buffer.{
  Buffer, Error, full, short_buffer, eof, answers, waits, new_buffer, used, available, grown_size,
  grow, make_room, grow_attributes, append_packet, write, consume_packet, attempt, read, close,
  set_limit_size,
}
use transport.Packetio.Buffer.Queue.{Packet, encode, Represents}
use transport.Packetio.Buffer.Read.{empty-IsRing, read-Represents}
use transport.Packetio.Buffer.WriteLaws.{write-Represents}
use transport.Packetio.Buffer.Pipe.{
  Call, writes, reads, resumes, shuts, limits_size, wrote, gave, done, new_pipe, run_pipe, run,
}
use transport.Packetio.Buffer.Runs.{new_buffer-run}

program : Unit {0}
unfolding new_buffer used available grown_size grow make_room grow_attributes append_packet write
    consume_packet attempt read close set_limit_size write_bytes read_bytes unroll copy_at encode
    run_pipe
program = tt

abbrev fresh : Buffer ℕ
fresh = set_limit_size new_buffer (pos 12)

-- The buffer of the outcome of a write.
abbrev written : Option (Buffer ℕ × ℕ × Option Error) → Buffer ℕ
written none = fresh
written (some (b, n, error)) = b

abbrev one : Buffer ℕ
one = written (write true fresh (1 ∷ 2 ∷ 3 ∷ 4 ∷ []) (7 ∷ []))

abbrev two : Buffer ℕ
two = written (write true one (5 ∷ 6 ∷ 7 ∷ 8 ∷ []) [])

two_bytes : two.bytes ≡ 0 ∷ 4 ∷ 1 ∷ 2 ∷ 3 ∷ 4 ∷ 0 ∷ 4 ∷ 5 ∷ 6 ∷ 7 ∷ 8 ∷ 0 ∷ []
unfolding program
two_bytes = refl

two_full : write true two [] [] ≡ some (two, 0, some full)
unfolding program
two_full = refl

-- The third packet goes round the end.
abbrev round : Buffer ℕ
round = written (write true (read two false (0 ∷ [])).0 (9 ∷ 10 ∷ 11 ∷ []) (3 ∷ []))

second_read : (read round false (0 ∷ 0 ∷ 0 ∷ 0 ∷ [])).1 ≡ answers (5 ∷ 6 ∷ 7 ∷ 8 ∷ []) 4 [] none
unfolding program
second_read = refl

third_read :
    (read (read round false (0 ∷ [])).0 false (0 ∷ 0 ∷ [])).1
    ≡ answers (9 ∷ 10 ∷ []) 2 (3 ∷ []) (some short_buffer)
unfolding program
third_read = refl

fresh-Represents : Represents fresh []
unfolding new_buffer set_limit_size encode
fresh-Represents = record {
  ring = empty-IsRing 0 [];
  end_at = refl;
  free = λ h. h;
  counted = refl;
  short = tt;
  attached = empty-IsRing [] [];
}

write-Represents_example :
    (b' : Buffer ℕ) × (write true fresh (1 ∷ 2 ∷ 3 ∷ []) (7 ∷ []) ≡ some (b', 3, none))
    × Represents b' ((1 ∷ 2 ∷ 3 ∷ [], 7 ∷ []) ∷ [])
    × (b'.notified ≡ true)
write-Represents_example =
    write-Represents true fresh [] (1 ∷ 2 ∷ 3 ∷ []) (7 ∷ []) fresh-Represents
      (unfold new_buffer set_limit_size in refl) (omega arith)
      (λ h. unfold new_buffer set_limit_size in h)
      (unfold new_buffer set_limit_size encode in omega arith)

-- The limit lets two packets of four bytes in; the third is full, a short slice cuts the first one, a
-- read that waited gets the second one, and after the end of the queue a closed buffer is at its end.
abbrev calls : List (Call ℕ)
calls =
    limits_size (pos 12)
    ∷ reads false (0 ∷ [])
    ∷ writes (1 ∷ 2 ∷ 3 ∷ 4 ∷ []) (7 ∷ [])
    ∷ writes (5 ∷ 6 ∷ 7 ∷ 8 ∷ []) []
    ∷ writes [] []
    ∷ reads false (0 ∷ 0 ∷ [])
    ∷ shuts
    ∷ resumes false (0 ∷ 0 ∷ 0 ∷ 0 ∷ [])
    ∷ resumes false []
    ∷ []

calls_results :
    (run_pipe true new_pipe calls).1
    ≡ done
      ∷ gave waits
      ∷ wrote 4 none
      ∷ wrote 4 none
      ∷ wrote 0 (some full)
      ∷ gave (answers (1 ∷ 2 ∷ []) 2 (7 ∷ []) (some short_buffer))
      ∷ done
      ∷ gave (answers (5 ∷ 6 ∷ 7 ∷ 8 ∷ []) 4 [] none)
      ∷ gave (answers [] 0 [] (some eof))
      ∷ []
unfolding program
calls_results = refl

new_buffer-run_example :
    (b : Buffer ℕ) × (run true new_buffer calls ≡ some (b, (run_pipe true new_pipe calls).1))
    × Represents b (run_pipe true new_pipe calls).0.packets
new_buffer-run_example = new_buffer-run true calls

read-Represents_example :
    (b' : Buffer ℕ) × (read write-Represents_example.0 false (0 ∷ 0 ∷ [])
      ≡ (b', answers (1 ∷ 2 ∷ []) 2 (7 ∷ []) (some short_buffer)))
    × Represents b' []
    × (0 < 0 → write-Represents_example.0.closed ≡ false → b'.notified ≡ true)
read-Represents_example =
    read-Represents write-Represents_example.0 (1 ∷ 2 ∷ 3 ∷ []) (7 ∷ []) [] (0 ∷ 0 ∷ [])
      write-Represents_example.2

abbrev no_packets : List (Packet ℕ)
no_packets = []
