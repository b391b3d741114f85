-- ===== src/Vnet/SocketRead.antt =====
-- vnet/conn.go: reading from a UDP socket, and its read deadline.
use transport.Prelude.{
  ℕ, Bool, true, false, ltb, leb, not, ◌&&◌, if◌then◌else◌, Option, none, some, List, [], ◌∷◌,
  length, take,
}
use transport.Vnet.Addr.{Addr}
use transport.Vnet.Chunk.{Chunk}
use transport.Vnet.NatState.{addr_eq}
use transport.Vnet.NetState.{Error, use_of_closed_network_connection, timeout, short_buffer, Socket}

-- What `ReadFrom` comes to: it waits in its select, fails, or returns bytes, an address and an
-- error value that may be nil.
pub data Answer : Type 0 where
  waits : Answer
  fails : Error → Answer
  packet : List ℕ → Addr → Option Error → Answer

-- A datagram that was received, for a buffer of `size` bytes.
unfoldable pub received : ℕ → Chunk → Answer
received size c =
    packet (take size c.user_data) c.source
      (if ltb size (length c.user_data) then some short_buffer else none)

-- `c.remAddr != nil && addr.String() != c.remAddr.String()`
unfoldable pub is_foreign : Option Addr → Addr → Bool
is_foreign none a = false
is_foreign (some rem) a = not (addr_eq a rem)

-- The branch of the tick.
abbrev pub timed_out : Socket → Socket × Answer
timed_out s = (record s { fired = false }, fails timeout)

-- The loop of `ReadFrom` along the chunks in the channel. Where a chunk and a tick are both ready,
-- Go's select takes either: `takes_tick k` says that it takes the tick with k chunks waiting.
unfoldable pub read_loop : (ℕ → Bool) → ℕ → Socket → List Chunk → Socket × Answer
unfolding received is_foreign
read_loop takes_tick size s [] =
    if s.closed
    then if s.fired && takes_tick 0
      then timed_out (record s { read_ch = [] })
      else (record s { read_ch = [] }, fails use_of_closed_network_connection)
    else if s.fired
    then timed_out (record s { read_ch = [] })
    else (record s { read_ch = [] }, waits)
read_loop takes_tick size s (c ∷ cs) = elim (s.fired && takes_tick (length (c ∷ cs))) [
  | true ↦ timed_out (record s { read_ch = c ∷ cs })
  | false ↦ elim (is_foreign s.rem_addr c.source) [
    | true ↦ read_loop takes_tick size s cs
    | false ↦ (record s { read_ch = cs }, received size c)
  ]
]

-- `ReadFrom`
unfoldable pub read_from : (ℕ → Bool) → ℕ → Socket → Socket × Answer
unfolding read_loop
read_from takes_tick size s = read_loop takes_tick size s s.read_ch

-- `SetReadDeadline` and `SetDeadline`: `Reset` of the timer, which drops a tick that waits.
unfoldable pub set_read_deadline : Socket → Option ℕ → Socket
set_read_deadline s t = record s { alarm = t; fired = false }

-- The timer of Go's library at the time `now`.
unfoldable pub expire : Option ℕ → ℕ → Bool
expire none now = false
expire (some t) now = leb t now

unfoldable pub tick : Socket → ℕ → Socket
unfolding expire
tick s now = elim (expire s.alarm now) [
  | true ↦ record s { alarm = none; fired = true }
  | false ↦ s
]
