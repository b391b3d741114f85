-- ===== src/Packetio/Buffer.antt =====
-- packetio/buffer.go: a buffer of packets in one ring of bytes, each behind a header of two bytes,
-- and of their attributes in a ring of their own. The mutex makes each method one atomic step.
-- Sizes are far below the bounds of an `int`. `hard` is the build's `sizeHardLimit`.
pub mod Queue
pub mod Room
pub mod Write
pub mod Read
pub mod WriteLaws
pub mod Pipe
pub mod Holds
pub mod Runs
mod Tests
use transport.Prelude.{
  ℕ, zero, suc, ◌+◌, ◌-◌, ◌*◌, ◌/◌, ◌%◌, min, max, Bool, true, false, ◌&&◌, ◌||◌, ◌==◌, ltb, leb,
  if◌then◌else◌, Option, none, some, List, [], ◌∷◌, length, get_or, set, take, drop, replicate,
}
use transport.Prelude.Int.{ℤ, pos, pos_part}
use transport.Packetio.Ring.{copy_at, write_bytes, read_bytes, unroll}

-- `notified` is the token in the channel `notify`, whose capacity is one.
pub record Buffer (A : Type 0) : Type 0 where
  pub bytes : List ℕ
  pub head : ℕ
  pub tail : ℕ
  pub notified : Bool
  pub closed : Bool
  pub count : ℕ
  pub limit_count : ℤ
  pub limit_size : ℤ
  pub attributes : List (List A)
  pub attributes_head : ℕ

pub data Error : Type 0 where
  packet_too_big closed_pipe full short_buffer eof timeout : Error

-- What the locked part of `Read` comes to; `waits` is the `select` on the deadline and `notify`.
pub data Answer (A : Type 0) : Type 0 where
  answers : List ℕ → ℕ → List A → Option Error → Answer A
  waits : Answer A

abbrev pub min_size : ℕ
min_size = 2048

abbrev pub cutoff_size : ℕ
cutoff_size = 131072

abbrev pub max_size : ℕ
max_size = 4194304

abbrev pub header_size : ℕ
header_size = 2

-- `binary.BigEndian` on a uint16
abbrev pub header : ℕ → List ℕ
header n = n / 256 % 256 ∷ n % 256 ∷ []

abbrev pub header_value : List ℕ → ℕ
header_value h = get_or h 0 0 * 256 + get_or h 1 0

-- The size that `grow` gives to a slice of `len` bytes.
unfoldable pub grown_size : Bool → ℤ → ℕ → ℕ
grown_size hard limit_size len =
    let doubled = if ltb len cutoff_size then 2 * len else 5 * len / 4 in
    let enough = if ltb doubled min_size then min_size else doubled in
    let capped =
      if (leb (pos_part limit_size) 0 || hard) && ltb max_size enough then max_size else enough in
    if ltb 0 (pos_part limit_size) && ltb (pos_part limit_size) (capped - 1)
    then pos_part limit_size + 1
    else capped

-- The limit on the bytes in use.
abbrev pub size_limit : Bool → ℤ → ℕ
size_limit hard limit =
    if leb (pos_part limit) 0 || (hard && leb max_size (pos_part limit))
    then max_size - 1
    else pos_part limit

module _ {A : Type 0} where
  unfoldable pub new_buffer : Buffer A
  new_buffer = record {
    bytes = [];
    head = 0;
    tail = 0;
    notified = false;
    closed = false;
    count = 0;
    limit_count = pos 0;
    limit_size = pos 0;
    attributes = [];
    attributes_head = 0;
  }

  -- `size`
  unfoldable pub used : Buffer A → ℕ
  used b = if ltb b.tail b.head then b.tail + length b.bytes - b.head else b.tail - b.head

  unfoldable pub available : Buffer A → ℕ → Bool
  available b size =
      let free = if leb b.head b.tail then b.head + length b.bytes - b.tail else b.head - b.tail in
      leb (size + header_size + 1) free

  -- `none` is ErrFull.
  unfoldable pub grow : Bool → Buffer A → Option (Buffer A)
  grow hard b =
      let new_size = grown_size hard b.limit_size (length b.bytes) in
      if leb new_size (length b.bytes)
      then none
      else (let (fresh, n) = unroll b.bytes b.head b.tail (replicate new_size 0) in
          some (record b { bytes = fresh; head = 0; tail = n }))

  -- The loop of `Write` before a packet of `size` bytes: the buffer that it leaves, and whether there
  -- is room, which there is not where `grow` failed. `none` is that the fuel is spent.
  unfoldable pub make_room : ℕ → Bool → ℕ → Buffer A → Option (Buffer A × Bool)
  make_room zero hard size b = none
  make_room (suc n) hard size b =
      if available b size
      then some (b, true)
      else elim (grow hard b) [ none ↦ some (b, false) | some b' ↦ make_room n hard size b' ]

  -- `growAttributes`
  unfoldable pub grow_attributes : Buffer A → Buffer A
  grow_attributes b =
      let len = length b.attributes in
      if ltb b.count len
      then b
      else (let fresh = replicate (max 1 (2 * len)) [] in
          let n = min (length fresh) (len - b.attributes_head) in
          record b {
            attributes =
                copy_at (copy_at fresh 0 (drop b.attributes_head b.attributes)) n
                  (take b.attributes_head b.attributes);
            attributes_head = 0;
          })

  abbrev pub put_bytes : Buffer A → List ℕ → Buffer A
  put_bytes b src =
      let (bytes, tail) = write_bytes b.bytes b.tail src in record b { bytes = bytes; tail = tail }

  abbrev pub put_attributes : Buffer A → List A → Buffer A
  put_attributes b attributes =
      let next = b.attributes_head + b.count in
      let place = if leb (length b.attributes) next then next - length b.attributes else next in
      record b { attributes = set b.attributes place attributes }

  -- The end of `Write`, behind the loop.
  unfoldable pub append_packet : Buffer A → List ℕ → List A → Buffer A
  append_packet b payload attributes =
      let b' =
        put_attributes (put_bytes (put_bytes (grow_attributes b) (header (length payload))) payload)
          attributes in
      record b' { count = b'.count + 1; notified = true }

  abbrev pub is_full : Bool → Buffer A → ℕ → Bool
  is_full hard b size =
      (ltb 0 (pos_part b.limit_count) && leb (pos_part b.limit_count) b.count)
      || ltb (size_limit hard b.limit_size) (used b + (size + header_size))

  -- Any slice that the loop reaches is shorter than this.
  abbrev pub fuel : Buffer A → ℕ
  fuel b = max max_size (pos_part b.limit_size) + 2

  -- `Write`: the number of bytes written, or an error; the outer `none` is spent fuel.
  unfoldable pub write : Bool → Buffer A → List ℕ → List A → Option (Buffer A × ℕ × Option Error)
  write hard b payload attributes =
      if leb 65536 (length payload)
      then some (b, 0, some packet_too_big)
      else if b.closed
      then some (b, 0, some closed_pipe)
      else if is_full hard b (length payload)
      then some (b, 0, some full)
      else elim (make_room (fuel b) hard (length payload) b) [
        | none ↦ none
        | some (b', false) ↦ some (b', 0, some full)
        | some (b', true) ↦ some (append_packet b' payload attributes, length payload, none)
      ]

  -- `consumePacket`, which fills `buf`: the bytes copied, the attributes, and the error.
  unfoldable pub consume_packet : Buffer A → List ℕ → Buffer A × List ℕ × ℕ × List A × Option Error
  consume_packet b buf =
      let (front, head, _) = read_bytes b.bytes b.head (0 ∷ 0 ∷ []) header_size in
      let size = header_value front in
      let (filled, next, n) = read_bytes b.bytes head buf size in
      let queued = get_or b.attributes b.attributes_head [] in
      let place =
        if b.attributes_head + 1 == length b.attributes then 0 else b.attributes_head + 1 in
      let emptied = next == b.tail in
      (
        record b {
          head = if emptied then 0 else next;
          tail = if emptied then 0 else b.tail;
          notified = if emptied then b.notified else if b.closed then b.notified else true;
          count = b.count - 1;
          attributes = set b.attributes b.attributes_head [];
          attributes_head = if emptied then 0 else place;
        },
        filled,
        n,
        queued,
        if ltb n size then some short_buffer else none,
      )

  unfoldable pub attempt : Buffer A → List ℕ → Buffer A × Answer A
  attempt b buf =
      if b.head == b.tail
      then (b, if b.closed then answers buf 0 [] (some eof) else waits)
      else (let (b', filled, n, attributes, error) = consume_packet b buf in
          (b', answers filled n attributes error))

  -- `Read`, up to its first wait, with a read deadline that is exceeded or not.
  unfoldable pub read : Buffer A → Bool → List ℕ → Buffer A × Answer A
  read b expired buf = if expired then (b, answers buf 0 [] (some timeout)) else attempt b buf

  -- The case of `notify` in the `select` that a read waits at: it takes the token, and tries again.
  unfoldable pub take_token : Buffer A → Buffer A
  take_token b = record b { notified = false }

  -- `Read` at a wait, with a read deadline that is exceeded or not: otherwise it goes on waiting, or
  -- receives from `notify`, which a closed channel lets it at once, and comes to its next wait.
  unfoldable pub resume : Buffer A → Bool → List ℕ → Buffer A × Answer A
  unfolding attempt take_token
  resume b expired buf =
      if expired
      then (b, answers buf 0 [] (some timeout))
      else if b.notified || b.closed
      then attempt (take_token b) buf
      else (b, waits)

  unfoldable pub close : Buffer A → Buffer A
  close b = record b { closed = true }

  unfoldable pub set_limit_count : Buffer A → ℤ → Buffer A
  set_limit_count b limit = record b { limit_count = limit }

  unfoldable pub set_limit_size : Buffer A → ℤ → Buffer A
  set_limit_size b limit = record b { limit_size = limit }
