-- ===== src/Packetio/Ring.antt =====
-- The rings of packetio/buffer.go: a slice in which a queue starts anywhere and goes round the end.
pub mod Laws
pub mod Copy
pub mod Slots
use transport.Prelude.{
  ℕ, zero, suc, ◌+◌, ◌-◌, ◌≤◌, ◌<◌, ◌≡◌, min, Bool, leb, if◌then◌else◌, List, [], ◌∷◌, length,
  get_or, take, drop,
}

module _ {A : Type 0} where
  -- Go's `copy(dst[at:], src)`, which stops at the end of either slice.
  unfoldable pub copy_at : List A → ℕ → List A → List A
  copy_at [] at src = []
  copy_at (x ∷ dst) (suc at) src = x ∷ copy_at dst at src
  copy_at (x ∷ dst) zero [] = x ∷ dst
  copy_at (x ∷ dst) zero (y ∷ src) = y ∷ copy_at dst zero src

  -- `writeBytes`, on the ring's slice and its tail.
  unfoldable pub write_bytes : List A → ℕ → List A → List A × ℕ
  write_bytes ring tail src =
      let n = min (length ring - tail) (length src) in
      let once = copy_at ring tail src in
      if leb (length ring) (tail + n)
      then (copy_at once 0 (drop n src), min (length ring) (length src - n))
      else (once, tail + n)

  -- `readBytes`, on the slice and the head: the filled `dst`, the head behind, the bytes copied.
  unfoldable pub read_bytes : List A → ℕ → List A → ℕ → List A × ℕ × ℕ
  read_bytes ring head dst size =
      let copied = min (length dst) size in
      let n = min copied (length ring - head) in
      let filled =
        if leb (head + copied) (length ring)
        then copy_at dst 0 (take copied (drop head ring))
        else copy_at (copy_at dst 0 (take copied (drop head ring))) n (take (copied - n) ring) in
      let next = head + size in
      (filled, if leb (length ring) next then next - length ring else next, copied)

  -- The copying in `grow`, from the head to the tail into a new slice: it, and the bytes copied.
  unfoldable pub unroll : List A → ℕ → ℕ → List A → List A × ℕ
  unroll ring head tail fresh =
      if leb head tail
      then (copy_at fresh 0 (take (tail - head) (drop head ring)), min (length fresh) (tail - head))
      else (let n = min (length fresh) (length ring - head) in
          (
            copy_at (copy_at fresh 0 (drop head ring)) n (take tail ring),
            n + min (length fresh - n) tail,
          ))

-- An index that has gone round a ring of `len` places at most once.
abbrev pub wrap : ℕ → ℕ → ℕ
wrap len i = if leb len i then i - len else i

-- The queue `c` stands in the ring `ring`, from `head` on.
pub record IsRing {A : Type 0} (d : A) (ring : List A) (head : ℕ) (c : List A) : Type 0 where
  pub starts : 0 < head → head < length ring
  pub fits : length c ≤ length ring
  pub entries :
      (i : ℕ) → i < length c → get_or ring (wrap (length ring) (head + i)) d ≡ get_or c i d
