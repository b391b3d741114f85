-- ===== src/Packetio/Ring/Copy.antt =====
-- Copying a queue out of its ring.
use transport.Prelude.{
  ℕ, ◌+◌, ◌-◌, ◌≤◌, ◌<◌, ◌≡◌, refl, min, List, ◌++◌, length, get_or, take, drop, length-append,
  length-drop, length-take, arith,
}
use transport.Packetio.Ring.{copy_at, read_bytes, unroll, wrap, IsRing}
use transport.Packetio.Ring.Laws.{
  length-copy_at, get_or-copy_at, get_or-append, get_or-drop, get_or-take, get_or_ext,
}

module _ {A : Type 0} (d : A) where
  length-filled :
      (ring : List A) (head : ℕ) (dst : List A) (size : ℕ)
      → length (read_bytes ring head dst size).0 ≡ length dst
  unfolding read_bytes
  length-filled ring head dst size =
      let copied = min (length dst) size in
      let n = min copied (length ring - head) in
      let front = take copied (drop head ring) in
      ground (
        arith,
        length-copy_at dst 0 front,
        length-copy_at (copy_at dst 0 front) n (take (copied - n) ring),
      )

  get_or-read_bytes :
      (ring : List A) (head : ℕ) (c dst : List A) (size i : ℕ)
      → IsRing d ring head c
      → size ≤ length c
      → i < length dst
      → get_or (read_bytes ring head dst size).0 i d
        ≡ get_or (take (min (length dst) size) c ++ drop (min (length dst) size) dst) i d
  unfolding read_bytes
  get_or-read_bytes ring head c dst size i r h l =
      let copied = min (length dst) size in
      let n = min copied (length ring - head) in
      let front = take copied (drop head ring) in
      ground (
        arith,
        r.starts,
        r.fits,
        r.entries i,
        length-copy_at dst 0 front,
        get_or-copy_at dst 0 front i d,
        get_or-copy_at (copy_at dst 0 front) n (take (copied - n) ring) i d,
        length-take copied (drop head ring),
        length-drop head ring,
        length-take (copied - n) ring,
        get_or-take copied (drop head ring) i d,
        get_or-take (copied - n) ring (i - n) d,
        get_or-drop head ring i d,
        get_or-append (take copied c) (drop copied dst) i d,
        length-take copied c,
        get_or-take copied c i d,
        get_or-drop copied dst (i - copied) d,
      )

  -- The bytes that are read are the first ones of the queue; the rest of `dst` stays.
  pub read_bytes-IsRing :
      (ring : List A) (head : ℕ) (c dst : List A) (size : ℕ)
      → IsRing d ring head c
      → size ≤ length c
      → ((read_bytes ring head dst size).0
          ≡ take (min (length dst) size) c ++ drop (min (length dst) size) dst)
        × ((read_bytes ring head dst size).1 ≡ wrap (length ring) (head + size))
        × ((read_bytes ring head dst size).2 ≡ min (length dst) size)
  read_bytes-IsRing ring head c dst size r h = (
    get_or_ext (read_bytes ring head dst size).0
        (take (min (length dst) size) c ++ drop (min (length dst) size) dst) d
        (omega (
          arith,
          length-filled ring head dst size,
          length-append (take (min (length dst) size) c) (drop (min (length dst) size) dst),
          length-take (min (length dst) size) c,
          length-drop (min (length dst) size) dst,
        ))
        (λ i l.
          get_or-read_bytes ring head c dst size i r h
            (omega (arith, length-filled ring head dst size))),
    unfold read_bytes in refl,
    unfold read_bytes in refl,
  )

  length-unrolled :
      (ring : List A) (head tail : ℕ) (fresh : List A)
      → length (unroll ring head tail fresh).0 ≡ length fresh
  unfolding unroll
  length-unrolled ring head tail fresh =
      let n = min (length fresh) (length ring - head) in
      let once = copy_at fresh 0 (drop head ring) in
      ground (
        arith,
        length-copy_at fresh 0 (take (tail - head) (drop head ring)),
        length-copy_at fresh 0 (drop head ring),
        length-copy_at once n (take tail ring),
      )

  get_or-unroll :
      (ring : List A) (head tail : ℕ) (c fresh : List A) (i : ℕ)
      → IsRing d ring head c
      → tail ≡ wrap (length ring) (head + length c)
      → (0 < length ring → length c < length ring)
      → length c ≤ length fresh
      → i < length c
      → get_or (unroll ring head tail fresh).0 i d ≡ get_or c i d
  unfolding unroll
  get_or-unroll ring head tail c fresh i r e f h l =
      let n = min (length fresh) (length ring - head) in
      let once = copy_at fresh 0 (drop head ring) in
      ground (
        arith,
        r.starts,
        r.fits,
        r.entries i,
        length-copy_at fresh 0 (drop head ring),
        get_or-copy_at fresh 0 (take (tail - head) (drop head ring)) i d,
        get_or-copy_at fresh 0 (drop head ring) i d,
        get_or-copy_at once n (take tail ring) i d,
        length-take (tail - head) (drop head ring),
        length-drop head ring,
        length-take tail ring,
        get_or-take (tail - head) (drop head ring) i d,
        get_or-take tail ring (i - n) d,
        get_or-drop head ring i d,
      )

  -- A queue that is copied into a new slice stands at its beginning.
  pub unroll-IsRing :
      (ring : List A) (head tail : ℕ) (c fresh : List A)
      → IsRing d ring head c
      → tail ≡ wrap (length ring) (head + length c)
      → (0 < length ring → length c < length ring)
      → length c ≤ length fresh
      → IsRing d (unroll ring head tail fresh).0 0 c
        × ((unroll ring head tail fresh).1 ≡ length c)
        × (length (unroll ring head tail fresh).0 ≡ length fresh)
  unroll-IsRing ring head tail c fresh r e f h =
      let same = length-unrolled ring head tail fresh in
      (
        record {
          starts = λ p. absurd (omega arith);
          fits = omega (arith, same);
          entries = λ i l. ground (arith, same, get_or-unroll ring head tail c fresh i r e f h l);
        },
        unfold unroll in ground (arith, r.starts, r.fits),
        same,
      )
