-- ===== src/Packetio/Ring/Laws.antt =====
-- Reading and writing a ring.
use transport.Prelude.{
  ℕ, zero, suc, ◌+◌, ◌-◌, ◌≤◌, ◌<◌, ◌≡◌, refl, ap, ◌∙◌, min, ltb, if◌then◌else◌, List, [], ◌∷◌,
  ◌++◌, length, get_or, take, drop, length-append, length-drop, arith,
}
use transport.Packetio.Ring.{copy_at, write_bytes, wrap, IsRing}

module _ {A : Type 0} where
  pub length-copy_at :
      (dst : List A) (at : ℕ) (src : List A) → length (copy_at dst at src) ≡ length dst
  unfolding copy_at
  length-copy_at [] at src = refl
  length-copy_at (x ∷ dst) (suc at) src = ap suc (length-copy_at dst at src)
  length-copy_at (x ∷ dst) zero [] = refl
  length-copy_at (x ∷ dst) zero (y ∷ src) = ap suc (length-copy_at dst zero src)

  pub get_or-copy_at :
      (dst : List A) (at : ℕ) (src : List A) (i : ℕ) (d : A)
      → i < length dst
      → get_or (copy_at dst at src) i d ≡ (
          if ltb i at
          then get_or dst i d
          else if ltb i (at + length src)
          then get_or src (i - at) d
          else get_or dst i d)
  unfolding copy_at
  get_or-copy_at [] at src i d h = absurd (omega arith)
  get_or-copy_at (x ∷ dst) (suc at) src zero d h = ground arith
  get_or-copy_at (x ∷ dst) (suc at) src (suc i) d h =
      ground (arith, get_or-copy_at dst at src i d (omega arith))
  get_or-copy_at (x ∷ dst) zero [] i d h = ground arith
  get_or-copy_at (x ∷ dst) zero (y ∷ src) zero d h = ground arith
  get_or-copy_at (x ∷ dst) zero (y ∷ src) (suc i) d h =
      ground (arith, get_or-copy_at dst zero src i d (omega arith))

  pub get_or-append :
      (xs ys : List A) (i : ℕ) (d : A)
      → get_or (xs ++ ys) i d
        ≡ (if ltb i (length xs) then get_or xs i d else get_or ys (i - length xs) d)
  get_or-append [] ys i d = ground arith
  get_or-append (x ∷ xs) ys zero d = ground arith
  get_or-append (x ∷ xs) ys (suc i) d = ground (arith, get_or-append xs ys i d)

  pub get_or-drop :
      (n : ℕ) (xs : List A) (i : ℕ) (d : A) → get_or (drop n xs) i d ≡ get_or xs (n + i) d
  get_or-drop zero xs i d = let e : i ≡ 0 + i = omega arith in ap (λ j. get_or xs j d) e
  get_or-drop (suc n) [] i d = refl
  get_or-drop (suc n) (x ∷ xs) i d =
      let e : suc (n + i) ≡ suc n + i = omega arith in
      get_or-drop n xs i d ∙ ap (λ j. get_or (x ∷ xs) j d) e

  pub get_or-take :
      (n : ℕ) (xs : List A) (i : ℕ) (d : A) → i < n → get_or (take n xs) i d ≡ get_or xs i d
  get_or-take zero xs i d h = absurd (omega arith)
  get_or-take (suc n) [] i d h = refl
  get_or-take (suc n) (x ∷ xs) zero d h = refl
  get_or-take (suc n) (x ∷ xs) (suc i) d h = get_or-take n xs i d (omega arith)

  pub get_or_ext :
      (xs ys : List A) (d : A)
      → length xs ≡ length ys
      → ((i : ℕ) → i < length xs → get_or xs i d ≡ get_or ys i d)
      → xs ≡ ys
  get_or_ext [] [] d e h = refl
  get_or_ext [] (y ∷ ys) d e h = absurd (omega arith)
  get_or_ext (x ∷ xs) [] d e h = absurd (omega arith)
  get_or_ext (x ∷ xs) (y ∷ ys) d e h =
      let first : x ≡ y = h 0 (omega arith) in
      let rest : xs ≡ ys = get_or_ext xs ys d (omega arith) (λ i l. h (suc i) (omega arith)) in cc

module _ {A : Type 0} (d : A) where
  length-write_bytes :
      (ring : List A) (tail : ℕ) (src : List A) → length (write_bytes ring tail src).0 ≡ length ring
  unfolding write_bytes
  length-write_bytes ring tail src =
      let n = min (length ring - tail) (length src) in
      let once = copy_at ring tail src in
      ground (arith, length-copy_at ring tail src, length-copy_at once 0 (drop n src))

  -- A place of the ring after a write.
  get_or-write_bytes :
      (ring : List A) (tail : ℕ) (src : List A) (j : ℕ)
      → tail < length ring
      → length src < length ring
      → j < length ring
      → get_or (write_bytes ring tail src).0 j d ≡ (
          if ltb (j + length ring) (tail + length src)
          then get_or src (j + length ring - tail) d
          else get_or (copy_at ring tail src) j d)
  unfolding write_bytes
  get_or-write_bytes ring tail src j ht hs hj =
      let n = min (length ring - tail) (length src) in
      let once = copy_at ring tail src in
      ground (
        arith,
        length-copy_at ring tail src,
        get_or-copy_at once 0 (drop n src) j d,
        get_or-drop n src j d,
        length-drop n src,
      )

  tail-write_bytes :
      (ring : List A) (tail : ℕ) (src : List A)
      → tail < length ring
      → length src < length ring
      → (write_bytes ring tail src).1 ≡ wrap (length ring) (tail + length src)
  unfolding write_bytes
  tail-write_bytes ring tail src ht hs = ground arith

  -- Writing behind the queue puts the bytes at its end, if one place stays free.
  pub write_bytes-IsRing :
      (ring : List A) (head tail : ℕ) (c src : List A)
      → IsRing d ring head c
      → tail ≡ wrap (length ring) (head + length c)
      → length c + length src < length ring
      → IsRing d (write_bytes ring tail src).0 head (c ++ src)
        × ((write_bytes ring tail src).1 ≡ wrap (length ring) (head + length (c ++ src)))
        × (length (write_bytes ring tail src).0 ≡ length ring)
  write_bytes-IsRing ring head tail c src r e h =
      let same = length-write_bytes ring tail src in
      let inside : tail < length ring = ground (arith, r.starts) in
      (
        record {
          starts = λ p. omega (arith, r.starts p, same);
          fits = omega (arith, same, length-append c src);
          entries = λ i l. entry same inside i l;
        },
        ground (
          arith,
          tail-write_bytes ring tail src inside (omega arith),
          length-append c src,
          r.starts,
        ),
        same,
      )
    where
      entry :
          length (write_bytes ring tail src).0 ≡ length ring
          → tail < length ring
          → (i : ℕ) → i < length (c ++ src)
          → get_or
              (write_bytes ring tail src).0
              (wrap (length (write_bytes ring tail src).0) (head + i))
              d
            ≡ get_or (c ++ src) i d
      entry same inside i l =
          let j = wrap (length ring) (head + i) in
          let within : j < length ring = ground (arith, r.starts, length-append c src) in
          rw same (
            ground (
              arith,
              r.starts,
              length-append c src,
              get_or-append c src i d,
              get_or-write_bytes ring tail src j inside (omega arith) within,
              get_or-copy_at ring tail src j d within,
              r.entries i,
            ))

  -- Leaving `n` entries behind.
  pub skip-IsRing :
      (ring : List A) (head n : ℕ) (c : List A)
      → IsRing d ring head c
      → n ≤ length c
      → IsRing d ring (wrap (length ring) (head + n)) (drop n c)
  skip-IsRing ring head n c r h = record {
    starts = λ p. ground (arith, r.starts, r.fits);
    fits = omega (arith, r.fits, length-drop n c);
    entries = λ i l.
        ground (arith, r.starts, r.fits, r.entries (n + i), length-drop n c, get_or-drop n c i d);
  }
