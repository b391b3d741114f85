-- ===== src/Packetio/Ring/Slots.antt =====
-- A ring whose entries are written and cleared one at a time.
use transport.Prelude.{
  ℕ, zero, suc, ◌+◌, ◌-◌, ◌≤◌, ◌<◌, ◌≡◌, ◌∙◌, min, ◌==◌, if◌then◌else◌, List, [], ◌∷◌, ◌++◌, length,
  get_or, set, take, drop, length-append, length-drop, length-take, length-set, arith,
}
use transport.Packetio.Ring.{copy_at, wrap, IsRing}
use transport.Packetio.Ring.Laws.{
  length-copy_at, get_or-copy_at, get_or-append, get_or-drop, get_or-take,
}

module _ {A : Type 0} (d : A) where
  get_or-set :
      (xs : List A) (i j : ℕ) (v : A)
      → i < length xs
      → get_or (set xs i v) j d ≡ (if j == i then v else get_or xs j d)
  get_or-set [] i j v h = absurd (omega arith)
  get_or-set (x ∷ xs) zero zero v h = ground arith
  get_or-set (x ∷ xs) zero (suc j) v h = ground arith
  get_or-set (x ∷ xs) (suc i) zero v h = ground arith
  get_or-set (x ∷ xs) (suc i) (suc j) v h = ground (arith, get_or-set xs i j v (omega arith))

  -- Writing the place behind the queue.
  pub set-IsRing :
      (ring : List A) (head : ℕ) (c : List A) (v : A)
      → IsRing d ring head c
      → length c < length ring
      → IsRing d (set ring (wrap (length ring) (head + length c)) v) head (c ++ (v ∷ []))
  set-IsRing ring head c v r h =
      let place = wrap (length ring) (head + length c) in
      let inside : place < length ring = ground (arith, r.starts) in
      let same = length-set ring place v in
      let one = length-append c (v ∷ []) in
      record {
        starts = λ p. omega (arith, r.starts p, same);
        fits = omega (arith, same, one);
        entries = λ i l. rw same (
            ground (
              arith,
              r.starts,
              r.entries i,
              one,
              get_or-append c (v ∷ []) i d,
              get_or-set ring place (wrap (length ring) (head + i)) v inside,
            ));
      }

  -- Clearing the place at the head of the queue, and leaving it behind.
  pub clear-IsRing :
      (ring : List A) (head : ℕ) (x v : A) (c : List A)
      → IsRing d ring head (x ∷ c)
      → (get_or ring head d ≡ x) × IsRing d (set ring head v) (wrap (length ring) (head + 1)) c
  clear-IsRing ring head x v c r =
      let inside : head < length ring = ground (arith, r.starts, r.fits) in
      let same = length-set ring head v in
      let first = r.entries 0 (omega arith) in
      (
        ground (arith, first),
        record {
          starts = λ p. ground (arith, same);
          fits = omega (arith, same, r.fits);
          entries = λ i l. rw same (
              ground (
                arith,
                r.fits,
                r.entries (i + 1) (omega arith),
                get_or-set ring head (wrap (length ring) (wrap (length ring) (head + 1) + i)) v
                    inside,
              ));
        },
      )

  -- A full ring that is copied into a larger slice.
  pub rotate-IsRing :
      (ring : List A) (head : ℕ) (c fresh : List A)
      → IsRing d ring head c
      → length c ≡ length ring
      → length ring ≤ length fresh
      → IsRing d
          (copy_at
            (copy_at fresh 0 (drop head ring))
            (min (length fresh) (length ring - head))
            (take head ring))
          0
          c
  rotate-IsRing ring head c fresh r f h =
      let n = min (length fresh) (length ring - head) in
      let once = copy_at fresh 0 (drop head ring) in
      let same : length (copy_at once n (take head ring)) ≡ length fresh =
        length-copy_at once n (take head ring) ∙ length-copy_at fresh 0 (drop head ring) in
      record {
        starts = λ p. absurd (omega arith);
        fits = omega (arith, same);
        entries = λ i l. rw same (
            ground (
              arith,
              r.starts,
              r.entries i l,
              length-copy_at fresh 0 (drop head ring),
              length-drop head ring,
              length-take head ring,
              get_or-copy_at once n (take head ring) i d,
              get_or-copy_at fresh 0 (drop head ring) i d,
              get_or-drop head ring i d,
              get_or-take head ring (i - n) d,
            ));
      }
