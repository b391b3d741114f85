-- ===== src/Vnet/LossFilter/Block.antt =====
-- How the loop of `shuffleBlock` brings a block to the pending number of drops.
use transport.Prelude.{
  ℕ, zero, suc, ◌+◌, ◌-◌, ◌*◌, ◌≤◌, ◌≡◌, refl, ap, Bool, true, false, if◌then◌else◌, List, [], ◌∷◌,
  length, replicate, get_or, arith,
}
use transport.Vnet.LossFilter.{drops_per_block, adjust, fill}

-- The entries that drop a packet.
unfoldable pub drops : List Bool → ℕ
drops [] = 0
drops (true ∷ bs) = suc (drops bs)
drops (false ∷ bs) = drops bs

pub drops-le-length : (bs : List Bool) → drops bs ≤ length bs
unfolding drops
drops-le-length [] = omega arith
drops-le-length (true ∷ bs) = omega (arith, drops-le-length bs)
drops-le-length (false ∷ bs) = omega (arith, drops-le-length bs)

pub length-adjust :
    (pending current : ℕ) (bs : List Bool) → length (adjust pending current bs).1 ≡ length bs
unfolding adjust
length-adjust p c [] = refl
length-adjust p c (true ∷ bs) = ground (arith, length-adjust p (c - 1) bs, length-adjust p c bs)
length-adjust p c (false ∷ bs) = ground (arith, length-adjust p (c + 1) bs, length-adjust p c bs)

-- The count that the loop keeps is exact, and it reaches the pending number: `before` counts the
-- drops in front of the entries that are still to come.
adjust_from :
    (pending current before : ℕ) (bs : List Bool)
    → current ≡ before + drops bs
    → pending ≤ before + length bs
    → before ≤ pending
    → ((adjust pending current bs).0 ≡ pending)
      × (before + drops (adjust pending current bs).1 ≡ pending)
unfolding adjust drops
adjust_from p c k [] e h l = ground arith
adjust_from p c k (true ∷ bs) e h l =
    ground (arith, drops-le-length bs, adjust_from p (c - 1) k bs, adjust_from p c (k + 1) bs)
adjust_from p c k (false ∷ bs) e h l =
    ground (arith, drops-le-length bs, adjust_from p (c + 1) (k + 1) bs, adjust_from p c k bs)

-- From an exact count the loop reaches the pending number of drops, if the block has room for it.
pub drops-adjust :
    (pending : ℕ) (bs : List Bool)
    → pending ≤ length bs
    → ((adjust pending (drops bs) bs).0 ≡ pending)
      × (drops (adjust pending (drops bs) bs).1 ≡ pending)
drops-adjust pending bs h =
    let reached = adjust_from pending (drops bs) 0 bs (omega arith) (omega arith) (omega arith) in
    (reached.0, omega (arith, reached.1))

pub length-fill : (n : ℕ) (bs : List Bool) → length (fill n bs) ≡ length bs
unfolding fill
length-fill zero bs = refl
length-fill (suc n) [] = refl
length-fill (suc n) (b ∷ bs) = ap suc (length-fill n bs)

-- A new block has as many drops as have been marked.
pub drops-fill : (n size : ℕ) → n ≤ size → drops (fill n (replicate size false)) ≡ n
unfolding fill drops
drops-fill zero zero h = refl
drops-fill zero (suc size) h = drops-fill zero size (omega arith)
drops-fill (suc n) zero h = absurd (omega arith)
drops-fill (suc n) (suc size) h = ap suc (drops-fill n size (omega arith))

-- With a chance of at most 100 percent a block has room for its drops.
pub drops_per_block-le : (chance size : ℕ) → chance ≤ 100 → drops_per_block chance size ≤ size
unfolding drops_per_block
drops_per_block-le chance size h = omega (arith, product)
  where
    product : chance * size ≤ 100 * size
    product = grind arith

-- The drops among the n entries from index i on.
unfoldable pub tally : List Bool → ℕ → ℕ → ℕ
tally block i zero = 0
tally block i (suc n) = (if get_or block i false then 1 else 0) + tally block (i + 1) n

tally-cons : (b : Bool) (bs : List Bool) (i n : ℕ) → tally (b ∷ bs) (suc i) n ≡ tally bs i n
unfolding tally
tally-cons b bs i zero = refl
tally-cons b bs i (suc n) =
    let next : suc i + 1 ≡ suc (i + 1) = omega arith in rw (next, tally-cons b bs (i + 1) n)

pub tally-drops : (bs : List Bool) → tally bs 0 (length bs) ≡ drops bs
unfolding tally drops
tally-drops [] = refl
tally-drops (true ∷ bs) = ground (arith, tally-cons true bs 0 (length bs), tally-drops bs)
tally-drops (false ∷ bs) = ground (arith, tally-cons false bs 0 (length bs), tally-drops bs)
