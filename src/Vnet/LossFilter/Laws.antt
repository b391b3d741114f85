-- ===== src/Vnet/LossFilter/Laws.antt =====
-- The invariant of the loss handler in shuffle mode, and the number of drops in a block.
use transport.Prelude.{
  ℕ, ◌+◌, ◌≤◌, ◌<◌, ◌≡◌, refl, ap, sym, ◌∙◌, Bool, true, false, ◌==◌, none, some, List, [], ◌∷◌,
  length, replicate, length-replicate, get_or, arith, Bool-cases, lt→ltb, inl, inr,
}
use transport.Prelude.Int.{ℤ, pos, negsuc, pos_part}
use transport.Vnet.LossFilter.{
  Error, LossHandle, drops_per_block, adjust, fill, validate_chance, shuffle_block,
  new_shuffle_loss_handle, should_drop_shuffle, should_drop, set_loss_rate_shuffle, set_loss_rate,
  set_rate, on_inbound_chunks,
}
use transport.Vnet.LossFilter.Block.{
  drops, length-adjust, drops-adjust, length-fill, drops-fill, drops_per_block-le, tally,
  tally-drops,
}

-- A handler in shuffle mode: a block of the given size whose drops are counted, a pending number
-- of drops that fits, and a position in the block or at its end.
pub record IsValid {R : Type 0} (r : LossHandle R) : Type 0 where
  pub shuffles : 0 < r.shuffle_block_size
  pub full : length r.shuffled_block ≡ r.shuffle_block_size
  pub counted : r.current_drops ≡ drops r.shuffled_block
  pub pending : r.pending_drops ≤ r.shuffle_block_size
  pub position : r.block_idx ≤ r.shuffle_block_size

pub allowed : (chance : ℤ) → validate_chance chance ≡ true → pos_part chance ≤ 100
unfolding validate_chance
allowed (pos n) h = ground arith
allowed (negsuc n) h = omega arith

-- What `rand.Shuffle` documents, for a block: the entries are permuted.
pub record Permutes {R : Type 0} (shuffle : R → List Bool → List Bool × R) : Type 0 where
  pub same_drops : (rng : R) (bs : List Bool) → drops (shuffle rng bs).0 ≡ drops bs
  pub same_length : (rng : R) (bs : List Bool) → length (shuffle rng bs).0 ≡ length bs

module _ {R : Type 0} (intn : R → ℕ → ℕ × R) (shuffle : R → List Bool → List Bool × R)
    (permutes : Permutes shuffle) where
  shuffle_block_lem :
      (r : LossHandle R)
      → IsValid r
      → IsValid (shuffle_block intn shuffle r)
        × ((shuffle_block intn shuffle r).current_drops ≡ r.pending_drops)
        × ((shuffle_block intn shuffle r).block_idx ≡ 0)
  unfolding shuffle_block
  shuffle_block_lem r v =
      let block = r.shuffled_block in
      let reached = drops-adjust r.pending_drops block (omega (arith, v.pending, v.full)) in
      let start = ap (λ n. adjust r.pending_drops n block) v.counted in
      let adjusted = (adjust r.pending_drops r.current_drops block).1 in
      (
        record {
          shuffles = v.shuffles;
          full =
              permutes.same_length r.rng adjusted
              ∙ length-adjust r.pending_drops r.current_drops block
              ∙ v.full;
          counted = rw start (
              ground (
                arith,
                reached,
                permutes.same_drops r.rng (adjust r.pending_drops (drops block) block).1,
              ));
          pending = v.pending;
          position = omega arith;
        },
        rw start reached.0,
        refl,
      )

  should_drop_boundary :
      (r : LossHandle R)
      → IsValid r
      → r.block_idx ≡ r.shuffle_block_size
      → should_drop intn shuffle r ≡ should_drop intn shuffle (shuffle_block intn shuffle r)
  unfolding should_drop should_drop_shuffle
  should_drop_boundary r v e =
      let s = shuffle_block_lem r v in
      let at_end : (r.block_idx == length r.shuffled_block) ≡ true = ground (arith, v.full) in
      ground (arith, at_end, v.shuffles, s.0.shuffles, s.0.full, s.2)

  should_drop_inside :
      (r : LossHandle R)
      → IsValid r
      → r.block_idx < r.shuffle_block_size
      → should_drop intn shuffle r
        ≡ (record r { block_idx = r.block_idx + 1 }, get_or r.shuffled_block r.block_idx false)
  unfolding should_drop should_drop_shuffle
  should_drop_inside r v h = ground (arith, v.shuffles, v.full)

  inside-IsValid :
      (r : LossHandle R)
      → IsValid r
      → r.block_idx < r.shuffle_block_size
      → IsValid (record r { block_idx = r.block_idx + 1 })
  inside-IsValid r v h = record {
    shuffles = v.shuffles;
    full = v.full;
    counted = v.counted;
    pending = v.pending;
    position = omega arith;
  }

  should_drop-IsValid : (r : LossHandle R) → IsValid r → IsValid (should_drop intn shuffle r).0
  should_drop-IsValid r v = elim (Bool-cases (r.block_idx == r.shuffle_block_size)) [
    | inl at_end ↦
        let s = shuffle_block_lem r v in
        let room : (shuffle_block intn shuffle r).block_idx
            < (shuffle_block intn shuffle r).shuffle_block_size =
          omega (arith, s.2, s.0.shuffles) in
        rw
          (
            should_drop_boundary r v (ground arith),
            should_drop_inside (shuffle_block intn shuffle r) s.0 room,
          )
          (inside-IsValid (shuffle_block intn shuffle r) s.0 room)
    | inr before ↦
        let room : r.block_idx < r.shuffle_block_size = ground (arith, v.position) in
        rw (should_drop_inside r v room) (inside-IsValid r v room)
  ]

  -- Within a block the chunks that are dropped are the marked ones.
  passed_inside :
      {C : Type 0} (cs : List C) (r : LossHandle R)
      → IsValid r
      → r.block_idx + length cs ≤ r.shuffle_block_size
      → length (on_inbound_chunks intn shuffle r cs).1
          + tally r.shuffled_block r.block_idx (length cs)
        ≡ length cs
  unfolding on_inbound_chunks tally
  passed_inside [] r v h = refl
  passed_inside (c ∷ cs) r v h =
      let room : r.block_idx < r.shuffle_block_size = omega arith in
      let next : LossHandle R = record r { block_idx = r.block_idx + 1 } in
      rw (should_drop_inside r v room)
        (ground (arith, passed_inside cs next (inside-IsValid r v room) (omega arith)))

  -- A whole block, from its start.
  passed_block :
      {C : Type 0} (cs : List C) (r : LossHandle R)
      → IsValid r
      → r.block_idx ≡ 0
      → length cs ≡ r.shuffle_block_size
      → length (on_inbound_chunks intn shuffle r cs).1 + r.current_drops ≡ r.shuffle_block_size
  passed_block cs r v e h =
      let all : tally r.shuffled_block r.block_idx (length cs) ≡ drops r.shuffled_block =
        rw (e, h, ← v.full) (tally-drops r.shuffled_block) in
      omega (arith, passed_inside cs r v (omega arith), all, v.counted)

  on_inbound_chunks_boundary :
      {C : Type 0} (c : C) (cs : List C) (r : LossHandle R)
      → IsValid r
      → r.block_idx ≡ r.shuffle_block_size
      → on_inbound_chunks intn shuffle r (c ∷ cs)
        ≡ on_inbound_chunks intn shuffle (shuffle_block intn shuffle r) (c ∷ cs)
  unfolding on_inbound_chunks
  on_inbound_chunks_boundary c cs r v e = rw (should_drop_boundary r v e)

  size-shuffle_block :
      (r : LossHandle R) → (shuffle_block intn shuffle r).shuffle_block_size ≡ r.shuffle_block_size
  unfolding shuffle_block
  size-shuffle_block r = refl

  -- Of every block of `shuffle_block_size` chunks that the filter gets when its last block is used
  -- up, exactly the pending number of drops is dropped, and the rest passes.
  pub passed_next_block :
      {C : Type 0} (cs : List C) (r : LossHandle R)
      → IsValid r
      → r.block_idx ≡ r.shuffle_block_size
      → length cs ≡ r.shuffle_block_size
      → length (on_inbound_chunks intn shuffle r cs).1 + r.pending_drops ≡ r.shuffle_block_size
  passed_next_block [] r v e h = absurd (omega (arith, v.shuffles))
  passed_next_block (c ∷ cs) r v e h =
      let s = shuffle_block_lem r v in
      let same = size-shuffle_block r in
      let whole = passed_block (c ∷ cs) (shuffle_block intn shuffle r) s.0 s.2 (h ∙ sym same) in
      rw (on_inbound_chunks_boundary c cs r v e) (omega (arith, whole, s.1, same))

  -- A new handler drops exactly the rounded share of its first block, and it is valid.
  pub new_shuffle_loss_handle_lem :
      {C : Type 0} (chance block_size : ℕ) (rng : R) (cs : List C)
      → chance ≤ 100
      → 0 < block_size
      → length cs ≡ block_size
      → IsValid (new_shuffle_loss_handle intn shuffle chance block_size rng)
        × (length
                (on_inbound_chunks intn shuffle
                  (new_shuffle_loss_handle intn shuffle chance block_size rng)
                  cs).1
              + drops_per_block chance block_size
            ≡ block_size)
  unfolding new_shuffle_loss_handle
  new_shuffle_loss_handle_lem chance size rng cs hc hs hl =
      let s = shuffle_block_lem start start-IsValid in
      let same = size-shuffle_block start in
      let whole = passed_block cs (shuffle_block intn shuffle start) s.0 s.2 (hl ∙ sym same) in
      (s.0, omega (arith, whole, s.1, same))
    where
      share : ℕ
      share = drops_per_block chance size

      start : LossHandle R
      start = record {
        chance = chance;
        rng = rng;
        shuffle_block_size = size;
        block_idx = 0;
        shuffled_block = fill share (replicate size false);
        current_drops = share;
        pending_drops = share;
      }

      start-IsValid : IsValid start
      start-IsValid = record {
        shuffles = hs;
        full = length-fill share (replicate size false) ∙ length-replicate size false;
        counted = sym (drops-fill share size (drops_per_block-le chance size hc));
        pending = drops_per_block-le chance size hc;
        position = omega arith;
      }

  pub set_loss_rate_shuffle_lem :
      (r : LossHandle R) (chance : ℕ) (reset : Bool)
      → IsValid r
      → chance ≤ 100
      → IsValid (set_loss_rate_shuffle intn shuffle r chance reset)
        × ((set_loss_rate_shuffle intn shuffle r chance reset).pending_drops
            ≡ drops_per_block chance r.shuffle_block_size)
        × (reset ≡ true
            → (set_loss_rate_shuffle intn shuffle r chance reset).current_drops
              ≡ drops_per_block chance r.shuffle_block_size)
  unfolding set_loss_rate_shuffle
  set_loss_rate_shuffle_lem r chance reset v h = by_reset reset
    where
      share : ℕ
      share = drops_per_block chance r.shuffle_block_size

      waiting : LossHandle R
      waiting = record r { chance = chance; pending_drops = share }

      waiting-IsValid : IsValid waiting
      waiting-IsValid = record {
        shuffles = v.shuffles;
        full = v.full;
        counted = v.counted;
        pending = drops_per_block-le chance r.shuffle_block_size h;
        position = v.position;
      }

      by_reset :
          (b : Bool)
          → IsValid (set_loss_rate_shuffle intn shuffle r chance b)
            × ((set_loss_rate_shuffle intn shuffle r chance b).pending_drops ≡ share)
            × (b ≡ true → (set_loss_rate_shuffle intn shuffle r chance b).current_drops ≡ share)
      by_reset true =
          let s = shuffle_block_lem waiting waiting-IsValid in
          (s.0, unfold shuffle_block in refl, λ _. s.1)
      by_reset false = (waiting-IsValid, refl, λ e. cc)

  -- Every method keeps a handler in shuffle mode valid. `SetLossRate` makes the share of an allowed
  -- chance the pending number of drops, and the current number at once if asked to reset; any other
  -- chance is an error and changes nothing.
  pub set_rate_lem :
      (r : LossHandle R) (chance : ℤ) (reset : Bool)
      → IsValid r
      → IsValid (should_drop intn shuffle r).0
        × IsValid (set_rate intn shuffle r chance reset).0
        × (validate_chance chance ≡ true
            → ((set_rate intn shuffle r chance reset).1 ≡ none)
              × ((set_rate intn shuffle r chance reset).0.pending_drops
                  ≡ drops_per_block (pos_part chance) r.shuffle_block_size)
              × (reset ≡ true
                  → (set_rate intn shuffle r chance reset).0.current_drops
                    ≡ drops_per_block (pos_part chance) r.shuffle_block_size))
        × (validate_chance chance ≡ false
            → set_rate intn shuffle r chance reset ≡ (r, some Error.invalid_chance))
  unfolding set_rate set_loss_rate
  set_rate_lem r chance reset v = elim (Bool-cases (validate_chance chance)) [
    | inr bad ↦ rw bad (should_drop-IsValid r v, v, λ e. cc, λ e. refl)
    | inl good ↦
        let s = set_loss_rate_shuffle_lem r (pos_part chance) reset v (allowed chance good) in
        rw (good, lt→ltb 0 r.shuffle_block_size v.shuffles)
          (should_drop-IsValid r v, s.0, λ e. (refl, s.1, s.2), λ e. cc)
  ]
