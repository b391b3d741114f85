-- ===== src/Vnet/LossFilter.antt =====
-- vnet/loss_filter.go: dropping chunks at random, or in shuffled blocks with a fixed number of drops.
-- The random source of math/rand is a parameter: `intn` and `shuffle` return the source's next state.
-- The mutex makes each method one atomic step. A handler holds only chances from 0 to 100, since
-- `validate_chance` guards all that reaches it; so they are natural numbers there.
pub mod Block
pub mod Laws
pub mod Options
pub mod Build
mod Tests
use transport.Prelude.{
  ℕ, zero, suc, ◌+◌, ◌-◌, ◌*◌, ◌/◌, Bool, true, false, not, ◌&&◌, ◌==◌, ltb, leb, if◌then◌else◌,
  Option, none, some, List, [], ◌∷◌, length, replicate, set, get_or,
}
use transport.Prelude.Int.{ℤ, pos, negsuc, pos_part, ltb_ℤ}

pub data Error : Type 0 where
  invalid_chance invalid_shuffle_block_size : Error

-- `validateChance`
unfoldable pub validate_chance : ℤ → Bool
validate_chance (pos n) = leb n 100
validate_chance (negsuc n) = false

-- `calculateDropsPerBlock`, for a block size whose product with 100 is an int
unfoldable pub drops_per_block : ℕ → ℕ → ℕ
drops_per_block chance block_size = (chance * block_size + 50) / 100

-- The loop of `shuffleBlock` before the shuffle: the drops of the block move towards the pending
-- number, and the loop ends early when they are there.
unfoldable pub adjust : ℕ → ℕ → List Bool → ℕ × List Bool
adjust pending current [] = (current, [])
adjust pending current (true ∷ bs) =
    if pending == current
    then (current, true ∷ bs)
    else if ltb pending current
    then (let (c, rest) = adjust pending (current - 1) bs in (c, false ∷ rest))
    else (let (c, rest) = adjust pending current bs in (c, true ∷ rest))
adjust pending current (false ∷ bs) =
    if pending == current
    then (current, false ∷ bs)
    else if ltb current pending
    then (let (c, rest) = adjust pending (current + 1) bs in (c, true ∷ rest))
    else (let (c, rest) = adjust pending current bs in (c, false ∷ rest))

-- The loop of `newShuffleLossHandle`, which marks the first entries.
unfoldable pub fill : ℕ → List Bool → List Bool
fill zero block = block
fill (suc n) [] = []
fill (suc n) (b ∷ bs) = true ∷ fill n bs

pub record LossHandle (R : Type 0) : Type 0 where
  pub chance : ℕ
  pub rng : R
  pub shuffle_block_size : ℕ
  pub block_idx : ℕ
  pub shuffled_block : List Bool
  pub current_drops : ℕ
  pub pending_drops : ℕ

unfoldable pub new_random_loss_handle : {R : Type 0} → ℕ → R → LossHandle R
new_random_loss_handle chance rng = record {
  chance = chance;
  rng = rng;
  shuffle_block_size = 0;
  block_idx = 0;
  shuffled_block = [];
  current_drops = 0;
  pending_drops = 0;
}

module _ {R : Type 0} (intn : R → ℕ → ℕ × R) (shuffle : R → List Bool → List Bool × R) where
  unfoldable pub shuffle_block : LossHandle R → LossHandle R
  shuffle_block r =
      let (current, block) = adjust r.pending_drops r.current_drops r.shuffled_block in
      let (shuffled, rng) = shuffle r.rng block in
      record r { rng = rng; block_idx = 0; shuffled_block = shuffled; current_drops = current }

  unfoldable pub new_shuffle_loss_handle : ℕ → ℕ → R → LossHandle R
  new_shuffle_loss_handle chance block_size rng = shuffle_block (record {
    chance = chance;
    rng = rng;
    shuffle_block_size = block_size;
    block_idx = 0;
    shuffled_block = fill (drops_per_block chance block_size) (replicate block_size false);
    current_drops = drops_per_block chance block_size;
    pending_drops = drops_per_block chance block_size;
  })

  -- `get_or` is out of range only where the block is empty; `Laws.IsValid` rules that out.
  unfoldable pub should_drop_shuffle : LossHandle R → LossHandle R × Bool
  should_drop_shuffle r =
      let r' = if r.block_idx == length r.shuffled_block then shuffle_block r else r in
      (record r' { block_idx = r'.block_idx + 1 }, get_or r'.shuffled_block r'.block_idx false)

  unfoldable pub should_drop : LossHandle R → LossHandle R × Bool
  should_drop r =
      if ltb 0 r.shuffle_block_size
      then should_drop_shuffle r
      else (let (n, rng) = intn r.rng 100 in (record r { rng = rng }, ltb n r.chance))

  unfoldable pub set_loss_rate_shuffle : LossHandle R → ℕ → Bool → LossHandle R
  set_loss_rate_shuffle r chance reset =
      let r' = record r {
        chance = chance;
        pending_drops = drops_per_block chance r.shuffle_block_size;
      } in
      if reset then shuffle_block r' else r'

  unfoldable pub set_loss_rate : LossHandle R → ℕ → Bool → LossHandle R
  set_loss_rate r chance reset =
      if ltb 0 r.shuffle_block_size
      then set_loss_rate_shuffle r chance reset
      else record r { chance = chance }

  -- `SetLossRate`
  unfoldable pub set_rate : LossHandle R → ℤ → Bool → LossHandle R × Option Error
  set_rate r chance reset =
      if validate_chance chance
      then (set_loss_rate r (pos_part chance) reset, none)
      else (r, some invalid_chance)

  -- `onInboundChunk`, for a list of chunks in their order: those that reach the wrapped NIC.
  unfoldable pub on_inbound_chunks : {C : Type 0} → LossHandle R → List C → LossHandle R × List C
  on_inbound_chunks r [] = (r, [])
  on_inbound_chunks r (c ∷ cs) =
      let (r', drop) = should_drop r in
      let (last, passed) = on_inbound_chunks r' cs in (last, if drop then passed else c ∷ passed)
