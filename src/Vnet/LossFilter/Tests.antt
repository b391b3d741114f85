-- ===== src/Vnet/LossFilter/Tests.antt =====
-- The loss handler with a random source that turns blocks round, and its theorems there.
use transport.Prelude.{
  Option, ℕ, ◌+◌, ◌%◌, ◌≡◌, refl, true, false, none, some, Bool, List, [], ◌∷◌, length, arith,
}
use transport.Prelude.Int.{pos}
use transport.Vnet.LossFilter.{
  LossHandle, drops_per_block, adjust, fill, shuffle_block, new_shuffle_loss_handle,
  new_random_loss_handle, should_drop, should_drop_shuffle, on_inbound_chunks,
}
use transport.Vnet.LossFilter.Options.{LossFilterOption}
use transport.Vnet.LossFilter.Block.{drops}
use transport.Vnet.LossFilter.Laws.{IsValid, Permutes, passed_next_block}

-- A source that counts its calls: it gives the count, and swaps the first two entries of a block.
abbrev counted : ℕ → ℕ → ℕ × ℕ
counted rng n = (rng % n, rng + 1)

abbrev swap_first : List Bool → List Bool
swap_first (a ∷ b ∷ bs) = b ∷ a ∷ bs
swap_first (a ∷ []) = a ∷ []
swap_first [] = []

abbrev swapped : ℕ → List Bool → List Bool × ℕ
swapped rng bs = (swap_first bs, rng + 1)

swap-drops : (bs : List Bool) → drops (swap_first bs) ≡ drops bs
unfolding drops
swap-drops [] = refl
swap-drops (a ∷ []) = refl
swap-drops (true ∷ true ∷ bs) = refl
swap-drops (true ∷ false ∷ bs) = refl
swap-drops (false ∷ true ∷ bs) = refl
swap-drops (false ∷ false ∷ bs) = refl

swap-length : (bs : List Bool) → length (swap_first bs) ≡ length bs
swap-length [] = refl
swap-length (a ∷ []) = refl
swap-length (a ∷ b ∷ bs) = refl

swapped-Permutes : Permutes swapped
swapped-Permutes = record {
  same_drops = λ rng bs. swap-drops bs;
  same_length = λ rng bs. swap-length bs;
}

-- A third of the chunks, in blocks of three.
abbrev handler : LossHandle ℕ
handler = new_shuffle_loss_handle counted swapped 34 3 0

abbrev packets : List ℕ
packets = 10 ∷ 20 ∷ 30 ∷ []

program : Unit {0}
unfolding new_shuffle_loss_handle shuffle_block adjust fill drops_per_block should_drop
    should_drop_shuffle on_inbound_chunks
program = tt

second_dropped : (on_inbound_chunks counted swapped handler packets).1 ≡ 10 ∷ 30 ∷ []
unfolding program
second_dropped = refl

half_dropped :
    (on_inbound_chunks counted swapped (new_random_loss_handle 50 49) packets).1 ≡ 20 ∷ 30 ∷ []
unfolding program new_random_loss_handle
half_dropped = refl

-- A handler that has used up its first block.
abbrev used_up : LossHandle ℕ
used_up = (on_inbound_chunks counted swapped handler packets).0

used_up-IsValid : IsValid used_up
unfolding program drops
used_up-IsValid = record {
  shuffles = omega arith;
  full = refl;
  counted = refl;
  pending = omega arith;
  position = omega arith;
}

passed_next_block_example :
    length (on_inbound_chunks counted swapped used_up packets).1 + used_up.pending_drops
    ≡ used_up.shuffle_block_size
passed_next_block_example =
    passed_next_block counted swapped swapped-Permutes packets used_up used_up-IsValid
      (unfold program in refl) (unfold program in refl)

abbrev seeded : Option ℕ → ℕ
seeded none = 0
seeded (some s) = s

abbrev options : List (LossFilterOption ℕ ℕ)
options =
    LossFilterOption.with_loss_seed 5
    ∷ LossFilterOption.no_option
    ∷ LossFilterOption.with_shuffle_loss_handler (pos 3)
    ∷ []
