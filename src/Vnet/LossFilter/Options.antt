-- ===== src/Vnet/LossFilter/Options.antt =====
-- vnet/loss_filter.go: how NewLossFilter makes a handler from its options. The state of math/rand
-- for a seed, or for none, is a parameter.
use transport.Prelude.{
  ℕ, ◌⊎◌, inl, inr, Bool, false, ltb, leb, if◌then◌else◌, Option, none, some, List, [], ◌∷◌,
}
use transport.Prelude.Int.{ℤ, pos_part}
use transport.Vnet.LossFilter.{
  Error, invalid_chance, invalid_shuffle_block_size, LossHandle, validate_chance,
  new_random_loss_handle, new_shuffle_loss_handle, set_loss_rate,
}

-- A `nil` option is skipped.
pub data LossFilterOption (R S : Type 0) : Type 0 where
  with_loss_handler : LossHandle R → LossFilterOption R S
  with_shuffle_loss_handler : ℤ → LossFilterOption R S
  with_loss_seed : S → LossFilterOption R S
  no_option : LossFilterOption R S

pub record LossFilterConfig (R S : Type 0) : Type 0 where
  pub handler : Option (LossHandle R)
  pub shuffle_block_size : ℕ
  pub seed : Option S

module _ {R S : Type 0} where
  unfoldable pub apply_option :
      LossFilterConfig R S → LossFilterOption R S → Error ⊎ LossFilterConfig R S
  apply_option cfg (with_loss_handler handler) = inr (record cfg { handler = some handler })
  apply_option cfg (with_shuffle_loss_handler size) =
      if leb 1 (pos_part size)
      then inr (record cfg { shuffle_block_size = pos_part size })
      else inl invalid_shuffle_block_size
  apply_option cfg (with_loss_seed seed) = inr (record cfg { seed = some seed })
  apply_option cfg no_option = inr cfg

  -- The loop over the options, which ends at the first error.
  unfoldable pub apply_options :
      LossFilterConfig R S → List (LossFilterOption R S) → Error ⊎ LossFilterConfig R S
  apply_options cfg [] = inr cfg
  apply_options cfg (option ∷ options) = elim (apply_option cfg option) [
    | inl error ↦ inl error
    | inr cfg' ↦ apply_options cfg' options
  ]

module _ {R S : Type 0} (intn : R → ℕ → ℕ × R) (shuffle : R → List Bool → List Bool × R)
    (new_rng : Option S → R) where
  -- The handler for a chance from 0 to 100, by the precedence of the options.
  unfoldable pub choose_handler : ℕ → LossFilterConfig R S → LossHandle R
  choose_handler chance cfg = elim cfg.handler [
    | some handler ↦ set_loss_rate intn shuffle handler chance false
    | none ↦
        if ltb 0 cfg.shuffle_block_size
        then new_shuffle_loss_handle intn shuffle chance cfg.shuffle_block_size (new_rng cfg.seed)
        else new_random_loss_handle chance (new_rng cfg.seed)
  ]

  -- `NewLossFilter`; the filter is the NIC with this handler.
  unfoldable pub new_loss_filter : ℤ → List (LossFilterOption R S) → Error ⊎ LossHandle R
  new_loss_filter chance options =
      if validate_chance chance
      then elim (apply_options (record { handler = none; shuffle_block_size = 0; seed = none })
          options) [ inl error ↦ inl error | inr cfg ↦ inr (choose_handler (pos_part chance) cfg) ]
      else inl invalid_chance
