-- ===== src/Vnet/LossFilter/Build.antt =====
-- What NewLossFilter builds from its options.
use transport.Prelude.{
  ℕ, ◌≤◌, ◌≡◌, ◌⊎◌, inl, inr, refl, Bool, true, false, ltb, leb, Option, none, some, List, [], ◌∷◌,
  replicate, length-replicate, arith, Bool-cases, Option-cases,
}
use transport.Prelude.Int.{ℤ, pos_part}
use transport.Vnet.LossFilter.{
  Error, LossHandle, validate_chance, set_loss_rate, new_random_loss_handle,
}
use transport.Vnet.LossFilter.Laws.{
  IsValid, Permutes, allowed, new_shuffle_loss_handle_lem, set_loss_rate_shuffle_lem,
}
use transport.Vnet.LossFilter.Options.{
  LossFilterOption, with_loss_handler, with_shuffle_loss_handler, with_loss_seed, no_option,
  LossFilterConfig, apply_option, apply_options, choose_handler, new_loss_filter,
}

-- A handler in random mode, or a valid one in shuffle mode.
abbrev pub IsUsable : {R : Type 0} → LossHandle R → Type 0
IsUsable r = (r.shuffle_block_size ≡ 0) ⊎ IsValid r

abbrev pub OptionIsUsable : {R S : Type 0} → LossFilterOption R S → Type 0
OptionIsUsable (with_loss_handler handler) = IsUsable handler
OptionIsUsable (with_shuffle_loss_handler size) = Unit
OptionIsUsable (with_loss_seed seed) = Unit
OptionIsUsable no_option = Unit

abbrev pub AllUsable : {R S : Type 0} → List (LossFilterOption R S) → Type 0
AllUsable [] = Unit
AllUsable (option ∷ options) = OptionIsUsable option × AllUsable options

abbrev pub HandlerIsUsable : {R : Type 0} → Option (LossHandle R) → Type 0
HandlerIsUsable none = Unit
HandlerIsUsable (some handler) = IsUsable handler

-- The outcome of the options, or of the whole: an error, or something usable.
abbrev pub ConfigIsUsable : {R S : Type 0} → Error ⊎ LossFilterConfig R S → Type 0
ConfigIsUsable (inl error) = Unit
ConfigIsUsable (inr cfg) = HandlerIsUsable cfg.handler

abbrev pub FilterIsUsable : {R : Type 0} → Error ⊎ LossHandle R → Type 0
FilterIsUsable (inl error) = Unit
FilterIsUsable (inr handler) = IsUsable handler

module _ {R S : Type 0} where
  apply_option-IsUsable :
      (cfg : LossFilterConfig R S) (option : LossFilterOption R S)
      → HandlerIsUsable cfg.handler
      → OptionIsUsable option
      → ConfigIsUsable (apply_option cfg option)
  unfolding apply_option
  apply_option-IsUsable cfg (with_loss_handler handler) h u = u
  apply_option-IsUsable cfg (with_shuffle_loss_handler size) h u =
      elim (Bool-cases (leb 1 (pos_part size))) [ inl e ↦ rw e h | inr e ↦ rw e tt ]
  apply_option-IsUsable cfg (with_loss_seed seed) h u = h
  apply_option-IsUsable cfg no_option h u = h

  apply_options-IsUsable :
      (cfg : LossFilterConfig R S) (options : List (LossFilterOption R S))
      → HandlerIsUsable cfg.handler
      → AllUsable options
      → ConfigIsUsable (apply_options cfg options)
  unfolding apply_options
  apply_options-IsUsable cfg [] h u = h
  apply_options-IsUsable cfg (option ∷ options) h u =
      after (apply_option cfg option) (apply_option-IsUsable cfg option h u.0)
        (λ cfg' w. apply_options-IsUsable cfg' options w u.1)
    where
      after :
          (o : Error ⊎ LossFilterConfig R S)
          → ConfigIsUsable o
          → ((cfg' : LossFilterConfig R S)
              → HandlerIsUsable cfg'.handler
              → ConfigIsUsable (apply_options cfg' options))
          → ConfigIsUsable {R = R} {S = S}
              (elim o [ inl error ↦ inl error | inr cfg' ↦ apply_options cfg' options ])
      after (inl error) w rest = tt
      after (inr cfg') w rest = rest cfg' w

module _ {R S : Type 0} (intn : R → ℕ → ℕ × R) (shuffle : R → List Bool → List Bool × R)
    (permutes : Permutes shuffle) (new_rng : Option S → R) where
  set_loss_rate-IsUsable :
      (r : LossHandle R) (chance : ℕ)
      → IsUsable r
      → chance ≤ 100
      → IsUsable (set_loss_rate intn shuffle r chance false)
  unfolding set_loss_rate
  set_loss_rate-IsUsable r chance (inl random) h =
      let off : ltb 0 r.shuffle_block_size ≡ false = ground arith in rw off (inl random)
  set_loss_rate-IsUsable r chance (inr v) h =
      let shuffles : ltb 0 r.shuffle_block_size ≡ true = ground (arith, v.shuffles) in
      rw shuffles (inr (set_loss_rate_shuffle_lem intn shuffle permutes r chance false v h).0)

  choose_handler-IsUsable :
      (chance : ℕ) (cfg : LossFilterConfig R S)
      → HandlerIsUsable cfg.handler
      → chance ≤ 100
      → IsUsable (choose_handler intn shuffle new_rng chance cfg)
  unfolding choose_handler
  choose_handler-IsUsable chance cfg u h = elim (Option-cases cfg.handler) [
    | inr (handler, given) ↦ rw given (set_loss_rate-IsUsable handler chance (rw given at u) h)
    | inl absent ↦ elim (Bool-cases (ltb 0 cfg.shuffle_block_size)) [
      | inl shuffles ↦
          let size = cfg.shuffle_block_size in
          rw (absent, shuffles)
            (inr
              (new_shuffle_loss_handle_lem intn shuffle permutes chance size (new_rng cfg.seed)
                (replicate size true) h (ground (arith, shuffles)) (length-replicate size true)).0)
      | inr random ↦ rw (absent, random) (inl (unfold new_random_loss_handle in refl))
    ]
  ]

  -- Whatever the chance and the options, if the handlers among the options are usable, then
  -- `NewLossFilter` gives an error or a usable handler: one in random mode, or one in shuffle mode
  -- whose block has its size and its number of drops. A chance out of 0 to 100 is an error.
  pub new_loss_filter-IsUsable :
      (chance : ℤ) (options : List (LossFilterOption R S))
      → AllUsable options
      → FilterIsUsable (new_loss_filter intn shuffle new_rng chance options)
        × (validate_chance chance ≡ false
            → new_loss_filter intn shuffle new_rng chance options ≡ inl Error.invalid_chance)
  unfolding new_loss_filter
  new_loss_filter-IsUsable chance options u = elim (Bool-cases (validate_chance chance)) [
    | inr bad ↦ rw bad (tt, λ e. refl)
    | inl good ↦ rw good (
      after (apply_options start options) (apply_options-IsUsable start options tt u)
          (allowed chance good),
      λ e. cc,
    )
  ]
    where
      start : LossFilterConfig R S
      start = record { handler = none; shuffle_block_size = 0; seed = none }

      after :
          (o : Error ⊎ LossFilterConfig R S)
          → ConfigIsUsable o
          → pos_part chance ≤ 100
          → FilterIsUsable {R = R} (elim o [
            | inl error ↦ inl error
            | inr cfg ↦ inr (choose_handler intn shuffle new_rng (pos_part chance) cfg)
          ])
      after (inl error) w h = tt
      after (inr cfg) w h = choose_handler-IsUsable (pos_part chance) cfg w h
