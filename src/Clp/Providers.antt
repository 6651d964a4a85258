-- ===== src/Clp/Providers.antt =====
-- x/clp/keeper/liquidityprovider.go and rewards.go: the store of the providers of liquidity, and the
-- records of their unlocks.
use furynode.Prelude.{ℕ, ◌==◌, Bool, not, ◌||◌, ◌&&◌, List, String, if◌then◌else◌}
use furynode.Prelude.Text.{Bytes, str_eq}
use furynode.Prelude.Dict.{lookup, delete}
use furynode.Prelude.Store.{has, set}
use furynode.Chain.Action.{
  Action, Error, ◌>>=◌, ◌>>◌, pure, fail_if, or_fail, or_panic, gets, modify,
}
use furynode.Clp.Pool.{validate_asset}
use furynode.Clp.Provider.{
  LiquidityProvider, get_liquidity_provider_key, new_liquidity_provider, is_unlocked, use_records,
  drop_empty, is_cancelled, prune_records,
}
use furynode.Clp.Keeper.{Externals, State}

module _ (ext : Externals) where
  open ext use {bech32}

  -- A provider whose asset is not valid is not written, without an error.
  unfoldable pub set_liquidity_provider : LiquidityProvider → Action (State ext) (Unit {0})
  unfolding validate_asset get_liquidity_provider_key
  set_liquidity_provider lp = do
    valid ← or_panic (validate_asset ext.trim_space ext.valid_denom lp.asset)
    let key = get_liquidity_provider_key lp.asset lp.liquidity_provider_address
    if valid then modify (λ s. record s { providers = set key lp s.providers }) else pure tt

  unfoldable pub get_liquidity_provider : String → String → Action (State ext) LiquidityProvider
  unfolding get_liquidity_provider_key lookup
  get_liquidity_provider symbol address s =
      or_fail (lookup (get_liquidity_provider_key symbol address) s.providers)
        Error.liquidity_provider_does_not_exist s

  unfoldable pub destroy_liquidity_provider : String → String → Action (State ext) (Unit {0})
  unfolding get_liquidity_provider_key has delete
  destroy_liquidity_provider symbol address = do
    let key = get_liquidity_provider_key symbol address
    exists ← gets (λ s. has key s.providers)
    if exists then modify (λ s. record s { providers = delete key s.providers }) else pure tt

  unfoldable pub create_liquidity_provider :
      String → ℕ → Bytes → Action (State ext) LiquidityProvider
  unfolding set_liquidity_provider
  create_liquidity_provider asset units address = do
    let lp = new_liquidity_provider asset units (bech32.acc_string address)
    set_liquidity_provider lp
    pure lp

  -- The providers of an asset, as one page without a limit.
  unfoldable pub get_liquidity_providers_for_asset : String → State ext → List LiquidityProvider
  get_liquidity_providers_for_asset asset s =
      ext.filtered_paginate (λ lp. str_eq lp.asset asset) s.providers

  -- The provider without the records whose time has passed. It is written if there were any.
  unfoldable pub prune_unlock_records : LiquidityProvider → Action (State ext) LiquidityProvider
  unfolding is_cancelled prune_records set_liquidity_provider
  prune_unlock_records lp = do
    params ← gets (λ s. s.reward_params)
    height ← gets (λ s. s.height)
    let cancelled =
        is_cancelled params.liquidity_removal_lock_period params.liquidity_removal_cancel_period
          height
    let (write, rest) = prune_records cancelled lp.unlocks
    let pruned = record lp { unlocks = rest }
    if write then (set_liquidity_provider pruned >> pure pruned) else pure lp

  -- The records are shared with the caller, whose provider keeps those that are used up; the one
  -- that is written does not.
  unfoldable pub use_unlocked_liquidity :
      LiquidityProvider → ℕ → Bool → Action (State ext) LiquidityProvider
  unfolding is_unlocked use_records drop_empty set_liquidity_provider
  use_unlocked_liquidity lp units any = do
    lock_period ← gets (λ s. s.reward_params.liquidity_removal_lock_period)
    height ← gets (λ s. s.height)
    let (left, records) =
        use_records (λ r. any || is_unlocked lock_period height r) units lp.unlocks
    fail_if (not (lock_period == 0) && not (left == 0)) Error.balance_not_available
    set_liquidity_provider (record lp { unlocks = drop_empty records })
    pure (record lp { unlocks = records })
