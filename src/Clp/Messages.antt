-- ===== src/Clp/Messages.antt =====
-- x/clp/keeper/msg_server.go: the messages of liquidity.
pub mod NewPool
pub mod AddLiquidity
pub mod RemoveLiquidity
pub mod DecommissionPool
pub mod Unlock
pub mod Parameters
use furynode.Prelude.{
  ℕ, ◌-◌, ◌==◌, ◌^◌, Bool, true, false, not, ◌&&◌, Option, none, some, List, [], ◌∷◌, ◌++◌, String,
  ltb, leb, if◌then◌else◌,
}
use furynode.Prelude.Int.{ℤ, pos, leb_ℤ, ltb_ℤ}
use furynode.Prelude.Text.{Bytes, bytes_eq}
use furynode.Chain.Action.{
  Action, Error, ◌>>=◌, ◌>>◌, pure, fail, fail_if, or_fail, or_panic, gets, wrap,
}
use furynode.TokenRegistry.Keeper.{
  clp, disable_buy, disable_sell, RegistryEntry, get_entry, check_entry_permissions,
}
use furynode.Clp.Rat.{uint_add, uint_sub}
use furynode.Clp.Swap.{calc_swap_result}
use furynode.Clp.Asymmetric.{Addition, sell_native, buy_native, no_swap, calculate_pool_units}
use furynode.Clp.Pool.{Pool, native_symbol, extract_debt}
use furynode.Clp.Provider.{LiquidityProvider, LiquidityUnlock, RemoveLiquidityMsg}
use furynode.Clp.Keeper.{Externals, State, get_pool, exists_pool, get_swap_fee_rate}
use furynode.Clp.Protection.{
  get_native_price, is_blocked_by_liquidity_protection, calculate_discounted_sent_amount,
  must_update_liquidity_protection_threshold,
}
use furynode.Clp.Withdrawal.{
  Withdrawal, calculate_withdrawal, calculate_withdrawal_from_units, calculate_all_assets_for_lp,
  calculate_withdrawal_fury_value, conv_w_basis_points_to_units, conv_units_to_w_basis_points,
}
use furynode.Clp.Health.{is_pool_enabled, calculate_pool_health}
use furynode.Clp.Providers.{
  set_liquidity_provider, get_liquidity_provider, create_liquidity_provider, prune_unlock_records,
  use_unlocked_liquidity, get_liquidity_providers_for_asset,
}
use furynode.Clp.Executors.{
  LiquidityMsg, new_coin, create_pool, add_liquidity, remove_liquidity, remove_liquidity_provider,
  decommission_pool,
}
use furynode.Clp.Queue.{
  get_removal_queue, queue_removal, get_removal_queue_units_for_lp, take_out, adjust,
  is_too_shallow, process_removal_queue,
}

-- Of units: a removal, an unlock, and the end of one.
pub record UnitsMsg : Type 0 where
  pub signer : String
  pub external_asset : String
  pub units : ℕ

module _ (ext : Externals) where
  open ext use {bank, bech32}

  -- The entry of a token of the pools.
  unfoldable pub find_entry : String → Action (State ext) RegistryEntry
  unfolding get_entry check_entry_permissions
  find_entry symbol = do
    registry ← gets (λ s. s.registry)
    entry ← wrap Error.token_not_supported (λ s. (get_entry registry symbol, s))
    fail_if (not (check_entry_permissions entry (clp ∷ []))) Error.permission_denied
    pure entry

  -- The units of an addition to a pool of these units and depths, with the rates of the store.
  unfoldable pub find_units : LiquidityMsg → ℕ → ℕ → ℕ → Action (State ext) Addition
  unfolding get_swap_fee_rate calculate_pool_units
  find_units m pool_units native external = do
    pmtp_rate ← gets (λ s. s.pmtp_current_running_rate)
    sell_rate ← gets (get_swap_fee_rate ext native_symbol false)
    buy_rate ← gets (get_swap_fee_rate ext m.external_asset false)
    (λ s. (
      calculate_pool_units pool_units native external m.native_asset_amount m.external_asset_amount
          sell_rate buy_rate pmtp_rate,
      s,
    ))
