-- ===== src/Clp/Messages/AddLiquidity.antt =====
-- x/clp/keeper/msg_server.go: the message of an addition to a pool.
use furynode.Prelude.{ℕ, true, false, ◌&&◌, [], ◌∷◌, if◌then◌else◌}
use furynode.Prelude.Int.{pos, ltb_ℤ}
use furynode.Chain.Action.{Action, Error, ◌>>=◌, ◌>>◌, pure, fail_if, or_panic, gets, wrap}
use furynode.TokenRegistry.Keeper.{
  disable_buy, disable_sell, RegistryEntry, get_entry, check_entry_permissions,
}
use furynode.Clp.Swap.{calc_swap_result}
use furynode.Clp.Asymmetric.{Addition, sell_native, buy_native, no_swap}
use furynode.Clp.Pool.{Pool, native_symbol, extract_debt}
use furynode.Clp.Keeper.{Externals, State, get_pool, get_swap_fee_rate}
use furynode.Clp.Protection.{
  get_native_price, is_blocked_by_liquidity_protection, calculate_discounted_sent_amount,
  must_update_liquidity_protection_threshold,
}
use furynode.Clp.Health.{is_pool_enabled}
use furynode.Clp.Executors.{LiquidityMsg, add_liquidity}
use furynode.Clp.Queue.{get_removal_queue, process_removal_queue}
use furynode.Clp.Messages.{find_entry, find_units}

module _ (ext : Externals) where
  open ext use {bank, bech32}

  unfoldable pub find_native : Action (State ext) RegistryEntry
  unfolding get_entry
  find_native = do
    registry ← gets (λ s. s.registry)
    wrap Error.token_not_supported (λ s. (get_entry registry native_symbol, s))

  -- The protection of a sale of fury, and of a purchase.
  unfoldable pub protect_sale : ℕ → Action (State ext) (Unit {0})
  unfolding get_native_price is_blocked_by_liquidity_protection calculate_discounted_sent_amount
      must_update_liquidity_protection_threshold get_swap_fee_rate
  protect_sale amount = do
    rate ← gets (get_swap_fee_rate ext native_symbol false)
    price ← get_native_price ext
    blocked ← is_blocked_by_liquidity_protection ext amount price
    fail_if blocked Error.reached_max_fury_liquidity_threshold
    discounted ← or_panic (calculate_discounted_sent_amount ext amount rate)
    must_update_liquidity_protection_threshold ext true discounted price

  unfoldable pub protect_purchase : LiquidityMsg → ℕ → ℕ → ℕ → Action (State ext) (Unit {0})
  unfolding get_native_price must_update_liquidity_protection_threshold calc_swap_result
      get_swap_fee_rate
  protect_purchase m amount native external = do
    rate ← gets (get_swap_fee_rate ext m.external_asset false)
    pmtp_rate ← gets (λ s. s.pmtp_current_running_rate)
    (bought, _) ← or_panic (calc_swap_result true external amount native pmtp_rate rate)
    price ← get_native_price ext
    must_update_liquidity_protection_threshold ext false bought price

  -- What the swap that an addition implies has to be permitted, and what it changes.
  unfoldable pub check_swap :
      LiquidityMsg
      → RegistryEntry
      → RegistryEntry
      → ℕ × ℕ
      → Addition
      → Action (State ext) (Unit {0})
  unfolding check_entry_permissions protect_sale protect_purchase
  check_swap m native_entry entry (native, external) a = elim a.status [
    | no_swap ↦ pure tt
    | sell_native ↦ (do
      fail_if (check_entry_permissions native_entry (disable_sell ∷ []))
          Error.not_allowed_to_sell_asset
      fail_if (check_entry_permissions entry (disable_buy ∷ [])) Error.not_allowed_to_buy_asset
      active ← gets (λ s. s.protection_params.is_active)
      if active then protect_sale a.swap_amount else pure tt)
    | buy_native ↦ (do
      fail_if (check_entry_permissions entry (disable_sell ∷ [])) Error.not_allowed_to_sell_asset
      fail_if (check_entry_permissions native_entry (disable_buy ∷ []))
          Error.not_allowed_to_buy_asset
      active ← gets (λ s. s.protection_params.is_active)
      if active then protect_purchase m a.swap_amount native external else pure tt)
  ]

  -- The entries of fury and of the asset, the pool, its depths, and the addition to it.
  unfoldable pub price_addition :
      LiquidityMsg → Action (State ext) (RegistryEntry × RegistryEntry × Pool × (ℕ × ℕ) × Addition)
  unfolding find_native find_entry get_pool extract_debt find_units
  price_addition m = do
    native_entry ← find_native
    entry ← find_entry ext m.external_asset
    p ← wrap Error.pool_does_not_exist (get_pool ext m.external_asset)
    depths ← or_panic (extract_debt p p.native_asset_balance p.external_asset_balance false)
    a ← find_units ext m p.pool_units depths.0 depths.1
    pure (native_entry, entry, p, depths, a)

  unfoldable pub plan_addition : LiquidityMsg → Action (State ext) (Pool × Addition)
  unfolding price_addition check_swap
  plan_addition m = do
    (native_entry, entry, p, depths, a) ← price_addition m
    check_swap m native_entry entry depths a
    pure (p, a)

  -- The queue of the asset, where queueing is on and the pool is open to margin trading.
  unfoldable pub serve_queue : LiquidityMsg → ℕ → Action (State ext) (Unit {0})
  unfolding is_pool_enabled get_removal_queue process_removal_queue
  serve_queue m units = do
    enabled ← gets (λ s. is_pool_enabled s.margin_params m.external_asset && s.enable_removal_queue)
    waiting ← gets (λ s. ltb_ℤ (pos 0) (get_removal_queue ext m.external_asset s).count)
    if enabled && waiting then process_removal_queue ext m units else pure tt

  unfoldable pub handle_add_liquidity : LiquidityMsg → Action (State ext) (Unit {0})
  unfolding plan_addition add_liquidity serve_queue
  handle_add_liquidity m = do
    (p, a) ← plan_addition m
    wrap Error.unable_to_add_liquidity (add_liquidity ext m p a.pool_units a.lp_units)
    serve_queue m a.pool_units
