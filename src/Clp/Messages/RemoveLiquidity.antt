-- ===== src/Clp/Messages/RemoveLiquidity.antt =====
-- x/clp/keeper/msg_server.go: the messages of a removal, of units and of basis points.
use furynode.Prelude.{ℕ, false, not, ◌&&◌, Option, none, some, String, ltb, if◌then◌else◌}
use furynode.Prelude.Int.{ℤ, pos, leb_ℤ, ltb_ℤ}
use furynode.Chain.Action.{Action, Error, ◌>>=◌, ◌>>◌, pure, fail, fail_if, or_panic, gets, wrap}
use furynode.TokenRegistry.Keeper.{RegistryEntry}
use furynode.Clp.Rat.{uint_add, uint_sub}
use furynode.Clp.Pool.{Pool, native_symbol, extract_debt}
use furynode.Clp.Provider.{LiquidityProvider, RemoveLiquidityMsg}
use furynode.Clp.Keeper.{Externals, State, get_pool, get_swap_fee_rate}
use furynode.Clp.Withdrawal.{
  Withdrawal, calculate_withdrawal, calculate_withdrawal_from_units,
  calculate_withdrawal_fury_value, conv_w_basis_points_to_units, conv_units_to_w_basis_points,
}
use furynode.Clp.Health.{is_pool_enabled, calculate_pool_health}
use furynode.Clp.Providers.{get_liquidity_provider, prune_unlock_records, use_unlocked_liquidity}
use furynode.Clp.Executors.{remove_liquidity}
use furynode.Clp.Queue.{
  queue_removal, get_removal_queue_units_for_lp, take_out, adjust, is_too_shallow,
}
use furynode.Clp.Messages.{UnitsMsg, find_entry}

module _ (ext : Externals) where
  open ext use {bank, bech32}

  unfoldable pub find_provider :
      String → String → Action (State ext) (RegistryEntry × Pool × LiquidityProvider)
  unfolding find_entry get_pool get_liquidity_provider
  find_provider symbol signer = do
    entry ← find_entry ext symbol
    p ← wrap Error.pool_does_not_exist (get_pool ext symbol)
    lp ← get_liquidity_provider ext symbol signer
    pure (entry, p, lp)

  -- No more units than the provider has outside of the queue.
  unfoldable pub check_available : LiquidityProvider → ℕ → Action (State ext) (Unit {0})
  unfolding get_removal_queue_units_for_lp uint_sub
  check_available lp units = do
    queued ← gets (get_removal_queue_units_for_lp ext lp) >>= or_panic
    available ← or_panic (uint_sub lp.liquidity_provider_units queued)
    fail_if (ltb available units) Error.unable_to_remove_liquidity

  -- The request (`none` where the code panics on the way to it) is queued with the value of the
  -- external asset and `more`.
  unfoldable pub check_health :
      RegistryEntry
      → String
      → Pool
      → Withdrawal
      → Option RemoveLiquidityMsg
      → ℕ
      → Action (State ext) (Unit {0})
  unfolding is_pool_enabled calculate_pool_health calculate_withdrawal_fury_value queue_removal
      uint_sub uint_add get_swap_fee_rate
  check_health entry symbol p w request more = do
    enabled ← gets (λ s. is_pool_enabled s.margin_params entry.denom)
    if not enabled then pure tt else (do
      pmtp_rate ← gets (λ s. s.pmtp_current_running_rate)
      rate ← gets (get_swap_fee_rate ext symbol false)
      value ← or_panic (calculate_withdrawal_fury_value w.external native_symbol p pmtp_rate rate)
      native ← or_panic (uint_sub p.native_asset_balance w.native)
      external ← or_panic (uint_sub p.external_asset_balance w.external)
      health ← or_panic (
          calculate_pool_health ext
            (record p { native_asset_balance = native; external_asset_balance = external }))
      threshold ← gets (λ s. s.margin_params.removal_queue_threshold)
      queueing ← gets (λ s. s.enable_removal_queue)
      if ltb_ℤ health threshold
          then (if queueing
              then (or_panic request >>= λ r. or_panic (uint_add value more) >>= λ total.
                  queue_removal ext r total >> fail Error.queued)
              else fail Error.removals_blocked_by_health)
          else pure tt)

  -- The provider with its records of unlocks used; the units that are removed are no longer there.
  unfoldable pub use_unlocked : LiquidityProvider → ℕ → Action (State ext) LiquidityProvider
  unfolding use_unlocked_liquidity uint_sub
  use_unlocked lp units_left = do
    removed ← or_panic (uint_sub lp.liquidity_provider_units units_left)
    use_unlocked_liquidity ext lp removed false

  unfoldable pub queued_request : UnitsMsg → LiquidityProvider → Option RemoveLiquidityMsg
  unfolding conv_units_to_w_basis_points
  queued_request m lp =
      elim (conv_units_to_w_basis_points ext lp.liquidity_provider_units m.units) [
        | none ↦ none
        | some points ↦ some (record {
          signer = m.signer;
          external_asset = m.external_asset;
          w_basis_points = points;
          asymmetry = pos 0;
        })
      ]

  -- The withdrawal, and the depths of the pool, native and external; `none` is a panic.
  unfoldable pub withdraw_units : UnitsMsg → Pool → LiquidityProvider → Option (Withdrawal × ℕ × ℕ)
  unfolding extract_debt calculate_withdrawal_from_units
  withdraw_units m p lp =
      elim (extract_debt p p.native_asset_balance p.external_asset_balance false) [
        | none ↦ none
        | some (native, external) ↦
            elim (calculate_withdrawal_from_units ext p.pool_units native external
              lp.liquidity_provider_units m.units) [
                | none ↦ none
                | some w ↦ some (w, native, external)
              ]
      ]

  -- The last of the checks: the unlocked units are used, and the health of the pool is looked at.
  unfoldable pub settle :
      RegistryEntry
      → String
      → Pool
      → LiquidityProvider
      → Withdrawal × ℕ × ℕ
      → Option RemoveLiquidityMsg
      → ℕ
      → Action (State ext) (Pool × LiquidityProvider × Withdrawal × ℕ × ℕ)
  unfolding use_unlocked check_health
  settle entry symbol p lp w request more = do
    used ← use_unlocked lp w.0.units_left
    check_health entry symbol p w.0 request more
    pure (p, used, w.0, w.1, w.2)

  unfoldable pub plan_removal_of_units :
      UnitsMsg → Action (State ext) (Pool × LiquidityProvider × Withdrawal × ℕ × ℕ)
  unfolding find_provider check_available prune_unlock_records withdraw_units settle queued_request
  plan_removal_of_units m = do
    (entry, p, found) ← find_provider m.external_asset m.signer
    check_available found m.units
    lp ← prune_unlock_records ext found
    w ← or_panic (withdraw_units m p lp)
    settle entry m.external_asset p lp w (queued_request m lp) w.0.native

  -- The depths are swapped: the external one stands for the original external balance.
  unfoldable pub handle_remove_liquidity_units : UnitsMsg → Action (State ext) (Unit {0})
  unfolding plan_removal_of_units take_out remove_liquidity
  handle_remove_liquidity_units m = do
    (p, lp, w, native_depth, external_depth) ← plan_removal_of_units m
    (q, external, native) ← take_out ext m.external_asset p lp w
    wrap Error.unable_to_remove_liquidity
        (remove_liquidity ext q external native lp w.units_left external_depth native_depth)

  unfoldable pub withdraw_points :
      RemoveLiquidityMsg → Pool → LiquidityProvider → Option (Withdrawal × ℕ × ℕ)
  unfolding extract_debt calculate_withdrawal
  withdraw_points m p lp =
      elim (extract_debt p p.native_asset_balance p.external_asset_balance false) [
        | none ↦ none
        | some (native, external) ↦
            elim (calculate_withdrawal ext p.pool_units native external lp.liquidity_provider_units
              m.w_basis_points m.asymmetry) [ none ↦ none | some w ↦ some (w, native, external) ]
      ]

  -- A removal has to be symmetric, and of units outside of the queue.
  unfoldable pub check_points :
      RemoveLiquidityMsg → LiquidityProvider → Action (State ext) (Unit {0})
  unfolding conv_w_basis_points_to_units check_available
  check_points m lp = do
    fail_if (not (leb_ℤ m.asymmetry (pos 0) && leb_ℤ (pos 0) m.asymmetry)) Error.asymmetric_remove
    units ← or_panic (conv_w_basis_points_to_units lp.liquidity_provider_units m.w_basis_points)
    check_available lp units

  unfoldable pub plan_removal :
      RemoveLiquidityMsg → Action (State ext) (Pool × LiquidityProvider × Withdrawal × ℕ × ℕ)
  unfolding find_provider prune_unlock_records check_points withdraw_points settle
  plan_removal m = do
    (entry, p, found) ← find_provider m.external_asset m.signer
    lp ← prune_unlock_records ext found
    check_points m lp
    w ← or_panic (withdraw_points m p lp)
    settle entry m.external_asset p lp w (some m) w.0.external

  -- After the amounts are known: the swap of an asymmetric removal, and the writes.
  unfoldable pub finish_removal :
      RemoveLiquidityMsg
      → LiquidityProvider
      → Withdrawal
      → ℕ
      → ℕ
      → Pool × (String × ℤ) × (String × ℤ)
      → Action (State ext) (Unit {0})
  unfolding adjust remove_liquidity get_swap_fee_rate
  finish_removal m lp w native_depth external_depth taken = do
    fail_if (is_too_shallow m taken.0) Error.pool_too_shallow
    pmtp_rate ← gets (λ s. s.pmtp_current_running_rate)
    external_rate ← gets (get_swap_fee_rate ext m.external_asset false)
    native_rate ← gets (get_swap_fee_rate ext native_symbol false)
    (q, external, native) ← adjust ext m w.swap_amount pmtp_rate external_rate native_rate taken
    wrap Error.unable_to_remove_liquidity
        (remove_liquidity ext q external native lp w.units_left external_depth native_depth)

  unfoldable pub handle_remove_liquidity : RemoveLiquidityMsg → Action (State ext) (Unit {0})
  unfolding plan_removal take_out finish_removal
  handle_remove_liquidity m = do
    (p, lp, w, native_depth, external_depth) ← plan_removal m
    taken ← take_out ext m.external_asset p lp w
    finish_removal m lp w native_depth external_depth taken
