-- ===== src/Clp/Messages/NewPool.antt =====
-- x/clp/keeper/msg_server.go: the message of a new pool.
use furynode.Prelude.{ℕ, ◌^◌, ltb}
use furynode.Chain.Action.{Action, Error, ◌>>=◌, ◌>>◌, pure, fail_if, or_fail, gets, wrap}
use furynode.Clp.Asymmetric.{Addition}
use furynode.Clp.Keeper.{Externals, State, exists_pool}
use furynode.Clp.Providers.{create_liquidity_provider}
use furynode.Clp.Executors.{LiquidityMsg, create_pool}
use furynode.Clp.Messages.{find_entry, find_units}

-- `types.PoolThrehold`
abbrev pub pool_threshold : ℕ
pool_threshold = 10 ^ 18

module _ (ext : Externals) where
  open ext use {bank, bech32}

  unfoldable pub check_creation : LiquidityMsg → Action (State ext) Addition
  unfolding find_entry exists_pool find_units
  check_creation m = do
    fail_if (ltb m.native_asset_amount pool_threshold) Error.total_amount_too_low
    _ ← find_entry ext m.external_asset
    exists ← gets (exists_pool ext m.external_asset)
    fail_if exists Error.unable_to_create_pool
    wrap Error.unable_to_create_pool (find_units ext m 0 0 0)

  unfoldable pub first_provider : LiquidityMsg → ℕ → Action (State ext) (Unit {0})
  unfolding create_liquidity_provider
  first_provider m units = do
    a ← or_fail (bech32.acc_from_bech32 m.signer) Error.sdk_error
    _ ← create_liquidity_provider ext m.external_asset units a
    pure tt

  unfoldable pub handle_create_pool : LiquidityMsg → Action (State ext) (Unit {0})
  unfolding check_creation create_pool first_provider
  handle_create_pool m = do
    a ← check_creation m
    wrap Error.unable_to_set_pool (create_pool ext a.pool_units m)
    first_provider m a.lp_units
