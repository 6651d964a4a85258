-- ===== src/Clp/Messages/Unlock.antt =====
-- x/clp/keeper/msg_server.go: the messages of an unlock of liquidity and of its end.
use furynode.Prelude.{ℕ, true, Option, none, some, List, [], ◌∷◌, ◌++◌, ltb}
use furynode.Chain.Action.{Action, Error, ◌>>=◌, ◌>>◌, pure, fail_if, or_panic, gets}
use furynode.Clp.Rat.{uint_add}
use furynode.Clp.Provider.{LiquidityProvider, LiquidityUnlock}
use furynode.Clp.Keeper.{Externals, State}
use furynode.Clp.Providers.{
  set_liquidity_provider, get_liquidity_provider, prune_unlock_records, use_unlocked_liquidity,
}
use furynode.Clp.Messages.{UnitsMsg}

module _ (ext : Externals) where
  -- The units of all records; `none` is the panic above 256 bits.
  unfoldable pub total_unlocks : List LiquidityUnlock → ℕ → Option ℕ
  unfolding uint_add
  total_unlocks [] total = some total
  total_unlocks (r ∷ l) total = elim (uint_add total r.units) [
    | none ↦ none
    | some sum ↦ total_unlocks l sum
  ]

  -- A new record, where the units of all records are those of the provider at most.
  unfoldable pub record_unlock : UnitsMsg → LiquidityProvider → Action (State ext) (Unit {0})
  unfolding total_unlocks uint_add set_liquidity_provider
  record_unlock m lp = do
    total ← or_panic (total_unlocks lp.unlocks 0)
    requested ← or_panic (uint_add total m.units)
    fail_if (ltb lp.liquidity_provider_units requested) Error.balance_not_available
    height ← gets (λ s. s.height)
    set_liquidity_provider ext (record lp {
      unlocks = lp.unlocks ++ record { request_height = height; units = m.units } ∷ [];
    })

  unfoldable pub handle_unlock_liquidity : UnitsMsg → Action (State ext) (Unit {0})
  unfolding get_liquidity_provider prune_unlock_records record_unlock
  handle_unlock_liquidity m = do
    found ← get_liquidity_provider ext m.external_asset m.signer
    lp ← prune_unlock_records ext found
    record_unlock m lp

  unfoldable pub handle_cancel_unlock_liquidity : UnitsMsg → Action (State ext) (Unit {0})
  unfolding get_liquidity_provider prune_unlock_records use_unlocked_liquidity
  handle_cancel_unlock_liquidity m = do
    found ← get_liquidity_provider ext m.external_asset m.signer
    lp ← prune_unlock_records ext found
    _ ← use_unlocked_liquidity ext lp m.units true
    pure tt
