-- ===== src/Tests/Liquidity.antt =====
-- A sequence of messages of liquidity, with the theorems about them.
use furynode.Prelude.{ℕ, true, false, ◌≡◌, ◌<◌, ◌⊎◌, refl, Option, some, none, List, [], ◌∷◌, arith}
use furynode.Prelude.Int.{pos}
use furynode.Prelude.Text.{bytes_eq}
use furynode.Prelude.Dict.{lookup}
use furynode.Prelude.Store.{set}
use furynode.Clp.Pool.{get_pool_key, validate_asset}
use furynode.Clp.Provider.{LiquidityProvider, get_liquidity_provider_key}
use furynode.Clp.Rat.{rat_int_quo}
use furynode.Clp.Keeper.{State}
use furynode.Clp.Custody.{IsKept}
use furynode.Clp.Queue.{get_removal_queue}
use furynode.Clp.Executors.{LiquidityMsg}
use furynode.Clp.Messages.{UnitsMsg}
use furynode.Clp.Delivery.{
  ClpMsg, swap_msg, add_liquidity_msg, remove_liquidity_units_msg, unlock_liquidity_msg,
  deliver_all,
}
use furynode.Clp.Kept.Additions.{IsIdle}
use furynode.Clp.Kept.History.{deliver_all-IsKept}
use furynode.Clp.Providers.{use_unlocked_liquidity}
use furynode.Clp.Unlocked.{units_of, usable, IsUsed, use_unlocked_liquidity-exact}
use furynode.Chain.Action.{ok, err, Error}
use furynode.Admin.Keeper.{is_admin_account}
use furynode.Clp.Messages.Parameters.{
  ParamsMsg, update_swap_fee_params, modify_liquidity_protection_rates, handle_params, set_params,
}
use furynode.Clp.Settings.{IsDone, IsRefused, Answers}
use furynode.Clp.Settings.Authority.{handle_params-Answers}
use furynode.Tests.Ledger
use furynode.Tests.Swaps.{ext, before, before-IsKept, msg, ann_is_not_module}

abbrev more : LiquidityMsg
more = record {
  signer = "ann";
  external_asset = "ceth";
  native_asset_amount = 100;
  external_asset_amount = 100;
}

abbrev half : UnitsMsg
half = record { signer = "ann"; external_asset = "ceth"; units = 50 }

-- Liquidity is added, half of it is unlocked and removed, and the assets are swapped. The lock of
-- ten blocks has not passed, so that the removal fails and writes nothing.
abbrev msgs : List ClpMsg
msgs =
    add_liquidity_msg more
    ∷ unlock_liquidity_msg half
    ∷ remove_liquidity_units_msg half
    ∷ swap_msg msg
    ∷ []

abbrev stored_units : Option LiquidityProvider → ℕ
stored_units none = 0
stored_units (some lp) = lp.liquidity_provider_units

deliver_all_runs :
    stored_units
      (lookup (get_liquidity_provider_key "ceth" "ann") (deliver_all ext msgs before).providers)
    ≡ 100
unfolding deliver_all lookup get_pool_key rat_int_quo validate_asset set bytes_eq
    get_liquidity_provider_key
deliver_all_runs = refl

before-IsIdle : IsIdle ext before
unfolding IsIdle get_removal_queue lookup
before-IsIdle a = refl

deliver_all-IsKept_example :
    IsKept ext (deliver_all ext msgs before) × IsIdle ext (deliver_all ext msgs before)
deliver_all-IsKept_example =
    deliver_all-IsKept ext Ledger.bank_laws (λ n i e. ground arith)
      (λ l c e d. Ledger.bank_laws.amount_of-new_coins l c e d) msgs before before-IsKept
      before-IsIdle
      (ann_is_not_module, (ann_is_not_module, (ann_is_not_module, (ann_is_not_module, tt))))

-- Two records, of which the lock of the first has passed.
abbrev ann_lp : LiquidityProvider
ann_lp = record {
  asset = "ceth";
  liquidity_provider_units = 100;
  liquidity_provider_address = "ann";
  unlocks =
      record { request_height = pos 80; units = 30 }
      ∷ record { request_height = pos 95; units = 20 }
      ∷ [];
}

valid_asset : validate_asset ext.trim_space ext.valid_denom "ceth" ≡ some true
unfolding validate_asset
valid_asset = refl

use_unlocked_liquidity-exact_example :
    ((units_of (usable ext false before) ann_lp.unlocks < 10)
      × (use_unlocked_liquidity ext ann_lp 10 false before
          ≡ (err Error.balance_not_available, before)))
    ⊎ ((lp : LiquidityProvider) × (q : LiquidityProvider) × (t : State ext)
        × (use_unlocked_liquidity ext ann_lp 10 false before ≡ (ok lp, t))
        × (lookup (get_liquidity_provider_key "ceth" "ann") t.providers ≡ some q)
        × IsUsed ext false 10 ann_lp q before)
use_unlocked_liquidity-exact_example =
    use_unlocked_liquidity-exact ext ann_lp 10 false before valid_asset refl

-- The swap fees are set by an administrator of the rewards.
abbrev fees : ParamsMsg
fees = update_swap_fee_params (record { default_swap_fee_rate = pos 0; token_params = [] })

abbrev with_fees : State ext
with_fees = (handle_params ext "ann" fees before).1

fees_run : handle_params ext "ann" fees before ≡ (ok tt, with_fees)
unfolding handle_params is_admin_account set_params bytes_eq
fees_run = refl

handle_params-Answers_example :
    Answers ext
      (handle_params ext "ann" fees before)
      before
      (IsRefused ext fees "ann" before)
      (IsDone ext fees "ann" before)
handle_params-Answers_example = handle_params-Answers ext "ann" fees before

-- The liquidity protection is for the administrators of the exchange, of whom she is not one.
protection_refused :
    handle_params ext "ann" (modify_liquidity_protection_rates 5) before
    ≡ (err Error.not_enough_permissions, before)
unfolding handle_params is_admin_account set_params bytes_eq
protection_refused = refl
