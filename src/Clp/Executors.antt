-- ===== src/Clp/Executors.antt =====
-- x/clp/keeper/executors.go: the writes of the messages of liquidity.
use furynode.Prelude.{
  ℕ, ◌==◌, Bool, true, not, ◌||◌, ◌&&◌, Option, none, some, List, [], ◌∷◌, ◌++◌, String,
  if◌then◌else◌,
}
use furynode.Prelude.Int.{ℤ, pos, leb_ℤ}
use furynode.Prelude.Text.{Bytes}
use furynode.Chain.Action.{
  Action, Error, ◌>>=◌, ◌>>◌, pure, fail_if, or_fail, or_panic, gets, recover, wrap,
}
use furynode.Clp.Rat.{uint_add}
use furynode.Clp.Pool.{Pool, native_symbol}
use furynode.Clp.Provider.{LiquidityProvider}
use furynode.Clp.Keeper.{Externals, State, module_name, on_bank, set_pool, destroy_pool}
use furynode.Clp.Providers.{
  set_liquidity_provider, get_liquidity_provider, destroy_liquidity_provider,
  create_liquidity_provider,
}

-- The message of a new pool, and of an addition to one.
pub record LiquidityMsg : Type 0 where
  pub signer : String
  pub external_asset : String
  pub native_asset_amount : ℕ
  pub external_asset_amount : ℕ

unfoldable pub new_pool : String → ℕ → ℕ → ℕ → Pool
new_pool external_asset native external units = record {
  external_asset = external_asset;
  native_asset_balance = native;
  external_asset_balance = external;
  pool_units = units;
  swap_price_native = none;
  swap_price_external = none;
  reward_period_native_distributed = 0;
  external_liabilities = 0;
  external_custody = 0;
  native_liabilities = 0;
  native_custody = 0;
  health = pos 0;
  interest_rate = pos 0;
  last_height_interest_rate_computed = pos 0;
  unsettled_external_liabilities = 0;
  unsettled_native_liabilities = 0;
  block_interest_native = 0;
  block_interest_external = 0;
}

-- `coins[0]` and `coins[1]`; `none` is the panic of an index out of range.
abbrev first : List (String × ℤ) → Option (String × ℤ)
first [] = none
first (c ∷ l) = some c

abbrev second : List (String × ℤ) → Option (String × ℤ)
second [] = none
second (c ∷ l) = first l

-- A coin that is sent; one of nothing is left out.
abbrev pub sendable : String × ℤ → List (String × ℤ)
sendable c = if leb_ℤ c.1 (pos 0) then [] else c ∷ []

module _ (ext : Externals) where
  open ext use {bank, bech32}

  -- `sdk.NewCoin`; `none` is its panic.
  unfoldable pub new_coin : String → ℤ → Option (String × ℤ)
  new_coin denom amount =
      if ext.valid_denom denom && leb_ℤ (pos 0) amount then some (denom, amount) else none

  -- The amounts of the message, and the address that pays them.
  unfoldable pub parse_amounts : LiquidityMsg → Action (State ext) (ℤ × ℤ)
  parse_amounts m = do
    external ← or_fail (ext.parse_to_int m.external_asset_amount) Error.unable_to_parse_int
    native ← or_fail (ext.parse_to_int m.native_asset_amount) Error.unable_to_parse_int
    pure (external, native)

  unfoldable pub deposit_new : LiquidityMsg → Action (State ext) (Unit {0})
  unfolding parse_amounts new_coin
  deposit_new m = do
    (external, native) ← parse_amounts m
    a ← or_fail (bech32.acc_from_bech32 m.signer) Error.sdk_error
    c ← or_panic (new_coin m.external_asset external)
    d ← or_panic (new_coin native_symbol native)
    has_external ← gets (λ s. ext.has_balance s.coins a c)
    has_native ← gets (λ s. ext.has_balance s.coins a d)
    fail_if (not has_external && not has_native) Error.balance_not_available
    coins ← or_panic (bank.new_coins (c ∷ d ∷ []))
    on_bank ext (bank.send_coins_from_account_to_module a module_name coins)

  unfoldable pub create_pool : ℕ → LiquidityMsg → Action (State ext) (Unit {0})
  unfolding deposit_new new_pool set_pool
  create_pool pool_units m = do
    deposit_new m
    let p = new_pool m.external_asset m.native_asset_amount m.external_asset_amount pool_units
    wrap Error.unable_to_set_pool (set_pool ext p)

  -- Both coins are added: the amounts are compared with zero by their pointers, which differ. The
  -- second coin is looked at where the signer does not have the first.
  unfoldable pub deposit_more : LiquidityMsg → Action (State ext) Bytes
  unfolding parse_amounts
  deposit_more m = do
    (external, native) ← parse_amounts m
    coins ← or_panic (ext.add_coins ((m.external_asset, external) ∷ (native_symbol, native) ∷ []))
    a ← or_fail (bech32.acc_from_bech32 m.signer) Error.sdk_error
    c ← or_panic (first (ext.entries coins))
    has_first ← gets (λ s. ext.has_balance s.coins a c)
    (if has_first
        then pure tt
        else (or_panic (second (ext.entries coins)) >>= λ d.
            gets (λ s. ext.has_balance s.coins a d) >>= λ has_second.
            fail_if (not has_second) Error.balance_not_available))
    on_bank ext (bank.send_coins_from_account_to_module a module_name coins)
    pure a

  -- The provider of the message, created with the units if there is none; and the units that are
  -- still to be added to it.
  unfoldable pub find_or_create :
      LiquidityMsg → Bytes → ℕ → Action (State ext) (LiquidityProvider × ℕ)
  unfolding get_liquidity_provider create_liquidity_provider
  find_or_create m a lp_units =
      recover (get_liquidity_provider ext m.external_asset m.signer) (λ lp. pure (lp, lp_units))
        (λ _. create_liquidity_provider ext m.external_asset lp_units a >>= λ lp. pure (lp, 0))

  unfoldable pub enlarge : LiquidityMsg → Pool → ℕ → Option Pool
  unfolding uint_add
  enlarge m p new_pool_units = elim (uint_add p.native_asset_balance m.native_asset_amount) [
    | none ↦ none
    | some native ↦ elim (uint_add p.external_asset_balance m.external_asset_amount) [
      | none ↦ none
      | some external ↦ some (record p {
        pool_units = new_pool_units;
        native_asset_balance = native;
        external_asset_balance = external;
      })
    ]
  ]

  -- The pool and the provider, after the payment.
  unfoldable pub write_addition : LiquidityMsg → Pool → Bytes → ℕ → Action (State ext) (Unit {0})
  unfolding find_or_create set_pool set_liquidity_provider uint_add
  write_addition m q a lp_units = do
    (lp, more) ← find_or_create m a lp_units
    units ← or_panic (uint_add lp.liquidity_provider_units more)
    wrap Error.unable_to_set_pool (set_pool ext q)
    set_liquidity_provider ext (record lp { liquidity_provider_units = units })

  unfoldable pub add_liquidity : LiquidityMsg → Pool → ℕ → ℕ → Action (State ext) (Unit {0})
  unfolding deposit_more enlarge write_addition
  add_liquidity m p new_pool_units lp_units = do
    a ← deposit_more m
    q ← or_panic (enlarge m p new_pool_units)
    write_addition m q a lp_units

  unfoldable pub remove_liquidity_provider :
      bank.Coins → LiquidityProvider → Action (State ext) (Unit {0})
  unfolding destroy_liquidity_provider
  remove_liquidity_provider coins lp = do
    a ← or_fail (bech32.acc_from_bech32 lp.liquidity_provider_address) Error.sdk_error
    wrap Error.unable_to_add_balance
        (on_bank ext (bank.send_coins_from_module_to_account module_name a coins))
    destroy_liquidity_provider ext lp.asset lp.liquidity_provider_address

  unfoldable pub decommission_pool : Pool → Action (State ext) (Unit {0})
  unfolding destroy_pool
  decommission_pool p = wrap Error.unable_to_destroy_pool (destroy_pool ext p.external_asset)

  -- Whether the account has each of the coins.
  unfoldable pub has_all : bank.Store → Bytes → List (String × ℤ) → Bool
  has_all s a [] = true
  has_all s a (c ∷ l) = ext.has_balance s a c && has_all s a l

  -- The payment of the coins to the provider; no call of the bank where there is none.
  unfoldable pub pay_withdrawn : Bytes → bank.Coins → Action (State ext) (Unit {0})
  unfolding has_all
  pay_withdrawn a coins = elim (ext.entries coins) as (λ _. Action (State ext) (Unit {0})) [
    | [] ↦ pure tt
    | c ∷ l ↦ gets (λ s. has_all s.coins (bank.module_address module_name) (c ∷ l)) >>= λ enough.
        fail_if (not enough) Error.not_enough_liquidity
        >> on_bank ext (bank.send_coins_from_module_to_account module_name a coins)
  ]

  unfoldable pub keep_provider : LiquidityProvider → ℕ → Action (State ext) (Unit {0})
  unfolding destroy_liquidity_provider set_liquidity_provider
  keep_provider lp units_left =
      if units_left == 0
      then destroy_liquidity_provider ext lp.asset lp.liquidity_provider_address
      else set_liquidity_provider ext (record lp { liquidity_provider_units = units_left })

  -- The pool, the payment and the provider, in this order.
  unfoldable pub write_removal :
      Pool → Bytes → bank.Coins → LiquidityProvider → ℕ → Action (State ext) (Unit {0})
  unfolding set_pool pay_withdrawn keep_provider
  write_removal p a coins lp units_left = do
    wrap Error.unable_to_set_pool (set_pool ext p)
    pay_withdrawn a coins
    keep_provider lp units_left

  -- The two coins are of the external asset and of the native one.
  unfoldable pub remove_liquidity :
      Pool → String × ℤ → String × ℤ → LiquidityProvider → ℕ → ℕ → ℕ → Action (State ext) (Unit {0})
  unfolding write_removal
  remove_liquidity p external native lp units_left original_external original_native = do
    a ← or_fail (bech32.acc_from_bech32 lp.liquidity_provider_address) Error.sdk_error
    coins ← or_panic (ext.add_coins (sendable external ++ sendable native))
    fail_if (leb_ℤ (pos original_external) external.1 || leb_ℤ (pos original_native) native.1)
        Error.pool_too_shallow
    write_removal p a coins lp units_left
