-- ===== src/Clp/Messages/DecommissionPool.antt =====
-- x/clp/keeper/msg_server.go: the message that ends a pool, and validatorWhitelist.go.
use furynode.Prelude.{ℕ, Bool, false, not, ◌||◌, Option, none, some, List, [], ◌∷◌, String, leb}
use furynode.Prelude.Text.{Bytes, bytes_eq}
use furynode.Chain.Action.{Action, Error, ◌>>=◌, ◌>>◌, pure, fail_if, or_fail, or_panic, gets, wrap}
use furynode.Clp.Rat.{uint_sub}
use furynode.Clp.Pool.{Pool, native_symbol}
use furynode.Clp.Provider.{LiquidityProvider}
use furynode.Clp.Keeper.{Externals, State, get_pool}
use furynode.Clp.Withdrawal.{Withdrawal, calculate_all_assets_for_lp}
use furynode.Clp.Providers.{get_liquidity_providers_for_asset}
use furynode.Clp.Executors.{new_coin, remove_liquidity_provider, decommission_pool}
use furynode.Clp.Messages.NewPool.{pool_threshold}

pub record DecommissionPoolMsg : Type 0 where
  pub signer : String
  pub symbol : String

-- The running balances after a refund: units, native and external. Below zero is a panic.
unfoldable pub less_refund : ℕ × ℕ × ℕ → LiquidityProvider → Withdrawal → Option (ℕ × ℕ × ℕ)
unfolding uint_sub
less_refund (units, native, external) lp w = elim (uint_sub units lp.liquidity_provider_units) [
  | none ↦ none
  | some units' ↦ elim (uint_sub native w.native) [
    | none ↦ none
    | some native' ↦ elim (uint_sub external w.external) [
      | none ↦ none
      | some external' ↦ some (units', native', external')
    ]
  ]
]

module _ (ext : Externals) where
  open ext use {bank, bech32}

  -- `GetClpWhiteList`: an entry that is not an address is a panic.
  unfoldable pub decode_all : List String → Option (List Bytes)
  decode_all [] = some []
  decode_all (s ∷ l) = elim (bech32.acc_from_bech32 s) [
    | none ↦ none
    | some a ↦ elim (decode_all l) [ none ↦ none | some as_ ↦ some (a ∷ as_) ]
  ]

  unfoldable pub any_equal : Bytes → List Bytes → Bool
  unfolding bytes_eq
  any_equal a [] = false
  any_equal a (b ∷ l) = bytes_eq b a || any_equal a l

  unfoldable pub validate_address : Bytes → Action (State ext) Bool
  unfolding decode_all any_equal
  validate_address a = do
    white_list ← gets (λ s. s.clp_white_list)
    elim white_list [
      | none ↦ pure false
      | some l ↦ or_panic (decode_all l) >>= λ as_. pure (any_equal a as_)
    ]

  unfoldable pub check_decommission : DecommissionPoolMsg → Action (State ext) Pool
  unfolding get_pool validate_address
  check_decommission m = do
    p ← wrap Error.pool_does_not_exist (get_pool ext m.symbol)
    a ← or_fail (bech32.acc_from_bech32 m.signer) Error.sdk_error
    listed ← validate_address a
    fail_if (not listed) Error.invalid
    fail_if (leb pool_threshold p.native_asset_balance) Error.balance_too_high
    pure p

  -- The two coins of a refund.
  unfoldable pub refund_coins : DecommissionPoolMsg → Withdrawal → Action (State ext) bank.Coins
  unfolding new_coin
  refund_coins m w = do
    native_amount ← or_fail (ext.parse_to_int w.native) Error.unable_to_parse_int
    external_amount ← or_fail (ext.parse_to_int w.external) Error.unable_to_parse_int
    c ← or_panic (new_coin ext native_symbol native_amount)
    d ← or_panic (new_coin ext m.symbol external_amount)
    or_panic (bank.new_coins (d ∷ c ∷ []))

  -- A provider gets its share of the pool as it was before the message.
  unfoldable pub refund :
      DecommissionPoolMsg → Pool → ℕ × ℕ × ℕ → LiquidityProvider → Action (State ext) (ℕ × ℕ × ℕ)
  unfolding calculate_all_assets_for_lp less_refund refund_coins remove_liquidity_provider
  refund m p balances lp = do
    w ← or_panic (calculate_all_assets_for_lp ext p lp)
    rest ← or_panic (less_refund balances lp w)
    coins ← refund_coins m w
    wrap Error.unable_to_remove_liquidity_provider (remove_liquidity_provider ext coins lp)
    pure rest

  unfoldable pub refund_all :
      DecommissionPoolMsg
      → Pool
      → ℕ × ℕ × ℕ
      → List LiquidityProvider
      → Action (State ext) (ℕ × ℕ × ℕ)
  unfolding refund
  refund_all m p balances [] = pure balances
  refund_all m p balances (lp ∷ l) = refund m p balances lp >>= λ rest. refund_all m p rest l

  unfoldable pub handle_decommission_pool : DecommissionPoolMsg → Action (State ext) (Unit {0})
  unfolding check_decommission get_liquidity_providers_for_asset refund_all decommission_pool
  handle_decommission_pool m = do
    p ← check_decommission m
    lps ← gets (get_liquidity_providers_for_asset ext p.external_asset)
    _ ← refund_all m p (p.pool_units, p.native_asset_balance, p.external_asset_balance) lps
    wrap Error.unable_to_decommission_pool (decommission_pool ext p)
