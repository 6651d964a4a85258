-- ===== src/Clp/Keeper.antt =====
-- x/clp/keeper: pool.go, executors.go (the calls of a swap) and swap_fee_params.go.
use furynode.Prelude.{ℕ, Bool, not, Option, none, some, List, [], ◌∷◌, String, if◌then◌else◌}
use furynode.Prelude.Int.{ℤ, pos}
use furynode.Prelude.Text.{Bytes, str_eq}
use furynode.Prelude.Dict.{Dict, lookup, delete}
use furynode.Prelude.Store.{has, set}
use furynode.Chain.Action.{
  Action, Error, ◌>>=◌, ◌>>◌, fail_if, or_fail, or_panic, gets, modify, wrap, zoom,
}
use furynode.Admin.Keeper.{AdminStore}
use furynode.Chain.Bank.{Bank}
use furynode.Chain.Address.{Bech32}
use furynode.TokenRegistry.Keeper.{Registry}
use furynode.Clp.Provider.{LiquidityProvider, RemovalRequest, RemovalQueue}
use furynode.Clp.Pool.{Pool, native_symbol, get_pool_key, validate_asset}

-- What the keeper is built from, and the calls of the SDK that it makes.
pub record Externals : Type 1 where
  pub bank : Bank
  pub has_balance : bank.Store → Bytes → String × ℤ → Bool
  pub bech32 : Bech32
  -- `sdk.NewIntFromString` of the text of an `sdk.Uint`; `none` where it does not fit an `sdk.Int`.
  pub parse_to_int : ℕ → Option ℤ
  -- `strings.TrimSpace`, and whether `sdk.NewCoin` takes the denomination.
  pub trim_space : String → String
  pub valid_denom : String → Bool
  -- `Dec.Mul`, `Dec.Quo` (`none` is its panic) and `Dec.RoundInt`, on decimals as integers over
  -- 10 ^ 18.
  pub dec_mul : ℤ → ℤ → ℤ
  pub dec_quo : ℤ → ℤ → Option ℤ
  pub round_int : ℤ → ℤ
  -- `Dec.TruncateInt`, and `sdk.NewDecFromStr` of the text of an integer.
  pub truncate_int : ℤ → ℤ
  pub dec_from_str : ℤ → Option ℤ
  -- `sdk.NewDecFromStr` of any text.
  pub parse_dec : String → Option ℤ
  -- `coins.Add` of one coin after another to no coins (`none` is a panic), and the coins that are
  -- kept, in the order of their denominations and without those of nothing.
  pub add_coins : List (String × ℤ) → Option bank.Coins
  pub entries : bank.Coins → List (String × ℤ)
  -- `query.FilteredPaginate` with the limit of math.MaxUint64: the values under the prefix that
  -- the filter takes.
  pub filtered_paginate : {V : Type 0} → (V → Bool) → Dict V → List V

pub record LiquidityProtectionParams : Type 0 where
  pub max_fury_liquidity_threshold : ℕ
  pub max_fury_liquidity_threshold_asset : String
  pub epoch_length : ℕ
  pub is_active : Bool

pub record SwapFeeParams : Type 0 where
  pub default_swap_fee_rate : ℤ
  pub token_params : List (String × ℤ)

-- The parameters of the rewards that an unlock of liquidity reads, both `uint64`.
pub record RewardParams : Type 0 where
  pub liquidity_removal_lock_period : ℕ
  pub liquidity_removal_cancel_period : ℕ

-- The part of the parameters of x/margin that the messages of this module read.
pub record MarginParams : Type 0 where
  pub pools : List String
  pub removal_queue_threshold : ℤ

-- The policy of the running rate, on `int64`, and its counters.
pub record PmtpParams : Type 0 where
  pub pmtp_period_governance_rate : ℤ
  pub pmtp_period_epoch_length : ℤ
  pub pmtp_period_start_block : ℤ
  pub pmtp_period_end_block : ℤ

pub record PmtpEpoch : Type 0 where
  pub epoch_counter : ℤ
  pub block_counter : ℤ

abbrev pub module_name : String
module_name = "clp"

module _ (ext : Externals) where
  open ext use {bank, bech32}

  -- The coins, the registry of the tokens, the block's height, and the parts of the module's store
  -- and of the parameters that the messages of a swap and of liquidity read.
  pub record State : Type 0 where
    pub coins : bank.Store
    pub registry : Registry
    pub pools : Dict Pool
    pub protection_params : LiquidityProtectionParams
    pub current_fury_liquidity_threshold : ℕ
    pub pmtp_current_running_rate : ℤ
    pub swap_fee_params : Option SwapFeeParams
    pub height : ℤ
    pub providers : Dict LiquidityProvider
    pub reward_params : RewardParams
    pub enable_removal_queue : Bool
    pub removal_requests : Dict RemovalRequest
    pub removal_queues : Dict RemovalQueue
    pub margin_params : MarginParams
    pub clp_white_list : Option (List String)
    pub admins : AdminStore
    pub pmtp_params : PmtpParams
    pub pmtp_epoch : PmtpEpoch
    pub pmtp_period_block_rate : ℤ
    pub pmtp_inter_policy_rate : ℤ

  abbrev pub on_bank : {A : Type 0} → Action bank.Store A → Action State A
  on_bank = zoom (λ s. s.coins) (λ c s. record s { coins = c })

  unfoldable pub set_pool : Pool → Action State (Unit {0})
  set_pool p = do
    valid ← or_panic (validate_asset ext.trim_space ext.valid_denom p.external_asset)
    fail_if (not valid) Error.unable_to_set_pool
    modify (λ s. record s { pools = set (get_pool_key p.external_asset native_symbol) p s.pools })

  unfoldable pub get_pool : String → Action State Pool
  get_pool symbol s =
      or_fail (lookup (get_pool_key symbol native_symbol) s.pools) Error.pool_does_not_exist s

  unfoldable pub exists_pool : String → State → Bool
  exists_pool symbol s = has (get_pool_key symbol native_symbol) s.pools

  unfoldable pub destroy_pool : String → Action State (Unit {0})
  destroy_pool symbol = do
    exists ← gets (λ s. has (get_pool_key symbol native_symbol) s.pools)
    fail_if (not exists) Error.pool_does_not_exist
    modify (λ s. record s { pools = delete (get_pool_key symbol native_symbol) s.pools })

  unfoldable pub get_swap_fee_params : State → SwapFeeParams
  get_swap_fee_params s = elim s.swap_fee_params [
    | none ↦ record { default_swap_fee_rate = pos 3000000000000000; token_params = [] }
    | some p ↦ p
  ]

  rate_for : String → ℤ → List (String × ℤ) → ℤ
  rate_for symbol default [] = default
  rate_for symbol default ((a, r) ∷ l) = if str_eq symbol a then r else rate_for symbol default l

  unfoldable pub get_swap_fee_rate : String → Bool → State → ℤ
  unfolding get_swap_fee_params rate_for
  get_swap_fee_rate symbol margin_enabled s =
      let p = get_swap_fee_params s in
      if margin_enabled
      then p.default_swap_fee_rate
      else rate_for symbol p.default_swap_fee_rate p.token_params

  -- `sdk.NewCoin` panics on a denomination that is not valid.
  unfoldable pub initiate_swap : String → ℤ → Bytes → Action State (Unit {0})
  initiate_swap symbol amount swapper = do
    coins ← or_panic (bank.new_coins ((symbol, amount) ∷ []))
    enough ← gets (λ s. ext.has_balance s.coins swapper (symbol, amount))
    fail_if (not enough) Error.balance_not_available
    on_bank (bank.send_coins_from_account_to_module swapper module_name coins)

  -- The end of `FinalizeSwap`: the payment to the signer.
  unfoldable pub pay_received : ℕ → String → String → Action State (Unit {0})
  pay_received sent_amount signer received = do
    amount ← or_fail (ext.parse_to_int sent_amount) Error.unable_to_parse_int
    a ← or_fail (bech32.acc_from_bech32 signer) Error.sdk_error
    coins ← or_panic (bank.new_coins ((received, amount) ∷ []))
    on_bank (bank.send_coins_from_module_to_account module_name a coins)

  -- The signer and the received asset are those of the message.
  unfoldable pub finalize_swap : ℕ → Pool → String → String → Action State (Unit {0})
  unfolding set_pool pay_received
  finalize_swap sent_amount final_pool signer received = do
    wrap Error.unable_to_set_pool (set_pool final_pool)
    pay_received sent_amount signer received
