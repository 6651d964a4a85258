-- ===== src/Bridge/Keeper.antt =====
-- x/ethbridge/keeper: keeper.go, peggyTokens.go, cethReceiverAccount.go, blacklist.go, pauser.go.
use Prim.Native.String.{◌++◌ as text_append}
use furynode.Prelude.{
  Bool, true, false, not, ◌&&◌, Option, none, some, List, [], ◌∷◌, ◌++◌, String, if◌then◌else◌,
}
use furynode.Prelude.Int.{ℤ, ◌+ℤ◌}
use furynode.Prelude.Text.{Bytes, str_eq, contains}
use furynode.Prelude.Dict.{Dict, lookup, insert, delete}
use furynode.Chain.Action.{
  Action, Outcome, ok, err, panic, Error, ◌>>=◌, ◌>>◌, pure, fail, fail_if, or_fail, or_panic, gets,
  modify, zoom,
}
use furynode.Chain.Bank.{Bank}
use furynode.Oracle.Prophecy.{Status, Staking}
use furynode.Oracle.Keeper as Oracle
use furynode.Oracle.Keeper.{OracleStore}
use furynode.Admin.Keeper as Admin
use furynode.Admin.Keeper.{AdminStore}
use furynode.Bridge.Claim.{
  burn, lock, unspecified, EthBridgeClaim, OracleClaimContent, Codec,
  create_oracle_claim_from_eth_claim, create_oracle_claim_from_oracle_string, ceth_symbol,
  pegged_coin_prefix, module_name, TransferMsg, RescueCethMsg, SetBlacklistMsg,
}

-- The store of the module, one field for each key prefix.
pub record BridgeStore : Type 0 where
  pub peggy_tokens : List String
  pub ceth_receiver_account : String
  -- The addresses under the prefix, each with itself as its value.
  pub blacklist : Dict String
  pub is_paused : Bool

-- What the keeper is built from.
pub record Externals : Type 1 where
  pub bank : Bank
  pub oracle : Oracle.Externals
  pub codec : Codec
  -- Whether an account exists (`accountKeeper.GetAccount` is not nil).
  pub has_account : Bytes → Bool

module _ (ext : Externals) where
  open ext use {bank, oracle, codec}

  -- The stores that the handlers of the bridge read and write.
  pub record State : Type 0 where
    pub coins : bank.Store
    pub oracle_store : OracleStore
    pub admin_store : AdminStore
    pub bridge : BridgeStore

  abbrev pub on_bridge : {A : Type 0} → Action BridgeStore A → Action State A
  on_bridge = zoom (λ s. s.bridge) (λ b s. record s { bridge = b })

  abbrev pub on_coins : {A : Type 0} → Action bank.Store A → Action State A
  on_coins = zoom (λ s. s.coins) (λ c s. record s { coins = c })

  abbrev pub on_oracle : {A : Type 0} → Action OracleStore A → Action State A
  on_oracle = zoom (λ s. s.oracle_store) (λ o s. record s { oracle_store = o })

  abbrev pub lift : {A : Type 0} → Outcome A → Action State A
  lift r s = (r, s)

  -- `if err := …; err != nil { panic(err) }`
  abbrev pub must : {A : Type 0} → Action State A → Action State A
  must m s =
      let (r, t) = m s in elim r [ ok a ↦ (ok a, t) | err e ↦ (panic, t) | panic ↦ (panic, t) ]

  unfoldable pub set_pause : Bool → Action BridgeStore (Unit {0})
  set_pause p = modify λ s. record s { is_paused = p }

  unfoldable pub exists_peggy_token : BridgeStore → String → Bool
  exists_peggy_token s token = contains token s.peggy_tokens

  unfoldable pub add_peggy_token : String → Action BridgeStore (Unit {0})
  unfolding exists_peggy_token
  add_peggy_token token s =
      if exists_peggy_token s token
      then (ok tt, s)
      else (ok tt, record s { peggy_tokens = s.peggy_tokens ++ token ∷ [] })

  unfoldable pub set_ceth_receiver_account : Bytes → Action BridgeStore (Unit {0})
  set_ceth_receiver_account a =
      modify λ s. record s { ceth_receiver_account = oracle.bech32.acc_string a }

  -- `none` is a nil address: nothing is stored, or what is stored does not decode.
  unfoldable pub get_ceth_receiver_account : BridgeStore → Option Bytes
  get_ceth_receiver_account s =
      if str_eq s.ceth_receiver_account ""
      then none
      else oracle.bech32.acc_from_bech32 s.ceth_receiver_account

  unfoldable pub is_blacklisted : BridgeStore → String → Bool
  is_blacklisted s address = elim (lookup address s.blacklist) [ none ↦ false | some _ ↦ true ]

  -- The keys that the iterator visits and the message does not list; the empty key is passed over.
  unfoldable pub removals : List String → Dict String → List String
  removals kept [] = []
  removals kept ((a, v) ∷ d) =
      let rest = removals kept d in
      if not (str_eq a "") && not (contains a kept) then a ∷ rest else rest

  unfoldable pub delete_all : List String → Dict String → Dict String
  delete_all [] d = d
  delete_all (a ∷ as_) d = delete_all as_ (delete a d)

  unfoldable pub set_all : List String → Dict String → Dict String
  set_all [] d = d
  set_all (a ∷ as_) d = set_all as_ (insert a a d)

  -- The writes of `SetBlacklist`.
  unfoldable pub replace_blacklist : List String → BridgeStore → BridgeStore
  unfolding removals delete_all set_all
  replace_blacklist l s = record s {
    blacklist = set_all l (delete_all (removals l s.blacklist) s.blacklist);
  }

  unfoldable pub set_blacklist : SetBlacklistMsg → Action State (Unit {0})
  unfolding replace_blacklist
  set_blacklist m = do
    from ← or_fail (oracle.bech32.acc_from_bech32 m.from) Error.sdk_error
    allowed ← gets (λ s. Admin.is_admin_account oracle.bech32 s.admin_store Admin.ethbridge from)
    fail_if (not allowed) Error.not_admin_account
    on_bridge (modify (replace_blacklist m.addresses))

  unfoldable pub process_claim : Staking → EthBridgeClaim → Action State Status
  process_claim st c = do
    claim ← lift (create_oracle_claim_from_eth_claim oracle.bech32 codec c)
    on_oracle (Oracle.process_claim oracle st claim)

  abbrev pub coins_of : List (String × ℤ) → Action State bank.Coins
  coins_of l = or_panic (bank.new_coins l)

  -- The `switch` of `ProcessSuccessfulClaim`: the coins, minted.
  unfoldable pub mint_claim : OracleClaimContent → Action State bank.Coins
  mint_claim c = elim c.claim_type [
    | lock ↦ do
      on_bridge (add_peggy_token (text_append pegged_coin_prefix c.symbol))
      coins ← coins_of ((text_append pegged_coin_prefix c.symbol, c.amount) ∷ [])
      on_coins (bank.mint_coins module_name coins)
      pure coins
    | burn ↦ do
      coins ← coins_of ((c.symbol, c.amount) ∷ [])
      on_coins (bank.mint_coins module_name coins)
      pure coins
    | unspecified ↦ fail Error.invalid_claim_type
  ]

  unfoldable pub process_successful_claim : String → Action State (Unit {0})
  unfolding mint_claim
  process_successful_claim claim = do
    content ← lift (create_oracle_claim_from_oracle_string codec claim)
    coins ← mint_claim content
    must (
        on_coins (bank.send_coins_from_module_to_account module_name content.cosmos_receiver coins))

  -- The end of `ProcessBurn` and `ProcessLock`: collect the coins, and burn what is transferred.
  unfoldable pub collect_and_burn : Bytes → TransferMsg → bank.Coins → Action State (Unit {0})
  collect_and_burn sender m coins = do
    on_coins (bank.send_coins_from_account_to_module sender module_name coins)
    burned ← coins_of ((m.symbol, m.amount) ∷ [])
    on_coins (bank.burn_coins module_name burned)

  -- Where an account receives the ceth: it is paid first.
  unfoldable pub pay_ceth : Bytes → TransferMsg → Bytes → Action State bank.Coins
  pay_ceth sender m receiver = do
    ceth ← coins_of ((ceth_symbol, m.ceth_amount) ∷ [])
    on_coins (bank.send_coins sender receiver ceth)
    coins_of ((m.symbol, m.amount) ∷ [])

  unfoldable pub process_burn : Bytes → TransferMsg → Action State (Unit {0})
  process_burn sender m = do
    blacklisted ← gets (λ s. is_blacklisted s.bridge m.ethereum_receiver)
    fail_if blacklisted Error.invalid_eth_address
    receiver ← gets (λ s. get_ceth_receiver_account s.bridge)
    coins ← elim receiver [
      | some r ↦ pay_ceth sender m r
      | none ↦
          if str_eq m.symbol ceth_symbol
          then coins_of ((ceth_symbol, m.ceth_amount +ℤ m.amount) ∷ [])
          else coins_of ((m.symbol, m.amount) ∷ (ceth_symbol, m.ceth_amount) ∷ [])
    ]
    collect_and_burn sender m coins

  unfoldable pub process_lock : Bytes → TransferMsg → Action State (Unit {0})
  process_lock sender m = do
    blacklisted ← gets (λ s. is_blacklisted s.bridge m.ethereum_receiver)
    fail_if blacklisted Error.invalid_eth_address
    receiver ← gets (λ s. get_ceth_receiver_account s.bridge)
    coins ← elim receiver [
      | some r ↦ pay_ceth sender m r
      | none ↦ coins_of ((m.symbol, m.amount) ∷ (ceth_symbol, m.ceth_amount) ∷ [])
    ]
    collect_and_burn sender m coins

  unfoldable pub process_update_ceth_receiver_account : Bytes → Bytes → Action State (Unit {0})
  process_update_ceth_receiver_account sender receiver = do
    allowed ← gets (λ s. Oracle.is_admin_account oracle s.oracle_store sender)
    fail_if (not allowed) Error.only_admin_ceth_receiver
    on_bridge (set_ceth_receiver_account receiver)

  unfoldable pub process_rescue_ceth : RescueCethMsg → Action State (Unit {0})
  process_rescue_ceth m = do
    sender ← or_fail (oracle.bech32.acc_from_bech32 m.cosmos_sender) Error.sdk_error
    receiver ← or_fail (oracle.bech32.acc_from_bech32 m.cosmos_receiver) Error.sdk_error
    allowed ← gets (λ s. Oracle.is_admin_account oracle s.oracle_store sender)
    fail_if (not allowed) Error.only_admin_rescue
    coins ← coins_of ((ceth_symbol, m.ceth_amount) ∷ [])
    on_coins (bank.send_coins_from_module_to_account module_name receiver coins)
