-- ===== src/Tests/Bridge.antt =====
-- Runs of the bridge: a lock, a burn, and a claim that mints.
use furynode.Prelude.{
  ◌⊎◌, ◌||◌, ◌&&◌, ◌≡◌, refl, true, false, none, some, List, [], ◌∷◌, String, arith, if◌then◌else◌,
}
use furynode.Prelude.Int.{pos, ◌+64◌, ◌-64◌}
use furynode.Prelude.Text.{Bytes, bytes_eq, contains, str_eq}
use furynode.Prelude.Dict.{lookup, insert}
use furynode.Chain.Action.{ok, succeeded}
use furynode.Oracle.Prophecy.{Status, StatusText}
use furynode.Oracle.Prophecy.{
  new_prophecy, new_status, serialize_for_db, deserialize_from_db, add_claim, find_highest_claim,
  count_claims, index_validators, white_list_power, in_white_list, claim_power, count_claim,
}
use furynode.Oracle.Keeper as Keeper
use furynode.Oracle.Keeper.{
  get_oracle_white_list, ensure_address_is_in_whitelist, check_active_validator, get_prophecy,
  set_prophecy, set_db_prophecy, process_completion, completed, settle, vote,
}
use furynode.Prelude.Decimal.{format_int}
use furynode.Bridge.Claim.{
  PauseMsg, SetBlacklistMsg, UpdateCethReceiverMsg, RescueCethMsg, lock, Codec, EthBridgeClaim,
  OracleClaimContent, TransferMsg, oracle_id, claim_content, new_oracle_claim_content,
  new_ethereum_address, create_oracle_claim_from_eth_claim, create_oracle_claim_from_oracle_string,
}
use furynode.Bridge.Keeper.{
  replace_blacklist, Externals, State, BridgeStore, exists_peggy_token, get_ceth_receiver_account,
  is_blacklisted, process_burn, process_lock, collect_and_burn, pay_ceth, process_claim,
  process_successful_claim, mint_claim, add_peggy_token,
}
use furynode.Bridge.Authority.{
  IsBridgeAdmin, IsOracleAdmin, msg_set_pause-IsBridgeAdmin, msgs-IsOracleAdmin,
}
use furynode.Bridge.Blacklist.{is_blacklisted-replace_blacklist}
use furynode.Bridge.Server.{
  msg_set_pause, msg_set_blacklist, msg_update_ceth_receiver_account, msg_rescue_ceth, msg_lock,
  msg_burn, msg_create_eth_bridge_claim,
}
use furynode.Bridge.Destroy.{IsCharged}
use furynode.Bridge.Charges.{IsAdmitted, IsPositive, msg_lock-IsCharged, msg_burn-IsCharged}
use furynode.Bridge.Mint.{IsMinted, process_successful_claim-IsMinted}
use furynode.Bridge.Handler.{Msg, deliver, deliver_all, handle}
use furynode.Bridge.Handler as Handler
use furynode.Bridge.Once.{msg_create_eth_bridge_claim_once}
use furynode.Tests.Codecs as Codecs
use furynode.Tests.Codecs.{ann, bob, bech32, bech32_laws, json_laws, staking}
use furynode.Tests.Ledger.{Accounts, bank, bank_laws}
use furynode.Tests.Oracle as Oracle

abbrev content : OracleClaimContent
content = record {
  cosmos_receiver = bob;
  amount = pos 5;
  symbol = "eth";
  token_contract_address = [];
  claim_type = lock;
}

-- The text of the one claim is "mint".
abbrev codec : Codec
codec = record {
  hex_to_address = λ s. [];
  is_hex_address = λ s. true;
  to_lower = λ s. s;
  marshal_content = λ c. some "mint";
  unmarshal_content = λ s. if str_eq s "mint" then some content else none;
}

abbrev externals : Externals
externals = record {
  bank = bank;
  oracle = Codecs.externals;
  codec = codec;
  has_account = λ a. true;
}

-- Each account holds 100 of each denomination.
abbrev accounts : Accounts
accounts = record { held = λ a d. 100; supplied = λ d. 300 }

abbrev bridge : BridgeStore
bridge = record {
  peggy_tokens = "cdai" ∷ [];
  ceth_receiver_account = "bob";
  blacklist = ("0xbad", "0xbad") ∷ [];
  is_paused = false;
}

abbrev state : State externals
state = record {
  coins = accounts;
  oracle_store = Oracle.store;
  admin_store = record { accounts = []; submit_proposal_fee = none };
  bridge = bridge;
}

abbrev transfer : String → TransferMsg
transfer symbol = record {
  cosmos_sender = "ann";
  amount = pos 10;
  symbol = symbol;
  ethereum_chain_id = pos 1;
  ethereum_receiver = "0xgood";
  ceth_amount = pos 7;
}

abbrev after_lock : State externals
after_lock = (msg_lock externals (transfer "fury") state).1

locked : msg_lock externals (transfer "fury") state ≡ (ok tt, after_lock)
unfolding msg_lock exists_peggy_token process_lock is_blacklisted get_ceth_receiver_account pay_ceth
    collect_and_burn bytes_eq lookup contains
locked = refl

msg_lock-IsCharged_example :
    (sender : Bytes) × (bech32.acc_from_bech32 "ann" ≡ some sender)
    × IsAdmitted externals bank_laws false (transfer "fury") state
    × IsCharged externals bank_laws sender (transfer "fury") state after_lock
msg_lock-IsCharged_example =
    msg_lock-IsCharged externals bank_laws (transfer "fury") state after_lock locked

abbrev after_burn : State externals
after_burn = (msg_burn externals (transfer "cdai") state).1

burnt : msg_burn externals (transfer "cdai") state ≡ (ok tt, after_burn)
unfolding msg_burn exists_peggy_token process_burn is_blacklisted get_ceth_receiver_account pay_ceth
    collect_and_burn bytes_eq lookup contains
burnt = refl

positive : IsPositive externals bank_laws (transfer "cdai")
positive = (omega arith, omega arith)

msg_burn-IsCharged_example :
    (sender : Bytes) × (bech32.acc_from_bech32 "ann" ≡ some sender)
    × IsAdmitted externals bank_laws true (transfer "cdai") state
    × IsCharged externals bank_laws sender (transfer "cdai") state after_burn
msg_burn-IsCharged_example =
    msg_burn-IsCharged externals bank_laws (transfer "cdai") state after_burn positive burnt

abbrev after_mint : State externals
after_mint = (process_successful_claim externals "mint" state).1

made : process_successful_claim externals "mint" state ≡ (ok tt, after_mint)
unfolding process_successful_claim create_oracle_claim_from_oracle_string mint_claim add_peggy_token
    bytes_eq contains
made = refl

process_successful_claim-IsMinted_example :
    (c : OracleClaimContent) × (create_oracle_claim_from_oracle_string codec "mint" ≡ ok c)
    × IsMinted externals bank_laws c state after_mint
process_successful_claim-IsMinted_example =
    process_successful_claim-IsMinted externals bank_laws "mint" state after_mint made

abbrev claim : EthBridgeClaim
claim = record {
  ethereum_chain_id = pos 0;
  bridge_contract_address = "0xbridge";
  nonce = pos 1;
  symbol = "eth";
  token_contract_address = "0x0";
  ethereum_sender = "0xsender";
  cosmos_receiver = "bob";
  validator_address = "ann";
  amount = pos 5;
  claim_type = lock;
}

abbrev later_claim : EthBridgeClaim
later_claim = record claim { validator_address = "bob"; amount = pos 50 }

abbrev decided : Status
decided = record { text = StatusText.success; final_claim = "mint" }

-- The number of the chain and the nonce are written one after the other: different pairs share an
-- id.
oracle_id_shared :
    oracle_id (record claim { ethereum_chain_id = pos 1; nonce = pos 11 })
    ≡ oracle_id (record claim { ethereum_chain_id = pos 11; nonce = pos 1 })
unfolding oracle_id format_int
oracle_id_shared = refl

abbrev after_claim : State externals
after_claim = (process_claim externals staking claim state).1

claim_decides : process_claim externals staking claim state ≡ (ok decided, after_claim)
unfolding process_claim create_oracle_claim_from_eth_claim oracle_id format_int claim_content
    new_oracle_claim_content new_ethereum_address Keeper.process_claim
    ensure_address_is_in_whitelist get_oracle_white_list check_active_validator vote settle
    process_completion completed find_highest_claim count_claims count_claim claim_power
    index_validators white_list_power in_white_list add_claim new_prophecy new_status get_prophecy
    set_prophecy set_db_prophecy serialize_for_db deserialize_from_db lookup insert bytes_eq ◌+64◌
    ◌-64◌
claim_decides = refl

claim_done : succeeded (msg_create_eth_bridge_claim externals staking claim state).0 ≡ true
unfolding msg_create_eth_bridge_claim process_successful_claim
    create_oracle_claim_from_oracle_string mint_claim add_peggy_token contains process_claim
    create_oracle_claim_from_eth_claim oracle_id format_int claim_content new_oracle_claim_content
    new_ethereum_address Keeper.process_claim ensure_address_is_in_whitelist get_oracle_white_list
    check_active_validator vote settle process_completion completed find_highest_claim count_claims
    count_claim claim_power index_validators white_list_power in_white_list add_claim new_prophecy
    new_status get_prophecy set_prophecy set_db_prophecy serialize_for_db deserialize_from_db lookup
    insert bytes_eq ◌+64◌ ◌-64◌
claim_done = refl

same_id : oracle_id later_claim ≡ oracle_id claim
unfolding oracle_id
same_id = refl

abbrev later : List Msg
later = Handler.lock (transfer "fury") ∷ Handler.create_eth_bridge_claim staking later_claim ∷ []

msg_create_eth_bridge_claim_once_example :
    let v =
      deliver_all externals later
        (deliver externals (Handler.create_eth_bridge_claim staking claim) state) in
    (succeeded (msg_create_eth_bridge_claim externals staking later_claim v).0 ≡ false)
    × ((msg_create_eth_bridge_claim externals staking later_claim v).1 ≡ v)
msg_create_eth_bridge_claim_once_example =
    msg_create_eth_bridge_claim_once externals bech32_laws json_laws staking staking claim
      later_claim decided later state after_claim Oracle.store-IsKeyed claim_done claim_decides refl
      same_id

is_blacklisted-replace_blacklist_example :
    is_blacklisted externals (replace_blacklist externals ("0xnew" ∷ []) bridge) "0xbad" ≡ (
      contains "0xbad" ("0xnew" ∷ [])
      || (str_eq "0xbad" "" && is_blacklisted externals bridge "0xbad"))
is_blacklisted-replace_blacklist_example =
    is_blacklisted-replace_blacklist externals ("0xnew" ∷ []) "0xbad" bridge

abbrev pausing : PauseMsg
pausing = record { signer = "ann"; is_paused = true }

msg_set_pause-IsBridgeAdmin_example :
    let (r, t) = msg_set_pause externals pausing state in
    ((succeeded r ≡ false) × (t ≡ state))
    ⊎ (IsBridgeAdmin externals "ann" state × (t.bridge.is_paused ≡ true) × (t.coins ≡ accounts))
msg_set_pause-IsBridgeAdmin_example = msg_set_pause-IsBridgeAdmin externals pausing state

abbrev listing : SetBlacklistMsg
listing = record { from = "bob"; addresses = "0xnew" ∷ [] }

abbrev paying_bob : UpdateCethReceiverMsg
paying_bob = record { cosmos_sender = "ann"; ceth_receiver_account = "bob" }

abbrev rescue : RescueCethMsg
rescue = record { cosmos_sender = "bob"; cosmos_receiver = "bob"; ceth_amount = pos 5 }

msgs-IsOracleAdmin_example :
    (((succeeded (msg_set_blacklist externals listing state).0 ≡ false)
        × ((msg_set_blacklist externals listing state).1 ≡ state))
      ⊎ IsBridgeAdmin externals "bob" state)
    × (((succeeded (msg_update_ceth_receiver_account externals paying_bob state).0 ≡ false)
          × ((msg_update_ceth_receiver_account externals paying_bob state).1 ≡ state))
        ⊎ IsOracleAdmin externals "ann" state)
    × (((succeeded (msg_rescue_ceth externals rescue state).0 ≡ false)
          × ((msg_rescue_ceth externals rescue state).1 ≡ state))
        ⊎ IsOracleAdmin externals "bob" state)
msgs-IsOracleAdmin_example = msgs-IsOracleAdmin externals listing paying_bob rescue state
