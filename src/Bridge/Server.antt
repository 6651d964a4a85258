-- ===== src/Bridge/Server.antt =====
-- x/ethbridge/keeper/msg_server.go: the handlers of the messages. Logs and events are left out.
use furynode.Prelude.{Bool, true, false, not, if◌then◌else◌}
use furynode.Chain.Action.{Action, Error, ◌>>=◌, ◌>>◌, pure, fail_if, or_fail, gets}
use furynode.Oracle.Prophecy.{StatusText, Staking, success}
use furynode.Oracle.Keeper as Oracle
use furynode.Admin.Keeper as Admin
use furynode.Bridge.Claim.{
  EthBridgeClaim, TransferMsg, PauseMsg, UpdateWhiteListMsg, UpdateCethReceiverMsg, RescueCethMsg,
  SetBlacklistMsg,
}
use furynode.Bridge.Keeper.{
  Externals, State, on_bridge, on_oracle, set_pause, exists_peggy_token, process_lock, process_burn,
  process_claim, process_successful_claim, process_update_ceth_receiver_account,
  process_rescue_ceth, set_blacklist,
}

abbrev pub is_success : StatusText → Bool
is_success success = true
is_success _ = false

module _ (ext : Externals) where
  open ext use {oracle, has_account}
  open oracle use {bech32}

  unfoldable pub msg_set_pause : PauseMsg → Action (State ext) (Unit {0})
  msg_set_pause m = do
    signer ← or_fail (bech32.acc_from_bech32 m.signer) Error.sdk_error
    allowed ← gets (λ s. Admin.is_admin_account bech32 s.admin_store Admin.ethbridge signer)
    fail_if (not allowed) Error.not_enough_permissions
    on_bridge ext (set_pause ext m.is_paused)

  unfoldable pub msg_lock : TransferMsg → Action (State ext) (Unit {0})
  msg_lock m = do
    paused ← gets (λ s. s.bridge.is_paused)
    fail_if paused Error.paused
    pegged ← gets (λ s. exists_peggy_token ext s.bridge m.symbol)
    fail_if pegged Error.pegged_token_locked
    sender ← or_fail (bech32.acc_from_bech32 m.cosmos_sender) Error.sdk_error
    fail_if (not (has_account sender)) Error.invalid_address
    process_lock ext sender m

  unfoldable pub msg_burn : TransferMsg → Action (State ext) (Unit {0})
  msg_burn m = do
    paused ← gets (λ s. s.bridge.is_paused)
    fail_if paused Error.paused
    pegged ← gets (λ s. exists_peggy_token ext s.bridge m.symbol)
    fail_if (not pegged) Error.native_token_burned
    sender ← or_fail (bech32.acc_from_bech32 m.cosmos_sender) Error.sdk_error
    fail_if (not (has_account sender)) Error.invalid_address
    process_burn ext sender m

  unfoldable pub msg_create_eth_bridge_claim :
      Staking → EthBridgeClaim → Action (State ext) (Unit {0})
  msg_create_eth_bridge_claim st c = do
    status ← process_claim ext st c
    if is_success status.text then process_successful_claim ext status.final_claim else pure tt

  unfoldable pub msg_update_white_list_validator :
      UpdateWhiteListMsg → Action (State ext) (Unit {0})
  msg_update_white_list_validator m = do
    sender ← or_fail (bech32.acc_from_bech32 m.cosmos_sender) Error.sdk_error
    fail_if (not (has_account sender)) Error.unknown_address
    validator ← or_fail (bech32.val_from_bech32 m.validator) Error.invalid_address
    on_oracle ext
        (Oracle.process_update_white_list_validator oracle sender validator m.operation_type)

  unfoldable pub msg_update_ceth_receiver_account :
      UpdateCethReceiverMsg → Action (State ext) (Unit {0})
  msg_update_ceth_receiver_account m = do
    sender ← or_fail (bech32.acc_from_bech32 m.cosmos_sender) Error.sdk_error
    receiver ← or_fail (bech32.acc_from_bech32 m.ceth_receiver_account) Error.sdk_error
    fail_if (not (has_account sender)) Error.invalid_address
    process_update_ceth_receiver_account ext sender receiver

  unfoldable pub msg_rescue_ceth : RescueCethMsg → Action (State ext) (Unit {0})
  msg_rescue_ceth m = do
    sender ← or_fail (bech32.acc_from_bech32 m.cosmos_sender) Error.sdk_error
    fail_if (not (has_account sender)) Error.invalid_address
    process_rescue_ceth ext m

  unfoldable pub msg_set_blacklist : SetBlacklistMsg → Action (State ext) (Unit {0})
  msg_set_blacklist m = set_blacklist ext m
