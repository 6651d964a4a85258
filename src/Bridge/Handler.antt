-- ===== src/Bridge/Handler.antt =====
-- x/ethbridge/handler.go: the messages of the module, and histories of transactions.
use furynode.Prelude.{List, [], ◌∷◌, if◌then◌else◌}
use furynode.Chain.Action.{Action, succeeded}
use furynode.Oracle.Prophecy.{Staking}
use furynode.Bridge.Claim.{
  EthBridgeClaim, TransferMsg, PauseMsg, UpdateWhiteListMsg, UpdateCethReceiverMsg, RescueCethMsg,
  SetBlacklistMsg,
}
use furynode.Bridge.Keeper.{Externals, State}
use furynode.Bridge.Server.{
  msg_set_pause, msg_lock, msg_burn, msg_create_eth_bridge_claim, msg_update_white_list_validator,
  msg_update_ceth_receiver_account, msg_rescue_ceth, msg_set_blacklist,
}

-- A message, and for a claim what the staking keeper answers while it is handled.
pub data Msg : Type 0 where
  create_eth_bridge_claim : Staking → EthBridgeClaim → Msg
  burn lock : TransferMsg → Msg
  update_white_list_validator : UpdateWhiteListMsg → Msg
  update_ceth_receiver_account : UpdateCethReceiverMsg → Msg
  rescue_ceth : RescueCethMsg → Msg
  set_blacklist : SetBlacklistMsg → Msg
  pause : PauseMsg → Msg

module _ (ext : Externals) where
  unfoldable pub handle : Msg → Action (State ext) (Unit {0})
  handle (create_eth_bridge_claim st c) = msg_create_eth_bridge_claim ext st c
  handle (burn m) = msg_burn ext m
  handle (lock m) = msg_lock ext m
  handle (update_white_list_validator m) = msg_update_white_list_validator ext m
  handle (update_ceth_receiver_account m) = msg_update_ceth_receiver_account ext m
  handle (rescue_ceth m) = msg_rescue_ceth ext m
  handle (set_blacklist m) = msg_set_blacklist ext m
  handle (pause m) = msg_set_pause ext m

  -- The SDK keeps the writes of a transaction only if its handler returns no error.
  unfoldable pub deliver : Msg → State ext → State ext
  deliver m s = let (r, t) = handle m s in if succeeded r then t else s

  unfoldable pub deliver_all : List Msg → State ext → State ext
  deliver_all [] s = s
  deliver_all (m ∷ l) s = deliver_all l (deliver m s)
