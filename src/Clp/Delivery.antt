-- ===== src/Clp/Delivery.antt =====
-- The messages of x/clp that move coins or liquidity, as a chain of transactions of one message each.
-- baseapp of the SDK drops what a transaction wrote that fails.
use furynode.Prelude.{List, [], ◌∷◌, String}
use furynode.Chain.Action.{Action, ok, err, panic}
use furynode.Clp.Provider.{RemoveLiquidityMsg}
use furynode.Clp.Keeper.{Externals, State}
use furynode.Clp.Executors.{LiquidityMsg}
use furynode.Clp.Server.{SwapMsg, swap}
use furynode.Clp.Messages.{UnitsMsg}
use furynode.Clp.Messages.NewPool.{handle_create_pool}
use furynode.Clp.Messages.AddLiquidity.{handle_add_liquidity}
use furynode.Clp.Messages.RemoveLiquidity.{handle_remove_liquidity, handle_remove_liquidity_units}
use furynode.Clp.Messages.DecommissionPool.{DecommissionPoolMsg, handle_decommission_pool}
use furynode.Clp.Messages.Parameters.{ParamsMsg, handle_params}
use furynode.Clp.Messages.Unlock.{handle_unlock_liquidity, handle_cancel_unlock_liquidity}

pub data ClpMsg : Type 0 where
  swap_msg : SwapMsg → ClpMsg
  create_pool_msg add_liquidity_msg : LiquidityMsg → ClpMsg
  remove_liquidity_msg : RemoveLiquidityMsg → ClpMsg
  remove_liquidity_units_msg unlock_liquidity_msg cancel_unlock_msg : UnitsMsg → ClpMsg
  decommission_pool_msg : DecommissionPoolMsg → ClpMsg
  params_msg : String → ParamsMsg → ClpMsg

abbrev pub signer_of : ClpMsg → String
signer_of (swap_msg m) = m.signer
signer_of (create_pool_msg m) = m.signer
signer_of (add_liquidity_msg m) = m.signer
signer_of (remove_liquidity_msg m) = m.signer
signer_of (remove_liquidity_units_msg m) = m.signer
signer_of (unlock_liquidity_msg m) = m.signer
signer_of (cancel_unlock_msg m) = m.signer
signer_of (decommission_pool_msg m) = m.signer
signer_of (params_msg signer m) = signer

module _ (ext : Externals) where
  unfoldable pub handle : ClpMsg → Action (State ext) (Unit {0})
  unfolding swap handle_create_pool handle_add_liquidity handle_remove_liquidity
      handle_remove_liquidity_units handle_unlock_liquidity handle_cancel_unlock_liquidity
      handle_decommission_pool handle_params
  handle (swap_msg m) = swap ext m
  handle (create_pool_msg m) = handle_create_pool ext m
  handle (add_liquidity_msg m) = handle_add_liquidity ext m
  handle (remove_liquidity_msg m) = handle_remove_liquidity ext m
  handle (remove_liquidity_units_msg m) = handle_remove_liquidity_units ext m
  handle (unlock_liquidity_msg m) = handle_unlock_liquidity ext m
  handle (cancel_unlock_msg m) = handle_cancel_unlock_liquidity ext m
  handle (decommission_pool_msg m) = handle_decommission_pool ext m
  handle (params_msg signer m) = handle_params ext signer m

  unfoldable pub deliver : ClpMsg → State ext → State ext
  unfolding handle
  deliver m s = let (r, t) = handle m s in elim r [ ok _ ↦ t | err _ ↦ s | panic ↦ s ]

  unfoldable pub deliver_all : List ClpMsg → State ext → State ext
  unfolding deliver
  deliver_all [] s = s
  deliver_all (m ∷ l) s = deliver_all l (deliver m s)
