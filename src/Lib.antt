-- ===== src/Lib.antt =====
-- furynode: the bridge to Ethereum, the oracle behind it, and the accounts that administer them.
--
-- The program is a Cosmos SDK chain. Validators that relay Ethereum send claims; the module
-- `x/ethbridge` turns each into a claim on a prophecy of `x/oracle`, which counts the power behind
-- the claims and finalizes the prophecy; the bridge then mints what the final claim says. Users
-- burn and lock coins to send value back. `x/admin` says who may pause the bridge, set its
-- blacklist and change the list of tokens of `x/tokenregistry`; `x/clp` is a market maker for them.
-- `x/dispensation` pays out distributions of coins that a distributor has paid in, record by record,
-- when their runner asks for it, and mints for the ecosystem pool at the beginning of each block.
--
-- Files, and the code that they model:
--   Prelude, Prelude/*: shared names, Boolean tests, integers with the wrap-around of `int64`
--     (`+64`, `-64`), texts and byte slices, maps as association lists, and
--     stores under a prefix as lists in the order of their keys (Store), which iterators visit.
--   Chain/Action: a call over a store, which returns, fails with a Go error or panics.
--   Chain/Address, Chain/Bank: the bech32 codec and the bank keeper of the SDK, as interfaces.
--   Oracle/Prophecy: x/oracle/types/prophecy.go (`FindHighestClaim` is `find_highest_claim`).
--   Oracle/Keeper: x/oracle/keeper/{keeper,validatorWhiteList,adminAccount}.go (`ProcessClaim` is
--     `process_claim`, its part from the lookup of the prophecy on is `vote`).
--   Oracle/Finality, OneVote, Votes, Stored, Tally, Order, WhiteList: proofs about the oracle.
--   Admin/Keeper: x/admin/keeper/{keeper,msg_server}.go and x/admin/types/keys.go; Admin/Accounts:
--     proofs about it.
--   Bridge/Claim, Bridge/Messages: x/ethbridge/types/{claim,ethereum,keys,msgs}.go.
--   Bridge/Keeper: x/ethbridge/keeper/{keeper,peggyTokens,cethReceiverAccount,blacklist,pauser}.go.
--   Bridge/Server, Bridge/Handler: x/ethbridge/keeper/msg_server.go and x/ethbridge/handler.go
--     (`Lock` is `msg_lock`, and so on; `deliver` is a transaction, whose writes are kept only if
--     its handler succeeds).
--   Bridge/Frame, Destroy, Charges, Checked, Mint, Once, Authority, Blacklist: proofs about the
--     bridge.
--   TokenRegistry/Keeper: x/tokenregistry/keeper/{keeper,msg_server}.go and types/types.go;
--     TokenRegistry/Entries: proofs about it.
--   Clp/Rat, Clp/Swap: the swap, the units of a symmetric addition and the symmetry state of
--     x/clp/keeper/calculations.go, on the fractions of pureCalculation.go, with `NewUintFromBigInt`
--     and the checks of `sdk.Uint` on 256 bits; Clp/Quotients, Price, Units: proofs about them.
--   Dispensation/Records, Names: x/dispensation/types/{records,keys}.go and its messages' types.
--   Dispensation/Keeper, Queries, Executors: x/dispensation/keeper/{distribution,
--     distributionRecords,userclaim,executors}.go (`DistributeDrops` is `distribute_drops`, a turn of
--     its loop `distribute_drop`).
--   Dispensation/Server: x/dispensation/keeper/msg_server.go, handler.go and types/msgs.go.
--   Dispensation/Mint: x/dispensation/abci.go and keeper/mint_controller.go.
--   Dispensation/Reserve, Solvency, Runs, Selection, Limits, Funding, Creation, Cap, Counter,
--     Progress, Histories: proofs about it. A step of `Histories` is a beginning of a block, a message that returns, or what
--     the rest of the chain does to the coins.
--   Clp/Pool: the pool of x/clp/types/types.go and `SwapOne` of x/clp/keeper/calculations.go;
--     Clp/Keeper, Protection: x/clp/keeper/{pool,executors,swap_fee_params,liquidityprotection}.go,
--     as far as these messages call them; Clp/Server: the message `Swap` of x/clp/keeper/msg_server.go;
--     Clp/Deposits, Custody, Payment, Legs, Exchange, Threshold: proofs about them.
--   Clp/Provider, Providers: x/clp/keeper/liquidityprovider.go and the unlocks of rewards.go;
--     Clp/Asymmetric, Withdrawal: the units of an addition and the withdrawals of
--     x/clp/keeper/calculations.go; Clp/Executors: executors.go; Clp/Queue: removalqueue.go;
--     Clp/Health: what x/margin/keeper says of a pool; Clp/Messages and its children: the
--     messages of liquidity of x/clp/keeper/msg_server.go (`AddLiquidity` is
--     `handle_add_liquidity`, and so on), and in Messages/Parameters six of its messages that set
--     parameters; Clp/Delivery: each message as a transaction. `big.Int.Sqrt` runs on as much
--     fuel as the number, of which it takes two binary digits at a time. Clp/Kept and its
--     children, Clp/Settings and its children, Clp/Unlocked: proofs.
--   Tests, Tests/*: concrete codecs and a concrete ledger, which satisfy the laws that the theorems
--     ask for, and runs on them.
--
-- Choices. A store is a record with one field for each key prefix; the protobuf codec of the store
-- is taken as faithful. Logs, events and gas are left out. `sdk.Int` is unbounded: its limit of
-- 256 bits is left out, but in x/clp, where `sdk.Uint` panics above 256 bits. Power is `int64` and
-- wraps around. A Go map is an association list, visited in the order that the parameter `range`
-- gives; `float64`, encoding/json, bech32, go-ethereum's addresses, the bank, account and staking
-- keepers, and the coins and the decimals of the SDK are parameters, with the laws that the
-- theorems name. `decimal` runs on 20 units of fuel, and an `int64` has 19 digits at most.
--
-- Not modelled: the clients, queries, genesis of the oracle and the bridge, registration of the
-- modules, the relayer (cmd/ebrelayer), x/ibctransfer, x/margin but for what x/clp asks of it, the
-- rewards, the course of the rate policy and the other messages that set parameters of x/clp, and
-- the contracts on Ethereum.
pub mod Prelude
pub mod Chain
pub mod Oracle
pub mod Admin
pub mod TokenRegistry
pub mod Clp
pub mod Dispensation
pub mod Bridge
pub mod Tests
