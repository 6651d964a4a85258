-- ===== src/Bridge/Frame.antt =====
-- Which messages touch the prophecies: claims alone, and through the oracle alone.
use furynode.Prelude.{◌≡◌, refl, ◌⊎◌, inl, inr, String, arith, Option-cases, Bool-cases}
use furynode.Prelude.Text.{Bytes}
use furynode.Chain.Action.{Outcome, ok, err, panic, succeeded}
use furynode.Oracle.Prophecy.{Claim, Staking, Status}
use furynode.Oracle.Keeper as Oracle
use furynode.Bridge.Claim.{
  EthBridgeClaim, TransferMsg, create_oracle_claim_from_eth_claim, UpdateWhiteListMsg,
  UpdateCethReceiverMsg, RescueCethMsg, SetBlacklistMsg, PauseMsg,
}
use furynode.Bridge.Keeper.{
  Externals, State, process_claim, process_successful_claim, collect_and_burn, pay_ceth,
  process_lock, process_burn, set_blacklist, process_update_ceth_receiver_account,
  process_rescue_ceth,
}
use furynode.Bridge.Server.{
  msg_set_pause, msg_lock, msg_burn, msg_create_eth_bridge_claim, msg_update_white_list_validator,
  msg_update_ceth_receiver_account, msg_rescue_ceth, msg_set_blacklist,
}
use furynode.Bridge.Handler as Handler
use furynode.Bridge.Handler.{Msg, handle, deliver}

module _ (ext : Externals) where
  -- The oracle's store is as it was.
  abbrev SameOracle : {A : Type 0} → State ext → Outcome A × State ext → Type 0
  SameOracle s (r, t) = t.oracle_store ≡ s.oracle_store

  pub process_successful_claim-SameOracle :
      (claim : String) (s : State ext)
      → (process_successful_claim ext claim s).1.oracle_store ≡ s.oracle_store
  unfolding process_successful_claim
  process_successful_claim-SameOracle claim s = ground arith

  msg_lock-SameOracle :
      (m : TransferMsg) (s : State ext) → (msg_lock ext m s).1.oracle_store ≡ s.oracle_store
  unfolding msg_lock process_lock pay_ceth collect_and_burn
  msg_lock-SameOracle m s = ground arith

  msg_burn-SameOracle :
      (m : TransferMsg) (s : State ext) → (msg_burn ext m s).1.oracle_store ≡ s.oracle_store
  unfolding msg_burn process_burn pay_ceth collect_and_burn
  msg_burn-SameOracle m s = ground arith

  -- An update of the white list leaves the prophecies.
  update-prophecies :
      (a v : Bytes) (op : String) (s : Oracle.OracleStore)
      → (Oracle.process_update_white_list_validator ext.oracle a v op s).1.prophecies ≡ s.prophecies
  unfolding Oracle.process_update_white_list_validator Oracle.add_oracle_white_list
      Oracle.remove_oracle_white_list
  update-prophecies a v op s = ground arith

  msg_update-prophecies :
      (m : UpdateWhiteListMsg) (s : State ext)
      → (msg_update_white_list_validator ext m s).1.oracle_store.prophecies
        ≡ s.oracle_store.prophecies
  unfolding msg_update_white_list_validator
  msg_update-prophecies m s =
      elim (Option-cases (ext.oracle.bech32.acc_from_bech32 m.cosmos_sender)) [
        | inl n ↦ ground arith
        | inr (a, e) ↦ elim (Option-cases (ext.oracle.bech32.val_from_bech32 m.validator)) [
          | inl n ↦ ground arith
          | inr (v, f) ↦ ground (arith, update-prophecies a v m.operation_type s.oracle_store)
        ]
      ]

  msg_update_ceth-SameOracle :
      (m : UpdateCethReceiverMsg) (s : State ext)
      → (msg_update_ceth_receiver_account ext m s).1.oracle_store ≡ s.oracle_store
  unfolding msg_update_ceth_receiver_account process_update_ceth_receiver_account
  msg_update_ceth-SameOracle m s = ground arith

  msg_rescue-SameOracle :
      (m : RescueCethMsg) (s : State ext)
      → (msg_rescue_ceth ext m s).1.oracle_store ≡ s.oracle_store
  unfolding msg_rescue_ceth process_rescue_ceth
  msg_rescue-SameOracle m s = ground arith

  msg_blacklist-SameOracle :
      (m : SetBlacklistMsg) (s : State ext)
      → (msg_set_blacklist ext m s).1.oracle_store ≡ s.oracle_store
  unfolding msg_set_blacklist set_blacklist
  msg_blacklist-SameOracle m s = ground arith

  msg_pause-SameOracle :
      (m : PauseMsg) (s : State ext) → (msg_set_pause ext m s).1.oracle_store ≡ s.oracle_store
  unfolding msg_set_pause
  msg_pause-SameOracle m s = ground arith

  claim-oracle_at :
      (st : Staking) (c : EthBridgeClaim) (d : Claim) (s : State ext) (r : Outcome Status)
      (o : Oracle.OracleStore)
      → create_oracle_claim_from_eth_claim ext.oracle.bech32 ext.codec c ≡ ok d
      → Oracle.process_claim ext.oracle st d s.oracle_store ≡ (r, o)
      → (msg_create_eth_bridge_claim ext st c s).1.oracle_store ≡ o
  unfolding msg_create_eth_bridge_claim process_claim
  claim-oracle_at st c d s (ok status) o e h = ground (
    arith,
    process_successful_claim-SameOracle status.final_claim (record s { oracle_store = o }),
  )
  claim-oracle_at st c d s (err x) o e h = ground arith
  claim-oracle_at st c d s panic o e h = ground arith

  -- A claim message leaves the oracle's store as it was, or as `ProcessClaim` of the oracle leaves
  -- it.
  claim-oracle :
      (st : Staking) (c : EthBridgeClaim) (s : State ext)
      → ((msg_create_eth_bridge_claim ext st c s).1.oracle_store ≡ s.oracle_store)
        ⊎ ((d : Claim) × (create_oracle_claim_from_eth_claim ext.oracle.bech32 ext.codec c ≡ ok d)
            × ((msg_create_eth_bridge_claim ext st c s).1.oracle_store
                ≡ (Oracle.process_claim ext.oracle st d s.oracle_store).1))
  unfolding msg_create_eth_bridge_claim process_claim
  claim-oracle st c s = go _ refl
    where
      go :
          (o : Outcome Claim)
          → create_oracle_claim_from_eth_claim ext.oracle.bech32 ext.codec c ≡ o
          → ((msg_create_eth_bridge_claim ext st c s).1.oracle_store ≡ s.oracle_store)
            ⊎ ((d : Claim) × (create_oracle_claim_from_eth_claim ext.oracle.bech32 ext.codec c
                  ≡ ok d)
                × ((msg_create_eth_bridge_claim ext st c s).1.oracle_store
                    ≡ (Oracle.process_claim ext.oracle st d s.oracle_store).1))
      go (ok d) e = inr (d, e, claim-oracle_at st c d s _ _ e refl)
      go (err x) e = inl (ground arith)
      go panic e = inl (ground arith)

  -- A transaction leaves the prophecies as they were, or as one claim on the oracle leaves them.
  pub deliver-prophecies :
      (m : Msg) (s : State ext)
      → ((deliver ext m s).oracle_store.prophecies ≡ s.oracle_store.prophecies)
        ⊎ ((st : Staking) × (d : Claim) × ((deliver ext m s).oracle_store
              ≡ (Oracle.process_claim ext.oracle st d s.oracle_store).1))
  unfolding deliver handle
  deliver-prophecies (Handler.create_eth_bridge_claim st c) s = elim (claim-oracle st c s) [
    | inl same ↦ inl (ground arith)
    | inr (d, e, same) ↦ elim (Bool-cases (succeeded (msg_create_eth_bridge_claim ext st c s).0)) [
      | inl done ↦ inr (st, d, ground arith)
      | inr undone ↦ inl (ground arith)
    ]
  ]
  deliver-prophecies (Handler.burn m) s = inl (ground (arith, msg_burn-SameOracle m s))
  deliver-prophecies (Handler.lock m) s = inl (ground (arith, msg_lock-SameOracle m s))
  deliver-prophecies (Handler.update_white_list_validator m) s =
      inl (ground (arith, msg_update-prophecies m s))
  deliver-prophecies (Handler.update_ceth_receiver_account m) s =
      inl (ground (arith, msg_update_ceth-SameOracle m s))
  deliver-prophecies (Handler.rescue_ceth m) s = inl (ground (arith, msg_rescue-SameOracle m s))
  deliver-prophecies (Handler.set_blacklist m) s =
      inl (ground (arith, msg_blacklist-SameOracle m s))
  deliver-prophecies (Handler.pause m) s = inl (ground (arith, msg_pause-SameOracle m s))
