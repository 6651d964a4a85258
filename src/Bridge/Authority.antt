-- ===== src/Bridge/Authority.antt =====
-- Who may pause the bridge, set its blacklist and its ceth receiver, and take its ceth.
use furynode.Prelude.{
  ◌≡◌, ◌⊎◌, inl, inr, true, false, some, String, arith, Bool-cases, Option-cases,
}
use furynode.Prelude.Text.{Bytes}
use furynode.Chain.Action.{succeeded}
use furynode.Oracle.Keeper as Oracle
use furynode.Admin.Keeper as Admin
use furynode.Bridge.Claim.{PauseMsg, SetBlacklistMsg, UpdateCethReceiverMsg, RescueCethMsg}
use furynode.Bridge.Keeper.{
  Externals, State, set_pause, set_blacklist, process_update_ceth_receiver_account,
  process_rescue_ceth,
}
use furynode.Bridge.Server.{
  msg_set_pause, msg_set_blacklist, msg_update_ceth_receiver_account, msg_rescue_ceth,
}

module _ (ext : Externals) where
  open ext use {oracle}
  open oracle use {bech32}

  -- An admin of the bridge, by the admin module.
  abbrev pub IsBridgeAdmin : String → State ext → Type 0
  IsBridgeAdmin text s =
      (a : Bytes) × (bech32.acc_from_bech32 text ≡ some a)
      × (Admin.is_admin_account bech32 s.admin_store Admin.ethbridge a ≡ true)

  -- The admin account of the oracle.
  abbrev pub IsOracleAdmin : String → State ext → Type 0
  IsOracleAdmin text s =
      (a : Bytes) × (bech32.acc_from_bech32 text ≡ some a)
      × (Oracle.is_admin_account oracle s.oracle_store a ≡ true)

  -- A call that succeeds is by an admin of the bridge, who pauses or runs the bridge as asked; any
  -- other changes nothing.
  pub msg_set_pause-IsBridgeAdmin :
      (m : PauseMsg) (s : State ext)
      → let (r, t) = msg_set_pause ext m s in
        ((succeeded r ≡ false) × (t ≡ s))
        ⊎ (IsBridgeAdmin m.signer s × (t.bridge.is_paused ≡ m.is_paused) × (t.coins ≡ s.coins))
  unfolding msg_set_pause set_pause
  msg_set_pause-IsBridgeAdmin m s = elim (Option-cases (bech32.acc_from_bech32 m.signer)) [
    | inl n ↦ inl (ground arith, ground arith)
    | inr (a, e) ↦
        elim (Bool-cases (Admin.is_admin_account bech32 s.admin_store Admin.ethbridge a)) [
          | inl admin ↦ inr ((a, e, admin), ground arith, ground arith)
          | inr other ↦ inl (ground arith, ground arith)
        ]
  ]

  msg_set_blacklist-IsBridgeAdmin :
      (l : SetBlacklistMsg) (s : State ext)
      → ((succeeded (msg_set_blacklist ext l s).0 ≡ false) × ((msg_set_blacklist ext l s).1 ≡ s))
        ⊎ IsBridgeAdmin l.from s
  unfolding msg_set_blacklist set_blacklist
  msg_set_blacklist-IsBridgeAdmin l s = elim (Option-cases (bech32.acc_from_bech32 l.from)) [
    | inl n ↦ inl (ground arith, ground arith)
    | inr (a, e) ↦
        elim (Bool-cases (Admin.is_admin_account bech32 s.admin_store Admin.ethbridge a)) [
          | inl admin ↦ inr (a, e, admin)
          | inr other ↦ inl (ground arith, ground arith)
        ]
  ]

  msg_update_ceth-IsOracleAdmin :
      (u : UpdateCethReceiverMsg) (s : State ext)
      → ((succeeded (msg_update_ceth_receiver_account ext u s).0 ≡ false)
          × ((msg_update_ceth_receiver_account ext u s).1 ≡ s))
        ⊎ IsOracleAdmin u.cosmos_sender s
  unfolding msg_update_ceth_receiver_account process_update_ceth_receiver_account
  msg_update_ceth-IsOracleAdmin u s = elim (Option-cases (bech32.acc_from_bech32 u.cosmos_sender)) [
    | inl n ↦ inl (ground arith, ground arith)
    | inr (a, e) ↦ elim (Bool-cases (Oracle.is_admin_account oracle s.oracle_store a)) [
      | inl admin ↦ inr (a, e, admin)
      | inr other ↦ inl (ground arith, ground arith)
    ]
  ]

  msg_rescue-IsOracleAdmin :
      (c : RescueCethMsg) (s : State ext)
      → ((succeeded (msg_rescue_ceth ext c s).0 ≡ false) × ((msg_rescue_ceth ext c s).1 ≡ s))
        ⊎ IsOracleAdmin c.cosmos_sender s
  unfolding msg_rescue_ceth process_rescue_ceth
  msg_rescue-IsOracleAdmin c s = elim (Option-cases (bech32.acc_from_bech32 c.cosmos_sender)) [
    | inl n ↦ inl (ground arith, ground arith)
    | inr (a, e) ↦ elim (Bool-cases (Oracle.is_admin_account oracle s.oracle_store a)) [
      | inl admin ↦ inr (a, e, admin)
      | inr other ↦ inl (ground arith, ground arith)
    ]
  ]

  -- A call that sets the blacklist is by an admin of the bridge, and one that sets the ceth
  -- receiver or takes ceth out of the module is by the admin account of the oracle; or it fails and
  -- changes nothing.
  pub msgs-IsOracleAdmin :
      (l : SetBlacklistMsg) (u : UpdateCethReceiverMsg) (c : RescueCethMsg) (s : State ext)
      → (((succeeded (msg_set_blacklist ext l s).0 ≡ false) × ((msg_set_blacklist ext l s).1 ≡ s))
          ⊎ IsBridgeAdmin l.from s)
        × (((succeeded (msg_update_ceth_receiver_account ext u s).0 ≡ false)
              × ((msg_update_ceth_receiver_account ext u s).1 ≡ s))
            ⊎ IsOracleAdmin u.cosmos_sender s)
        × (((succeeded (msg_rescue_ceth ext c s).0 ≡ false) × ((msg_rescue_ceth ext c s).1 ≡ s))
            ⊎ IsOracleAdmin c.cosmos_sender s)
  msgs-IsOracleAdmin l u c s = (
    msg_set_blacklist-IsBridgeAdmin l s,
    msg_update_ceth-IsOracleAdmin u s,
    msg_rescue-IsOracleAdmin c s,
  )
