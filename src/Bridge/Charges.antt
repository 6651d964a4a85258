-- ===== src/Bridge/Charges.antt =====
-- The handlers of `MsgLock` and `MsgBurn` charge the sender exactly, or fail.
use furynode.Prelude.{
  ◌≡◌, refl, ◌∙◌, inl, inr, Bool, true, false, none, some, List, [], ◌∷◌, String, arith, Bool-cases,
  Option-cases,
}
use furynode.Prelude.Int.{ℤ, pos, ◌+ℤ◌, ◌≤ℤ◌, +ℤ_parts}
use furynode.Prelude.Text.{Bytes, str_eq, str_eq_iff}
use furynode.Chain.Action.{Action, ok, ◌>>=◌, >>=-eq-ok}
use furynode.Chain.Bank.{BankLaws, total_of}
use furynode.Bridge.Claim.{TransferMsg, ceth_symbol}
use furynode.Bridge.Keeper.{
  Externals, State, coins_of, collect_and_burn, pay_ceth, process_burn, process_lock,
  is_blacklisted, get_ceth_receiver_account, exists_peggy_token,
}
use furynode.Bridge.Server.{msg_lock, msg_burn}
use furynode.Bridge.Destroy.{IsCharged, IsCharged-some, IsCharged-none, coins_of-ok, cost}

module _ (ext : Externals) (laws : BankLaws ext.bank) where
  open ext use {bank}

  paid_first :
      (sender r : Bytes) (m : TransferMsg) (s t : State ext)
      → get_ceth_receiver_account ext s.bridge ≡ some r
      → (pay_ceth ext sender m r >>= collect_and_burn ext sender m) s ≡ (ok tt, t)
      → IsCharged ext laws sender m s t
  paid_first sender r m s t set h =
      let (coins, u, e, k) =
        >>=-eq-ok (pay_ceth ext sender m r) (collect_and_burn ext sender m) s h in
      IsCharged-some ext laws sender r m coins s u t set e k

  taken_together :
      (sender : Bytes) (m : TransferMsg) (l : List (String × ℤ)) (s t : State ext)
      → get_ceth_receiver_account ext s.bridge ≡ none
      → ((d : String) → total_of d l ≡ cost ext laws m d)
      → (coins_of ext l >>= collect_and_burn ext sender m) s ≡ (ok tt, t)
      → IsCharged ext laws sender m s t
  taken_together sender m l s t unset same h =
      let make : Action (State ext) bank.Coins = coins_of ext l in
      let (coins, u, e, k) = >>=-eq-ok make (collect_and_burn ext sender m) s h in
      let (made, us) = coins_of-ok ext laws l coins s u e in
      IsCharged-none ext laws sender m coins s t unset
        (λ d. laws.amount_of-new_coins l coins made d ∙ same d) (rw us at k)

  process_lock-IsCharged :
      (sender : Bytes) (m : TransferMsg) (s t : State ext)
      → process_lock ext sender m s ≡ (ok tt, t)
      → IsCharged ext laws sender m s t
  unfolding process_lock
  process_lock-IsCharged sender m s t h =
      elim (Option-cases (get_ceth_receiver_account ext s.bridge)) [
        | inl unset ↦
            taken_together sender m ((m.symbol, m.amount) ∷ (ceth_symbol, m.ceth_amount) ∷ []) s t
              unset (λ d. refl) (ground arith)
        | inr (r, set) ↦ paid_first sender r m s t set (ground arith)
      ]

  -- Neither amount is negative, as the stateless checks demand.
  abbrev pub IsPositive : TransferMsg → Type 0
  IsPositive m = (pos 0 ≤ℤ m.amount) × (pos 0 ≤ℤ m.ceth_amount)

  cost_of_ceth :
      (m : TransferMsg) (d : String)
      → m.symbol ≡ ceth_symbol
      → IsPositive m
      → total_of d ((ceth_symbol, m.ceth_amount +ℤ m.amount) ∷ []) ≡ cost ext laws m d
  cost_of_ceth m d e h = ground (arith, +ℤ_parts m.ceth_amount m.amount)

  process_burn-IsCharged :
      (sender : Bytes) (m : TransferMsg) (s t : State ext)
      → IsPositive m
      → process_burn ext sender m s ≡ (ok tt, t)
      → IsCharged ext laws sender m s t
  unfolding process_burn
  process_burn-IsCharged sender m s t p h =
      elim (Option-cases (get_ceth_receiver_account ext s.bridge)) [
        | inr (r, set) ↦ paid_first sender r m s t set (ground arith)
        | inl unset ↦ elim (Bool-cases (str_eq m.symbol ceth_symbol)) [
          | inl ceth ↦
              taken_together sender m ((ceth_symbol, m.ceth_amount +ℤ m.amount) ∷ []) s t unset
                (λ d. cost_of_ceth m d ((str_eq_iff m.symbol ceth_symbol).0 ceth) p) (ground arith)
          | inr other ↦
              taken_together sender m ((m.symbol, m.amount) ∷ (ceth_symbol, m.ceth_amount) ∷ []) s t
                unset (λ d. refl) (ground arith)
        ]
      ]

  -- What holds of the bridge whenever a transfer is accepted.
  pub record IsAdmitted (pegged : Bool) (m : TransferMsg) (s : State ext) : Type 0 where
    pub running : s.bridge.is_paused ≡ false
    pub right_kind : exists_peggy_token ext s.bridge m.symbol ≡ pegged
    pub allowed : is_blacklisted ext s.bridge m.ethereum_receiver ≡ false

  process_lock-allowed :
      (sender : Bytes) (m : TransferMsg) (s t : State ext)
      → process_lock ext sender m s ≡ (ok tt, t)
      → is_blacklisted ext s.bridge m.ethereum_receiver ≡ false
  unfolding process_lock
  process_lock-allowed sender m s t h = ground arith

  process_burn-allowed :
      (sender : Bytes) (m : TransferMsg) (s t : State ext)
      → process_burn ext sender m s ≡ (ok tt, t)
      → is_blacklisted ext s.bridge m.ethereum_receiver ≡ false
  unfolding process_burn
  process_burn-allowed sender m s t h = ground arith

  -- With a bank that keeps its laws, a lock that succeeds was sent while the bridge ran, of a token
  -- that is not pegged, to a receiver that is not blacklisted; it destroys the amount, and charges
  -- the sender the amount and the ceth.
  pub msg_lock-IsCharged :
      (m : TransferMsg) (s t : State ext)
      → msg_lock ext m s ≡ (ok tt, t)
      → (sender : Bytes) × (ext.oracle.bech32.acc_from_bech32 m.cosmos_sender ≡ some sender)
        × IsAdmitted false m s
        × IsCharged ext laws sender m s t
  unfolding msg_lock
  msg_lock-IsCharged m s t h =
      elim (Option-cases (ext.oracle.bech32.acc_from_bech32 m.cosmos_sender)) [
        | inl n ↦ absurd (ground arith)
        | inr (sender, e) ↦
            let k : process_lock ext sender m s ≡ (ok tt, t) = ground arith in
            (
              sender,
              e,
              record {
                running = ground arith;
                right_kind = ground arith;
                allowed = process_lock-allowed sender m s t k;
              },
              process_lock-IsCharged sender m s t k,
            )
      ]

  -- With a bank that keeps its laws, a burn that succeeds was sent while the bridge ran, of a
  -- pegged token, to a receiver that is not blacklisted; if neither amount is negative, it destroys
  -- the amount, and charges the sender the amount and the ceth.
  pub msg_burn-IsCharged :
      (m : TransferMsg) (s t : State ext)
      → IsPositive m
      → msg_burn ext m s ≡ (ok tt, t)
      → (sender : Bytes) × (ext.oracle.bech32.acc_from_bech32 m.cosmos_sender ≡ some sender)
        × IsAdmitted true m s
        × IsCharged ext laws sender m s t
  unfolding msg_burn
  msg_burn-IsCharged m s t p h =
      elim (Option-cases (ext.oracle.bech32.acc_from_bech32 m.cosmos_sender)) [
        | inl n ↦ absurd (ground arith)
        | inr (sender, e) ↦
            let k : process_burn ext sender m s ≡ (ok tt, t) = ground arith in
            (
              sender,
              e,
              record {
                running = ground arith;
                right_kind = ground arith;
                allowed = process_burn-allowed sender m s t k;
              },
              process_burn-IsCharged sender m s t p k,
            )
      ]
