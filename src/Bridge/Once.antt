-- ===== src/Bridge/Once.antt =====
-- A prophecy mints once: after the transaction that finalizes it, claims on it are refused.
use furynode.Prelude.{
  ◌≡◌, refl, subst, sym, ap, ◌∙◌, inl, inr, true, false, some, List, [], ◌∷◌, String, arith,
}
use furynode.Prelude.Dict.{lookup}
use furynode.Chain.Action.{Outcome, ok, err, panic, succeeded}
use furynode.Chain.Address.{Bech32Laws}
use furynode.Oracle.Prophecy.{Prophecy, Claim, Staking, Status}
use furynode.Oracle.Keeper as Oracle
use furynode.Oracle.Keeper.{OracleStore, get_prophecy, is_pending}
use furynode.Oracle.Finality.{
  IsKeyed, process_claim-IsKeyed, process_claim-keeps, process_claim_finalized,
}
use furynode.Oracle.Votes.{JsonLaws}
use furynode.Oracle.Stored.{process_claim-HasStatus}
use furynode.Bridge.Claim.{EthBridgeClaim, create_oracle_claim_from_eth_claim, oracle_id}
use furynode.Bridge.Keeper.{Externals, State, process_claim}
use furynode.Bridge.Server.{msg_create_eth_bridge_claim}
use furynode.Bridge.Handler as Handler
use furynode.Bridge.Handler.{Msg, handle, deliver, deliver_all}
use furynode.Bridge.Frame.{process_successful_claim-SameOracle, deliver-prophecies}

module _ (ext : Externals) where
  -- The prophecy is in the store, and finalized.
  abbrev pub IsSettled : String → OracleStore → Type 0
  IsSettled id o =
      IsKeyed o
      × ((p : Prophecy) × (get_prophecy ext.oracle o id ≡ some p)
          × (is_pending p.status.text ≡ false))

  IsSettled-frame :
      (id : String) (o o' : OracleStore)
      → o'.prophecies ≡ o.prophecies
      → IsSettled id o
      → IsSettled id o'
  unfolding get_prophecy
  IsSettled-frame id o o' e (keyed, (p, found, final)) =
      ((λ k db h. keyed k db (ap (lookup k) (sym e) ∙ h)), (p, ground arith, final))

  deliver-IsSettled :
      (m : Msg) (id : String) (s : State ext)
      → IsSettled id s.oracle_store
      → IsSettled id (deliver ext m s).oracle_store
  deliver-IsSettled m id s (keyed, (p, found, final)) = elim (deliver-prophecies ext m s) [
    | inl same ↦
        IsSettled-frame id s.oracle_store (deliver ext m s).oracle_store same
          (keyed, (p, found, final))
    | inr (st, d, e) ↦ rw e (
      process_claim-IsKeyed ext.oracle st d s.oracle_store keyed,
      (p, process_claim-keeps ext.oracle st d id s.oracle_store p keyed found final, final),
    )
  ]

  deliver_all-IsSettled :
      (l : List Msg) (id : String) (s : State ext)
      → IsSettled id s.oracle_store
      → IsSettled id (deliver_all ext l s).oracle_store
  unfolding deliver_all
  deliver_all-IsSettled [] id s h = h
  deliver_all-IsSettled (m ∷ l) id s h =
      deliver_all-IsSettled l id (deliver ext m s) (deliver-IsSettled m id s h)

  claim-id :
      (c : EthBridgeClaim) (d : Claim)
      → create_oracle_claim_from_eth_claim ext.oracle.bech32 ext.codec c ≡ ok d
      → d.id ≡ oracle_id c
  unfolding create_oracle_claim_from_eth_claim
  claim-id c d h = ground arith

  refused_by_oracle :
      (st : Staking) (c : EthBridgeClaim) (d : Claim) (s : State ext)
      → create_oracle_claim_from_eth_claim ext.oracle.bech32 ext.codec c ≡ ok d
      → succeeded (Oracle.process_claim ext.oracle st d s.oracle_store).0 ≡ false
      → (Oracle.process_claim ext.oracle st d s.oracle_store).1 ≡ s.oracle_store
      → (succeeded (msg_create_eth_bridge_claim ext st c s).0 ≡ false)
        × ((msg_create_eth_bridge_claim ext st c s).1 ≡ s)
  unfolding msg_create_eth_bridge_claim process_claim
  refused_by_oracle st c d s e f g = (ground arith, ground arith)

  IsSettled-refused :
      (st : Staking) (c : EthBridgeClaim) (s : State ext)
      → IsSettled (oracle_id c) s.oracle_store
      → (succeeded (msg_create_eth_bridge_claim ext st c s).0 ≡ false)
        × ((msg_create_eth_bridge_claim ext st c s).1 ≡ s)
  unfolding msg_create_eth_bridge_claim process_claim
  IsSettled-refused st c s (keyed, (p, found, final)) = go _ refl
    where
      go :
          (o : Outcome Claim)
          → create_oracle_claim_from_eth_claim ext.oracle.bech32 ext.codec c ≡ o
          → (succeeded (msg_create_eth_bridge_claim ext st c s).0 ≡ false)
            × ((msg_create_eth_bridge_claim ext st c s).1 ≡ s)
      go (ok d) e =
          let found' = ap (get_prophecy ext.oracle s.oracle_store) (claim-id c d e) ∙ found in
          let (f, g) = process_claim_finalized ext.oracle st d s.oracle_store p found' final in
          refused_by_oracle st c d s e f g
      go (err x) e = (ground arith, ground arith)
      go panic e = (ground arith, ground arith)

module _ (ext : Externals) (codec : Bech32Laws ext.oracle.bech32)
    (laws : JsonLaws ext.oracle.json) where
  -- The oracle's part of a claim, as a call on the oracle's store.
  process_claim-oracle :
      (st : Staking) (c : EthBridgeClaim) (status : Status) (s u : State ext)
      → process_claim ext st c s ≡ (ok status, u)
      → (d : Claim) × (create_oracle_claim_from_eth_claim ext.oracle.bech32 ext.codec c ≡ ok d)
        × (Oracle.process_claim ext.oracle st d s.oracle_store ≡ (ok status, u.oracle_store))
        × (u ≡ record s { oracle_store = u.oracle_store })
  unfolding process_claim
  process_claim-oracle st c status s u h = go _ refl
    where
      go :
          (o : Outcome Claim)
          → create_oracle_claim_from_eth_claim ext.oracle.bech32 ext.codec c ≡ o
          → (d : Claim) × (create_oracle_claim_from_eth_claim ext.oracle.bech32 ext.codec c ≡ ok d)
            × (Oracle.process_claim ext.oracle st d s.oracle_store ≡ (ok status, u.oracle_store))
            × (u ≡ record s { oracle_store = u.oracle_store })
      go (ok d) e = (d, e, ground arith, ground arith)
      go (err x) e = absurd (ground arith)
      go panic e = absurd (ground arith)

  -- The claim that finalizes a prophecy leaves it settled.
  process_claim-IsSettled :
      (st : Staking) (c : EthBridgeClaim) (status : Status) (s u : State ext)
      → IsKeyed s.oracle_store
      → process_claim ext st c s ≡ (ok status, u)
      → is_pending status.text ≡ false
      → IsSettled ext (oracle_id c) u.oracle_store
  process_claim-IsSettled st c status s u keyed h final =
      let (d, e, f, us) = process_claim-oracle st c status s u h in
      let (p, found, same) =
        process_claim-HasStatus ext.oracle codec laws st d status s.oracle_store u.oracle_store
          keyed f in
      (
        subst IsKeyed (ap (λ x. x.1) f)
            (process_claim-IsKeyed ext.oracle st d s.oracle_store keyed),
        (
          p,
          ap (get_prophecy ext.oracle u.oracle_store) (sym (claim-id ext c d e)) ∙ found,
          ap (λ (x : Status). is_pending x.text) same ∙ final,
        ),
      )

  msg_create-oracle :
      (st : Staking) (c : EthBridgeClaim) (status : Status) (s u : State ext)
      → process_claim ext st c s ≡ (ok status, u)
      → (msg_create_eth_bridge_claim ext st c s).1.oracle_store ≡ u.oracle_store
  unfolding msg_create_eth_bridge_claim
  msg_create-oracle st c status s u h =
      ground (arith, process_successful_claim-SameOracle ext status.final_claim u)

  delivered :
      (st : Staking) (c : EthBridgeClaim) (s : State ext)
      → succeeded (msg_create_eth_bridge_claim ext st c s).0 ≡ true
      → deliver ext (Handler.create_eth_bridge_claim st c) s
        ≡ (msg_create_eth_bridge_claim ext st c s).1
  unfolding deliver handle
  delivered st c s h = ground arith

  -- Let a transaction with a claim finalize its prophecy, with success or with failure, in a store
  -- where each record stands under its own id, with codecs that keep their laws. After it and
  -- any history of transactions since, a claim with the same id is an error and changes nothing:
  -- neither the coins nor the stores of the oracle and the bridge.
  pub msg_create_eth_bridge_claim_once :
      (st st' : Staking) (c c' : EthBridgeClaim) (status : Status) (l : List Msg) (s u : State ext)
      → IsKeyed s.oracle_store
      → succeeded (msg_create_eth_bridge_claim ext st c s).0 ≡ true
      → process_claim ext st c s ≡ (ok status, u)
      → is_pending status.text ≡ false
      → oracle_id c' ≡ oracle_id c
      → let v = deliver_all ext l (deliver ext (Handler.create_eth_bridge_claim st c) s) in
        (succeeded (msg_create_eth_bridge_claim ext st' c' v).0 ≡ false)
        × ((msg_create_eth_bridge_claim ext st' c' v).1 ≡ v)
  msg_create_eth_bridge_claim_once st st' c c' status l s u keyed done h final same =
      let t = deliver ext (Handler.create_eth_bridge_claim st c) s in
      IsSettled-refused ext st' c' (deliver_all ext l t) (
        rw same (
          deliver_all-IsSettled ext l (oracle_id c) t (
            rw (delivered st c s done) (
              rw (msg_create-oracle st c status s u h)
                (process_claim-IsSettled st c status s u keyed h final)))))
