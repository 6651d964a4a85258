-- ===== src/Oracle/Finality.antt =====
-- A finalized prophecy stays as it is, whatever claims come in after it.
use furynode.Prelude.{
  ◌≡◌, ◌≢◌, refl, inl, inr, sym, ◌∙◌, false, some, List, [], ◌∷◌, String, arith, Bool-cases,
  Option-cases,
}
use mathlib.Core.Bool.{false≢true}
use furynode.Prelude.Text.{Bytes, str_eq, str_eq_iff}
use furynode.Prelude.Dict.{lookup, lookup-insert}
use furynode.Chain.Action.{Outcome, ok, err, panic, Error, succeeded}
use furynode.Oracle.Prophecy.{
  DbProphecy, Prophecy, Claim, Staking, Json, serialize_for_db, deserialize_from_db, new_prophecy,
  add_claim,
}
use furynode.Oracle.Keeper.{
  Externals, OracleStore, get_prophecy, set_prophecy, process_completion, settle, vote,
  process_claim, ensure_address_is_in_whitelist, is_pending, found_or_new,
}

-- Each record stands under its own id.
abbrev pub IsKeyed : OracleStore → Type 0
IsKeyed s = (k : String) (db : DbProphecy) → lookup k s.prophecies ≡ some db → db.id ≡ k

pub serialize_for_db-id :
    (json : Json) (p : Prophecy) (db : DbProphecy)
    → serialize_for_db json p ≡ some db
    → db.id ≡ p.id
unfolding serialize_for_db
serialize_for_db-id json p db h = ground arith

deserialize_from_db-id :
    (json : Json) (db : DbProphecy) (p : Prophecy)
    → deserialize_from_db json db ≡ some p
    → p.id ≡ db.id
unfolding deserialize_from_db
deserialize_from_db-id json db p h = ground arith

module _ (ext : Externals) where
  pub found_or_new-id :
      (s : OracleStore) (id : String)
      → IsKeyed s
      → (found_or_new id (get_prophecy ext s id)).id ≡ id
  unfolding get_prophecy new_prophecy
  found_or_new-id s id keyed = elim (Option-cases (lookup id s.prophecies)) [
    | inl e ↦ rw (e, found_or_new) refl
    | inr (db, e) ↦ elim (Option-cases (deserialize_from_db ext.json db)) [
      | inl none_found ↦ ground arith
      | inr (p, d) ↦ ground (arith, keyed id db e, deserialize_from_db-id ext.json db p d)
    ]
  ]

  process_completion-id :
      (st : Staking) (p q : Prophecy) (s t : OracleStore)
      → process_completion ext st p s ≡ (ok q, t)
      → (q.id ≡ p.id) × (t ≡ s)
  unfolding process_completion
  process_completion-id st p q s t h = ground arith

  pub process_completion-store :
      (st : Staking) (p : Prophecy) (s : OracleStore) → (process_completion ext st p s).1 ≡ s
  unfolding process_completion
  process_completion-store st p s = ground arith

  set_prophecy-frame :
      (p : Prophecy) (k : String) (s : OracleStore)
      → p.id ≢ k
      → lookup k (set_prophecy ext p s).1.prophecies ≡ lookup k s.prophecies
  unfolding set_prophecy
  set_prophecy-frame p k s ne = elim (Option-cases (serialize_for_db ext.json p)) [
    | inl e ↦ rw e refl
    | inr (db, e) ↦ ground (
      arith,
      serialize_for_db-id ext.json p db e,
      lookup-insert db.id k db s.prophecies,
      str_eq_iff db.id k,
    )
  ]

  settle-frame :
      (st : Staking) (p : Prophecy) (k : String) (s : OracleStore)
      → p.id ≢ k
      → lookup k (settle ext st p s).1.prophecies ≡ lookup k s.prophecies
  unfolding settle
  settle-frame st p k s ne = go _ _ refl
    where
      go :
          (r : Outcome Prophecy) (t : OracleStore)
          → process_completion ext st p s ≡ (r, t)
          → lookup k (settle ext st p s).1.prophecies ≡ lookup k s.prophecies
      go (ok q) t e = ground (arith, process_completion-id st p q s t e, set_prophecy-frame q k t)
      go (err x) t e = ground (arith, process_completion-store st p s)
      go panic t e = ground (arith, process_completion-store st p s)

  -- From the lookup of the prophecy on, no other prophecy is written.
  vote-frame :
      (st : Staking) (v : Bytes) (c : Claim) (k : String) (s : OracleStore)
      → IsKeyed s
      → c.id ≢ k
      → lookup k (vote ext st v c s).1.prophecies ≡ lookup k s.prophecies
  unfolding vote add_claim
  vote-frame st v c k s keyed ne =
      let p = found_or_new c.id (get_prophecy ext s c.id) in
      ground (
        arith,
        found_or_new-id s c.id keyed,
        settle-frame st (add_claim ext.bech32 p v c.content) k s,
      )

  set_prophecy-IsKeyed :
      (p : Prophecy) (s : OracleStore) → IsKeyed s → IsKeyed (set_prophecy ext p s).1
  unfolding set_prophecy
  set_prophecy-IsKeyed p s keyed k db = elim (Option-cases (serialize_for_db ext.json p)) [
    | inl e ↦ rw e (keyed k db)
    | inr (new, e) ↦ rw e (
        rw (lookup-insert new.id k new s.prophecies)
          (ground (arith, keyed k db, str_eq_iff new.id k)))
  ]

  settle-IsKeyed :
      (st : Staking) (p : Prophecy) (s : OracleStore) → IsKeyed s → IsKeyed (settle ext st p s).1
  unfolding settle
  settle-IsKeyed st p s keyed k db h = go _ _ refl
    where
      go :
          (r : Outcome Prophecy) (t : OracleStore)
          → process_completion ext st p s ≡ (r, t)
          → db.id ≡ k
      go (ok q) t e =
          ground (arith, process_completion-id st p q s t e, set_prophecy-IsKeyed q s keyed k db)
      go (err x) t e = ground (arith, process_completion-store st p s, keyed k db)
      go panic t e = ground (arith, process_completion-store st p s, keyed k db)

  vote-IsKeyed :
      (st : Staking) (v : Bytes) (c : Claim) (s : OracleStore)
      → IsKeyed s
      → IsKeyed (vote ext st v c s).1
  unfolding vote
  vote-IsKeyed st v c s keyed k db h =
      let p = found_or_new c.id (get_prophecy ext s c.id) in
      ground
        (arith, keyed k db, settle-IsKeyed st (add_claim ext.bech32 p v c.content) s keyed k db)

  -- A vote on a finalized prophecy is refused.
  vote_finalized :
      (st : Staking) (v : Bytes) (c : Claim) (s : OracleStore) (p : Prophecy)
      → get_prophecy ext s c.id ≡ some p
      → is_pending p.status.text ≡ false
      → vote ext st v c s ≡ (err Error.prophecy_finalized, s)
  unfolding vote
  vote_finalized st v c s p found final = ground arith

  pub ensure-store : (a : String) (s : OracleStore) → (ensure_address_is_in_whitelist ext a s).1 ≡ s
  unfolding ensure_address_is_in_whitelist
  ensure-store a s = ground arith

  pub process_claim-IsKeyed :
      (st : Staking) (c : Claim) (s : OracleStore)
      → IsKeyed s
      → IsKeyed (process_claim ext st c s).1
  unfolding process_claim
  process_claim-IsKeyed st c s keyed k db h =
      elim (Option-cases (ext.bech32.val_from_bech32 c.validator_address)) [
        | inl e ↦ ground (arith, keyed k db, ensure-store c.validator_address s)
        | inr (v, e) ↦ ground (
          arith,
          keyed k db,
          ensure-store c.validator_address s,
          vote-IsKeyed st v c s keyed k db,
        )
      ]

  pub process_claim-frame :
      (st : Staking) (c : Claim) (k : String) (s : OracleStore)
      → IsKeyed s
      → c.id ≢ k
      → lookup k (process_claim ext st c s).1.prophecies ≡ lookup k s.prophecies
  unfolding process_claim
  process_claim-frame st c k s keyed ne =
      elim (Option-cases (ext.bech32.val_from_bech32 c.validator_address)) [
        | inl e ↦ ground (arith, ensure-store c.validator_address s)
        | inr (v, e) ↦
            ground (arith, ensure-store c.validator_address s, vote-frame st v c k s keyed ne)
      ]

  -- A claim on a finalized prophecy is an error, and the store is left as it was.
  pub process_claim_finalized :
      (st : Staking) (c : Claim) (s : OracleStore) (p : Prophecy)
      → get_prophecy ext s c.id ≡ some p
      → is_pending p.status.text ≡ false
      → (succeeded (process_claim ext st c s).0 ≡ false) × ((process_claim ext st c s).1 ≡ s)
  unfolding process_claim
  process_claim_finalized st c s p found final =
      elim (Option-cases (ext.bech32.val_from_bech32 c.validator_address)) [
        | inl e ↦ ground (arith, ensure-store c.validator_address s)
        | inr (v, e) ↦
            ground
              (arith, ensure-store c.validator_address s, vote_finalized st v c s p found final)
      ]

  -- The store after a history of claims, each with what the staking keeper answered at its time.
  unfoldable pub process_claims : List (Staking × Claim) → OracleStore → OracleStore
  process_claims [] s = s
  process_claims ((st, c) ∷ l) s = process_claims l (process_claim ext st c s).1

  pub process_claim-keeps :
      (st : Staking) (c : Claim) (id : String) (s : OracleStore) (p : Prophecy)
      → IsKeyed s
      → get_prophecy ext s id ≡ some p
      → is_pending p.status.text ≡ false
      → get_prophecy ext (process_claim ext st c s).1 id ≡ some p
  unfolding get_prophecy
  process_claim-keeps st c id s p keyed found final = elim (Bool-cases (str_eq c.id id)) [
    | inl same ↦
        let e = (str_eq_iff c.id id).0 same in
        rw (process_claim_finalized st c s p (rw e found) final).1 found
    | inr other ↦
        rw
          (
            process_claim-frame st c id s keyed
                (λ e. false≢true (sym other ∙ (str_eq_iff c.id id).1 e)),
            get_prophecy,
          )
          found
  ]

  -- In a store where each record stands under its own id, a finalized prophecy is the same after
  -- any history of claims: its status, its final claim and the votes that it holds.
  pub process_claims-keeps_finalized :
      (l : List (Staking × Claim)) (id : String) (s : OracleStore) (p : Prophecy)
      → IsKeyed s
      → get_prophecy ext s id ≡ some p
      → is_pending p.status.text ≡ false
      → get_prophecy ext (process_claims l s) id ≡ some p
  unfolding process_claims
  process_claims-keeps_finalized [] id s p keyed found final = found
  process_claims-keeps_finalized ((st, c) ∷ l) id s p keyed found final =
      process_claims-keeps_finalized l id (process_claim ext st c s).1 p
        (process_claim-IsKeyed st c s keyed) (process_claim-keeps st c id s p keyed found final)
        final
