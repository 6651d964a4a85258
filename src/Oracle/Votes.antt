-- ===== src/Oracle/Votes.antt =====
-- A validator is heard once on a prophecy.
use mathlib.Core.Bool.{true≢false}
use furynode.Prelude.{
  ◌≡◌, refl, subst, sym, ◌∙◌, ◌⊎◌, inl, inr, true, false, some, String, arith, Option-cases,
}
use furynode.Prelude.Text.{Bytes, str_eq, str_eq_iff}
use furynode.Prelude.Dict.{Dict, lookup, lookup-insert}
use furynode.Chain.Action.{Outcome, ok, err, panic, ◌>>◌, pure, succeeded}
use furynode.Oracle.Prophecy.{
  ClaimValidators, DbProphecy, Prophecy, Claim, Staking, Status, Json, serialize_for_db,
  deserialize_from_db, add_claim, or_empty,
}
use furynode.Oracle.Keeper.{
  Externals, OracleStore, get_prophecy, set_prophecy, process_completion, settle, vote,
  found_or_new,
}
use furynode.Oracle.Finality.{
  IsKeyed, serialize_for_db-id, process_completion-store, found_or_new-id,
}

-- What is marshalled unmarshals to a map with the same value at each key.
pub record JsonLaws (json : Json) : Type 0 where
  pub claim_validators_round_trip :
      (m : ClaimValidators) (t : String)
      → json.marshal_claim_validators m ≡ some t
      → (n : ClaimValidators) × (json.unmarshal_claim_validators t ≡ some n)
        × ((k : String) → lookup k n ≡ lookup k m)
  pub validator_claims_round_trip :
      (m : Dict String) (t : String)
      → json.marshal_validator_claims m ≡ some t
      → (n : Dict String) × (json.unmarshal_validator_claims t ≡ some n)
        × ((k : String) → lookup k n ≡ lookup k m)

-- The same prophecy, but for the representation of its maps.
pub record Matches (p q : Prophecy) : Type 0 where
  pub same_id : q.id ≡ p.id
  pub same_status : q.status ≡ p.status
  pub same_claims : (k : String) → lookup k q.claim_validators ≡ lookup k p.claim_validators
  pub same_votes : (k : String) → lookup k q.validator_claims ≡ lookup k p.validator_claims

-- With a JSON codec that keeps its laws, what is serialized deserializes to the same prophecy, but
-- for the representation of its maps.
pub deserialize_from_db-serialize_for_db :
    (json : Json) (laws : JsonLaws json) (p : Prophecy) (db : DbProphecy)
    → serialize_for_db json p ≡ some db
    → (q : Prophecy) × (deserialize_from_db json db ≡ some q) × Matches p q
unfolding serialize_for_db deserialize_from_db
deserialize_from_db-serialize_for_db json laws p db h =
    elim (Option-cases (json.marshal_claim_validators p.claim_validators)) [
      | inl e ↦ absurd (ground arith)
      | inr (cv, e) ↦ elim (Option-cases (json.marshal_validator_claims p.validator_claims)) [
        | inl f ↦ absurd (ground arith)
        | inr (vc, f) ↦
            let (m, em, hm) = laws.claim_validators_round_trip p.claim_validators cv e in
            let (n, en, hn) = laws.validator_claims_round_trip p.validator_claims vc f in
            (
              record { id = p.id; status = p.status; claim_validators = m; validator_claims = n },
              ground arith,
              record { same_id = refl; same_status = refl; same_claims = hm; same_votes = hn },
            )
      ]
    ]

module _ (ext : Externals) (laws : JsonLaws ext.json) where
  -- A validator's text is recorded with a claim on the prophecy.
  abbrev IsRecorded : String → Prophecy → Type 0
  IsRecorded a p = str_eq (or_empty (lookup a p.validator_claims)) "" ≡ false

  abbrev pub HasVoted : String → String → OracleStore → Type 0
  HasVoted a id s = (q : Prophecy) × (get_prophecy ext s id ≡ some q) × IsRecorded a q

  -- After a call: it failed and wrote nothing, or the vote is in the store.
  abbrev Records : {A : Type 0} → String → String → OracleStore → Outcome A × OracleStore → Type 0
  Records a id s (r, t) = ((succeeded r ≡ false) × (t ≡ s)) ⊎ HasVoted a id t

  set_prophecy-Records :
      (a : String) (p : Prophecy) (s : OracleStore)
      → IsRecorded a p
      → Records a p.id s (set_prophecy ext p s)
  unfolding set_prophecy get_prophecy
  set_prophecy-Records a p s v = elim (Option-cases (serialize_for_db ext.json p)) [
    | inl e ↦ inl (ground arith, ground arith)
    | inr (db, e) ↦
        let (q, d, m) = deserialize_from_db-serialize_for_db ext.json laws p db e in
        inr (
          q,
          ground (
            arith,
            serialize_for_db-id ext.json p db e,
            lookup-insert db.id p.id db s.prophecies,
            str_eq_iff db.id p.id,
          ),
          rw (m.same_votes a) v,
        )
  ]

  process_completion-votes :
      (st : Staking) (p q : Prophecy) (s t : OracleStore)
      → process_completion ext st p s ≡ (ok q, t)
      → (q.id ≡ p.id) × (q.validator_claims ≡ p.validator_claims) × (t ≡ s)
  unfolding process_completion
  process_completion-votes st p q s t h = ground arith

  -- A call that goes on after a write only to answer.
  answered-Records :
      (a id : String) (x : Status) (s : OracleStore) (y : Outcome (Unit {0}) × OracleStore)
      → Records a id s y
      → Records {A = Status} a id s
          (let (r, t) = y in elim r [ ok _ ↦ (ok x, t) | err e ↦ (err e, t) | panic ↦ (panic, t) ])
  answered-Records a id x s (ok _, t) h = h
  answered-Records a id x s (err e, t) h = h
  answered-Records a id x s (panic, t) h = h

  pub settle_completed :
      (st : Staking) (p q : Prophecy) (s t : OracleStore)
      → process_completion ext st p s ≡ (ok q, t)
      → settle ext st p s ≡ (set_prophecy ext q >> pure q.status) t
  unfolding settle
  settle_completed st p q s t e = ground arith

  settle-Records :
      (a : String) (st : Staking) (p : Prophecy) (s : OracleStore)
      → IsRecorded a p
      → Records a p.id s (settle ext st p s)
  unfolding settle
  settle-Records a st p s v = go _ _ refl
    where
      go :
          (r : Outcome Prophecy) (t : OracleStore)
          → process_completion ext st p s ≡ (r, t)
          → Records a p.id s (settle ext st p s)
      go (ok q) t e =
          let (ids, votes, same) = process_completion-votes st p q s t e in
          rw (settle_completed st p q s t e) (
            subst (λ i. Records a i s ((set_prophecy ext q >> pure q.status) t)) ids
              (answered-Records a q.id q.status s (set_prophecy ext q t) (
                subst (λ u. Records a q.id u (set_prophecy ext q t)) same
                  (set_prophecy-Records a q t (rw votes v)))))
      go (err x) t e = inl (ground arith, ground (arith, process_completion-store ext st p s))
      go panic t e = inl (ground arith, ground (arith, process_completion-store ext st p s))

  add_claim-IsRecorded :
      (a : String) (p : Prophecy) (v : Bytes) (content : String)
      → str_eq content "" ≡ false
      → (IsRecorded a p ⊎ (ext.bech32.val_string v ≡ a))
      → IsRecorded a (add_claim ext.bech32 p v content)
  unfolding add_claim
  add_claim-IsRecorded a p v content h w =
      let k = ext.bech32.val_string v in
      rw (lookup-insert k a content p.validator_claims) (ground (arith, str_eq_iff k a))

  pub added-id :
      (p : Prophecy) (v : Bytes) (content : String) → (add_claim ext.bech32 p v content).id ≡ p.id
  unfolding add_claim
  added-id p v content = refl

  -- A vote is refused and writes nothing, or the claim is added.
  pub vote_cases :
      (st : Staking) (v : Bytes) (c : Claim) (s : OracleStore)
      → ((succeeded (vote ext st v c s).0 ≡ false) × ((vote ext st v c s).1 ≡ s))
        ⊎ (vote ext st v c s
            ≡ settle ext st
                (add_claim ext.bech32 (found_or_new c.id (get_prophecy ext s c.id)) v c.content)
                s)
  unfolding vote
  vote_cases st v c s = ground arith

  vote-Records :
      (a : String) (st : Staking) (v : Bytes) (c : Claim) (s : OracleStore)
      → IsKeyed s
      → str_eq c.content "" ≡ false
      → (IsRecorded a (found_or_new c.id (get_prophecy ext s c.id)) ⊎ (ext.bech32.val_string v ≡ a))
      → Records a c.id s (vote ext st v c s)
  vote-Records a st v c s keyed full known = elim (vote_cases st v c s) [
    | inl refused ↦ inl refused
    | inr e ↦
        let p = found_or_new c.id (get_prophecy ext s c.id) in
        rw e (
          subst (λ i. Records a i s (settle ext st (add_claim ext.bech32 p v c.content) s))
            (added-id p v c.content ∙ found_or_new-id ext s c.id keyed)
            (settle-Records a st (add_claim ext.bech32 p v c.content) s
              (add_claim-IsRecorded a p v c.content full known)))
  ]

  -- A vote that succeeds is recorded under its validator.
  pub vote_records :
      (st : Staking) (v : Bytes) (c : Claim) (s : OracleStore)
      → IsKeyed s
      → str_eq c.content "" ≡ false
      → succeeded (vote ext st v c s).0 ≡ true
      → HasVoted (ext.bech32.val_string v) c.id (vote ext st v c s).1
  vote_records st v c s keyed full done =
      elim (vote-Records (ext.bech32.val_string v) st v c s keyed full (inr refl)) [
        | inl refused ↦ absurd (true≢false (sym done ∙ refused.0))
        | inr voted ↦ voted
      ]

  pub vote-HasVoted :
      (st : Staking) (v : Bytes) (c : Claim) (a : String) (s : OracleStore)
      → IsKeyed s
      → str_eq c.content "" ≡ false
      → HasVoted a c.id s
      → HasVoted a c.id (vote ext st v c s).1
  vote-HasVoted st v c a s keyed full (q, found, recorded) =
      elim (vote-Records a st v c s keyed full (inl (rw (found, found_or_new) recorded))) [
        | inl refused ↦ rw refused.1 (q, found, recorded)
        | inr voted ↦ voted
      ]
