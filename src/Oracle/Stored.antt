-- ===== src/Oracle/Stored.antt =====
-- The status that `ProcessClaim` returns is the one that it stored.
use furynode.Prelude.{◌≡◌, refl, sym, ap, ◌∙◌, inl, inr, some, String, arith, Option-cases}
use furynode.Prelude.Text.{str_eq_iff}
use furynode.Prelude.Dict.{lookup-insert}
use furynode.Chain.Action.{Outcome, ok, err, panic, ◌>>◌, pure}
use furynode.Chain.Address.{Bech32Laws}
use furynode.Oracle.Prophecy.{Prophecy, Claim, Staking, Status, serialize_for_db, add_claim}
use furynode.Oracle.Keeper.{
  Externals, OracleStore, get_prophecy, set_prophecy, process_completion, settle, process_claim,
  found_or_new,
}
use furynode.Oracle.Finality.{IsKeyed, serialize_for_db-id, found_or_new-id}
use furynode.Oracle.Votes.{
  JsonLaws, deserialize_from_db-serialize_for_db, vote_cases, settle_completed, added-id,
}
use furynode.Oracle.OneVote.{process_claim_cases}

module _ (ext : Externals) (codec : Bech32Laws ext.bech32) (laws : JsonLaws ext.json) where
  -- The prophecy `id` is in the store with this status.
  abbrev pub HasStatus : String → Status → OracleStore → Type 0
  HasStatus id status t = (q : Prophecy) × (get_prophecy ext t id ≡ some q) × (q.status ≡ status)

  set_prophecy-HasStatus :
      (p : Prophecy) (s t : OracleStore)
      → set_prophecy ext p s ≡ (ok tt, t)
      → HasStatus p.id p.status t
  unfolding set_prophecy get_prophecy
  set_prophecy-HasStatus p s t h = elim (Option-cases (serialize_for_db ext.json p)) [
    | inl e ↦ absurd (ground arith)
    | inr (db, e) ↦
        let (q, d, m) = deserialize_from_db-serialize_for_db ext.json laws p db e in
        (
          q,
          ground (
            arith,
            serialize_for_db-id ext.json p db e,
            lookup-insert db.id p.id db s.prophecies,
            str_eq_iff db.id p.id,
          ),
          m.same_status,
        )
  ]

  process_completion-id :
      (st : Staking) (p q : Prophecy) (s t : OracleStore)
      → process_completion ext st p s ≡ (ok q, t)
      → q.id ≡ p.id
  unfolding process_completion
  process_completion-id st p q s t h = ground arith

  answered :
      (q : Prophecy) (status : Status) (s t : OracleStore)
      → (set_prophecy ext q >> pure q.status) s ≡ (ok status, t)
      → (set_prophecy ext q s ≡ (ok tt, t)) × (q.status ≡ status)
  answered q status s t h = ground arith

  settle-HasStatus :
      (st : Staking) (p : Prophecy) (status : Status) (s t : OracleStore)
      → settle ext st p s ≡ (ok status, t)
      → HasStatus p.id status t
  unfolding settle
  settle-HasStatus st p status s t h = go _ _ refl
    where
      go :
          (r : Outcome Prophecy) (u : OracleStore)
          → process_completion ext st p s ≡ (r, u)
          → HasStatus p.id status t
      go (ok q) u e =
          let (stored, same) =
            answered q status u t (sym (settle_completed ext laws st p q s u e) ∙ h) in
          let (q', found, kept) = set_prophecy-HasStatus q u t stored in
          (
            q',
            ap (get_prophecy ext t) (sym (process_completion-id st p q s u e)) ∙ found,
            kept ∙ same,
          )
      go (err x) u e = absurd (ground arith)
      go panic u e = absurd (ground arith)

  -- In a store where each record stands under its own id, with codecs that keep their laws, what
  -- `ProcessClaim` answers on success is the status of the prophecy in the store it leaves.
  pub process_claim-HasStatus :
      (st : Staking) (c : Claim) (status : Status) (s t : OracleStore)
      → IsKeyed s
      → process_claim ext st c s ≡ (ok status, t)
      → HasStatus c.id status t
  process_claim-HasStatus st c status s t keyed h =
      elim (process_claim_cases ext codec laws st c s) [
        | inl refused ↦ absurd (ground (arith, refused.0))
        | inr (v, named, full, e) ↦ elim (vote_cases ext laws st v c s) [
          | inl refused ↦ absurd (ground (arith, refused.0))
          | inr f ↦
              let p = found_or_new c.id (get_prophecy ext s c.id) in
              let (q, found, same) =
                settle-HasStatus st (add_claim ext.bech32 p v c.content) status s t
                  (sym f ∙ sym e ∙ h) in
              (
                q,
                ap (get_prophecy ext t)
                      (sym (added-id ext laws p v c.content ∙ found_or_new-id ext s c.id keyed))
                    ∙ found,
                same,
              )
        ]
      ]
