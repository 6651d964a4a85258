-- ===== src/Oracle/OneVote.antt =====
-- A validator that was heard on a prophecy is not heard on it again.
use mathlib.Core.Bool.{false≢true, true≢false}
use furynode.Prelude.{
  ◌≡◌, subst, sym, ◌∙◌, ◌⊎◌, inl, inr, true, false, some, List, [], ◌∷◌, String, arith, Bool-cases,
  Option-cases,
}
use furynode.Prelude.Text.{Bytes, str_eq, str_eq_iff}
use furynode.Chain.Action.{succeeded}
use furynode.Chain.Address.{Bech32Laws}
use furynode.Oracle.Prophecy.{Claim, Staking}
use furynode.Oracle.Keeper.{
  Externals, OracleStore, get_prophecy, vote, process_claim, ensure_address_is_in_whitelist,
  get_oracle_white_list, check_active_validator, decode_all, lists, stored_white_list,
}
use furynode.Oracle.Finality.{IsKeyed, process_claim-IsKeyed, process_claim-frame, process_claims}
use furynode.Oracle.Votes.{JsonLaws, HasVoted, vote_records, vote-HasVoted}

module _ (ext : Externals) (codec : Bech32Laws ext.bech32) (laws : JsonLaws ext.json) where
  -- A text that the white list holds is the text of the address that it decodes to.
  listed_canonical :
      (ss : List String) (l : List Bytes) (a : String) (v : Bytes)
      → decode_all ext.bech32 ss ≡ some l
      → lists ext a l ≡ true
      → ext.bech32.val_from_bech32 a ≡ some v
      → ext.bech32.val_string v ≡ a
  listed_canonical [] l a v d h e = ground arith
  listed_canonical (s ∷ ss) l a v d h e = elim (Option-cases (ext.bech32.val_from_bech32 s)) [
    | inl n ↦ absurd (ground arith)
    | inr (x, f) ↦ elim (Option-cases (decode_all ext.bech32 ss)) [
      | inl n ↦ absurd (ground arith)
      | inr (xs, g) ↦ ground (
        arith,
        codec.val_round_trip s x f,
        str_eq_iff (ext.bech32.val_string x) a,
        listed_canonical ss xs a v g,
      )
    ]
  ]

  -- A claim is refused and writes nothing, or it goes to the vote under its own validator.
  pub process_claim_cases :
      (st : Staking) (c : Claim) (s : OracleStore)
      → ((succeeded (process_claim ext st c s).0 ≡ false) × ((process_claim ext st c s).1 ≡ s))
        ⊎ ((v : Bytes) × (ext.bech32.val_string v ≡ c.validator_address)
            × (str_eq c.content "" ≡ false)
            × (process_claim ext st c s ≡ vote ext st v c s))
  unfolding process_claim ensure_address_is_in_whitelist get_oracle_white_list
  process_claim_cases st c s = elim (Option-cases (decode_all ext.bech32 (stored_white_list s))) [
    | inl n ↦ inl (ground arith, ground arith)
    | inr (l, d) ↦ elim (Bool-cases (lists ext c.validator_address l)) [
      | inr out ↦ inl (ground arith, ground arith)
      | inl listed ↦ elim (Option-cases (ext.bech32.val_from_bech32 c.validator_address)) [
        | inl n ↦ inl (ground arith, ground arith)
        | inr (v, e) ↦ elim (Bool-cases (str_eq c.content "")) [
          | inl empty ↦ inl (ground arith, ground arith)
          | inr full ↦ elim (Bool-cases (check_active_validator ext st v)) [
            | inr idle ↦ inl (ground arith, ground arith)
            | inl active ↦ elim (Bool-cases (str_eq c.id "")) [
              | inl blank ↦ inl (ground arith, ground arith)
              | inr named ↦
                  inr (v, listed_canonical _ l c.validator_address v d listed e, full, ground arith)
            ]
          ]
        ]
      ]
    ]
  ]

  -- A claim by a validator that has voted on the prophecy is refused.
  HasVoted-refused :
      (st : Staking) (c : Claim) (s : OracleStore)
      → HasVoted ext laws c.validator_address c.id s
      → succeeded (process_claim ext st c s).0 ≡ false
  unfolding vote
  HasVoted-refused st c s (q, found, recorded) = elim (process_claim_cases st c s) [
    | inl refused ↦ refused.0
    | inr (v, named, full, e) ↦ rw e (ground arith)
  ]

  HasVoted-frame :
      (a id : String) (s t : OracleStore)
      → get_prophecy ext t id ≡ get_prophecy ext s id
      → HasVoted ext laws a id s
      → HasVoted ext laws a id t
  HasVoted-frame a id s t same (q, found, recorded) = (q, same ∙ found, recorded)

  process_claim-HasVoted :
      (st : Staking) (c : Claim) (a id : String) (s : OracleStore)
      → IsKeyed s
      → HasVoted ext laws a id s
      → HasVoted ext laws a id (process_claim ext st c s).1
  unfolding get_prophecy
  process_claim-HasVoted st c a id s keyed voted = elim (Bool-cases (str_eq c.id id)) [
    | inr other ↦
        HasVoted-frame a id s (process_claim ext st c s).1
          (rw (
            process_claim-frame ext st c id s keyed
                (λ e. false≢true (sym other ∙ (str_eq_iff c.id id).1 e)),
            get_prophecy,
          ))
          voted
    | inl same ↦
        let e = (str_eq_iff c.id id).0 same in
        elim (process_claim_cases st c s) [
          | inl refused ↦ rw refused.1 voted
          | inr (v, named, full, f) ↦
              subst (λ i. HasVoted ext laws a i (process_claim ext st c s).1) e
                (rw f (
                  vote-HasVoted ext laws st v c a s keyed full
                    (subst (λ i. HasVoted ext laws a i s) (sym e) voted)))
        ]
  ]

  process_claims-HasVoted :
      (l : List (Staking × Claim)) (a id : String) (s : OracleStore)
      → IsKeyed s
      → HasVoted ext laws a id s
      → HasVoted ext laws a id (process_claims ext l s)
  unfolding process_claims
  process_claims-HasVoted [] a id s keyed voted = voted
  process_claims-HasVoted ((st, c) ∷ l) a id s keyed voted =
      process_claims-HasVoted l a id (process_claim ext st c s).1
        (process_claim-IsKeyed ext st c s keyed) (process_claim-HasVoted st c a id s keyed voted)

  -- In a store where each record stands under its own id, with codecs that keep their laws: once a
  -- claim of a validator on a prophecy has been accepted, each later claim of that validator on
  -- that prophecy is refused, after any history of claims and whatever it says.
  pub process_claim_once :
      (st st' : Staking) (c c' : Claim) (l : List (Staking × Claim)) (s : OracleStore)
      → IsKeyed s
      → succeeded (process_claim ext st c s).0 ≡ true
      → c'.id ≡ c.id
      → c'.validator_address ≡ c.validator_address
      → succeeded (process_claim ext st' c' (process_claims ext l (process_claim ext st c s).1)).0
        ≡ false
  process_claim_once st st' c c' l s keyed done same_id same_validator =
      let t = process_claims ext l (process_claim ext st c s).1 in
      HasVoted-refused st' c' t (
        rw (same_id, same_validator)
          (process_claims-HasVoted l c.validator_address c.id (process_claim ext st c s).1
            (process_claim-IsKeyed ext st c s keyed) heard))
    where
      heard : HasVoted ext laws c.validator_address c.id (process_claim ext st c s).1
      heard = elim (process_claim_cases st c s) [
        | inl refused ↦ absurd (true≢false (sym done ∙ refused.0))
        | inr (v, named, full, e) ↦ rw e (
            subst (λ a. HasVoted ext laws a c.id (vote ext st v c s).1) named
              (vote_records ext laws st v c s keyed full (rw e at done)))
      ]
