-- ===== src/Dispensation/Queries.antt =====
-- x/dispensation/keeper: what distributionRecords.go, distribution.go and userclaim.go read out of
-- the store. A value that does not unmarshal does not stand in it.
use furynode.Prelude.{
  ℕ, Bool, true, ◌&&◌, List, [], ◌∷◌, String, ◌-◌, ◌==◌, ◌++◌, keep, if◌then◌else◌,
}
use furynode.Prelude.Text.{str_eq}
use furynode.Prelude.Dict.{lookup}
use furynode.Prelude.Store.{values}
use furynode.Chain.Action.{Action, Error, ◌>>=◌, pure, gets, or_fail, or_panic}
use furynode.Dispensation.Records.{
  Externals, DistributionType, DistributionStatus, Distribution, DistributionRecord, UserClaim,
  type_eq, get_distributions_key, get_user_claim_key,
}
use furynode.Dispensation.Keeper.{State, get_distribution_records_iterator}

-- `types.MaxRecordsPerBlock`, as the loop counts: the records up to this many.
up_to : {A : Type 0} → ℕ → List A → List A
up_to n [] = []
up_to n (x ∷ xs) = let rest = up_to (n - 1) xs in if n == 0 then [] else x ∷ rest

module _ (ext : Externals) where
  abbrev Found : Type 0
  Found = List (DistributionRecord ext)

  -- The records of a status that pass a test. A nil iterator panics.
  selected : DistributionStatus → (DistributionRecord ext → Bool) → Action (State ext) Found
  selected status p = do
    iterator ← gets (get_distribution_records_iterator ext status)
    records ← or_panic iterator
    pure (keep p records)

  -- The pending records that pass a test, then the completed ones, then the failed ones.
  selected_all : (DistributionRecord ext → Bool) → State ext → Found
  selected_all p s =
      keep p (values s.pending_records)
      ++ (keep p (values s.completed_records) ++ keep p (values s.failed_records))

  unfoldable pub get_records_for_name_and_status :
      String → DistributionStatus → Action (State ext) Found
  unfolding selected
  get_records_for_name_and_status name status =
      selected status (λ r. str_eq r.distribution_name name)

  unfoldable pub get_records_for_name_status_and_type :
      String → DistributionStatus → DistributionType → Action (State ext) Found
  unfolding selected
  get_records_for_name_status_and_type name status t =
      selected status (λ r. str_eq r.distribution_name name && type_eq r.distribution_type t)

  unfoldable pub get_records_for_recipient : String → State ext → Found
  unfolding selected_all
  get_records_for_recipient recipient s = selected_all (λ r. str_eq r.recipient_address recipient) s

  unfoldable pub get_limited_records_for_status : DistributionStatus → Action (State ext) Found
  unfolding up_to
  get_limited_records_for_status status = do
    iterator ← gets (get_distribution_records_iterator ext status)
    records ← or_panic iterator
    pure (up_to 20 records)

  unfoldable pub get_records : State ext → Found
  unfolding selected_all
  get_records s = selected_all (λ _. true) s

  unfoldable pub get_records_for_name : String → State ext → Found
  unfolding selected_all
  get_records_for_name name s = selected_all (λ r. str_eq r.distribution_name name) s

  unfoldable pub get_distribution :
      String → DistributionType → String → Action (State ext) Distribution
  get_distribution name t runner s =
      or_fail (lookup (get_distributions_key name t runner) s.distributions) Error.invalid_record s

  unfoldable pub get_distributions : State ext → List Distribution
  get_distributions s = values s.distributions

  unfoldable pub get_claim : String → DistributionType → Action (State ext) (UserClaim ext)
  get_claim recipient t s =
      or_fail (lookup (get_user_claim_key recipient t) s.claims) Error.invalid_record s

  unfoldable pub get_claims : State ext → List (UserClaim ext)
  get_claims s = values s.claims

  unfoldable pub get_claims_by_type : DistributionType → State ext → List (UserClaim ext)
  get_claims_by_type t s = keep (λ c. type_eq c.user_claim_type t) (values s.claims)
