-- ===== src/Dispensation/Keeper.antt =====
-- x/dispensation/keeper: distribution.go, distributionRecords.go, userclaim.go, mint_controller.go.
use furynode.Prelude.{
  Bool, false, not, ◌&&◌, Option, none, some, List, [], ◌∷◌, String, ◌+◌, ◌==◌, ℕ, if◌then◌else◌,
}
use furynode.Prelude.Int.{ℤ, pos, negsuc}
use furynode.Prelude.Text.{str_eq}
use furynode.Prelude.Dict.{Dict, lookup, delete}
use furynode.Prelude.Store.{has, set, values}
use furynode.Chain.Action.{
  Action, Error, ◌>>=◌, ◌>>◌, pure, fail_if, or_fail, or_panic, gets, modify, wrap,
}
use furynode.Dispensation.Records.{
  Externals, DistributionType, DistributionStatus, type_eq, Distribution, DistributionRecord,
  UserClaim, pending, completed, failed, is_pending, get_distribution_record_key,
  get_distributions_key, get_user_claim_key, validate_distribution, validate_record, validate_claim,
  key_of,
}

-- `sdk.Coin`
pub record Coin : Type 0 where
  pub denom : String
  pub amount : ℤ

module _ (ext : Externals) where
  open ext use {bank}

  -- The coins, and the store of the module: one dictionary for each prefix.
  pub record State : Type 0 where
    pub coins : bank.Store
    pub distributions : Dict Distribution
    pub pending_records : Dict (DistributionRecord ext)
    pub completed_records : Dict (DistributionRecord ext)
    pub failed_records : Dict (DistributionRecord ext)
    pub claims : Dict (UserClaim ext)
    pub mint_controller : Option Coin

  -- The dictionary that a status chooses, by the prefix of the key.
  unfoldable pub records_at : DistributionStatus → State → Dict (DistributionRecord ext)
  records_at pending s = s.pending_records
  records_at completed s = s.completed_records
  records_at failed s = s.failed_records
  records_at DistributionStatus.unspecified s = s.completed_records

  unfoldable pub with_records : DistributionStatus → Dict (DistributionRecord ext) → State → State
  with_records pending d s = record s { pending_records = d }
  with_records completed d s = record s { completed_records = d }
  with_records failed d s = record s { failed_records = d }
  with_records DistributionStatus.unspecified d s = record s { completed_records = d }

  unfoldable pub set_distribution : Distribution → Action State (Unit {0})
  set_distribution d = do
    fail_if (not (validate_distribution d)) Error.invalid_record
    modify (λ s. record s {
      distributions =
          set (get_distributions_key d.distribution_name d.distribution_type d.runner) d
            s.distributions;
    })

  unfoldable pub exists_distribution : String → DistributionType → String → State → Bool
  exists_distribution name t runner s = has (get_distributions_key name t runner) s.distributions

  unfoldable pub set_distribution_record : DistributionRecord ext → Action State (Unit {0})
  unfolding records_at with_records
  set_distribution_record r = do
    fail_if (not (validate_record ext r)) Error.invalid_record
    modify (λ s.
        with_records r.distribution_status
          (set (key_of ext r) r (records_at r.distribution_status s)) s)

  unfoldable pub get_distribution_record :
      String
      → String
      → DistributionStatus
      → DistributionType
      → Action State (DistributionRecord ext)
  unfolding records_at
  get_distribution_record name recipient status t s =
      or_fail (lookup (get_distribution_record_key name recipient t) (records_at status s))
        Error.invalid_record s

  unfoldable pub exists_distribution_record :
      String → String → DistributionStatus → DistributionType → State → Bool
  unfolding records_at
  exists_distribution_record name recipient status t s =
      has (get_distribution_record_key name recipient t) (records_at status s)

  -- A nil iterator, for a status that is none of the three, is `none`.
  unfoldable pub get_distribution_records_iterator :
      DistributionStatus → State → Option (List (DistributionRecord ext))
  get_distribution_records_iterator pending s = some (values s.pending_records)
  get_distribution_records_iterator completed s = some (values s.completed_records)
  get_distribution_records_iterator failed s = some (values s.failed_records)
  get_distribution_records_iterator DistributionStatus.unspecified s = none

  unfoldable pub delete_distribution_record :
      String → String → DistributionStatus → DistributionType → Action State (Unit {0})
  unfolding records_at with_records
  delete_distribution_record name recipient status t = do
    let key = get_distribution_record_key name recipient t
    exists ← gets (λ s. has key (records_at status s))
    fail_if (not exists) Error.invalid_record
    modify (λ s. with_records status (delete key (records_at status s)) s)

  unfoldable pub change_record_status :
      DistributionRecord ext → ℤ → DistributionStatus → Action State (Unit {0})
  unfolding set_distribution_record delete_distribution_record
  change_record_status r height status = do
    wrap Error.distribution_failed (
        set_distribution_record
          (record r { distribution_status = status; distribution_completed_height = height }))
    wrap Error.distribution_failed (
        delete_distribution_record r.distribution_name r.recipient_address r.distribution_status
          r.distribution_type)

  unfoldable pub set_claim : UserClaim ext → Action State (Unit {0})
  set_claim c = do
    fail_if (not (validate_claim ext c)) Error.invalid_record
    modify (λ s. record s {
      claims = set (get_user_claim_key c.user_address c.user_claim_type) c s.claims;
    })

  unfoldable pub exists_claim : String → DistributionType → State → Bool
  exists_claim recipient t s = has (get_user_claim_key recipient t) s.claims

  unfoldable pub delete_claim : String → DistributionType → Action State (Unit {0})
  delete_claim recipient t =
      modify λ s. record s { claims = delete (get_user_claim_key recipient t) s.claims }

  -- `count == distributionCount`, on `int64`.
  abbrev pub reached : ℕ → ℤ → Bool
  reached count (pos n) = count == n
  reached count (negsuc n) = false

  -- Whether a pending record is one that the runner may run.
  unfoldable pub may_run : String → String → DistributionType → DistributionRecord ext → Bool
  may_run name runner t r =
      str_eq r.distribution_name name
      && is_pending r.distribution_status
      && str_eq r.authorized_runner runner
      && type_eq r.distribution_type t

  -- The loop over the iterator, from a running count.
  unfoldable pub limited :
      String
      → String
      → DistributionType
      → ℤ
      → ℕ
      → List (DistributionRecord ext)
      → List (DistributionRecord ext)
  unfolding may_run
  limited name runner t n count [] = []
  limited name runner t n count (r ∷ rs) =
      let taken = limited name runner t n (count + 1) rs in
      let passed = limited name runner t n count rs in
      if reached count n then [] else (if may_run name runner t r then r ∷ taken else passed)

  unfoldable pub get_limited_records_for_runner :
      String
      → String
      → DistributionType
      → DistributionStatus
      → ℤ
      → Action State (List (DistributionRecord ext))
  unfolding limited get_distribution_records_iterator
  get_limited_records_for_runner name runner t status n = do
    iterator ← gets (get_distribution_records_iterator status)
    records ← or_panic iterator
    pure (limited name runner t n 0 records)
