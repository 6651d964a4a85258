-- ===== src/Dispensation/Names.antt =====
-- x/dispensation/types/records.go: the texts of the types and of the statuses, and their parsers.
use furynode.Prelude.{◌≡◌, ◌⊎◌, inl, inr, refl, Bool, true, false, String, arith, if◌then◌else◌}
use furynode.Prelude.Text.{str_eq, str_eq_iff}
use furynode.Dispensation.Records.{
  DistributionType, DistributionStatus, airdrop, validator_subsidy, liquidity_mining, pending,
  completed, failed,
}

-- `DistributionType.String`
unfoldable pub type_name : DistributionType → String
type_name DistributionType.unspecified = "DISTRIBUTION_TYPE_UNSPECIFIED"
type_name airdrop = "DISTRIBUTION_TYPE_AIRDROP"
type_name validator_subsidy = "DISTRIBUTION_TYPE_VALIDATOR_SUBSIDY"
type_name liquidity_mining = "DISTRIBUTION_TYPE_LIQUIDITY_MINING"

unfoldable pub get_distribution_status : String → DistributionStatus × Bool
get_distribution_status s =
    if str_eq s "Completed"
    then (completed, true)
    else if str_eq s "Pending"
    then (pending, true)
    else if str_eq s "Failed"
    then (failed, true)
    else (DistributionStatus.unspecified, false)

unfoldable pub get_claim_type : String → DistributionType × Bool
get_claim_type s =
    if str_eq s "LiquidityMining"
    then (liquidity_mining, true)
    else if str_eq s "ValidatorSubsidy"
    then (validator_subsidy, true)
    else (DistributionType.unspecified, false)

unfoldable pub get_distribution_type_from_short_string : String → DistributionType × Bool
get_distribution_type_from_short_string s =
    if str_eq s "Airdrop"
    then (airdrop, true)
    else if str_eq s "LiquidityMining"
    then (liquidity_mining, true)
    else if str_eq s "ValidatorSubsidy"
    then (validator_subsidy, true)
    else (DistributionType.unspecified, false)

unfoldable pub is_valid_distribution_type : String → DistributionType × Bool
is_valid_distribution_type s =
    if str_eq s "DISTRIBUTION_TYPE_AIRDROP"
    then (airdrop, true)
    else if str_eq s "DISTRIBUTION_TYPE_LIQUIDITY_MINING"
    then (liquidity_mining, true)
    else if str_eq s "DISTRIBUTION_TYPE_VALIDATOR_SUBSIDY"
    then (validator_subsidy, true)
    else (DistributionType.unspecified, false)

unfoldable pub is_valid_claim_type : String → DistributionType × Bool
is_valid_claim_type s =
    if str_eq s "DISTRIBUTION_TYPE_LIQUIDITY_MINING"
    then (liquidity_mining, true)
    else if str_eq s "DISTRIBUTION_TYPE_VALIDATOR_SUBSIDY"
    then (validator_subsidy, true)
    else (DistributionType.unspecified, false)

-- The text of each type of a distribution parses back to it, and is accepted but for the
-- unspecified type; a text that the parser accepts is the text of the type that it returns.
pub is_valid_distribution_type-type_name :
    (t : DistributionType) (s : String)
    → ((is_valid_distribution_type (type_name t)).0 ≡ t)
      × ((is_valid_distribution_type (type_name t)).1 ≡ true ⊎ t ≡ DistributionType.unspecified)
      × ((is_valid_distribution_type s).1 ≡ false ⊎ type_name (is_valid_distribution_type s).0 ≡ s)
unfolding is_valid_distribution_type type_name
is_valid_distribution_type-type_name t s = (known t, accepted t, parsed)
  where
    known : (t : DistributionType) → (is_valid_distribution_type (type_name t)).0 ≡ t
    known DistributionType.unspecified = refl
    known airdrop = refl
    known validator_subsidy = refl
    known liquidity_mining = refl

    accepted :
        (t : DistributionType)
        → (is_valid_distribution_type (type_name t)).1 ≡ true ⊎ t ≡ DistributionType.unspecified
    accepted DistributionType.unspecified = inr refl
    accepted airdrop = inl refl
    accepted validator_subsidy = inl refl
    accepted liquidity_mining = inl refl

    parsed :
        (is_valid_distribution_type s).1 ≡ false ⊎ type_name (is_valid_distribution_type s).0 ≡ s
    parsed = ground (
      arith,
      str_eq_iff s "DISTRIBUTION_TYPE_AIRDROP",
      str_eq_iff s "DISTRIBUTION_TYPE_LIQUIDITY_MINING",
      str_eq_iff s "DISTRIBUTION_TYPE_VALIDATOR_SUBSIDY",
    )
