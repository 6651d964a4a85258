-- ===== src/Dispensation/Records.antt =====
-- x/dispensation/types: records.go, keys.go, and the types of types.pb.go and tx.pb.go.
use Prim.Native.String.{◌++◌ as text_append, len}
use furynode.Prelude.{◌+◌, ◌≡◌, Bool, true, false, not, ◌||◌, String, ◌==◌, if◌then◌else◌}
use furynode.Prelude.Int.{ℤ, pos}
use furynode.Prelude.Text.{str_eq}
use furynode.Prelude.Decimal.{format_int}
use furynode.Chain.Bank.{Bank}
use furynode.Chain.Address.{Bech32}

pub data DistributionType : Type 0 where
  unspecified airdrop validator_subsidy liquidity_mining : DistributionType

pub data DistributionStatus : Type 0 where
  unspecified pending completed failed : DistributionStatus

-- The number of a type, which is what `%d` prints.
abbrev pub type_number : DistributionType → ℤ
type_number DistributionType.unspecified = pos 0
type_number airdrop = pos 1
type_number validator_subsidy = pos 2
type_number liquidity_mining = pos 3

abbrev pub type_eq : DistributionType → DistributionType → Bool
type_eq DistributionType.unspecified DistributionType.unspecified = true
type_eq airdrop airdrop = true
type_eq validator_subsidy validator_subsidy = true
type_eq liquidity_mining liquidity_mining = true
type_eq _ _ = false

abbrev pub is_pending : DistributionStatus → Bool
is_pending pending = true
is_pending _ = false

-- What the keeper is built from, and the methods of `sdk.Coins` that it calls.
pub record Externals : Type 1 where
  pub bank : Bank
  pub bech32 : Bech32
  -- `Coins.Add`, `Coins.IsValid` and `Coins.IsAllPositive`.
  pub add_coins : bank.Coins → bank.Coins → bank.Coins
  pub is_valid : bank.Coins → Bool
  pub is_all_positive : bank.Coins → Bool
  pub Timestamp : Type 0

pub record Distribution : Type 0 where
  pub distribution_type : DistributionType
  pub distribution_name : String
  pub runner : String

unfoldable pub validate_distribution : Distribution → Bool
validate_distribution d = if str_eq d.distribution_name "" then false else true

-- `fmt.Sprintf("%s_%d_%s", …)`
abbrev joined : String → DistributionType → String → String
joined name t last =
    text_append name
      (text_append "_" (text_append (format_int (type_number t)) (text_append "_" last)))

-- The keys, without the prefix: the prefix chooses a dictionary of the store.
unfoldable pub get_distribution_record_key : String → String → DistributionType → String
get_distribution_record_key name recipient t = joined name t recipient

unfoldable pub get_distributions_key : String → DistributionType → String → String
get_distributions_key name t runner = joined name t runner

unfoldable pub get_user_claim_key : String → DistributionType → String
get_user_claim_key address t = text_append address (text_append "_" (format_int (type_number t)))

-- `fmt.Sprintf("%d_%s", height, distributor)`
unfoldable pub distribution_name : ℤ → String → String
distribution_name height distributor = text_append (format_int height) (text_append "_" distributor)

module _ (ext : Externals) where
  open ext use {bank}

  -- A sum of coins has the amounts of both.
  pub record CoinLaws : Type 0 where
    pub amount_of-add_coins :
        (a b : bank.Coins) (d : String)
        → bank.amount_of (ext.add_coins a b) d ≡ bank.amount_of a d + bank.amount_of b d

  pub record DistributionRecord : Type 0 where
    pub distribution_status : DistributionStatus
    pub distribution_type : DistributionType
    pub distribution_name : String
    pub recipient_address : String
    pub coins : bank.Coins
    pub distribution_start_height : ℤ
    pub distribution_completed_height : ℤ
    pub authorized_runner : String

  pub record UserClaim : Type 0 where
    pub user_address : String
    pub user_claim_type : DistributionType
    pub user_claim_time : ext.Timestamp

  -- `bank.Output`
  pub record Output : Type 0 where
    pub address : String
    pub coins : bank.Coins

  unfoldable pub validate_record : DistributionRecord → Bool
  validate_record r =
      if len r.recipient_address == 0
      then false
      else (if not (ext.is_valid r.coins)
          then false
          else (if not (ext.is_all_positive r.coins) then false else true))

  unfoldable pub add_record : DistributionRecord → DistributionRecord → DistributionRecord
  add_record r r' = record r { coins = ext.add_coins r.coins r'.coins }

  unfoldable pub does_type_support_claim : DistributionRecord → Bool
  does_type_support_claim r =
      type_eq r.distribution_type liquidity_mining || type_eq r.distribution_type validator_subsidy

  unfoldable pub validate_claim : UserClaim → Bool
  validate_claim c = if len c.user_address == 0 then false else true

  -- The key under which a record stands.
  abbrev pub key_of : DistributionRecord → String
  key_of r = get_distribution_record_key r.distribution_name r.recipient_address r.distribution_type
