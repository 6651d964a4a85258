-- ===== src/Dispensation/Server.antt =====
-- x/dispensation/keeper/msg_server.go and handler.go, and the stateless checks of types/msgs.go.
use furynode.Prelude.{
  Bool, true, false, not, ◌||◌, Option, none, some, List, [], ◌∷◌, String, if◌then◌else◌,
}
use furynode.Prelude.Int.{ℤ, pos, ltb_ℤ, leb_ℤ}
use furynode.Prelude.Text.{str_eq}
use furynode.Chain.Action.{Action, Outcome, ok, err, Error, ◌>>=◌, ◌>>◌, fail_if, or_fail, gets}
use furynode.Dispensation.Records.{Externals, DistributionType, Output, distribution_name}
use furynode.Dispensation.Names.{type_name, is_valid_distribution_type, is_valid_claim_type}
use furynode.Dispensation.Keeper.{State, set_claim, exists_claim}
use furynode.Dispensation.Executors.{
  total_output, create_drops, distribute_drops, accumulate_drops, verify_and_set_distribution,
}

abbrev pub max_records_per_block : ℤ
max_records_per_block = pos 20

pub record UserClaimMsg : Type 0 where
  pub user_claim_address : String
  pub user_claim_type : DistributionType

pub record RunMsg : Type 0 where
  pub authorized_runner : String
  pub distribution_name : String
  pub distribution_type : DistributionType
  pub distribution_count : ℤ

module _ (ext : Externals) where
  open ext use {bank, bech32}

  pub record CreateMsg : Type 0 where
    pub distributor : String
    pub authorized_runner : String
    pub distribution_type : DistributionType
    pub output : List (Output ext)

  -- What the handlers read of the block; the time is none where it has no timestamp.
  pub record Block : Type 0 where
    pub height : ℤ
    pub time : Option ext.Timestamp

  decodes : String → Bool
  decodes s = elim (bech32.acc_from_bech32 s) [ none ↦ false | some _ ↦ true ]

  unfoldable pub check : Bool → Error → Outcome (Unit {0}) → Outcome (Unit {0})
  check failed e rest = if failed then err e else rest

  -- The coins are sorted before they are checked, and a valid list is sorted.
  validate_outputs : (bank.Coins → bank.Coins) → List (Output ext) → Outcome (Unit {0})
  unfolding decodes check
  validate_outputs sort [] = ok tt
  validate_outputs sort (o ∷ os) =
      let rest = validate_outputs sort os in
      check (not (decodes o.address)) Error.invalid_record
        (check (not (ext.is_valid (sort o.coins))) Error.invalid_record rest)

  is_empty : List (Output ext) → Bool
  is_empty [] = true
  is_empty (_ ∷ _) = false

  unfoldable pub validate_create : (bank.Coins → bank.Coins) → CreateMsg → Outcome (Unit {0})
  unfolding decodes check validate_outputs is_empty
  validate_create sort m =
      check (not (is_valid_distribution_type (type_name m.distribution_type)).1)
        Error.invalid_record
        (check (is_empty m.output) Error.invalid_record (
          check (not (decodes m.distributor)) Error.invalid_record (
            check (not (decodes m.authorized_runner)) Error.invalid_record
              (validate_outputs sort m.output))))

  unfoldable pub validate_user_claim : UserClaimMsg → Outcome (Unit {0})
  unfolding decodes check
  validate_user_claim m = check (not (decodes m.user_claim_address)) Error.invalid_address (
      check (not (is_valid_claim_type (type_name m.user_claim_type)).1) Error.invalid_record
        (ok tt))

  unfoldable pub validate_run : RunMsg → Outcome (Unit {0})
  unfolding decodes check
  validate_run m =
      check (not (is_valid_distribution_type (type_name m.distribution_type)).1)
        Error.invalid_record
        (check (str_eq m.distribution_name "") Error.invalid_record (
          check (not (decodes m.authorized_runner)) Error.invalid_record (
            check
              (ltb_ℤ max_records_per_block m.distribution_count
                || leb_ℤ m.distribution_count (pos 0))
              Error.invalid_record (ok tt))))

  unfoldable pub create_distribution : Block → CreateMsg → Action (State ext) (Unit {0})
  create_distribution b m = do
    let name = distribution_name b.height m.distributor
    verify_and_set_distribution ext name m.distribution_type m.authorized_runner
    amount ← (λ s. (total_output ext m.output, s))
    accumulate_drops ext m.distributor amount
    create_drops ext b.height m.output name m.distribution_type m.authorized_runner

  unfoldable pub create_user_claim : Block → UserClaimMsg → Action (State ext) (Unit {0})
  create_user_claim b m = do
    exists ← gets (exists_claim ext m.user_claim_address m.user_claim_type)
    fail_if exists Error.invalid_record
    time ← or_fail b.time Error.sdk_error
    set_claim ext (record {
      user_address = m.user_claim_address;
      user_claim_type = m.user_claim_type;
      user_claim_time = time;
    })

  unfoldable pub run_distribution : Block → RunMsg → Action (State ext) (Unit {0})
  run_distribution b m = do
    records ←
        distribute_drops ext b.height m.distribution_name m.authorized_runner m.distribution_type
          m.distribution_count
    (λ s. (ok tt, s))

  -- The messages of the module.
  pub data Msg : Type 0 where
    create : CreateMsg → Msg
    user_claim : UserClaimMsg → Msg
    run : RunMsg → Msg

  unfoldable pub handle : Block → Msg → Action (State ext) (Unit {0})
  handle b (create m) = create_distribution b m
  handle b (user_claim m) = create_user_claim b m
  handle b (run m) = run_distribution b m

  -- `GetSigners`, which panics where the address does not decode, names one account.
  unfoldable pub get_signer : Msg → String
  get_signer (create m) = m.distributor
  get_signer (user_claim m) = m.user_claim_address
  get_signer (run m) = m.authorized_runner
