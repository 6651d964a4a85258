-- ===== src/Oracle/Keeper.antt =====
-- x/oracle/keeper: keeper.go, validatorWhiteList.go, adminAccount.go.
use furynode.Prelude.{
  Bool, true, false, not, ◌||◌, Option, none, some, List, [], ◌∷◌, ◌++◌, map, String, keep,
  if◌then◌else◌,
}
use furynode.Prelude.Int.{ℤ, ◌+64◌, ◌-64◌}
use furynode.Prelude.Text.{Bytes, bytes_eq, str_eq}
use furynode.Prelude.Dict.{Dict, lookup, insert}
use furynode.Chain.Address.{Bech32}
use furynode.Chain.Action.{
  Action, Error, ◌>>=◌, ◌>>◌, pure, fail, fail_if, or_fail, or_panic, gets, modify,
}
use furynode.Oracle.Prophecy.{
  StatusText, Status, pending, success, failed, Prophecy, DbProphecy, Claim, Staking,
  ClaimValidators, Json, or_empty, new_prophecy, serialize_for_db, deserialize_from_db, add_claim,
  find_highest_claim,
}

-- What the keeper is built from or calls: the codecs, `float64`, the order in which a Go map is
-- visited, and the configured share of power.
pub record Externals : Type 1 where
  pub bech32 : Bech32
  pub json : Json
  pub Float : Type 0
  pub of_int64 : ℤ → Float
  pub divide : Float → Float → Float
  pub at_least : Float → Float → Bool
  pub less_than : Float → Float → Bool
  pub consensus_needed : Float
  pub range : ClaimValidators → ClaimValidators

-- The store of the module, one field for each key prefix of types/keys.go.
pub record OracleStore : Type 0 where
  pub white_list : Option (List String)
  pub admin_account : Bytes
  pub prophecies : Dict DbProphecy

abbrev pub decode_all : Bech32 → List String → Option (List Bytes)
decode_all b [] = some []
decode_all b (s ∷ ss) = elim (b.val_from_bech32 s) [
  | none ↦ none
  | some a ↦ elim (decode_all b ss) [ none ↦ none | some as_ ↦ some (a ∷ as_) ]
]

-- The addresses that the stored list holds; none are stored under a missing key.
abbrev pub stored_white_list : OracleStore → List String
stored_white_list s = elim s.white_list [ none ↦ [] | some l ↦ l ]

abbrev pub is_pending : StatusText → Bool
is_pending pending = true
is_pending _ = false

abbrev pub found_or_new : String → Option Prophecy → Prophecy
found_or_new id none = new_prophecy id
found_or_new id (some p) = p

abbrev pub holds : Bytes → List Bytes → Bool
holds a [] = false
holds a (v ∷ vs) = bytes_eq v a || holds a vs

module _ (ext : Externals) where
  open ext use {bech32, json}

  -- An entry that does not decode is a panic.
  unfoldable pub get_oracle_white_list : Action OracleStore (List Bytes)
  get_oracle_white_list s = or_panic (decode_all bech32 (stored_white_list s)) s

  unfoldable pub set_oracle_white_list : List Bytes → Action OracleStore (Unit {0})
  set_oracle_white_list l = modify λ s. record s { white_list = some (map bech32.val_string l) }

  exists_oracle_white_list : OracleStore → Bool
  exists_oracle_white_list s = elim s.white_list [ none ↦ false | some _ ↦ true ]

  unfoldable pub validate_address : Bytes → Action OracleStore Bool
  unfolding exists_oracle_white_list get_oracle_white_list
  validate_address a = do
    exists ← gets exists_oracle_white_list
    if exists then (get_oracle_white_list >>= λ l. pure (holds a l)) else pure false

  unfoldable pub add_oracle_white_list : Bytes → Action OracleStore (Unit {0})
  unfolding get_oracle_white_list set_oracle_white_list
  add_oracle_white_list validator = do
    list ← get_oracle_white_list
    set_oracle_white_list (list ++ validator ∷ [])

  unfoldable pub remove_oracle_white_list : Bytes → Action OracleStore (Unit {0})
  unfolding get_oracle_white_list set_oracle_white_list
  remove_oracle_white_list validator = do
    list ← get_oracle_white_list
    set_oracle_white_list (keep (λ a. not (bytes_eq validator a)) list)

  unfoldable pub set_admin_account : Bytes → Action OracleStore (Unit {0})
  set_admin_account a = modify λ s. record s { admin_account = a }

  -- A nil account, which an empty value decodes to, is nobody's.
  unfoldable pub is_admin_account : OracleStore → Bytes → Bool
  is_admin_account s a = elim s.admin_account [ [] ↦ false | x ∷ xs ↦ bytes_eq (x ∷ xs) a ]

  unfoldable pub process_update_white_list_validator :
      Bytes → Bytes → String → Action OracleStore (Unit {0})
  process_update_white_list_validator sender validator operation = do
    admin ← gets (λ s. is_admin_account s sender)
    fail_if (not admin) Error.not_admin_account
    (if str_eq operation "add"
        then add_oracle_white_list validator
        else (if str_eq operation "remove"
            then remove_oracle_white_list validator
            else fail Error.invalid_operation_type))

  -- A record that does not deserialize is reported as not found.
  unfoldable pub get_prophecy : OracleStore → String → Option Prophecy
  get_prophecy s id = elim (lookup id s.prophecies) [
    | none ↦ none
    | some db ↦ deserialize_from_db json db
  ]

  unfoldable pub set_db_prophecy : DbProphecy → Action OracleStore (Unit {0})
  set_db_prophecy db = modify λ s. record s { prophecies = insert db.id db s.prophecies }

  unfoldable pub set_prophecy : Prophecy → Action OracleStore (Unit {0})
  unfolding set_db_prophecy
  set_prophecy p = do db ← or_fail (serialize_for_db json p) Error.sdk_error; set_db_prophecy db

  abbrev pub lists : String → List Bytes → Bool
  lists address [] = false
  lists address (a ∷ as_) = str_eq (bech32.val_string a) address || lists address as_

  unfoldable pub ensure_address_is_in_whitelist : String → Action OracleStore (Unit {0})
  unfolding get_oracle_white_list
  ensure_address_is_in_whitelist address = do
    list ← get_oracle_white_list
    fail_if (not (lists address list)) Error.validator_not_in_white_list

  unfoldable pub check_active_validator : Staking → Bytes → Bool
  check_active_validator st a = elim (st.get_validator a) [ none ↦ false | some v ↦ v.is_bonded ]

  -- What `processCompletion` decides from the four results of `FindHighestClaim`.
  unfoldable pub completed : Prophecy → String × ℤ × ℤ × ℤ → Prophecy
  completed p (highest, highest_power, claims_power, total_power) =
      let total = ext.of_int64 total_power in
      let ratio = ext.divide (ext.of_int64 highest_power) total in
      let remaining = total_power -64 claims_power in
      let possible = ext.divide (ext.of_int64 (highest_power +64 remaining)) total in
      if ext.at_least ratio ext.consensus_needed
      then record p { status = record { text = success; final_claim = highest } }
      else if ext.less_than possible ext.consensus_needed
      then record p { status = record { text = failed; final_claim = p.status.final_claim } }
      else p

  unfoldable pub process_completion : Staking → Prophecy → Action OracleStore Prophecy
  unfolding completed get_oracle_white_list
  process_completion st p = do
    list ← get_oracle_white_list
    pure (completed p (find_highest_claim bech32 (ext.range p.claim_validators) st list))

  -- The end of `ProcessClaim`: the claim has been added.
  unfoldable pub settle : Staking → Prophecy → Action OracleStore Status
  settle st p = do prophecy ← process_completion st p; set_prophecy prophecy; pure prophecy.status

  -- The part of `ProcessClaim` from the lookup of the prophecy on.
  unfoldable pub vote : Staking → Bytes → Claim → Action OracleStore Status
  vote st validator c = do
    prophecy ← gets (λ s. found_or_new c.id (get_prophecy s c.id))
    fail_if (not (is_pending prophecy.status.text)) Error.prophecy_finalized
    fail_if (not (str_eq (or_empty (lookup c.validator_address prophecy.validator_claims)) ""))
        Error.duplicate_message
    settle st (add_claim bech32 prophecy validator c.content)

  unfoldable pub process_claim : Staking → Claim → Action OracleStore Status
  process_claim st c = do
    ensure_address_is_in_whitelist c.validator_address
    validator ← or_fail (bech32.val_from_bech32 c.validator_address) Error.sdk_error
    fail_if (not (check_active_validator st validator)) Error.invalid_validator
    fail_if (str_eq c.id "") Error.invalid_identifier
    fail_if (str_eq c.content "") Error.invalid_claim
    vote st validator c
