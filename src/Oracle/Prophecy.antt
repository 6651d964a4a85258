-- ===== src/Oracle/Prophecy.antt =====
-- x/oracle/types/prophecy.go: prophecies, their claims, and the search for the strongest claim.
use furynode.Prelude.{
  Bool, false, ◌||◌, Option, none, some, List, [], ◌∷◌, ◌++◌, String, if◌then◌else◌,
}
use furynode.Prelude.Int.{ℤ, pos, negsuc, ltb_ℤ, ◌+64◌}
use furynode.Prelude.Text.{Bytes, bytes_eq}
use furynode.Prelude.Dict.{Dict, lookup, insert}
use furynode.Chain.Address.{Bech32}

pub data StatusText : Type 0 where
  unspecified pending success failed : StatusText

pub record Status : Type 0 where
  pub text : StatusText
  pub final_claim : String

abbrev pub ClaimValidators : Type 0
ClaimValidators = Dict (List Bytes)

pub record Prophecy : Type 0 where
  pub id : String
  pub status : Status
  pub claim_validators : ClaimValidators
  pub validator_claims : Dict String

-- A prophecy as the store holds it: the two maps are JSON texts.
pub record DbProphecy : Type 0 where
  pub id : String
  pub status : Status
  pub claim_validators : String
  pub validator_claims : String

pub record Claim : Type 0 where
  pub id : String
  pub validator_address : String
  pub content : String

-- What the code reads of a `staking.Validator`.
pub record Validator : Type 0 where
  pub operator_address : String
  pub get_operator : Bytes
  pub get_consensus_power : ℤ
  pub is_bonded : Bool

-- What the staking keeper answers in one context.
pub record Staking : Type 0 where
  pub get_bonded_validators_by_power : List Validator
  pub get_validator : Bytes → Option Validator

-- encoding/json on the two maps of a prophecy; `none` is an error.
pub record Json : Type 0 where
  pub marshal_claim_validators : ClaimValidators → Option String
  pub unmarshal_claim_validators : String → Option ClaimValidators
  pub marshal_validator_claims : Dict String → Option String
  pub unmarshal_validator_claims : String → Option (Dict String)

unfoldable pub new_status : StatusText → String → Status
new_status text final_claim = record { text = text; final_claim = final_claim }

unfoldable pub new_prophecy : String → Prophecy
unfolding new_status
new_prophecy id = record {
  id = id;
  status = new_status pending "";
  claim_validators = [];
  validator_claims = [];
}

unfoldable pub serialize_for_db : Json → Prophecy → Option DbProphecy
serialize_for_db json p = elim (json.marshal_claim_validators p.claim_validators) [
  | none ↦ none
  | some cv ↦ elim (json.marshal_validator_claims p.validator_claims) [
    | none ↦ none
    | some vc ↦
        some (record { id = p.id; status = p.status; claim_validators = cv; validator_claims = vc })
  ]
]

unfoldable pub deserialize_from_db : Json → DbProphecy → Option Prophecy
deserialize_from_db json p = elim (json.unmarshal_claim_validators p.claim_validators) [
  | none ↦ none
  | some cv ↦ elim (json.unmarshal_validator_claims p.validator_claims) [
    | none ↦ none
    | some vc ↦
        some (record { id = p.id; status = p.status; claim_validators = cv; validator_claims = vc })
  ]
]

-- A missing key of a Go map reads as the zero value.
abbrev pub or_nil : Option (List Bytes) → List Bytes
or_nil none = []
or_nil (some l) = l

abbrev pub or_empty : Option String → String
or_empty none = ""
or_empty (some s) = s

unfoldable pub add_claim : Bech32 → Prophecy → Bytes → String → Prophecy
add_claim b p validator claim = record p {
  claim_validators =
      insert claim (or_nil (lookup claim p.claim_validators) ++ validator ∷ []) p.claim_validators;
  validator_claims = insert (b.val_string validator) claim p.validator_claims;
}

unfoldable pub in_white_list : Validator → List Bytes → Bool
in_white_list v [] = false
in_white_list v (a ∷ as_) = bytes_eq v.get_operator a || in_white_list v as_

-- The first loop of `FindHighestClaim`, from a running total.
unfoldable pub white_list_power : List Bytes → ℤ → List Validator → ℤ
unfolding in_white_list
white_list_power wl total [] = total
white_list_power wl total (v ∷ vs) =
    white_list_power wl (if in_white_list v wl then total +64 v.get_consensus_power else total) vs

-- The second loop: the validators by address; a later entry replaces an earlier one.
unfoldable pub index_validators : Dict Validator → List Validator → Dict Validator
index_validators m [] = m
index_validators m (v ∷ vs) = index_validators (insert v.operator_address v m) vs

abbrev pub power_of : Option Validator → ℤ → ℤ
power_of none power = power
power_of (some v) power = power +64 v.get_consensus_power

-- The inner loop: the power behind one claim.
unfoldable pub claim_power : Bech32 → Dict Validator → ℤ → List Bytes → ℤ
claim_power b m power [] = power
claim_power b m power (a ∷ as_) = claim_power b m (power_of (lookup (b.val_string a) m) power) as_

-- The variables of the outer loop.
pub record Tally : Type 0 where
  pub highest_claim : String
  pub highest_claim_power : ℤ
  pub total_claims_power : ℤ

unfoldable pub count_claim : Bech32 → Dict Validator → Tally → String × List Bytes → Tally
count_claim b m t (claim, addrs) =
    let power = claim_power b m (pos 0) addrs in
    let total = t.total_claims_power +64 power in
    if ltb_ℤ t.highest_claim_power power
    then record { highest_claim = claim; highest_claim_power = power; total_claims_power = total }
    else record t { total_claims_power = total }

unfoldable pub count_claims : Bech32 → Dict Validator → Tally → ClaimValidators → Tally
unfolding count_claim
count_claims b m t [] = t
count_claims b m t (c ∷ cs) = count_claims b m (count_claim b m t c) cs

abbrev pub no_claims : Tally
no_claims = record {
  highest_claim = "";
  highest_claim_power = negsuc 0;
  total_claims_power = pos 0;
}

-- `entries` are the claims of the prophecy in the order in which this run visits the map.
unfoldable pub find_highest_claim :
    Bech32 → ClaimValidators → Staking → List Bytes → String × ℤ × ℤ × ℤ
unfolding count_claims index_validators white_list_power
find_highest_claim b entries st wl =
    let validators = st.get_bonded_validators_by_power in
    let t = count_claims b (index_validators [] validators) no_claims entries in
    (
      t.highest_claim,
      t.highest_claim_power,
      t.total_claims_power,
      white_list_power wl (pos 0) validators,
    )
