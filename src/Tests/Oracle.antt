-- ===== src/Tests/Oracle.antt =====
-- Runs of the oracle: Ann's claim, which decides, and claims after it.
use mathlib.Core.List.{Permᴰ}
use furynode.Prelude.{◌≡◌, refl, ap, subst, ◌⊎◌, false, some, List, [], ◌∷◌, arith}
use furynode.Prelude.Int.{pos, negsuc, ◌+64◌, ◌-64◌, ◌≤ℤ◌}
use furynode.Prelude.{All}
use furynode.Prelude.Dict.{lookup, insert}
use furynode.Prelude.Text.{Bytes, bytes_eq}
use furynode.Chain.Action.{ok, succeeded}
use furynode.Oracle.Prophecy.{
  Claim, Prophecy, DbProphecy, StatusText, Staking, new_prophecy, new_status, serialize_for_db,
  deserialize_from_db, add_claim, find_highest_claim, count_claims, index_validators,
  white_list_power, in_white_list, claim_power, count_claim, ClaimValidators,
}
use furynode.Oracle.Keeper.{
  OracleStore, get_oracle_white_list, ensure_address_is_in_whitelist, check_active_validator,
  get_prophecy, set_prophecy, set_db_prophecy, process_completion, completed, settle, vote,
  process_claim, process_update_white_list_validator, is_admin_account,
}
use furynode.Oracle.Finality.{
  IsKeyed, process_claim_finalized, process_claims, process_claims-keeps_finalized,
  process_claim-IsKeyed,
}
use furynode.Oracle.Tally.{power, IsAttained, find_highest_claim-IsHighest}
use furynode.Oracle.Order.{find_highest_claim-perm}
use furynode.Oracle.Votes.{Matches, deserialize_from_db-serialize_for_db}
use furynode.Oracle.OneVote.{process_claim_once}
use furynode.Oracle.Stored.{process_claim-HasStatus, HasStatus}
use furynode.Oracle.WhiteList.{
  IsAddress, IsAnswer, updated, process_update_white_list_validator-IsAnswer,
}
use furynode.Tests.Codecs.{ann, bob, bech32, bech32_laws, json, json_laws, externals, staking}

abbrev pub store : OracleStore
store = record { white_list = some ("ann" ∷ "bob" ∷ []); admin_account = ann; prophecies = [] }

abbrev claim : Claim
claim = record { id = "1"; validator_address = "ann"; content = "mint" }

abbrev bob_claim : Claim
bob_claim = record { id = "1"; validator_address = "bob"; content = "mint" }

abbrev decided : Prophecy
decided = record {
  id = "1";
  status = record { text = StatusText.success; final_claim = "mint" };
  claim_validators = ("mint", ann ∷ []) ∷ [];
  validator_claims = ("ann", "mint") ∷ [];
}

abbrev stored : DbProphecy
stored = record {
  id = "1";
  status = record { text = StatusText.success; final_claim = "mint" };
  claim_validators = "one";
  validator_claims = "one";
}

abbrev after : OracleStore
after = record store { prophecies = ("1", stored) ∷ [] }

pub store-IsKeyed : IsKeyed store
unfolding lookup
store-IsKeyed k db h = absurd (ground arith)

ann_decides : process_claim externals staking claim store ≡ (ok decided.status, after)
unfolding process_claim ensure_address_is_in_whitelist get_oracle_white_list check_active_validator
    vote settle process_completion completed find_highest_claim count_claims count_claim claim_power
    index_validators white_list_power in_white_list add_claim new_prophecy new_status get_prophecy
    set_prophecy set_db_prophecy serialize_for_db deserialize_from_db lookup insert bytes_eq ◌+64◌
    ◌-64◌
ann_decides = refl

after-IsKeyed : IsKeyed after
after-IsKeyed =
    subst IsKeyed (ap (λ x. x.1) ann_decides)
      (process_claim-IsKeyed externals staking claim store store-IsKeyed)

decided_found : get_prophecy externals after "1" ≡ some decided
unfolding get_prophecy deserialize_from_db lookup
decided_found = refl

process_claim_finalized_example :
    (succeeded (process_claim externals staking bob_claim after).0 ≡ false)
    × ((process_claim externals staking bob_claim after).1 ≡ after)
process_claim_finalized_example =
    process_claim_finalized externals staking bob_claim after decided decided_found refl

abbrev history : List (Staking × Claim)
history = (staking, bob_claim) ∷ (staking, claim) ∷ []

process_claims-keeps_finalized_example :
    get_prophecy externals (process_claims externals history after) "1" ≡ some decided
process_claims-keeps_finalized_example =
    process_claims-keeps_finalized externals history "1" after decided after-IsKeyed decided_found
      refl

process_claim_once_example :
    succeeded
      (process_claim externals staking claim
        (process_claims externals history (process_claim externals staking claim store).1)).0
    ≡ false
process_claim_once_example =
    process_claim_once externals bech32_laws json_laws staking staking claim claim history store
      store-IsKeyed (ap (λ x. succeeded x.0) ann_decides) refl refl

process_claim-HasStatus_example : HasStatus externals bech32_laws json_laws "1" decided.status after
process_claim-HasStatus_example =
    process_claim-HasStatus externals bech32_laws json_laws staking claim decided.status store after
      store-IsKeyed ann_decides

serialized : serialize_for_db json decided ≡ some stored
unfolding serialize_for_db bytes_eq
serialized = refl

deserialize_from_db-serialize_for_db_example :
    (q : Prophecy) × (deserialize_from_db json stored ≡ some q) × Matches decided q
deserialize_from_db-serialize_for_db_example =
    deserialize_from_db-serialize_for_db json json_laws decided stored serialized

-- Ann claims one thing, and Bob another.
abbrev split_claims : ClaimValidators
split_claims = ("mint", ann ∷ []) ∷ ("other", bob ∷ []) ∷ []

abbrev split_claims_swapped : ClaimValidators
split_claims_swapped = ("other", bob ∷ []) ∷ ("mint", ann ∷ []) ∷ []

abbrev white_list : List Bytes
white_list = ann ∷ bob ∷ []

split_decided :
    find_highest_claim bech32 split_claims staking white_list ≡ ("mint", pos 80, pos 100, pos 100)
unfolding find_highest_claim count_claims count_claim claim_power index_validators white_list_power
    in_white_list lookup insert bytes_eq ◌+64◌
split_decided = refl

find_highest_claim-IsHighest_example :
    let m = index_validators [] staking.get_bonded_validators_by_power in
    let (claim, highest, _, _) = find_highest_claim bech32 split_claims staking white_list in
    All (λ e. power bech32 m e ≤ℤ highest) split_claims
    × (IsAttained bech32 m claim highest split_claims ⊎ ((claim ≡ "") × (highest ≡ negsuc 0)))
find_highest_claim-IsHighest_example =
    find_highest_claim-IsHighest bech32 split_claims staking white_list

find_highest_claim-perm_example :
    let (_, highest, claims, total) = find_highest_claim bech32 split_claims staking white_list in
    let (_, highest', claims', total') =
      find_highest_claim bech32 split_claims_swapped staking white_list in
    (highest ≡ highest') × (claims ≡ claims') × (total ≡ total')
find_highest_claim-perm_example =
    find_highest_claim-perm bech32 split_claims split_claims_swapped staking white_list
      ∣ Permᴰ.swap refl refl ∣₁

readable : get_oracle_white_list externals store ≡ (ok (ann ∷ bob ∷ []), store)
unfolding get_oracle_white_list
readable = refl

bob_decodes : IsAddress bech32 bob
unfolding bytes_eq
bob_decodes = refl

process_update_white_list_validator-IsAnswer_example :
    let (r, t) = process_update_white_list_validator externals ann bob "remove" store in
    IsAnswer externals bech32_laws
      (is_admin_account externals store ann)
      (updated "remove" bob (ann ∷ bob ∷ []))
      store
      r
      t
process_update_white_list_validator-IsAnswer_example =
    process_update_white_list_validator-IsAnswer externals bech32_laws ann bob "remove" store
      (ann ∷ bob ∷ []) readable bob_decodes
