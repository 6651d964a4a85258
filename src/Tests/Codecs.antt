-- ===== src/Tests/Codecs.antt =====
-- Concrete codecs for three accounts, with the laws that the theorems ask of a codec.
use furynode.Prelude.{
  ℕ, ◌*◌, ◌≡◌, refl, subst, inl, inr, true, ◌&&◌, Option, none, some, [], ◌∷◌, String, leb, ltb,
  arith, Bool-cases, if◌then◌else◌,
}
use furynode.Prelude.Int.{ℤ, pos, negsuc}
use furynode.Prelude.Text.{Bytes, bytes_eq, bytes_eq_iff, str_eq, str_eq_iff}
use furynode.Prelude.Dict.{Dict, lookup}
use furynode.Chain.Address.{Bech32, Bech32Laws}
use furynode.Oracle.Prophecy.{ClaimValidators, Json, Validator, Staking}
use furynode.Oracle.Keeper.{Externals}
use furynode.Oracle.Votes.{JsonLaws}

abbrev pub ann : Bytes
ann = 1 ∷ []

abbrev pub bob : Bytes
bob = 2 ∷ []

abbrev decode : String → Option Bytes
decode s = if str_eq s "ann" then some ann else if str_eq s "bob" then some bob else none

abbrev encode : Bytes → String
encode a = if bytes_eq a ann then "ann" else if bytes_eq a bob then "bob" else ""

abbrev pub bech32 : Bech32
bech32 = record {
  acc_from_bech32 = decode;
  acc_string = encode;
  val_from_bech32 = decode;
  val_string = encode;
}

round_trip : (s : String) (a : Bytes) → decode s ≡ some a → decode (encode a) ≡ some a
unfolding bytes_eq
round_trip s a h = elim (Bool-cases (str_eq s "ann")) [
  | inl e ↦ let f : ann ≡ a = ground arith in subst (λ a. decode (encode a) ≡ some a) f refl
  | inr n ↦ elim (Bool-cases (str_eq s "bob")) [
    | inl e ↦ let f : bob ≡ a = ground arith in subst (λ a. decode (encode a) ≡ some a) f refl
    | inr m ↦ absurd (ground arith)
  ]
]

pub bech32_laws : Bech32Laws bech32
bech32_laws = record { acc_round_trip = round_trip; val_round_trip = round_trip }

-- JSON for the maps of a prophecy with no votes, and with one vote of Ann's for "mint".
abbrev one_claim : ClaimValidators
one_claim = ("mint", ann ∷ []) ∷ []

abbrev one_vote : Dict String
one_vote = ("ann", "mint") ∷ []

abbrev marshal_cv : ClaimValidators → Option String
marshal_cv [] = some "{}"
marshal_cv ((k, v) ∷ []) = elim v [
  | [] ↦ none
  | a ∷ as_ ↦ elim as_ [
    | [] ↦ if str_eq k "mint" && bytes_eq a ann then some "one" else none
    | _ ∷ _ ↦ none
  ]
]
marshal_cv (_ ∷ _ ∷ _) = none

abbrev unmarshal_cv : String → Option ClaimValidators
unmarshal_cv s = if str_eq s "{}" then some [] else if str_eq s "one" then some one_claim else none

abbrev marshal_vc : Dict String → Option String
marshal_vc [] = some "{}"
marshal_vc ((k, v) ∷ []) = if str_eq k "ann" && str_eq v "mint" then some "one" else none
marshal_vc (_ ∷ _ ∷ _) = none

abbrev unmarshal_vc : String → Option (Dict String)
unmarshal_vc s = if str_eq s "{}" then some [] else if str_eq s "one" then some one_vote else none

abbrev pub json : Json
json = record {
  marshal_claim_validators = marshal_cv;
  unmarshal_claim_validators = unmarshal_cv;
  marshal_validator_claims = marshal_vc;
  unmarshal_validator_claims = unmarshal_vc;
}

cv_round_trip :
    (m : ClaimValidators) (t : String)
    → marshal_cv m ≡ some t
    → (n : ClaimValidators) × (unmarshal_cv t ≡ some n) × ((k : String) → lookup k n ≡ lookup k m)
cv_round_trip [] t h =
    let e : "{}" ≡ t = ground arith in ([], subst (λ t. unmarshal_cv t ≡ some []) e refl, λ k. refl)
cv_round_trip ((k, []) ∷ []) t h = absurd (ground arith)
cv_round_trip ((k, a ∷ []) ∷ []) t h =
    let e : "one" ≡ t = ground arith in
    (
      one_claim,
      subst (λ t. unmarshal_cv t ≡ some one_claim) e refl,
      λ j. ground (arith, str_eq_iff k "mint", bytes_eq_iff a ann),
    )
cv_round_trip ((k, a ∷ b ∷ as_) ∷ []) t h = absurd (ground arith)
cv_round_trip (x ∷ y ∷ l) t h = absurd (ground arith)

vc_round_trip :
    (m : Dict String) (t : String)
    → marshal_vc m ≡ some t
    → (n : Dict String) × (unmarshal_vc t ≡ some n) × ((k : String) → lookup k n ≡ lookup k m)
vc_round_trip [] t h =
    let e : "{}" ≡ t = ground arith in ([], subst (λ t. unmarshal_vc t ≡ some []) e refl, λ k. refl)
vc_round_trip ((k, v) ∷ []) t h =
    let e : "one" ≡ t = ground arith in
    (
      one_vote,
      subst (λ t. unmarshal_vc t ≡ some one_vote) e refl,
      λ j. ground (arith, str_eq_iff k "ann", str_eq_iff v "mint"),
    )
vc_round_trip (x ∷ y ∷ l) t h = absurd (ground arith)

pub json_laws : JsonLaws json
json_laws = record {
  claim_validators_round_trip = cv_round_trip;
  validator_claims_round_trip = vc_round_trip;
}

-- Fractions of natural numbers in the place of `float64`.
abbrev fraction : ℤ → ℕ × ℕ
fraction (pos n) = (n, 1)
fraction (negsuc n) = (0, 1)

abbrev pub externals : Externals
externals = record {
  bech32 = bech32;
  json = json;
  Float = ℕ × ℕ;
  of_int64 = fraction;
  divide = λ a b. (a.0 * b.1, a.1 * b.0);
  at_least = λ a b. leb (b.0 * a.1) (a.0 * b.1);
  less_than = λ a b. ltb (a.0 * b.1) (b.0 * a.1);
  consensus_needed = (7, 10);
  range = λ l. l;
}

abbrev validator : String → Bytes → ℤ → Validator
validator s a p = record {
  operator_address = s;
  get_operator = a;
  get_consensus_power = p;
  is_bonded = true;
}

-- Ann has the power to decide alone, and Bob has not.
abbrev pub staking : Staking
staking = record {
  get_bonded_validators_by_power = validator "ann" ann (pos 80) ∷ validator "bob" bob (pos 20) ∷ [];
  get_validator = λ a.
      if bytes_eq a ann
      then some (validator "ann" ann (pos 80))
      else if bytes_eq a bob
      then some (validator "bob" bob (pos 20))
      else none;
}
