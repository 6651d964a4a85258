-- ===== src/Oracle/Tally.antt =====
-- What `FindHighestClaim` finds: the greatest power among the claims, and a claim that has it.
use furynode.Prelude.{◌≡◌, refl, ◌⊎◌, inr, List, [], ◌∷◌, String, All, arith}
use furynode.Prelude.Int.{ℤ, pos, negsuc, ◌≤ℤ◌}
use furynode.Prelude.Text.{Bytes}
use furynode.Prelude.Dict.{Dict}
use furynode.Chain.Address.{Bech32}
use furynode.Oracle.Prophecy.{
  ClaimValidators, Validator, Staking, Tally, no_claims, claim_power, count_claim, count_claims,
  index_validators, find_highest_claim,
}

module _ (b : Bech32) (m : Dict Validator) where
  -- The power behind an entry of the map.
  abbrev pub power : String × List Bytes → ℤ
  power e = claim_power b m (pos 0) e.1

  -- Some entry for this claim has this power.
  abbrev pub IsAttained : String → ℤ → ClaimValidators → Type 0
  IsAttained claim p [] = ⊥
  IsAttained claim p (e ∷ es) = ((e.0 ≡ claim) × (power e ≡ p)) ⊎ IsAttained claim p es

  count_claims_grows :
      (es : ClaimValidators) (t : Tally)
      → t.highest_claim_power ≤ℤ (count_claims b m t es).highest_claim_power
  unfolding count_claims
  count_claims_grows [] t = omega arith
  count_claims_grows (e ∷ es) t = ground (arith, count_claims_grows es (count_claim b m t e))

  count_claims_bound :
      (es : ClaimValidators) (t : Tally)
      → All (λ e. power e ≤ℤ (count_claims b m t es).highest_claim_power) es
  unfolding count_claims
  count_claims_bound [] t = tt
  count_claims_bound (e ∷ es) t = (
    ground (arith, count_claims_grows es (count_claim b m t e)),
    count_claims_bound es (count_claim b m t e),
  )

  count_claims-IsAttained :
      (es : ClaimValidators) (t : Tally)
      → let r = count_claims b m t es in
        IsAttained r.highest_claim r.highest_claim_power es
        ⊎ ((r.highest_claim ≡ t.highest_claim) × (r.highest_claim_power ≡ t.highest_claim_power))
  unfolding count_claims
  count_claims-IsAttained [] t = inr (refl, refl)
  count_claims-IsAttained (e ∷ es) t =
      ground (arith, count_claims-IsAttained es (count_claim b m t e))

-- In whatever order the claims are visited, the power returned bounds the power of every claim, and
-- the claim returned has it; only where no claim has power above -1 are they "" and -1.
pub find_highest_claim-IsHighest :
    (b : Bech32) (entries : ClaimValidators) (st : Staking) (wl : List Bytes)
    → let m = index_validators [] st.get_bonded_validators_by_power in
      let (claim, highest, _, _) = find_highest_claim b entries st wl in
      All (λ e. power b m e ≤ℤ highest) entries
      × (IsAttained b m claim highest entries ⊎ ((claim ≡ "") × (highest ≡ negsuc 0)))
unfolding find_highest_claim
find_highest_claim-IsHighest b entries st wl =
    let m = index_validators [] st.get_bonded_validators_by_power in
    (count_claims_bound b m entries no_claims, count_claims-IsAttained b m entries no_claims)
