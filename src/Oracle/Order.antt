-- ===== src/Oracle/Order.antt =====
-- A Go map is visited in no fixed order: what `FindHighestClaim` adds up does not depend on it.
use mathlib.Core.List.{Perm, Permᴰ}
use mathlib.Core.Logic.{∥∥₁_elim}
use mathlib.Core.HLevel.{×_prop}
use furynode.Prelude.{◌≡◌, refl, ◌∙◌, List, [], ◌∷◌, String, arith}
use furynode.Prelude.Int.{ℤ, pos, eq_of_parts, +64-right_comm}
use furynode.Prelude.Text.{Bytes}
use furynode.Prelude.Dict.{Dict}
use furynode.Chain.Address.{Bech32}
use furynode.Oracle.Prophecy.{
  ClaimValidators, Validator, Staking, Tally, no_claims, claim_power, count_claim, count_claims,
  index_validators, find_highest_claim,
}

ℤ-set : IsSet ℤ
ℤ-set = hlevel

-- The two powers of a tally, whatever the claim.
abbrev SamePowers : Tally → Tally → Type 0
SamePowers t u =
    (t.highest_claim_power ≡ u.highest_claim_power) × (t.total_claims_power ≡ u.total_claims_power)

module _ (b : Bech32) (m : Dict Validator) where
  count_claim-SamePowers :
      (t u : Tally) (c d : String × List Bytes)
      → c ≡ d
      → SamePowers t u
      → SamePowers (count_claim b m t c) (count_claim b m u d)
  unfolding count_claim
  count_claim-SamePowers t u c d e h = ground arith

  count_claim-swap :
      (t u : Tally) (c d : String × List Bytes)
      → SamePowers t u
      → SamePowers
          (count_claim b m (count_claim b m t c) d)
          (count_claim b m (count_claim b m u d) c)
  unfolding count_claim
  count_claim-swap t u c d h =
      let p = claim_power b m (pos 0) c.1 in
      let q = claim_power b m (pos 0) d.1 in
      ground (arith, eq_of_parts p q, +64-right_comm t.total_claims_power p q)

  count_claims-fold :
      (l : ClaimValidators) (t u : Tally)
      → SamePowers t u
      → SamePowers (count_claims b m t l) (count_claims b m u l)
  unfolding count_claims
  count_claims-fold [] t u h = h
  count_claims-fold (c ∷ l) t u h =
      count_claims-fold l (count_claim b m t c) (count_claim b m u c)
        (count_claim-SamePowers t u c c refl h)

  count_claims-SamePowers :
      {xs ys : ClaimValidators}
      → Permᴰ xs ys
      → (t u : Tally) → SamePowers t u
      → SamePowers (count_claims b m t xs) (count_claims b m u ys)
  unfolding count_claims
  count_claims-SamePowers Permᴰ.nil t u h = h
  count_claims-SamePowers (Permᴰ.cons {a = c} {b = d} e p) t u h =
      count_claims-SamePowers p _ _ (count_claim-SamePowers t u c d e h)
  count_claims-SamePowers (Permᴰ.swap {a = c} {b = d} {l = l} e f) t u h =
      rw (← e, ← f) (count_claims-fold l _ _ (count_claim-swap t u c d h))
  count_claims-SamePowers (Permᴰ.trans p q) t u h =
      let x = count_claims-SamePowers p t u h in
      let y = count_claims-SamePowers q u u (refl, refl) in (x.0 ∙ y.0, x.1 ∙ y.1)

-- Two runs that visit the claims of a prophecy in different orders find the same highest power, the
-- same total power of the claims and the same total power of the white list.
pub find_highest_claim-perm :
    (b : Bech32) (xs ys : ClaimValidators) (st : Staking) (wl : List Bytes)
    → Perm xs ys
    → let (_, highest, claims, total) = find_highest_claim b xs st wl in
      let (_, highest', claims', total') = find_highest_claim b ys st wl in
      (highest ≡ highest') × (claims ≡ claims') × (total ≡ total')
unfolding find_highest_claim
find_highest_claim-perm b xs ys st wl perm =
    let m = index_validators [] st.get_bonded_validators_by_power in
    let same =
      ∥∥₁_elim perm (×_prop (ℤ-set _ _) (ℤ-set _ _))
        (λ p. count_claims-SamePowers b m p no_claims no_claims (refl, refl)) in
    (same.0, same.1, refl)
