-- ===== src/Dispensation/Funding.antt =====
-- The records of the outputs of a new distribution, in a module that holds the coins for them.
use furynode.Prelude.{
  ℕ, ◌+◌, ◌≤◌, ◌≡◌, refl, sym, ap, subst, ◌∙◌, inl, inr, true, List, [], ◌∷◌, String, arith,
  Bool-cases, Option-cases,
}
use furynode.Prelude.Int.{ℤ, negsuc}
use furynode.Prelude.Dict.{lookup}
use furynode.Prelude.Store.{has, set, IsUnique, value_at, total-set, set-IsUnique, replace, place}
use furynode.Chain.Action.{ok, Error, ◌>>=◌, >>=-eq-ok, wrap}
use furynode.Dispensation.Records.{
  Externals, CoinLaws, DistributionType, DistributionRecord, Output, pending, validate_record,
  key_of, add_record, get_distribution_record_key,
}
use furynode.Dispensation.Keeper.{
  State, set_distribution_record, get_distribution_record, exists_distribution_record, records_at,
  with_records,
}
use furynode.Dispensation.Executors.{add_outputs, total_output, new_drop, create_drops}
use furynode.Dispensation.Reserve.{IsWaiting, IsKeyed, IsSolvent, Records, amount, owed, held}

module _ (ext : Externals) where
  open ext use {bank, bech32}
  open bank use {balance, amount_of, module_address}

  set-IsKeyed :
      (r : DistributionRecord ext) (d : Records ext)
      → IsWaiting ext r
      → IsKeyed ext d
      → IsKeyed ext (set (key_of ext r) r d)
  unfolding set replace place
  set-IsKeyed r d w h = elim (Bool-cases (has (key_of ext r) d)) [
    | inl e ↦ rw e (replaced d h)
    | inr e ↦ rw e (placed d h)
  ]
    where
      replaced : (d : Records ext) → IsKeyed ext d → IsKeyed ext (replace (key_of ext r) r d)
      replaced [] h = tt
      replaced ((k, q) ∷ d) h = ground (arith, replaced d h.2)

      placed : (d : Records ext) → IsKeyed ext d → IsKeyed ext (place (key_of ext r) r d)
      placed [] h = (refl, w, tt)
      placed ((k, q) ∷ d) h = ground (arith, placed d h.2)

  -- What the outputs come to.
  abbrev pub outputs_amount : String → List (Output ext) → ℕ
  outputs_amount d [] = 0
  outputs_amount d (o ∷ os) = amount_of o.coins d + outputs_amount d os

  -- The module holds what is owed and what the outputs come to.
  pub record IsFunded (os : List (Output ext)) (s : State ext) : Type 0 where
    pub unique : IsUnique s.pending_records
    pub keyed : IsKeyed ext s.pending_records
    pub covered : (d : String) → owed ext d s + outputs_amount d os ≤ held ext d s

  module _ (coin_laws : CoinLaws ext) where
    amount-add_outputs :
        (d : String) (c : bank.Coins) (os : List (Output ext))
        → amount_of (add_outputs ext c os) d ≡ amount_of c d + outputs_amount d os
    unfolding add_outputs
    amount-add_outputs d c [] = omega arith
    amount-add_outputs d c (o ∷ os) = omega (
      arith,
      amount-add_outputs d (ext.add_coins c o.coins) os,
      coin_laws.amount_of-add_coins c o.coins d,
    )

    pub amount-total_output :
        (d : String) (c : bank.Coins) (os : List (Output ext))
        → total_output ext os ≡ ok c
        → amount_of c d ≡ outputs_amount d os
    unfolding total_output
    amount-total_output d c [] h = absurd (ground arith)
    amount-total_output d c (o ∷ os) h =
        let e : add_outputs ext o.coins os ≡ c = ground arith in
        ap (λ c. amount_of c d) (sym e) ∙ amount-add_outputs d o.coins os

    -- What a new record is: pending, under its output's key, and worth the output and what was
    -- pending under that key.
    abbrev IsDropped :
        String → DistributionType → Output ext → State ext → DistributionRecord ext → Type 0
    IsDropped name t o s r =
        (r.distribution_status ≡ pending)
        × (key_of ext r ≡ get_distribution_record_key name o.address t)
        × ((d : String)
            → amount ext d r
              ≡ amount_of o.coins d
                + value_at (amount ext d) (lookup (key_of ext r) s.pending_records))

    new_drop-IsDropped :
        (height : ℤ) (name runner : String) (t : DistributionType) (o : Output ext)
        (s u : State ext) (r : DistributionRecord ext)
        → new_drop ext height name t runner o s ≡ (ok r, u)
        → (u ≡ s) × IsDropped name t o s r
    unfolding new_drop exists_distribution_record get_distribution_record records_at has add_record
    new_drop-IsDropped height name runner t o s u r h =
        let fresh : DistributionRecord ext = record {
          distribution_status = pending;
          distribution_type = t;
          distribution_name = name;
          recipient_address = o.address;
          coins = o.coins;
          distribution_start_height = height;
          distribution_completed_height = negsuc 0;
          authorized_runner = runner;
        } in
        elim (Option-cases
          (lookup (get_distribution_record_key name o.address t) s.pending_records)) [
            | inl n ↦
                let same : fresh ≡ r = ground arith in
                (
                  ground arith,
                  subst (IsDropped name t o s) same
                      (refl, refl, λ d. omega (arith, ap (value_at (amount ext d)) n)),
                )
            | inr (q, e) ↦
                let same : add_record ext fresh q ≡ r = ground arith in
                (
                  ground arith,
                  subst (IsDropped name t o s) same (
                    refl,
                    refl,
                    λ d. omega (
                      arith,
                      ap (value_at (amount ext d)) e,
                      coin_laws.amount_of-add_coins o.coins q.coins d,
                    ),
                  ),
                )
          ]

    -- A new record in the store: what is owed grows by its output.
    set-IsFunded :
        (name : String) (t : DistributionType) (o : Output ext) (os : List (Output ext))
        (s u : State ext) (r : DistributionRecord ext)
        → IsFunded (o ∷ os) s
        → IsDropped name t o s r
        → set_distribution_record ext r s ≡ (ok tt, u)
        → IsFunded os u
    unfolding set_distribution_record records_at with_records
    set-IsFunded name t o os s u r funded dropped h =
        let v : validate_record ext r ≡ true = ground arith in
        let e : record s { pending_records = set (key_of ext r) r s.pending_records } ≡ u =
          ground arith in
        subst (IsFunded os) e (record {
          unique = set-IsUnique (key_of ext r) r s.pending_records funded.unique;
          keyed = set-IsKeyed r s.pending_records (dropped.0, v) funded.keyed;
          covered = λ d. omega (
            arith,
            funded.covered d,
            dropped.2 d,
            total-set (amount ext d) (key_of ext r) r s.pending_records,
          );
        })

    pub create_drops-IsSolvent :
        (height : ℤ) (os : List (Output ext)) (name runner : String) (t : DistributionType)
        (s u : State ext)
        → IsFunded os s
        → create_drops ext height os name t runner s ≡ (ok tt, u)
        → IsSolvent ext u
    unfolding create_drops
    create_drops-IsSolvent height [] name runner t s u funded h =
        let e : s ≡ u = ground arith in
        subst (IsSolvent ext) e (record {
          unique = funded.unique;
          keyed = funded.keyed;
          covered = λ d. omega (arith, funded.covered d);
        })
    create_drops-IsSolvent height (o ∷ os) name runner t s u funded h =
        let (_, v, stored, rest) =
          >>=-eq-ok
            (new_drop ext height name t runner o >>= λ r.
              wrap Error.failed_outputs (set_distribution_record ext r))
            (λ _. create_drops ext height os name t runner) s h in
        let (r, w, made, put) =
          >>=-eq-ok (new_drop ext height name t runner o)
            (λ r. wrap Error.failed_outputs (set_distribution_record ext r)) s stored in
        let (same, dropped) = new_drop-IsDropped height name runner t o s w r made in
        let set_ok : set_distribution_record ext r s ≡ (ok tt, v) = ground arith in
        create_drops-IsSolvent height os name runner t v u
          (set-IsFunded name t o os s v r funded dropped set_ok) rest
