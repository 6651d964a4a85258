-- ===== src/Dispensation/Runs.antt =====
-- A whole run of a distribution: the records that it selects, and the loop over them.
use furynode.Prelude.{
  ℕ, ◌+◌, ◌≡◌, sym, ap, subst, ◌∙◌, ◌⊎◌, inl, inr, false, none, some, List, [], ◌∷◌, String, All,
  arith, Bool-cases,
}
use furynode.Prelude.Int.{ℤ}
use furynode.Prelude.Text.{str_eq, str_eq_iff}
use furynode.Prelude.Dict.{lookup}
use furynode.Prelude.Store.{IsUnique, values}
use furynode.Chain.Action.{ok, >>=-eq-ok, pure}
use furynode.Chain.Bank.{BankLaws, RefusalLaws}
use furynode.Dispensation.Records.{Externals, DistributionType, DistributionRecord, key_of}
use furynode.Dispensation.Keeper.{
  State, limited, may_run, reached, get_limited_records_for_runner,
  get_distribution_records_iterator,
}
use furynode.Dispensation.Executors.{distribute_drop, distribute_all, distribute_drops}
use furynode.Dispensation.Reserve.{IsKeyed, IsSolvent, Records}
use furynode.Dispensation.Solvency.{IsReady, IsTurn, distribute_drop-IsTurn}

module _ (ext : Externals) (laws : BankLaws ext.bank) (refusals : RefusalLaws ext.bank) where
  open ext use {bank, bech32}

  abbrev AllReady : List (DistributionRecord ext) → State ext → Type 0
  AllReady rs s = All (λ r. IsReady ext laws refusals r s) rs

  -- No two records have one key.
  abbrev pub AllOther : DistributionRecord ext → List (DistributionRecord ext) → Type 0
  AllOther r rs = All (λ q. str_eq (key_of ext r) (key_of ext q) ≡ false) rs

  abbrev IsDistinct : List (DistributionRecord ext) → Type 0
  IsDistinct [] = Unit
  IsDistinct (r ∷ rs) = AllOther r rs × IsDistinct rs

  -- A record is settled: it is not pending any more, or its recipient does not decode.
  abbrev pub IsSettled : State ext → DistributionRecord ext → Type 0
  IsSettled s r =
      (bech32.acc_from_bech32 r.recipient_address ≡ none)
      ⊎ (lookup (key_of ext r) s.pending_records ≡ none)

  others-AllReady :
      (r : DistributionRecord ext) (rs : List (DistributionRecord ext)) (s t : State ext)
      → IsTurn ext laws refusals r s t
      → AllOther r rs
      → AllReady rs s
      → AllReady rs t
  others-AllReady r [] s t turn h ready = tt
  others-AllReady r (q ∷ rs) s t turn h ready =
      (turn.others (key_of ext q) h.0 ∙ ready.0, others-AllReady r rs s t turn h.1 ready.1)

  str_eq_swap : (k j : String) → str_eq k j ≡ false → str_eq j k ≡ false
  str_eq_swap k j h = ground (arith, str_eq_iff k j, str_eq_iff j k)

  -- Turns for other records leave a pending record, and a missing one, as they are.
  pub distribute_all-others :
      (height : ℤ) (rs : List (DistributionRecord ext)) (s t : State ext)
      (r : DistributionRecord ext)
      → IsSolvent ext s
      → AllReady rs s
      → IsDistinct rs
      → AllOther r rs
      → distribute_all ext height rs s ≡ (ok tt, t)
      → lookup (key_of ext r) t.pending_records ≡ lookup (key_of ext r) s.pending_records
  unfolding distribute_all
  distribute_all-others height [] s t r solvent ready distinct other h =
      let e : s ≡ t = ground arith in
      ap (λ (x : State ext). lookup (key_of ext r) x.pending_records) (sym e)
  distribute_all-others height (q ∷ rs) s t r solvent ready distinct other h =
      let (_, u, e, k) =
        >>=-eq-ok (distribute_drop ext height q) (λ _. distribute_all ext height rs) s h in
      let turn = distribute_drop-IsTurn ext laws refusals height q s u solvent ready.0 e in
      let still = others-AllReady q rs s u turn distinct.0 ready.1 in
      distribute_all-others height rs u t r turn.solvent still distinct.1 other.1 k
      ∙ turn.others (key_of ext r) (str_eq_swap (key_of ext r) (key_of ext q) other.0)

  distribute_all-IsSolvent :
      (height : ℤ) (rs : List (DistributionRecord ext)) (s t : State ext)
      → IsSolvent ext s
      → AllReady rs s
      → IsDistinct rs
      → distribute_all ext height rs s ≡ (ok tt, t)
      → IsSolvent ext t × All (IsSettled t) rs
  unfolding distribute_all
  distribute_all-IsSolvent height [] s t solvent ready distinct h =
      let e : s ≡ t = ground arith in (subst (IsSolvent ext) e solvent, tt)
  distribute_all-IsSolvent height (r ∷ rs) s t solvent ready distinct h =
      let (_, u, e, k) =
        >>=-eq-ok (distribute_drop ext height r) (λ _. distribute_all ext height rs) s h in
      let turn = distribute_drop-IsTurn ext laws refusals height r s u solvent ready.0 e in
      let still = others-AllReady r rs s u turn distinct.0 ready.1 in
      let (after, settled) =
        distribute_all-IsSolvent height rs u t turn.solvent still distinct.1 k in
      let kept = distribute_all-others height rs u t r turn.solvent still distinct.1 distinct.0 k in
      (after, (elim turn.settled [ inl n ↦ inl n | inr gone ↦ inr (kept ∙ gone) ], settled))

  pub limited-All :
      (P : DistributionRecord ext → Type 0) (name runner : String) (t : DistributionType) (n : ℤ)
      (count : ℕ) (rs : List (DistributionRecord ext))
      → All P rs
      → All P (limited ext name runner t n count rs)
  unfolding limited
  limited-All P name runner t n count [] h = tt
  limited-All P name runner t n count (r ∷ rs) h =
      let taken = limited-All P name runner t n (count + 1) rs h.1 in
      let passed = limited-All P name runner t n count rs h.1 in
      elim (Bool-cases (reached ext count n)) [
        | inl full ↦ rw full tt
        | inr more ↦ elim (Bool-cases (may_run ext name runner t r)) [
          | inl mine ↦ rw (more, mine) (h.0, taken)
          | inr other ↦ rw (more, other) passed
        ]
      ]

  pub limited-IsDistinct :
      (name runner : String) (t : DistributionType) (n : ℤ) (count : ℕ)
      (rs : List (DistributionRecord ext))
      → IsDistinct rs
      → IsDistinct (limited ext name runner t n count rs)
  unfolding limited
  limited-IsDistinct name runner t n count [] h = tt
  limited-IsDistinct name runner t n count (r ∷ rs) h =
      let taken = limited-IsDistinct name runner t n (count + 1) rs h.1 in
      let passed = limited-IsDistinct name runner t n count rs h.1 in
      let apart =
        limited-All (λ q. str_eq (key_of ext r) (key_of ext q) ≡ false) name runner t n (count + 1)
          rs h.0 in
      elim (Bool-cases (reached ext count n)) [
        | inl full ↦ rw full tt
        | inr more ↦ elim (Bool-cases (may_run ext name runner t r)) [
          | inl mine ↦ rw (more, mine) (apart, taken)
          | inr other ↦ rw (more, other) passed
        ]
      ]

  -- A key that is missing is the key of no record.
  missing-All :
      (k : String) (d : Records ext)
      → lookup k d ≡ none
      → IsKeyed ext d
      → All (λ r. str_eq k (key_of ext r) ≡ false) (values d)
  unfolding lookup values
  missing-All k [] e h = tt
  missing-All k ((j, q) ∷ d) e h = elim (Bool-cases (str_eq j k)) [
    | inl same ↦ absurd (ground arith)
    | inr other ↦ (rw (← h.0) (str_eq_swap j k other), missing-All k d (ground arith) h.2)
  ]

  pub values-IsDistinct : (d : Records ext) → IsUnique d → IsKeyed ext d → IsDistinct (values d)
  unfolding values
  values-IsDistinct [] u h = tt
  values-IsDistinct ((k, r) ∷ d) u h =
      (rw (← h.0) (missing-All k d u.0 h.2), values-IsDistinct d u.1 h.2)

  -- Each record of a dictionary is found under its key, in the whole that the dictionary ends.
  pub values-found :
      (d e : Records ext)
      → ((k : String) (r : DistributionRecord ext) → lookup k d ≡ some r → lookup k e ≡ some r)
      → IsUnique d
      → IsKeyed ext d
      → All (λ r. lookup (key_of ext r) e ≡ some r) (values d)
  unfolding lookup values
  values-found [] e f u h = tt
  values-found ((k, r) ∷ d) e f u h = (
    f (key_of ext r) r (ground (arith, h.0, str_eq_iff k (key_of ext r))),
    values-found d e (λ j q found. f j q (ground (arith, u.0, str_eq_iff k j))) u.1 h.2,
  )

  -- With a bank and refusals that keep their laws, a run of a distribution that returns, from a
  -- state in which the module holds what it owes, leaves such a state, and each record that it
  -- returns is not pending any more, unless its recipient does not decode.
  pub distribute_drops-IsSolvent :
      (height : ℤ) (name runner : String) (t : DistributionType) (n : ℤ) (s u : State ext)
      (rs : List (DistributionRecord ext))
      → IsSolvent ext s
      → distribute_drops ext height name runner t n s ≡ (ok rs, u)
      → IsSolvent ext u × All (IsSettled u) rs
  unfolding distribute_drops get_limited_records_for_runner get_distribution_records_iterator
  distribute_drops-IsSolvent height name runner t n s u rs solvent h =
      let d = s.pending_records in
      let l = limited ext name runner t n 0 (values d) in
      let (a, v, e, k) = >>=-eq-ok (distribute_all ext height l) (λ _. pure l) s h in
      let same : v ≡ u = ground arith in
      let run : distribute_all ext height l s ≡ (ok tt, u) = ground arith in
      let ready =
        limited-All (λ r. IsReady ext laws refusals r s) name runner t n 0 (values d)
          (values-found d d (λ k r e. e) solvent.unique solvent.keyed) in
      let distinct =
        limited-IsDistinct name runner t n 0 (values d)
          (values-IsDistinct d solvent.unique solvent.keyed) in
      let (after, settled) = distribute_all-IsSolvent height l s u solvent ready distinct run in
      let chosen : l ≡ rs = ground arith in (after, subst (All (IsSettled u)) chosen settled)
