-- ===== src/Dispensation/Reserve.antt =====
-- The records that wait for payment, and the coins that the module must hold for them.
use furynode.Prelude.{
  ℕ, ◌+◌, ◌≤◌, ◌≡◌, sym, ap, subst, ◌∙◌, inl, inr, true, some, [], ◌∷◌, String, arith, Bool-cases,
}
use furynode.Prelude.Int.{ℤ}
use furynode.Prelude.Text.{str_eq, str_eq_iff}
use furynode.Prelude.Dict.{Dict, lookup, delete}
use furynode.Prelude.Store.{has, set, IsUnique, total_by}
use furynode.Chain.Action.{ok}
use furynode.Dispensation.Records.{
  Externals, DistributionRecord, pending, completed, failed, validate_record, key_of,
}
use furynode.Dispensation.Keeper.{
  State, set_distribution_record, delete_distribution_record, change_record_status, records_at,
  with_records,
}
use furynode.Dispensation.Executors.{module_name}

module _ (ext : Externals) where
  open ext use {bank}
  open bank use {balance, amount_of, module_address}

  abbrev pub Records : Type 0
  Records = Dict (DistributionRecord ext)

  -- A record of the pending prefix is pending and valid.
  abbrev pub IsWaiting : DistributionRecord ext → Type 0
  IsWaiting r = (r.distribution_status ≡ pending) × (validate_record ext r ≡ true)

  -- Each record stands under its own key.
  abbrev pub IsKeyed : Records → Type 0
  IsKeyed [] = Unit
  IsKeyed ((k, r) ∷ d) = (k ≡ key_of ext r) × IsWaiting r × IsKeyed d

  abbrev pub amount : String → DistributionRecord ext → ℕ
  amount d r = amount_of r.coins d

  -- What is owed: the records that wait, and those whose payment failed.
  abbrev pub owed : String → State ext → ℕ
  owed d s = total_by (amount d) s.pending_records + total_by (amount d) s.failed_records

  abbrev pub held : String → State ext → ℕ
  held d s = balance s.coins (module_address module_name) d

  -- The module holds what is owed, and the pending records are in order.
  pub record IsSolvent (s : State ext) : Type 0 where
    pub unique : IsUnique s.pending_records
    pub keyed : IsKeyed s.pending_records
    pub covered : (d : String) → owed d s ≤ held d s

  -- The same records, and at least the coins.
  pub held-IsSolvent :
      (s t : State ext)
      → IsSolvent s
      → t.pending_records ≡ s.pending_records
      → t.failed_records ≡ s.failed_records
      → ((d : String) → held d s ≤ held d t)
      → IsSolvent t
  held-IsSolvent s t solvent p f h = record {
    unique = subst IsUnique (sym p) solvent.unique;
    keyed = subst IsKeyed (sym p) solvent.keyed;
    covered = λ d.
        omega
          (arith, solvent.covered d, h d, ap (total_by (amount d)) p, ap (total_by (amount d)) f);
  }

  pub lookup-IsKeyed :
      (k : String) (r : DistributionRecord ext) (d : Records)
      → lookup k d ≡ some r
      → IsKeyed d
      → (k ≡ key_of ext r) × IsWaiting r
  unfolding lookup
  lookup-IsKeyed k r [] e h = absurd (ground arith)
  lookup-IsKeyed k r ((j, q) ∷ d) e h = elim (Bool-cases (str_eq j k)) [
    | inl same ↦
        let f : q ≡ r = ground arith in
        let g : j ≡ k = (str_eq_iff j k).0 same in
        subst (λ r. (k ≡ key_of ext r) × IsWaiting r) f (sym g ∙ h.0, h.1)
    | inr other ↦ lookup-IsKeyed k r d (ground arith) h.2
  ]

  pub delete-IsKeyed : (k : String) (d : Records) → IsKeyed d → IsKeyed (delete k d)
  unfolding delete
  delete-IsKeyed k [] h = tt
  delete-IsKeyed k ((j, q) ∷ d) h = elim (Bool-cases (str_eq j k)) [
    | inl same ↦ rw same (delete-IsKeyed k d h.2)
    | inr other ↦ rw other (h.0, h.1, delete-IsKeyed k d h.2)
  ]

  -- The store after a pending record has been completed or failed.
  abbrev pub completed_state : DistributionRecord ext → ℤ → State ext → State ext
  completed_state r height s = record s {
    pending_records = delete (key_of ext r) s.pending_records;
    completed_records =
        set (key_of ext r)
          (record r { distribution_status = completed; distribution_completed_height = height })
          s.completed_records;
  }

  abbrev pub failed_state : DistributionRecord ext → ℤ → State ext → State ext
  failed_state r height s = record s {
    pending_records = delete (key_of ext r) s.pending_records;
    failed_records =
        set (key_of ext r)
          (record r { distribution_status = failed; distribution_completed_height = height })
          s.failed_records;
  }

  pub change_record_status-completed :
      (r : DistributionRecord ext) (height : ℤ) (s : State ext)
      → IsWaiting r
      → lookup (key_of ext r) s.pending_records ≡ some r
      → change_record_status ext r height completed s ≡ (ok tt, completed_state r height s)
  unfolding change_record_status set_distribution_record delete_distribution_record has records_at
      with_records validate_record
  change_record_status-completed r height s w h = ground arith

  pub change_record_status-failed :
      (r : DistributionRecord ext) (height : ℤ) (s : State ext)
      → IsWaiting r
      → lookup (key_of ext r) s.pending_records ≡ some r
      → change_record_status ext r height failed s ≡ (ok tt, failed_state r height s)
  unfolding change_record_status set_distribution_record delete_distribution_record has records_at
      with_records validate_record
  change_record_status-failed r height s w h = ground arith
