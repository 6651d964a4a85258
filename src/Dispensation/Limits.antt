-- ===== src/Dispensation/Limits.antt =====
-- What a run leaves alone: the records that it does not select.
use furynode.Prelude.{
  ◌≡◌, sym, ap, ◌∙◌, inl, inr, true, false, some, List, [], ◌∷◌, String, All, arith, Bool-cases,
}
use furynode.Prelude.Text.{str_eq, str_eq_iff}
use furynode.Prelude.Dict.{lookup}
use furynode.Chain.Bank.{BankLaws, RefusalLaws}
use furynode.Dispensation.Records.{Externals, DistributionType, DistributionRecord, key_of}
use furynode.Dispensation.Keeper.{State, may_run}
use furynode.Dispensation.Runs.{AllOther}

module _ (ext : Externals) where
  module _ (laws : BankLaws ext.bank) (refusals : RefusalLaws ext.bank) where
    two_keys :
        (r q : DistributionRecord ext) (name runner : String) (t : DistributionType) (s : State ext)
        → may_run ext name runner t r ≡ false
        → may_run ext name runner t q ≡ true
        → lookup (key_of ext r) s.pending_records ≡ some r
        → lookup (key_of ext q) s.pending_records ≡ some q
        → str_eq (key_of ext r) (key_of ext q) ≡ false
    two_keys r q name runner t s other mine found found' =
        elim (Bool-cases (str_eq (key_of ext r) (key_of ext q))) [
          | inr apart ↦ apart
          | inl same ↦
              let k : key_of ext r ≡ key_of ext q =
                (str_eq_iff (key_of ext r) (key_of ext q)).0 same in
              let e : some r ≡ some q =
                sym found ∙ ap (λ k. lookup k s.pending_records) k ∙ found' in
              let e' : r ≡ q = ground arith in
              absurd (ground (arith, ap (may_run ext name runner t) e'))
        ]

    apart :
        (r : DistributionRecord ext) (name runner : String) (t : DistributionType) (s : State ext)
        (rs : List (DistributionRecord ext))
        → may_run ext name runner t r ≡ false
        → lookup (key_of ext r) s.pending_records ≡ some r
        → All (λ q. may_run ext name runner t q ≡ true) rs
        → All (λ q. lookup (key_of ext q) s.pending_records ≡ some q) rs
        → AllOther ext laws refusals r rs
    apart r name runner t s [] other found mine ready = tt
    apart r name runner t s (q ∷ rs) other found mine ready = (
      two_keys r q name runner t s other mine.0 found ready.0,
      apart r name runner t s rs other found mine.1 ready.1,
    )
