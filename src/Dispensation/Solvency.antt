-- ===== src/Dispensation/Solvency.antt =====
-- A run of a distribution keeps the module solvent, and settles each record that it selects.
use furynode.Prelude.{
  ◌+◌, ◌≤◌, ◌≡◌, refl, ap, subst, ◌⊎◌, inl, inr, false, none, some, String, arith, Bool-cases,
  Option-cases,
}
use furynode.Prelude.Int.{ℤ}
use furynode.Prelude.Text.{Bytes, str_eq, str_eq_iff}
use furynode.Prelude.Dict.{Dict, lookup, delete, lookup-delete}
use furynode.Prelude.Store.{total_by, value_at, total-set, total-delete, delete-IsUnique}
use furynode.Chain.Action.{Action, Outcome, ok, err, panic, Error}
use furynode.Chain.Bank.{BankLaws, RefusalLaws, share_self}
use furynode.Dispensation.Records.{
  Externals, DistributionRecord, failed, key_of, does_type_support_claim,
}
use furynode.Dispensation.Keeper.{State, delete_claim}
use furynode.Dispensation.Executors.{
  module_name, on_bank, complete_drop, fail_drop, distribute_drop,
}
use furynode.Dispensation.Reserve.{
  IsWaiting, IsSolvent, amount, owed, held, lookup-IsKeyed, delete-IsKeyed, completed_state,
  failed_state, change_record_status-completed, change_record_status-failed,
}

module _ (ext : Externals) (laws : BankLaws ext.bank) (refusals : RefusalLaws ext.bank) where
  open ext use {bank, bech32}
  open bank use {balance, amount_of, module_address}

  -- The record is in the store, under its key.
  abbrev pub IsReady : DistributionRecord ext → State ext → Type 0
  IsReady r s = lookup (key_of ext r) s.pending_records ≡ some r

  owed-completed_state :
      (r : DistributionRecord ext) (height : ℤ) (s : State ext) (d : String)
      → IsReady r s
      → owed ext d (completed_state ext r height s) + amount ext d r ≤ owed ext d s
  owed-completed_state r height s d h = omega (
    arith,
    total-delete (amount ext d) (key_of ext r) s.pending_records,
    ap (value_at (amount ext d)) h,
  )

  owed-failed_state :
      (r : DistributionRecord ext) (height : ℤ) (s : State ext) (d : String)
      → IsReady r s
      → owed ext d (failed_state ext r height s) ≤ owed ext d s
  owed-failed_state r height s d h =
      let new : DistributionRecord ext = record r {
        distribution_status = failed;
        distribution_completed_height = height;
      } in
      omega (
        arith,
        total-delete (amount ext d) (key_of ext r) s.pending_records,
        total-set (amount ext d) (key_of ext r) new s.failed_records,
        ap (value_at (amount ext d)) h,
      )

  amount-owed :
      (r : DistributionRecord ext) (s : State ext) (d : String)
      → IsReady r s
      → amount ext d r ≤ owed ext d s
  amount-owed r s d h = omega (
    arith,
    total-delete (amount ext d) (key_of ext r) s.pending_records,
    ap (value_at (amount ext d)) h,
  )

  -- After a turn: the module is solvent, and the record is gone from the pending ones, if its
  -- recipient decodes; no other pending record is touched.
  pub record IsTurn (r : DistributionRecord ext) (s t : State ext) : Type 0 where
    pub solvent : IsSolvent ext t
    pub others :
        (k : String)
        → str_eq (key_of ext r) k ≡ false
        → lookup k t.pending_records ≡ lookup k s.pending_records
    pub settled :
        (bech32.acc_from_bech32 r.recipient_address ≡ none)
        ⊎ (lookup (key_of ext r) t.pending_records ≡ none)

  -- A payment, as a call on the bank.
  on_bank-split :
      (a : Action bank.Store (Unit {0})) (s t : State ext) (o : Outcome (Unit {0}))
      → on_bank ext a s ≡ (o, t)
      → (a s.coins ≡ (o, t.coins)) × (t ≡ record s { coins = t.coins })
  on_bank-split a s t o h = ground arith

  deleted :
      (k j : String) (d : Dict (DistributionRecord ext))
      → (str_eq k j ≡ false → lookup j (delete k d) ≡ lookup j d) × (lookup k (delete k d) ≡ none)
  deleted k j d = ground (arith, lookup-delete k j d, lookup-delete k k d, str_eq_iff k k)

  -- A turn that deletes the record from the pending ones, and leaves what is owed covered.
  deleted-IsTurn :
      (r : DistributionRecord ext) (s t : State ext)
      → IsSolvent ext s
      → t.pending_records ≡ delete (key_of ext r) s.pending_records
      → ((d : String) → owed ext d t ≤ held ext d t)
      → IsTurn r s t
  deleted-IsTurn r s t solvent e covered = record {
    solvent = record {
      unique = rw e (delete-IsUnique (key_of ext r) s.pending_records solvent.unique);
      keyed = rw e (delete-IsKeyed ext (key_of ext r) s.pending_records solvent.keyed);
      covered = covered;
    };
    others = λ k other. rw e ((deleted (key_of ext r) k s.pending_records).0 other);
    settled = inr (rw e (deleted (key_of ext r) "" s.pending_records).1);
  }

  -- What the end of a paid turn leaves in the store.
  complete_drop-state :
      (height : ℤ) (a : Bytes) (r : DistributionRecord ext) (u t : State ext)
      → IsWaiting ext r
      → IsReady r u
      → complete_drop ext height a r u ≡ (ok tt, t)
      → let c = completed_state ext r height u in
        (t.coins ≡ u.coins)
        × (t.pending_records ≡ c.pending_records)
        × (t.failed_records ≡ c.failed_records)
  unfolding complete_drop delete_claim
  complete_drop-state height a r u t w ready h =
      let e = change_record_status-completed ext r height u w ready in
      elim (Bool-cases (does_type_support_claim ext r)) [
        | inl claimed ↦ ground arith
        | inr plain ↦ ground arith
      ]

  fail_drop-state :
      (height : ℤ) (r : DistributionRecord ext) (u t : State ext)
      → IsWaiting ext r
      → IsReady r u
      → fail_drop ext height r u ≡ (ok tt, t)
      → t ≡ failed_state ext r height u
  unfolding fail_drop
  fail_drop-state height r u t w ready h =
      let e = change_record_status-failed ext r height u w ready in ground arith

  complete_drop-IsTurn :
      (height : ℤ) (a : Bytes) (r : DistributionRecord ext) (s t : State ext) (c : bank.Store)
      → IsSolvent ext s
      → IsReady r s
      → bank.send_coins_from_module_to_account module_name a r.coins s.coins ≡ (ok tt, c)
      → complete_drop ext height a r (record s { coins = c }) ≡ (ok tt, t)
      → IsTurn r s t
  complete_drop-IsTurn height a r s t c solvent ready paid h =
      let u : State ext = record s { coins = c } in
      let (_, w) = lookup-IsKeyed ext (key_of ext r) r s.pending_records ready solvent.keyed in
      let (coins, records, failures) = complete_drop-state height a r u t w ready h in
      let (moved, _) = laws.from_module_pays module_name a r.coins s.coins c paid in
      deleted-IsTurn r s t solvent records (λ d. omega (
        arith,
        moved (module_address module_name) d,
        solvent.covered d,
        owed-completed_state r height s d ready,
        ap (λ x. balance x (module_address module_name) d) coins,
        ap (total_by (amount ext d)) records,
        ap (total_by (amount ext d)) failures,
        share_self (module_address module_name) (amount ext d r),
      ))

  fail_drop-IsTurn :
      (height : ℤ) (a : Bytes) (e : Error) (r : DistributionRecord ext) (s t : State ext)
      (c : bank.Store)
      → IsSolvent ext s
      → IsReady r s
      → bank.send_coins_from_module_to_account module_name a r.coins s.coins ≡ (err e, c)
      → fail_drop ext height r (record s { coins = c }) ≡ (ok tt, t)
      → IsTurn r s t
  fail_drop-IsTurn height a e r s t c solvent ready refused h =
      let u : State ext = record s { coins = c } in
      let (_, w) = lookup-IsKeyed ext (key_of ext r) r s.pending_records ready solvent.keyed in
      let f = fail_drop-state height r u t w ready h in
      let (same, _) =
        refusals.from_module_refused module_name a r.coins s.coins c e refused
          (λ d. omega (arith, solvent.covered d, amount-owed r s d ready)) in
      deleted-IsTurn r s t solvent (ap (λ (x : State ext). x.pending_records) f) (λ d. omega (
        arith,
        same (module_address module_name) d,
        solvent.covered d,
        owed-failed_state r height s d ready,
        ap (λ (x : State ext). balance x.coins (module_address module_name) d) f,
        ap (owed ext d) f,
      ))

  pub distribute_drop-IsTurn :
      (height : ℤ) (r : DistributionRecord ext) (s t : State ext)
      → IsSolvent ext s
      → IsReady r s
      → distribute_drop ext height r s ≡ (ok tt, t)
      → IsTurn r s t
  unfolding distribute_drop
  distribute_drop-IsTurn height r s t solvent ready h =
      elim (Option-cases (bech32.acc_from_bech32 r.recipient_address)) [
        | inl n ↦
            let same : s ≡ t = ground arith in
            subst (IsTurn r s) same
              (record { solvent = solvent; others = λ k other. refl; settled = inl n })
        | inr (a, e) ↦ go a e _ _ refl
      ]
    where
      go :
          (a : Bytes)
          → bech32.acc_from_bech32 r.recipient_address ≡ some a
          → (o : Outcome (Unit {0})) (c : bank.Store)
          → bank.send_coins_from_module_to_account module_name a r.coins s.coins ≡ (o, c)
          → IsTurn r s t
      go a e (ok tt) c paid =
          complete_drop-IsTurn height a r s t c solvent ready paid (ground arith)
      go a e (err x) c refused =
          fail_drop-IsTurn height a x r s t c solvent ready refused (ground arith)
      go a e panic c stopped = absurd (ground arith)
