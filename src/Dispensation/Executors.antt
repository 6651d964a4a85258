-- ===== src/Dispensation/Executors.antt =====
-- x/dispensation/keeper/executors.go, and `TotalOutput` of x/dispensation/utils.
use furynode.Prelude.{none, some, List, [], ◌∷◌, String, if◌then◌else◌}
use furynode.Prelude.Int.{ℤ, negsuc}
use furynode.Prelude.Text.{Bytes}
use furynode.Chain.Action.{
  Action, Outcome, ok, err, panic, Error, ◌>>=◌, ◌>>◌, pure, fail_if, or_fail, gets, wrap, recover,
  zoom,
}
use furynode.Dispensation.Records.{
  Externals, DistributionType, DistributionRecord, Output, pending, completed, failed, add_record,
  does_type_support_claim,
}
use furynode.Dispensation.Keeper.{
  State, set_distribution, exists_distribution, set_distribution_record, get_distribution_record,
  exists_distribution_record, change_record_status, delete_claim, get_limited_records_for_runner,
}

abbrev pub module_name : String
module_name = "dispensation"

module _ (ext : Externals) where
  open ext use {bank, bech32}

  abbrev pub on_bank : {A : Type 0} → Action bank.Store A → Action (State ext) A
  on_bank = zoom (λ s. s.coins) (λ c s. record s { coins = c })

  unfoldable pub add_outputs : bank.Coins → List (Output ext) → bank.Coins
  add_outputs total [] = total
  add_outputs total (o ∷ os) = add_outputs (ext.add_coins total o.coins) os

  -- The error of an empty list is the bank module's.
  unfoldable pub total_output : List (Output ext) → Outcome bank.Coins
  unfolding add_outputs
  total_output [] = err Error.sdk_error
  total_output (o ∷ os) = ok (add_outputs o.coins os)

  -- The record of an output, with what is pending under its key already.
  unfoldable pub new_drop :
      ℤ
      → String
      → DistributionType
      → String
      → Output ext
      → Action (State ext) (DistributionRecord ext)
  unfolding add_record
  new_drop height name t runner o = do
    let fresh : DistributionRecord ext = record {
      distribution_status = pending;
      distribution_type = t;
      distribution_name = name;
      recipient_address = o.address;
      coins = o.coins;
      distribution_start_height = height;
      distribution_completed_height = negsuc 0;
      authorized_runner = runner;
    }
    exists ← gets (exists_distribution_record ext name o.address pending t)
    if exists
        then (wrap Error.distribution_failed (get_distribution_record ext name o.address pending t)
            >>= λ old. pure (add_record ext fresh old))
        else pure fresh

  unfoldable pub create_drops :
      ℤ → List (Output ext) → String → DistributionType → String → Action (State ext) (Unit {0})
  create_drops height [] name t runner s = (ok tt, s)
  create_drops height (o ∷ os) name t runner s =
      (new_drop height name t runner o
          >>= (λ r. wrap Error.failed_outputs (set_distribution_record ext r))
          >>= λ _. create_drops height os name t runner)
        s

  -- The record has been paid: it is completed, or the payment is taken back.
  unfoldable pub complete_drop : ℤ → Bytes → DistributionRecord ext → Action (State ext) (Unit {0})
  complete_drop height a r =
      recover (change_record_status ext r height completed)
        (λ _.
          if does_type_support_claim ext r
          then delete_claim ext r.recipient_address r.distribution_type
          else pure tt)
        (λ _.
          recover (on_bank (bank.send_coins_from_account_to_module a module_name r.coins)) pure
            (λ _ s. (panic, s)))

  -- The payment failed: so does the record.
  unfoldable pub fail_drop : ℤ → DistributionRecord ext → Action (State ext) (Unit {0})
  fail_drop height r = recover (change_record_status ext r height failed) pure (λ _ s. (panic, s))

  -- One turn of the loop of `DistributeDrops`. A recipient that does not decode is passed over.
  unfoldable pub distribute_drop : ℤ → DistributionRecord ext → Action (State ext) (Unit {0})
  distribute_drop height r = elim (bech32.acc_from_bech32 r.recipient_address) [
    | none ↦ pure tt
    | some a ↦
        recover (on_bank (bank.send_coins_from_module_to_account module_name a r.coins))
          (λ _. complete_drop height a r) (λ _. fail_drop height r)
  ]

  unfoldable pub distribute_all : ℤ → List (DistributionRecord ext) → Action (State ext) (Unit {0})
  distribute_all height [] s = (ok tt, s)
  distribute_all height (r ∷ rs) s = (distribute_drop height r >> distribute_all height rs) s

  unfoldable pub distribute_drops :
      ℤ
      → String
      → String
      → DistributionType
      → ℤ
      → Action (State ext) (List (DistributionRecord ext))
  distribute_drops height name runner t n = do
    records ← get_limited_records_for_runner ext name runner t pending n
    distribute_all height records
    pure records

  unfoldable pub accumulate_drops : String → bank.Coins → Action (State ext) (Unit {0})
  accumulate_drops address amount = do
    a ← or_fail (bech32.acc_from_bech32 address) Error.sdk_error
    wrap Error.failed_inputs (on_bank (bank.send_coins_from_account_to_module a module_name amount))

  unfoldable pub verify_and_set_distribution :
      String → DistributionType → String → Action (State ext) (Unit {0})
  verify_and_set_distribution name t runner = do
    exists ← gets (exists_distribution ext name t runner)
    fail_if exists Error.distribution_failed
    wrap Error.distribution_failed (
        set_distribution ext
          (record { distribution_type = t; distribution_name = name; runner = runner }))
