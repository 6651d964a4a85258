-- ===== src/Dispensation/Counter.antt =====
-- The messages leave the mint controller alone.
use furynode.Prelude.{
  ◌≡◌, refl, ◌∙◌, List, [], ◌∷◌, String, arith, Option-cases, Bool-cases, inl, inr, if◌then◌else◌,
}
use furynode.Prelude.Int.{ℤ}
use furynode.Prelude.Text.{Bytes}
use furynode.Prelude.Dict.{Dict, delete}
use furynode.Prelude.Store.{has, set, values}
use furynode.Chain.Action.{
  Action, Outcome, ok, err, panic, Error, ◌>>=◌, ◌>>◌, recover, wrap, pure, fail,
}
use furynode.Dispensation.Records.{
  Externals, DistributionType, DistributionStatus, DistributionRecord, Output, pending, completed,
  failed, validate_record, does_type_support_claim, key_of, get_distribution_record_key,
  distribution_name,
}
use furynode.Dispensation.Keeper.{
  State, set_distribution, set_distribution_record, delete_distribution_record,
  change_record_status, set_claim, delete_claim, records_at, with_records, limited,
  get_distribution_records_iterator, get_limited_records_for_runner, get_distribution_record,
}
use furynode.Dispensation.Executors.{
  module_name, on_bank, new_drop, create_drops, complete_drop, fail_drop, distribute_drop,
  distribute_all, distribute_drops, accumulate_drops, verify_and_set_distribution, total_output,
}
use furynode.Dispensation.Server.{
  Block, Msg, create, user_claim, run, handle, CreateMsg, UserClaimMsg, RunMsg, create_distribution,
  create_user_claim, run_distribution,
}

module _ (ext : Externals) where
  open ext use {bank, bech32}

  abbrev pub Keeps : {A : Type 0} → Action (State ext) A → Type 0
  Keeps m = (s : State ext) → (m s).1.mint_controller ≡ s.mint_controller

  module _ {A B : Type 0} where
    >>=-Keeps :
        (m : Action (State ext) A) (f : A → Action (State ext) B)
        → Keeps m
        → ((a : A) → Keeps (f a))
        → Keeps (m >>= f)
    >>=-Keeps m f h k s = go (m s).0 (m s).1 (h s)
      where
        go :
            (o : Outcome A) (u : State ext)
            → u.mint_controller ≡ s.mint_controller
            → (let r : Outcome B × State ext = elim o [
              | ok a ↦ f a u
              | err e ↦ (err e, u)
              | panic ↦ (panic, u)
            ] in
                r.1.mint_controller ≡ s.mint_controller)
        go (ok a) u e = k a u ∙ e
        go (err x) u e = e
        go panic u e = e

    recover-Keeps :
        (m : Action (State ext) A) (f : A → Action (State ext) B) (g : Error → Action (State ext) B)
        → Keeps m
        → ((a : A) → Keeps (f a))
        → ((e : Error) → Keeps (g e))
        → Keeps (recover m f g)
    recover-Keeps m f g h k l s = go (m s).0 (m s).1 (h s)
      where
        go :
            (o : Outcome A) (u : State ext)
            → u.mint_controller ≡ s.mint_controller
            → (let r : Outcome B × State ext = elim o [
              | ok a ↦ f a u
              | err e ↦ g e u
              | panic ↦ (panic, u)
            ] in
                r.1.mint_controller ≡ s.mint_controller)
        go (ok a) u e = k a u ∙ e
        go (err x) u e = l x u ∙ e
        go panic u e = e

  wrap-Keeps : {A : Type 0} (e : Error) (m : Action (State ext) A) → Keeps m → Keeps (wrap e m)
  wrap-Keeps e m h = recover-Keeps m pure (λ _. fail e) h (λ a s. refl) (λ x s. refl)

  on_bank-Keeps : {A : Type 0} (m : Action bank.Store A) → Keeps (on_bank ext m)
  on_bank-Keeps m s = refl

  with_records-Keeps :
      (status : DistributionStatus) (d : Dict (DistributionRecord ext)) (s : State ext)
      → (with_records ext status d s).mint_controller ≡ s.mint_controller
  unfolding with_records
  with_records-Keeps pending d s = refl
  with_records-Keeps completed d s = refl
  with_records-Keeps failed d s = refl
  with_records-Keeps DistributionStatus.unspecified d s = refl

  set_distribution_record-Keeps :
      (r : DistributionRecord ext) → Keeps (set_distribution_record ext r)
  unfolding set_distribution_record
  set_distribution_record-Keeps r s = elim (Bool-cases (validate_record ext r)) [
    | inl e ↦ rw e (
        with_records-Keeps r.distribution_status
          (set (key_of ext r) r (records_at ext r.distribution_status s)) s)
    | inr e ↦ rw e refl
  ]

  delete_distribution_record-Keeps :
      (name recipient : String) (status : DistributionStatus) (t : DistributionType)
      → Keeps (delete_distribution_record ext name recipient status t)
  unfolding delete_distribution_record
  delete_distribution_record-Keeps name recipient status t s =
      let key = get_distribution_record_key name recipient t in
      elim (Bool-cases (has key (records_at ext status s))) [
        | inl e ↦ rw e (with_records-Keeps status (delete key (records_at ext status s)) s)
        | inr e ↦ rw e refl
      ]

  change_record_status-Keeps :
      (r : DistributionRecord ext) (height : ℤ) (status : DistributionStatus)
      → Keeps (change_record_status ext r height status)
  unfolding change_record_status
  change_record_status-Keeps r height status =
      let new : DistributionRecord ext = record r {
        distribution_status = status;
        distribution_completed_height = height;
      } in
      let put : Action (State ext) (Unit {0}) = set_distribution_record ext new in
      let drop : Action (State ext) (Unit {0}) =
        delete_distribution_record ext r.distribution_name r.recipient_address r.distribution_status
          r.distribution_type in
      >>=-Keeps (wrap Error.distribution_failed put) (λ _. wrap Error.distribution_failed drop)
        (wrap-Keeps Error.distribution_failed put (set_distribution_record-Keeps new))
        (λ _. wrap-Keeps Error.distribution_failed drop (
          delete_distribution_record-Keeps r.distribution_name r.recipient_address
            r.distribution_status r.distribution_type))

  pay-Keeps :
      (a : Action bank.Store (Unit {0})) (f : Unit {0} → Action (State ext) (Unit {0}))
      (g : Error → Action (State ext) (Unit {0}))
      → ((x : Unit {0}) → Keeps (f x))
      → ((e : Error) → Keeps (g e))
      → Keeps (recover (on_bank ext a) f g)
  pay-Keeps a f g h k = recover-Keeps (on_bank ext a) f g (λ s. refl) h k

  complete_drop-Keeps :
      (height : ℤ) (a : Bytes) (r : DistributionRecord ext) → Keeps (complete_drop ext height a r)
  unfolding complete_drop delete_claim
  complete_drop-Keeps height a r =
      let back : Action bank.Store (Unit {0}) =
        bank.send_coins_from_account_to_module a module_name r.coins in
      recover-Keeps (change_record_status ext r height completed)
        (λ _.
          if does_type_support_claim ext r
          then delete_claim ext r.recipient_address r.distribution_type
          else pure tt)
        (λ _. recover (on_bank ext back) pure (λ _ s. (panic, s)))
        (change_record_status-Keeps r height completed)
        (λ _ s. elim (Bool-cases (does_type_support_claim ext r)) [
          | inl e ↦ rw e refl
          | inr e ↦ rw e refl
        ])
        (λ _. pay-Keeps back pure (λ _ s. (panic, s)) (λ _ s. refl) (λ _ s. refl))

  fail_drop-Keeps : (height : ℤ) (r : DistributionRecord ext) → Keeps (fail_drop ext height r)
  unfolding fail_drop
  fail_drop-Keeps height r =
      recover-Keeps (change_record_status ext r height failed) pure (λ _ s. (panic, s))
        (change_record_status-Keeps r height failed) (λ _ s. refl) (λ _ s. refl)

  distribute_drop-Keeps :
      (height : ℤ) (r : DistributionRecord ext) → Keeps (distribute_drop ext height r)
  unfolding distribute_drop
  distribute_drop-Keeps height r s =
      elim (Option-cases (bech32.acc_from_bech32 r.recipient_address)) [
        | inl n ↦ rw (n, distribute_drop) refl
        | inr (a, e) ↦
            rw (e, distribute_drop)
              (pay-Keeps (bank.send_coins_from_module_to_account module_name a r.coins)
                (λ _. complete_drop ext height a r) (λ _. fail_drop ext height r)
                (λ _. complete_drop-Keeps height a r) (λ _. fail_drop-Keeps height r) s)
      ]

  distribute_all-Keeps :
      (height : ℤ) (rs : List (DistributionRecord ext)) → Keeps (distribute_all ext height rs)
  unfolding distribute_all
  distribute_all-Keeps height [] s = refl
  distribute_all-Keeps height (r ∷ rs) s =
      >>=-Keeps (distribute_drop ext height r) (λ _. distribute_all ext height rs)
        (distribute_drop-Keeps height r) (λ _. distribute_all-Keeps height rs) s

  new_drop-Keeps :
      (height : ℤ) (name : String) (t : DistributionType) (runner : String) (o : Output ext)
      → Keeps (new_drop ext height name t runner o)
  unfolding new_drop get_distribution_record
  new_drop-Keeps height name t runner o s = ground arith

  create_drops-Keeps :
      (height : ℤ) (os : List (Output ext)) (name : String) (t : DistributionType) (runner : String)
      → Keeps (create_drops ext height os name t runner)
  unfolding create_drops
  create_drops-Keeps height [] name t runner s = refl
  create_drops-Keeps height (o ∷ os) name t runner s =
      let make : Action (State ext) (DistributionRecord ext) =
        new_drop ext height name t runner o in
      let put : DistributionRecord ext → Action (State ext) (Unit {0}) =
        λ r. wrap Error.failed_outputs (set_distribution_record ext r) in
      >>=-Keeps (make >>= put) (λ _. create_drops ext height os name t runner)
        (>>=-Keeps make put (new_drop-Keeps height name t runner o) (λ r.
          wrap-Keeps Error.failed_outputs (set_distribution_record ext r)
            (set_distribution_record-Keeps r)))
        (λ _. create_drops-Keeps height os name t runner) s

  verify_and_set_distribution-Keeps :
      (name : String) (t : DistributionType) (runner : String)
      → Keeps (verify_and_set_distribution ext name t runner)
  unfolding verify_and_set_distribution set_distribution
  verify_and_set_distribution-Keeps name t runner s = ground arith

  accumulate_drops-Keeps :
      (address : String) (c : bank.Coins) → Keeps (accumulate_drops ext address c)
  unfolding accumulate_drops
  accumulate_drops-Keeps address c s = elim (Option-cases (bech32.acc_from_bech32 address)) [
    | inl n ↦ rw n refl
    | inr (a, e) ↦ rw e (
        wrap-Keeps Error.failed_inputs
          (on_bank ext (bank.send_coins_from_account_to_module a module_name c)) (λ s. refl) s)
  ]

  create_distribution-Keeps :
      (b : Block ext) (m : CreateMsg ext) → Keeps (create_distribution ext b m)
  unfolding create_distribution
  create_distribution-Keeps b m =
      let name = distribution_name b.height m.distributor in
      let t = m.distribution_type in
      let runner = m.authorized_runner in
      let make : Action (State ext) (Unit {0}) = create_drops ext b.height m.output name t runner in
      let total : Action (State ext) bank.Coins = λ s. (total_output ext m.output, s) in
      let pay : bank.Coins → Action (State ext) (Unit {0}) = accumulate_drops ext m.distributor in
      >>=-Keeps (verify_and_set_distribution ext name t runner) (λ _. total >>= λ c. pay c >> make)
        (verify_and_set_distribution-Keeps name t runner)
        (λ _.
          >>=-Keeps total (λ c. pay c >> make) (λ s. refl)
            (λ c.
              >>=-Keeps (pay c) (λ _. make) (accumulate_drops-Keeps m.distributor c)
                (λ _. create_drops-Keeps b.height m.output name t runner)))

  create_user_claim-Keeps : (b : Block ext) (m : UserClaimMsg) → Keeps (create_user_claim ext b m)
  unfolding create_user_claim set_claim
  create_user_claim-Keeps b m s = ground arith

  distribute_drops-Keeps :
      (height : ℤ) (name runner : String) (t : DistributionType) (n : ℤ)
      → Keeps (distribute_drops ext height name runner t n)
  unfolding distribute_drops get_limited_records_for_runner get_distribution_records_iterator
  distribute_drops-Keeps height name runner t n s =
      let l = limited ext name runner t n 0 (values s.pending_records) in
      >>=-Keeps (distribute_all ext height l) (λ _. pure l) (distribute_all-Keeps height l)
        (λ _ s. refl) s

  run_distribution-Keeps : (b : Block ext) (m : RunMsg) → Keeps (run_distribution ext b m)
  unfolding run_distribution
  run_distribution-Keeps b m =
      >>=-Keeps
        (distribute_drops ext b.height m.distribution_name m.authorized_runner m.distribution_type
          m.distribution_count)
        (λ _ s. (ok tt, s))
        (distribute_drops-Keeps b.height m.distribution_name m.authorized_runner m.distribution_type
          m.distribution_count)
        (λ _ s. refl)

  -- No message touches the counter of the minted coins, whatever its outcome.
  pub handle-Keeps : (b : Block ext) (m : Msg ext) → Keeps (handle ext b m)
  unfolding handle
  handle-Keeps b (create m) = create_distribution-Keeps b m
  handle-Keeps b (user_claim m) = create_user_claim-Keeps b m
  handle-Keeps b (run m) = run_distribution-Keeps b m
