-- ===== src/Dispensation/Creation.antt =====
-- A new distribution: the coins that the distributor pays in, and the records of its outputs.
use furynode.Prelude.{◌≡◌, sym, ap, subst, inl, inr, false, some, List, String, arith, Option-cases}
use furynode.Prelude.Text.{Bytes, bytes_eq}
use furynode.Prelude.Store.{IsUnique, total_by}
use furynode.Chain.Action.{Action, ok, ◌>>=◌, ◌>>◌, >>=-eq-ok}
use furynode.Chain.Bank.{BankLaws, share_self, share_other}
use furynode.Dispensation.Records.{Externals, CoinLaws, DistributionType, Output, distribution_name}
use furynode.Dispensation.Keeper.{State, set_distribution}
use furynode.Dispensation.Executors.{
  module_name, total_output, create_drops, accumulate_drops, verify_and_set_distribution,
}
use furynode.Dispensation.Server.{Block, CreateMsg, create_distribution}
use furynode.Dispensation.Reserve.{IsKeyed, IsSolvent, amount}
use furynode.Dispensation.Funding.{IsFunded, amount-total_output, create_drops-IsSolvent}

module _ (ext : Externals) where
  open ext use {bank, bech32}
  open bank use {balance, amount_of, module_address}

  -- The first steps touch no record and no coin.
  verify_and_set_distribution-state :
      (name : String) (t : DistributionType) (runner : String) (s u : State ext)
      → verify_and_set_distribution ext name t runner s ≡ (ok tt, u)
      → (u.pending_records ≡ s.pending_records)
        × (u.failed_records ≡ s.failed_records)
        × (u.coins ≡ s.coins)
  unfolding verify_and_set_distribution set_distribution
  verify_and_set_distribution-state name t runner s u h = ground arith

  -- The inputs are paid in.
  accumulate_drops-state :
      (address : String) (c : bank.Coins) (s u : State ext)
      → accumulate_drops ext address c s ≡ (ok tt, u)
      → (a : Bytes) × (bech32.acc_from_bech32 address ≡ some a)
        × (bank.send_coins_from_account_to_module a module_name c s.coins ≡ (ok tt, u.coins))
        × (u ≡ record s { coins = u.coins })
  unfolding accumulate_drops
  accumulate_drops-state address c s u h = elim (Option-cases (bech32.acc_from_bech32 address)) [
    | inl n ↦ absurd (ground arith)
    | inr (a, e) ↦ (a, e, ground arith, ground arith)
  ]

  module _ (laws : BankLaws bank) (coin_laws : CoinLaws ext) where
    -- The inputs, once paid in, cover the outputs.
    paid-IsFunded :
        (a : Bytes) (c : bank.Coins) (os : List (Output ext)) (s v w : State ext)
        → IsSolvent ext s
        → (v.pending_records ≡ s.pending_records)
          × (v.failed_records ≡ s.failed_records)
          × (v.coins ≡ s.coins)
        → bytes_eq a (module_address module_name) ≡ false
        → total_output ext os ≡ ok c
        → bank.send_coins_from_account_to_module a module_name c v.coins ≡ (ok tt, w.coins)
        → w ≡ record v { coins = w.coins }
        → IsFunded ext os w
    paid-IsFunded a c os s v w solvent (pending_same, failed_same, coins_same) other total paid
          rest =
        let p : w.pending_records ≡ s.pending_records = ground arith in
        let f : w.failed_records ≡ s.failed_records = ground arith in
        let home = module_address module_name in
        record {
          unique = subst IsUnique (sym p) solvent.unique;
          keyed = subst (IsKeyed ext) (sym p) solvent.keyed;
          covered = λ d. omega (
            arith,
            solvent.covered d,
            ap (total_by (amount ext d)) p,
            ap (total_by (amount ext d)) f,
            ap (λ c. balance c home d) coins_same,
            (laws.to_module_pays a module_name c v.coins w.coins paid).0 home d,
            share_other a home (amount_of c d) other,
            share_self home (amount_of c d),
            amount-total_output ext coin_laws d c os total,
          );
        }

    -- With a bank and coins that keep their laws, a new distribution that succeeds, from a
    -- distributor other than the module itself, keeps the module holding what it owes, with its
    -- pending records in order.
    pub create_distribution-IsSolvent :
        (b : Block ext) (m : CreateMsg ext) (s u : State ext)
        → IsSolvent ext s
        → ((a : Bytes)
            → bech32.acc_from_bech32 m.distributor ≡ some a
            → bytes_eq a (module_address module_name) ≡ false)
        → create_distribution ext b m s ≡ (ok tt, u)
        → IsSolvent ext u
    unfolding create_distribution
    create_distribution-IsSolvent b m s u solvent other h =
        let name = distribution_name b.height m.distributor in
        let t = m.distribution_type in
        let runner = m.authorized_runner in
        let make : Action (State ext) (Unit {0}) =
          create_drops ext b.height m.output name t runner in
        let total : Action (State ext) bank.Coins = λ s. (total_output ext m.output, s) in
        let pay : bank.Coins → Action (State ext) (Unit {0}) = accumulate_drops ext m.distributor in
        let (_, v, verified, h1) =
          >>=-eq-ok (verify_and_set_distribution ext name t runner)
            (λ _. total >>= λ c. pay c >> make) s h in
        let (c, v', totalled, h2) = >>=-eq-ok total (λ c. pay c >> make) v h1 in
        let (_, w, paid, made) = >>=-eq-ok (pay c) (λ _. make) v' h2 in
        let sum : total_output ext m.output ≡ ok c = ap (λ p. p.0) totalled in
        let e : v ≡ v' = ap (λ p. p.1) totalled in
        let (a, decoded, moved, rest) =
          accumulate_drops-state m.distributor c v w
            (subst (λ x. pay c x ≡ (ok tt, w)) (sym e) paid) in
        create_drops-IsSolvent ext coin_laws b.height m.output name runner t w u
          (paid-IsFunded a c m.output s v w solvent
            (verify_and_set_distribution-state name t runner s v verified) (other a decoded) sum
            moved rest)
          made
