-- ===== src/Clp/Custody.antt =====
-- What the calls of a swap do to the pools and to the coins of the module.

use furynode.Prelude.{
  ℕ, ◌+◌, ◌≤◌, ◌≡◌, ap, subst, ◌∙◌, inl, inr, false, some, [], ◌∷◌, String, arith, Bool-cases,
  Option-cases,
}
use furynode.Prelude.Int.{ℤ, pos}
use furynode.Prelude.Text.{Bytes, bytes_eq}
use furynode.Prelude.Dict.{lookup}
use furynode.Prelude.Store.{set, total_by}
use furynode.Chain.Action.{Action, ok, Error, >>=-eq-ok, wrap}
use furynode.Chain.Bank.{BankLaws, share_self, share_other}
use furynode.Clp.Pool.{Pool, native_symbol, get_pool_key, validate_asset}
use furynode.Clp.Keeper.{
  Externals, State, module_name, set_pool, get_pool, initiate_swap, pay_received, finalize_swap,
}
use furynode.Clp.Deposits.{deposit, of_denom, IsKeyed}

module _ (ext : Externals) where
  open ext use {bank, bech32}
  open bank use {balance, amount_of, module_address}

  abbrev pub held : String → State ext → ℕ
  held d s = balance s.coins (module_address module_name) d

  -- The pools are in order, and the module holds all their deposits.
  pub record IsKept (s : State ext) : Type 0 where
    pub keyed : IsKeyed s.pools
    pub covered : (d : String) → total_by (deposit d) s.pools ≤ held d s

  pub set_pool-state :
      (p : Pool) (s t : State ext)
      → set_pool ext p s ≡ (ok tt, t)
      → t ≡ record s { pools = set (get_pool_key p.external_asset native_symbol) p s.pools }
  unfolding set_pool
  set_pool-state p s t h =
      elim (Option-cases (validate_asset ext.trim_space ext.valid_denom p.external_asset)) [
        | inl n ↦ absurd (ground arith)
        | inr (valid, e) ↦ elim (Bool-cases valid) [
          | inl e' ↦ ground arith
          | inr e' ↦ absurd (ground arith)
        ]
      ]

  pub wrap-ok :
      {A : Type 0} (e : Error) (a : Action (State ext) A) (s t : State ext) {x : A}
      → wrap e a s ≡ (ok x, t)
      → a s ≡ (ok x, t)
  wrap-ok e a s t h = ground arith

  pub get_pool-state :
      (a : String) (s t : State ext) (p : Pool)
      → get_pool ext a s ≡ (ok p, t)
      → (lookup (get_pool_key a native_symbol) s.pools ≡ some p) × (s ≡ t)
  unfolding get_pool
  get_pool-state a s t p h = (ground arith, ground arith)

  module _ (laws : BankLaws bank)
      (parsed : (n : ℕ) (i : ℤ) → ext.parse_to_int n ≡ some i → i ≡ pos n) where
    coins-amount :
        (c : String) (n : ℕ) (coins : bank.Coins)
        → bank.new_coins ((c, pos n) ∷ []) ≡ some coins
        → (d : String) → amount_of coins d ≡ of_denom c d n
    coins-amount c n coins made d =
        laws.amount_of-new_coins ((c, pos n) ∷ []) coins made d ∙ omega arith

    pub initiate_swap-state :
        (c : String) (n : ℕ) (a : Bytes) (s t : State ext)
        → initiate_swap ext c (pos n) a s ≡ (ok tt, t)
        → bytes_eq a (module_address module_name) ≡ false
        → (t.pools ≡ s.pools) × ((d : String) → held d t ≡ held d s + of_denom c d n)
    unfolding initiate_swap
    initiate_swap-state c n a s t h other =
        let home = module_address module_name in
        elim (Option-cases (bank.new_coins ((c, pos n) ∷ []))) [
          | inl e ↦ absurd (ground arith)
          | inr (coins, e) ↦
              let paid : bank.send_coins_from_account_to_module a module_name coins s.coins
                  ≡ (ok tt, t.coins) =
                ground arith in
              (
                ground arith,
                λ d. omega (
                  arith,
                  (laws.to_module_pays a module_name coins s.coins t.coins paid).0 home d,
                  share_other a home (amount_of coins d) other,
                  share_self home (amount_of coins d),
                  coins-amount c n coins e d,
                ),
              )
        ]

    pay_received-state :
        (n : ℕ) (signer c : String) (s t : State ext)
        → pay_received ext n signer c s ≡ (ok tt, t)
        → (t.pools ≡ s.pools) × ((d : String) → held d s ≤ held d t + of_denom c d n)
    unfolding pay_received
    pay_received-state n signer c s t h =
        let home = module_address module_name in
        elim (Option-cases (ext.parse_to_int n)) [
          | inl e ↦ absurd (ground arith)
          | inr (i, e) ↦ elim (Option-cases (bech32.acc_from_bech32 signer)) [
            | inl e' ↦ absurd (ground arith)
            | inr (a, e') ↦ elim (Option-cases (bank.new_coins ((c, i) ∷ []))) [
              | inl e'' ↦ absurd (ground arith)
              | inr (coins, made) ↦
                  let made' : bank.new_coins ((c, pos n) ∷ []) ≡ some coins =
                    subst (λ i. bank.new_coins ((c, i) ∷ []) ≡ some coins) (parsed n i e) made in
                  let paid : bank.send_coins_from_module_to_account module_name a coins s.coins
                      ≡ (ok tt, t.coins) =
                    ground arith in
                  (
                    ground arith,
                    λ d. omega (
                      arith,
                      (laws.from_module_pays module_name a coins s.coins t.coins paid).0 home d,
                      share_self home (amount_of coins d),
                      coins-amount c n coins made' d,
                    ),
                  )
            ]
          ]
        ]

    pub finalize_swap-state :
        (n : ℕ) (p : Pool) (signer c : String) (s t : State ext)
        → finalize_swap ext n p signer c s ≡ (ok tt, t)
        → (t.pools ≡ set (get_pool_key p.external_asset native_symbol) p s.pools)
          × ((d : String) → held d s ≤ held d t + of_denom c d n)
    unfolding finalize_swap
    finalize_swap-state n p signer c s t h =
        let (_, u, put, paid) =
          >>=-eq-ok (wrap Error.unable_to_set_pool (set_pool ext p))
            (λ _. pay_received ext n signer c) s h in
        let e = set_pool-state p s u (wrap-ok Error.unable_to_set_pool (set_pool ext p) s u put) in
        let (same, less) = pay_received-state n signer c u t paid in
        (
          same ∙ ap (λ (x : State ext). x.pools) e,
          λ d. omega (arith, less d, ap (λ (x : State ext). held d x) e),
        )
