-- ===== src/Clp/Kept/Payments.antt =====
-- What the writes of the messages of liquidity do to the coins of the module and to the pools.
use furynode.Prelude.{
  ℕ, ◌+◌, ◌≤◌, ◌≡◌, refl, ap, ◌∙◌, ◌⊎◌, inl, inr, false, some, List, [], ◌∷◌, ◌++◌, String, arith,
  Option-cases,
}
use furynode.Prelude.Int.{ℤ, pos}
use furynode.Prelude.Text.{Bytes, bytes_eq}
use furynode.Prelude.Store.{set}
use furynode.Chain.Action.{ok, Error, >>=-eq-ok, ◌>>◌, wrap}
use furynode.Chain.Bank.{BankLaws, total_of, share_self, share_other}
use furynode.Clp.Pool.{Pool, native_symbol, get_pool_key}
use furynode.Clp.Provider.{LiquidityProvider}
use furynode.Clp.Withdrawal.{Withdrawal}
use furynode.Clp.Rat.{uint_sub, uint_add}
use furynode.Clp.Keeper.{Externals, State, module_name, set_pool}
use furynode.Clp.Executors.{
  LiquidityMsg, parse_amounts, new_coin, deposit_new, deposit_more, enlarge, remove_liquidity,
  write_removal, pay_withdrawn, keep_provider, sendable,
}
use furynode.Clp.Providers.{set_liquidity_provider, destroy_liquidity_provider}
use furynode.Clp.Queue.{take_out, less_withdrawal}
use furynode.Clp.Deposits.{deposit, of_denom}
use furynode.Clp.Custody.{held, set_pool-state, wrap-ok}
use furynode.Clp.Kept.Frames.{IsFramed}

pub less_withdrawal-deposit :
    (p q : Pool) (lp : LiquidityProvider) (w : Withdrawal) (d : String)
    → less_withdrawal p lp w ≡ some q
    → (q.external_asset ≡ p.external_asset)
      × (deposit d q + of_denom p.external_asset d w.external + of_denom native_symbol d w.native
          ≡ deposit d p)
unfolding less_withdrawal uint_sub uint_add
less_withdrawal-deposit p q lp w d h = (ground arith, ground arith)

pub enlarge-deposit :
    (ext : Externals) (m : LiquidityMsg) (p q : Pool) (n : ℕ) (d : String)
    → enlarge ext m p n ≡ some q
    → (q.external_asset ≡ p.external_asset)
      × (deposit d q
          ≡ deposit d p
            + of_denom p.external_asset d m.external_asset_amount
            + of_denom native_symbol d m.native_asset_amount)
unfolding enlarge uint_add
enlarge-deposit ext m p q n d h = (ground arith, ground arith)

List-cases {ℓ} : {A : Type ℓ} (l : List A) → (l ≡ []) ⊎ ((x : A) × (r : List A) × (l ≡ x ∷ r))
List-cases [] = inl refl
List-cases (x ∷ r) = inr (x, r, refl)

total_sendable :
    (c : String) (x y : ℕ) (d : String)
    → total_of d (sendable (c, pos x) ++ sendable (native_symbol, pos y))
      ≡ of_denom c d x + of_denom native_symbol d y
total_sendable c x y d = ground arith

module _ (ext : Externals) where
  open ext use {bank, bech32}
  open bank use {amount_of, module_address}

  module _ (laws : BankLaws bank)
      (parsed : (n : ℕ) (i : ℤ) → ext.parse_to_int n ≡ some i → i ≡ pos n)
      (added : (l : List (String × ℤ)) (c : bank.Coins)
        → ext.add_coins l ≡ some c
        → (d : String) → amount_of c d ≡ total_of d l) where
    -- The coins of a message reach the account of the module.
    abbrev pub IsDeposited : LiquidityMsg → State ext → State ext → Type 0
    IsDeposited m s t =
        (t.pools ≡ s.pools)
        × (t.removal_queues ≡ s.removal_queues)
        × ((d : String)
            → held ext d t
              ≡ held ext d s
                + of_denom m.external_asset d m.external_asset_amount
                + of_denom native_symbol d m.native_asset_amount)

    abbrev both : LiquidityMsg → ℤ → ℤ → List (String × ℤ)
    both m i j = (m.external_asset, i) ∷ (native_symbol, j) ∷ []

    deposited :
        (m : LiquidityMsg) (a : Bytes) (i j : ℤ) (coins : bank.Coins) (s t : State ext)
        → bytes_eq a (module_address module_name) ≡ false
        → ext.parse_to_int m.external_asset_amount ≡ some i
        → ext.parse_to_int m.native_asset_amount ≡ some j
        → ((d : String) → amount_of coins d ≡ total_of d (both m i j))
        → bank.send_coins_from_account_to_module a module_name coins s.coins ≡ (ok tt, t.coins)
        → (d : String)
        → held ext d t
          ≡ held ext d s
            + of_denom m.external_asset d m.external_asset_amount
            + of_denom native_symbol d m.native_asset_amount
    deposited m a i j coins s t other read read' amounts paid d =
        let home = module_address module_name in
        omega (
          arith,
          (laws.to_module_pays a module_name coins s.coins t.coins paid).0 home d,
          share_other a home (amount_of coins d) other,
          share_self home (amount_of coins d),
          amounts d,
          ap (λ i. total_of d (both m i j)) (parsed m.external_asset_amount i read),
          ap (λ j. total_of d (both m (pos m.external_asset_amount) j))
              (parsed m.native_asset_amount j read'),
        )

    pub deposit_new-state :
        (m : LiquidityMsg) (s t : State ext)
        → deposit_new ext m s ≡ (ok tt, t)
        → ((a : Bytes)
            → bech32.acc_from_bech32 m.signer ≡ some a
            → bytes_eq a (module_address module_name) ≡ false)
        → IsDeposited m s t
    unfolding deposit_new new_coin parse_amounts
    deposit_new-state m s t h other =
        elim (Option-cases (ext.parse_to_int m.external_asset_amount)) [
          | inl e ↦ absurd (ground arith)
          | inr (i, e) ↦ elim (Option-cases (ext.parse_to_int m.native_asset_amount)) [
            | inl e' ↦ absurd (ground arith)
            | inr (j, e') ↦ elim (Option-cases (bech32.acc_from_bech32 m.signer)) [
              | inl n ↦ absurd (ground arith)
              | inr (a, f) ↦ elim (Option-cases (bank.new_coins (both m i j))) [
                | inl n ↦ absurd (ground arith)
                | inr (coins, f') ↦
                    let paid : bank.send_coins_from_account_to_module a module_name coins s.coins
                        ≡ (ok tt, t.coins) =
                      ground arith in
                    (
                      ground arith,
                      ground arith,
                      deposited m a i j coins s t (other a f) e e'
                          (laws.amount_of-new_coins (both m i j) coins f') paid,
                    )
              ]
            ]
          ]
        ]

    pub deposit_more-state :
        (m : LiquidityMsg) (s t : State ext) (a : Bytes)
        → deposit_more ext m s ≡ (ok a, t)
        → ((a : Bytes)
            → bech32.acc_from_bech32 m.signer ≡ some a
            → bytes_eq a (module_address module_name) ≡ false)
        → IsDeposited m s t
    unfolding deposit_more parse_amounts
    deposit_more-state m s t a' h other =
        elim (Option-cases (ext.parse_to_int m.external_asset_amount)) [
          | inl e ↦ absurd (ground arith)
          | inr (i, e) ↦ elim (Option-cases (ext.parse_to_int m.native_asset_amount)) [
            | inl e' ↦ absurd (ground arith)
            | inr (j, e') ↦ elim (Option-cases (bech32.acc_from_bech32 m.signer)) [
              | inl n ↦ absurd (ground arith)
              | inr (a, f) ↦ elim (Option-cases (ext.add_coins (both m i j))) [
                | inl n ↦ absurd (ground arith)
                | inr (coins, f') ↦
                    let paid : bank.send_coins_from_account_to_module a module_name coins s.coins
                        ≡ (ok tt, t.coins) =
                      ground arith in
                    (
                      ground arith,
                      ground arith,
                      deposited m a i j coins s t (other a f) e e' (added (both m i j) coins f')
                          paid,
                    )
              ]
            ]
          ]
        ]

    -- The coins of a withdrawal are of its amounts, and the pool is less by them.
    pub take_out-state :
        (c : String) (p : Pool) (lp : LiquidityProvider) (w : Withdrawal) (s t : State ext)
        (x : Pool × (String × ℤ) × (String × ℤ))
        → take_out ext c p lp w s ≡ (ok x, t)
        → (s ≡ t)
          × (less_withdrawal p lp w ≡ some x.0)
          × (x.1 ≡ (c, pos w.external))
          × (x.2 ≡ (native_symbol, pos w.native))
    unfolding take_out new_coin
    take_out-state c p lp w s t x h = elim (Option-cases (ext.parse_to_int w.external)) [
      | inl e ↦ absurd (ground arith)
      | inr (i, e) ↦ elim (Option-cases (ext.parse_to_int w.native)) [
        | inl e' ↦ absurd (ground arith)
        | inr (j, e') ↦
            let f = parsed w.external i e in
            let f' = parsed w.native j e' in
            (ground arith, ground arith, ground arith, ground arith)
      ]
    ]

    pub keep_provider-IsFramed :
        (lp : LiquidityProvider) (n : ℕ) (s t : State ext)
        → keep_provider ext lp n s ≡ (ok tt, t)
        → IsFramed ext s t
    unfolding keep_provider destroy_liquidity_provider set_liquidity_provider
    keep_provider-IsFramed lp n s t h = record {
      pools = ground arith;
      coins = ground arith;
      queues = ground arith;
    }

    pay_withdrawn-state :
        (a : Bytes) (coins : bank.Coins) (s t : State ext)
        → pay_withdrawn ext a coins s ≡ (ok tt, t)
        → (t.pools ≡ s.pools)
          × (t.removal_queues ≡ s.removal_queues)
          × ((d : String) → held ext d s ≤ held ext d t + amount_of coins d)
    unfolding pay_withdrawn
    pay_withdrawn-state a coins s t h =
        let home = module_address module_name in
        elim (List-cases (ext.entries coins)) [
          | inl none_sent ↦ (
            ground arith,
            ground arith,
            λ d. omega (arith, ap (λ (x : State ext). held ext d x) (same none_sent)),
          )
          | inr (c, l, some_sent) ↦
              let paid : bank.send_coins_from_module_to_account module_name a coins s.coins
                  ≡ (ok tt, t.coins) =
                ground arith in
              (
                ground arith,
                ground arith,
                λ d. omega (
                  arith,
                  (laws.from_module_pays module_name a coins s.coins t.coins paid).0 home d,
                  share_self home (amount_of coins d),
                ),
              )
        ]
      where
        same : ext.entries coins ≡ [] → s ≡ t
        same e = ground arith

    write_removal-state :
        (p : Pool) (a : Bytes) (coins : bank.Coins) (lp : LiquidityProvider) (n : ℕ)
        (s t : State ext)
        → write_removal ext p a coins lp n s ≡ (ok tt, t)
        → (t.pools ≡ set (get_pool_key p.external_asset native_symbol) p s.pools)
          × (t.removal_queues ≡ s.removal_queues)
          × ((d : String) → held ext d s ≤ held ext d t + amount_of coins d)
    unfolding write_removal
    write_removal-state p a coins lp n s t h =
        let (_, k, put, h1) =
          >>=-eq-ok (wrap Error.unable_to_set_pool (set_pool ext p))
            (λ _. pay_withdrawn ext a coins >> keep_provider ext lp n) s h in
        let (_, l, paid, kept) =
          >>=-eq-ok (pay_withdrawn ext a coins) (λ _. keep_provider ext lp n) k h1 in
        let placed =
          set_pool-state ext p s k
            (wrap-ok ext Error.unable_to_set_pool (set_pool ext p) s k put) in
        let (pools, queues, less) = pay_withdrawn-state a coins k l paid in
        let framed = keep_provider-IsFramed lp n l t kept in
        (
          framed.pools ∙ pools ∙ ap (λ (z : State ext). z.pools) placed,
          framed.queues ∙ queues ∙ ap (λ (z : State ext). z.removal_queues) placed,
          λ d. omega (
            arith,
            less d,
            ap (λ b. bank.balance b (module_address module_name) d) framed.coins,
            ap (λ (z : State ext). held ext d z) placed,
          ),
        )

    -- The pool is put in its place, and no more than the two coins leaves the module.
    pub remove_liquidity-state :
        (p : Pool) (c : String) (x y u v n : ℕ) (lp : LiquidityProvider) (s t : State ext)
        → remove_liquidity ext p (c, pos x) (native_symbol, pos y) lp n u v s ≡ (ok tt, t)
        → (t.pools ≡ set (get_pool_key p.external_asset native_symbol) p s.pools)
          × (t.removal_queues ≡ s.removal_queues)
          × ((d : String)
              → held ext d s ≤ held ext d t + of_denom c d x + of_denom native_symbol d y)
    unfolding remove_liquidity
    remove_liquidity-state p c x y u v n lp s t h =
        let sent = sendable (c, pos x) ++ sendable (native_symbol, pos y) in
        elim (Option-cases (bech32.acc_from_bech32 lp.liquidity_provider_address)) [
          | inl e ↦ absurd (ground arith)
          | inr (a, e) ↦ elim (Option-cases (ext.add_coins sent)) [
            | inl e' ↦ absurd (ground arith)
            | inr (coins, e') ↦
                let written : write_removal ext p a coins lp n s ≡ (ok tt, t) = ground arith in
                let (pools, queues, less) = write_removal-state p a coins lp n s t written in
                (
                  pools,
                  queues,
                  λ d. omega (arith, less d, added sent coins e' d, total_sendable c x y d),
                )
          ]
        ]
