-- ===== src/Clp/Kept/Decommissions.antt =====
-- The message that ends a pool keeps the deposits of the other pools in the account of the module.
use furynode.Prelude.{
  ℕ, ◌+◌, ◌≤◌, ◌≡◌, sym, ap, subst, ◌∙◌, inl, inr, Bool, some, List, [], ◌∷◌, String, arith,
  Option-cases,
}
use furynode.Prelude.Int.{ℤ, pos}
use furynode.Prelude.Text.{Bytes}
use furynode.Prelude.Dict.{Dict, lookup, delete}
use furynode.Prelude.Store.{total_by, value_at, total-delete}
use furynode.Chain.Action.{ok, Error, >>=-eq-ok, ◌>>=◌, ◌>>◌, pure, wrap, gets}
use furynode.Chain.Bank.{BankLaws, total_of, share_self}
use furynode.Clp.Pool.{Pool, native_symbol, get_pool_key}
use furynode.Clp.Provider.{LiquidityProvider}
use furynode.Clp.Withdrawal.{Withdrawal, calculate_all_assets_for_lp}
use furynode.Clp.Rat.{uint_sub}
use furynode.Clp.Keeper.{Externals, State, module_name, get_pool, destroy_pool}
use furynode.Clp.Executors.{remove_liquidity_provider, new_coin, decommission_pool}
use furynode.Clp.Providers.{destroy_liquidity_provider, get_liquidity_providers_for_asset}
use furynode.Clp.Messages.DecommissionPool.{
  DecommissionPoolMsg, check_decommission, validate_address, refund_coins, less_refund, refund,
  refund_all, handle_decommission_pool,
}
use furynode.Clp.Deposits.{deposit, of_denom, IsKeyed, get_pool_key-injective, lookup-IsKeyed}
use furynode.Clp.Custody.{held, IsKept, wrap-ok}

delete-IsKeyed : (k : String) (l : Dict Pool) → IsKeyed l → IsKeyed (delete k l)
unfolding delete
delete-IsKeyed k [] h = tt
delete-IsKeyed k ((j, p) ∷ l) h = ground (arith, delete-IsKeyed k l h.1)

-- What of a denomination is in two balances, of the asset of a pool and of fury.
abbrev in_balances : String → String → ℕ × ℕ × ℕ → ℕ
in_balances c d b = of_denom c d b.2 + of_denom native_symbol d b.1

less_refund-balances :
    (c d : String) (b b' : ℕ × ℕ × ℕ) (lp : LiquidityProvider) (w : Withdrawal)
    → less_refund b lp w ≡ some b'
    → in_balances c d b
      ≡ in_balances c d b' + of_denom c d w.external + of_denom native_symbol d w.native
unfolding less_refund uint_sub
less_refund-balances c d b b' lp w h = ground arith

module _ (ext : Externals) where
  open ext use {bank, bech32}
  open bank use {amount_of, module_address}

  module _ (laws : BankLaws bank)
      (parsed : (n : ℕ) (i : ℤ) → ext.parse_to_int n ≡ some i → i ≡ pos n) where
    refund_coins-state :
        (m : DecommissionPoolMsg) (w : Withdrawal) (coins : bank.Coins) (s t : State ext)
        → refund_coins ext m w s ≡ (ok coins, t)
        → (s ≡ t)
          × ((d : String)
              → amount_of coins d
                ≡ of_denom m.symbol d w.external + of_denom native_symbol d w.native)
    unfolding refund_coins new_coin
    refund_coins-state m w coins s t h = elim (Option-cases (ext.parse_to_int w.native)) [
      | inl e ↦ absurd (ground arith)
      | inr (i, e) ↦ elim (Option-cases (ext.parse_to_int w.external)) [
        | inl e' ↦ absurd (ground arith)
        | inr (j, e') ↦
            let made : bank.new_coins ((m.symbol, j) ∷ (native_symbol, i) ∷ []) ≡ some coins =
              ground arith in
            (
              ground arith,
              λ d. omega (
                arith,
                laws.amount_of-new_coins ((m.symbol, j) ∷ (native_symbol, i) ∷ []) coins made d,
                ap (λ j. total_of d ((m.symbol, j) ∷ (native_symbol, i) ∷ []))
                    (parsed w.external j e'),
                ap (λ i. total_of d ((m.symbol, pos w.external) ∷ (native_symbol, i) ∷ []))
                    (parsed w.native i e),
              ),
            )
      ]
    ]

    -- The coins leave the module, and the pools stay.
    abbrev IsPaidOut : (String → ℕ) → State ext → State ext → Type 0
    IsPaidOut amounts s t =
        (t.pools ≡ s.pools)
        × (t.removal_queues ≡ s.removal_queues)
        × ((d : String) → held ext d s ≤ held ext d t + amounts d)

    remove_liquidity_provider-IsPaidOut :
        (coins : bank.Coins) (lp : LiquidityProvider) (s t : State ext)
        → remove_liquidity_provider ext coins lp s ≡ (ok tt, t)
        → IsPaidOut (amount_of coins) s t
    unfolding remove_liquidity_provider destroy_liquidity_provider
    remove_liquidity_provider-IsPaidOut coins lp s t h =
        elim (Option-cases (bech32.acc_from_bech32 lp.liquidity_provider_address)) [
          | inl e ↦ absurd (ground arith)
          | inr (a, e) ↦
              let home = module_address module_name in
              let paid : bank.send_coins_from_module_to_account module_name a coins s.coins
                  ≡ (ok tt, t.coins) =
                ground arith in
              (
                ground arith,
                ground arith,
                λ d. omega (
                  arith,
                  (laws.from_module_pays module_name a coins s.coins t.coins paid).0 home d,
                  share_self home (amount_of coins d),
                ),
              )
        ]

    -- What the running balances still say stays in the module.
    abbrev IsRefunded : String → ℕ × ℕ × ℕ → ℕ × ℕ × ℕ → State ext → State ext → Type 0
    IsRefunded c b b' s t =
        (t.pools ≡ s.pools)
        × (t.removal_queues ≡ s.removal_queues)
        × ((d : String) → held ext d s + in_balances c d b' ≤ held ext d t + in_balances c d b)

    wrapped-state :
        (coins : bank.Coins) (lp : LiquidityProvider) (c b : ℕ × ℕ × ℕ) (s t : State ext)
        → (wrap Error.unable_to_remove_liquidity_provider (remove_liquidity_provider ext coins lp)
              >> pure c)
            s
          ≡ (ok b, t)
        → (remove_liquidity_provider ext coins lp s ≡ (ok tt, t)) × (c ≡ b)
    wrapped-state coins lp c b s t h =
        let (_, u, paid, last) =
          >>=-eq-ok
            (wrap Error.unable_to_remove_liquidity_provider
              (remove_liquidity_provider ext coins lp))
            (λ _. pure c) s h in
        let paid' =
          wrap-ok ext Error.unable_to_remove_liquidity_provider
            (remove_liquidity_provider ext coins lp) s u paid in
        (ground arith, ground arith)

    paid-IsRefunded :
        (m : DecommissionPoolMsg) (b c b' : ℕ × ℕ × ℕ) (lp : LiquidityProvider) (w : Withdrawal)
        (s t : State ext)
        → less_refund b lp w ≡ some c
        → (refund_coins ext m w >>= λ coins.
              wrap Error.unable_to_remove_liquidity_provider
                (remove_liquidity_provider ext coins lp)
              >> pure c)
            s
          ≡ (ok b', t)
        → IsRefunded m.symbol b b' s t
    paid-IsRefunded m b c b' lp w s t less h =
        let (coins, u, made, h') =
          >>=-eq-ok (refund_coins ext m w)
            (λ coins.
              wrap Error.unable_to_remove_liquidity_provider
                (remove_liquidity_provider ext coins lp)
              >> pure c)
            s h in
        let (paid, own) = wrapped-state coins lp c b' u t h' in
        let (same, amounts) = refund_coins-state m w coins s u made in
        let (pools, queues, out) = remove_liquidity_provider-IsPaidOut coins lp u t paid in
        (
          pools ∙ ap (λ (z : State ext). z.pools) (sym same),
          queues ∙ ap (λ (z : State ext). z.removal_queues) (sym same),
          λ d. omega (
            arith,
            out d,
            amounts d,
            ap (λ (z : State ext). held ext d z) same,
            less_refund-balances m.symbol d b c lp w less,
            ap (in_balances m.symbol d) own,
          ),
        )

    refund-IsRefunded :
        (m : DecommissionPoolMsg) (p : Pool) (b b' : ℕ × ℕ × ℕ) (lp : LiquidityProvider)
        (s t : State ext)
        → refund ext m p b lp s ≡ (ok b', t)
        → IsRefunded m.symbol b b' s t
    unfolding refund
    refund-IsRefunded m p b b' lp s t h =
        elim (Option-cases (calculate_all_assets_for_lp ext p lp)) [
          | inl e ↦ absurd (ground arith)
          | inr (w, e) ↦ elim (Option-cases (less_refund b lp w)) [
            | inl e' ↦ absurd (ground arith)
            | inr (c, e') ↦ paid-IsRefunded m b c b' lp w s t e' (ground arith)
          ]
        ]

    refund_all-IsRefunded :
        (m : DecommissionPoolMsg) (p : Pool) (l : List LiquidityProvider) (b b' : ℕ × ℕ × ℕ)
        (s t : State ext)
        → refund_all ext m p b l s ≡ (ok b', t)
        → IsRefunded m.symbol b b' s t
    unfolding refund_all
    refund_all-IsRefunded m p [] b b' s t h =
        let same : s ≡ t = ground arith in
        let own : b ≡ b' = ground arith in
        (
          ground arith,
          ground arith,
          λ d.
              omega
                (arith, ap (λ (z : State ext). held ext d z) same, ap (in_balances m.symbol d) own),
        )
    refund_all-IsRefunded m p (lp ∷ l) b b' s t h =
        let (c, u, first, rest) =
          >>=-eq-ok (refund ext m p b lp) (λ c. refund_all ext m p c l) s h in
        let (pools, queues, less) = refund-IsRefunded m p b c lp s u first in
        let (pools', queues', less') = refund_all-IsRefunded m p l c b' u t rest in
        (pools' ∙ pools, queues' ∙ queues, λ d. omega (arith, less d, less' d))

    validate_address-state :
        (a : Bytes) (s t : State ext) (b : Bool) → validate_address ext a s ≡ (ok b, t) → s ≡ t
    unfolding validate_address
    validate_address-state a s t b h = ground arith

    check_decommission-state :
        (m : DecommissionPoolMsg) (s t : State ext) (p : Pool)
        → check_decommission ext m s ≡ (ok p, t)
        → (s ≡ t) × (lookup (get_pool_key m.symbol native_symbol) s.pools ≡ some p)
    unfolding check_decommission get_pool validate_address
    check_decommission-state m s t p h = (ground arith, ground arith)

    decommission_pool-state :
        (p : Pool) (s t : State ext)
        → decommission_pool ext p s ≡ (ok tt, t)
        → (t.pools ≡ delete (get_pool_key p.external_asset native_symbol) s.pools)
          × (t.removal_queues ≡ s.removal_queues)
          × (t.coins ≡ s.coins)
    unfolding decommission_pool destroy_pool
    decommission_pool-state p s t h = (ground arith, ground arith, ground arith)

    -- After the refunds the pool goes.
    ended-IsKept :
        (m : DecommissionPoolMsg) (p : Pool) (b : ℕ × ℕ × ℕ) (s u t : State ext)
        → IsKept ext s
        → lookup (get_pool_key m.symbol native_symbol) s.pools ≡ some p
        → IsRefunded m.symbol (p.pool_units, p.native_asset_balance, p.external_asset_balance) b s u
        → decommission_pool ext p u ≡ (ok tt, t)
        → IsKept ext t × (t.removal_queues ≡ s.removal_queues)
    ended-IsKept m p b s u t kept found (pools, queues, less) h =
        let (gone, queues', coins) = decommission_pool-state p u t h in
        let key = get_pool_key p.external_asset native_symbol in
        let after : t.pools ≡ delete key s.pools = gone ∙ ap (delete key) pools in
        let own : m.symbol ≡ p.external_asset =
          get_pool_key-injective m.symbol p.external_asset
            (lookup-IsKeyed (get_pool_key m.symbol native_symbol) p s.pools found kept.keyed) in
        let found' : lookup key s.pools ≡ some p =
          ap (λ a. lookup (get_pool_key a native_symbol) s.pools) (sym own) ∙ found in
        (
          record {
            keyed = subst IsKeyed (sym after) (delete-IsKeyed key s.pools kept.keyed);
            covered = λ d. omega (
              arith,
              kept.covered d,
              less d,
              total-delete (deposit d) key s.pools,
              ap (value_at (deposit d)) found',
              ap (total_by (deposit d)) after,
              ap (λ c. bank.balance c (module_address module_name) d) coins,
              ap (λ c. of_denom c d p.external_asset_balance) own,
            );
          },
          queues' ∙ queues,
        )

    pub handle_decommission_pool-IsKept :
        (m : DecommissionPoolMsg) (s t : State ext)
        → IsKept ext s
        → handle_decommission_pool ext m s ≡ (ok tt, t)
        → IsKept ext t × (t.removal_queues ≡ s.removal_queues)
    unfolding handle_decommission_pool
    handle_decommission_pool-IsKept m s t kept h =
        let (p, u, checked, h1) =
          >>=-eq-ok (check_decommission ext m)
            (λ p. gets (get_liquidity_providers_for_asset ext p.external_asset) >>= λ lps.
              refund_all ext m p (p.pool_units, p.native_asset_balance, p.external_asset_balance)
                lps
              >>= λ _. wrap Error.unable_to_decommission_pool (decommission_pool ext p))
            s h in
        let (same, found) = check_decommission-state m s u p checked in
        let lps = get_liquidity_providers_for_asset ext p.external_asset u in
        let (b, v, refunded, last) =
          >>=-eq-ok
            (refund_all ext m p (p.pool_units, p.native_asset_balance, p.external_asset_balance)
              lps)
            (λ _. wrap Error.unable_to_decommission_pool (decommission_pool ext p)) u h1 in
        ended-IsKept m p b s v t kept found
          (subst
            (λ u.
              IsRefunded m.symbol (p.pool_units, p.native_asset_balance, p.external_asset_balance) b
                u v)
            (sym same)
            (refund_all-IsRefunded m p lps
              (p.pool_units, p.native_asset_balance, p.external_asset_balance) b u v refunded))
          (wrap-ok ext Error.unable_to_decommission_pool (decommission_pool ext p) v t last)
