-- ===== src/Clp/Kept/Frames.antt =====
-- What the checks of the messages of liquidity leave as it is.
use furynode.Prelude.{
  ℕ, ◌&&◌, ◌≡◌, sym, ap, subst, ◌∙◌, inl, inr, true, false, String, arith, Option-cases, some,
  Option,
}
use furynode.Prelude.Int.{pos, leb_ℤ}
use furynode.Prelude.Dict.{lookup}
use furynode.Prelude.Store.{has, set}
use furynode.Chain.Action.{ok, Error, wrap, >>=-eq-ok, ◌>>=◌, ◌>>◌, pure, or_panic}
use furynode.TokenRegistry.Keeper.{RegistryEntry}
use furynode.Clp.Pool.{Pool, native_symbol, get_pool_key}
use furynode.Clp.Asymmetric.{Addition}
use furynode.Clp.Provider.{LiquidityProvider, RemoveLiquidityMsg}
use furynode.Clp.Withdrawal.{Withdrawal}
use furynode.Clp.Keeper.{Externals, State, exists_pool, get_pool, set_pool}
use furynode.Clp.Custody.{set_pool-state, wrap-ok}
use furynode.Clp.Providers.{
  set_liquidity_provider, create_liquidity_provider, get_liquidity_provider, prune_unlock_records,
  use_unlocked_liquidity,
}
use furynode.Clp.Executors.{LiquidityMsg}
use furynode.Clp.Protection.{
  get_native_price, is_blocked_by_liquidity_protection, must_update_liquidity_protection_threshold,
}
use furynode.Clp.Messages.{UnitsMsg, find_entry, find_units}
use furynode.Clp.Messages.NewPool.{check_creation, first_provider}
use furynode.Clp.Messages.AddLiquidity.{
  find_native, check_swap, protect_sale, protect_purchase, price_addition, plan_addition,
}
use furynode.Clp.Messages.RemoveLiquidity.{
  find_provider, check_available, check_health, use_unlocked, plan_removal, plan_removal_of_units,
  settle, check_points, withdraw_units, withdraw_points, queued_request,
}

module _ (ext : Externals) where
  -- The pools, the coins and the queues are those of before.
  pub record IsFramed (s t : State ext) : Type 0 where
    pub pools : t.pools ≡ s.pools
    pub coins : t.coins ≡ s.coins
    pub queues : t.removal_queues ≡ s.removal_queues

  pub check_creation-state :
      (m : LiquidityMsg) (s t : State ext) (a : Addition)
      → check_creation ext m s ≡ (ok a, t)
      → (s ≡ t) × (has (get_pool_key m.external_asset native_symbol) s.pools ≡ false)
  unfolding check_creation find_entry exists_pool find_units
  check_creation-state m s t a h = (ground arith, ground arith)

  pub set_liquidity_provider-IsFramed :
      (lp : LiquidityProvider) (s t : State ext)
      → set_liquidity_provider ext lp s ≡ (ok tt, t)
      → IsFramed s t
  unfolding set_liquidity_provider
  set_liquidity_provider-IsFramed lp s t h = record {
    pools = ground arith;
    coins = ground arith;
    queues = ground arith;
  }

  -- The pool is put in its place, and nothing else changes.
  pub record IsPlaced (q : Pool) (s t : State ext) : Type 0 where
    pub pools : t.pools ≡ set (get_pool_key q.external_asset native_symbol) q s.pools
    pub coins : t.coins ≡ s.coins
    pub queues : t.removal_queues ≡ s.removal_queues

  pub put_pool-IsPlaced :
      (q : Pool) (s t : State ext)
      → wrap Error.unable_to_set_pool (set_pool ext q) s ≡ (ok tt, t)
      → IsPlaced q s t
  put_pool-IsPlaced q s t h =
      let placed =
        set_pool-state ext q s t (wrap-ok ext Error.unable_to_set_pool (set_pool ext q) s t h) in
      record {
        pools = ap (λ (z : State ext). z.pools) placed;
        coins = ap (λ (z : State ext). z.coins) placed;
        queues = ap (λ (z : State ext). z.removal_queues) placed;
      }

  pub IsPlaced-IsFramed :
      (q : Pool) (s t u : State ext) → IsPlaced q s t → IsFramed t u → IsPlaced q s u
  IsPlaced-IsFramed q s t u h k = record {
    pools = k.pools ∙ h.pools;
    coins = k.coins ∙ h.coins;
    queues = k.queues ∙ h.queues;
  }

  pub IsFramed-IsPlaced :
      (q : Pool) (s t u : State ext) → IsFramed s t → IsPlaced q t u → IsPlaced q s u
  IsFramed-IsPlaced q s t u h k = record {
    pools = k.pools ∙ ap (λ l. set (get_pool_key q.external_asset native_symbol) q l) h.pools;
    coins = k.coins ∙ h.coins;
    queues = k.queues ∙ h.queues;
  }

  pub first_provider-IsFramed :
      (m : LiquidityMsg) (n : ℕ) (s t : State ext)
      → first_provider ext m n s ≡ (ok tt, t)
      → IsFramed s t
  unfolding first_provider create_liquidity_provider set_liquidity_provider
  first_provider-IsFramed m n s t h = record {
    pools = ground arith;
    coins = ground arith;
    queues = ground arith;
  }

  check_swap-IsFramed :
      (m : LiquidityMsg) (e e' : RegistryEntry) (n : ℕ × ℕ) (a : Addition) (s t : State ext)
      → check_swap ext m e e' n a s ≡ (ok tt, t)
      → IsFramed s t
  unfolding check_swap protect_sale protect_purchase get_native_price
      is_blocked_by_liquidity_protection must_update_liquidity_protection_threshold get_pool
  check_swap-IsFramed m e e' n a s t h = record {
    pools = ground arith;
    coins = ground arith;
    queues = ground arith;
  }

  pub prune_unlock_records-IsFramed :
      (lp lp' : LiquidityProvider) (s t : State ext)
      → prune_unlock_records ext lp s ≡ (ok lp', t)
      → IsFramed s t
  unfolding prune_unlock_records set_liquidity_provider
  prune_unlock_records-IsFramed lp lp' s t h = record {
    pools = ground arith;
    coins = ground arith;
    queues = ground arith;
  }

  pub use_unlocked-IsFramed :
      (lp lp' : LiquidityProvider) (n : ℕ) (s t : State ext)
      → use_unlocked ext lp n s ≡ (ok lp', t)
      → IsFramed s t
  unfolding use_unlocked use_unlocked_liquidity set_liquidity_provider
  use_unlocked-IsFramed lp lp' n s t h = record {
    pools = ground arith;
    coins = ground arith;
    queues = ground arith;
  }

  pub check_available-state :
      (lp : LiquidityProvider) (n : ℕ) (s t : State ext)
      → check_available ext lp n s ≡ (ok tt, t)
      → s ≡ t
  unfolding check_available
  check_available-state lp n s t h = ground arith

  pub check_health-state :
      (e : RegistryEntry) (c : String) (p : Pool) (w : Withdrawal) (r : Option RemoveLiquidityMsg)
      (n : ℕ) (s t : State ext)
      → check_health ext e c p w r n s ≡ (ok tt, t)
      → s ≡ t
  unfolding check_health
  check_health-state e c p w r n s t h = ground arith

  price_addition-state :
      (m : LiquidityMsg) (s t : State ext)
      (x : RegistryEntry × RegistryEntry × Pool × (ℕ × ℕ) × Addition)
      → price_addition ext m s ≡ (ok x, t)
      → (s ≡ t) × (lookup (get_pool_key m.external_asset native_symbol) s.pools ≡ some x.2)
  unfolding price_addition find_native find_entry get_pool find_units
  price_addition-state m s t x h = (ground arith, ground arith)

  pub plan_addition-state :
      (m : LiquidityMsg) (s t : State ext) (p : Pool) (a : Addition)
      → plan_addition ext m s ≡ (ok (p, a), t)
      → (lookup (get_pool_key m.external_asset native_symbol) s.pools ≡ some p) × IsFramed s t
  unfolding plan_addition
  plan_addition-state m s t p a h =
      let (x, u, priced, h1) =
        >>=-eq-ok (price_addition ext m)
          (λ (e, e', p, n, a). check_swap ext m e e' n a >> pure (p, a)) s h in
      let (same, found) = price_addition-state m s u x priced in
      let checked : check_swap ext m x.0 x.1 x.3 x.4 u ≡ (ok tt, t) = ground arith in
      let e : x.2 ≡ p = ground arith in
      (
        subst (λ p. lookup (get_pool_key m.external_asset native_symbol) s.pools ≡ some p) e found,
        subst (λ u. IsFramed u t) (sym same) (check_swap-IsFramed m x.0 x.1 x.3 x.4 u t checked),
      )

  -- A provider, and the pool that it is of.
  pub find_provider-state :
      (c signer : String) (s t : State ext) (x : RegistryEntry × Pool × LiquidityProvider)
      → find_provider ext c signer s ≡ (ok x, t)
      → (s ≡ t) × (lookup (get_pool_key c native_symbol) s.pools ≡ some x.1)
  unfolding find_provider find_entry get_pool get_liquidity_provider
  find_provider-state c signer s t x h = (ground arith, ground arith)

  settle-IsFramed :
      (e : RegistryEntry) (c : String) (p : Pool) (lp : LiquidityProvider) (w : Withdrawal × ℕ × ℕ)
      (r : Option RemoveLiquidityMsg) (n : ℕ) (s t : State ext)
      (x : Pool × LiquidityProvider × Withdrawal × ℕ × ℕ)
      → settle ext e c p lp w r n s ≡ (ok x, t)
      → (x.0 ≡ p) × IsFramed s t
  unfolding settle
  settle-IsFramed e c p lp w r n s t x h =
      let (lp', u, used, h1) =
        >>=-eq-ok (use_unlocked ext lp w.0.units_left)
          (λ lp'. check_health ext e c p w.0 r n >> pure (p, lp', w.0, w.1, w.2)) s h in
      let checked : check_health ext e c p w.0 r n u ≡ (ok tt, t) = ground arith in
      let same = check_health-state e c p w.0 r n u t checked in
      (ground arith, subst (IsFramed s) same (use_unlocked-IsFramed lp lp' w.0.units_left s u used))

  check_points-state :
      (m : RemoveLiquidityMsg) (lp : LiquidityProvider) (s t : State ext)
      → check_points ext m lp s ≡ (ok tt, t)
      → (s ≡ t) × ((leb_ℤ m.asymmetry (pos 0) && leb_ℤ (pos 0) m.asymmetry) ≡ true)
  unfolding check_points check_available
  check_points-state m lp s t h = (ground arith, ground arith)

  pub IsFramed-trans : (s t u : State ext) → IsFramed s t → IsFramed t u → IsFramed s u
  IsFramed-trans s t u h k = record {
    pools = k.pools ∙ h.pools;
    coins = k.coins ∙ h.coins;
    queues = k.queues ∙ h.queues;
  }

  pub plan_removal_of_units-IsFramed :
      (m : UnitsMsg) (s t : State ext) (x : Pool × LiquidityProvider × Withdrawal × ℕ × ℕ)
      → plan_removal_of_units ext m s ≡ (ok x, t)
      → (lookup (get_pool_key m.external_asset native_symbol) s.pools ≡ some x.0) × IsFramed s t
  unfolding plan_removal_of_units
  plan_removal_of_units-IsFramed m s t x h =
      let (y, u, seen, h1) =
        >>=-eq-ok (find_provider ext m.external_asset m.signer)
          (λ (e, p, found).
            check_available ext found m.units
            >> (prune_unlock_records ext found >>= λ lp.
                or_panic (withdraw_units ext m p lp) >>= λ w.
                settle ext e m.external_asset p lp w (queued_request ext m lp) w.0.native))
          s h in
      let (same, found) = find_provider-state m.external_asset m.signer s u y seen in
      let (_, v, free, h2) =
        >>=-eq-ok (check_available ext y.2 m.units)
          (λ _. prune_unlock_records ext y.2 >>= λ lp.
            or_panic (withdraw_units ext m y.1 lp) >>= λ w.
            settle ext y.0 m.external_asset y.1 lp w (queued_request ext m lp) w.0.native)
          u h1 in
      let (lp, k, pruned, h3) =
        >>=-eq-ok (prune_unlock_records ext y.2)
          (λ lp. or_panic (withdraw_units ext m y.1 lp) >>= λ w.
            settle ext y.0 m.external_asset y.1 lp w (queued_request ext m lp) w.0.native)
          v h2 in
      let before = same ∙ check_available-state y.2 m.units u v free in
      let framed = prune_unlock_records-IsFramed y.2 lp v k pruned in
      elim (Option-cases (withdraw_units ext m y.1 lp)) [
        | inl e ↦ absurd (ground arith)
        | inr (w, e) ↦
            let settled : settle ext y.0 m.external_asset y.1 lp w (queued_request ext m lp)
                  w.0.native k
                ≡ (ok x, t) =
              ground arith in
            let (own, last) =
              settle-IsFramed y.0 m.external_asset y.1 lp w (queued_request ext m lp) w.0.native k t
                x settled in
            (
              found ∙ ap some (sym own),
              subst (λ v. IsFramed v t) (sym before) (IsFramed-trans v k t framed last),
            )
      ]

  pub plan_removal-IsFramed :
      (m : RemoveLiquidityMsg) (s t : State ext) (x : Pool × LiquidityProvider × Withdrawal × ℕ × ℕ)
      → plan_removal ext m s ≡ (ok x, t)
      → (lookup (get_pool_key m.external_asset native_symbol) s.pools ≡ some x.0)
        × IsFramed s t
        × ((leb_ℤ m.asymmetry (pos 0) && leb_ℤ (pos 0) m.asymmetry) ≡ true)
  unfolding plan_removal
  plan_removal-IsFramed m s t x h =
      let (y, u, seen, h1) =
        >>=-eq-ok (find_provider ext m.external_asset m.signer)
          (λ (e, p, found). prune_unlock_records ext found >>= λ lp.
            check_points ext m lp
            >> (or_panic (withdraw_points ext m p lp) >>= λ w.
                settle ext e m.external_asset p lp w (some m) w.0.external))
          s h in
      let (same, found) = find_provider-state m.external_asset m.signer s u y seen in
      let (lp, v, pruned, h2) =
        >>=-eq-ok (prune_unlock_records ext y.2)
          (λ lp.
            check_points ext m lp
            >> (or_panic (withdraw_points ext m y.1 lp) >>= λ w.
                settle ext y.0 m.external_asset y.1 lp w (some m) w.0.external))
          u h1 in
      let (_, k, free, h3) =
        >>=-eq-ok (check_points ext m lp)
          (λ _. or_panic (withdraw_points ext m y.1 lp) >>= λ w.
            settle ext y.0 m.external_asset y.1 lp w (some m) w.0.external)
          v h2 in
      let (free_state, symmetric) = check_points-state m lp v k free in
      let framed = prune_unlock_records-IsFramed y.2 lp u v pruned in
      elim (Option-cases (withdraw_points ext m y.1 lp)) [
        | inl e ↦ absurd (ground arith)
        | inr (w, e) ↦
            let settled : settle ext y.0 m.external_asset y.1 lp w (some m) w.0.external k
                ≡ (ok x, t) =
              ground arith in
            let (own, last) =
              settle-IsFramed y.0 m.external_asset y.1 lp w (some m) w.0.external k t x settled in
            (
              found ∙ ap some (sym own),
              subst (λ v. IsFramed v t) (sym same)
                  (IsFramed-trans u v t framed (subst (λ v. IsFramed v t) (sym free_state) last)),
              symmetric,
            )
      ]
