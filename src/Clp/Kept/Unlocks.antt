-- ===== src/Clp/Kept/Unlocks.antt =====
-- What the messages of unlocks, and of a swap, leave as it is.
use furynode.Prelude.{ℕ, ◌≡◌, sym, ap, subst, ◌∙◌, Bool, true, false, Option, String, arith}
use furynode.Prelude.Int.{ℤ}
use furynode.Chain.Action.{ok, >>=-eq-ok, ◌>>=◌, pure}
use furynode.TokenRegistry.Keeper.{RegistryEntry}
use furynode.Clp.Pool.{Pool, Swapped, swap_one}
use furynode.Clp.Provider.{LiquidityProvider}
use furynode.Clp.Keeper.{
  Externals, State, get_swap_fee_rate, initiate_swap, finalize_swap, pay_received, set_pool,
  get_pool,
}
use furynode.Clp.Protection.{must_update_liquidity_protection_threshold}
use furynode.Clp.Providers.{
  get_liquidity_provider, prune_unlock_records, use_unlocked_liquidity, set_liquidity_provider,
}
use furynode.Clp.Messages.{UnitsMsg}
use furynode.Clp.Messages.Unlock.{
  handle_unlock_liquidity, handle_cancel_unlock_liquidity, record_unlock,
}
use furynode.Clp.Server.{
  SwapMsg, check_tokens, protect, first_leg, find_in_pool, find_out_pool, pay_in, pay_out,
  second_leg, exchange, update_protection, swap,
}
use furynode.Clp.Kept.Frames.{IsFramed, IsFramed-trans, prune_unlock_records-IsFramed}
use furynode.Clp.Exchange.{check_tokens-state, protect-state}

module _ (ext : Externals) where
  -- The providers and the queues are those of before.
  abbrev pub IsAside : State ext → State ext → Type 0
  IsAside s t = (t.providers ≡ s.providers) × (t.removal_queues ≡ s.removal_queues)

  pay_in-IsAside :
      (m : SwapMsg) (s t : State ext) (o : Option Pool) → pay_in ext m s ≡ (ok o, t) → IsAside s t
  unfolding pay_in find_in_pool initiate_swap get_pool
  pay_in-IsAside m s t o h = (ground arith, ground arith)

  first_leg-IsAside :
      (m : SwapMsg) (o : Option Pool) (r f : ℤ) (s t : State ext) (x : ℕ × String × ℕ × ℕ)
      → first_leg ext m o r f s ≡ (ok x, t)
      → IsAside s t
  unfolding first_leg set_pool
  first_leg-IsAside m o r f s t x h = (ground arith, ground arith)

  pay_out-IsAside :
      (m : SwapMsg) (p : Pool) (i n : ℕ) (r f : ℤ) (w : Swapped) (s t : State ext) (x : ℕ)
      → pay_out ext m p i n r f w s ≡ (ok x, t)
      → IsAside s t
  unfolding pay_out finalize_swap set_pool pay_received
  pay_out-IsAside m p i n r f w s t x h = (ground arith, ground arith)

  find_out_pool-state :
      (m : SwapMsg) (s t : State ext) (p : Pool) → find_out_pool ext m s ≡ (ok p, t) → s ≡ t
  unfolding find_out_pool get_pool
  find_out_pool-state m s t p h = ground arith

  second_leg-IsAside :
      (m : SwapMsg) (r f : ℤ) (y : ℕ × String × ℕ × ℕ) (s t : State ext) (x : ℕ)
      → second_leg ext m r f y s ≡ (ok x, t)
      → IsAside s t
  unfolding second_leg
  second_leg-IsAside m r f y s t x h =
      let (p, u, found, h1) =
        >>=-eq-ok (find_out_pool ext m)
          (λ p. (λ s. (swap_one y.1 y.0 m.received_asset p r f, s)) >>= λ w.
            pay_out ext m p y.2 y.3 r f w)
          s h in
      let (w, v, swapped, last) =
        >>=-eq-ok (λ s. (swap_one y.1 y.0 m.received_asset p r f, s))
          (λ w. pay_out ext m p y.2 y.3 r f w) u h1 in
      let same : u ≡ v = ground arith in
      let (providers, queues) = pay_out-IsAside m p y.2 y.3 r f w v t x last in
      let e = find_out_pool-state m s u p found ∙ same in
      (
        providers ∙ ap (λ (z : State ext). z.providers) (sym e),
        queues ∙ ap (λ (z : State ext). z.removal_queues) (sym e),
      )

  exchange-IsAside :
      (m : SwapMsg) (r f : ℤ) (s t : State ext) (n : ℕ)
      → exchange ext m r f s ≡ (ok n, t)
      → IsAside s t
  unfolding exchange
  exchange-IsAside m r f s t n h =
      let (o, u, paid, h1) =
        >>=-eq-ok (pay_in ext m) (λ o. first_leg ext m o r f >>= second_leg ext m r f) s h in
      let (y, v, went, ended) = >>=-eq-ok (first_leg ext m o r f) (second_leg ext m r f) u h1 in
      let (p1, q1) = pay_in-IsAside m s u o paid in
      let (p2, q2) = first_leg-IsAside m o r f u v y went in
      let (p3, q3) = second_leg-IsAside m r f y v t n ended in (p3 ∙ p2 ∙ p1, q3 ∙ q2 ∙ q1)

  update_protection-IsAside :
      (m : SwapMsg) (e e' : RegistryEntry) (o : Option ℤ) (f : ℤ) (n : ℕ) (s t : State ext)
      → update_protection ext m e e' o f n s ≡ (ok tt, t)
      → IsAside s t
  unfolding update_protection must_update_liquidity_protection_threshold
  update_protection-IsAside m e e' o f n s t h = (ground arith, ground arith)

  get_liquidity_provider-state :
      (c a : String) (s t : State ext) (lp : LiquidityProvider)
      → get_liquidity_provider ext c a s ≡ (ok lp, t)
      → s ≡ t
  unfolding get_liquidity_provider
  get_liquidity_provider-state c a s t lp h = ground arith

  use_unlocked_liquidity-IsFramed :
      (lp lp' : LiquidityProvider) (n : ℕ) (any : Bool) (s t : State ext)
      → use_unlocked_liquidity ext lp n any s ≡ (ok lp', t)
      → IsFramed ext s t
  unfolding use_unlocked_liquidity set_liquidity_provider
  use_unlocked_liquidity-IsFramed lp lp' n any s t h = record {
    pools = ground arith;
    coins = ground arith;
    queues = ground arith;
  }

  pub swap-IsAside : (m : SwapMsg) (s t : State ext) → swap ext m s ≡ (ok tt, t) → IsAside s t
  unfolding swap
  swap-IsAside m s t h =
      let (e, u, checked, h1) =
        >>=-eq-ok (check_tokens ext m)
          (λ e s.
            (protect ext m e.0 >>= λ o.
            exchange ext m s.pmtp_current_running_rate (get_swap_fee_rate ext m.sent_asset false s)
            >>= λ n.
                update_protection ext m e.0 e.1 o (get_swap_fee_rate ext m.sent_asset false s) n)
              s)
          s h in
      let r = u.pmtp_current_running_rate in
      let f = get_swap_fee_rate ext m.sent_asset false u in
      let (o, v, protected, h2) =
        >>=-eq-ok (protect ext m e.0)
          (λ o. exchange ext m r f >>= λ n. update_protection ext m e.0 e.1 o f n) u h1 in
      let (n, w, exchanged, updated) =
        >>=-eq-ok (exchange ext m r f) (λ n. update_protection ext m e.0 e.1 o f n) v h2 in
      let same = check_tokens-state ext m s u e checked ∙ protect-state ext m e.0 u v o protected in
      let (p1, q1) = exchange-IsAside m r f v w n exchanged in
      let (p2, q2) = update_protection-IsAside m e.0 e.1 o f n w t updated in
      (
        p2 ∙ p1 ∙ ap (λ (z : State ext). z.providers) (sym same),
        q2 ∙ q1 ∙ ap (λ (z : State ext). z.removal_queues) (sym same),
      )

  pub handle_cancel_unlock_liquidity-IsFramed :
      (m : UnitsMsg) (s t : State ext)
      → handle_cancel_unlock_liquidity ext m s ≡ (ok tt, t)
      → IsFramed ext s t
  unfolding handle_cancel_unlock_liquidity
  handle_cancel_unlock_liquidity-IsFramed m s t h =
      let (found, u, read, h1) =
        >>=-eq-ok (get_liquidity_provider ext m.external_asset m.signer)
          (λ found. prune_unlock_records ext found >>= λ lp.
            use_unlocked_liquidity ext lp m.units true >>= λ _. pure tt)
          s h in
      let (lp, v, pruned, h2) =
        >>=-eq-ok (prune_unlock_records ext found)
          (λ lp. use_unlocked_liquidity ext lp m.units true >>= λ _. pure tt) u h1 in
      let (lp', w, used, h3) =
        >>=-eq-ok (use_unlocked_liquidity ext lp m.units true) (λ _. pure tt) v h2 in
      let same : w ≡ t = ground arith in
      let before = get_liquidity_provider-state m.external_asset m.signer s u found read in
      subst (λ s. IsFramed ext s t) (sym before)
        (IsFramed-trans ext u v t (prune_unlock_records-IsFramed ext found lp u v pruned) (
          subst (IsFramed ext v) same
            (use_unlocked_liquidity-IsFramed lp lp' m.units true v w used)))

  -- The record of the unlock is added to the provider, which is not changed otherwise.
  record_unlock-IsFramed :
      (m : UnitsMsg) (lp : LiquidityProvider) (s t : State ext)
      → record_unlock ext m lp s ≡ (ok tt, t)
      → IsFramed ext s t
  unfolding record_unlock set_liquidity_provider
  record_unlock-IsFramed m lp s t h = record {
    pools = ground arith;
    coins = ground arith;
    queues = ground arith;
  }

  pub handle_unlock_liquidity-IsFramed :
      (m : UnitsMsg) (s t : State ext)
      → handle_unlock_liquidity ext m s ≡ (ok tt, t)
      → IsFramed ext s t
  unfolding handle_unlock_liquidity
  handle_unlock_liquidity-IsFramed m s t h =
      let (found, u, read, h1) =
        >>=-eq-ok (get_liquidity_provider ext m.external_asset m.signer)
          (λ found. prune_unlock_records ext found >>= record_unlock ext m) s h in
      let (lp, v, pruned, last) =
        >>=-eq-ok (prune_unlock_records ext found) (record_unlock ext m) u h1 in
      let before = get_liquidity_provider-state m.external_asset m.signer s u found read in
      subst (λ s. IsFramed ext s t) (sym before)
        (IsFramed-trans ext u v t (prune_unlock_records-IsFramed ext found lp u v pruned)
          (record_unlock-IsFramed m lp v t last))
