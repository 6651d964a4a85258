-- ===== src/Clp/Kept/Removals.antt =====
-- The two messages of a removal keep the deposits of the pools in the account of the module.
use furynode.Prelude.{
  ℕ, ◌≡◌, refl, sym, ap, subst, ◌∙◌, true, false, ◌&&◌, some, List, String, arith,
}
use furynode.Prelude.Int.{ℤ, pos, leb_ℤ, ltb_ℤ}
use furynode.Prelude.Dict.{lookup}
use furynode.Prelude.Store.{total_by}
use furynode.Chain.Action.{ok, Error, >>=-eq-ok, ◌>>=◌, wrap}
use furynode.Chain.Bank.{BankLaws, total_of}
use furynode.Clp.Pool.{Pool, native_symbol, get_pool_key}
use furynode.Clp.Provider.{LiquidityProvider, RemoveLiquidityMsg}
use furynode.Clp.Withdrawal.{Withdrawal}
use furynode.Clp.Keeper.{Externals, State, get_swap_fee_rate}
use furynode.Clp.Executors.{remove_liquidity}
use furynode.Clp.Queue.{take_out, less_withdrawal, adjust}
use furynode.Clp.Messages.{UnitsMsg}
use furynode.Clp.Messages.RemoveLiquidity.{
  finish_removal, plan_removal, plan_removal_of_units, handle_remove_liquidity,
  handle_remove_liquidity_units,
}
use furynode.Clp.Deposits.{deposit, of_denom, IsKeyed, set-IsKeyed, put_back}
use furynode.Clp.Custody.{IsKept, wrap-ok}
use furynode.Clp.Kept.Frames.{IsFramed, plan_removal-IsFramed, plan_removal_of_units-IsFramed}
use furynode.Clp.Kept.Payments.{less_withdrawal-deposit, take_out-state, remove_liquidity-state}
use furynode.Clp.Kept.Additions.{IsFramed-IsKept}

symmetric :
    (a : ℤ)
    → (leb_ℤ a (pos 0) && leb_ℤ (pos 0) a) ≡ true
    → (ltb_ℤ (pos 0) a ≡ false) × (ltb_ℤ a (pos 0) ≡ false)
symmetric a h = (ground arith, ground arith)

module _ (ext : Externals) where
  open ext use {bank}
  open bank use {amount_of, module_address}

  module _ (laws : BankLaws bank)
      (parsed : (n : ℕ) (i : ℤ) → ext.parse_to_int n ≡ some i → i ≡ pos n)
      (added : (l : List (String × ℤ)) (c : bank.Coins)
        → ext.add_coins l ≡ some c
        → (d : String) → amount_of c d ≡ total_of d l) where
    -- A pool that was read is put back less a withdrawal, and the withdrawal leaves the module.
    removed-IsKept :
        (c : String) (p q : Pool) (lp : LiquidityProvider) (w : Withdrawal) (u v : ℕ)
        (s t : State ext)
        → IsKept ext s
        → lookup (get_pool_key c native_symbol) s.pools ≡ some p
        → less_withdrawal p lp w ≡ some q
        → remove_liquidity ext q
            (c, pos w.external)
            (native_symbol, pos w.native)
            lp
            w.units_left
            u
            v
            s
          ≡ (ok tt, t)
        → IsKept ext t × (t.removal_queues ≡ s.removal_queues)
    removed-IsKept c p q lp w u v s t kept found less h =
        let (pools, queues, out) =
          remove_liquidity-state ext laws parsed added q c w.external w.native u v w.units_left lp s
            t h in
        (
          record {
            keyed = subst IsKeyed (sym pools) (set-IsKeyed q s.pools kept.keyed);
            covered = λ d.
                let (same, smaller) = less_withdrawal-deposit p q lp w d less in
                let (own, total) = put_back c d p q s.pools kept.keyed found same in
                omega (
                  arith,
                  kept.covered d,
                  out d,
                  smaller,
                  total,
                  ap (total_by (deposit d)) pools,
                  ap (λ c. of_denom c d w.external) own,
                );
          },
          queues,
        )

    taken-IsKept :
        (c : String) (x : Pool × LiquidityProvider × Withdrawal × ℕ × ℕ)
        (y : Pool × (String × ℤ) × (String × ℤ)) (s u v t : State ext)
        → IsKept ext s
        → lookup (get_pool_key c native_symbol) s.pools ≡ some x.0
        → IsFramed ext s u
        → take_out ext c x.0 x.1 x.2 u ≡ (ok y, v)
        → remove_liquidity ext y.0 y.1 y.2 x.1 x.2.units_left x.4 x.3 v ≡ (ok tt, t)
        → IsKept ext t × (t.removal_queues ≡ s.removal_queues)
    taken-IsKept c x y s u v t kept found framed taken h =
        let (same, less, external, native) =
          take_out-state ext laws parsed added c x.0 x.1 x.2 u v y taken in
        let h' : remove_liquidity ext y.0 (c, pos x.2.external) (native_symbol, pos x.2.native) x.1
              x.2.units_left x.4 x.3 u
            ≡ (ok tt, t) =
          rw (same, sym external, sym native) h in
        let (kept', queues) =
          removed-IsKept c x.0 y.0 x.1 x.2 x.4 x.3 u t (IsFramed-IsKept ext s u kept framed)
            (ap (lookup (get_pool_key c native_symbol)) framed.pools ∙ found) less h' in
        (kept', queues ∙ framed.queues)

    pub handle_remove_liquidity_units-IsKept :
        (m : UnitsMsg) (s t : State ext)
        → IsKept ext s
        → handle_remove_liquidity_units ext m s ≡ (ok tt, t)
        → IsKept ext t × (t.removal_queues ≡ s.removal_queues)
    unfolding handle_remove_liquidity_units
    handle_remove_liquidity_units-IsKept m s t kept h =
        let (x, u, planned, h1) =
          >>=-eq-ok (plan_removal_of_units ext m)
            (λ (p, lp, w, n, e). take_out ext m.external_asset p lp w >>= λ (q, c, d).
              wrap Error.unable_to_remove_liquidity
                (remove_liquidity ext q c d lp w.units_left e n))
            s h in
        let (y, v, taken, last) =
          >>=-eq-ok (take_out ext m.external_asset x.0 x.1 x.2)
            (λ (q, c, d).
              wrap Error.unable_to_remove_liquidity
                (remove_liquidity ext q c d x.1 x.2.units_left x.4 x.3))
            u h1 in
        let (found, framed) = plan_removal_of_units-IsFramed ext m s u x planned in
        taken-IsKept m.external_asset x y s u v t kept found framed taken (
          wrap-ok ext Error.unable_to_remove_liquidity
            (remove_liquidity ext y.0 y.1 y.2 x.1 x.2.units_left x.4 x.3) v t last)

    -- A symmetric removal swaps nothing.
    adjust-symmetric :
        (m : RemoveLiquidityMsg) (n : ℕ) (r e f : ℤ) (x : Pool × (String × ℤ) × (String × ℤ))
        (s : State ext)
        → (leb_ℤ m.asymmetry (pos 0) && leb_ℤ (pos 0) m.asymmetry) ≡ true
        → adjust ext m n r e f x s ≡ (ok x, s)
    unfolding adjust
    adjust-symmetric m n r e f x s even = let (a, b) = symmetric m.asymmetry even in rw (a, b) refl

    finish_removal-symmetric :
        (m : RemoveLiquidityMsg) (lp : LiquidityProvider) (w : Withdrawal) (n e : ℕ)
        (y : Pool × (String × ℤ) × (String × ℤ)) (s t : State ext)
        → (leb_ℤ m.asymmetry (pos 0) && leb_ℤ (pos 0) m.asymmetry) ≡ true
        → finish_removal ext m lp w n e y s ≡ (ok tt, t)
        → remove_liquidity ext y.0 y.1 y.2 lp w.units_left e n s ≡ (ok tt, t)
    unfolding finish_removal
    finish_removal-symmetric m lp w n e y s t even h = ground (
      arith,
      adjust-symmetric m w.swap_amount s.pmtp_current_running_rate
          (get_swap_fee_rate ext m.external_asset false s)
          (get_swap_fee_rate ext native_symbol false s) y s even,
    )

    pub handle_remove_liquidity-IsKept :
        (m : RemoveLiquidityMsg) (s t : State ext)
        → IsKept ext s
        → handle_remove_liquidity ext m s ≡ (ok tt, t)
        → IsKept ext t × (t.removal_queues ≡ s.removal_queues)
    unfolding handle_remove_liquidity
    handle_remove_liquidity-IsKept m s t kept h =
        let (x, u, planned, h1) =
          >>=-eq-ok (plan_removal ext m)
            (λ (p, lp, w, n, e).
              take_out ext m.external_asset p lp w >>= λ y. finish_removal ext m lp w n e y)
            s h in
        let (y, v, taken, last) =
          >>=-eq-ok (take_out ext m.external_asset x.0 x.1 x.2)
            (λ y. finish_removal ext m x.1 x.2 x.3 x.4 y) u h1 in
        let (found, framed, even) = plan_removal-IsFramed ext m s u x planned in
        taken-IsKept m.external_asset x y s u v t kept found framed taken
          (finish_removal-symmetric m x.1 x.2 x.3 x.4 y v t even last)
