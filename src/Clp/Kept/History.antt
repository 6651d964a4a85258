-- ===== src/Clp/Kept/History.antt =====
-- Over any sequence of messages the deposits of the pools stay in the account of the module.
use furynode.Prelude.{All, ℕ, ◌≡◌, refl, sym, ap, subst, inl, inr, ◌⊎◌, some, List, [], ◌∷◌, String}
use furynode.Prelude.Int.{ℤ, pos}
use furynode.Chain.Action.{Outcome, ok, err, panic}
use furynode.Chain.Bank.{BankLaws, total_of}
use furynode.Clp.Keeper.{Externals, State}
use furynode.Clp.Custody.{IsKept}
use furynode.Clp.Exchange.{swap-IsKept}
use furynode.Clp.Delivery.{
  ClpMsg, swap_msg, create_pool_msg, add_liquidity_msg, remove_liquidity_msg,
  remove_liquidity_units_msg, unlock_liquidity_msg, cancel_unlock_msg, decommission_pool_msg,
  params_msg, signer_of, handle, deliver, deliver_all,
}
use furynode.Clp.Kept.Additions.{
  IsIdle, IsOutside, queues-IsIdle, IsFramed-IsKept, handle_create_pool-IsKept,
  handle_add_liquidity-IsKept,
}
use furynode.Clp.Kept.Removals.{
  handle_remove_liquidity-IsKept, handle_remove_liquidity_units-IsKept,
}
use furynode.Clp.Kept.Decommissions.{handle_decommission_pool-IsKept}
use furynode.Clp.Kept.Parameters.{handle_params-IsUntouched}
use furynode.Clp.Kept.Unlocks.{
  swap-IsAside, handle_unlock_liquidity-IsFramed, handle_cancel_unlock_liquidity-IsFramed,
}

module _ (ext : Externals) where
  open ext use {bank}
  open bank use {amount_of}

  module _ (laws : BankLaws bank)
      (parsed : (n : ℕ) (i : ℤ) → ext.parse_to_int n ≡ some i → i ≡ pos n)
      (added : (l : List (String × ℤ)) (c : bank.Coins)
        → ext.add_coins l ≡ some c
        → (d : String) → amount_of c d ≡ total_of d l) where
    handle-IsKept :
        (m : ClpMsg) (s t : State ext)
        → IsKept ext s
        → IsIdle ext s
        → IsOutside ext (signer_of m)
        → handle ext m s ≡ (ok tt, t)
        → IsKept ext t × (t.removal_queues ≡ s.removal_queues)
    unfolding handle
    handle-IsKept (swap_msg m) s t kept idle other h =
        (swap-IsKept ext laws parsed m s t kept other h, (swap-IsAside ext m s t h).1)
    handle-IsKept (create_pool_msg m) s t kept idle other h =
        handle_create_pool-IsKept ext laws parsed added m s t kept other h
    handle-IsKept (add_liquidity_msg m) s t kept idle other h =
        handle_add_liquidity-IsKept ext laws parsed added m s t kept idle other h
    handle-IsKept (remove_liquidity_msg m) s t kept idle other h =
        handle_remove_liquidity-IsKept ext laws parsed added m s t kept h
    handle-IsKept (remove_liquidity_units_msg m) s t kept idle other h =
        handle_remove_liquidity_units-IsKept ext laws parsed added m s t kept h
    handle-IsKept (unlock_liquidity_msg m) s t kept idle other h =
        let framed = handle_unlock_liquidity-IsFramed ext m s t h in
        (IsFramed-IsKept ext s t kept framed, framed.queues)
    handle-IsKept (cancel_unlock_msg m) s t kept idle other h =
        let framed = handle_cancel_unlock_liquidity-IsFramed ext m s t h in
        (IsFramed-IsKept ext s t kept framed, framed.queues)
    handle-IsKept (decommission_pool_msg m) s t kept idle other h =
        handle_decommission_pool-IsKept ext laws parsed m s t kept h
    handle-IsKept (params_msg signer m) s t kept idle other h =
        let (_, _, _, same) = handle_params-IsUntouched ext signer m s t h in
        (IsFramed-IsKept ext s t kept same.framed, same.framed.queues)

    deliver-cases :
        (m : ClpMsg) (s : State ext)
        → (deliver ext m s ≡ s)
          ⊎ ((t : State ext) × (handle ext m s ≡ (ok tt, t)) × (deliver ext m s ≡ t))
    unfolding deliver
    deliver-cases m s = go (handle ext m s).0 (handle ext m s).1 refl
      where
        go :
            (r : Outcome (Unit {0})) (t : State ext)
            → handle ext m s ≡ (r, t)
            → (deliver ext m s ≡ s)
              ⊎ ((t : State ext) × (handle ext m s ≡ (ok tt, t)) × (deliver ext m s ≡ t))
        go (ok u) t e = inr (
          t,
          e,
          ap
              (λ (p : Outcome (Unit {0}) × State ext). elim (p.0) [
                | ok _ ↦ p.1
                | err _ ↦ s
                | panic ↦ s
              ])
              e,
        )
        go (err x) t e = inl (
            ap
              (λ (p : Outcome (Unit {0}) × State ext). elim (p.0) [
                | ok _ ↦ p.1
                | err _ ↦ s
                | panic ↦ s
              ])
              e)
        go panic t e = inl (
            ap
              (λ (p : Outcome (Unit {0}) × State ext). elim (p.0) [
                | ok _ ↦ p.1
                | err _ ↦ s
                | panic ↦ s
              ])
              e)

    deliver-IsKept :
        (m : ClpMsg) (s : State ext)
        → IsKept ext s
        → IsIdle ext s
        → IsOutside ext (signer_of m)
        → IsKept ext (deliver ext m s) × IsIdle ext (deliver ext m s)
    deliver-IsKept m s kept idle other = elim (deliver-cases m s) [
      | inl e ↦ subst (λ t. IsKept ext t × IsIdle ext t) (sym e) (kept, idle)
      | inr (t, h, e) ↦
          let (kept', queues) = handle-IsKept m s t kept idle other h in
          subst (λ t. IsKept ext t × IsIdle ext t) (sym e)
            (kept', queues-IsIdle ext s t queues idle)
    ]

    -- With a bank that keeps its laws, a parser of amounts that returns what it is given and sums
    -- of coins of the amounts that are added, over any sequence of swaps, new pools, additions,
    -- removals, ends of pools, unlocks, cancelled unlocks and messages that set parameters, each
    -- a transaction of its own and of a signer other than the module itself, from a state in
    -- which no removal waits in a queue, each pool stays under its own key, the balances of all
    -- pools stay in the account of the module in every denomination, and no removal ever waits in
    -- a queue.
    pub deliver_all-IsKept :
        (l : List ClpMsg) (s : State ext)
        → IsKept ext s
        → IsIdle ext s
        → All (λ m. IsOutside ext (signer_of m)) l
        → IsKept ext (deliver_all ext l s) × IsIdle ext (deliver_all ext l s)
    unfolding deliver_all
    deliver_all-IsKept [] s kept idle other = (kept, idle)
    deliver_all-IsKept (m ∷ l) s kept idle other =
        let (kept', idle') = deliver-IsKept m s kept idle other.0 in
        deliver_all-IsKept l (deliver ext m s) kept' idle' other.1
