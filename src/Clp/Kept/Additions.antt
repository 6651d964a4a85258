-- ===== src/Clp/Kept/Additions.antt =====
-- A new pool and an addition to a pool keep the deposits in the account of the module.
use furynode.Prelude.{
  ℕ, ◌+◌, ◌≡◌, sym, ap, subst, ◌∙◌, inl, inr, false, some, List, String, arith, Option-cases,
}
use furynode.Prelude.Int.{ℤ, pos, ltb_ℤ}
use furynode.Prelude.Text.{Bytes, bytes_eq}
use furynode.Prelude.Dict.{Dict, lookup}
use furynode.Prelude.Store.{has, set, total_by, value_at, total-set}
use furynode.Chain.Action.{ok, Error, >>=-eq-ok, ◌>>=◌, ◌>>◌, wrap, or_panic}
use furynode.Chain.Bank.{BankLaws, total_of}
use furynode.Clp.Pool.{Pool, native_symbol, get_pool_key}
use furynode.Clp.Provider.{LiquidityProvider}
use furynode.Clp.Rat.{uint_add}
use furynode.Clp.Asymmetric.{Addition}
use furynode.Clp.Keeper.{Externals, State, module_name, set_pool}
use furynode.Clp.Executors.{
  LiquidityMsg, deposit_new, deposit_more, enlarge, find_or_create, add_liquidity, write_addition,
  create_pool, new_pool,
}
use furynode.Clp.Providers.{
  set_liquidity_provider, get_liquidity_provider, create_liquidity_provider,
}
use furynode.Clp.Queue.{get_removal_queue}
use furynode.Clp.Messages.NewPool.{check_creation, first_provider, handle_create_pool}
use furynode.Clp.Messages.AddLiquidity.{plan_addition, serve_queue, handle_add_liquidity}
use furynode.Clp.Deposits.{deposit, of_denom, IsKeyed, set-IsKeyed, put_back}
use furynode.Clp.Custody.{IsKept, wrap-ok}
use furynode.Clp.Kept.Frames.{
  IsFramed, check_creation-state, first_provider-IsFramed, plan_addition-state,
  set_liquidity_provider-IsFramed, IsPlaced, put_pool-IsPlaced, IsPlaced-IsFramed,
  IsFramed-IsPlaced,
}
use furynode.Clp.Kept.Payments.{IsDeposited, deposit_new-state, deposit_more-state, enlarge-deposit}

-- A pool that was not there adds its deposit.
put_new :
    (d k : String) (q : Pool) (l : Dict Pool)
    → has k l ≡ false
    → total_by (deposit d) (set k q l) ≡ total_by (deposit d) l + deposit d q
unfolding has
put_new d k q l h = elim (Option-cases (lookup k l)) [
  | inl e ↦ omega (arith, total-set (deposit d) k q l, ap (value_at (deposit d)) e)
  | inr (p, e) ↦ absurd (ground arith)
]

module _ (ext : Externals) where
  open ext use {bank, bech32}
  open bank use {amount_of, module_address}

  -- No removal of liquidity waits in a queue.
  unfoldable pub IsIdle : State ext → Type 0
  IsIdle s = (a : String) → ltb_ℤ (pos 0) (get_removal_queue ext a s).count ≡ false

  -- The signer of a message is not the module itself.
  abbrev pub IsOutside : String → Type 0
  IsOutside signer =
      (a : Bytes)
      → bech32.acc_from_bech32 signer ≡ some a
      → bytes_eq a (module_address module_name) ≡ false

  pub queues-IsIdle : (s t : State ext) → t.removal_queues ≡ s.removal_queues → IsIdle s → IsIdle t
  unfolding IsIdle get_removal_queue
  queues-IsIdle s t same idle a = rw same (idle a)

  serve_queue-IsIdle :
      (m : LiquidityMsg) (n : ℕ) (s t : State ext)
      → IsIdle s
      → serve_queue ext m n s ≡ (ok tt, t)
      → s ≡ t
  unfolding IsIdle serve_queue
  serve_queue-IsIdle m n s t idle h = ground (arith, idle m.external_asset)

  find_or_create-IsFramed :
      (m : LiquidityMsg) (a : Bytes) (n : ℕ) (s t : State ext) (x : LiquidityProvider × ℕ)
      → find_or_create ext m a n s ≡ (ok x, t)
      → IsFramed ext s t
  unfolding find_or_create get_liquidity_provider create_liquidity_provider set_liquidity_provider
  find_or_create-IsFramed m a n s t x h = record {
    pools = ground arith;
    coins = ground arith;
    queues = ground arith;
  }

  put_with_provider-IsPlaced :
      (q : Pool) (lp : LiquidityProvider) (s t : State ext)
      → (wrap Error.unable_to_set_pool (set_pool ext q) >> set_liquidity_provider ext lp) s
        ≡ (ok tt, t)
      → IsPlaced ext q s t
  put_with_provider-IsPlaced q lp s t h =
      let (_, u, put, last) =
        >>=-eq-ok (wrap Error.unable_to_set_pool (set_pool ext q))
          (λ _. set_liquidity_provider ext lp) s h in
      IsPlaced-IsFramed ext q s u t (put_pool-IsPlaced ext q s u put)
        (set_liquidity_provider-IsFramed ext lp u t last)

  write_addition-IsPlaced :
      (m : LiquidityMsg) (q : Pool) (a : Bytes) (n : ℕ) (s t : State ext)
      → write_addition ext m q a n s ≡ (ok tt, t)
      → IsPlaced ext q s t
  unfolding write_addition
  write_addition-IsPlaced m q a n s t h =
      let (x, u, found, h1) =
        >>=-eq-ok (find_or_create ext m a n)
          (λ (lp, more). or_panic (uint_add lp.liquidity_provider_units more) >>= λ units.
            wrap Error.unable_to_set_pool (set_pool ext q)
            >> set_liquidity_provider ext (record lp { liquidity_provider_units = units }))
          s h in
      elim (Option-cases (uint_add x.0.liquidity_provider_units x.1)) [
        | inl e ↦ absurd (ground arith)
        | inr (units, e) ↦
            IsFramed-IsPlaced ext q s u t (find_or_create-IsFramed m a n s u x found) (
              put_with_provider-IsPlaced q (record (x.0) { liquidity_provider_units = units }) u t
                (ground arith))
      ]

  -- What is framed is kept.
  pub IsFramed-IsKept : (s t : State ext) → IsKept ext s → IsFramed ext s t → IsKept ext t
  IsFramed-IsKept s t kept framed = record {
    keyed = subst IsKeyed (sym framed.pools) kept.keyed;
    covered = λ d. omega (
      arith,
      kept.covered d,
      ap (total_by (deposit d)) framed.pools,
      ap (λ c. bank.balance c (module_address module_name) d) framed.coins,
    );
  }

  module _ (laws : BankLaws bank)
      (parsed : (n : ℕ) (i : ℤ) → ext.parse_to_int n ≡ some i → i ≡ pos n)
      (added : (l : List (String × ℤ)) (c : bank.Coins)
        → ext.add_coins l ≡ some c
        → (d : String) → amount_of c d ≡ total_of d l) where
    after_frame-IsKept :
        (s u t : State ext)
        → IsKept ext u × (u.removal_queues ≡ s.removal_queues)
        → IsFramed ext u t
        → IsKept ext t × (t.removal_queues ≡ s.removal_queues)
    after_frame-IsKept s u t (kept, queues) framed =
        (IsFramed-IsKept u t kept framed, framed.queues ∙ queues)

    -- The coins of a message come in, and then a pool is put that holds them.
    paid_then_put-IsKept :
        (m : LiquidityMsg) (q : Pool) (s u t : State ext)
        → IsKept ext s
        → IsDeposited ext laws parsed added m s u
        → IsPlaced ext q u t
        → ((d : String)
            → total_by (deposit d) (set (get_pool_key q.external_asset native_symbol) q s.pools)
              ≡ total_by (deposit d) s.pools
                + of_denom m.external_asset d m.external_asset_amount
                + of_denom native_symbol d m.native_asset_amount)
        → IsKept ext t × (t.removal_queues ≡ s.removal_queues)
    paid_then_put-IsKept m q s u t kept (pools, queues, into) put more =
        let after : t.pools ≡ set (get_pool_key q.external_asset native_symbol) q s.pools =
          put.pools ∙ ap (λ l. set (get_pool_key q.external_asset native_symbol) q l) pools in
        (
          record {
            keyed = subst IsKeyed (sym after) (set-IsKeyed q s.pools kept.keyed);
            covered = λ d. omega (
              arith,
              kept.covered d,
              into d,
              more d,
              ap (total_by (deposit d)) after,
              ap (λ c. bank.balance c (module_address module_name) d) put.coins,
            );
          },
          put.queues ∙ queues,
        )

    create_pool-IsKept :
        (n : ℕ) (m : LiquidityMsg) (s t : State ext)
        → IsKept ext s
        → IsOutside m.signer
        → has (get_pool_key m.external_asset native_symbol) s.pools ≡ false
        → create_pool ext n m s ≡ (ok tt, t)
        → IsKept ext t × (t.removal_queues ≡ s.removal_queues)
    unfolding create_pool new_pool
    create_pool-IsKept n m s t kept other fresh h =
        let q = new_pool m.external_asset m.native_asset_amount m.external_asset_amount n in
        let (_, u, paid, put) =
          >>=-eq-ok (deposit_new ext m) (λ _. wrap Error.unable_to_set_pool (set_pool ext q)) s h in
        paid_then_put-IsKept m q s u t kept
          (deposit_new-state ext laws parsed added m s u paid other)
          (put_pool-IsPlaced ext q u t put)
          (λ d.
            omega (arith, put_new d (get_pool_key m.external_asset native_symbol) q s.pools fresh))

    pub handle_create_pool-IsKept :
        (m : LiquidityMsg) (s t : State ext)
        → IsKept ext s
        → IsOutside m.signer
        → handle_create_pool ext m s ≡ (ok tt, t)
        → IsKept ext t × (t.removal_queues ≡ s.removal_queues)
    unfolding handle_create_pool
    handle_create_pool-IsKept m s t kept other h =
        let (a, u, checked, h1) =
          >>=-eq-ok (check_creation ext m)
            (λ a.
              wrap Error.unable_to_set_pool (create_pool ext a.pool_units m)
              >> first_provider ext m a.lp_units)
            s h in
        let (_, v, made, last) =
          >>=-eq-ok (wrap Error.unable_to_set_pool (create_pool ext a.pool_units m))
            (λ _. first_provider ext m a.lp_units) u h1 in
        let (same, fresh) = check_creation-state ext m s u a checked in
        after_frame-IsKept s v t
          (create_pool-IsKept a.pool_units m s v kept other fresh (
            subst (λ u. create_pool ext a.pool_units m u ≡ (ok tt, v)) (sym same)
              (wrap-ok ext Error.unable_to_set_pool (create_pool ext a.pool_units m) u v made)))
          (first_provider-IsFramed ext m a.lp_units v t last)

    add_liquidity-IsKept :
        (m : LiquidityMsg) (p : Pool) (n k : ℕ) (s t : State ext)
        → IsKept ext s
        → IsOutside m.signer
        → lookup (get_pool_key m.external_asset native_symbol) s.pools ≡ some p
        → add_liquidity ext m p n k s ≡ (ok tt, t)
        → IsKept ext t × (t.removal_queues ≡ s.removal_queues)
    unfolding add_liquidity
    add_liquidity-IsKept m p n k s t kept other found h =
        let (a, u, paid, h1) =
          >>=-eq-ok (deposit_more ext m)
            (λ a. or_panic (enlarge ext m p n) >>= λ q. write_addition ext m q a k) s h in
        elim (Option-cases (enlarge ext m p n)) [
          | inl e ↦ absurd (ground arith)
          | inr (q, e) ↦
              paid_then_put-IsKept m q s u t kept
                (deposit_more-state ext laws parsed added m s u a paid other)
                (write_addition-IsPlaced m q a k u t (ground arith))
                (λ d.
                  let (same, larger) = enlarge-deposit ext m p q n d e in
                  let (own, total) =
                    put_back m.external_asset d p q s.pools kept.keyed found same in
                  omega (arith, larger, total, ap (λ c. of_denom c d m.external_asset_amount) own))
        ]

    added_then_served :
        (m : LiquidityMsg) (p : Pool) (a : Addition) (s u v t : State ext)
        → IsKept ext s
        → IsIdle s
        → IsOutside m.signer
        → lookup (get_pool_key m.external_asset native_symbol) s.pools ≡ some p
        → IsFramed ext s u
        → add_liquidity ext m p a.pool_units a.lp_units u ≡ (ok tt, v)
        → serve_queue ext m a.pool_units v ≡ (ok tt, t)
        → IsKept ext t × (t.removal_queues ≡ s.removal_queues)
    added_then_served m p a s u v t kept idle other found framed made served =
        let (kept', queues) =
          add_liquidity-IsKept m p a.pool_units a.lp_units u v (IsFramed-IsKept s u kept framed)
            other (ap (lookup (get_pool_key m.external_asset native_symbol)) framed.pools ∙ found)
            made in
        let same =
          serve_queue-IsIdle m a.pool_units v t (queues-IsIdle s v (queues ∙ framed.queues) idle)
            served in
        (
          subst (IsKept ext) same kept',
          ap (λ (z : State ext). z.removal_queues) (sym same) ∙ queues ∙ framed.queues,
        )

    pub handle_add_liquidity-IsKept :
        (m : LiquidityMsg) (s t : State ext)
        → IsKept ext s
        → IsIdle s
        → IsOutside m.signer
        → handle_add_liquidity ext m s ≡ (ok tt, t)
        → IsKept ext t × (t.removal_queues ≡ s.removal_queues)
    unfolding handle_add_liquidity
    handle_add_liquidity-IsKept m s t kept idle other h =
        let ((p, a), u, planned, h1) =
          >>=-eq-ok (plan_addition ext m)
            (λ (p, a).
              wrap Error.unable_to_add_liquidity (add_liquidity ext m p a.pool_units a.lp_units)
              >> serve_queue ext m a.pool_units)
            s h in
        let (_, v, made, last) =
          >>=-eq-ok
            (wrap Error.unable_to_add_liquidity (add_liquidity ext m p a.pool_units a.lp_units))
            (λ _. serve_queue ext m a.pool_units) u h1 in
        let (found, framed) = plan_addition-state ext m s u p a planned in
        added_then_served m p a s u v t kept idle other found framed
          (wrap-ok ext Error.unable_to_add_liquidity (add_liquidity ext m p a.pool_units a.lp_units)
            u v made)
          last
