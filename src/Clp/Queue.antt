-- ===== src/Clp/Queue.antt =====
-- x/clp/keeper/removalqueue.go, and executors.go: a removal of liquidity that is taken from the
-- queue.
use Prim.Native.String.{slice, len}
use furynode.Prelude.{
  ℕ, ◌==◌, Bool, false, not, ◌||◌, ◌&&◌, Option, none, some, List, [], ◌∷◌, String, leb,
  if◌then◌else◌,
}
use furynode.Prelude.Int.{ℤ, pos, negsuc, ◌+ℤ◌, ◌-ℤ◌, ltb_ℤ, leb_ℤ, residue}
use furynode.Prelude.Text.{str_eq}
use furynode.Prelude.Dict.{Dict, lookup, delete}
use furynode.Prelude.Store.{set, values}
use furynode.Chain.Action.{
  Action, Error, ◌>>=◌, ◌>>◌, pure, fail_if, or_fail, or_panic, gets, modify, wrap, recover,
}
use furynode.TokenRegistry.Keeper.{get_entry}
use furynode.Clp.Rat.{uint_add, uint_sub}
use furynode.Clp.Pool.{Pool, native_symbol, swap_one, extract_debt}
use furynode.Clp.Provider.{
  LiquidityProvider, RemoveLiquidityMsg, RemovalRequest, RemovalQueue, get_removal_request_key,
  get_removal_queue_key, add_int64,
}
use furynode.Clp.Keeper.{Externals, State, get_pool, get_swap_fee_rate}
use furynode.Clp.Withdrawal.{
  Withdrawal, uint_quo, calculate_withdrawal, calculate_withdrawal_fury_value,
  conv_w_basis_points_to_units, conv_units_to_w_basis_points,
}
use furynode.Clp.Providers.{get_liquidity_provider}
use furynode.Clp.Executors.{LiquidityMsg, new_coin, remove_liquidity}

unfoldable pub starts_with : String → String → Bool
starts_with prefix s = str_eq (slice s 0 (len prefix)) prefix

-- The requests of the keys with a prefix, in order.
unfoldable pub with_prefix : String → Dict RemovalRequest → List RemovalRequest
unfolding starts_with
with_prefix prefix [] = []
with_prefix prefix ((k, r) ∷ l) =
    if starts_with prefix k then r ∷ with_prefix prefix l else with_prefix prefix l

-- The pool less a withdrawal; `none` is the panic below zero.
unfoldable pub less_withdrawal : Pool → LiquidityProvider → Withdrawal → Option Pool
unfolding uint_sub uint_add
less_withdrawal p lp w = elim (uint_sub p.pool_units lp.liquidity_provider_units) [
  | none ↦ none
  | some others ↦ elim (uint_add others w.units_left) [
    | none ↦ none
    | some units ↦ elim (uint_sub p.native_asset_balance w.native) [
      | none ↦ none
      | some native ↦ elim (uint_sub p.external_asset_balance w.external) [
        | none ↦ none
        | some external ↦ some (record p {
          pool_units = units;
          native_asset_balance = native;
          external_asset_balance = external;
        })
      ]
    ]
  ]
]

-- `coin.Sub`, which panics below zero.
unfoldable pub coin_sub : String × ℤ → ℤ → Option (String × ℤ)
unfolding ◌-ℤ◌
coin_sub c amount = if ltb_ℤ c.1 amount then none else some (c.0, c.1 -ℤ amount)

abbrev coin_add : String × ℤ → ℤ → String × ℤ
coin_add c amount = (c.0, c.1 +ℤ amount)

-- Whether an asymmetric removal empties a side of the pool.
abbrev pub is_too_shallow : RemoveLiquidityMsg → Pool → Bool
is_too_shallow m p =
    not (leb_ℤ m.asymmetry (pos 0) && leb_ℤ (pos 0) m.asymmetry)
    && (p.external_asset_balance == 0 || p.native_asset_balance == 0)

module _ (ext : Externals) where
  unfoldable pub get_removal_queue : String → State ext → RemovalQueue
  unfolding get_removal_queue_key lookup
  get_removal_queue symbol s = elim (lookup (get_removal_queue_key symbol) s.removal_queues) [
    | none ↦ record { count = pos 0; id = pos 0; start_height = pos 0; total_value = 0 }
    | some q ↦ q
  ]

  unfoldable pub set_removal_queue : RemovalQueue → String → Action (State ext) (Unit {0})
  unfolding get_removal_queue_key
  set_removal_queue q symbol =
      modify
        (λ s. record s { removal_queues = set (get_removal_queue_key symbol) q s.removal_queues })

  abbrev put_request : RemovalRequest → Action (State ext) (Unit {0})
  put_request r =
      modify
        (λ s. record s { removal_requests = set (get_removal_request_key r) r s.removal_requests })

  unfoldable pub queue_removal : RemoveLiquidityMsg → ℕ → Action (State ext) (Unit {0})
  unfolding get_removal_queue set_removal_queue get_removal_request_key add_int64 uint_add
  queue_removal m fury_value = do
    q ← gets (get_removal_queue m.external_asset)
    let id = add_int64 q.id (pos 1)
    let count = add_int64 q.count (pos 1)
    put_request (record { id = id; value = fury_value; msg = m })
    total ← or_panic (uint_add q.total_value fury_value)
    height ← gets (λ s. s.height)
    set_removal_queue
        (record {
          count = count;
          id = id;
          start_height =
              if leb_ℤ count (pos 1) && leb_ℤ (pos 1) count then height else q.start_height;
          total_value = total;
        })
        m.external_asset

  unfoldable pub dequeue_removal_request : RemovalRequest → Action (State ext) (Unit {0})
  unfolding get_removal_queue set_removal_queue get_removal_request_key add_int64 delete
  dequeue_removal_request r = do
    modify
        (λ s. record s { removal_requests = delete (get_removal_request_key r) s.removal_requests })
    q ← gets (get_removal_queue r.msg.external_asset)
    set_removal_queue (record q { count = add_int64 q.count (negsuc 0) }) r.msg.external_asset

  unfoldable pub set_processed_removal_request :
      RemovalRequest → ℤ → ℕ → Action (State ext) (Unit {0})
  unfolding get_removal_queue set_removal_queue dequeue_removal_request uint_sub ◌-ℤ◌
  set_processed_removal_request r points_processed fury_removed = do
    let left = r.msg.w_basis_points -ℤ points_processed
    let processed = record r { msg = record r.msg { w_basis_points = left } }
    put_request processed
    q ← gets (get_removal_queue r.msg.external_asset)
    total ← or_panic (uint_sub q.total_value fury_removed)
    set_removal_queue (record q { total_value = total }) r.msg.external_asset
    if leb_ℤ left (pos 0) then dequeue_removal_request processed else pure tt

  -- The units of the requests of a provider for its asset; `none` is a panic.
  unfoldable pub queued_units : LiquidityProvider → List RemovalRequest → ℕ → Option ℕ
  unfolding conv_w_basis_points_to_units uint_add
  queued_units lp [] units = some units
  queued_units lp (r ∷ l) units =
      if str_eq lp.asset r.msg.external_asset
      then elim (conv_w_basis_points_to_units lp.liquidity_provider_units r.msg.w_basis_points) [
        | none ↦ none
        | some n ↦ elim (uint_add units n) [ none ↦ none | some sum ↦ queued_units lp l sum ]
      ]
      else queued_units lp l units

  -- The keys begin with the text of the provider's address.
  unfoldable pub get_removal_queue_units_for_lp : LiquidityProvider → State ext → Option ℕ
  unfolding queued_units with_prefix
  get_removal_queue_units_for_lp lp s =
      queued_units lp (with_prefix lp.liquidity_provider_address s.removal_requests) 0

  -- The two coins of a withdrawal, and the pool without them.
  unfoldable pub take_out :
      String
      → Pool
      → LiquidityProvider
      → Withdrawal
      → Action (State ext) (Pool × (String × ℤ) × (String × ℤ))
  unfolding new_coin less_withdrawal
  take_out symbol p lp w = do
    external_amount ← or_fail (ext.parse_to_int w.external) Error.unable_to_parse_int
    native_amount ← or_fail (ext.parse_to_int w.native) Error.unable_to_parse_int
    external ← or_panic (new_coin ext symbol external_amount)
    native ← or_panic (new_coin ext native_symbol native_amount)
    q ← or_panic (less_withdrawal p lp w)
    pure (q, external, native)

  -- The amounts of a swap that moved the coins, where it gave anything.
  unfoldable pub move_swapped :
      String × ℤ → String × ℤ → ℕ → ℕ → Action (State ext) ((String × ℤ) × (String × ℤ))
  unfolding coin_sub new_coin ◌+ℤ◌
  move_swapped into from swap_result swap_amount =
      if swap_result == 0 then pure (into, from) else (do
        result ← or_fail (ext.parse_to_int swap_result) Error.unable_to_parse_int
        amount ← or_fail (ext.parse_to_int swap_amount) Error.unable_to_parse_int
        c ← or_panic (new_coin ext into.0 result)
        d ← or_panic (new_coin ext from.0 amount)
        from' ← or_panic (coin_sub from amount)
        pure (coin_add into result, from'))

  -- The swap of an asymmetric removal.
  unfoldable pub adjust :
      RemoveLiquidityMsg
      → ℕ
      → ℤ
      → ℤ
      → ℤ
      → Pool × (String × ℤ) × (String × ℤ)
      → Action (State ext) (Pool × (String × ℤ) × (String × ℤ))
  unfolding swap_one move_swapped
  adjust m swap_amount pmtp_rate external_rate native_rate (p, external, native) =
      if ltb_ℤ (pos 0) m.asymmetry
      then (do
        w ←
            wrap Error.unable_to_swap (λ s.
              (swap_one native_symbol swap_amount m.external_asset p pmtp_rate native_rate, s))
        (e, n) ← move_swapped external native w.swap_result swap_amount
        pure (w.pool, e, n))
      else if ltb_ℤ m.asymmetry (pos 0)
      then (do
        w ← wrap Error.unable_to_swap (λ s.
            (swap_one m.external_asset swap_amount native_symbol p pmtp_rate external_rate, s))
        (n, e) ← move_swapped native external w.swap_result swap_amount
        pure (w.pool, e, n))
      else pure (p, external, native)

  -- The value in fury of what was removed.
  unfoldable pub process_remove_liquidity_msg : RemoveLiquidityMsg → Action (State ext) ℕ
  unfolding get_entry get_pool get_liquidity_provider get_swap_fee_rate extract_debt
      calculate_withdrawal calculate_withdrawal_fury_value take_out adjust remove_liquidity uint_add
  process_remove_liquidity_msg m = do
    registry ← gets (λ s. s.registry)
    entry ← wrap Error.token_not_supported (λ s. (get_entry registry m.external_asset, s))
    p ← wrap Error.pool_does_not_exist (get_pool ext m.external_asset)
    lp ← get_liquidity_provider ext m.external_asset m.signer
    pmtp_rate ← gets (λ s. s.pmtp_current_running_rate)
    external_rate ← gets (get_swap_fee_rate ext m.external_asset false)
    native_rate ← gets (get_swap_fee_rate ext native_symbol false)
    depth ← or_panic (extract_debt p p.native_asset_balance p.external_asset_balance false)
    w ← or_panic (
        calculate_withdrawal ext p.pool_units depth.0 depth.1 lp.liquidity_provider_units
          m.w_basis_points m.asymmetry)
    value ←
        or_panic
          (calculate_withdrawal_fury_value w.external native_symbol p pmtp_rate external_rate)
    taken ← take_out m.external_asset p lp w
    fail_if (is_too_shallow m taken.0) Error.pool_too_shallow
    (q, external, native) ← adjust m w.swap_amount pmtp_rate external_rate native_rate taken
    wrap Error.unable_to_remove_liquidity (
        remove_liquidity ext q external native lp w.units_left p.external_asset_balance
          p.native_asset_balance)
    or_panic (uint_add value w.native)

  -- A request of the queue, of this many units at most. A failed one leaves what it wrote.
  unfoldable pub process_request : String → ℕ → RemovalRequest → Action (State ext) (Unit {0})
  unfolding get_liquidity_provider conv_w_basis_points_to_units conv_units_to_w_basis_points
      process_remove_liquidity_msg set_processed_removal_request
  process_request symbol per_request r =
      recover (get_liquidity_provider ext r.msg.external_asset r.msg.signer)
        (λ lp.
          or_panic (conv_w_basis_points_to_units lp.liquidity_provider_units r.msg.w_basis_points)
          >>= λ requested.
              let units = if leb requested per_request then requested else per_request in
              or_panic (conv_units_to_w_basis_points ext lp.liquidity_provider_units units)
              >>= λ points.
                  recover
                    (process_remove_liquidity_msg (record {
                      signer = r.msg.signer;
                      external_asset = symbol;
                      w_basis_points = points;
                      asymmetry = r.msg.asymmetry;
                    }))
                    (λ value. set_processed_removal_request r points value) (λ _. pure tt))
        (λ _. pure tt)

  unfoldable pub process_requests : String → ℕ → List RemovalRequest → Action (State ext) (Unit {0})
  unfolding process_request
  process_requests symbol per_request [] = pure tt
  process_requests symbol per_request (r ∷ l) =
      if str_eq symbol r.msg.external_asset
      then (process_request symbol per_request r >> process_requests symbol per_request l)
      else process_requests symbol per_request l

  unfoldable pub process_removal_queue : LiquidityMsg → ℕ → Action (State ext) (Unit {0})
  unfolding get_removal_queue uint_quo residue process_requests values
  process_removal_queue m units_to_distribute = do
    q ← gets (get_removal_queue m.external_asset)
    per_request ← or_panic (uint_quo units_to_distribute (residue q.count))
    requests ← gets (λ s. values s.removal_requests)
    process_requests m.external_asset per_request requests
