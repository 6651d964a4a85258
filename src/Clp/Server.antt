-- ===== src/Clp/Server.antt =====
-- x/clp/keeper/msg_server.go: the message of a swap.
use furynode.Prelude.{
  ℕ, true, false, not, ◌&&◌, Option, none, some, [], ◌∷◌, String, ltb, if◌then◌else◌,
}
use furynode.Prelude.Int.{ℤ}
use furynode.Prelude.Text.{str_eq}
use furynode.Chain.Action.{
  Action, panic, Error, ◌>>=◌, ◌>>◌, pure, fail_if, or_fail, or_panic, gets, wrap,
}
use furynode.TokenRegistry.Keeper.{
  clp, disable_buy, disable_sell, RegistryEntry, get_entry, check_entry_permissions,
}
use furynode.Clp.Rat.{uint_add}
use furynode.Clp.Pool.{Pool, Swapped, native_symbol, is_settlement_asset, swap_one, get_swap_fee}
use furynode.Clp.Keeper.{
  Externals, State, set_pool, get_pool, get_swap_fee_rate, initiate_swap, finalize_swap,
}
use furynode.Clp.Protection.{
  get_native_price, is_blocked_by_liquidity_protection, calculate_discounted_sent_amount,
  must_update_liquidity_protection_threshold,
}

pub record SwapMsg : Type 0 where
  pub signer : String
  pub sent_asset : String
  pub received_asset : String
  pub sent_amount : ℕ
  pub min_receiving_amount : ℕ

module _ (ext : Externals) where
  open ext use {bech32}

  -- The entries of the two tokens, and what they permit.
  unfoldable pub check_tokens : SwapMsg → Action (State ext) (RegistryEntry × RegistryEntry)
  unfolding get_entry check_entry_permissions
  check_tokens m = do
    registry ← gets (λ s. s.registry)
    sent ← wrap Error.token_not_supported (λ s. (get_entry registry m.sent_asset, s))
    received ← wrap Error.token_not_supported (λ s. (get_entry registry m.received_asset, s))
    fail_if (not (check_entry_permissions sent (clp ∷ []))) Error.permission_denied
    fail_if (not (check_entry_permissions received (clp ∷ []))) Error.permission_denied
    fail_if (check_entry_permissions sent (disable_sell ∷ [])) Error.not_allowed_to_sell_asset
    fail_if (check_entry_permissions received (disable_buy ∷ [])) Error.not_allowed_to_buy_asset
    pure (sent, received)

  -- The price for the liquidity protection, where it is active, and the check of a sale of fury.
  unfoldable pub protect : SwapMsg → RegistryEntry → Action (State ext) (Option ℤ)
  unfolding get_native_price is_blocked_by_liquidity_protection
  protect m sent = do
    active ← gets (λ s. s.protection_params.is_active)
    if active
        then (get_native_price ext >>= λ price.
            (if str_eq sent.denom native_symbol
              then is_blocked_by_liquidity_protection ext m.sent_amount price
              else pure false)
            >>= λ blocked.
                fail_if blocked Error.reached_max_fury_liquidity_threshold >> pure (some price))
        else pure none

  -- Between two tokens that are not fury: the first leg, into fury, in the pool of the sent one. The
  -- amount and the fee that the second leg begins with.
  unfoldable pub first_leg : SwapMsg → Option Pool → ℤ → ℤ → Action (State ext) (ℕ × String × ℕ × ℕ)
  unfolding swap_one set_pool
  first_leg m in_pool pmtp_rate fee_rate =
      if not (is_settlement_asset m.sent_asset) && not (is_settlement_asset m.received_asset)
      then elim in_pool [
        | none ↦ λ s. (panic, s)
        | some p ↦
            (λ s. (swap_one m.sent_asset m.sent_amount native_symbol p pmtp_rate fee_rate, s))
            >>= λ w.
                wrap Error.unable_to_set_pool (set_pool ext w.pool)
                >> pure (w.swap_result, native_symbol, w.price_impact, w.liquidity_fee)
      ]
      else pure (m.sent_amount, m.sent_asset, 0, 0)

  -- The fee of the event.
  unfoldable pub total_liquidity_fee : SwapMsg → Pool → ℕ → ℕ → ℤ → ℤ → Option ℕ
  unfolding get_swap_fee uint_add
  total_liquidity_fee m out_pool fee_native fee pmtp_rate fee_rate =
      if ltb 0 fee_native
      then elim (get_swap_fee fee_native m.received_asset out_pool pmtp_rate fee_rate) [
        | none ↦ none
        | some first ↦ uint_add fee first
      ]
      else uint_add fee_native fee

  unfoldable pub update_protection :
      SwapMsg → RegistryEntry → RegistryEntry → Option ℤ → ℤ → ℕ → Action (State ext) (Unit {0})
  unfolding must_update_liquidity_protection_threshold calculate_discounted_sent_amount
  update_protection m sent received priced fee_rate emitted = do
    active ← gets (λ s. s.protection_params.is_active)
    if active
        then (or_panic priced >>= λ price.
            (if str_eq sent.denom native_symbol
              then (or_panic (calculate_discounted_sent_amount ext m.sent_amount fee_rate)
                  >>= λ amount. must_update_liquidity_protection_threshold ext true amount price)
              else pure tt)
            >> (if str_eq received.denom native_symbol
                then must_update_liquidity_protection_threshold ext false emitted price
                else pure tt))
        else pure tt

  -- The pool of the sent asset, unless fury is sent.
  unfoldable pub find_in_pool : SwapMsg → Action (State ext) (Option Pool)
  unfolding get_pool
  find_in_pool m =
      if is_settlement_asset m.sent_asset
      then pure none
      else (wrap Error.pool_does_not_exist (get_pool ext m.sent_asset) >>= λ p. pure (some p))

  unfoldable pub find_out_pool : SwapMsg → Action (State ext) Pool
  unfolding get_pool
  find_out_pool m = wrap Error.pool_does_not_exist (
      get_pool ext
        (if is_settlement_asset m.received_asset then m.sent_asset else m.received_asset))

  -- The payment in. The pool of the sent asset is read before it.
  unfoldable pub pay_in : SwapMsg → Action (State ext) (Option Pool)
  unfolding find_in_pool initiate_swap
  pay_in m = do
    in_pool ← find_in_pool m
    amount ← or_fail (ext.parse_to_int m.sent_amount) Error.unable_to_parse_int
    a ← or_fail (bech32.acc_from_bech32 m.signer) Error.sdk_error
    wrap Error.unable_to_swap (initiate_swap ext m.sent_asset amount a)
    pure in_pool

  -- The payment out, and the totals of the event.
  unfoldable pub pay_out : SwapMsg → Pool → ℕ → ℕ → ℤ → ℤ → Swapped → Action (State ext) ℕ
  unfolding finalize_swap total_liquidity_fee uint_add
  pay_out m out_pool impact fee_native pmtp_rate fee_rate w = do
    fail_if (ltb w.swap_result m.min_receiving_amount) Error.received_amount_below_expected
    wrap Error.unable_to_swap (finalize_swap ext w.swap_result w.pool m.signer m.received_asset)
    fee ← or_panic (total_liquidity_fee m out_pool fee_native w.liquidity_fee pmtp_rate fee_rate)
    total_impact ← or_panic (uint_add impact w.price_impact)
    pure w.swap_result

  -- The leg into the received asset.
  unfoldable pub second_leg : SwapMsg → ℤ → ℤ → ℕ × String × ℕ × ℕ → Action (State ext) ℕ
  unfolding find_out_pool swap_one pay_out
  second_leg m pmtp_rate fee_rate (x, from, impact, fee_native) = do
    out_pool ← find_out_pool m
    w ← (λ s. (swap_one from x m.received_asset out_pool pmtp_rate fee_rate, s))
    pay_out m out_pool impact fee_native pmtp_rate fee_rate w

  unfoldable pub exchange : SwapMsg → ℤ → ℤ → Action (State ext) ℕ
  unfolding pay_in first_leg second_leg
  exchange m pmtp_rate fee_rate = do
    in_pool ← pay_in m
    leg ← first_leg m in_pool pmtp_rate fee_rate
    second_leg m pmtp_rate fee_rate leg

  unfoldable pub swap : SwapMsg → Action (State ext) (Unit {0})
  unfolding check_tokens get_swap_fee_rate protect exchange update_protection
  swap m = do
    (sent, received) ← check_tokens m
    pmtp_rate ← gets (λ s. s.pmtp_current_running_rate)
    fee_rate ← gets (get_swap_fee_rate ext m.sent_asset false)
    priced ← protect m sent
    emitted ← exchange m pmtp_rate fee_rate
    update_protection m sent received priced fee_rate emitted
