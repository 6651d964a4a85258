-- ===== src/Clp/Withdrawal.antt =====
-- x/clp/keeper/calculations.go: what a removal of liquidity withdraws.
use furynode.Prelude.{ℕ, ◌+◌, ◌/◌, ◌==◌, false, Option, none, some, String, if◌then◌else◌}
use furynode.Prelude.Int.{ℤ, pos, pos_part, neg_part, ltb_ℤ, ◌-ℤ◌}
use furynode.Clp.Rat.{new_uint, ◌>>=◌}
use furynode.Clp.Swap.{calc_swap_result}
use furynode.Clp.Pool.{Pool, extract_values, extract_debt}
use furynode.Clp.Provider.{LiquidityProvider}
use furynode.Clp.Keeper.{Externals}
use furynode.Clp.Protection.{dec_of}

pub record Withdrawal : Type 0 where
  pub native : ℕ
  pub external : ℕ
  pub units_left : ℕ
  pub swap_amount : ℕ

-- `sdk.Uint.Quo`, which panics on zero.
unfoldable pub uint_quo : ℕ → ℕ → Option ℕ
uint_quo a b = if b == 0 then none else some (a / b)

abbrev abs : ℤ → ℤ
abs a = pos (pos_part a + neg_part a)

module _ (ext : Externals) where
  open ext use {dec_quo, dec_from_str, truncate_int, round_int}

  -- The share of an asset that these units stand for, of all the units.
  unfoldable pub share_of : ℤ → ℤ → ℤ → Option ℤ
  share_of depth all units = do ratio ← dec_quo all units; dec_quo depth ratio

  -- The amount of the swap of an asymmetric removal, of one of the two assets.
  unfoldable pub swap_amount_of : ℤ → ℤ → ℤ → ℤ → ℤ → ℤ → Option ℤ
  unfolding share_of
  swap_amount_of native external all claim asymmetry skew =
      let swapped = λ (depth : ℤ). (do
        denominator ← dec_quo (dec_of 10000) (abs skew)
        units ← dec_quo claim denominator
        share_of depth all units) in
      if ltb_ℤ (pos 0) asymmetry
      then swapped native
      else if ltb_ℤ asymmetry (pos 0)
      then swapped external
      else some (pos 0)

  -- `none` is a panic.
  unfoldable pub calculate_withdrawal : ℕ → ℕ → ℕ → ℕ → ℤ → ℤ → Option Withdrawal
  unfolding share_of swap_amount_of new_uint ◌-ℤ◌
  calculate_withdrawal pool_units native_depth external_depth lp_units w_basis_points asymmetry = do
    native ← dec_from_str (pos native_depth)
    external ← dec_from_str (pos external_depth)
    lp ← dec_from_str (pos lp_units)
    w ← dec_from_str w_basis_points
    skew ← dec_from_str asymmetry
    denominator ← dec_quo (dec_of 10000) w
    claim ← dec_quo lp denominator
    withdraw_external ← share_of external (dec_of pool_units) claim
    withdraw_native ← share_of native (dec_of pool_units) claim
    swapped ← swap_amount_of native external (dec_of pool_units) claim asymmetry skew
    n ← new_uint (truncate_int withdraw_native)
    e ← new_uint (truncate_int withdraw_external)
    left ← new_uint (truncate_int (lp -ℤ claim))
    s ← new_uint (truncate_int swapped)
    some (record { native = n; external = e; units_left = left; swap_amount = s })

  unfoldable pub calculate_withdrawal_from_units : ℕ → ℕ → ℕ → ℕ → ℕ → Option Withdrawal
  unfolding share_of new_uint ◌-ℤ◌
  calculate_withdrawal_from_units pool_units native_depth external_depth lp_units units = do
    native ← dec_from_str (pos native_depth)
    external ← dec_from_str (pos external_depth)
    lp ← dec_from_str (pos lp_units)
    claim ← dec_from_str (pos units)
    withdraw_external ← share_of external (dec_of pool_units) claim
    withdraw_native ← share_of native (dec_of pool_units) claim
    n ← new_uint (round_int withdraw_native)
    e ← new_uint (round_int withdraw_external)
    left ← new_uint (round_int (lp -ℤ claim))
    some (record { native = n; external = e; units_left = left; swap_amount = 0 })

  unfoldable pub calculate_all_assets_for_lp : Pool → LiquidityProvider → Option Withdrawal
  unfolding extract_debt calculate_withdrawal
  calculate_all_assets_for_lp p lp = do
    (native, external) ← extract_debt p p.native_asset_balance p.external_asset_balance false
    calculate_withdrawal p.pool_units native external lp.liquidity_provider_units (pos 10000)
        (pos 0)

  unfoldable pub conv_units_to_w_basis_points : ℕ → ℕ → Option ℤ
  conv_units_to_w_basis_points total units = do
    total_dec ← dec_from_str (pos total)
    units_dec ← dec_from_str (pos units)
    ratio ← dec_quo total_dec units_dec
    w ← dec_quo (dec_of 10000) ratio
    some (truncate_int w)

unfoldable pub conv_w_basis_points_to_units : ℕ → ℤ → Option ℕ
unfolding new_uint uint_quo
conv_w_basis_points_to_units total w_basis_points = do
  w ← new_uint w_basis_points
  divisor ← uint_quo 10000 w
  uint_quo total divisor

-- The value of an amount in the asset `to`, swapped in the pool.
unfoldable pub calculate_withdrawal_fury_value : ℕ → String → Pool → ℤ → ℤ → Option ℕ
unfolding extract_values extract_debt calc_swap_result
calculate_withdrawal_fury_value sent to p pmtp_rate fee_rate =
    let (X, Y, to_fury) = extract_values p to in
    do
      (X', Y') ← extract_debt p X Y to_fury
      (value, _) ← calc_swap_result to_fury X' sent Y' pmtp_rate fee_rate
      some value
