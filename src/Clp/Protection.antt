-- ===== src/Clp/Protection.antt =====
-- x/clp/keeper/liquidityprotection.go, with the value of fury of calculations.go.
use furynode.Prelude.{ℕ, ◌*◌, ◌^◌, ◌==◌, Bool, false, Option, none, some, ltb, if◌then◌else◌}
use furynode.Prelude.Int.{ℤ, pos, ◌+ℤ◌, ◌-ℤ◌}
use furynode.Prelude.Text.{str_eq}
use furynode.Chain.Action.{
  Action, Outcome, ok, err, panic, Error, ◌>>=◌, pure, or_panic, gets, modify, wrap,
}
use furynode.Clp.Rat.{new_uint, uint_add, uint_sub}
use furynode.Clp.Pool.{Pool, native_symbol, extract_debt}
use furynode.Clp.Keeper.{Externals, State, get_pool}

-- `sdk.NewDecFromBigInt`, and the decimal one.
abbrev pub dec_of : ℕ → ℤ
dec_of n = pos (n * 10 ^ 18)

module _ (ext : Externals) where
  unfoldable pub calc_fury_value : ℕ → ℤ → Option ℕ
  unfolding new_uint
  calc_fury_value amount price = new_uint (ext.round_int (ext.dec_mul price (dec_of amount)))

  -- The value is a conversion that is not checked; the difference is.
  unfoldable pub calculate_discounted_sent_amount : ℕ → ℤ → Option ℕ
  unfolding new_uint ◌-ℤ◌
  calculate_discounted_sent_amount sent fee_rate =
      new_uint (pos sent -ℤ ext.round_int (ext.dec_mul (dec_of sent) fee_rate))

  unfoldable pub calc_fury_spot_price : Pool → ℤ → Outcome ℤ
  unfolding extract_debt ◌+ℤ◌
  calc_fury_spot_price p pmtp_rate =
      elim (extract_debt p p.native_asset_balance p.external_asset_balance false) [
        | none ↦ panic
        | some (fury, external) ↦
            if fury == 0
            then err Error.in_valid_amount
            else elim (ext.dec_quo (dec_of external) (dec_of fury)) [
              | none ↦ panic
              | some unadjusted ↦ ok (ext.dec_mul unadjusted (pmtp_rate +ℤ dec_of 1))
            ]
      ]

  unfoldable pub get_native_price : Action (State ext) ℤ
  unfolding calc_fury_spot_price get_pool
  get_native_price = do
    asset ← gets (λ s. s.protection_params.max_fury_liquidity_threshold_asset)
    if str_eq asset native_symbol
        then pure (dec_of 1)
        else (wrap Error.max_fury_liquidity_threshold_asset_pool_does_not_exist (get_pool ext asset)
            >>= λ p s. (calc_fury_spot_price p s.pmtp_current_running_rate, s))

  unfoldable pub is_blocked_by_liquidity_protection : ℕ → ℤ → Action (State ext) Bool
  unfolding calc_fury_value
  is_blocked_by_liquidity_protection amount price = do
    value ← or_panic (calc_fury_value amount price)
    gets (λ s. ltb s.current_fury_liquidity_threshold value)

  -- The threshold after a sale or a purchase of this value; `none` is a panic.
  unfoldable pub updated_threshold : Bool → ℕ → ℕ → ℕ → Option ℕ
  unfolding uint_add uint_sub
  updated_threshold sell_native max current value =
      if sell_native
      then (if ltb current value then none else uint_sub current value)
      else elim (uint_sub max current) [
        | none ↦ none
        | some room ↦ if ltb room value then some max else uint_add current value
      ]

  unfoldable pub must_update_liquidity_protection_threshold :
      Bool → ℕ → ℤ → Action (State ext) (Unit {0})
  unfolding calc_fury_value updated_threshold
  must_update_liquidity_protection_threshold sell_native amount price = do
    params ← gets (λ s. s.protection_params)
    current ← gets (λ s. s.current_fury_liquidity_threshold)
    if params.is_active
        then (or_panic (calc_fury_value amount price) >>= λ value.
            or_panic
              (updated_threshold sell_native params.max_fury_liquidity_threshold current value)
            >>= λ updated. modify (λ s. record s { current_fury_liquidity_threshold = updated }))
        else pure tt
