-- ===== src/Clp/Pool.antt =====
-- x/clp/types/{types,asset,keys}.go and x/clp/keeper/calculations.go: a pool, and a swap in it.
use Prim.Native.String.{◌++◌ as text_append, len}
use furynode.Prelude.{
  ℕ, ◌+◌, ◌/◌, ◌==◌, Bool, true, false, not, Option, none, some, String, leb, if◌then◌else◌,
}
use furynode.Prelude.Int.{ℤ, pos}
use furynode.Prelude.Text.{str_eq}
use furynode.Chain.Action.{Outcome, ok, err, panic, Error}
use furynode.Clp.Rat.{new_uint, uint_add, uint_sub, ◌>>=◌}
use furynode.Clp.Swap.{calc_swap_result}

abbrev pub native_symbol : String
native_symbol = "fury"

-- An asset is its symbol.
pub record Pool : Type 0 where
  pub external_asset : String
  pub native_asset_balance : ℕ
  pub external_asset_balance : ℕ
  pub pool_units : ℕ
  pub swap_price_native : Option ℤ
  pub swap_price_external : Option ℤ
  pub reward_period_native_distributed : ℕ
  pub external_liabilities : ℕ
  pub external_custody : ℕ
  pub native_liabilities : ℕ
  pub native_custody : ℕ
  pub health : ℤ
  pub interest_rate : ℤ
  pub last_height_interest_rate_computed : ℤ
  pub unsettled_external_liabilities : ℕ
  pub unsettled_native_liabilities : ℕ
  pub block_interest_native : ℕ
  pub block_interest_external : ℕ

-- `GetPoolKey`, without the prefix.
unfoldable pub get_pool_key : String → String → String
get_pool_key external_ticker native_ticker =
    text_append external_ticker (text_append "_" native_ticker)

abbrev pub is_settlement_asset : String → Bool
is_settlement_asset a = str_eq a native_symbol

unfoldable pub verify_range : ℕ → ℕ → ℕ → Bool
verify_range num low high = if leb high num then false else (if leb num low then false else true)

-- `Asset.Validate`, with `strings.TrimSpace` and the validity of a denomination; `sdk.NewCoin`
-- panics on one that is not valid.
unfoldable pub validate_asset : (String → String) → (String → Bool) → String → Option Bool
unfolding verify_range
validate_asset trim_space valid_denom symbol =
    if not (verify_range (len (trim_space symbol)) 0 71)
    then some false
    else if valid_denom symbol
    then some true
    else none

-- The side that is paid in, the side that is paid out, and whether fury is paid out.
unfoldable pub extract_values : Pool → String → ℕ × ℕ × Bool
extract_values p to =
    if is_settlement_asset to
    then (p.external_asset_balance, p.native_asset_balance, true)
    else (p.native_asset_balance, p.external_asset_balance, false)

-- `none` is the panic of `sdk.Uint`.
unfoldable pub extract_debt : Pool → ℕ → ℕ → Bool → Option (ℕ × ℕ)
unfolding uint_add
extract_debt p X Y to_fury =
    if to_fury
    then (do
      y ← uint_add Y p.native_liabilities
      x ← uint_add X p.external_liabilities
      some (x, y))
    else (do
      x ← uint_add X p.native_liabilities
      y ← uint_add Y p.external_liabilities
      some (x, y))

unfoldable pub update_balances : Pool → Bool → ℕ → ℕ → ℕ → ℕ → Option Pool
unfolding uint_add uint_sub
update_balances p to_fury X x Y swap_result = do
  into ← uint_add X x
  out ← uint_sub Y swap_result
  some (
      if to_fury
      then record p { external_asset_balance = into; native_asset_balance = out }
      else record p { native_asset_balance = into; external_asset_balance = out })

unfoldable pub calc_price_impact : ℕ → ℕ → Option ℕ
unfolding new_uint
calc_price_impact X x = if x == 0 then some 0 else new_uint (pos (x / (x + X)))

pub record Swapped : Type 0 where
  pub swap_result : ℕ
  pub liquidity_fee : ℕ
  pub price_impact : ℕ
  pub pool : Pool

-- The end of `SwapOne`.
unfoldable pub settle_swap : Pool → Bool → ℕ → ℕ → ℕ → ℕ → ℕ → ℕ → Outcome Swapped
unfolding update_balances
settle_swap p to_fury X x Y impact y fee =
    if leb Y y
    then err Error.not_enough_asset_tokens
    else elim (update_balances p to_fury X x Y y) [
      | none ↦ panic
      | some q ↦
          ok (record { swap_result = y; liquidity_fee = fee; price_impact = impact; pool = q })
    ]

-- `from` is not read.
unfoldable pub swap_one : String → ℕ → String → Pool → ℤ → ℤ → Outcome Swapped
unfolding extract_values extract_debt calc_price_impact calc_swap_result settle_swap
swap_one from x to p pmtp_rate fee_rate =
    let (X, Y, to_fury) = extract_values p to in
    elim (extract_debt p X Y to_fury) [
      | none ↦ panic
      | some (X', Y') ↦ elim (calc_price_impact X' x) [
        | none ↦ panic
        | some impact ↦ elim (calc_swap_result to_fury X' x Y' pmtp_rate fee_rate) [
          | none ↦ panic
          | some (y, fee) ↦ settle_swap p to_fury X x Y impact y fee
        ]
      ]
    ]

unfoldable pub get_swap_fee : ℕ → String → Pool → ℤ → ℤ → Option ℕ
unfolding extract_values extract_debt calc_swap_result
get_swap_fee x to p pmtp_rate fee_rate =
    let (X, Y, to_fury) = extract_values p to in
    do
      (X', Y') ← extract_debt p X Y to_fury
      (y, fee) ← calc_swap_result to_fury X' x Y' pmtp_rate fee_rate
      some (if leb Y' y then 0 else y)
