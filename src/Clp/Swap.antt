-- ===== src/Clp/Swap.antt =====
-- x/clp/keeper/calculations.go: the result of a swap, and the units of a pool.
use furynode.Prelude.{
  ℕ, ◌*◌, ◌/◌, ◌==◌, ltb, Bool, ◌||◌, ◌&&◌, Option, none, some, [], ◌∷◌, if◌then◌else◌,
}
use furynode.Prelude.Int.{ℤ, pos}
use furynode.Clp.Rat.{
  Rat, set_int, rat_add, rat_mul, rat_quo, dec_to_rat, rat_int_quo, new_uint, uint_sub, uint_add,
  is_any_zero, ◌>>=◌,
}

-- `y = (x * Y) / (X + x)`
unfoldable pub calc_raw_xyk : ℕ → ℕ → ℕ → Option Rat
unfolding rat_quo rat_mul rat_add
calc_raw_xyk x X Y = rat_quo (rat_mul (set_int x) (set_int Y)) (rat_add (set_int X) (set_int x))

unfoldable pub calc_pmtp_factor : ℤ → Rat
unfolding rat_add
calc_pmtp_factor r = rat_add (set_int 1) (dec_to_rat r)

-- The amount that the user gets, and the fee; `none` is a panic.
unfoldable pub calc_swap_result : Bool → ℕ → ℕ → ℕ → ℤ → ℤ → Option (ℕ × ℕ)
unfolding is_any_zero calc_raw_xyk calc_pmtp_factor rat_mul rat_quo
calc_swap_result to_fury X x Y pmtp_rate fee_rate =
    if is_any_zero (X ∷ x ∷ Y ∷ []) then some (0, 0) else (do
      raw ← calc_raw_xyk x X Y
      let factor = calc_pmtp_factor pmtp_rate
      adjusted ← if to_fury then rat_quo raw factor else some (rat_mul raw factor)
      percent_fee ← new_uint (rat_int_quo (rat_mul adjusted (dec_to_rat fee_rate)))
      whole ← new_uint (rat_int_quo adjusted)
      y ← uint_sub whole percent_fee
      some (y, percent_fee))

-- The units of the pool and of the provider after an addition of `x` to `X`; `none` is a panic.
unfoldable pub calculate_pool_units_symmetric : ℕ → ℕ → ℕ → Option (ℕ × ℕ)
unfolding new_uint uint_add
calculate_pool_units_symmetric X x P = if X == 0 then none else (do
  provider_units ← new_uint (pos (x * P / X))
  pool_units ← uint_add P provider_units
  some (pool_units, provider_units))

pub data SymmetryState : Type 0 where
  empty_pool nothing_added need_more_y symmetric need_more_x : SymmetryState

-- The comparison of `Y / X` with `y / x`, by the cross products.
unfoldable pub get_liquidity_add_symmetry_state : ℕ → ℕ → ℕ → ℕ → SymmetryState
get_liquidity_add_symmetry_state X x Y y =
    if X == 0 || Y == 0
    then empty_pool
    else (if x == 0 && y == 0
        then nothing_added
        else (if x == 0
            then need_more_x
            else (if ltb (Y * x) (y * X)
                then need_more_x
                else (if Y * x == y * X then symmetric else need_more_y))))
