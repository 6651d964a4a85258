-- ===== src/Tests/Clp.antt =====
-- Runs of the market maker's arithmetic.
use furynode.Prelude.{ℕ, ◌+◌, ◌-◌, ◌*◌, ◌^◌, ◌≤◌, ◌<◌, ◌≡◌, true, some, arith}
use furynode.Prelude.Int.{pos}
use furynode.Clp.Swap.{calc_swap_result, calculate_pool_units_symmetric}
use furynode.Clp.Price.{calc_swap_result-total}
use furynode.Clp.Units.{calculate_pool_units_symmetric-total}

calc_swap_result-total_example :
    (y : ℕ) × (fee : ℕ) × (calc_swap_result true 1000 100 5000 (pos 0) (pos (3 * 10 ^ 15))
      ≡ some (y, fee))
    × (y + fee ≤ 5000)
    × (1000 * 5000 ≤ (1000 + 100) * (5000 - (y + fee)))
calc_swap_result-total_example =
    calc_swap_result-total 1000 100 5000 0 (3 * 10 ^ 15) (omega arith) (omega arith)

calculate_pool_units_symmetric-total_example :
    (pool_units : ℕ) × (provider_units : ℕ) × (calculate_pool_units_symmetric 1000 70 300
      ≡ some (pool_units, provider_units))
    × (pool_units ≡ 300 + provider_units)
    × (pool_units * 1000 ≤ 300 * (1000 + 70))
    × (300 * (1000 + 70) < (pool_units + 1) * 1000)
calculate_pool_units_symmetric-total_example =
    calculate_pool_units_symmetric-total 1000 70 300 (omega arith) (omega arith)
