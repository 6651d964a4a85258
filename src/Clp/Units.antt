-- ===== src/Clp/Units.antt =====
-- What an addition to a pool gives in units, and which asset it needs more of.
use native.Mathlib.Nat.{div-mul-le_self, lt-div-mul-add}
use furynode.Prelude.{ℕ, zero, ◌+◌, ◌*◌, ◌/◌, ◌^◌, ◌≤◌, ◌<◌, ◌≡◌, refl, ◌⊎◌, some, arith}
use furynode.Clp.Rat.{new_uint, uint_add}
use furynode.Clp.Swap.{
  calculate_pool_units_symmetric, SymmetryState, empty_pool, nothing_added, need_more_y, symmetric,
  need_more_x,
}

-- An addition to a side of the pool that is not empty does not panic while the units stay below
-- 256 bits, and gives the provider the most units that do not dilute the others.
pub calculate_pool_units_symmetric-total :
    (X x P : ℕ)
    → zero < X
    → P + x * P / X < 2 ^ 256
    → (pool_units : ℕ) × (provider_units : ℕ) × (calculate_pool_units_symmetric X x P
        ≡ some (pool_units, provider_units))
      × (pool_units ≡ P + provider_units)
      × (pool_units * X ≤ P * (X + x))
      × (P * (X + x) < (pool_units + 1) * X)
unfolding calculate_pool_units_symmetric new_uint uint_add
calculate_pool_units_symmetric-total X x P h k =
    let u = x * P / X in
    (
      P + u,
      u,
      ground arith,
      refl,
      omega (arith, div-mul-le_self (x * P) X),
      omega (arith, lt-div-mul-add {a = x * P} {b = X} h),
    )

-- The state of an addition in terms of the cross products.
abbrev pub Means : SymmetryState → ℕ → ℕ → ℕ → ℕ → Type 0
Means empty_pool X x Y y = (X ≡ 0) ⊎ (Y ≡ 0)
Means nothing_added X x Y y = (x ≡ 0) × (y ≡ 0)
Means need_more_y X x Y y = (zero < x) × (y * X < Y * x)
Means symmetric X x Y y = (zero < x) × (Y * x ≡ y * X)
Means need_more_x X x Y y = Y * x < y * X
