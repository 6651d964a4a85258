-- ===== src/Clp/Threshold.antt =====
-- The threshold of the liquidity protection stays between nothing and its maximum.
use furynode.Prelude.{
  ℕ, ◌+◌, ◌-◌, ◌^◌, ◌≤◌, ◌<◌, ◌≡◌, refl, Bool, true, false, some, arith, if◌then◌else◌, leb,
}
use furynode.Clp.Rat.{uint_add, uint_sub}
use furynode.Clp.Keeper.{Externals}
use furynode.Clp.Protection.{updated_threshold}

-- With the threshold at or below its maximum, which fits 256 bits, and a sale of at most the
-- threshold, an update of the threshold does not panic, and the new threshold is at or below the
-- maximum: a sale takes its value away, and a purchase adds its value or fills the threshold up.
pub updated_threshold-total :
    (ext : Externals) (sell : Bool) (max current value : ℕ)
    → current ≤ max
    → max < 2 ^ 256
    → (sell ≡ true → value ≤ current)
    → (n : ℕ) × (updated_threshold ext sell max current value ≡ some n)
      × (n ≤ max)
      × (if sell then n + value else n)
        ≡ (if sell then current else (if leb max (current + value) then max else current + value))
unfolding updated_threshold uint_add uint_sub
updated_threshold-total ext true max current value below fits small =
    let h = small refl in (current - value, ground arith, omega arith, omega arith)
updated_threshold-total ext false max current value below fits small =
    ((if leb max (current + value) then max else current + value), ground arith, ground arith, refl)
