-- ===== src/Clp/Rat.antt =====
-- The rationals of math/big and the unsigned integers of the SDK, as
-- x/clp/keeper/pureCalculation.go and calculations.go use them. A fraction is kept as it comes, not
-- in lowest terms: what is read of it, the truncated quotient and the comparison, does not depend
-- on it.
use furynode.Prelude.{
  ℕ, zero, suc, ◌+◌, ◌-◌, ◌*◌, ◌/◌, ◌^◌, Bool, false, ◌||◌, Option, none, some, List, [], ◌∷◌, ltb,
  leb, ◌==◌, if◌then◌else◌,
}
use furynode.Prelude.Int.{ℤ, pos, negsuc, ◌+ℤ◌}

-- Minus a natural number.
abbrev neg : ℕ → ℤ
neg zero = pos 0
neg (suc n) = negsuc n

infixl 70 ◌*ℤ◌
unfoldable pub ◌*ℤ◌ : ℤ → ℤ → ℤ
pos a *ℤ pos b = pos (a * b)
pos a *ℤ negsuc b = neg (a * suc b)
negsuc a *ℤ pos b = neg (suc a * b)
negsuc a *ℤ negsuc b = pos (suc a * suc b)

pub record Rat : Type 0 where
  pub num : ℤ
  pub denom : ℕ

abbrev pub set_int : ℕ → Rat
set_int n = record { num = pos n; denom = 1 }

unfoldable pub rat_add : Rat → Rat → Rat
unfolding ◌+ℤ◌ ◌*ℤ◌
rat_add a b = record {
  num = (a.num *ℤ pos b.denom) +ℤ (b.num *ℤ pos a.denom);
  denom = a.denom * b.denom;
}

unfoldable pub rat_mul : Rat → Rat → Rat
unfolding ◌*ℤ◌
rat_mul a b = record { num = a.num *ℤ b.num; denom = a.denom * b.denom }

-- `none` is the panic of a division by zero.
unfoldable pub rat_quo : Rat → Rat → Option Rat
unfolding ◌*ℤ◌
rat_quo a b = elim b.num [
  | pos n ↦ elim n [
    | zero ↦ none
    | suc m ↦ some (record { num = a.num *ℤ pos b.denom; denom = a.denom * suc m })
  ]
  | negsuc n ↦ some (record { num = a.num *ℤ neg b.denom; denom = a.denom * suc n })
]

-- `DecToRat`: a decimal is an integer over 10 ^ 18.
abbrev pub dec_to_rat : ℤ → Rat
dec_to_rat d = record { num = d; denom = 10 ^ 18 }

-- `RatIntQuo`: the quotient, truncated.
unfoldable pub rat_int_quo : Rat → ℤ
rat_int_quo r = elim r.num [ pos n ↦ pos (n / r.denom) | negsuc n ↦ neg (suc n / r.denom) ]

-- `sdk.NewUintFromBigInt`: `none` is its panic, on a negative number or one above 256 bits.
unfoldable pub new_uint : ℤ → Option ℕ
new_uint (pos n) = if ltb n (2 ^ 256) then some n else none
new_uint (negsuc n) = none

-- `sdk.Uint.Sub`, which panics below zero, and `sdk.Uint.Add`, which panics above 256 bits.
unfoldable pub uint_sub : ℕ → ℕ → Option ℕ
uint_sub a b = if leb b a then some (a - b) else none

unfoldable pub uint_add : ℕ → ℕ → Option ℕ
uint_add a b = if ltb (a + b) (2 ^ 256) then some (a + b) else none

unfoldable pub is_any_zero : List ℕ → Bool
is_any_zero [] = false
is_any_zero (n ∷ l) = n == 0 || is_any_zero l

-- A chain of calls that may panic.
infixl 5 ◌>>=◌
abbrev pub ◌>>=◌ {ℓ ℓ'} : {A : Type ℓ} {B : Type ℓ'} → Option A → (A → Option B) → Option B
m >>= f = elim m [ none ↦ none | some a ↦ f a ]
