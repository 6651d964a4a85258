-- ===== src/Clp/Price.antt =====
-- A swap into fury never panics, and never pays more than the constant product allows.
use native.Mathlib.Nat.{le_of_mul-le-mul_right, mul-pos}
use furynode.Prelude.{
  ℕ, zero, suc, ◌+◌, ◌-◌, ◌*◌, ◌/◌, ◌^◌, ◌≤◌, ◌<◌, ◌≡◌, refl, ap, ◌∙◌, inl, inr, true, false,
  Option, some, [], ◌∷◌, arith, Bool-cases,
}
use furynode.Prelude.Int.{pos, ◌+ℤ◌}
use furynode.Clp.Rat.{
  Rat, rat_add, rat_mul, rat_quo, dec_to_rat, rat_int_quo, new_uint, uint_sub, is_any_zero, ◌>>=◌,
  ◌*ℤ◌,
}
use furynode.Clp.Swap.{calc_raw_xyk, calc_pmtp_factor, calc_swap_result}
use furynode.Clp.Quotients.{part_le, price_le, product_le}

abbrev fraction : ℕ → ℕ → Rat
fraction a b = record { num = pos a; denom = b }

rat_quo_pos :
    (a b c d : ℕ)
    → zero < c
    → rat_quo (fraction a b) (fraction c d) ≡ some (fraction (a * d) (b * c))
unfolding rat_quo ◌*ℤ◌
rat_quo_pos a b zero d h = absurd (omega arith)
rat_quo_pos a b (suc c) d h = refl

-- The end of a swap, from the quotient before the fee.
abbrev pay : ℕ → ℕ → ℕ → Option (ℕ × ℕ)
pay a b f = do
  percent_fee ← new_uint (rat_int_quo (rat_mul (fraction a b) (dec_to_rat (pos f))))
  whole ← new_uint (rat_int_quo (fraction a b))
  y ← uint_sub whole percent_fee
  some (y, percent_fee)

new_uint_pos : (n : ℕ) → n < 2 ^ 256 → new_uint (pos n) ≡ some n
unfolding new_uint
new_uint_pos n h = ground arith

pay_total :
    (a b f : ℕ)
    → zero < b
    → f ≤ 10 ^ 18
    → a / b < 2 ^ 256
    → (y : ℕ) × (fee : ℕ) × (pay a b f ≡ some (y, fee)) × (y + fee ≡ a / b)
unfolding rat_mul ◌*ℤ◌ rat_int_quo uint_sub
pay_total a b f hb hf h =
    let fee = a * f / (b * 10 ^ 18) in
    let small : fee ≤ a / b = part_le a b f (10 ^ 18) hb (omega arith) hf in
    (
      a / b - fee,
      fee,
      rw (new_uint_pos fee (omega arith), new_uint_pos (a / b) h) (ground arith),
      omega arith,
    )

abbrev some_fraction : ℕ → ℕ → Option Rat
some_fraction a b = some (fraction a b)

rat_add-pos :
    (a b c d : ℕ) → rat_add (fraction a b) (fraction c d) ≡ fraction (a * d + c * b) (b * d)
unfolding rat_add ◌*ℤ◌ ◌+ℤ◌
rat_add-pos a b c d = ground arith

calc_raw_xyk-pos : (X x Y : ℕ) → zero < X + x → calc_raw_xyk x X Y ≡ some_fraction (x * Y) (X + x)
unfolding calc_raw_xyk rat_mul ◌*ℤ◌
calc_raw_xyk-pos X x Y h =
    ap (rat_quo (fraction (x * Y) 1)) (rat_add-pos X 1 x 1)
    ∙ rat_quo_pos (x * Y) 1 (X * 1 + x * 1) 1 (omega arith)
    ∙ ap (λ a. some_fraction a (1 * (X * 1 + x * 1))) (omega arith)
    ∙ ap (some_fraction (x * Y)) (omega arith)

calc_pmtp_factor-pos : (p : ℕ) → calc_pmtp_factor (pos p) ≡ fraction (10 ^ 18 + p) (10 ^ 18)
unfolding calc_pmtp_factor
calc_pmtp_factor-pos p = rat_add-pos 1 1 p (10 ^ 18) ∙ ap (λ a. fraction a (10 ^ 18)) (omega arith)

-- A swap into fury, with all amounts there: the quotient that is paid.
calc_swap_result-pay :
    (X x Y p f : ℕ)
    → is_any_zero (X ∷ x ∷ Y ∷ []) ≡ false
    → zero < X + x
    → calc_swap_result true X x Y (pos p) (pos f)
      ≡ pay (x * Y * 10 ^ 18) ((X + x) * (10 ^ 18 + p)) f
unfolding calc_swap_result
calc_swap_result-pay X x Y p f h k =
    rw
      (
        h,
        calc_raw_xyk-pos X x Y k,
        calc_pmtp_factor-pos p,
        rat_quo_pos (x * Y) (X + x) (10 ^ 18 + p) (10 ^ 18) (omega arith),
      )
      refl

is_any_zero-false :
    (X x Y : ℕ) → is_any_zero (X ∷ x ∷ Y ∷ []) ≡ false → (zero < X) × (zero < x) × (zero < Y)
unfolding is_any_zero
is_any_zero-false X x Y h = ground arith

price_pos : (X x p : ℕ) → zero < X → zero < (X + x) * (10 ^ 18 + p)
price_pos X x p h = mul-pos {m = X + x} {n = 10 ^ 18 + p} (omega arith) (omega arith)

swap_bound :
    (X x Y p : ℕ)
    → zero < X
    → let q = x * Y * 10 ^ 18 / ((X + x) * (10 ^ 18 + p)) in (q ≤ Y) × (X * Y ≤ (X + x) * (Y - q))
swap_bound X x Y p h =
    let q = x * Y * 10 ^ 18 / ((X + x) * (10 ^ 18 + p)) in
    let paid : q * (X + x) ≤ x * Y = price_le (x * Y) (X + x) (10 ^ 18) p (omega arith) in
    let fits : q ≤ Y =
      le_of_mul-le-mul_right {m = q} {n = Y} {k = X + x} (omega (arith, paid)) (omega arith) in
    (fits, product_le X x Y q fits paid)

swap_nothing :
    (X x Y p f : ℕ)
    → is_any_zero (X ∷ x ∷ Y ∷ []) ≡ true
    → calc_swap_result true X x Y (pos p) (pos f) ≡ some (0, 0)
unfolding calc_swap_result
swap_nothing X x Y p f h = rw h refl

-- A swap into fury at rates that are not negative, the fee at most one and the pool below 256
-- bits, does not panic; what it pays and takes as a fee is in the pool, and the product of the
-- two sides does not shrink.
pub calc_swap_result-total :
    (X x Y p f : ℕ)
    → f ≤ 10 ^ 18
    → Y < 2 ^ 256
    → (y : ℕ) × (fee : ℕ) × (calc_swap_result true X x Y (pos p) (pos f) ≡ some (y, fee))
      × (y + fee ≤ Y)
      × (X * Y ≤ (X + x) * (Y - (y + fee)))
calc_swap_result-total X x Y p f hf hY = elim (Bool-cases (is_any_zero (X ∷ x ∷ Y ∷ []))) [
  | inl empty ↦ (
    0,
    0,
    swap_nothing X x Y p f empty,
    omega arith,
    product_le X x Y 0 (omega arith) (omega arith),
  )
  | inr full ↦
      let (hX, hx, _) = is_any_zero-false X x Y full in
      let (fits, product) = swap_bound X x Y p hX in
      let (y, fee, e, whole) =
        pay_total (x * Y * 10 ^ 18) ((X + x) * (10 ^ 18 + p)) f (price_pos X x p hX) hf
          (omega (arith, fits)) in
      (
        y,
        fee,
        calc_swap_result-pay X x Y p f full (omega arith) ∙ e,
        omega (arith, fits),
        rw whole product,
      )
]
