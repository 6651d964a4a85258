-- ===== src/Clp/Quotients.antt =====
-- Inequalities between the rounded quotients of the market maker.
use native.Mathlib.Nat.{div-mul-le_self, le_of_mul-le-mul_right, mul-le-mul_left, le-div_iff_mul-le}
use furynode.Prelude.{ℕ, zero, ◌+◌, ◌-◌, ◌*◌, ◌/◌, ◌≤◌, ◌<◌, ◌≡◌, sym, subst, arith}

-- A part of a quotient is at most the quotient.
pub part_le : (A B f S : ℕ) → zero < B → zero < S → f ≤ S → A * f / (B * S) ≤ A / B
part_le A B f S hB hS h =
    let q = A * f / (B * S) in
    let scaled : q * B * S ≤ A * S =
      omega (arith, div-mul-le_self (A * f) (B * S), mul-le-mul_left {m = f} {n = S} A h) in
    (le-div_iff_mul-le {k = B} {x = q} {y = A} hB).1
      (le_of_mul-le-mul_right {m = q * B} {n = A} {k = S} scaled hS)

-- A quotient taken at a discount stays below the one at full price.
pub price_le : (A D S p : ℕ) → zero < S → A * S / (D * (S + p)) * D ≤ A
price_le A D S p hS =
    let q = A * S / (D * (S + p)) in
    let scaled : q * D * S ≤ A * S = omega (arith, div-mul-le_self (A * S) (D * (S + p))) in
    le_of_mul-le-mul_right {m = q * D} {n = A} {k = S} scaled hS

product_at : (X x q r : ℕ) → q * (X + x) ≤ x * (q + r) → X * (q + r) ≤ (X + x) * r
product_at X x q r h = omega arith

-- What is paid at the price of the constant product leaves the product at least as it was.
pub product_le : (X x Y q : ℕ) → q ≤ Y → q * (X + x) ≤ x * Y → X * Y ≤ (X + x) * (Y - q)
product_le X x Y q fits h =
    let e : q + (Y - q) ≡ Y = omega arith in
    subst (λ z. X * z ≤ (X + x) * (Y - q)) e
      (product_at X x q (Y - q) (subst (λ z. q * (X + x) ≤ x * z) (sym e) h))
