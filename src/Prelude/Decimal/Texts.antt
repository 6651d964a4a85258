-- ===== src/Prelude/Decimal/Texts.antt =====
-- The text of an integer is not empty.
use Prim.Native.String.{◌++◌ as text_append, len}
use text.Mathlib.TextPositions.{len-append}
use furynode.Prelude.{
  ℕ, zero, suc, ◌/◌, ◌%◌, ◌≤◌, ◌<◌, ◌≡◌, refl, String, ltb, inl, inr, arith, Bool-cases,
}
use furynode.Prelude.Int.{ℤ, pos, negsuc}
use furynode.Prelude.Decimal.{digit, decimal, format_int}

len-digit : (d : ℕ) → d < 10 → len (digit d) ≡ 1
unfolding digit
len-digit zero h = refl
len-digit (suc zero) h = refl
len-digit (suc (suc zero)) h = refl
len-digit (suc (suc (suc zero))) h = refl
len-digit (suc (suc (suc (suc zero)))) h = refl
len-digit (suc (suc (suc (suc (suc zero))))) h = refl
len-digit (suc (suc (suc (suc (suc (suc zero)))))) h = refl
len-digit (suc (suc (suc (suc (suc (suc (suc zero))))))) h = refl
len-digit (suc (suc (suc (suc (suc (suc (suc (suc zero)))))))) h = refl
len-digit (suc (suc (suc (suc (suc (suc (suc (suc (suc zero))))))))) h = refl
len-digit (suc (suc (suc (suc (suc (suc (suc (suc (suc (suc n)))))))))) h = absurd (omega arith)

len-decimal : (fuel n : ℕ) (acc : String) → len acc ≤ len (decimal fuel n acc)
unfolding decimal
len-decimal zero n acc = omega arith
len-decimal (suc fuel) n acc =
    let rest = len-decimal fuel (n / 10) (text_append (digit (n % 10)) acc) in
    let more = len-append (digit (n % 10)) acc in
    let last = len-append (digit n) acc in
    elim (Bool-cases (ltb n 10)) [
      | inl small ↦ rw (small, last) (omega arith)
      | inr large ↦ rw large (omega arith)
    ]

len-decimal_pos : (fuel n : ℕ) (acc : String) → 1 ≤ len (decimal (suc fuel) n acc)
unfolding decimal
len-decimal_pos fuel n acc =
    let rest = len-decimal fuel (n / 10) (text_append (digit (n % 10)) acc) in
    let more = len-append (digit (n % 10)) acc in
    let one = len-digit (n % 10) (omega arith) in
    let last = len-append (digit n) acc in
    elim (Bool-cases (ltb n 10)) [
      | inl small ↦ rw (small, last, len-digit n (ground arith)) (omega arith)
      | inr large ↦ rw large (omega arith)
    ]

pub len-format_int : (n : ℤ) → 1 ≤ len (format_int n)
unfolding format_int
len-format_int (pos n) = len-decimal_pos 19 n ""
len-format_int (negsuc n) = let d = decimal 20 (suc n) "" in rw (len-append "-" d) (omega arith)
